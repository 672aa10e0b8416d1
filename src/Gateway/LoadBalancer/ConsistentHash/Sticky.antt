-- ===== src/Gateway/LoadBalancer/ConsistentHash/Sticky.antt =====
-- A room stays with its instance, whatever the health checker does.
use mathlib.Core.Option
use realtime_chat_platform.Prelude.{
  ℕ, zero, suc, ◌+◌, ◌≤◌, ◌<◌, ◌≡◌, refl, sym, ap, ◌∙◌, subst, inl, inr, String, some, List, [],
  ◌∷◌, map, if◌then◌else◌, length, get_elem?, All, Option-cases, bytes, arith,
}
use realtime_chat_platform.Gateway.LoadBalancer.Pool.{
  Url, Backend, Pool, ProbeReply, probe, check_all,
}
use realtime_chat_platform.Gateway.LoadBalancer.Hash.{hash_key}
use realtime_chat_platform.Gateway.LoadBalancer.ConsistentHash.{
  RingPoint, all_points, new_consistent_hash, lookup, picked, backend_down, pick,
}
use realtime_chat_platform.Prelude.{get_elem?-of-lt}
use realtime_chat_platform.Gateway.LoadBalancer.Pool.Health.{
  IsConstructed, Numbered, swept, check_all_lem,
}
use realtime_chat_platform.Gateway.LoadBalancer.ConsistentHash.Ring.{
  new_consistent_hash_lem, sort-All, length-sort, length-all_points, all_points-All,
}
use realtime_chat_platform.Gateway.LoadBalancer.ConsistentHash.Search.{
  first_from, successor, lookup-successor,
}

Numbered-bound :
    (id n : ℕ) (bs : List Backend) → id + length bs ≤ n → Numbered id bs → All (λ b. b.id < n) bs
Numbered-bound id n [] le h = tt
Numbered-bound id n (b ∷ bs) le h = (omega arith, Numbered-bound (suc id) n bs (omega arith) h.2)

Numbered-get :
    (id i : ℕ) (bs : List Backend) (b : Backend)
    → Numbered id bs
    → get_elem? bs i ≡ some b
    → b.id ≡ id + i
Numbered-get id i [] b n e = cc
Numbered-get id zero (c ∷ bs) b n e = ground arith
Numbered-get id (suc i) (c ∷ bs) b n e = omega (arith, Numbered-get (suc id) i bs b n.2 e)

successor-some :
    (n h : ℕ) (ring : List RingPoint)
    → All (λ p. p.backend < n) ring
    → 0 < length ring
    → (p : RingPoint) × (successor h ring ≡ some p) × (p.backend < n)
successor-some n h [] a ne = elim ne [ ]
successor-some n h (p ∷ ring) a ne = elim (Option-cases (first_from h (p ∷ ring))) [
  | inl past ↦ (p, ground arith, a.0)
  | inr (q, found) ↦ (q, ground arith, first_below (p ∷ ring) q a found)
]
  where
    first_below :
        (l : List RingPoint) (q : RingPoint)
        → All (λ p. p.backend < n) l
        → first_from h l ≡ some q
        → q.backend < n
    first_below [] q a e = cc
    first_below (x ∷ l) q a e = ground (arith, first_below l q a.1)

lookup_total :
    (pool : Pool) (key : List ℕ)
    → IsConstructed pool
    → (id : ℕ) × (lookup (new_consistent_hash pool) key ≡ some id) × (id < length pool.backends)
unfolding new_consistent_hash
lookup_total pool key c =
    let s = new_consistent_hash pool in
    let ps = all_points pool.backends in
    let n = length pool.backends in
    let (p, found, below) =
      successor-some n (hash_key key) s.ring
        (sort-All (λ p. p.backend < n) ps
          (all_points-All (λ id. id < n) pool.backends
            (Numbered-bound 0 n pool.backends (omega arith) c.numbered)))
        (omega (arith, length-sort ps, length-all_points pool.backends, c.nonempty)) in
    (
      p.backend,
      lookup-successor s key (new_consistent_hash_lem pool).0
          ∙ ap (Option.map (λ (p : RingPoint). p.backend)) found,
      below,
    )

get_elem?-map {ℓ} :
    {A : Type ℓ} (f : A → A) (l : List A) (i : ℕ) {a : A}
    → get_elem? l i ≡ some a
    → get_elem? (map f l) i ≡ some (f a)
get_elem?-map f [] i e = cc
get_elem?-map f (x ∷ l) zero e = ap (Option.map f) e
get_elem?-map f (x ∷ l) (suc i) e = get_elem?-map f l i e

-- In a pool as `NewPool` makes it, every key has an owner, and the pick is that instance or the
-- error that it is down, never another instance and never a fault. After a health sweep the owner
-- is the same instance, and the answer turns on its own health alone.
pub pick_sticky :
    (pool : Pool) (reply : Url → ProbeReply) (key : String)
    → IsConstructed pool
    → (b : Backend) × (get_elem? pool.backends b.id ≡ some b)
      × (pick (new_consistent_hash pool) pool key
          ≡ (if b.healthy then picked b else backend_down key b))
      × (pick (new_consistent_hash pool) (check_all reply pool).0 key ≡ (
          if probe (reply b.url) then picked (swept reply b) else backend_down key (swept reply b)))
unfolding pick
pick_sticky pool reply key c =
    let (id, owner, below) = lookup_total pool (bytes key) c in
    let (b, found) = get_elem?-of-lt pool.backends id below in
    let same : b.id ≡ id = omega (arith, Numbered-get 0 id pool.backends b c.numbered found) in
    let after : get_elem? (check_all reply pool).0.backends id ≡ some (swept reply b) =
      ap (λ l. get_elem? l id) (check_all_lem reply pool).0
      ∙ get_elem?-map (swept reply) pool.backends id found in
    (
      b,
      subst (λ i. get_elem? pool.backends i ≡ some b) (sym same) found,
      rw (owner, found, pick) refl,
      rw (owner, after, pick) refl,
    )
