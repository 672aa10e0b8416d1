-- ===== src/Gateway/LoadBalancer/ConsistentHash/Search.antt =====
-- The binary search finds the clockwise successor of a hash.
use mathlib.Core.Option
use realtime_chat_platform.Prelude.{
  ℕ, zero, suc, ◌+◌, ◌/◌, ◌≤◌, ◌<◌, ◌≡◌, refl, ◌≢◌, inl, inr, Option, none, some, List, [], ◌∷◌,
  if◌then◌else◌, ltb, leb, leb→le, ltb→lt, length, get_elem?, Bool-cases, arith,
}
use realtime_chat_platform.Gateway.LoadBalancer.Hash.{hash_key}
use realtime_chat_platform.Gateway.LoadBalancer.ConsistentHash.{
  RingPoint, ConsistentHash, hash_at, search_loop, lookup,
}
use realtime_chat_platform.Gateway.LoadBalancer.ConsistentHash.Ring.{Above, IsSorted}

-- The specification: the first point at or after the hash, and the first of the ring past the last.
abbrev pub first_from : ℕ → List RingPoint → Option RingPoint
first_from h [] = none
first_from h (p ∷ ring) = if leb h p.hash then some p else first_from h ring

abbrev pub successor : ℕ → List RingPoint → Option RingPoint
successor h ring = elim (first_from h ring) [ some p ↦ some p | none ↦ get_elem? ring 0 ]

-- The points before `r` lie before the hash, the others at or after it.
pub record Splits (ring : List RingPoint) (h r : ℕ) : Type 0 where
  pub in_range : r ≤ length ring
  pub before : (k : ℕ) → k < r → hash_at ring k < h
  pub after : (k : ℕ) → r ≤ k → k < length ring → h ≤ hash_at ring k

Above-hash_at :
    (h k : ℕ) (ring : List RingPoint) → Above h ring → k < length ring → h ≤ hash_at ring k
Above-hash_at h k [] a lt = elim lt [ ]
Above-hash_at h zero (p ∷ ring) a lt = a.0
Above-hash_at h (suc k) (p ∷ ring) a lt = Above-hash_at h k ring a.1 (omega arith)

hash_at_mono :
    (ring : List RingPoint) (i j : ℕ)
    → IsSorted ring
    → i ≤ j
    → j < length ring
    → hash_at ring i ≤ hash_at ring j
hash_at_mono [] i j s le lt = elim lt [ ]
hash_at_mono (p ∷ ring) zero zero s le lt = omega arith
hash_at_mono (p ∷ ring) zero (suc j) s le lt = Above-hash_at p.hash j ring s.0 (omega arith)
hash_at_mono (p ∷ ring) (suc i) zero s le lt = absurd (omega arith)
hash_at_mono (p ∷ ring) (suc i) (suc j) s le lt =
    hash_at_mono ring i j s.1 (omega arith) (omega arith)

module _ (ring : List RingPoint) (h : ℕ) (sorted : IsSorted ring) where
  search_loop-Splits :
      (fuel i j : ℕ)
      → j ≤ i + fuel
      → i ≤ j
      → j ≤ length ring
      → ((k : ℕ) → k < i → hash_at ring k < h)
      → ((k : ℕ) → j ≤ k → k < length ring → h ≤ hash_at ring k)
      → Splits ring h (search_loop fuel ring h i j)
  unfolding search_loop
  search_loop-Splits zero i j enough le top before after = record {
    in_range = omega arith;
    before = before;
    after = λ k ik kn. after k (omega arith) kn;
  }
  search_loop-Splits (suc fuel) i j enough le top before after = elim (Bool-cases (ltb i j)) [
    | inr done ↦
        rw (done, search_loop)
          (record {
            in_range = omega arith;
            before = before;
            after = λ k ik kn. after k (ground arith) kn;
          })
    | inl more ↦
        let m = (i + j) / 2 in
        let lt : i < j = ltb→lt i j more in
        elim (Bool-cases (leb h (hash_at ring m))) [
          | inl high ↦
              rw (more, high, search_loop)
                (search_loop-Splits fuel i m (omega arith) (omega arith) (omega arith) before
                  (λ k mk kn.
                    (let up = hash_at_mono ring m k sorted mk kn in
                      omega (arith, leb→le h (hash_at ring m) high))))
          | inr low ↦
              rw (more, low, search_loop)
                (search_loop-Splits fuel (suc m) j (omega arith) (omega arith) top
                  (λ k km.
                    (let up = hash_at_mono ring k m sorted (omega arith) (omega arith) in
                      ground arith))
                  after)
        ]
  ]

first_from-Splits :
    (ring : List RingPoint) (h r : ℕ) → Splits ring h r → first_from h ring ≡ get_elem? ring r
first_from-Splits [] h r s = refl
first_from-Splits (p ∷ ring) h zero s = ground (arith, s.after 0)
first_from-Splits (p ∷ ring) h (suc r) s =
    let lt : p.hash < h = s.before 0 (omega arith) in
    let rest = first_from-Splits ring h r (record {
      in_range = omega (arith, s.in_range);
      before = λ k kr. s.before (suc k) (omega arith);
      after = λ k rk kn. s.after (suc k) (omega arith) (omega arith);
    }) in
    ground (arith, rest)

get_elem?_end {ℓ} : {A : Type ℓ} (l : List A) (r : ℕ) → length l ≤ r → get_elem? l r ≡ none
get_elem?_end [] r h = refl
get_elem?_end (x ∷ l) zero h = absurd (omega arith)
get_elem?_end (x ∷ l) (suc r) h = get_elem?_end l r (omega arith)

get_elem?_some {ℓ} : {A : Type ℓ} (l : List A) (r : ℕ) → r < length l → get_elem? l r ≢ none
get_elem?_some [] r h = elim h [ ]
get_elem?_some (x ∷ l) zero h = λ e. cc
get_elem?_some (x ∷ l) (suc r) h = get_elem?_some l r (omega arith)

-- The binary search over a sorted ring, with its wrap at the end, picks the backend of the first
-- point at or after the key's hash, and that of the first point of the ring if there is none.
pub lookup-successor :
    (s : ConsistentHash) (key : List ℕ)
    → IsSorted s.ring
    → lookup s key ≡ Option.map (λ (p : RingPoint). p.backend) (successor (hash_key key) s.ring)
unfolding lookup
lookup-successor s key sorted =
    let h = hash_key key in
    let n = length s.ring in
    let r = search_loop n s.ring h 0 n in
    let split : Splits s.ring h r =
      search_loop-Splits s.ring h sorted n 0 n (omega arith) (omega arith) (omega arith)
        (λ k lt. absurd (omega arith)) (λ k nk kn. absurd (omega arith)) in
    ground (
      arith,
      first_from-Splits s.ring h r split,
      get_elem?_end s.ring r,
      get_elem?_some s.ring r,
      split.in_range,
    )
