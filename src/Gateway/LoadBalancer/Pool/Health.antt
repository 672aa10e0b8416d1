-- ===== src/Gateway/LoadBalancer/Pool/Health.antt =====
-- What a constructed pool guarantees, and what a health sweep does to it.
use realtime_chat_platform.Prelude.Maps
use realtime_chat_platform.Prelude.{
  ℕ, suc, ◌<◌, ◌≡◌, refl, sym, ap, ◌≢◌, ◌⊎◌, inl, inr, String, String_discrete, Bool, true, false,
  Option, none, some, List, [], ◌∷◌, map, subst, length, Option-cases, arith,
}
use realtime_chat_platform.Gateway.LoadBalancer.Pool.{
  Url, Backend, Pool, PoolResult, ok, err, PoolError, new_backend, add_backends, new_pool,
  ProbeReply, probe, differ, check, check_each, check_all,
}

abbrev pub by_host : List Backend → List (String × Backend)
by_host = map (λ b. (b.url.host, b))

-- The ids count up, and every flag is set.
abbrev pub Numbered : ℕ → List Backend → Type 0
Numbered id [] = Unit
Numbered id (b ∷ bs) = (b.id ≡ id) × (b.healthy ≡ true) × Numbered (suc id) bs

abbrev pub Named : List Backend → Type 0
Named [] = Unit
Named (b ∷ bs) = (b.url.host ≢ "") × Named bs

pub record IsConstructed (p : Pool) : Type 0 where
  pub nonempty : 0 < length p.backends
  pub numbered : Numbered 0 p.backends
  pub named : Named p.backends
  pub distinct : Maps.Distinct String_discrete (by_host p.backends)

PoolResult-cases :
    {A : Type 0} (r : PoolResult A) → ((a : A) × (r ≡ ok a)) ⊎ ((e : PoolError) × (r ≡ err e))
PoolResult-cases (ok a) = inl (a, refl)
PoolResult-cases (err e) = inr (e, refl)

module _ (parse : String → Option Url) where
  record Added (id : ℕ) (seen : List (String × Bool)) (raws : List String) (bs : List Backend)
      : Type 0 where
    count : length bs ≡ length raws
    numbered : Numbered id bs
    named : Named bs
    distinct : Maps.Distinct String_discrete (by_host bs)
    unseen :
        (h : String) (x : Bool)
        → Maps.get String_discrete h seen ≡ some x
        → Maps.get String_discrete h (by_host bs) ≡ none

  abbrev rest_of : ℕ → Url → List (String × Bool) → List String → PoolResult (List Backend)
  rest_of id url seen raws =
      add_backends parse (suc id) (Maps.put String_discrete url.host true seen) raws

  -- A success went through every test.
  add_backends-cons :
      (id : ℕ) (seen : List (String × Bool)) (raw : String) (raws : List String) (bs : List Backend)
      → add_backends parse id seen (raw ∷ raws) ≡ ok bs
      → (url : Url) × (rest : List Backend) × (url.host ≢ "")
        × (Maps.get String_discrete url.host seen ≡ none)
        × (rest_of id url seen raws ≡ ok rest)
        × (bs ≡ new_backend id url ∷ rest)
  unfolding add_backends
  add_backends-cons id seen raw raws bs e = elim (Option-cases (parse raw)) [
    | inl bad ↦ absurd (ground arith)
    | inr (url, good) ↦ elim (PoolResult-cases (rest_of id url seen raws)) [
      | inl (rest, more) ↦ (url, rest, ground arith, ground arith, more, ground arith)
      | inr (x, stop) ↦ absurd (ground arith)
    ]
  ]

  add_backends-Added :
      (id : ℕ) (seen : List (String × Bool)) (raws : List String) (bs : List Backend)
      → add_backends parse id seen raws ≡ ok bs
      → Added id seen raws bs
  unfolding add_backends new_backend Maps.get
  add_backends-Added id seen [] bs e =
      subst (Added id seen []) {x = []} (ground arith) (record {
        count = refl;
        numbered = tt;
        named = tt;
        distinct = tt;
        unseen = λ h x old. refl;
      })
  add_backends-Added id seen (raw ∷ raws) bs e =
      let (url, rest, named, fresh, more, same) = add_backends-cons id seen raw raws bs e in
      let tail =
        add_backends-Added (suc id) (Maps.put String_discrete url.host true seen) raws rest more in
      subst (Added id seen (raw ∷ raws)) (sym same) (record {
        count = ap suc tail.count;
        numbered = (refl, refl, tail.numbered);
        named = (named, tail.named);
        distinct = (
          tail.unseen url.host true (Maps.get-put_self String_discrete url.host true seen),
          tail.distinct,
        );
        unseen = λ h x old. ground (
          arith,
          Maps.get-put String_discrete h url.host true seen,
          tail.unseen h true,
          tail.unseen h x,
        );
      })

  -- A pool that is constructed has an instance for every URL, at least one, with its position for
  -- its id and a host of its own.
  pub new_pool-IsConstructed :
      (raws : List String) (p : Pool)
      → new_pool parse raws ≡ ok p
      → IsConstructed p × (length p.backends ≡ length raws)
  unfolding new_pool
  new_pool-IsConstructed [] p e = absurd (ground arith)
  new_pool-IsConstructed (raw ∷ raws) p e =
      elim (PoolResult-cases (add_backends parse 0 [] (raw ∷ raws))) [
        | inr (x, stop) ↦ absurd (ground arith)
        | inl (bs, added) ↦
            let a = add_backends-Added 0 [] (raw ∷ raws) bs added in
            let same : p ≡ record { backends = bs } = ground arith in
            subst (λ q. IsConstructed q × (length q.backends ≡ suc (length raws))) (sym same)
              (
                record {
                  nonempty = omega (arith, a.count);
                  numbered = a.numbered;
                  named = a.named;
                  distinct = a.distinct;
                },
                a.count,
              )
      ]

module _ (reply : Url → ProbeReply) where
  abbrev pub swept : Backend → Backend
  swept b = record b { healthy = probe (reply b.url) }

  check_each-map : (bs : List Backend) → (check_each reply bs).0 ≡ map swept bs
  unfolding check_each check
  check_each-map [] = refl
  check_each-map (b ∷ bs) = ground (arith, check_each-map bs)

  differ_self : (x : Bool) → differ x x ≡ false
  differ_self true = refl
  differ_self false = refl

  check_each_settled : (bs : List Backend) → check_each reply (map swept bs) ≡ (map swept bs, [])
  unfolding check_each check
  check_each_settled [] = refl
  check_each_settled (b ∷ bs) =
      ground (arith, check_each_settled bs, differ_self (probe (reply b.url)))

  -- A sweep keeps every instance in its place and sets its flag by its own answer alone; a second
  -- sweep with the same answers changes nothing and logs nothing.
  pub check_all_lem :
      (p : Pool)
      → ((check_all reply p).0.backends ≡ map swept p.backends)
        × (check_all reply (check_all reply p).0 ≡ ((check_all reply p).0, []))
  unfolding check_all
  check_all_lem p = ground (arith, check_each-map p.backends, check_each_settled p.backends)
