-- ===== src/Gateway/LoadBalancer/RoundRobin.antt =====
-- gateway/internal/loadbalancer/round_robin.go: consecutive requests go to consecutive healthy
-- instances. The counter is a uint64.
use mathlib.Core.List.Perm
use mathlib.Core.List.{Perm, perm_append_comm, map-append}
use mathlib.Core.Path.{ap₂}
use native.Mathlib.Nat.{zero-add, mod-add-mod, mod_self}
use realtime_chat_platform.Prelude.{
  ℕ, zero, suc, ◌+◌, ◌-◌, ◌%◌, ◌^◌, ◌≤◌, ◌<◌, ◌≡◌, refl, List, [], ◌∷◌, none, some, length, ◌++◌,
  map, take, drop, take-append-drop, take_of_length-le, length-drop, subst, sym, ap, ◌∙◌, get_elem?,
  get_elem?-of-lt, if◌then◌else◌, ◌==◌, arith,
}
use realtime_chat_platform.Gateway.LoadBalancer.Pool.{Backend, Pool, healthy}
use realtime_chat_platform.Gateway.LoadBalancer.Hash.{u64}
use realtime_chat_platform.Gateway.LoadBalancer.ConsistentHash.{
  PickResult, picked, no_healthy_backend, fault,
}

pub record RoundRobin : Type 0 where
  pub next : ℕ

-- `s.next.Add(1)` returns the new value; one is taken off again, modulo 2 ^ 64.
unfoldable pub pick : RoundRobin → Pool → RoundRobin × PickResult
pick s pool =
    let up = healthy pool in
    let added = u64 (s.next + 1) in
    let index = u64 (added + 2 ^ 64 - 1) % length up in
    let chosen : PickResult = elim (get_elem? up index) [ none ↦ fault | some b ↦ picked b ] in
    if length up == 0 then (s, no_healthy_backend) else (record { next = added }, chosen)

-- The results of `n` consecutive picks while the healthy set stays as it is.
unfoldable pub picks : ℕ → RoundRobin → Pool → List PickResult
unfolding pick
picks zero s pool = []
picks (suc n) s pool = let (s', result) = pick s pool in result ∷ picks n s' pool

pick_turn :
    (s : RoundRobin) (pool : Pool)
    → 0 < length (healthy pool)
    → s.next < 2 ^ 64
    → (b : Backend) × (get_elem? (healthy pool) (s.next % length (healthy pool)) ≡ some b)
      × (pick s pool ≡ (record { next = u64 (s.next + 1) }, picked b))
unfolding pick
pick_turn s pool up small =
    let n = length (healthy pool) in
    let wrap : u64 (u64 (s.next + 1) + 2 ^ 64 - 1) ≡ s.next = omega arith in
    let (b, found) = get_elem?-of-lt (healthy pool) (s.next % n) (omega arith) in
    (b, found, rw wrap (ground arith))

drop-cons :
    (k : ℕ) (l : List Backend) (b : Backend)
    → get_elem? l k ≡ some b
    → drop k l ≡ b ∷ drop (suc k) l
drop-cons k [] b e = cc
drop-cons zero (x ∷ l) b e = ground arith
drop-cons (suc k) (x ∷ l) b e = drop-cons k l b e

next_mod : (x n k : ℕ) → x % n ≡ k → suc k < n → x + 1 < 2 ^ 64 → u64 (x + 1) % n ≡ suc k
next_mod x n k here below small =
    let plain : u64 (x + 1) ≡ x + 1 = omega arith in rw plain (grind arith)

turn_start : (x n : ℕ) → 0 < x % n → x + n ≤ 2 ^ 64 → 0 < n → u64 (x + (n - x % n)) % n ≡ 0
turn_start x n more small up =
    let plain : u64 (x + (n - x % n)) ≡ x + (n - x % n) = omega arith in
    let whole : x % n + (n - x % n) ≡ n = omega arith in
    rw plain (sym (mod-add-mod x n (n - x % n)) ∙ ap (λ y. y % n) whole ∙ mod_self n)

module _ (pool : Pool) (up : 0 < length (healthy pool)) where
  -- Picks that do not pass the end of the healthy list run along it.
  picks_segment :
      (m k : ℕ) (s : RoundRobin)
      → (0 < m → s.next % length (healthy pool) ≡ k)
      → k + m ≤ length (healthy pool)
      → s.next + m ≤ 2 ^ 64
      → picks m s pool ≡ map picked (take m (drop k (healthy pool)))
  unfolding picks
  picks_segment zero k s at fits small = refl
  picks_segment (suc m) k s at fits small =
      let n = length (healthy pool) in
      let (b, found, turn) = pick_turn s pool up (omega arith) in
      let here : s.next % n ≡ k = at (omega arith) in
      let rest =
        picks_segment m (suc k) (record { next = u64 (s.next + 1) })
          (λ more. next_mod s.next n k here (omega arith) (omega arith)) (omega arith)
          (omega arith) in
      rw
        (
          turn,
          drop-cons k (healthy pool) b
              (subst (λ i. get_elem? (healthy pool) i ≡ some b) here found),
        )
        (ap (◌∷◌ (picked b)) rest)

  picks_append :
      (a b : ℕ) (s : RoundRobin)
      → s.next < 2 ^ 64
      → picks (a + b) s pool ≡ picks a s pool ++ picks b (record { next = u64 (s.next + a) }) pool
  unfolding picks
  picks_append zero b s small =
      let same : u64 (s.next + 0) ≡ s.next = omega arith in rw (zero-add, same)
  picks_append (suc a) b s small =
      let (c, found, turn) = pick_turn s pool up small in
      let sum : suc a + b ≡ suc (a + b) = omega arith in
      let on : u64 (u64 (s.next + 1) + a) ≡ u64 (s.next + suc a) = omega arith in
      rw (sum, turn, picks, ← on)
        (ap (◌∷◌ (picked c)) (picks_append a b (record { next = u64 (s.next + 1) }) (omega arith)))

-- As long as the healthy set stays as it is, is not empty, and the counter does not wrap, as many
-- consecutive picks as there are healthy instances serve each of them once.
pub picks_fair :
    (s : RoundRobin) (pool : Pool)
    → 0 < length (healthy pool)
    → s.next + length (healthy pool) ≤ 2 ^ 64
    → Perm (picks (length (healthy pool)) s pool) (map picked (healthy pool))
picks_fair s pool up small =
    let l = healthy pool in
    let n = length l in
    let r = s.next % n in
    let split : n ≡ (n - r) + r = omega arith in
    let first : picks (n - r) s pool ≡ map picked (drop r l) =
      picks_segment pool up (n - r) r s (λ _. refl) (omega arith) (omega arith)
      ∙ ap (map picked) (take_of_length-le (n - r) (drop r l) (omega (arith, length-drop r l))) in
    let second : picks r (record { next = u64 (s.next + (n - r)) }) pool ≡ map picked (take r l) =
      picks_segment pool up r 0 (record { next = u64 (s.next + (n - r)) })
        (λ more. turn_start s.next n more small up) (omega arith) (omega arith) in
    let all : picks n s pool ≡ map picked (drop r l ++ take r l) =
      ap (λ k. picks k s pool) split
      ∙ picks_append pool up (n - r) r s (omega arith)
      ∙ ap₂ ◌++◌ first second
      ∙ sym (map-append picked (drop r l) (take r l)) in
    subst (λ q. Perm q (map picked l)) (sym all)
      (Perm.map picked (
        subst (Perm (drop r l ++ take r l)) (take-append-drop r l)
          (perm_append_comm (drop r l) (take r l))))
