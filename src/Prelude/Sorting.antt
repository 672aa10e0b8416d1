-- ===== src/Prelude/Sorting.antt =====
-- Membership as a Boolean test, and Go's `slices.Sort` as insertion sort by a comparison.
use Prim.Native.Nat.{suc}
use mathlib.Core.Path.{◌≡◌, refl, ◌∙◌}
use mathlib.Core.Logic.{ite, inl, inr}
use mathlib.Core.Bool.{Bool, true, false}
use mathlib.Core.List.{List, [], ◌∷◌, ◌++◌}
use native.Mathlib.Omega.{arith}
use realtime_chat_platform.Prelude.Lists.{length, All}
use realtime_chat_platform.Prelude.Tests.{if◌then◌else◌, Bool-cases}

module _ {ℓ} {A : Type ℓ} (dec : Discrete A) where
  unfoldable pub listed : A → List A → Bool
  listed a [] = false
  listed a (x ∷ l) = let rest = listed a l in ite (dec a x) true rest

  pub listed-append_single :
      (a b : A) (l : List A) → listed a (l ++ b ∷ []) ≡ ite (dec a b) true (listed a l)
  unfolding listed
  listed-append_single a b [] = ground arith
  listed-append_single a b (x ∷ l) = ground (arith, listed-append_single a b l)

  -- No element stands twice.
  abbrev pub NoRepeats : List A → Type 0
  NoRepeats [] = Unit
  NoRepeats (x ∷ l) = (listed x l ≡ false) × NoRepeats l

  pub NoRepeats-append_single :
      (a : A) (l : List A) → listed a l ≡ false → NoRepeats l → NoRepeats (l ++ a ∷ [])
  unfolding listed
  NoRepeats-append_single a [] h k = ground arith
  NoRepeats-append_single a (x ∷ l) h k =
      ground (arith, listed-append_single x a l, NoRepeats-append_single a l)

module _ {ℓ} {A : Type ℓ} (before : A → A → Bool) where
  unfoldable pub insert : A → List A → List A
  insert a [] = a ∷ []
  insert a (x ∷ l) = let rest = insert a l in if before a x then a ∷ x ∷ l else x ∷ rest

  unfoldable pub sort : List A → List A
  unfolding insert
  sort [] = []
  sort (a ∷ l) = insert a (sort l)

  -- Each element comes before all that follow it.
  abbrev pub IsSorted : List A → Type 0
  IsSorted [] = Unit
  IsSorted (x ∷ l) = All (λ y. before x y ≡ true) l × IsSorted l

  pub All-insert {κ} : (Q : A → Type κ) (a : A) (l : List A) → Q a → All Q l → All Q (insert a l)
  unfolding insert
  All-insert Q a [] q h = (q, h)
  All-insert Q a (x ∷ l) q h = elim (Bool-cases (before a x)) [
    | inl first ↦ rw first (q, h)
    | inr later ↦ rw later (h.0, All-insert Q a l q h.1)
  ]

  pub All-sort {κ} : (Q : A → Type κ) (l : List A) → All Q l → All Q (sort l)
  unfolding sort
  All-sort Q [] h = h
  All-sort Q (x ∷ l) h = All-insert Q x (sort l) h.0 (All-sort Q l h.1)

  pub length-insert : (a : A) (l : List A) → length (insert a l) ≡ suc (length l)
  unfolding insert
  length-insert a [] = refl
  length-insert a (x ∷ l) = ground (arith, length-insert a l)

  pub length-sort : (l : List A) → length (sort l) ≡ length l
  unfolding sort
  length-sort [] = refl
  length-sort (x ∷ l) = omega (arith, length-insert x (sort l), length-sort l)

  module _ (dec : Discrete A) where
    pub listed-insert :
        (a b : A) (l : List A) → listed dec a (insert b l) ≡ ite (dec a b) true (listed dec a l)
    unfolding insert listed
    listed-insert a b [] = ground arith
    listed-insert a b (x ∷ l) = ground (arith, listed-insert a b l)

    pub listed-sort : (a : A) (l : List A) → listed dec a (sort l) ≡ listed dec a l
    unfolding sort listed
    listed-sort a [] = refl
    listed-sort a (x ∷ l) = ground (arith, listed-insert a x (sort l), listed-sort a l)

    NoRepeats-insert :
        (a : A) (l : List A) → listed dec a l ≡ false → NoRepeats dec l → NoRepeats dec (insert a l)
    unfolding insert listed
    NoRepeats-insert a [] h k = ground arith
    NoRepeats-insert a (x ∷ l) h k = ground (arith, listed-insert x a l, NoRepeats-insert a l)

    pub NoRepeats-sort : (l : List A) → NoRepeats dec l → NoRepeats dec (sort l)
    unfolding sort
    NoRepeats-sort [] h = tt
    NoRepeats-sort (x ∷ l) h =
        NoRepeats-insert x (sort l) (listed-sort x l ∙ h.0) (NoRepeats-sort l h.1)

  module _ (total : (a b : A) → before a b ≡ false → before b a ≡ true)
      (transitive : (a b c : A) → before a b ≡ true → before b c ≡ true → before a c ≡ true) where
    All-trans :
        (a x : A) (l : List A)
        → before a x ≡ true
        → All (λ y. before x y ≡ true) l
        → All (λ y. before a y ≡ true) l
    All-trans a x [] h k = tt
    All-trans a x (y ∷ l) h k = (transitive a x y h k.0, All-trans a x l h k.1)

    insert-IsSorted : (a : A) (l : List A) → IsSorted l → IsSorted (insert a l)
    unfolding insert
    insert-IsSorted a [] h = (tt, tt)
    insert-IsSorted a (x ∷ l) h = elim (Bool-cases (before a x)) [
      | inl first ↦ rw first ((first, All-trans a x l first h.0), h)
      | inr later ↦
          rw later
            (All-insert (λ y. before x y ≡ true) a l (total a x later) h.0, insert-IsSorted a l h.1)
    ]

    pub sort-IsSorted : (l : List A) → IsSorted (sort l)
    unfolding sort
    sort-IsSorted [] = tt
    sort-IsSorted (x ∷ l) = insert-IsSorted x (sort l) (sort-IsSorted l)
