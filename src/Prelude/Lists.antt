-- ===== src/Prelude/Lists.antt =====
-- Lists measured and indexed by native numbers, under the library's names.
use Prim.Native.Nat.{ℕ, zero, suc, ◌+◌, ◌-◌, ◌≤◌, ◌<◌}
use native.Mathlib.Omega.{arith}
use mathlib.Core.Option.{Option, none, some}
use mathlib.Core.List.{List, [], ◌∷◌, ◌++◌, map}
use mathlib.Core.Path.{◌≡◌, refl, ap}

module _ {ℓ} {A : Type ℓ} where
  -- Every element has the property: a tuple of its proofs.
  abbrev pub All {κ} : (A → Type κ) → List A → Type κ
  All Q [] = Unit
  All Q (a ∷ l) = Q a × All Q l

  pub All-append {κ} :
      (Q : A → Type κ) (l : List A) (rest : List A) → All Q l → All Q rest → All Q (l ++ rest)
  All-append Q (a ∷ l) rest both right =
      let tail = All-append Q l rest both.1 right in (both.0, tail)
  All-append Q [] rest left right = right

  abbrev pub get_elem? : List A → ℕ → Option A
  get_elem? (a ∷ l) (suc i) = get_elem? l i
  get_elem? (a ∷ l) zero = some a
  get_elem? [] i = none

  abbrev pub length : List A → ℕ
  length (a ∷ l) = suc (length l)
  length [] = 0

  abbrev pub drop : ℕ → List A → List A
  drop (suc k) (a ∷ l) = drop k l
  drop (suc k) [] = []
  drop zero l = l

  abbrev pub take : ℕ → List A → List A
  take (suc k) (a ∷ l) = a ∷ take k l
  take (suc k) [] = []
  take zero l = []

  pub take-append-drop : (k : ℕ) (l : List A) → take k l ++ drop k l ≡ l
  take-append-drop zero l = refl
  take-append-drop (suc k) (a ∷ l) = rw (take-append-drop k l)
  take-append-drop (suc k) [] = refl

  pub take_of_length-le : (k : ℕ) (l : List A) → length l ≤ k → take k l ≡ l
  take_of_length-le (suc k) (a ∷ l) small =
      let rest : length l ≤ k = omega arith in rw (take_of_length-le k l rest)
  take_of_length-le (suc k) [] small = refl
  take_of_length-le zero (a ∷ l) small = absurd (omega arith)
  take_of_length-le zero [] small = refl

  pub take-append : (l : List A) (rest : List A) → take (length l) (l ++ rest) ≡ l
  take-append [] rest = refl
  take-append (a ∷ l) rest = ap (λ (r : List A). a ∷ r) (take-append l rest)

  pub drop-append : (l : List A) (rest : List A) → drop (length l) (l ++ rest) ≡ rest
  drop-append [] rest = refl
  drop-append (a ∷ l) rest = drop-append l rest

  pub length-take-le : (k : ℕ) (l : List A) → length (take k l) ≤ k
  length-take-le (suc k) (a ∷ l) = omega (arith, length-take-le k l)
  length-take-le (suc k) [] = omega arith
  length-take-le zero l = omega arith

  pub length-append : (l rest : List A) → length (l ++ rest) ≡ length l + length rest
  length-append (a ∷ l) rest = omega (arith, length-append l rest)
  length-append [] rest = omega arith

  pub length-drop : (k : ℕ) (l : List A) → length (drop k l) ≡ length l - k
  length-drop (suc k) (a ∷ l) = omega (arith, length-drop k l)
  length-drop (suc k) [] = omega arith
  length-drop zero l = omega arith

  pub get_elem?-of-lt : (l : List A) (i : ℕ) → i < length l → (a : A) × (get_elem? l i ≡ some a)
  get_elem?-of-lt (b ∷ l) (suc i) h = get_elem?-of-lt l i (omega arith)
  get_elem?-of-lt (b ∷ l) zero h = (b, refl)
  get_elem?-of-lt [] i h = elim h [ ]

module _ {ℓ} {A : Type ℓ} where
  pub length-map {κ} : {B : Type κ} (l : List A) (f : A → B) → length (map f l) ≡ length l
  length-map (a ∷ l) f = ap suc (length-map l f)
  length-map [] f = refl
