-- ===== src/Prelude/Orders.antt =====
-- The orders of Go's `<` on int64 and of `strings.Compare`, and the equality of byte texts.
use Prim.Native.Nat.{ℕ}
use mathlib.Core.Path.{◌≡◌, refl, ap₂}
use mathlib.Core.Bool.{Bool, true, false}
use mathlib.Core.List.{List, [], ◌∷◌, ◌++◌}
use native.Mathlib.Omega.{arith}
use native.Mathlib.Decide.{ℕ_discrete}
use realtime_chat_platform.Prelude.Int.{ℤ, pos, negsuc}
use realtime_chat_platform.Prelude.Tests.{leb, ltb, ◌==◌, if◌then◌else◌}

unfoldable pub le_int : ℤ → ℤ → Bool
le_int (pos a) (pos b) = leb a b
le_int (pos a) (negsuc b) = false
le_int (negsuc a) (pos b) = true
le_int (negsuc a) (negsuc b) = leb b a

pub le_int_total : (a b : ℤ) → le_int a b ≡ false → le_int b a ≡ true
unfolding le_int
le_int_total (pos a) (pos b) h = ground arith
le_int_total (pos a) (negsuc b) h = refl
le_int_total (negsuc a) (pos b) h = cc
le_int_total (negsuc a) (negsuc b) h = ground arith

pub le_int_trans : (a b c : ℤ) → le_int a b ≡ true → le_int b c ≡ true → le_int a c ≡ true
unfolding le_int
le_int_trans (pos a) (pos b) (pos c) h k = ground arith
le_int_trans (pos a) (pos b) (negsuc c) h k = k
le_int_trans (pos a) (negsuc b) c h k = cc
le_int_trans (negsuc a) b (pos c) h k = refl
le_int_trans (negsuc a) (pos b) (negsuc c) h k = cc
le_int_trans (negsuc a) (negsuc b) (negsuc c) h k = ground arith

-- `strings.Compare(a, b) <= 0`.
unfoldable pub le_bytes : List ℕ → List ℕ → Bool
le_bytes [] b = true
le_bytes (x ∷ a) [] = false
le_bytes (x ∷ a) (y ∷ b) =
    let rest = le_bytes a b in if ltb x y then true else if x == y then rest else false

pub le_bytes_total : (a b : List ℕ) → le_bytes a b ≡ false → le_bytes b a ≡ true
unfolding le_bytes
le_bytes_total [] b h = cc
le_bytes_total (x ∷ a) [] h = refl
le_bytes_total (x ∷ a) (y ∷ b) h = ground (arith, le_bytes_total a b)

pub le_bytes_trans :
    (a b c : List ℕ) → le_bytes a b ≡ true → le_bytes b c ≡ true → le_bytes a c ≡ true
unfolding le_bytes
le_bytes_trans [] b c h k = refl
le_bytes_trans (x ∷ a) [] c h k = cc
le_bytes_trans (x ∷ a) (y ∷ b) [] h k = cc
le_bytes_trans (x ∷ a) (y ∷ b) (z ∷ c) h k = ground (arith, le_bytes_trans a b c)

pub cons-injective : (x y : ℕ) (a b : List ℕ) → x ∷ a ≡ y ∷ b → (x ≡ y) × (a ≡ b)
cons-injective x y a b e = (cc, cc)

unfoldable pub Bytes_discrete : Discrete (List ℕ)
unfolding ℕ_discrete
Bytes_discrete [] [] = yes refl
Bytes_discrete [] (y ∷ b) = no (λ e. cc)
Bytes_discrete (x ∷ a) [] = no (λ e. cc)
Bytes_discrete (x ∷ a) (y ∷ b) = elim (ℕ_discrete x y) [
  | no p ↦ no (λ e. p (cons-injective x y a b e).0)
  | yes p ↦ elim (Bytes_discrete a b) [
    | yes q ↦ yes (ap₂ ◌∷◌ p q)
    | no q ↦ no (λ e. q (cons-injective x y a b e).1)
  ]
]

pub append-left_cancel : (l a b : List ℕ) → l ++ a ≡ l ++ b → a ≡ b
append-left_cancel [] a b e = e
append-left_cancel (x ∷ l) a b e = append-left_cancel l a b (cons-injective x x _ _ e).1
