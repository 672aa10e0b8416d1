-- ===== src/Prelude/Int.antt =====
-- Go's int64 where its sign matters; `negsuc n` is -(n + 1).
use Prim.Native.Nat.{ℕ, zero, suc}
use mathlib.Core.Path.{◌≡◌, ap, sym}
use mathlib.Core.Bool.{Bool, true, false}
use native.Mathlib.Decide.{ℕ_discrete}

pub data ℤ : Type 0 where
  pos : ℕ → ℤ
  negsuc : ℕ → ℤ

pos_part : ℤ → ℕ
pos_part (pos n) = n
pos_part (negsuc n) = 0

neg_part : ℤ → ℕ
neg_part (pos n) = 0
neg_part (negsuc n) = n

pub pos-injective : (a b : ℕ) → pos a ≡ pos b → a ≡ b
unfolding pos_part
pos-injective a b e = ap pos_part e

pub negsuc-injective : (a b : ℕ) → negsuc a ≡ negsuc b → a ≡ b
unfolding neg_part
negsuc-injective a b e = ap neg_part e

pub pos-ne-negsuc : (a b : ℕ) → pos a ≡ negsuc b → ⊥
pos-ne-negsuc a b e = cc

unfoldable pub ℤ_discrete : Discrete ℤ
unfolding ℕ_discrete
ℤ_discrete (pos a) (pos b) = elim (ℕ_discrete a b) [
  | yes p ↦ yes (ap pos p)
  | no p ↦ no (λ e. p (pos-injective a b e))
]
ℤ_discrete (negsuc a) (negsuc b) = elim (ℕ_discrete a b) [
  | yes p ↦ yes (ap negsuc p)
  | no p ↦ no (λ e. p (negsuc-injective a b e))
]
ℤ_discrete (pos a) (negsuc b) = no (pos-ne-negsuc a b)
ℤ_discrete (negsuc a) (pos b) = no (λ e. pos-ne-negsuc b a (sym e))

-- `n > 0`
abbrev pub positive : ℤ → Bool
positive (pos zero) = false
positive (pos (suc n)) = true
positive (negsuc n) = false
