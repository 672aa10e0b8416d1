-- ===== src/Chat/Messages/Order.antt =====
-- The order of the rows under `ORDER BY created_at DESC, id DESC`.
use mathlib.Core.List.{Perm}
use mathlib.Core.List.Perm
use realtime_chat_platform.Prelude.{
  suc, ◌≡◌, refl, true, false, Bool-cases, inl, inr, List, [], ◌∷◌, length, All, arith,
}
use realtime_chat_platform.Chat.Messages.{StoredMessage, is_newer, insert_row, newest_first}

-- Each row is newer than all that follow.
abbrev pub IsNewestFirst : List StoredMessage → Type 0
IsNewestFirst [] = Unit
IsNewestFirst (m ∷ ms) = All (λ n. is_newer m n ≡ true) ms × IsNewestFirst ms

is_newer_trans :
    (a b c : StoredMessage) → is_newer a b ≡ true → is_newer b c ≡ true → is_newer a c ≡ true
unfolding is_newer
is_newer_trans a b c f g = ground arith

is_newer_total : (a b : StoredMessage) → is_newer a b ≡ false → is_newer b a ≡ true
unfolding is_newer
is_newer_total a b h = ground arith

is_newer-All :
    (m n : StoredMessage) (ns : List StoredMessage)
    → is_newer m n ≡ true
    → All (λ k. is_newer n k ≡ true) ns
    → All (λ k. is_newer m k ≡ true) ns
is_newer-All m n [] h a = tt
is_newer-All m n (k ∷ ns) h a = (is_newer_trans m n k h a.0, is_newer-All m n ns h a.1)

insert_row-All :
    (P : StoredMessage → Type 0) (m : StoredMessage) (ns : List StoredMessage)
    → P m
    → All P ns
    → All P (insert_row m ns)
unfolding insert_row
insert_row-All P m [] p a = (p, tt)
insert_row-All P m (n ∷ ns) p a = ground (arith, insert_row-All P m ns p a.1)

insert_row-IsNewestFirst :
    (m : StoredMessage) (ns : List StoredMessage)
    → IsNewestFirst ns
    → IsNewestFirst (insert_row m ns)
unfolding insert_row
insert_row-IsNewestFirst m [] v = (tt, tt)
insert_row-IsNewestFirst m (n ∷ ns) v = elim (Bool-cases (is_newer m n)) [
  | inl newer ↦ rw (newer, insert_row) ((newer, is_newer-All m n ns newer v.0), v)
  | inr older ↦
      rw (older, insert_row)
        (
          insert_row-All (λ k. is_newer n k ≡ true) m ns (is_newer_total m n older) v.0,
          insert_row-IsNewestFirst m ns v.1,
        )
]

insert_row-perm : (m : StoredMessage) (ns : List StoredMessage) → Perm (insert_row m ns) (m ∷ ns)
unfolding insert_row
insert_row-perm m [] = Perm.refl (m ∷ [])
insert_row-perm m (n ∷ ns) = elim (Bool-cases (is_newer m n)) [
  | inl newer ↦ rw (newer, insert_row) (Perm.refl _)
  | inr older ↦
      rw (older, insert_row) (Perm.trans (Perm.cons n (insert_row-perm m ns)) (Perm.swap m n ns))
]

pub newest_first-IsNewestFirst : (ms : List StoredMessage) → IsNewestFirst (newest_first ms)
unfolding newest_first
newest_first-IsNewestFirst [] = tt
newest_first-IsNewestFirst (m ∷ ms) =
    insert_row-IsNewestFirst m (newest_first ms) (newest_first-IsNewestFirst ms)

pub newest_first-perm : (ms : List StoredMessage) → Perm (newest_first ms) ms
unfolding newest_first
newest_first-perm [] = Perm.refl []
newest_first-perm (m ∷ ms) =
    Perm.trans (insert_row-perm m (newest_first ms)) (Perm.cons m (newest_first-perm ms))

length-insert_row :
    (m : StoredMessage) (ns : List StoredMessage) → length (insert_row m ns) ≡ suc (length ns)
unfolding insert_row
length-insert_row m [] = refl
length-insert_row m (n ∷ ns) = ground (arith, length-insert_row m ns)

pub length-newest_first : (ms : List StoredMessage) → length (newest_first ms) ≡ length ms
unfolding newest_first
length-newest_first [] = refl
length-newest_first (m ∷ ms) =
    omega (arith, length-insert_row m (newest_first ms), length-newest_first ms)
