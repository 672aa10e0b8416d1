-- ===== src/Notification/Deliverer/Settled.antt =====
-- Every delivery is settled by exactly one row.
use realtime_chat_platform.Prelude.{
  ℕ, zero, suc, ◌≤◌, ◌≡◌, ◌≢◌, refl, Bool, true, false, Option, none, some, List, [], ◌∷◌, ◌++◌,
  if◌then◌else◌, ltb, not-ltb, bytes, length, take, All, All-append, arith,
}
use realtime_chat_platform.Notification.Domain.{pending, Recipient}
use realtime_chat_platform.Notification.Deliverer.{Reply, Row, error_pointer, recorded, deliver}
use realtime_chat_platform.Notification.Deliverer.Fate.{
  error_of, Fate, accepted, rejected, interrupted, exhausted, pending_rows, final_row, failures,
  deliver_follows,
}

-- The stored error has at most 512 bytes.
abbrev pub IsShort : Option (List ℕ) → Type 0
IsShort none = Unit
IsShort (some e) = length e ≤ 512

length-take-le : (n : ℕ) (e : List ℕ) → length (take n e) ≤ n
length-take-le zero e = omega arith
length-take-le (suc n) [] = omega arith
length-take-le (suc n) (b ∷ e) = omega (arith, length-take-le n e)

cut-IsShort :
    (e : List ℕ) (over : Bool)
    → ltb 512 (length e) ≡ over
    → length (if over then take 512 e else e) ≤ 512
cut-IsShort e true h = length-take-le 512 e
cut-IsShort e false h = not-ltb 512 (length e) h

error_pointer-IsShort : (e : List ℕ) → IsShort (error_pointer e)
unfolding error_pointer
error_pointer-IsShort [] = tt
error_pointer-IsShort (b ∷ e) = cut-IsShort (b ∷ e) (ltb 512 (length (b ∷ e))) refl

abbrev pub IsPending : Row → Type 0
IsPending row = (row.status ≡ pending) × IsShort row.last_error

pub record SettledBy (rows : List Row) (last : Row) : Type 0 where
  pub before : List Row
  pub ends : rows ≡ before ++ (last ∷ [])
  pub open_before : All IsPending before
  pub settled : last.status ≢ pending
  pub short : IsShort last.last_error
  pub tries : last.attempts ≤ 4

module _ (reply : ℕ → Reply) (slept : ℕ → Bool) where
  pending_rows-All : (id k : ℕ) → All IsPending (pending_rows reply slept id k)
  unfolding pending_rows recorded
  pending_rows-All id zero = tt
  pending_rows-All id (suc k) =
      All-append IsPending _ _ (pending_rows-All id k)
        ((refl, error_pointer-IsShort (error_of (reply k))), tt)

  final_row-settled :
      (id : ℕ) (fate : Fate reply slept) → (final_row reply slept id fate).status ≢ pending
  unfolding final_row recorded
  final_row-settled id (accepted k b r ok) e = cc
  final_row-settled id (rejected k b r no_) e = cc
  final_row-settled id (interrupted k b r bad cut) e = cc
  final_row-settled id (exhausted r bad) e = cc

  final_row-IsShort :
      (id : ℕ) (fate : Fate reply slept) → IsShort (final_row reply slept id fate).last_error
  unfolding final_row recorded
  final_row-IsShort id (accepted k b r ok) = error_pointer-IsShort []
  final_row-IsShort id (rejected k b r no_) = error_pointer-IsShort (error_of (reply k))
  final_row-IsShort id (interrupted k b r bad cut) =
      error_pointer-IsShort (bytes "shutdown before retry")
  final_row-IsShort id (exhausted r bad) = error_pointer-IsShort (error_of (reply 3))

  final_row-tries :
      (id : ℕ) (fate : Fate reply slept) → (final_row reply slept id fate).attempts ≤ 4
  unfolding final_row recorded
  final_row-tries id (accepted k b r ok) = omega arith
  final_row-tries id (rejected k b r no_) = omega arith
  final_row-tries id (interrupted k b r bad cut) = omega arith
  final_row-tries id (exhausted r bad) = omega arith

  -- Whatever the encoder, the receiver and the backoffs do, a delivery leaves rows that are all
  -- pending but the last, which is not, counts at most 4 attempts, and like the others has an error
  -- text of at most 512 bytes.
  pub deliver_settles :
      (recipient : Recipient) (encoding_error : Option (List ℕ))
      → (last : Row) × SettledBy (deliver reply slept recipient encoding_error) last
  unfolding deliver recorded
  deliver_settles recipient (some e) = (
    _,
    record {
      before = [];
      ends = refl;
      open_before = tt;
      settled = λ e. cc;
      short = error_pointer-IsShort (bytes "encoding payload: " ++ e);
      tries = omega arith;
    },
  )
  deliver_settles recipient none =
      let follows = deliver_follows reply slept recipient in
      let fate = follows.0 in
      let id = recipient.delivery.id in
      (
        final_row reply slept id fate,
        record {
          before = pending_rows reply slept id (failures reply slept id fate);
          ends = follows.1;
          open_before = pending_rows-All id _;
          settled = final_row-settled id fate;
          short = final_row-IsShort id fate;
          tries = final_row-tries id fate;
        },
      )
