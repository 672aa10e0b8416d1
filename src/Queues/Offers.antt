-- ===== src/Queues/Offers.antt =====
-- What a queue was offered.
use mathlib.Core.List.Perm
use mathlib.Core.List.{append_assoc, append-nil, Perm, perm_append_comm}
use realtime_chat_platform.Prelude.{
  ◌≡◌, refl, sym, subst, List, [], ◌∷◌, ◌++◌, if_pos, if_neg, dec_lt, length,
}
use realtime_chat_platform.Queues.{Channel, offer, take_from, work}

-- What a queue was offered: what it took in and what it dropped.
abbrev pub offered_to : {A : Type 0} → Channel A → List A
offered_to ch = ch.accepted ++ ch.dropped

pub offered_to-offer :
    {A : Type 0} (ch : Channel A) (a : A)
    → Perm (offered_to (offer ch a)) (offered_to ch ++ (a ∷ []))
unfolding offer
offered_to-offer ch a =
    let last = a ∷ [] in
    let both = offered_to ch ++ last in
    elim (dec_lt (length ch.queue) ch.capacity) [
      | yes room ↦
          subst (λ c. Perm (offered_to c) both)
            (sym (if_pos (dec_lt (length ch.queue) ch.capacity) room _ _))
            (subst (λ l. Perm l both) (sym (append_assoc ch.accepted last ch.dropped))
              (subst (Perm (ch.accepted ++ (last ++ ch.dropped)))
                (sym (append_assoc ch.accepted ch.dropped last))
                (Perm.append_left ch.accepted (perm_append_comm last ch.dropped))))
      | no over ↦
          subst (λ c. Perm (offered_to c) both)
            (sym (if_neg (dec_lt (length ch.queue) ch.capacity) over _ _))
            (subst (Perm (ch.accepted ++ (ch.dropped ++ last)))
              (sym (append_assoc ch.accepted ch.dropped last))
              (Perm.refl (ch.accepted ++ (ch.dropped ++ last))))
    ]

pub offered_to-work : {A : Type 0} (ch : Channel A) → offered_to (work ch) ≡ offered_to ch
unfolding work
offered_to-work ch = elim ch.queue as (λ q. offered_to (take_from ch q) ≡ offered_to ch) [
  | [] ↦ refl
  | event ∷ rest ↦ refl
]

-- Offers that follow each other.
pub and_then :
    {A : Type 0} (first second third one two : List A)
    → Perm second (first ++ one)
    → Perm third (second ++ two)
    → Perm third (first ++ (one ++ two))
and_then first second third one two p q =
    subst (Perm third) (append_assoc first one two) (Perm.trans q (Perm.append_right two p))

pub no_more : {A : Type 0} (l : List A) → Perm l (l ++ [])
no_more l = subst (Perm l) (sym (append-nil l)) (Perm.refl l)
