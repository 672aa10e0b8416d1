-- ===== src/Queues/Order.antt =====
-- A queue is bounded, keeps its order, and loses only what it reports as dropped.
use mathlib.Core.List.{append_assoc}
use realtime_chat_platform.Prelude.{
  ◌≤◌, ◌≡◌, refl, sym, ap, ◌∙◌, subst, List, [], ◌∷◌, ◌++◌, if_pos, if_neg, dec_lt, length,
  length-append, arith,
}
use realtime_chat_platform.Queues.{Channel, offer, take_from, work}

-- What was accepted was taken out already or still waits, in the order of its arrival.
pub record InOrder {A : Type 0} (ch : Channel A) : Type 0 where
  pub order : ch.accepted ≡ ch.taken ++ ch.queue
  pub bounded : length ch.queue ≤ ch.capacity

module _ {A : Type 0} where
  pub offer-InOrder : (ch : Channel A) (event : A) → InOrder ch → InOrder (offer ch event)
  unfolding offer
  offer-InOrder ch event v = elim (dec_lt (length ch.queue) ch.capacity) [
    | yes room ↦
        subst InOrder (sym (if_pos (dec_lt (length ch.queue) ch.capacity) room _ _)) (record {
          order = ap (λ l. l ++ (event ∷ [])) v.order ∙ append_assoc ch.taken ch.queue (event ∷ []);
          bounded = omega (arith, length-append ch.queue (event ∷ []));
        })
    | no over ↦
        subst InOrder (sym (if_neg (dec_lt (length ch.queue) ch.capacity) over _ _))
          (record { order = v.order; bounded = v.bounded })
  ]

  take_from-InOrder :
      (ch : Channel A) (queue : List A)
      → ch.queue ≡ queue
      → InOrder ch
      → InOrder (take_from ch queue)
  take_from-InOrder ch [] e v = v
  take_from-InOrder ch (event ∷ rest) e v = record {
    order = v.order ∙ ap (λ q. ch.taken ++ q) e ∙ sym (append_assoc ch.taken (event ∷ []) rest);
    bounded = omega (arith, ap length e, v.bounded);
  }

  pub work-InOrder : (ch : Channel A) → InOrder ch → InOrder (work ch)
  unfolding work
  work-InOrder ch v = take_from-InOrder ch ch.queue refl v

  pub taken-offer : (ch : Channel A) (event : A) → (offer ch event).taken ≡ ch.taken
  unfolding offer
  taken-offer ch event = ground arith

  pub taken-work :
      (ch : Channel A) (event : A) (rest : List A)
      → ch.queue ≡ event ∷ rest
      → (work ch).taken ≡ ch.taken ++ (event ∷ [])
  unfolding work
  taken-work ch event rest e = ap (λ q. (take_from ch q).taken) e

  accepted-take_from :
      (ch : Channel A) (queue : List A) → (take_from ch queue).accepted ≡ ch.accepted
  accepted-take_from ch [] = refl
  accepted-take_from ch (event ∷ rest) = refl

  pub accepted-work : (ch : Channel A) → (work ch).accepted ≡ ch.accepted
  unfolding work
  accepted-work ch = accepted-take_from ch ch.queue
