-- ===== src/Notification/Http/Calls.antt =====
-- What a call at the notification service leaves and shows.
use realtime_chat_platform.Prelude.{
  ℕ, zero, suc, ◌<◌, ◌≤◌, ◌≡◌, inl, inr, refl, sym, ap, subst, String, ℤ, pos, negsuc, Bool, false,
  Option, none, some, List, [], ◌∷◌, ◌++◌, if◌then◌else◌, ltb, lt→ltb, dec_lt, codes, length, take,
  arith, Option-cases,
}
use realtime_chat_platform.Prelude.Decimal.{parse_int}
use realtime_chat_platform.Prelude.Lists.{All, length-take-le}
use realtime_chat_platform.Notification.Domain.{Delivery, MessageEvent}
use realtime_chat_platform.Notification.Validation.{Invalid, validate_event}
use realtime_chat_platform.Notification.Validation.Rules.{IsEvent, validate_event_iff}
use realtime_chat_platform.Notification.Dispatcher.{Dispatcher, enqueue}
use realtime_chat_platform.Notification.Http.{
  user_id_from, Answer, status, deliveries_shown, deliveries_of, list_deliveries, positive_limit,
  limit_of, list_deliveries_handler, has_room, message_handler,
}
use realtime_chat_platform.Queues.{offer}

deliveries_of-All :
    (user_id : ℤ) (rows : List Delivery)
    → All (λ d. d.user_id ≡ user_id) (deliveries_of user_id rows)
unfolding deliveries_of
deliveries_of-All user_id [] = tt
deliveries_of-All user_id (d ∷ ds) = ground (arith, deliveries_of-All user_id ds)

take-All : (Q : Delivery → Type 0) (k : ℕ) (l : List Delivery) → All Q l → All Q (take k l)
take-All Q zero l h = tt
take-All Q (suc k) [] h = tt
take-All Q (suc k) (d ∷ l) h = (h.0, take-All Q k l h.1)

positive_limit-le : (n : Option ℤ) (limit : ℕ) → positive_limit n ≡ some limit → limit ≤ 100
unfolding positive_limit
positive_limit-le none limit h = cc
positive_limit-le (some (negsuc n)) limit h = cc
positive_limit-le (some (pos n)) limit h = ground arith

limit-le : (raw : String) (limit : ℕ) → limit_of raw ≡ some limit → limit ≤ 100
unfolding limit_of
limit-le raw limit h = ground (arith, positive_limit-le (parse_int (codes raw)) limit)

-- The delivery log that a user is shown has no row of anyone else and never more than 100 rows,
-- whatever limit was asked for.
pub deliveries_own :
    (fails : Bool) (user : Option ℤ) (raw : String) (rows ds : List Delivery)
    → list_deliveries_handler fails user raw rows ≡ deliveries_shown ds
    → (user_id : ℤ) × (user ≡ some user_id) × All (λ d. d.user_id ≡ user_id) ds × (length ds ≤ 100)
unfolding list_deliveries_handler user_id_from list_deliveries
deliveries_own fails none raw rows ds h = cc
deliveries_own fails (some user_id) raw rows ds h = elim (Option-cases (limit_of raw)) [
  | inl e ↦ ground arith
  | inr (limit, e) ↦
      let shown : take limit (deliveries_of user_id rows) ≡ ds = ground arith in
      (
        user_id,
        refl,
        subst (All (λ d. d.user_id ≡ user_id)) shown
            (take-All (λ d. d.user_id ≡ user_id) limit _ (deliveries_of-All user_id rows)),
        omega (
          arith,
          ap length shown,
          length-take-le {0} limit (deliveries_of user_id rows),
          limit-le raw limit e,
        ),
      )
]

-- What a body comes to that binds to an event: 400 and nothing changes, because the event is
-- invalid; 202, and the event waits last in the queue, which had room; 503, and the queue, which was
-- full, is as it was.
pub data Handled (event : MessageEvent) (d : Dispatcher) : Dispatcher × Answer → Type 0 where
  refused : (¬ IsEvent event) → Handled event d (d, status 400)
  queued :
      (after : Dispatcher)
      → IsEvent event
      → length d.event_q.queue < d.event_q.capacity
      → after.event_q.queue ≡ d.event_q.queue ++ (event ∷ [])
      → after.event_q.dropped ≡ d.event_q.dropped
      → after.delivery_q ≡ d.delivery_q
      → Handled event d (after, status 202)
  full :
      (after : Dispatcher)
      → IsEvent event
      → d.event_q.capacity ≤ length d.event_q.queue
      → after.event_q.queue ≡ d.event_q.queue
      → after.event_q.accepted ≡ d.event_q.accepted
      → after.delivery_q ≡ d.delivery_q
      → Handled event d (after, status 503)

message_handler_accepted :
    (event : MessageEvent) (d : Dispatcher)
    → validate_event event ≡ none
    → message_handler (some event) d
      ≡ (enqueue d event, if has_room d then status 202 else status 503)
unfolding message_handler
message_handler_accepted event d h = rw (h, message_handler) refl

message_handler_refused :
    (event : MessageEvent) (d : Dispatcher) (e : Invalid)
    → validate_event event ≡ some e
    → message_handler (some event) d ≡ (d, status 400)
unfolding message_handler
message_handler_refused event d e h = rw (h, message_handler) refl

has_no_room :
    (d : Dispatcher)
    → ¬ (length d.event_q.queue < d.event_q.capacity)
    → ltb (length d.event_q.queue) d.event_q.capacity ≡ false
has_no_room d h = ground arith

-- The endpoint for events answers 202 exactly when the event is valid and the queue has room, and
-- then the event waits last; 400 when the event is invalid, and nothing has changed; 503 when the
-- queue is full, and it waits as it did.
pub message_handler-Handled :
    (event : MessageEvent) (d : Dispatcher) → Handled event d (message_handler (some event) d)
unfolding enqueue offer has_room
message_handler-Handled event d = elim (Option-cases (validate_event event)) [
  | inr (e, h) ↦
      subst (Handled event d) (sym (message_handler_refused event d e h))
        (refused (λ v. let valid = (validate_event_iff event).1 v in cc))
  | inl h ↦
      let v = (validate_event_iff event).0 h in
      subst (Handled event d) (sym (message_handler_accepted event d h))
        (elim (dec_lt (length d.event_q.queue) d.event_q.capacity) [
          | yes room ↦
              rw (lt→ltb _ _ room)
                (queued (enqueue d event) v room (ground arith) (ground arith) (ground arith))
          | no stuck ↦
              rw (has_no_room d stuck) (
                full (enqueue d event) v (omega arith) (ground arith) (ground arith) (ground arith))
        ])
]
