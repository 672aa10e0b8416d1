-- ===== src/Notification/Fanout.antt =====
-- notification-service/internal/service/fanout_service.go (`Recipients`) and the `Create` of
-- internal/repository/delivery_repository.go. The other two repositories and the presence client
-- are arguments, and so is whether the database fails on an insert.
pub mod Candidates
pub mod Rounds
pub mod Recipients
use realtime_chat_platform.Prelude.{
  ℕ, suc, String, String_discrete, ℤ, ℤ_discrete, ◌⊎◌, inl, inr, Bool, true, false, Option, none,
  some, List, [], ◌∷◌, ◌++◌, ite, if◌then◌else◌,
}
use realtime_chat_platform.Notification.Domain.{
  Webhook, DeliveryStatus, pending, Delivery, MessageEvent, Recipient,
}

-- The table of deliveries; its key over event and user is unique.
pub record Deliveries : Type 0 where
  pub next_id : ℕ
  pub rows : List Delivery

unfoldable pub has_row : String → ℤ → List Delivery → Bool
has_row event_id user_id [] = false
has_row event_id user_id (d ∷ ds) =
    let rest = has_row event_id user_id ds in
    ite (String_discrete event_id d.event_id) (ite (ℤ_discrete user_id d.user_id) true rest) rest

pub data CreateError : Type 0 where
  duplicate broken : CreateError

-- The table with the new row and the row with its id, or the error.
unfoldable pub create : Bool → Deliveries → Delivery → (Deliveries × Delivery) ⊎ CreateError
unfolding has_row
create fails table delivery =
    if fails
    then inr broken
    else if has_row delivery.event_id delivery.user_id table.rows
    then inr duplicate
    else let row = record delivery { id = table.next_id } in
      inl (record { next_id = suc table.next_id; rows = row ∷ table.rows }, row)

unfoldable pub contains : ℤ → List ℤ → Bool
contains user_id [] = false
contains user_id (id ∷ ids) =
    let rest = contains user_id ids in ite (ℤ_discrete user_id id) true rest

-- The subscribers who did not send the message and are not online.
unfoldable pub candidates_of : ℤ → List ℤ → List ℤ → List ℤ
unfolding contains
candidates_of sender online [] = []
candidates_of sender online (id ∷ ids) =
    let rest = candidates_of sender online ids in
    ite (ℤ_discrete id sender) rest (if contains id online then rest else id ∷ rest)

-- Without an answer from the presence service nobody counts as online.
unfoldable pub known_online : Option (List ℤ) → List ℤ
known_online none = []
known_online (some ids) = ids

pub data FanoutError : Type 0 where
  listing_subscribers listing_webhooks : FanoutError
  recording_delivery : ℤ → FanoutError

-- The table afterwards, and what is returned.
pub record Fanned : Type 0 where
  pub table : Deliveries
  pub result : List Recipient ⊎ FanoutError

unfoldable pub new_delivery : MessageEvent → Webhook → Delivery
new_delivery event webhook = record {
  id = 0;
  event_id = event.event_id;
  user_id = webhook.user_id;
  room = event.room;
  url = webhook.url;
  status = pending;
  attempts = 0;
  last_status = none;
  last_error = none;
}

module _ (insert_fails : ℤ → Bool) where
  -- The loop over the webhooks; `recipients` are those appended before.
  unfoldable pub add_recipients : MessageEvent → List Webhook → List Recipient → Deliveries → Fanned
  unfolding create new_delivery
  add_recipients event [] recipients table = record { table = table; result = inl recipients }
  add_recipients event (webhook ∷ webhooks) recipients table =
      elim (create (insert_fails webhook.user_id) table (new_delivery event webhook)) [
        | inr duplicate ↦ add_recipients event webhooks recipients table
        | inr broken ↦ record { table = table; result = inr (recording_delivery webhook.user_id) }
        | inl (grown, delivery) ↦
            add_recipients event webhooks
              (recipients ++ (record { webhook = webhook; delivery = delivery } ∷ [])) grown
      ]

  -- `subscribers` and `online` are the answers for the event's room.
  unfoldable pub recipients :
      Option (List ℤ)
      → Option (List ℤ)
      → (List ℤ → Option (List Webhook))
      → MessageEvent
      → Deliveries
      → Fanned
  unfolding candidates_of add_recipients known_online
  recipients none online list_by_user_ids event table = record {
    table = table;
    result = inr listing_subscribers;
  }
  recipients (some subscribers) online list_by_user_ids event table =
      elim (list_by_user_ids (candidates_of event.user_id (known_online online) subscribers)) [
        | none ↦ record { table = table; result = inr listing_webhooks }
        | some webhooks ↦ add_recipients event webhooks [] table
      ]
