-- ===== src/Notification/Http.antt =====
-- notification-service/internal/middleware/gateway_auth.go, internal/controller and
-- internal/service/subscription_service.go on the tables and the dispatcher. Whether the database
-- fails is an argument, and so are what a body binds to and the order of the database's texts. A
-- delivery's time of creation grows with its id.
pub mod Identity
pub mod Calls
use realtime_chat_platform.Prelude.{
  ℕ, ◌⊎◌, inl, inr, String, String_discrete, ℤ, pos, negsuc, ℤ_discrete, positive, Bool, true,
  false, not, Option, none, some, List, [], ◌∷◌, ite, if◌then◌else◌, ltb, bytes, codes, length,
  take, ◌==◌,
}
use realtime_chat_platform.Prelude.Decimal.{parse_int}
use realtime_chat_platform.Prelude.Orders.{Bytes_discrete}
use realtime_chat_platform.Prelude.Sorting.{sort}
use realtime_chat_platform.Gateway.Http.{Request, header}
use realtime_chat_platform.Notification.Domain.{Webhook, Delivery, DeliveryStatus, MessageEvent}
use realtime_chat_platform.Notification.Validation.{Invalid, Ip, validate_room, validate_event}
use realtime_chat_platform.Notification.Store.{
  Subscription, ParsedUrl, PutError, invalid, no_entropy, not_found, put_webhook, get_by_user_id,
  delete_by_user_id, subscribe, unsubscribe,
}
use realtime_chat_platform.Notification.Dispatcher.{Dispatcher, enqueue}
use realtime_chat_platform.Queues.{Channel}

-- `Header.Get`.
unfoldable pub header_get : String → Request → String
header_get name r = elim (header name r) [ none ↦ "" | some value ↦ value ]

-- `GatewayAuthMiddleware`: the user id that is set; `none` is a 401.
unfoldable pub gateway_auth : List ℕ → Request → Option ℤ
unfolding header_get bytes
gateway_auth gateway_key r =
    ite (Bytes_discrete (bytes (header_get "X-Gateway-Key" r)) gateway_key)
      (elim (parse_int (codes (header_get "X-User-Id" r))) [
        | none ↦ none
        | some user_id ↦ if positive user_id then some user_id else none
      ])
      none

-- `userIDFrom`.
unfoldable pub user_id_from : Option ℤ → Option ℤ
user_id_from none = none
user_id_from (some user_id) = if positive user_id then some user_id else none

-- An answer: a status with a message or an error, or what is shown with status 200.
pub data Answer : Type 0 where
  status : ℕ → Answer
  webhook_with_secret webhook_shown : Webhook → Answer
  subscriptions_shown : List Subscription → Answer
  deliveries_shown : List Delivery → Answer

module _ (parse : String → Option ParsedUrl) (parse_ip : String → Option Ip) where
  unfoldable pub put_answer : Webhook ⊎ PutError parse parse_ip → Answer
  put_answer (inl w) = webhook_with_secret w
  put_answer (inr (invalid e)) = status 400
  put_answer (inr no_entropy) = status 500
  put_answer (inr not_found) = status 500

  -- `PUT /webhook`, with a database that works.
  unfoldable pub put_webhook_handler :
      Bool → Option (List ℕ) → Option ℤ → Option String → List Webhook → List Webhook × Answer
  unfolding user_id_from put_webhook put_answer
  put_webhook_handler allow_loopback random user body table = elim (user_id_from user) [
    | none ↦ (table, status 401)
    | some user_id ↦ elim body [
      | none ↦ (table, status 400)
      | some url ↦
          let (after, result) =
            put_webhook parse parse_ip allow_loopback random user_id url table in
          (after, put_answer result)
    ]
  ]

-- `GET /webhook`.
unfoldable pub get_webhook_handler : Bool → Option ℤ → List Webhook → Answer
unfolding user_id_from get_by_user_id
get_webhook_handler fails user table = elim (user_id_from user) [
  | none ↦ status 401
  | some user_id ↦
      if fails
      then status 500
      else elim (get_by_user_id user_id table) [ none ↦ status 404 | some w ↦ webhook_shown w ]
]

-- `DELETE /webhook`.
unfoldable pub delete_webhook_handler : Bool → Option ℤ → List Webhook → List Webhook × Answer
unfolding user_id_from delete_by_user_id
delete_webhook_handler fails user table = elim (user_id_from user) [
  | none ↦ (table, status 401)
  | some user_id ↦
      if fails then (table, status 500) else (delete_by_user_id user_id table, status 204)
]

-- `POST /subscriptions`, with `Subscribe` of the service.
unfoldable pub subscribe_handler :
    Bool → Option ℤ → Option String → List Subscription → List Subscription × Answer
unfolding user_id_from validate_room subscribe
subscribe_handler fails user body table = elim (user_id_from user) [
  | none ↦ (table, status 401)
  | some user_id ↦ elim body [
    | none ↦ (table, status 400)
    | some room ↦ elim (validate_room room) [
      | some e ↦ (table, status 400)
      | none ↦ if fails then (table, status 500) else (subscribe user_id room table, status 201)
    ]
  ]
]

-- `DELETE /subscriptions/:room`, with `Unsubscribe` of the service.
unfoldable pub unsubscribe_handler :
    Bool → Option ℤ → String → List Subscription → List Subscription × Answer
unfolding user_id_from validate_room unsubscribe
unsubscribe_handler fails user room table = elim (user_id_from user) [
  | none ↦ (table, status 401)
  | some user_id ↦ elim (validate_room room) [
    | some e ↦ (table, status 400)
    | none ↦ if fails then (table, status 500) else (unsubscribe user_id room table, status 204)
  ]
]

unfoldable pub of_user : ℤ → List Subscription → List Subscription
of_user user_id [] = []
of_user user_id (s ∷ ss) =
    let rest = of_user user_id ss in ite (ℤ_discrete s.user_id user_id) (s ∷ rest) rest

module _ (room_before : String → String → Bool) where
  unfoldable pub by_room : Subscription → Subscription → Bool
  by_room a b = room_before a.room b.room

  -- `ListByUserID` of the subscriptions, `ORDER BY room`.
  unfoldable pub list_by_user_id : ℤ → List Subscription → List Subscription
  unfolding of_user by_room
  list_by_user_id user_id table = sort by_room (of_user user_id table)

  -- `GET /subscriptions`.
  unfoldable pub list_subscriptions_handler : Bool → Option ℤ → List Subscription → Answer
  unfolding user_id_from list_by_user_id
  list_subscriptions_handler fails user table = elim (user_id_from user) [
    | none ↦ status 401
    | some user_id ↦
        if fails then status 500 else subscriptions_shown (list_by_user_id user_id table)
  ]

abbrev pub default_delivery_limit : ℕ
default_delivery_limit = 20

abbrev pub max_delivery_limit : ℕ
max_delivery_limit = 100

unfoldable pub deliveries_of : ℤ → List Delivery → List Delivery
deliveries_of user_id [] = []
deliveries_of user_id (d ∷ ds) =
    let rest = deliveries_of user_id ds in ite (ℤ_discrete d.user_id user_id) (d ∷ rest) rest

-- `ListByUserID` of the deliveries; the rows come newest first.
unfoldable pub list_deliveries : ℤ → ℕ → List Delivery → List Delivery
unfolding deliveries_of
list_deliveries user_id limit rows = take limit (deliveries_of user_id rows)

-- `strconv.Atoi` of the limit, which must be positive; `min` with the most that is allowed.
unfoldable pub positive_limit : Option ℤ → Option ℕ
positive_limit none = none
positive_limit (some (negsuc n)) = none
positive_limit (some (pos n)) =
    if n == 0 then none else some (if ltb n max_delivery_limit then n else max_delivery_limit)

unfoldable pub limit_of : String → Option ℕ
unfolding positive_limit
limit_of raw =
    ite (String_discrete raw "") (some default_delivery_limit)
      (positive_limit (parse_int (codes raw)))

-- `GET /deliveries?limit=`.
unfoldable pub list_deliveries_handler : Bool → Option ℤ → String → List Delivery → Answer
unfolding user_id_from limit_of list_deliveries
list_deliveries_handler fails user raw rows = elim (user_id_from user) [
  | none ↦ status 401
  | some user_id ↦ elim (limit_of raw) [
    | none ↦ status 400
    | some limit ↦
        if fails then status 500 else deliveries_shown (list_deliveries user_id limit rows)
  ]
]

-- Whether `Enqueue` finds room.
unfoldable pub has_room : Dispatcher → Bool
has_room d = ltb (length d.event_q.queue) d.event_q.capacity

-- `POST /events/message`.
unfoldable pub message_handler : Option MessageEvent → Dispatcher → Dispatcher × Answer
unfolding validate_event has_room enqueue
message_handler none d = (d, status 400)
message_handler (some event) d = elim (validate_event event) [
  | some e ↦ (d, status 400)
  | none ↦ (enqueue d event, if has_room d then status 202 else status 503)
]
