-- ===== src/Chat/Domain.antt =====
-- chat-service/internal/domain, and the send channel of a client (internal/ws/client.go).
use realtime_chat_platform.Prelude.{
  ℕ, String, ℤ, Bool, true, false, Option, none, some, List, [], ◌∷◌, ◌++◌, ite, dec_lt, length,
}

-- `MessageType` is a string; these are its constants.
abbrev pub message_type_chat : String
message_type_chat = "chat"

abbrev pub message_type_join : String
message_type_join = "join"

abbrev pub message_type_leave : String
message_type_leave = "leave"

abbrev pub message_type_typing : String
message_type_typing = "typing"

pub record Message : Type 0 where
  pub type : String
  pub room : String
  pub user_id : ℤ
  pub content : String
  pub timestamp : ℕ

pub data PresenceStatus : Type 0 where
  online offline : PresenceStatus

-- The body that presence-service gets; `instance_id` is stamped on by the client.
pub record PresenceEvent : Type 0 where
  pub user_id : ℤ
  pub room : String
  pub status : PresenceStatus
  pub instance_id : String

-- The body that notification-service gets.
pub record MessageEvent : Type 0 where
  pub event_id : String
  pub room : String
  pub user_id : ℤ
  pub content : String
  pub created_at : ℕ

-- A call of `PresenceNotifier.Notify` by a room.
pub record PresenceReport : Type 0 where
  pub user_id : ℤ
  pub room : String
  pub status : PresenceStatus

-- A connection; `id` stands for the pointer.
pub record Client : Type 0 where
  pub id : ℕ
  pub user_id : ℤ

-- `make(chan []byte, 16)`: what waits in it, oldest first, and whether it is closed.
pub record SendChannel : Type 0 where
  pub queue : List Message
  pub closed : Bool

abbrev pub send_capacity : ℕ
send_capacity = 16

unfoldable pub new_send_channel : SendChannel
new_send_channel = record { queue = []; closed = false }

pub data SendResult : Type 0 where
  sent : SendChannel → SendResult
  full : SendResult
  send_panic : SendResult

-- `select { case ch <- m: default: }`; a send on a closed channel panics.
abbrev pub send_on : Bool → List Message → Message → SendResult
send_on true queue m = send_panic
send_on false queue m =
    ite (dec_lt (length queue) send_capacity)
      (sent (record { queue = queue ++ (m ∷ []); closed = false })) full

unfoldable pub try_send : SendChannel → Message → SendResult
try_send ch m = send_on ch.closed ch.queue m

-- `close(ch)`; closing twice panics.
abbrev pub close_at : Bool → List Message → Option SendChannel
close_at true queue = none
close_at false queue = some (record { queue = queue; closed = true })

unfoldable pub close : SendChannel → Option SendChannel
close ch = close_at ch.closed ch.queue
