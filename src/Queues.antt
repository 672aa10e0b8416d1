-- ===== src/Queues.antt =====
-- The bounded channels between producers and workers, as both dispatchers use them
-- (chat-service/internal/dispatch and notification-service/internal/dispatch). All lists are oldest
-- first.
pub mod Order
pub mod Offers
pub mod Pool
use realtime_chat_platform.Prelude.{ℕ, zero, suc, ◌<◌, List, [], ◌∷◌, ◌++◌, ite, dec_lt, length}

-- A buffered channel: what waits in it, what was ever accepted, taken out by a
-- worker, or dropped.
pub record Channel (A : Type 0) : Type 0 where
  pub capacity : ℕ
  pub queue : List A
  pub accepted : List A
  pub taken : List A
  pub dropped : List A

unfoldable pub new_channel : {A : Type 0} → ℕ → Channel A
new_channel capacity = record {
  capacity = capacity;
  queue = [];
  accepted = [];
  taken = [];
  dropped = [];
}

-- `select { case q <- event: default: }`
unfoldable pub offer : {A : Type 0} → Channel A → A → Channel A
offer ch event =
    ite (dec_lt (length ch.queue) ch.capacity)
      (record ch { queue = ch.queue ++ (event ∷ []); accepted = ch.accepted ++ (event ∷ []) })
      (record ch { dropped = ch.dropped ++ (event ∷ []) })

-- A receive by a worker: it takes the oldest event; what it does with the event is the worker's.
abbrev pub take_from : {A : Type 0} → Channel A → List A → Channel A
take_from ch [] = ch
take_from ch (event ∷ rest) = record ch { queue = rest; taken = ch.taken ++ (event ∷ []) }

unfoldable pub work : {A : Type 0} → Channel A → Channel A
work ch = take_from ch ch.queue
