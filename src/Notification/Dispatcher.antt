-- ===== src/Notification/Dispatcher.antt =====
-- notification-service/internal/dispatch/dispatcher.go: the event queue, the single fan-out worker,
-- the delivery queue and its workers, as steps that may interleave in any order. What the resolver
-- answers is part of the fan-out's step; the timeouts and the cancellation of contexts are left
-- out.
pub mod Jobs
pub mod Work
pub mod Shutdown
use realtime_chat_platform.Prelude.{
  ℕ, zero, suc, ◌-◌, ◌⊎◌, inl, inr, Bool, true, false, Option, none, some, List, [], ◌∷◌, map,
  if◌then◌else◌,
}
use realtime_chat_platform.Queues.{Channel, new_channel, offer, work}
use realtime_chat_platform.Notification.Domain.{MessageEvent, Recipient}

abbrev pub event_queue_size : ℕ
event_queue_size = 256

abbrev pub delivery_queue_size : ℕ
delivery_queue_size = 1024

pub record DeliveryJob : Type 0 where
  pub recipient : Recipient
  pub event : MessageEvent

pub record Dispatcher : Type 0 where
  pub event_q : Channel MessageEvent
  pub delivery_q : Channel DeliveryJob
  -- whether `stop` is closed, whether the fan-out worker runs, and how many delivery workers do
  pub stopped : Bool
  pub fanout_runs : Bool
  pub delivery_workers : ℕ

unfoldable pub new_dispatcher : ℕ → Dispatcher
unfolding new_channel
new_dispatcher workers = record {
  event_q = new_channel event_queue_size;
  delivery_q = new_channel delivery_queue_size;
  stopped = false;
  fanout_runs = true;
  delivery_workers = workers;
}

unfoldable pub enqueue : Dispatcher → MessageEvent → Dispatcher
enqueue d event = record d { event_q = offer d.event_q event }

-- The loop over the recipients.
unfoldable pub offer_all : Channel DeliveryJob → MessageEvent → List Recipient → Channel DeliveryJob
offer_all ch event [] = ch
offer_all ch event (r ∷ rs) =
    offer_all (offer ch (record { recipient = r; event = event })) event rs

-- `fanout`; a failed resolution is logged.
unfoldable pub fanout : Dispatcher → MessageEvent → Option (List Recipient) → Dispatcher
unfolding offer_all
fanout d event none = d
fanout d event (some recipients) = record d { delivery_q = offer_all d.delivery_q event recipients }

-- One round of `runFanout` or of `drainEvents`: the oldest event is fanned out; without one the
-- worker returns if it is stopped, and waits if not.
unfoldable pub fanout_round : Dispatcher → Option (List Recipient) → List MessageEvent → Dispatcher
unfolding fanout
fanout_round d resolved [] = if d.stopped then record d { fanout_runs = false } else d
fanout_round d resolved (event ∷ rest) =
    fanout (record d { event_q = work d.event_q }) event resolved

unfoldable pub run_fanout : Dispatcher → Option (List Recipient) → Dispatcher
unfolding fanout_round
run_fanout d resolved = if d.fanout_runs then fanout_round d resolved d.event_q.queue else d

-- One round of `runDelivery` or of `drainDeliveries`.
unfoldable pub delivery_round : Dispatcher → List DeliveryJob → Dispatcher
delivery_round d [] =
    if d.stopped then record d { delivery_workers = d.delivery_workers - 1 } else d
delivery_round d (job ∷ rest) = record d { delivery_q = work d.delivery_q }

unfoldable pub run_delivery : Dispatcher → Dispatcher
unfolding delivery_round
run_delivery d = elim d.delivery_workers [ zero ↦ d | suc w ↦ delivery_round d d.delivery_q.queue ]

-- The first line of `Close`.
unfoldable pub stop : Dispatcher → Dispatcher
stop d = record d { stopped = true }

pub data Step : Type 0 where
  enqueued : MessageEvent → Step
  fanned : Option (List Recipient) → Step
  delivered closed : Step

unfoldable pub step : Dispatcher → Step → Dispatcher
unfolding enqueue run_fanout run_delivery stop
step d (enqueued event) = enqueue d event
step d (fanned resolved) = run_fanout d resolved
step d delivered = run_delivery d
step d closed = stop d

unfoldable pub run : Dispatcher → List Step → Dispatcher
unfolding step
run d [] = d
run d (s ∷ steps) = run (step d s) steps
