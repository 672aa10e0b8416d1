-- ===== src/Chat/Dispatcher.antt =====
-- chat-service/internal/dispatch/dispatcher.go: the bounded queues between the room loops and the
-- workers, and the calls that the workers' handlers make, as steps that may interleave in any
-- order. What a call returns, within which time, only decides a log line, and is left out.
pub mod Soundness
pub mod Stopped
pub mod Offers
pub mod Delivery
pub mod Ending
use realtime_chat_platform.Prelude.{
  ℕ, ◌+◌, String, ℤ, Bool, true, false, List, [], ◌∷◌, if◌then◌else◌, ◌==◌,
}
use realtime_chat_platform.Queues.Pool.{Pool, new_pool, working, offer_to, WorkerStep, work_pool}
use realtime_chat_platform.Chat.Domain
use realtime_chat_platform.Chat.Domain.{PresenceStatus, MessageEvent}

abbrev pub presence_queue_size : ℕ
presence_queue_size = 256

abbrev pub archive_queue_size : ℕ
archive_queue_size = 1024

abbrev pub notify_queue_size : ℕ
notify_queue_size = 1024

abbrev pub notify_workers : ℕ
notify_workers = 4

pub record PresenceEvent : Type 0 where
  pub room : String
  pub user_id : ℤ
  pub status : PresenceStatus

pub record ArchiveEvent : Type 0 where
  pub event_id : String
  pub room : String
  pub user_id : ℤ
  pub content : String
  pub created_at : ℕ

-- The arguments of `MessageCreator.Create`.
pub record CreateCall : Type 0 where
  pub room : String
  pub user_id : ℤ
  pub content : String
  pub created_at : ℕ

-- What each handler calls its client with; the presence client stamps the instance on later.
unfoldable pub handle_presence : PresenceEvent → Domain.PresenceEvent
handle_presence event = record {
  user_id = event.user_id;
  room = event.room;
  status = event.status;
  instance_id = "";
}

unfoldable pub handle_archive : ArchiveEvent → CreateCall
handle_archive event = record {
  room = event.room;
  user_id = event.user_id;
  content = event.content;
  created_at = event.created_at;
}

unfoldable pub handle_notify : ArchiveEvent → MessageEvent
handle_notify event = record {
  event_id = event.event_id;
  room = event.room;
  user_id = event.user_id;
  content = event.content;
  created_at = event.created_at;
}

pub record Dispatcher : Type 0 where
  -- whether a notification client is configured, and whether `stop` is closed
  pub notifies : Bool
  pub stopped : Bool
  pub presence_q : Pool PresenceEvent Domain.PresenceEvent
  pub archive_q : Pool ArchiveEvent CreateCall
  pub notify_q : Pool ArchiveEvent MessageEvent

unfoldable pub new_dispatcher : Bool → Dispatcher
new_dispatcher notifies = record {
  notifies = notifies;
  stopped = false;
  presence_q = new_pool presence_queue_size 1;
  archive_q = new_pool archive_queue_size 1;
  notify_q = new_pool notify_queue_size notify_workers;
}

unfoldable pub notify : Dispatcher → String → ℤ → PresenceStatus → Dispatcher
notify d room user_id status = record d {
  presence_q = offer_to d.presence_q (record { room = room; user_id = user_id; status = status });
}

-- `event_id` is the id that `GenerateRequestID` makes.
unfoldable pub archive : Dispatcher → String → String → ℤ → String → ℕ → Dispatcher
archive d event_id room user_id content created_at =
    let event : ArchiveEvent = record {
      event_id = event_id;
      room = room;
      user_id = user_id;
      content = content;
      created_at = created_at;
    } in
    let archived = record d { archive_q = offer_to d.archive_q event } in
    if d.notifies then record archived { notify_q = offer_to d.notify_q event } else archived

-- One step of a worker, in its loop or in its drain.
unfoldable pub presence_worker : Dispatcher → WorkerStep → Dispatcher
presence_worker d s = record d { presence_q = work_pool handle_presence d.stopped d.presence_q s }

unfoldable pub archive_worker : Dispatcher → WorkerStep → Dispatcher
archive_worker d s = record d { archive_q = work_pool handle_archive d.stopped d.archive_q s }

unfoldable pub notify_worker : Dispatcher → WorkerStep → Dispatcher
notify_worker d s = record d { notify_q = work_pool handle_notify d.stopped d.notify_q s }

-- The first line of `Close`.
unfoldable pub stop : Dispatcher → Dispatcher
stop d = record d { stopped = true }

pub data Closing : Type 0 where
  drained timed_out : Closing

-- How `Close` ends, at the moment that its wait ends: by the wait group, or by the timeout.
unfoldable pub close_wait : Dispatcher → Closing
close_wait d =
    if working d.presence_q + working d.archive_q + working d.notify_q == 0
    then drained
    else timed_out

-- What may happen to a dispatcher, in any order, also after the stop.
pub data Step : Type 0 where
  notified : String → ℤ → PresenceStatus → Step
  archived : String → String → ℤ → String → ℕ → Step
  presence_worked archive_worked notify_worked : WorkerStep → Step
  closed : Step

unfoldable pub step : Dispatcher → Step → Dispatcher
step d (notified room user_id status) = notify d room user_id status
step d (archived event_id room user_id content created_at) =
    archive d event_id room user_id content created_at
step d (presence_worked s) = presence_worker d s
step d (archive_worked s) = archive_worker d s
step d (notify_worked s) = notify_worker d s
step d closed = stop d

unfoldable pub run : Dispatcher → List Step → Dispatcher
run d [] = d
run d (s ∷ steps) = run (step d s) steps
