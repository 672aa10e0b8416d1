-- ===== src/Chat/Dispatcher/Delivery.antt =====
-- Which calls the dispatcher's workers have made when `Close` ends.
use realtime_chat_platform.Prelude.{◌++◌, ◌≡◌, refl, Bool, false, List, arith}
use mathlib.Core.List.{Perm}
use realtime_chat_platform.Queues.Pool.{working}
use realtime_chat_platform.Queues.Pool.Draining.{
  HasServed, returned-HasServed, returned_alone-HasServed,
}
use realtime_chat_platform.Chat.Domain
use realtime_chat_platform.Chat.Domain.{MessageEvent}
use realtime_chat_platform.Chat.Dispatcher.{
  CreateCall, PresenceEvent, ArchiveEvent, CreateCall, notify_workers, handle_presence,
  handle_archive, handle_notify, Dispatcher, new_dispatcher, stop, drained, close_wait, Step, run,
}
use realtime_chat_platform.Queues.Offers.{offered_to}
use realtime_chat_platform.Chat.Dispatcher.Offers.{reports, messages, only_if, offers_around_stop}
use realtime_chat_platform.Chat.Dispatcher.Soundness.{new_dispatcher-Inv, stop-Inv, run-Inv}
use realtime_chat_platform.Chat.Dispatcher.Stopped.{stop-Stopped, run-Stopped}

-- The calls due for an event: an event for the presence service, whose instance is still to be
-- stamped on, a row for the archive, and an event for the notification service.
abbrev pub presence_due : PresenceEvent → Domain.PresenceEvent
presence_due event = record {
  user_id = event.user_id;
  room = event.room;
  status = event.status;
  instance_id = "";
}

abbrev pub row_due : ArchiveEvent → CreateCall
row_due event = record {
  room = event.room;
  user_id = event.user_id;
  content = event.content;
  created_at = event.created_at;
}

abbrev pub message_due : ArchiveEvent → MessageEvent
message_due event = record {
  event_id = event.event_id;
  room = event.room;
  user_id = event.user_id;
  content = event.content;
  created_at = event.created_at;
}

none_works :
    (d : Dispatcher)
    → close_wait d ≡ drained
    → (working d.presence_q ≡ 0) × (working d.archive_q ≡ 0) × (working d.notify_q ≡ 0)
unfolding close_wait
none_works d h = (ground arith, ground arith, ground arith)

-- Rooms report and archive, workers receive and handle, in any interleaving before `Close` closes
-- `stop` and in any interleaving after it, with late reports and messages too. If the wait of
-- `Close` then ends by the wait group and not by the timeout: the presence client was called once
-- for each presence event that was accepted before the stop, and for those of the late ones that
-- were still received, in the order of acceptance, and with nothing else; the message service
-- likewise for the accepted messages; and the notification client, by its four workers, likewise
-- in some order. What is left in a queue was accepted after the stop. The events that the queues
-- accepted or dropped are all the reports, all the messages, and, for the notification queue, all
-- the messages if there is a notification client, else none.
pub close_drains :
    (notifies : Bool) (steps afterwards : List Step)
    → (run (new_dispatcher notifies) steps).stopped ≡ false
    → let d₀ = run (new_dispatcher notifies) steps in
      let d = run (stop d₀) afterwards in
      close_wait d ≡ drained
      → HasServed presence_due d₀.presence_q.channel.accepted (λ made due. made ≡ due) d.presence_q
        × HasServed row_due d₀.archive_q.channel.accepted (λ made due. made ≡ due) d.archive_q
        × HasServed message_due d₀.notify_q.channel.accepted (λ made due. Perm made due) d.notify_q
        × Perm (offered_to d.presence_q.channel) (reports steps ++ reports afterwards)
        × Perm (offered_to d.archive_q.channel) (messages steps ++ messages afterwards)
        × Perm
            (offered_to d.notify_q.channel)
            (only_if notifies (messages steps ++ messages afterwards))
unfolding handle_presence handle_archive handle_notify
close_drains notifies steps afterwards going ended =
    let d₀ = run (new_dispatcher notifies) steps in
    let d = run (stop d₀) afterwards in
    let v₀ = run-Inv (new_dispatcher notifies) steps (new_dispatcher-Inv notifies) in
    let v = run-Inv (stop d₀) afterwards (stop-Inv d₀ v₀) in
    let w = run-Stopped d₀ (stop d₀) afterwards (stop-Inv d₀ v₀) (stop-Stopped d₀ v₀ going) in
    let (no_presence, no_archive, no_notify) = none_works d ended in
    let (presence_offered, archive_offered, notify_offered) =
      offers_around_stop notifies steps afterwards in
    (
      returned_alone-HasServed handle_presence 1 d₀.presence_q.channel.accepted d.presence_q
          v.presence w.presence refl no_presence,
      returned_alone-HasServed handle_archive 1 d₀.archive_q.channel.accepted d.archive_q v.archive
          w.archive refl no_archive,
      returned-HasServed handle_notify notify_workers d₀.notify_q.channel.accepted d.notify_q
          v.notify w.notify (omega arith) no_notify,
      presence_offered,
      archive_offered,
      notify_offered,
    )
