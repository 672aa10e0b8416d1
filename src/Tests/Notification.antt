-- ===== src/Tests/Notification.antt =====
-- The notification service's rules, fan-out and dispatcher at concrete inputs.
use realtime_chat_platform.Prelude.{
  ℕ, zero, suc, ◌++◌, ◌<◌, ◌≡◌, refl, inl, ℤ, ℤ_discrete, pos, Bool, true, false, Option, none,
  some, List, [], ◌∷◌, map, length, dec_lt, arith,
}
use realtime_chat_platform.Queues.{offer, work}
use realtime_chat_platform.Notification.Domain.{Webhook, MessageEvent, Recipient, pending}
use realtime_chat_platform.Notification.Validation.{Ip, dial_context}
use realtime_chat_platform.Notification.Validation.Rules.{DialsSafely, dial_context-DialsSafely}
use realtime_chat_platform.Notification.Fanout.{
  Deliveries, contains, candidates_of, known_online, recipients, add_recipients, has_row, create,
  new_delivery,
}
use realtime_chat_platform.Notification.Fanout.Candidates.{IsCandidate}
use realtime_chat_platform.Notification.Fanout.Rounds.{AllNew}
use realtime_chat_platform.Notification.Fanout.Recipients.{recipients_lem, recipients_replay}
use realtime_chat_platform.Notification.Store
use realtime_chat_platform.Notification.Store.{
  upsert, get_by_user_id, Subscription, subscribe, unsubscribe,
}
use realtime_chat_platform.Notification.Store.Endpoints.{list_by_user_ids-AnswersQuery}
use realtime_chat_platform.Notification.Dispatcher.{
  Dispatcher, new_dispatcher, step, run, enqueued, fanned, delivered, closed, run_fanout,
  fanout_round, stop, enqueue, run_delivery, delivery_round, fanout, offer_all,
}
use mathlib.Core.List.{Perm}
use realtime_chat_platform.Notification.Dispatcher.Jobs.{jobs_of}
use realtime_chat_platform.Notification.Dispatcher.Shutdown.{
  Reachable, started, stepped, returned_fanned_out, fanout_returns,
}

abbrev event : MessageEvent
event = record {
  event_id = "e1";
  room = "general";
  user_id = pos 1;
  content = "hello";
  created_at = 9;
}

abbrev public_ip : Ip
public_ip = record {
  address = 0x08080808;
  is_loopback = false;
  is_private = false;
  is_link_local_unicast = false;
  is_link_local_multicast = false;
  is_unspecified = false;
  is_multicast = false;
  is_interface_local_multicast = false;
}

abbrev private_ip : Ip
private_ip = record public_ip { address = 0x0a000005; is_private = true }

abbrev connects : Ip → Bool
connects ip = true

dial_context-DialsSafely_example :
    DialsSafely connects false
      (private_ip ∷ public_ip ∷ [])
      (dial_context connects false (private_ip ∷ public_ip ∷ []))
dial_context-DialsSafely_example =
    dial_context-DialsSafely connects false (private_ip ∷ public_ip ∷ [])

abbrev webhook : Webhook
webhook = record { user_id = pos 2; url = "https://example.com/hook"; secret = "s" }

abbrev works : ℤ → Bool
works user_id = false

-- The table with that webhook, as the fan-out reads it.
abbrev list_by_user_ids : List ℤ → Option (List Webhook)
list_by_user_ids ids = some (Store.list_by_user_ids (webhook ∷ []) ids)

abbrev subscriptions : List Subscription
subscriptions = record { user_id = pos 3; room = "general" } ∷ []

abbrev no_rows : Deliveries
no_rows = record { next_id = 1; rows = [] }

abbrev subscribers : List ℤ
subscribers = pos 1 ∷ pos 2 ∷ pos 3 ∷ []

abbrev online : Option (List ℤ)
online = some (pos 3 ∷ [])

recipients_lem_example :
    AllNew event
      (λ w. IsCandidate (pos 1) (known_online online) subscribers w.user_id)
      no_rows
      (recipients works (some subscribers) online list_by_user_ids event no_rows).result
recipients_lem_example =
    recipients_lem works list_by_user_ids (list_by_user_ids-AnswersQuery works (webhook ∷ []))
      subscribers online event no_rows

abbrev recipient : Recipient
recipient = record {
  webhook = webhook;
  delivery = record {
    id = 1;
    event_id = "e1";
    user_id = pos 2;
    room = "general";
    url = "https://example.com/hook";
    status = pending;
    attempts = 0;
    last_status = none;
    last_error = none;
  };
}

notified :
    (recipients works (some subscribers) online list_by_user_ids event no_rows).result
    ≡ inl (recipient ∷ [])
unfolding recipients Store.list_by_user_ids candidates_of known_online contains add_recipients
    create new_delivery has_row ℤ_discrete
notified = refl

recipients_replay_example :
    (let after =
        (recipients works (some subscribers) online list_by_user_ids event no_rows).table in
      recipients (λ _. false) (some subscribers) online list_by_user_ids event after
      ≡ record { table = after; result = inl [] })
recipients_replay_example =
    recipients_replay list_by_user_ids works subscribers online event no_rows (recipient ∷ [])
      notified

-- The dispatcher after an event, the stop, and the last two rounds of the fan-out worker.
abbrev queued : Dispatcher
queued = step (step (new_dispatcher 2) (enqueued event)) closed

abbrev ended : Dispatcher
ended = step (step queued (fanned (some (recipient ∷ [])))) (fanned none)

-- The resolver's answers: a recipient for the first event.
abbrev resolve : ℕ → Option (List Recipient)
resolve zero = some (recipient ∷ [])
resolve (suc n) = none

queued-Reachable : Reachable 2 resolve queued
unfolding new_dispatcher
queued-Reachable = stepped closed (stepped (enqueued event) started refl) tt

ended-Reachable : Reachable 2 resolve ended
unfolding step new_dispatcher run_fanout enqueue stop fanout_round offer dec_lt work
ended-Reachable =
    stepped (fanned none) (stepped (fanned (some (recipient ∷ []))) queued-Reachable refl) refl

ended_gone : ended.fanout_runs ≡ false
unfolding step new_dispatcher run_fanout enqueue stop fanout_round offer dec_lt work
ended_gone = refl

returned_fanned_out_example :
    Perm
      (ended.delivery_q.accepted ++ ended.delivery_q.dropped)
      (jobs_of resolve 0 ended.event_q.accepted)
returned_fanned_out_example = returned_fanned_out 2 resolve ended ended-Reachable ended_gone

queued_stopped : queued.stopped ≡ true
unfolding step stop
queued_stopped = refl

two_rounds : length queued.event_q.queue < 2
unfolding step stop new_dispatcher enqueue offer dec_lt
two_rounds = omega arith

fanout_returns_example :
    (run queued (map fanned (some (recipient ∷ []) ∷ none ∷ []))).fanout_runs ≡ false
fanout_returns_example =
    fanout_returns queued (some (recipient ∷ []) ∷ none ∷ []) queued_stopped two_rounds

-- The delivery workers may return before the fan-out worker makes the last jobs: then a job stays
-- in the queue, and nobody is left to take it.
abbrev stranded : Dispatcher
stranded = step (step (step queued delivered) delivered) (fanned (some (recipient ∷ [])))

job_left_behind :
    (stranded.delivery_workers ≡ 0)
    × (stranded.delivery_q.queue ≡ record { recipient = recipient; event = event } ∷ [])
unfolding step new_dispatcher run_fanout enqueue stop fanout_round offer dec_lt work run_delivery
    delivery_round fanout offer_all
job_left_behind = (refl, refl)
