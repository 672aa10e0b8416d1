-- ===== src/Chat/Dispatcher/Stopped.antt =====
-- The dispatcher's pools between the stop and the end of `Close`.
use realtime_chat_platform.Prelude.{
  ℕ, ◌≡◌, refl, sym, ap, String, ℤ, true, false, List, [], ◌∷◌, if◌then◌else◌, Bool-cases, inl, inr,
  subst,
}
use mathlib.Core.List.{append-nil}
use realtime_chat_platform.Queues.Pool.{offer_to, work_pool}
use realtime_chat_platform.Queues.Pool.Draining.{
  IsDraining, offer_to-IsDraining, work_pool-IsDraining,
}
use realtime_chat_platform.Chat.Dispatcher.{
  PresenceEvent, ArchiveEvent, notify_workers, handle_presence, handle_archive, handle_notify,
  Dispatcher, notify, archive, presence_worker, archive_worker, notify_worker, stop, Step, notified,
  archived, presence_worked, archive_worked, notify_worked, closed, step, run,
}
use realtime_chat_platform.Chat.Dispatcher.Soundness.{Inv, step-Inv}

-- A dispatcher after the stop of `d₀`.
pub record Stopped (d₀ d : Dispatcher) : Type 0 where
  pub stopped : d.stopped ≡ true
  pub presence : IsDraining handle_presence 1 d₀.presence_q.channel.accepted d.presence_q
  pub archive : IsDraining handle_archive 1 d₀.archive_q.channel.accepted d.archive_q
  pub notify : IsDraining handle_notify notify_workers d₀.notify_q.channel.accepted d.notify_q

pub stop-Stopped : (d : Dispatcher) → Inv d → d.stopped ≡ false → Stopped d (stop d)
unfolding stop
stop-Stopped d v going = record {
  stopped = refl;
  presence = record {
    accepted = ([], sym (append-nil d.presence_q.channel.accepted));
    taken = inl (v.presence_runs going);
  };
  archive = record {
    accepted = ([], sym (append-nil d.archive_q.channel.accepted));
    taken = inl (v.archive_runs going);
  };
  notify = record {
    accepted = ([], sym (append-nil d.notify_q.channel.accepted));
    taken = inl (v.notify_run going);
  };
}

offer_presence-Stopped :
    (d₀ d : Dispatcher) (event : PresenceEvent)
    → Stopped d₀ d
    → Stopped d₀ (record d { presence_q = offer_to d.presence_q event })
offer_presence-Stopped d₀ d event w = record {
  stopped = w.stopped;
  presence =
      offer_to-IsDraining handle_presence 1 d₀.presence_q.channel.accepted d.presence_q event
        w.presence;
  archive = w.archive;
  notify = w.notify;
}

archive-Stopped :
    (d₀ d : Dispatcher) (event_id room : String) (user_id : ℤ) (content : String) (created_at : ℕ)
    → Stopped d₀ d
    → Stopped d₀ (archive d event_id room user_id content created_at)
unfolding archive
archive-Stopped d₀ d event_id room user_id content created_at w =
    let event : ArchiveEvent = record {
      event_id = event_id;
      room = room;
      user_id = user_id;
      content = content;
      created_at = created_at;
    } in
    let archived = record d { archive_q = offer_to d.archive_q event } in
    let both = record archived { notify_q = offer_to d.notify_q event } in
    let archive_w =
      offer_to-IsDraining handle_archive 1 d₀.archive_q.channel.accepted d.archive_q event
        w.archive in
    elim (Bool-cases d.notifies) [
      | inl on ↦ subst (Stopped d₀) (sym (ap (λ b. if b then both else archived) on)) (record {
        stopped = w.stopped;
        presence = w.presence;
        archive = archive_w;
        notify =
            offer_to-IsDraining handle_notify notify_workers d₀.notify_q.channel.accepted d.notify_q
              event w.notify;
      })
      | inr off ↦ subst (Stopped d₀) (sym (ap (λ b. if b then both else archived) off)) (record {
        stopped = w.stopped;
        presence = w.presence;
        archive = archive_w;
        notify = w.notify;
      })
    ]

step-Stopped : (d₀ d : Dispatcher) (s : Step) → Inv d → Stopped d₀ d → Stopped d₀ (step d s)
unfolding step notify presence_worker archive_worker notify_worker stop
step-Stopped d₀ d (notified room user_id status) v w =
    offer_presence-Stopped d₀ d (record { room = room; user_id = user_id; status = status }) w
step-Stopped d₀ d (archived event_id room user_id content created_at) v w =
    archive-Stopped d₀ d event_id room user_id content created_at w
step-Stopped d₀ d (presence_worked s) v w = record {
  stopped = w.stopped;
  presence =
      subst
        (λ b.
          IsDraining handle_presence 1 d₀.presence_q.channel.accepted
            (work_pool handle_presence b d.presence_q s))
        (sym w.stopped)
        (work_pool-IsDraining handle_presence 1 d₀.presence_q.channel.accepted d.presence_q s
          v.presence w.presence);
  archive = w.archive;
  notify = w.notify;
}
step-Stopped d₀ d (archive_worked s) v w = record {
  stopped = w.stopped;
  presence = w.presence;
  archive =
      subst
        (λ b.
          IsDraining handle_archive 1 d₀.archive_q.channel.accepted
            (work_pool handle_archive b d.archive_q s))
        (sym w.stopped)
        (work_pool-IsDraining handle_archive 1 d₀.archive_q.channel.accepted d.archive_q s v.archive
          w.archive);
  notify = w.notify;
}
step-Stopped d₀ d (notify_worked s) v w = record {
  stopped = w.stopped;
  presence = w.presence;
  archive = w.archive;
  notify =
      subst
        (λ b.
          IsDraining handle_notify notify_workers d₀.notify_q.channel.accepted
            (work_pool handle_notify b d.notify_q s))
        (sym w.stopped)
        (work_pool-IsDraining handle_notify notify_workers d₀.notify_q.channel.accepted d.notify_q s
          v.notify w.notify);
}
step-Stopped d₀ d closed v w = record {
  stopped = refl;
  presence = w.presence;
  archive = w.archive;
  notify = w.notify;
}

pub run-Stopped :
    (d₀ d : Dispatcher) (steps : List Step) → Inv d → Stopped d₀ d → Stopped d₀ (run d steps)
unfolding run
run-Stopped d₀ d [] v w = w
run-Stopped d₀ d (s ∷ steps) v w =
    run-Stopped d₀ (step d s) steps (step-Inv d s v) (step-Stopped d₀ d s v w)
