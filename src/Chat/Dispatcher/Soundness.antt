-- ===== src/Chat/Dispatcher/Soundness.antt =====
-- The dispatcher's pools are sound in any run.
use realtime_chat_platform.Prelude.{
  ℕ, ◌≡◌, refl, sym, ap, ◌∙◌, String, ℤ, Bool, false, List, [], ◌∷◌, if◌then◌else◌, Bool-cases, inl,
  inr, subst,
}
use realtime_chat_platform.Queues.Pool.{new_pool, working, offer_to}
use realtime_chat_platform.Queues.Pool.Calls.{
  IsSound, new_pool-IsSound, offer_to-IsSound, work_pool-IsSound, work_pool-working,
}
use realtime_chat_platform.Chat.Dispatcher.{
  presence_queue_size, archive_queue_size, notify_queue_size, ArchiveEvent, notify_workers,
  handle_presence, handle_archive, handle_notify, Dispatcher, new_dispatcher, notify, archive,
  presence_worker, archive_worker, notify_worker, stop, Step, notified, archived, presence_worked,
  archive_worked, notify_worked, closed, step, run,
}

pub record Inv (d : Dispatcher) : Type 0 where
  pub presence : IsSound handle_presence 1 d.presence_q
  pub archive : IsSound handle_archive 1 d.archive_q
  pub notify : IsSound handle_notify notify_workers d.notify_q
  pub presence_runs : d.stopped ≡ false → working d.presence_q ≡ 1
  pub archive_runs : d.stopped ≡ false → working d.archive_q ≡ 1
  pub notify_run : d.stopped ≡ false → working d.notify_q ≡ notify_workers

pub new_dispatcher-Inv : (notifies : Bool) → Inv (new_dispatcher notifies)
unfolding new_dispatcher new_pool
new_dispatcher-Inv notifies = record {
  presence = new_pool-IsSound handle_presence 1 presence_queue_size;
  archive = new_pool-IsSound handle_archive 1 archive_queue_size;
  notify = new_pool-IsSound handle_notify notify_workers notify_queue_size;
  presence_runs = λ going. refl;
  archive_runs = λ going. refl;
  notify_run = λ going. refl;
}

archive-Inv :
    (d : Dispatcher) (event_id room : String) (user_id : ℤ) (content : String) (created_at : ℕ)
    → Inv d
    → Inv (archive d event_id room user_id content created_at)
unfolding archive offer_to
archive-Inv d event_id room user_id content created_at v =
    let event : ArchiveEvent = record {
      event_id = event_id;
      room = room;
      user_id = user_id;
      content = content;
      created_at = created_at;
    } in
    let archived = record d { archive_q = offer_to d.archive_q event } in
    let both = record archived { notify_q = offer_to d.notify_q event } in
    let archive_v = offer_to-IsSound handle_archive 1 d.archive_q event v.archive in
    elim (Bool-cases d.notifies) [
      | inl on ↦ subst Inv (sym (ap (λ b. if b then both else archived) on)) (record {
        presence = v.presence;
        archive = archive_v;
        notify = offer_to-IsSound handle_notify notify_workers d.notify_q event v.notify;
        presence_runs = v.presence_runs;
        archive_runs = v.archive_runs;
        notify_run = v.notify_run;
      })
      | inr off ↦ subst Inv (sym (ap (λ b. if b then both else archived) off)) (record {
        presence = v.presence;
        archive = archive_v;
        notify = v.notify;
        presence_runs = v.presence_runs;
        archive_runs = v.archive_runs;
        notify_run = v.notify_run;
      })
    ]

pub step-Inv : (d : Dispatcher) (s : Step) → Inv d → Inv (step d s)
unfolding step notify offer_to presence_worker archive_worker notify_worker stop
step-Inv d (notified room user_id status) v = record {
  presence =
      offer_to-IsSound handle_presence 1 d.presence_q
        (record { room = room; user_id = user_id; status = status }) v.presence;
  archive = v.archive;
  notify = v.notify;
  presence_runs = v.presence_runs;
  archive_runs = v.archive_runs;
  notify_run = v.notify_run;
}
step-Inv d (archived event_id room user_id content created_at) v =
    archive-Inv d event_id room user_id content created_at v
step-Inv d (presence_worked s) v = record {
  presence = work_pool-IsSound handle_presence 1 d.stopped d.presence_q s v.presence;
  archive = v.archive;
  notify = v.notify;
  presence_runs = λ going.
      work_pool-working handle_presence 1 d.stopped d.presence_q s going ∙ v.presence_runs going;
  archive_runs = v.archive_runs;
  notify_run = v.notify_run;
}
step-Inv d (archive_worked s) v = record {
  presence = v.presence;
  archive = work_pool-IsSound handle_archive 1 d.stopped d.archive_q s v.archive;
  notify = v.notify;
  presence_runs = v.presence_runs;
  archive_runs = λ going.
      work_pool-working handle_archive 1 d.stopped d.archive_q s going ∙ v.archive_runs going;
  notify_run = v.notify_run;
}
step-Inv d (notify_worked s) v = record {
  presence = v.presence;
  archive = v.archive;
  notify = work_pool-IsSound handle_notify notify_workers d.stopped d.notify_q s v.notify;
  presence_runs = v.presence_runs;
  archive_runs = v.archive_runs;
  notify_run = λ going.
      work_pool-working handle_notify notify_workers d.stopped d.notify_q s going
      ∙ v.notify_run going;
}
step-Inv d closed v = record {
  presence = v.presence;
  archive = v.archive;
  notify = v.notify;
  presence_runs = λ going. absurd cc;
  archive_runs = λ going. absurd cc;
  notify_run = λ going. absurd cc;
}

pub stop-Inv : (d : Dispatcher) → Inv d → Inv (stop d)
unfolding step
stop-Inv d v = step-Inv d closed v

pub run-Inv : (d : Dispatcher) (steps : List Step) → Inv d → Inv (run d steps)
unfolding run
run-Inv d [] v = v
run-Inv d (s ∷ steps) v = run-Inv (step d s) steps (step-Inv d s v)
