-- ===== src/Chat/Dispatcher/Ending.antt =====
-- After the stop, the wait of the dispatcher's `Close` can always still end by the wait group.
use realtime_chat_platform.Prelude.{◌≡◌, refl, ap, ◌∙◌, true, List, [], ◌∷◌, ◌++◌, map, arith}
use realtime_chat_platform.Queues.Pool.{working, WorkerStep, work_pool}
use realtime_chat_platform.Queues.Pool.Ending.{work_all, workers_end}
use realtime_chat_platform.Chat.Dispatcher.{
  handle_presence, handle_archive, handle_notify, Dispatcher, presence_worker, archive_worker,
  notify_worker, drained, close_wait, Step, presence_worked, archive_worked, notify_worked, step,
  run,
}

run-append : (d : Dispatcher) (ss ts : List Step) → run d (ss ++ ts) ≡ run (run d ss) ts
unfolding run
run-append d [] ts = refl
run-append d (s ∷ ss) ts = run-append (step d s) ss ts

presence_steps :
    (ss : List WorkerStep) (d : Dispatcher)
    → d.stopped ≡ true
    → run d (map presence_worked ss)
      ≡ record d { presence_q = work_all handle_presence d.presence_q ss }
unfolding run step presence_worker work_all
presence_steps [] d stopped = refl
presence_steps (s ∷ ss) d stopped =
    presence_steps ss (presence_worker d s) stopped
    ∙ ap
        (λ b. record d {
          presence_q = work_all handle_presence (work_pool handle_presence b d.presence_q s) ss;
        })
        stopped

archive_steps :
    (ss : List WorkerStep) (d : Dispatcher)
    → d.stopped ≡ true
    → run d (map archive_worked ss)
      ≡ record d { archive_q = work_all handle_archive d.archive_q ss }
unfolding run step archive_worker work_all
archive_steps [] d stopped = refl
archive_steps (s ∷ ss) d stopped =
    archive_steps ss (archive_worker d s) stopped
    ∙ ap
        (λ b. record d {
          archive_q = work_all handle_archive (work_pool handle_archive b d.archive_q s) ss;
        })
        stopped

notify_steps :
    (ss : List WorkerStep) (d : Dispatcher)
    → d.stopped ≡ true
    → run d (map notify_worked ss) ≡ record d { notify_q = work_all handle_notify d.notify_q ss }
unfolding run step notify_worker work_all
notify_steps [] d stopped = refl
notify_steps (s ∷ ss) d stopped =
    notify_steps ss (notify_worker d s) stopped
    ∙ ap
        (λ b. record d {
          notify_q = work_all handle_notify (work_pool handle_notify b d.notify_q s) ss;
        })
        stopped

none_left :
    (d : Dispatcher)
    → working d.presence_q ≡ 0
    → working d.archive_q ≡ 0
    → working d.notify_q ≡ 0
    → close_wait d ≡ drained
unfolding close_wait
none_left d p q r = ground arith

-- From every state after the stop some steps of the workers lead to a `Close` that drained.
pub close_can_drain :
    (d : Dispatcher) → d.stopped ≡ true → (steps : List Step) × (close_wait (run d steps) ≡ drained)
close_can_drain d stopped =
    let (ps, no_presence) = workers_end handle_presence d.presence_q in
    let (as_, no_archive) = workers_end handle_archive d.archive_q in
    let (ns, no_notify) = workers_end handle_notify d.notify_q in
    let d₁ = record d { presence_q = work_all handle_presence d.presence_q ps } in
    let d₂ = record d₁ { archive_q = work_all handle_archive d.archive_q as_ } in
    let d₃ = record d₂ { notify_q = work_all handle_notify d.notify_q ns } in
    (
      map presence_worked ps ++ (map archive_worked as_ ++ map notify_worked ns),
      ap close_wait (
            run-append d (map presence_worked ps) (map archive_worked as_ ++ map notify_worked ns)
            ∙ ap (λ e. run e (map archive_worked as_ ++ map notify_worked ns))
                (presence_steps ps d stopped)
            ∙ run-append d₁ (map archive_worked as_) (map notify_worked ns)
            ∙ ap (λ e. run e (map notify_worked ns)) (archive_steps as_ d₁ stopped)
            ∙ notify_steps ns d₂ stopped)
          ∙ none_left d₃ no_presence no_archive no_notify,
    )
