-- ===== src/Notification/Dispatcher/Shutdown.antt =====
-- The dispatcher's runs, to the end of the fan-out worker.
use realtime_chat_platform.Prelude.{
  ℕ, ◌<◌, ◌≡◌, inl, inr, refl, sym, ap, ◌∙◌, subst, true, false, Bool-cases, Option, none, some,
  List, [], ◌∷◌, ◌++◌, map, if◌then◌else◌, length, arith,
}
use mathlib.Core.List.Perm
use mathlib.Core.List.{append-nil, Perm}
use realtime_chat_platform.Queues.{Channel, new_channel, take_from, work}
use realtime_chat_platform.Queues.Offers.{offered_to}
use realtime_chat_platform.Notification.Domain.{MessageEvent, Recipient}
use realtime_chat_platform.Notification.Dispatcher.{
  Dispatcher, new_dispatcher, fanout, fanout_round, run_fanout, stop, Step, enqueued, fanned,
  delivered, closed, step, run,
}
use realtime_chat_platform.Notification.Dispatcher.Jobs.{
  jobs_of, IsFannedOut, enqueue-IsFannedOut, run_fanout-IsFannedOut, run_delivery-IsFannedOut,
}
use realtime_chat_platform.Notification.Dispatcher.Work.{
  IsWorking, enqueue-IsWorking, run_fanout-IsWorking, run_delivery-IsWorking,
}

-- The server is shut down before the dispatcher is closed, so no event comes after the stop; and
-- `resolve n` is what the resolver answers for the `n`th event that the worker takes.
abbrev pub Allowed : (ℕ → Option (List Recipient)) → Dispatcher → Step → Type 0
Allowed resolve d (enqueued event) = d.stopped ≡ false
Allowed resolve d (fanned resolved) = resolved ≡ resolve (length d.event_q.taken)
Allowed resolve d delivered = Unit
Allowed resolve d closed = Unit

-- The states of a dispatcher with that many delivery workers, under any interleaving.
pub data Reachable (workers : ℕ) (resolve : ℕ → Option (List Recipient)) : Dispatcher → Type 0 where
  started : Reachable workers resolve (new_dispatcher workers)
  stepped :
      {d : Dispatcher} (s : Step)
      → Reachable workers resolve d
      → Allowed resolve d s
      → Reachable workers resolve (step d s)

new_dispatcher-IsWorking : (workers : ℕ) → IsWorking (new_dispatcher workers)
unfolding new_dispatcher new_channel
new_dispatcher-IsWorking workers = record {
  events = record { order = refl; bounded = omega arith };
  jobs = record { order = refl; bounded = omega arith };
  event_capacity = refl;
  job_capacity = refl;
  returns = inl refl;
}

new_dispatcher-IsFannedOut :
    (workers : ℕ) (resolve : ℕ → Option (List Recipient))
    → IsFannedOut resolve (new_dispatcher workers)
unfolding new_dispatcher new_channel jobs_of
new_dispatcher-IsFannedOut workers resolve = Perm.refl []

module _ (workers : ℕ) (resolve : ℕ → Option (List Recipient)) where
  IsWorking-step :
      (d : Dispatcher) (s : Step) → Allowed resolve d s → IsWorking d → IsWorking (step d s)
  unfolding step stop
  IsWorking-step d (enqueued event) allowed v = enqueue-IsWorking d event allowed v
  IsWorking-step d (fanned resolved) allowed v = run_fanout-IsWorking d resolved v
  IsWorking-step d delivered allowed v = run_delivery-IsWorking d v
  IsWorking-step d closed allowed v = record {
    events = v.events;
    jobs = v.jobs;
    event_capacity = v.event_capacity;
    job_capacity = v.job_capacity;
    returns = elim v.returns [ inl runs ↦ inl runs | inr (stopped, empty) ↦ inr (refl, empty) ];
  }

  IsFannedOut-step :
      (d : Dispatcher) (s : Step)
      → Allowed resolve d s
      → IsFannedOut resolve d
      → IsFannedOut resolve (step d s)
  unfolding step stop
  IsFannedOut-step d (enqueued event) allowed v = enqueue-IsFannedOut resolve d event v
  IsFannedOut-step d (fanned resolved) allowed v =
      run_fanout-IsFannedOut resolve d resolved allowed v
  IsFannedOut-step d delivered allowed v = run_delivery-IsFannedOut resolve d v
  IsFannedOut-step d closed allowed v = v

  -- In every reachable state the event queue holds at most 256 events and the delivery queue at
  -- most 1024 jobs, what was accepted was taken by a worker or waits, in the order of its arrival,
  -- and the fan-out worker runs unless the dispatcher is stopped and no event waits.
  Reachable-IsWorking : (d : Dispatcher) → Reachable workers resolve d → IsWorking d
  Reachable-IsWorking _ started = new_dispatcher-IsWorking workers
  Reachable-IsWorking _ (stepped {d = d} s r allowed) =
      IsWorking-step d s allowed (Reachable-IsWorking d r)

  -- In every reachable state the jobs offered to the delivery queue are those of the events that
  -- the fan-out worker has taken.
  Reachable-IsFannedOut : (d : Dispatcher) → Reachable workers resolve d → IsFannedOut resolve d
  Reachable-IsFannedOut _ started = new_dispatcher-IsFannedOut workers resolve
  Reachable-IsFannedOut _ (stepped {d = d} s r allowed) =
      IsFannedOut-step d s allowed (Reachable-IsFannedOut d r)

  -- Whatever the resolver answers, `resolve n` being its answer for the `n`th accepted event: once
  -- the fan-out worker has returned, in a run without events after the stop, the jobs that were
  -- offered to the delivery queue, which took or dropped them, are one for each recipient that was
  -- resolved for each event that the event queue ever accepted, and no others; an event whose
  -- resolution failed makes none.
  pub returned_fanned_out :
      (d : Dispatcher)
      → Reachable workers resolve d
      → d.fanout_runs ≡ false
      → Perm (d.delivery_q.accepted ++ d.delivery_q.dropped) (jobs_of resolve 0 d.event_q.accepted)
  returned_fanned_out d r gone =
      let v = Reachable-IsWorking d r in
      elim v.returns [
        | inl runs ↦ absurd cc
        | inr (stopped, empty) ↦
            let all : d.event_q.accepted ≡ d.event_q.taken =
              v.events.order ∙ ap (λ q. d.event_q.taken ++ q) empty ∙ append-nil d.event_q.taken in
            subst (λ events. Perm (offered_to d.delivery_q) (jobs_of resolve 0 events)) (sym all)
              (Reachable-IsFannedOut d r)
      ]

-- The rounds of the fan-out worker, with what the resolver answers in each.
abbrev fan_outs : Dispatcher → List (Option (List Recipient)) → Dispatcher
fan_outs d answers = run d (map fanned answers)

gone_stays :
    (d : Dispatcher) (answers : List (Option (List Recipient)))
    → d.fanout_runs ≡ false
    → (fan_outs d answers).fanout_runs ≡ false
unfolding run step run_fanout
gone_stays d [] gone = gone
gone_stays d (a ∷ answers) gone =
    subst (λ e. (fan_outs e answers).fanout_runs ≡ false)
      (sym (ap (λ b. if b then fanout_round d a d.event_q.queue else d) gone))
      (gone_stays d answers gone)

last_round :
    (d : Dispatcher) (a : Option (List Recipient))
    → d.fanout_runs ≡ true
    → d.event_q.queue ≡ []
    → d.stopped ≡ true
    → step d (fanned a) ≡ record d { fanout_runs = false }
unfolding step run_fanout fanout_round
last_round d a runs e stopped =
    ap (λ b. if b then fanout_round d a d.event_q.queue else d) runs
    ∙ ap (fanout_round d a) e
    ∙ ap (λ b. if b then record d { fanout_runs = false } else d) stopped

one_round :
    (d : Dispatcher) (a : Option (List Recipient)) (event : MessageEvent) (rest : List MessageEvent)
    → d.fanout_runs ≡ true
    → d.event_q.queue ≡ event ∷ rest
    → step d (fanned a) ≡ fanout (record d { event_q = work d.event_q }) event a
unfolding step run_fanout fanout_round
one_round d a event rest runs e =
    ap (λ b. if b then fanout_round d a d.event_q.queue else d) runs ∙ ap (fanout_round d a) e

fanout-event_q :
    (d : Dispatcher) (event : MessageEvent) (a : Option (List Recipient))
    → (fanout d event a).event_q ≡ d.event_q
unfolding fanout
fanout-event_q d event none = refl
fanout-event_q d event (some rs) = refl

fanout-stopped :
    (d : Dispatcher) (event : MessageEvent) (a : Option (List Recipient))
    → (fanout d event a).stopped ≡ d.stopped
unfolding fanout
fanout-stopped d event none = refl
fanout-stopped d event (some rs) = refl

work-queue :
    {A : Type 0} (ch : Channel A) (x : A) (rest : List A)
    → ch.queue ≡ x ∷ rest
    → (work ch).queue ≡ rest
unfolding work
work-queue ch x rest e = ap (λ q. (take_from ch q).queue) e

rounds_end :
    (answers : List (Option (List Recipient))) (d : Dispatcher) (queue : List MessageEvent)
    → d.event_q.queue ≡ queue
    → d.stopped ≡ true
    → length queue < length answers
    → (fan_outs d answers).fanout_runs ≡ false
unfolding run
rounds_end [] d queue e stopped enough = absurd (omega arith)
rounds_end (a ∷ answers) d [] e stopped enough = elim (Bool-cases d.fanout_runs) [
  | inr gone ↦ gone_stays d (a ∷ answers) gone
  | inl runs ↦
      subst (λ e. (fan_outs e answers).fanout_runs ≡ false) (sym (last_round d a runs e stopped))
        (gone_stays (record d { fanout_runs = false }) answers refl)
]
rounds_end (a ∷ answers) d (event ∷ rest) e stopped enough = elim (Bool-cases d.fanout_runs) [
  | inr gone ↦ gone_stays d (a ∷ answers) gone
  | inl runs ↦
      let worked = record d { event_q = work d.event_q } in
      subst (λ e. (fan_outs e answers).fanout_runs ≡ false) (sym (one_round d a event rest runs e))
        (rounds_end answers (fanout worked event a) rest
          (ap (λ q. q.queue) (fanout-event_q worked event a) ∙ work-queue d.event_q event rest e)
          (fanout-stopped worked event a ∙ stopped) (omega arith))
]

-- After the stop the fan-out worker returns within one round more than there are waiting events,
-- whatever the resolver answers.
pub fanout_returns :
    (d : Dispatcher) (answers : List (Option (List Recipient)))
    → d.stopped ≡ true
    → length d.event_q.queue < length answers
    → (run d (map fanned answers)).fanout_runs ≡ false
fanout_returns d answers stopped enough = rounds_end answers d d.event_q.queue refl stopped enough
