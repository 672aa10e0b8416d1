-- ===== src/Notification/Dispatcher/Work.antt =====
-- What becomes of the accepted events and of the jobs they make.
use realtime_chat_platform.Prelude.{
  zero, suc, ◌-◌, ◌≡◌, ◌⊎◌, inl, inr, refl, sym, ap, ◌∙◌, subst, true, false, Bool-cases, Option,
  none, some, List, [], ◌∷◌, if◌then◌else◌, arith,
}
use realtime_chat_platform.Queues.{Channel, offer, take_from, work}
use realtime_chat_platform.Queues.Order.{InOrder, offer-InOrder, work-InOrder}
use realtime_chat_platform.Notification.Domain.{MessageEvent, Recipient}
use realtime_chat_platform.Notification.Dispatcher.{
  event_queue_size, delivery_queue_size, DeliveryJob, Dispatcher, enqueue, offer_all, fanout,
  fanout_round, run_fanout, delivery_round, run_delivery,
}

offer_all-InOrder :
    (ch : Channel DeliveryJob) (event : MessageEvent) (rs : List Recipient)
    → InOrder ch
    → InOrder (offer_all ch event rs)
unfolding offer_all
offer_all-InOrder ch event [] v = v
offer_all-InOrder ch event (r ∷ rs) v =
    offer_all-InOrder (offer ch (record { recipient = r; event = event })) event rs
      (offer-InOrder ch (record { recipient = r; event = event }) v)

-- Both queues keep their bounds and orders; the fan-out worker returns only after a stop.
pub record IsWorking (d : Dispatcher) : Type 0 where
  pub events : InOrder d.event_q
  pub jobs : InOrder d.delivery_q
  pub event_capacity : d.event_q.capacity ≡ event_queue_size
  pub job_capacity : d.delivery_q.capacity ≡ delivery_queue_size
  pub returns : (d.fanout_runs ≡ true) ⊎ ((d.stopped ≡ true) × (d.event_q.queue ≡ []))

enqueue-capacity : {A : Type 0} (ch : Channel A) (a : A) → (offer ch a).capacity ≡ ch.capacity
unfolding offer
enqueue-capacity ch a = ground arith

offer_all-capacity :
    (ch : Channel DeliveryJob) (event : MessageEvent) (rs : List Recipient)
    → (offer_all ch event rs).capacity ≡ ch.capacity
unfolding offer_all
offer_all-capacity ch event [] = refl
offer_all-capacity ch event (r ∷ rs) =
    offer_all-capacity (offer ch (record { recipient = r; event = event })) event rs
    ∙ enqueue-capacity ch (record { recipient = r; event = event })

take_from-capacity :
    {A : Type 0} (ch : Channel A) (queue : List A) → (take_from ch queue).capacity ≡ ch.capacity
take_from-capacity ch [] = refl
take_from-capacity ch (a ∷ rest) = refl

work-capacity : {A : Type 0} (ch : Channel A) → (work ch).capacity ≡ ch.capacity
unfolding work
work-capacity ch = take_from-capacity ch ch.queue

pub enqueue-IsWorking :
    (d : Dispatcher) (event : MessageEvent)
    → d.stopped ≡ false
    → IsWorking d
    → IsWorking (enqueue d event)
unfolding enqueue
enqueue-IsWorking d event open_ v = record {
  events = offer-InOrder d.event_q event v.events;
  jobs = v.jobs;
  event_capacity = enqueue-capacity d.event_q event ∙ v.event_capacity;
  job_capacity = v.job_capacity;
  returns = elim v.returns [ inl runs ↦ inl runs | inr (stopped, empty) ↦ absurd cc ];
}

fanout-IsWorking :
    (d : Dispatcher) (event : MessageEvent) (resolved : Option (List Recipient))
    → IsWorking d
    → IsWorking (fanout d event resolved)
unfolding fanout
fanout-IsWorking d event none v = v
fanout-IsWorking d event (some rs) v = record {
  events = v.events;
  jobs = offer_all-InOrder d.delivery_q event rs v.jobs;
  event_capacity = v.event_capacity;
  job_capacity = offer_all-capacity d.delivery_q event rs ∙ v.job_capacity;
  returns = v.returns;
}

fanout_round-IsWorking :
    (d : Dispatcher) (resolved : Option (List Recipient)) (queue : List MessageEvent)
    → d.event_q.queue ≡ queue
    → d.fanout_runs ≡ true
    → IsWorking d
    → IsWorking (fanout_round d resolved queue)
unfolding fanout_round
fanout_round-IsWorking d resolved [] e runs v = elim (Bool-cases d.stopped) [
  | inl stopped ↦
      subst IsWorking (sym (ap (λ b. if b then record d { fanout_runs = false } else d) stopped))
        (record {
          events = v.events;
          jobs = v.jobs;
          event_capacity = v.event_capacity;
          job_capacity = v.job_capacity;
          returns = inr (stopped, e);
        })
  | inr going ↦
      subst IsWorking (sym (ap (λ b. if b then record d { fanout_runs = false } else d) going)) v
]
fanout_round-IsWorking d resolved (event ∷ rest) e runs v =
    fanout-IsWorking (record d { event_q = work d.event_q }) event resolved
      (record {
        events = work-InOrder d.event_q v.events;
        jobs = v.jobs;
        event_capacity = work-capacity d.event_q ∙ v.event_capacity;
        job_capacity = v.job_capacity;
        returns = inl runs;
      })

pub run_fanout-IsWorking :
    (d : Dispatcher) (resolved : Option (List Recipient))
    → IsWorking d
    → IsWorking (run_fanout d resolved)
unfolding run_fanout
run_fanout-IsWorking d resolved v =
    let round = fanout_round d resolved d.event_q.queue in
    elim (Bool-cases d.fanout_runs) [
      | inl runs ↦
          subst IsWorking (sym (ap (λ b. if b then round else d) runs))
            (fanout_round-IsWorking d resolved d.event_q.queue refl runs v)
      | inr gone ↦ subst IsWorking (sym (ap (λ b. if b then round else d) gone)) v
    ]

delivery_round-IsWorking :
    (d : Dispatcher) (queue : List DeliveryJob) → IsWorking d → IsWorking (delivery_round d queue)
unfolding delivery_round
delivery_round-IsWorking d [] v =
    let fewer = record d { delivery_workers = d.delivery_workers - 1 } in
    let w : IsWorking fewer = record {
      events = v.events;
      jobs = v.jobs;
      event_capacity = v.event_capacity;
      job_capacity = v.job_capacity;
      returns = v.returns;
    } in
    elim (Bool-cases d.stopped) [
      | inl stopped ↦ subst IsWorking (sym (ap (λ b. if b then fewer else d) stopped)) w
      | inr going ↦ subst IsWorking (sym (ap (λ b. if b then fewer else d) going)) v
    ]
delivery_round-IsWorking d (job ∷ rest) v = record {
  events = v.events;
  jobs = work-InOrder d.delivery_q v.jobs;
  event_capacity = v.event_capacity;
  job_capacity = work-capacity d.delivery_q ∙ v.job_capacity;
  returns = v.returns;
}

pub run_delivery-IsWorking : (d : Dispatcher) → IsWorking d → IsWorking (run_delivery d)
unfolding run_delivery
run_delivery-IsWorking d v =
    elim d.delivery_workers
      as (λ w. IsWorking (elim w [ zero ↦ d | suc w ↦ delivery_round d d.delivery_q.queue ])) [
        | zero ↦ v
        | suc w ↦ delivery_round-IsWorking d d.delivery_q.queue v
      ]
