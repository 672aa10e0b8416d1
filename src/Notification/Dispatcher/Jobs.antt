-- ===== src/Notification/Dispatcher/Jobs.antt =====
-- The delivery jobs that the fan-out of notification-service/internal/dispatch/dispatcher.go makes.
use mathlib.Core.List.Perm
use mathlib.Core.List.{append_assoc, append-nil, Perm}
use realtime_chat_platform.Prelude.{
  ℕ, zero, suc, ◌+◌, ◌-◌, false, inl, inr, Bool-cases, if◌then◌else◌, ◌≡◌, refl, sym, ap, ◌∙◌,
  subst, Option, none, some, List, [], ◌∷◌, ◌++◌, map, length, arith,
}
use realtime_chat_platform.Queues.{Channel, offer, work}
use realtime_chat_platform.Queues.Offers.{offered_to, offered_to-offer, offered_to-work}
use realtime_chat_platform.Queues.Order.{taken-offer, taken-work}
use realtime_chat_platform.Notification.Domain.{MessageEvent, Recipient}
use realtime_chat_platform.Notification.Dispatcher.{
  DeliveryJob, Dispatcher, enqueue, offer_all, fanout, fanout_round, run_fanout, delivery_round,
  run_delivery,
}

-- One job per recipient; an event whose resolution failed makes none.
abbrev pub jobs_for : MessageEvent → Option (List Recipient) → List DeliveryJob
jobs_for event none = []
jobs_for event (some recipients) = map (λ r. record { recipient = r; event = event }) recipients

-- The jobs of a list of events, where `resolve n` is the resolver's answer for the `n`th event.
unfoldable pub jobs_of : (ℕ → Option (List Recipient)) → ℕ → List MessageEvent → List DeliveryJob
jobs_of resolve n [] = []
jobs_of resolve n (event ∷ events) = jobs_for event (resolve n) ++ jobs_of resolve (suc n) events

jobs_of-snoc :
    (resolve : ℕ → Option (List Recipient)) (n : ℕ) (events : List MessageEvent)
    (event : MessageEvent)
    → jobs_of resolve n (events ++ (event ∷ []))
      ≡ jobs_of resolve n events ++ jobs_for event (resolve (n + length events))
unfolding jobs_of
jobs_of-snoc resolve n [] event =
    append-nil (jobs_for event (resolve n))
    ∙ ap (λ k. jobs_for event (resolve k)) (let e : n ≡ n + 0 = omega arith in e)
jobs_of-snoc resolve n (e ∷ events) event =
    let later : suc n + length events ≡ n + length (e ∷ events) = omega arith in
    ap (λ l. jobs_for e (resolve n) ++ l) (jobs_of-snoc resolve (suc n) events event)
    ∙ sym (append_assoc (jobs_for e (resolve n)) (jobs_of resolve (suc n) events) _)
    ∙ ap
        (λ k.
          (jobs_for e (resolve n) ++ jobs_of resolve (suc n) events) ++ jobs_for event (resolve k))
        later

offered_to-offer_all :
    (rs : List Recipient) (ch : Channel DeliveryJob) (event : MessageEvent)
    → Perm (offered_to (offer_all ch event rs)) (offered_to ch ++ jobs_for event (some rs))
unfolding offer_all
offered_to-offer_all [] ch event =
    subst (λ l. Perm (offered_to ch) l) (sym (append-nil (offered_to ch)))
      (Perm.refl (offered_to ch))
offered_to-offer_all (r ∷ rs) ch event =
    let job : DeliveryJob = record { recipient = r; event = event } in
    Perm.trans (offered_to-offer_all rs (offer ch job) event) (
      subst (λ l. Perm (offered_to (offer ch job) ++ jobs_for event (some rs)) l)
        (append_assoc (offered_to ch) (job ∷ []) (jobs_for event (some rs)))
        (Perm.append_right (jobs_for event (some rs)) (offered_to-offer ch job)))

-- A fan-out offers the delivery queue exactly the jobs of its event.
pub fanout-jobs :
    (d : Dispatcher) (event : MessageEvent) (resolved : Option (List Recipient))
    → Perm
        (offered_to (fanout d event resolved).delivery_q)
        (offered_to d.delivery_q ++ jobs_for event resolved)
unfolding fanout
fanout-jobs d event none =
    subst (λ l. Perm (offered_to d.delivery_q) l) (sym (append-nil (offered_to d.delivery_q)))
      (Perm.refl (offered_to d.delivery_q))
fanout-jobs d event (some rs) = offered_to-offer_all rs d.delivery_q event

-- Every job of a taken event was offered to the delivery queue, and nothing else was.
abbrev pub IsFannedOut : (ℕ → Option (List Recipient)) → Dispatcher → Type 0
IsFannedOut resolve d = Perm (offered_to d.delivery_q) (jobs_of resolve 0 d.event_q.taken)

fanout_events :
    (d : Dispatcher) (event : MessageEvent) (resolved : Option (List Recipient))
    → (fanout d event resolved).event_q ≡ d.event_q
unfolding fanout
fanout_events d event none = refl
fanout_events d event (some rs) = refl

module _ (resolve : ℕ → Option (List Recipient)) where
  pub enqueue-IsFannedOut :
      (d : Dispatcher) (event : MessageEvent)
      → IsFannedOut resolve d
      → IsFannedOut resolve (enqueue d event)
  unfolding enqueue
  enqueue-IsFannedOut d event v =
      subst (λ h. Perm (offered_to d.delivery_q) (jobs_of resolve 0 h))
        (sym (taken-offer d.event_q event)) v

  fanout_round-IsFannedOut :
      (d : Dispatcher) (queue : List MessageEvent)
      → d.event_q.queue ≡ queue
      → IsFannedOut resolve d
      → IsFannedOut resolve (fanout_round d (resolve (length d.event_q.taken)) queue)
  unfolding fanout_round
  fanout_round-IsFannedOut d [] e v = elim (Bool-cases d.stopped) [
    | inl stopped ↦
        subst (IsFannedOut resolve)
          (sym (ap (λ b. if b then record d { fanout_runs = false } else d) stopped)) v
    | inr going ↦
        subst (IsFannedOut resolve)
          (sym (ap (λ b. if b then record d { fanout_runs = false } else d) going)) v
  ]
  fanout_round-IsFannedOut d (event ∷ rest) e v =
      let resolved = resolve (length d.event_q.taken) in
      let worked = record d { event_q = work d.event_q } in
      let first : 0 + length d.event_q.taken ≡ length d.event_q.taken = omega arith in
      let out =
        ap (λ q. q.taken) (fanout_events worked event resolved)
        ∙ taken-work d.event_q event rest e in
      subst (Perm (offered_to (fanout worked event resolved).delivery_q))
        (sym (
          ap (jobs_of resolve 0) out
          ∙ jobs_of-snoc resolve 0 d.event_q.taken event
          ∙ ap (λ k. jobs_of resolve 0 d.event_q.taken ++ jobs_for event (resolve k)) first))
        (Perm.trans (fanout-jobs worked event resolved)
          (Perm.append_right (jobs_for event resolved) v))

  pub run_fanout-IsFannedOut :
      (d : Dispatcher) (resolved : Option (List Recipient))
      → resolved ≡ resolve (length d.event_q.taken)
      → IsFannedOut resolve d
      → IsFannedOut resolve (run_fanout d resolved)
  unfolding run_fanout
  run_fanout-IsFannedOut d resolved answered v =
      let round = fanout_round d resolved d.event_q.queue in
      elim (Bool-cases d.fanout_runs) [
        | inl runs ↦ subst (IsFannedOut resolve) (sym (ap (λ b. if b then round else d) runs)) (
            subst (λ a. IsFannedOut resolve (fanout_round d a d.event_q.queue)) (sym answered)
              (fanout_round-IsFannedOut d d.event_q.queue refl v))
        | inr gone ↦ subst (IsFannedOut resolve) (sym (ap (λ b. if b then round else d) gone)) v
      ]

  delivery_round-IsFannedOut :
      (d : Dispatcher) (queue : List DeliveryJob)
      → IsFannedOut resolve d
      → IsFannedOut resolve (delivery_round d queue)
  unfolding delivery_round
  delivery_round-IsFannedOut d [] v =
      let fewer = record d { delivery_workers = d.delivery_workers - 1 } in
      elim (Bool-cases d.stopped) [
        | inl stopped ↦
            subst (IsFannedOut resolve) (sym (ap (λ b. if b then fewer else d) stopped)) v
        | inr going ↦ subst (IsFannedOut resolve) (sym (ap (λ b. if b then fewer else d) going)) v
      ]
  delivery_round-IsFannedOut d (job ∷ rest) v =
      subst (λ l. Perm l (jobs_of resolve 0 d.event_q.taken)) (sym (offered_to-work d.delivery_q)) v

  pub run_delivery-IsFannedOut :
      (d : Dispatcher) → IsFannedOut resolve d → IsFannedOut resolve (run_delivery d)
  unfolding run_delivery
  run_delivery-IsFannedOut d v =
      elim d.delivery_workers
        as (λ w.
          IsFannedOut resolve (elim w [ zero ↦ d | suc w ↦ delivery_round d d.delivery_q.queue ])) [
            | zero ↦ v
            | suc w ↦ delivery_round-IsFannedOut d d.delivery_q.queue v
          ]
