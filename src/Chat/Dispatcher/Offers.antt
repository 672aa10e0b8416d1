-- ===== src/Chat/Dispatcher/Offers.antt =====
-- Which events the rooms' calls have offered to the queues.
use mathlib.Core.List.{Perm}
use realtime_chat_platform.Prelude.{
  ◌≡◌, refl, sym, ap, ◌∙◌, subst, String, ℤ, ℕ, Bool, List, [], ◌∷◌, ◌++◌, if◌then◌else◌, arith,
  true, false,
}
use realtime_chat_platform.Queues.{new_channel}
use realtime_chat_platform.Queues.Offers.{offered_to, offered_to-offer, and_then, no_more}
use realtime_chat_platform.Queues.Pool.{new_pool, offer_to}
use realtime_chat_platform.Queues.Pool.Calls.{work_pool-offered_to}
use realtime_chat_platform.Chat.Dispatcher.{
  PresenceEvent, ArchiveEvent, handle_presence, handle_archive, handle_notify, notify_workers,
  Dispatcher, new_dispatcher, notify, archive, presence_worker, archive_worker, notify_worker, stop,
  Step, notified, archived, presence_worked, archive_worked, notify_worked, closed, step, run,
}

-- The reports and the messages of a run.
abbrev pub reports_of : Step → List PresenceEvent
reports_of (notified room user_id status) =
    record { room = room; user_id = user_id; status = status } ∷ []
reports_of (archived event_id room user_id content created_at) = []
reports_of (presence_worked s) = []
reports_of (archive_worked s) = []
reports_of (notify_worked s) = []
reports_of closed = []

abbrev pub messages_of : Step → List ArchiveEvent
messages_of (archived event_id room user_id content created_at) =
    record {
      event_id = event_id;
      room = room;
      user_id = user_id;
      content = content;
      created_at = created_at;
    }
    ∷ []
messages_of (notified room user_id status) = []
messages_of (presence_worked s) = []
messages_of (archive_worked s) = []
messages_of (notify_worked s) = []
messages_of closed = []

unfoldable pub reports : List Step → List PresenceEvent
reports [] = []
reports (s ∷ steps) = reports_of s ++ reports steps

unfoldable pub messages : List Step → List ArchiveEvent
messages [] = []
messages (s ∷ steps) = messages_of s ++ messages steps

abbrev presence_offers : Dispatcher → List PresenceEvent
presence_offers d = offered_to d.presence_q.channel

abbrev archive_offers : Dispatcher → List ArchiveEvent
archive_offers d = offered_to d.archive_q.channel

archive-presence :
    (d : Dispatcher) (event_id room : String) (user_id : ℤ) (content : String) (created_at : ℕ)
    → (archive d event_id room user_id content created_at).presence_q ≡ d.presence_q
unfolding archive
archive-presence d event_id room user_id content created_at = ground arith

archive-archive :
    (d : Dispatcher) (event_id room : String) (user_id : ℤ) (content : String) (created_at : ℕ)
    → (archive d event_id room user_id content created_at).archive_q
      ≡ offer_to d.archive_q (record {
        event_id = event_id;
        room = room;
        user_id = user_id;
        content = content;
        created_at = created_at;
      })
unfolding archive
archive-archive d event_id room user_id content created_at = ground arith

same_offers : {A : Type 0} (l m : List A) → l ≡ m → Perm l (m ++ [])
same_offers l m e = subst (λ k. Perm k (m ++ [])) (sym e) (no_more m)

step-presence :
    (d : Dispatcher) (s : Step)
    → Perm (presence_offers (step d s)) (presence_offers d ++ reports_of s)
unfolding step notify presence_worker archive_worker notify_worker stop offer_to
step-presence d (notified room user_id status) =
    offered_to-offer d.presence_q.channel
      (record { room = room; user_id = user_id; status = status })
step-presence d (archived event_id room user_id content created_at) =
    same_offers _ (presence_offers d)
      (ap (λ p. offered_to p.channel) (archive-presence d event_id room user_id content created_at))
step-presence d (presence_worked s) =
    same_offers _ (presence_offers d)
      (work_pool-offered_to handle_presence 1 d.stopped d.presence_q s)
step-presence d (archive_worked s) = no_more (presence_offers d)
step-presence d (notify_worked s) = no_more (presence_offers d)
step-presence d closed = no_more (presence_offers d)

step-archive :
    (d : Dispatcher) (s : Step)
    → Perm (archive_offers (step d s)) (archive_offers d ++ messages_of s)
unfolding step notify presence_worker archive_worker notify_worker stop offer_to
step-archive d (archived event_id room user_id content created_at) =
    subst
      (λ p.
        Perm (offered_to p.channel)
          (archive_offers d ++ messages_of (archived event_id room user_id content created_at)))
      (sym (archive-archive d event_id room user_id content created_at))
      (offered_to-offer d.archive_q.channel _)
step-archive d (notified room user_id status) = no_more (archive_offers d)
step-archive d (presence_worked s) = no_more (archive_offers d)
step-archive d (archive_worked s) =
    same_offers _ (archive_offers d) (work_pool-offered_to handle_archive 1 d.stopped d.archive_q s)
step-archive d (notify_worked s) = no_more (archive_offers d)
step-archive d closed = no_more (archive_offers d)

pub run-presence :
    (d : Dispatcher) (steps : List Step)
    → Perm (presence_offers (run d steps)) (presence_offers d ++ reports steps)
unfolding run reports
run-presence d [] = no_more (presence_offers d)
run-presence d (s ∷ steps) =
    and_then (presence_offers d) (presence_offers (step d s))
      (presence_offers (run (step d s) steps)) (reports_of s) (reports steps) (step-presence d s)
      (run-presence (step d s) steps)

pub run-archive :
    (d : Dispatcher) (steps : List Step)
    → Perm (archive_offers (run d steps)) (archive_offers d ++ messages steps)
unfolding run messages
run-archive d [] = no_more (archive_offers d)
run-archive d (s ∷ steps) =
    and_then (archive_offers d) (archive_offers (step d s)) (archive_offers (run (step d s) steps))
      (messages_of s) (messages steps) (step-archive d s) (run-archive (step d s) steps)

abbrev pub only_if : {A : Type 0} → Bool → List A → List A
only_if true l = l
only_if false l = []

only_if-append :
    {A : Type 0} (b : Bool) (l m : List A) → only_if b (l ++ m) ≡ only_if b l ++ only_if b m
only_if-append true l m = refl
only_if-append false l m = refl

abbrev notify_offers : Dispatcher → List ArchiveEvent
notify_offers d = offered_to d.notify_q.channel

offered_when :
    (b : Bool) (d : Dispatcher) (event : ArchiveEvent)
    → let archived = record d { archive_q = offer_to d.archive_q event } in
      Perm
        (notify_offers
          (if b then record archived { notify_q = offer_to d.notify_q event } else archived))
        (notify_offers d ++ only_if b (event ∷ []))
unfolding offer_to
offered_when true d event = offered_to-offer d.notify_q.channel event
offered_when false d event = no_more (notify_offers d)

nothing_said :
    (b : Bool) (d : Dispatcher) → Perm (notify_offers d) (notify_offers d ++ only_if b [])
nothing_said true d = no_more (notify_offers d)
nothing_said false d = no_more (notify_offers d)

step-notify :
    (d : Dispatcher) (s : Step)
    → Perm (notify_offers (step d s)) (notify_offers d ++ only_if d.notifies (messages_of s))
unfolding step notify archive presence_worker archive_worker notify_worker stop
step-notify d (archived event_id room user_id content created_at) = offered_when d.notifies d _
step-notify d (notified room user_id status) = nothing_said d.notifies d
step-notify d (presence_worked s) = nothing_said d.notifies d
step-notify d (archive_worked s) = nothing_said d.notifies d
step-notify d (notify_worked s) =
    subst (λ l. Perm l (notify_offers d ++ only_if d.notifies []))
      (sym (work_pool-offered_to handle_notify notify_workers d.stopped d.notify_q s))
      (nothing_said d.notifies d)
step-notify d closed = nothing_said d.notifies d

step-notifies : (d : Dispatcher) (s : Step) → (step d s).notifies ≡ d.notifies
unfolding step notify archive presence_worker archive_worker notify_worker stop
step-notifies d (archived event_id room user_id content created_at) = ground arith
step-notifies d (notified room user_id status) = refl
step-notifies d (presence_worked s) = refl
step-notifies d (archive_worked s) = refl
step-notifies d (notify_worked s) = refl
step-notifies d closed = refl

pub run-notifies : (d : Dispatcher) (steps : List Step) → (run d steps).notifies ≡ d.notifies
unfolding run
run-notifies d [] = refl
run-notifies d (s ∷ steps) = run-notifies (step d s) steps ∙ step-notifies d s

pub run-notify :
    (d : Dispatcher) (steps : List Step)
    → Perm (notify_offers (run d steps)) (notify_offers d ++ only_if d.notifies (messages steps))
unfolding run messages
run-notify d [] = nothing_said d.notifies d
run-notify d (s ∷ steps) =
    subst (λ l. Perm (notify_offers (run (step d s) steps)) (notify_offers d ++ l))
      (sym (only_if-append d.notifies (messages_of s) (messages steps)))
      (and_then (notify_offers d) (notify_offers (step d s)) (notify_offers (run (step d s) steps))
        (only_if d.notifies (messages_of s)) (only_if d.notifies (messages steps)) (step-notify d s)
        (subst
          (λ b.
            Perm (notify_offers (run (step d s) steps))
              (notify_offers (step d s) ++ only_if b (messages steps)))
          (step-notifies d s) (run-notify (step d s) steps)))

-- What a new dispatcher's queues are offered until the stop and after it.
pub offers_around_stop :
    (notifies : Bool) (steps afterwards : List Step)
    → let d = run (stop (run (new_dispatcher notifies) steps)) afterwards in
      Perm (offered_to d.presence_q.channel) (reports steps ++ reports afterwards)
      × Perm (offered_to d.archive_q.channel) (messages steps ++ messages afterwards)
      × Perm
          (offered_to d.notify_q.channel)
          (only_if notifies (messages steps ++ messages afterwards))
unfolding new_dispatcher new_pool new_channel stop
offers_around_stop notifies steps afterwards =
    let new = new_dispatcher notifies in
    let d₀ = run new steps in
    let d₁ = stop d₀ in
    let d = run d₁ afterwards in
    (
      and_then [] (presence_offers d₀) (presence_offers d) (reports steps) (reports afterwards)
          (run-presence new steps) (run-presence d₁ afterwards),
      and_then [] (archive_offers d₀) (archive_offers d) (messages steps) (messages afterwards)
          (run-archive new steps) (run-archive d₁ afterwards),
      subst (Perm (notify_offers d))
          (sym (only_if-append notifies (messages steps) (messages afterwards)))
          (and_then [] (notify_offers d₀) (notify_offers d) (only_if notifies (messages steps))
            (only_if notifies (messages afterwards)) (run-notify new steps)
            (subst
              (λ b. Perm (notify_offers d) (notify_offers d₀ ++ only_if b (messages afterwards)))
              (run-notifies new steps) (run-notify d₁ afterwards))),
    )
