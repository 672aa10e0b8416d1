-- ===== src/Gateway/Tickets/OneShot.antt =====
-- A ticket buys at most one connection, and only within its time.
use realtime_chat_platform.Prelude.Maps
use realtime_chat_platform.Prelude.{
  ℕ, ◌+◌, ◌≤◌, ◌≡◌, refl, ap, String, String_discrete, ℤ, Option, none, some, List, [], ◌∷◌, ite,
  if◌then◌else◌, ltb, leb, arith,
}
use realtime_chat_platform.Gateway.Tickets.Hex.{encode_to_string}
use realtime_chat_platform.Gateway.Tickets.{
  TicketEntry, TicketService, ticket_ttl, new_ticket_service, issue, redeem, reap, reap_once,
}

abbrev pub IsWellFormed : TicketService → Type 0
IsWellFormed s = Maps.Distinct String_discrete s.tickets

-- A ticket redeemed right after its issue gives the identity that it was issued for, up to its
-- expiry and no later; a second redemption gives nothing, at any time.
pub issue-redeem :
    (s s' : TicketService) (b : List ℕ) (issued now later : ℕ) (user_id : ℤ) (role ticket : String)
    → issue s (some b) issued user_id role ≡ some (s', ticket)
    → ((redeem s' ticket now).1
        ≡ (if leb now (issued + ticket_ttl) then some (user_id, role) else none))
      × ((redeem (redeem s' ticket now).0 ticket later).1 ≡ none)
unfolding issue redeem
issue-redeem s s' b issued now later user_id role ticket e = ground (
  arith,
  Maps.get-put_self String_discrete ticket
      (record { user_id = user_id; role = role; expires_at = issued + ticket_ttl }) s.tickets,
  Maps.get-delete_self String_discrete ticket s'.tickets,
)

-- A ticket that was presented is gone.
pub redeem_twice :
    (s : TicketService) (ticket : String) (now later : ℕ)
    → (redeem (redeem s ticket now).0 ticket later).1 ≡ none
unfolding redeem
redeem_twice s ticket now later =
    ground (arith, Maps.get-delete_self String_discrete ticket s.tickets)

pub get-reap :
    (ticket : String) (now : ℕ) (m : List (String × TicketEntry))
    → Maps.Distinct String_discrete m
    → Maps.get String_discrete ticket (reap now m) ≡ elim (Maps.get String_discrete ticket m) [
      | none ↦ none
      | some entry ↦ if ltb entry.expires_at now then none else some entry
    ]
unfolding Maps.get reap
get-reap ticket now [] d = refl
get-reap ticket now ((t, entry) ∷ m) d = ground (arith, get-reap ticket now m d.1)

-- The sweep is invisible: in a store without repeated tickets, what a redemption that is not
-- earlier than the sweep gives does not depend on it.
pub reap_invisible :
    (s : TicketService) (ticket : String) (now later : ℕ)
    → IsWellFormed s
    → now ≤ later
    → (redeem (reap_once s now) ticket later).1 ≡ (redeem s ticket later).1
unfolding redeem reap_once
reap_invisible s ticket now later d le = ground (arith, get-reap ticket now s.tickets d)

-- Histories of the service.
pub data Event : Type 0 where
  issued : Option (List ℕ) → ℕ → ℤ → String → Event
  redeemed : String → ℕ → Event
  reaped : ℕ → Event

abbrev pub after_issue : TicketService → Option (TicketService × String) → TicketService
after_issue s none = s
after_issue s (some (s', ticket)) = s'

unfoldable pub step : TicketService → Event → TicketService
step s (issued random now user_id role) = after_issue s (issue s random now user_id role)
step s (redeemed ticket now) = (redeem s ticket now).0
step s (reaped now) = reap_once s now

abbrev pub count_some {ℓ} : {A : Type ℓ} → Option A → ℕ
count_some none = 0
count_some (some a) = 1

-- How often a history issues a ticket, and how often it redeems it with success.
abbrev pub issues : String → List Event → ℕ
issues ticket [] = 0
issues ticket (issued (some b) now user_id role ∷ es) =
    ite (String_discrete ticket (encode_to_string b)) 1 0 + issues ticket es
issues ticket (issued none now user_id role ∷ es) = issues ticket es
issues ticket (redeemed t now ∷ es) = issues ticket es
issues ticket (reaped now ∷ es) = issues ticket es

abbrev pub successes : String → TicketService → List Event → ℕ
successes ticket s [] = 0
successes ticket s (redeemed t now ∷ es) =
    ite (String_discrete ticket t) (count_some (redeem s t now).1) 0
    + successes ticket (step s (redeemed t now)) es
successes ticket s (issued random now user_id role ∷ es) =
    successes ticket (step s (issued random now user_id role)) es
successes ticket s (reaped now ∷ es) = successes ticket (step s (reaped now)) es

abbrev stored : String → TicketService → ℕ
stored ticket s = count_some (Maps.get String_discrete ticket s.tickets)

reap-Distinct :
    (now : ℕ) (m : List (String × TicketEntry))
    → Maps.Distinct String_discrete m
    → Maps.Distinct String_discrete (reap now m)
unfolding reap
reap-Distinct now [] d = tt
reap-Distinct now ((t, entry) ∷ m) d = ground (arith, reap-Distinct now m d.1, get-reap t now m d.1)

pub step-IsWellFormed : (s : TicketService) (e : Event) → IsWellFormed s → IsWellFormed (step s e)
unfolding step issue redeem reap_once
step-IsWellFormed s (issued none now user_id role) d = d
step-IsWellFormed s (issued (some b) now user_id role) d =
    Maps.put-Distinct String_discrete (encode_to_string b)
      (record { user_id = user_id; role = role; expires_at = now + ticket_ttl }) s.tickets d
step-IsWellFormed s (redeemed ticket now) d =
    ground (arith, Maps.delete-Distinct String_discrete ticket s.tickets d)
step-IsWellFormed s (reaped now) d = reap-Distinct now s.tickets d

-- What a step adds to the store, or spends of it.
stored-issue :
    (ticket : String) (s : TicketService) (b : List ℕ) (now : ℕ) (user_id : ℤ) (role : String)
    → stored ticket (step s (issued (some b) now user_id role))
      ≤ stored ticket s + ite (String_discrete ticket (encode_to_string b)) 1 0
unfolding step issue
stored-issue ticket s b now user_id role = ground (
  arith,
  Maps.get-put String_discrete ticket (encode_to_string b)
      (record { user_id = user_id; role = role; expires_at = now + ticket_ttl }) s.tickets,
)

stored-redeem :
    (ticket : String) (s : TicketService) (t : String) (now : ℕ)
    → ite (String_discrete ticket t) (count_some (redeem s t now).1) 0
        + stored ticket (step s (redeemed t now))
      ≤ stored ticket s
unfolding step redeem
stored-redeem ticket s t now = ground (arith, Maps.get-delete String_discrete ticket t s.tickets)

stored-reap :
    (ticket : String) (s : TicketService) (now : ℕ)
    → IsWellFormed s
    → stored ticket (step s (reaped now)) ≤ stored ticket s
unfolding step reap_once
stored-reap ticket s now d = ground (arith, get-reap ticket now s.tickets d)

pub step_failed :
    (s : TicketService) (now : ℕ) (user_id : ℤ) (role : String)
    → step s (issued none now user_id role) ≡ s
unfolding step issue
step_failed s now user_id role = refl

successes-le :
    (ticket : String) (s : TicketService) (es : List Event)
    → IsWellFormed s
    → successes ticket s es ≤ stored ticket s + issues ticket es
successes-le ticket s [] d = omega arith
successes-le ticket s (issued none now user_id role ∷ es) d = omega (
  arith,
  ap (λ q. successes ticket q es) (step_failed s now user_id role),
  successes-le ticket s es d,
)
successes-le ticket s (issued (some b) now user_id role ∷ es) d =
    let e = issued (some b) now user_id role in
    omega (
      arith,
      stored-issue ticket s b now user_id role,
      successes-le ticket (step s e) es (step-IsWellFormed s e d),
    )
successes-le ticket s (redeemed t now ∷ es) d =
    let e = redeemed t now in
    omega (
      arith,
      stored-redeem ticket s t now,
      successes-le ticket (step s e) es (step-IsWellFormed s e d),
    )
successes-le ticket s (reaped now ∷ es) d = omega (
  arith,
  stored-reap ticket s now d,
  successes-le ticket (step s (reaped now)) es (step-IsWellFormed s (reaped now) d),
)

-- In every history of the service a ticket is redeemed with success at most as often as it was
-- issued, whatever the times, the sweeps and the other tickets.
pub successes-le-issues :
    (ticket : String) (es : List Event) → successes ticket new_ticket_service es ≤ issues ticket es
unfolding new_ticket_service Maps.get
successes-le-issues ticket es = omega (arith, successes-le ticket new_ticket_service es tt)
