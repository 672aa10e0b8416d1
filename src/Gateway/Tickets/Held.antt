-- ===== src/Gateway/Tickets/Held.antt =====
-- What the store of gateway/internal/service/ticket_service.go holds of one ticket while other
-- requests and sweeps come in.
use realtime_chat_platform.Prelude.Maps
use realtime_chat_platform.Prelude.{
  ℕ, ◌+◌, ◌≡◌, ◌⊎◌, ◌≢◌, ◌∙◌, sym, subst, inl, inr, ap, Bool-cases, ltb, String, String_discrete, ℤ,
  Option, none, some, List, [], ◌∷◌, ite, if_pos, if_neg, arith,
}
use realtime_chat_platform.Gateway.Tickets.Hex.{encode_to_string}
use realtime_chat_platform.Gateway.Tickets.{
  TicketEntry, TicketService, ticket_ttl, new_ticket_service, issue, redeem, reap_once,
}
use realtime_chat_platform.Gateway.Tickets.OneShot.{
  IsWellFormed, get-reap, Event, issued, redeemed, reaped, after_issue, step, step_failed,
  step-IsWellFormed, issues,
}

-- The service after a history.
unfoldable pub after_events : TicketService → List Event → TicketService
after_events s [] = s
after_events s (e ∷ es) = after_events (step s e) es

pub after_events-IsWellFormed :
    (s : TicketService) (es : List Event) → IsWellFormed s → IsWellFormed (after_events s es)
unfolding after_events
after_events-IsWellFormed s [] w = w
after_events-IsWellFormed s (e ∷ es) w =
    after_events-IsWellFormed (step s e) es (step-IsWellFormed s e w)

-- What the store has under the ticket is this entry, or nothing any more.
abbrev pub HoldsOnly : String → TicketEntry → TicketService → Type 0
HoldsOnly ticket entry s =
    (Maps.get String_discrete ticket s.tickets ≡ none)
    ⊎ (Maps.get String_discrete ticket s.tickets ≡ some entry)

module _ (ticket : String) (entry : TicketEntry) where
  other_issue-HoldsOnly :
      (s : TicketService) (b : List ℕ) (now : ℕ) (user_id : ℤ) (role : String)
      → ticket ≢ encode_to_string b
      → HoldsOnly ticket entry s
      → HoldsOnly ticket entry (step s (issued (some b) now user_id role))
  unfolding step issue
  other_issue-HoldsOnly s b now user_id role other held =
      let put =
        Maps.get-put String_discrete ticket (encode_to_string b)
          (record { user_id = user_id; role = role; expires_at = now + ticket_ttl }) s.tickets in
      let same = if_neg (String_discrete ticket (encode_to_string b)) other _ _ in
      elim held [ inl gone ↦ inl (put ∙ same ∙ gone) | inr there ↦ inr (put ∙ same ∙ there) ]

  get-redeem :
      (s : TicketService) (t : String) (now : ℕ)
      → Maps.get String_discrete ticket (step s (redeemed t now)).tickets
        ≡ ite (String_discrete ticket t) none (Maps.get String_discrete ticket s.tickets)
  unfolding step redeem
  get-redeem s t now = ground (arith, Maps.get-delete String_discrete ticket t s.tickets)

  redeem-HoldsOnly :
      (s : TicketService) (t : String) (now : ℕ)
      → HoldsOnly ticket entry s
      → HoldsOnly ticket entry (step s (redeemed t now))
  redeem-HoldsOnly s t now held =
      let after = get-redeem s t now in
      elim (String_discrete ticket t) [
        | yes same ↦ inl (after ∙ if_pos (String_discrete ticket t) same _ _)
        | no other ↦
            let kept = after ∙ if_neg (String_discrete ticket t) other _ _ in
            elim held [ inl gone ↦ inl (kept ∙ gone) | inr there ↦ inr (kept ∙ there) ]
      ]

  reap-HoldsOnly :
      (s : TicketService) (now : ℕ)
      → IsWellFormed s
      → HoldsOnly ticket entry s
      → HoldsOnly ticket entry (step s (reaped now))
  unfolding step reap_once
  reap-HoldsOnly s now w held =
      let swept = get-reap ticket now s.tickets w in
      elim held [
        | inl gone ↦ inl (ground arith)
        | inr there ↦ elim (Bool-cases (ltb entry.expires_at now)) [
          | inl expired ↦ inl (ground arith)
          | inr fresh ↦ inr (ground arith)
        ]
      ]

  not_issued :
      (b : List ℕ) (n : ℕ)
      → ite (String_discrete ticket (encode_to_string b)) 1 0 + n ≡ 0
      → (ticket ≢ encode_to_string b) × (n ≡ 0)
  not_issued b n none_ = elim (String_discrete ticket (encode_to_string b)) [
    | yes same ↦
        absurd
          (omega (arith, if_pos {C = ℕ} (String_discrete ticket (encode_to_string b)) same 1 0))
    | no other ↦ (other, omega arith)
  ]

  -- Through any history without an issue of the ticket the store holds nothing else under it.
  pub after_events-HoldsOnly :
      (s : TicketService) (es : List Event)
      → IsWellFormed s
      → issues ticket es ≡ 0
      → HoldsOnly ticket entry s
      → HoldsOnly ticket entry (after_events s es)
  unfolding after_events
  after_events-HoldsOnly s [] w never held = held
  after_events-HoldsOnly s (issued none now user_id role ∷ es) w never held =
      after_events-HoldsOnly (step s (issued none now user_id role)) es
        (step-IsWellFormed s (issued none now user_id role) w) never
        (subst (HoldsOnly ticket entry) (sym (step_failed s now user_id role)) held)
  after_events-HoldsOnly s (issued (some b) now user_id role ∷ es) w never held =
      let e = issued (some b) now user_id role in
      let (other, rest) = not_issued b (issues ticket es) never in
      after_events-HoldsOnly (step s e) es (step-IsWellFormed s e w) rest
        (other_issue-HoldsOnly s b now user_id role other held)
  after_events-HoldsOnly s (redeemed t now ∷ es) w never held =
      after_events-HoldsOnly (step s (redeemed t now)) es (step-IsWellFormed s (redeemed t now) w)
        never (redeem-HoldsOnly s t now held)
  after_events-HoldsOnly s (reaped now ∷ es) w never held =
      after_events-HoldsOnly (step s (reaped now)) es (step-IsWellFormed s (reaped now) w) never
        (reap-HoldsOnly s now w held)

  -- A redemption then gives what the entry says, or nothing.
  pub redeem_held :
      (s : TicketService) (now : ℕ) (user_id : ℤ) (role : String)
      → HoldsOnly ticket entry s
      → (redeem s ticket now).1 ≡ some (user_id, role)
      → (entry.user_id ≡ user_id) × (entry.role ≡ role)
  unfolding redeem
  redeem_held s now user_id role held given = elim held [
    | inl gone ↦ absurd (ground arith)
    | inr there ↦ ground arith
  ]

-- The entry of an issue is stored.
pub issue-HoldsOnly :
    (s after : TicketService) (b : List ℕ) (now : ℕ) (user_id : ℤ) (role ticket : String)
    → issue s (some b) now user_id role ≡ some (after, ticket)
    → HoldsOnly ticket
        (record { user_id = user_id; role = role; expires_at = now + ticket_ttl })
        after
unfolding issue
issue-HoldsOnly s after b now user_id role ticket e = inr (
    ground (
      arith,
      Maps.get-put_self String_discrete ticket
          (record { user_id = user_id; role = role; expires_at = now + ticket_ttl }) s.tickets,
    ))

-- An issue leaves no ticket twice in the store.
pub issue-IsWellFormed :
    (s after : TicketService) (random : Option (List ℕ)) (now : ℕ) (user_id : ℤ)
    (role ticket : String)
    → issue s random now user_id role ≡ some (after, ticket)
    → IsWellFormed s
    → IsWellFormed after
unfolding step
issue-IsWellFormed s after random now user_id role ticket e w =
    subst IsWellFormed (ap (after_issue s) e)
      (step-IsWellFormed s (issued random now user_id role) w)

pub new_ticket_service-IsWellFormed : IsWellFormed new_ticket_service
unfolding new_ticket_service
new_ticket_service-IsWellFormed = tt
