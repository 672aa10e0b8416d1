-- ===== src/Tokens/Journey.antt =====
-- From a token at the gateway by way of a ticket to a token at a chat instance.
use realtime_chat_platform.Prelude.{
  ℕ, ◌+◌, ◌<◌, ◌≡◌, ◌⊎◌, inl, sym, subst, ◌∙◌, ℤ, String, Option, none, some, List, codes, arith,
}
use realtime_chat_platform.Gateway.Http.{Request, forward, header, query_get}
use realtime_chat_platform.Gateway.Tickets.{
  TicketEntry, TicketService, new_ticket_service, issue, ticket_ttl,
}
use realtime_chat_platform.Gateway.Tickets.OneShot.{Event, issues}
use realtime_chat_platform.Gateway.Tickets.Held.{
  after_events, after_events-IsWellFormed, after_events-HoldsOnly, redeem_held, issue-HoldsOnly,
  issue-IsWellFormed, new_ticket_service-IsWellFormed,
}
use realtime_chat_platform.Gateway.Tickets.Controller.{post_ticket, created}
use realtime_chat_platform.Gateway.Tickets.Middleware.{ws_ticket}
use realtime_chat_platform.Tokens.{
  Jwt, IsLawful, IsExact, Claims, TokenError, token_lifetime, generate_token, authenticate,
  gateway_authenticate,
}
use realtime_chat_platform.Tokens.Identity.{ticket_identity}

-- A ticket that `POST /ws-ticket` answers was issued for the claims.
post_ticket_issued :
    (claims : Claims) (s after : TicketService) (random : Option (List ℕ)) (now expires : ℕ)
    (ticket : String)
    → post_ticket (some claims) s random now ≡ (after, created ticket expires)
    → (b : List ℕ) × (issue s (some b) now claims.user_id claims.role ≡ some (after, ticket))
unfolding post_ticket
post_ticket_issued claims s after none now expires ticket h = absurd (ground arith)
post_ticket_issued claims s after (some b) now expires ticket h = (b, ground arith)

same_claims :
    (u : ℤ) (role : String) (claims : Claims)
    → claims.user_id ≡ u
    → claims.role ≡ role
    → ◌≡◌ {A = Claims ⊎ TokenError} (inl (record { user_id = u; role = role })) (inl claims)
same_claims u role claims p q = ground arith

module _ (J : Jwt) (secret : List ℕ) (lawful : IsLawful J) (mint : ℤ → String → Option String) where
  -- Whom the gateway takes a request for, asks for a ticket and gets one. Whatever the ticket
  -- service did before, and whatever it does before the handshake, with sweeps, redemptions and
  -- issues of other tickets at any times, but without another issue of the same ticket: a handshake
  -- with that ticket that the gateway forwards is taken by a chat instance, within the day for
  -- which its token is good, for the same user in the same role. The gateway makes the token of the
  -- handshake with the secret that it shares with the instance, and the user's id is one that a
  -- float64 has. Tokens count in seconds, tickets in nanoseconds.
  pub ticket_journey :
      (sent : List ℕ) (claims : Claims) (before between : List Event) (after : TicketService)
      (random : Option (List ℕ)) (known_at asked now signed later expires : ℕ) (r r' : Request)
      → gateway_authenticate J secret known_at sent ≡ inl claims
      → IsExact claims.user_id
      → post_ticket (some claims) (after_events new_ticket_service before) random asked
        ≡ (after, created (query_get "ticket" r.query) expires)
      → issues (query_get "ticket" r.query) between ≡ 0
      → ((u : ℤ) (role token : String)
          → mint u role ≡ some token
          → generate_token J secret signed u role ≡ some (codes token))
      → (ws_ticket mint (after_events after between) now r).1 ≡ forward r'
      → later < signed + token_lifetime J secret
      → (bearer : String) × (header "Authorization" r' ≡ some bearer)
        × (authenticate J secret later (codes bearer) ≡ gateway_authenticate J secret known_at sent)
  ticket_journey sent claims before between after random known_at asked now signed later expires r
        r' known exact answered never minted forwarded early =
      let ticket = query_get "ticket" r.query in
      let s = after_events new_ticket_service before in
      let (b, issued) = post_ticket_issued claims s after random asked expires ticket answered in
      let well =
        issue-IsWellFormed s after (some b) asked claims.user_id claims.role ticket issued
          (after_events-IsWellFormed new_ticket_service before new_ticket_service-IsWellFormed) in
      let entry : TicketEntry = record {
        user_id = claims.user_id;
        role = claims.role;
        expires_at = asked + ticket_ttl;
      } in
      let held =
        after_events-HoldsOnly ticket entry after between well never
          (issue-HoldsOnly s after b asked claims.user_id claims.role ticket issued) in
      let who = λ (u : ℤ) (role : String).
        redeem_held ticket entry (after_events after between) now u role held in
      let (u, role, bearer, redeemed, given, accepted) =
        ticket_identity J secret lawful mint (after_events after between) now signed later r r'
          minted (λ u role e. subst IsExact (who u role e).0 exact) forwarded early in
      let (one, part) = who u role redeemed in
      (bearer, given, accepted ∙ same_claims u role claims one part ∙ sym known)
