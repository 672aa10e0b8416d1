-- ===== src/Gateway/Tickets/Controller.antt =====
-- gateway/internal/controller/ticket_controller.go: `POST /ws-ticket` for the claims that the token
-- check has set.
use realtime_chat_platform.Prelude.{ℕ, ◌/◌, ◌^◌, String, Option, none, some, List}
use realtime_chat_platform.Gateway.Tickets.{TicketService, issue, ticket_ttl}
use realtime_chat_platform.Tokens.{Claims}

pub data TicketAnswer : Type 0 where
  refused : ℕ → TicketAnswer
  created : String → ℕ → TicketAnswer

-- The handler; `random` is what `rand.Read` gives; the life of a ticket is told in seconds.
unfoldable pub post_ticket :
    Option Claims → TicketService → Option (List ℕ) → ℕ → TicketService × TicketAnswer
unfolding issue
post_ticket none s random now = (s, refused 401)
post_ticket (some claims) s random now = elim (issue s random now claims.user_id claims.role) [
  | none ↦ (s, refused 500)
  | some (after, ticket) ↦ (after, created ticket (ticket_ttl / 10 ^ 9))
]
