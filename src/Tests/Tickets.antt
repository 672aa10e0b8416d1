-- ===== src/Tests/Tickets.antt =====
-- The tickets at concrete inputs.
use Prim.Native.String.{◌++◌}
use realtime_chat_platform.Prelude.Maps
use realtime_chat_platform.Prelude.{
  ◌+◌, ◌≤◌, ◌≡◌, refl, String, String_discrete, ℤ, pos, Option, some, List, [], ◌∷◌,
}
use realtime_chat_platform.Gateway.Http.{
  Request, answer, forward, query_get, query_del, header_set, header,
}
use realtime_chat_platform.Gateway.Tickets.{
  ticket_ttl, TicketEntry, TicketService, new_ticket_service, issue, redeem,
}
use realtime_chat_platform.Gateway.Tickets.Hex.{encode_to_string}
use realtime_chat_platform.Gateway.Tickets.Middleware.{ws_ticket, ws_ticket_forward}
use realtime_chat_platform.Gateway.Tickets.OneShot.{
  IsWellFormed, Event, issued, redeemed, reaped, successes, issues, successes-le-issues,
}

abbrev pub alice : TicketEntry
alice = record { user_id = pos 1; role = "user"; expires_at = 5 + ticket_ttl }

-- The service after a ticket was issued at time 5.
abbrev pub one_ticket : TicketService
one_ticket = record { tickets = ("ab", alice) ∷ [] }

issue_ab : issue new_ticket_service (some (0xab ∷ [])) 5 (pos 1) "user" ≡ some (one_ticket, "ab")
unfolding issue new_ticket_service encode_to_string Maps.put
issue_ab = refl

one_ticket-IsWellFormed : IsWellFormed one_ticket
unfolding Maps.get
one_ticket-IsWellFormed = (refl, tt)

abbrev history : List Event
history =
    issued (some (0xab ∷ [])) 5 (pos 1) "user" ∷ redeemed "ab" 9 ∷ redeemed "ab" 10 ∷ reaped 11 ∷ []

successes-le-issues_example : successes "ab" new_ticket_service history ≤ issues "ab" history
successes-le-issues_example = successes-le-issues "ab" history

abbrev mint : ℤ → String → Option String
mint user_id role = some "jwt"

abbrev pub handshake : Request
handshake = record {
  path = "/ws";
  query = ("ticket", "ab") ∷ ("room", "general") ∷ [];
  headers = [];
}

abbrev upgraded : Request
upgraded = record {
  path = "/ws";
  query = ("room", "general") ∷ [];
  headers = ("Authorization", "Bearer jwt") ∷ [];
}

forwarded : (ws_ticket mint one_ticket 9 handshake).1 ≡ forward upgraded
unfolding ws_ticket redeem query_get query_del header_set Maps.get Maps.put String_discrete
forwarded = refl

ws_ticket_forward_example :
    (user_id : ℤ) × (role : String) × (token : String) × ((redeem one_ticket
        (query_get "ticket" handshake.query)
        9).1
      ≡ some (user_id, role))
    × (mint user_id role ≡ some token)
    × (header "Authorization" upgraded ≡ some ("Bearer " ++ token))
    × (query_get "ticket" upgraded.query ≡ "")
    × ((ws_ticket mint (ws_ticket mint one_ticket 9 handshake).0 12 handshake).1
        ≡ answer 401 "invalid or expired ticket")
ws_ticket_forward_example = ws_ticket_forward mint one_ticket 9 12 handshake upgraded forwarded
