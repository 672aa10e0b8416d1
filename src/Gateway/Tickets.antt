-- ===== src/Gateway/Tickets.antt =====
-- gateway/internal/service/ticket_service.go: one-shot tickets for the WebSocket handshake. Each
-- method holds the mutex, so a call is one step; the time of the call and the bytes that
-- `rand.Read` delivers (or its failure) are arguments. Times are in nanoseconds.
pub mod Hex
pub mod OneShot
pub mod Held
pub mod Middleware
pub mod Controller
use realtime_chat_platform.Prelude.Maps
use realtime_chat_platform.Prelude.{
  ℕ, ◌+◌, ◌*◌, ◌^◌, String, String_discrete, ℤ, Bool, true, false, Option, none, some, List, [],
  ◌∷◌, if◌then◌else◌, ltb,
}
use Hex.{encode_to_string}

abbrev pub ticket_ttl : ℕ
ticket_ttl = 30 * 10 ^ 9

pub record TicketEntry : Type 0 where
  pub user_id : ℤ
  pub role : String
  pub expires_at : ℕ

pub record TicketService : Type 0 where
  pub tickets : List (String × TicketEntry)

unfoldable pub new_ticket_service : TicketService
new_ticket_service = record { tickets = [] }

unfoldable pub issue :
    TicketService → Option (List ℕ) → ℕ → ℤ → String → Option (TicketService × String)
issue s none now user_id role = none
issue s (some b) now user_id role =
    let ticket = encode_to_string b in
    some (
      record {
        tickets =
            Maps.put String_discrete ticket
              (record { user_id = user_id; role = role; expires_at = now + ticket_ttl }) s.tickets;
      },
      ticket,
    )

-- Deletes on read, whether or not the ticket is still good.
unfoldable pub redeem : TicketService → String → ℕ → TicketService × Option (ℤ × String)
redeem s ticket now = elim (Maps.get String_discrete ticket s.tickets) [
  | none ↦ (s, none)
  | some entry ↦ (
    record { tickets = Maps.delete String_discrete ticket s.tickets },
    if ltb entry.expires_at now then none else some (entry.user_id, entry.role),
  )
]

-- The loop of `reapOnce`.
unfoldable pub reap : ℕ → List (String × TicketEntry) → List (String × TicketEntry)
reap now [] = []
reap now ((ticket, entry) ∷ rest) =
    if ltb entry.expires_at now then reap now rest else (ticket, entry) ∷ reap now rest

unfoldable pub reap_once : TicketService → ℕ → TicketService
unfolding reap
reap_once s now = record { tickets = reap now s.tickets }
