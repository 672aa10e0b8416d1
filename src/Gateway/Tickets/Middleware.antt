-- ===== src/Gateway/Tickets/Middleware.antt =====
-- gateway/internal/middleware/ws_ticket.go: the ticket of a handshake becomes an Authorization
-- header. `GenerateToken` is an argument; `none` is its failure.
use Prim.Native.String.{◌++◌}
use realtime_chat_platform.Prelude.{
  ℕ, ◌≡◌, String, String_discrete, ℤ, Option, none, some, ite, Option-cases, inl, inr, ap, ◌∙◌,
  arith,
}
use realtime_chat_platform.Gateway.Http.{
  Request, Outcome, answer, forward, query_get, query_del, header_set, header, header-header_set,
  query_get-query_del_self,
}
use realtime_chat_platform.Gateway.Tickets.{TicketService, redeem}
use realtime_chat_platform.Gateway.Tickets.OneShot.{redeem_twice}

module _ (generate_token : ℤ → String → Option String) where
  unfoldable pub ws_ticket : TicketService → ℕ → Request → TicketService × Outcome
  ws_ticket s now r =
      let ticket = query_get "ticket" r.query in
      let (s', redeemed) = redeem s ticket now in
      let rest : Outcome = elim redeemed [
        | none ↦ answer 401 "invalid or expired ticket"
        | some (user_id, role) ↦ elim (generate_token user_id role) [
          | none ↦ answer 500 "failed to authorize connection"
          | some token ↦ forward (record (header_set "Authorization" ("Bearer " ++ token) r) {
            query = query_del "ticket" r.query;
          })
        ]
      ] in
      ite (String_discrete ticket "") (s, answer 401 "missing ticket") (s', rest)

  -- A request that is forwarded carries the token minted for the identity that its ticket was
  -- worth, and no ticket; and its ticket is spent: the same request is then refused with 401,
  -- whenever it comes.
  pub ws_ticket_forward :
      (s : TicketService) (now later : ℕ) (r r' : Request)
      → (ws_ticket s now r).1 ≡ forward r'
      → (user_id : ℤ) × (role : String) × (token : String) × ((redeem s
            (query_get "ticket" r.query)
            now).1
          ≡ some (user_id, role))
        × (generate_token user_id role ≡ some token)
        × (header "Authorization" r' ≡ some ("Bearer " ++ token))
        × (query_get "ticket" r'.query ≡ "")
        × ((ws_ticket (ws_ticket s now r).0 later r).1 ≡ answer 401 "invalid or expired ticket")
  unfolding ws_ticket
  ws_ticket_forward s now later r r' e =
      let ticket = query_get "ticket" r.query in
      elim (Option-cases (redeem s ticket now).1) [
        | inl refused ↦ absurd (ground arith)
        | inr ((user_id, role), good) ↦ elim (Option-cases (generate_token user_id role)) [
          | inl failed ↦ absurd (ground arith)
          | inr (token, minted) ↦
              let sent = header_set "Authorization" ("Bearer " ++ token) r in
              let same : r' ≡ record sent { query = query_del "ticket" r.query } = ground arith in
              (
                user_id,
                role,
                token,
                good,
                minted,
                ground (
                  arith,
                  ap (header "Authorization") same,
                  header-header_set "Authorization" "Authorization" ("Bearer " ++ token) r,
                ),
                ap (λ q. query_get "ticket" q.query) same
                    ∙ query_get-query_del_self "ticket" r.query,
                ground (arith, redeem_twice s ticket now later),
              )
        ]
      ]
