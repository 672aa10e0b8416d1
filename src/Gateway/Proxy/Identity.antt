-- ===== src/Gateway/Proxy/Identity.antt =====
-- What reaches the services behind the proxies.
use realtime_chat_platform.Prelude.{
  ℕ, zero, suc, ◌≡◌, ap, ◌∙◌, String, ℤ, true, Option, none, some, List, [], ◌∷◌, if◌then◌else◌,
  get_elem?, arith,
}
use mathlib.Core.Option
use realtime_chat_platform.Prelude.Tests.{String_discrete}
use realtime_chat_platform.Gateway.Http.{
  Request, header_set, header_del, header, header-header_set, header-header_del,
}
use realtime_chat_platform.Gateway.LoadBalancer.Pool.{Backend, Pool, ProbeReply}
use realtime_chat_platform.Gateway.LoadBalancer.Pool.Health.{IsConstructed}
use realtime_chat_platform.Gateway.LoadBalancer.ConsistentHash.{new_consistent_hash, pick}
use realtime_chat_platform.Gateway.LoadBalancer.ConsistentHash.Sticky.{pick_sticky}
use realtime_chat_platform.Gateway.Proxy.{
  format_int, with_request_id, trusted_proxy, proxied, unavailable, respond_unavailable, has_proxy,
  balanced_proxy,
}

-- Behind the trusted proxy the identity and the key are the gateway's, never the client's, and the
-- token is gone: whatever headers came in, X-User-ID is there exactly for an authenticated user and
-- is then that user's id.
pub trusted_proxy_lem :
    (gateway_key request_id : String) (user_id : Option ℤ) (r : Request)
    → (let sent = trusted_proxy gateway_key request_id user_id r in
        (header "X-User-Id" sent ≡ Option.map format_int user_id)
        × (header "X-Gateway-Key" sent ≡ some gateway_key)
        × (header "Authorization" sent ≡ none))
unfolding trusted_proxy String_discrete
trusted_proxy_lem gateway_key request_id none r =
    let a = with_request_id request_id r in
    let b = header_set "X-Gateway-Key" gateway_key a in
    let c = header_del "X-User-Id" b in
    (
      header-header_del "X-User-Id" "Authorization" c ∙ header-header_del "X-User-Id" "X-User-Id" b,
      header-header_del "X-Gateway-Key" "Authorization" c
          ∙ header-header_del "X-Gateway-Key" "X-User-Id" b
          ∙ header-header_set "X-Gateway-Key" "X-Gateway-Key" gateway_key a,
      header-header_del "Authorization" "Authorization" c,
    )
trusted_proxy_lem gateway_key request_id (some id) r =
    let a = with_request_id request_id r in
    let b = header_set "X-Gateway-Key" gateway_key a in
    let c = header_del "X-User-Id" b in
    let d = header_set "X-User-Id" (format_int id) c in
    (
      header-header_del "X-User-Id" "Authorization" d
          ∙ header-header_set "X-User-Id" "X-User-Id" (format_int id) c,
      header-header_del "X-Gateway-Key" "Authorization" d
          ∙ header-header_set "X-Gateway-Key" "X-User-Id" (format_int id) c
          ∙ header-header_del "X-Gateway-Key" "X-User-Id" b
          ∙ header-header_set "X-Gateway-Key" "X-Gateway-Key" gateway_key a,
      header-header_del "Authorization" "Authorization" d,
    )

has_proxy-get :
    (bs : List Backend) (i : ℕ) (b : Backend) → get_elem? bs i ≡ some b → has_proxy b.id bs ≡ true
unfolding has_proxy
has_proxy-get [] i b h = absurd cc
has_proxy-get (c ∷ bs) zero b h = ground arith
has_proxy-get (c ∷ bs) (suc i) b h = ground (arith, has_proxy-get bs i b h)

-- With a pool as `NewPool` makes it, a request for a room goes to a healthy instance of the pool,
-- the same one for all requests with its key, or is refused with the notice that this instance is
-- down; the proxy is never misconfigured and never crashes.
pub sticky_proxy :
    (pool : Pool) (key request_id : String) (r : Request)
    → IsConstructed pool
    → (b : Backend) × (get_elem? pool.backends b.id ≡ some b)
      × (balanced_proxy pool (pick (new_consistent_hash pool) pool key) request_id r ≡ (
          if b.healthy
          then proxied b (with_request_id request_id r)
          else unavailable "the instance serving this room is unavailable; retry later"))
unfolding balanced_proxy respond_unavailable
sticky_proxy pool key request_id r c =
    let (b, found, now, swept) = pick_sticky pool (λ _. ProbeReply.failed) key c in
    let known = has_proxy-get pool.backends b.id b found in
    (b, found, ap (λ p. balanced_proxy pool p request_id r) now ∙ ground (arith, known))
