-- ===== src/Gateway/Proxy.antt =====
-- gateway/internal/proxy: what balanced_proxy.go, trusted_proxy.go and reverse_proxy.go do with a request before the
-- reverse proxy has it. A strategy is its pick for the request.
pub mod Identity
use realtime_chat_platform.Prelude.{
  ℕ, zero, suc, ◌/◌, ◌%◌, String, String_discrete, ℤ, pos, negsuc, Bool, true, false, Option, none,
  some, List, [], ◌∷◌, ite, if◌then◌else◌, ltb, ◌==◌,
}
use realtime_chat_platform.Gateway.Http.{Request, header_set, header_del, Outcome, forward}
use realtime_chat_platform.Gateway.LoadBalancer.Pool.{Backend, Pool}
use realtime_chat_platform.Gateway.LoadBalancer.ConsistentHash.{
  PickResult, picked, backend_down, no_healthy_backend, fault,
}
use realtime_chat_platform.Gateway.Tickets.Hex.{hex_digit}

-- `strconv.FormatInt(n, 10)`; a number is fuel enough for its digits.
unfoldable pub format_from : ℕ → ℕ → String → String
unfolding hex_digit
format_from zero n rest = rest
format_from (suc fuel) n rest =
    let digits = String.◌∷◌ (hex_digit (n % 10)) rest in
    let more = format_from fuel (n / 10) digits in if ltb n 10 then digits else more

unfoldable pub format_int : ℤ → String
unfolding format_from
format_int (pos n) = format_from (suc n) n ""
format_int (negsuc n) = String.◌∷◌ "-" (format_from (suc (suc n)) (suc n) "")

unfoldable pub with_request_id : String → Request → Request
with_request_id request_id r =
    ite (String_discrete request_id "") r (header_set "X-Request-Id" request_id r)

-- The handler of `NewTrustedProxy`; `user_id` is what the JWT middleware stored.
unfoldable pub trusted_proxy : String → String → Option ℤ → Request → Request
unfolding with_request_id format_int
trusted_proxy gateway_key request_id user_id r =
    let keyed =
      header_del "X-User-Id"
        (header_set "X-Gateway-Key" gateway_key (with_request_id request_id r)) in
    header_del "Authorization"
      (elim user_id [ none ↦ keyed | some id ↦ header_set "X-User-Id" (format_int id) keyed ])

-- `NewServiceProxy`, and a request through its handler; without a target that parses there is none.
unfoldable pub service_proxy : Bool → String → Request → Option Request
unfolding with_request_id
service_proxy target_parses request_id r =
    if target_parses then some (with_request_id request_id r) else none

-- How the balanced proxy ends.
pub data Balanced : Type 0 where
  proxied : Backend → Request → Balanced
  unavailable : String → Balanced
  misconfigured crashed : Balanced

unfoldable pub respond_unavailable : Option (String × Backend) → Balanced
respond_unavailable (some down) =
    unavailable "the instance serving this room is unavailable; retry later"
respond_unavailable none = unavailable "chat service unavailable"

-- `proxies[backend]`, a map with an entry for each backend of the pool.
unfoldable pub has_proxy : ℕ → List Backend → Bool
has_proxy id [] = false
has_proxy id (b ∷ bs) = let rest = has_proxy id bs in if id == b.id then true else rest

-- The handler of `NewBalancedProxy`; a fault of the strategy is a panic.
unfoldable pub balanced_proxy : Pool → PickResult → String → Request → Balanced
unfolding with_request_id respond_unavailable has_proxy
balanced_proxy pool (picked backend) request_id r =
    if has_proxy backend.id pool.backends
    then proxied backend (with_request_id request_id r)
    else misconfigured
balanced_proxy pool (backend_down key backend) request_id r =
    respond_unavailable (some (key, backend))
balanced_proxy pool no_healthy_backend request_id r = respond_unavailable none
balanced_proxy pool fault request_id r = crashed
