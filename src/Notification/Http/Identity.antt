-- ===== src/Notification/Http/Identity.antt =====
-- Whom the notification service takes a request for.
use Prim.Native.Char.{code}
use realtime_chat_platform.Prelude.{
  ℕ, zero, suc, ◌+◌, ◌/◌, ◌%◌, ◌<◌, ◌≡◌, inl, inr, refl, ap, ◌∙◌, String, ℤ, pos, negsuc, positive,
  Bool, true, ◌&&◌, none, some, List, ◌∷◌, if_pos, ltb, ◌==◌, codes, bytes, arith, Bool-cases,
  decimal,
}
use realtime_chat_platform.Prelude.Text.{decimal_from}
use realtime_chat_platform.Prelude.Decimal.{InInt64, parse_int, parse_int-format_int}
use realtime_chat_platform.Prelude.Decimal as Decimal
use realtime_chat_platform.Prelude.Orders.{Bytes_discrete}
use realtime_chat_platform.Gateway.Http.{Request, header}
use realtime_chat_platform.Gateway.Proxy.{trusted_proxy, format_int, format_from}
use realtime_chat_platform.Gateway.Proxy.Identity.{trusted_proxy_lem}
use realtime_chat_platform.Gateway.Tickets.Hex.{hex_digit}
use realtime_chat_platform.Notification.Http.{header_get, gateway_auth}

-- The decimal digits among those of hex, checked one by one.
digits_below : ℕ → Bool
digits_below zero = true
digits_below (suc d) = (code (hex_digit d) == (b'0' + d)) && digits_below d

digits_below_sound : (n d : ℕ) → d < n → digits_below n ≡ true → code (hex_digit d) ≡ b'0' + d
unfolding digits_below
digits_below_sound zero d h e = absurd (omega arith)
digits_below_sound (suc n) d h e = ground (arith, digits_below_sound n d)

digits_below_10 : digits_below 10 ≡ true
unfolding digits_below hex_digit
digits_below_10 = refl

codes-format_from :
    (fuel n : ℕ) (rest : String)
    → codes (format_from fuel n rest) ≡ decimal_from fuel n (codes rest)
unfolding format_from decimal_from
codes-format_from zero n rest = refl
codes-format_from (suc fuel) n rest =
    let digit = digits_below_sound 10 (n % 10) (omega arith) digits_below_10 in
    let one : codes (String.◌∷◌ (hex_digit (n % 10)) rest) ≡ (b'0' + n % 10) ∷ codes rest =
      ap (λ c. c ∷ codes rest) digit in
    elim (Bool-cases (ltb n 10)) [
      | inl low ↦ rw low one
      | inr high ↦ rw high (
          codes-format_from fuel (n / 10) (String.◌∷◌ (hex_digit (n % 10)) rest)
          ∙ ap (decimal_from fuel (n / 10)) one)
    ]

-- The proxy and `strconv` print the same digits.
codes-format_int : (z : ℤ) → codes (format_int z) ≡ Decimal.format_int z
unfolding format_int Decimal.format_int decimal
codes-format_int (pos n) = codes-format_from (suc n) n ""
codes-format_int (negsuc n) = ap (λ l. b'-' ∷ l) (codes-format_from (suc (suc n)) (suc n) "")

header_get_lem :
    (name value : String) (r : Request) → header name r ≡ some value → header_get name r ≡ value
unfolding header_get
header_get_lem name value r h = ground arith

header_get_missing : (name : String) (r : Request) → header name r ≡ none → header_get name r ≡ ""
unfolding header_get
header_get_missing name r h = ground arith

gateway_auth_of_user :
    (gateway_key : String) (r : Request) (user_id : ℤ)
    → header_get "X-Gateway-Key" r ≡ gateway_key
    → parse_int (codes (header_get "X-User-Id" r)) ≡ some user_id
    → positive user_id ≡ true
    → gateway_auth (bytes gateway_key) r ≡ some user_id
unfolding gateway_auth
gateway_auth_of_user gateway_key r user_id key id above =
    if_pos (Bytes_discrete _ _) (ap bytes key) _ _ ∙ rw (id, above) refl

gateway_auth_of_none :
    (gateway_key : List ℕ) (r : Request)
    → parse_int (codes (header_get "X-User-Id" r)) ≡ none
    → gateway_auth gateway_key r ≡ none
unfolding gateway_auth
gateway_auth_of_none gateway_key r id = rw id (ground arith)

parse_int-empty : parse_int (codes "") ≡ none
unfolding parse_int
parse_int-empty = refl

-- A request through the gateway's trusted proxy is taken by the notification service for exactly
-- the user whom the gateway's token check set, whatever identity its headers claimed; without a
-- user it is refused. Both sides have the same key, and the id is a positive int64.
pub gateway_auth-trusted_proxy :
    (gateway_key request_id : String) (user_id : ℤ) (r : Request)
    → InInt64 user_id
    → positive user_id ≡ true
    → (gateway_auth (bytes gateway_key) (trusted_proxy gateway_key request_id (some user_id) r)
        ≡ some user_id)
      × (gateway_auth (bytes gateway_key) (trusted_proxy gateway_key request_id none r) ≡ none)
gateway_auth-trusted_proxy gateway_key request_id user_id r fits above =
    let (id, key, gone) = trusted_proxy_lem gateway_key request_id (some user_id) r in
    let (id', key', gone') = trusted_proxy_lem gateway_key request_id none r in
    (
      gateway_auth_of_user gateway_key (trusted_proxy gateway_key request_id (some user_id) r)
          user_id (header_get_lem "X-Gateway-Key" gateway_key _ key)
          (ap (λ u. parse_int (codes u)) (header_get_lem "X-User-Id" (format_int user_id) _ id)
            ∙ ap parse_int (codes-format_int user_id)
            ∙ parse_int-format_int user_id fits)
          above,
      gateway_auth_of_none (bytes gateway_key) (trusted_proxy gateway_key request_id none r)
          (ap (λ u. parse_int (codes u)) (header_get_missing "X-User-Id" _ id') ∙ parse_int-empty),
    )
