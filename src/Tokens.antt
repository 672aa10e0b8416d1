-- ===== src/Tokens.antt =====
-- The three copies of jwt.go: gateway/internal/middleware, which signs tokens too, chat-service/
-- internal/middleware and presence-service/internal/middleware. The library golang-jwt, which signs
-- and parses, is a parameter, and so are JSON's numbers, which come as float64. A token is its
-- bytes, and times are in seconds.
pub mod Identity
pub mod Journey
use realtime_chat_platform.Prelude.{
  ℕ, suc, ◌+◌, ◌*◌, ◌<◌, ◌≡◌, ◌⊎◌, inl, inr, ℤ, pos, negsuc, String, String_discrete, Bool, true,
  false, not, ◌&&◌, Option, none, some, List, [], ◌∷◌, ite, if◌then◌else◌, ◌==◌, codes, length,
  drop,
}
use realtime_chat_platform.Prelude.Orders.{Bytes_discrete}

-- `*jwt.SigningMethodHMAC`, or another method.
pub data Method : Type 0 where
  hmac other_method : Method

-- What is signed.
pub record MapClaims : Type 0 where
  pub user_id : ℤ
  pub role : String
  pub exp : ℕ

-- What is parsed: each claim if it is there and of its type.
pub record ParsedClaims (Float : Type 0) : Type 0 where
  pub user_id : Option Float
  pub role : Option String

-- A parsed token; its claims may not be a map.
pub record Token (Float : Type 0) : Type 0 where
  pub valid : Bool
  pub claims : Option (ParsedClaims Float)

-- The bounds within which a float64 has every integer.
abbrev pub float_limit : ℕ
float_limit = 0x20000000000000

abbrev pub IsExact : ℤ → Type 0
IsExact (pos n) = n < float_limit
IsExact (negsuc n) = suc n < float_limit

pub record Jwt : Type 1 where
  pub Float : Type 0
  pub from_int : ℤ → Float
  -- `int64(x)`.
  pub to_int : Float → ℤ
  -- `SignedString` with HS256 and a secret.
  pub sign : MapClaims → List ℕ → Option (List ℕ)
  -- `jwt.Parse` with the key function, at a time.
  pub parse : (Method → Option (List ℕ)) → ℕ → List ℕ → Option (Token Float)
  -- Whether a token has a signature by a method with a key.
  pub verifies : Method → List ℕ → List ℕ → Bool

pub record IsLawful (J : Jwt) : Type 0 where
  pub to_int-from_int : (z : ℤ) → IsExact z → J.to_int (J.from_int z) ≡ z
  -- What was signed with the key is parsed until it expires.
  pub parse-sign :
      (claims : MapClaims) (secret token : List ℕ) (key : Method → Option (List ℕ)) (now : ℕ)
      → J.sign claims secret ≡ some token
      → key hmac ≡ some secret
      → now < claims.exp
      → J.parse key now token
        ≡ some (record {
          valid = true;
          claims =
              some (record { user_id = some (J.from_int claims.user_id); role = some claims.role });
        })
  -- A valid token is signed by a method for which the key function gave the key.
  pub parse_verified :
      (token : List ℕ) (key : Method → Option (List ℕ)) (now : ℕ) (t : Token J.Float)
      → J.parse key now token ≡ some t
      → t.valid ≡ true
      → (m : Method) × (k : List ℕ) × (key m ≡ some k) × (J.verifies m k token ≡ true)

pub record Claims : Type 0 where
  pub user_id : ℤ
  pub role : String

pub data TokenError : Type 0 where
  missing_header invalid_format : TokenError
  invalid_or_expired invalid_claims invalid_user_id : TokenError

-- The key function: only an HMAC method gets the secret.
unfoldable pub key_of : List ℕ → Method → Option (List ℕ)
key_of secret hmac = some secret
key_of secret other_method = none

-- `strings.TrimPrefix`.
unfoldable pub has_prefix : List ℕ → List ℕ → Bool
has_prefix [] text = true
has_prefix (p ∷ ps) [] = false
has_prefix (p ∷ ps) (t ∷ ts) = let rest = has_prefix ps ts in if p == t then rest else false

unfoldable pub trim_prefix : List ℕ → List ℕ → List ℕ
unfolding has_prefix
trim_prefix prefix text = if has_prefix prefix text then drop (length prefix) text else text

unfoldable pub role_of : Option String → String
role_of none = ""
role_of (some role) = role

module _ (J : Jwt) (secret : List ℕ) where
  abbrev pub token_lifetime : ℕ
  token_lifetime = 24 * 3600

  -- `GenerateToken`.
  unfoldable pub generate_token : ℕ → ℤ → String → Option (List ℕ)
  generate_token now user_id role =
      J.sign (record { user_id = user_id; role = role; exp = now + token_lifetime }) secret

  unfoldable pub user_claims : Option (ParsedClaims J.Float) → Claims ⊎ TokenError
  unfolding role_of
  user_claims none = inr invalid_claims
  user_claims (some claims) = elim claims.user_id [
    | none ↦ inr invalid_user_id
    | some id ↦ inl (record { user_id = J.to_int id; role = role_of claims.role })
  ]

  unfoldable pub checked : Option (Token J.Float) → Claims ⊎ TokenError
  unfolding user_claims
  checked none = inr invalid_or_expired
  checked (some token) = if token.valid then user_claims token.claims else inr invalid_or_expired

  -- `ValidateToken`.
  unfoldable pub validate_token : ℕ → List ℕ → Claims ⊎ TokenError
  unfolding key_of checked
  validate_token now token = checked (J.parse (key_of secret) now token)

  -- `JWTMiddleware` of the chat and presence services, and the check of `Serve`: the claims that
  -- are set, or a 401. A header that is not there reads as the empty text.
  unfoldable pub authenticate : ℕ → List ℕ → Claims ⊎ TokenError
  unfolding trim_prefix validate_token
  authenticate now header =
      if length header == 0
      then inr missing_header
      else let token = trim_prefix (codes "Bearer ") header in
        ite (Bytes_discrete token header) (inr missing_header) (validate_token now token)

  -- `JWTMiddleware` of the gateway, which tells the two errors apart.
  unfoldable pub gateway_authenticate : ℕ → List ℕ → Claims ⊎ TokenError
  unfolding trim_prefix key_of checked
  gateway_authenticate now header =
      if length header == 0
      then inr missing_header
      else let token = trim_prefix (codes "Bearer ") header in
        ite (Bytes_discrete token header) (inr invalid_format)
          (checked (J.parse (key_of secret) now token))
