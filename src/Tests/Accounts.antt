-- ===== src/Tests/Accounts.antt =====
-- Users, tokens and handshakes at concrete inputs.
use Prim.Native.String.{◌++◌ as ◌⊕◌}
use realtime_chat_platform.Prelude.Maps
use realtime_chat_platform.Prelude.{
  ℕ, ◌<◌, ◌≡◌, ◌∙◌, sym, ℤ_discrete, ◌↔◌, inl, inr, refl, ap, subst, String, String_discrete, ℤ,
  pos, Bool, true, false, Option, none, some, List, [], ◌∷◌, ◌++◌, ite, if◌then◌else◌, ltb, codes,
  bytes, length, arith,
}
use realtime_chat_platform.Prelude.Orders.{Bytes_discrete}
use realtime_chat_platform.Gateway.Users.{
  User, Users, invalid_credentials, no_faults, DbFaults, register, validate_email,
  validate_password, get_by_email, create_user, create, is_taken,
}
use realtime_chat_platform.Gateway.Users.Accounts.{
  CanRegister, registering, logging_in, after_registrations, register_iff, register-login,
}
use realtime_chat_platform.Tokens.{
  hmac, MapClaims, Claims, generate_token, validate_token, authenticate, gateway_authenticate,
}
use realtime_chat_platform.Tokens.Identity.{
  authenticate_bearer, validate-generate, authenticate_verified, gateway_authenticate_iff,
}
use realtime_chat_platform.Gateway.Http.{Request, forward, header, query_get, query_del, header_set}
use realtime_chat_platform.Gateway.Tickets.Middleware.{ws_ticket}
use realtime_chat_platform.Gateway.Tickets.{new_ticket_service, issue, redeem, reap, reap_once}
use realtime_chat_platform.Gateway.Tickets.OneShot
use realtime_chat_platform.Gateway.Tickets.OneShot.{Event, issued, redeemed, reaped, issues}
use realtime_chat_platform.Gateway.Tickets.Held.{after_events}
use realtime_chat_platform.Gateway.Tickets.Hex.{encode_to_string}
use realtime_chat_platform.Gateway.Tickets.Controller.{post_ticket, created}
use realtime_chat_platform.Tokens.Journey.{ticket_journey}
use realtime_chat_platform.Tests.Tickets.{one_ticket, handshake}
use realtime_chat_platform.Tests.Services.{
  tokens, tokens-IsLawful, signed_token, sign_lem, text_of, codes-text_of,
}

abbrev alice : String
alice = "alice@example.org"

-- An address has a sign of at; a hash is the password itself; emails compare as they are.
abbrev same : String → String → Bool
same a b = ite (String_discrete a b) true false

same_sym : (a b : String) → same a b ≡ true → same b a ≡ true
same_sym a b h = ground arith

same_trans : (a b c : String) → same a b ≡ true → same b c ≡ true → same a c ≡ true
same_trans a b c h k = ground arith

alice-is_same : same alice alice ≡ true
unfolding String_discrete
alice-is_same = refl

abbrev parses : String → Bool
parses address = ltb 3 (length (codes address))

abbrev hashed : List ℕ → Option (List ℕ)
hashed password = if ltb 72 (length password) then none else some password

too_long : (p : List ℕ) → (hashed p ≡ none) ↔ (72 < length p)
too_long p = (λ h. ground arith, λ h. ground arith)

abbrev compares : List ℕ → List ℕ → Bool
compares hash password = ite (Bytes_discrete hash password) true false

matches : (p h : List ℕ) → hashed p ≡ some h → compares h p ≡ true
matches p h e = ground arith

abbrev no_users : Users
no_users = record { next_id = 1; rows = [] }

register_iff_example :
    ((user : User) × ((registering same parses hashed compares no_faults alice "correct horse"
          no_users).1
        ≡ inl user))
    ↔ CanRegister same parses hashed compares alice "correct horse" no_users
register_iff_example =
    register_iff same parses hashed compares too_long alice "correct horse" no_users

abbrev alice_row : User
alice_row = record {
  id = pos 1;
  email = alice;
  password_hash = codes "correct horse";
  role = "user";
}

abbrev one_user : Users
one_user = (registering same parses hashed compares no_faults alice "correct horse" no_users).0

alice_registered :
    (registering same parses hashed compares no_faults alice "correct horse" no_users).1
    ≡ inl alice_row
unfolding register validate_email validate_password get_by_email create_user create is_taken bytes
    String_discrete
alice_registered = refl

abbrev others : List (DbFaults × String × String)
others =
    (no_faults, "bob@example.org", "battery staple")
    ∷ ((record { select = true; insert = false }, alice, "hunter2hunter2") ∷ [])

register-login_example :
    (logging_in same parses hashed compares false alice "wrong horse"
        (after_registrations same parses hashed compares others one_user)
      ≡ (if compares alice_row.password_hash (bytes "wrong horse")
          then inl alice_row
          else inr invalid_credentials))
    × (compares alice_row.password_hash (bytes "correct horse") ≡ true)
register-login_example =
    register-login same parses hashed compares same_sym same_trans matches no_faults alice
      "correct horse" no_users alice_row others alice "wrong horse" alice_registered alice-is_same

-- A ticket for alice at time 5, and the handshake that redeems it.
abbrev pub secret : List ℕ
secret = codes "secret"

abbrev signed : MapClaims
signed = record { user_id = pos 1; role = "user"; exp = 86500 }

abbrev token : List ℕ
token = signed_token signed secret

generated : generate_token tokens secret 100 (pos 1) "user" ≡ some token
unfolding generate_token
generated = sign_lem signed secret

abbrev claims : Claims
claims = record { user_id = pos 1; role = "user" }

abbrev bearer : List ℕ
bearer = codes "Bearer " ++ token

accepted : authenticate tokens secret 200 bearer ≡ inl claims
accepted =
    authenticate_bearer tokens secret 200 token
    ∙ validate-generate tokens secret tokens-IsLawful 100 200 (pos 1) "user" token generated
        (omega arith) (omega arith)

authenticate_verified_example :
    (t : List ℕ) × (bearer ≡ codes "Bearer " ++ t)
    × (validate_token tokens secret 200 t ≡ inl claims)
    × (tokens.verifies hmac secret t ≡ true)
authenticate_verified_example =
    authenticate_verified tokens secret tokens-IsLawful 200 bearer claims accepted

abbrev pub token_text : String
token_text = text_of token

token_text-token : codes token_text ≡ token
token_text-token = codes-text_of token (omega arith)

-- The gateway makes that token for alice alone.
abbrev mint : ℤ → String → Option String
mint u role =
    ite (ℤ_discrete u (pos 1)) (ite (String_discrete role "user") (some token_text) none) none

mint_only :
    (u : ℤ) (role t : String)
    → mint u role ≡ some t
    → (u ≡ pos 1) × (role ≡ "user") × (token_text ≡ t)
mint_only u role t h = ground arith

minted :
    (u : ℤ) (role t : String)
    → mint u role ≡ some t
    → generate_token tokens secret 100 u role ≡ some (codes t)
minted u role t h =
    let (one, user, text) = mint_only u role t h in
    ap (λ z. generate_token tokens secret 100 z role) one
    ∙ ap (generate_token tokens secret 100 (pos 1)) user
    ∙ generated
    ∙ ap some (sym token_text-token ∙ ap codes text)

abbrev sent : Request
sent = record {
  path = "/ws";
  query = ("room", "general") ∷ [];
  headers = ("Authorization", "Bearer " ⊕ token_text) ∷ [];
}

known : gateway_authenticate tokens secret 200 bearer ≡ inl claims
known = (gateway_authenticate_iff tokens secret tokens-IsLawful 200 bearer claims).1 accepted

post_alice :
    post_ticket (some claims) new_ticket_service (some (0xab ∷ [])) 5
    ≡ (one_ticket, created (query_get "ticket" handshake.query) 30)
unfolding post_ticket issue new_ticket_service encode_to_string Maps.put query_get Maps.get
    String_discrete
post_alice = refl

-- Before the handshake there is a sweep, and another ticket is issued and tried.
abbrev between : List Event
between = reaped 6 ∷ issued (some (0xcd ∷ [])) 7 (pos 2) "user" ∷ redeemed "cd" 8 ∷ []

same_ticket_never : issues (query_get "ticket" handshake.query) between ≡ 0
unfolding query_get Maps.get encode_to_string String_discrete
same_ticket_never = refl

sent_later : (ws_ticket mint (after_events one_ticket between) 9 handshake).1 ≡ forward sent
unfolding after_events OneShot.step issue redeem reap_once reap ws_ticket query_get query_del
    header_set Maps.get Maps.put Maps.delete String_discrete encode_to_string ℤ_discrete
sent_later = refl

nothing_before : after_events new_ticket_service [] ≡ new_ticket_service
unfolding after_events
nothing_before = refl

ticket_journey_example :
    (given : String) × (header "Authorization" sent ≡ some given)
    × (authenticate tokens secret 300 (codes given) ≡ gateway_authenticate tokens secret 200 bearer)
ticket_journey_example =
    ticket_journey tokens secret tokens-IsLawful mint bearer claims [] between one_ticket
      (some (0xab ∷ [])) 200 5 9 100 300 30 handshake sent known (omega arith)
      (subst
        (λ s.
          post_ticket (some claims) s (some (0xab ∷ [])) 5
          ≡ (one_ticket, created (query_get "ticket" handshake.query) 30))
        (sym nothing_before) post_alice)
      same_ticket_never minted sent_later (omega arith)
