-- ===== src/Tokens/Identity.antt =====
-- What a checked token says: the identity that was signed, and nothing that was not.
use Prim.Native.String.{◌++◌ as ◌⊕◌}
use Prim.Native.Char.{code}
use text.Mathlib.TextLemmas.{nil-append, cons-append}
use realtime_chat_platform.Prelude.{
  ℕ, ◌+◌, ◌<◌, ◌≡◌, ◌≢◌, ◌↔◌, inl, inr, refl, sym, ap, ◌∙◌, ℤ, String, true, false, Option, some,
  List, [], ◌∷◌, ◌++◌, codes, length, drop, arith, Option-cases, Bool-cases,
}
use realtime_chat_platform.Prelude.Lists.{drop-append}
use realtime_chat_platform.Gateway.Http.{Request, forward, header, query_get}
use realtime_chat_platform.Gateway.Tickets.{TicketService, redeem}
use realtime_chat_platform.Gateway.Tickets.Middleware.{ws_ticket, ws_ticket_forward}
use realtime_chat_platform.Tokens.{
  Method, hmac, other_method, Jwt, IsLawful, IsExact, Claims, key_of, has_prefix, trim_prefix,
  role_of, token_lifetime, generate_token, user_claims, checked, validate_token, authenticate,
  gateway_authenticate,
}

has_prefix-append : (p l : List ℕ) → has_prefix p (p ++ l) ≡ true
unfolding has_prefix
has_prefix-append [] l = refl
has_prefix-append (c ∷ p) l = ground (arith, has_prefix-append p l)

trim_prefix-append : (p l : List ℕ) → trim_prefix p (p ++ l) ≡ l
unfolding trim_prefix
trim_prefix-append p l = rw (has_prefix-append p l) (drop-append p l)

untrimmed : (p l : List ℕ) → has_prefix p l ≡ false → trim_prefix p l ≡ l
unfolding trim_prefix
untrimmed p l h = rw h

prefix_split : (p l : List ℕ) → has_prefix p l ≡ true → l ≡ p ++ drop (length p) l
unfolding has_prefix
prefix_split [] l h = refl
prefix_split (c ∷ p) [] h = cc
prefix_split (c ∷ p) (d ∷ l) h =
    let rest = prefix_split p l (ground arith) in
    let first : d ≡ c = ground arith in (λ i. first i ∷ rest i)

codes-append : (s t : String) → codes (s ⊕ t) ≡ codes s ++ codes t
codes-append String.[] t = ap codes (nil-append t)
codes-append (String.◌∷◌ c s) t =
    ap codes (cons-append c s t) ∙ ap (λ l. code c ∷ l) (codes-append s t)

codes_bearer : (token : String) → codes ("Bearer " ⊕ token) ≡ codes "Bearer " ++ codes token
codes_bearer token = codes-append "Bearer " token

-- A bearer header is not the token alone.
bearer_ne_token : (token : List ℕ) → token ≢ codes "Bearer " ++ token
bearer_ne_token token e = (let n = ap length e in absurd (omega arith))

module _ (J : Jwt) (secret : List ℕ) where
  pub authenticate_bearer :
      (now : ℕ) (token : List ℕ)
      → authenticate J secret now (codes "Bearer " ++ token) ≡ validate_token J secret now token
  unfolding authenticate
  authenticate_bearer now token =
      ground (arith, trim_prefix-append (codes "Bearer ") token, bearer_ne_token token)

  module _ (lawful : IsLawful J) where
    pub validate-generate :
        (signed now : ℕ) (user_id : ℤ) (role : String) (token : List ℕ)
        → generate_token J secret signed user_id role ≡ some token
        → IsExact user_id
        → now < signed + token_lifetime J secret
        → validate_token J secret now token ≡ inl (record { user_id = user_id; role = role })
    unfolding generate_token validate_token checked user_claims role_of key_of
    validate-generate signed now user_id role token done exact early =
        ap (checked J secret) (
          lawful.parse-sign
            (record { user_id = user_id; role = role; exp = signed + token_lifetime J secret })
            secret token (key_of secret) now done refl early)
        ∙ ap (λ z. inl (record { user_id = z; role = role })) (lawful.to_int-from_int user_id exact)

    only_hmac :
        (token : List ℕ) (m : Method) (k : List ℕ)
        → key_of secret m ≡ some k
        → J.verifies m k token ≡ true
        → J.verifies hmac secret token ≡ true
    unfolding key_of
    only_hmac token hmac k given ok = (let same : secret ≡ k = cc in rw same ok)
    only_hmac token other_method k given ok = absurd (cc)

    checked_verified :
        (now : ℕ) (token : List ℕ) (claims : Claims)
        → validate_token J secret now token ≡ inl claims
        → J.verifies hmac secret token ≡ true
    unfolding validate_token checked user_claims
    checked_verified now token claims h = elim (Option-cases (J.parse (key_of secret) now token)) [
      | inl none_parsed ↦ absurd (ground (arith, none_parsed))
      | inr (t, parsed) ↦
          (let valid : t.valid ≡ true = ground (arith, parsed, h) in
            let (m, k, given, ok) =
              lawful.parse_verified token (key_of secret) now t parsed valid in
            only_hmac token m k given ok)
    ]

    -- Whom a service behind the gateway takes a request for has sent a bearer token with an HMAC
    -- signature by the secret that the services share, whatever method the token names.
    pub authenticate_verified :
        (now : ℕ) (sent : List ℕ) (claims : Claims)
        → authenticate J secret now sent ≡ inl claims
        → (token : List ℕ) × (sent ≡ codes "Bearer " ++ token)
          × (validate_token J secret now token ≡ inl claims)
          × (J.verifies hmac secret token ≡ true)
    unfolding authenticate
    authenticate_verified now sent claims h =
        elim (Bool-cases (has_prefix (codes "Bearer ") sent)) [
          | inl there ↦
              (let token = drop 7 sent in
                let split = prefix_split (codes "Bearer ") sent there in
                let valid : validate_token J secret now token ≡ inl claims =
                  sym (authenticate_bearer now token)
                  ∙ ap (authenticate J secret now) (sym split)
                  ∙ h in
                (token, split, valid, checked_verified now token claims valid))
          | inr bare ↦ absurd (ground (arith, untrimmed (codes "Bearer ") sent bare, h))
        ]

    -- The gateway and the services behind it take a request for the same user, or none of them
    -- takes it for any: the copies of the check differ in their error texts alone.
    pub gateway_authenticate_iff :
        (now : ℕ) (sent : List ℕ) (claims : Claims)
        → (gateway_authenticate J secret now sent ≡ inl claims)
          ↔ (authenticate J secret now sent ≡ inl claims)
    unfolding authenticate gateway_authenticate validate_token
    gateway_authenticate_iff now sent claims = (λ h. ground arith, λ h. ground arith)

    -- A handshake that the gateway forwards is taken by a chat instance, for a day, for the user
    -- and the role for which its ticket was redeemed. Both have the same secret, and the user's id
    -- is one that a float64 has.
    pub ticket_identity :
        (mint : ℤ → String → Option String) (s : TicketService) (now signed later : ℕ)
        (r r' : Request)
        → ((u : ℤ) (role token : String)
            → mint u role ≡ some token
            → generate_token J secret signed u role ≡ some (codes token))
        → ((u : ℤ) (role : String)
            → (redeem s (query_get "ticket" r.query) now).1 ≡ some (u, role)
            → IsExact u)
        → (ws_ticket mint s now r).1 ≡ forward r'
        → later < signed + token_lifetime J secret
        → (u : ℤ) × (role : String) × (bearer : String) × ((redeem s
              (query_get "ticket" r.query)
              now).1
            ≡ some (u, role))
          × (header "Authorization" r' ≡ some bearer)
          × (authenticate J secret later (codes bearer) ≡ inl (record { user_id = u; role = role }))
    ticket_identity mint s now signed later r r' minted exact forwarded early =
        let (u, role, token, redeemed, made, sent, gone, spent) =
          ws_ticket_forward mint s now now r r' forwarded in
        (
          u,
          role,
          ("Bearer " ⊕ token),
          redeemed,
          sent,
          ap (authenticate J secret later) (codes_bearer token)
              ∙ authenticate_bearer later (codes token)
              ∙ validate-generate signed later u role (codes token) (minted u role token made)
                  (exact u role redeemed) early,
        )
