-- ===== src/Config/Startup.antt =====
-- When a chat instance starts, in the words of the service that has to take its name.
use realtime_chat_platform.Prelude.{
  ℕ, ◌≡◌, ◌≢◌, ◌↔◌, refl, String, String_discrete, true, none, some, List, [], ◌∷◌, if_neg, codes,
  arith, Bool-cases, Option-cases, inl, inr,
}
use realtime_chat_platform.Config.{Env, require_env}
use realtime_chat_platform.Config.Services.{
  ChatConfig, all_instance_runes, valid_instance_id, instance_id_of, chat_config, load_chat,
}
use realtime_chat_platform.Presence.Service.{is_allowed, is_safe_identifier, validate_instance_id}

all_instance_runes_lem : (rs : List ℕ) → all_instance_runes rs ≡ is_safe_identifier rs true
unfolding all_instance_runes is_safe_identifier is_allowed
all_instance_runes_lem [] = refl
all_instance_runes_lem (r ∷ rs) = ground (arith, all_instance_runes_lem rs)

-- A chat instance takes the same names for its own as the presence service.
valid_instance_id_iff :
    (id : String) → (valid_instance_id id ≡ true) ↔ (validate_instance_id id ≡ none)
unfolding valid_instance_id validate_instance_id
valid_instance_id_iff id =
    let same = all_instance_runes_lem (codes id) in
    (λ h. ground (arith, same), λ h. ground (arith, same))

-- A variable that is set, and not to the empty text.
abbrev pub IsGiven : Env → String → Type 0
IsGiven env key = (value : String) × (env key ≡ some value) × (value ≢ "")

require_env-IsGiven :
    (env : Env) (key value : String) → require_env env key ≡ some value → IsGiven env key
unfolding require_env
require_env-IsGiven env key value h = elim (Option-cases (env key)) [
  | inl missing ↦ absurd (ground arith)
  | inr (v, there) ↦ (v, there, ground (arith, there, h))
]

IsGiven-require_env :
    (env : Env) (key : String)
    → IsGiven env key
    → (value : String) × (require_env env key ≡ some value)
unfolding require_env
IsGiven-require_env env key (value, there, given) =
    (value, rw (there, require_env) (if_neg (String_discrete value "") given _ _))

-- What a chat instance needs to start: a name for itself that the presence service takes for valid,
-- and its three secrets.
pub record CanStart (env : Env) : Type 0 where
  pub name : validate_instance_id (instance_id_of env) ≡ none
  pub jwt_secret : IsGiven env "JWT_SECRET"
  pub presence_api_key : IsGiven env "PRESENCE_API_KEY"
  pub notification_api_key : IsGiven env "NOTIFICATION_API_KEY"

named : (env : Env) (j p n : String) → (chat_config env j p n).instance_id ≡ instance_id_of env
unfolding chat_config
named env j p n = refl

-- What is found on the way to a configuration.
starts : (env : Env) (c : ChatConfig) → load_chat env ≡ some c → CanStart env
unfolding load_chat
starts env c h = elim (Bool-cases (valid_instance_id (instance_id_of env))) [
  | inr odd ↦ absurd (ground (arith, odd))
  | inl fine ↦ elim (Option-cases (require_env env "JWT_SECRET")) [
    | inl e ↦ absurd (ground (arith, fine, e))
    | inr (j, jwt) ↦ elim (Option-cases (require_env env "PRESENCE_API_KEY")) [
      | inl e ↦ absurd (ground (arith, fine, jwt, e))
      | inr (p, presence) ↦ elim (Option-cases (require_env env "NOTIFICATION_API_KEY")) [
        | inl e ↦ absurd (ground (arith, fine, jwt, presence, e))
        | inr (n, notification) ↦ (record {
          name = (valid_instance_id_iff (instance_id_of env)).0 fine;
          jwt_secret = require_env-IsGiven env "JWT_SECRET" j jwt;
          presence_api_key = require_env-IsGiven env "PRESENCE_API_KEY" p presence;
          notification_api_key = require_env-IsGiven env "NOTIFICATION_API_KEY" n notification;
        })
      ]
    ]
  ]
]

started :
    (env : Env)
    → CanStart env
    → (c : ChatConfig) × (load_chat env ≡ some c) × (c.instance_id ≡ instance_id_of env)
unfolding load_chat
started env start =
    let (j, jwt) = IsGiven-require_env env "JWT_SECRET" start.jwt_secret in
    let (p, presence) = IsGiven-require_env env "PRESENCE_API_KEY" start.presence_api_key in
    let (n, notification) =
      IsGiven-require_env env "NOTIFICATION_API_KEY" start.notification_api_key in
    let fine = (valid_instance_id_iff (instance_id_of env)).1 start.name in
    (chat_config env j p n, ground (arith, fine, jwt, presence, notification), named env j p n)

-- A chat instance gets through `LoadConfig` exactly with a name that the presence service takes for
-- valid, be it its default, and with its three secrets set and not empty; it has that name then.
pub load_chat_iff :
    (env : Env)
    → ((c : ChatConfig) × (load_chat env ≡ some c) × (c.instance_id ≡ instance_id_of env))
      ↔ CanStart env
load_chat_iff env = (λ (c, loaded, named). starts env c loaded, λ start. started env start)
