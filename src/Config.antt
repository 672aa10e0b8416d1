-- ===== src/Config.antt =====
-- What the five config/config.go have in common: how a service reads its environment, which is a
-- function. Where the copies differ there is a definition for each. `log.Fatalf` is `none`.
pub mod Services
pub mod Startup
use Prim.Native.Char.{code}
use realtime_chat_platform.Prelude.{
  ℕ, String, String_discrete, ℤ, positive, Bool, true, false, ◌&&◌, ◌||◌, Option, none, some, List,
  [], ◌∷◌, ite, if◌then◌else◌, leb, ◌==◌, codes,
}
use realtime_chat_platform.Prelude.Decimal.{parse_int}

-- `os.LookupEnv`.
abbrev pub Env : Type 0
Env = String → Option String

unfoldable pub get_env : Env → String → String → String
get_env env key fallback = elim (env key) [ some value ↦ value | none ↦ fallback ]

unfoldable pub require_env : Env → String → Option String
require_env env key = elim (env key) [
  | none ↦ none
  | some value ↦ ite (String_discrete value "") none (some value)
]

-- `getEnvInt` of the chat and the presence service.
unfoldable pub get_env_int : Env → String → ℤ → ℤ
get_env_int env key fallback = elim (env key) [
  | none ↦ fallback
  | some value ↦ elim (parse_int (codes value)) [ none ↦ fallback | some parsed ↦ parsed ]
]

-- `getEnvInt` of the gateway and the notification service, `getEnvInt64` of the media service.
unfoldable pub get_positive_env_int : Env → String → ℤ → ℤ
get_positive_env_int env key fallback = elim (env key) [
  | none ↦ fallback
  | some value ↦ elim (parse_int (codes value)) [
    | none ↦ fallback
    | some parsed ↦ if positive parsed then parsed else fallback
  ]
]

-- `unicode.IsSpace`.
unfoldable pub is_space : ℕ → Bool
is_space r =
    (leb 0x9 r && leb r 0xd)
    || ((r == 0x20)
        || ((r == 0x85)
            || ((r == 0xa0)
                || ((r == 0x1680)
                    || ((leb 0x2000 r && leb r 0x200a)
                        || ((r == 0x2028)
                            || ((r == 0x2029)
                                || ((r == 0x202f) || ((r == 0x205f) || (r == 0x3000))))))))))

-- `strings.TrimSpace`.
unfoldable pub trim_left : String → String
unfolding is_space
trim_left String.[] = ""
trim_left (String.◌∷◌ c s) =
    let rest = trim_left s in if is_space (code c) then rest else String.◌∷◌ c s

abbrev pub keep_unless : Bool → String → String → String
keep_unless space text String.[] = if space then "" else text
keep_unless space text (String.◌∷◌ d s) = text

unfoldable pub trim_right : String → String
unfolding is_space
trim_right String.[] = ""
trim_right (String.◌∷◌ c s) =
    let rest = trim_right s in keep_unless (is_space (code c)) (String.◌∷◌ c rest) rest

unfoldable pub trim_space : String → String
unfolding trim_left trim_right
trim_space s = trim_right (trim_left s)

abbrev pub in_first : (String → String) → List String → List String
in_first f [] = []
in_first f (part ∷ parts) = f part ∷ parts

-- `strings.SplitSeq(value, ",")`.
unfoldable pub split_commas : String → List String
split_commas String.[] = "" ∷ []
split_commas (String.◌∷◌ c s) =
    let rest = split_commas s in if code c == b',' then "" ∷ rest else in_first (String.◌∷◌ c) rest

-- The loop of `getEnvList`.
unfoldable pub trimmed_parts : List String → List String
unfolding trim_space
trimmed_parts [] = []
trimmed_parts (part ∷ parts) =
    let rest = trimmed_parts parts in
    let trimmed = trim_space part in ite (String_discrete trimmed "") rest (trimmed ∷ rest)

unfoldable pub get_env_list : Env → String → List String → List String
unfolding split_commas trimmed_parts
get_env_list env key fallback = elim (env key) [
  | none ↦ fallback
  | some value ↦ trimmed_parts (split_commas value)
]
