-- ===== src/Presence/Service/Names.antt =====
-- What the presence service takes for the name of a room or of an instance.
use realtime_chat_platform.Prelude.{
  ℕ, ◌≤◌, ◌≡◌, ◌≢◌, ◌↔◌, inl, inr, refl, String, Bool, true, false, ◌&&◌, leb, ◌==◌, none, List, [],
  ◌∷◌, codes, bytes, length, arith, Bool-cases,
}
use realtime_chat_platform.Prelude.Lists.{All}
use realtime_chat_platform.Presence.Service.{
  is_allowed, is_safe_identifier, validate_room, validate_instance_id,
}

-- A rune of a safe identifier; a dot is one where dots are allowed.
pub data IsSafeRune (allow_dot : Bool) (r : ℕ) : Type 0 where
  lower : b'a' ≤ r → r ≤ b'z' → IsSafeRune allow_dot r
  upper : b'A' ≤ r → r ≤ b'Z' → IsSafeRune allow_dot r
  digit : b'0' ≤ r → r ≤ b'9' → IsSafeRune allow_dot r
  underscore : r ≡ b'_' → IsSafeRune allow_dot r
  hyphen : r ≡ b'-' → IsSafeRune allow_dot r
  dot : allow_dot ≡ true → r ≡ b'.' → IsSafeRune allow_dot r

is_allowed-IsSafeRune : (r : ℕ) (dots : Bool) → is_allowed r dots ≡ true → IsSafeRune dots r
unfolding is_allowed
is_allowed-IsSafeRune r dots h = elim (Bool-cases (leb b'a' r && leb r b'z')) [
  | inl l ↦ lower (ground arith) (ground arith)
  | inr not_lower ↦ elim (Bool-cases (leb b'A' r && leb r b'Z')) [
    | inl u ↦ upper (ground arith) (ground arith)
    | inr not_upper ↦ elim (Bool-cases (leb b'0' r && leb r b'9')) [
      | inl d ↦ digit (ground arith) (ground arith)
      | inr not_digit ↦ elim (Bool-cases (r == b'_')) [
        | inl e ↦ underscore (ground arith)
        | inr other ↦ elim (Bool-cases (r == b'-')) [
          | inl e ↦ hyphen (ground arith)
          | inr left ↦ dot (ground arith) (ground arith)
        ]
      ]
    ]
  ]
]

IsSafeRune-is_allowed : (r : ℕ) (dots : Bool) → IsSafeRune dots r → is_allowed r dots ≡ true
unfolding is_allowed
IsSafeRune-is_allowed r dots (lower a b) = ground arith
IsSafeRune-is_allowed r dots (upper a b) = ground arith
IsSafeRune-is_allowed r dots (digit a b) = ground arith
IsSafeRune-is_allowed r dots (underscore a) = ground arith
IsSafeRune-is_allowed r dots (hyphen a) = ground arith
IsSafeRune-is_allowed r dots (dot a b) = ground arith

is_safe_identifier-All :
    (rs : List ℕ) (dots : Bool) → is_safe_identifier rs dots ≡ true → All (IsSafeRune dots) rs
unfolding is_safe_identifier
is_safe_identifier-All [] dots h = tt
is_safe_identifier-All (r ∷ rs) dots h = elim (Bool-cases (is_allowed r dots)) [
  | inl fine ↦ (is_allowed-IsSafeRune r dots fine, is_safe_identifier-All rs dots (ground arith))
  | inr odd ↦ absurd (ground arith)
]

All-is_safe_identifier :
    (rs : List ℕ) (dots : Bool) → All (IsSafeRune dots) rs → is_safe_identifier rs dots ≡ true
unfolding is_safe_identifier
All-is_safe_identifier [] dots h = refl
All-is_safe_identifier (r ∷ rs) dots h =
    ground (arith, IsSafeRune-is_allowed r dots h.0, All-is_safe_identifier rs dots h.1)

-- A name of 1 to 64 bytes, spelled with safe runes.
pub record IsName (allow_dot : Bool) (name : String) : Type 0 where
  pub given : name ≢ ""
  pub short : length (bytes name) ≤ 64
  pub spelled : All (IsSafeRune allow_dot) (codes name)

pub validate_room_names : (room : String) → (validate_room room ≡ none) ↔ IsName false room
unfolding validate_room
validate_room_names room = (
  λ h. record {
    given = ground arith;
    short = ground arith;
    spelled = is_safe_identifier-All (codes room) false (ground arith);
  },
  λ v. ground (arith, v.given, v.short, All-is_safe_identifier (codes room) false v.spelled),
)

pub validate_instance_names :
    (instance_id : String) → (validate_instance_id instance_id ≡ none) ↔ IsName true instance_id
unfolding validate_instance_id
validate_instance_names name = (
  λ h. record {
    given = ground arith;
    short = ground arith;
    spelled = is_safe_identifier-All (codes name) true (ground arith);
  },
  λ v. ground (arith, v.given, v.short, All-is_safe_identifier (codes name) true v.spelled),
)
