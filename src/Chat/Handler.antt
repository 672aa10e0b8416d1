-- ===== src/Chat/Handler.antt =====
-- chat-service/internal/ws/handler.go, with internal/validation/room.go. What the upgrade comes to,
-- and whether the room's loop takes the client within two seconds, are arguments.
pub mod Admission
use realtime_chat_platform.Prelude.{
  ℕ, ◌⊎◌, inl, inr, String, String_discrete, ℤ, Bool, true, false, not, ◌&&◌, ◌||◌, Option, none,
  some, List, [], ◌∷◌, ite, if◌then◌else◌, ltb, leb, ◌==◌, codes, bytes, length,
}
use realtime_chat_platform.Chat.Domain.{SendChannel, Client}
use realtime_chat_platform.Chat.Hub.{Hub, RoomInfo, get_or_create_room, list_rooms}
use realtime_chat_platform.Chat.Room.{Room}
use realtime_chat_platform.Tokens.{Jwt, Claims, TokenError, authenticate}

pub data RoomNameError : Type 0 where
  room_required room_too_long room_characters : RoomNameError

abbrev pub max_room_name_length : ℕ
max_room_name_length = 64

-- The loop of `ValidateRoomName` over the runes.
unfoldable pub all_allowed : List ℕ → Bool
all_allowed [] = true
all_allowed (r ∷ rs) =
    let rest = all_allowed rs in
    let is_allowed =
      (leb b'a' r && leb r b'z')
      || ((leb b'A' r && leb r b'Z')
          || ((leb b'0' r && leb r b'9') || ((r == b'_') || (r == b'-')))) in
    if not is_allowed then false else rest

unfoldable pub validate_room_name : String → Option RoomNameError
unfolding all_allowed bytes
validate_room_name room = ite (String_discrete room "") (some room_required) (
    if ltb max_room_name_length (length (bytes room))
    then some room_too_long
    else if all_allowed (codes room)
    then none
    else some room_characters)

-- `slices.Contains`.
unfoldable pub contains : List String → String → Bool
contains [] origin = false
contains (o ∷ os) origin = let rest = contains os origin in ite (String_discrete o origin) true rest

-- `CheckOrigin`: a request without an origin is no browser's.
unfoldable pub check_origin : List String → String → Bool
unfolding contains
check_origin allowed_origins origin =
    ite (String_discrete origin "") true (contains allowed_origins origin)

-- The handshake; an origin, a header or a room that is not there reads as the empty text.
pub record Handshake : Type 0 where
  pub room : String
  pub authorization : String
  pub origin : String

-- What is left to the world: whether the upgrade goes through once the origin is right, the
-- connection's pointer, and whether the room takes the client in time.
pub record World : Type 0 where
  pub upgrades : Bool
  pub connection : ℕ
  pub taken : Bool

-- How `Serve` ends: an error as JSON, an error of the upgrade, a connection that is closed again
-- because its room is gone, or a client that is registered in a room.
pub data Served : Type 0 where
  refused : ℕ → Served
  not_upgraded : Served
  unavailable : String → Served
  registered : String → Room → Client → Served

-- `roomName` with its default.
abbrev pub room_name : Handshake → String
room_name h = ite (String_discrete h.room "") "general" h.room

module _ (channels : ℕ → SendChannel) where
  -- `Serve` from the upgrade on.
  unfoldable pub connect : World → String → ℤ → Hub → Hub × Served
  unfolding get_or_create_room
  connect world name user_id hub =
      let (after, room) = get_or_create_room channels hub name in
      if world.taken
      then (after, registered name room (record { id = world.connection; user_id = user_id }))
      else (after, unavailable name)

  module _ (J : Jwt) (secret : List ℕ) (allowed_origins : List String) where
    unfoldable pub serve : World → ℕ → Handshake → Hub → Hub × Served
    unfolding validate_room_name authenticate check_origin connect
    serve world now h hub = elim (validate_room_name (room_name h)) [
      | some e ↦ (hub, refused 400)
      | none ↦ elim (authenticate J secret now (codes h.authorization)) [
        | inr e ↦ (hub, refused 401)
        | inl claims ↦
            if check_origin allowed_origins h.origin && world.upgrades
            then connect world (room_name h) claims.user_id hub
            else (hub, not_upgraded)
      ]
    ]

-- `GET /rooms` of one instance.
abbrev pub rooms_answer : Hub → List RoomInfo
rooms_answer hub = list_rooms hub
