-- ===== src/Presence/Service.antt =====
-- presence-service/internal/service/presence_service.go with internal/controller/
-- presence_controller.go on it. What the repository keeps of a text are its bytes.
pub mod Names
pub mod Answers
use realtime_chat_platform.Prelude.{
  ℕ, ◌⊎◌, inl, inr, String, String_discrete, ℤ, positive, Bool, true, false, not, ◌&&◌, ◌||◌,
  Option, none, some, List, [], ◌∷◌, ite, if◌then◌else◌, ltb, leb, ◌==◌, codes, bytes, length,
}
use realtime_chat_platform.Presence.Redis.{Redis}
use realtime_chat_platform.Presence.Repository.{
  Exec, RoomCount, RepositoryError, set_online, set_offline, refresh, list_online, list_rooms,
}

-- The texts behind `ErrValidation`.
pub data Invalid : Type 0 where
  room_required room_too_long room_characters : Invalid
  instance_id_required instance_id_too_long instance_id_characters : Invalid
  user_id_not_positive unknown_status : Invalid

pub data ServiceError : Type 0 where
  validation : Invalid → ServiceError
  repository : ServiceError

pub record PresenceEvent : Type 0 where
  pub user_id : ℤ
  pub room : String
  pub status : String
  pub instance_id : String

pub record RoomPresence : Type 0 where
  pub room : String
  pub users : List ℤ
  pub count : ℕ

pub record RoomSummary : Type 0 where
  pub name : List ℕ
  pub count : ℕ

abbrev pub max_room_name_length : ℕ
max_room_name_length = 64

abbrev pub max_instance_id_length : ℕ
max_instance_id_length = 64

unfoldable pub is_allowed : ℕ → Bool → Bool
is_allowed r allow_dot =
    (leb b'a' r && leb r b'z')
    || ((leb b'A' r && leb r b'Z')
        || ((leb b'0' r && leb r b'9')
            || ((r == b'_') || ((r == b'-') || (allow_dot && (r == b'.'))))))

-- The loop of `isSafeIdentifier` over the runes.
unfoldable pub is_safe_identifier : List ℕ → Bool → Bool
unfolding is_allowed
is_safe_identifier [] allow_dot = true
is_safe_identifier (r ∷ rs) allow_dot =
    let rest = is_safe_identifier rs allow_dot in if is_allowed r allow_dot then rest else false

unfoldable pub validate_room : String → Option Invalid
unfolding is_safe_identifier bytes
validate_room room = ite (String_discrete room "") (some room_required) (
    if ltb max_room_name_length (length (bytes room))
    then some room_too_long
    else if is_safe_identifier (codes room) false
    then none
    else some room_characters)

unfoldable pub validate_instance_id : String → Option Invalid
unfolding is_safe_identifier bytes
validate_instance_id instance_id =
    ite (String_discrete instance_id "") (some instance_id_required) (
      if ltb max_instance_id_length (length (bytes instance_id))
      then some instance_id_too_long
      else if is_safe_identifier (codes instance_id) true
      then none
      else some instance_id_characters)

-- The loop of `Heartbeat` over the ids.
unfoldable pub all_positive : List ℤ → Bool
all_positive [] = true
all_positive (u ∷ us) = let rest = all_positive us in if positive u then rest else false

-- A call of the repository that was made, with its error.
unfoldable pub repository_call {ℓ} : {S : Type ℓ} → S × Bool → S × Option ServiceError
repository_call (s, true) = (s, none)
repository_call (s, false) = (s, some repository)

module _ (R : Redis) (ttl : ℕ) where
  -- The `switch` on the status.
  unfoldable pub by_status : Exec → ℕ → PresenceEvent → R.State → R.State × Option ServiceError
  unfolding repository_call bytes
  by_status x now event s =
      let (on, on_fine) =
        set_online R ttl x now (bytes event.room) event.user_id (bytes event.instance_id) s in
      let (off, off_fine) =
        set_offline R ttl x now (bytes event.room) event.user_id (bytes event.instance_id) s in
      ite (String_discrete event.status "online") (repository_call (on, on_fine)) (
        ite (String_discrete event.status "offline") (repository_call (off, off_fine))
          (s, some (validation unknown_status)))

  unfoldable pub record_event : Exec → ℕ → PresenceEvent → R.State → R.State × Option ServiceError
  unfolding validate_room validate_instance_id by_status
  record_event x now event s = elim (validate_room event.room) [
    | some e ↦ (s, some (validation e))
    | none ↦ elim (validate_instance_id event.instance_id) [
      | some e ↦ (s, some (validation e))
      | none ↦
          if not (positive event.user_id)
          then (s, some (validation user_id_not_positive))
          else by_status x now event s
    ]
  ]

  unfoldable pub heartbeat :
      Exec → ℕ → String → String → List ℤ → R.State → R.State × Option ServiceError
  unfolding validate_room validate_instance_id all_positive repository_call bytes
  heartbeat x now room instance_id user_ids s = elim (validate_room room) [
    | some e ↦ (s, some (validation e))
    | none ↦ elim (validate_instance_id instance_id) [
      | some e ↦ (s, some (validation e))
      | none ↦
          if not (all_positive user_ids)
          then (s, some (validation user_id_not_positive))
          else repository_call (refresh R ttl x now (bytes room) (bytes instance_id) user_ids s)
    ]
  ]

  unfoldable pub get_room : Exec → ℕ → String → R.State → R.State × (RoomPresence ⊎ ServiceError)
  unfolding validate_room bytes
  get_room x now room s = elim (validate_room room) [
    | some e ↦ (s, inr (validation e))
    | none ↦
        let (after, online) = list_online R ttl x now (bytes room) s in
        elim online [
          | inr e ↦ (after, inr repository)
          | inl user_ids ↦
              (after, inl (record { room = room; users = user_ids; count = length user_ids }))
        ]
  ]

  unfoldable pub summaries_of : List RoomCount → List RoomSummary
  summaries_of [] = []
  summaries_of (room ∷ rooms) = record { name = room.name; count = room.count } ∷ summaries_of rooms

  unfoldable pub summaries : Exec → Exec → ℕ → R.State → R.State × (List RoomSummary ⊎ ServiceError)
  unfolding summaries_of
  summaries x second now s =
      let (after, rooms) = list_rooms R ttl x second now s in
      elim rooms [
        | inr e ↦ (after, inr repository)
        | inl counts ↦ (after, inl (summaries_of counts))
      ]

-- A handler's answer: its status, and an error text or not.
pub data Answer : Type 0 where
  message : ℕ → Answer
  invalid_request_body : Answer
  invalid : Invalid → Answer
  failed : Answer

abbrev pub status_of : Answer → ℕ
status_of (message status) = status
status_of invalid_request_body = 400
status_of (invalid e) = 400
status_of failed = 500

-- `respondError`.
unfoldable pub respond_error : ServiceError → Answer
respond_error (validation e) = invalid e
respond_error repository = failed

unfoldable pub answer_of : Option ServiceError → Answer
unfolding respond_error
answer_of none = message 202
answer_of (some e) = respond_error e

module _ (R : Redis) (ttl : ℕ) where
  -- `POST /events`; what the body binds to is an argument.
  unfoldable pub post_event : Exec → ℕ → Option PresenceEvent → R.State → R.State × Answer
  unfolding record_event answer_of
  post_event x now none s = (s, invalid_request_body)
  post_event x now (some event) s =
      let (after, err) = record_event R ttl x now event s in (after, answer_of err)

  -- `POST /heartbeat`.
  unfoldable pub post_heartbeat :
      Exec → ℕ → Option (String × String × List ℤ) → R.State → R.State × Answer
  unfolding heartbeat answer_of
  post_heartbeat x now none s = (s, invalid_request_body)
  post_heartbeat x now (some (room, instance_id, user_ids)) s =
      let (after, err) = heartbeat R ttl x now room instance_id user_ids s in (after, answer_of err)

  -- `GET /presence/:room`.
  unfoldable pub get_presence : Exec → ℕ → String → R.State → R.State × (RoomPresence ⊎ Answer)
  unfolding get_room respond_error
  get_presence x now room s =
      let (after, found) = get_room R ttl x now room s in
      elim found [ inl presence ↦ (after, inl presence) | inr e ↦ (after, inr (respond_error e)) ]

  -- `GET /rooms`.
  unfoldable pub get_rooms : Exec → Exec → ℕ → R.State → R.State × (List RoomSummary ⊎ Answer)
  unfolding summaries respond_error
  get_rooms x second now s =
      let (after, found) = summaries R ttl x second now s in
      elim found [ inl rooms ↦ (after, inl rooms) | inr e ↦ (after, inr (respond_error e)) ]
