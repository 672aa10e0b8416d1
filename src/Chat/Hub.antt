-- ===== src/Chat/Hub.antt =====
-- chat-service/internal/ws/hub.go: the rooms of one instance. Each method holds the mutex, so a
-- call is one step; `channels` are the send channels that a new room starts from.
pub mod Rooms
use realtime_chat_platform.Prelude.Maps
use realtime_chat_platform.Prelude.{
  ℕ, String, String_discrete, ℤ, Bool, true, false, Option, none, some, List, [], ◌∷◌, ◌++◌,
  if◌then◌else◌, ◌==◌,
}
use realtime_chat_platform.Chat.Domain.{SendChannel}
use realtime_chat_platform.Chat.Room.{Room, new_room, user_ids, client_count}

pub record Hub : Type 0 where
  pub rooms : List (String × Room)
  -- the rooms whose loop was stopped, newest first
  pub stopped : List Room

unfoldable pub new_hub : Hub
new_hub = record { rooms = []; stopped = [] }

unfoldable pub get_or_create_room : (ℕ → SendChannel) → Hub → String → Hub × Room
get_or_create_room channels h name = elim (Maps.get String_discrete name h.rooms) [
  | some room ↦ (h, room)
  | none ↦
      let room = new_room name channels in
      (record h { rooms = Maps.put String_discrete name room h.rooms }, room)
]

-- The scan of the reaper: the rooms that stay, and those that are removed and shut down.
unfoldable pub reap : List (String × Room) → List (String × Room) × List Room
reap [] = ([], [])
reap ((name, room) ∷ rest) =
    let (stay, gone) = reap rest in
    if client_count room == 0 then (stay, room ∷ gone) else ((name, room) ∷ stay, gone)

unfoldable pub reap_empty_rooms : Hub → Hub
unfolding reap
reap_empty_rooms h =
    let (stay, gone) = reap h.rooms in record { rooms = stay; stopped = gone ++ h.stopped }

pub record RoomSnapshot : Type 0 where
  pub name : String
  pub user_ids : List ℤ

unfoldable pub snapshot_of : List (String × Room) → List RoomSnapshot
snapshot_of [] = []
snapshot_of ((name, room) ∷ rest) =
    record { name = name; user_ids = user_ids room } ∷ snapshot_of rest

unfoldable pub snapshot : Hub → List RoomSnapshot
unfolding snapshot_of
snapshot h = snapshot_of h.rooms

pub record RoomInfo : Type 0 where
  pub name : String
  pub clients : ℕ

unfoldable pub list_rooms_of : List (String × Room) → List RoomInfo
list_rooms_of [] = []
list_rooms_of ((name, room) ∷ rest) =
    record { name = name; clients = client_count room } ∷ list_rooms_of rest

unfoldable pub list_rooms : Hub → List RoomInfo
unfolding list_rooms_of
list_rooms h = list_rooms_of h.rooms
