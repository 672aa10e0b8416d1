-- ===== src/Chat/Hub/Rooms.antt =====
-- The reaper removes the empty rooms and no other; a snapshot lists each connected user once.
use realtime_chat_platform.Prelude.Maps
use realtime_chat_platform.Prelude.{
  ite, ℕ, ◌+◌, ◌≡◌, refl, String, String_discrete, ℤ, false, ◌&&◌, not, none, some, List, [], ◌∷◌,
  ◌++◌, if◌then◌else◌, ◌==◌, All, length, arith,
}
use realtime_chat_platform.Chat.Domain.{SendChannel, Client}
use realtime_chat_platform.Chat.Room.{
  Room, new_room, seen_user, user_ids_from, user_ids, client_count,
}
use realtime_chat_platform.Chat.Room.Presence.{connected}
use realtime_chat_platform.Chat.Hub.{Hub, get_or_create_room, reap, reap_empty_rooms}

abbrev pub IsWellFormed : Hub → Type 0
IsWellFormed h = Maps.Distinct String_discrete h.rooms

abbrev pub AllEmpty : List Room → Type 0
AllEmpty = All (λ r. client_count r ≡ 0)

get-reap :
    (name : String) (m : List (String × Room))
    → Maps.Distinct String_discrete m
    → Maps.get String_discrete name (reap m).0 ≡ elim (Maps.get String_discrete name m) [
      | none ↦ none
      | some room ↦ if client_count room == 0 then none else some room
    ]
unfolding Maps.get reap
get-reap name [] d = refl
get-reap name ((n, room) ∷ m) d = ground (arith, get-reap name m d.1)

reap_gone : (m : List (String × Room)) → AllEmpty (reap m).1
unfolding reap
reap_gone [] = tt
reap_gone ((n, room) ∷ m) = ground (arith, reap_gone m)

reap_count : (m : List (String × Room)) → length (reap m).0 + length (reap m).1 ≡ length m
unfolding reap
reap_count [] = refl
reap_count ((n, room) ∷ m) = ground (arith, reap_count m)

-- In a hub without repeated names, after a scan a name is found exactly if its room had clients,
-- and then with the room as it was; every room that the scan stops is empty, and no room is lost:
-- each stays or is stopped.
pub reap_empty_rooms_lem :
    (h : Hub) (name : String)
    → IsWellFormed h
    → (Maps.get String_discrete name (reap_empty_rooms h).rooms
        ≡ elim (Maps.get String_discrete name h.rooms) [
          | none ↦ none
          | some room ↦ if client_count room == 0 then none else some room
        ])
      × (gone : List Room) × ((reap_empty_rooms h).stopped ≡ gone ++ h.stopped)
      × AllEmpty gone
      × (length (reap_empty_rooms h).rooms + length gone ≡ length h.rooms)
unfolding reap_empty_rooms
reap_empty_rooms_lem h name d =
    (get-reap name h.rooms d, (reap h.rooms).1, refl, reap_gone h.rooms, reap_count h.rooms)

-- A second caller gets the room that the first one got or made, which is from then on the one under
-- its name, and other names are untouched.
get_or_create_room_lem :
    (channels : ℕ → SendChannel) (h : Hub) (name other : String)
    → (get_or_create_room channels (get_or_create_room channels h name).0 name
        ≡ get_or_create_room channels h name)
      × (Maps.get String_discrete other (get_or_create_room channels h name).0.rooms
          ≡ ite
              (String_discrete other name)
              (some (get_or_create_room channels h name).1)
              (Maps.get String_discrete other h.rooms))
unfolding get_or_create_room
get_or_create_room_lem channels h name other = ground (
  arith,
  Maps.get-put_self String_discrete name (new_room name channels) h.rooms,
  Maps.get-put String_discrete other name (new_room name channels) h.rooms,
)

-- Each user once.
abbrev pub NoRepeat : List ℤ → Type 0
NoRepeat [] = Unit
NoRepeat (u ∷ us) = (seen_user u us ≡ false) × NoRepeat us

user_ids_from_seen :
    (u : ℤ) (seen : List ℤ) (cs : List Client)
    → seen_user u (user_ids_from seen cs) ≡ (connected u cs && not (seen_user u seen))
unfolding seen_user user_ids_from
user_ids_from_seen u seen [] = refl
user_ids_from_seen u seen (c ∷ cs) =
    ground (arith, user_ids_from_seen u seen cs, user_ids_from_seen u (c.user_id ∷ seen) cs)

user_ids_from-NoRepeat : (seen : List ℤ) (cs : List Client) → NoRepeat (user_ids_from seen cs)
unfolding user_ids_from seen_user
user_ids_from-NoRepeat seen [] = tt
user_ids_from-NoRepeat seen (c ∷ cs) = ground (
  arith,
  user_ids_from-NoRepeat seen cs,
  user_ids_from-NoRepeat (c.user_id ∷ seen) cs,
  user_ids_from_seen c.user_id (c.user_id ∷ seen) cs,
)

-- The user ids of a room are those of its connections, each once however many sockets a user has.
pub user_ids_lem :
    (r : Room) (u : ℤ) → (seen_user u (user_ids r) ≡ connected u r.clients) × NoRepeat (user_ids r)
unfolding user_ids seen_user
user_ids_lem r u =
    (ground (arith, user_ids_from_seen u [] r.clients), user_ids_from-NoRepeat [] r.clients)
