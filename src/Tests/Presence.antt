-- ===== src/Tests/Presence.antt =====
-- The presence service at concrete inputs, on a Redis in memory.
use realtime_chat_platform.Prelude.{
  ℕ, ◌≡◌, refl, ◌⊎◌, inl, ℤ, pos, none, List, [], ◌∷◌, codes, arith,
}
use realtime_chat_platform.Prelude.Sorting.{IsSorted}
use realtime_chat_platform.Presence.Redis.Memory.{memory, empty, memory-IsLawful}
use realtime_chat_platform.Presence.Repository.{
  executed, unheard, refused, RoomCount, by_name, list_online, list_rooms,
}
use realtime_chat_platform.Presence.History.{
  Entry, online, offline, heartbeat, read_room, run, IsTimely, AllInt64,
}
use realtime_chat_platform.Presence.History.Listing.{Users, list_online_lem}
use realtime_chat_platform.Presence.History.Rooms.{Counted, list_rooms_lem}
use realtime_chat_platform.Presence.Service.{PresenceEvent}
use realtime_chat_platform.Presence.Service.Answers.{Done, Ignored, post_event_lem}

abbrev lobby : List ℕ
lobby = codes "lobby"

abbrev first : List ℕ
first = codes "chat-1"

abbrev second : List ℕ
second = codes "chat-2"

-- The latest first: alice is on two instances, and leaves one of them; bob's last heartbeat is lost.
abbrev history : List Entry
history =
    record { now = 40000; exec = refused; call = heartbeat lobby second (pos 2 ∷ []) }
    ∷ record { now = 30000; exec = executed; call = offline lobby (pos 1) first }
    ∷ record { now = 20000; exec = executed; call = read_room lobby }
    ∷ record { now = 9000; exec = unheard; call = online lobby (pos 1) second }
    ∷ record { now = 2000; exec = executed; call = online lobby (pos 2) second }
    ∷ record { now = 1000; exec = executed; call = online lobby (pos 1) first }
    ∷ []

history-IsTimely : IsTimely history
history-IsTimely = omega arith

history-AllInt64 : AllInt64 history
history-AllInt64 = omega arith

empty-fresh : (k x : List ℕ) → memory.score empty k x ≡ none
unfolding memory empty
empty-fresh k x = refl

list_online_lem_example :
    (ids : List ℤ) × ((list_online memory 60000 executed 65000 lobby
        (memory.elapse 65000 (run memory 60000 empty history))).1
      ≡ inl ids)
    × Users 60000 65000 history lobby ids
list_online_lem_example =
    list_online_lem memory 60000 memory-IsLawful (omega arith) empty history 65000 lobby empty-fresh
      history-IsTimely history-AllInt64 (omega arith)

list_rooms_lem_example :
    (rooms : List RoomCount) × ((list_rooms memory 60000 executed executed 65000
        (memory.elapse 65000 (run memory 60000 empty history))).1
      ≡ inl rooms)
    × IsSorted by_name rooms
    × ((room : List ℕ) → (ids : List ℤ) × Counted 60000 65000 history room rooms ids)
list_rooms_lem_example =
    list_rooms_lem memory 60000 memory-IsLawful (omega arith) empty history 65000 empty-fresh
      history-IsTimely history-AllInt64 (omega arith)

abbrev leaving : PresenceEvent
leaving = record { user_id = pos 1; room = "lobby"; status = "offline"; instance_id = "chat-1" }

post_event_lem_example :
    Done memory 60000 executed 70000 leaving (run memory 60000 empty history)
    ⊎ Ignored memory 60000 executed 70000 leaving (run memory 60000 empty history)
post_event_lem_example =
    post_event_lem memory 60000 executed 70000 leaving (run memory 60000 empty history)
