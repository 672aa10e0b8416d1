-- ===== src/Presence/Repository.antt =====
-- presence-service/internal/repository/presence_repository.go over any Redis. Texts are their
-- bytes, times are milliseconds of one clock, and `ttl` is the repository's.
pub mod Stamps
pub mod Members
pub mod Counts
use realtime_chat_platform.Prelude.{
  ℕ, zero, suc, ◌+◌, ◌*◌, ◌/◌, ◌⊎◌, inl, inr, ℤ, ℤ_discrete, Bool, true, false, Option, none, some,
  List, [], ◌∷◌, ◌++◌, ◌==◌, if◌then◌else◌, codes, length,
}
use realtime_chat_platform.Prelude.Decimal.{format_int, parse_int, cut_before}
use realtime_chat_platform.Prelude.Orders.{le_int, le_bytes}
use realtime_chat_platform.Prelude.Sorting.{listed, sort}
use realtime_chat_platform.Presence.Redis.{Redis}

unfoldable pub member : ℤ → List ℕ → List ℕ
member user_id instance_id = format_int user_id ++ (b':' ∷ instance_id)

unfoldable pub room_key : List ℕ → List ℕ
room_key room = codes "presence:room:" ++ room

abbrev pub rooms_index_key : List ℕ
rooms_index_key = codes "presence:rooms"

pub record RoomCount : Type 0 where
  pub name : List ℕ
  pub count : ℕ

pub data RepositoryError : Type 0 where
  redis_failed malformed_member : RepositoryError

-- What becomes of a transaction: it is done and answered, done without an answer, or not done.
pub data Exec : Type 0 where
  executed unheard refused : Exec

-- The loop of `collapseUsers`; `user_ids` are those appended, which are those seen.
unfoldable pub collect_users : List (List ℕ) → List ℤ → List ℤ ⊎ RepositoryError
collect_users [] user_ids = inl user_ids
collect_users (m ∷ ms) user_ids = elim (parse_int (cut_before b':' m)) [
  | none ↦ inr malformed_member
  | some user_id ↦
      collect_users ms
        (if listed ℤ_discrete user_id user_ids then user_ids else user_ids ++ (user_id ∷ []))
]

unfoldable pub sorted : List ℤ ⊎ RepositoryError → List ℤ ⊎ RepositoryError
sorted (inl user_ids) = inl (sort le_int user_ids)
sorted (inr e) = inr e

unfoldable pub collapse_users : List (List ℕ) → List ℤ ⊎ RepositoryError
unfolding collect_users sorted
collapse_users raw = sorted (collect_users raw [])

-- The loop that counts; a room with a malformed member, or with nobody, is skipped.
unfoldable pub count_rooms : List (List ℕ) → List (List (List ℕ)) → List RoomCount
unfolding collapse_users
count_rooms [] raws = []
count_rooms (room ∷ rooms) [] = []
count_rooms (room ∷ rooms) (raw ∷ raws) =
    let rest = count_rooms rooms raws in
    elim (collapse_users raw) [
      | inr e ↦ rest
      | inl users ↦
          if length users == 0 then rest else record { name = room; count = length users } ∷ rest
    ]

unfoldable pub by_name : RoomCount → RoomCount → Bool
by_name a b = le_bytes a.name b.name

-- `member` of each user.
unfoldable pub members_of : List ℕ → List ℤ → List (List ℕ)
unfolding member
members_of instance_id [] = []
members_of instance_id (u ∷ us) = member u instance_id ∷ members_of instance_id us

module _ (R : Redis) (ttl : ℕ) where
  -- ZADD of several members with one score.
  unfoldable pub zadd_all : List ℕ → ℕ → List (List ℕ) → R.State → R.State
  zadd_all key expiry [] s = s
  zadd_all key expiry (m ∷ ms) s = zadd_all key expiry ms (R.zadd key expiry m s)

  unfoldable pub touch_room_index : ℕ → List ℕ → ℕ → R.State → R.State
  touch_room_index now room expiry s =
      R.expire_in now rooms_index_key (2 * ttl) (R.zadd rooms_index_key expiry room s)

  -- `pipe.Exec`, with the state after the commands; the flag is that there is no error.
  unfoldable pub exec : Exec → R.State → R.State → R.State × Bool
  exec executed s after = (after, true)
  exec unheard s after = (after, false)
  exec refused s after = (s, false)

  unfoldable pub set_online : Exec → ℕ → List ℕ → ℤ → List ℕ → R.State → R.State × Bool
  unfolding exec touch_room_index member room_key
  set_online x now room user_id instance_id s =
      let key = room_key room in
      let expiry = now + ttl in
      let added = R.zadd key expiry (member user_id instance_id) s in
      exec x s (touch_room_index now room expiry (R.expire_in now key (2 * ttl) added))

  -- `offlineScript`.
  unfoldable pub offline_script : ℕ → List ℕ → List ℕ → List ℕ → List ℕ → ℕ → R.State → R.State
  offline_script now key index m room seconds s =
      let removed = R.zrem key m s in
      if R.zcard key removed == 0
      then R.zrem index room removed
      else R.expire now key seconds removed

  unfoldable pub set_offline : Exec → ℕ → List ℕ → ℤ → List ℕ → R.State → R.State × Bool
  unfolding exec offline_script member room_key
  set_offline x now room user_id instance_id s = exec x s (
      offline_script now (room_key room) rooms_index_key (member user_id instance_id) room
        (2 * ttl / 1000) s)

  unfoldable pub refresh : Exec → ℕ → List ℕ → List ℕ → List ℤ → R.State → R.State × Bool
  unfolding exec touch_room_index zadd_all members_of room_key
  refresh x now room instance_id user_ids s =
      let key = room_key room in
      let expiry = now + ttl in
      let added = zadd_all key expiry (members_of instance_id user_ids) s in
      if length user_ids == 0
      then (s, true)
      else exec x s (touch_room_index now room expiry (R.expire_in now key (2 * ttl) added))

  -- The two commands of `pruneAndRead`: the state, and the live members.
  unfoldable pub prune_and_read : List ℕ → ℕ → R.State → R.State × List (List ℕ)
  prune_and_read key now s =
      let pruned = R.zremrangebyscore key now s in (pruned, R.zrangebyscore key now pruned)

  unfoldable pub list_online : Exec → ℕ → List ℕ → R.State → R.State × (List ℤ ⊎ RepositoryError)
  unfolding prune_and_read collapse_users room_key
  list_online executed now room s =
      let (after, raw) = prune_and_read (room_key room) now s in (after, collapse_users raw)
  list_online unheard now room s = ((prune_and_read (room_key room) now s).0, inr redis_failed)
  list_online refused now room s = (s, inr redis_failed)

  -- The second pipeline of `ListRooms`.
  unfoldable pub read_rooms : ℕ → List (List ℕ) → R.State → R.State × List (List (List ℕ))
  unfolding prune_and_read room_key
  read_rooms now [] s = (s, [])
  read_rooms now (room ∷ rooms) s =
      let (after, raw) = prune_and_read (room_key room) now s in
      let (last, raws) = read_rooms now rooms after in (last, raw ∷ raws)

  -- `ListRooms` from the second pipeline on.
  unfoldable pub list_rooms_of :
      Exec → ℕ → List (List ℕ) → R.State → R.State × (List RoomCount ⊎ RepositoryError)
  unfolding read_rooms count_rooms by_name
  list_rooms_of executed now rooms s =
      let (after, raws) = read_rooms now rooms s in
      (after, inl (sort by_name (count_rooms rooms raws)))
  list_rooms_of unheard now rooms s = ((read_rooms now rooms s).0, inr redis_failed)
  list_rooms_of refused now rooms s = (s, inr redis_failed)

  unfoldable pub list_rooms :
      Exec → Exec → ℕ → R.State → R.State × (List RoomCount ⊎ RepositoryError)
  unfolding prune_and_read list_rooms_of
  list_rooms executed second now s =
      let (pruned, rooms) = prune_and_read rooms_index_key now s in
      if length rooms == 0 then (pruned, inl []) else list_rooms_of second now rooms pruned
  list_rooms unheard second now s = ((prune_and_read rooms_index_key now s).0, inr redis_failed)
  list_rooms refused second now s = (s, inr redis_failed)
