-- ===== src/Presence/History/Rooms.antt =====
-- What `ListRooms` answers after a run: the rooms with somebody present, and how many.
use realtime_chat_platform.Prelude.{
  ℕ, ◌≤◌, ◌≡◌, refl, sym, ap, ◌∙◌, subst, true, false, none, List, [], ◌∷◌, ite, if_pos, if_neg,
  if◌then◌else◌, arith, ◌==◌, ℤ, Bool-cases, inl, inr, length,
}
use realtime_chat_platform.Prelude.Orders.{Bytes_discrete}
use realtime_chat_platform.Prelude.Sorting.{
  listed, IsSorted, NoRepeats, sort, sort-IsSorted, listed-sort,
}
use realtime_chat_platform.Presence.Redis.{Redis, IsLawful}
use realtime_chat_platform.Presence.Repository.{
  executed, list_rooms, list_rooms_of, read_rooms, prune_and_read, room_key, rooms_index_key,
  collapse_users, collect_users, sorted, count_rooms, RoomCount, by_name,
}
use realtime_chat_platform.Presence.History.{Entry, run, last_time, IsTimely, AllInt64}
use realtime_chat_platform.Presence.History.Agreement.{Sound, elapse-Sound}
use realtime_chat_platform.Presence.History.Calls.{prune-Sound}
use realtime_chat_platform.Presence.History.Runs.{expiry_at, run-Sound}
use realtime_chat_platform.Presence.History.Listing.{Users, raw_users}
use realtime_chat_platform.Presence.Repository.Counts.{
  RoomCount-discrete, has_count, counts, by_name_total, by_name_trans, count_step,
}

-- The users of a room, and that a listing of rooms has it exactly with their number.
pub record Counted (ttl now : ℕ) (h : List Entry) (room : List ℕ) (rooms : List RoomCount)
    (ids : List ℤ) : Type 0 where
  pub users : Users ttl now h room ids
  pub number : (c : ℕ) → has_count room c rooms ≡ counts c ids

module _ (R : Redis) (ttl : ℕ) (lawful : IsLawful R) (long : 1000 ≤ ttl) where
  open lawful use {listed-zrangebyscore, once-zrangebyscore}

  module _ (now : ℕ) (h : List Entry) (all : AllInt64 h) where
    abbrev IsSound : R.State → Type 0
    IsSound s = Sound R ttl now (expiry_at ttl h) s

    abbrev result_of : List (List ℕ) → R.State → List RoomCount
    result_of rooms s = count_rooms rooms (read_rooms R ttl now rooms s).1

    abbrev pruned : List ℕ → R.State → R.State
    pruned room s = R.zremrangebyscore (room_key room) now s

    pruned-IsSound : (room : List ℕ) (s : R.State) → IsSound s → IsSound (pruned room s)
    pruned-IsSound room s sound =
        prune-Sound R ttl lawful long now (room_key room) s (expiry_at ttl h) sound

    users_at :
        (room : List ℕ) (s : R.State)
        → IsSound s
        → (ids : List ℤ) × (collapse_users (R.zrangebyscore (room_key room) now s) ≡ inl ids)
          × Users ttl now h room ids
    users_at room s sound = raw_users R ttl lawful long now h all s sound room

    result_step :
        (room r : List ℕ) (rs : List (List ℕ)) (s : R.State) (sound : IsSound s) (c : ℕ)
        → has_count room c (result_of (r ∷ rs) s) ≡ (
            if ite
              (Bytes_discrete room r)
              (counts c (users_at r (pruned r s) (pruned-IsSound r s sound)).0)
              false
            then true
            else has_count room c (result_of rs (pruned r s)))
    unfolding read_rooms prune_and_read
    result_step room r rs s sound c =
        let (ids, e, users) = users_at r (pruned r s) (pruned-IsSound r s sound) in
        count_step room r rs (R.zrangebyscore (room_key r) now (pruned r s))
          (read_rooms R ttl now rs (pruned r s)).1 ids c e

    -- A room that is not read is not in the answer.
    unread :
        (room : List ℕ) (c : ℕ) (rooms : List (List ℕ)) (s : R.State)
        → IsSound s
        → listed Bytes_discrete room rooms ≡ false
        → has_count room c (result_of rooms s) ≡ false
    unfolding listed count_rooms
    unread room c [] s sound out = refl
    unread room c (r ∷ rs) s sound out =
        let rest = unread room c rs (pruned r s) (pruned-IsSound r s sound) in
        ground (arith, result_step room r rs s sound c, rest)

    read_once :
        (room : List ℕ) (rooms : List (List ℕ)) (s : R.State)
        → IsSound s
        → NoRepeats Bytes_discrete rooms
        → listed Bytes_discrete room rooms ≡ true
        → (ids : List ℤ) × Counted ttl now h room (result_of rooms s) ids
    unfolding listed
    read_once room [] s sound once there = absurd (cc)
    read_once room (r ∷ rs) s sound once there =
        let after = pruned-IsSound r s sound in
        elim (Bytes_discrete room r) [
          | no n ↦
              (let left = sym (if_neg (Bytes_discrete room r) n true _) ∙ there in
                let (ids, c) = read_once room rs (pruned r s) after once.1 left in
                (
                  ids,
                  record {
                    users = c.users;
                    number = λ k. ground (arith, n, result_step room r rs s sound k, c.number k);
                  },
                ))
          | yes e ↦
              (let (ids, eq, users) = users_at r (pruned r s) after in
                (
                  ids,
                  record {
                    users = subst (λ q. Users ttl now h q ids) (sym e) users;
                    number = λ k.
                        (let others = unread r k rs (pruned r s) after once.0 in
                          subst (λ q. has_count q k (result_of (r ∷ rs) s) ≡ counts k ids) (sym e)
                            (ground (arith, result_step r r rs s sound k, others)));
                  },
                ))
        ]

    -- Somebody who is read has the room in the index.
    read_indexed :
        (room m : List ℕ) (s : R.State)
        → IsSound s
        → listed Bytes_discrete m (R.zrangebyscore (room_key room) now s) ≡ true
        → listed Bytes_discrete room (R.zrangebyscore rooms_index_key now s) ≡ true
    read_indexed room m s sound there =
        let covered = sound.indexed room m in
        ground (
          arith,
          listed-zrangebyscore s (room_key room) now m,
          listed-zrangebyscore s rooms_index_key now room,
          there,
          covered,
        )

    nobody_read :
        (members : List (List ℕ)) (ids : List ℤ)
        → collapse_users members ≡ inl ids
        → ((m : List ℕ) → listed Bytes_discrete m members ≡ true → ⊥)
        → ids ≡ []
    unfolding collapse_users collect_users sorted sort listed
    nobody_read [] ids e none_there = ground arith
    nobody_read (m ∷ ms) ids e none_there =
        absurd (none_there m (if_pos (Bytes_discrete m m) refl true _))

    Counted-of_listed :
        (room : List ℕ) (s : R.State)
        → IsSound s
        → (ids : List ℤ) × Counted ttl now h room
            (result_of (R.zrangebyscore rooms_index_key now s) s)
            ids
    Counted-of_listed room s sound =
        let rooms = R.zrangebyscore rooms_index_key now s in
        elim (Bool-cases (listed Bytes_discrete room rooms)) [
          | inl there ↦
              read_once room rooms s sound (once-zrangebyscore s rooms_index_key now) there
          | inr out ↦
              (let (ids, e, users) = users_at room s sound in
                let empty = nobody_read (R.zrangebyscore (room_key room) now s) ids e (λ m there.
                  (let indexed = read_indexed room m s sound there in
                    let both : true ≡ false = sym indexed ∙ out in cc)) in
                (
                  ids,
                  record {
                    users = users;
                    number = λ c.
                        unread room c rooms s sound out ∙ sym (ap (counts c) empty ∙ ground arith);
                  },
                ))
        ]

  listed_or_empty :
      (now : ℕ) (s : R.State) (rooms : List (List ℕ))
      → (if length rooms == 0 then (s, inl []) else list_rooms_of R ttl executed now rooms s).1
        ≡ inl (sort by_name (count_rooms rooms (read_rooms R ttl now rooms s).1))
  unfolding list_rooms_of sort count_rooms
  listed_or_empty now s [] = refl
  listed_or_empty now s (r ∷ rs) =
      let some_room : (length (r ∷ rs) == 0) ≡ false = ground arith in rw some_room

  list_rooms_result :
      (now : ℕ) (s : R.State)
      → (list_rooms R ttl executed executed now s).1 ≡ (
          let pruned = R.zremrangebyscore rooms_index_key now s in
          let rooms = R.zrangebyscore rooms_index_key now pruned in
          inl (sort by_name (count_rooms rooms (read_rooms R ttl now rooms pruned).1)))
  unfolding list_rooms prune_and_read
  list_rooms_result now s =
      let pruned = R.zremrangebyscore rooms_index_key now s in
      listed_or_empty now pruned (R.zrangebyscore rooms_index_key now pruned)

  -- After any timely run from a fresh Redis, `ListRooms` succeeds if Redis answers both times, its
  -- rooms come in the order of their names, and for every room there are the users who are present
  -- in it, sorted and each once, such that the answer has the room exactly if there is one, and
  -- with their number. The ttl must be a second or more, and ids must be int64 numbers.
  pub list_rooms_lem :
      (s : R.State) (h : List Entry) (now : ℕ)
      → ((k x : List ℕ) → R.score s k x ≡ none)
      → IsTimely h
      → AllInt64 h
      → last_time h ≤ now
      → (rooms : List RoomCount) × ((list_rooms R ttl executed executed now
            (R.elapse now (run R ttl s h))).1
          ≡ inl rooms)
        × IsSorted by_name rooms
        × ((room : List ℕ) → (ids : List ℤ) × Counted ttl now h room rooms ids)
  list_rooms_lem s h now fresh timely all le =
      let before = R.elapse now (run R ttl s h) in
      let sound =
        elapse-Sound R ttl lawful long (last_time h) now (expiry_at ttl h) (run R ttl s h) le
          (run-Sound R ttl lawful long s h fresh timely) in
      let pruned_index = R.zremrangebyscore rooms_index_key now before in
      let kept = prune-Sound R ttl lawful long now rooms_index_key before (expiry_at ttl h) sound in
      let rooms = R.zrangebyscore rooms_index_key now pruned_index in
      let counted = count_rooms rooms (read_rooms R ttl now rooms pruned_index).1 in
      (
        sort by_name counted,
        list_rooms_result now before,
        sort-IsSorted by_name by_name_total by_name_trans counted,
        λ room.
            (let (ids, c) = Counted-of_listed now h all room pruned_index kept in
              (
                ids,
                record {
                  users = c.users;
                  number = λ k. listed-sort by_name RoomCount-discrete _ counted ∙ c.number k;
                },
              )),
      )
