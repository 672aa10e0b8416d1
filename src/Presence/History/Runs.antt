-- ===== src/Presence/History/Runs.antt =====
-- A run of the presence repository agrees with the reports of its history, member by member.
use realtime_chat_platform.Prelude.{
  sym, subst, ℕ, ◌+◌, ◌≤◌, ◌≡◌, refl, Option, none, some, List, [], ◌∷◌, ite, if◌then◌else◌, arith,
  ◌==◌, ℤ, length, Bool-cases, inl, inr,
}
use realtime_chat_platform.Prelude.Orders.{Bytes_discrete}
use realtime_chat_platform.Prelude.Sorting.{listed}
use realtime_chat_platform.Presence.Redis.{Redis, IsLawful}
use realtime_chat_platform.Presence.Repository.{
  Exec, executed, unheard, refused, exec, set_online, set_offline, refresh, list_online, list_rooms,
  list_rooms_of, read_rooms, prune_and_read, member, members_of, touch_room_index, zadd_all,
  rooms_index_key, room_key,
}
use realtime_chat_platform.Presence.Repository.Stamps.{stamp}
use realtime_chat_platform.Presence.History.{
  Entry, Call, online, offline, heartbeat, read_room, read_rooms as rooms_read, run, run_call,
  last_time, IsTimely, counted,
}
use realtime_chat_platform.Presence.History.Agreement.{Sound, elapse-Sound, write, write-Sound}
use realtime_chat_platform.Presence.History.Calls.{script-Sound, prune-Sound}

-- The expiry of a member after a call, and after a history.
abbrev pub reported_at : ℕ → Call → List ℕ → List ℕ → Option ℕ → Option ℕ
reported_at expiry (online r u i) room x old =
    ite (Bytes_discrete room r)
      (if listed Bytes_discrete x (member u i ∷ []) then some expiry else old) old
reported_at expiry (offline r u i) room x old =
    ite (Bytes_discrete room r) (ite (Bytes_discrete x (member u i)) none old) old
reported_at expiry (heartbeat r i us) room x old =
    ite (Bytes_discrete room r)
      (if listed Bytes_discrete x (members_of i us) then some expiry else old) old
reported_at expiry (read_room r) room x old = old
reported_at expiry (rooms_read second) room x old = old

abbrev pub expiry_at : ℕ → List Entry → List ℕ → List ℕ → Option ℕ
expiry_at ttl [] room x = none
expiry_at ttl (e ∷ h) room x =
    let old = expiry_at ttl h room x in
    counted e.exec (reported_at (e.now + ttl) e.call room x old) old

module _ (R : Redis) (ttl : ℕ) (lawful : IsLawful R) (long : 1000 ≤ ttl) where
  read_rooms-Sound :
      (now : ℕ) (rooms : List (List ℕ)) (s : R.State) (expiry : List ℕ → List ℕ → Option ℕ)
      → Sound R ttl now expiry s
      → Sound R ttl now expiry (read_rooms R ttl now rooms s).0
  unfolding read_rooms
  read_rooms-Sound now [] s expiry h = h
  read_rooms-Sound now (room ∷ rooms) s expiry h =
      read_rooms-Sound now rooms (R.zremrangebyscore (room_key room) now s) expiry
        (prune-Sound R ttl lawful long now (room_key room) s expiry h)

  list_rooms_of-Sound :
      (second : Exec) (now : ℕ) (rooms : List (List ℕ)) (s : R.State)
      (expiry : List ℕ → List ℕ → Option ℕ)
      → Sound R ttl now expiry s
      → Sound R ttl now expiry (list_rooms_of R ttl second now rooms s).0
  unfolding list_rooms_of
  list_rooms_of-Sound executed now rooms s expiry h = read_rooms-Sound now rooms s expiry h
  list_rooms_of-Sound unheard now rooms s expiry h = read_rooms-Sound now rooms s expiry h
  list_rooms_of-Sound refused now rooms s expiry h = h

  list_rooms-Sound :
      (x second : Exec) (now : ℕ) (s : R.State) (expiry : List ℕ → List ℕ → Option ℕ)
      → Sound R ttl now expiry s
      → Sound R ttl now expiry (list_rooms R ttl x second now s).0
  unfolding list_rooms prune_and_read
  list_rooms-Sound executed second now s expiry h =
      let pruned = R.zremrangebyscore rooms_index_key now s in
      let rooms = R.zrangebyscore rooms_index_key now pruned in
      let kept = prune-Sound R ttl lawful long now rooms_index_key s expiry h in
      elim (Bool-cases (length rooms == 0)) [
        | inl nobody ↦ rw nobody kept
        | inr somebody ↦ rw somebody (list_rooms_of-Sound second now rooms pruned expiry kept)
      ]
  list_rooms-Sound unheard second now s expiry h =
      prune-Sound R ttl lawful long now rooms_index_key s expiry h
  list_rooms-Sound refused second now s expiry h = h

  -- The state of a call that Redis has done.
  abbrev done : ℕ → Call → (List ℕ → List ℕ → Option ℕ) → List ℕ → List ℕ → Option ℕ
  done now call old r x = reported_at (now + ttl) call r x (old r x)

  online-Sound :
      (now : ℕ) (room : List ℕ) (u : ℤ) (i : List ℕ) (s : R.State)
      (old : List ℕ → List ℕ → Option ℕ)
      → Sound R ttl now old s
      → Sound R ttl now
          (done now (online room u i) old)
          (run_call R ttl executed now (online room u i) s)
  unfolding set_online exec stamp zadd_all
  online-Sound now room u i s old h =
      write-Sound R ttl lawful long now room (member u i ∷ []) s old _ (λ r x. refl) h

  same-Sound :
      (now : ℕ) (old new : List ℕ → List ℕ → Option ℕ) (s : R.State)
      → ((r x : List ℕ) → new r x ≡ old r x)
      → Sound R ttl now old s
      → Sound R ttl now new s
  same-Sound now old new s same h = record {
    held = h.held;
    indexed = h.indexed;
    agreed = λ r x. rw (same r x) (h.agreed r x);
  }

  heartbeat_lem :
      (now : ℕ) (room i : List ℕ) (u : ℤ) (us : List ℤ) (s : R.State)
      → (refresh R ttl executed now room i (u ∷ us) s).0
        ≡ write R ttl lawful long now room (members_of i (u ∷ us)) s
  unfolding refresh exec stamp touch_room_index zadd_all
  heartbeat_lem now room i u us s = ground arith

  heartbeat-Sound :
      (now : ℕ) (room i : List ℕ) (us : List ℤ) (s : R.State) (old : List ℕ → List ℕ → Option ℕ)
      → Sound R ttl now old s
      → Sound R ttl now
          (done now (heartbeat room i us) old)
          (run_call R ttl executed now (heartbeat room i us) s)
  unfolding refresh exec stamp zadd_all touch_room_index members_of listed
  heartbeat-Sound now room i [] s old h =
      same-Sound now old (done now (heartbeat room i []) old) s (λ r x. ground arith) h
  heartbeat-Sound now room i (u ∷ us) s old h =
      subst (Sound R ttl now (done now (heartbeat room i (u ∷ us)) old))
        (sym (heartbeat_lem now room i u us s))
        (write-Sound R ttl lawful long now room (members_of i (u ∷ us)) s old
          (done now (heartbeat room i (u ∷ us)) old) (λ r x. refl) h)

  offline-Sound :
      (now : ℕ) (room : List ℕ) (u : ℤ) (i : List ℕ) (s : R.State)
      (old : List ℕ → List ℕ → Option ℕ)
      → Sound R ttl now old s
      → Sound R ttl now
          (done now (offline room u i) old)
          (run_call R ttl executed now (offline room u i) s)
  unfolding set_offline exec
  offline-Sound now room u i s old h =
      script-Sound R ttl lawful long now room (member u i) s old _ (λ r x. refl) h

  executed-Sound :
      (now : ℕ) (call : Call) (s : R.State) (old : List ℕ → List ℕ → Option ℕ)
      → Sound R ttl now old s
      → Sound R ttl now (done now call old) (run_call R ttl executed now call s)
  unfolding list_online prune_and_read
  executed-Sound now (online room u i) s old h = online-Sound now room u i s old h
  executed-Sound now (offline room u i) s old h = offline-Sound now room u i s old h
  executed-Sound now (heartbeat room i us) s old h = heartbeat-Sound now room i us s old h
  executed-Sound now (read_room room) s old h =
      prune-Sound R ttl lawful long now (room_key room) s old h
  executed-Sound now (rooms_read second) s old h = list_rooms-Sound executed second now s old h

  -- What a heartbeat leaves turns on whether Redis did it, not on the answer.
  unheard_heartbeat :
      (now : ℕ) (room i : List ℕ) (us : List ℤ) (s : R.State)
      → (refresh R ttl unheard now room i us s).0 ≡ (refresh R ttl executed now room i us s).0
  unfolding refresh exec
  unheard_heartbeat now room i us s = ground arith

  refused_heartbeat :
      (now : ℕ) (room i : List ℕ) (us : List ℤ) (s : R.State)
      → s ≡ (refresh R ttl refused now room i us s).0
  unfolding refresh exec
  refused_heartbeat now room i us s = ground arith

  call-Sound :
      (x : Exec) (now : ℕ) (call : Call) (s : R.State) (old : List ℕ → List ℕ → Option ℕ)
      → Sound R ttl now old s
      → Sound R ttl now
          (λ r m. counted x (reported_at (now + ttl) call r m (old r m)) (old r m))
          (run_call R ttl x now call s)
  unfolding set_online set_offline exec list_online
  call-Sound executed now call s old h = executed-Sound now call s old h
  call-Sound unheard now (rooms_read second) s old h = list_rooms-Sound unheard second now s old h
  call-Sound unheard now (online room u i) s old h = online-Sound now room u i s old h
  call-Sound unheard now (offline room u i) s old h = offline-Sound now room u i s old h
  call-Sound unheard now (heartbeat room i us) s old h =
      rw (unheard_heartbeat now room i us s) (heartbeat-Sound now room i us s old h)
  call-Sound unheard now (read_room room) s old h = executed-Sound now (read_room room) s old h
  call-Sound refused now (rooms_read second) s old h = list_rooms-Sound refused second now s old h
  call-Sound refused now (online room u i) s old h = h
  call-Sound refused now (offline room u i) s old h = h
  call-Sound refused now (heartbeat room i us) s old h =
      subst (Sound R ttl now old) (refused_heartbeat now room i us s) h
  call-Sound refused now (read_room room) s old h = h

  pub run-Sound :
      (s : R.State) (h : List Entry)
      → ((k x : List ℕ) → R.score s k x ≡ none)
      → IsTimely h
      → Sound R ttl (last_time h) (expiry_at ttl h) (run R ttl s h)
  run-Sound s [] fresh timely = record {
    held = record { bounded = λ k x. rw (fresh k x) tt; kept = λ k x. rw (fresh k x) tt };
    indexed = λ r x. rw (fresh (room_key r) x) tt;
    agreed = λ r x. rw (fresh (room_key r) x);
  }
  run-Sound s (e ∷ h) fresh timely =
      call-Sound e.exec e.now e.call (R.elapse e.now (run R ttl s h)) (expiry_at ttl h) (
        elapse-Sound R ttl lawful long (last_time h) e.now (expiry_at ttl h) (run R ttl s h)
          timely.0 (run-Sound s h fresh timely.1))
