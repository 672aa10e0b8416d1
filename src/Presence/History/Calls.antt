-- ===== src/Presence/History/Calls.antt =====
-- Every call of the presence repository keeps the agreement with the reports, and so does a run.
use realtime_chat_platform.Prelude.{
  ℕ, ◌*◌, ◌/◌, ◌≤◌, ◌≡◌, ap, ◌∙◌, Option, none, List, ite, arith, ◌==◌, Bool-cases, inl, inr,
  ==_iff,
}
use realtime_chat_platform.Prelude.Orders.{Bytes_discrete}
use realtime_chat_platform.Presence.Redis.{Redis, IsLawful, at_least}
use realtime_chat_platform.Presence.Repository.{room_key, rooms_index_key, offline_script}
use realtime_chat_platform.Presence.History.Sound.{Covers, Held, zrem-Held, prune-Held, expire-Held}
use realtime_chat_platform.Presence.History.Agreement.{
  Sound, room_keys, room_and_index, index_and_room,
}

module _ (R : Redis) (ttl : ℕ) (lawful : IsLawful R) (long : 1000 ≤ ttl) where
  open lawful use {score-zrem, score-zcard, score-zremrangebyscore, score-expire}

  score-removed :
      (room m : List ℕ) (s : R.State) (r x : List ℕ)
      → R.score (R.zrem (room_key room) m s) (room_key r) x
        ≡ ite
            (Bytes_discrete r room)
            (ite (Bytes_discrete x m) none (R.score s (room_key r) x))
            (R.score s (room_key r) x)
  score-removed room m s r x = score-zrem s (room_key room) m (room_key r) x ∙ room_keys r room _ _

  abbrev pub script : ℕ → List ℕ → List ℕ → R.State → R.State
  script now room m s =
      offline_script R ttl now (room_key room) rooms_index_key m room (2 * ttl / 1000) s

  -- Of the rooms the script removes the member and nothing else.
  score-script :
      (now : ℕ) (room m : List ℕ) (s : R.State) (r x : List ℕ)
      → R.score (script now room m s) (room_key r) x
        ≡ R.score (R.zrem (room_key room) m s) (room_key r) x
  unfolding offline_script
  score-script now room m s r x =
      let removed = R.zrem (room_key room) m s in
      elim (Bool-cases (R.zcard (room_key room) removed == 0)) [
        | inl nobody ↦
            rw nobody
              (score-zrem removed rooms_index_key room (room_key r) x ∙ room_and_index r _ _)
        | inr somebody ↦
            rw somebody (
              score-expire removed now (room_key room) (2 * ttl / 1000) (room_key r) x
                (omega arith))
      ]

  script-Held :
      (now : ℕ) (room m : List ℕ) (s : R.State)
      → Held R ttl now s
      → Held R ttl now (script now room m s)
  unfolding offline_script
  script-Held now room m s h =
      let removed = R.zrem (room_key room) m s in
      let kept = zrem-Held R ttl lawful long now (room_key room) m s h in
      elim (Bool-cases (R.zcard (room_key room) removed == 0)) [
        | inl nobody ↦ rw nobody (zrem-Held R ttl lawful long now rooms_index_key room removed kept)
        | inr somebody ↦
            rw somebody (expire-Held R ttl lawful long now (room_key room) removed kept)
      ]

  index-removed :
      (room m : List ℕ) (s : R.State) (r : List ℕ)
      → R.score (R.zrem (room_key room) m s) rooms_index_key r ≡ R.score s rooms_index_key r
  index-removed room m s r =
      score-zrem s (room_key room) m rooms_index_key r ∙ index_and_room room _ _

  -- A room leaves the index only when nobody is in it.
  script-indexed :
      (now : ℕ) (room m : List ℕ) (s : R.State) (r x : List ℕ)
      → Covers
          (at_least now (R.score (R.zrem (room_key room) m s) (room_key r) x))
          (R.score s rooms_index_key r)
      → Covers
          (at_least now (R.score (R.zrem (room_key room) m s) (room_key r) x))
          (R.score (script now room m s) rooms_index_key r)
  unfolding offline_script
  script-indexed now room m s r x h =
      let removed = R.zrem (room_key room) m s in
      elim (Bool-cases (R.zcard (room_key room) removed == 0)) [
        | inl nobody ↦ rw nobody (elim (Bytes_discrete r room) [
          | yes e ↦
              rw
                (
                  ap (λ k. R.score removed (room_key k) x) e,
                  score-zcard removed (room_key room) x ((==_iff _ 0).0 nobody),
                )
                tt
          | no n ↦ ground (
            arith,
            index-removed room m s r,
            score-zrem removed rooms_index_key room rooms_index_key r,
          )
        ])
        | inr somebody ↦
            rw
              (
                somebody,
                score-expire removed now (room_key room) (2 * ttl / 1000) rooms_index_key r
                    (omega arith),
                index-removed room m s r,
              )
              h
      ]

  pub script-Sound :
      (now : ℕ) (room m : List ℕ) (s : R.State) (old new : List ℕ → List ℕ → Option ℕ)
      → ((r x : List ℕ)
          → new r x
            ≡ ite (Bytes_discrete r room) (ite (Bytes_discrete x m) none (old r x)) (old r x))
      → Sound R ttl now old s
      → Sound R ttl now new (script now room m s)
  script-Sound now room m s old new written h = record {
    held = script-Held now room m s h.held;
    indexed = λ r x. rw (score-script now room m s r x) (
        script-indexed now room m s r x
          (let i = h.indexed r x in ground (arith, score-removed room m s r x)));
    agreed = λ r x.
        (let a = h.agreed r x in
          ground (arith, score-script now room m s r x, score-removed room m s r x, written r x));
  }

  pub prune-Sound :
      (now : ℕ) (key : List ℕ) (s : R.State) (expiry : List ℕ → List ℕ → Option ℕ)
      → Sound R ttl now expiry s
      → Sound R ttl now expiry (R.zremrangebyscore key now s)
  prune-Sound now key s expiry h = record {
    held = prune-Held R ttl lawful long now key s h.held;
    indexed = λ r x.
        (let i = h.indexed r x in
          ground (
            arith,
            score-zremrangebyscore s key now (room_key r) x,
            score-zremrangebyscore s key now rooms_index_key r,
          ));
    agreed = λ r x.
        (let a = h.agreed r x in ground (arith, score-zremrangebyscore s key now (room_key r) x));
  }
