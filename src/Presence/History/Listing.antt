-- ===== src/Presence/History/Listing.antt =====
-- What `ListOnline` answers after a run: the users whose last report has not expired.
use realtime_chat_platform.Prelude.{
  ℕ, ◌≤◌, ◌≡◌, ◌↔◌, refl, sym, ap, ◌∙◌, subst, true, Option, none, some, List, arith, ℤ, ℤ_discrete,
  inl,
}
use realtime_chat_platform.Prelude.Decimal.{InInt64}
use realtime_chat_platform.Prelude.Orders.{Bytes_discrete, le_int}
use realtime_chat_platform.Prelude.Sorting.{listed, IsSorted, NoRepeats}
use realtime_chat_platform.Presence.Redis.{Redis, IsLawful, at_least, is_live}
use realtime_chat_platform.Presence.Repository.{
  executed, list_online, prune_and_read, member, room_key, collapse_users,
}
use realtime_chat_platform.Presence.Repository.Members.{
  user_of, user_of-member, collapse_users_lem, All_of_listed, found, found-listed, listed-found,
}
use realtime_chat_platform.Presence.History.{Entry, run, last_time, IsTimely, last_report, AllInt64}
use realtime_chat_platform.Presence.History.Agreement.{Sound, elapse-Sound}
use realtime_chat_platform.Presence.History.Calls.{prune-Sound}
use realtime_chat_platform.Presence.History.Runs.{expiry_at, run-Sound}
use realtime_chat_platform.Presence.History.Reports.{expiry_at-last_report, expiry_at-Known, Known}

-- Live by one of two expiries that agree is live by the other, with its expiry.
live_some :
    (now : ℕ) (o p : Option ℕ)
    → at_least now o ≡ at_least now p
    → is_live now o ≡ true
    → (e : ℕ) × (p ≡ some e) × (now ≤ e)
live_some now none p a l = absurd (cc)
live_some now (some e) none a l = absurd (ground arith)
live_some now (some e) (some d) a l = (d, refl, ground arith)

some_live :
    (now : ℕ) (o p : Option ℕ) (e : ℕ)
    → at_least now o ≡ at_least now p
    → p ≡ some e
    → now ≤ e
    → is_live now o ≡ true
some_live now none p e a eq le = ground arith
some_live now (some d) p e a eq le = ground arith

-- The room's users at a time: each report that has not expired names one.
abbrev pub Present : ℕ → ℕ → List Entry → List ℕ → ℤ → Type 0
Present ttl now h room u =
    (i : List ℕ) × (e : ℕ) × (last_report ttl h room u i ≡ some e) × (now ≤ e)

-- Sorted, each once, and present: what the users of a room are.
pub record Users (ttl now : ℕ) (h : List Entry) (room : List ℕ) (ids : List ℤ) : Type 0 where
  pub ordered : IsSorted le_int ids
  pub once : NoRepeats ℤ_discrete ids
  pub present : (u : ℤ) → InInt64 u → (listed ℤ_discrete u ids ≡ true) ↔ Present ttl now h room u

module _ (R : Redis) (ttl : ℕ) (lawful : IsLawful R) (long : 1000 ≤ ttl) where
  open lawful use {listed-zrangebyscore}

  module _ (now : ℕ) (h : List Entry) (all : AllInt64 h) (s : R.State)
      (sound : Sound R ttl now (expiry_at ttl h) s) (room : List ℕ) where
    abbrev pub raw : List (List ℕ)
    raw = R.zrangebyscore (room_key room) now s

    -- A member that is read has an expiry that is not over.
    read_expiry :
        (m : List ℕ)
        → listed Bytes_discrete m raw ≡ true
        → (e : ℕ) × (expiry_at ttl h room m ≡ some e) × (now ≤ e)
    read_expiry m there =
        live_some now (R.score s (room_key room) m) (expiry_at ttl h room m) (sound.agreed room m)
          (sym (listed-zrangebyscore s (room_key room) now m) ∙ there)

    read-Known : (m : List ℕ) → listed Bytes_discrete m raw ≡ true → Known m
    read-Known m there =
        let (e, eq, le) = read_expiry m there in expiry_at-Known ttl h room m e all eq

    found-Present : (u : ℤ) → found u raw ≡ true → Present ttl now h room u
    found-Present u f =
        let (m, there, of_m) = listed-found u raw f in
        let (e, eq, le) = read_expiry m there in
        let (v, i, m_eq, hv) = read-Known m there in
        let of_v : user_of m ≡ some v = ap user_of m_eq ∙ user_of-member v i hv in
        let same : v ≡ u = cc in
        let expiry : expiry_at ttl h room (member v i) ≡ some e =
          ap (expiry_at ttl h room) (sym m_eq) ∙ eq in
        (
          i,
          e,
          subst (λ w. last_report ttl h room w i ≡ some e) same
              (sym (expiry_at-last_report ttl h room v i hv all) ∙ expiry),
          le,
        )

    Present-found : (u : ℤ) → InInt64 u → Present ttl now h room u → found u raw ≡ true
    Present-found u hu (i, e, eq, le) =
        found-listed u (member u i) raw
          (listed-zrangebyscore s (room_key room) now (member u i)
            ∙ some_live now _ (expiry_at ttl h room (member u i)) e (sound.agreed room (member u i))
                (expiry_at-last_report ttl h room u i hu all ∙ eq) le)
          (user_of-member u i hu)

    pub raw_users : (ids : List ℤ) × (collapse_users raw ≡ inl ids) × Users ttl now h room ids
    raw_users =
        let known =
          All_of_listed (λ m. (u : ℤ) × (user_of m ≡ some u)) raw
            (λ m there.
              (let (u, i, m_eq, hu) = read-Known m there in
                (u, ap user_of m_eq ∙ user_of-member u i hu))) in
        let (ids, e, c) = collapse_users_lem raw known in
        (
          ids,
          e,
          record {
            ordered = c.ordered;
            once = c.once;
            present = λ u hu. (
              (λ l. found-Present u (sym (c.users u) ∙ l)),
              (λ p. c.users u ∙ Present-found u hu p),
            );
          },
        )

  -- After any timely run from a fresh Redis, `ListOnline` succeeds whenever Redis answers, and its
  -- users come in increasing order, each once: exactly those whom, for some instance, the last
  -- report that came through has online with an expiry that is not over. An offline of one
  -- instance, a refused call, and reads in between take nobody else away. The ttl must be a second
  -- or more, and ids must be int64 numbers.
  pub list_online_lem :
      (s : R.State) (h : List Entry) (now : ℕ) (room : List ℕ)
      → ((k x : List ℕ) → R.score s k x ≡ none)
      → IsTimely h
      → AllInt64 h
      → last_time h ≤ now
      → (ids : List ℤ) × ((list_online R ttl executed now room (R.elapse now (run R ttl s h))).1
          ≡ inl ids)
        × Users ttl now h room ids
  unfolding list_online prune_and_read
  list_online_lem s h now room fresh timely all le =
      let before = R.elapse now (run R ttl s h) in
      let sound =
        elapse-Sound R ttl lawful long (last_time h) now (expiry_at ttl h) (run R ttl s h) le
          (run-Sound R ttl lawful long s h fresh timely) in
      raw_users now h all (R.zremrangebyscore (room_key room) now before)
        (prune-Sound R ttl lawful long now (room_key room) before (expiry_at ttl h) sound) room
