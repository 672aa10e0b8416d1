-- ===== src/Presence/History/Agreement.antt =====
-- The presence sets agree with the reports: at any time a member is live under its room exactly if
-- the last report of it says so, and the index has every room with a live member.
use realtime_chat_platform.Prelude.{
  ℕ, ◌+◌, ◌≤◌, ◌≡◌, refl, sym, ap, ◌∙◌, subst, Option, none, some, List, [], ◌∷◌, ite,
  if◌then◌else◌, arith, if_pos, if_neg,
}
use realtime_chat_platform.Prelude.Orders.{Bytes_discrete}
use realtime_chat_platform.Prelude.Sorting.{listed}
use realtime_chat_platform.Presence.Redis.{Redis, IsLawful, at_least, is_over}
use realtime_chat_platform.Presence.Repository.{room_key, rooms_index_key}
use realtime_chat_platform.Presence.Repository.Stamps.{
  room_key-injective, room_key-ne, stamp, score-stamp,
}
use realtime_chat_platform.Presence.History.Sound.{Covers, Held, elapse-Held, stamp-Held}

pub at_least-at_least :
    (t now : ℕ) (o : Option ℕ) → t ≤ now → at_least now (at_least t o) ≡ at_least now o
at_least-at_least t now none le = refl
at_least-at_least t now (some e) le = ground arith

-- What a later time keeps was there before.
later_agree :
    (t now : ℕ) (o p : Option ℕ)
    → t ≤ now
    → at_least t o ≡ at_least t p
    → at_least now o ≡ at_least now p
later_agree t now o p le e =
    sym (at_least-at_least t now o le) ∙ ap (at_least now) e ∙ at_least-at_least t now p le

-- A key that is over has no live member.
drop_dead :
    (now : ℕ) (o d : Option ℕ)
    → Covers o d
    → at_least now (if is_over now d then none else o) ≡ at_least now o
drop_dead now none d h = ground arith
drop_dead now (some e) none h = elim h [ ]
drop_dead now (some e) (some d) h = ground arith

later_covered :
    (t now : ℕ) (o i d : Option ℕ)
    → t ≤ now
    → Covers i d
    → Covers (at_least t o) i
    → Covers (at_least now o) (if is_over now d then none else i)
later_covered t now none i d le id h = tt
later_covered t now (some e) none d le id h = ground arith
later_covered t now (some e) (some i) none le id h = elim id [ ]
later_covered t now (some e) (some i) (some d) le id h = ground arith

pub room_keys {ℓ} :
    {A : Type ℓ} (a b : List ℕ) (p q : A)
    → ite (Bytes_discrete (room_key a) (room_key b)) p q ≡ ite (Bytes_discrete a b) p q
room_keys a b p q = elim (Bytes_discrete a b) [
  | yes e ↦ if_pos _ (ap room_key e) p q ∙ sym (if_pos _ e p q)
  | no n ↦ if_neg _ (λ e. n (room_key-injective a b e)) p q ∙ sym (if_neg _ n p q)
]

pub room_and_index {ℓ} :
    {A : Type ℓ} (a : List ℕ) (p q : A) → ite (Bytes_discrete (room_key a) rooms_index_key) p q ≡ q
room_and_index a p q = if_neg _ (room_key-ne a) p q

pub index_and_room {ℓ} :
    {A : Type ℓ} (a : List ℕ) (p q : A) → ite (Bytes_discrete rooms_index_key (room_key a)) p q ≡ q
index_and_room a p q = if_neg _ (λ e. room_key-ne a (sym e)) p q

module _ (R : Redis) (ttl : ℕ) where
  pub record Sound (t : ℕ) (expiry : List ℕ → List ℕ → Option ℕ) (s : R.State) : Type 0 where
    pub held : Held R ttl t s
    pub indexed :
        (room x : List ℕ)
        → Covers (at_least t (R.score s (room_key room) x)) (R.score s rooms_index_key room)
    pub agreed :
        (room x : List ℕ) → at_least t (R.score s (room_key room) x) ≡ at_least t (expiry room x)

  module _ (lawful : IsLawful R) (long : 1000 ≤ ttl) where
    open lawful use {score-zrem, score-zcard, score-zremrangebyscore, score-expire, score-elapse}

    pub elapse-Sound :
        (t now : ℕ) (expiry : List ℕ → List ℕ → Option ℕ) (s : R.State)
        → t ≤ now
        → Sound t expiry s
        → Sound now expiry (R.elapse now s)
    elapse-Sound t now expiry s le h = record {
      held = elapse-Held R ttl lawful long t now s le h.held;
      indexed = λ room x.
          rw (score-elapse s now (room_key room) x, score-elapse s now rooms_index_key room)
            (subst
              (λ o. Covers o (
                if is_over now (R.deadline s rooms_index_key)
                then none
                else R.score s rooms_index_key room))
              (sym (drop_dead now _ _ (h.held.kept (room_key room) x)))
              (later_covered t now _ _ _ le (h.held.kept rooms_index_key room) (h.indexed room x)));
      agreed = λ room x. rw (score-elapse s now (room_key room) x) (
          drop_dead now _ _ (h.held.kept (room_key room) x)
          ∙ later_agree t now _ _ le (h.agreed room x));
    }

    -- An online report or a heartbeat: a stamp of the room's members and of the index.
    abbrev pub write : ℕ → List ℕ → List (List ℕ) → R.State → R.State
    write now room ms s =
        stamp R lawful ttl long now rooms_index_key (room ∷ [])
          (stamp R lawful ttl long now (room_key room) ms s)

    score-write :
        (now : ℕ) (room : List ℕ) (ms : List (List ℕ)) (s : R.State) (r x : List ℕ)
        → R.score (write now room ms s) (room_key r) x
          ≡ ite
              (Bytes_discrete r room)
              (if listed Bytes_discrete x ms then some (now + ttl) else R.score s (room_key r) x)
              (R.score s (room_key r) x)
    score-write now room ms s r x =
        score-stamp R lawful ttl long now rooms_index_key (room ∷ [])
          (stamp R lawful ttl long now (room_key room) ms s) (room_key r) x
        ∙ room_and_index r _ _
        ∙ score-stamp R lawful ttl long now (room_key room) ms s (room_key r) x
        ∙ room_keys r room _ _

    index-write :
        (now : ℕ) (room : List ℕ) (ms : List (List ℕ)) (s : R.State) (r : List ℕ)
        → R.score (write now room ms s) rooms_index_key r
          ≡ ite (Bytes_discrete r room) (some (now + ttl)) (R.score s rooms_index_key r)
    unfolding listed
    index-write now room ms s r =
        score-stamp R lawful ttl long now rooms_index_key (room ∷ [])
          (stamp R lawful ttl long now (room_key room) ms s) rooms_index_key r
        ∙ if_pos (Bytes_discrete rooms_index_key rooms_index_key) refl _ _
        ∙ ground (
          arith,
          score-stamp R lawful ttl long now (room_key room) ms s rooms_index_key r,
          index_and_room room
              (if listed Bytes_discrete r ms then some (now + ttl) else R.score s rooms_index_key r)
              (R.score s rooms_index_key r),
        )

    pub write-Sound :
        (now : ℕ) (room : List ℕ) (ms : List (List ℕ)) (s : R.State)
        (old new : List ℕ → List ℕ → Option ℕ)
        → ((r x : List ℕ)
            → new r x
              ≡ ite
                  (Bytes_discrete r room)
                  (if listed Bytes_discrete x ms then some (now + ttl) else old r x)
                  (old r x))
        → Sound now old s
        → Sound now new (write now room ms s)
    write-Sound now room ms s old new written h = record {
      held =
          stamp-Held R ttl lawful long now rooms_index_key (room ∷ []) _
            (stamp-Held R ttl lawful long now (room_key room) ms s h.held);
      indexed = λ r x.
          (let i = h.indexed r x in
            let b = h.held.bounded (room_key r) x in
            ground (arith, score-write now room ms s r x, index-write now room ms s r));
      agreed = λ r x.
          (let a = h.agreed r x in ground (arith, score-write now room ms s r x, written r x));
    }
