-- ===== src/Presence/History/Sound.antt =====
-- What holds of Redis at all times under the presence repository: no score is later than the ttl
-- from now, keys outlive their members, and the index covers the rooms.
use realtime_chat_platform.Prelude.{
  ℕ, ◌+◌, ◌*◌, ◌/◌, ◌≤◌, ◌≡◌, refl, sym, ◌∙◌, Bool, true, false, Option, none, some, List,
  if◌then◌else◌, arith,
}
use realtime_chat_platform.Presence.Redis.{Redis, IsLawful, at_least, is_over}
use realtime_chat_platform.Presence.Repository.Stamps.{stamp, score-stamp, deadline-stamp}

abbrev pub Below : ℕ → Option ℕ → Type 0
Below t none = Unit
Below t (some e) = e ≤ t

abbrev pub Covers : Option ℕ → Option ℕ → Type 0
Covers none d = Unit
Covers (some e) none = ⊥
Covers (some e) (some d) = e ≤ d

Covers-intro : (o d : Option ℕ) → ((e : ℕ) → o ≡ some e → Covers (some e) d) → Covers o d
Covers-intro none d f = tt
Covers-intro (some e) d f = f e refl

Below-mono : (t now : ℕ) (o : Option ℕ) → t ≤ now → Below t o → Below now o
Below-mono t now none h b = tt
Below-mono t now (some e) h b = omega arith

drop-Below : (t : ℕ) (over : Bool) (o : Option ℕ) → Below t o → Below t (if over then none else o)
drop-Below t true o h = tt
drop-Below t false o h = h

drop-Covers : (over : Bool) (o d : Option ℕ) → Covers o d → Covers (if over then none else o) d
drop-Covers true o d h = tt
drop-Covers false o d h = h

at_least-Below : (t now : ℕ) (o : Option ℕ) → Below t o → Below t (at_least now o)
at_least-Below t now none h = tt
at_least-Below t now (some e) h = ground arith

pub at_least-Covers : (now : ℕ) (o d : Option ℕ) → Covers o d → Covers (at_least now o) d
at_least-Covers now none d h = tt
at_least-Covers now (some e) none h = elim h [ ]
at_least-Covers now (some e) (some d) h = ground arith

module _ (R : Redis) (ttl : ℕ) where
  pub record Held (t : ℕ) (s : R.State) : Type 0 where
    pub bounded : (k x : List ℕ) → Below (t + ttl) (R.score s k x)
    pub kept : (k x : List ℕ) → Covers (R.score s k x) (R.deadline s k)

  module _ (lawful : IsLawful R) (long : 1000 ≤ ttl) where
    open lawful use {
      score-zrem, score-zremrangebyscore, score-expire, score-elapse, deadline-zrem,
      deadline-zremrangebyscore, deadline-expire, deadline-elapse,
    }

    pub elapse-Held : (t now : ℕ) (s : R.State) → t ≤ now → Held t s → Held now (R.elapse now s)
    elapse-Held t now s le held = record {
      bounded = λ k x. rw (score-elapse s now k x) (
          drop-Below (now + ttl) (is_over now (R.deadline s k)) (R.score s k x)
            (Below-mono (t + ttl) (now + ttl) (R.score s k x) (omega arith) (held.bounded k x)));
      kept = λ k x. Covers-intro _ _ (λ e h.
          rw (deadline-elapse s now k x e h, ← h, score-elapse s now k x)
            (drop-Covers (is_over now (R.deadline s k)) (R.score s k x) (R.deadline s k)
              (held.kept k x)));
    }

    pub stamp-Held :
        (now : ℕ) (key : List ℕ) (ms : List (List ℕ)) (s : R.State)
        → Held now s
        → Held now (stamp R lawful ttl long now key ms s)
    stamp-Held now key ms s held = record {
      bounded = λ k x.
          (let b = held.bounded k x in
            ground (arith, score-stamp R lawful ttl long now key ms s k x));
      kept = λ k x. Covers-intro _ _ (λ e h.
          (let b = held.kept k x in
            let c = held.bounded k x in
            ground (
              arith,
              score-stamp R lawful ttl long now key ms s k x,
              deadline-stamp R lawful ttl long now key ms s k x e h,
            )));
    }

    pub zrem-Held :
        (now : ℕ) (key m : List ℕ) (s : R.State) → Held now s → Held now (R.zrem key m s)
    zrem-Held now key m s held = record {
      bounded = λ k x. (let b = held.bounded k x in ground (arith, score-zrem s key m k x));
      kept = λ k x. Covers-intro _ _ (λ e h.
          (let b = held.kept k x in
            ground (arith, score-zrem s key m k x, deadline-zrem s key m k x e h)));
    }

    pub prune-Held :
        (now : ℕ) (key : List ℕ) (s : R.State)
        → Held now s
        → Held now (R.zremrangebyscore key now s)
    prune-Held now key s held = record {
      bounded =
          λ k x. (let b = held.bounded k x in ground (arith, score-zremrangebyscore s key now k x));
      kept = λ k x. Covers-intro _ _ (λ e h.
          (let b = held.kept k x in
            ground (
              arith,
              score-zremrangebyscore s key now k x,
              deadline-zremrangebyscore s key now k x e h,
            )));
    }

    pub expire-Held :
        (now : ℕ) (key : List ℕ) (s : R.State)
        → Held now s
        → Held now (R.expire now key (2 * ttl / 1000) s)
    expire-Held now key s held = record {
      bounded =
          λ k x. rw (score-expire s now key (2 * ttl / 1000) k x (omega arith)) (held.bounded k x);
      kept = λ k x. Covers-intro _ _ (λ e h.
          (let b = held.kept k x in
            let c = held.bounded k x in
            let old = sym (score-expire s now key (2 * ttl / 1000) k x (omega arith)) ∙ h in
            ground (arith, old, deadline-expire s now key (2 * ttl / 1000) k x e old)));
    }
