-- ===== src/Presence/Redis/Memory.antt =====
-- A Redis in memory, which keeps the laws that the presence service relies on.
use realtime_chat_platform.Prelude.{
  ℕ, ◌+◌, ◌*◌, ◌/◌, ◌≡◌, refl, Bool, true, false, Option, none, some, List, [], ◌∷◌, ite,
  if◌then◌else◌, length, arith,
}
use realtime_chat_platform.Prelude.Orders.{Bytes_discrete}
use realtime_chat_platform.Prelude.Sorting.{listed, NoRepeats}
use realtime_chat_platform.Presence.Redis.{Redis, IsLawful, is_live, at_least, is_over}

-- The scores, of which those count that stand in the list of all members ever added.
pub record Memory : Type 0 where
  pub names : List (List ℕ × List ℕ)
  pub scores : List ℕ → List ℕ → Option ℕ
  pub deadlines : List ℕ → Option ℕ

named : List ℕ → List ℕ → List (List ℕ × List ℕ) → Bool
named k x [] = false
named k x ((j, y) ∷ l) =
    let rest = named k x l in ite (Bytes_discrete k j) (ite (Bytes_discrete x y) true rest) rest

unfoldable score : Memory → List ℕ → List ℕ → Option ℕ
unfolding named
score s k x = if named k x s.names then s.scores k x else none

zadd : List ℕ → ℕ → List ℕ → Memory → Memory
zadd key e m s = record s {
  names = (key, m) ∷ s.names;
  scores = λ k x.
      ite (Bytes_discrete k key) (ite (Bytes_discrete x m) (some e) (s.scores k x)) (s.scores k x);
}

zrem : List ℕ → List ℕ → Memory → Memory
zrem key m s = record s {
  scores = λ k x.
      ite (Bytes_discrete k key) (ite (Bytes_discrete x m) none (s.scores k x)) (s.scores k x);
}

zremrangebyscore : List ℕ → ℕ → Memory → Memory
zremrangebyscore key now s = record s {
  scores = λ k x. ite (Bytes_discrete k key) (at_least now (s.scores k x)) (s.scores k x);
}

live_names : List ℕ → ℕ → (List ℕ → Option ℕ) → List (List ℕ × List ℕ) → List (List ℕ)
live_names key now scores [] = []
live_names key now scores ((j, y) ∷ l) =
    let rest = live_names key now scores l in
    let kept = if listed Bytes_discrete y rest then rest else y ∷ rest in
    ite (Bytes_discrete key j) (if is_live now (scores y) then kept else rest) rest

zrangebyscore : List ℕ → ℕ → Memory → List (List ℕ)
unfolding live_names
zrangebyscore key now s = live_names key now (s.scores key) s.names

zcard : List ℕ → Memory → ℕ
unfolding zrangebyscore
zcard key s = length (zrangebyscore key 0 s)

expire : ℕ → List ℕ → ℕ → Memory → Memory
expire now key seconds s = record s {
  deadlines = λ k. ite (Bytes_discrete k key) (some (now + 1000 * seconds)) (s.deadlines k);
}

elapse : ℕ → Memory → Memory
elapse now s = record s {
  scores = λ k x. if is_over now (s.deadlines k) then none else s.scores k x;
}

unfoldable pub memory : Redis
unfolding score zadd zrem zcard zremrangebyscore zrangebyscore expire elapse
memory = record {
  State = Memory;
  score = score;
  deadline = λ s. s.deadlines;
  zadd = zadd;
  zrem = zrem;
  zcard = zcard;
  zremrangebyscore = zremrangebyscore;
  zrangebyscore = zrangebyscore;
  expire = expire;
  expire_in = λ now key millis. expire now key (millis / 1000);
  elapse = elapse;
}

unfoldable pub empty : memory.State
unfolding memory
empty = record { names = []; scores = λ k x. none; deadlines = λ k. none }

listed-live_names :
    (key : List ℕ) (now : ℕ) (scores : List ℕ → Option ℕ) (x : List ℕ) (l : List (List ℕ × List ℕ))
    → listed Bytes_discrete x (live_names key now scores l)
      ≡ is_live now (if named key x l then scores x else none)
unfolding live_names named listed
listed-live_names key now scores x [] = refl
listed-live_names key now scores x ((j, y) ∷ l) =
    ground (arith, listed-live_names key now scores x l)

live_names-NoRepeats :
    (key : List ℕ) (now : ℕ) (scores : List ℕ → Option ℕ) (l : List (List ℕ × List ℕ))
    → NoRepeats Bytes_discrete (live_names key now scores l)
unfolding live_names
live_names-NoRepeats key now scores [] = tt
live_names-NoRepeats key now scores ((j, y) ∷ l) =
    ground (arith, live_names-NoRepeats key now scores l)

-- A list without members has no names in it.
no_members : (l : List (List ℕ)) (x : List ℕ) → length l ≡ 0 → listed Bytes_discrete x l ≡ false
unfolding listed
no_members [] x h = refl
no_members (y ∷ l) x h = absurd (omega arith)

not_live : (o : Option ℕ) → is_live 0 o ≡ false → o ≡ none
not_live none h = refl
not_live (some e) h = ground arith

pub memory-IsLawful : IsLawful memory
unfolding memory score zadd zrem zremrangebyscore expire elapse zrangebyscore zcard
memory-IsLawful = record {
  score-zadd = λ s key e m k x. ground arith;
  score-zrem = λ s key m k x. ground arith;
  score-zcard = λ s key x h. not_live (score s key x) (
      rw (← listed-live_names key 0 (s.scores key) x s.names)
        (no_members (zrangebyscore key 0 s) x h));
  score-zremrangebyscore = λ s key now k x. ground arith;
  listed-zrangebyscore = λ s key now x. listed-live_names key now (s.scores key) x s.names;
  once-zrangebyscore = λ s key now. live_names-NoRepeats key now (s.scores key) s.names;
  score-expire = λ s now key seconds k x h. refl;
  score-expire_in = λ s now key millis k x h. refl;
  score-elapse = λ s now k x. ground arith;
  deadline-zadd = λ s key e m k. refl;
  deadline-zrem = λ s key m k x e h. refl;
  deadline-zremrangebyscore = λ s key now k x e h. refl;
  deadline-expire = λ s now key seconds k x e h. refl;
  deadline-expire_in = λ s now key millis k x e c h. refl;
  deadline-elapse = λ s now k x e h. refl;
}
