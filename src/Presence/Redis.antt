-- ===== src/Presence/Redis.antt =====
-- What presence-service uses of Redis: the commands on sorted sets and on the life of keys, and
-- what it relies on of them. A score that is a time in milliseconds is exact in a float64.
pub mod Memory
use realtime_chat_platform.Prelude.{
  ℕ, ◌+◌, ◌*◌, ◌/◌, ◌≤◌, ◌≡◌, Bool, true, false, Option, none, some, List, [], ◌∷◌, ite, leb, ltb,
  if◌then◌else◌,
}
use realtime_chat_platform.Prelude.Orders.{Bytes_discrete}
use realtime_chat_platform.Prelude.Sorting.{listed, NoRepeats}

pub record Redis : Type 1 where
  pub State : Type 0
  -- The score of a member, and the time at which a key ends.
  pub score : State → List ℕ → List ℕ → Option ℕ
  pub deadline : State → List ℕ → Option ℕ
  pub zadd : List ℕ → ℕ → List ℕ → State → State
  pub zrem : List ℕ → List ℕ → State → State
  pub zcard : List ℕ → State → ℕ
  -- The members with scores below the number go.
  pub zremrangebyscore : List ℕ → ℕ → State → State
  -- The members with the number or more for their score.
  pub zrangebyscore : List ℕ → ℕ → State → List (List ℕ)
  -- EXPIRE at a time, in seconds, and the client's call of it, in milliseconds.
  pub expire : ℕ → List ℕ → ℕ → State → State
  pub expire_in : ℕ → List ℕ → ℕ → State → State
  -- The clock comes to a time.
  pub elapse : ℕ → State → State

-- A score that is there and not below the time.
abbrev pub is_live : ℕ → Option ℕ → Bool
is_live now none = false
is_live now (some e) = leb now e

abbrev pub at_least : ℕ → Option ℕ → Option ℕ
at_least now none = none
at_least now (some e) = if leb now e then some e else none

-- A key whose time is over.
abbrev pub is_over : ℕ → Option ℕ → Bool
is_over now none = false
is_over now (some d) = ltb d now

pub record IsLawful (R : Redis) : Type 0 where
  pub score-zadd :
      (s : R.State) (key : List ℕ) (e : ℕ) (m k x : List ℕ)
      → R.score (R.zadd key e m s) k x
        ≡ ite
            (Bytes_discrete k key)
            (ite (Bytes_discrete x m) (some e) (R.score s k x))
            (R.score s k x)
  pub score-zrem :
      (s : R.State) (key m k x : List ℕ)
      → R.score (R.zrem key m s) k x
        ≡ ite (Bytes_discrete k key) (ite (Bytes_discrete x m) none (R.score s k x)) (R.score s k x)
  pub score-zcard : (s : R.State) (key x : List ℕ) → R.zcard key s ≡ 0 → R.score s key x ≡ none
  pub score-zremrangebyscore :
      (s : R.State) (key : List ℕ) (now : ℕ) (k x : List ℕ)
      → R.score (R.zremrangebyscore key now s) k x
        ≡ ite (Bytes_discrete k key) (at_least now (R.score s k x)) (R.score s k x)
  pub listed-zrangebyscore :
      (s : R.State) (key : List ℕ) (now : ℕ) (x : List ℕ)
      → listed Bytes_discrete x (R.zrangebyscore key now s) ≡ is_live now (R.score s key x)
  pub once-zrangebyscore :
      (s : R.State) (key : List ℕ) (now : ℕ) → NoRepeats Bytes_discrete (R.zrangebyscore key now s)
  pub score-expire :
      (s : R.State) (now : ℕ) (key : List ℕ) (seconds : ℕ) (k x : List ℕ)
      → 1 ≤ seconds
      → R.score (R.expire now key seconds s) k x ≡ R.score s k x
  pub score-expire_in :
      (s : R.State) (now : ℕ) (key : List ℕ) (millis : ℕ) (k x : List ℕ)
      → 1000 ≤ millis
      → R.score (R.expire_in now key millis s) k x ≡ R.score s k x
  pub score-elapse :
      (s : R.State) (now : ℕ) (k x : List ℕ)
      → R.score (R.elapse now s) k x
        ≡ (if is_over now (R.deadline s k) then none else R.score s k x)
  -- A write keeps the deadline that a key has.
  pub deadline-zadd :
      (s : R.State) (key : List ℕ) (e : ℕ) (m k : List ℕ)
      → R.deadline (R.zadd key e m s) k ≡ R.deadline s k
  pub deadline-zrem :
      (s : R.State) (key m k x : List ℕ) (e : ℕ)
      → R.score (R.zrem key m s) k x ≡ some e
      → R.deadline (R.zrem key m s) k ≡ R.deadline s k
  pub deadline-zremrangebyscore :
      (s : R.State) (key : List ℕ) (now : ℕ) (k x : List ℕ) (e : ℕ)
      → R.score (R.zremrangebyscore key now s) k x ≡ some e
      → R.deadline (R.zremrangebyscore key now s) k ≡ R.deadline s k
  pub deadline-expire :
      (s : R.State) (now : ℕ) (key : List ℕ) (seconds : ℕ) (k x : List ℕ) (e : ℕ)
      → R.score s k x ≡ some e
      → R.deadline (R.expire now key seconds s) k
        ≡ ite (Bytes_discrete k key) (some (now + 1000 * seconds)) (R.deadline s k)
  -- The client rounds down to whole seconds.
  pub deadline-expire_in :
      (s : R.State) (now : ℕ) (key : List ℕ) (millis : ℕ) (k x : List ℕ) (e : ℕ)
      → 1000 ≤ millis
      → R.score s k x ≡ some e
      → R.deadline (R.expire_in now key millis s) k
        ≡ ite (Bytes_discrete k key) (some (now + 1000 * (millis / 1000))) (R.deadline s k)
  pub deadline-elapse :
      (s : R.State) (now : ℕ) (k x : List ℕ) (e : ℕ)
      → R.score (R.elapse now s) k x ≡ some e
      → R.deadline (R.elapse now s) k ≡ R.deadline s k
