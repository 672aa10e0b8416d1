-- ===== src/Presence/History.antt =====
-- Runs of the presence repository, the latest call first, and what they say of a user: the expiry
-- of the last report that came through. Between two calls time passes.
pub mod Sound
pub mod Agreement
pub mod Calls
pub mod Runs
pub mod Reports
pub mod Listing
pub mod Rooms
use realtime_chat_platform.Prelude.{
  ℕ, ◌+◌, ◌≤◌, ℤ, ℤ_discrete, Option, none, some, Bool, true, false, List, [], ◌∷◌, ite,
  if◌then◌else◌,
}
use realtime_chat_platform.Prelude.Decimal.{InInt64}
use realtime_chat_platform.Prelude.Lists.{All}
use realtime_chat_platform.Prelude.Orders.{Bytes_discrete}
use realtime_chat_platform.Prelude.Sorting.{listed}
use realtime_chat_platform.Presence.Redis.{Redis}
use realtime_chat_platform.Presence.Repository.{
  Exec, executed, unheard, refused, set_online, set_offline, refresh, list_online, list_rooms,
}

pub data Call : Type 0 where
  online offline : List ℕ → ℤ → List ℕ → Call
  heartbeat : List ℕ → List ℕ → List ℤ → Call
  read_room : List ℕ → Call
  read_rooms : Exec → Call

pub record Entry : Type 0 where
  pub now : ℕ
  pub exec : Exec
  pub call : Call

module _ (R : Redis) (ttl : ℕ) where
  abbrev pub run_call : Exec → ℕ → Call → R.State → R.State
  run_call x now (online room user_id instance_id) s =
      (set_online R ttl x now room user_id instance_id s).0
  run_call x now (offline room user_id instance_id) s =
      (set_offline R ttl x now room user_id instance_id s).0
  run_call x now (heartbeat room instance_id user_ids) s =
      (refresh R ttl x now room instance_id user_ids s).0
  run_call x now (read_room room) s = (list_online R ttl x now room s).0
  run_call x now (read_rooms second) s = (list_rooms R ttl x second now s).0

  abbrev pub run : R.State → List Entry → R.State
  run s [] = s
  run s (e ∷ h) = run_call e.exec e.now e.call (R.elapse e.now (run s h))

-- The time of the last call.
abbrev pub last_time : List Entry → ℕ
last_time [] = 0
last_time (e ∷ h) = e.now

-- Time does not go back.
abbrev pub IsTimely : List Entry → Type 0
IsTimely [] = Unit
IsTimely (e ∷ h) = (last_time h ≤ e.now) × IsTimely h

abbrev pub HasInt64 : Call → Type 0
HasInt64 (online room user_id instance_id) = InInt64 user_id
HasInt64 (offline room user_id instance_id) = InInt64 user_id
HasInt64 (heartbeat room instance_id user_ids) = All InInt64 user_ids
HasInt64 (read_room room) = Unit
HasInt64 (read_rooms second) = Unit

abbrev pub AllInt64 : List Entry → Type 0
AllInt64 [] = Unit
AllInt64 (e ∷ h) = HasInt64 e.call × AllInt64 h

-- The expiry under a user's instance in a room after a call, from the one before.
abbrev pub reported : ℕ → Call → List ℕ → ℤ → List ℕ → Option ℕ → Option ℕ
reported expiry (online r u i) room user_id instance_id old =
    ite (Bytes_discrete room r)
      (ite (ℤ_discrete user_id u) (ite (Bytes_discrete instance_id i) (some expiry) old) old) old
reported expiry (offline r u i) room user_id instance_id old =
    ite (Bytes_discrete room r)
      (ite (ℤ_discrete user_id u) (ite (Bytes_discrete instance_id i) none old) old) old
reported expiry (heartbeat r i us) room user_id instance_id old =
    ite (Bytes_discrete room r)
      (ite (Bytes_discrete instance_id i)
        (if listed ℤ_discrete user_id us then some expiry else old) old)
      old
reported expiry (read_room r) room user_id instance_id old = old
reported expiry (read_rooms second) room user_id instance_id old = old

-- A call that was refused says nothing.
abbrev pub counted : Exec → Option ℕ → Option ℕ → Option ℕ
counted executed new old = new
counted unheard new old = new
counted refused new old = old

abbrev pub last_report : ℕ → List Entry → List ℕ → ℤ → List ℕ → Option ℕ
last_report ttl [] room user_id instance_id = none
last_report ttl (e ∷ h) room user_id instance_id =
    let old = last_report ttl h room user_id instance_id in
    counted e.exec (reported (e.now + ttl) e.call room user_id instance_id old) old
