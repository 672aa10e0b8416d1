-- ===== src/Queues/Pool.antt =====
-- A bounded channel with the workers that receive from it, as the loops and drains of
-- chat-service/internal/dispatch/dispatcher.go run them. A worker that has received an event has it
-- in hand until its handler has made its call; the workers of a pool may do so in any order.
pub mod Calls
pub mod Draining
pub mod Ending
use realtime_chat_platform.Prelude.{
  ℕ, zero, suc, ◌+◌, Bool, true, false, List, [], ◌∷◌, ◌++◌, length,
}
use realtime_chat_platform.Queues.{Channel, new_channel, offer, work}

pub record Pool (A C : Type 0) : Type 0 where
  pub channel : Channel A
  -- the workers that have no event in hand and have not returned
  pub idle : ℕ
  pub in_hand : List A
  -- the calls that the handlers have made, oldest first
  pub calls : List C

unfoldable pub new_pool : {A C : Type 0} → ℕ → ℕ → Pool A C
unfolding new_channel
new_pool capacity workers = record {
  channel = new_channel capacity;
  idle = workers;
  in_hand = [];
  calls = [];
}

-- The workers that have not returned: what is left in the wait group.
abbrev pub working : {A C : Type 0} → Pool A C → ℕ
working p = p.idle + length p.in_hand

unfoldable pub offer_to : {A C : Type 0} → Pool A C → A → Pool A C
offer_to p event = record p { channel = offer p.channel event }

-- An idle worker receives the oldest event, in its loop or in its drain.
abbrev pub receive_at : {A C : Type 0} → Pool A C → ℕ → List A → Pool A C
receive_at p zero queue = p
receive_at p (suc w) [] = p
receive_at p (suc w) (event ∷ rest) = record p {
  channel = work p.channel;
  idle = w;
  in_hand = p.in_hand ++ (event ∷ []);
}

-- The handler of the `n`th event in hand: what is still in hand, and the call made.
abbrev pub finish_nth : {A C : Type 0} → (A → C) → ℕ → List A → List A × List C
finish_nth handle n [] = ([], [])
finish_nth handle zero (event ∷ events) = (events, handle event ∷ [])
finish_nth handle (suc n) (event ∷ events) =
    let (rest, made) = finish_nth handle n events in (event ∷ rest, made)

abbrev pub finish_at : {A C : Type 0} → Pool A C → List A × List C → Pool A C
finish_at p (rest, made) = record p {
  idle = p.idle + length made;
  in_hand = rest;
  calls = p.calls ++ made;
}

-- An idle worker returns once `stop` is closed and it finds the queue empty.
abbrev pub return_at : {A C : Type 0} → Bool → Pool A C → ℕ → List A → Pool A C
return_at true p (suc w) [] = record p { idle = w }
return_at true p (suc w) (event ∷ rest) = p
return_at true p zero queue = p
return_at false p w queue = p

pub data WorkerStep : Type 0 where
  received : WorkerStep
  finished : ℕ → WorkerStep
  returned : WorkerStep

-- One step of some worker; `stopped` says whether `stop` is closed.
unfoldable pub work_pool : {A C : Type 0} → (A → C) → Bool → Pool A C → WorkerStep → Pool A C
work_pool handle stopped p received = receive_at p p.idle p.channel.queue
work_pool handle stopped p (finished n) = finish_at p (finish_nth handle n p.in_hand)
work_pool handle stopped p returned = return_at stopped p p.idle p.channel.queue
