-- ===== src/Gateway/EdgeHandler/Flights.antt =====
-- `fetchOnce` of gateway/internal/edgecache/handler.go under concurrent misses: the requests that
-- enter it and the fetches that end, in any order. What follows a fetch up to the close of `done`
-- is one step: a request that enters in between joins the fetch, like one that entered before it.
pub mod Coalesced
pub mod Answered
use realtime_chat_platform.Prelude.Maps
use realtime_chat_platform.Prelude.{
  ℕ, suc, String, String_discrete, ℕ_discrete, Option, none, some, List, [], ◌∷◌, ite,
}
use realtime_chat_platform.Gateway.EdgeCache.{Cache, put}
use realtime_chat_platform.Gateway.EdgeHandler.{
  OriginResponse, FetchResult, fetch_failed, not_kept, kept, fetch,
}

-- A request that waits for the end of a fetch; `fetch_id` stands for the pointer of the result.
pub record Waiter : Type 0 where
  pub request : ℕ
  pub hash : String
  pub fetch_id : ℕ

pub record Flights : Type 0 where
  pub cache : Cache
  pub inflight : List (String × ℕ)
  -- the origin fetches that run, by the hash they fetch
  pub running : List (String × ℕ)
  pub waiting : List Waiter
  pub answered : List (ℕ × FetchResult)
  pub next_id : ℕ

unfoldable pub new_flights : Cache → Flights
new_flights cache = record {
  cache = cache;
  inflight = [];
  running = [];
  waiting = [];
  answered = [];
  next_id = 0;
}

-- The first half of `fetchOnce`.
unfoldable pub enter : Flights → ℕ → String → Flights
enter f request hash = elim (Maps.get String_discrete hash f.inflight) [
  | some id ↦ record f {
    waiting = record { request = request; hash = hash; fetch_id = id } ∷ f.waiting;
  }
  | none ↦ record f {
    inflight = Maps.put String_discrete hash f.next_id f.inflight;
    running = (hash, f.next_id) ∷ f.running;
    waiting = record { request = request; hash = hash; fetch_id = f.next_id } ∷ f.waiting;
    next_id = suc f.next_id;
  }
]

-- Those who wait for other fetches, and the answers of those who wait for this one.
unfoldable pub still_waiting : ℕ → List Waiter → List Waiter
still_waiting id [] = []
still_waiting id (w ∷ ws) =
    let rest = still_waiting id ws in ite (ℕ_discrete w.fetch_id id) rest (w ∷ rest)

unfoldable pub answers :
    ℕ → FetchResult → List Waiter → List (ℕ × FetchResult) → List (ℕ × FetchResult)
answers id result [] old = old
answers id result (w ∷ ws) old =
    let rest = answers id result ws old in
    ite (ℕ_discrete w.fetch_id id) ((w.request, result) ∷ rest) rest

unfoldable pub store_result : Cache → String → FetchResult → Cache
store_result cache hash fetch_failed = cache
store_result cache hash (not_kept status) = cache
store_result cache hash (kept entry) = (put cache hash entry).0

-- The second half, for the fetch of a hash.
unfoldable pub finish : Flights → String → Option OriginResponse → Flights
unfolding fetch store_result still_waiting answers
finish f hash fetched = elim (Maps.get String_discrete hash f.running) [
  | none ↦ f
  | some id ↦
      let result = fetch f.cache.max_entry fetched in
      record f {
        cache = store_result f.cache hash result;
        inflight = Maps.delete String_discrete hash f.inflight;
        running = Maps.delete String_discrete hash f.running;
        waiting = still_waiting id f.waiting;
        answered = answers id result f.waiting f.answered;
      }
]

pub data Step : Type 0 where
  entered : ℕ → String → Step
  finished : String → Option OriginResponse → Step

unfoldable pub step : Flights → Step → Flights
unfolding enter finish
step f (entered request hash) = enter f request hash
step f (finished hash fetched) = finish f hash fetched

unfoldable pub run : Flights → List Step → Flights
unfolding step
run f [] = f
run f (s ∷ steps) = run (step f s) steps
