-- ===== src/Tests/Gateway.antt =====
-- The edge cache and its handler at concrete inputs.
use realtime_chat_platform.Prelude.Maps
use realtime_chat_platform.Prelude.{
  ◌≡◌, refl, String_discrete, false, none, some, List, [], ◌∷◌, ◌++◌, ◌≤◌, map, length, ℕ_discrete,
  arith,
}
use realtime_chat_platform.Gateway.EdgeCache.{
  Entry, Cache, new_cache, get, put, push_front, make_room, forget, move_to_front, back, evict,
}
use realtime_chat_platform.Gateway.EdgeCache.Eviction.{listed, contents}
use realtime_chat_platform.Gateway.EdgeCache.Invariant.{Inv, new_cache-Inv}
use realtime_chat_platform.Gateway.EdgeCache.History.{
  Call, read, write, step, run, spec_run, run_refines,
}
use realtime_chat_platform.Gateway.EdgeHandler.{OriginResponse, kept, fetch, answer, serve}
use realtime_chat_platform.Gateway.EdgeHandler.Flights
use realtime_chat_platform.Gateway.EdgeHandler.Flights.{
  Flights, Waiter, new_flights, enter, finish, entered, finished,
}
use realtime_chat_platform.Gateway.EdgeHandler.Flights.Coalesced.{IsCoalesced, flights_coalesce}
use realtime_chat_platform.Gateway.EdgeHandler.Flights.Answered.{
  asked_for, asked_for_others, answer_with, finish_answers,
}
use realtime_chat_platform.Gateway.EdgeHandler.Serving.{serve_fills}

abbrev avatar : Entry
avatar = record { body = 1 ∷ 2 ∷ []; content_type = "image/png"; etag = "a" }

abbrev banner : Entry
banner = record { body = 3 ∷ 4 ∷ 5 ∷ []; content_type = "image/png"; etag = "b" }

abbrev calls : List Call
calls = write "a" avatar ∷ read "a" ∷ read "b" ∷ write "b" banner ∷ write "a" avatar ∷ []

abbrev used_cache : Cache
used_cache = run (new_cache 4 3) calls

used_cache-Inv : Inv used_cache
used_cache-Inv = (run_refines 4 3 calls).0

-- The second write evicts the first entry, the third the second.
used_cache-contents : contents used_cache ≡ ("a", avatar) ∷ []
unfolding run step new_cache put get String_discrete listed Maps.get push_front Maps.put make_room
    forget move_to_front ℕ_discrete back evict
used_cache-contents = refl

run_refines_example :
    Inv (run (new_cache 4 3) calls) × (contents (run (new_cache 4 3) calls) ≡ spec_run 4 3 [] calls)
run_refines_example = run_refines 4 3 calls

abbrev origin : OriginResponse
origin = record {
  status = 200;
  etag = "a";
  cache_control = "public, immutable";
  content_type = "image/png";
  content_length = some 2;
  body = record { bytes = 1 ∷ 2 ∷ []; broken = false };
}

origin_kept : fetch 3 (some origin) ≡ kept avatar
unfolding fetch String_discrete
origin_kept = refl

abbrev empty_cache : Cache
empty_cache = new_cache 4 3

absent : (get empty_cache "a").1 ≡ none
unfolding get new_cache Maps.get
absent = refl

kept_by_limit : fetch empty_cache.max_entry (some origin) ≡ kept avatar
unfolding fetch new_cache String_discrete
kept_by_limit = refl

fits : length avatar.body ≤ empty_cache.max_bytes
unfolding new_cache
fits = omega arith

serve_fills_example :
    (let (c', first_answer) = serve empty_cache "a" "" (some origin) none in
      (first_answer ≡ answer "MISS" avatar "")
      × ((serve c' "a" "a" none none).1 ≡ answer "HIT" avatar "a"))
serve_fills_example =
    serve_fills empty_cache "a" "" origin none avatar "a" none none (new_cache-Inv 4 3) absent
      kept_by_limit fits

-- Three misses, two of them for one hash, and the end of its fetch.
abbrev misses : List Flights.Step
misses = entered 0 "a" ∷ entered 1 "a" ∷ entered 2 "b" ∷ finished "a" (some origin) ∷ []

flights_coalesce_example : IsCoalesced (Flights.run (new_flights empty_cache) misses)
flights_coalesce_example = flights_coalesce empty_cache misses

-- Two ask for "a" and one for "b".
abbrev three_wait : List Flights.Step
three_wait = entered 0 "a" ∷ entered 1 "b" ∷ entered 2 "a" ∷ []

abbrev asked : Flights
asked = Flights.run (new_flights empty_cache) three_wait

fetch_runs : Maps.get String_discrete "a" asked.running ≡ some 0
unfolding Flights.run Flights.step enter new_flights Maps.get Maps.put String_discrete
fetch_runs = refl

finish_answers_example :
    ((finish asked "a" (some origin)).answered
      ≡ map (answer_with (fetch asked.cache.max_entry (some origin))) (asked_for "a" asked.waiting)
        ++ asked.answered)
    × ((finish asked "a" (some origin)).waiting ≡ asked_for_others "a" asked.waiting)
finish_answers_example = finish_answers empty_cache three_wait "a" 0 (some origin) fetch_runs
