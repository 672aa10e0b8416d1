-- ===== src/Gateway/EdgeHandler/Flights/Answered.antt =====
-- Who is answered by the end of a fetch, and with what.
use realtime_chat_platform.Prelude.Maps
use realtime_chat_platform.Prelude.{
  ℕ, ◌<◌, ◌≡◌, refl, sym, ap, ◌∙◌, inl, inr, String, String_discrete, Option, Option-cases, some,
  List, [], ◌∷◌, ◌++◌, map, ite, All, arith,
}
use realtime_chat_platform.Gateway.EdgeCache.{Cache}
use realtime_chat_platform.Gateway.EdgeHandler.{OriginResponse, FetchResult, fetch}
use realtime_chat_platform.Gateway.EdgeHandler.Flights.{
  Waiter, Flights, new_flights, enter, still_waiting, answers, finish, Step, entered, finished,
  step, run,
}
use realtime_chat_platform.Gateway.EdgeHandler.Flights.Coalesced.{
  IsServed, new_flights-IsCoalesced, run-IsCoalesced,
}

-- Each running fetch has an id of its own.
record HasOwnIds (f : Flights) : Type 0 where
  own :
      (j k : String) (n : ℕ)
      → Maps.get String_discrete j f.running ≡ some n
      → Maps.get String_discrete k f.running ≡ some n
      → j ≡ k
  below : (k : String) (n : ℕ) → Maps.get String_discrete k f.running ≡ some n → n < f.next_id

enter-HasOwnIds :
    (f : Flights) (request : ℕ) (hash : String) → HasOwnIds f → HasOwnIds (enter f request hash)
unfolding enter Maps.get
enter-HasOwnIds f request hash v = elim (Option-cases (Maps.get String_discrete hash f.inflight)) [
  | inl absent ↦
      rw (absent, enter)
        (record {
          own = λ j k n p q. ground (arith, v.own j k n, v.below j n, v.below k n);
          below = λ k n p. ground (arith, v.below k n);
        })
  | inr (id, found) ↦ rw (found, enter) (record { own = v.own; below = v.below })
]

finish-HasOwnIds :
    (f : Flights) (hash : String) (fetched : Option OriginResponse)
    → HasOwnIds f
    → HasOwnIds (finish f hash fetched)
unfolding finish
finish-HasOwnIds f hash fetched v = elim (Option-cases (Maps.get String_discrete hash f.running)) [
  | inl absent ↦ rw (absent, finish) v
  | inr (id, found) ↦
      rw (found, finish)
        (record {
          own = λ j k n p q. ground (
            arith,
            v.own j k n,
            Maps.get-delete String_discrete j hash f.running,
            Maps.get-delete String_discrete k hash f.running,
          );
          below = λ k n p.
              ground (arith, v.below k n, Maps.get-delete String_discrete k hash f.running);
        })
]

run-HasOwnIds : (steps : List Step) (f : Flights) → HasOwnIds f → HasOwnIds (run f steps)
unfolding run step
run-HasOwnIds [] f v = v
run-HasOwnIds (entered request hash ∷ steps) f v =
    run-HasOwnIds steps (enter f request hash) (enter-HasOwnIds f request hash v)
run-HasOwnIds (finished hash fetched ∷ steps) f v =
    run-HasOwnIds steps (finish f hash fetched) (finish-HasOwnIds f hash fetched v)

new_flights-HasOwnIds : (cache : Cache) → HasOwnIds (new_flights cache)
unfolding new_flights Maps.get
new_flights-HasOwnIds cache = record { own = λ j k n p q. absurd cc; below = λ k n p. absurd cc }

-- Those who asked for a hash, and those who asked for another.
abbrev pub asked_for : String → List Waiter → List Waiter
asked_for hash [] = []
asked_for hash (w ∷ ws) =
    ite (String_discrete w.hash hash) (w ∷ asked_for hash ws) (asked_for hash ws)

abbrev pub asked_for_others : String → List Waiter → List Waiter
asked_for_others hash [] = []
asked_for_others hash (w ∷ ws) =
    ite (String_discrete w.hash hash) (asked_for_others hash ws) (w ∷ asked_for_others hash ws)

abbrev pub answer_with : FetchResult → Waiter → ℕ × FetchResult
answer_with result w = (w.request, result)

module _ (f : Flights) (hash : String) (id : ℕ) (v : HasOwnIds f)
    (found : Maps.get String_discrete hash f.running ≡ some id) where
  same_hash : (w : Waiter) → IsServed f.running w → w.fetch_id ≡ id → w.hash ≡ hash
  same_hash w s e = v.own w.hash hash id (s ∙ ap some e) found

  same_id : (w : Waiter) → IsServed f.running w → w.hash ≡ hash → w.fetch_id ≡ id
  same_id w s e =
      let both : some w.fetch_id ≡ some id =
        sym s ∙ ap (λ k. Maps.get String_discrete k f.running) e ∙ found in
      cc

  answers_of_hash :
      (result : FetchResult) (ws : List Waiter) (old : List (ℕ × FetchResult))
      → All (IsServed f.running) ws
      → answers id result ws old ≡ map (answer_with result) (asked_for hash ws) ++ old
  unfolding answers
  answers_of_hash result [] old served = refl
  answers_of_hash result (w ∷ ws) old served =
      ground
        (arith, same_hash w served.0, same_id w served.0, answers_of_hash result ws old served.1)

  still_waiting_of_hash :
      (ws : List Waiter)
      → All (IsServed f.running) ws
      → still_waiting id ws ≡ asked_for_others hash ws
  unfolding still_waiting
  still_waiting_of_hash [] served = refl
  still_waiting_of_hash (w ∷ ws) served =
      ground (arith, same_hash w served.0, same_id w served.0, still_waiting_of_hash ws served.1)

-- However requests entered and fetches ended before: when the fetch of a hash ends, exactly the
-- requests that asked for the hash and wait are answered, each once and with the result of this
-- fetch, and exactly those that asked for another hash wait on.
pub finish_answers :
    (cache : Cache) (steps : List Step) (hash : String) (id : ℕ) (fetched : Option OriginResponse)
    → Maps.get String_discrete hash (run (new_flights cache) steps).running ≡ some id
    → let f = run (new_flights cache) steps in
      let result = fetch f.cache.max_entry fetched in
      ((finish f hash fetched).answered
        ≡ map (answer_with result) (asked_for hash f.waiting) ++ f.answered)
      × ((finish f hash fetched).waiting ≡ asked_for_others hash f.waiting)
unfolding finish
finish_answers cache steps hash id fetched found =
    let f = run (new_flights cache) steps in
    let served =
      (run-IsCoalesced steps (new_flights cache) (new_flights-IsCoalesced cache)).served in
    let own = run-HasOwnIds steps (new_flights cache) (new_flights-HasOwnIds cache) in
    let result = fetch f.cache.max_entry fetched in
    (
      rw (found, finish) (answers_of_hash f hash id own found result f.waiting f.answered served),
      rw (found, finish) (still_waiting_of_hash f hash id own found f.waiting served),
    )
