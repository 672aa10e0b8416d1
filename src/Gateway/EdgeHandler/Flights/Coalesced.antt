-- ===== src/Gateway/EdgeHandler/Flights/Coalesced.antt =====
-- One fetch per hash, and nobody waits for a fetch that does not run.
use realtime_chat_platform.Prelude.Maps
use realtime_chat_platform.Prelude.{
  ℕ, ◌≡◌, ◌≢◌, refl, sym, ap, ◌∙◌, subst, inl, inr, String, String_discrete, ℕ_discrete, Option,
  Option-cases, none, some, List, [], ◌∷◌, ite, if_pos, if_neg, All, arith,
}
use realtime_chat_platform.Gateway.EdgeCache.{Cache}
use realtime_chat_platform.Gateway.EdgeHandler.{OriginResponse}
use realtime_chat_platform.Gateway.EdgeHandler.Flights.{
  Waiter, Flights, new_flights, enter, still_waiting, finish, Step, entered, finished, step, run,
}

abbrev pub IsServed : List (String × ℕ) → Waiter → Type 0
IsServed running w = Maps.get String_discrete w.hash running ≡ some w.fetch_id

pub record IsCoalesced (f : Flights) : Type 0 where
  -- the map of the fetches in flight is right
  pub agree :
      (k : String) → Maps.get String_discrete k f.inflight ≡ Maps.get String_discrete k f.running
  -- no hash is fetched twice at a time
  pub one_each : Maps.Distinct String_discrete f.running
  -- whoever waits, waits for a fetch of its hash that runs
  pub served : All (IsServed f.running) f.waiting

start_one :
    (hash : String) (id : ℕ) (running : List (String × ℕ)) (w : Waiter)
    → Maps.get String_discrete hash running ≡ none
    → IsServed running w
    → IsServed ((hash, id) ∷ running) w
unfolding Maps.get
start_one hash id running w none_ h = elim (String_discrete w.hash hash) [
  | yes e ↦ absurd (let found = sym (ap (λ k. Maps.get String_discrete k running) e) ∙ h in cc)
  | no ne ↦ if_neg (String_discrete w.hash hash) ne _ _ ∙ h
]

served-start :
    (hash : String) (id : ℕ) (running : List (String × ℕ)) (ws : List Waiter)
    → Maps.get String_discrete hash running ≡ none
    → All (IsServed running) ws
    → All (IsServed ((hash, id) ∷ running)) ws
served-start hash id running [] none_ a = tt
served-start hash id running (w ∷ ws) none_ a =
    (start_one hash id running w none_ a.0, served-start hash id running ws none_ a.1)

end_one :
    (hash : String) (id : ℕ) (running : List (String × ℕ)) (w : Waiter)
    → Maps.get String_discrete hash running ≡ some id
    → w.fetch_id ≢ id
    → IsServed running w
    → IsServed (Maps.delete String_discrete hash running) w
end_one hash id running w found other h = elim (String_discrete w.hash hash) [
  | yes e ↦ absurd (
      let both : some w.fetch_id ≡ some id =
        sym h ∙ ap (λ k. Maps.get String_discrete k running) e ∙ found in
      other (let same : w.fetch_id ≡ id = cc in same))
  | no ne ↦
      Maps.get-delete String_discrete w.hash hash running
      ∙ if_neg (String_discrete w.hash hash) ne _ _
      ∙ h
]

served-end :
    (hash : String) (id : ℕ) (running : List (String × ℕ)) (ws : List Waiter)
    → Maps.get String_discrete hash running ≡ some id
    → All (IsServed running) ws
    → All (IsServed (Maps.delete String_discrete hash running)) (still_waiting id ws)
unfolding still_waiting
served-end hash id running [] found a = tt
served-end hash id running (w ∷ ws) found a =
    let rest = served-end hash id running ws found a.1 in
    let P = All (IsServed (Maps.delete String_discrete hash running)) in
    elim (ℕ_discrete w.fetch_id id) [
      | yes e ↦ subst P (sym (if_pos (ℕ_discrete w.fetch_id id) e _ _)) rest
      | no other ↦
          subst P (sym (if_neg (ℕ_discrete w.fetch_id id) other _ _))
            (end_one hash id running w found other a.0, rest)
    ]

enter-IsCoalesced :
    (f : Flights) (request : ℕ) (hash : String) → IsCoalesced f → IsCoalesced (enter f request hash)
unfolding enter Maps.get
enter-IsCoalesced f request hash v =
    elim (Option-cases (Maps.get String_discrete hash f.inflight)) [
      | inl absent ↦
          let free = sym (v.agree hash) ∙ absent in
          rw (absent, enter)
            (record {
              agree = λ k.
                  ground
                    (arith, Maps.get-put String_discrete k hash f.next_id f.inflight, v.agree k);
              one_each = (free, v.one_each);
              served = (
                if_pos (String_discrete hash hash) refl _ _,
                served-start hash f.next_id f.running f.waiting free v.served,
              );
            })
      | inr (id, found) ↦
          rw (found, enter)
            (record {
              agree = v.agree;
              one_each = v.one_each;
              served = (sym (v.agree hash) ∙ found, v.served);
            })
    ]

finish-IsCoalesced :
    (f : Flights) (hash : String) (fetched : Option OriginResponse)
    → IsCoalesced f
    → IsCoalesced (finish f hash fetched)
unfolding finish
finish-IsCoalesced f hash fetched v =
    elim (Option-cases (Maps.get String_discrete hash f.running)) [
      | inl absent ↦ rw (absent, finish) v
      | inr (id, found) ↦
          rw (found, finish)
            (record {
              agree = λ k.
                  Maps.get-delete String_discrete k hash f.inflight
                  ∙ ap (λ o. ite (String_discrete k hash) none o) (v.agree k)
                  ∙ sym (Maps.get-delete String_discrete k hash f.running);
              one_each = Maps.delete-Distinct String_discrete hash f.running v.one_each;
              served = served-end hash id f.running f.waiting found v.served;
            })
    ]

pub new_flights-IsCoalesced : (cache : Cache) → IsCoalesced (new_flights cache)
unfolding new_flights
new_flights-IsCoalesced cache = record { agree = λ k. refl; one_each = tt; served = tt }

pub run-IsCoalesced : (steps : List Step) (f : Flights) → IsCoalesced f → IsCoalesced (run f steps)
unfolding run step
run-IsCoalesced [] f v = v
run-IsCoalesced (entered request hash ∷ steps) f v =
    run-IsCoalesced steps (enter f request hash) (enter-IsCoalesced f request hash v)
run-IsCoalesced (finished hash fetched ∷ steps) f v =
    run-IsCoalesced steps (finish f hash fetched) (finish-IsCoalesced f hash fetched v)

-- However requests enter and fetches end, no hash is fetched from the origin twice at a time, the
-- map names exactly the fetches that run, and every request that waits, waits for a running fetch
-- of the hash that it asked for.
pub flights_coalesce :
    (cache : Cache) (steps : List Step) → IsCoalesced (run (new_flights cache) steps)
flights_coalesce cache steps =
    run-IsCoalesced steps (new_flights cache) (new_flights-IsCoalesced cache)
