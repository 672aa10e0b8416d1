-- ===== src/Gateway/EdgeCache/History.antt =====
-- Runs of the edge cache against runs of its specification.
use realtime_chat_platform.Prelude.{
  ℕ, ◌≡◌, refl, ap, ◌∙◌, String, ◌&&◌, List, [], ◌∷◌, leb, if◌then◌else◌, length, arith,
}
use realtime_chat_platform.Gateway.EdgeCache.{Entry, Cache, new_cache, get, forget, push_front, put}
use realtime_chat_platform.Gateway.EdgeCache.Invariant.{
  Inv, new_cache-Inv, get-Inv, forget_keeps, make_room_keeps,
}
use realtime_chat_platform.Gateway.EdgeCache.Eviction.{Contents, listed, contents}
use realtime_chat_platform.Gateway.EdgeCache.Refinement.{
  touched, written, get_refines, put_refines, put-Inv,
}

-- The limits never change.
put_keeps :
    (c : Cache) (k : String) (entry : Entry)
    → ((put c k entry).0.max_bytes ≡ c.max_bytes) × ((put c k entry).0.max_entry ≡ c.max_entry)
unfolding put push_front
put_keeps c k entry =
    let d = forget c k in
    ground (arith, forget_keeps c k, make_room_keeps (length d.order) (length entry.body) d)

pub data Call : Type 0 where
  read : String → Call
  write : String → Entry → Call

unfoldable pub step : Cache → Call → Cache
step c (read k) = (get c k).0
step c (write k entry) = (put c k entry).0

unfoldable pub run : Cache → List Call → Cache
run c [] = c
run c (call ∷ calls) = run (step c call) calls

-- The same calls on the specification, under fixed limits.
abbrev pub spec_step : ℕ → ℕ → Contents → Call → Contents
spec_step max_bytes max_entry l (read k) = touched k l
spec_step max_bytes max_entry l (write k entry) =
    if leb (length entry.body) max_entry && leb (length entry.body) max_bytes
    then written max_bytes k entry l
    else l

abbrev pub spec_run : ℕ → ℕ → Contents → List Call → Contents
spec_run max_bytes max_entry l [] = l
spec_run max_bytes max_entry l (call ∷ calls) =
    spec_run max_bytes max_entry (spec_step max_bytes max_entry l call) calls

step-Inv : (c : Cache) (call : Call) → Inv c → Inv (step c call)
unfolding step
step-Inv c (read k) v = get-Inv c k v
step-Inv c (write k entry) v = put-Inv c k entry v

step_keeps :
    (c : Cache) (call : Call)
    → ((step c call).max_bytes ≡ c.max_bytes) × ((step c call).max_entry ≡ c.max_entry)
unfolding step get
step_keeps c (read k) = ground arith
step_keeps c (write k entry) = put_keeps c k entry

step_refines :
    (c : Cache) (call : Call)
    → Inv c
    → contents (step c call) ≡ spec_step c.max_bytes c.max_entry (contents c) call
unfolding step
step_refines c (read k) v = (get_refines c k v).1
step_refines c (write k entry) v = ground (arith, put_refines c k entry v)

run_refines_from :
    (max_bytes max_entry : ℕ) (c : Cache) (calls : List Call)
    → Inv c
    → c.max_bytes ≡ max_bytes
    → c.max_entry ≡ max_entry
    → Inv (run c calls) × (contents (run c calls) ≡ spec_run max_bytes max_entry (contents c) calls)
unfolding run
run_refines_from b m c [] v hb hm = (v, refl)
run_refines_from b m c (call ∷ calls) v hb hm =
    let (kb, km) = step_keeps c call in
    let (inv, same) =
      run_refines_from b m (step c call) calls (step-Inv c call v) (kb ∙ hb) (km ∙ hm) in
    (inv, same ∙ ap (λ l. spec_run b m l calls) (rw (← hb, ← hm) (step_refines c call v)))

-- After any reads and writes of a new cache the invariant holds, and the cache holds exactly the
-- entries of the specification, in its order.
pub run_refines :
    (max_bytes max_entry : ℕ) (calls : List Call)
    → Inv (run (new_cache max_bytes max_entry) calls)
      × (contents (run (new_cache max_bytes max_entry) calls)
          ≡ spec_run max_bytes max_entry [] calls)
unfolding new_cache listed
run_refines max_bytes max_entry calls =
    run_refines_from max_bytes max_entry (new_cache max_bytes max_entry) calls
      (new_cache-Inv max_bytes max_entry) refl refl
