-- ===== src/Gateway/EdgeCache/Refinement.antt =====
-- The edge cache against its abstract specification: a list of keys and entries, most recently used
-- first, cut to what fits.
use realtime_chat_platform.Prelude.Maps
use realtime_chat_platform.Prelude.{
  ℕ, zero, suc, ◌+◌, ◌-◌, ◌≤◌, ◌≡◌, refl, sym, ap, ◌∙◌, inl, inr, String, String_discrete, ◌||◌,
  ◌&&◌, none, some, List, [], ◌∷◌, ltb, leb, ltb→lt, not-ltb, if◌then◌else◌, length, Option-cases,
  Bool-cases, arith,
}
use realtime_chat_platform.Gateway.EdgeCache.{
  Entry, Element, Cache, move_to_front, back, get, evict, make_room, forget, push_front, put, stats,
}
use realtime_chat_platform.Gateway.EdgeCache.Elements.{
  key_get, id-of-key, length-remove, holds-of-key,
}
use realtime_chat_platform.Gateway.EdgeCache.Invariant.{
  Inv, evict-Inv, make_room-Inv, forget-Inv, push_front-Inv, forget_absent, forget_keeps,
  make_room_keeps, make_room_absent, back-key,
}
use realtime_chat_platform.Gateway.EdgeCache.Eviction.{
  Contents, listed, contents, weight, drop_last, keep, weight-listed, length-listed, keep_all,
  keep-drop_last, listed-get, listed-remove, listed-remove-back, weight-keep-le,
}

-- The specification of a read: a key that is there moves to the front.
abbrev pub touched : String → Contents → Contents
touched k l = elim (Maps.get String_discrete k l) [
  | none ↦ l
  | some entry ↦ (k, entry) ∷ Maps.delete String_discrete k l
]

-- The specification of a write: the new entry first, then the most recent others that fit beside
-- it.
abbrev pub written : ℕ → String → Entry → Contents → Contents
written max_bytes k entry l =
    (k, entry) ∷ keep (max_bytes - length entry.body) (Maps.delete String_discrete k l)

evict-contents :
    (c : Cache) (e : Element)
    → Inv c
    → back c.order ≡ some e
    → (contents (evict c e) ≡ drop_last (contents c))
      × (length (evict c e).order + 1 ≡ length c.order)
unfolding evict
evict-contents c e v last = (
  listed-remove-back c.order e v.ids last,
  length-remove e.value.key e c.order v.ids (back-key c.order e v.keys last),
)

keep_empty : (budget : ℕ) (l : List Element) → back l ≡ none → listed l ≡ keep budget (listed l)
unfolding listed keep back
keep_empty budget [] h = refl
keep_empty budget (x ∷ []) h = cc
keep_empty budget (x ∷ y ∷ l) h = absurd (back_some x y l h)
  where
    back_some : (x y : Element) (l : List Element) → back (x ∷ y ∷ l) ≡ none → ⊥
    back_some x y [] h = cc
    back_some x y (z ∷ l) h = back_some y z l h

weight-used : (c : Cache) → Inv c → weight (contents c) ≡ c.used
weight-used c v = weight-listed c.order ∙ sym v.used_total

-- The loop evicts from the back until the new entry fits, and no more than that.
make_room-keep :
    (fuel size : ℕ) (c : Cache)
    → Inv c
    → length c.order ≤ fuel
    → size ≤ c.max_bytes
    → contents (make_room fuel size c) ≡ keep (c.max_bytes - size) (contents c)
unfolding make_room evict
make_room-keep zero size c v enough small =
    keep_empty (c.max_bytes - size) c.order (back_of_length c.order enough)
  where
    back_of_length : (l : List Element) → length l ≤ 0 → back l ≡ none
    back_of_length [] h = unfold back in refl
    back_of_length (x ∷ l) h = absurd (omega arith)
make_room-keep (suc fuel) size c v enough small =
    elim (Bool-cases (ltb c.max_bytes (c.used + size))) [
      | inr fits ↦
          rw (fits, make_room)
            (sym (
              keep_all (c.max_bytes - size) (contents c)
                (omega (arith, weight-used c v, not-ltb _ _ fits))))
      | inl over ↦ elim (Option-cases (back c.order)) [
        | inl empty ↦ rw (over, empty, make_room) (keep_empty (c.max_bytes - size) c.order empty)
        | inr (e, last) ↦
            let (fewer, shorter) = evict-contents c e v last in
            let smaller =
              make_room-keep fuel size (evict c e)
                (evict-Inv c e v (back-key c.order e v.keys last)) (omega arith) small in
            rw (over, last, make_room)
              (smaller
                ∙ ap (keep (c.max_bytes - size)) fewer
                ∙ sym (
                    keep-drop_last (c.max_bytes - size) (contents c)
                      (omega (arith, weight-used c v, ltb→lt _ _ over))))
      ]
    ]

forget-contents :
    (c : Cache) (k : String)
    → Inv c
    → contents (forget c k) ≡ Maps.delete String_discrete k (contents c)
unfolding forget
forget-contents c k v = elim (Option-cases (Maps.get String_discrete k c.items)) [
  | inl absent ↦
      rw (absent, forget)
        (sym (
          Maps.delete_absent String_discrete k (contents c)
            (ground (arith, listed-get k c.order, v.agree k))))
  | inr (e, found) ↦
      rw (found, forget) (listed-remove k e c.order v.keys v.ids (sym (v.agree k) ∙ found))
]

get-contents : (c : Cache) (k : String) → Inv c → contents (get c k).0 ≡ touched k (contents c)
unfolding get move_to_front listed
get-contents c k v = elim (Option-cases (Maps.get String_discrete k c.items)) [
  | inl absent ↦ rw (absent, get) (ground (arith, listed-get k c.order, v.agree k))
  | inr (e, found) ↦
      let h : key_get k c.order ≡ some e = sym (v.agree k) ∙ found in
      rw (found, get, holds-of-key k e c.order h)
        (ground (
          arith,
          listed-get k c.order,
          listed-remove k e c.order v.keys v.ids h,
          id-of-key k e c.order h,
        ))
]

-- A read of a cache with the invariant answers what the contents hold under the key, moves a key
-- that is there to the front, and leaves the bytes held as they are.
pub get_refines :
    (c : Cache) (k : String)
    → Inv c
    → ((get c k).1 ≡ Maps.get String_discrete k (contents c))
      × (contents (get c k).0 ≡ touched k (contents c))
      × ((get c k).0.used ≡ c.used)
unfolding get
get_refines c k v =
    (ground (arith, listed-get k c.order, v.agree k), get-contents c k v, ground arith)

-- With the invariant, a write is refused, with nothing changed, exactly when the entry alone is
-- over a limit; otherwise the cache holds the new entry first and then the longest run of the most
-- recently used others that fits beside it.
pub put_refines :
    (c : Cache) (k : String) (entry : Entry)
    → Inv c
    → ((put c k entry).1
        ≡ leb (length entry.body) c.max_entry && leb (length entry.body) c.max_bytes)
      × (contents (put c k entry).0
          ≡ (if (put c k entry).1 then written c.max_bytes k entry (contents c) else contents c))
unfolding put push_front listed
put_refines c k entry v =
    let size = length entry.body in
    let d = forget c k in
    let room : size ≤ d.max_bytes
        → contents (make_room (length d.order) size d) ≡ keep (d.max_bytes - size) (contents d) =
      make_room-keep (length d.order) size d (forget-Inv c k v) (omega arith) in
    ground (arith, room, forget-contents c k v, forget_keeps c k)

-- A write keeps the invariant, so the bytes held never pass the limit.
pub put-Inv : (c : Cache) (k : String) (entry : Entry) → Inv c → Inv (put c k entry).0
unfolding put
put-Inv c k entry v = elim (Bool-cases (ltb c.max_entry size || ltb c.max_bytes size)) [
  | inl refused ↦ rw refused v
  | inr fits ↦ rw fits (
      push_front-Inv room k entry (make_room-Inv (length d.order) size d (forget-Inv c k v))
        (make_room_absent (length d.order) size d k (forget_absent c k)) (fit (ground arith)))
]
  where
    size : ℕ
    size = length entry.body

    d : Cache
    d = forget c k

    room : Cache
    room = make_room (length d.order) size d

    kept : Inv room
    kept = make_room-Inv (length d.order) size d (forget-Inv c k v)

    fit : size ≤ c.max_bytes → room.used + size ≤ room.max_bytes
    fit small = omega (
      arith,
      weight-used room kept,
      ap weight (
          make_room-keep (length d.order) size d (forget-Inv c k v) (omega arith)
            (omega (arith, forget_keeps c k))),
      weight-keep-le (d.max_bytes - size) (contents d),
      make_room_keeps (length d.order) size d,
      forget_keeps c k,
    )

-- With the invariant, what `Stats` reports is the number and the size of the entries that the cache
-- holds, and within its limit.
stats_refines :
    (c : Cache)
    → Inv c
    → ((stats c).entries ≡ length (contents c))
      × ((stats c).used_bytes ≡ weight (contents c))
      × ((stats c).used_bytes ≤ (stats c).max_bytes)
unfolding stats
stats_refines c v = (v.count ∙ sym (length-listed c.order), sym (weight-used c v), v.bounded)
