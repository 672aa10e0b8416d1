-- ===== src/Gateway/EdgeCache/Invariant.antt =====
-- What holds of the edge cache between two calls: the map and the list hold the same elements, and
-- the byte count is theirs.
use realtime_chat_platform.Prelude.Maps
use realtime_chat_platform.Prelude.{
  ℕ, zero, suc, ◌+◌, ◌≤◌, ◌<◌, ◌≡◌, refl, sym, ap, ◌∙◌, subst, inl, inr, String, String_discrete,
  none, some, List, [], ◌∷◌, ltb, length, All, ℕ_discrete, Option-cases, Bool-cases, arith,
}
use realtime_chat_platform.Gateway.EdgeCache.{
  Entry, Element, Cache, remove, move_to_front, back, u64, new_cache, get, evict, make_room, forget,
  push_front,
}
use realtime_chat_platform.Gateway.EdgeCache.Elements.{
  by_key, by_id, total, key_get, id_get, id-of-key, by_key-remove, by_id-remove, total-remove,
  length-remove, holds-of-key, All-remove,
}

pub record Inv (c : Cache) : Type 0 where
  pub keys : Maps.Distinct String_discrete (by_key c.order)
  pub ids : Maps.Distinct ℕ_discrete (by_id c.order)
  pub fresh : All (λ e. e.id < c.next_id) c.order
  pub agree : (k : String) → Maps.get String_discrete k c.items ≡ key_get k c.order
  pub distinct : Maps.Distinct String_discrete c.items
  pub count : length c.items ≡ length c.order
  pub used_total : c.used ≡ total c.order
  pub bounded : c.used ≤ c.max_bytes

pub new_cache-Inv : (max_bytes max_entry : ℕ) → Inv (new_cache max_bytes max_entry)
unfolding new_cache Maps.get
new_cache-Inv max_bytes max_entry = record {
  keys = tt;
  ids = tt;
  fresh = tt;
  agree = λ k. refl;
  distinct = tt;
  count = refl;
  used_total = refl;
  bounded = omega arith;
}

-- Dropping an element that its key finds.
pub evict-Inv :
    (c : Cache) (e : Element) → Inv c → key_get e.value.key c.order ≡ some e → Inv (evict c e)
unfolding evict
evict-Inv c e v h = record {
  keys = rw shorter (Maps.delete-Distinct String_discrete k (by_key c.order) v.keys);
  ids =
      rw (by_id-remove e c.order v.ids)
        (Maps.delete-Distinct ℕ_discrete e.id (by_id c.order) v.ids);
  fresh = All-remove c.next_id e c.order v.fresh;
  agree = λ j.
      rw (Maps.get-delete String_discrete j k c.items)
        (rw shorter (rw (Maps.get-delete String_discrete j k (by_key c.order)) (rw (v.agree j))));
  distinct = Maps.delete-Distinct String_discrete k c.items v.distinct;
  count = omega (
    arith,
    length-remove k e c.order v.ids h,
    Maps.length-delete String_discrete k c.items e v.distinct (v.agree k ∙ h),
    v.count,
  );
  used_total = omega (arith, total-remove k e c.order v.ids h, v.used_total);
  bounded = omega (arith, v.bounded);
}
  where
    k : String
    k = e.value.key

    shorter : by_key (remove e c.order) ≡ Maps.delete String_discrete k (by_key c.order)
    shorter = by_key-remove k e c.order v.keys v.ids h

-- The last element is the one that its key finds.
pub back-key :
    (l : List Element) (e : Element)
    → Maps.Distinct String_discrete (by_key l)
    → back l ≡ some e
    → key_get e.value.key l ≡ some e
unfolding Maps.get back
back-key [] e d h = cc
back-key (x ∷ []) e d h = ground arith
back-key (x ∷ y ∷ l) e d h = ground (arith, back-key (y ∷ l) e d.1 h)

-- What survives each eviction survives the loop.
make_room_rule {ℓ} :
    (P : Cache → Type ℓ)
    → ((d : Cache) (e : Element) → back d.order ≡ some e → P d → P (evict d e))
    → (fuel size : ℕ) (c : Cache) → P c
    → P (make_room fuel size c)
unfolding make_room
make_room_rule P keep zero size c p = p
make_room_rule P keep (suc fuel) size c p = elim (Bool-cases (ltb c.max_bytes (c.used + size))) [
  | inr fits ↦ rw (fits, make_room) p
  | inl over ↦ elim (Option-cases (back c.order)) [
    | inl empty ↦ rw (over, empty, make_room) p
    | inr (e, last) ↦
        rw (over, last, make_room) (make_room_rule P keep fuel size (evict c e) (keep c e last p))
  ]
]

pub make_room-Inv : (fuel size : ℕ) (c : Cache) → Inv c → Inv (make_room fuel size c)
make_room-Inv = make_room_rule Inv (λ d e last v. evict-Inv d e v (back-key d.order e v.keys last))

-- Forgetting a key is dropping the element under it.
forget-evict :
    (c : Cache) (k : String) (e : Element)
    → Inv c
    → Maps.get String_discrete k c.items ≡ some e
    → (forget c k ≡ evict c e) × (key_get e.value.key c.order ≡ some e)
unfolding forget evict
forget-evict c k e v h =
    let found : key_get k c.order ≡ some e = sym (v.agree k) ∙ h in
    let same : e.value.key ≡ k = (id-of-key k e c.order found).0 in
    (rw (h, forget) (simp same), subst (λ q. key_get q c.order ≡ some e) (sym same) found)

pub forget-Inv : (c : Cache) (k : String) → Inv c → Inv (forget c k)
unfolding forget
forget-Inv c k v = elim (Option-cases (Maps.get String_discrete k c.items)) [
  | inl absent ↦ rw (absent, forget) v
  | inr (e, found) ↦
      let (same, h) = forget-evict c k e v found in subst Inv (sym same) (evict-Inv c e v h)
]

fresh_absent : (n : ℕ) (l : List Element) → All (λ e. e.id < n) l → id_get n l ≡ none
unfolding Maps.get
fresh_absent n [] h = refl
fresh_absent n (x ∷ l) h = ground (arith, fresh_absent n l h.1)

All-suc : (n : ℕ) (l : List Element) → All (λ e. e.id < n) l → All (λ e. e.id < suc n) l
All-suc n [] h = tt
All-suc n (x ∷ l) h = (omega arith, All-suc n l h.1)

pub push_front-Inv :
    (c : Cache) (k : String) (entry : Entry)
    → Inv c
    → Maps.get String_discrete k c.items ≡ none
    → c.used + length entry.body ≤ c.max_bytes
    → Inv (push_front c k entry)
unfolding push_front Maps.get Maps.put
push_front-Inv c k entry v absent fits = record {
  keys = (sym (v.agree k) ∙ absent, v.keys);
  ids = (fresh_absent c.next_id c.order v.fresh, v.ids);
  fresh = (omega arith, All-suc c.next_id c.order v.fresh);
  agree = λ j. ground (arith, Maps.get-delete String_discrete j k c.items, v.agree j);
  distinct = (
    Maps.get-delete_self String_discrete k c.items,
    Maps.delete-Distinct String_discrete k c.items v.distinct,
  );
  count = ground (arith, Maps.delete_absent String_discrete k c.items, v.count);
  used_total = omega (arith, v.used_total);
  bounded = fits;
}

pub forget_absent : (c : Cache) (k : String) → Maps.get String_discrete k (forget c k).items ≡ none
unfolding forget
forget_absent c k = elim (Option-cases (Maps.get String_discrete k c.items)) [
  | inl absent ↦ rw (absent, forget) absent
  | inr (e, found) ↦ rw (found, forget) (Maps.get-delete_self String_discrete k c.items)
]

pub forget_keeps :
    (c : Cache) (k : String)
    → ((forget c k).max_bytes ≡ c.max_bytes) × ((forget c k).max_entry ≡ c.max_entry)
unfolding forget
forget_keeps c k = ground arith

-- The loop leaves the limits alone, and adds no key.
pub make_room_keeps :
    (fuel size : ℕ) (c : Cache)
    → let d = make_room fuel size c in (d.max_bytes ≡ c.max_bytes) × (d.max_entry ≡ c.max_entry)
unfolding evict
make_room_keeps fuel size c =
    make_room_rule (λ d. (d.max_bytes ≡ c.max_bytes) × (d.max_entry ≡ c.max_entry))
      (λ d e last p. p) fuel size c (refl, refl)

pub make_room_absent :
    (fuel size : ℕ) (c : Cache) (k : String)
    → Maps.get String_discrete k c.items ≡ none
    → Maps.get String_discrete k (make_room fuel size c).items ≡ none
unfolding evict
make_room_absent fuel size c k =
    make_room_rule (λ d. Maps.get String_discrete k d.items ≡ none)
      (λ d e last p. ground (arith, Maps.get-delete String_discrete k e.value.key d.items)) fuel
      size c

id_below :
    {n : ℕ} (k : String) (e : Element) (l : List Element)
    → All (λ x. x.id < n) l
    → key_get k l ≡ some e
    → e.id < n
unfolding Maps.get
id_below k e [] a h = cc
id_below k e (x ∷ l) a h = ground (arith, id_below k e l a.1)

-- A read keeps the invariant: a hit only moves its element to the front.
pub get-Inv : (c : Cache) (k : String) → Inv c → Inv (get c k).0
unfolding get move_to_front Maps.get
get-Inv c k v = elim (Option-cases (Maps.get String_discrete k c.items)) [
  | inl absent ↦ rw (absent, get) assumption
  | inr (e, found) ↦
      let h : key_get k c.order ≡ some e = sym (v.agree k) ∙ found in
      rw (found, get, holds-of-key k e c.order h) (moved e h)
]
  where
    moved :
        (e : Element)
        → key_get k c.order ≡ some e
        → Inv (record c { order = e ∷ remove e c.order; hits = u64 (c.hits + 1) })
    moved e h =
        let here = (id-of-key k e c.order h).0 in
        let shorter = by_key-remove k e c.order v.keys v.ids h in
        record {
          keys =
              rw (shorter, here)
                (
                  Maps.get-delete_self String_discrete k (by_key c.order),
                  Maps.delete-Distinct String_discrete k (by_key c.order) v.keys,
                );
          ids = rw (by_id-remove e c.order v.ids) (
            Maps.get-delete_self ℕ_discrete e.id (by_id c.order),
            Maps.delete-Distinct ℕ_discrete e.id (by_id c.order) v.ids,
          );
          fresh = (id_below k e c.order v.fresh h, All-remove c.next_id e c.order v.fresh);
          agree = λ j. ground (
            arith,
            ap (Maps.get String_discrete j) shorter,
            Maps.get-delete String_discrete j k (by_key c.order),
            v.agree j,
          );
          distinct = v.distinct;
          count = omega (arith, length-remove k e c.order v.ids h, v.count);
          used_total = omega (arith, total-remove k e c.order v.ids h, v.used_total);
          bounded = v.bounded;
        }
