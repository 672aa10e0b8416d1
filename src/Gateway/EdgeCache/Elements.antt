-- ===== src/Gateway/EdgeCache/Elements.antt =====
-- The list of elements, seen through its identities and its keys.
use realtime_chat_platform.Prelude.Maps
use realtime_chat_platform.Prelude.{
  ℕ, ◌+◌, ◌<◌, ◌≡◌, refl, ◌≢◌, String, String_discrete, true, Option, none, some, List, [], ◌∷◌,
  map, length, All, ℕ_discrete, arith,
}
use realtime_chat_platform.Gateway.EdgeCache.{Element, size_of, remove, holds}

-- The list as a map from keys, and as a map from identities.
abbrev pub by_key : List Element → List (String × Element)
by_key = map (λ e. (e.value.key, e))

abbrev pub by_id : List Element → List (ℕ × Element)
by_id = map (λ e. (e.id, e))

abbrev pub total : List Element → ℕ
total [] = 0
total (e ∷ l) = size_of e + total l

abbrev pub key_get : String → List Element → Option Element
key_get k l = Maps.get String_discrete k (by_key l)

abbrev pub id_get : ℕ → List Element → Option Element
id_get i l = Maps.get ℕ_discrete i (by_id l)

-- What a key finds is in the list, and is found by its identity too.
pub id-of-key :
    (k : String) (e : Element) (l : List Element)
    → key_get k l ≡ some e
    → (e.value.key ≡ k) × (id_get e.id l ≢ none)
unfolding Maps.get
id-of-key k e [] h = cc
id-of-key k e (x ∷ l) h = ground (arith, id-of-key k e l)

-- Unlinking the element that a key finds is deleting the key.
pub by_key-remove :
    (k : String) (e : Element) (l : List Element)
    → Maps.Distinct String_discrete (by_key l)
    → Maps.Distinct ℕ_discrete (by_id l)
    → key_get k l ≡ some e
    → by_key (remove e l) ≡ Maps.delete String_discrete k (by_key l)
unfolding Maps.get Maps.delete remove
by_key-remove k e [] d i h = cc
by_key-remove k e (x ∷ l) d i h = ground (
  arith,
  by_key-remove k e l d.1 i.1,
  id-of-key k e l,
  Maps.delete_absent String_discrete k (by_key l),
)

pub by_id-remove :
    (e : Element) (l : List Element)
    → Maps.Distinct ℕ_discrete (by_id l)
    → by_id (remove e l) ≡ Maps.delete ℕ_discrete e.id (by_id l)
unfolding Maps.delete remove
by_id-remove e [] i = refl
by_id-remove e (x ∷ l) i =
    ground (arith, by_id-remove e l i.1, Maps.delete_absent ℕ_discrete e.id (by_id l))

pub total-remove :
    (k : String) (e : Element) (l : List Element)
    → Maps.Distinct ℕ_discrete (by_id l)
    → key_get k l ≡ some e
    → total (remove e l) + size_of e ≡ total l
unfolding Maps.get remove
total-remove k e [] i h = cc
total-remove k e (x ∷ l) i h = ground (arith, total-remove k e l i.1, id-of-key k e l)

pub length-remove :
    (k : String) (e : Element) (l : List Element)
    → Maps.Distinct ℕ_discrete (by_id l)
    → key_get k l ≡ some e
    → length (remove e l) + 1 ≡ length l
unfolding Maps.get remove
length-remove k e [] i h = cc
length-remove k e (x ∷ l) i h = ground (arith, length-remove k e l i.1, id-of-key k e l)

pub holds-of-key :
    (k : String) (e : Element) (l : List Element) → key_get k l ≡ some e → holds e l ≡ true
unfolding Maps.get holds
holds-of-key k e [] h = cc
holds-of-key k e (x ∷ l) h = ground (arith, holds-of-key k e l)

pub All-remove :
    (n : ℕ) (e : Element) (l : List Element)
    → All (λ x. x.id < n) l
    → All (λ x. x.id < n) (remove e l)
unfolding remove
All-remove n e [] h = tt
All-remove n e (x ∷ l) h = ground (arith, All-remove n e l h.1)
