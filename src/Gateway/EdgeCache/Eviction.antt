-- ===== src/Gateway/EdgeCache/Eviction.antt =====
-- The cache as a client sees it: keys with their entries, most recently used first.
use mathlib.Core.Option
use realtime_chat_platform.Prelude.Maps
use realtime_chat_platform.Prelude.{
  ℕ, suc, ◌+◌, ◌-◌, ◌≤◌, ◌<◌, ◌≡◌, refl, ap, ◌≢◌, String, String_discrete, none, some, List, [],
  ◌∷◌, leb, if◌then◌else◌, length, ℕ_discrete, arith,
}
use realtime_chat_platform.Gateway.EdgeCache.{Entry, Element, Cache, remove, back}
use realtime_chat_platform.Gateway.EdgeCache.Elements.{
  by_key, by_id, total, key_get, id_get, id-of-key,
}

abbrev pub Contents : Type 0
Contents = List (String × Entry)

unfoldable pub listed : List Element → Contents
listed [] = []
listed (e ∷ l) = (e.value.key, e.value.entry) ∷ listed l

abbrev pub contents : Cache → Contents
contents c = listed c.order

abbrev pub weight : Contents → ℕ
weight [] = 0
weight ((k, entry) ∷ l) = length entry.body + weight l

abbrev pub drop_last : Contents → Contents
drop_last [] = []
drop_last (x ∷ []) = []
drop_last (x ∷ y ∷ l) = x ∷ drop_last (y ∷ l)

-- The longest prefix that weighs at most `budget`.
unfoldable pub keep : ℕ → Contents → Contents
keep budget [] = []
keep budget ((k, entry) ∷ l) =
    if leb (length entry.body) budget then (k, entry) ∷ keep (budget - length entry.body) l else []

pub weight-listed : (l : List Element) → weight (listed l) ≡ total l
unfolding listed
weight-listed [] = refl
weight-listed (e ∷ l) = omega (arith, weight-listed l)

pub length-listed : (l : List Element) → length (listed l) ≡ length l
unfolding listed
length-listed [] = refl
length-listed (e ∷ l) = ap suc (length-listed l)

pub keep_all : (budget : ℕ) (l : Contents) → weight l ≤ budget → keep budget l ≡ l
unfolding keep
keep_all budget [] h = refl
keep_all budget ((k, entry) ∷ l) h = ground (arith, keep_all (budget - length entry.body) l)

pub keep-drop_last :
    (budget : ℕ) (l : Contents) → budget < weight l → keep budget l ≡ keep budget (drop_last l)
unfolding keep
keep-drop_last budget [] h = refl
keep-drop_last budget (x ∷ []) h = ground arith
keep-drop_last budget (x ∷ y ∷ l) h =
    ground (arith, keep-drop_last (budget - length x.1.body) (y ∷ l))

pub listed-get :
    (k : String) (l : List Element)
    → Maps.get String_discrete k (listed l)
      ≡ Option.map (λ (e : Element). e.value.entry) (key_get k l)
unfolding Maps.get listed
listed-get k [] = refl
listed-get k (e ∷ l) = ground (arith, listed-get k l)

-- Unlinking the element that a key finds deletes the key from the contents.
pub listed-remove :
    (k : String) (e : Element) (l : List Element)
    → Maps.Distinct String_discrete (by_key l)
    → Maps.Distinct ℕ_discrete (by_id l)
    → key_get k l ≡ some e
    → listed (remove e l) ≡ Maps.delete String_discrete k (listed l)
unfolding Maps.get Maps.delete remove listed
listed-remove k e [] d i h = cc
listed-remove k e (x ∷ l) d i h = ground (
  arith,
  listed-remove k e l d.1 i.1,
  id-of-key k e l,
  Maps.delete_absent String_discrete k (listed l),
  listed-get k l,
)

back-id : (l : List Element) (e : Element) → back l ≡ some e → id_get e.id l ≢ none
unfolding Maps.get back
back-id [] e h = cc
back-id (x ∷ []) e h = ground arith
back-id (x ∷ y ∷ l) e h = ground (arith, back-id (y ∷ l) e h)

-- Unlinking the back drops the last entry.
pub listed-remove-back :
    (l : List Element) (e : Element)
    → Maps.Distinct ℕ_discrete (by_id l)
    → back l ≡ some e
    → listed (remove e l) ≡ drop_last (listed l)
unfolding back remove listed
listed-remove-back [] e i h = refl
listed-remove-back (x ∷ []) e i h = ground arith
listed-remove-back (x ∷ y ∷ l) e i h =
    ground (arith, listed-remove-back (y ∷ l) e i.1, back-id (y ∷ l) e h)

pub weight-keep-le : (budget : ℕ) (l : Contents) → weight (keep budget l) ≤ budget
unfolding keep
weight-keep-le budget [] = omega arith
weight-keep-le budget ((k, entry) ∷ l) =
    ground (arith, weight-keep-le (budget - length entry.body) l)
