-- ===== src/Gateway/EdgeCache.antt =====
-- The byte-bounded LRU of gateway/internal/edgecache/cache.go. The doubly linked list is a list of
-- elements, front first; an element keeps its identity, as the pointer does, and its value, which
-- the code never reassigns. Each method holds the mutex, so a call is one step.
pub mod Elements
pub mod Eviction
pub mod Invariant
pub mod Refinement
pub mod History
use realtime_chat_platform.Prelude.Maps
use realtime_chat_platform.Prelude.{
  ℕ, zero, suc, ◌+◌, ◌-◌, ◌%◌, ◌^◌, String, String_discrete, Bool, true, false, ◌||◌, Option, none,
  some, List, [], ◌∷◌, ite, ltb, if◌then◌else◌, length, ℕ_discrete,
}

pub record Entry : Type 0 where
  pub body : List ℕ
  pub content_type : String
  pub etag : String

pub record Item : Type 0 where
  pub key : String
  pub entry : Entry

-- `*list.Element`: the pointer's identity and `Value`.
pub record Element : Type 0 where
  pub id : ℕ
  pub value : Item

pub record Cache : Type 0 where
  pub max_bytes : ℕ
  pub max_entry : ℕ
  pub used : ℕ
  pub order : List Element
  pub items : List (String × Element)
  pub hits : ℕ
  pub misses : ℕ
  -- the identity of the next element that the list allocates
  pub next_id : ℕ

abbrev pub size_of : Element → ℕ
size_of e = length e.value.entry.body

abbrev pub u64 : ℕ → ℕ
u64 n = n % 2 ^ 64

-- container/list: `Remove`, `MoveToFront` and `Back`; an element of no list is left alone.
unfoldable pub remove : Element → List Element → List Element
remove e [] = []
remove e (x ∷ l) = ite (ℕ_discrete e.id x.id) l (x ∷ remove e l)

unfoldable pub holds : Element → List Element → Bool
holds e [] = false
holds e (x ∷ l) = ite (ℕ_discrete e.id x.id) true (holds e l)

unfoldable pub move_to_front : Element → List Element → List Element
unfolding remove holds
move_to_front e l = if holds e l then e ∷ remove e l else l

unfoldable pub back : List Element → Option Element
back [] = none
back (x ∷ []) = some x
back (x ∷ y ∷ l) = back (y ∷ l)

unfoldable pub new_cache : ℕ → ℕ → Cache
new_cache max_bytes max_entry = record {
  max_bytes = max_bytes;
  max_entry = max_entry;
  used = 0;
  order = [];
  items = [];
  hits = 0;
  misses = 0;
  next_id = 0;
}

unfoldable pub get : Cache → String → Cache × Option Entry
get c key = elim (Maps.get String_discrete key c.items) [
  | none ↦ (record c { misses = u64 (c.misses + 1) }, none)
  | some element ↦ (
    record c { order = move_to_front element c.order; hits = u64 (c.hits + 1) },
    some element.value.entry,
  )
]

-- `used` is the sum of the sizes in the list (`Inv`), so the subtraction is exact.
unfoldable pub evict : Cache → Element → Cache
evict c element = record c {
  used = c.used - size_of element;
  order = remove element c.order;
  items = Maps.delete String_discrete element.value.key c.items;
}

-- The loop of `Put`, which also ends at an empty list. Every round drops an element, so the length
-- of the list is fuel enough.
unfoldable pub make_room : ℕ → ℕ → Cache → Cache
make_room zero size c = c
make_room (suc fuel) size c = elim (ltb c.max_bytes (c.used + size)) [
  | false ↦ c
  | true ↦ elim (back c.order) [ none ↦ c | some oldest ↦ make_room fuel size (evict c oldest) ]
]

-- An entry under the same key goes first.
unfoldable pub forget : Cache → String → Cache
forget c key = elim (Maps.get String_discrete key c.items) [
  | none ↦ c
  | some element ↦ record c {
    used = c.used - size_of element;
    order = remove element c.order;
    items = Maps.delete String_discrete key c.items;
  }
]

-- `PushFront` allocates the element.
unfoldable pub push_front : Cache → String → Entry → Cache
push_front c key entry =
    let element : Element = record {
      id = c.next_id;
      value = record { key = key; entry = entry };
    } in
    record c {
      order = element ∷ c.order;
      items = Maps.put String_discrete key element c.items;
      used = c.used + length entry.body;
      next_id = suc c.next_id;
    }

unfoldable pub put : Cache → String → Entry → Cache × Bool
put c key entry =
    let size = length entry.body in
    if ltb c.max_entry size || ltb c.max_bytes size
    then (c, false)
    else let kept = forget c key in
      (push_front (make_room (length kept.order) size kept) key entry, true)

pub record Stats : Type 0 where
  pub entries : ℕ
  pub used_bytes : ℕ
  pub max_bytes : ℕ
  pub hits : ℕ
  pub misses : ℕ

unfoldable pub stats : Cache → Stats
stats c = record {
  entries = length c.items;
  used_bytes = c.used;
  max_bytes = c.max_bytes;
  hits = c.hits;
  misses = c.misses;
}
