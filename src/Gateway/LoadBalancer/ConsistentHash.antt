-- ===== src/Gateway/LoadBalancer/ConsistentHash.antt =====
-- consistent_hash.go: the ring over all configured instances, and the sticky pick.
pub mod Ring
pub mod Search
pub mod Sticky
use realtime_chat_platform.Prelude.{
  ℕ, zero, suc, ◌+◌, ◌*◌, ◌/◌, String, String_discrete, Bool, true, false, Option, none, some, List,
  [], ◌∷◌, ◌++◌, map, ite, if◌then◌else◌, ltb, leb, ◌==◌, length, get_elem?, bytes, decimal,
}
use realtime_chat_platform.Gateway.LoadBalancer.Pool.{Url, Backend, Pool}
use realtime_chat_platform.Gateway.LoadBalancer.Hash.{hash_key}

-- A ring point keeps the pointer of its backend.
pub record RingPoint : Type 0 where
  pub hash : ℕ
  pub backend : ℕ

abbrev pub virtual_nodes : ℕ
virtual_nodes = 150

-- `fmt.Sprintf("%s#%d", host, i)`
abbrev pub label : String → ℕ → List ℕ
label host i = bytes host ++ (b'#' ∷ decimal i)

-- The points of one backend, for `i` from `i` on.
unfoldable pub points : ℕ → ℕ → Backend → List RingPoint
points zero i b = []
points (suc left) i b =
    record { hash = hash_key (label b.url.host i); backend = b.id } ∷ points left (suc i) b

unfoldable pub all_points : List Backend → List RingPoint
unfolding points
all_points [] = []
all_points (b ∷ bs) = points virtual_nodes 0 b ++ all_points bs

-- `sort.Slice` by hash. Its order among equal hashes is not fixed; here it is that of insertion.
unfoldable pub insert : RingPoint → List RingPoint → List RingPoint
insert p [] = p ∷ []
insert p (q ∷ ring) = if leb p.hash q.hash then p ∷ q ∷ ring else q ∷ insert p ring

unfoldable pub sort : List RingPoint → List RingPoint
unfolding insert
sort [] = []
sort (p ∷ ps) = insert p (sort ps)

pub record ConsistentHash : Type 0 where
  pub ring : List RingPoint

unfoldable pub new_consistent_hash : Pool → ConsistentHash
unfolding all_points sort
new_consistent_hash pool = record { ring = sort (all_points pool.backends) }

-- `ring[i].hash`. The search reads in range only, so the value elsewhere is never used.
abbrev pub hash_at : List RingPoint → ℕ → ℕ
hash_at [] i = 0
hash_at (p ∷ ring) zero = p.hash
hash_at (p ∷ ring) (suc i) = hash_at ring i

-- The loop of `sort.Search` between `i` and `j`; each round shortens the interval, so its length is
-- fuel enough.
unfoldable pub search_loop : ℕ → List RingPoint → ℕ → ℕ → ℕ → ℕ
search_loop zero ring h i j = i
search_loop (suc fuel) ring h i j = elim (ltb i j) [
  | false ↦ i
  | true ↦
      let middle = (i + j) / 2 in
      elim (leb h (hash_at ring middle)) [
        | false ↦ search_loop fuel ring h (suc middle) j
        | true ↦ search_loop fuel ring h i middle
      ]
]

-- The pointer of the backend that a key belongs to; `none` where the code would index out of range.
unfoldable pub lookup : ConsistentHash → List ℕ → Option ℕ
unfolding search_loop
lookup s key =
    let h = hash_key key in
    let n = length s.ring in
    let index = search_loop n s.ring h 0 n in
    elim (get_elem? s.ring (if index == n then 0 else index)) [
      | none ↦ none
      | some p ↦ some p.backend
    ]

pub data PickResult : Type 0 where
  picked : Backend → PickResult
  backend_down : String → Backend → PickResult
  no_healthy_backend : PickResult
  fault : PickResult

-- The pointer is followed in the pool, whose flags the health checker keeps.
unfoldable pub pick : ConsistentHash → Pool → String → PickResult
unfolding lookup
pick s pool key = elim (lookup s (bytes key)) [
  | none ↦ fault
  | some id ↦ elim (get_elem? pool.backends id) [
    | none ↦ fault
    | some b ↦ if b.healthy then picked b else backend_down key b
  ]
]

-- The key of `/ws`: the room of the query, or "general".
unfoldable pub room_key : String → String
room_key room = ite (String_discrete room "") "general" room
