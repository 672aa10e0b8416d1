-- ===== src/Gateway/Http.antt =====
-- What the gateway's handlers read and write of a request: the query pairs and the headers. Header
-- names are in their canonical spelling, under which `http.Header` keeps them.
use realtime_chat_platform.Prelude.Maps
use realtime_chat_platform.Prelude.{
  ℕ, String, String_discrete, Option, none, some, List, [], ◌∷◌, ◌≡◌, refl, ite, ◌≢◌, arith,
}

pub record Request : Type 0 where
  pub path : String
  pub query : List (String × String)
  pub headers : List (String × String)

-- `Query().Get`: the first value, or the empty text.
unfoldable pub query_get : String → List (String × String) → String
query_get k [] = ""
query_get k ((j, v) ∷ q) = ite (String_discrete k j) v (query_get k q)

-- `Query().Del`: every value under the name.
unfoldable pub query_del : String → List (String × String) → List (String × String)
query_del k [] = []
query_del k ((j, v) ∷ q) = ite (String_discrete k j) (query_del k q) ((j, v) ∷ query_del k q)

unfoldable pub header_set : String → String → Request → Request
header_set k v r = record r { headers = Maps.put String_discrete k v r.headers }

unfoldable pub header_del : String → Request → Request
header_del k r = record r { headers = Maps.delete String_discrete k r.headers }

abbrev pub header : String → Request → Option String
header k r = Maps.get String_discrete k r.headers

pub header-header_set :
    (j k v : String) (r : Request)
    → header j (header_set k v r) ≡ ite (String_discrete j k) (some v) (header j r)
unfolding header_set
header-header_set j k v r = Maps.get-put String_discrete j k v r.headers

pub header-header_del :
    (j k : String) (r : Request)
    → header j (header_del k r) ≡ ite (String_discrete j k) none (header j r)
unfolding header_del
header-header_del j k r = Maps.get-delete String_discrete j k r.headers

pub query_get-query_del_self :
    (k : String) (q : List (String × String)) → query_get k (query_del k q) ≡ ""
unfolding query_get query_del
query_get-query_del_self k [] = refl
query_get-query_del_self k ((j, v) ∷ q) = ground (arith, query_get-query_del_self k q)

query_get-query_del_ne :
    (j k : String) (q : List (String × String))
    → j ≢ k
    → query_get j (query_del k q) ≡ query_get j q
unfolding query_get query_del
query_get-query_del_ne j k [] ne = refl
query_get-query_del_ne j k ((i, v) ∷ q) ne = ground (arith, query_get-query_del_ne j k q)

-- How a handler ends: it answers by itself, or hands a request on.
pub data Outcome : Type 0 where
  answer : ℕ → String → Outcome
  forward : Request → Outcome
