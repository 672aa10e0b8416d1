-- ===== src/Gateway/EdgeHandler/Serving.antt =====
-- What the edge keeps, and how it serves what it keeps.
use realtime_chat_platform.Prelude.Maps
use realtime_chat_platform.Prelude.{
  ℕ, zero, suc, ◌≤◌, ◌≡◌, ◌≢◌, inl, inr, refl, ap, ◌∙◌, String, String_discrete, true, false,
  Bool-cases, Option, Option-cases, none, some, List, [], ◌∷◌, if_pos, if◌then◌else◌, leb, leb→le,
  codes, length, take, arith,
}
use realtime_chat_platform.Gateway.EdgeCache.{Entry, Cache, get, put}
use realtime_chat_platform.Gateway.EdgeCache.Eviction.{contents}
use realtime_chat_platform.Gateway.EdgeCache.Invariant.{Inv, get-Inv}
use realtime_chat_platform.Gateway.EdgeCache.Refinement.{written, get_refines, put_refines, put-Inv}
use realtime_chat_platform.Gateway.EdgeHandler.{
  Body, OriginResponse, Response, FetchResult, fetch_failed, not_kept, kept, contains,
  read_all_limited, is_cacheable, fetch, answer, fetch_once, after_miss, serve,
}

length-take-long : (n : ℕ) (l : List ℕ) → n ≤ length l → length (take n l) ≡ n
length-take-long zero l h = refl
length-take-long (suc n) [] h = absurd (omega arith)
length-take-long (suc n) (x ∷ l) h = ap suc (length-take-long n l (omega arith))

-- A body that is read with one byte to spare and is not too long was read in full.
read_whole :
    (limit : ℕ) (b : Body) (body : List ℕ)
    → read_all_limited (suc limit) b ≡ some body
    → length body ≤ limit
    → (body ≡ b.bytes) × (b.broken ≡ false)
unfolding read_all_limited
read_whole limit b body h small = elim (Bool-cases (leb (suc limit) (length b.bytes))) [
  | inl long ↦
      let cut : take (suc limit) b.bytes ≡ body = ground arith in
      absurd (
        omega (
          arith,
          length-take-long (suc limit) b.bytes (leb→le (suc limit) (length b.bytes) long),
          ap length cut,
        ))
  | inr short ↦ elim (Bool-cases b.broken) [
    | inl broken ↦ absurd (ground arith)
    | inr whole ↦ (ground arith, whole)
  ]
]

tagged_of :
    (max_entry : ℕ) (response : OriginResponse)
    → is_cacheable max_entry response ≡ true
    → response.etag ≢ ""
unfolding is_cacheable
tagged_of max_entry response h e = absurd (ground arith)

immutable_of :
    (max_entry : ℕ) (response : OriginResponse)
    → is_cacheable max_entry response ≡ true
    → contains (codes response.cache_control) (codes "immutable") ≡ true
unfolding is_cacheable
immutable_of max_entry response h = ground arith

-- The response that an entry was made from.
pub record IsKept (max_entry : ℕ) (response : OriginResponse) (entry : Entry) : Type 0 where
  pub ok : response.status ≡ 200
  pub tagged : response.etag ≢ ""
  pub immutable : contains (codes response.cache_control) (codes "immutable") ≡ true
  pub whole : response.body.broken ≡ false
  pub body : entry.body ≡ response.body.bytes
  pub etag : entry.etag ≡ response.etag
  pub content_type : entry.content_type ≡ response.content_type
  pub fits : length entry.body ≤ max_entry

-- Only a 200 whose ETag is there, whose Cache-Control names `immutable`, and whose body came to its
-- end without an error and within the limit is kept, and it is kept as it came.
pub fetch-IsKept :
    (max_entry : ℕ) (response : OriginResponse) (entry : Entry)
    → fetch max_entry (some response) ≡ kept entry
    → IsKept max_entry response entry
unfolding fetch
fetch-IsKept max_entry response entry h = elim (Bool-cases (is_cacheable max_entry response)) [
  | inr refused ↦ absurd (ground arith)
  | inl cacheable ↦ elim (Option-cases (read_all_limited (suc max_entry) response.body)) [
    | inl failed ↦ absurd (ground arith)
    | inr (body, read) ↦
        let stored : Entry = record {
          body = body;
          content_type = response.content_type;
          etag = response.etag;
        } in
        let small : length body ≤ max_entry = ground arith in
        let same : entry ≡ stored = ground arith in
        let whole = read_whole max_entry response.body body read small in
        record {
          ok = ground arith;
          tagged = tagged_of max_entry response cacheable;
          immutable = immutable_of max_entry response cacheable;
          whole = whole.1;
          body = ap (λ e. e.body) same ∙ whole.0;
          etag = ap (λ e. e.etag) same;
          content_type = ap (λ e. e.content_type) same;
          fits = omega (arith, ap (λ e. length e.body) same);
        }
  ]
]

get_limits :
    (c : Cache) (k : String)
    → ((get c k).0.max_entry ≡ c.max_entry) × ((get c k).0.max_bytes ≡ c.max_bytes)
unfolding get
get_limits c k = ground arith

get_first :
    (k : String) (entry : Entry) (l : List (String × Entry))
    → Maps.get String_discrete k ((k, entry) ∷ l) ≡ some entry
unfolding Maps.get
get_first k entry l = if_pos (String_discrete k k) refl _ _

-- What was put and fits is what a read finds.
put-get :
    (c : Cache) (k : String) (entry : Entry)
    → Inv c
    → length entry.body ≤ c.max_entry
    → length entry.body ≤ c.max_bytes
    → (get (put c k entry).0 k).1 ≡ some entry
put-get c k entry v small fits =
    let (accepted, holds) = put_refines c k entry v in
    let stored : (put c k entry).1 ≡ true = ground arith in
    (get_refines (put c k entry).0 k (put-Inv c k entry v)).0
    ∙ ap (Maps.get String_discrete k) (
        holds ∙ ap (λ b. if b then written c.max_bytes k entry (contents c) else contents c) stored)
    ∙ get_first k entry _

serve_hit :
    (c : Cache) (hash if_none_match : String) (fetched streamed : Option OriginResponse)
    (entry : Entry)
    → (get c hash).1 ≡ some entry
    → serve c hash if_none_match fetched streamed
      ≡ ((get c hash).0, answer "HIT" entry if_none_match)
unfolding serve
serve_hit c hash inm fetched streamed entry h = ground (arith, h)

serve_miss :
    (c : Cache) (hash if_none_match : String) (fetched streamed : Option OriginResponse)
    (entry : Entry)
    → (get c hash).1 ≡ none
    → fetch (get c hash).0.max_entry fetched ≡ kept entry
    → serve c hash if_none_match fetched streamed
      ≡ ((put (get c hash).0 hash entry).0, answer "MISS" entry if_none_match)
unfolding serve fetch_once after_miss
serve_miss c hash inm fetched streamed entry absent h = ground (arith, absent, h)

-- A miss whose fetch is kept and fits is answered from the fetched object, and the next request for
-- the hash is a hit: it is answered from the same object, whatever the origin would say.
pub serve_fills :
    (c : Cache) (hash if_none_match : String) (response : OriginResponse)
    (streamed : Option OriginResponse) (entry : Entry) (condition : String)
    (fetched again : Option OriginResponse)
    → Inv c
    → (get c hash).1 ≡ none
    → fetch c.max_entry (some response) ≡ kept entry
    → length entry.body ≤ c.max_bytes
    → (let (c', first_answer) = serve c hash if_none_match (some response) streamed in
        (first_answer ≡ answer "MISS" entry if_none_match)
        × ((serve c' hash condition fetched again).1 ≡ answer "HIT" entry condition))
serve_fills c hash inm response streamed entry condition fetched again v absent h fits =
    let c1 = (get c hash).0 in
    let (same_entry, same_bytes) = get_limits c hash in
    let missed =
      serve_miss c hash inm (some response) streamed entry absent
        (ap (λ m. fetch m (some response)) same_entry ∙ h) in
    let small = (fetch-IsKept c.max_entry response entry h).fits in
    let found =
      put-get c1 hash entry (get-Inv c hash v) (omega (arith, same_entry, small))
        (omega (arith, same_bytes, fits)) in
    (
      ap (λ p. p.1) missed,
      ap (λ p. (serve p.0 hash condition fetched again).1) missed
          ∙ ap (λ p. p.1)
              (serve_hit (put c1 hash entry).0 hash condition fetched again entry found),
    )

fetch_once-Inv :
    (c : Cache) (hash : String) (fetched : Option OriginResponse)
    → Inv c
    → Inv (fetch_once c hash fetched).0
unfolding fetch_once
fetch_once-Inv c hash fetched v =
    elim (fetch c.max_entry fetched)
      as (λ r.
        Inv
          (elim r as (λ _. Cache × FetchResult) [
            | kept entry ↦ ((put c hash entry).0, kept entry)
            | fetch_failed ↦ (c, fetch_failed)
            | not_kept status ↦ (c, not_kept status)
          ]).0) [ kept entry ↦ put-Inv c hash entry v | fetch_failed ↦ v | not_kept status ↦ v ]

-- A request keeps the cache's invariant, whatever the origin answers.
serve-Inv :
    (c : Cache) (hash if_none_match : String) (fetched streamed : Option OriginResponse)
    → Inv c
    → Inv (serve c hash if_none_match fetched streamed).0
unfolding serve
serve-Inv c hash inm fetched streamed v =
    let c1 = (get c hash).0 in
    let r = fetch_once c1 hash fetched in
    elim (get c hash).1
      as (λ found.
        Inv
          (elim found as (λ _. Cache × Response) [
            | some entry ↦ (c1, answer "HIT" entry inm)
            | none ↦ (r.0, after_miss r.1 inm streamed)
          ]).0) [
            | some entry ↦ get-Inv c hash v
            | none ↦ fetch_once-Inv c1 hash fetched (get-Inv c hash v)
          ]
