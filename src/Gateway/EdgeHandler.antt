-- ===== src/Gateway/EdgeHandler.antt =====
-- gateway/internal/edgecache/handler.go: one request for a media object, on its own (`fetchOnce`
-- with no fetch of the hash in flight). What the origin answers to the fetch and to the second
-- request of a passthrough are arguments. The headers that the handler writes are fields of the
-- response.
pub mod Serving
pub mod Flights
use realtime_chat_platform.Prelude.{
  ℕ, zero, suc, String, String_discrete, Bool, true, false, ◌||◌, ◌&&◌, not, Option, none, some,
  List, [], ◌∷◌, ite, if◌then◌else◌, ltb, leb, ◌==◌, codes, length, take,
}
use realtime_chat_platform.Gateway.EdgeCache.{Entry, Cache, get, put}

-- A body: the bytes that arrive, and whether an error follows them.
pub record Body : Type 0 where
  pub bytes : List ℕ
  pub broken : Bool

-- A header that is not there reads as the empty text; a length of -1 is `none`.
pub record OriginResponse : Type 0 where
  pub status : ℕ
  pub etag : String
  pub cache_control : String
  pub content_type : String
  pub content_length : Option ℕ
  pub body : Body

pub record Response : Type 0 where
  pub status : ℕ
  pub x_cache : String
  pub etag : Option String
  pub cache_control : Option String
  pub content_type : Option String
  pub content_length : Option ℕ
  pub nosniff : Bool
  pub body : List ℕ

-- `(entry, status, err)` of `fetch`.
pub data FetchResult : Type 0 where
  fetch_failed : FetchResult
  not_kept : ℕ → FetchResult
  kept : Entry → FetchResult

-- `strings.HasPrefix` and `strings.Contains`.
unfoldable pub has_prefix : List ℕ → List ℕ → Bool
has_prefix [] text = true
has_prefix (p ∷ ps) [] = false
has_prefix (p ∷ ps) (t ∷ ts) = (p == t) && has_prefix ps ts

unfoldable pub contains : List ℕ → List ℕ → Bool
unfolding has_prefix
contains [] part = has_prefix part []
contains (t ∷ ts) part = has_prefix part (t ∷ ts) || contains ts part

-- `io.ReadAll(io.LimitReader(body, limit))`: an error past the limit is not seen.
unfoldable pub read_all_limited : ℕ → Body → Option (List ℕ)
read_all_limited limit body =
    if leb limit (length body.bytes)
    then some (take limit body.bytes)
    else if body.broken
    then none
    else some body.bytes

unfoldable pub is_cacheable : ℕ → OriginResponse → Bool
unfolding contains
is_cacheable max_entry response = ite (String_discrete response.etag "") false (
    contains (codes response.cache_control) (codes "immutable")
    && elim response.content_length [ none ↦ true | some n ↦ leb n max_entry ])

unfoldable pub fetch : ℕ → Option OriginResponse → FetchResult
unfolding is_cacheable read_all_limited
fetch max_entry none = fetch_failed
fetch max_entry (some response) =
    if not (response.status == 200)
    then not_kept response.status
    else if not (is_cacheable max_entry response)
    then not_kept 200
    else elim (read_all_limited (suc max_entry) response.body) [
      | none ↦ fetch_failed
      | some body ↦
          if ltb max_entry (length body)
          then not_kept 200
          else kept
              (record { body = body; content_type = response.content_type; etag = response.etag })
    ]

-- `c.JSON(status, ...)`, whose error text is left out, and `c.NoContent(status)`.
abbrev pub plain : String → ℕ → Response
plain x_cache status = record {
  status = status;
  x_cache = x_cache;
  etag = none;
  cache_control = none;
  content_type = none;
  content_length = none;
  nosniff = false;
  body = [];
}

-- `writeCacheHeaders`
unfoldable pub write_cache_headers : String → Response → Response
write_cache_headers etag r = record r {
  etag = some etag;
  cache_control = some "public, max-age=31536000, immutable";
}

unfoldable pub write_entry : String → Entry → Response
unfolding write_cache_headers
write_entry x_cache entry =
    let r = write_cache_headers entry.etag (plain x_cache 200) in
    record r {
      content_type = some entry.content_type;
      content_length = some (length entry.body);
      nosniff = true;
      body = entry.body;
    }

unfoldable pub answer : String → Entry → String → Response
unfolding write_cache_headers write_entry
answer x_cache entry if_none_match =
    ite (String_discrete if_none_match "") (write_entry x_cache entry) (
      ite (String_discrete if_none_match entry.etag)
        (write_cache_headers entry.etag (plain x_cache 304)) (write_entry x_cache entry))

abbrev non_empty : String → Option String
non_empty s = ite (String_discrete s "") none (some s)

unfoldable pub passthrough : Option OriginResponse → Response
passthrough none = plain "BYPASS" 502
passthrough (some response) = record {
  status = response.status;
  x_cache = "BYPASS";
  etag = non_empty response.etag;
  cache_control = non_empty response.cache_control;
  content_type = some response.content_type;
  content_length = response.content_length;
  nosniff = true;
  body = response.body.bytes;
}

-- `fetchOnce`: a kept entry is stored.
unfoldable pub fetch_once : Cache → String → Option OriginResponse → Cache × FetchResult
unfolding fetch
fetch_once c hash fetched = elim (fetch c.max_entry fetched) [
  | kept entry ↦ ((put c hash entry).0, kept entry)
  | fetch_failed ↦ (c, fetch_failed)
  | not_kept status ↦ (c, not_kept status)
]

-- How `Serve` answers after a miss.
unfoldable pub after_miss : FetchResult → String → Option OriginResponse → Response
unfolding answer passthrough
after_miss fetch_failed if_none_match streamed = plain "MISS" 502
after_miss (not_kept status) if_none_match streamed =
    if status == 200 then passthrough streamed else plain "MISS" status
after_miss (kept entry) if_none_match streamed = answer "MISS" entry if_none_match

unfoldable pub serve :
    Cache → String → String → Option OriginResponse → Option OriginResponse → Cache × Response
unfolding fetch_once after_miss answer
serve c hash if_none_match fetched streamed =
    let (c', found) = get c hash in
    elim found [
      | some entry ↦ (c', answer "HIT" entry if_none_match)
      | none ↦
          let (c'', result) = fetch_once c' hash fetched in
          (c'', after_miss result if_none_match streamed)
    ]
