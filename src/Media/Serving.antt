-- ===== src/Media/Serving.antt =====
-- An upload and what is served of it afterwards, by the media service and through the edge.
use realtime_chat_platform.Prelude.{
  ℕ, ◌≤◌, ◌≡◌, ◌≢◌, inl, refl, ap, ◌∙◌, subst, String, true, false, Option, some, List, [], ◌∷◌,
  length, if_neg, take, arith, ite, codes,
}
use realtime_chat_platform.Prelude.Orders.{Bytes_discrete}
use realtime_chat_platform.Media.Store.{
  Meta, Dir, Upload, Faults, allowed_types, contains, matches_hash, head_size, hash_of, put,
  read_meta, open_object, open_hash,
}
use realtime_chat_platform.Media.Store.Names.{encode-matches}
use realtime_chat_platform.Media.Controller.{
  get, etag_of, Response, opened_answer, stream, set_cache_headers, plain,
}
use realtime_chat_platform.Gateway.EdgeHandler.{
  OriginResponse, kept, fetch, is_cacheable, read_all_limited, has_prefix,
  contains as contains_text,
}
use realtime_chat_platform.Media.Publishing.{Published, put-Reports}

-- What a GET that finds the object should answer, field by field: a specification, written apart
-- from the controller, with which `put-get` compares `get`.
abbrev pub object_response : Meta → List ℕ → Response
object_response meta content = record {
  status = 200;
  etag = some (etag_of meta.hash);
  cache_control = some "public, max-age=31536000, immutable";
  content_type = some meta.content_type;
  content_length = some (length content);
  nosniff = true;
  body = content;
}

-- What the edge cache's fetch receives of an answer.
pub record Carries (answer : Response) (r : OriginResponse) : Type 0 where
  pub status : r.status ≡ answer.status
  pub etag : some (codes r.etag) ≡ answer.etag
  pub cache_control : some r.cache_control ≡ answer.cache_control
  pub content_type : some r.content_type ≡ answer.content_type
  pub content_length : r.content_length ≡ answer.content_length
  pub whole : r.body.broken ≡ false
  pub body : r.body.bytes ≡ answer.body

immutable_named :
    contains_text (codes "public, max-age=31536000, immutable") (codes "immutable") ≡ true
unfolding contains_text has_prefix
immutable_named = refl

quoted_ne_empty : (etag : String) (l : List ℕ) → codes etag ≡ b'"' ∷ l → etag ≢ ""
quoted_ne_empty etag l e empty = (let nothing = ap codes empty in cc)

object_cacheable :
    (max_entry : ℕ) (meta : Meta) (content : List ℕ) (r : OriginResponse)
    → Carries (object_response meta content) r
    → length content ≤ max_entry
    → is_cacheable max_entry r ≡ true
unfolding is_cacheable
object_cacheable max_entry meta content r c fits =
    let policy : r.cache_control ≡ "public, max-age=31536000, immutable" = cc (c.cache_control) in
    let quoted : codes r.etag ≡ etag_of meta.hash = cc (c.etag) in
    let given = quoted_ne_empty r.etag _ quoted in
    let named : contains_text (codes r.cache_control) (codes "immutable") ≡ true =
      ap (λ t. contains_text (codes t) (codes "immutable")) policy ∙ immutable_named in
    ground (arith, c.content_length, named, given)

object_kept :
    (max_entry : ℕ) (meta : Meta) (content : List ℕ) (r : OriginResponse)
    → Carries (object_response meta content) r
    → length content ≤ max_entry
    → fetch max_entry (some r)
      ≡ kept (record { body = content; content_type = r.content_type; etag = r.etag })
unfolding fetch read_all_limited
object_kept max_entry meta content r c fits =
    let cacheable = object_cacheable max_entry meta content r c fits in
    let whole = c.whole in
    let body = c.body in let status = c.status in ground (arith, ap length c.body)

quoted_ne_nil : (hash : List ℕ) → [] ≢ etag_of hash
quoted_ne_nil hash e = cc

module _ (sha256 : List ℕ → List ℕ) (detect : List ℕ → String) (marshal : Meta → List ℕ)
    (unmarshal : List ℕ → Option Meta) (max_bytes : ℕ) where
  module _ (readable : (m : Meta) → unmarshal (marshal m) ≡ some m)
      (digest : (content : List ℕ) → length (sha256 content) ≡ 32) where
    matches_of_Published :
        (upload : Upload) (meta : Meta) (dir : Dir)
        → Published sha256 detect marshal unmarshal max_bytes upload meta dir
        → matches_hash meta.hash ≡ true
    unfolding hash_of
    matches_of_Published upload meta dir p =
        ap matches_hash p.hash ∙ encode-matches (sha256 upload.content) (digest upload.content)

    open-Published :
        (upload : Upload) (meta : Meta) (dir : Dir)
        → Published sha256 detect marshal unmarshal max_bytes upload meta dir
        → open_hash sha256 detect marshal unmarshal max_bytes false false meta.hash dir
          ≡ inl (meta, upload.content)
    unfolding open_hash read_meta open_object
    open-Published upload meta dir p =
        ground (arith, matches_of_Published upload meta dir p, p.described, p.object, readable meta)

    -- After an upload that succeeds, whatever its temporary name and its clean-up come to, a GET of
    -- its hash, if no call on files fails, answers 304 to a request with the hash's ETag, and any
    -- other request with the very bytes of the upload, their length, its sniffed type, which is an
    -- allowed one, and the headers of an immutable object; the upload was whole and not over the
    -- limit. SHA-256 has 32 bytes, and metadata are read back as written.
    pub put-get :
        (faults : Faults) (upload : Upload) (dir after : Dir) (meta : Meta) (if_none_match : List ℕ)
        → put sha256 detect marshal unmarshal max_bytes faults upload dir ≡ (after, inl meta)
        → (get sha256 detect marshal unmarshal max_bytes false false if_none_match meta.hash after
            ≡ ite
                (Bytes_discrete if_none_match (etag_of meta.hash))
                (set_cache_headers (etag_of meta.hash) (plain 304))
                (object_response meta upload.content))
          × (meta.content_type ≡ detect (take head_size upload.content))
          × (contains allowed_types meta.content_type ≡ true)
          × (upload.broken ≡ false)
          × (length upload.content ≤ max_bytes)
    unfolding get opened_answer stream set_cache_headers
    put-get faults upload dir after meta if_none_match done =
        let reported =
          put-Reports sha256 detect marshal unmarshal max_bytes digest faults upload dir meta
            (ap (λ r. r.1) done) in
        let p =
          subst (λ d. Published sha256 detect marshal unmarshal max_bytes upload meta d)
            (ap (λ r. r.0) done) reported in
        (
          ap
                (λ o.
                  ite (Bytes_discrete if_none_match (etag_of meta.hash))
                    (set_cache_headers (etag_of meta.hash) (plain 304))
                    (opened_answer (etag_of meta.hash) o))
                (open-Published upload meta after p)
              ∙ ap
                  (λ n.
                    ite (Bytes_discrete if_none_match (etag_of meta.hash))
                      (set_cache_headers (etag_of meta.hash) (plain 304))
                      (record (object_response meta upload.content) { content_length = some n }))
                  p.size,
          p.content_type,
          p.allowed,
          p.whole,
          p.small,
        )

    -- After an upload that succeeds, what the edge receives of the answer to a GET of its hash
    -- without `If-None-Match`, if no call on files fails, it keeps, provided the upload fits in an
    -- entry: the entry has the very bytes of the upload, their sniffed type and the ETag of the
    -- hash. SHA-256 has 32 bytes, and metadata are read back as written.
    pub edge_keeps_object :
        (faults : Faults) (upload : Upload) (dir after : Dir) (meta : Meta) (max_entry : ℕ)
        (r : OriginResponse)
        → put sha256 detect marshal unmarshal max_bytes faults upload dir ≡ (after, inl meta)
        → Carries (get sha256 detect marshal unmarshal max_bytes false false [] meta.hash after) r
        → length upload.content ≤ max_entry
        → (fetch max_entry (some r)
            ≡ kept (record {
              body = upload.content;
              content_type = detect (take head_size upload.content);
              etag = r.etag;
            }))
          × (codes r.etag ≡ etag_of meta.hash)
    edge_keeps_object faults upload dir after meta max_entry r done carried fits =
        let (answered, sniffed, _, _, _) = put-get faults upload dir after meta [] done in
        let given =
          answered ∙ if_neg (Bytes_discrete [] (etag_of meta.hash)) (quoted_ne_nil meta.hash) _ _ in
        let c = subst (λ a. Carries a r) given carried in
        let typed : r.content_type ≡ detect (take head_size upload.content) =
          (let t = c.content_type in cc) in
        (
          object_kept max_entry meta upload.content r c fits
              ∙ ap (λ t. kept (record { body = upload.content; content_type = t; etag = r.etag }))
                  typed,
          (let t = c.etag in cc),
        )
