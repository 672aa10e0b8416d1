-- ===== src/Tests/Media.antt =====
-- The media service at concrete inputs.
use realtime_chat_platform.Prelude.{
  ℕ, ◌≤◌, ◌≡◌, refl, sym, subst, ap, inl, String, String_discrete, true, false, some, List, [], ◌∷◌,
  ite, length, take, codes, arith,
}
use realtime_chat_platform.Prelude.Orders.{Bytes_discrete}
use realtime_chat_platform.Gateway.EdgeHandler.{OriginResponse, kept, fetch}
use realtime_chat_platform.Media.Store.{
  Meta, Dir, Upload, torn, Faults, no_faults, allowed_types, contains, put, hash_of, head_size,
  store, publish, is_written,
}
use realtime_chat_platform.Gateway.Tickets.Hex.{encode_to_string}
use realtime_chat_platform.Media.Uploads.{after_uploads, open_at, IsServed, open_uploads-IsServed}
use realtime_chat_platform.Media.Controller.{get, plain, set_cache_headers, etag_of}
use realtime_chat_platform.Media.Serving.{object_response, Carries, put-get, edge_keeps_object}
use realtime_chat_platform.Tests.Services.{
  text_of, codes-quoted, marshal, unmarshal, unmarshal-empty, unmarshal-marshal, digest,
  length-digest,
}

abbrev detect : List ℕ → String
detect head = "image/png"

abbrev limit : ℕ
limit = 4

abbrev picture : Upload
picture = record { content = 7 ∷ 8 ∷ 9 ∷ []; broken = false }

abbrev cut_off : Upload
cut_off = record { content = 7 ∷ []; broken = true }

-- A write of the metadata that is torn, an upload that breaks off, and one that comes through.
abbrev uploads : List (Faults × Upload)
uploads =
    (record (no_faults (codes "3")) { write_meta = torn [] }, picture)
    ∷ ((no_faults (codes "2"), cut_off) ∷ ((no_faults (codes "1"), picture) ∷ []))

abbrev picture_hash : List ℕ
picture_hash = hash_of digest detect marshal unmarshal limit picture.content

open_uploads-IsServed_example : IsServed digest detect marshal unmarshal limit picture_hash (
    open_at digest detect marshal unmarshal limit false false picture_hash
      (after_uploads digest detect marshal unmarshal limit uploads []))
open_uploads-IsServed_example =
    open_uploads-IsServed digest detect marshal unmarshal limit unmarshal-marshal length-digest
      uploads false false picture_hash (unmarshal-empty, (tt, (tt, tt)))

abbrev stored : Meta
stored = record { hash = picture_hash; content_type = "image/png"; size = 3 }

abbrev after : Dir
after = (put digest detect marshal unmarshal limit (no_faults (codes "1")) picture []).0

put-picture :
    (put digest detect marshal unmarshal limit (no_faults (codes "1")) picture []).1 ≡ inl stored
unfolding put store publish is_written contains String_discrete
put-picture = refl

put-get_example :
    (get digest detect marshal unmarshal limit false false [] stored.hash after
      ≡ ite
          (Bytes_discrete [] (etag_of stored.hash))
          (set_cache_headers (etag_of stored.hash) (plain 304))
          (object_response stored picture.content))
    × (stored.content_type ≡ detect (take head_size picture.content))
    × (contains allowed_types stored.content_type ≡ true)
    × (picture.broken ≡ false)
    × (length picture.content ≤ limit)
put-get_example =
    put-get digest detect marshal unmarshal limit unmarshal-marshal length-digest
      (no_faults (codes "1")) picture [] after stored [] (ap (λ r. (after, r)) put-picture)

-- What comes through the proxy.
abbrev through_proxy : OriginResponse
through_proxy = record {
  status = 200;
  content_type = "image/png";
  etag = text_of (etag_of picture_hash);
  cache_control = "public, max-age=31536000, immutable";
  content_length = some 3;
  body = record { bytes = 7 ∷ 8 ∷ 9 ∷ []; broken = false };
}

tag-Carried : codes through_proxy.etag ≡ etag_of picture_hash
unfolding hash_of
tag-Carried = codes-quoted (encode_to_string (digest picture.content))

picture-Carries :
    Carries
      (get digest detect marshal unmarshal limit false false [] stored.hash after)
      through_proxy
unfolding Bytes_discrete
picture-Carries =
    subst (λ a. Carries a through_proxy) (sym (put-get_example.0))
      (record {
        status = refl;
        etag = ap some tag-Carried;
        cache_control = refl;
        content_type = refl;
        content_length = refl;
        whole = refl;
        body = refl;
      })

edge_keeps_object_example :
    (fetch 4 (some through_proxy)
      ≡ kept (record {
        body = picture.content;
        content_type = detect (take head_size picture.content);
        etag = through_proxy.etag;
      }))
    × (codes through_proxy.etag ≡ etag_of stored.hash)
edge_keeps_object_example =
    edge_keeps_object digest detect marshal unmarshal limit unmarshal-marshal length-digest
      (no_faults (codes "1")) picture [] after stored 4 through_proxy
      (ap (λ r. (after, r)) put-picture) picture-Carries (omega arith)
