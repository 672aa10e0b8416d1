-- ===== src/Media/Controller.antt =====
-- media-service/internal/controller/media_controller.go, with the key check of
-- internal/middleware/gateway_auth.go before an upload.
use realtime_chat_platform.Prelude.{
  ℕ, ◌⊎◌, inl, inr, String, Bool, true, false, Option, none, some, List, [], ◌∷◌, ◌++◌, ite, codes,
}
use realtime_chat_platform.Prelude.Orders.{Bytes_discrete}
use realtime_chat_platform.Media.Store.{
  Meta, Dir, Upload, Faults, StoreError, not_found, too_large, broken_file, unsupported_type, put,
  open_hash,
}

-- What is written of an answer; the text of an error is left out.
pub record Response : Type 0 where
  pub status : ℕ
  pub etag : Option (List ℕ)
  pub cache_control : Option String
  pub content_type : Option String
  pub content_length : Option ℕ
  pub nosniff : Bool
  pub body : List ℕ

-- `c.JSON(status, ...)` and `c.NoContent(status)`.
abbrev pub plain : ℕ → Response
plain status = record {
  status = status;
  etag = none;
  cache_control = none;
  content_type = none;
  content_length = none;
  nosniff = false;
  body = [];
}

unfoldable pub set_cache_headers : List ℕ → Response → Response
set_cache_headers etag r = record r {
  etag = some etag;
  cache_control = some "public, max-age=31536000, immutable";
}

abbrev pub etag_of : List ℕ → List ℕ
etag_of hash = b'"' ∷ (hash ++ (b'"' ∷ []))

pub record UploadResponse : Type 0 where
  pub hash : List ℕ
  pub url : List ℕ
  pub content_type : String
  pub size : ℕ

-- What comes of the multipart field.
pub data FormFile : Type 0 where
  missing unreadable : FormFile
  opened : Upload → FormFile

unfoldable pub upload_response : Meta → UploadResponse
upload_response meta = record {
  hash = meta.hash;
  url = codes "/media/" ++ meta.hash;
  content_type = meta.content_type;
  size = meta.size;
}

-- The status of an upload that failed.
unfoldable pub upload_status : StoreError → ℕ
upload_status too_large = 413
upload_status (unsupported_type content_type) = 415
upload_status not_found = 500
upload_status broken_file = 500

unfoldable pub upload_answer : Meta ⊎ StoreError → UploadResponse ⊎ ℕ
unfolding upload_response upload_status
upload_answer (inl meta) = inl (upload_response meta)
upload_answer (inr e) = inr (upload_status e)

-- An object that was opened.
unfoldable pub stream : List ℕ → Meta → List ℕ → Response
unfolding set_cache_headers
stream etag meta content = record (set_cache_headers etag (plain 200)) {
  content_length = some meta.size;
  nosniff = true;
  content_type = some meta.content_type;
  body = content;
}

unfoldable pub opened_answer : List ℕ → (Meta × List ℕ) ⊎ StoreError → Response
unfolding stream
opened_answer etag (inl (meta, content)) = stream etag meta content
opened_answer etag (inr not_found) = plain 404
opened_answer etag (inr too_large) = plain 500
opened_answer etag (inr broken_file) = plain 500
opened_answer etag (inr (unsupported_type content_type)) = plain 500

module _ (sha256 : List ℕ → List ℕ) (detect : List ℕ → String) (marshal : Meta → List ℕ)
    (unmarshal : List ℕ → Option Meta) (max_bytes : ℕ) where
  -- `Upload`: 201 with the response, or the status of the error.
  unfoldable pub upload : Faults → FormFile → Dir → Dir × (UploadResponse ⊎ ℕ)
  unfolding upload_answer
  upload faults missing dir = (dir, inr 400)
  upload faults unreadable dir = (dir, inr 400)
  upload faults (opened file) dir =
      let (after, result) = put sha256 detect marshal unmarshal max_bytes faults file dir in
      (after, upload_answer result)

  -- `Get`; `if_none_match` is the header's first value, or empty.
  unfoldable pub get : Bool → Bool → List ℕ → List ℕ → Dir → Response
  unfolding set_cache_headers opened_answer
  get read_fails open_fails if_none_match hash dir =
      ite (Bytes_discrete if_none_match (etag_of hash))
        (set_cache_headers (etag_of hash) (plain 304))
        (opened_answer (etag_of hash)
          (open_hash sha256 detect marshal unmarshal max_bytes read_fails open_fails hash dir))

  -- The upload behind `GatewayAuthMiddleware`; both keys are bytes.
  unfoldable pub guarded_upload :
      List ℕ → List ℕ → Faults → FormFile → Dir → Dir × (UploadResponse ⊎ ℕ)
  unfolding upload
  guarded_upload gateway_key provided faults file dir =
      ite (Bytes_discrete provided gateway_key) (upload faults file dir) (dir, inr 401)
