-- ===== src/Media/Store.antt =====
-- media-service/internal/storage/store.go. The directory is a map from names to bytes, and a name
-- or a hash is its bytes. SHA-256, the sniffing of a content type and the JSON of the metadata are
-- arguments, and so is which of the calls on files fail.
pub mod Names
use realtime_chat_platform.Prelude.Maps
use realtime_chat_platform.Prelude.{
  ℕ, suc, ◌+◌, ◌⊎◌, inl, inr, String, String_discrete, Bool, true, false, ◌&&◌, ◌||◌, not, Option,
  none, some, List, [], ◌∷◌, ◌++◌, ite, if◌then◌else◌, ltb, leb, ◌==◌, codes, length, take,
}
use realtime_chat_platform.Prelude.Orders.{Bytes_discrete}
use realtime_chat_platform.Gateway.Tickets.Hex.{encode_to_string}

pub record Meta : Type 0 where
  pub hash : List ℕ
  pub content_type : String
  pub size : ℕ

-- The stored files by name.
abbrev pub Dir : Type 0
Dir = List (List ℕ × List ℕ)

-- `io.Reader`: the bytes that come, and whether an error follows them.
pub record Upload : Type 0 where
  pub content : List ℕ
  pub broken : Bool

-- What becomes of `os.WriteFile`: all is written, or the file is left as it was, or with other
-- bytes.
pub data Written : Type 0 where
  written untouched : Written
  torn : List ℕ → Written

-- Which calls on files fail in a `Put`, and the random part of the temporary name.
pub record Faults : Type 0 where
  pub suffix : List ℕ
  pub create_temp : Bool
  pub copy : Bool
  pub write_meta : Written
  pub rename : Bool
  pub remove : Bool

abbrev pub no_faults : List ℕ → Faults
no_faults suffix = record {
  suffix = suffix;
  create_temp = false;
  copy = false;
  write_meta = written;
  rename = false;
  remove = false;
}

pub data StoreError : Type 0 where
  not_found too_large broken_file : StoreError
  unsupported_type : String → StoreError

abbrev pub allowed_types : List String
allowed_types = "image/png" ∷ "image/jpeg" ∷ "image/gif" ∷ "image/webp" ∷ []

-- `slices.Contains`.
unfoldable pub contains : List String → String → Bool
contains [] t = false
contains (a ∷ l) t = let rest = contains l t in ite (String_discrete a t) true rest

unfoldable pub is_hex : ℕ → Bool
is_hex c = (leb b'a' c && leb c b'f') || (leb b'0' c && leb c b'9')

unfoldable pub all_hex : List ℕ → Bool
unfolding is_hex
all_hex [] = true
all_hex (c ∷ cs) = is_hex c && all_hex cs

-- `hashPattern.MatchString`.
unfoldable pub matches_hash : List ℕ → Bool
unfolding all_hex
matches_hash hash = (length hash == 64) && all_hex hash

abbrev pub object_path : List ℕ → List ℕ
object_path hash = hash

abbrev pub meta_path : List ℕ → List ℕ
meta_path hash = hash ++ codes ".json"

abbrev pub temp_path : List ℕ → List ℕ
temp_path suffix = codes ".upload-" ++ suffix

abbrev pub head_size : ℕ
head_size = 512

-- `defer os.Remove(tmpName)`.
unfoldable pub clean_up : Faults → Dir → Dir
clean_up faults dir =
    if faults.remove then dir else Maps.delete Bytes_discrete (temp_path faults.suffix) dir

-- `os.Rename`: the file takes the place of what has the new name.
unfoldable pub rename : List ℕ → List ℕ → List ℕ → Dir → Dir
rename old new content dir =
    Maps.put Bytes_discrete new content (Maps.delete Bytes_discrete old dir)

module _ (sha256 : List ℕ → List ℕ) (detect : List ℕ → String) (marshal : Meta → List ℕ)
    (unmarshal : List ℕ → Option Meta) (max_bytes : ℕ) where
  unfoldable pub hash_of : List ℕ → List ℕ
  hash_of content = codes (encode_to_string (sha256 content))

  unfoldable pub write_meta : Written → Meta → Dir → Dir
  write_meta written meta dir = Maps.put Bytes_discrete (meta_path meta.hash) (marshal meta) dir
  write_meta untouched meta dir = dir
  write_meta (torn bytes) meta dir = Maps.put Bytes_discrete (meta_path meta.hash) bytes dir

  unfoldable pub is_written : Written → Bool
  is_written written = true
  is_written untouched = false
  is_written (torn bytes) = false

  -- `Put` from the metadata on; the temporary file holds the content.
  unfoldable pub publish : Faults → Meta → List ℕ → Dir → Dir × (Meta ⊎ StoreError)
  unfolding clean_up rename write_meta is_written
  publish faults meta content dir =
      let described = write_meta faults.write_meta meta dir in
      if not (is_written faults.write_meta)
      then (clean_up faults described, inr broken_file)
      else if faults.rename
      then (clean_up faults described, inr broken_file)
      else (
        clean_up faults
            (rename (temp_path faults.suffix) (object_path meta.hash) content described),
        inl meta,
      )

  -- `Put` from the temporary file on; one byte more than the limit is read at most.
  unfoldable pub store : Faults → String → Upload → Dir → Dir × (Meta ⊎ StoreError)
  unfolding clean_up publish hash_of
  store faults content_type upload dir =
      let content = take (suc max_bytes) upload.content in
      let filled = Maps.put Bytes_discrete (temp_path faults.suffix) content dir in
      let cut_off = upload.broken && ltb (length upload.content) (suc max_bytes) in
      if faults.create_temp
      then (dir, inr broken_file)
      else if faults.copy || cut_off
      then (clean_up faults filled, inr broken_file)
      else if ltb max_bytes (length content)
      then (clean_up faults filled, inr too_large)
      else publish faults
          (record { hash = hash_of content; content_type = content_type; size = length content })
          content filled

  -- `Put`.
  unfoldable pub put : Faults → Upload → Dir → Dir × (Meta ⊎ StoreError)
  unfolding contains store
  put faults upload dir =
      let content_type = detect (take head_size upload.content) in
      if upload.broken && ltb (length upload.content) head_size
      then (dir, inr broken_file)
      else if not (contains allowed_types content_type)
      then (dir, inr (unsupported_type content_type))
      else store faults content_type upload dir

  unfoldable pub read_meta : Bool → List ℕ → Dir → Meta ⊎ StoreError
  read_meta read_fails hash dir = elim (Maps.get Bytes_discrete (meta_path hash) dir) [
    | none ↦ inr not_found
    | some raw ↦
        if read_fails
        then inr broken_file
        else elim (unmarshal raw) [ none ↦ inr broken_file | some meta ↦ inl meta ]
  ]

  unfoldable pub open_object : Bool → List ℕ → Meta → Dir → (Meta × List ℕ) ⊎ StoreError
  open_object open_fails hash meta dir = elim (Maps.get Bytes_discrete (object_path hash) dir) [
    | none ↦ inr not_found
    | some content ↦ if open_fails then inr broken_file else inl (meta, content)
  ]

  -- `Open`, with the bytes that the file has.
  unfoldable pub open_hash : Bool → Bool → List ℕ → Dir → (Meta × List ℕ) ⊎ StoreError
  unfolding matches_hash read_meta open_object
  open_hash read_fails open_fails hash dir =
      if not (matches_hash hash) then inr not_found else elim (read_meta read_fails hash dir) [
        | inr e ↦ inr e
        | inl meta ↦ open_object open_fails hash meta dir
      ]
