-- ===== src/Media/Uploads.antt =====
-- What `Open` gives after uploads: the bytes that the hash names, with metadata that tell them
-- right.
use realtime_chat_platform.Prelude.Maps
use realtime_chat_platform.Prelude.{
  ℕ, suc, ◌≤◌, ◌≡◌, ◌≢◌, ◌⊎◌, inl, inr, refl, ap, String, Bool, true, false, Option, none, some,
  List, [], ◌∷◌, if◌then◌else◌, length, take, arith, Bool-cases,
}
use realtime_chat_platform.Prelude.Orders.{Bytes_discrete}
use realtime_chat_platform.Media.Store.{
  Meta, Dir, Upload, Written, written, untouched, torn, Faults, StoreError, allowed_types, contains,
  matches_hash, object_path, meta_path, hash_of, put, read_meta, open_object, open_hash, not_found,
  broken_file,
}
use realtime_chat_platform.Media.Objects.{IsStored, WritesWell, put-IsStored}

module _ (sha256 : List ℕ → List ℕ) (detect : List ℕ → String) (marshal : Meta → List ℕ)
    (unmarshal : List ℕ → Option Meta) (max_bytes : ℕ) where
  -- The directory after uploads, the latest first.
  abbrev pub after_uploads : List (Faults × Upload) → Dir → Dir
  after_uploads [] dir = dir
  after_uploads ((faults, upload) ∷ l) dir =
      (put sha256 detect marshal unmarshal max_bytes faults upload (after_uploads l dir)).0

  -- The hash under which an upload would stand.
  abbrev pub upload_hash : Upload → List ℕ
  upload_hash upload =
      hash_of sha256 detect marshal unmarshal max_bytes (take (suc max_bytes) upload.content)

  abbrev pub open_at : Bool → Bool → List ℕ → Dir → (Meta × List ℕ) ⊎ StoreError
  open_at read_fails open_fails h dir =
      open_hash sha256 detect marshal unmarshal max_bytes read_fails open_fails h dir

  -- A torn write leaves no JSON.
  abbrev pub IsTornSafe : Written → Type 0
  IsTornSafe written = Unit
  IsTornSafe untouched = Unit
  IsTornSafe (torn bytes) = unmarshal bytes ≡ none

  abbrev pub AllTornSafe : List (Faults × Upload) → Type 0
  AllTornSafe [] = Unit
  AllTornSafe ((faults, upload) ∷ l) = IsTornSafe faults.write_meta × AllTornSafe l

  abbrev pub AllOthers : List ℕ → List (Faults × Upload) → Type 0
  AllOthers h [] = Unit
  AllOthers h ((faults, upload) ∷ l) = (upload_hash upload ≢ h) × AllOthers h l

  -- A content under its own hash, not over the limit.
  abbrev IsObject : List ℕ → Option (List ℕ) → Type 0
  IsObject h none = Unit
  IsObject h (some content) =
      (hash_of sha256 detect marshal unmarshal max_bytes content ≡ h) × (length content ≤ max_bytes)

  abbrev Describes : List ℕ → Option Meta → Type 0
  Describes h none = Unit
  Describes h (some meta) = (meta.hash ≡ h) × (contains allowed_types meta.content_type ≡ true)

  abbrev IsMeta : List ℕ → Option (List ℕ) → Type 0
  IsMeta h none = Unit
  IsMeta h (some raw) = Describes h (unmarshal raw)

  -- What is served under a hash: the bytes that it names, and metadata about them.
  abbrev pub IsServed : List ℕ → (Meta × List ℕ) ⊎ StoreError → Type 0
  IsServed h (inr e) = Unit
  IsServed h (inl (meta, content)) =
      (hash_of sha256 detect marshal unmarshal max_bytes content ≡ h)
      × (length content ≤ max_bytes)
      × (meta.hash ≡ h)
      × (contains allowed_types meta.content_type ≡ true)

  -- `Open` from what is found under the two names.
  found_object : Bool → Meta → Option (List ℕ) → (Meta × List ℕ) ⊎ StoreError
  found_object open_fails meta none = inr not_found
  found_object open_fails meta (some content) =
      if open_fails then inr broken_file else inl (meta, content)

  found_meta : Bool → Option (List ℕ) → Option Meta → (Meta × List ℕ) ⊎ StoreError
  found_meta open_fails object none = inr broken_file
  found_meta open_fails object (some meta) = found_object open_fails meta object

  found_files : Bool → Bool → Option (List ℕ) → Option (List ℕ) → (Meta × List ℕ) ⊎ StoreError
  found_files read_fails open_fails object none = inr not_found
  found_files read_fails open_fails object (some raw) =
      if read_fails then inr broken_file else found_meta open_fails object (unmarshal raw)

  open_found :
      (read_fails open_fails : Bool) (h : List ℕ) (dir : Dir)
      → matches_hash h ≡ true
      → open_at read_fails open_fails h dir
        ≡ found_files read_fails open_fails
            (Maps.get Bytes_discrete (object_path h) dir)
            (Maps.get Bytes_discrete (meta_path h) dir)
  unfolding open_hash read_meta open_object found_object found_meta found_files
  open_found read_fails open_fails h dir valid = ground (arith, valid)

  served :
      (read_fails open_fails : Bool) (h : List ℕ) (object raw : Option (List ℕ))
      → IsObject h object
      → IsMeta h raw
      → IsServed h (found_files read_fails open_fails object raw)
  unfolding found_object found_meta found_files
  served read_fails open_fails h object none o m = tt
  served true open_fails h object (some raw) o m = tt
  served false open_fails h object (some raw) o m = described (unmarshal raw) m
    where
      described : (d : Option Meta) → Describes h d → IsServed h (found_meta open_fails object d)
      described none k = tt
      described (some meta) k = stored object o
        where
          stored :
              (c : Option (List ℕ)) → IsObject h c → IsServed h (found_object open_fails meta c)
          stored none j = tt
          stored (some content) j =
              elim open_fails
                as (λ f. IsServed h (if f then inr broken_file else inl (meta, content))) [
                  | true ↦ tt
                  | false ↦ (j.0, j.1, k.0, k.1)
                ]

  module _ (readable : (m : Meta) → unmarshal (marshal m) ≡ some m)
      (digest : (content : List ℕ) → length (sha256 content) ≡ 32) where
    well_described :
        (w : Written) (meta : Meta)
        → IsTornSafe w
        → contains allowed_types meta.content_type ≡ true
        → WritesWell sha256 detect marshal unmarshal max_bytes IsObject IsMeta w meta
    well_described written meta safe allowed = rw (readable meta) (refl, allowed)
    well_described untouched meta safe allowed = tt
    well_described (torn bytes) meta safe allowed = rw safe tt

    uploads-IsStored :
        (l : List (Faults × Upload))
        → AllTornSafe l
        → IsStored sha256 detect marshal unmarshal max_bytes IsObject IsMeta (after_uploads l [])
    unfolding Maps.get
    uploads-IsStored [] safe = record { objects = λ h valid. tt; metas = λ h valid. tt }
    uploads-IsStored ((faults, upload) ∷ l) safe =
        put-IsStored sha256 detect marshal unmarshal max_bytes IsObject IsMeta digest faults upload
          (after_uploads l []) (λ t allowed. well_described faults.write_meta _ safe.0 allowed)
          (λ small. (refl, small)) (uploads-IsStored l safe.1)

    -- After any uploads into an empty directory, whatever calls on files fail, what `Open` gives
    -- under a hash, if it gives anything, is content with that very hash and not over the limit,
    -- with metadata that have the hash and an allowed image type. SHA-256 has 32 bytes, metadata
    -- are read back as written, and a torn write of them leaves no JSON.
    pub open_uploads-IsServed :
        (l : List (Faults × Upload)) (read_fails open_fails : Bool) (h : List ℕ)
        → AllTornSafe l
        → IsServed h (open_at read_fails open_fails h (after_uploads l []))
    unfolding open_hash
    open_uploads-IsServed l read_fails open_fails h safe = elim (Bool-cases (matches_hash h)) [
      | inl valid ↦
          (let stored = uploads-IsStored l safe in
            rw (open_found read_fails open_fails h (after_uploads l []) valid)
              (served read_fails open_fails h _ _ (stored.objects h valid) (stored.metas h valid)))
      | inr odd ↦ rw odd tt
    ]

  -- The two files of a hash are as they were.
  abbrev Kept : List ℕ → Option (List ℕ) → List ℕ → Option (List ℕ) → Type 0
  Kept h old j o = j ≡ h → o ≡ old

  other_keeps :
      (w : Written) (meta : Meta) (h : List ℕ) (object raw : Option (List ℕ))
      → meta.hash ≢ h
      → WritesWell sha256 detect marshal unmarshal max_bytes (Kept h object) (Kept h raw) w meta
  other_keeps written meta h object raw n = λ e. absurd (n e)
  other_keeps untouched meta h object raw n = tt
  other_keeps (torn bytes) meta h object raw n = λ e. absurd (n e)

  module _ (digest : (content : List ℕ) → length (sha256 content) ≡ 32) where
    put-Kept :
        (faults : Faults) (upload : Upload) (h : List ℕ) (object raw : Option (List ℕ)) (dir : Dir)
        → upload_hash upload ≢ h
        → IsStored sha256 detect marshal unmarshal max_bytes (Kept h object) (Kept h raw) dir
        → IsStored sha256 detect marshal unmarshal max_bytes
            (Kept h object)
            (Kept h raw)
            (put sha256 detect marshal unmarshal max_bytes faults upload dir).0
    put-Kept faults upload h object raw dir n s =
        put-IsStored sha256 detect marshal unmarshal max_bytes (Kept h object) (Kept h raw) digest
          faults upload dir (λ t allowed. other_keeps faults.write_meta _ h object raw n)
          (λ small e. absurd (n e)) s

    uploads-Kept :
        (l : List (Faults × Upload)) (h : List ℕ) (dir : Dir)
        → AllOthers h l
        → IsStored sha256 detect marshal unmarshal max_bytes
            (Kept h (Maps.get Bytes_discrete (object_path h) dir))
            (Kept h (Maps.get Bytes_discrete (meta_path h) dir))
            (after_uploads l dir)
    uploads-Kept [] h dir others = record {
      objects = λ j valid e. ap (λ k. Maps.get Bytes_discrete (object_path k) dir) e;
      metas = λ j valid e. ap (λ k. Maps.get Bytes_discrete (meta_path k) dir) e;
    }
    uploads-Kept ((faults, upload) ∷ l) h dir others =
        put-Kept faults upload h _ _ (after_uploads l dir) others.0 (uploads-Kept l h dir others.1)

    -- Uploads of contents that hash otherwise leave what `Open` gives under a hash as it was,
    -- stored or not, whatever calls on files fail. SHA-256 has 32 bytes.
    pub open_undisturbed :
        (l : List (Faults × Upload)) (read_fails open_fails : Bool) (h : List ℕ) (dir : Dir)
        → AllOthers h l
        → open_at read_fails open_fails h (after_uploads l dir)
          ≡ open_at read_fails open_fails h dir
    unfolding open_hash
    open_undisturbed l read_fails open_fails h dir others = elim (Bool-cases (matches_hash h)) [
      | inl valid ↦
          (let kept = uploads-Kept l h dir others in
            rw (
              open_found read_fails open_fails h (after_uploads l dir) valid,
              open_found read_fails open_fails h dir valid,
              kept.objects h valid refl,
              kept.metas h valid refl,
            ))
      | inr odd ↦ rw odd
    ]
