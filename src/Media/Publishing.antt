-- ===== src/Media/Publishing.antt =====
-- What a `Put` that succeeds has done: the files that it leaves under the hash of the upload.
use realtime_chat_platform.Prelude.Maps
use realtime_chat_platform.Prelude.{
  ℕ, suc, zero, ◌≤◌, ◌≡◌, ◌⊎◌, inl, inr, refl, sym, ap, ◌∙◌, subst, String, Bool, true, false, ◌&&◌,
  ◌||◌, not, Option, some, List, [], ◌∷◌, if◌then◌else◌, ltb, not-ltb, length, take, arith,
  Bool-cases,
}
use realtime_chat_platform.Prelude.Orders.{Bytes_discrete}
use realtime_chat_platform.Media.Store.{
  Meta, Dir, Upload, Written, written, untouched, torn, Faults, StoreError, allowed_types, contains,
  matches_hash, object_path, meta_path, temp_path, head_size, clean_up, rename, hash_of, write_meta,
  is_written, publish, store, put,
}
use realtime_chat_platform.Media.Store.Names.{object_temp, meta_temp, meta_object, encode-matches}

take_short : {A : Type 0} (k : ℕ) (l : List A) → length (take (suc k) l) ≤ k → take (suc k) l ≡ l
take_short zero [] h = refl
take_short zero (a ∷ l) h = absurd (omega arith)
take_short (suc k) [] h = refl
take_short (suc k) (a ∷ l) h = ap (λ r. a ∷ r) (take_short k l (omega arith))

module _ (sha256 : List ℕ → List ℕ) (detect : List ℕ → String) (marshal : Meta → List ℕ)
    (unmarshal : List ℕ → Option Meta) (max_bytes : ℕ) where
  -- What a `Put` that succeeds has done.
  pub record Published (upload : Upload) (meta : Meta) (dir : Dir) : Type 0 where
    pub small : length upload.content ≤ max_bytes
    pub whole : upload.broken ≡ false
    pub size : meta.size ≡ length upload.content
    pub hash : meta.hash ≡ hash_of sha256 detect marshal unmarshal max_bytes upload.content
    pub content_type : meta.content_type ≡ detect (take head_size upload.content)
    pub allowed : contains allowed_types meta.content_type ≡ true
    pub object : Maps.get Bytes_discrete (object_path meta.hash) dir ≡ some upload.content
    pub described : Maps.get Bytes_discrete (meta_path meta.hash) dir ≡ some (marshal meta)

  clean_up_gets :
      (faults : Faults) (h : List ℕ) (dir : Dir)
      → matches_hash h ≡ true
      → (Maps.get Bytes_discrete (object_path h) (clean_up faults dir)
          ≡ Maps.get Bytes_discrete (object_path h) dir)
        × (Maps.get Bytes_discrete (meta_path h) (clean_up faults dir)
            ≡ Maps.get Bytes_discrete (meta_path h) dir)
  unfolding clean_up
  clean_up_gets faults h dir valid = elim (Bool-cases faults.remove) [
    | inl stays ↦ (rw stays, rw stays)
    | inr goes ↦ (
      rw goes (
          Maps.get-delete Bytes_discrete (object_path h) (temp_path faults.suffix) dir
          ∙ object_temp h valid _ _ faults.suffix),
      rw goes (
          Maps.get-delete Bytes_discrete (meta_path h) (temp_path faults.suffix) dir
          ∙ meta_temp h valid _ _ faults.suffix),
    )
  ]

  -- The two files after the rename.
  published_gets :
      (faults : Faults) (meta : Meta) (content : List ℕ) (dir : Dir)
      → matches_hash meta.hash ≡ true
      → (let after = clean_up faults (
            rename
              (temp_path faults.suffix)
              (object_path meta.hash)
              content
              (Maps.put Bytes_discrete (meta_path meta.hash) (marshal meta) dir)) in
          (Maps.get Bytes_discrete (object_path meta.hash) after ≡ some content)
          × (Maps.get Bytes_discrete (meta_path meta.hash) after ≡ some (marshal meta)))
  unfolding rename
  published_gets faults meta content dir valid =
      let described = Maps.put Bytes_discrete (meta_path meta.hash) (marshal meta) dir in
      let moved = Maps.delete Bytes_discrete (temp_path faults.suffix) described in
      let placed = Maps.put Bytes_discrete (object_path meta.hash) content moved in
      let cleaned = clean_up_gets faults meta.hash placed valid in
      (
        cleaned.0 ∙ Maps.get-put_self Bytes_discrete (object_path meta.hash) content moved,
        cleaned.1
            ∙ Maps.get-put Bytes_discrete (meta_path meta.hash) (object_path meta.hash) content
                moved
            ∙ meta_object meta.hash valid _ _ meta.hash valid
            ∙ Maps.get-delete Bytes_discrete (meta_path meta.hash) (temp_path faults.suffix)
                described
            ∙ meta_temp meta.hash valid _ _ faults.suffix
            ∙ Maps.get-put_self Bytes_discrete (meta_path meta.hash) (marshal meta) dir,
      )

  -- A branch of `Put` is right if it publishes what it reports.
  abbrev pub Reports : Upload → Dir × (Meta ⊎ StoreError) → Type 0
  Reports upload x = (meta : Meta) → x.1 ≡ inl meta → Published upload meta x.0

  branch_Reports :
      (upload : Upload) (b : Bool) (x y : Dir × (Meta ⊎ StoreError))
      → (b ≡ true → Reports upload x)
      → (b ≡ false → Reports upload y)
      → Reports upload (if b then x else y)
  branch_Reports upload true x y h k = h refl
  branch_Reports upload false x y h k = k refl

  failed_Reports : (upload : Upload) (dir : Dir) (e : StoreError) → Reports upload (dir, inr e)
  failed_Reports upload dir e meta h = absurd (cc)

  module _ (digest : (content : List ℕ) → length (sha256 content) ≡ 32) (faults : Faults)
      (upload : Upload) where
    abbrev read : List ℕ
    read = take (suc max_bytes) upload.content

    abbrev meta_of : String → Meta
    meta_of content_type = record {
      hash = hash_of sha256 detect marshal unmarshal max_bytes read;
      content_type = content_type;
      size = length read;
    }

    hash_of-matches : matches_hash (hash_of sha256 detect marshal unmarshal max_bytes read) ≡ true
    unfolding hash_of
    hash_of-matches = encode-matches (sha256 read) (digest read)

    cut_or_whole :
        (upload.broken && ltb (length upload.content) (suc max_bytes)) ≡ false
        → length upload.content ≤ max_bytes
        → upload.broken ≡ false
    cut_or_whole h small = ground arith

    -- `publish` with success.
    publish_success :
        (w : Written) (m meta : Meta) (content : List ℕ) (dir : Dir)
        → faults.write_meta ≡ w
        → (publish sha256 detect marshal unmarshal max_bytes faults m content dir).1 ≡ inl meta
        → (m ≡ meta)
          × ((publish sha256 detect marshal unmarshal max_bytes faults m content dir).0
              ≡ clean_up faults (
                  rename
                    (temp_path faults.suffix)
                    (object_path m.hash)
                    content
                    (Maps.put Bytes_discrete (meta_path m.hash) (marshal m) dir)))
    unfolding publish write_meta is_written
    publish_success written m meta content dir e h = ground (arith, e)
    publish_success untouched m meta content dir e h = ground (arith, e)
    publish_success (torn bytes) m meta content dir e h = ground (arith, e)

    publish-Reports :
        (dir : Dir)
        → length read ≤ max_bytes
        → (upload.broken && ltb (length upload.content) (suc max_bytes)) ≡ false
        → contains allowed_types (detect (take head_size upload.content)) ≡ true
        → Reports upload (
            publish sha256 detect marshal unmarshal max_bytes faults
              (meta_of (detect (take head_size upload.content)))
              read
              dir)
    publish-Reports dir short uncut known meta eq =
        let m = meta_of (detect (take head_size upload.content)) in
        let (same, after) = publish_success faults.write_meta m meta read dir refl eq in
        let all : read ≡ upload.content = take_short max_bytes upload.content short in
        let fits : length upload.content ≤ max_bytes =
          subst (λ l. length l ≤ max_bytes) all short in
        let (object, described) = published_gets faults m read dir hash_of-matches in
        let published : Published upload m (
            clean_up faults (
              rename (temp_path faults.suffix) (object_path m.hash) read
                (Maps.put Bytes_discrete (meta_path m.hash) (marshal m) dir))) =
          record {
            small = fits;
            whole = cut_or_whole uncut fits;
            size = ap length all;
            hash = ap (hash_of sha256 detect marshal unmarshal max_bytes) all;
            content_type = refl;
            allowed = known;
            object = object ∙ ap some all;
            described = described;
          } in
        let result = publish sha256 detect marshal unmarshal max_bytes faults m read dir in
        subst (λ k. Published upload k result.0) same
          (subst (λ d. Published upload m d) (sym after) published)

    pub put-Reports :
        (dir : Dir)
        → Reports upload (put sha256 detect marshal unmarshal max_bytes faults upload dir)
    unfolding put store
    put-Reports dir =
        let content_type = detect (take head_size upload.content) in
        branch_Reports upload (upload.broken && ltb (length upload.content) head_size) _ _
          (λ _. failed_Reports upload _ _)
          (λ _.
            branch_Reports upload (not (contains allowed_types content_type)) _ _
              (λ _. failed_Reports upload _ _)
              (λ known.
                branch_Reports upload faults.create_temp _ _ (λ _. failed_Reports upload _ _)
                  (λ _.
                    branch_Reports upload
                      (faults.copy
                        || (upload.broken && ltb (length upload.content) (suc max_bytes)))
                      _ _ (λ _. failed_Reports upload _ _)
                      (λ uncut.
                        branch_Reports upload (ltb max_bytes (length read)) _ _
                          (λ _. failed_Reports upload _ _)
                          (λ small.
                            publish-Reports _ (not-ltb max_bytes (length read) small)
                              (ground (arith, uncut)) (ground (arith, known)))))))
