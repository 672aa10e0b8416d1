-- ===== src/Media/Objects.antt =====
-- What a `Put` keeps of the objects and of the metadata in the store's directory.
use realtime_chat_platform.Prelude.Maps
use realtime_chat_platform.Prelude.{
  ℕ, suc, ◌≤◌, ◌≡◌, ◌⊎◌, inl, inr, refl, sym, subst, String, Bool, true, false, ◌&&◌, ◌||◌, not,
  Option, some, List, ite, if◌then◌else◌, ltb, not-ltb, length, take, arith, Bool-cases,
}
use realtime_chat_platform.Prelude.Orders.{Bytes_discrete}
use realtime_chat_platform.Media.Store.{
  Meta, Dir, Upload, Written, written, untouched, torn, Faults, StoreError, allowed_types, contains,
  matches_hash, object_path, meta_path, temp_path, head_size, clean_up, rename, hash_of, write_meta,
  is_written, publish, store, put,
}
use realtime_chat_platform.Media.Store.Names.{
  object_temp, meta_temp, object_meta, meta_object, meta_meta, encode-matches,
}

module _ (sha256 : List ℕ → List ℕ) (detect : List ℕ → String) (marshal : Meta → List ℕ)
    (unmarshal : List ℕ → Option Meta) (max_bytes : ℕ) where
  -- Properties of the object and of the metadata under each hash, kept by every step of a `Put`.
  module _ (P Q : List ℕ → Option (List ℕ) → Type 0) where
    pub record IsStored (dir : Dir) : Type 0 where
      pub objects :
          (h : List ℕ) → matches_hash h ≡ true → P h (Maps.get Bytes_discrete (object_path h) dir)
      pub metas :
          (h : List ℕ) → matches_hash h ≡ true → Q h (Maps.get Bytes_discrete (meta_path h) dir)

    put_temp-IsStored :
        (suffix content : List ℕ) (dir : Dir)
        → IsStored dir
        → IsStored (Maps.put Bytes_discrete (temp_path suffix) content dir)
    put_temp-IsStored suffix content dir s = record {
      objects = λ h valid.
          rw
            (
              Maps.get-put Bytes_discrete (object_path h) (temp_path suffix) content dir,
              object_temp h valid _ _ suffix,
            )
            (s.objects h valid);
      metas = λ h valid.
          rw
            (
              Maps.get-put Bytes_discrete (meta_path h) (temp_path suffix) content dir,
              meta_temp h valid _ _ suffix,
            )
            (s.metas h valid);
    }

    delete_temp-IsStored :
        (suffix : List ℕ) (dir : Dir)
        → IsStored dir
        → IsStored (Maps.delete Bytes_discrete (temp_path suffix) dir)
    delete_temp-IsStored suffix dir s = record {
      objects = λ h valid.
          rw
            (
              Maps.get-delete Bytes_discrete (object_path h) (temp_path suffix) dir,
              object_temp h valid _ _ suffix,
            )
            (s.objects h valid);
      metas = λ h valid.
          rw
            (
              Maps.get-delete Bytes_discrete (meta_path h) (temp_path suffix) dir,
              meta_temp h valid _ _ suffix,
            )
            (s.metas h valid);
    }

    put_meta-IsStored :
        (j raw : List ℕ) (dir : Dir)
        → matches_hash j ≡ true
        → Q j (some raw)
        → IsStored dir
        → IsStored (Maps.put Bytes_discrete (meta_path j) raw dir)
    put_meta-IsStored j raw dir also m s = record {
      objects = λ h valid.
          rw
            (
              Maps.get-put Bytes_discrete (object_path h) (meta_path j) raw dir,
              object_meta h valid _ _ j also,
            )
            (s.objects h valid);
      metas = λ h valid.
          rw
            (
              Maps.get-put Bytes_discrete (meta_path h) (meta_path j) raw dir,
              meta_meta h valid _ _ j also,
            )
            (elim (Bytes_discrete h j)
              as (λ d. Q h (ite d (some raw) (Maps.get Bytes_discrete (meta_path h) dir))) [
                | yes e ↦ subst (λ k. Q k (some raw)) (sym e) m
                | no n ↦ s.metas h valid
              ]);
    }

    put_object-IsStored :
        (j content : List ℕ) (dir : Dir)
        → matches_hash j ≡ true
        → P j (some content)
        → IsStored dir
        → IsStored (Maps.put Bytes_discrete (object_path j) content dir)
    put_object-IsStored j content dir also o s = record {
      objects = λ h valid.
          rw (Maps.get-put Bytes_discrete (object_path h) (object_path j) content dir)
            (elim (Bytes_discrete h j)
              as (λ d. P h (ite d (some content) (Maps.get Bytes_discrete h dir))) [
                | yes e ↦ subst (λ k. P k (some content)) (sym e) o
                | no n ↦ s.objects h valid
              ]);
      metas = λ h valid.
          rw
            (
              Maps.get-put Bytes_discrete (meta_path h) (object_path j) content dir,
              meta_object h valid _ _ j also,
            )
            (s.metas h valid);
    }

    branch_IsStored :
        (b : Bool) (x y : Dir × (Meta ⊎ StoreError))
        → (b ≡ true → IsStored x.0)
        → (b ≡ false → IsStored y.0)
        → IsStored (if b then x else y).0
    branch_IsStored true x y h k = h refl
    branch_IsStored false x y h k = k refl

    clean_up-IsStored :
        (faults : Faults) (dir : Dir) → IsStored dir → IsStored (clean_up faults dir)
    unfolding clean_up
    clean_up-IsStored faults dir s = elim (Bool-cases faults.remove) [
      | inl stays ↦ rw stays s
      | inr goes ↦ rw goes (delete_temp-IsStored faults.suffix dir s)
    ]

    -- What a write of metadata must leave to be right about them.
    abbrev pub WritesWell : Written → Meta → Type 0
    WritesWell written meta = Q meta.hash (some (marshal meta))
    WritesWell untouched meta = Unit
    WritesWell (torn bytes) meta = Q meta.hash (some bytes)

    write_meta-IsStored :
        (w : Written) (meta : Meta) (dir : Dir)
        → WritesWell w meta
        → matches_hash meta.hash ≡ true
        → IsStored dir
        → IsStored (write_meta sha256 detect marshal unmarshal max_bytes w meta dir)
    unfolding write_meta
    write_meta-IsStored written meta dir well valid s =
        put_meta-IsStored meta.hash (marshal meta) dir valid well s
    write_meta-IsStored untouched meta dir well valid s = s
    write_meta-IsStored (torn bytes) meta dir well valid s =
        put_meta-IsStored meta.hash bytes dir valid well s

    publish-IsStored :
        (faults : Faults) (meta : Meta) (content : List ℕ) (dir : Dir)
        → WritesWell faults.write_meta meta
        → matches_hash meta.hash ≡ true
        → P meta.hash (some content)
        → IsStored dir
        → IsStored (publish sha256 detect marshal unmarshal max_bytes faults meta content dir).0
    unfolding publish rename
    publish-IsStored faults meta content dir well valid object s =
        let described = write_meta-IsStored faults.write_meta meta dir well valid s in
        branch_IsStored
          (not (is_written sha256 detect marshal unmarshal max_bytes faults.write_meta)) _ _
          (λ _. clean_up-IsStored faults _ described)
          (λ _.
            branch_IsStored faults.rename _ _ (λ _. clean_up-IsStored faults _ described)
              (λ _. clean_up-IsStored faults _ (
                put_object-IsStored meta.hash content _ valid object
                  (delete_temp-IsStored faults.suffix _ described))))

    module _ (digest : (content : List ℕ) → length (sha256 content) ≡ 32) (faults : Faults)
        (upload : Upload) where
      abbrev read : List ℕ
      read = take (suc max_bytes) upload.content

      -- The metadata of the upload, if its type is the one given.
      abbrev pub meta_of : String → Meta
      meta_of content_type = record {
        hash = hash_of sha256 detect marshal unmarshal max_bytes read;
        content_type = content_type;
        size = length read;
      }

      hash_of-matches : matches_hash (hash_of sha256 detect marshal unmarshal max_bytes read) ≡ true
      unfolding hash_of
      hash_of-matches = encode-matches (sha256 read) (digest read)

      store-IsStored :
          (content_type : String) (dir : Dir)
          → WritesWell faults.write_meta (meta_of content_type)
          → (length read ≤ max_bytes
              → P (hash_of sha256 detect marshal unmarshal max_bytes read) (some read))
          → IsStored dir
          → IsStored
              (store sha256 detect marshal unmarshal max_bytes faults content_type upload dir).0
      unfolding store
      store-IsStored content_type dir well object s =
          let filled = put_temp-IsStored faults.suffix read dir s in
          branch_IsStored faults.create_temp _ _ (λ _. s)
            (λ _.
              branch_IsStored
                (faults.copy || (upload.broken && ltb (length upload.content) (suc max_bytes))) _ _
                (λ _. clean_up-IsStored faults _ filled)
                (λ _.
                  branch_IsStored (ltb max_bytes (length read)) _ _
                    (λ _. clean_up-IsStored faults _ filled)
                    (λ small.
                      publish-IsStored faults (meta_of content_type) read _ well hash_of-matches
                        (object (not-ltb max_bytes (length read) small)) filled)))

      pub put-IsStored :
          (dir : Dir)
          → ((content_type : String)
              → contains allowed_types content_type ≡ true
              → WritesWell faults.write_meta (meta_of content_type))
          → (length read ≤ max_bytes
              → P (hash_of sha256 detect marshal unmarshal max_bytes read) (some read))
          → IsStored dir
          → IsStored (put sha256 detect marshal unmarshal max_bytes faults upload dir).0
      unfolding put
      put-IsStored dir well object s =
          let content_type = detect (take head_size upload.content) in
          branch_IsStored (upload.broken && ltb (length upload.content) head_size) _ _ (λ _. s)
            (λ _.
              branch_IsStored (not (contains allowed_types content_type)) _ _ (λ _. s)
                (λ known.
                  store-IsStored content_type dir (well content_type (ground (arith, known))) object
                    s))
