-- ===== src/Interfaces/Lawful.antt =====
-- What a blob storage promises (internal/services/interfaces/blobstoredao.go): it is a map from ids
-- to a description and the bytes. The laws are about the ids that it accepts; a read may change the
-- storage's state, and leaves the map as it is. What happens to a blob that is stored again is up to
-- the storage: it keeps its bytes or gets the new ones.
use go_blob_store.Prelude.{
  String, Bool, true, false, pos, Option, none, some, is_some, [], ◌≡◌, ◌⊎◌, str_eq, ltb_ℤ, length,
}
use go_blob_store.Model.{BlobDescription, Bytes, Error, Reader, ok, err}
use go_blob_store.Interfaces.{Services}

abbrev pub Blob : Type 0
Blob = BlobDescription × Bytes

-- the bytes of a blob
abbrev pub bytes_of : Option Blob → Option Bytes
bytes_of none = none
bytes_of (some blob) = some blob.1

-- The length that a description states, if it states one, is that of the bytes.
abbrev pub Fits : BlobDescription → Bytes → Type 0
Fits b c = ltb_ℤ (pos 0) b.content_length ≡ true → b.content_length ≡ pos (length c)

abbrev pub sound : Bytes → Reader
sound c = record { content = c; broken = false }

module _ (srv : Services) where
  open srv use {
    Store, store_blob, has_blob, get_blob_description, update_blob_description, retrieve_blob,
    delete_blob,
  }

  pub record IsLawful (accepts : String → Bool) (contents : Store → String → Option Blob)
      : Type 0 where
    -- A new blob is stored under its id, with the description as it is given back.
    pub store_new :
        (s : Store) (b : BlobDescription) (c : Bytes)
        → accepts b.blob_id ≡ true
        → Fits b c
        → contents s b.blob_id ≡ none
        → ((store_blob s b (sound c)).0.0 ≡ ok b.blob_id)
          × (((store_blob s b (sound c)).0.1.blob_id ≡ b.blob_id)
              × ((contents (store_blob s b (sound c)).1 b.blob_id
                    ≡ some ((store_blob s b (sound c)).0.1, c))
                  × Fits (store_blob s b (sound c)).0.1 c))
    pub store_again :
        (s : Store) (b : BlobDescription) (c : Bytes)
        → accepts b.blob_id ≡ true
        → Fits b c
        → let before = bytes_of (contents s b.blob_id) in
          let after = bytes_of (contents (store_blob s b (sound c)).1 b.blob_id) in
          (after ≡ before) ⊎ (after ≡ some c)
    pub store_other :
        (s : Store) (b : BlobDescription) (r : Reader) (id : String)
        → accepts b.blob_id ≡ true
        → str_eq b.blob_id id ≡ false
        → contents (store_blob s b r).1 id ≡ contents s id
    pub has_blob_law :
        (s : Store) (id : String)
        → accepts id ≡ true
        → (has_blob s id).0 ≡ ok (is_some (contents s id))
    pub has_blob_same : (s : Store) (id j : String) → contents (has_blob s id).1 j ≡ contents s j
    pub description_found :
        (s : Store) (id : String) (blob : Blob)
        → contents s id ≡ some blob
        → (get_blob_description s id).0 ≡ ok blob.0
    -- A description is that of the id that it was asked for, also where there are no bytes.
    pub description_key :
        (s : Store) (id : String) (b : BlobDescription)
        → (get_blob_description s id).0 ≡ ok b
        → (b.blob_id ≡ id) × (accepts id ≡ true)
    pub description_same :
        (s : Store) (id j : String) → contents (get_blob_description s id).1 j ≡ contents s j
    pub retrieve_found :
        (s : Store) (id : String) (blob : Blob)
        → contents s id ≡ some blob
        → (retrieve_blob s id).0 ≡ (ok tt, blob.1)
    pub retrieve_missing :
        (s : Store) (id : String)
        → accepts id ≡ true
        → contents s id ≡ none
        → (retrieve_blob s id).0 ≡ (err Error.not_exist, [])
    pub retrieve_same :
        (s : Store) (id j : String) → contents (retrieve_blob s id).1 j ≡ contents s j
    pub delete_found :
        (s : Store) (id : String)
        → is_some (contents s id) ≡ true
        → ((delete_blob s id).0 ≡ ok tt) × (contents (delete_blob s id).1 id ≡ none)
    pub delete_other :
        (s : Store) (id j : String)
        → str_eq id j ≡ false
        → contents (delete_blob s id).1 j ≡ contents s j
    pub delete_missing :
        (s : Store) (id j : String)
        → contents s id ≡ none
        → contents (delete_blob s id).1 j ≡ contents s j
    -- An update changes the description of its blob at most.
    pub update_law :
        (s : Store) (id j : String) (b : BlobDescription)
        → b.blob_id ≡ id
        → let after = contents (update_blob_description s id b).1 j in
          (after ≡ contents s j)
          ⊎ ((j ≡ id) × ((blob : Blob) × ((contents s j ≡ some blob) × (after ≡ some (b, blob.1)))))
