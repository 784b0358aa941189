-- ===== src/Migration/Restoring.antt =====
-- The full restore of internal/services/migration/restore.go over storages that keep what a blob
-- storage promises.
use go_blob_store.Prelude.{String, Bool, true, Option, none, some, List, ◌≡◌, ◌⊎◌, str_eq, any}
use go_blob_store.Model.{BlobDescription, Bytes, Error, RetentionEntry}
use go_blob_store.Interfaces.{Services}
use go_blob_store.Interfaces.Lawful.{Blob, bytes_of, Fits, IsLawful}
use go_blob_store.MainStorage
use go_blob_store.MainStorage.Copies
use go_blob_store.Migration

-- The retentions of a blob storage are beside its blobs: their methods change no bytes.
pub record IsBeside (srv : Services) (contents : Services.Store srv → String → Option Blob)
    : Type 0 where
  pub get_retention_same :
      (s : Services.Store srv) (id j : String)
      → contents (Services.get_retention srv s id).1 j ≡ contents s j
  pub add_retention_bytes :
      (s : Services.Store srv) (r : RetentionEntry) (j : String)
      → bytes_of (contents (Services.add_retention srv s r).1 j) ≡ bytes_of (contents s j)

module _ (accepts : String → Bool) (id : String) (c : Bytes) (srv : Services)
    (contents : Services.Store srv → String → Option Blob) (laws : IsLawful srv accepts contents)
    (beside : IsBeside srv contents) (sha256 : Bytes → String) (text : Error → String) where
  open srv use {Store}

  abbrev bytes : Store → String → Option Bytes
  bytes s i = bytes_of (contents s i)

  -- What one copy does: the source keeps its blobs, and the target keeps the bytes of `id`.
  record IsCopied (s t : Store) (st : Store × Store) : Type 0 where
    source : (i : String) → contents st.0 i ≡ contents s i
    target : bytes st.1 id ≡ bytes t id

  module _ (d : BlobDescription) (fits : Fits d c) (ok_id : accepts id ≡ true) where
    -- The target has the bytes, or lacks the blob that the source has and that is still to come.
    abbrev IsDue : Store × Store → List String → Type 0
    IsDue st ids =
        (bytes st.1 id ≡ some c)
        ⊎ ((contents st.0 id ≡ some (d, c))
            × ((contents st.1 id ≡ none) × (any (λ i. str_eq i id) ids ≡ true)))
