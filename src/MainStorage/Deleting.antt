-- ===== src/MainStorage/Deleting.antt =====
-- What a deletion (internal/services/business/mainstorage.go) leaves, and what a copy to the cache
-- that comes after it does.
use mathlib.Core.Option
use go_blob_store.Prelude.{String, Bool, Option, none, some, [], ◌≡◌}
use go_blob_store.Model.{BlobDescription}
use go_blob_store.Interfaces.{Services}
use go_blob_store.Interfaces.Lawful.{Blob, bytes_of, sound, IsLawful}
use go_blob_store.MainStorage
use go_blob_store.MainStorage.{MainStorage}
use go_blob_store.MainStorage.Access

-- the state of the optional storage after the deletion of a blob
abbrev pub Lost {ℓ} : {S : Type ℓ} → (S → Option Blob) → Option S → Type 0
Lost look none = Unit
Lost look (some s) = look s ≡ none

module _ (srv : Services) (accepts : String → Bool)
    (contents : Services.Store srv → String → Option Blob)
    (laws : IsLawful srv accepts contents) where
  open srv use {Store}

  -- The cache stores what it is given, whatever length the description states.
  abbrev pub IsLengthBlind : BlobDescription → Type 0
  IsLengthBlind b =
      (s : Store)
      → contents s b.blob_id ≡ none
      → bytes_of (contents (srv.store_blob s b (sound [])).1 b.blob_id) ≡ some []
