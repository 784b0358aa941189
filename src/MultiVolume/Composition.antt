-- ===== src/MultiVolume/Composition.antt =====
-- A tenant's storage (internal/services/business/mainstorage.go) whose main storage is spread over
-- volumes (internal/services/simplefile/simplefilemultivolume.go).
use go_blob_store.Prelude.{
  ℕ, String, false, Option, some, List, [], ◌∷◌, ◌≡◌, refl, Option-cases, inl, inr,
}
use go_blob_store.Model.{BlobDescription, Reader, ok, err}
use go_blob_store.Interfaces.{Services}
use go_blob_store.MainStorage.{MainStorage}
use go_blob_store.MainStorage.Upload
use go_blob_store.MultiVolume
use go_blob_store.MultiVolume.{MultiVolumeStorage, multi_volume, srv_for_id, srv_not_found}
use go_blob_store.SimpleFile
use go_blob_store.SimpleFile.{BlobStorage, Codec, Walk}
use go_blob_store.SimpleFile.Files.{Disk}

module _ (codec : Codec) (disk : String → Disk) (mounted : String → BlobStorage) (rnd : ℕ) where
  -- no volume of the list has the blob
  abbrev pub IsNowhere : (String → Option BlobStorage) → String → List String → Type 0
  IsNowhere volumes id [] = Unit
  IsNowhere volumes id (name ∷ names) =
      ((s : BlobStorage)
        → volumes name ≡ some s
        → SimpleFile.has_blob codec (disk name) s id ≡ ok false)
      × IsNowhere volumes id names

  nowhere_lem :
      (volumes : String → Option BlobStorage) (id : String) (names : List String)
      → IsNowhere volumes id names
      → srv_for_id codec disk mounted rnd volumes names id ≡ err srv_not_found
  unfolding srv_for_id
  nowhere_lem volumes id [] h = refl
  nowhere_lem volumes id (name ∷ names) (here, there) = elim (Option-cases (volumes name)) [
    | inl unknown ↦ simp (unknown, srv_for_id) (nowhere_lem volumes id names there)
    | inr (s, known) ↦ simp (known, here s known, srv_for_id) (nowhere_lem volumes id names there)
  ]

  has_blob_nowhere :
      (m : MultiVolumeStorage) (id : String)
      → IsNowhere m.volumes id m.srvs
      → MultiVolume.has_blob codec disk mounted rnd m id ≡ err srv_not_found
  unfolding MultiVolume.has_blob MultiVolume.found
  has_blob_nowhere m id nowhere =
      simp (nowhere_lem m.volumes id m.srvs nowhere, MultiVolume.has_blob, MultiVolume.found) refl

  -- An upload of a blob that no volume has fails, and leaves the main storage and the pending tasks
  -- as they are: asked for such a blob, the main storage answers with an error.
  pub store_blob-multi_volume :
      (walk : Walk) (others : Services)
      (m : MainStorage (multi_volume codec disk mounted rnd walk others)) (b : BlobDescription)
      (r : Reader)
      → IsNowhere m.stg_srv.volumes b.blob_id m.stg_srv.srvs
      → let ((result, _), n) =
          Upload.store_blob (multi_volume codec disk mounted rnd walk others) m b r in
        (result.1 ≡ err (Upload.not_asked b.blob_id srv_not_found))
        × ((n.stg_srv ≡ m.stg_srv) × (n.pending ≡ m.pending))
  unfolding Upload.store_blob Upload.if_absent
  store_blob-multi_volume walk others m b r nowhere =
      simp (has_blob_nowhere m.stg_srv b.blob_id nowhere, Upload.store_blob, Upload.if_absent)
        (refl, (refl, refl))
