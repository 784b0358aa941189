-- ===== src/Tests/MultiVolume.antt =====
-- internal/services/simplefile/simplefilemultivolume.go with one empty volume.
use mathlib.Core.Option
use go_blob_store.Prelude.{
  ◌≡◌, refl, String, none, some, [], ◌∷◌, str_eq, if◌then◌else◌, false, subst,
}
use go_blob_store.Model.{ok, err}
use go_blob_store.Interfaces.Lawful.{sound}
use go_blob_store.MainStorage.{MainStorage}
use go_blob_store.MainStorage.Upload
use go_blob_store.MultiVolume.{MultiVolumeStorage, multi_volume, srv_not_found}
use go_blob_store.MultiVolume.Composition.{store_blob-multi_volume}
use go_blob_store.SimpleFile
use go_blob_store.SimpleFile.{BlobStorage}
use go_blob_store.SimpleFile.Files
use go_blob_store.SimpleFile.Files.{Disk}
use go_blob_store.SimpleFile.Cells.{sound_disk}
use go_blob_store.Tests.Lists.{blob}
use go_blob_store.Tests.Maps.{maps}
use go_blob_store.Tests.Simple.{codec, empty, no_walk}

abbrev disks : String → Disk
disks name = sound_disk

abbrev mounted : String → BlobStorage
mounted name = empty

-- the volume "mvn01" alone
abbrev one_volume : MultiVolumeStorage
one_volume = record {
  root_path = "/data";
  tenant = "mcs";
  vol_man = [];
  volumes = λ name. if str_eq name "mvn01" then some empty else none;
  srvs = "mvn01" ∷ [];
}

abbrev storage : MainStorage (multi_volume codec disks mounted 0 no_walk maps)
storage = record {
  rtn_mng = none;
  stg_srv = one_volume;
  bck_srv = none;
  cch_srv = none;
  idx_srv = none;
  tnt_bck_srv = none;
  tnt_mgr = none;
  bcksyncmode = false;
  tenant = "mcs";
  has_idx = false;
  tnt_error = none;
  pending = [];
}

empty-has_blob : SimpleFile.has_blob codec sound_disk empty "aa01" ≡ ok false
unfolding SimpleFile.has_blob SimpleFile.has_blob_v1 SimpleFile.has_blob_v2 Files.exists
    Files.build_filename_v2
empty-has_blob = refl

store_blob-multi_volume_example :
    let ((result, _), n) =
      Upload.store_blob
        (multi_volume codec disks mounted 0 no_walk maps)
        storage
        (blob "aa01")
        (sound (1 ∷ 2 ∷ 3 ∷ [])) in
    (result.1 ≡ err (Upload.not_asked "aa01" srv_not_found))
    × ((n.stg_srv ≡ one_volume) × (n.pending ≡ []))
store_blob-multi_volume_example =
    store_blob-multi_volume codec disks mounted 0 no_walk maps storage (blob "aa01")
      (sound (1 ∷ 2 ∷ 3 ∷ []))
      (
        λ s known.
            subst (λ x. SimpleFile.has_blob codec sound_disk x "aa01" ≡ ok false)
              (Option.some-injective empty s known) empty-has_blob,
        tt,
      )
