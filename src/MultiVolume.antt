-- ===== src/MultiVolume.antt =====
-- internal/services/simplefile/simplefilemultivolume.go: a tenant's storage that is spread over the
-- volumes of a volume manager (internal/services/volume/manager.go), each with a simple file storage.
-- The list `srvs` and the map `idxsrv` of the code hold copies of one storage, which share its files
-- and its cache: here the storage is held once, under the volume's name.
pub mod Composition
use mathlib.Core.Option
use go_blob_store.Prelude.{
  ℕ, String, Bool, true, false, Option, none, some, is_some, List, [], ◌∷◌, ◌++◌, pos, str_eq,
  if◌then◌else◌,
}
use go_blob_store.Model.{
  BlobDescription, Bytes, CheckInfo, Error, Reader, Result, ok, err, RetentionEntry,
}
use go_blob_store.Interfaces.{Services}
use go_blob_store.SimpleFile
use go_blob_store.SimpleFile.{BlobStorage, Codec, Walk}
use go_blob_store.SimpleFile.Files.{Disk}
use go_blob_store.SimpleFile.Retentions
use go_blob_store.Volume
use go_blob_store.Volume.{Scanned, Volumes}

pub record MultiVolumeStorage : Type 0 where
  pub root_path : String
  pub tenant : String
  pub vol_man : Volumes
  pub volumes : String → Option BlobStorage
  pub srvs : List String

abbrev pub srv_not_found : Error
srv_not_found = Error.failed "service not found"

abbrev pub no_tenant : Error
no_tenant = Error.failed "tenant should not be null or empty"

unfoldable pub with_volume : MultiVolumeStorage → String → BlobStorage → MultiVolumeStorage
with_volume m name s = record m { volumes = λ k. if str_eq name k then some s else m.volumes k }

-- the end of a call of one volume's storage
unfoldable pub back {ℓ} :
    {A : Type ℓ} → MultiVolumeStorage → String → A × BlobStorage → A × MultiVolumeStorage
back m name (result, s) = (result, with_volume m name s)

-- the loops over all volumes, which end where a callback or an error says so
unfoldable pub all_retentions :
    List (Result (Unit {0}) × List RetentionEntry) → Result (Unit {0}) × List RetentionEntry
all_retentions [] = (ok tt, [])
all_retentions ((err e, rs) ∷ more) = (err e, rs)
all_retentions ((ok _, rs) ∷ more) = let rest = all_retentions more in (rest.0, rs ++ rest.1)

unfoldable pub is_eof : Result (Unit {0}) → Bool
is_eof (ok _) = false
is_eof (err Error.eof) = true
is_eof (err Error.not_exist) = false
is_eof (err Error.exist) = false
is_eof (err Error.not_implemented) = false
is_eof (err Error.empty_id) = false
is_eof (err (Error.failed message)) = false
is_eof (err (Error.panic message)) = false

-- A listing goes on to the next volume after `io.EOF`, and ends after any other result.
unfoldable pub all_blobs : List (Result (Unit {0}) × List String) → Result (Unit {0}) × List String
all_blobs [] = (err Error.eof, [])
all_blobs ((result, ids) ∷ more) =
    let rest = all_blobs more in if is_eof result then (rest.0, ids ++ rest.1) else (result, ids)

-- The codec, the disk of each volume, what the volumes hold when they are added, and the number that
-- the volume manager draws.
module _ (codec : Codec) (disk : String → Disk) (mounted : String → BlobStorage) (rnd : ℕ) where
  -- `addVolume`: the storage of a volume is opened with the volume's path
  unfoldable pub opened :
      MultiVolumeStorage → String → Result (Unit {0}) × BlobStorage → Bool × MultiVolumeStorage
  opened m name (err e, s) = (false, m)
  opened m name (ok _, s) = (true, record (with_volume m name s) { srvs = m.srvs ++ (name ∷ []) })

  unfoldable pub add_volume : MultiVolumeStorage → String → Bool × MultiVolumeStorage
  add_volume m name = elim (Volume.info m.vol_man name) [
    | none ↦ (false, m)
    | some vi ↦ opened m name (
        SimpleFile.init codec (disk name)
          (record (mounted name) { root_path = vi.path; tenant = m.tenant }))
  ]

  unfoldable pub add_volumes : MultiVolumeStorage → List String → MultiVolumeStorage
  add_volumes m [] = m
  add_volumes m (name ∷ names) = add_volumes (add_volume m name).1 names

  -- the callbacks of the volume manager's scan, whose error is not looked at; none is a panic
  unfoldable pub scanned :
      MultiVolumeStorage
      → Option ((Result (Unit {0}) × List String) × Volumes)
      → Option (Result (Unit {0}) × MultiVolumeStorage)
  scanned m none = none
  scanned m (some ((result, names), vs)) =
      some (ok tt, add_volumes (record m { vol_man = vs }) names)

  -- `root` says whether the volume manager can be made, and `dir` what its first scan finds
  unfoldable pub init :
      MultiVolumeStorage
      → Result (Unit {0})
      → Result (List Scanned)
      → Option (Result (Unit {0}) × MultiVolumeStorage)
  init m root dir = if str_eq m.tenant "" then some (err no_tenant, m) else elim root [
    | err e ↦ some (err e, m)
    | ok _ ↦
        scanned (record m { vol_man = []; volumes = λ _. none; srvs = [] }) (Volume.rescan [] dir)
  ]

  unfoldable pub select_srv : MultiVolumeStorage → Result (String × BlobStorage)
  select_srv m =
      let name = Volume.select_free m.vol_man rnd in
      elim (m.volumes name) [ none ↦ err srv_not_found | some s ↦ ok (name, s) ]

  -- The first volume that has the blob. The only error of `HasBlob` is its panic, for a short id.
  unfoldable pub srv_for_id :
      (String → Option BlobStorage) → List String → String → Result (String × BlobStorage)
  srv_for_id volumes [] id = err srv_not_found
  srv_for_id volumes (name ∷ names) id =
      let rest = srv_for_id volumes names id in
      elim (volumes name) [
        | none ↦ rest
        | some s ↦ elim (SimpleFile.has_blob codec (disk name) s id) [
          | err e ↦ err e
          | ok found ↦ if found then ok (name, s) else rest
        ]
      ]

  unfoldable pub with_srv {ℓ} :
      {A : Type ℓ}
      → MultiVolumeStorage
      → Result (String × BlobStorage)
      → (Error → A)
      → (Disk → BlobStorage → A × BlobStorage)
      → A × MultiVolumeStorage
  with_srv m (err e) failed call = (failed e, m)
  with_srv m (ok (name, s)) failed call = back m name (call (disk name) s)

  -- a call that the storage with the blob answers
  unfoldable pub on_srv {ℓ} :
      {A : Type ℓ}
      → MultiVolumeStorage
      → String
      → (Error → A)
      → (Disk → BlobStorage → A × BlobStorage)
      → A × MultiVolumeStorage
  on_srv m id failed call = with_srv m (srv_for_id m.volumes m.srvs id) failed call

  unfoldable pub store_blob :
      MultiVolumeStorage
      → BlobDescription
      → Reader
      → (Result String × BlobDescription) × MultiVolumeStorage
  store_blob m b r =
      with_srv m (select_srv m) (λ e. (err e, b)) (λ d s. SimpleFile.store_blob_v2 codec d s b r)

  unfoldable pub found : Result (String × BlobStorage) → Result Bool
  found (err e) = err e
  found (ok x) = ok true

  unfoldable pub has_blob : MultiVolumeStorage → String → Result Bool
  has_blob m id = found (srv_for_id m.volumes m.srvs id)

  unfoldable pub get_blob_description :
      MultiVolumeStorage → String → Result BlobDescription × MultiVolumeStorage
  get_blob_description m id =
      on_srv m id (λ e. err e) (λ d s. (SimpleFile.get_blob_description codec d s id, s))

  unfoldable pub retrieve_blob :
      MultiVolumeStorage → String → (Result (Unit {0}) × Bytes) × MultiVolumeStorage
  retrieve_blob m id =
      on_srv m id (λ e. (err e, [])) (λ d s. (SimpleFile.retrieve_blob codec d s id, s))

  unfoldable pub delete_blob : MultiVolumeStorage → String → Result (Unit {0}) × MultiVolumeStorage
  delete_blob m id = on_srv m id (λ e. err e) (λ d s. SimpleFile.delete_blob codec d s id)

  unfoldable pub check_blob : MultiVolumeStorage → String → Result CheckInfo × MultiVolumeStorage
  check_blob m id =
      on_srv m id (λ e. err e)
        (λ d s. (
          Retentions.check_blob codec (SimpleFile.has_blob codec d s id)
              (SimpleFile.get_blob_description codec d s id)
              (SimpleFile.retrieve_blob codec d s id),
          s,
        ))

  unfoldable pub update_blob_description :
      MultiVolumeStorage → String → BlobDescription → Result (Unit {0})
  update_blob_description m id b = err Error.not_implemented

  unfoldable pub get_retention :
      MultiVolumeStorage → String → Result RetentionEntry × MultiVolumeStorage
  get_retention m id = on_srv m id (λ e. err e) (λ d s. (Retentions.get_retention codec d s id, s))

  unfoldable pub add_retention :
      MultiVolumeStorage → RetentionEntry → Result (Unit {0}) × MultiVolumeStorage
  add_retention m r = on_srv m r.blob_id (λ e. err e) (λ d s. Retentions.add_retention codec d s r)

  unfoldable pub delete_retention :
      MultiVolumeStorage → String → Result (Unit {0}) × MultiVolumeStorage
  delete_retention m id = on_srv m id (λ e. err e) (λ d s. Retentions.delete_retention codec d s id)

  unfoldable pub reset_found :
      Result RetentionEntry × MultiVolumeStorage → Result (Unit {0}) × MultiVolumeStorage
  reset_found (err e, m) = (err e, m)
  reset_found (ok r, m) = add_retention m (record r { retention_base = pos codec.now })

  unfoldable pub reset_retention :
      MultiVolumeStorage → String → Result (Unit {0}) × MultiVolumeStorage
  reset_retention m id = reset_found (get_retention m id)

  -- what each volume gives, in the order of `srvs`
  unfoldable pub of_all {ℓ} :
      {A : Type ℓ} → MultiVolumeStorage → (Disk → BlobStorage → A) → List String → List A
  of_all m call [] = []
  of_all m call (name ∷ names) =
      let rest = of_all m call names in
      elim (m.volumes name) [ none ↦ rest | some s ↦ call (disk name) s ∷ rest ]

  unfoldable pub get_blobs :
      Walk → MultiVolumeStorage → (String → Bool) → Result (Unit {0}) × List String
  get_blobs walk m callback =
      all_blobs (of_all m (λ d s. SimpleFile.get_blobs_v2 codec d walk s callback) m.srvs)

  unfoldable pub get_all_retentions :
      Walk → MultiVolumeStorage → (RetentionEntry → Bool) → Result (Unit {0}) × List RetentionEntry
  get_all_retentions walk m callback =
      all_retentions
        (of_all m (λ d s. Retentions.get_all_retentions codec d walk s callback) m.srvs)

  unfoldable pub close : MultiVolumeStorage → Result (Unit {0}) × MultiVolumeStorage
  close m = (ok tt, record m { srvs = [] })

  -- the storage's operations, beside services of other kinds
  abbrev pub multi_volume : Walk → Services → Services
  multi_volume walk others = record {
    Store = MultiVolumeStorage;
    get_blobs = λ m f. (get_blobs walk m f, m);
    store_blob = store_blob;
    has_blob = λ m id. (has_blob m id, m);
    get_blob_description = get_blob_description;
    update_blob_description = λ m id b. (update_blob_description m id b, m);
    retrieve_blob = retrieve_blob;
    delete_blob = delete_blob;
    check_blob = check_blob;
    get_all_retentions = λ m f. (get_all_retentions walk m f, m);
    add_retention = add_retention;
    get_retention = get_retention;
    delete_retention = delete_retention;
    reset_retention = reset_retention;
    close = close;
    Retentions = others.Retentions;
    manager_add_retention = others.manager_add_retention;
    manager_delete_retention = others.manager_delete_retention;
    Index = others.Index;
    index = others.index;
    search = others.search;
    Tenants = others.Tenants;
    add_size = others.add_size;
    sub_size = others.sub_size;
  }
