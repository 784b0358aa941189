-- ===== src/MainStorage/Access.antt =====
-- The reading, deleting and retention methods of internal/services/business/mainstorage.go.
use go_blob_store.Prelude.{
  String, Bool, true, false, none, some, List, [], ◌++◌, if◌then◌else◌, str_eq,
}
use go_blob_store.Model.{BlobDescription, Bytes, Error, Result, ok, err}
use go_blob_store.Interfaces.{Services}
use go_blob_store.MainStorage.{MainStorage, Task, go, nil_pointer}

module _ (srv : Services) where
  open srv use {Store}

  pub search_blobs :
      MainStorage srv
      → String
      → (String → Bool)
      → (Result (Unit {0}) × List String) × MainStorage srv
  search_blobs m q callback =
      if m.has_idx
      then elim m.idx_srv [
        | none ↦ ((err nil_pointer, []), m)
        | some i ↦
            let (result, i') = srv.search i q callback in (result, record m { idx_srv = some i' })
      ]
      else ((err (Error.failed "index not configured"), []), m)

  -- a presence test of the backup that was true: the description, for the task that restores it
  unfoldable pub restored : MainStorage srv → Result BlobDescription × Store → MainStorage srv
  restored m (err e, t) = record m { bck_srv = some t }
  restored m (ok b, t) = go srv (record m { bck_srv = some t }) (Task.restore b)

  unfoldable pub has_on_backup :
      MainStorage srv → String → Result Bool → Result Bool × MainStorage srv
  unfolding restored
  has_on_backup m id found = elim m.bck_srv [
    | none ↦ (found, m)
    | some bck ↦
        let (present, t) = srv.has_blob bck id in
        elim present [
          | err _ ↦ (found, record m { bck_srv = some t })
          | ok there ↦
              if there
              then (ok true, restored m (srv.get_blob_description t id))
              else (found, record m { bck_srv = some t })
        ]
  ]

  unfoldable pub has_on_main :
      MainStorage srv → String → Result Bool × Store → Result Bool × MainStorage srv
  has_on_main m id (ok true, s) = (ok true, record m { stg_srv = s })
  has_on_main m id (ok false, s) = has_on_backup (record m { stg_srv = s }) id (ok false)
  has_on_main m id (err e, s) = has_on_backup (record m { stg_srv = s }) id (err e)

  unfoldable pub has_in_cache :
      MainStorage srv → String → Result Bool × Store → Result Bool × MainStorage srv
  unfolding has_on_main
  has_in_cache m id (ok true, c) = (ok true, record m { cch_srv = some c })
  has_in_cache m id (ok false, c) =
      has_on_main (record m { cch_srv = some c }) id (srv.has_blob m.stg_srv id)
  has_in_cache m id (err e, c) =
      has_on_main (record m { cch_srv = some c }) id (srv.has_blob m.stg_srv id)

  unfoldable pub has_blob : MainStorage srv → String → Result Bool × MainStorage srv
  unfolding has_in_cache has_on_main
  has_blob m id = elim m.cch_srv [
    | none ↦ has_on_main m id (srv.has_blob m.stg_srv id)
    | some cch ↦ has_in_cache m id (srv.has_blob cch id)
  ]

  -- Whether the cache had the blob, and what the writer got from it, also before a failure.
  unfoldable pub cache_written : (Result (Unit {0}) × Bytes) × Store → (Bool × Bytes) × Store
  cache_written ((ok _, written), c) = ((true, written), c)
  cache_written ((err _, written), c) = ((false, written), c)

  unfoldable pub of_tenant :
      String → String → Result BlobDescription × Store → (Bool × Bytes) × Store
  unfolding cache_written
  of_tenant tenant id (err e, c) = ((false, []), c)
  of_tenant tenant id (ok b, c) =
      if str_eq b.tenant_id tenant then cache_written (srv.retrieve_blob c id) else ((false, []), c)

  unfoldable pub read_cache : String → String → Result Bool × Store → (Bool × Bytes) × Store
  unfolding of_tenant
  read_cache tenant id (err e, c) = ((false, []), c)
  read_cache tenant id (ok false, c) = ((false, []), c)
  read_cache tenant id (ok true, c) = of_tenant tenant id (srv.get_blob_description c id)

  unfoldable pub retrieve_from_cache : MainStorage srv → String → (Bool × Bytes) × MainStorage srv
  retrieve_from_cache m id = elim m.cch_srv [
    | none ↦ ((false, []), m)
    | some cch ↦
        let (result, c) = read_cache m.tenant id (srv.has_blob cch id) in
        (result, record m { cch_srv = some c })
  ]

  -- the writer has got `w` when the backup is asked, after the main storage's error `e`
  unfoldable pub backup_written :
      MainStorage srv
      → String
      → Error
      → Bytes
      → (Result (Unit {0}) × Bytes) × Store
      → (Result (Unit {0}) × Bytes) × MainStorage srv
  backup_written m id e w ((err _, written), t) =
      ((err e, w ++ written), record m { bck_srv = some t })
  backup_written m id e w ((ok _, written), t) =
      ((ok tt, w ++ written), restored m (srv.get_blob_description t id))

  unfoldable pub retrieve_from_backup :
      MainStorage srv → String → Error → Bytes → (Result (Unit {0}) × Bytes) × MainStorage srv
  unfolding backup_written restored
  retrieve_from_backup m id e w = elim m.bck_srv [
    | none ↦ ((ok tt, w), m)
    | some bck ↦ backup_written m id e w (srv.retrieve_blob bck id)
  ]

  unfoldable pub main_written :
      MainStorage srv
      → String
      → Bytes
      → (Result (Unit {0}) × Bytes) × Store
      → (Result (Unit {0}) × Bytes) × MainStorage srv
  main_written m id w ((ok _, written), s) =
      ((ok tt, w ++ written), go srv (record m { stg_srv = s }) (Task.cache_by_id id))
  main_written m id w ((err e, written), s) =
      retrieve_from_backup (record m { stg_srv = s }) id e (w ++ written)

  unfoldable pub cache_tried :
      String → (Bool × Bytes) × MainStorage srv → (Result (Unit {0}) × Bytes) × MainStorage srv
  unfolding main_written
  cache_tried id ((true, w), m) = ((ok tt, w), m)
  cache_tried id ((false, w), m) = main_written m id w (srv.retrieve_blob m.stg_srv id)

  unfoldable pub retrieve_blob :
      MainStorage srv → String → (Result (Unit {0}) × Bytes) × MainStorage srv
  retrieve_blob m id = cache_tried id (retrieve_from_cache m id)

  -- the services that follow the main storage, whose errors are only logged
  unfoldable pub delete_on_backup : MainStorage srv → String → MainStorage srv
  delete_on_backup m id = elim m.bck_srv [
    | none ↦ m
    | some bck ↦ record m { bck_srv = some (srv.delete_blob bck id).1 }
  ]

  unfoldable pub delete_in_manager : MainStorage srv → String → MainStorage srv
  delete_in_manager m id = elim m.rtn_mng [
    | none ↦ m
    | some r ↦ record m { rtn_mng = some (srv.manager_delete_retention r m.tenant id).1 }
  ]

  unfoldable pub delete_in_cache : MainStorage srv → String → MainStorage srv
  delete_in_cache m id = elim m.cch_srv [
    | none ↦ m
    | some cch ↦ record m { cch_srv = some (srv.delete_blob cch id).1 }
  ]

  unfoldable pub deleted :
      MainStorage srv
      → String
      → BlobDescription
      → Result (Unit {0}) × Store
      → Result (Unit {0}) × MainStorage srv
  deleted m id b (err e, s) = (err e, record m { stg_srv = s })
  deleted m id b (ok _, s) =
      let m' = go srv (record m { stg_srv = s }) (Task.sub_storage b) in
      (ok tt, delete_in_cache (delete_in_manager (delete_on_backup m' id) id) id)

  unfoldable pub described :
      MainStorage srv
      → String
      → Result BlobDescription × Store
      → Result (Unit {0}) × MainStorage srv
  unfolding deleted
  described m id (err e, s) = (err e, record m { stg_srv = s })
  described m id (ok b, s) = deleted m id b (srv.delete_blob s id)

  unfoldable pub delete_blob : MainStorage srv → String → Result (Unit {0}) × MainStorage srv
  unfolding described
  delete_blob m id = described m id (srv.get_blob_description m.stg_srv id)
