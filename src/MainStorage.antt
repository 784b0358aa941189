-- ===== src/MainStorage.antt =====
-- internal/services/business/mainstorage.go: the storage of a tenant over a main storage and the
-- optional backup, cache, index, retention and tenant services. A field that may be nil is an
-- Option. A `go` statement puts a task on `pending`, which a step may run at any later time; a task,
-- like a call, is one step. Its log entries, and the sleep that throttles `StoreBlob`, are left out.
-- An `io.Pipe` carries what the reading side wrote, and ends without an error. A panic is the
-- outcome `Error.panic`, here `nil_pointer`; one of a storage is taken as an error.
pub mod Upload
pub mod Access
pub mod Checking
pub mod Copies
pub mod Steps
pub mod Tasks
pub mod Runs
pub mod Uploading
pub mod Reading
pub mod Deleting
pub mod Verdict
use go_blob_store.Prelude.{
  String, ℤ, Bool, true, false, Option, none, some, is_some, List, [], ◌∷◌, ◌++◌, if◌then◌else◌,
  str_eq,
}
use go_blob_store.Model.{BlobDescription, Error, Result, ok, err}
use go_blob_store.Interfaces.{Services}

abbrev pub nil_pointer : Error
nil_pointer = Error.panic "nil pointer dereference"

pub data Task : Type 0 where
  backup tnt_backup : BlobDescription → String → Task
  cache restore sub_storage : BlobDescription → Task
  cache_by_id add_storage : String → Task
  update_backup : String → BlobDescription → Task

module _ (srv : Services) where
  open srv use {Store, Retentions, Index, Tenants}

  pub record MainStorage : Type 0 where
    pub rtn_mng : Option Retentions
    pub stg_srv : Store
    pub bck_srv : Option Store
    pub cch_srv : Option Store
    pub idx_srv : Option Index
    pub tnt_bck_srv : Option Store
    pub tnt_mgr : Option Tenants
    pub bcksyncmode : Bool
    pub tenant : String
    pub has_idx : Bool
    pub tnt_error : Option Error
    pub pending : List Task

  -- `go`
  unfoldable pub go : MainStorage → Task → MainStorage
  go m t = record m { pending = m.pending ++ (t ∷ []) }

  pub init : MainStorage → MainStorage
  init m = record m { has_idx = is_some m.idx_srv }

  pub get_tenant : MainStorage → String
  get_tenant m = m.tenant

  pub get_blobs : MainStorage → (String → Bool) → (Result (Unit {0}) × List String) × MainStorage
  get_blobs m callback =
      let (result, s) = srv.get_blobs m.stg_srv callback in (result, record m { stg_srv = s })

  pub get_last_error : MainStorage → Option Error
  get_last_error m = m.tnt_error

  -- A copy through a pipe: what `from` writes is what `to` stores, and an error of `from` is not
  -- seen by `to`.
  -- The description as the target's `StoreBlob` leaves it is dropped.
  unfoldable pub piped : Store → Store → BlobDescription → String → Store × Store
  piped source target b id =
      let ((result, written), s) = srv.retrieve_blob source id in
      (s, (srv.store_blob target b (record { content = written; broken = false })).1)

  -- `if !ok { … }` of the copying functions, on the result of `HasBlob`
  unfoldable copy_if_absent : Store → Result Bool × Store → BlobDescription → String → Store × Store
  copy_if_absent source (err e, target) b id = (source, target)
  copy_if_absent source (ok true, target) b id = (source, target)
  copy_if_absent source (ok false, target) b id = piped source target b id

  -- `bckFile`, and the body of `cacheFile` where there is a cache
  unfoldable pub bck_file : Store → Store → BlobDescription → String → Store × Store
  unfolding copy_if_absent
  bck_file source target b id = copy_if_absent source (srv.has_blob target b.blob_id) b id

  unfoldable pub backup_file : MainStorage → BlobDescription → String → MainStorage
  backup_file m b id = elim m.bck_srv [
    | none ↦ m
    | some bck ↦
        let (s, t) = bck_file m.stg_srv bck b id in record m { stg_srv = s; bck_srv = some t }
  ]

  unfoldable pub tnt_backup_file : MainStorage → BlobDescription → String → MainStorage
  tnt_backup_file m b id = elim m.tnt_bck_srv [
    | none ↦ m
    | some bck ↦
        let (s, t) = bck_file m.stg_srv bck b id in record m { stg_srv = s; tnt_bck_srv = some t }
  ]

  unfoldable pub cache_file : MainStorage → BlobDescription → MainStorage
  cache_file m b = elim m.cch_srv [
    | none ↦ m
    | some cch ↦
        let (s, t) = bck_file m.stg_srv cch b b.blob_id in
        record m { stg_srv = s; cch_srv = some t }
  ]

  -- The fallback of `GetBlobDescription` to the backup, after the main storage's error `e`.
  unfoldable pub description_of_backup :
      MainStorage → String → Error → Result BlobDescription × MainStorage
  description_of_backup m id e = elim m.bck_srv [
    | none ↦ (err e, m)
    | some bck ↦
        let (found, t) = srv.get_blob_description bck id in
        let m' = record m { bck_srv = some t } in
        elim found [ err _ ↦ (err e, m') | ok b ↦ (ok b, go m' (Task.restore b)) ]
  ]

  -- after the cache
  unfoldable pub description_of_main : MainStorage → String → Result BlobDescription × MainStorage
  description_of_main m id =
      let (found, s) = srv.get_blob_description m.stg_srv id in
      let m' = record m { stg_srv = s } in
      elim found [ ok b ↦ (ok b, m') | err e ↦ description_of_backup m' id e ]

  unfoldable pub get_blob_description : MainStorage → String → Result BlobDescription × MainStorage
  get_blob_description m id = elim m.cch_srv [
    | none ↦ description_of_main m id
    | some cch ↦
        let (found, c) = srv.get_blob_description cch id in
        let m' = record m { cch_srv = some c } in
        elim found [
          | err _ ↦ description_of_main m' id
          | ok b ↦ if str_eq b.tenant_id m.tenant then (ok b, m') else description_of_main m' id
        ]
  ]

  unfoldable cache_described : Result BlobDescription × MainStorage → MainStorage
  cache_described (err e, m) = m
  cache_described (ok b, m) = cache_file m b

  unfoldable pub cache_file_by_id : MainStorage → String → MainStorage
  unfolding cache_described
  cache_file_by_id m id = elim m.cch_srv [
    | none ↦ m
    | some cch ↦
        let (present, c) = srv.has_blob cch id in
        let m' = record m { cch_srv = some c } in
        elim present [
          | err _ ↦ m'
          | ok there ↦ if there then m' else cache_described (get_blob_description m' id)
        ]
  ]

  unfoldable pub restore_file : MainStorage → BlobDescription → MainStorage
  restore_file m b = elim m.bck_srv [
    | none ↦ m
    | some bck ↦
        let (present, t) = srv.has_blob bck b.blob_id in
        let m' = record m { bck_srv = some t } in
        elim present [
          | err _ ↦ m'
          | ok there ↦
              if there
              then (let (t', s) = piped t m.stg_srv b b.blob_id in
                  go (record m { stg_srv = s; bck_srv = some t' }) (Task.cache_by_id b.blob_id))
              else m'
        ]
  ]

  unfoldable pub add_size : MainStorage → ℤ → MainStorage
  add_size m size = elim m.tnt_mgr [
    | none ↦ m
    | some t ↦ record m { tnt_mgr = some (srv.add_size t m.tenant size) }
  ]

  unfoldable pub add_storage_size : MainStorage → String → MainStorage
  add_storage_size m id =
      let (found, m') = get_blob_description m id in
      elim found [ err _ ↦ m' | ok b ↦ add_size m' b.content_length ]

  unfoldable pub sub_storage_size : MainStorage → BlobDescription → MainStorage
  sub_storage_size m b = elim m.tnt_mgr [
    | none ↦ m
    | some t ↦ record m { tnt_mgr = some (srv.sub_size t m.tenant b.content_length) }
  ]

  unfoldable pub run_task : Task → MainStorage → MainStorage
  run_task (Task.backup b id) m = backup_file m b id
  run_task (Task.tnt_backup b id) m = tnt_backup_file m b id
  run_task (Task.cache b) m = cache_file m b
  run_task (Task.restore b) m = restore_file m b
  run_task (Task.sub_storage b) m = sub_storage_size m b
  run_task (Task.cache_by_id id) m = cache_file_by_id m id
  run_task (Task.add_storage id) m = add_storage_size m id
  run_task (Task.update_backup id b) m = elim m.bck_srv [
    | none ↦ m
    | some bck ↦ record m { bck_srv = some (srv.update_blob_description bck id b).1 }
  ]
