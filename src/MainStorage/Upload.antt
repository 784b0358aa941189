-- ===== src/MainStorage/Upload.antt =====
-- StoreBlob and UpdateBlobDescription of internal/services/business/mainstorage.go.
use Prim.Native.String.{◌++◌ as concat}
use go_blob_store.Prelude.{String, Bool, true, false, none, some, is_some, if◌then◌else◌}
use go_blob_store.Model.{
  BlobDescription, Error, text_of, Reader, Result, ok, err, retention_entry_from_blob_description,
}
use go_blob_store.Interfaces.{Services}
use go_blob_store.MainStorage.{MainStorage, Task, go, nil_pointer, run_task}

-- the error of an upload whose main storage could not be asked for the blob; a panic is passed on
abbrev pub not_asked : String → Error → Error
not_asked id (Error.panic why) = Error.panic why
not_asked id e =
    Error.failed (concat "main: store blob: check blob: " (concat id (concat ", " (text_of e))))

abbrev pub already_exists : String → Error
already_exists id = Error.failed (concat "blob with id \"" (concat id "\" already exists"))

module _ (srv : Services) where
  open srv use {Store}

  -- the call of the index service, where there is one
  unfoldable pub indexed :
      MainStorage srv → String → BlobDescription → Result (Unit {0}) × MainStorage srv
  indexed m id b =
      if m.has_idx
      then elim m.idx_srv [
        | none ↦ (err nil_pointer, m)
        | some i ↦ let (result, i') = srv.index i id b in (result, record m { idx_srv = some i' })
      ]
      else (ok tt, m)

  unfoldable pub add_new_retention :
      MainStorage srv → BlobDescription → Result (Unit {0}) × MainStorage srv
  add_new_retention m b = elim m.rtn_mng [
    | none ↦ (ok tt, m)
    | some r ↦
        let (result, r') =
          srv.manager_add_retention r m.tenant (retention_entry_from_blob_description b) in
        (result, record m { rtn_mng = some r' })
  ]

  -- `if m.Bcksyncmode { … } else { go … }` on a backup that is configured
  unfoldable pub start_backup : Bool → Task → MainStorage srv → MainStorage srv
  start_backup configured t m =
      if configured then if m.bcksyncmode then run_task srv t m else go srv m t else m

  -- both backups, and the tasks that follow every upload
  unfoldable pub spread : MainStorage srv → BlobDescription → String → MainStorage srv
  spread m b id =
      let m₁ = start_backup (is_some m.bck_srv) (Task.backup b id) m in
      let m₂ = start_backup (is_some m₁.tnt_bck_srv) (Task.tnt_backup b id) m₁ in
      go srv (go srv m₂ (Task.cache b)) (Task.add_storage id)

  -- The id comes back beside the error of the retention manager, as the first result.
  unfoldable pub with_retention :
      BlobDescription
      → String
      → Result (Unit {0}) × MainStorage srv
      → ((String × Result (Unit {0})) × BlobDescription) × MainStorage srv
  with_retention b id (result, m) = (((id, result), b), spread m b id)

  unfoldable pub after_index :
      BlobDescription
      → String
      → Result (Unit {0}) × MainStorage srv
      → ((String × Result (Unit {0})) × BlobDescription) × MainStorage srv
  unfolding with_retention
  after_index b id (err e, m) = ((("", err e), b), m)
  after_index b id (ok _, m) = with_retention b id (add_new_retention m b)

  unfoldable pub stored :
      MainStorage srv
      → (Result String × BlobDescription) × Store
      → ((String × Result (Unit {0})) × BlobDescription) × MainStorage srv
  unfolding after_index
  stored m ((err e, b), s) = ((("", err e), b), record m { stg_srv = s })
  stored m ((ok id, b), s) =
      let b' = record b { blob_id = id } in
      after_index b' id (indexed (record m { stg_srv = s }) id b')

  unfoldable pub if_absent :
      MainStorage srv
      → BlobDescription
      → Reader
      → Result Bool × Store
      → ((String × Result (Unit {0})) × BlobDescription) × MainStorage srv
  unfolding stored
  if_absent m b r (err e, s) = ((("", err (not_asked b.blob_id e)), b), record m { stg_srv = s })
  if_absent m b r (ok true, s) =
      ((("", err (already_exists b.blob_id)), b), record m { stg_srv = s })
  if_absent m b r (ok false, s) = stored m (srv.store_blob s b r)

  -- The two results of Go, the id and the error, and the description that it changes.
  unfoldable pub store_blob :
      MainStorage srv
      → BlobDescription
      → Reader
      → ((String × Result (Unit {0})) × BlobDescription) × MainStorage srv
  unfolding if_absent
  store_blob m b r = if_absent m b r (srv.has_blob m.stg_srv b.blob_id)

  -- the cache's result is not used
  unfoldable pub update_cache : MainStorage srv → String → BlobDescription → MainStorage srv
  update_cache m id b = elim m.cch_srv [
    | none ↦ m
    | some cch ↦ record m { cch_srv = some (srv.update_blob_description cch id b).1 }
  ]

  unfoldable pub after_backup_update :
      String
      → BlobDescription
      → Result (Unit {0}) × MainStorage srv
      → Result (Unit {0}) × MainStorage srv
  after_backup_update id b (err e, m) = (err e, m)
  after_backup_update id b (ok _, m) = (ok tt, update_cache m id b)

  unfoldable pub update_on_backup :
      MainStorage srv → String → BlobDescription → Result (Unit {0}) × MainStorage srv
  update_on_backup m id b = elim m.bck_srv [
    | none ↦ (ok tt, m)
    | some bck ↦
        if m.bcksyncmode
        then (let (result, t) = srv.update_blob_description bck id b in
            (result, record m { bck_srv = some t }))
        else (ok tt, go srv m (Task.update_backup id b))
  ]

  unfoldable pub after_index_update :
      String
      → BlobDescription
      → Result (Unit {0}) × MainStorage srv
      → Result (Unit {0}) × MainStorage srv
  unfolding after_backup_update
  after_index_update id b (err e, m) = (err e, m)
  after_index_update id b (ok _, m) = after_backup_update id b (update_on_backup m id b)

  unfoldable pub after_update :
      MainStorage srv
      → String
      → BlobDescription
      → Result (Unit {0}) × Store
      → Result (Unit {0}) × MainStorage srv
  unfolding after_index_update
  after_update m id b (err e, s) = (err e, record m { stg_srv = s })
  after_update m id b (ok _, s) = after_index_update id b (indexed (record m { stg_srv = s }) id b)

  unfoldable pub update_blob_description :
      MainStorage srv → String → BlobDescription → Result (Unit {0}) × MainStorage srv
  unfolding after_update
  update_blob_description m id b = after_update m id b (srv.update_blob_description m.stg_srv id b)
