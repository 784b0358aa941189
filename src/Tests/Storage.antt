-- ===== src/Tests/Storage.antt =====
-- The tenant's storage (internal/services/business/mainstorage.go) over storages that are maps.
use mathlib.Core.Option
use go_blob_store.Prelude.{◌≡◌, ◌↔◌, String, true, false, none, some, [], ◌∷◌}
use go_blob_store.Model.{Bytes, Check}
use go_blob_store.Interfaces.Lawful.{sound}
use go_blob_store.MainStorage
use go_blob_store.MainStorage.{MainStorage, Task}
use go_blob_store.MainStorage.Upload
use go_blob_store.MainStorage.Access
use go_blob_store.MainStorage.Copies
use go_blob_store.MainStorage.Runs.{Runs}
use go_blob_store.MainStorage.Checking
use go_blob_store.MainStorage.Verdict.{merge_check-healthy}
use go_blob_store.Tests.Lists.{blob}
use go_blob_store.Tests.Maps.{map_store, maps, put}

-- a tenant's storage with an asynchronous backup and a cache, all empty
abbrev storage : MainStorage maps
storage = record {
  rtn_mng = none;
  stg_srv = λ _. none;
  bck_srv = some (λ _. none);
  cch_srv = some (λ _. none);
  idx_srv = none;
  tnt_bck_srv = none;
  tnt_mgr = some [];
  bcksyncmode = false;
  tenant = "mcs";
  has_idx = false;
  tnt_error = none;
  pending = [];
}

abbrev bytes : Bytes
bytes = 1 ∷ 2 ∷ 3 ∷ []

-- the state after an upload
abbrev uploaded : MainStorage maps
uploaded = (Upload.store_blob maps storage (blob "aa01") (sound bytes)).1

-- and after its last task, which is the first to run
abbrev one_run : MainStorage maps
one_run =
    MainStorage.run_task maps (Task.add_storage "aa01") (record uploaded {
      pending = Task.backup (blob "aa01") "aa01" ∷ Task.cache (blob "aa01") ∷ [];
    })

abbrev two_run : MainStorage maps
two_run =
    MainStorage.run_task maps (Task.backup (blob "aa01") "aa01")
      (record one_run { pending = Task.cache (blob "aa01") ∷ [] })

abbrev all_run : MainStorage maps
all_run = MainStorage.run_task maps (Task.cache (blob "aa01")) (record two_run { pending = [] })

uploading : Unit {0}
unfolding Upload.store_blob Upload.if_absent Upload.stored Upload.after_index Upload.with_retention
    Upload.indexed Upload.add_new_retention Upload.spread Upload.start_backup MainStorage.go
    map_store MainStorage.run_task MainStorage.cache_file MainStorage.backup_file
    MainStorage.add_storage_size MainStorage.get_blob_description MainStorage.description_of_main
    MainStorage.add_size
uploading = tt

-- the blob is on the backup alone
abbrev on_backup : MainStorage maps
on_backup = record storage { bck_srv = some (put (λ _. none) "aa01" (some (blob "aa01", 5 ∷ []))) }

abbrev on_main : MainStorage maps
on_main = record on_backup { stg_srv = put (λ _. none) "aa01" (some (blob "aa01", 5 ∷ [])) }

abbrev some_hash : String
some_hash = "ab"

abbrev healthy_check : Check
healthy_check = record { store = none; backup = none; healthy = true; message = "" }

merge_check-healthy_example :
    ((Checking.merge_check healthy_check
        (record { last_check = none; healthy = true; message = "" })
        some_hash
        some_hash).healthy
      ≡ true)
    ↔ ((true ≡ true) × ((true ≡ true) × (some_hash ≡ some_hash)))
merge_check-healthy_example =
    merge_check-healthy healthy_check (record { last_check = none; healthy = true; message = "" })
      some_hash some_hash
