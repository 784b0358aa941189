-- ===== src/MainStorage/Uploading.antt =====
-- What an upload to a tenant's storage (internal/services/business/mainstorage.go) leads to.
use go_blob_store.Prelude.{String, Bool, true, Option, none, List, ◌++◌, ◌≡◌, All}
use go_blob_store.Model.{Bytes}
use go_blob_store.Interfaces.{Services}
use go_blob_store.Interfaces.Lawful
use go_blob_store.Interfaces.Lawful.{Blob, IsLawful}
use go_blob_store.MainStorage
use go_blob_store.MainStorage.{MainStorage, Task, run_task}
use go_blob_store.MainStorage.Upload
use go_blob_store.MainStorage.Copies
use go_blob_store.MainStorage.Copies.{IsFine, InOption, OnBackup}
use go_blob_store.MainStorage.Steps
use go_blob_store.MainStorage.Tasks
use go_blob_store.MainStorage.Runs
use go_blob_store.MainStorage.Runs.{Runs, WillBeOnBackup}

module _ (accepts : String → Bool) (id : String) (c : Bytes) (srv : Services)
    (contents : Services.Store srv → String → Option Blob) (laws : IsLawful srv accepts contents)
    (valid : accepts id ≡ true) where
  abbrev Agrees : MainStorage srv → Type 0
  Agrees m = Copies.Agrees accepts id c srv contents laws m

  abbrev Keeps : MainStorage srv → MainStorage srv → Type 0
  Keeps m n = Copies.Keeps accepts id c srv contents laws m n

  abbrev Will : MainStorage srv → Type 0
  Will m = WillBeOnBackup accepts id c srv contents laws valid m

  abbrev then : (m n k : MainStorage srv) → Keeps m n → Keeps n k → Keeps m k
  then = Copies.Keeps-trans accepts id c srv contents laws

  abbrev queued :
      (m n : MainStorage srv) (us : List Task)
      → m.stg_srv ≡ n.stg_srv
      → m.bck_srv ≡ n.bck_srv
      → m.tnt_bck_srv ≡ n.tnt_bck_srv
      → m.pending ++ us ≡ n.pending
      → (Agrees m → All (IsFine accepts id c) us)
      → Keeps m n
  queued = Steps.Keeps-of_tasks accepts id c srv contents laws valid

  abbrev same :
      (m n : MainStorage srv)
      → m.stg_srv ≡ n.stg_srv
      → m.bck_srv ≡ n.bck_srv
      → m.tnt_bck_srv ≡ n.tnt_bck_srv
      → m.pending ≡ n.pending
      → Keeps m n
  same = Steps.Keeps-of_same accepts id c srv contents laws valid

  -- the state in which an upload of `id` starts
  pub record IsNew (m : MainStorage srv) : Type 0 where
    pub absent : contents m.stg_srv id ≡ none
    pub not_on_backup : InOption (λ t. contents t id ≡ none) m.bck_srv
    pub not_on_tenant_backup : InOption (λ t. contents t id ≡ none) m.tnt_bck_srv
    pub tasks : All (IsFine accepts id c) m.pending
