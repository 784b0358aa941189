-- ===== src/MainStorage/Reading.antt =====
-- Which copy a download gives (internal/services/business/mainstorage.go): the cache's, the main
-- storage's or the backup's.
use go_blob_store.Prelude.{String, Bool, true, false, Option, none, some, [], str_eq, if◌then◌else◌}
use go_blob_store.Model.{Bytes, Error, Result, ok, err}
use go_blob_store.Interfaces.Lawful.{Blob}
use go_blob_store.MainStorage.{MainStorage}
use go_blob_store.MainStorage.Access

-- the copy in the cache, if it is the tenant's
abbrev pub visible : String → Option Blob → Option Bytes
visible tenant none = none
visible tenant (some (b, c)) = if str_eq b.tenant_id tenant then some c else none

-- the copy in the cache of a storage, which may have none
abbrev pub cached {ℓ} : {S : Type ℓ} → String → (S → Option Blob) → Option S → Option Bytes
cached tenant look none = none
cached tenant look (some s) = visible tenant (look s)

-- The answer that the copies of the cache, the main storage and the backup make up.
abbrev pub answer {ℓ} :
    {S : Type ℓ}
    → Option Bytes
    → Option Blob
    → (S → Option Blob)
    → Option S
    → Result (Unit {0}) × Bytes
answer (some c) main look backup = (ok tt, c)
answer none (some blob) look backup = (ok tt, blob.1)
answer none none look none = (ok tt, [])
answer none none look (some t) = elim (look t) [
  | none ↦ (err Error.not_exist, [])
  | some blob ↦ (ok tt, blob.1)
]

abbrev cache_answer : Option Bytes → Bool × Bytes
cache_answer none = (false, [])
cache_answer (some c) = (true, c)
