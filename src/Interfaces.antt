-- ===== src/Interfaces.antt =====
-- internal/services/interfaces/{blobstoredao,retention,index,tenantdao}.go: the interfaces through
-- which the services use one another. Each is a type of states with one function per method that
-- gives the result beside the new state; a method that writes through a pointer or to an
-- `io.Writer` gives back what it wrote as well. All implementations of an interface share one type
-- of states, as its values in Go share one type.
pub mod Lawful
use go_blob_store.Prelude.{String, ℤ, Bool, List}
use go_blob_store.Model.{BlobDescription, Bytes, CheckInfo, Reader, Result, RetentionEntry}

pub record Services : Type 1 where
  -- BlobStorage. `store_blob` gives the description as it left it, a listing what the callback got.
  pub Store : Type 0
  pub get_blobs : Store → (String → Bool) → (Result (Unit {0}) × List String) × Store
  pub store_blob : Store → BlobDescription → Reader → (Result String × BlobDescription) × Store
  pub has_blob : Store → String → Result Bool × Store
  pub get_blob_description : Store → String → Result BlobDescription × Store
  pub update_blob_description : Store → String → BlobDescription → Result (Unit {0}) × Store
  pub retrieve_blob : Store → String → (Result (Unit {0}) × Bytes) × Store
  pub delete_blob : Store → String → Result (Unit {0}) × Store
  pub check_blob : Store → String → Result CheckInfo × Store
  pub get_all_retentions :
      Store → (RetentionEntry → Bool) → (Result (Unit {0}) × List RetentionEntry) × Store
  pub add_retention : Store → RetentionEntry → Result (Unit {0}) × Store
  pub get_retention : Store → String → Result RetentionEntry × Store
  pub delete_retention : Store → String → Result (Unit {0}) × Store
  pub reset_retention : Store → String → Result (Unit {0}) × Store
  pub close : Store → Result (Unit {0}) × Store
  -- RetentionManager: the tenant comes first.
  pub Retentions : Type 0
  pub manager_add_retention : Retentions → String → RetentionEntry → Result (Unit {0}) × Retentions
  pub manager_delete_retention : Retentions → String → String → Result (Unit {0}) × Retentions
  -- Index
  pub Index : Type 0
  pub index : Index → String → BlobDescription → Result (Unit {0}) × Index
  pub search : Index → String → (String → Bool) → (Result (Unit {0}) × List String) × Index
  -- TenantManager
  pub Tenants : Type 0
  pub add_size : Tenants → String → ℤ → Tenants
  pub sub_size : Tenants → String → ℤ → Tenants
