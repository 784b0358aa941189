-- ===== src/Tenants.antt =====
-- internal/services/business/maintenant.go: the tenants, over a tenant manager and that of the
-- backup, with the tenants that are being removed. A `go` statement puts a task on `pending`. Two
-- states are left out that Init excludes: a main tenant manager that is nil, and `hasBck` without a
-- backup.
pub mod Lifecycle
use go_blob_store.Prelude.{
  is_some, String, ℤ, negsuc, Bool, true, false, not, Option, none, some, List, [], ◌∷◌, ◌++◌,
  if◌then◌else◌,
}
use go_blob_store.Model.{Error, Result, ok, err}
use go_blob_store.Slices.{contains, remove_string}

-- TenantManager of internal/services/interfaces/tenantdao.go. The listing gives the tenants that the
-- callback got, which never stops it here.
pub record TenantServices : Type 1 where
  pub Tenants : Type 0
  pub Config : Type 0
  pub start : Tenants → Result (Unit {0}) × Tenants
  pub list_tenants : Tenants → (Result (Unit {0}) × List String) × Tenants
  pub add : Tenants → String → Result (Unit {0}) × Tenants
  pub remove : Tenants → String → Result String × Tenants
  pub has : Tenants → String → Bool
  pub write_config : Tenants → String → Config → Result (Unit {0}) × Tenants
  pub read_config : Tenants → String → Result (Option Config)
  pub size_of : Tenants → String → ℤ
  pub add_to_size : Tenants → String → ℤ → Tenants
  pub sub_from_size : Tenants → String → ℤ → Tenants
  pub stop : Tenants → Result (Unit {0}) × Tenants

pub data TenantTask : Type 0 where
  removal backup_removal : String → TenantTask

module _ (srv : TenantServices) where
  open srv use {Tenants, Config}

  pub record MainTenant : Type 0 where
    pub tnt_srv : Tenants
    pub bck_srv : Option Tenants
    pub has_bck : Bool
    pub rm_tnt : List String
    pub pending : List TenantTask

  -- the backup's call, whose error takes the place of the first one's
  on_backup :
      MainTenant
      → Option Tenants
      → (Tenants → Result (Unit {0}) × Tenants)
      → Result (Unit {0})
      → Result (Unit {0}) × MainTenant
  on_backup m none f result = (result, m)
  on_backup m (some t) f result = let (r, t') = f t in (r, record m { bck_srv = some t' })

  unfoldable pub init : MainTenant → Result (Unit {0}) × MainTenant
  unfolding on_backup
  init m =
      let (result, t) = srv.start m.tnt_srv in
      let (result', m') = on_backup (record m { tnt_srv = t }) m.bck_srv srv.start result in
      (result', record m' { has_bck = if is_some m.bck_srv then true else m.has_bck; rm_tnt = [] })

  -- the tenants that the callback is called with
  unfoldable pub listed : List String → List String → List String
  listed rm [] = []
  listed rm (t ∷ ts) = let rest = listed rm ts in if contains rm t then rest else t ∷ rest

  unfoldable pub get_tenants : MainTenant → (Result (Unit {0}) × List String) × MainTenant
  get_tenants m =
      let ((result, ts), t) = srv.list_tenants m.tnt_srv in
      ((result, listed m.rm_tnt ts), record m { tnt_srv = t })

  -- `if m.hasBck { … }`
  abbrev pub backup_of : MainTenant → Option Tenants
  backup_of m = if m.has_bck then m.bck_srv else none

  unfoldable pub add_tenant : MainTenant → String → Result (Unit {0}) × MainTenant
  unfolding on_backup
  add_tenant m tenant =
      if contains m.rm_tnt tenant
      then (err (Error.failed "can't add tenant, it's in removal state"), m)
      else (let (result, t) = srv.add m.tnt_srv tenant in
          on_backup (record m { tnt_srv = t }) (backup_of m) (λ s. srv.add s tenant) result)

  unfoldable pub has_tenant : MainTenant → String → Bool
  has_tenant m tenant = if contains m.rm_tnt tenant then false else srv.has m.tnt_srv tenant

  unfoldable pub remove_tenant : MainTenant → String → Result String × MainTenant
  remove_tenant m tenant =
      if contains m.rm_tnt tenant
      then (err (Error.failed "tenant is already in removal state"), m)
      else if has_tenant m tenant
      then (
        ok "",
        record m {
          rm_tnt = m.rm_tnt ++ (tenant ∷ []);
          pending =
              m.pending
              ++ (TenantTask.removal tenant
                  ∷ (if m.has_bck then TenantTask.backup_removal tenant ∷ [] else []));
        },
      )
      else (err (Error.failed "tenant not exists"), m)

  unfoldable pub remove_tnt : MainTenant → String → MainTenant
  remove_tnt m tenant = record m {
    tnt_srv = (srv.remove m.tnt_srv tenant).1;
    rm_tnt = remove_string m.rm_tnt tenant;
  }

  unfoldable pub run_task : TenantTask → MainTenant → MainTenant
  run_task (TenantTask.removal tenant) m = remove_tnt m tenant
  run_task (TenantTask.backup_removal tenant) m = elim m.bck_srv [
    | none ↦ m
    | some t ↦ record m { bck_srv = some (srv.remove t tenant).1 }
  ]

  -- The backup's error is not used.
  unfoldable pub set_config : MainTenant → String → Config → Result (Unit {0}) × MainTenant
  unfolding on_backup
  set_config m tenant c =
      let (result, t) = srv.write_config m.tnt_srv tenant c in
      (
        result,
        (on_backup (record m { tnt_srv = t }) (backup_of m) (λ s. srv.write_config s tenant c)
            result).1,
      )

  -- the backup's config, or none where it cannot be read
  config_of_backup : Option Tenants → String → Option Config
  config_of_backup none tenant = none
  config_of_backup (some t) tenant = elim (srv.read_config t tenant) [ ok c ↦ c | err _ ↦ none ]

  unfoldable pub get_config : MainTenant → String → Result (Option Config)
  unfolding config_of_backup
  get_config m tenant = elim (srv.read_config m.tnt_srv tenant) [
    | err e ↦ err e
    | ok c ↦ ok (elim c [ some c' ↦ some c' | none ↦ config_of_backup m.bck_srv tenant ])
  ]

  unfoldable pub get_size : MainTenant → String → ℤ
  get_size m tenant = if contains m.rm_tnt tenant then negsuc 0 else srv.size_of m.tnt_srv tenant

  unfoldable pub add_size : MainTenant → String → ℤ → MainTenant
  add_size m tenant n = record m { tnt_srv = srv.add_to_size m.tnt_srv tenant n }

  unfoldable pub sub_size : MainTenant → String → ℤ → MainTenant
  sub_size m tenant n = record m { tnt_srv = srv.sub_from_size m.tnt_srv tenant n }

  unfoldable pub close : MainTenant → Result (Unit {0}) × MainTenant
  unfolding on_backup
  close m =
      let (result, t) = srv.stop m.tnt_srv in
      on_backup (record m { tnt_srv = t }) m.bck_srv srv.stop result
