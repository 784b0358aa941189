-- ===== src/SimpleTenants.antt =====
-- internal/services/simplefile/simplefiletenantmanager.go: the tenants as directories below a root, with
-- the sizes that are kept of them. A tenant's directory holds its configuration; JSON is a parameter.
pub mod Sizes
use Prim.Native.String.{slice}
use go_blob_store.Prelude.{
  ℕ, String, ℤ, pos, negsuc, Bool, true, false, Option, none, some, List, [], ◌∷◌, ◌||◌, ◌+ℤ◌, ◌-ℤ◌,
  ltb_ℤ, str_eq, sum_by, if◌then◌else◌,
}
use go_blob_store.Model.{Bytes, Error, Result, ok, err, to_int64}
use go_blob_store.FastCache.{io_error}
use go_blob_store.Tenants.{TenantServices}

-- The calls that fail, what the root lists, and the sizes of a tenant's files as a walk finds them.
pub record TenantDisk : Type 0 where
  pub mkdir_fails : String → Bool
  pub stat_fails : String → Bool
  pub remove_fails : String → Bool
  pub write_fails : String → Bool
  pub read_fails : String → Bool
  pub root_fails : Bool
  pub names : Result (List String)
  pub file_sizes : String → List ℕ

pub record TenantManager : Type 0 where
  pub directories : String → Bool
  pub tenant_infos : String → Option ℤ
  pub configs : String → Option Bytes
  pub calc_running : Bool

unfoldable pub with_info : TenantManager → String → Option ℤ → TenantManager
with_info m tenant size = record m {
  tenant_infos = λ t. if str_eq tenant t then size else m.tenant_infos t;
}

unfoldable pub with_directory : TenantManager → String → Bool → TenantManager
with_directory m tenant there = record m {
  directories = λ t. if str_eq tenant t then there else m.directories t;
}

unfoldable pub with_config : TenantManager → String → Option Bytes → TenantManager
with_config m tenant config = record m {
  configs = λ t. if str_eq tenant t then config else m.configs t;
}

-- the tenants that the callback gets: all names that do not begin with "_", until it gives false
unfoldable pub listed : (String → Bool) → List String → List String
listed callback [] = []
listed callback (name ∷ names) =
    let rest = listed callback names in
    if str_eq (slice name 0 1) "_" then rest else name ∷ (if callback name then rest else [])

unfoldable pub get_tenants : TenantDisk → (String → Bool) → Result (Unit {0}) × List String
get_tenants disk callback = elim disk.names [
  | err e ↦ (err e, [])
  | ok names ↦ (ok tt, listed callback names)
]

-- the ticker that `Init` starts is the caller of `calculate_all_storage_sizes`
unfoldable pub init : TenantDisk → TenantManager → Result (Unit {0}) × TenantManager
init disk m =
    if disk.root_fails then (err io_error, m) else (ok tt, record m { calc_running = false })

unfoldable pub has_tenant : TenantDisk → TenantManager → String → Bool
has_tenant disk m tenant = m.directories tenant || disk.stat_fails tenant

unfoldable pub add_tenant : TenantDisk → TenantManager → String → Result (Unit {0}) × TenantManager
add_tenant disk m tenant =
    if disk.mkdir_fails tenant
    then (err io_error, m)
    else (ok tt, with_info (with_directory m tenant true) tenant (some (negsuc 0)))

unfoldable pub remove_tenant : TenantDisk → TenantManager → String → Result String × TenantManager
remove_tenant disk m tenant =
    if has_tenant disk m tenant
    then (if disk.remove_fails tenant then (err io_error, m) else (
      ok "",
      with_info (with_config (with_directory m tenant false) tenant none) tenant none,
    ))
    else (err (Error.failed "tenant not exists"), m)

unfoldable pub get_size : TenantDisk → TenantManager → String → ℤ
get_size disk m tenant =
    if has_tenant disk m tenant
    then elim (m.tenant_infos tenant) [ none ↦ negsuc 0 | some size ↦ size ]
    else negsuc 0

-- a size that is not known yet counts from 0
unfoldable pub grown : ℤ → ℤ → ℤ
grown old size = to_int64 ((if ltb_ℤ old (pos 0) then pos 0 else old) +ℤ size)

unfoldable pub add_size : TenantDisk → TenantManager → String → ℤ → TenantManager
add_size disk m tenant size =
    if has_tenant disk m tenant
    then elim (m.tenant_infos tenant) [
      | none ↦ m
      | some old ↦ with_info m tenant (some (grown old size))
    ]
    else m

unfoldable pub sub_size : TenantDisk → TenantManager → String → ℤ → TenantManager
sub_size disk m tenant size =
    if has_tenant disk m tenant
    then elim (m.tenant_infos tenant) [
      | none ↦ m
      | some old ↦
          if ltb_ℤ old (pos 0) then m else with_info m tenant (some (to_int64 (old -ℤ size)))
    ]
    else m

unfoldable pub calculate_storage_size : TenantDisk → TenantManager → String → ℤ
calculate_storage_size disk m tenant =
    if has_tenant disk m tenant
    then to_int64 (pos (sum_by (λ n. n) (disk.file_sizes tenant)))
    else negsuc 0

unfoldable pub calculate_sizes : TenantDisk → TenantManager → List String → TenantManager
calculate_sizes disk m [] = m
calculate_sizes disk m (t ∷ ts) =
    calculate_sizes disk (with_info m t (some (calculate_storage_size disk m t))) ts

unfoldable pub calculate_all_storage_sizes : TenantDisk → TenantManager → TenantManager
calculate_all_storage_sizes disk m =
    record (calculate_sizes disk m (get_tenants disk (λ _. true)).1) { calc_running = false }

module _ {Config : Type 0} (marshal : Config → Result Bytes)
    (unmarshal : Bytes → Result Config) where
  unfoldable pub write_marshalled :
      TenantDisk → TenantManager → String → Result Bytes → Result (Unit {0}) × TenantManager
  write_marshalled disk m tenant (err e) = (err e, m)
  write_marshalled disk m tenant (ok js) =
      if disk.write_fails tenant then (err io_error, m) else (ok tt, with_config m tenant (some js))

  -- the directory of the configuration lies in the tenant's
  unfoldable pub set_config :
      TenantDisk → TenantManager → String → Config → Result (Unit {0}) × TenantManager
  set_config disk m tenant config =
      if disk.mkdir_fails tenant
      then (err io_error, m)
      else write_marshalled disk (with_directory m tenant true) tenant (marshal config)

  unfoldable pub read_config : Result Config → Result (Option Config)
  read_config (err e) = err e
  read_config (ok config) = ok (some config)

  -- no configuration is no error
  unfoldable pub get_config : TenantDisk → TenantManager → String → Result (Option Config)
  get_config disk m tenant = elim (m.configs tenant) [
    | none ↦ if disk.stat_fails tenant then err io_error else ok none
    | some js ↦ if disk.read_fails tenant then err io_error else read_config (unmarshal js)
  ]

  -- the manager as that of a main tenant
  abbrev pub simple_tenants : TenantDisk → TenantServices
  simple_tenants disk = record {
    Tenants = TenantManager;
    Config = Config;
    start = init disk;
    list_tenants = λ m. (get_tenants disk (λ _. true), m);
    add = add_tenant disk;
    remove = remove_tenant disk;
    has = has_tenant disk;
    write_config = set_config disk;
    read_config = get_config disk;
    size_of = get_size disk;
    add_to_size = add_size disk;
    sub_from_size = sub_size disk;
    stop = λ m. (ok tt, m);
  }
