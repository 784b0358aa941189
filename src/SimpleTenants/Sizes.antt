-- ===== src/SimpleTenants/Sizes.antt =====
-- The sizes that internal/services/simplefile/simplefiletenantmanager.go keeps of its tenants.
use go_blob_store.Prelude.{String, ℤ, true, Option, some, ◌≡◌, refl, ap, ◌∙◌, str_eq_refl}
use go_blob_store.SimpleTenants.{
  TenantDisk, TenantManager, add_size, get_size, grown, has_tenant, with_info,
}

has_known :
    (disk : TenantDisk) (m : TenantManager) (tenant : String)
    → m.directories tenant ≡ true
    → has_tenant disk m tenant ≡ true
unfolding has_tenant
has_known disk m tenant there = rw there refl

with_info_directories :
    (m : TenantManager) (tenant : String) (size : Option ℤ)
    → (with_info m tenant size).directories ≡ m.directories
unfolding with_info
with_info_directories m tenant size = refl

with_info_same :
    (m : TenantManager) (tenant : String) (size : Option ℤ)
    → (with_info m tenant size).tenant_infos tenant ≡ size
unfolding with_info
with_info_same m tenant size = rw (str_eq_refl tenant) refl

get_size-with_info :
    (disk : TenantDisk) (m : TenantManager) (tenant : String) (size : ℤ)
    → m.directories tenant ≡ true
    → get_size disk (with_info m tenant (some size)) tenant ≡ size
unfolding get_size
get_size-with_info disk m tenant size there =
    simp
      (
        has_known disk (with_info m tenant (some size)) tenant
            (ap (λ d. d tenant) (with_info_directories m tenant (some size)) ∙ there),
        with_info_same m tenant (some size),
        get_size,
      )
      refl

-- After an addition the size of a tenant whose size is kept is the grown one.
pub get_size-add_size :
    (disk : TenantDisk) (m : TenantManager) (tenant : String) (old size : ℤ)
    → m.directories tenant ≡ true
    → m.tenant_infos tenant ≡ some old
    → get_size disk (add_size disk m tenant size) tenant ≡ grown old size
unfolding add_size
get_size-add_size disk m tenant old size there known =
    simp (has_known disk m tenant there, known, add_size)
      (get_size-with_info disk m tenant (grown old size) there)
