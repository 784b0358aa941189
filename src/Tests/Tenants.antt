-- ===== src/Tests/Tenants.antt =====
-- The tenants (internal/services/business/maintenant.go) over a tenant manager that is a list.
use go_blob_store.Prelude.{
  ◌≡◌, refl, String, pos, negsuc, false, none, List, [], ◌∷◌, any, str_eq, if◌then◌else◌,
}
use go_blob_store.Model.{Error, ok, err}
use go_blob_store.Slices
use go_blob_store.Tenants
use go_blob_store.Tenants.{TenantServices, TenantTask, MainTenant}
use go_blob_store.Tenants.Lifecycle.{Move, Moves, remove_tenant-blocks, remove_tnt-has_tenant}

dropped : List String → String → List String
dropped [] t = []
dropped (a ∷ ts) t = let rest = dropped ts t in if str_eq a t then rest else a ∷ rest

abbrev of_list : TenantServices
of_list = record {
  Tenants = List String;
  Config = Unit;
  start = λ s. (ok tt, s);
  list_tenants = λ s. ((ok tt, s), s);
  add = λ s t. (ok tt, t ∷ s);
  remove = λ s t. (ok "", dropped s t);
  has = λ s t. any (λ a. str_eq a t) s;
  write_config = λ s t c. (ok tt, s);
  read_config = λ s t. ok none;
  size_of = λ s t. pos 0;
  add_to_size = λ s t n. s;
  sub_from_size = λ s t n. s;
  stop = λ s. (ok tt, s);
}

abbrev tenants : MainTenant of_list
tenants = record {
  tnt_srv = "mcs" ∷ "easy" ∷ [];
  bck_srv = none;
  has_bck = false;
  rm_tnt = "easy" ∷ [];
  pending = [];
}

-- the removal of "mcs", and an addition and a task of other tenants after it
abbrev removed : MainTenant of_list
removed = (Tenants.remove_tenant of_list tenants "mcs").1

abbrev added : MainTenant of_list
added = (Tenants.add_tenant of_list removed "new").1

abbrev later : MainTenant of_list
later = Tenants.run_task of_list (TenantTask.removal "easy") added

later-Moves : Moves of_list "mcs" removed later
later-Moves = Moves.more (Moves.more Moves.stop (Move.adds "new")) (Move.runs "easy" refl)

remove_tenant-blocks_example :
    (Tenants.has_tenant of_list later "mcs" ≡ false)
    × ((Tenants.get_size of_list later "mcs" ≡ negsuc 0)
        × (((Tenants.add_tenant of_list later "mcs").0
              ≡ err (Error.failed "can't add tenant, it's in removal state"))
            × ((Tenants.remove_tenant of_list later "mcs").0
                ≡ err (Error.failed "tenant is already in removal state"))))
unfolding Tenants.remove_tenant Tenants.has_tenant Slices.contains
remove_tenant-blocks_example = remove_tenant-blocks of_list tenants later "mcs" refl later-Moves

remove_tnt-has_tenant_example :
    Tenants.has_tenant of_list (Tenants.remove_tnt of_list tenants "easy") "easy" ≡ false
unfolding Slices.contains dropped
remove_tnt-has_tenant_example = remove_tnt-has_tenant of_list tenants "easy" "easy" refl
