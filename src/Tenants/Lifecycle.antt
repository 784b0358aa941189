-- ===== src/Tenants/Lifecycle.antt =====
-- The removal of a tenant (internal/services/business/maintenant.go): from the request to the end of
-- its task.
use go_blob_store.Prelude.{
  String, ℤ, Option, none, some, Option-cases, negsuc, Bool, true, false, List, [], ◌∷◌, ◌++◌, ◌≡◌,
  not, ◌&&◌, refl, ap, ◌∙◌, sym, str_eq, str_eq_refl, str_eq→eq, leb, Bool-cases, inl, inr, arith,
  if◌then◌else◌,
}
use go_blob_store.Model.{Error, Result, ok, err}
use go_blob_store.Slices
use go_blob_store.Slices.Counts.{count, count-remove_string}
use go_blob_store.Tenants
use go_blob_store.Tenants.{TenantServices, TenantTask, MainTenant}

contains-count : (rm : List String) (t : String) → Slices.contains rm t ≡ leb 1 (count t rm)
unfolding Slices.contains
contains-count [] t = refl
contains-count (a ∷ rm) t = ground (arith, contains-count rm t)

and_false : (b : Bool) → (b && false) ≡ false
and_false b = ground arith

and_true : (b : Bool) → (b && true) ≡ b
and_true b = ground arith

-- after the removal of a string that stands once in a slice
contains-removed :
    (rm : List String) (e t : String)
    → count e rm ≡ 1
    → Slices.contains (Slices.remove_string rm e) t ≡ Slices.contains rm t && not (str_eq e t)
contains-removed rm e t once =
    let there : Slices.contains rm e ≡ true = contains-count rm e ∙ ground arith in
    let taken = count-remove_string t e rm in
    contains-count (Slices.remove_string rm e) t ∙ (elim (Bool-cases (str_eq e t)) [
      | inl same ↦
          let alone : count t rm ≡ 1 = ap (λ d. count d rm) (sym (str_eq→eq e t same)) ∙ once in
          let none_left : count t (Slices.remove_string rm e) ≡ 0 =
            omega (arith, rw (there, same) at taken) in
          rw (none_left, same) (sym (and_false (Slices.contains rm t)))
      | inr other ↦
          let all_left : count t (Slices.remove_string rm e) ≡ count t rm =
            omega (arith, rw (there, other) at taken) in
          rw (all_left, other) (sym (contains-count rm t) ∙ sym (and_true (Slices.contains rm t)))
    ])

contains-appended : (rm : List String) (t : String) → Slices.contains (rm ++ (t ∷ [])) t ≡ true
unfolding Slices.contains
contains-appended [] t = ground (arith, str_eq_refl t)
contains-appended (a ∷ rm) t = ground (arith, contains-appended rm t)

contains-more :
    (rm : List String) (a t : String)
    → Slices.contains rm t ≡ true
    → Slices.contains (rm ++ (a ∷ [])) t ≡ true
unfolding Slices.contains
contains-more [] a t h = absurd (cc (h))
contains-more (b ∷ rm) a t h = elim (Bool-cases (str_eq b t)) [
  | inl same ↦ rw same refl
  | inr other ↦ rw other (contains-more rm a t (sym (rw other refl) ∙ h))
]

-- the removal of another string
contains-kept :
    (rm : List String) (e t : String)
    → str_eq e t ≡ false
    → Slices.contains rm t ≡ true
    → Slices.contains (Slices.remove_string rm e) t ≡ true
contains-kept rm e t other h =
    let taken = count-remove_string t e rm in
    let all_left : count t (Slices.remove_string rm e) ≡ count t rm =
      omega (arith, rw (other, and_false (Slices.contains rm e)) at taken) in
    contains-count (Slices.remove_string rm e) t
    ∙ ap (leb 1) all_left
    ∙ sym (contains-count rm t)
    ∙ h

module _ (srv : TenantServices) where
  in_removal :
      (n : MainTenant srv) (tenant : String)
      → Slices.contains n.rm_tnt tenant ≡ true
      → (Tenants.has_tenant srv n tenant ≡ false)
        × ((Tenants.get_size srv n tenant ≡ negsuc 0)
            × (((Tenants.add_tenant srv n tenant).0
                  ≡ err (Error.failed "can't add tenant, it's in removal state"))
                × ((Tenants.remove_tenant srv n tenant).0
                    ≡ err (Error.failed "tenant is already in removal state"))))
  unfolding Tenants.remove_tenant Tenants.has_tenant Tenants.get_size Tenants.add_tenant
  in_removal n tenant h = (rw h refl, (rw h refl, (rw h refl, rw h refl)))

  accepted_is_listed :
      (m : MainTenant srv) (tenant : String)
      → (Tenants.remove_tenant srv m tenant).0 ≡ ok ""
      → Slices.contains (Tenants.remove_tenant srv m tenant).1.rm_tnt tenant ≡ true
  unfolding Tenants.remove_tenant Tenants.has_tenant
  accepted_is_listed m tenant accepted = elim (Bool-cases (Slices.contains m.rm_tnt tenant)) [
    | inl there ↦ absurd (cc (simp (there, Tenants.remove_tenant) at accepted))
    | inr new ↦ elim (Bool-cases (srv.has m.tnt_srv tenant)) [
      | inr unknown ↦
          absurd (cc (simp (new, unknown, Tenants.remove_tenant, Tenants.has_tenant) at accepted))
      | inl known ↦
          simp (new, known, Tenants.remove_tenant, Tenants.has_tenant)
            (contains-appended m.rm_tnt tenant)
    ]
  ]

  -- A call of a method but `Init`, or the run of a task but the one that removes this tenant.
  pub data Move (tenant : String) (m : MainTenant srv) : MainTenant srv → Type 0 where
    lists : Move tenant m (Tenants.get_tenants srv m).1
    adds : (t : String) → Move tenant m (Tenants.add_tenant srv m t).1
    removes : (t : String) → Move tenant m (Tenants.remove_tenant srv m t).1
    configures : (t : String) (c : srv.Config) → Move tenant m (Tenants.set_config srv m t c).1
    grows : (t : String) (n : ℤ) → Move tenant m (Tenants.add_size srv m t n)
    shrinks : (t : String) (n : ℤ) → Move tenant m (Tenants.sub_size srv m t n)
    closes : Move tenant m (Tenants.close srv m).1
    runs :
        (t : String)
        → str_eq t tenant ≡ false
        → Move tenant m (Tenants.run_task srv (TenantTask.removal t) m)
    runs_backup :
        (t : String) → Move tenant m (Tenants.run_task srv (TenantTask.backup_removal t) m)

  pub data Moves (tenant : String) (m : MainTenant srv) : MainTenant srv → Type 0 where
    stop : Moves tenant m m
    more : {n k : MainTenant srv} → Moves tenant m n → Move tenant n k → Moves tenant m k

  on_backup_rm :
      (m : MainTenant srv) (backup : Option srv.Tenants)
      (f : srv.Tenants → Result (Unit {0}) × srv.Tenants) (result : Result (Unit {0}))
      → (Tenants.on_backup srv m backup f result).1.rm_tnt ≡ m.rm_tnt
  unfolding Tenants.on_backup
  on_backup_rm m none f result = refl
  on_backup_rm m (some t) f result = refl

  add_tenant_rm :
      (m : MainTenant srv) (t : String) → (Tenants.add_tenant srv m t).1.rm_tnt ≡ m.rm_tnt
  unfolding Tenants.add_tenant
  add_tenant_rm m t = elim (Bool-cases (Slices.contains m.rm_tnt t)) [
    | inl there ↦ simp (there, Tenants.add_tenant) refl
    | inr new ↦ simp (new, Tenants.add_tenant) (on_backup_rm _ _ _ _)
  ]

  remove_tenant-contains :
      (m : MainTenant srv) (tenant t : String)
      → Slices.contains m.rm_tnt tenant ≡ true
      → Slices.contains (Tenants.remove_tenant srv m t).1.rm_tnt tenant ≡ true
  unfolding Tenants.remove_tenant
  remove_tenant-contains m tenant t h = elim (Bool-cases (Slices.contains m.rm_tnt t)) [
    | inl there ↦ simp (there, Tenants.remove_tenant) h
    | inr new ↦ elim (Bool-cases (Tenants.has_tenant srv m t)) [
      | inl known ↦ simp (new, known, Tenants.remove_tenant) (contains-more m.rm_tnt t tenant h)
      | inr unknown ↦ simp (new, unknown, Tenants.remove_tenant) h
    ]
  ]

  stays :
      (m n : MainTenant srv) (tenant : String)
      → Slices.contains m.rm_tnt tenant ≡ true
      → Move tenant m n
      → Slices.contains n.rm_tnt tenant ≡ true
  unfolding Tenants.get_tenants Tenants.set_config Tenants.add_size Tenants.sub_size Tenants.close
      Tenants.run_task Tenants.remove_tnt
  stays m _ tenant h lists = h
  stays m _ tenant h (adds t) = ap (λ rm. Slices.contains rm tenant) (add_tenant_rm m t) ∙ h
  stays m _ tenant h (removes t) = remove_tenant-contains m tenant t h
  stays m _ tenant h (configures t c) =
      ap (λ rm. Slices.contains rm tenant) (on_backup_rm _ _ _ _) ∙ h
  stays m _ tenant h (grows t n) = h
  stays m _ tenant h (shrinks t n) = h
  stays m _ tenant h closes = ap (λ rm. Slices.contains rm tenant) (on_backup_rm _ _ _ _) ∙ h
  stays m _ tenant h (runs t other) = contains-kept m.rm_tnt t tenant other h
  stays m _ tenant h (runs_backup t) = elim (Option-cases m.bck_srv) [
    | inl alone ↦ simp (alone, Tenants.run_task) h
    | inr (s, backed) ↦ simp (backed, Tenants.run_task) h
  ]

  stays_long :
      (tenant : String) (m n : MainTenant srv)
      → Slices.contains m.rm_tnt tenant ≡ true
      → Moves tenant m n
      → Slices.contains n.rm_tnt tenant ≡ true
  stays_long tenant m _ h stop = h
  stays_long tenant m _ h (more {n = n} {k = k} before last) =
      stays n k tenant (stays_long tenant m n h before) last

  -- Once a tenant's removal is accepted, and through all later calls but `Init` and all tasks but
  -- the one that removes it, `HasTenant` denies the tenant, `GetSize` gives -1, and `AddTenant` and `RemoveTenant` refuse
  -- it.
  pub remove_tenant-blocks :
      (m n : MainTenant srv) (tenant : String)
      → (Tenants.remove_tenant srv m tenant).0 ≡ ok ""
      → Moves tenant (Tenants.remove_tenant srv m tenant).1 n
      → (Tenants.has_tenant srv n tenant ≡ false)
        × ((Tenants.get_size srv n tenant ≡ negsuc 0)
            × (((Tenants.add_tenant srv n tenant).0
                  ≡ err (Error.failed "can't add tenant, it's in removal state"))
                × ((Tenants.remove_tenant srv n tenant).0
                    ≡ err (Error.failed "tenant is already in removal state"))))
  remove_tenant-blocks m n tenant accepted moves = in_removal n tenant (
      stays_long tenant (Tenants.remove_tenant srv m tenant).1 n
        (accepted_is_listed m tenant accepted) moves)

  -- The task of a removal takes the tenant off the list of those in removal, if it was on it once,
  -- and no other tenant: whether it is there is up to the tenant manager again.
  pub remove_tnt-has_tenant :
      (m : MainTenant srv) (tenant t : String)
      → count tenant m.rm_tnt ≡ 1
      → Tenants.has_tenant srv (Tenants.remove_tnt srv m tenant) t ≡ (
          if Slices.contains m.rm_tnt t && not (str_eq tenant t)
          then false
          else srv.has (srv.remove m.tnt_srv tenant).1 t)
  unfolding Tenants.has_tenant Tenants.remove_tnt
  remove_tnt-has_tenant m tenant t once =
      ap (λ b. if b then false else srv.has (srv.remove m.tnt_srv tenant).1 t)
        (contains-removed m.rm_tnt tenant t once)
