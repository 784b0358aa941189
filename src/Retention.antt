-- ===== src/Retention.antt =====
-- internal/services/retentionmanager/singleretentionmanager.go: the list of the entries that expire
-- next, and its processing every minute. A tick of the ticker is one call of `process_retention`
-- and one of `refresh_retention`; the time is an argument. The storage factory's answer for a tenant
-- is a map to a storage or an error, and the tenants that the tenant manager lists are an argument.
pub mod Push
pub mod Removal
use go_blob_store.Prelude.{
  ℕ, suc, String, ℤ, pos, Bool, true, List, [], ◌∷◌, ◌++◌, ◌-◌, ltb, ltb_ℤ, str_eq, length, take,
  drop, any, if◌then◌else◌,
}
use go_blob_store.Model.{Result, ok, err, RetentionEntry, get_retention_timestamp_ms}
use go_blob_store.Search.{insert_slice, sort_search, test_at}
use go_blob_store.Interfaces.{Services}

abbrev pub Entries : Type 0
Entries = List RetentionEntry

unfoldable pub insert_at : Entries → ℕ → RetentionEntry → Entries
insert_at xs i v = insert_slice xs i v

-- whether the entry expires later than `r`
abbrev pub is_later : RetentionEntry → RetentionEntry → Bool
is_later r x = ltb_ℤ (get_retention_timestamp_ms r) (get_retention_timestamp_ms x)

-- `if len(…) > s.MaxSize { … = …[:s.MaxSize-1] }`
unfoldable pub truncate : ℕ → Entries → Entries
truncate max_size xs = if ltb max_size (length xs) then take (max_size - 1) xs else xs

unfoldable pub push_to_list : ℕ → Entries → RetentionEntry → Entries
push_to_list max_size xs r =
    let i = sort_search (length xs) (test_at (is_later r) xs) in
    if any (λ v. str_eq r.blob_id v.blob_id) xs
    then xs
    else if ltb i max_size
    then truncate max_size (insert_at xs i r)
    else xs

-- the index that the first loop of `removeEntry` leaves, which is 0 where the id is not found
pub index_of : String → Entries → ℕ → ℕ
index_of id [] i = 0
index_of id (x ∷ xs) i =
    let rest = index_of id xs (suc i) in if str_eq id x.blob_id then i else rest

-- `copy(l[i:], l[i+1:])` where `i` is not the last index, then `l[:len(l)-1]`
unfoldable pub remove_at : Entries → ℕ → Entries
remove_at xs i =
    let last = length xs - 1 in
    take last (if ltb i last then take i xs ++ (drop (suc i) xs ++ drop last xs) else xs)

unfoldable pub remove_entry : Entries → String → Entries
remove_entry xs id = let i = index_of id xs 0 in if ltb i (length xs) then remove_at xs i else xs

pub remove_entries : Entries → List String → Entries
remove_entries xs [] = xs
remove_entries xs (id ∷ ids) = remove_entries (remove_entry xs id) ids

abbrev pub is_expired : ℤ → RetentionEntry → Bool
is_expired now v = ltb_ℤ (get_retention_timestamp_ms v) now

-- the list `rmvList` that the loop collects
abbrev pub expired_ids : ℤ → Entries → List String
expired_ids now [] = []
expired_ids now (v ∷ vs) =
    if is_expired now v then v.blob_id ∷ expired_ids now vs else expired_ids now vs

module _ (srv : Services) where
  open srv use {Store}

  pub record SingleRetentionManager : Type 0 where
    pub storages : String → Result Store
    pub retention_list : Entries
    pub max_size : ℕ

  abbrev pub with_storage : (String → Result Store) → String → Store → String → Result Store
  with_storage storages tenant s t = if str_eq tenant t then ok s else storages t

  -- the deletion of an expired blob; its errors are only logged
  unfoldable pub delete_expired : (String → Result Store) → RetentionEntry → String → Result Store
  delete_expired storages v = elim (storages v.tenant_id) [
    | err _ ↦ storages
    | ok s ↦ with_storage storages v.tenant_id (srv.delete_blob s v.blob_id).1
  ]

  delete_all_expired : ℤ → (String → Result Store) → Entries → String → Result Store
  delete_all_expired now storages [] = storages
  delete_all_expired now storages (v ∷ vs) =
      delete_all_expired now (if is_expired now v then delete_expired storages v else storages) vs

  -- `actualTime` is the Unix time in seconds, times 1000.
  unfoldable pub process_retention : ℤ → SingleRetentionManager → SingleRetentionManager
  unfolding delete_all_expired
  process_retention now m = record m {
    storages = delete_all_expired now m.storages m.retention_list;
    retention_list = remove_entries m.retention_list (expired_ids now m.retention_list);
  }

  push_all : ℕ → Entries → Entries → Entries
  push_all max_size xs [] = xs
  push_all max_size xs (r ∷ rs) = push_all max_size (push_to_list max_size xs r) rs

  -- the callback for one tenant, which always goes on
  unfoldable pub refresh_tenant : SingleRetentionManager → String → SingleRetentionManager
  unfolding push_all
  refresh_tenant m t = elim (m.storages t) [
    | err _ ↦ m
    | ok s ↦
        let ((result, found), s') = srv.get_all_retentions s (λ _. true) in
        record m {
          storages = with_storage m.storages t s';
          retention_list = push_all m.max_size m.retention_list found;
        }
  ]

  pub refresh_retention : SingleRetentionManager → List String → SingleRetentionManager
  refresh_retention m [] = m
  refresh_retention m (t ∷ ts) = refresh_retention (refresh_tenant m t) ts

  -- one tick of the ticker; the errors of both parts are only logged
  unfoldable pub tick : ℤ → List String → SingleRetentionManager → SingleRetentionManager
  tick now tenants m = refresh_retention (process_retention now m) tenants

  -- an operation on the storage of a tenant
  unfoldable pub on_storage :
      SingleRetentionManager
      → String
      → (Store → Result (Unit {0}) × Store)
      → Result (Unit {0}) × SingleRetentionManager
  on_storage m tenant f = elim (m.storages tenant) [
    | err e ↦ (err e, m)
    | ok s ↦
        let (result, s') = f s in
        (result, record m { storages = with_storage m.storages tenant s' })
  ]

  pushed :
      RetentionEntry
      → Result (Unit {0}) × SingleRetentionManager
      → Result (Unit {0}) × SingleRetentionManager
  pushed r (err e, m) = (err e, m)
  pushed r (ok _, m) =
      (ok tt, record m { retention_list = push_to_list m.max_size m.retention_list r })

  unfoldable pub add_retention :
      SingleRetentionManager → String → RetentionEntry → Result (Unit {0}) × SingleRetentionManager
  unfolding pushed
  add_retention m tenant r =
      if ltb_ℤ (pos 0) r.retention
      then pushed r (on_storage m tenant (λ s. srv.add_retention s r))
      else (ok tt, m)

  unfoldable pub delete_retention :
      SingleRetentionManager → String → String → Result (Unit {0}) × SingleRetentionManager
  delete_retention m tenant id = on_storage m tenant (λ s. srv.delete_retention s id)

  unfoldable pub reset_retention :
      SingleRetentionManager → String → String → Result (Unit {0}) × SingleRetentionManager
  reset_retention m tenant id = on_storage m tenant (λ s. srv.reset_retention s id)

  -- The callback's result is not used: the listing never stops.
  unfoldable pub get_all_retentions :
      SingleRetentionManager → String → (Result (Unit {0}) × Entries) × SingleRetentionManager
  get_all_retentions m tenant = elim (m.storages tenant) [
    | err e ↦ ((err e, []), m)
    | ok s ↦
        let ((result, found), s') = srv.get_all_retentions s (λ _. true) in
        ((ok tt, found), record m { storages = with_storage m.storages tenant s' })
  ]
