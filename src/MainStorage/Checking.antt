-- ===== src/MainStorage/Checking.antt =====
-- CheckBlob, the retention methods and Close of internal/services/business/mainstorage.go.
use Prim.Native.String.{◌++◌ as concat}
use mathlib.Core.Option
use go_blob_store.Prelude.{
  String, Bool, false, Option, none, some, List, ◌&&◌, if◌then◌else◌, str_eq,
}
use go_blob_store.Model.{BlobDescription, Check, CheckInfo, Result, ok, err, RetentionEntry}
use go_blob_store.Interfaces.{Services}
use go_blob_store.MainStorage.{MainStorage, nil_pointer}

-- the two messages, or the one that is not empty
unfoldable pub join_messages : String → String → String
join_messages a b = if str_eq b "" then a else if str_eq a "" then b else concat a (concat ", " b)

-- the verdict on both copies: the backup's is merged into the main storage's, then the hashes
unfoldable pub merge_check : Check → CheckInfo → String → String → Check
merge_check ri bck hash bck_hash =
    let both = record ri {
      backup = some bck;
      healthy = ri.healthy && bck.healthy;
      message = join_messages ri.message bck.message;
    } in
    if str_eq hash bck_hash then both else record both {
      healthy = false;
      message = join_messages both.message "hashes are not equal";
    }

-- the pointer that Go returns beside an error: nil if there is one
unfoldable pub pointer {ℓ} : {A : Type ℓ} → Result A → Option A
pointer (ok x) = some x
pointer (err e) = none

-- what a pointer points to
unfoldable pub deref {ℓ} : {A : Type ℓ} → Option A → Result A
deref none = err nil_pointer
deref (some x) = ok x

module _ (srv : Services) where
  open srv use {Store}

  -- `checkBck` after its two reads: the errors are only logged, and the merge dereferences the
  -- pointers.
  unfoldable pub check_merged :
      MainStorage srv
      → String
      → Check
      → BlobDescription
      → Result CheckInfo
      → Result BlobDescription × Store
      → Result Check × MainStorage srv
  check_merged m id ri b checked (described, t) =
      let read = record m { bck_srv = some t } in
      elim (deref (pointer checked)) [
        | err e ↦ (err e, read)
        | ok bck ↦ elim (deref (pointer described)) [
          | err e ↦ (err e, read)
          | ok bck_b ↦
              (let merged = merge_check ri bck b.hash bck_b.hash in
                let noted =
                  srv.update_blob_description t id (record bck_b { check = some merged }) in
                (ok merged, record m { bck_srv = some noted.1 }))
        ]
      ]

  unfoldable pub check_bck :
      MainStorage srv → String → Check → BlobDescription → Result Check × MainStorage srv
  check_bck m id ri b = elim m.bck_srv [
    | none ↦ (ok ri, m)
    | some bck ↦
        let (checked, t) = srv.check_blob bck id in
        check_merged m id ri b checked (srv.get_blob_description t id)
  ]

  -- The description with the verdict goes to the main storage, whose result is not used.
  unfoldable pub check_noted :
      String
      → BlobDescription
      → CheckInfo
      → Result Check × MainStorage srv
      → Result CheckInfo × MainStorage srv
  check_noted id b info (err e, m) = (err e, m)
  check_noted id b info (ok ri, m) = (
    ok info,
    record m {
      stg_srv = (srv.update_blob_description m.stg_srv id (record b { check = some ri })).1;
    },
  )

  -- the verdict of the main storage alone
  abbrev pub of_main : CheckInfo → Check
  of_main info = record {
    store = some info;
    backup = none;
    healthy = info.healthy;
    message = info.message;
  }

  unfoldable pub check_described :
      MainStorage srv
      → String
      → CheckInfo
      → Result BlobDescription × Store
      → Result CheckInfo × MainStorage srv
  check_described m id info (err e, s) = (err e, record m { stg_srv = s })
  check_described m id info (ok b, s) =
      let ri = of_main info in
      check_noted id b info
        (check_bck (record m { stg_srv = s }) id ri (record b { check = some ri }))

  unfoldable pub checked_main :
      MainStorage srv → String → Result CheckInfo × Store → Result CheckInfo × MainStorage srv
  unfolding check_described
  checked_main m id (err e, s) = (err e, record m { stg_srv = s })
  checked_main m id (ok info, s) = check_described m id info (srv.get_blob_description s id)

  unfoldable pub check_blob : MainStorage srv → String → Result CheckInfo × MainStorage srv
  unfolding checked_main
  check_blob m id = checked_main m id (srv.check_blob m.stg_srv id)

  pub get_all_retentions :
      MainStorage srv
      → (RetentionEntry → Bool)
      → (Result (Unit {0}) × List RetentionEntry) × MainStorage srv
  get_all_retentions m callback =
      let (result, s) = srv.get_all_retentions m.stg_srv callback in
      (result, record m { stg_srv = s })

  pub get_retention : MainStorage srv → String → Result RetentionEntry × MainStorage srv
  get_retention m id =
      let (result, s) = srv.get_retention m.stg_srv id in (result, record m { stg_srv = s })

  -- an operation on the main storage, then on the backup, where an error is only logged
  unfoldable pub on_both :
      (Store → Result (Unit {0}) × Store) → MainStorage srv → Result (Unit {0}) × MainStorage srv
  on_both f m =
      let (result, s) = f m.stg_srv in
      (result, record m { stg_srv = s; bck_srv = Option.map (λ t. (f t).1) m.bck_srv })

  unfoldable pub add_retention :
      MainStorage srv → RetentionEntry → Result (Unit {0}) × MainStorage srv
  add_retention m r = on_both (λ s. srv.add_retention s r) m

  unfoldable pub delete_retention : MainStorage srv → String → Result (Unit {0}) × MainStorage srv
  delete_retention m id = on_both (λ s. srv.delete_retention s id) m

  unfoldable pub reset_retention : MainStorage srv → String → Result (Unit {0}) × MainStorage srv
  reset_retention m id = on_both (λ s. srv.reset_retention s id) m

  unfoldable pub close : MainStorage srv → Result (Unit {0}) × MainStorage srv
  close m = on_both srv.close m
