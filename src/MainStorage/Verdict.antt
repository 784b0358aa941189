-- ===== src/MainStorage/Verdict.antt =====
-- The verdict of CheckBlob (internal/services/business/mainstorage.go) over both copies of a blob.
use go_blob_store.Prelude.{
  String, true, none, some, ◌≡◌, refl, ◌↔◌, str_eq, str_eq_refl, str_eq→eq, Bool-cases, inl, inr,
  arith,
}
use go_blob_store.Model.{BlobDescription, Check, CheckInfo, Error, ok, err}
use go_blob_store.Interfaces.{Services}
use go_blob_store.MainStorage.{MainStorage, nil_pointer}
use go_blob_store.MainStorage.Checking
use go_blob_store.MainStorage.Checking.{deref, pointer}

-- The merged verdict is healthy just if both copies are and their hashes are equal.
pub merge_check-healthy :
    (ri : Check) (bck : CheckInfo) (hash bck_hash : String)
    → ((Checking.merge_check ri bck hash bck_hash).healthy ≡ true)
      ↔ ((ri.healthy ≡ true) × ((bck.healthy ≡ true) × (hash ≡ bck_hash)))
unfolding Checking.merge_check
merge_check-healthy ri bck hash bck_hash = elim (Bool-cases (str_eq hash bck_hash)) [
  | inl e ↦ ground (arith, str_eq→eq hash bck_hash e)
  | inr e ↦ ground (arith, str_eq_refl hash)
]

-- the outcome where there is no backup
pub check_blob-alone :
    (srv : Services) (m : MainStorage srv) (id : String) (info : CheckInfo) (b : BlobDescription)
    → (srv.check_blob m.stg_srv id).0 ≡ ok info
    → (srv.get_blob_description (srv.check_blob m.stg_srv id).1 id).0 ≡ ok b
    → m.bck_srv ≡ none
    → (Checking.check_blob srv m id).0 ≡ ok info
unfolding Checking.check_blob Checking.checked_main Checking.check_described Checking.check_bck
    Checking.check_noted
check_blob-alone srv m id info b checked described alone =
    simp
      (
        checked, described, alone, Checking.check_blob, Checking.checked_main,
        Checking.check_described, Checking.check_bck, Checking.check_noted,
      )
      refl

module _ (srv : Services) (m : MainStorage srv) (id : String) (info : CheckInfo)
    (b : BlobDescription) (bck : srv.Store) where
  -- the outcome where the backup's check gives nothing to merge
  pub check_blob-unchecked :
      (e : Error)
      → (srv.check_blob m.stg_srv id).0 ≡ ok info
      → (srv.get_blob_description (srv.check_blob m.stg_srv id).1 id).0 ≡ ok b
      → m.bck_srv ≡ some bck
      → (srv.check_blob bck id).0 ≡ err e
      → (Checking.check_blob srv m id).0 ≡ err nil_pointer
  unfolding Checking.check_blob Checking.checked_main Checking.check_described Checking.check_bck
      Checking.check_merged Checking.check_noted deref pointer
  check_blob-unchecked e checked described there failed =
      simp
        (
          checked, described, there, failed, Checking.check_blob, Checking.checked_main,
          Checking.check_described, Checking.check_bck, Checking.check_merged, Checking.check_noted,
          deref, pointer,
        )
        refl

  -- and where both of its reads succeed
  pub check_blob-merged :
      (bck_info : CheckInfo) (bck_b : BlobDescription)
      → (srv.check_blob m.stg_srv id).0 ≡ ok info
      → (srv.get_blob_description (srv.check_blob m.stg_srv id).1 id).0 ≡ ok b
      → m.bck_srv ≡ some bck
      → (srv.check_blob bck id).0 ≡ ok bck_info
      → (srv.get_blob_description (srv.check_blob bck id).1 id).0 ≡ ok bck_b
      → (Checking.check_blob srv m id).0 ≡ ok info
  unfolding Checking.check_blob Checking.checked_main Checking.check_described Checking.check_bck
      Checking.check_merged Checking.check_noted deref pointer
  check_blob-merged bck_info bck_b checked described there bck_checked bck_described =
      simp
        (
          checked, described, there, bck_checked, bck_described, Checking.check_blob,
          Checking.checked_main, Checking.check_described, Checking.check_bck,
          Checking.check_merged, Checking.check_noted, deref, pointer,
        )
        refl
