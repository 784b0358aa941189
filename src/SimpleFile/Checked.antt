-- ===== src/SimpleFile/Checked.antt =====
-- CheckBlob of a tenant's storage (internal/services/business/mainstorage.go) whose main storage and
-- backup are simple file storages (internal/services/simplefile), on disks whose calls do not fail.
use go_blob_store.Prelude.{
  String, true, Option, none, some, is_some, if◌then◌else◌, ◌≡◌, ap, ◌∙◌, sym, Option-cases, inl,
  inr,
}
use go_blob_store.Model.{CheckInfo, Error, Result, ok, err}
use go_blob_store.Interfaces.{Services}
use go_blob_store.Interfaces.Lawful.{Blob}
use go_blob_store.MainStorage.{MainStorage, nil_pointer}
use go_blob_store.MainStorage.Checking
use go_blob_store.MainStorage.Verdict
use go_blob_store.SimpleFile.{BlobStorage, Codec, Walk}
use go_blob_store.SimpleFile.Cells
use go_blob_store.SimpleFile.Cells.{accepts, IsValid, sound_disk}
use go_blob_store.SimpleFile.Contents
use go_blob_store.SimpleFile.Refinement
use go_blob_store.SimpleFile.Refinement.{verdict, verdict_of}
use go_blob_store.SimpleFile.Service.{simple_file}

module _ (codec : Codec) where
  -- the outcome by the backup and the main storage's blob
  abbrev pub outcome : Option BlobStorage → String → Blob → Result CheckInfo
  outcome none id blob = ok (verdict codec blob)
  outcome (some bck) id blob =
      if is_some (Cells.contents codec bck id) then ok (verdict codec blob) else err nil_pointer

  with_backup :
      (walk : Walk) (others : Services) (m : MainStorage (simple_file codec sound_disk walk others))
      (bck : BlobStorage) (id : String) (blob : Blob)
      → accepts id ≡ true
      → IsValid codec m.stg_srv
      → m.bck_srv ≡ some bck
      → IsValid codec bck
      → Cells.contents codec m.stg_srv id ≡ some blob
      → (Checking.check_blob (simple_file codec sound_disk walk others) m id).0
        ≡ outcome (some bck) id blob
  with_backup walk others m bck id blob ok_id valid backed valid' there =
      let srv = simple_file codec sound_disk walk others in
      let main =
        Refinement.check_lem codec m.stg_srv id ok_id valid ∙ ap (verdict_of codec) there in
      let described = Contents.found_description codec m.stg_srv id blob valid there in
      let copied = Refinement.check_lem codec bck id ok_id valid' in
      elim (Option-cases (Cells.contents codec bck id)) [
        | inl absent ↦ rw absent (
            Verdict.check_blob-unchecked srv m id (verdict codec blob) blob.0 bck Error.not_exist
              main described backed (copied ∙ ap (verdict_of codec) absent))
        | inr (copy, here) ↦ rw here (
            Verdict.check_blob-merged srv m id (verdict codec blob) blob.0 bck (verdict codec copy)
              copy.0 main described backed (copied ∙ ap (verdict_of codec) here)
              (Contents.found_description codec bck id copy valid' here))
      ]

  -- Where the main storage and the backup, if there is one, are valid simple file storages, and the
  -- main storage has the blob, CheckBlob gives the main storage's verdict on its bytes where there is
  -- no backup, and where the backup has the blob, in whatever state that copy is, and panics where the
  -- backup lacks it.
  pub check_blob-simple_file :
      (walk : Walk) (others : Services) (m : MainStorage (simple_file codec sound_disk walk others))
      (id : String) (blob : Blob)
      → accepts id ≡ true
      → IsValid codec m.stg_srv
      → ((bck : BlobStorage) → m.bck_srv ≡ some bck → IsValid codec bck)
      → Cells.contents codec m.stg_srv id ≡ some blob
      → (Checking.check_blob (simple_file codec sound_disk walk others) m id).0
        ≡ outcome m.bck_srv id blob
  check_blob-simple_file walk others m id blob ok_id valid valid_backup there =
      elim (Option-cases m.bck_srv) [
        | inl alone ↦
            Verdict.check_blob-alone (simple_file codec sound_disk walk others) m id
              (verdict codec blob) blob.0
              (Refinement.check_lem codec m.stg_srv id ok_id valid ∙ ap (verdict_of codec) there)
              (Contents.found_description codec m.stg_srv id blob valid there) alone
            ∙ sym (ap (λ o. outcome o id blob) alone)
        | inr (bck, backed) ↦
            with_backup walk others m bck id blob ok_id valid backed (valid_backup bck backed) there
            ∙ sym (ap (λ o. outcome o id blob) backed)
      ]
