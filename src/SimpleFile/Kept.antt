-- ===== src/SimpleFile/Kept.antt =====
-- The retentions of internal/services/simplefile/simplefileblobstorage.go leave the blobs' bytes, on a
-- disk whose calls do not fail.
use go_blob_store.Prelude.{String, is_some, List, ◌≡◌, refl, ap, ◌∙◌, sym, Option-cases, inl, inr}
use go_blob_store.Model.{BlobDescription, Result-cases, RetentionEntry, Value}
use go_blob_store.Interfaces.Lawful.{bytes_of}
use go_blob_store.SimpleFile
use go_blob_store.SimpleFile.{BlobStorage, Codec}
use go_blob_store.SimpleFile.Cells
use go_blob_store.SimpleFile.Cells.{IsValid, sound_disk}
use go_blob_store.SimpleFile.Removal
use go_blob_store.SimpleFile.Retentions
use go_blob_store.SimpleFile.Retentions.{shared, write_retention_file}

module _ (codec : Codec) where
  -- The storage is valid, and has the same blobs with the same bytes.
  pub record IsKept (s t : BlobStorage) : Type 0 where
    pub valid : IsValid codec t
    pub same :
        (id : String) → bytes_of (Cells.contents codec t id) ≡ bytes_of (Cells.contents codec s id)

  bytes_of-contents :
      (s : BlobStorage) (id : String)
      → IsValid codec s
      → bytes_of (Cells.contents codec s id) ≡ s.bin_v2 id
  bytes_of-contents s id valid = elim (Option-cases (s.bin_v2 id)) [
    | inl empty ↦ rw empty refl
    | inr (c, there) ↦
        (let (b, e) = (valid.entries id).described (ap is_some there) in rw (there, e) refl)
  ]

  IsKept-of_bins :
      (s t : BlobStorage) → IsValid codec s → IsValid codec t → t.bin_v2 ≡ s.bin_v2 → IsKept s t
  IsKept-of_bins s t valid valid' bins = record {
    valid = valid';
    same = λ id.
        bytes_of-contents t id valid' ∙ ap (λ d. d id) bins ∙ sym (bytes_of-contents s id valid);
  }

  shared_bins :
      (s : BlobStorage) (id : String) (ps : List (String × Value))
      → (shared codec sound_disk s id ps).bin_v2 ≡ s.bin_v2
  unfolding shared SimpleFile.cached
  shared_bins s id ps = elim (Option-cases (s.bd_cch id)) [
    | inl miss ↦ simp (miss, shared) refl
    | inr (b, hit) ↦ simp (hit, shared) refl
  ]

  write_retention_bins :
      (s : BlobStorage) (b : BlobDescription)
      → (write_retention_file codec sound_disk s b).1.bin_v2 ≡ s.bin_v2
  unfolding write_retention_file Retentions.build_retention_filename
  write_retention_bins s b = refl

  add_retention_bins :
      (s : BlobStorage) (r : RetentionEntry)
      → (Retentions.add_retention codec sound_disk s r).1.bin_v2 ≡ s.bin_v2
  unfolding Retentions.add_retention
  add_retention_bins s r =
      elim (Result-cases (SimpleFile.get_blob_description codec sound_disk s r.blob_id)) [
        | inr (e, missing) ↦ simp (missing, Retentions.add_retention) refl
        | inl (b, there) ↦
            (let b' = Retentions.with_retention codec sound_disk b r in
              simp (there, Retentions.add_retention)
                (write_retention_bins (shared codec sound_disk s r.blob_id b'.properties) b'
                  ∙ shared_bins s r.blob_id b'.properties))
      ]

  delete_retention_bins :
      (s : BlobStorage) (id : String)
      → (Retentions.delete_retention codec sound_disk s id).1.bin_v2 ≡ s.bin_v2
  unfolding Retentions.delete_retention Retentions.build_retention_filename
  delete_retention_bins s id = refl

  reset_retention_bins :
      (s : BlobStorage) (id : String)
      → (Retentions.reset_retention codec sound_disk s id).1.bin_v2 ≡ s.bin_v2
  unfolding Retentions.reset_retention
  reset_retention_bins s id = elim (Result-cases (Retentions.get_retention codec sound_disk s id)) [
    | inr (e, missing) ↦ simp (missing, Retentions.reset_retention) refl
    | inl (r, there) ↦ simp (there, Retentions.reset_retention) (add_retention_bins s _)
  ]

  pub add_retention-IsKept :
      (s : BlobStorage) (r : RetentionEntry)
      → IsValid codec s
      → IsKept s (Retentions.add_retention codec sound_disk s r).1
  add_retention-IsKept s r valid =
      IsKept-of_bins s _ valid (Removal.add_retention-IsValid codec s r valid)
        (add_retention_bins s r)

  pub delete_retention-IsKept :
      (s : BlobStorage) (id : String)
      → IsValid codec s
      → IsKept s (Retentions.delete_retention codec sound_disk s id).1
  delete_retention-IsKept s id valid =
      IsKept-of_bins s _ valid (Removal.delete_retention-IsValid codec s id valid)
        (delete_retention_bins s id)

  pub reset_retention-IsKept :
      (s : BlobStorage) (id : String)
      → IsValid codec s
      → IsKept s (Retentions.reset_retention codec sound_disk s id).1
  reset_retention-IsKept s id valid =
      IsKept-of_bins s _ valid (Removal.reset_retention-IsValid codec s id valid)
        (reset_retention_bins s id)
