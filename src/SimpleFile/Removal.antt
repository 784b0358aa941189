-- ===== src/SimpleFile/Removal.antt =====
-- The deletions and the retentions of internal/services/simplefile keep a storage valid, on a disk
-- whose calls do not fail.
use mathlib.Core.Option
use go_blob_store.Prelude.{
  String, true, Option, none, some, is_some, ◌≡◌, refl, ap, ◌∙◌, sym, subst, List, str_eq_refl,
  Bool-cases, Option-cases, inl, inr,
}
use go_blob_store.Model.{BlobDescription, Bytes, Result-cases, RetentionEntry, Value}
use go_blob_store.SimpleFile
use go_blob_store.SimpleFile.{BlobStorage, Codec, cached, write_json}
use go_blob_store.SimpleFile.Files.{Dir, dir_of}
use go_blob_store.SimpleFile.Cells.{Cell, cell, accepts, IsEntry, IsValid, sound_disk}
use go_blob_store.SimpleFile.Changes
use go_blob_store.SimpleFile.Effects
use go_blob_store.SimpleFile.Effects.{IsChange, cell_of}
use go_blob_store.SimpleFile.Retentions
use go_blob_store.SimpleFile.Retentions.{shared, write_retention_file}
use go_blob_store.SimpleFile.Validity

module _ (codec : Codec) where
  pub cached-same :
      (s : BlobStorage) (id : String) (b : Option BlobDescription) → (cached s id b).bd_cch id ≡ b
  unfolding cached
  cached-same s id b = rw (str_eq_refl id) refl

  pub cached_files :
      (s : BlobStorage) (id : String) (b : Option BlobDescription)
      → ((cached s id b).bin_v2 ≡ s.bin_v2) × ((cached s id b).json_v2 ≡ s.json_v2)
  unfolding cached
  cached_files s id b = (refl, refl)

  uncached-cell :
      (s : BlobStorage) (id : String)
      → cell (cached s id none) id ≡ record { bin = s.bin_v2 id; json = s.json_v2 id; cch = none }
  uncached-cell s id =
      let (bins, jsons) = cached_files s id none in
      cell_of (cached s id none) id (ap (λ d. d id) bins) (ap (λ d. d id) jsons)
        (cached-same s id none)

  -- where there are no bytes, the cached description is lost alone
  uncached-IsValid :
      (s : BlobStorage) (id : String)
      → IsValid codec s
      → s.bin_v2 id ≡ none
      → IsValid codec (cached s id none)
  uncached-IsValid s id valid empty =
      Validity.IsValid-of_change codec s (cached s id none) id valid
        (Effects.cached-IsChange s id none)
        (λ there. absurd (cc (ap (λ d. d id) (cached_files s id none).0, there, empty)))
        (subst (IsEntry codec id) (sym (uncached-cell s id ∙ cell_of_none)) (
          Validity.IsEntry-emptied codec id (s.json_v2 id) (s.json_v2 id) (s.bd_cch id) none
            (λ js e. e) (λ b e. absurd (cc (e))) (s.bin_v2 id) (valid.entries id)))
    where
      cell_of_none :
          Path Cell
            (record { bin = s.bin_v2 id; json = s.json_v2 id; cch = none })
            (record { bin = none; json = s.json_v2 id; cch = none })
      cell_of_none = rw empty refl

  -- the files after a deletion: the blob is gone, and at most this one has changed
  pub delete-IsEmptied :
      (s : BlobStorage) (id : String) (c : Bytes)
      → IsValid codec s
      → s.bin_v2 id ≡ some c
      → Effects.IsEmptied codec
          (cached s id none)
          (SimpleFile.delete_files_v2 codec sound_disk (cached s id none) id).1
          id
  delete-IsEmptied s id c valid there =
      Effects.delete_files_v2-IsEmptied codec (cached s id none) id c
        (Changes.accepts_of_bin codec s id valid (ap is_some there))
        (ap (λ d. d id) (cached_files s id none).0 ∙ there)

  -- The deletion of an id without bytes leaves all files.
  pub delete_missing :
      (s : BlobStorage) (id : String)
      → s.bin_v2 id ≡ none
      → (SimpleFile.delete_files_v2 codec sound_disk (cached s id none) id).1 ≡ cached s id none
  unfolding SimpleFile.delete_files_v2
  delete_missing s id empty = elim (Bool-cases (accepts id)) [
    | inl ok_id ↦
        ap (λ x. x.1)
          (Effects.delete_files_v2_missing codec (cached s id none) id ok_id
            (ap (λ d. d id) (cached_files s id none).0 ∙ empty))
    | inr refused ↦ simp (Effects.build_refused id refused, SimpleFile.delete_files_v2) refl
  ]

  deleted-IsValid :
      (s : BlobStorage) (id : String) (c : Bytes)
      → IsValid codec s
      → s.bin_v2 id ≡ some c
      → IsValid codec (SimpleFile.delete_files_v2 codec sound_disk (cached s id none) id).1
  deleted-IsValid s id c valid there =
      let t = cached s id none in
      let done = delete-IsEmptied s id c valid there in
      Validity.IsValid-of_change codec s _ id valid
        (Effects.IsChange-trans s t _ id (Effects.cached-IsChange s id none) done.change)
        (λ h. absurd (cc (ap (λ e. e.bin) done.emptied, h)))
        (subst (IsEntry codec id) (sym done.emptied) (
          Validity.IsEntry-emptied codec id (s.json_v2 id) none (s.bd_cch id) (t.bd_cch id)
            (λ js e. absurd (cc (e))) (λ b e. absurd (cc (e, cached-same s id none))) (s.bin_v2 id)
            (valid.entries id)))

  pub delete_blob-IsValid :
      (s : BlobStorage) (id : String)
      → IsValid codec s
      → IsValid codec (SimpleFile.delete_blob codec sound_disk s id).1
  delete_blob-IsValid s id valid =
      subst (λ x. IsValid codec x.1) (sym (Changes.delete_blob_lem codec s id valid))
        (elim (Option-cases (s.bin_v2 id)) [
          | inl empty ↦
              subst (IsValid codec) (sym (delete_missing s id empty))
                (uncached-IsValid s id valid empty)
          | inr (c, there) ↦ deleted-IsValid s id c valid there
        ])

  pub delete_blob-IsChange :
      (s : BlobStorage) (id : String)
      → IsValid codec s
      → IsChange s (SimpleFile.delete_blob codec sound_disk s id).1 id
  delete_blob-IsChange s id valid =
      let t = cached s id none in
      subst (λ x. IsChange s x.1 id) (sym (Changes.delete_blob_lem codec s id valid))
        (elim (Option-cases (s.bin_v2 id)) [
          | inl empty ↦
              subst (λ u. IsChange s u id) (sym (delete_missing s id empty))
                (Effects.cached-IsChange s id none)
          | inr (c, there) ↦
              Effects.IsChange-trans s t _ id (Effects.cached-IsChange s id none)
                (delete-IsEmptied s id c valid there).change
        ])

  -- a change of the retentions alone
  pub with_retentions-IsValid :
      (s : BlobStorage) (dir : Dir)
      → IsValid codec s
      → IsValid codec (record s { retentions = dir })
  with_retentions-IsValid s dir valid = record {
    no_bin_v1 = valid.no_bin_v1;
    no_json_v1 = valid.no_json_v1;
    entries = valid.entries;
    placed = valid.placed;
  }

  pub delete_retention-IsValid :
      (s : BlobStorage) (id : String)
      → IsValid codec s
      → IsValid codec (Retentions.delete_retention codec sound_disk s id).1
  unfolding Retentions.delete_retention Retentions.build_retention_filename
  delete_retention-IsValid s id valid = with_retentions-IsValid s _ valid

  -- other properties of a cached description
  changed-IsEntry :
      (s : BlobStorage) (id : String) (b : BlobDescription) (ps : List (String × Value))
      → s.bd_cch id ≡ some b
      → IsValid codec s
      → IsEntry codec id (record {
        bin = s.bin_v2 id;
        json = s.json_v2 id;
        cch = some (record b { properties = ps });
      })
  changed-IsEntry s id b ps hit valid =
      let entry = valid.entries id in
      record {
        has_json = entry.has_json;
        described = λ _. (record b { properties = ps }, refl);
        json_keyed = entry.json_keyed;
        cch_keyed = λ b' e. (
          ap (λ x. x.blob_id) (sym (Option.some-injective (record b { properties = ps }) b' e))
              ∙ (entry.cch_keyed b hit).0,
          (entry.cch_keyed b hit).1,
        );
      }

  shared-IsValid :
      (s : BlobStorage) (id : String) (ps : List (String × Value))
      → IsValid codec s
      → IsValid codec (shared codec sound_disk s id ps)
  unfolding shared
  shared-IsValid s id ps valid = elim (Option-cases (s.bd_cch id)) [
    | inl miss ↦ simp (miss, shared) valid
    | inr (b, hit) ↦
        simp (hit, shared)
          (Validity.IsValid-of_change codec s (cached s id (some (record b { properties = ps }))) id
            valid (Effects.cached-IsChange s id (some (record b { properties = ps })))
            (changed_placed (some (record b { properties = ps })))
            (subst (IsEntry codec id) (sym (changed-cell (some (record b { properties = ps }))))
              (changed-IsEntry s id b ps hit valid)))
  ]
    where
      changed_placed :
          (cch : Option BlobDescription)
          → is_some ((cached s id cch).bin_v2 id) ≡ true
          → (cached s id cch).directories (dir_of id) ≡ true
      changed_placed cch there =
          (Effects.cached-IsChange s id cch).grown (dir_of id)
            (valid.placed id (sym (ap (λ d. is_some (d id)) (cached_files s id cch).0) ∙ there))

      changed-cell :
          (cch : Option BlobDescription)
          → cell (cached s id cch) id ≡ record { bin = s.bin_v2 id; json = s.json_v2 id; cch = cch }
      changed-cell cch =
          let (bins, jsons) = cached_files s id cch in
          cell_of (cached s id cch) id (ap (λ d. d id) bins) (ap (λ d. d id) jsons)
            (cached-same s id cch)

  write_retention-IsValid :
      (s : BlobStorage) (b : BlobDescription)
      → IsValid codec s
      → IsValid codec (write_retention_file codec sound_disk s b).1
  unfolding write_retention_file Retentions.build_retention_filename
  write_retention-IsValid s b valid = with_retentions-IsValid s _ valid

  pub add_retention-IsValid :
      (s : BlobStorage) (r : RetentionEntry)
      → IsValid codec s
      → IsValid codec (Retentions.add_retention codec sound_disk s r).1
  unfolding Retentions.add_retention
  add_retention-IsValid s r valid =
      elim (Result-cases (SimpleFile.get_blob_description codec sound_disk s r.blob_id)) [
        | inr (e, missing) ↦ simp (missing, Retentions.add_retention) valid
        | inl (b, there) ↦
            (let b' = Retentions.with_retention codec sound_disk b r in
              simp (there, Retentions.add_retention)
                (write_retention-IsValid (shared codec sound_disk s r.blob_id b'.properties) b'
                  (shared-IsValid s r.blob_id b'.properties valid)))
      ]

  pub reset_retention-IsValid :
      (s : BlobStorage) (id : String)
      → IsValid codec s
      → IsValid codec (Retentions.reset_retention codec sound_disk s id).1
  unfolding Retentions.reset_retention
  reset_retention-IsValid s id valid =
      elim (Result-cases (Retentions.get_retention codec sound_disk s id)) [
        | inr (e, missing) ↦ simp (missing, Retentions.reset_retention) valid
        | inl (r, there) ↦
            simp (there, Retentions.reset_retention) (add_retention-IsValid s _ valid)
      ]
