-- ===== src/SimpleFile/Changes.antt =====
-- The updates, deletions and retentions of internal/services/simplefile on a valid storage, whose disk
-- calls do not fail.
use go_blob_store.Prelude.{
  String, true, false, none, some, is_some, ◌≡◌, refl, ◌∙◌, sym, subst, str_eq_refl, Bool-cases,
  Option-cases, inl, inr,
}
use go_blob_store.Model.{BlobDescription, Bytes, Error, Result-cases, ok, err}
use go_blob_store.SimpleFile
use go_blob_store.SimpleFile.{
  BlobStorage, Codec, cached, and_then, if_missing, is_not_exist, write_json,
}
use go_blob_store.SimpleFile.Files.{dir_of, exists, no_such_file, put-same, write_file}
use go_blob_store.SimpleFile.Cells.{
  Cell, cell, accepts, is_plain, IsEntry, IsKeyed, IsValid, sound_disk,
}
use go_blob_store.SimpleFile.Cells
use go_blob_store.SimpleFile.Effects
use go_blob_store.SimpleFile.Effects.{IsChange, with_json, cell_of}
use go_blob_store.SimpleFile.Validity

module _ (codec : Codec) where
  -- the two ways in which an update ends
  pub update_written :
      (s : BlobStorage) (id : String) (b : BlobDescription) (js : Bytes)
      → accepts b.blob_id ≡ true
      → s.directories (dir_of b.blob_id) ≡ true
      → codec.marshal b ≡ ok js
      → SimpleFile.update_blob_description codec sound_disk s id b
        ≡ (ok tt, cached (with_json s b.blob_id (some js)) b.blob_id (some b))
  unfolding SimpleFile.update_blob_description SimpleFile.update_blob_description_v2
      SimpleFile.write_json_file_v2 write_json write_file and_then if_missing
  update_written s id b js ok_id there good =
      simp
        (
          Effects.build_accepted b.blob_id ok_id,
          there,
          good,
          SimpleFile.update_blob_description,
          SimpleFile.update_blob_description_v2,
          SimpleFile.write_json_file_v2,
          write_json,
          write_file,
          and_then,
          if_missing,
        )
        refl

  no_v1 :
      (s : BlobStorage) (id : String) (b : BlobDescription)
      → IsValid codec s
      → SimpleFile.update_blob_description_v1 codec sound_disk s id b ≡ (err Error.not_exist, s)
  unfolding SimpleFile.update_blob_description_v1 SimpleFile.has_blob_v1 exists
  no_v1 s id b valid =
      simp
        (valid.no_bin_v1 id, SimpleFile.update_blob_description_v1, SimpleFile.has_blob_v1, exists)
        refl

  if_missing_same :
      (e : Error) (s : BlobStorage) (id : String) (b : BlobDescription)
      → IsValid codec s
      → (if_missing
          (err e, s)
          (λ t. SimpleFile.update_blob_description_v1 codec sound_disk t id b)).1
        ≡ s
  unfolding if_missing
  if_missing_same e s id b valid = elim (Bool-cases (is_not_exist e)) [
    | inl missing ↦ simp (missing, no_v1 s id b valid, if_missing) refl
    | inr other ↦ simp (other, if_missing) refl
  ]

  pub update_refused :
      (s : BlobStorage) (id : String) (b : BlobDescription)
      → accepts b.blob_id ≡ false
      → IsValid codec s
      → (SimpleFile.update_blob_description codec sound_disk s id b).1 ≡ s
  unfolding SimpleFile.update_blob_description SimpleFile.update_blob_description_v2
      SimpleFile.write_json_file_v2 and_then
  update_refused s id b refused valid =
      simp
        (
          Effects.build_refused b.blob_id refused,
          SimpleFile.update_blob_description,
          SimpleFile.update_blob_description_v2,
          SimpleFile.write_json_file_v2,
          and_then,
        )
        (if_missing_same _ s id b valid)

  pub update_unwritten :
      (s : BlobStorage) (id : String) (b : BlobDescription) (e : Error)
      → accepts b.blob_id ≡ true
      → s.directories (dir_of b.blob_id) ≡ true
      → codec.marshal b ≡ err e
      → IsValid codec s
      → (SimpleFile.update_blob_description codec sound_disk s id b).1 ≡ s
  unfolding SimpleFile.update_blob_description SimpleFile.update_blob_description_v2
      SimpleFile.write_json_file_v2 write_json and_then
  update_unwritten s id b e ok_id there bad valid =
      simp
        (
          Effects.build_accepted b.blob_id ok_id,
          there,
          bad,
          SimpleFile.update_blob_description,
          SimpleFile.update_blob_description_v2,
          SimpleFile.write_json_file_v2,
          write_json,
          and_then,
        )
        (if_missing_same e s id b valid)

  pub update_unplaced :
      (s : BlobStorage) (id : String) (b : BlobDescription)
      → accepts b.blob_id ≡ true
      → s.directories (dir_of b.blob_id) ≡ false
      → IsValid codec s
      → (SimpleFile.update_blob_description codec sound_disk s id b).1 ≡ s
  unfolding SimpleFile.update_blob_description SimpleFile.update_blob_description_v2
      SimpleFile.write_json_file_v2 SimpleFile.without_directory and_then
  update_unplaced s id b ok_id missing valid = elim (Result-cases (codec.marshal b)) [
    | inr (e, bad) ↦
        simp
          (
            Effects.build_accepted b.blob_id ok_id,
            missing,
            bad,
            SimpleFile.update_blob_description,
            SimpleFile.update_blob_description_v2,
            SimpleFile.write_json_file_v2,
            SimpleFile.without_directory,
            and_then,
          )
          (if_missing_same e s id b valid)
    | inl (js, good) ↦
        simp
          (
            Effects.build_accepted b.blob_id ok_id,
            missing,
            good,
            SimpleFile.update_blob_description,
            SimpleFile.update_blob_description_v2,
            SimpleFile.write_json_file_v2,
            SimpleFile.without_directory,
            and_then,
          )
          (if_missing_same no_such_file s id b valid)
  ]

  pub updated-IsChange :
      (s : BlobStorage) (b : BlobDescription) (js : Bytes)
      → IsChange s (cached (with_json s b.blob_id (some js)) b.blob_id (some b)) b.blob_id
  updated-IsChange s b js =
      let t = with_json s b.blob_id (some js) in
      Effects.IsChange-trans s t _ b.blob_id (Effects.with_json-IsChange s b.blob_id (some js))
        (Effects.cached-IsChange t b.blob_id (some b))

  pub updated-cell :
      (s : BlobStorage) (b : BlobDescription) (js : Bytes)
      → cell (cached (with_json s b.blob_id (some js)) b.blob_id (some b)) b.blob_id
        ≡ record { bin = s.bin_v2 b.blob_id; json = some js; cch = some b }
  unfolding cached
  updated-cell s b js =
      cell_of (cached (with_json s b.blob_id (some js)) b.blob_id (some b)) b.blob_id refl
        (put-same s.json_v2 b.blob_id (some js)) (rw (str_eq_refl b.blob_id) refl)

  pub update-IsValid :
      (s : BlobStorage) (id : String) (b : BlobDescription)
      → IsKeyed codec
      → is_plain codec b ≡ true
      → IsValid codec s
      → IsValid codec (SimpleFile.update_blob_description codec sound_disk s id b).1
  update-IsValid s id b law plain valid = elim (Bool-cases (accepts b.blob_id)) [
    | inr refused ↦ subst (IsValid codec) (sym (update_refused s id b refused valid)) valid
    | inl ok_id ↦ elim (Bool-cases (s.directories (dir_of b.blob_id))) [
      | inr missing ↦ subst (IsValid codec) (sym (update_unplaced s id b ok_id missing valid)) valid
      | inl there ↦ elim (Result-cases (codec.marshal b)) [
        | inr (e, bad) ↦
            subst (IsValid codec) (sym (update_unwritten s id b e ok_id there bad valid)) valid
        | inl (js, good) ↦
            subst (λ x. IsValid codec x.1) (sym (update_written s id b js ok_id there good))
              (Validity.IsValid-of_change codec s _ b.blob_id valid (updated-IsChange s b js)
                (λ _. (updated-IsChange s b js).grown (dir_of b.blob_id) there)
                (subst (IsEntry codec b.blob_id) (sym (updated-cell s b js)) (
                  Validity.IsEntry-stored codec b.blob_id (s.bin_v2 b.blob_id) js b law plain ok_id
                    refl good)))
      ]
    ]
  ]

  -- Without files of version 1 a deletion clears the cache and removes the files of version 2.
  pub delete_blob_lem :
      (s : BlobStorage) (id : String)
      → IsValid codec s
      → SimpleFile.delete_blob codec sound_disk s id
        ≡ SimpleFile.delete_files_v2 codec sound_disk (cached s id none) id
  unfolding SimpleFile.delete_blob SimpleFile.delete_files_v1 and_then if_missing is_not_exist
      cached
  delete_blob_lem s id valid =
      simp
        (
          Effects.remove_missing s.bin_v1 id (valid.no_bin_v1 id),
          SimpleFile.delete_blob,
          SimpleFile.delete_files_v1,
          and_then,
          if_missing,
          is_not_exist,
        )
        refl

  -- there are bytes under accepted ids alone
  pub accepts_of_bin :
      (s : BlobStorage) (id : String)
      → IsValid codec s
      → is_some (s.bin_v2 id) ≡ true
      → accepts id ≡ true
  accepts_of_bin s id valid there =
      let entry = valid.entries id in
      let (b, e) = entry.described there in
      elim (Option-cases (s.bd_cch id)) [
        | inr (b', hit) ↦ (entry.cch_keyed b' hit).1
        | inl miss ↦ elim (Option-cases (s.json_v2 id)) [
          | inl nothing ↦ absurd (cc (nothing, entry.has_json there))
          | inr (js, on_disk) ↦ (entry.json_keyed js b on_disk (on_disk_found js miss on_disk e)).1
        ]
      ]
    where
      on_disk_found :
          (js : Bytes) {b : BlobDescription}
          → s.bd_cch id ≡ none
          → s.json_v2 id ≡ some js
          → Cells.found codec (s.bd_cch id) (s.json_v2 id) ≡ ok b
          → codec.unmarshal js ≡ ok b
      on_disk_found js miss on_disk e = sym (rw (miss, on_disk) refl) ∙ e
