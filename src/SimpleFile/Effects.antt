-- ===== src/SimpleFile/Effects.antt =====
-- What the deletion of a blob's files and a store (internal/services/simplefile/simpleblobv2.go) do
-- to the files, on a disk whose calls do not fail.
use go_blob_store.Prelude.{
  String, true, false, Option, none, some, ◌≡◌, refl, ap, ◌∙◌, sym, str_eq, subst, Option-cases,
  inl, inr, arith,
}
use go_blob_store.Model.{BlobDescription, Bytes, Error, ok, err}
use go_blob_store.FastCache.{slice_bounds}
use go_blob_store.SimpleFile
use go_blob_store.SimpleFile.{BlobStorage, Codec, cached, with_directory}
use go_blob_store.SimpleFile.Files.{Dir, put, remove, put-same, put-other, build_filename_v2}
use go_blob_store.SimpleFile.Cells.{cell, accepts, no_failures, sound_disk}

pub build_accepted : (id : String) → accepts id ≡ true → build_filename_v2 id ≡ ok tt
unfolding build_filename_v2
build_accepted id h = ground arith

pub build_refused : (id : String) → accepts id ≡ false → build_filename_v2 id ≡ err slice_bounds
unfolding build_filename_v2
build_refused id h = ground arith

pub remove_missing :
    (dir : Dir) (id : String)
    → dir id ≡ none
    → remove no_failures dir id ≡ (err Error.not_exist, dir)
unfolding remove
remove_missing dir id e = simp (e, remove) refl

pub remove_found :
    (dir : Dir) (id : String) (c : Bytes)
    → dir id ≡ some c
    → remove no_failures dir id ≡ (ok tt, put dir id none)
unfolding remove
remove_found dir id c e = simp (e, remove) refl

-- At most the blob `id` has changed, no file of version 1, and no directory is lost.
pub record IsChange (s t : BlobStorage) (id : String) : Type 0 where
  pub bins_v1 : t.bin_v1 ≡ s.bin_v1
  pub jsons_v1 : t.json_v1 ≡ s.json_v1
  pub others : (j : String) → str_eq id j ≡ false → cell t j ≡ cell s j
  pub grown : (d : String) → s.directories d ≡ true → t.directories d ≡ true

pub IsChange-refl : (s : BlobStorage) (id : String) → IsChange s s id
IsChange-refl s id = record {
  bins_v1 = refl;
  jsons_v1 = refl;
  others = λ j other. refl;
  grown = λ d h. h;
}

pub IsChange-trans :
    (s t u : BlobStorage) (id : String) → IsChange s t id → IsChange t u id → IsChange s u id
IsChange-trans s t u id f g = record {
  bins_v1 = g.bins_v1 ∙ f.bins_v1;
  jsons_v1 = g.jsons_v1 ∙ f.jsons_v1;
  others = λ j other. g.others j other ∙ f.others j other;
  grown = λ d h. g.grown d (f.grown d h);
}

abbrev pub with_bin : BlobStorage → String → Option Bytes → BlobStorage
with_bin s id bin = record s { bin_v2 = put s.bin_v2 id bin }

abbrev pub with_json : BlobStorage → String → Option Bytes → BlobStorage
with_json s id json = record s { json_v2 = put s.json_v2 id json }

pub with_bin-IsChange :
    (s : BlobStorage) (id : String) (bin : Option Bytes) → IsChange s (with_bin s id bin) id
with_bin-IsChange s id bin = record {
  bins_v1 = refl;
  jsons_v1 = refl;
  others = λ j other. rw (put-other s.bin_v2 id j bin other) refl;
  grown = λ d h. h;
}

pub with_json-IsChange :
    (s : BlobStorage) (id : String) (json : Option Bytes) → IsChange s (with_json s id json) id
with_json-IsChange s id json = record {
  bins_v1 = refl;
  jsons_v1 = refl;
  others = λ j other. rw (put-other s.json_v2 id j json other) refl;
  grown = λ d h. h;
}

pub cached-IsChange :
    (s : BlobStorage) (id : String) (b : Option BlobDescription) → IsChange s (cached s id b) id
unfolding cached
cached-IsChange s id b = record {
  bins_v1 = refl;
  jsons_v1 = refl;
  others = λ j other. rw other refl;
  grown = λ d h. h;
}

pub with_retentions-IsChange :
    (s : BlobStorage) (id : String) (dir : Dir) → IsChange s (record s { retentions = dir }) id
with_retentions-IsChange s id dir = record {
  bins_v1 = refl;
  jsons_v1 = refl;
  others = λ j other. refl;
  grown = λ d h. h;
}

pub with_directory-IsChange : (s : BlobStorage) (id j : String) → IsChange s (with_directory s id) j
with_directory-IsChange s id j = record {
  bins_v1 = refl;
  jsons_v1 = refl;
  others = λ j other. refl;
  grown = λ d h. ground arith;
}

-- the cell of a blob from its parts
pub cell_of :
    (t : BlobStorage) (id : String) {bin json : Option Bytes} {cch : Option BlobDescription}
    → t.bin_v2 id ≡ bin
    → t.json_v2 id ≡ json
    → t.bd_cch id ≡ cch
    → cell t id ≡ record { bin = bin; json = json; cch = cch }
cell_of t id p q r = rw (p, q, r) refl

module _ (codec : Codec) where
  -- Only the retention may be lost, whether there is one or not.
  remove_retention_lem :
      (s : BlobStorage) (id : String)
      → (dir : Dir) × (SimpleFile.forgiven (SimpleFile.remove_retention codec sound_disk s id)
          ≡ (ok tt, record s { retentions = dir }))
  unfolding SimpleFile.forgiven SimpleFile.remove_retention SimpleFile.is_not_exist
  remove_retention_lem s id = elim (Option-cases (s.retentions id)) [
    | inl e ↦ (s.retentions, rw (remove_missing s.retentions id e) refl)
    | inr (c, e) ↦ (put s.retentions id none, rw (remove_found s.retentions id c e) refl)
  ]

  pub delete_files_v2_missing :
      (s : BlobStorage) (id : String)
      → accepts id ≡ true
      → s.bin_v2 id ≡ none
      → SimpleFile.delete_files_v2 codec sound_disk s id ≡ (err Error.not_exist, s)
  unfolding SimpleFile.delete_files_v2 SimpleFile.and_then
  delete_files_v2_missing s id valid e =
      simp
        (
          build_accepted id valid,
          remove_missing s.bin_v2 id e,
          SimpleFile.delete_files_v2,
          SimpleFile.and_then,
        )
        refl

  -- The files are gone, and with them at most the retention.
  pub delete_files_v2_found :
      (s : BlobStorage) (id : String) (c js : Bytes)
      → accepts id ≡ true
      → s.bin_v2 id ≡ some c
      → s.json_v2 id ≡ some js
      → (dir : Dir) × (SimpleFile.delete_files_v2 codec sound_disk s id
          ≡ (ok tt, record (with_json (with_bin s id none) id none) { retentions = dir }))
  unfolding SimpleFile.delete_files_v2 SimpleFile.and_then
  delete_files_v2_found s id c js valid bin json =
      let (dir, e) = remove_retention_lem (with_json (with_bin s id none) id none) id in
      (
        dir,
        simp
            (
              build_accepted id valid,
              remove_found s.bin_v2 id c bin,
              remove_found s.json_v2 id js json,
              SimpleFile.delete_files_v2,
              SimpleFile.and_then,
            )
            e,
      )

  delete_files_v2_bin_only :
      (s : BlobStorage) (id : String) (c : Bytes)
      → accepts id ≡ true
      → s.bin_v2 id ≡ some c
      → s.json_v2 id ≡ none
      → SimpleFile.delete_files_v2 codec sound_disk s id ≡ (err Error.not_exist, with_bin s id none)
  unfolding SimpleFile.delete_files_v2 SimpleFile.and_then
  delete_files_v2_bin_only s id c valid bin json =
      simp
        (
          build_accepted id valid,
          remove_found s.bin_v2 id c bin,
          remove_missing s.json_v2 id json,
          SimpleFile.delete_files_v2,
          SimpleFile.and_then,
        )
        refl

  -- The files of the blob are gone, and its cached description stays.
  pub record IsEmptied (s t : BlobStorage) (id : String) : Type 0 where
    pub change : IsChange s t id
    pub emptied : cell t id ≡ record { bin = none; json = none; cch = s.bd_cch id }

  pub delete_files_v2-IsEmptied :
      (s : BlobStorage) (id : String) (c : Bytes)
      → accepts id ≡ true
      → s.bin_v2 id ≡ some c
      → IsEmptied s (SimpleFile.delete_files_v2 codec sound_disk s id).1 id
  delete_files_v2-IsEmptied s id c valid bin = elim (Option-cases (s.json_v2 id)) [
    | inl json ↦
        subst (λ t. IsEmptied s t id)
          (sym (ap (λ x. x.1) (delete_files_v2_bin_only s id c valid bin json)))
          (record {
            change = with_bin-IsChange s id none;
            emptied = cell_of (with_bin s id none) id (put-same s.bin_v2 id none) json refl;
          })
    | inr (js, json) ↦
        (let (dir, e) = delete_files_v2_found s id c js valid bin json in
          let t = with_json (with_bin s id none) id none in
          let u : BlobStorage = record t { retentions = dir } in
          subst (λ t. IsEmptied s t id) (sym (ap (λ x. x.1) e))
            (record {
              change =
                  IsChange-trans s t u id
                    (IsChange-trans s (with_bin s id none) t id (with_bin-IsChange s id none)
                      (with_json-IsChange (with_bin s id none) id none))
                    (with_retentions-IsChange t id dir);
              emptied = cell_of u id (put-same s.bin_v2 id none) (put-same s.json_v2 id none) refl;
            }))
  ]
