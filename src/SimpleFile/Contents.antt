-- ===== src/SimpleFile/Contents.antt =====
-- What the operations of internal/services/simplefile do to the map from ids to blobs that a valid
-- storage stands for, on a disk whose calls do not fail.
use go_blob_store.Prelude.{
  String, true, false, Option, none, some, is_some, ◌≡◌, refl, ap, ◌∙◌, sym, subst, str_eq,
  str_eq→eq, if◌then◌else◌, Bool-cases, Option-cases, inl, inr, ltb_ℤ, pos, arith,
}
use go_blob_store.Model.{BlobDescription, Bytes, Error, Reader, ok, err}
use go_blob_store.Interfaces.Lawful.{Blob, Fits, sound}
use go_blob_store.SimpleFile
use go_blob_store.SimpleFile.{BlobStorage, Codec, cached, with_directory}
use go_blob_store.SimpleFile.Files.{dir_of}
use go_blob_store.SimpleFile.Cells
use go_blob_store.SimpleFile.Cells.{
  Cell, cell, accepts, as_blob, found, IsKeyed, IsValid, sound_disk,
}
use go_blob_store.SimpleFile.Answers
use go_blob_store.SimpleFile.Changes
use go_blob_store.SimpleFile.Effects
use go_blob_store.SimpleFile.Effects.{IsChange}
use go_blob_store.SimpleFile.Removal
use go_blob_store.SimpleFile.Storing
use go_blob_store.SimpleFile.Validity

module _ (codec : Codec) where
  -- the blob of a cell
  abbrev blob_of : Cell → Option Blob
  blob_of e = as_blob e.bin (found codec e.cch e.json)

  pub contents-change :
      (s t : BlobStorage) (id j : String)
      → IsChange s t id
      → str_eq id j ≡ false
      → Cells.contents codec t j ≡ Cells.contents codec s j
  contents-change s t id j change other = ap blob_of (change.others j other)

  pub not_named : (b : BlobDescription) → accepts b.blob_id ≡ true → SimpleFile.named codec b ≡ b
  unfolding SimpleFile.named
  not_named b ok_id = simp (Answers.not_empty b.blob_id ok_id, SimpleFile.named) refl

  -- a length that fits is not refused
  right_length : (b : BlobDescription) (c : Bytes) → Fits b c → Storing.is_wrong b c ≡ false
  unfolding SimpleFile.differs
  right_length b c fits = elim (Bool-cases (ltb_ℤ (pos 0) b.content_length)) [
    | inr none_stated ↦ rw none_stated refl
    | inl stated ↦ rw (stated, fits stated) (ground arith)
  ]

  -- the files after a successful store
  abbrev pub stored : BlobStorage → BlobDescription → Bytes → Bytes → BlobStorage
  stored s b c js =
      Validity.filed codec (with_directory s b.blob_id) b.blob_id c js (Storing.measured codec b c)

  pub store_lem :
      (s : BlobStorage) (b : BlobDescription) (c js : Bytes)
      → accepts b.blob_id ≡ true
      → Fits b c
      → codec.marshal (Storing.measured codec b c) ≡ ok js
      → SimpleFile.store_blob_v2 codec sound_disk s b (sound c)
        ≡ ((ok b.blob_id, Storing.measured codec b c), stored s b c js)
  unfolding SimpleFile.store_blob_v2
  store_lem s b c js ok_id fits good =
      simp (not_named b ok_id, SimpleFile.store_blob_v2)
        (Storing.store_whole codec s b (sound c) js ok_id refl (right_length b c fits) good)

  pub stored-contents :
      (s : BlobStorage) (b : BlobDescription) (c js : Bytes)
      → Cells.contents codec (stored s b c js) b.blob_id ≡ some (Storing.measured codec b c, c)
  stored-contents s b c js =
      ap blob_of (Validity.stored-cell codec s b c js (Storing.measured codec b c))

  pub store_blob-IsChange :
      (s : BlobStorage) (b : BlobDescription) (r : Reader)
      → accepts b.blob_id ≡ true
      → IsChange s (SimpleFile.store_blob_v2 codec sound_disk s b r).1 b.blob_id
  unfolding SimpleFile.store_blob_v2
  store_blob-IsChange s b r ok_id =
      simp (not_named b ok_id, SimpleFile.store_blob_v2) (Validity.store_named-IsChange codec s b r)

  -- the map with what is under an id
  abbrev pub set : (String → Option Blob) → String → Option Blob → String → Option Blob
  set m id blob j = if str_eq id j then blob else m j

  -- a change of one blob changes the map at its id
  pub contents-set :
      (s t : BlobStorage) (id : String) {blob : Option Blob}
      → IsChange s t id
      → Cells.contents codec t id ≡ blob
      → (j : String) → Cells.contents codec t j ≡ set (Cells.contents codec s) id blob j
  contents-set s t id {blob = blob} change here j = elim (Bool-cases (str_eq id j)) [
    | inr other ↦ rw other (contents-change s t id j change other)
    | inl same ↦ rw same (subst (λ i. Cells.contents codec t i ≡ blob) (str_eq→eq id j same) here)
  ]

  pub found_description :
      (s : BlobStorage) (id : String) (blob : Blob)
      → IsValid codec s
      → Cells.contents codec s id ≡ some blob
      → SimpleFile.get_blob_description codec sound_disk s id ≡ ok blob.0
  found_description s id blob valid e =
      let (bin, described) = Answers.parts_of_contents codec s id blob e in
      Answers.get_blob_description_lem codec s id
        (Changes.accepts_of_bin codec s id valid (ap is_some bin)) valid
      ∙ described

  pub no_bin :
      (s : BlobStorage) (id : String)
      → IsValid codec s
      → Cells.contents codec s id ≡ none
      → s.bin_v2 id ≡ none
  no_bin s id valid e = elim (Option-cases (s.bin_v2 id)) [
    | inl empty ↦ empty
    | inr (c, there) ↦
        absurd (cc (Answers.contents_of_bin codec s id valid, ap is_some e, ap is_some there))
  ]

  pub deleted :
      (s : BlobStorage) (id : String) (blob : Blob)
      → IsValid codec s
      → Cells.contents codec s id ≡ some blob
      → let outcome = SimpleFile.delete_blob codec sound_disk s id in
        (outcome.0 ≡ ok tt) × (Cells.contents codec outcome.1 id ≡ none)
  deleted s id blob valid e =
      let (bin, _) = Answers.parts_of_contents codec s id blob e in
      let there = ap (λ d. d id) (Removal.cached_files codec s id none).0 ∙ bin in
      let ok_id = Changes.accepts_of_bin codec s id valid (ap is_some bin) in
      elim (Option-cases (s.json_v2 id)) [
        | inl nothing ↦ absurd (cc (nothing, (valid.entries id).has_json (ap is_some bin)))
        | inr (js, json) ↦ rw (Changes.delete_blob_lem codec s id valid) (
          ap (λ x. x.0)
              (Effects.delete_files_v2_found codec (cached s id none) id blob.1 js ok_id there
                (ap (λ d. d id) (Removal.cached_files codec s id none).1 ∙ json)).1,
          ap blob_of (Removal.delete-IsEmptied codec s id blob.1 valid bin).emptied,
        )
      ]

  -- a deletion of what is not there
  pub delete_missing :
      (s : BlobStorage) (id : String)
      → accepts id ≡ true
      → IsValid codec s
      → Cells.contents codec s id ≡ none
      → let outcome = SimpleFile.delete_blob codec sound_disk s id in
        (outcome.0 ≡ err Error.not_exist) × (Cells.contents codec outcome.1 id ≡ none)
  delete_missing s id ok_id valid absent =
      let there =
        ap (λ d. d id) (Removal.cached_files codec s id none).0 ∙ no_bin s id valid absent in
      rw
        (
          Changes.delete_blob_lem codec s id valid,
          Effects.delete_files_v2_missing codec (cached s id none) id ok_id there,
        )
        (
          refl,
          ap
              (λ bin.
                as_blob bin
                  (found codec ((cached s id none).bd_cch id) ((cached s id none).json_v2 id)))
              there,
        )

  abbrev pub updated : BlobStorage → BlobDescription → Bytes → BlobStorage
  updated s b js = cached (Effects.with_json s b.blob_id (some js)) b.blob_id (some b)

  abbrev pub redescribed : BlobDescription → Option Blob → Option Blob
  redescribed b none = none
  redescribed b (some blob) = some (b, blob.1)

  -- an update changes the description of its blob, if there is one
  updated-contents :
      (s : BlobStorage) (b : BlobDescription) (js : Bytes)
      → IsValid codec s
      → Cells.contents codec (updated s b js) b.blob_id
        ≡ redescribed b (Cells.contents codec s b.blob_id)
  updated-contents s b js valid =
      ap blob_of (Changes.updated-cell codec s b js)
      ∙ (elim (Option-cases (Cells.contents codec s b.blob_id)) [
        | inl absent ↦ rw (absent, no_bin s b.blob_id valid absent) refl
        | inr (blob, there) ↦
            rw (there, (Answers.parts_of_contents codec s b.blob_id blob there).0) refl
      ])

  -- nothing changes if what is there is put there
  set-same :
      (m : String → Option Blob) (id j : String) {blob : Option Blob}
      → m id ≡ blob
      → m j ≡ set m id blob j
  set-same m id j here = elim (Bool-cases (str_eq id j)) [
    | inr other ↦ rw other refl
    | inl same ↦ rw same (sym (ap m (str_eq→eq id j same)) ∙ here)
  ]

  -- there is a directory where there is a blob
  has_directory :
      (s : BlobStorage) (id : String) (blob : Blob)
      → IsValid codec s
      → Cells.contents codec s id ≡ some blob
      → s.directories (dir_of id) ≡ true
  has_directory s id blob valid there =
      valid.placed id (ap is_some (Answers.parts_of_contents codec s id blob there).0)

  pub update_found :
      (s : BlobStorage) (b : BlobDescription) (js : Bytes) (blob : Blob)
      → IsValid codec s
      → accepts b.blob_id ≡ true
      → codec.marshal b ≡ ok js
      → Cells.contents codec s b.blob_id ≡ some blob
      → (SimpleFile.update_blob_description codec sound_disk s b.blob_id b).0 ≡ ok tt
  update_found s b js blob valid ok_id good there =
      ap (λ x. x.0)
        (Changes.update_written codec s b.blob_id b js ok_id
          (has_directory s b.blob_id blob valid there) good)

  -- An update where there is no blob may write a description, and makes no blob.
  pub update_lem :
      (s : BlobStorage) (b : BlobDescription) (js : Bytes)
      → IsValid codec s
      → accepts b.blob_id ≡ true
      → codec.marshal b ≡ ok js
      → (j : String)
      → Cells.contents codec (SimpleFile.update_blob_description codec sound_disk s b.blob_id b).1 j
        ≡ set
            (Cells.contents codec s)
            b.blob_id
            (redescribed b (Cells.contents codec s b.blob_id))
            j
  update_lem s b js valid ok_id good j =
      let id = b.blob_id in
      elim (Bool-cases (s.directories (dir_of id))) [
        | inl there ↦ rw (Changes.update_written codec s id b js ok_id there good) (
            contents-set s (updated s b js) id (Changes.updated-IsChange codec s b js)
              (updated-contents s b js valid) j)
        | inr missing ↦
            rw (Changes.update_unplaced codec s id b ok_id missing valid)
              (elim (Option-cases (Cells.contents codec s id)) [
                | inl absent ↦
                    set-same (Cells.contents codec s) id j
                      (absent ∙ sym (ap (redescribed b) absent))
                | inr (blob, here) ↦ absurd (cc (has_directory s id blob valid here, missing))
              ])
      ]
