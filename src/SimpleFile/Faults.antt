-- ===== src/SimpleFile/Faults.antt =====
-- Where internal/services/simplefile answers otherwise than its files are, on a disk whose calls do
-- not fail.
use go_blob_store.Prelude.{String, true, false, none, some, is_some, ◌≡◌, refl, ap, ◌∙◌}
use go_blob_store.Model.{BlobDescription, Bytes, Error, ok, err}
use go_blob_store.Interfaces.Lawful.{sound}
use go_blob_store.SimpleFile
use go_blob_store.SimpleFile.{
  BlobStorage, Codec, and_then, cached, with_directory, if_missing, is_not_exist, wrong_length,
}
use go_blob_store.SimpleFile.Files.{exists, put, put-same}
use go_blob_store.SimpleFile.Answers
use go_blob_store.SimpleFile.Cells
use go_blob_store.SimpleFile.Cells.{accepts, as_blob, found, IsValid, sound_disk}
use go_blob_store.SimpleFile.Contents
use go_blob_store.SimpleFile.Effects
use go_blob_store.SimpleFile.Storing
use go_blob_store.SimpleFile.Validity

module _ (codec : Codec) where
  wrong_lem :
      (s : BlobStorage) (b : BlobDescription) (c : Bytes)
      → accepts b.blob_id ≡ true
      → Storing.is_wrong b c ≡ true
      → SimpleFile.store_blob_v2 codec sound_disk s b (sound c) ≡ (
        (err wrong_length, b),
        (SimpleFile.delete_files_v2 codec sound_disk
            (Effects.with_bin (with_directory s b.blob_id) b.blob_id (some c))
            b.blob_id).1,
      )
  unfolding SimpleFile.store_blob_v2
  wrong_lem s b c ok_id wrong =
      simp (Contents.not_named codec b ok_id, SimpleFile.store_blob_v2)
        (Storing.store_wrong codec s b (sound c) ok_id refl wrong)

  -- A store over a blob that is there, with a description that states another length than that of
  -- the bytes, fails and removes the blob; the storage then denies to have it, and still gives its
  -- cached description.
  pub store_blob-wrong_length :
      (s : BlobStorage) (b old : BlobDescription) (c : Bytes)
      → IsValid codec s
      → accepts b.blob_id ≡ true
      → is_some (Cells.contents codec s b.blob_id) ≡ true
      → s.bd_cch b.blob_id ≡ some old
      → Storing.is_wrong b c ≡ true
      → let (outcome, t) = SimpleFile.store_blob_v2 codec sound_disk s b (sound c) in
        (outcome.0 ≡ err wrong_length)
        × ((SimpleFile.has_blob codec sound_disk t b.blob_id ≡ ok false)
            × (SimpleFile.get_blob_description codec sound_disk t b.blob_id ≡ ok old))
  store_blob-wrong_length s b old c valid ok_id there hit wrong =
      let id = b.blob_id in
      let t =
        (SimpleFile.delete_files_v2 codec sound_disk
          (Effects.with_bin (with_directory s id) id (some c)) id).1 in
      let valid' : IsValid codec t =
        Validity.emptied-IsValid codec (with_directory s id) id c ok_id
          (Validity.directory-IsValid codec s id valid) in
      let done =
        Effects.delete_files_v2-IsEmptied codec (Effects.with_bin (with_directory s id) id (some c))
          id c ok_id (put-same s.bin_v2 id (some c)) in
      let no_bin : t.bin_v2 id ≡ none = ap (λ e. e.bin) done.emptied in
      rw (wrong_lem s b c ok_id wrong) (
        refl,
        (
          Answers.has_blob_lem codec t id ok_id valid'
              ∙ ap (λ bin. ok (is_some (as_blob bin (found codec (t.bd_cch id) (t.json_v2 id)))))
                  no_bin,
          Answers.get_blob_description_lem codec t id ok_id valid'
              ∙ ap (λ e. found codec e.cch e.json) done.emptied
              ∙ ap (λ cch. found codec cch none) hit,
        ),
      )

  v1_files_removed :
      (s : BlobStorage) (id : String) (bin json : Bytes)
      → s.bin_v1 id ≡ some bin
      → s.json_v1 id ≡ some json
      → s.retentions id ≡ none
      → SimpleFile.delete_files_v1 codec sound_disk s id ≡ (
        err Error.not_exist,
        record s { bin_v1 = put s.bin_v1 id none; json_v1 = put s.json_v1 id none },
      )
  unfolding SimpleFile.delete_files_v1 SimpleFile.remove_retention and_then
  v1_files_removed s id bin json b j r =
      simp
        (
          Effects.remove_found s.bin_v1 id bin b,
          Effects.remove_found s.json_v1 id json j,
          Effects.remove_missing s.retentions id r,
          SimpleFile.delete_files_v1,
          SimpleFile.remove_retention,
          and_then,
        )
        refl

  -- The deletion of a blob of version 1 that has no retention removes its files and reports that
  -- the blob does not exist.
  pub delete_blob-v1 :
      (s : BlobStorage) (id : String) (bin json : Bytes)
      → accepts id ≡ true
      → s.bin_v1 id ≡ some bin
      → s.json_v1 id ≡ some json
      → s.retentions id ≡ none
      → s.bin_v2 id ≡ none
      → let (result, t) = SimpleFile.delete_blob codec sound_disk s id in
        (SimpleFile.has_blob codec sound_disk s id ≡ ok true)
        × ((result ≡ err Error.not_exist)
            × ((SimpleFile.has_blob codec sound_disk t id ≡ ok false)
                × ((t.bin_v1 id ≡ none) × (t.json_v1 id ≡ none))))
  unfolding SimpleFile.delete_blob SimpleFile.has_blob SimpleFile.has_blob_v1 SimpleFile.has_blob_v2
      exists if_missing is_not_exist cached
  delete_blob-v1 s id bin json ok_id b j r none_v2 =
      let t = cached s id none in
      let u : BlobStorage = record t {
        bin_v1 = put s.bin_v1 id none;
        json_v1 = put s.json_v1 id none;
      } in
      simp
        (
          v1_files_removed t id bin json b j r,
          Effects.delete_files_v2_missing codec u id ok_id none_v2,
          SimpleFile.delete_blob,
          if_missing,
          is_not_exist,
        )
        (
          simp
              (
                Answers.not_empty id ok_id,
                b,
                j,
                SimpleFile.has_blob,
                SimpleFile.has_blob_v1,
                exists,
              )
              refl,
          (
            refl,
            (
              simp
                  (
                    Answers.not_empty id ok_id,
                    put-same s.bin_v1 id none,
                    Effects.build_accepted id ok_id,
                    none_v2,
                    SimpleFile.has_blob,
                    SimpleFile.has_blob_v1,
                    SimpleFile.has_blob_v2,
                    exists,
                  )
                  refl,
              (put-same s.bin_v1 id none, put-same s.json_v1 id none),
            ),
          ),
        )
