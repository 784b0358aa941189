-- ===== src/SimpleFile/Storing.antt =====
-- What a store (internal/services/simplefile/simpleblobv2.go) does to the files, on a disk whose
-- calls do not fail.
use Prim.Native.String.{◌++◌ as concat}
use go_blob_store.Prelude.{
  String, str_eq_refl, Bool, true, false, none, some, ◌≡◌, refl, pos, length, ltb_ℤ, ◌&&◌, [],
}
use go_blob_store.Model.{BlobDescription, Bytes, Error, Reader, Result, ok, err}
use go_blob_store.FastCache.{io_error}
use go_blob_store.SimpleFile
use go_blob_store.SimpleFile.{BlobStorage, Codec, cached, with_directory, write_json, wrong_length}
use go_blob_store.SimpleFile.Files.{dir_of, put, put-same, write_file}
use go_blob_store.SimpleFile.Cells.{accepts, sound_disk}
use go_blob_store.SimpleFile.Effects

-- the description as a store leaves it
abbrev pub measured : Codec → BlobDescription → Bytes → BlobDescription
measured codec b c = record b {
  hash = concat "sha-256:" (codec.sha256 c);
  content_length = pos (length c);
}

abbrev pub is_wrong : BlobDescription → Bytes → Bool
is_wrong b c =
    ltb_ℤ (pos 0) b.content_length && SimpleFile.differs b.content_length (pos (length c))

module _ (codec : Codec) where
  -- the store of a description that has an id
  abbrev pub store_named :
      BlobStorage → BlobDescription → Reader → (Result String × BlobDescription) × BlobStorage
  store_named s b r =
      SimpleFile.written codec sound_disk b
        (SimpleFile.write_bin_file_v2 codec sound_disk s b.blob_id r)

  write_bin_whole :
      (s : BlobStorage) (id : String) (r : Reader)
      → accepts id ≡ true
      → r.broken ≡ false
      → SimpleFile.write_bin_file_v2 codec sound_disk s id r ≡ (
        ok (length r.content, concat "sha-256:" (codec.sha256 r.content)),
        Effects.with_bin (with_directory s id) id (some r.content),
      )
  unfolding SimpleFile.write_bin_file_v2
  write_bin_whole s id r valid whole =
      simp (Effects.build_accepted id valid, whole, SimpleFile.write_bin_file_v2) refl

  -- A reader that fails leaves no bytes.
  pub store_broken :
      (s : BlobStorage) (b : BlobDescription) (r : Reader)
      → accepts b.blob_id ≡ true
      → r.broken ≡ true
      → store_named s b r ≡ (
        (err io_error, b),
        Effects.with_bin
            (Effects.with_bin (with_directory s b.blob_id) b.blob_id (some []))
            b.blob_id
            none,
      )
  unfolding SimpleFile.write_bin_file_v2 SimpleFile.written
  store_broken s b r valid broken =
      simp
        (
          Effects.build_accepted b.blob_id valid,
          broken,
          Effects.remove_found (put s.bin_v2 b.blob_id (some [])) b.blob_id []
              (put-same s.bin_v2 b.blob_id (some [])),
          SimpleFile.write_bin_file_v2,
          SimpleFile.written,
        )
        refl

  pub store_refused :
      (s : BlobStorage) (b : BlobDescription) (r : Reader)
      → accepts b.blob_id ≡ false
      → (store_named s b r).1 ≡ s
  unfolding SimpleFile.write_bin_file_v2 SimpleFile.written
  store_refused s b r refused =
      simp
        (Effects.build_refused b.blob_id refused, SimpleFile.write_bin_file_v2, SimpleFile.written)
        refl

  -- A length that is not that of the bytes makes the store remove the blob's files.
  pub store_wrong :
      (s : BlobStorage) (b : BlobDescription) (r : Reader)
      → accepts b.blob_id ≡ true
      → r.broken ≡ false
      → is_wrong b r.content ≡ true
      → store_named s b r ≡ (
        (err wrong_length, b),
        (SimpleFile.delete_files_v2 codec sound_disk
            (Effects.with_bin (with_directory s b.blob_id) b.blob_id (some r.content))
            b.blob_id).1,
      )
  unfolding SimpleFile.written
  store_wrong s b r valid whole wrong =
      simp (write_bin_whole s b.blob_id r valid whole, wrong, SimpleFile.written) refl

  -- So does a description that cannot be written as JSON.
  pub store_unwritten :
      (s : BlobStorage) (b : BlobDescription) (r : Reader) (e : Error)
      → accepts b.blob_id ≡ true
      → r.broken ≡ false
      → is_wrong b r.content ≡ false
      → codec.marshal (measured codec b r.content) ≡ err e
      → store_named s b r ≡ (
        (err e, measured codec b r.content),
        (SimpleFile.delete_files_v2 codec sound_disk
            (Effects.with_bin (with_directory s b.blob_id) b.blob_id (some r.content))
            b.blob_id).1,
      )
  unfolding SimpleFile.written SimpleFile.described SimpleFile.write_json_file_v2 write_json
  store_unwritten s b r e valid whole right bad =
      simp
        (
          write_bin_whole s b.blob_id r valid whole,
          right,
          Effects.build_accepted b.blob_id valid,
          str_eq_refl (dir_of b.blob_id),
          bad,
          SimpleFile.written,
          SimpleFile.write_json_file_v2,
          write_json,
          SimpleFile.described,
        )
        refl

  pub store_whole :
      (s : BlobStorage) (b : BlobDescription) (r : Reader) (js : Bytes)
      → accepts b.blob_id ≡ true
      → r.broken ≡ false
      → is_wrong b r.content ≡ false
      → codec.marshal (measured codec b r.content) ≡ ok js
      → store_named s b r ≡ (
        (ok b.blob_id, measured codec b r.content),
        cached
            (Effects.with_json
              (Effects.with_bin (with_directory s b.blob_id) b.blob_id (some r.content))
              b.blob_id
              (some js))
            b.blob_id
            (some (measured codec b r.content)),
      )
  unfolding SimpleFile.written SimpleFile.described SimpleFile.write_json_file_v2 write_json
      write_file
  store_whole s b r js valid whole right good =
      simp
        (
          write_bin_whole s b.blob_id r valid whole,
          right,
          Effects.build_accepted b.blob_id valid,
          str_eq_refl (dir_of b.blob_id),
          good,
          SimpleFile.written,
          SimpleFile.write_json_file_v2,
          write_json,
          write_file,
          SimpleFile.described,
        )
        refl
