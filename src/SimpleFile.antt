-- ===== src/SimpleFile.antt =====
-- internal/services/simplefile/{simpleblobv1,simpleblobv2,simplefileblobstorage}.go: the storage of a
-- tenant's blobs as files. The state has a directory per kind of file and the cache of descriptions.
-- JSON, SHA-256 and the generated ids are not part of this code: `Codec` has their functions.
pub mod Files
pub mod Retentions
pub mod Cells
pub mod Validity
pub mod Changes
pub mod Answers
pub mod Removal
pub mod Contents
pub mod Effects
pub mod Storing
pub mod Listing
pub mod Kept
pub mod Refinement
pub mod Service
pub mod Checked
pub mod Faults
pub mod Reopening
use Prim.Native.String.{◌++◌ as concat, find, len, slice}
use go_blob_store.Prelude.{
  ℕ, String, ℤ, pos, Bool, true, false, Option, none, some, List, [], ◌∷◌, str_eq, length, ltb_ℤ,
  if◌then◌else◌, ◌&&◌, ◌||◌, ◌-◌, ltb,
}
use go_blob_store.Model.{
  BlobDescription, Bytes, CheckInfo, Error, Reader, Result, ok, err, RetentionEntry,
}
use go_blob_store.FastCache.{io_error}
use go_blob_store.SimpleFile.Files.{
  Dir, Disk, Failures, FileInfo, build_filename_v2, dir_of, exists, no_such_file, put, read_file,
  remove, write_file,
}

pub record Codec : Type 0 where
  -- `json.Marshal` and `json.Unmarshal`
  pub marshal : BlobDescription → Result Bytes
  pub unmarshal : Bytes → Result BlobDescription
  pub unmarshal_retention : Bytes → Result RetentionEntry
  -- whether `json.Unmarshal` takes a name for that of a field, which it does in any letter case
  pub same_name : String → String → Bool
  -- the digest in hexadecimal digits
  pub sha256 : Bytes → String
  -- what `uuid.NewString` leads to, without the minuses
  pub generated_id : String
  -- `time.Now().UnixMilli()`
  pub now : ℕ

pub record BlobStorage : Type 0 where
  pub root_path : String
  pub tenant : String
  pub bin_v1 : Dir
  pub json_v1 : Dir
  pub bin_v2 : Dir
  pub json_v2 : Dir
  pub retentions : Dir
  pub bd_cch : String → Option BlobDescription
  -- the directories of version 2, by the first four bytes of an id
  pub directories : String → Bool

-- What `filepath.Walk` visits: the files below the tenant's directory, and the ids of the files in the
-- directory of its retentions.
pub record Walk : Type 0 where
  pub files : BlobStorage → List FileInfo
  pub retentions : BlobStorage → List String

abbrev pub wrong_length : Error
wrong_length = Error.failed "wrong content length"

-- `bdCch[id] = b`, or the deletion from it
unfoldable pub cached : BlobStorage → String → Option BlobDescription → BlobStorage
cached s id b = record s { bd_cch = λ j. if str_eq id j then b else s.bd_cch j }

-- the storage with the directory of an id's files, which `createFilePathV2` makes
abbrev pub with_directory : BlobStorage → String → BlobStorage
with_directory s id = record s {
  directories = λ d. if str_eq (dir_of id) d then true else s.directories d;
}

-- the next call, if the last one was successful
unfoldable pub and_then :
    Result (Unit {0}) × BlobStorage
    → (BlobStorage → Result (Unit {0}) × BlobStorage)
    → Result (Unit {0}) × BlobStorage
and_then (err e, s) next = (err e, s)
and_then (ok _, s) next = next s

-- `errors.Is(err, os.ErrNotExist)`
unfoldable pub is_not_exist : Error → Bool
is_not_exist Error.not_exist = true
is_not_exist Error.exist = false
is_not_exist Error.eof = false
is_not_exist Error.not_implemented = false
is_not_exist Error.empty_id = false
is_not_exist (Error.failed message) = false
is_not_exist (Error.panic message) = false

-- the next call, if the last one did not find the file
unfoldable pub if_missing :
    Result (Unit {0}) × BlobStorage
    → (BlobStorage → Result (Unit {0}) × BlobStorage)
    → Result (Unit {0}) × BlobStorage
if_missing (ok _, s) next = (ok tt, s)
if_missing (err e, s) next = if is_not_exist e then next s else (err e, s)

-- a result, or that of the older version if there is no such file
unfoldable pub or_v1 {ℓ} : {A : Type ℓ} → Result A → Result A → Result A
or_v1 (ok x) older = ok x
or_v1 (err e) older = if is_not_exist e then older else err e

-- the bytes of a file as a description
unfoldable pub decoded : Codec → Result Bytes → Result BlobDescription
decoded codec (err e) = err e
decoded codec (ok js) = codec.unmarshal js

-- `writeJSONFileV1`, `writeJSONFileV2` and `writeRetentionFile` after they have the file's name
unfoldable pub write_json : Codec → Failures → Dir → BlobDescription → Result (Unit {0}) × Dir
write_json codec f dir b = elim (codec.marshal b) [
  | err e ↦ (err e, dir)
  | ok js ↦ write_file f dir b.blob_id js
]

-- the write of a description where there is no directory for its file
unfoldable pub without_directory : Codec → BlobDescription → Result (Unit {0})
without_directory codec b = elim (codec.marshal b) [ err e ↦ err e | ok js ↦ err no_such_file ]

unfoldable pub differs : ℤ → ℤ → Bool
differs a b = ltb_ℤ a b || ltb_ℤ b a

unfoldable pub named : Codec → BlobDescription → BlobDescription
named codec b = if str_eq b.blob_id "" then record b { blob_id = codec.generated_id } else b

-- a retention file that does not exist is no failure
unfoldable pub forgiven : Result (Unit {0}) × BlobStorage → Result (Unit {0}) × BlobStorage
forgiven (ok _, s) = (ok tt, s)
forgiven (err e, s) = if is_not_exist e then (ok tt, s) else (err e, s)

module _ (codec : Codec) (disk : Disk) where
  unfoldable pub init : BlobStorage → Result (Unit {0}) × BlobStorage
  init s =
      if str_eq s.tenant "" || disk.absolute_fails
      then (err (Error.failed "init"), s)
      else (ok tt, record s { bd_cch = λ _. none })

  -- version 1: the files lie in the tenant's directory

  unfoldable pub get_blob_description_v1 : BlobStorage → String → Result BlobDescription
  get_blob_description_v1 s id =
      if exists disk.json_v1 s.json_v1 id
      then decoded codec (read_file disk.json_v1 s.json_v1 id)
      else err Error.not_exist

  unfoldable pub has_blob_v1 : BlobStorage → String → Bool
  has_blob_v1 s id = exists disk.bin_v1 s.bin_v1 id && exists disk.json_v1 s.json_v1 id

  unfoldable pub write_json_file_v1 :
      BlobStorage → BlobDescription → Result (Unit {0}) × BlobStorage
  write_json_file_v1 s b =
      let (result, dir) = write_json codec disk.json_v1 s.json_v1 b in
      (result, record s { json_v1 = dir })

  unfoldable pub update_blob_description_v1 :
      BlobStorage → String → BlobDescription → Result (Unit {0}) × BlobStorage
  update_blob_description_v1 s id b =
      if has_blob_v1 s id
      then and_then (write_json_file_v1 s b) (λ t. (ok tt, cached t b.blob_id (some b)))
      else (err Error.not_exist, s)

  -- the copy of a file to the writer: the bytes that it got; a failed write has written nothing
  unfoldable pub copied : Result Bytes → Result (Unit {0}) × Bytes
  copied (err e) = (err e, [])
  copied (ok content) = if disk.writer_fails then (err io_error, []) else (ok tt, content)

  unfoldable pub get_blob_v1 : BlobStorage → String → Result (Unit {0}) × Bytes
  get_blob_v1 s id =
      if exists disk.bin_v1 s.bin_v1 id
      then copied (read_file disk.bin_v1 s.bin_v1 id)
      else (err Error.not_exist, [])

  -- a name that could not be built is empty, and no file has it
  unfoldable pub remove_retention : BlobStorage → String → Result (Unit {0}) × BlobStorage
  remove_retention s id =
      if disk.retention.mkdir_fails id
      then (err Error.not_exist, s)
      else (let (result, dir) = remove disk.retention s.retentions id in
          (result, record s { retentions = dir }))

  unfoldable pub delete_files_v1 : BlobStorage → String → Result (Unit {0}) × BlobStorage
  delete_files_v1 s id =
      let (bin, bins) = remove disk.bin_v1 s.bin_v1 id in
      and_then (bin, record s { bin_v1 = bins })
        (λ t.
          let (json, jsons) = remove disk.json_v1 t.json_v1 id in
          and_then (json, record t { json_v1 = jsons }) (λ u. remove_retention u id))

  -- version 2: the files lie in directories below it

  unfoldable pub has_blob_v2 : BlobStorage → String → Result Bool
  has_blob_v2 s id = elim (build_filename_v2 id) [
    | err e ↦ err e
    | ok _ ↦ ok (exists disk.bin_v2 s.bin_v2 id && exists disk.json_v2 s.json_v2 id)
  ]

  unfoldable pub description_on_disk : BlobStorage → String → Result BlobDescription
  description_on_disk s id = elim (build_filename_v2 id) [
    | err e ↦ err e
    | ok _ ↦
        if exists disk.json_v2 s.json_v2 id
        then decoded codec (read_file disk.json_v2 s.json_v2 id)
        else err Error.not_exist
  ]

  unfoldable pub get_blob_description_v2 : BlobStorage → String → Result BlobDescription
  get_blob_description_v2 s id = elim (s.bd_cch id) [
    | some b ↦ ok b
    | none ↦ description_on_disk s id
  ]

  unfoldable pub write_json_file_v2 :
      BlobStorage → BlobDescription → Result (Unit {0}) × BlobStorage
  write_json_file_v2 s b = elim (build_filename_v2 b.blob_id) [
    | err e ↦ (err e, s)
    | ok _ ↦
        if s.directories (dir_of b.blob_id)
        then (let (result, dir) = write_json codec disk.json_v2 s.json_v2 b in
            (result, record s { json_v2 = dir }))
        else (without_directory codec b, s)
  ]

  unfoldable pub update_blob_description_v2 :
      BlobStorage → BlobDescription → Result (Unit {0}) × BlobStorage
  update_blob_description_v2 s b =
      and_then (write_json_file_v2 s b) (λ t. (ok tt, cached t b.blob_id (some b)))

  unfoldable pub get_blob_v2 : BlobStorage → String → Result (Unit {0}) × Bytes
  get_blob_v2 s id = elim (build_filename_v2 id) [
    | err e ↦ (err e, [])
    | ok _ ↦
        if exists disk.bin_v2 s.bin_v2 id
        then copied (read_file disk.bin_v2 s.bin_v2 id)
        else (err Error.not_exist, [])
  ]

  unfoldable pub delete_files_v2 : BlobStorage → String → Result (Unit {0}) × BlobStorage
  delete_files_v2 s id = elim (build_filename_v2 id) [
    | err e ↦ (err e, s)
    | ok _ ↦
        (let (bin, bins) = remove disk.bin_v2 s.bin_v2 id in
          and_then (bin, record s { bin_v2 = bins })
            (λ t.
              let (json, jsons) = remove disk.json_v2 t.json_v2 id in
              and_then (json, record t { json_v2 = jsons })
                (λ u. forgiven (remove_retention u id))))
  ]

  -- the file while it is written: the size and the hash of what the reader gave
  unfoldable pub write_bin_file_v2 :
      BlobStorage → String → Reader → Result (ℕ × String) × BlobStorage
  write_bin_file_v2 s id r = elim (build_filename_v2 id) [
    | err e ↦ (err e, s)
    | ok _ ↦
        if disk.bin_v2.mkdir_fails id
        then (err io_error, s)
        else if disk.bin_v2.create_fails id
        then (err io_error, with_directory s id)
        else if r.broken || disk.bin_v2.copy_fails id
        then (
          err io_error,
          record (with_directory s id) {
            bin_v2 = (remove disk.bin_v2 (put s.bin_v2 id (some (disk.bin_v2.left id))) id).1;
          },
        )
        else (
          if disk.bin_v2.close_fails id
              then err io_error
              else ok (length r.content, concat "sha-256:" (codec.sha256 r.content)),
          record (with_directory s id) { bin_v2 = put s.bin_v2 id (some r.content) },
        )
  ]

  -- the end of a store: the description is given back as the call leaves it
  unfoldable pub described :
      BlobDescription
      → Result (Unit {0}) × BlobStorage
      → (Result String × BlobDescription) × BlobStorage
  described b (err e, s) = ((err e, b), (delete_files_v2 s b.blob_id).1)
  described b (ok _, s) = ((ok b.blob_id, b), cached s b.blob_id (some b))

  unfoldable pub written :
      BlobDescription
      → Result (ℕ × String) × BlobStorage
      → (Result String × BlobDescription) × BlobStorage
  written b (err e, s) = ((err e, b), s)
  written b (ok (size, hash), s) =
      if ltb_ℤ (pos 0) b.content_length && differs b.content_length (pos size)
      then ((err wrong_length, b), (delete_files_v2 s b.blob_id).1)
      else (let b' : BlobDescription = record b { hash = hash; content_length = pos size } in
          described b' (write_json_file_v2 s b'))

  unfoldable pub store_blob_v2 :
      BlobStorage → BlobDescription → Reader → (Result String × BlobDescription) × BlobStorage
  store_blob_v2 s b r = let b' = named codec b in written b' (write_bin_file_v2 s b'.blob_id r)

  -- the files that the walk takes: `find` gives a number past the end where there is no such text
  unfoldable pub is_description : FileInfo → Bool
  is_description i =
      ltb (len i.path) (find i.path "retention")
      && str_eq (slice i.path (len i.path - 5) (len i.path)) ".json"

  unfoldable pub id_of : FileInfo → String
  id_of i = slice i.name 0 (len i.name - 5)

  -- what the walk finds, up to the id for which the callback gives false
  unfoldable pub listed_blobs : (String → Bool) → List FileInfo → Result (Unit {0}) × List String
  listed_blobs callback [] = (ok tt, [])
  listed_blobs callback (i ∷ is) =
      let (result, ids) = listed_blobs callback is in
      if is_description i
      then (if callback (id_of i) then (result, id_of i ∷ ids) else (err Error.eof, id_of i ∷ []))
      else (result, ids)

  unfoldable pub get_blobs_v2 :
      Walk → BlobStorage → (String → Bool) → Result (Unit {0}) × List String
  get_blobs_v2 walk s callback = listed_blobs callback (walk.files s)

  -- the storage, which asks version 1 where version 2 does not have the blob

  unfoldable pub update_blob_description :
      BlobStorage → String → BlobDescription → Result (Unit {0}) × BlobStorage
  update_blob_description s id b =
      if_missing (update_blob_description_v2 s b) (λ t. update_blob_description_v1 t id b)

  unfoldable pub has_blob : BlobStorage → String → Result Bool
  has_blob s id =
      if str_eq id "" then ok false else if has_blob_v1 s id then ok true else has_blob_v2 s id

  unfoldable pub get_blob_description : BlobStorage → String → Result BlobDescription
  get_blob_description s id = or_v1 (get_blob_description_v2 s id) (get_blob_description_v1 s id)

  unfoldable pub retrieve_blob : BlobStorage → String → Result (Unit {0}) × Bytes
  retrieve_blob s id =
      let (result, content) = get_blob_v2 s id in
      elim result [
        | ok _ ↦ (ok tt, content)
        | err e ↦ if is_not_exist e then get_blob_v1 s id else (err e, content)
      ]

  unfoldable pub delete_blob : BlobStorage → String → Result (Unit {0}) × BlobStorage
  delete_blob s id = if_missing (delete_files_v1 (cached s id none) id) (λ t. delete_files_v2 t id)
