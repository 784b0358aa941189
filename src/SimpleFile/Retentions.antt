-- ===== src/SimpleFile/Retentions.antt =====
-- The retentions of internal/services/simplefile/simplefileblobstorage.go, and the check of a blob in
-- internal/utils/utils.go.
use Prim.Native.String.{◌++◌ as concat}
use go_blob_store.Prelude.{
  String, Bool, true, false, none, some, List, [], ◌∷◌, pos, str_eq, if◌then◌else◌,
}
use go_blob_store.Model.{
  BlobDescription, Bytes, CheckInfo, Error, Result, ok, err, RetentionEntry, Value,
}
use go_blob_store.FastCache.{io_error}
use go_blob_store.SimpleFile
use go_blob_store.SimpleFile.{BlobStorage, Codec, Walk, decoded, write_json}
use go_blob_store.SimpleFile.Files.{Disk, read_file, remove}

abbrev pub retention_base_key : String
retention_base_key = "retentionBase"

-- `Properties[key] = value`
unfoldable pub set_property : List (String × Value) → String → Value → List (String × Value)
set_property [] key value = (key, value) ∷ []
set_property (p ∷ ps) key value =
    let rest = set_property ps key value in if str_eq p.0 key then (key, value) ∷ ps else p ∷ rest

-- `utils.CheckBlob` on a storage's answers: whether it has the blob, its description and its bytes
unfoldable pub build_hash : Codec → Result (Unit {0}) × Bytes → Result String
build_hash codec (err e, content) = err e
build_hash codec (ok _, content) = ok (concat "sha-256:" (codec.sha256 content))

unfoldable pub verdict : Codec → BlobDescription → Result String → Result CheckInfo
verdict codec b (err e) = err e
verdict codec b (ok hash) =
    let healthy : CheckInfo = record {
      last_check = some codec.now;
      healthy = true;
      message = "";
    } in
    ok (
      if str_eq hash b.hash
      then healthy
      else record healthy { healthy = false; message = "hash not correct" })

unfoldable pub check_described :
    Codec → Result BlobDescription → Result (Unit {0}) × Bytes → Result CheckInfo
check_described codec (err e) read = err e
check_described codec (ok b) read = verdict codec b (build_hash codec read)

-- The only error of `HasBlob` is its panic, for a short id.
unfoldable pub check_blob :
    Codec → Result Bool → Result BlobDescription → Result (Unit {0}) × Bytes → Result CheckInfo
check_blob codec (err e) described read = err e
check_blob codec (ok false) described read = err Error.not_exist
check_blob codec (ok true) described read = check_described codec described read

module _ (codec : Codec) (disk : Disk) where
  -- the directory is made before each use
  unfoldable pub build_retention_filename : String → Result (Unit {0})
  build_retention_filename id = if disk.retention.mkdir_fails id then err io_error else ok tt

  unfoldable pub decoded_retention : Result Bytes → Result RetentionEntry
  decoded_retention (err e) = err e
  decoded_retention (ok js) = codec.unmarshal_retention js

  unfoldable pub get_retention : BlobStorage → String → Result RetentionEntry
  get_retention s id = elim (build_retention_filename id) [
    | err e ↦ err e
    | ok _ ↦ decoded_retention (read_file disk.retention s.retentions id)
  ]

  unfoldable pub write_retention_file :
      BlobStorage → BlobDescription → Result (Unit {0}) × BlobStorage
  write_retention_file s b = elim (build_retention_filename b.blob_id) [
    | err e ↦ (err e, s)
    | ok _ ↦
        (let (result, dir) = write_json codec disk.retention s.retentions b in
          (result, record s { retentions = dir }))
  ]

  -- A description of the cache shares its `Properties` with the copy that is changed.
  unfoldable pub shared : BlobStorage → String → List (String × Value) → BlobStorage
  shared s id ps = elim (s.bd_cch id) [
    | none ↦ s
    | some b ↦ SimpleFile.cached s id (some (record b { properties = ps }))
  ]

  unfoldable pub with_retention : BlobDescription → RetentionEntry → BlobDescription
  with_retention b r = record b {
    retention = r.retention;
    properties = set_property b.properties retention_base_key (Value.int r.retention_base);
  }

  unfoldable pub add_retention : BlobStorage → RetentionEntry → Result (Unit {0}) × BlobStorage
  add_retention s r = elim (SimpleFile.get_blob_description codec disk s r.blob_id) [
    | err e ↦ (err e, s)
    | ok b ↦
        (let b' = with_retention b r in write_retention_file (shared s r.blob_id b'.properties) b')
  ]

  unfoldable pub delete_retention : BlobStorage → String → Result (Unit {0}) × BlobStorage
  delete_retention s id = elim (build_retention_filename id) [
    | err e ↦ (err e, s)
    | ok _ ↦
        (let (result, dir) = remove disk.retention s.retentions id in
          (result, record s { retentions = dir }))
  ]

  unfoldable pub reset_retention : BlobStorage → String → Result (Unit {0}) × BlobStorage
  reset_retention s id = elim (get_retention s id) [
    | err e ↦ (err e, s)
    | ok r ↦ add_retention s (record r { retention_base = pos codec.now })
  ]

  -- the entries that the callback gets; a file that cannot be read or decoded is passed over
  unfoldable pub listed_retentions :
      BlobStorage → (RetentionEntry → Bool) → List String → List RetentionEntry
  listed_retentions s callback [] = []
  listed_retentions s callback (id ∷ ids) =
      let rest = listed_retentions s callback ids in
      elim (decoded_retention (read_file disk.retention s.retentions id)) [
        | err e ↦ rest
        | ok r ↦ r ∷ (if callback r then rest else [])
      ]

  unfoldable pub get_all_retentions :
      Walk → BlobStorage → (RetentionEntry → Bool) → Result (Unit {0}) × List RetentionEntry
  get_all_retentions walk s callback = (ok tt, listed_retentions s callback (walk.retentions s))
