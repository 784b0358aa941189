-- ===== src/SimpleFile/Cells.antt =====
-- One blob of a simple file storage (internal/services/simplefile): its files of version 2 and its
-- cached description, on a disk whose calls do not fail.
use Prim.Native.String.{len}
use go_blob_store.Prelude.{
  String, Bool, true, false, Option, none, some, is_some, [], ◌≡◌, any, ltb, not,
}
use go_blob_store.Model.{BlobDescription, Bytes, Error, Result, ok, err}
use go_blob_store.Interfaces.Lawful.{Blob}
use go_blob_store.SimpleFile.{BlobStorage, Codec}
use go_blob_store.SimpleFile.Files.{Disk, Failures, dir_of}

abbrev pub no_failures : Failures
no_failures = record {
  mkdir_fails = λ _. false;
  stat_fails = λ _. false;
  read_fails = λ _. false;
  create_fails = λ _. false;
  copy_fails = λ _. false;
  close_fails = λ _. false;
  write_fails = λ _. false;
  remove_fails = λ _. false;
  left = λ _. [];
}

abbrev pub sound_disk : Disk
sound_disk = record {
  bin_v1 = no_failures;
  json_v1 = no_failures;
  bin_v2 = no_failures;
  json_v2 = no_failures;
  retention = no_failures;
  writer_fails = false;
  absolute_fails = false;
}

-- The ids that have directories: those of four bytes at least.
abbrev pub accepts : String → Bool
accepts id = not (ltb (len id) 4)

pub record Cell : Type 0 where
  pub bin : Option Bytes
  pub json : Option Bytes
  pub cch : Option BlobDescription

abbrev pub cell : BlobStorage → String → Cell
cell s id = record { bin = s.bin_v2 id; json = s.json_v2 id; cch = s.bd_cch id }

-- the description that the cache has, or else the file
abbrev pub found : Codec → Option BlobDescription → Option Bytes → Result BlobDescription
found codec (some b) json = ok b
found codec none none = err Error.not_exist
found codec none (some js) = codec.unmarshal js

abbrev pub as_blob : Option Bytes → Result BlobDescription → Option Blob
as_blob none described = none
as_blob (some c) (err e) = none
as_blob (some c) (ok b) = some (b, c)

-- the map from ids to blobs that a storage stands for
abbrev pub contents : Codec → BlobStorage → String → Option Blob
contents codec s id = as_blob (s.bin_v2 id) (found codec (s.bd_cch id) (s.json_v2 id))

-- The bytes come with both files' descriptions, and a description is that of its id.
pub record IsEntry (codec : Codec) (id : String) (e : Cell) : Type 0 where
  pub has_json : is_some e.bin ≡ true → is_some e.json ≡ true
  pub described : is_some e.bin ≡ true → (b : BlobDescription) × (found codec e.cch e.json ≡ ok b)
  pub json_keyed :
      (js : Bytes) (b : BlobDescription)
      → e.json ≡ some js
      → codec.unmarshal js ≡ ok b
      → (b.blob_id ≡ id) × (accepts id ≡ true)
  pub cch_keyed : (b : BlobDescription) → e.cch ≡ some b → (b.blob_id ≡ id) × (accepts id ≡ true)

-- There are no files of version 1, each id has an entry, and bytes lie in a directory.
pub record IsValid (codec : Codec) (s : BlobStorage) : Type 0 where
  pub no_bin_v1 : (id : String) → s.bin_v1 id ≡ none
  pub no_json_v1 : (id : String) → s.json_v1 id ≡ none
  pub entries : (id : String) → IsEntry codec id (cell s id)
  pub placed : (id : String) → is_some (s.bin_v2 id) ≡ true → s.directories (dir_of id) ≡ true

-- whether no property has the name of the id's field, in any letter case
unfoldable pub is_plain : Codec → BlobDescription → Bool
is_plain codec b = not (any (λ p. codec.same_name p.0 "blobID") b.properties)

-- What is written of a plain description is read with the same id.
pub record IsKeyed (codec : Codec) : Type 0 where
  pub keyed :
      (b b' : BlobDescription) (js : Bytes)
      → is_plain codec b ≡ true
      → codec.marshal b ≡ ok js
      → codec.unmarshal js ≡ ok b'
      → b'.blob_id ≡ b.blob_id
