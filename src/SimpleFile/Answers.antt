-- ===== src/SimpleFile/Answers.antt =====
-- What internal/services/simplefile answers of a valid storage, on a disk whose calls do not fail.
use go_blob_store.Prelude.{
  String, true, false, Option, none, some, is_some, [], ◌≡◌, refl, ap, ◌∙◌, sym, str_eq, str_eq→eq,
  Bool-cases, Option-cases, inl, inr,
}
use go_blob_store.Model.{BlobDescription, Bytes, Error, Result, ok, err}
use go_blob_store.Interfaces.Lawful.{Blob}
use go_blob_store.FastCache.{slice_bounds}
use go_blob_store.SimpleFile
use go_blob_store.SimpleFile.{BlobStorage, Codec, decoded, is_not_exist, or_v1}
use go_blob_store.SimpleFile.Files.{exists, read_file}
use go_blob_store.SimpleFile.Cells.{accepts, as_blob, contents, found, IsValid, sound_disk}
use go_blob_store.SimpleFile.Changes
use go_blob_store.SimpleFile.Effects

-- only `os.ErrNotExist` itself is taken for a file that is not there
is_not_exist_lem : (e : Error) → is_not_exist e ≡ true → Error.not_exist ≡ e
unfolding is_not_exist
is_not_exist_lem Error.not_exist h = refl
is_not_exist_lem Error.exist h = absurd (cc (h))
is_not_exist_lem Error.eof h = absurd (cc (h))
is_not_exist_lem Error.not_implemented h = absurd (cc (h))
is_not_exist_lem Error.empty_id h = absurd (cc (h))
is_not_exist_lem (Error.failed message) h = absurd (cc (h))
is_not_exist_lem (Error.panic message) h = absurd (cc (h))

or_v1_missing : (r : Result BlobDescription) → or_v1 r (err Error.not_exist) ≡ r
unfolding or_v1
or_v1_missing (ok b) = refl
or_v1_missing (err e) = elim (Bool-cases (is_not_exist e)) [
  | inl missing ↦ simp (missing, or_v1) (ap err (is_not_exist_lem e missing))
  | inr other ↦ simp (other, or_v1) refl
]

pub not_empty : (id : String) → accepts id ≡ true → str_eq id "" ≡ false
not_empty id ok_id = elim (Bool-cases (str_eq id "")) [
  | inr other ↦ other
  | inl same ↦ absurd (cc (ap accepts (str_eq→eq id "" same), ok_id))
]

module _ (codec : Codec) where
  -- a blob that has bytes has a description, which makes it a blob of the map
  pub contents_of_bin :
      (s : BlobStorage) (id : String)
      → IsValid codec s
      → is_some (contents codec s id) ≡ is_some (s.bin_v2 id)
  contents_of_bin s id valid = elim (Option-cases (s.bin_v2 id)) [
    | inl empty ↦ rw empty refl
    | inr (c, there) ↦
        (let (b, e) = (valid.entries id).described (ap is_some there) in rw (there, e) refl)
  ]

  -- a blob of the map has bytes and a description
  pub parts_of_contents :
      (s : BlobStorage) (id : String) (blob : Blob)
      → contents codec s id ≡ some blob
      → (s.bin_v2 id ≡ some blob.1) × (found codec (s.bd_cch id) (s.json_v2 id) ≡ ok blob.0)
  parts_of_contents s id blob e = parts (s.bin_v2 id) (found codec (s.bd_cch id) (s.json_v2 id)) e
    where
      parts :
          (bin : Option Bytes) (r : Result BlobDescription)
          → as_blob bin r ≡ some blob
          → (bin ≡ some blob.1) × (r ≡ ok blob.0)
      parts none r h = absurd (cc (h))
      parts (some c) (err e) h = absurd (cc (h))
      parts (some c) (ok b) h = (cc (h), cc (h))

  on_disk :
      (s : BlobStorage) (id : String)
      → accepts id ≡ true
      → SimpleFile.description_on_disk codec sound_disk s id ≡ found codec none (s.json_v2 id)
  unfolding SimpleFile.description_on_disk exists read_file decoded
  on_disk s id ok_id = elim (Option-cases (s.json_v2 id)) [
    | inl nothing ↦
        simp (Effects.build_accepted id ok_id, nothing, SimpleFile.description_on_disk, exists) refl
    | inr (js, there) ↦
        simp
          (
            Effects.build_accepted id ok_id,
            there,
            SimpleFile.description_on_disk,
            exists,
            read_file,
            decoded,
          )
          refl
  ]

  without_v1 :
      (s : BlobStorage) (id : String)
      → IsValid codec s
      → SimpleFile.get_blob_description codec sound_disk s id
        ≡ SimpleFile.get_blob_description_v2 codec sound_disk s id
  unfolding SimpleFile.get_blob_description SimpleFile.get_blob_description_v1 exists
  without_v1 s id valid =
      simp
        (
          valid.no_json_v1 id,
          SimpleFile.get_blob_description,
          SimpleFile.get_blob_description_v1,
          exists,
        )
        (or_v1_missing (SimpleFile.get_blob_description_v2 codec sound_disk s id))

  -- The description is the cached one, or else that of the file.
  pub get_blob_description_lem :
      (s : BlobStorage) (id : String)
      → accepts id ≡ true
      → IsValid codec s
      → SimpleFile.get_blob_description codec sound_disk s id
        ≡ found codec (s.bd_cch id) (s.json_v2 id)
  unfolding SimpleFile.get_blob_description_v2
  get_blob_description_lem s id ok_id valid =
      without_v1 s id valid ∙ elim (Option-cases (s.bd_cch id)) [
        | inl miss ↦ simp (miss, SimpleFile.get_blob_description_v2) (on_disk s id ok_id)
        | inr (b, hit) ↦ simp (hit, SimpleFile.get_blob_description_v2) refl
      ]

  -- the description of an id that is not accepted
  refused_description :
      (s : BlobStorage) (id : String)
      → accepts id ≡ false
      → IsValid codec s
      → SimpleFile.get_blob_description codec sound_disk s id ≡ err slice_bounds
  unfolding SimpleFile.get_blob_description_v2 SimpleFile.description_on_disk
  refused_description s id refused valid =
      without_v1 s id valid ∙ elim (Option-cases (s.bd_cch id)) [
        | inr (b, hit) ↦ absurd (cc (((valid.entries id).cch_keyed b hit).1, refused))
        | inl miss ↦
            simp
              (
                miss,
                Effects.build_refused id refused,
                SimpleFile.get_blob_description_v2,
                SimpleFile.description_on_disk,
              )
              refl
      ]

  -- A description is that of the id that it was asked for.
  pub description_keyed :
      (s : BlobStorage) (id : String) (b : BlobDescription)
      → IsValid codec s
      → SimpleFile.get_blob_description codec sound_disk s id ≡ ok b
      → (b.blob_id ≡ id) × (accepts id ≡ true)
  description_keyed s id b valid e = elim (Bool-cases (accepts id)) [
    | inr refused ↦ absurd (cc (refused_description s id refused valid, e))
    | inl ok_id ↦
        keyed_of (s.bd_cch id) (s.json_v2 id) refl refl
          (sym (get_blob_description_lem s id ok_id valid) ∙ e)
  ]
    where
      keyed_of :
          (cch : Option BlobDescription) (json : Option Bytes)
          → s.bd_cch id ≡ cch
          → s.json_v2 id ≡ json
          → found codec cch json ≡ ok b
          → (b.blob_id ≡ id) × (accepts id ≡ true)
      keyed_of (some b') json p q h = (valid.entries id).cch_keyed b (p ∙ ap some (cc (h)))
      keyed_of none none p q h = absurd (cc (h))
      keyed_of none (some js) p q h = (valid.entries id).json_keyed js b q h

  -- A storage has the blobs of its map.
  pub has_blob_lem :
      (s : BlobStorage) (id : String)
      → accepts id ≡ true
      → IsValid codec s
      → SimpleFile.has_blob codec sound_disk s id ≡ ok (is_some (contents codec s id))
  unfolding SimpleFile.has_blob SimpleFile.has_blob_v1 SimpleFile.has_blob_v2 exists
  has_blob_lem s id ok_id valid = elim (Option-cases (s.bin_v2 id)) [
    | inl empty ↦
        simp
          (
            not_empty id ok_id,
            valid.no_bin_v1 id,
            Effects.build_accepted id ok_id,
            empty,
            SimpleFile.has_blob,
            SimpleFile.has_blob_v1,
            SimpleFile.has_blob_v2,
            exists,
          )
          refl
    | inr (c, there) ↦
        (let json = (valid.entries id).has_json (ap is_some there) in
          let (b, e) = (valid.entries id).described (ap is_some there) in
          simp
            (
              not_empty id ok_id,
              valid.no_bin_v1 id,
              Effects.build_accepted id ok_id,
              there,
              json,
              e,
              SimpleFile.has_blob,
              SimpleFile.has_blob_v1,
              SimpleFile.has_blob_v2,
              exists,
            )
            refl)
  ]

  -- A download gives the bytes.
  pub retrieve_found :
      (s : BlobStorage) (id : String) (c : Bytes)
      → IsValid codec s
      → s.bin_v2 id ≡ some c
      → SimpleFile.retrieve_blob codec sound_disk s id ≡ (ok tt, c)
  unfolding SimpleFile.retrieve_blob SimpleFile.get_blob_v2 SimpleFile.copied exists read_file
  retrieve_found s id c valid there =
      simp
        (
          Effects.build_accepted id (Changes.accepts_of_bin codec s id valid (ap is_some there)),
          there,
          SimpleFile.retrieve_blob,
          SimpleFile.get_blob_v2,
          SimpleFile.copied,
          exists,
          read_file,
        )
        refl

  pub retrieve_missing :
      (s : BlobStorage) (id : String)
      → accepts id ≡ true
      → IsValid codec s
      → s.bin_v2 id ≡ none
      → SimpleFile.retrieve_blob codec sound_disk s id ≡ (err Error.not_exist, [])
  unfolding SimpleFile.retrieve_blob SimpleFile.get_blob_v2 SimpleFile.get_blob_v1 exists
      is_not_exist
  retrieve_missing s id ok_id valid empty =
      simp
        (
          Effects.build_accepted id ok_id,
          empty,
          valid.no_bin_v1 id,
          SimpleFile.retrieve_blob,
          SimpleFile.get_blob_v2,
          SimpleFile.get_blob_v1,
          exists,
          is_not_exist,
        )
        refl
