-- ===== src/Tests/Simple.antt =====
-- internal/services/simplefile on small inputs, with a format that knows the description of one blob.
use mathlib.Core.Option
use go_blob_store.Prelude.{
  ◌≡◌, refl, pos, Bool, true, false, none, some, [], ◌∷◌, str_eq, str_eq→eq, if◌then◌else◌, ap, sym,
  subst, ◌∙◌, is_some, zero, suc,
}
use go_blob_store.Model.{BlobDescription, Bytes, Error, Result, ok, err}
use go_blob_store.Interfaces.Lawful.{sound}
use go_blob_store.SimpleFile
use go_blob_store.SimpleFile.{BlobStorage, Codec, Walk, wrong_length}
use go_blob_store.SimpleFile.Cells.{is_plain, IsKeyed, IsValid, sound_disk}
use go_blob_store.SimpleFile.Checked.{check_blob-simple_file}
use go_blob_store.SimpleFile.Contents
use go_blob_store.SimpleFile.Faults.{store_blob-wrong_length, delete_blob-v1}
use go_blob_store.SimpleFile.Reopening.{init-store_blob}
use go_blob_store.SimpleFile.Retentions.{check_blob}
use go_blob_store.SimpleFile.Service.{simple_file}
use go_blob_store.SimpleFile.Validity
use go_blob_store.MainStorage.{MainStorage, nil_pointer}
use go_blob_store.MainStorage.Checking
use go_blob_store.Tests.Maps.{maps}
use go_blob_store.Tests.Lists.{blob}

abbrev pub known : BlobDescription
known = record (blob "aa01") { hash = "sha-256:00"; content_length = pos 3 }

abbrev read_json : Bytes → Result BlobDescription
read_json [] = err Error.eof
read_json (zero ∷ js) = ok known
read_json (suc n ∷ js) = err Error.eof

abbrev written_json : Bool → Bytes
written_json known_id = if known_id then 0 ∷ [] else 1 ∷ []

abbrev pub codec : Codec
codec = record {
  marshal = λ b. ok (written_json (str_eq b.blob_id "aa01"));
  unmarshal = read_json;
  unmarshal_retention = λ js. err Error.eof;
  same_name = λ a b. str_eq a b;
  sha256 = λ c. "00";
  generated_id = "dd01";
  now = 5000;
}

same_id : {b b' : BlobDescription} → b ≡ b' → b.blob_id ≡ b'.blob_id
same_id e = ap (λ (x : BlobDescription). x.blob_id) e

read_written :
    (b b' : BlobDescription) (js : Bytes)
    → (known_id : Bool) → str_eq b.blob_id "aa01" ≡ known_id
    → written_json known_id ≡ js
    → read_json js ≡ ok b'
    → b'.blob_id ≡ b.blob_id
read_written b b' js true same e h =
    let read = ap read_json e ∙ h in
    same_id {b = b'} {b' = known} (cc (read)) ∙ sym (str_eq→eq b.blob_id "aa01" same)
read_written b b' js false other e h = absurd (cc (ap read_json e ∙ h))

pub codec-IsKeyed : IsKeyed codec
codec-IsKeyed = record {
  keyed = λ b b' js plain e h. read_written b b' js (str_eq b.blob_id "aa01") refl (cc (e)) h;
}

abbrev pub empty : BlobStorage
empty = record {
  root_path = "/data";
  tenant = "mcs";
  bin_v1 = λ _. none;
  json_v1 = λ _. none;
  bin_v2 = λ _. none;
  json_v2 = λ _. none;
  retentions = λ _. none;
  bd_cch = λ _. none;
  directories = λ _. false;
}

empty-IsValid : IsValid codec empty
empty-IsValid = record {
  no_bin_v1 = λ _. refl;
  no_json_v1 = λ _. refl;
  entries = λ id. record {
    has_json = λ h. absurd (cc (h));
    described = λ h. absurd (cc (h));
    json_keyed = λ js b e. absurd (cc (e));
    cch_keyed = λ b e. absurd (cc (e));
  };
  placed = λ id h. absurd (cc (h));
}

abbrev bytes : Bytes
bytes = 1 ∷ 2 ∷ 3 ∷ []

abbrev after_store : BlobStorage
after_store = (SimpleFile.store_blob_v2 codec sound_disk empty (blob "aa01") (sound bytes)).1

-- a walk that visits the files of no blob
abbrev pub no_walk : Walk
no_walk = record { files = λ s. []; retentions = λ s. [] }

-- and one that finds the description of the blob "aa01", where it is
abbrev walk : Walk
walk = record {
  files = λ s. elim (s.json_v2 "aa01") [
    | none ↦ []
    | some js ↦ (record { path = "/data/mcs/aa/01/aa01.json"; name = "aa01.json" }) ∷ []
  ];
  retentions = λ s. [];
}

init-store_blob_example :
    let u = (SimpleFile.init codec sound_disk after_store).1 in
    let read = SimpleFile.retrieve_blob codec sound_disk u "aa01" in
    let described = SimpleFile.get_blob_description codec sound_disk u "aa01" in
    (described ≡ ok known)
    × ((read ≡ (ok tt, bytes))
        × (check_blob codec (SimpleFile.has_blob codec sound_disk u "aa01") described read
            ≡ ok (record { last_check = some 5000; healthy = true; message = "" })))
unfolding is_plain
init-store_blob_example =
    init-store_blob codec empty (blob "aa01") bytes (0 ∷ []) codec-IsKeyed refl empty-IsValid
      (λ id js e. absurd (cc (e))) refl refl (λ _. refl) refl refl

store_blob-wrong_length_example :
    let (outcome, t) =
      SimpleFile.store_blob_v2 codec sound_disk
        (Contents.stored codec empty (blob "aa01") bytes (0 ∷ []))
        (blob "aa01")
        (sound (7 ∷ [])) in
    (outcome.0 ≡ err wrong_length)
    × ((SimpleFile.has_blob codec sound_disk t "aa01" ≡ ok false)
        × (SimpleFile.get_blob_description codec sound_disk t "aa01" ≡ ok known))
unfolding SimpleFile.cached SimpleFile.differs is_plain
store_blob-wrong_length_example =
    store_blob-wrong_length codec (Contents.stored codec empty (blob "aa01") bytes (0 ∷ []))
      (blob "aa01") known (7 ∷ [])
      (Validity.stored-IsValid codec empty known bytes (0 ∷ []) codec-IsKeyed refl refl
        empty-IsValid refl)
      refl (ap is_some (Contents.stored-contents codec empty (blob "aa01") bytes (0 ∷ []))) refl
      refl

-- a blob of version 1
abbrev old : BlobStorage
old = record empty {
  bin_v1 = λ id. if str_eq id "aa01" then some bytes else none;
  json_v1 = λ id. if str_eq id "aa01" then some (0 ∷ []) else none;
}

delete_blob-v1_example :
    let (result, t) = SimpleFile.delete_blob codec sound_disk old "aa01" in
    (SimpleFile.has_blob codec sound_disk old "aa01" ≡ ok true)
    × ((result ≡ err Error.not_exist)
        × ((SimpleFile.has_blob codec sound_disk t "aa01" ≡ ok false)
            × ((t.bin_v1 "aa01" ≡ none) × (t.json_v1 "aa01" ≡ none))))
delete_blob-v1_example = delete_blob-v1 codec old "aa01" bytes (0 ∷ []) refl refl refl refl refl

-- the storage with one blob
abbrev one_blob : BlobStorage
one_blob = Contents.stored codec empty (blob "aa01") bytes (0 ∷ [])

one_blob-IsValid : IsValid codec one_blob
unfolding is_plain
one_blob-IsValid =
    Validity.stored-IsValid codec empty known bytes (0 ∷ []) codec-IsKeyed refl refl empty-IsValid
      refl

-- a tenant's storage with one blob, and with a backup that lacks it
abbrev unsaved : MainStorage (simple_file codec sound_disk walk maps)
unsaved = record {
  rtn_mng = none;
  stg_srv = one_blob;
  bck_srv = some empty;
  cch_srv = none;
  idx_srv = none;
  tnt_bck_srv = none;
  tnt_mgr = none;
  bcksyncmode = false;
  tenant = "mcs";
  has_idx = false;
  tnt_error = none;
  pending = [];
}

check_blob-simple_file_example :
    (Checking.check_blob (simple_file codec sound_disk walk maps) unsaved "aa01").0
    ≡ err nil_pointer
check_blob-simple_file_example =
    check_blob-simple_file codec walk maps unsaved "aa01" (known, bytes) refl one_blob-IsValid
      (λ bck e. subst (IsValid codec) (Option.some-injective empty bck e) empty-IsValid)
      (Contents.stored-contents codec empty (blob "aa01") bytes (0 ∷ []))
