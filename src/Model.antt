-- ===== src/Model.antt =====
-- pkg/model/blobdescription.go and pkg/model/retentionentry.go: the data that all services exchange,
-- and Go's errors as values. An `int64` field is an integer; `to_int64` writes its wrap-around.
pub mod Retention
use go_blob_store.Prelude.{
  ℕ, String, ℤ, pos, negsuc, pos_part, neg_part, Bool, Option, List, ◌+◌, ◌-◌, ◌*◌, ◌%◌, ◌^◌, ltb,
  if◌then◌else◌, ◌≡◌, refl, ◌⊎◌, inl, inr, ◌+ℤ◌, ltb_ℤ,
}

-- The errors that the code tells apart, all others with their message, and a panic, which ends a call
-- as an error does and is none.
pub data Error : Type 0 where
  not_exist exist eof not_implemented empty_id : Error
  failed panic : String → Error

-- an error's text, as `%v` writes it
abbrev pub text_of : Error → String
text_of Error.not_exist = "file does not exist"
text_of Error.exist = "file already exists"
text_of Error.eof = "EOF"
text_of Error.not_implemented = "not implemented"
text_of Error.empty_id = "empty id not allowed"
text_of (Error.failed message) = message
text_of (Error.panic why) = why

pub data Result {ℓ} (A : Type ℓ) : Type ℓ where
  ok : A → Result A
  err : Error → Result A

pub Result-cases {ℓ} :
    {X : Type ℓ} (outcome : Result X)
    → ((x : X) × (outcome ≡ ok x)) ⊎ ((why : Error) × (outcome ≡ err why))
Result-cases (ok x) = inl (x, refl)
Result-cases (err why) = inr (why, refl)

-- the contents of a file, of a reader, or what a writer got
abbrev pub Bytes : Type 0
Bytes = List ℕ

-- what an `io.Reader` gives: its bytes, then the end of the file or an error
pub record Reader : Type 0 where
  pub content : Bytes
  pub broken : Bool

-- The scalar values of `map[string]any`: headers give texts, the retention base is an `int64`.
pub data Value : Type 0 where
  text : String → Value
  int : ℤ → Value
  bool : Bool → Value
  null : Value

pub record CheckInfo : Type 0 where
  pub last_check : Option ℕ
  pub healthy : Bool
  pub message : String

pub record Check : Type 0 where
  pub store : Option CheckInfo
  pub backup : Option CheckInfo
  pub healthy : Bool
  pub message : String

pub record BlobDescription : Type 0 where
  pub store_id : String
  pub content_length : ℤ
  pub content_type : String
  pub creation_date : ℤ
  pub filename : String
  pub tenant_id : String
  pub blob_id : String
  pub last_access : ℤ
  pub retention : ℤ
  pub blob_url : String
  pub hash : String
  pub check : Option Check
  pub properties : List (String × Value)

pub record RetentionEntry : Type 0 where
  pub filename : String
  pub tenant_id : String
  pub blob_id : String
  pub creation_date : ℤ
  pub retention : ℤ
  pub retention_base : ℤ

-- the two's complement value of the low 64 bits
unfoldable pub to_int64 : ℤ → ℤ
to_int64 a =
    let u = (pos_part a + 2 ^ 64 - neg_part a % 2 ^ 64) % 2 ^ 64 in
    if ltb u (2 ^ 63) then pos u else negsuc (2 ^ 64 - 1 - u)

-- `n * a` before it wraps, for a numeral `n`
abbrev pub scale : ℕ → ℤ → ℤ
scale n (pos a) = pos (n * a)
scale n (negsuc a) = negsuc (n * a + n - 1)

unfoldable pub get_retention_timestamp_ms : RetentionEntry → ℤ
get_retention_timestamp_ms r =
    let minutes = to_int64 (scale 1000 (to_int64 (scale 60 r.retention))) in
    if ltb_ℤ (pos 0) r.retention_base
    then to_int64 (r.retention_base +ℤ minutes)
    else to_int64 (r.creation_date +ℤ minutes)

unfoldable pub retention_entry_from_blob_description : BlobDescription → RetentionEntry
retention_entry_from_blob_description b = record {
  filename = b.filename;
  tenant_id = b.tenant_id;
  blob_id = b.blob_id;
  creation_date = b.creation_date;
  retention = b.retention;
  retention_base = pos 0;
}
