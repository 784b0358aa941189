-- ===== src/SimpleFile/Refinement.antt =====
-- The simple file storage (internal/services/simplefile) against what it stands for: a map from ids to
-- blobs, which has the bytes of each file with the description that the storage has for it.
use Prim.Native.String.{◌++◌ as concat}
use go_blob_store.Prelude.{
  String, true, Option, none, some, is_some, ◌≡◌, refl, ap, ◌∙◌, any, str_eq, ◌||◌, [],
  if◌then◌else◌, Option-cases, Bool-cases, inl, inr, false, sym,
}
use go_blob_store.Model.{BlobDescription, Bytes, CheckInfo, Error, RetentionEntry, Result, ok, err}
use go_blob_store.Interfaces.Lawful.{Blob, sound}
use go_blob_store.SimpleFile
use go_blob_store.SimpleFile.{BlobStorage, Codec, Walk}
use go_blob_store.SimpleFile.Cells
use go_blob_store.SimpleFile.Cells.{accepts, IsValid, sound_disk}
use go_blob_store.SimpleFile.Answers
use go_blob_store.SimpleFile.Changes
use go_blob_store.SimpleFile.Contents
use go_blob_store.SimpleFile.Contents.{redescribed, set}
use go_blob_store.SimpleFile.Kept
use go_blob_store.SimpleFile.Kept.{IsKept}
use go_blob_store.SimpleFile.Listing
use go_blob_store.SimpleFile.Removal
use go_blob_store.SimpleFile.Retentions
use go_blob_store.SimpleFile.Storing
use go_blob_store.SimpleFile.Validity

-- what holds of a blob, if there is one
abbrev pub IfThere : Option Blob → (Blob → Type 0) → Type 0
IfThere none P = Unit
IfThere (some blob) P = P blob

module _ (codec : Codec) where
  -- the bytes of a blob, as a download gives them
  abbrev pub read_of : Option Blob → Result (Unit {0}) × Bytes
  read_of none = (err Error.not_exist, [])
  read_of (some blob) = (ok tt, blob.1)

  -- the verdict on a blob: whether its bytes have the hash of its description
  abbrev pub verdict : Blob → CheckInfo
  verdict blob =
      let is_right = str_eq (concat "sha-256:" (codec.sha256 blob.1)) blob.0.hash in
      record {
        last_check = some codec.now;
        healthy = is_right;
        message = if is_right then "" else "hash not correct";
      }

  abbrev pub verdict_of : Option Blob → Result CheckInfo
  verdict_of none = err Error.not_exist
  verdict_of (some blob) = ok (verdict blob)

  -- a valid storage that stands for this map
  pub record Simulates (s : BlobStorage) (m : String → Option Blob) : Type 0 where
    pub valid : IsValid codec s
    pub same : (id : String) → Cells.contents codec s id ≡ m id

  -- What the operations do, as operations on the map `m` that the storage stands for.
  pub record Refines (walk : Walk) (s : BlobStorage) (b : BlobDescription) (c : Bytes)
      (r : RetentionEntry) : Type 0 where
    pub has :
        SimpleFile.has_blob codec sound_disk s b.blob_id
        ≡ ok (is_some (Cells.contents codec s b.blob_id))
    pub described :
        IfThere
          (Cells.contents codec s b.blob_id)
          (λ blob. SimpleFile.get_blob_description codec sound_disk s b.blob_id ≡ ok blob.0)
    pub read :
        SimpleFile.retrieve_blob codec sound_disk s b.blob_id
        ≡ read_of (Cells.contents codec s b.blob_id)
    pub checked :
        Retentions.check_blob codec
          (SimpleFile.has_blob codec sound_disk s b.blob_id)
          (SimpleFile.get_blob_description codec sound_disk s b.blob_id)
          (SimpleFile.retrieve_blob codec sound_disk s b.blob_id)
        ≡ verdict_of (Cells.contents codec s b.blob_id)
    pub stored :
        let outcome = SimpleFile.store_blob_v2 codec sound_disk s b (sound c) in
        let b' = Storing.measured codec b c in
        (outcome.0 ≡ (ok b.blob_id, b'))
        × Simulates outcome.1 (set codec (Cells.contents codec s) b.blob_id (some (b', c)))
    pub updated :
        let outcome = SimpleFile.update_blob_description codec sound_disk s b.blob_id b in
        let old = Cells.contents codec s b.blob_id in
        IfThere old (λ _. outcome.0 ≡ ok tt)
        × Simulates outcome.1
            (set codec (Cells.contents codec s) b.blob_id (redescribed codec b old))
    pub deleted :
        let outcome = SimpleFile.delete_blob codec sound_disk s b.blob_id in
        (outcome.0
          ≡ (if is_some (Cells.contents codec s b.blob_id) then ok tt else err Error.not_exist))
        × Simulates outcome.1 (set codec (Cells.contents codec s) b.blob_id none)
    pub retention_added : IsKept codec s (Retentions.add_retention codec sound_disk s r).1
    pub retention_deleted :
        IsKept codec s (Retentions.delete_retention codec sound_disk s b.blob_id).1
    pub retention_reset : IsKept codec s (Retentions.reset_retention codec sound_disk s b.blob_id).1
    pub listed :
        let listed = SimpleFile.get_blobs_v2 codec sound_disk walk s (λ _. true) in
        (listed.0 ≡ ok tt)
        × (any (λ j. str_eq j b.blob_id) listed.1
            ≡ is_some (s.json_v2 b.blob_id) || is_some (Cells.contents codec s b.blob_id))

  read_lem :
      (s : BlobStorage) (id : String)
      → accepts id ≡ true
      → IsValid codec s
      → SimpleFile.retrieve_blob codec sound_disk s id ≡ read_of (Cells.contents codec s id)
  read_lem s id ok_id valid = elim (Option-cases (Cells.contents codec s id)) [
    | inl absent ↦
        Answers.retrieve_missing codec s id ok_id valid (Contents.no_bin codec s id valid absent)
        ∙ sym (ap read_of absent)
    | inr (blob, there) ↦
        Answers.retrieve_found codec s id blob.1 valid
          (Answers.parts_of_contents codec s id blob there).0
        ∙ sym (ap read_of there)
  ]

  verdict_lem :
      (b : BlobDescription) (c : Bytes)
      → Retentions.check_blob codec (ok true) (ok b) (ok tt, c) ≡ verdict_of (some (b, c))
  unfolding Retentions.check_blob Retentions.check_described Retentions.verdict
      Retentions.build_hash
  verdict_lem b c = elim (Bool-cases (str_eq (concat "sha-256:" (codec.sha256 c)) b.hash)) [
    | inl right ↦ rw right refl
    | inr wrong ↦ rw wrong refl
  ]

  missing_lem :
      (described : Result BlobDescription) (read : Result (Unit {0}) × Bytes)
      → Retentions.check_blob codec (ok false) described read ≡ verdict_of none
  unfolding Retentions.check_blob
  missing_lem described read = refl

  pub check_lem :
      (s : BlobStorage) (id : String)
      → accepts id ≡ true
      → IsValid codec s
      → Retentions.check_blob codec
          (SimpleFile.has_blob codec sound_disk s id)
          (SimpleFile.get_blob_description codec sound_disk s id)
          (SimpleFile.retrieve_blob codec sound_disk s id)
        ≡ verdict_of (Cells.contents codec s id)
  check_lem s id ok_id valid = elim (Option-cases (Cells.contents codec s id)) [
    | inl absent ↦ rw (Answers.has_blob_lem codec s id ok_id valid, absent) (missing_lem _ _)
    | inr (blob, there) ↦
        rw
          (
            Answers.has_blob_lem codec s id ok_id valid,
            Contents.found_description codec s id blob valid there,
            read_lem s id ok_id valid,
            there,
          )
          (verdict_lem blob.0 blob.1)
  ]
