-- ===== src/SimpleFile/Reopening.antt =====
-- What internal/services/simplefile has of a blob after the storage is opened again: the cache of
-- descriptions is empty, and the files are what they were.
use mathlib.Core.Option
use Prim.Native.String.{◌++◌ as concat}
use go_blob_store.Prelude.{
  String, true, false, Option, none, some, is_some, ◌≡◌, refl, ap, ◌∙◌, sym, str_eq, str_eq→eq,
  str_eq_refl, Bool-cases, inl, inr,
}
use go_blob_store.Model.{BlobDescription, Bytes, ok}
use go_blob_store.Interfaces.Lawful.{Fits, sound}
use go_blob_store.SimpleFile
use go_blob_store.SimpleFile.{BlobStorage, Codec}
use go_blob_store.SimpleFile.Answers
use go_blob_store.SimpleFile.Cells.{accepts, found, is_plain, IsKeyed, IsValid, sound_disk}
use go_blob_store.SimpleFile.Contents
use go_blob_store.SimpleFile.Retentions.{build_hash, check_blob, check_described, verdict}
use go_blob_store.SimpleFile.Storing
use go_blob_store.SimpleFile.Validity

module _ (codec : Codec) where
  -- each description on the disk can be decoded
  abbrev pub IsReadable : BlobStorage → Type 0
  IsReadable s =
      (id : String) (js : Bytes)
      → s.json_v2 id ≡ some js
      → (b : BlobDescription) × (codec.unmarshal js ≡ ok b)

  init_lem :
      (s : BlobStorage)
      → str_eq s.tenant "" ≡ false
      → SimpleFile.init codec sound_disk s ≡ (ok tt, record s { bd_cch = λ _. none })
  unfolding SimpleFile.init
  init_lem s named = simp (named, SimpleFile.init) refl

  reopened-IsValid :
      (s : BlobStorage)
      → IsReadable s
      → IsValid codec s
      → IsValid codec (record s { bd_cch = λ _. none })
  reopened-IsValid s readable valid = record {
    no_bin_v1 = valid.no_bin_v1;
    no_json_v1 = valid.no_json_v1;
    placed = valid.placed;
    entries = λ id. record {
      has_json = (valid.entries id).has_json;
      described =
          λ there. described_on_disk id (s.json_v2 id) refl ((valid.entries id).has_json there);
      json_keyed = (valid.entries id).json_keyed;
      cch_keyed = λ b e. absurd (cc (e));
    };
  }
    where
      described_on_disk :
          (id : String) (json : Option Bytes)
          → s.json_v2 id ≡ json
          → is_some json ≡ true
          → (b : BlobDescription) × (found codec none json ≡ ok b)
      described_on_disk id none p h = absurd (cc (h))
      described_on_disk id (some js) p h = readable id js p

  stored-IsReadable :
      (s : BlobStorage) (b : BlobDescription) (c js : Bytes)
      → IsReadable s
      → codec.unmarshal js ≡ ok (Storing.measured codec b c)
      → IsReadable (Contents.stored codec s b c js)
  stored-IsReadable s b c js readable back id js' e = elim (Bool-cases (str_eq b.blob_id id)) [
    | inr other ↦ readable id js' (
        sym (
          ap (λ x. x.json)
            ((Validity.stored-IsChange codec s b.blob_id c js (Storing.measured codec b c)).others
              id other))
        ∙ e)
    | inl same ↦
        (let here =
            ap (λ x. x.json) (Validity.stored-cell codec s b c js (Storing.measured codec b c)) in
          (
            Storing.measured codec b c,
            ap codec.unmarshal (
                  Option.some-injective js' js (
                    sym e
                    ∙ ap (Contents.stored codec s b c js).json_v2
                        (sym (str_eq→eq b.blob_id id same))
                    ∙ here))
                ∙ back,
          ))
  ]

  tenant_kept :
      (s : BlobStorage) (b : BlobDescription) (c js : Bytes)
      → str_eq s.tenant "" ≡ false
      → str_eq (Contents.stored codec s b c js).tenant "" ≡ false
  unfolding SimpleFile.cached
  tenant_kept s b c js h = h

  stored_again :
      (s : BlobStorage) (b : BlobDescription) (c js : Bytes)
      → IsKeyed codec
      → is_plain codec b ≡ true
      → accepts b.blob_id ≡ true
      → IsValid codec s
      → codec.marshal (Storing.measured codec b c) ≡ ok js
      → IsValid codec (Contents.stored codec s b c js)
  stored_again s b c js law plain ok_id valid good =
      Validity.stored-IsValid codec s (Storing.measured codec b c) c js law
        (Validity.measured-plain codec b c plain) ok_id valid good

  checked :
      (b : BlobDescription) (c : Bytes)
      → check_blob codec (ok true) (ok (Storing.measured codec b c)) (ok tt, c)
        ≡ ok (record { last_check = some codec.now; healthy = true; message = "" })
  unfolding check_blob check_described verdict build_hash
  checked b c = rw (str_eq_refl (concat "sha-256:" (codec.sha256 c))) refl

  -- In a valid storage of a named tenant, a blob that was stored under an id of at least four bytes,
  -- with a length that fits and no property named like the id's field, is there when the storage is
  -- opened again, if its description is read as it was written and the other descriptions can be
  -- read: with the same description, the same bytes, and a hash that a check finds correct. The codec
  -- keeps the id of each description without such a property.
  pub init-store_blob :
      (s : BlobStorage) (b : BlobDescription) (c js : Bytes)
      → IsKeyed codec
      → is_plain codec b ≡ true
      → IsValid codec s
      → IsReadable s
      → str_eq s.tenant "" ≡ false
      → accepts b.blob_id ≡ true
      → Fits b c
      → codec.marshal (Storing.measured codec b c) ≡ ok js
      → codec.unmarshal js ≡ ok (Storing.measured codec b c)
      → let t = (SimpleFile.store_blob_v2 codec sound_disk s b (sound c)).1 in
        let u = (SimpleFile.init codec sound_disk t).1 in
        let read = SimpleFile.retrieve_blob codec sound_disk u b.blob_id in
        let described = SimpleFile.get_blob_description codec sound_disk u b.blob_id in
        (described ≡ ok (Storing.measured codec b c))
        × ((read ≡ (ok tt, c))
            × (check_blob codec (SimpleFile.has_blob codec sound_disk u b.blob_id) described read
                ≡ ok (record { last_check = some codec.now; healthy = true; message = "" })))
  init-store_blob s b c js law plain valid readable tenant ok_id fits good back =
      let id = b.blob_id in
      let b' = Storing.measured codec b c in
      let t = Contents.stored codec s b c js in
      let u : BlobStorage = record t { bd_cch = λ _. none } in
      let e = Validity.stored-cell codec s b c js b' in
      let valid' : IsValid codec u =
        reopened-IsValid t (stored-IsReadable s b c js readable back)
          (stored_again s b c js law plain ok_id valid good) in
      let described : SimpleFile.get_blob_description codec sound_disk u id ≡ ok b' =
        Answers.get_blob_description_lem codec u id ok_id valid'
        ∙ ap (λ x. found codec none x.json) e
        ∙ back in
      let bytes : u.bin_v2 id ≡ some c = ap (λ x. x.bin) e in
      let read = Answers.retrieve_found codec u id c valid' bytes in
      let present =
        Answers.has_blob_lem codec u id ok_id valid'
        ∙ ap ok (Answers.contents_of_bin codec u id valid' ∙ ap is_some bytes) in
      rw
        (
          Contents.store_lem codec s b c js ok_id fits good,
          init_lem t (tenant_kept s b c js tenant),
        )
        (described, (read, rw (present, described, read) (checked b c)))
