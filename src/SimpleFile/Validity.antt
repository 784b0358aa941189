-- ===== src/SimpleFile/Validity.antt =====
-- Every operation of internal/services/simplefile keeps a storage without files of version 1 valid,
-- on a disk whose calls do not fail.
use mathlib.Core.Option
use go_blob_store.Prelude.{
  [], String, true, Option, none, some, is_some, ◌≡◌, refl, ap, ◌∙◌, sym, subst, str_eq, str_eq→eq,
  str_eq_refl, Bool-cases, inl, inr,
}
use go_blob_store.Model.{BlobDescription, Bytes, Reader, Result-cases, ok}
use go_blob_store.SimpleFile
use go_blob_store.SimpleFile.{
  BlobStorage, Codec, cached, with_directory, and_then, if_missing, is_not_exist, write_json,
}
use go_blob_store.SimpleFile.Files.{dir_of, put-same}
use go_blob_store.SimpleFile.Cells.{cell, accepts, is_plain, IsEntry, IsKeyed, IsValid, sound_disk}
use go_blob_store.SimpleFile.Effects
use go_blob_store.SimpleFile.Effects.{IsChange, with_bin, with_json, cell_of}
use go_blob_store.SimpleFile.Storing
use go_blob_store.SimpleFile.Storing.{is_wrong, measured, store_named}

module _ (codec : Codec) where
  -- a change of one blob that leaves it an entry
  pub IsValid-of_change :
      (s t : BlobStorage) (id : String)
      → IsValid codec s
      → IsChange s t id
      → (is_some (t.bin_v2 id) ≡ true → t.directories (dir_of id) ≡ true)
      → IsEntry codec id (cell t id)
      → IsValid codec t
  IsValid-of_change s t id valid change place entry = record {
    no_bin_v1 = λ j. ap (λ d. d j) change.bins_v1 ∙ valid.no_bin_v1 j;
    no_json_v1 = λ j. ap (λ d. d j) change.jsons_v1 ∙ valid.no_json_v1 j;
    entries = λ j. elim (Bool-cases (str_eq id j)) [
      | inl same ↦ subst (λ i. IsEntry codec i (cell t i)) (str_eq→eq id j same) entry
      | inr other ↦ subst (IsEntry codec j) (sym (change.others j other)) (valid.entries j)
    ];
    placed = λ j there. elim (Bool-cases (str_eq id j)) [
      | inl same ↦
          subst (λ i. is_some (t.bin_v2 i) ≡ true → t.directories (dir_of i) ≡ true)
            (str_eq→eq id j same) place there
      | inr other ↦
          change.grown (dir_of j)
            (valid.placed j (sym (ap (λ e. is_some e.bin) (change.others j other)) ∙ there))
    ];
  }

  -- an entry that loses its bytes, its description's file or both
  pub IsEntry-emptied :
      (id : String) (json json' : Option Bytes) (cch cch' : Option BlobDescription)
      → ((js : Bytes) → json' ≡ some js → json ≡ some js)
      → ((b : BlobDescription) → cch' ≡ some b → cch ≡ some b)
      → (bin : Option Bytes) → IsEntry codec id (record { bin = bin; json = json; cch = cch })
      → IsEntry codec id (record { bin = none; json = json'; cch = cch' })
  IsEntry-emptied id json json' cch cch' fewer less bin entry = record {
    has_json = λ h. absurd (cc (h));
    described = λ h. absurd (cc (h));
    json_keyed = λ js b e. entry.json_keyed js b (fewer js e);
    cch_keyed = λ b e. entry.cch_keyed b (less b e);
  }

  -- an entry with a description that was stored
  pub IsEntry-stored :
      (id : String) (bin : Option Bytes) (js : Bytes) (b : BlobDescription)
      → IsKeyed codec
      → is_plain codec b ≡ true
      → accepts id ≡ true
      → b.blob_id ≡ id
      → codec.marshal b ≡ ok js
      → IsEntry codec id (record { bin = bin; json = some js; cch = some b })
  IsEntry-stored id bin js b law plain ok_id key good = record {
    has_json = λ _. refl;
    described = λ _. (b, refl);
    json_keyed = λ js' b' e e'. (
      law.keyed b b' js plain good (ap codec.unmarshal (Option.some-injective js js' e) ∙ e') ∙ key,
      ok_id,
    );
    cch_keyed = λ b' e. (ap (λ x. x.blob_id) (sym (Option.some-injective b b' e)) ∙ key, ok_id);
  }

  emptied-IsChange :
      (s : BlobStorage) (id : String) (c : Bytes)
      → accepts id ≡ true
      → IsChange s (SimpleFile.delete_files_v2 codec sound_disk (with_bin s id (some c)) id).1 id
  emptied-IsChange s id c ok_id =
      let t = with_bin s id (some c) in
      Effects.IsChange-trans s t _ id (Effects.with_bin-IsChange s id (some c))
        (Effects.delete_files_v2-IsEmptied codec t id c ok_id
          (put-same s.bin_v2 id (some c))).change

  pub emptied-IsValid :
      (s : BlobStorage) (id : String) (c : Bytes)
      → accepts id ≡ true
      → IsValid codec s
      → IsValid codec (SimpleFile.delete_files_v2 codec sound_disk (with_bin s id (some c)) id).1
  emptied-IsValid s id c ok_id valid =
      let t = with_bin s id (some c) in
      let done =
        Effects.delete_files_v2-IsEmptied codec t id c ok_id (put-same s.bin_v2 id (some c)) in
      IsValid-of_change s _ id valid (emptied-IsChange s id c ok_id)
        (λ there. absurd (cc (ap (λ e. e.bin) done.emptied, there)))
        (subst (IsEntry codec id) (sym done.emptied) (
          IsEntry-emptied id (s.json_v2 id) none (s.bd_cch id) (s.bd_cch id)
            (λ js e. absurd (cc (e))) (λ b e. e) (s.bin_v2 id) (valid.entries id)))

  pub directory_made :
      (s : BlobStorage) (id : String) → (with_directory s id).directories (dir_of id) ≡ true
  directory_made s id = rw (str_eq_refl (dir_of id)) refl

  pub directory-IsValid :
      (s : BlobStorage) (id : String) → IsValid codec s → IsValid codec (with_directory s id)
  directory-IsValid s id valid = record {
    no_bin_v1 = valid.no_bin_v1;
    no_json_v1 = valid.no_json_v1;
    entries = valid.entries;
    placed = λ j there.
        (Effects.with_directory-IsChange s id id).grown (dir_of j) (valid.placed j there);
  }

  -- the files with a description and its bytes
  abbrev pub filed : BlobStorage → String → Bytes → Bytes → BlobDescription → BlobStorage
  filed s id c js b = cached (with_json (with_bin s id (some c)) id (some js)) id (some b)

  filed-IsChange :
      (s : BlobStorage) (id : String) (c js : Bytes) (b : BlobDescription)
      → IsChange s (filed s id c js b) id
  filed-IsChange s id c js b =
      let t = with_bin s id (some c) in
      let u = with_json t id (some js) in
      Effects.IsChange-trans s t _ id (Effects.with_bin-IsChange s id (some c)) (
        Effects.IsChange-trans t u _ id (Effects.with_json-IsChange t id (some js))
          (Effects.cached-IsChange u id (some b)))

  -- the files after a successful store of the description that comes back as `b'`
  pub stored-IsChange :
      (s : BlobStorage) (id : String) (c js : Bytes) (b : BlobDescription)
      → IsChange s (filed (with_directory s id) id c js b) id
  stored-IsChange s id c js b =
      Effects.IsChange-trans s (with_directory s id) _ id (Effects.with_directory-IsChange s id id)
        (filed-IsChange (with_directory s id) id c js b)

  pub stored-cell :
      (s : BlobStorage) (b : BlobDescription) (c js : Bytes) (b' : BlobDescription)
      → let id = b.blob_id in
        cell (filed (with_directory s id) id c js b') id
        ≡ record { bin = some c; json = some js; cch = some b' }
  unfolding cached
  stored-cell s b c js b' =
      let id = b.blob_id in
      let u = with_json (with_bin (with_directory s id) id (some c)) id (some js) in
      cell_of (cached u id (some b')) id (put-same s.bin_v2 id (some c))
        (put-same s.json_v2 id (some js)) (rw (str_eq_refl id) refl)

  pub stored-IsValid :
      (s : BlobStorage) (b : BlobDescription) (c js : Bytes)
      → IsKeyed codec
      → is_plain codec b ≡ true
      → accepts b.blob_id ≡ true
      → IsValid codec s
      → codec.marshal b ≡ ok js
      → IsValid codec (filed (with_directory s b.blob_id) b.blob_id c js b)
  stored-IsValid s b c js law plain ok_id valid good =
      let id = b.blob_id in
      IsValid-of_change s _ id valid (stored-IsChange s id c js b)
        (λ _.
          (filed-IsChange (with_directory s id) id c js b).grown (dir_of id) (directory_made s id))
        (subst (IsEntry codec id) (sym (stored-cell s b c js b))
          (IsEntry-stored id (some c) js b law plain ok_id refl good))

  within :
      (s : BlobStorage) (id : String) {t : BlobStorage}
      → IsChange (with_directory s id) t id
      → IsChange s t id
  within s id change =
      Effects.IsChange-trans s (with_directory s id) _ id (Effects.with_directory-IsChange s id id)
        change

  broken-IsChange :
      (s : BlobStorage) (id : String)
      → IsChange s (with_bin (with_bin (with_directory s id) id (some [])) id none) id
  broken-IsChange s id =
      let t = with_bin (with_directory s id) id (some []) in
      within s id (
        Effects.IsChange-trans (with_directory s id) t _ id
          (Effects.with_bin-IsChange (with_directory s id) id (some []))
          (Effects.with_bin-IsChange t id none))

  broken-IsValid :
      (s : BlobStorage) (id : String)
      → IsValid codec s
      → IsValid codec (with_bin (with_bin (with_directory s id) id (some [])) id none)
  broken-IsValid s id valid =
      let t = with_bin (with_directory s id) id (some []) in
      let u = with_bin t id none in
      IsValid-of_change s u id valid (broken-IsChange s id)
        (λ there. absurd (cc (put-same t.bin_v2 id none, there)))
        (subst (IsEntry codec id) (sym (cell_of u id (put-same t.bin_v2 id none) refl refl)) (
          IsEntry-emptied id (s.json_v2 id) (s.json_v2 id) (s.bd_cch id) (s.bd_cch id) (λ js e. e)
            (λ b e. e) (s.bin_v2 id) (valid.entries id)))

  named-plain :
      (b : BlobDescription)
      → is_plain codec b ≡ true
      → is_plain codec (SimpleFile.named codec b) ≡ true
  unfolding SimpleFile.named is_plain
  named-plain b plain = elim (Bool-cases (str_eq b.blob_id "")) [
    | inl unnamed ↦ rw unnamed plain
    | inr has_name ↦ rw has_name plain
  ]

  pub measured-plain :
      (b : BlobDescription) (c : Bytes)
      → is_plain codec b ≡ true
      → is_plain codec (measured codec b c) ≡ true
  unfolding is_plain
  measured-plain b c plain = plain

  -- A store changes the blob that it is about.
  pub store_named-IsChange :
      (s : BlobStorage) (b : BlobDescription) (r : Reader)
      → IsChange s (store_named codec s b r).1 b.blob_id
  store_named-IsChange s b r = elim (Bool-cases (accepts b.blob_id)) [
    | inr refused ↦
        subst (λ t. IsChange s t b.blob_id) (sym (Storing.store_refused codec s b r refused))
          (Effects.IsChange-refl s b.blob_id)
    | inl ok_id ↦ elim (Bool-cases r.broken) [
      | inl broken ↦
          subst (λ x. IsChange s x.1 b.blob_id)
            (sym (Storing.store_broken codec s b r ok_id broken)) (broken-IsChange s b.blob_id)
      | inr whole ↦ elim (Bool-cases (is_wrong b r.content)) [
        | inl wrong ↦
            subst (λ x. IsChange s x.1 b.blob_id)
              (sym (Storing.store_wrong codec s b r ok_id whole wrong))
              (within s b.blob_id
                (emptied-IsChange (with_directory s b.blob_id) b.blob_id r.content ok_id))
        | inr right ↦ elim (Result-cases (codec.marshal (measured codec b r.content))) [
          | inr (e, bad) ↦
              subst (λ x. IsChange s x.1 b.blob_id)
                (sym (Storing.store_unwritten codec s b r e ok_id whole right bad))
                (within s b.blob_id
                  (emptied-IsChange (with_directory s b.blob_id) b.blob_id r.content ok_id))
          | inl (js, good) ↦
              subst (λ x. IsChange s x.1 b.blob_id)
                (sym (Storing.store_whole codec s b r js ok_id whole right good))
                (stored-IsChange s b.blob_id r.content js (measured codec b r.content))
        ]
      ]
    ]
  ]

  store_named-IsValid :
      (s : BlobStorage) (b : BlobDescription) (r : Reader)
      → IsKeyed codec
      → is_plain codec b ≡ true
      → IsValid codec s
      → IsValid codec (store_named codec s b r).1
  store_named-IsValid s b r law plain valid = elim (Bool-cases (accepts b.blob_id)) [
    | inr refused ↦ subst (IsValid codec) (sym (Storing.store_refused codec s b r refused)) valid
    | inl ok_id ↦ elim (Bool-cases r.broken) [
      | inl broken ↦
          subst (λ x. IsValid codec x.1) (sym (Storing.store_broken codec s b r ok_id broken))
            (broken-IsValid s b.blob_id valid)
      | inr whole ↦ elim (Bool-cases (is_wrong b r.content)) [
        | inl wrong ↦
            subst (λ x. IsValid codec x.1) (sym (Storing.store_wrong codec s b r ok_id whole wrong))
              (emptied-IsValid (with_directory s b.blob_id) b.blob_id r.content ok_id
                (directory-IsValid s b.blob_id valid))
        | inr right ↦ elim (Result-cases (codec.marshal (measured codec b r.content))) [
          | inr (e, bad) ↦
              subst (λ x. IsValid codec x.1)
                (sym (Storing.store_unwritten codec s b r e ok_id whole right bad))
                (emptied-IsValid (with_directory s b.blob_id) b.blob_id r.content ok_id
                  (directory-IsValid s b.blob_id valid))
          | inl (js, good) ↦
              subst (λ x. IsValid codec x.1)
                (sym (Storing.store_whole codec s b r js ok_id whole right good))
                (stored-IsValid s (measured codec b r.content) r.content js law
                  (measured-plain b r.content plain) ok_id valid good)
        ]
      ]
    ]
  ]

  -- A store, of whatever plain description and from whatever reader, keeps the storage valid.
  pub store_blob-IsValid :
      (s : BlobStorage) (b : BlobDescription) (r : Reader)
      → IsKeyed codec
      → is_plain codec b ≡ true
      → IsValid codec s
      → IsValid codec (SimpleFile.store_blob_v2 codec sound_disk s b r).1
  unfolding SimpleFile.store_blob_v2
  store_blob-IsValid s b r law plain valid =
      store_named-IsValid s (SimpleFile.named codec b) r law (named-plain b plain) valid
