-- ===== src/Tests/Maps.antt =====
-- A blob storage (internal/services/interfaces/blobstoredao.go) that is a map from ids to blobs.
use go_blob_store.Prelude.{
  ◌≡◌, refl, String, ℤ, true, false, Option, none, some, is_some, List, [], ◌∷◌, str_eq, ap,
  str_eq_refl, if◌then◌else◌, sym, str_eq→eq, Bool-cases, Option-cases, inl, inr, ◌∙◌, ◌⊎◌, ℕ,
  length, Bool, pos,
}
use go_blob_store.Model.{BlobDescription, Bytes, CheckInfo, Error, Reader, Result, ok, err}
use go_blob_store.Interfaces.{Services}
use go_blob_store.Interfaces.Lawful.{Blob, bytes_of, Fits, sound, IsLawful}

abbrev pub Map : Type 0
Map = String → Option Blob

abbrev pub put : Map → String → Option Blob → Map
put s id blob j = if str_eq id j then blob else s j

-- a description stands for the id that it is under
abbrev of_key : String → Option Blob → Option Blob
of_key id none = none
of_key id (some (b, c)) = some (record b { blob_id = id }, c)

abbrev pub contents : Map → String → Option Blob
contents s id = of_key id (s id)

abbrev pub accepts : String → Bool
accepts id = true

abbrev pub measured : BlobDescription → ℕ → BlobDescription
measured b n = record b { content_length = pos n }

unfoldable pub map_store : Map → BlobDescription → Reader → (Result String × BlobDescription) × Map
map_store s b r = elim (contents s b.blob_id) [
  | some _ ↦ ((err Error.exist, b), s)
  | none ↦ if r.broken then ((err Error.eof, b), s) else (
    (ok b.blob_id, measured b (length r.content)),
    put s b.blob_id (some (measured b (length r.content), r.content)),
  )
]

abbrev described : Option Blob → Result BlobDescription
described none = err Error.not_exist
described (some blob) = ok blob.0

abbrev read : Option Blob → Result (Unit {0}) × Bytes
read none = (err Error.not_exist, [])
read (some blob) = (ok tt, blob.1)

abbrev removed : Option Blob → Result (Unit {0})
removed none = err Error.not_exist
removed (some blob) = ok tt

abbrev described_as : BlobDescription → Option Blob → Option Blob
described_as b none = none
described_as b (some blob) = some (b, blob.1)

-- a check finds every blob healthy that is there
abbrev checked : Option Blob → Result CheckInfo
checked none = err Error.not_exist
checked (some blob) = ok (record { last_check = none; healthy = true; message = "" })

-- the ids of two blobs, as far as they are there
abbrev listed : Map → List String
listed s =
    let rest = if is_some (s "bb01") then "bb01" ∷ [] else [] in
    if is_some (s "aa01") then "aa01" ∷ rest else rest

abbrev pub maps : Services
maps = record {
  Store = Map;
  get_blobs = λ s f. ((ok tt, listed s), s);
  store_blob = map_store;
  has_blob = λ s id. (ok (is_some (contents s id)), s);
  get_blob_description = λ s id. (described (contents s id), s);
  update_blob_description = λ s id b. (removed (contents s id), put s id (described_as b (s id)));
  retrieve_blob = λ s id. (read (contents s id), s);
  delete_blob = λ s id. (removed (contents s id), put s id none);
  check_blob = λ s id. (checked (contents s id), s);
  get_all_retentions = λ s f. ((ok tt, []), s);
  add_retention = λ s r. (ok tt, s);
  get_retention = λ s id. (err Error.not_exist, s);
  delete_retention = λ s id. (ok tt, s);
  reset_retention = λ s id. (ok tt, s);
  close = λ s. (ok tt, s);
  Retentions = Unit;
  manager_add_retention = λ s t r. (ok tt, s);
  manager_delete_retention = λ s t id. (ok tt, s);
  Index = Unit;
  index = λ s id b. (ok tt, s);
  search = λ s q f. ((ok tt, []), s);
  Tenants = List (String × ℤ);
  add_size = λ s t n. (t, n) ∷ s;
  sub_size = λ s t n. (t, n) ∷ s;
}

abbrev Stored : Map → BlobDescription → Bytes → Type 0
Stored s b c =
    ((map_store s b (sound c)).0.0 ≡ ok b.blob_id)
    × (((map_store s b (sound c)).0.1.blob_id ≡ b.blob_id)
        × ((contents (map_store s b (sound c)).1 b.blob_id
              ≡ some ((map_store s b (sound c)).0.1, c))
            × Fits (map_store s b (sound c)).0.1 c))

put_same_id : (s : Map) (id : String) (o : Option Blob) → put s id o id ≡ o
put_same_id s id o = rw (str_eq_refl id) refl

pub map_new :
    (s : Map) (b : BlobDescription) (c : Bytes) → contents s b.blob_id ≡ none → Stored s b c
unfolding map_store
map_new s b c e =
    simp (e, map_store)
      (
        refl,
        (
          refl,
          (
            ap (of_key b.blob_id) (put_same_id s b.blob_id (some (measured b (length c), c))),
            λ _. refl,
          ),
        ),
      )

map_other :
    (s : Map) (b : BlobDescription) (r : Reader) (id : String)
    → str_eq b.blob_id id ≡ false
    → contents (map_store s b r).1 id ≡ contents s id
unfolding map_store
map_other s b r id other = elim (Option-cases (contents s b.blob_id)) [
  | inr (blob, e) ↦ simp (e, map_store) refl
  | inl e ↦ elim (Bool-cases r.broken) [
    | inl broken ↦ simp (e, broken, map_store) refl
    | inr whole ↦ simp (e, whole, map_store) (ap (of_key id) (rw other refl))
  ]
]

map_again :
    (s : Map) (b : BlobDescription) (c : Bytes)
    → let after = bytes_of (contents (map_store s b (sound c)).1 b.blob_id) in
      (after ≡ bytes_of (contents s b.blob_id)) ⊎ (after ≡ some c)
unfolding map_store
map_again s b c = elim (Option-cases (contents s b.blob_id)) [
  | inr (blob, e) ↦ inl (simp (e, map_store) refl)
  | inl e ↦ inr (ap bytes_of (map_new s b c e).1.1.0)
]

removed_of_some : (o : Option Blob) → is_some o ≡ true → removed o ≡ ok tt
removed_of_some none h = absurd (cc)
removed_of_some (some blob) h = refl

nothing_there : (s : Map) (id : String) → contents s id ≡ none → s id ≡ none
nothing_there s id e = elim (Option-cases (s id)) [
  | inl nothing ↦ nothing
  | inr (blob, there) ↦ absurd (cc (ap (of_key id) there, e))
]

put_same : (s : Map) (id j : String) (o : Option Blob) → o ≡ s id → put s id o j ≡ s j
put_same s id j o e = elim (Bool-cases (str_eq id j)) [
  | inl same ↦ rw same (e ∙ ap s (str_eq→eq id j same))
  | inr other ↦ rw other refl
]

map_update :
    (s : Map) (id j : String) (b : BlobDescription)
    → b.blob_id ≡ id
    → let after = contents (put s id (described_as b (s id))) j in
      (after ≡ contents s j)
      ⊎ ((j ≡ id) × ((blob : Blob) × ((contents s j ≡ some blob) × (after ≡ some (b, blob.1)))))
map_update s id j b key = elim (Bool-cases (str_eq id j)) [
  | inr other ↦ inl (rw other refl)
  | inl same ↦
      let e = str_eq→eq id j same in
      elim (Option-cases (s j)) [
        | inl nothing ↦ inl (rw (same, e, nothing) refl)
        | inr (blob, there) ↦ inr (
          sym e,
          (
            (record (blob.0) { blob_id = j }, blob.1),
            (
              ap (of_key j) there,
              rw (same, e, there)
                  (ap (λ k. some (record b { blob_id = k }, blob.1)) (sym (key ∙ e))),
            ),
          ),
        )
      ]
]

described_key :
    (id : String) (o : Option Blob) (b : BlobDescription)
    → described (of_key id o) ≡ ok b
    → b.blob_id ≡ id
described_key id none b h = absurd (cc)
described_key id (some blob) b h = cc (h)

pub maps-IsLawful : IsLawful maps accepts contents
maps-IsLawful = record {
  store_new = λ s b c valid fits absent. map_new s b c absent;
  store_again = λ s b c valid fits. map_again s b c;
  store_other = λ s b r id valid other. map_other s b r id other;
  has_blob_law = λ s id valid. refl;
  has_blob_same = λ s id j. refl;
  description_found = λ s id blob e. ap described e;
  description_key = λ s id b e. (described_key id (s id) b e, refl);
  description_same = λ s id j. refl;
  retrieve_found = λ s id blob e. ap read e;
  retrieve_missing = λ s id valid e. ap read e;
  retrieve_same = λ s id j. refl;
  delete_found =
      λ s id h. (removed_of_some (contents s id) h, ap (of_key id) (put_same_id s id none));
  delete_other = λ s id j other. ap (of_key j) (rw other refl);
  delete_missing =
      λ s id j absent. ap (of_key j) (put_same s id j none (sym (nothing_there s id absent)));
  update_law = map_update;
}
