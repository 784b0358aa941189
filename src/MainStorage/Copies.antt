-- ===== src/MainStorage/Copies.antt =====
-- The copies of one blob that a tenant's storage keeps (internal/services/business/mainstorage.go):
-- what it means that they agree, and what the copying functions do to them.
use mathlib.Core.Option
use go_blob_store.Prelude.{
  String, Bool, true, false, Option, none, some, is_some, List, [], ◌∷◌, ◌≡◌, ◌⊎◌, refl, ap, ◌∙◌,
  sym, subst, str_eq, str_eq→eq, All, Bool-cases, Option-cases, inl, inr,
}
use go_blob_store.Model.{BlobDescription, Bytes, Result-cases, ok}
use go_blob_store.Interfaces.{Services}
use go_blob_store.Interfaces.Lawful.{Blob, bytes_of, Fits, sound, IsLawful}
use go_blob_store.MainStorage
use go_blob_store.MainStorage.{MainStorage, Task}

-- a copy of the bytes `c`, or none at all
abbrev pub IsCopy : Bytes → Option Blob → Type 0
IsCopy c none = Unit
IsCopy c (some blob) = (blob.1 ≡ c) × Fits blob.0 c

abbrev pub IsHeld : Bytes → Option Blob → Type 0
IsHeld c o = bytes_of o ≡ some c

-- of a service that may not be configured
abbrev pub InOption {ℓ} : {S : Type ℓ} → (S → Type 0) → Option S → Type 0
InOption P none = Unit
InOption P (some s) = P s

pub is_some_of_held : (c : Bytes) (o : Option Blob) → IsHeld c o → is_some o ≡ true
is_some_of_held c none h = absurd (cc)
is_some_of_held c (some blob) h = refl

pub held_blob :
    (c : Bytes) (o : Option Blob) → IsHeld c o → (b : BlobDescription) × (o ≡ some (b, c))
held_blob c none h = absurd (cc)
held_blob c (some (b, c')) h = (b, ap (λ x. some (b, x)) (Option.some-injective c' c h))

pub held_of_copy : (c : Bytes) (o : Option Blob) → IsCopy c o → is_some o ≡ true → IsHeld c o
held_of_copy c none h k = absurd (cc)
held_of_copy c (some blob) h k = ap some h.0

module _ (accepts : String → Bool) (id : String) (c : Bytes) where
  -- the description of a copy that is made under its id
  abbrev pub IsReady : BlobDescription → Type 0
  IsReady b = (accepts b.blob_id ≡ true) × (str_eq b.blob_id id ≡ true → Fits b c)

  -- The task copies a blob under its own id, with a length that is right for the blob `id`.
  abbrev pub IsFine : Task → Type 0
  IsFine (Task.backup b i) = (i ≡ b.blob_id) × IsReady b
  IsFine (Task.tnt_backup b i) = (i ≡ b.blob_id) × IsReady b
  IsFine (Task.restore b) = IsReady b
  IsFine (Task.update_backup i b) = (b.blob_id ≡ i) × IsReady b
  IsFine (Task.cache b) = Unit
  IsFine (Task.sub_storage b) = Unit
  IsFine (Task.cache_by_id i) = Unit
  IsFine (Task.add_storage i) = Unit

  abbrev pub IsBackup : Task → Type 0
  IsBackup (Task.backup b i) = str_eq b.blob_id id ≡ true
  IsBackup (Task.tnt_backup b i) = ⊥
  IsBackup (Task.restore b) = ⊥
  IsBackup (Task.update_backup i b) = ⊥
  IsBackup (Task.cache b) = ⊥
  IsBackup (Task.sub_storage b) = ⊥
  IsBackup (Task.cache_by_id i) = ⊥
  IsBackup (Task.add_storage i) = ⊥

  -- a task that copies the blob to the backup is pending
  abbrev pub IsWaiting : List Task → Type 0
  IsWaiting [] = ⊥
  IsWaiting (t ∷ ts) = IsBackup t ⊎ IsWaiting ts

  module _ (srv : Services) (contents : Services.Store srv → String → Option Blob)
      (laws : IsLawful srv accepts contents) where
    open srv use {Store}

    -- The main storage has the blob, the backups have the same bytes or nothing, and no pending task
    -- will change this.
    pub record Agrees (m : MainStorage srv) : Type 0 where
      pub main : IsHeld c (contents m.stg_srv id)
      pub backup : InOption (λ t. IsCopy c (contents t id)) m.bck_srv
      pub tenant_backup : InOption (λ t. IsCopy c (contents t id)) m.tnt_bck_srv
      pub tasks : All IsFine m.pending

    abbrev pub OnBackup : MainStorage srv → Type 0
    OnBackup m = InOption (λ t. is_some (contents t id) ≡ true) m.bck_srv

    -- A step from `m` to `n` that keeps the copies in agreement, and a backup that has the blob or
    -- will get it.
    pub record Keeps (m n : MainStorage srv) : Type 0 where
      pub agrees : Agrees m → Agrees n
      pub on_backup : Agrees m → OnBackup m → OnBackup n
      pub waiting : Agrees m → IsWaiting m.pending → IsWaiting n.pending

    pub Keeps-refl : (m : MainStorage srv) → Keeps m m
    Keeps-refl m = record { agrees = λ a. a; on_backup = λ a h. h; waiting = λ a w. w }

    pub Keeps-trans : (m n k : MainStorage srv) → Keeps m n → Keeps n k → Keeps m k
    Keeps-trans m n k f g = record {
      agrees = λ a. g.agrees (f.agrees a);
      on_backup = λ a h. g.on_backup (f.agrees a) (f.on_backup a h);
      waiting = λ a w. g.waiting (f.agrees a) (f.waiting a w);
    }

    pub Keeps-given : (m n : MainStorage srv) → (Agrees m → Keeps m n) → Keeps m n
    Keeps-given m n f = record {
      agrees = λ a. (f a).agrees a;
      on_backup = λ a. (f a).on_backup a;
      waiting = λ a. (f a).waiting a;
    }

    -- What a copy does to a storage: the target of a copy of the blob `id`, seen as a map.
    pub record IsTarget (t u : Store) : Type 0 where
      pub copy : IsCopy c (contents t id) → IsCopy c (contents u id)
      pub present : is_some (contents t id) ≡ true → is_some (contents u id) ≡ true

    pub IsTarget-of_same : (t u : Store) → contents u id ≡ contents t id → IsTarget t u
    IsTarget-of_same t u e = record {
      copy = λ h. subst (IsCopy c) (sym e) h;
      present = λ h. ap is_some e ∙ h;
    }

    pub IsTarget-trans : (t u v : Store) → IsTarget t u → IsTarget u v → IsTarget t v
    IsTarget-trans t u v f g = record {
      copy = λ h. g.copy (f.copy h);
      present = λ h. g.present (f.present h);
    }

    pub Held-of_same :
        (s u : Store)
        → contents u id ≡ contents s id
        → IsHeld c (contents s id)
        → IsHeld c (contents u id)
    Held-of_same s u e h = ap bytes_of e ∙ h

    -- the source of a copy is only read
    pub piped-source :
        (s t : Store) (b : BlobDescription) (i j : String)
        → contents (MainStorage.piped srv s t b i).0 j ≡ contents s j
    unfolding MainStorage.piped
    piped-source s t b i j = laws.retrieve_same s i j

    -- A copy of another blob leaves this one.
    pub piped-other :
        (s t : Store) (b : BlobDescription) (i : String)
        → accepts b.blob_id ≡ true
        → str_eq b.blob_id id ≡ false
        → contents (MainStorage.piped srv s t b i).1 id ≡ contents t id
    unfolding MainStorage.piped
    piped-other s t b i valid other = laws.store_other t b _ id valid other

    -- A copy of this blob from a source that holds it to a target that lacks it.
    pub piped-new :
        (s t : Store) (b : BlobDescription)
        → accepts b.blob_id ≡ true
        → Fits b c
        → IsHeld c (contents s b.blob_id)
        → contents t b.blob_id ≡ none
        → (d : BlobDescription) × ((contents (MainStorage.piped srv s t b b.blob_id).1 b.blob_id
              ≡ some (d, c))
            × Fits d c)
    unfolding MainStorage.piped
    piped-new s t b valid fits held absent =
        let (d, here) = held_blob c (contents s b.blob_id) held in
        let (_, (_, (stored, fits'))) = laws.store_new t b c valid fits absent in
        simp (laws.retrieve_found s b.blob_id (d, c) here, MainStorage.piped)
          ((srv.store_blob t b (sound c)).0.1, (stored, fits'))

    IsTarget-of_new :
        (t u : Store) (d : BlobDescription) → contents u id ≡ some (d, c) → Fits d c → IsTarget t u
    IsTarget-of_new t u d e fits = record {
      copy = λ _. subst (IsCopy c) (sym e) (refl, fits);
      present = λ _. ap is_some e;
    }

    piped-IsTarget :
        (s t : Store) (b : BlobDescription)
        → IsReady b
        → IsHeld c (contents s id)
        → contents t b.blob_id ≡ none
        → IsTarget t (MainStorage.piped srv s t b b.blob_id).1
          × (str_eq b.blob_id id ≡ true
              → is_some (contents (MainStorage.piped srv s t b b.blob_id).1 id) ≡ true)
    piped-IsTarget s t b (valid, fits) held absent =
        let u = (MainStorage.piped srv s t b b.blob_id).1 in
        elim (Bool-cases (str_eq b.blob_id id)) [
          | inr other ↦ (
            IsTarget-of_same t u (piped-other s t b b.blob_id valid other),
            λ same. absurd (cc (same, other)),
          )
          | inl same ↦
              let e = str_eq→eq b.blob_id id same in
              let (d, (stored, fits')) =
                piped-new s t b valid (fits same)
                  (subst (λ i. IsHeld c (contents s i)) (sym e) held) absent in
              let here : contents u id ≡ some (d, c) =
                subst (λ i. contents u i ≡ some (d, c)) e stored in
              (IsTarget-of_new t u d here fits', λ _. ap is_some here)
        ]

    pub bck_file-source :
        (s t : Store) (b : BlobDescription) (i j : String)
        → contents (MainStorage.bck_file srv s t b i).0 j ≡ contents s j
    unfolding MainStorage.bck_file MainStorage.copy_if_absent
    bck_file-source s t b i j = elim (Result-cases (srv.has_blob t b.blob_id).0) [
      | inr (e, failed) ↦ simp (failed, MainStorage.bck_file, MainStorage.copy_if_absent) refl
      | inl (true, there) ↦ simp (there, MainStorage.bck_file, MainStorage.copy_if_absent) refl
      | inl (false, absent) ↦
          simp (absent, MainStorage.bck_file, MainStorage.copy_if_absent)
            (piped-source s (srv.has_blob t b.blob_id).1 b i j)
    ]

    -- The target of a copy keeps a copy of the blob `id`, and gets one if it is this that is copied.
    pub bck_file-IsTarget :
        (s t : Store) (b : BlobDescription)
        → IsReady b
        → IsHeld c (contents s id)
        → IsTarget t (MainStorage.bck_file srv s t b b.blob_id).1
          × (str_eq b.blob_id id ≡ true
              → is_some (contents (MainStorage.bck_file srv s t b b.blob_id).1 id) ≡ true)
    unfolding MainStorage.bck_file MainStorage.copy_if_absent
    bck_file-IsTarget s t b ready held =
        let t₁ = (srv.has_blob t b.blob_id).1 in
        let read = IsTarget-of_same t t₁ (laws.has_blob_same t b.blob_id id) in
        let present = laws.has_blob_law t b.blob_id ready.0 in
        elim (Option-cases (contents t b.blob_id)) [
          | inr (blob, e) ↦
              simp
                (
                  present ∙ ap (λ o. ok (is_some o)) e,
                  MainStorage.bck_file,
                  MainStorage.copy_if_absent,
                )
                (
                  read,
                  λ same. ap is_some (
                      ap (contents t₁) (sym (str_eq→eq b.blob_id id same))
                      ∙ laws.has_blob_same t b.blob_id b.blob_id
                      ∙ e),
                )
          | inl e ↦
              let (target, filled) =
                piped-IsTarget s t₁ b ready held (laws.has_blob_same t b.blob_id b.blob_id ∙ e) in
              simp
                (
                  present ∙ ap (λ o. ok (is_some o)) e,
                  MainStorage.bck_file,
                  MainStorage.copy_if_absent,
                )
                (IsTarget-trans t t₁ _ read target, filled)
        ]

    -- A blob that is held is held after it was stored again from a storage that agrees.
    pub piped-again :
        (t s : Store) (b : BlobDescription)
        → IsReady b
        → IsCopy c (contents t id)
        → is_some (contents t b.blob_id) ≡ true
        → IsHeld c (contents s id)
        → IsHeld c (contents (MainStorage.piped srv t s b b.blob_id).1 id)
    unfolding MainStorage.piped
    piped-again t s b (valid, fits) copy there held = elim (Bool-cases (str_eq b.blob_id id)) [
      | inr other ↦
          Held-of_same s (MainStorage.piped srv t s b b.blob_id).1
            (piped-other t s b b.blob_id valid other) held
      | inl same ↦
          let e = str_eq→eq b.blob_id id same in
          let at_source : IsHeld c (contents t b.blob_id) =
            held_of_copy c (contents t b.blob_id)
              (subst (λ i. IsCopy c (contents t i)) (sym e) copy) there in
          let (d, here) = held_blob c (contents t b.blob_id) at_source in
          let again : IsHeld c (contents (srv.store_blob s b (sound c)).1 b.blob_id) =
            elim (laws.store_again s b c valid (fits same)) [
              | inl kept ↦ kept ∙ subst (λ i. IsHeld c (contents s i)) (sym e) held
              | inr new ↦ new
            ] in
          simp (laws.retrieve_found t b.blob_id (d, c) here, MainStorage.piped)
            (subst (λ i. IsHeld c (contents (srv.store_blob s b (sound c)).1 i)) e again)
    ]
