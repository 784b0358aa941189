-- ===== src/MainStorage/Steps.antt =====
-- The pending tasks of internal/services/business/mainstorage.go keep the copies of a blob in
-- agreement.
use go_blob_store.Prelude.{
  String, Bool, true, false, Option, some, is_some, List, [], ◌∷◌, ◌++◌, ◌≡◌, refl, ap, ◌∙◌, subst,
  str_eq, str_eq→eq, All, Bool-cases, Option-cases, inl, inr,
}
use go_blob_store.Model.{BlobDescription, Bytes, Error, Result-cases, ok, err}
use go_blob_store.Interfaces.{Services}
use go_blob_store.Interfaces.Lawful.{Blob, IsLawful}
use go_blob_store.MainStorage
use go_blob_store.MainStorage.{MainStorage, Task, run_task}
use go_blob_store.MainStorage.Copies
use go_blob_store.MainStorage.Copies.{
  IsCopy, IsHeld, IsFine, IsReady, IsWaiting, IsTarget, InOption,
}

module _ (accepts : String → Bool) (id : String) (c : Bytes) (srv : Services)
    (contents : Services.Store srv → String → Option Blob) (laws : IsLawful srv accepts contents)
    (valid : accepts id ≡ true) where
  open srv use {Store}

  abbrev pub Agrees : MainStorage srv → Type 0
  Agrees m = Copies.Agrees accepts id c srv contents laws m

  abbrev pub Keeps : MainStorage srv → MainStorage srv → Type 0
  Keeps m n = Copies.Keeps accepts id c srv contents laws m n

  abbrev pub keeps_trans : (m n k : MainStorage srv) → Keeps m n → Keeps n k → Keeps m k
  keeps_trans = Copies.Keeps-trans accepts id c srv contents laws

  abbrev pub keeps_refl : (m : MainStorage srv) → Keeps m m
  keeps_refl = Copies.Keeps-refl accepts id c srv contents laws

  pub All-append :
      (ts us : List Task)
      → All (IsFine accepts id c) ts
      → All (IsFine accepts id c) us
      → All (IsFine accepts id c) (ts ++ us)
  All-append [] us h k = k
  All-append (t ∷ ts) us h k = (h.0, All-append ts us h.1 k)

  pub IsWaiting-append :
      (ts us : List Task) → IsWaiting accepts id c ts → IsWaiting accepts id c (ts ++ us)
  IsWaiting-append [] us h = absurd h
  IsWaiting-append (t ∷ ts) us (inl h) = inl h
  IsWaiting-append (t ∷ ts) us (inr h) = inr (IsWaiting-append ts us h)

  -- a step that changes nothing that the copies consist of, but for tasks that are added
  pub Keeps-of_tasks :
      (m n : MainStorage srv) (us : List Task)
      → m.stg_srv ≡ n.stg_srv
      → m.bck_srv ≡ n.bck_srv
      → m.tnt_bck_srv ≡ n.tnt_bck_srv
      → m.pending ++ us ≡ n.pending
      → (Agrees m → All (IsFine accepts id c) us)
      → Keeps m n
  Keeps-of_tasks m n us main backup tenant_backup pending fine = record {
    agrees = λ a. record {
      main = subst (λ s. IsHeld c (contents s id)) main a.main;
      backup = subst (InOption (λ t. IsCopy c (contents t id))) backup a.backup;
      tenant_backup =
          subst (InOption (λ t. IsCopy c (contents t id))) tenant_backup a.tenant_backup;
      tasks = subst (All (IsFine accepts id c)) pending (All-append m.pending us a.tasks (fine a));
    };
    on_backup = λ a h. subst (InOption (λ t. is_some (contents t id) ≡ true)) backup h;
    waiting = λ a w. subst (IsWaiting accepts id c) pending (IsWaiting-append m.pending us w);
  }

  abbrev pub ReadsSame : Store → Store → Type 0
  ReadsSame s t = contents t id ≡ contents s id

  -- both copies that a service may have, before and after
  pub record IsTargetOption (o p : Option Store) : Type 0 where
    pub copy :
        InOption (λ t. IsCopy c (contents t id)) o → InOption (λ t. IsCopy c (contents t id)) p
    pub present :
        InOption (λ t. is_some (contents t id) ≡ true) o
        → InOption (λ t. is_some (contents t id) ≡ true) p

  pub same_option : (o : Option Store) → IsTargetOption o o
  same_option o = record { copy = λ h. h; present = λ h. h }

  pub target_option :
      (o : Option Store) (t u : Store)
      → o ≡ some t
      → IsTarget accepts id c srv contents laws t u
      → IsTargetOption o (some u)
  target_option o t u e f = record {
    copy = λ h. f.copy (subst (InOption (λ t. IsCopy c (contents t id))) e h);
    present = λ h. f.present (subst (InOption (λ t. is_some (contents t id) ≡ true)) e h);
  }

  -- a step that adds no task
  pub Keeps-of_storages :
      (m n : MainStorage srv)
      → m.pending ≡ n.pending
      → (Agrees m → IsHeld c (contents n.stg_srv id))
      → (Agrees m → IsTargetOption m.bck_srv n.bck_srv)
      → (Agrees m → IsTargetOption m.tnt_bck_srv n.tnt_bck_srv)
      → Keeps m n
  Keeps-of_storages m n pending main backup tenant_backup = record {
    agrees = λ a. record {
      main = main a;
      backup = (backup a).copy a.backup;
      tenant_backup = (tenant_backup a).copy a.tenant_backup;
      tasks = subst (All (IsFine accepts id c)) pending a.tasks;
    };
    on_backup = λ a h. (backup a).present h;
    waiting = λ a w. subst (IsWaiting accepts id c) pending w;
  }

  -- a step that touches none of the copies and adds no task
  pub Keeps-of_same :
      (m n : MainStorage srv)
      → m.stg_srv ≡ n.stg_srv
      → m.bck_srv ≡ n.bck_srv
      → m.tnt_bck_srv ≡ n.tnt_bck_srv
      → m.pending ≡ n.pending
      → Keeps m n
  Keeps-of_same m n main backup tenant_backup pending =
      Keeps-of_storages m n pending (λ a. subst (λ s. IsHeld c (contents s id)) main a.main)
        (λ a. subst (IsTargetOption m.bck_srv) backup (same_option m.bck_srv))
        (λ a. subst (IsTargetOption m.tnt_bck_srv) tenant_backup (same_option m.tnt_bck_srv))

  abbrev pub read_main :
      (s u : Store) → ReadsSame s u → IsHeld c (contents s id) → IsHeld c (contents u id)
  read_main = Copies.Held-of_same accepts id c srv contents laws

  pub backup_file-Keeps :
      (m : MainStorage srv) (b : BlobDescription)
      → IsReady accepts id c b
      → Keeps m (MainStorage.backup_file srv m b b.blob_id)
  unfolding MainStorage.backup_file
  backup_file-Keeps m b ready = elim (Option-cases m.bck_srv) [
    | inl e ↦ simp (e, MainStorage.backup_file) (keeps_refl m)
    | inr (t, e) ↦
        simp (e, MainStorage.backup_file)
          (Keeps-of_storages m _ refl
            (λ a.
              read_main m.stg_srv _
                (Copies.bck_file-source accepts id c srv contents laws m.stg_srv t b b.blob_id id)
                a.main)
            (λ a.
              target_option m.bck_srv t _ e
                (Copies.bck_file-IsTarget accepts id c srv contents laws m.stg_srv t b ready
                  a.main).0)
            (λ a. same_option m.tnt_bck_srv))
  ]

  pub tnt_backup_file-Keeps :
      (m : MainStorage srv) (b : BlobDescription)
      → IsReady accepts id c b
      → Keeps m (MainStorage.tnt_backup_file srv m b b.blob_id)
  unfolding MainStorage.tnt_backup_file
  tnt_backup_file-Keeps m b ready = elim (Option-cases m.tnt_bck_srv) [
    | inl e ↦ simp (e, MainStorage.tnt_backup_file) (keeps_refl m)
    | inr (t, e) ↦
        simp (e, MainStorage.tnt_backup_file)
          (Keeps-of_storages m _ refl
            (λ a.
              read_main m.stg_srv _
                (Copies.bck_file-source accepts id c srv contents laws m.stg_srv t b b.blob_id id)
                a.main)
            (λ a. same_option m.bck_srv)
            (λ a.
              target_option m.tnt_bck_srv t _ e
                (Copies.bck_file-IsTarget accepts id c srv contents laws m.stg_srv t b ready
                  a.main).0))
  ]

  pub cache_file-Keeps :
      (m : MainStorage srv) (b : BlobDescription) → Keeps m (MainStorage.cache_file srv m b)
  unfolding MainStorage.cache_file
  cache_file-Keeps m b = elim (Option-cases m.cch_srv) [
    | inl e ↦ simp (e, MainStorage.cache_file) (keeps_refl m)
    | inr (t, e) ↦
        simp (e, MainStorage.cache_file)
          (Keeps-of_storages m _ refl
            (λ a.
              read_main m.stg_srv _
                (Copies.bck_file-source accepts id c srv contents laws m.stg_srv t b b.blob_id id)
                a.main)
            (λ a. same_option m.bck_srv) (λ a. same_option m.tnt_bck_srv))
  ]

  -- the description of another blob
  other_IsReady :
      (t : Store) (i : String) (b : BlobDescription)
      → (srv.get_blob_description t i).0 ≡ ok b
      → str_eq i id ≡ false
      → IsReady accepts id c b
  other_IsReady t i b found other =
      let (key, accepted) = laws.description_key t i b found in
      (ap accepts key ∙ accepted, λ same. absurd (cc (same, other, key)))

  -- The fallback to the backup is about another blob than one that the main storage has.
  description_of_backup-Keeps :
      (m : MainStorage srv) (i : String) (e : Error)
      → (Agrees m → str_eq i id ≡ false)
      → Keeps m (MainStorage.description_of_backup srv m i e).1
  unfolding MainStorage.description_of_backup MainStorage.go
  description_of_backup-Keeps m i e other = elim (Option-cases m.bck_srv) [
    | inl nil ↦ simp (nil, MainStorage.description_of_backup) (keeps_refl m)
    | inr (t, there) ↦
        let t' = (srv.get_blob_description t i).1 in
        let read = target_option m.bck_srv t t' there (
          Copies.IsTarget-of_same accepts id c srv contents laws t t'
            (laws.description_same t i id)) in
        let m' : MainStorage srv = record m { bck_srv = some t' } in
        let first : Keeps m m' =
          Keeps-of_storages m m' refl (λ a. a.main) (λ a. read) (λ a. same_option m.tnt_bck_srv) in
        elim (Result-cases (srv.get_blob_description t i).0) [
          | inr (e', missing) ↦ simp (there, missing, MainStorage.description_of_backup) first
          | inl (b, found) ↦
              simp (there, found, MainStorage.description_of_backup)
                (Copies.Keeps-given accepts id c srv contents laws m _ (λ a.
                  keeps_trans m m' _ first (
                    Keeps-of_tasks m' _ (Task.restore b ∷ []) refl refl refl refl
                      (λ _. (other_IsReady t i b found (other a), tt)))))
        ]
  ]

  -- a blob whose description is missing is another than one that is held
  not_held :
      (s : Store) (i : String) (e : Error)
      → (srv.get_blob_description s i).0 ≡ err e
      → IsHeld c (contents s id)
      → str_eq i id ≡ false
  not_held s i e missing held = elim (Bool-cases (str_eq i id)) [
    | inr other ↦ other
    | inl same ↦
        let (d, here) = Copies.held_blob c (contents s id) held in
        let found = laws.description_found s id (d, c) here in
        absurd (cc (missing, found, str_eq→eq i id same))
  ]

  description_of_main-Keeps :
      (m : MainStorage srv) (i : String) → Keeps m (MainStorage.description_of_main srv m i).1
  unfolding MainStorage.description_of_main
  description_of_main-Keeps m i =
      let s = (srv.get_blob_description m.stg_srv i).1 in
      let m' : MainStorage srv = record m { stg_srv = s } in
      let first : Keeps m m' =
        Keeps-of_storages m m' refl
          (λ a. read_main m.stg_srv s (laws.description_same m.stg_srv i id) a.main)
          (λ a. same_option m.bck_srv) (λ a. same_option m.tnt_bck_srv) in
      elim (Result-cases (srv.get_blob_description m.stg_srv i).0) [
        | inl (b, found) ↦ simp (found, MainStorage.description_of_main) first
        | inr (e, missing) ↦
            simp (missing, MainStorage.description_of_main)
              (Copies.Keeps-given accepts id c srv contents laws m _ (λ a.
                keeps_trans m m' _ first (
                  description_of_backup-Keeps m' i e (λ _. not_held m.stg_srv i e missing a.main))))
      ]

  pub get_blob_description-Keeps :
      (m : MainStorage srv) (i : String) → Keeps m (MainStorage.get_blob_description srv m i).1
  unfolding MainStorage.get_blob_description
  get_blob_description-Keeps m i = elim (Option-cases m.cch_srv) [
    | inl e ↦ simp (e, MainStorage.get_blob_description) (description_of_main-Keeps m i)
    | inr (t, e) ↦
        let m' : MainStorage srv = record m { cch_srv = some (srv.get_blob_description t i).1 } in
        let read : Keeps m m' = Keeps-of_same m m' refl refl refl refl in
        let fallback = keeps_trans m m' _ read (description_of_main-Keeps m' i) in
        elim (Result-cases (srv.get_blob_description t i).0) [
          | inr (e', missing) ↦ simp (e, missing, MainStorage.get_blob_description) fallback
          | inl (b, found) ↦ elim (Bool-cases (str_eq b.tenant_id m.tenant)) [
            | inl own ↦ simp (e, found, own, MainStorage.get_blob_description) read
            | inr other ↦ simp (e, found, other, MainStorage.get_blob_description) fallback
          ]
        ]
  ]
