-- ===== src/MainStorage/Tasks.antt =====
-- Each task of internal/services/business/mainstorage.go that calls several of the storages keeps the
-- copies of a blob in agreement.
use go_blob_store.Prelude.{
  String, ℤ, Bool, true, false, Option, some, is_some, [], ◌∷◌, ◌≡◌, refl, ap, ◌∙◌, sym, subst,
  str_eq, str_eq_refl, Option-cases, inl, inr,
}
use go_blob_store.Model.{BlobDescription, Bytes, Result, Result-cases, ok, err}
use go_blob_store.Interfaces.{Services}
use go_blob_store.Interfaces.Lawful.{Blob, IsLawful}
use go_blob_store.MainStorage
use go_blob_store.MainStorage.{MainStorage, Task, run_task}
use go_blob_store.MainStorage.Copies
use go_blob_store.MainStorage.Copies.{IsCopy, IsHeld, IsFine, IsReady}
use go_blob_store.MainStorage.Steps

module _ (accepts : String → Bool) (id : String) (c : Bytes) (srv : Services)
    (contents : Services.Store srv → String → Option Blob) (laws : IsLawful srv accepts contents)
    (valid : accepts id ≡ true) where
  open srv use {Store}

  abbrev pub Keeps : MainStorage srv → MainStorage srv → Type 0
  Keeps m n = Copies.Keeps accepts id c srv contents laws m n

  abbrev same :
      (m n : MainStorage srv)
      → m.stg_srv ≡ n.stg_srv
      → m.bck_srv ≡ n.bck_srv
      → m.tnt_bck_srv ≡ n.tnt_bck_srv
      → m.pending ≡ n.pending
      → Keeps m n
  same = Steps.Keeps-of_same accepts id c srv contents laws valid

  abbrev then : (m n k : MainStorage srv) → Keeps m n → Keeps n k → Keeps m k
  then = Copies.Keeps-trans accepts id c srv contents laws

  abbrev described :
      (m : MainStorage srv) (i : String) → Keeps m (MainStorage.get_blob_description srv m i).1
  described = Steps.get_blob_description-Keeps accepts id c srv contents laws valid

  cache_described-Keeps :
      (m : MainStorage srv) (x : Result BlobDescription × MainStorage srv)
      → Keeps m x.1
      → Keeps m (MainStorage.cache_described srv x)
  unfolding MainStorage.cache_described
  cache_described-Keeps m (err e, n) h = h
  cache_described-Keeps m (ok b, n) h =
      then m n _ h (Steps.cache_file-Keeps accepts id c srv contents laws valid n b)

  cache_file_by_id-Keeps :
      (m : MainStorage srv) (i : String) → Keeps m (MainStorage.cache_file_by_id srv m i)
  unfolding MainStorage.cache_file_by_id
  cache_file_by_id-Keeps m i = elim (Option-cases m.cch_srv) [
    | inl e ↦ simp (e, MainStorage.cache_file_by_id) (same m m refl refl refl refl)
    | inr (t, e) ↦
        let m' : MainStorage srv = record m { cch_srv = some (srv.has_blob t i).1 } in
        let read : Keeps m m' = same m m' refl refl refl refl in
        elim (Result-cases (srv.has_blob t i).0) [
          | inr (e', failed) ↦ simp (e, failed, MainStorage.cache_file_by_id) read
          | inl (true, there) ↦ simp (e, there, MainStorage.cache_file_by_id) read
          | inl (false, absent) ↦
              simp (e, absent, MainStorage.cache_file_by_id)
                (cache_described-Keeps m (MainStorage.get_blob_description srv m' i)
                  (then m m' _ read (described m' i)))
        ]
  ]

  restore_file-Keeps :
      (m : MainStorage srv) (b : BlobDescription)
      → IsReady accepts id c b
      → Keeps m (MainStorage.restore_file srv m b)
  unfolding MainStorage.restore_file MainStorage.go
  restore_file-Keeps m b ready = elim (Option-cases m.bck_srv) [
    | inl e ↦ simp (e, MainStorage.restore_file) (same m m refl refl refl refl)
    | inr (t, e) ↦
        let t' = (srv.has_blob t b.blob_id).1 in
        let seen = laws.has_blob_same t b.blob_id in
        let read = Copies.IsTarget-of_same accepts id c srv contents laws t t' (seen id) in
        let m' : MainStorage srv = record m { bck_srv = some t' } in
        let first : Keeps m m' =
          Steps.Keeps-of_storages accepts id c srv contents laws valid m m' refl (λ a. a.main)
            (λ a. Steps.target_option accepts id c srv contents laws valid m.bck_srv t t' e read)
            (λ a. Steps.same_option accepts id c srv contents laws valid m.tnt_bck_srv) in
        elim (Option-cases (contents t b.blob_id)) [
          | inl missing ↦
              let absent : (srv.has_blob t b.blob_id).0 ≡ ok false =
                laws.has_blob_law t b.blob_id ready.0 ∙ ap (λ o. ok (is_some o)) missing in
              simp (e, absent, MainStorage.restore_file) first
          | inr (blob, here) ↦
              let there : (srv.has_blob t b.blob_id).0 ≡ ok true =
                laws.has_blob_law t b.blob_id ready.0 ∙ ap (λ o. ok (is_some o)) here in
              let t₂ = (MainStorage.piped srv t' m.stg_srv b b.blob_id).0 in
              let s₂ = (MainStorage.piped srv t' m.stg_srv b b.blob_id).1 in
              let m₂ : MainStorage srv = record m { stg_srv = s₂; bck_srv = some t₂ } in
              let read₂ =
                Copies.IsTarget-of_same accepts id c srv contents laws t' t₂ (
                  Copies.piped-source accepts id c srv contents laws t' m.stg_srv b b.blob_id id) in
              let copied : Keeps m' m₂ =
                Steps.Keeps-of_storages accepts id c srv contents laws valid m' m₂ refl
                  (λ a.
                    Copies.piped-again accepts id c srv contents laws t' m.stg_srv b ready a.backup
                      (ap is_some (seen b.blob_id ∙ here)) a.main)
                  (λ a.
                    Steps.target_option accepts id c srv contents laws valid (some t') t' t₂ refl
                      read₂)
                  (λ a. Steps.same_option accepts id c srv contents laws valid m.tnt_bck_srv) in
              simp (e, there, MainStorage.restore_file)
                (then m m₂ _ (then m m' m₂ first copied) (
                  Steps.Keeps-of_tasks accepts id c srv contents laws valid m₂ _
                    (Task.cache_by_id b.blob_id ∷ []) refl refl refl refl (λ a. (tt, tt))))
        ]
  ]

  add_size-Keeps : (m : MainStorage srv) (n : ℤ) → Keeps m (MainStorage.add_size srv m n)
  unfolding MainStorage.add_size
  add_size-Keeps m n = elim (Option-cases m.tnt_mgr) [
    | inl e ↦ simp (e, MainStorage.add_size) (same m m refl refl refl refl)
    | inr (t, e) ↦ simp (e, MainStorage.add_size) (same m _ refl refl refl refl)
  ]

  add_storage_size-Keeps :
      (m : MainStorage srv) (i : String) → Keeps m (MainStorage.add_storage_size srv m i)
  unfolding MainStorage.add_storage_size
  add_storage_size-Keeps m i =
      let m' = (MainStorage.get_blob_description srv m i).1 in
      elim (Result-cases (MainStorage.get_blob_description srv m i).0) [
        | inr (e, missing) ↦ simp (missing, MainStorage.add_storage_size) (described m i)
        | inl (b, found) ↦
            simp (found, MainStorage.add_storage_size)
              (then m m' _ (described m i) (add_size-Keeps m' b.content_length))
      ]

  sub_storage_size-Keeps :
      (m : MainStorage srv) (b : BlobDescription) → Keeps m (MainStorage.sub_storage_size srv m b)
  unfolding MainStorage.sub_storage_size
  sub_storage_size-Keeps m b = elim (Option-cases m.tnt_mgr) [
    | inl e ↦ simp (e, MainStorage.sub_storage_size) (same m m refl refl refl refl)
    | inr (t, e) ↦ simp (e, MainStorage.sub_storage_size) (same m _ refl refl refl refl)
  ]

  -- the update of a description keeps a copy a copy
  update-IsTarget :
      (t : Store) (i : String) (b : BlobDescription)
      → b.blob_id ≡ i
      → IsReady accepts id c b
      → Copies.IsTarget accepts id c srv contents laws t (srv.update_blob_description t i b).1
  update-IsTarget t i b key ready = elim (laws.update_law t i id b key) [
    | inl kept ↦ Copies.IsTarget-of_same accepts id c srv contents laws t _ kept
    | inr (e, (blob, (before, after))) ↦ record {
      copy = λ h. subst (IsCopy c) (sym after) (
        (subst (IsCopy c) before h).0,
        ready.1 (ap (λ x. str_eq x id) (key ∙ sym e) ∙ str_eq_refl id),
      );
      present = λ h. ap is_some after;
    }
  ]

  update_backup-Keeps :
      (m : MainStorage srv) (i : String) (b : BlobDescription)
      → b.blob_id ≡ i
      → IsReady accepts id c b
      → Keeps m (run_task srv (Task.update_backup i b) m)
  unfolding run_task
  update_backup-Keeps m i b key ready = elim (Option-cases m.bck_srv) [
    | inl e ↦ simp (e, run_task) (same m m refl refl refl refl)
    | inr (t, e) ↦
        simp (e, run_task)
          (Steps.Keeps-of_storages accepts id c srv contents laws valid m _ refl (λ a. a.main)
            (λ a.
              Steps.target_option accepts id c srv contents laws valid m.bck_srv t _ e
                (update-IsTarget t i b key ready))
            (λ a. Steps.same_option accepts id c srv contents laws valid m.tnt_bck_srv))
  ]

  -- a task that is fine for the blob
  pub run_task-Keeps :
      (t : Task) (m : MainStorage srv) → IsFine accepts id c t → Keeps m (run_task srv t m)
  unfolding run_task
  run_task-Keeps (Task.backup b i) m (key, ready) =
      subst (λ j. Keeps m (MainStorage.backup_file srv m b j)) (sym key)
        (Steps.backup_file-Keeps accepts id c srv contents laws valid m b ready)
  run_task-Keeps (Task.tnt_backup b i) m (key, ready) =
      subst (λ j. Keeps m (MainStorage.tnt_backup_file srv m b j)) (sym key)
        (Steps.tnt_backup_file-Keeps accepts id c srv contents laws valid m b ready)
  run_task-Keeps (Task.cache b) m h =
      Steps.cache_file-Keeps accepts id c srv contents laws valid m b
  run_task-Keeps (Task.restore b) m ready = restore_file-Keeps m b ready
  run_task-Keeps (Task.sub_storage b) m h = sub_storage_size-Keeps m b
  run_task-Keeps (Task.cache_by_id i) m h = cache_file_by_id-Keeps m i
  run_task-Keeps (Task.add_storage i) m h = add_storage_size-Keeps m i
  run_task-Keeps (Task.update_backup i b) m (key, ready) = update_backup-Keeps m i b key ready
