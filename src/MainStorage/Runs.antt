-- ===== src/MainStorage/Runs.antt =====
-- The runs of the pending tasks of internal/services/business/mainstorage.go, in any order.
use go_blob_store.Prelude.{
  String, Bool, true, Option, none, some, is_some, List, [], ◌∷◌, ◌++◌, ◌≡◌, ◌⊎◌, sym, subst,
  str_eq, All, Option-cases, inl, inr,
}
use go_blob_store.Model.{BlobDescription, Bytes}
use go_blob_store.Interfaces.{Services}
use go_blob_store.Interfaces.Lawful.{Blob, IsLawful}
use go_blob_store.MainStorage
use go_blob_store.MainStorage.{MainStorage, Task, run_task}
use go_blob_store.MainStorage.Copies
use go_blob_store.MainStorage.Copies.{
  IsHeld, IsCopy, IsFine, IsReady, IsBackup, IsWaiting, InOption, Agrees, OnBackup,
}
use go_blob_store.MainStorage.Tasks

-- One of the pending tasks runs.
pub data Step (srv : Services) (m : MainStorage srv) : MainStorage srv → Type 0 where
  ran :
      (before : List Task) (t : Task) (after : List Task)
      → m.pending ≡ before ++ (t ∷ after)
      → Step srv m (run_task srv t (record m { pending = before ++ after }))

pub data Runs (srv : Services) (m : MainStorage srv) : MainStorage srv → Type 0 where
  stop : Runs srv m m
  more : {n k : MainStorage srv} → Runs srv m n → Step srv n k → Runs srv m k

module _ (accepts : String → Bool) (id : String) (c : Bytes) where
  -- the task at a place of a list, and the others
  All-taken :
      (before : List Task) (t : Task) (after : List Task)
      → All (IsFine accepts id c) (before ++ (t ∷ after))
      → IsFine accepts id c t × All (IsFine accepts id c) (before ++ after)
  All-taken [] t after h = h
  All-taken (u ∷ before) t after h =
      let (fine, rest) = All-taken before t after h.1 in (fine, (h.0, rest))

  IsWaiting-taken :
      (before : List Task) (t : Task) (after : List Task)
      → IsWaiting accepts id c (before ++ (t ∷ after))
      → IsBackup accepts id c t ⊎ IsWaiting accepts id c (before ++ after)
  IsWaiting-taken [] t after h = h
  IsWaiting-taken (u ∷ before) t after (inl h) = inr (inl h)
  IsWaiting-taken (u ∷ before) t after (inr h) = elim (IsWaiting-taken before t after h) [
    | inl here ↦ inl here
    | inr there ↦ inr (inr there)
  ]

  module _ (srv : Services) (contents : Services.Store srv → String → Option Blob)
      (laws : IsLawful srv accepts contents) (valid : accepts id ≡ true) where
    -- the backup has the blob, or a task that copies it there is pending
    abbrev pub WillBeOnBackup : MainStorage srv → Type 0
    WillBeOnBackup m = OnBackup accepts id c srv contents laws m ⊎ IsWaiting accepts id c m.pending

    backup_file-fills :
        (m : MainStorage srv) (b : BlobDescription)
        → IsReady accepts id c b
        → Agrees accepts id c srv contents laws m
        → str_eq b.blob_id id ≡ true
        → OnBackup accepts id c srv contents laws (MainStorage.backup_file srv m b b.blob_id)
    unfolding MainStorage.backup_file
    backup_file-fills m b ready a same = elim (Option-cases m.bck_srv) [
      | inl e ↦ simp (e, MainStorage.backup_file) tt
      | inr (t, e) ↦
          simp (e, MainStorage.backup_file)
            ((Copies.bck_file-IsTarget accepts id c srv contents laws m.stg_srv t b ready a.main).1
              same)
    ]

    -- the run of a task that copies the blob to the backup
    pub IsBackup-run :
        (t : Task) (m : MainStorage srv)
        → IsFine accepts id c t
        → IsBackup accepts id c t
        → Agrees accepts id c srv contents laws m
        → OnBackup accepts id c srv contents laws (run_task srv t m)
    unfolding run_task
    IsBackup-run (Task.backup b i) m (key, ready) same a =
        subst (λ j. OnBackup accepts id c srv contents laws (MainStorage.backup_file srv m b j))
          (sym key) (backup_file-fills m b ready a same)
    IsBackup-run (Task.tnt_backup b i) m fine same a = absurd same
    IsBackup-run (Task.cache b) m fine same a = absurd same
    IsBackup-run (Task.restore b) m fine same a = absurd same
    IsBackup-run (Task.sub_storage b) m fine same a = absurd same
    IsBackup-run (Task.cache_by_id i) m fine same a = absurd same
    IsBackup-run (Task.add_storage i) m fine same a = absurd same
    IsBackup-run (Task.update_backup i b) m fine same a = absurd same

    -- a step from a state in agreement
    Step-Agrees :
        {m n : MainStorage srv}
        → Step srv m n
        → Agrees accepts id c srv contents laws m
        → Agrees accepts id c srv contents laws n × (WillBeOnBackup m → WillBeOnBackup n)
    Step-Agrees {m = m} (Step.ran before t after e) a =
        let (fine, rest) = All-taken before t after (subst (All (IsFine accepts id c)) e a.tasks) in
        let m' : MainStorage srv = record m { pending = before ++ after } in
        let a' : Agrees accepts id c srv contents laws m' = record {
          main = a.main;
          backup = a.backup;
          tenant_backup = a.tenant_backup;
          tasks = rest;
        } in
        let run = Tasks.run_task-Keeps accepts id c srv contents laws valid t m' fine in
        (
          run.agrees a',
          λ will. elim will [
            | inl on ↦ inl (run.on_backup a' on)
            | inr waits ↦
                elim (IsWaiting-taken before t after (subst (IsWaiting accepts id c) e waits)) [
                  | inl it ↦ inl (IsBackup-run t m' fine it a')
                  | inr later ↦ inr (run.waiting a' later)
                ]
          ],
        )

    pub Runs-Agrees :
        {m n : MainStorage srv}
        → Runs srv m n
        → Agrees accepts id c srv contents laws m
        → Agrees accepts id c srv contents laws n
    Runs-Agrees Runs.stop a = a
    Runs-Agrees (Runs.more r s) a = (Step-Agrees s (Runs-Agrees r a)).0

    Runs-will :
        {m n : MainStorage srv}
        → Runs srv m n
        → Agrees accepts id c srv contents laws m
        → WillBeOnBackup m
        → WillBeOnBackup n
    Runs-will Runs.stop a will = will
    Runs-will (Runs.more r s) a will = (Step-Agrees s (Runs-Agrees r a)).1 (Runs-will r a will)

    held_option :
        (o : Option srv.Store)
        → InOption (λ t. IsCopy c (contents t id)) o
        → InOption (λ t. is_some (contents t id) ≡ true) o
        → InOption (λ t. IsHeld c (contents t id)) o
    held_option none h k = tt
    held_option (some t) h k = Copies.held_of_copy c (contents t id) h k

    -- a run to the end
    pub Runs-backed_up :
        {m n : MainStorage srv}
        → Runs srv m n
        → Agrees accepts id c srv contents laws m
        → WillBeOnBackup m
        → n.pending ≡ []
        → InOption (λ t. IsHeld c (contents t id)) n.bck_srv
    Runs-backed_up {n = n} r a will done = elim (Runs-will r a will) [
      | inl on ↦ held_option n.bck_srv (Runs-Agrees r a).backup on
      | inr waits ↦ absurd (subst (IsWaiting accepts id c) done waits)
    ]
