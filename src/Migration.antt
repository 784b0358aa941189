-- ===== src/Migration.antt =====
-- internal/services/migration/{check,backup,restore}.go: the check of a tenant's storages, the backup
-- of a main storage and the full restore from a backup. A listing's callback, which always goes on, is
-- run on the listed ids in their order; the report's lines are values. A dereference of a nil
-- description is a panic.
pub mod Restoring
pub mod Report
use Prim.Native.String.{◌++◌ as concat}
use go_blob_store.Prelude.{
  String, ℤ, pos, Bool, true, false, not, ◌&&◌, ◌||◌, Option, none, some, is_some, List, [], ◌∷◌,
  ◌++◌, str_eq, ltb_ℤ, if◌then◌else◌,
}
use go_blob_store.Model.{BlobDescription, Bytes, Error, Result, ok, err, RetentionEntry}
use go_blob_store.Interfaces.{Services}
use go_blob_store.MainStorage
use go_blob_store.MainStorage.{nil_pointer}

-- one entry of the report on the main storage
pub record CheckResultLine : Type 0 where
  pub id : String
  pub filename : String
  pub in_cache : Bool
  pub in_backup : Bool
  pub primary_hash_ok : Bool
  pub backup_hash_ok : Bool
  pub has_error : Bool
  pub messages : List String

-- one entry of the reports on the cache and on the backup
pub record OtherLine : Type 0 where
  pub id : String
  pub has_error : Bool
  pub messages : List String

unfoldable pub new_result : String → String → CheckResultLine
new_result id filename = record {
  id = id;
  filename = filename;
  in_cache = false;
  in_backup = false;
  primary_hash_ok = true;
  backup_hash_ok = true;
  has_error = false;
  messages = [];
}

-- `r.Messages = append(r.Messages, …)`
unfoldable pub noted : CheckResultLine → String → CheckResultLine
noted r message = record r { messages = r.messages ++ (message ∷ []) }

unfoldable pub with_ok : CheckResultLine → CheckResultLine
with_ok r = elim r.messages [ [] ↦ noted r "ok" | m ∷ ms ↦ r ]

-- the answer of `HasBlob` where its error is not looked at
unfoldable pub answered : Result Bool → Bool
answered (err e) = false
answered (ok found) = found

unfoldable pub blob_not_found : String → Error
blob_not_found id = Error.failed (concat "blob not found: " id)

-- the hash of what was read, in hexadecimal digits, and the text of an error are not part of this code
module _ (srv : Services) (sha256 : Bytes → String) (text : Error → String) where
  open srv use {Store}

  pub record CheckContext : Type 0 where
    pub tenant_id : String
    pub cache : Option Store
    pub primary : Store
    pub backup : Option Store
    pub running : Bool

  -- `utils.BuildHash`, which gives no text beside an error
  unfoldable pub hash_of : Result (Unit {0}) × Bytes → String
  hash_of (err e, content) = ""
  hash_of (ok _, content) = concat "sha-256:" (sha256 content)

  -- the note on a hash that could not be built
  unfoldable pub read_noted : String → Result (Unit {0}) × Bytes → CheckResultLine → CheckResultLine
  read_noted message (err e, content) r = noted r (concat message (text e))
  read_noted message (ok _, content) r = r

  unfoldable pub check_primary_hash :
      String → Result (Unit {0}) × Bytes → CheckResultLine → CheckResultLine
  check_primary_hash hash read r =
      let r' = read_noted "error building hash: " read r in
      if str_eq (hash_of read) hash then r' else record (noted r' "primary hash not correct") {
        primary_hash_ok = false;
        has_error = true;
      }

  unfoldable pub check_backup_hash :
      String → Result (Unit {0}) × Bytes → CheckResultLine → CheckResultLine
  check_backup_hash hash read r =
      let r' = read_noted "error building hash on backup: " read r in
      if str_eq (hash_of read) hash
      then r'
      else record (noted r' "backup hash not correct") { backup_hash_ok = false; has_error = true }

  unfoldable pub look_in_cache : CheckContext → CheckResultLine → CheckResultLine × CheckContext
  look_in_cache c r = elim c.cache [
    | none ↦ (r, c)
    | some s ↦
        (let (found, t) = srv.has_blob s r.id in
          (record r { in_cache = answered found }, record c { cache = some t }))
  ]

  unfoldable pub look_in_backup : CheckContext → CheckResultLine → CheckResultLine × CheckContext
  look_in_backup c r = elim c.backup [
    | none ↦ (r, c)
    | some s ↦
        (let (found, t) = srv.has_blob s r.id in
          (
            if answered found
                then record r { in_backup = true }
                else record (noted r "missing blob in backup") { has_error = true },
            record c { backup = some t },
          ))
  ]

  unfoldable pub hash_primary :
      String → CheckResultLine × CheckContext → CheckResultLine × CheckContext
  hash_primary hash (r, c) =
      let (read, s) = srv.retrieve_blob c.primary r.id in
      (check_primary_hash hash read r, record c { primary = s })

  unfoldable pub hash_backup :
      String → CheckResultLine × CheckContext → CheckResultLine × CheckContext
  hash_backup hash (r, c) =
      if r.in_backup
      then elim c.backup [
        | none ↦ (r, c)
        | some s ↦
            (let (read, t) = srv.retrieve_blob s r.id in
              (check_backup_hash hash read r, record c { backup = some t }))
      ]
      else (r, c)

  unfoldable pub then_look :
      (CheckContext → CheckResultLine → CheckResultLine × CheckContext)
      → CheckResultLine × CheckContext
      → CheckResultLine × CheckContext
  then_look look (r, c) = look c r

  unfoldable pub ended : CheckResultLine × CheckContext → Result CheckResultLine × CheckContext
  ended (r, c) = (ok (with_ok r), c)

  -- Without a description, `bd.Filename` dereferences a nil pointer.
  unfoldable pub check_described :
      CheckContext → String → Result BlobDescription → Result CheckResultLine × CheckContext
  check_described c id (err e) = (err nil_pointer, c)
  check_described c id (ok b) = ended (
      hash_backup b.hash (
        hash_primary b.hash
          (then_look look_in_backup (look_in_cache c (new_result id b.filename)))))

  unfoldable pub check_blob : CheckContext → String → Result CheckResultLine × CheckContext
  check_blob c id =
      let (described, s) = srv.get_blob_description c.primary id in
      check_described (record c { primary = s }) id described

  unfoldable pub check_blobs :
      CheckContext → List String → Result (List CheckResultLine) × CheckContext
  check_blobs c [] = (ok [], c)
  check_blobs c (id ∷ ids) =
      let (line, c₁) = check_blob c id in
      let (rest, c₂) = check_blobs c₁ ids in
      elim line [
        | err e ↦ (err e, c₁)
        | ok r ↦ elim rest [ err e ↦ (err e, c₂) | ok rs ↦ (ok (r ∷ rs), c₂) ]
      ]

  -- the blobs of the backup that the main storage does not have
  unfoldable pub check_backup : Store → List String → List OtherLine × Store
  check_backup s [] = ([], s)
  check_backup s (id ∷ ids) =
      let (found, t) = srv.has_blob s id in
      let (rest, u) = check_backup t ids in
      (
        if answered found then rest else record { id = id; has_error = true; messages = [] } ∷ rest,
        u,
      )

  -- the cached blobs of the tenant, and whether the main storage has them
  unfoldable pub cache_line :
      String → String → Result BlobDescription → Bool → List OtherLine → List OtherLine
  cache_line tenant id (err e) found rest = rest
  cache_line tenant id (ok b) found rest =
      if str_eq b.tenant_id tenant
      then record {
        id = id;
        has_error = not found;
        messages = (if found then "ok" else "cache inconsistent") ∷ [];
      }
        ∷ rest
      else rest

  unfoldable pub is_tenants : String → Result BlobDescription → Bool
  is_tenants tenant (err e) = false
  is_tenants tenant (ok b) = str_eq b.tenant_id tenant

  unfoldable pub check_cache :
      String → Store → Store → List String → List OtherLine × (Store × Store)
  check_cache tenant cch s [] = ([], (cch, s))
  check_cache tenant cch s (id ∷ ids) =
      let (described, cch') = srv.get_blob_description cch id in
      let (found, t) = srv.has_blob s id in
      let u = if is_tenants tenant described then t else s in
      let (rest, ends) = check_cache tenant cch' u ids in
      (cache_line tenant id described (answered found) rest, ends)

  -- `backup` and `restore`: the copy of one blob from `s` to `t`, whose failures are only logged
  unfoldable pub copy_retention : Store → Store → String → BlobDescription → Store × Store
  copy_retention s t id b =
      if ltb_ℤ (pos 0) b.retention
      then (let (entry, s') = srv.get_retention s id in
          elim entry [ err e ↦ (s', t) | ok r ↦ (s', (srv.add_retention t r).1) ])
      else (s, t)

  unfoldable pub copy_described :
      String → Result BlobDescription × Store → Store → Result (Unit {0}) × (Store × Store)
  copy_described id (err e, s) t = (err e, (s, t))
  copy_described id (ok b, s) t =
      let (s', t') = MainStorage.piped srv s t b id in (ok tt, copy_retention s' t' id b)

  unfoldable pub copy_found :
      String → Result Bool × Store → Store → Result (Unit {0}) × (Store × Store)
  copy_found id (err e, s) t = (err e, (s, t))
  copy_found id (ok false, s) t = (err (blob_not_found id), (s, t))
  copy_found id (ok true, s) t = copy_described id (srv.get_blob_description s id) t

  unfoldable pub restore : String → Store → Store → Result (Unit {0}) × (Store × Store)
  restore id s t = copy_found id (srv.has_blob s id) t

  -- the callback of `Restore`, and of `migrateBckTnt` with the main storage as source: a blob that
  -- the target has is left alone
  unfoldable pub restore_missing : Store × Store → String → Store × Store
  restore_missing (s, t) id =
      let (found, t') = srv.has_blob t id in if answered found then (s, t') else (restore id s t').1

  unfoldable pub restore_all : Store × Store → List String → Store × Store
  restore_all st [] = st
  restore_all st (id ∷ ids) = restore_all (restore_missing st id) ids

  -- `Restore`: all blobs that the backup lists
  unfoldable pub restore_tenant : Store → Option Store → Store × Option Store
  restore_tenant primary none = (primary, none)
  restore_tenant primary (some s) =
      let (listed, s') = srv.get_blobs s (λ _. true) in
      let ends = restore_all (s', primary) listed.1 in (ends.1, some ends.0)
