-- ===== src/Migration/Report.antt =====
-- What the check of internal/services/migration/check.go reports of a blob, over storages that keep
-- what a blob storage promises.
use Prim.Native.String.{◌++◌ as concat}
use go_blob_store.Prelude.{String, Bool, true, false, not, Option, none, some, str_eq}
use go_blob_store.Model.{Bytes, Error, Result, ok, err}
use go_blob_store.Interfaces.{Services}
use go_blob_store.Interfaces.Lawful.{Blob, IsLawful}
use go_blob_store.Migration.{CheckResultLine, check_primary_hash}

-- whether a line is without errors; a check that panics has none
abbrev pub is_healthy : Result CheckResultLine → Bool
is_healthy (err e) = false
is_healthy (ok r) = not r.has_error

module _ (srv : Services) (sha256 : Bytes → String) (text : Error → String)
    (accepts : String → Bool) (contents : Services.Store srv → String → Option Blob)
    (laws : IsLawful srv accepts contents) where
  open srv use {Store}

  abbrev hash : Bytes → String
  hash c = concat "sha-256:" (sha256 c)

  abbrev good_blob : String → Option Blob → Bool
  good_blob h none = false
  good_blob h (some blob) = str_eq (hash blob.1) h

  -- a backup that is not configured counts as good, and one without the blob as bad
  abbrev pub good_copy : String → String → Option Store → Bool
  good_copy h id none = true
  good_copy h id (some t) = good_blob h (contents t id)

  abbrev with_primary : String → Bytes → CheckResultLine → CheckResultLine
  with_primary h x r = check_primary_hash srv sha256 text h (ok tt, x) r
