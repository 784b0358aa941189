-- ===== src/SimpleFile/Files.antt =====
-- The system calls of internal/services/simplefile: a directory maps an id to the bytes of its file,
-- and `Failures` says which calls fail and what a failed write leaves.
use Prim.Native.String.{len, slice}
use go_blob_store.Prelude.{
  String, Bool, true, false, Option, none, some, is_some, ◌≡◌, refl, str_eq, str_eq_refl, ltb,
  if◌then◌else◌,
}
use go_blob_store.Model.{Bytes, Error, Result, ok, err}
use go_blob_store.FastCache.{io_error, slice_bounds}

abbrev pub Dir : Type 0
Dir = String → Option Bytes

pub record Failures : Type 0 where
  pub mkdir_fails : String → Bool
  pub stat_fails : String → Bool
  pub read_fails : String → Bool
  pub create_fails : String → Bool
  pub copy_fails : String → Bool
  pub close_fails : String → Bool
  pub write_fails : String → Bool
  pub remove_fails : String → Bool
  pub left : String → Bytes

-- what a walk sees of a file
pub record FileInfo : Type 0 where
  pub path : String
  pub name : String

-- The disk: the failures by the kind of file, and whether the caller's writer fails.
pub record Disk : Type 0 where
  pub bin_v1 : Failures
  pub json_v1 : Failures
  pub bin_v2 : Failures
  pub json_v2 : Failures
  pub retention : Failures
  pub writer_fails : Bool
  pub absolute_fails : Bool

-- `os.ReadFile` and `os.Open` wrap their error, so that it is not `os.ErrNotExist` itself.
abbrev pub no_such_file : Error
no_such_file = Error.failed "no such file or directory"

unfoldable pub put : Dir → String → Option Bytes → Dir
put dir id content j = if str_eq id j then content else dir j

-- `os.Stat` with `os.IsNotExist`: a call that fails otherwise counts as a file that is there.
unfoldable pub exists : Failures → Dir → String → Bool
exists f dir id = if f.stat_fails id then true else is_some (dir id)

unfoldable pub read_file : Failures → Dir → String → Result Bytes
read_file f dir id = elim (dir id) [
  | none ↦ err no_such_file
  | some content ↦ if f.read_fails id then err io_error else ok content
]

-- `os.Remove`, whose error is told apart by `errors.Is` alone
unfoldable pub remove : Failures → Dir → String → Result (Unit {0}) × Dir
remove f dir id = elim (dir id) [
  | none ↦ (err Error.not_exist, dir)
  | some content ↦ if f.remove_fails id then (err io_error, dir) else (ok tt, put dir id none)
]

-- `os.WriteFile`, after which a file that could not be written is removed
unfoldable pub write_file : Failures → Dir → String → Bytes → Result (Unit {0}) × Dir
write_file f dir id content =
    if f.write_fails id
    then (err io_error, (remove f (put dir id (some (f.left id))) id).1)
    else (ok tt, put dir id (some content))

-- The directories of version 2 are named by the first two bytes of an id and the next two; the file's
-- place is the id itself. A shorter id makes the slices panic.
unfoldable pub build_filename_v2 : String → Result (Unit {0})
build_filename_v2 id = if ltb (len id) 4 then err slice_bounds else ok tt

-- the directory of an id's files, which has the slices `id[:2]` and `id[2:4]` as its names
unfoldable pub dir_of : String → String
dir_of id = slice id 0 4

pub put-same : (dir : Dir) (id : String) (content : Option Bytes) → put dir id content id ≡ content
unfolding put
put-same dir id content = rw (str_eq_refl id) refl

pub put-other :
    (dir : Dir) (id j : String) (content : Option Bytes)
    → str_eq id j ≡ false
    → put dir id content j ≡ dir j
unfolding put
put-other dir id j content other = rw other refl
