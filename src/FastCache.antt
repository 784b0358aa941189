-- ===== src/FastCache.antt =====
-- internal/services/fastcache/fastcache.go: the cache of blobs in memory and on a fast disk.
-- The Bloom filter is a third-party package: a record of its operations with its documented
-- guarantee, that it has no false negatives. The disk is the map from an id to the bytes of its
-- `.bin` file, and `Disk` says which of the system calls of an operation fail. A panic, here of the
-- slice `id[:2]` of an id with fewer bytes, is the outcome `slice_bounds`. A method returns its result
-- beside the new state, and each call is taken as one step, although `StoreBlob` holds no lock
-- across its check, its write, the insertion and the eviction. The `size` stays below 2^63, and its
-- wrap-around is not written out.
pub mod Invariant
pub mod Eviction
pub mod Storing
pub mod Filter
use Prim.Native.String.{len}
use mathlib.Core.Option
use go_blob_store.Prelude.{
  ℕ, zero, suc, String, ℤ, pos, Bool, true, false, Option, none, some, List, [], ◌∷◌, ltb, str_eq,
  length, if◌then◌else◌, ◌+ℤ◌, ltb_ℤ, ◌*◌, ◌≡◌,
}
use go_blob_store.Model.{BlobDescription, Bytes, Error, Result, ok, err, Reader, RetentionEntry}
use go_blob_store.Model
use go_blob_store.Lru
use go_blob_store.Lru.{LruEntry, LruList}

pub record BloomFilter : Type 1 where
  pub Filter : Type 0
  pub new : ℕ → Filter
  pub insert : Filter → String → Filter
  pub lookup : Filter → String → Bool
  pub lookup-insert_self : (f : Filter) (id : String) → lookup (insert f id) id ≡ true
  pub lookup-insert :
      (f : Filter) (id j : String) → lookup f j ≡ true → lookup (insert f id) j ≡ true

-- the calls that fail, by the id that they are about
pub record Disk : Type 0 where
  pub mkdir_fails : String → Bool
  pub create_fails : String → Bool
  pub close_fails : String → Bool
  pub read_fails : String → Bool
  pub remove_fails : String → Bool
  pub write_fails : Bool

pub record FastCache (Filter : Type 0) : Type 0 where
  pub max_count : ℕ
  pub max_file_size_for_ram : ℤ
  pub size : ℤ
  pub entries : LruList
  pub bf : Filter
  pub bf_dirty : Bool
  pub files : String → Option Bytes

abbrev pub slice_bounds : Error
slice_bounds = Error.panic "slice bounds out of range"

abbrev pub io_error : Error
io_error = Error.failed "input/output error"

-- the file system with the file of an id written or removed
abbrev pub with_file : (String → Option Bytes) → String → Option Bytes → String → Option Bytes
with_file files id content j = if str_eq id j then content else files j

abbrev default_mffrs : ℤ
default_mffrs = pos (100 * 1024)

-- 0 stands for the default
abbrev or_default : ℤ → ℤ
or_default (pos zero) = default_mffrs
or_default n = n

-- the directory for the first two bytes of the id; the file's place is the id itself
unfoldable pub build_filename : Disk → String → Result (Unit {0})
build_filename d id =
    if ltb (len id) 2 then err slice_bounds else if d.mkdir_fails id then err io_error else ok tt

module _ (bloom : BloomFilter) where
  open bloom use {Filter, new, insert, lookup}

  -- After `MkdirAll` and `removeContents` the root is empty; their failures, which leave no cache
  -- behind, are not modelled.
  unfoldable pub init : FastCache Filter → ℤ → FastCache Filter
  init f max_ram_size = record f {
    size = pos 0;
    entries = Lru.init (record {
      max_count = f.max_count;
      max_ram_size = max_ram_size;
      entries = [];
      ram_size = pos 0;
    });
    max_file_size_for_ram = or_default f.max_file_size_for_ram;
    bf = new f.max_count;
    bf_dirty = false;
    files = λ _. none;
  }

  unfoldable pub in_bloom : FastCache Filter → String → Bool
  in_bloom f id = lookup f.bf id

  unfoldable pub update_bloom : FastCache Filter → String → FastCache Filter
  update_bloom f id = record f { bf = insert f.bf id }

  unfoldable pub has_blob : FastCache Filter → String → Result Bool
  has_blob f id =
      if str_eq id ""
      then err Error.empty_id
      else if in_bloom f id
      then if Lru.has f.entries id then ok true else ok false
      else ok false

  -- the file of the blob, the bytes kept in memory, and the size
  unfoldable pub write_bin_file :
      Disk → FastCache Filter → String → Reader → Result (ℕ × Option Bytes) × FastCache Filter
  write_bin_file d f id r = elim (build_filename d id) [
    | err e ↦ (err e, f)
    | ok _ ↦
        if d.create_fails id
        then (err io_error, f)
        else if r.broken
        then (err io_error, record f { files = with_file f.files id none })
        else (let written = record f { files = with_file f.files id (some r.content) } in
            if d.close_fails id
            then (err io_error, written)
            else if ltb_ℤ (pos (length r.content)) f.max_file_size_for_ram
            then (ok (length r.content, if d.read_fails id then none else some r.content), written)
            else (ok (length r.content, none), written))
  ]

  unfoldable pub delete_blob_file :
      Disk → FastCache Filter → String → Result (Unit {0}) × FastCache Filter
  delete_blob_file d f id = elim (build_filename d id) [
    | err e ↦ (err e, f)
    | ok _ ↦ elim (f.files id) [
      | none ↦ (err Error.not_exist, f)
      | some _ ↦
          if d.remove_fails id
          then (err io_error, f)
          else (ok tt, record f { files = with_file f.files id none })
    ]
  ]

  -- what follows the removal from the list, whose result is `lid`
  unfoldable pub delete_listed :
      Disk → FastCache Filter → String → Result (Unit {0}) × FastCache Filter
  delete_listed d f lid =
      if str_eq lid ""
      then (ok tt, f)
      else (let (result, f') = delete_blob_file d f lid in
          elim result [ err e ↦ (err e, f') | ok _ ↦ (ok tt, record f' { bf_dirty = true }) ])

  unfoldable pub delete_blob :
      Disk → FastCache Filter → String → Result (Unit {0}) × FastCache Filter
  delete_blob d f id =
      if str_eq id ""
      then (err Error.empty_id, f)
      else if in_bloom f id
      then if Lru.has f.entries id
        then (let (l, lid) = Lru.delete f.entries id in
            delete_listed d (record f { entries = l }) lid)
        else (err Error.not_exist, f)
      else (err Error.not_exist, f)

  -- `for { id := HandleContrains(); if id == "" { break }; err = DeleteBlob(id) … }`, where an error
  -- is only logged; `none` means that the fuel ran out
  pub evict : ℕ → Disk → FastCache Filter → Option (FastCache Filter)
  evict zero d f = none
  evict (suc fuel) d f = elim (Lru.handle_constrains f.entries) [
    | none ↦ none
    | some (l, id) ↦
        let rest = evict fuel d (delete_blob d (record f { entries = l }) id).1 in
        if str_eq id "" then some (record f { entries = l }) else rest
  ]

  -- The part of `StoreBlob` that follows the write of the file.
  unfoldable pub store_written :
      ℕ
      → Disk
      → ℕ
      → BlobDescription
      → ℕ × Option Bytes
      → FastCache Filter
      → Option (Result String × FastCache Filter)
  store_written fuel d now b (size, dat) f =
      let added = record f {
        size = f.size +ℤ pos size;
        entries =
            (Lru.add f.entries
              (record { last_access = now; description = b; data_in_ram = dat })).0;
      } in
      Option.map (λ f'. (ok b.blob_id, update_bloom f' b.blob_id)) (evict fuel d added)

  after_write :
      ℕ
      → Disk
      → ℕ
      → BlobDescription
      → Result (ℕ × Option Bytes) × FastCache Filter
      → Option (Result String × FastCache Filter)
  after_write fuel d now b (err e, f) = some (err e, f)
  after_write fuel d now b (ok written, f) = store_written fuel d now b written f

  unfoldable pub store_absent :
      ℕ
      → Disk
      → ℕ
      → BlobDescription
      → Reader
      → FastCache Filter
      → Option (Result String × FastCache Filter)
  unfolding after_write
  store_absent fuel d now b r f = after_write fuel d now b (write_bin_file d f b.blob_id r)

  -- Beside an error Go's method also returns an id, the blob's own for a file that exists.
  unfoldable pub store_blob :
      ℕ
      → Disk
      → ℕ
      → BlobDescription
      → Reader
      → FastCache Filter
      → Option (Result String × FastCache Filter)
  store_blob fuel d now b r f = elim (has_blob f b.blob_id) [
    | err e ↦ some (err e, f)
    | ok present ↦ if present then some (err Error.exist, f) else store_absent fuel d now b r f
  ]

  -- The entry is found by the id `id`, and the check before is about the id in `b`.
  update_found :
      ℕ → FastCache Filter → BlobDescription → LruList × Option LruEntry → FastCache Filter
  update_found now f b (l, none) = record f { entries = l }
  update_found now f b (l, some e) = record f {
    entries = Lru.update l (record e { description = b }) now;
  }

  unfoldable pub update_blob_description :
      ℕ → String → BlobDescription → FastCache Filter → Result (Unit {0}) × FastCache Filter
  unfolding update_found
  update_blob_description now id b f = elim (has_blob f b.blob_id) [
    | err e ↦ (err e, f)
    | ok present ↦
        if present
        then if in_bloom f id
          then (ok tt, update_found now f b (Lru.get f.entries id now))
          else (ok tt, f)
        else (ok tt, f)
  ]

  described :
      LruList × Option LruEntry → FastCache Filter → Result BlobDescription × FastCache Filter
  described (l, none) f = (err Error.not_exist, record f { entries = l })
  described (l, some e) f = (ok e.description, record f { entries = l })

  unfoldable pub get_blob_description :
      ℕ → FastCache Filter → String → Result BlobDescription × FastCache Filter
  unfolding described
  get_blob_description now f id =
      if str_eq id ""
      then (err Error.empty_id, f)
      else if in_bloom f id
      then described (Lru.get f.entries id now) f
      else (err Error.not_exist, f)

  -- the copy of the file to the writer: the bytes that it got
  unfoldable pub get_blob : Disk → FastCache Filter → String → Result (Unit {0}) × Bytes
  get_blob d f id = elim (build_filename d id) [
    | err e ↦ (err e, [])
    | ok _ ↦ elim (f.files id) [
      | none ↦ (err Error.not_exist, [])
      | some content ↦
          if d.read_fails id
          then (err io_error, [])
          else if d.write_fails
          then (err io_error, [])
          else (ok tt, content)
    ]
  ]

  retrieved : Disk → FastCache Filter → LruEntry → String → Result (Unit {0}) × Bytes
  retrieved d f e id = elim e.data_in_ram [
    | some content ↦ if d.write_fails then (err io_error, []) else (ok tt, content)
    | none ↦ get_blob d f id
  ]

  retrieve_found :
      Disk
      → FastCache Filter
      → String
      → LruList × Option LruEntry
      → (Result (Unit {0}) × Bytes) × FastCache Filter
  retrieve_found d f id (l, none) = ((err Error.not_exist, []), record f { entries = l })
  retrieve_found d f id (l, some e) = (retrieved d f e id, record f { entries = l })

  -- The writer gets the bytes beside the result. A failed write is taken to have written nothing.
  unfoldable pub retrieve_blob :
      Disk → ℕ → FastCache Filter → String → (Result (Unit {0}) × Bytes) × FastCache Filter
  unfolding retrieve_found retrieved
  retrieve_blob d now f id =
      if str_eq id ""
      then ((err Error.empty_id, []), f)
      else if in_bloom f id
      then retrieve_found d f id (Lru.get f.entries id now)
      else ((err Error.not_exist, []), f)

  -- the loop that fills the new filter
  insert_all : Filter → List String → Filter
  insert_all b [] = b
  insert_all b (id ∷ ids) = insert_all (insert b id) ids

  unfoldable pub rebuild_bloom_filter : FastCache Filter → FastCache Filter
  unfolding insert_all
  rebuild_bloom_filter f =
      if f.bf_dirty
      then record f {
        bf = insert_all (new f.max_count) (Lru.get_full_id_list f.entries);
        bf_dirty = false;
      }
      else f

  -- the ids that the callback gets, up to the first for which it gives false
  visited : (String → Bool) → List String → List String
  visited callback [] = []
  visited callback (id ∷ ids) =
      let rest = visited callback ids in id ∷ (if callback id then rest else [])

  unfoldable pub get_blobs : FastCache Filter → (String → Bool) → List String
  unfolding visited
  get_blobs f callback = visited callback (Lru.get_full_id_list f.entries)

  -- the search and the retentions, which the cache does not have
  unfoldable pub search_blobs : FastCache Filter → String → Result (Unit {0})
  search_blobs f q = err Error.not_implemented

  unfoldable pub get_retention : FastCache Filter → String → Result RetentionEntry
  get_retention f id = err Error.not_implemented
