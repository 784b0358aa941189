-- ===== src/FastCache/Storing.antt =====
-- Storing and retrieving a blob, and the rebuilding of the filter.
use Prim.Native.String.{len}
use mathlib.Core.Option
use go_blob_store.Prelude.{
  ℕ, ◌+◌, ◌≤◌, ◌<◌, ◌≡◌, refl, ap, ◌∙◌, ◌⊎◌, inl, inr, String, true, false, Option, none, some,
  is_some, arith, All, str_eq, str_eq→eq, str_eq_refl, ltb, ltb_ℤ, pos, length, Option-cases,
  Bool-cases, if◌then◌else◌, All-map, ◌+ℤ◌, subst,
}
use go_blob_store.Model.{BlobDescription, Bytes, ok, Reader}
use go_blob_store.Lru
use go_blob_store.Lru.{LruEntry, LruList, key}
use go_blob_store.Lru.Invariant
use go_blob_store.Lru.Invariant.{at_time}
use go_blob_store.Lru.Oldest.{IsOldest}
use go_blob_store.Search.Slices.{All-insert_before}
use go_blob_store.Lru.Members.{All-absent, All-both}
use go_blob_store.FastCache.{
  BloomFilter, Disk, FastCache, in_bloom, build_filename, write_bin_file, store_written,
  store_absent, after_write, store_blob, retrieve_blob, retrieve_found, retrieved, get_blob,
  update_bloom, with_file,
}
use go_blob_store.FastCache.Invariant.{IsValid, at, not_empty, has_blob-at}
use go_blob_store.FastCache.Eviction.{IsAged, Evicted, IsReady, evict_total}

-- the calls that storing a blob makes for its id go well
pub record IsWritable (d : Disk) (id : String) : Type 0 where
  pub mkdir : d.mkdir_fails id ≡ false
  pub create : d.create_fails id ≡ false
  pub close : d.close_fails id ≡ false

-- and those that retrieve it
pub record IsReadable (d : Disk) (id : String) : Type 0 where
  pub mkdir : d.mkdir_fails id ≡ false
  pub read : d.read_fails id ≡ false
  pub write : d.write_fails ≡ false

module _ (bloom : BloomFilter) where
  open bloom use {Filter}

  write_bin_file_lem :
      (d : Disk) (f : FastCache Filter) (id : String) (r : Reader)
      → ltb (len id) 2 ≡ false
      → IsWritable d id
      → r.broken ≡ false
      → (dat : Option Bytes) × (write_bin_file bloom d f id r ≡ (
        ok (length r.content, dat),
        record f { files = with_file f.files id (some r.content) },
      ))
        × ((dat ≡ none) ⊎ (dat ≡ some r.content))
  unfolding write_bin_file build_filename
  write_bin_file_lem d f id r named w sound = (
    if ltb_ℤ (pos (length r.content)) f.max_file_size_for_ram
        then if d.read_fails id then none else some r.content
        else none,
    ground (arith, named, w.mkdir, w.create, w.close),
    ground arith,
  )

  retrieved_lem :
      (d : Disk) (f : FastCache Filter) (id : String) (e : LruEntry) (content : Bytes)
      → ltb (len id) 2 ≡ false
      → f.files id ≡ some content
      → (e.data_in_ram ≡ none) ⊎ (e.data_in_ram ≡ some content)
      → IsReadable d id
      → retrieved bloom d f e id ≡ (ok tt, content)
  unfolding retrieved get_blob build_filename
  retrieved_lem d f id e content named file data_e readable =
      ground (arith, named, readable.mkdir, readable.read, readable.write)

  -- Retrieving the blob of an entry of a valid cache writes the bytes of its file, from memory or from
  -- the disk.
  pub retrieve_blob_lem :
      (d : Disk) (now : ℕ) (f : FastCache Filter) (id : String) (e : LruEntry) (content : Bytes)
      → IsValid bloom (λ _. false) f
      → at bloom f id ≡ some e
      → f.files id ≡ some content
      → IsReadable d id
      → (retrieve_blob bloom d now f id).0 ≡ (ok tt, content)
  unfolding retrieve_blob in_bloom retrieve_found
  retrieve_blob_lem d now f id e content v found file readable =
      let (_, result, _, _) = Lru.Invariant.get_correct f.entries id now v.list in
      let (kept, there, data_e) = v.stored id e found in
      simp (not_empty bloom id (v.named id e found), v.covered id e found refl)
        (go (Lru.get f.entries id now) (result ∙ ap (Option.map (at_time now)) found)
          (ground arith))
    where
      go :
          (p : LruList × Option LruEntry)
          → p.1 ≡ some (at_time now e)
          → (e.data_in_ram ≡ none) ⊎ (e.data_in_ram ≡ some content)
          → (retrieve_found bloom d f id p).0 ≡ (ok tt, content)
      go (l, some x) same data_e =
          retrieved_lem d f id x content (v.named id e found) file (ground arith) readable
      go (l, none) same data_e = absurd (cc)

  abbrev pub entry_of : ℕ → BlobDescription → Option Bytes → LruEntry
  entry_of now b dat = record { last_access = now; description = b; data_in_ram = dat }

  -- the cache with the file and the entry, before the loop
  abbrev pub with_entry :
      ℕ → BlobDescription → FastCache Filter → Option Bytes → Bytes → FastCache Filter
  with_entry now b f dat content = record f {
    size = f.size +ℤ pos (length content);
    entries = (Lru.add f.entries (entry_of now b dat)).0;
    files = with_file f.files b.blob_id (some content);
  }

  module _ (now : ℕ) (b : BlobDescription) (f : FastCache Filter) (dat : Option Bytes)
      (content : Bytes) (v : IsValid bloom (λ _. false) f) (absent : at bloom f b.blob_id ≡ none)
      (named : ltb (len b.blob_id) 2 ≡ false) (room : 0 < f.entries.max_count)
      (earlier : All (λ (e : LruEntry). e.last_access < now) f.entries.entries)
      (in_memory : (dat ≡ none) ⊎ (dat ≡ some content)) where
    abbrev new_entry : LruEntry
    new_entry = entry_of now b dat

    abbrev added : FastCache Filter
    added = with_entry now b f dat content

    at-added :
        (id : String)
        → at bloom added id ≡ (if str_eq b.blob_id id then some new_entry else at bloom f id)
    at-added id = (Lru.Invariant.add_correct f.entries new_entry v.list absent).2 id

    added-IsValid : IsValid bloom (λ id. str_eq id b.blob_id) added
    added-IsValid = record {
      list = (Lru.Invariant.add_correct f.entries new_entry v.list absent).0;
      covered = λ id e here usual.
          v.covered id e (ground (arith, at-added id, str_eq→eq b.blob_id id, str_eq_refl id)) refl;
      stored = λ id e here. elim (Bool-cases (str_eq b.blob_id id)) [
        | inl same ↦ (content, rw same, ground (arith, at-added id, in_memory))
        | inr other ↦ rw other (v.stored id e (ground (arith, at-added id)))
      ];
      named = λ id e here. elim (Bool-cases (str_eq b.blob_id id)) [
        | inl same ↦ subst (λ s. ltb (len s) 2 ≡ false) (str_eq→eq b.blob_id id same) named
        | inr other ↦ v.named id e (ground (arith, at-added id))
      ];
    }

    added-IsReady : IsReady bloom b.blob_id now added
    added-IsReady = record {
      valid = added-IsValid;
      aged = rw (Lru.Invariant.entries-add f.entries new_entry v.list) (
          All-insert_before (IsAged b.blob_id now) _ new_entry f.entries.entries
            (λ _. refl, λ other. absurd (cc (str_eq_refl b.blob_id)))
            (All-map f.entries.entries (λ e h. (λ same. absurd (cc), λ _. h.1))
              (All-both (λ e. str_eq (key e) b.blob_id ≡ false)
                (λ (e : LruEntry). e.last_access < now) f.entries.entries
                (All-absent b.blob_id f.entries.entries absent) earlier)));
      has_new = (new_entry, at-added b.blob_id ∙ rw (str_eq_refl b.blob_id));
      room = rw (Lru.Invariant.add-bounds f.entries new_entry).0 room;
    }

    store_written_lem :
        (d : Disk) (fuel : ℕ)
        → length f.entries.entries + 1 < fuel
        → (f' : FastCache Filter) × (store_written bloom fuel d now b
              (length content, dat)
              (record f { files = with_file f.files b.blob_id (some content) })
            ≡ some (ok b.blob_id, update_bloom bloom f' b.blob_id))
          × Evicted bloom b.blob_id now added f'
    unfolding store_written
    store_written_lem d fuel enough =
        let longer = (Lru.Invariant.add_correct f.entries new_entry v.list absent).1 in
        let (f', done, e) =
          evict_total bloom b.blob_id now d fuel added added-IsReady (omega (arith, longer)) in
        (f', rw done, e)

  -- with its id in the filter the new entry is no exception any more
  update_bloom-IsValid :
      (f : FastCache Filter) (new : String)
      → IsValid bloom (λ id. str_eq id new) f
      → IsValid bloom (λ _. false) (update_bloom bloom f new)
  unfolding update_bloom
  update_bloom-IsValid f new v = record {
    list = v.list;
    covered = λ id e here _. elim (Bool-cases (str_eq id new)) [
      | inl same ↦ rw (str_eq→eq id new same) (bloom.lookup-insert_self f.bf new)
      | inr other ↦ bloom.lookup-insert f.bf new id (v.covered id e here other)
    ];
    stored = v.stored;
    named = v.named;
  }

  -- what `StoreBlob` needs: a valid cache without the blob, an id of at least two bytes, room for one
  -- entry, a clock that has moved on, a reader that gives all its bytes, and a disk that takes them
  pub record CanStore (d : Disk) (now : ℕ) (b : BlobDescription) (r : Reader) (f : FastCache Filter)
      : Type 0 where
    pub valid : IsValid bloom (λ _. false) f
    pub absent : at bloom f b.blob_id ≡ none
    pub named : ltb (len b.blob_id) 2 ≡ false
    pub room : 0 < f.entries.max_count
    pub earlier : All (λ (e : LruEntry). e.last_access < now) f.entries.entries
    pub writable : IsWritable d b.blob_id
    pub sound : r.broken ≡ false

  store_blob_lem :
      (fuel : ℕ) (d : Disk) (now : ℕ) (b : BlobDescription) (r : Reader) (f : FastCache Filter)
      → CanStore d now b r f
      → length f.entries.entries + 1 < fuel
      → (dat : Option Bytes) × (f' : FastCache Filter) × (store_blob bloom fuel d now b r f
          ≡ some (ok b.blob_id, update_bloom bloom f' b.blob_id))
        × Evicted bloom b.blob_id now (with_entry now b f dat r.content) f'
  unfolding store_blob store_absent
  store_blob_lem fuel d now b r f can enough =
      let (dat, written, in_memory) =
        write_bin_file_lem d f b.blob_id r can.named can.writable can.sound in
      let (f', done, e) =
        store_written_lem now b f dat r.content can.valid can.absent can.named can.room can.earlier
          in_memory d fuel enough in
      let present =
        has_blob-at bloom f b.blob_id can.valid (not_empty bloom b.blob_id can.named)
        ∙ ap (λ o. ok (is_some o)) can.absent in
      (dat, f', rw (present, store_blob) (ap (after_write bloom fuel d now b) written ∙ done), e)

  -- Storing a new blob, whose id has at least two bytes, in a valid cache that has room for an
  -- entry, at a time later than every access, from a reader that gives all its bytes and on a disk
  -- that takes them, ends and succeeds. Afterwards the cache
  -- is valid and within its bounds, also, where it is positive, the one on the memory; it has the new
  -- blob, and otherwise only entries that it had; and one that it lost was accessed no later than any
  -- that is left.
  pub store_blob_correct :
      (fuel : ℕ) (d : Disk) (now : ℕ) (b : BlobDescription) (r : Reader) (f : FastCache Filter)
      → CanStore d now b r f
      → length f.entries.entries + 1 < fuel
      → (f' : FastCache Filter) × (store_blob bloom fuel d now b r f ≡ some (ok b.blob_id, f'))
        × IsValid bloom (λ _. false) f'
        × (length f'.entries.entries ≤ f.entries.max_count)
        × (ltb_ℤ (pos 0) f.entries.max_ram_size ≡ true
            → ltb_ℤ f.entries.max_ram_size f'.entries.ram_size ≡ false)
        × (is_some (at bloom f' b.blob_id) ≡ true)
        × ((id : String)
            → str_eq b.blob_id id ≡ false
            → is_some (at bloom f' id) ≡ true
            → is_some (at bloom f id) ≡ true)
        × ((id : String) (x : LruEntry)
            → str_eq b.blob_id id ≡ false
            → at bloom f id ≡ some x
            → at bloom f' id ≡ none
            → IsOldest x f'.entries.entries)
  unfolding update_bloom Lru.add
  store_blob_correct fuel d now b r f can enough =
      let (dat, f', done, e) = store_blob_lem fuel d now b r f can enough in
      let lookups =
        (Lru.Invariant.add_correct f.entries (entry_of now b dat) can.valid.list can.absent).2 in
      (
        update_bloom bloom f' b.blob_id,
        done,
        update_bloom-IsValid f' b.blob_id e.valid,
        e.fits,
        e.fits_ram,
        ground (arith, e.new_kept.1),
        λ id other here. elim (Option-cases (at bloom f' id)) [
          | inl gone ↦ absurd (cc here)
          | inr (y, there) ↦
              let (x, before, _) = e.kept id y there in
              ap (λ o. is_some o) (rw (lookups id, other) at before)
        ],
        λ id x other there gone. e.oldest_first id x (rw (lookups id, other) there) gone,
      )
