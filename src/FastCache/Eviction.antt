-- ===== src/FastCache/Eviction.antt =====
-- The loop at the end of `StoreBlob`: it ends, it brings the cache below its bounds, it takes the
-- least recently accessed entries, and never the new one.
use go_blob_store.Prelude.{
  subst, ltb, ℕ, zero, suc, ◌≤◌, ◌<◌, ◌≡◌, refl, ap, ◌∙◌, ◌⊎◌, inl, inr, String, Bool, true, false,
  none, some, List, [], ◌∷◌, arith, All, str_eq, str_eq→eq, str_leb_refl, ltb_ℤ, pos, length,
  get_elem?, Bool-cases, if◌then◌else◌, All-get_elem?,
}
use go_blob_store.Lru
use go_blob_store.Lru.{LruEntry, LruList, key}
use go_blob_store.Lru.Order.{lookup, IsSorted}
use go_blob_store.Lru.Invariant
use go_blob_store.Lru.Laws.{without}
use go_blob_store.Lru.Oldest.{IsOldest}
use go_blob_store.Lru.Ram.{
  forget, forget_twice, Forgets, lookup-Forgets, length-Forgets, SameBounds,
  handle_constrains_correct,
}
use go_blob_store.Lru.Members.{All-Forgets, All-without, lookup_of_get_elem?, forgotten-lookup}
use go_blob_store.FastCache.{BloomFilter, Disk, FastCache, delete_blob, evict}
use go_blob_store.FastCache.Invariant.{IsValid, at, not_empty, delete_blob_correct}

-- the new entry has the time `now`, and each other an earlier one
abbrev pub IsAged : String → ℕ → LruEntry → Type 0
IsAged new now e =
    (str_eq (key e) new ≡ true → e.last_access ≡ now)
    × (str_eq (key e) new ≡ false → e.last_access < now)

-- Of two entries one is not the new one, so that the oldest is not.
oldest_is_not_new :
    (new : String) (now : ℕ) (es : List LruEntry) (r : LruEntry)
    → IsSorted es
    → All (IsAged new now) es
    → 1 < length es
    → IsOldest r es
    → IsAged new now r
    → str_eq (key r) new ≡ false
oldest_is_not_new new now [] r s h more o a = absurd (omega arith)
oldest_is_not_new new now (x ∷ []) r s h more o a = absurd (omega arith)
oldest_is_not_new new now (x ∷ y ∷ es) r s h more o a = elim (Bool-cases (str_eq (key r) new)) [
  | inr done ↦ done
  | inl same ↦ absurd (
      ground (
        arith,
        str_eq→eq (key x) new,
        str_eq→eq (key y) new,
        str_leb_refl new,
        s.0.0,
        o.0,
        o.1.0,
        a.0 same,
        h.0.1,
        h.1.0.1,
      ))
]

module _ (bloom : BloomFilter) where
  open bloom use {Filter}

  pub evict_round :
      (d : Disk) (fuel : ℕ) (f : FastCache Filter) (l : LruList) (id : String)
      → Lru.handle_constrains f.entries ≡ some (l, id)
      → str_eq id "" ≡ false
      → evict bloom (suc fuel) d f
        ≡ evict bloom fuel d (delete_blob bloom d (record f { entries = l }) id).1
  unfolding evict
  evict_round d fuel f l id e named = rw (e, evict) (rw named)

  pub evict_done :
      (d : Disk) (fuel : ℕ) (f : FastCache Filter) (l : LruList)
      → Lru.handle_constrains f.entries ≡ some (l, "")
      → evict bloom (suc fuel) d f ≡ some (record f { entries = l })
  unfolding evict
  evict_done d fuel f l e = rw (e, evict) refl

module _ (bloom : BloomFilter) (new : String) (now : ℕ) where
  open bloom use {Filter}

  abbrev is_new : String → Bool
  is_new id = str_eq id new

  -- What the loop makes of a cache. The entries that are left were there before, perhaps with their
  -- data in memory; the new one is among them; both bounds hold, where the one on the memory is
  -- positive; the new one's file stays; and an entry that is gone was accessed no later than any that is left.
  pub record Evicted (f f' : FastCache Filter) : Type 0 where
    pub valid : IsValid bloom is_new f'
    pub fits : length f'.entries.entries ≤ f.entries.max_count
    pub fits_ram :
        ltb_ℤ (pos 0) f.entries.max_ram_size ≡ true
        → ltb_ℤ f.entries.max_ram_size f'.entries.ram_size ≡ false
    pub kept :
        (id : String) (y : LruEntry)
        → at bloom f' id ≡ some y
        → (x : LruEntry) × (at bloom f id ≡ some x) × ((y ≡ x) ⊎ (y ≡ forget x))
    pub new_kept : (y : LruEntry) × (at bloom f' new ≡ some y)
    pub file_kept : f'.files new ≡ f.files new
    pub oldest_first :
        (id : String) (x : LruEntry)
        → at bloom f id ≡ some x
        → at bloom f' id ≡ none
        → IsOldest x f'.entries.entries
    pub still_oldest : (o : LruEntry) → IsOldest o f.entries.entries → IsOldest o f'.entries.entries

  -- the state in which a round begins
  pub record IsReady (f : FastCache Filter) : Type 0 where
    pub valid : IsValid bloom is_new f
    pub aged : All (IsAged new now) f.entries.entries
    pub has_new : (y : LruEntry) × (at bloom f new ≡ some y)
    pub room : 0 < f.entries.max_count

  IsAged-forget : (e : LruEntry) → IsAged new now e → IsAged new now (forget e)
  IsAged-forget e a = a

  module _ (f : FastCache Filter) (l : LruList)
      (forgets : Forgets f.entries.entries l.entries) where
    abbrev with_list : FastCache Filter
    with_list = record f { entries = l }

    forgotten-IsValid :
        IsValid bloom is_new f → Lru.Invariant.IsValid l → IsValid bloom is_new with_list
    forgotten-IsValid r v = record {
      list = v;
      covered = λ id e here usual.
          let (x, there, _) = lookup-Forgets id _ _ forgets here in r.covered id x there usual;
      stored = λ id e here.
          let (x, there, same) = lookup-Forgets id _ _ forgets here in
          let (content, file, data_x) = r.stored id x there in (content, file, ground arith);
      named =
          λ id e here. let (x, there, _) = lookup-Forgets id _ _ forgets here in r.named id x there;
    }

    forgotten-IsReady :
        IsReady f → Lru.Invariant.IsValid l → SameBounds f.entries l → IsReady with_list
    forgotten-IsReady r v same =
        let (y, here, _) = forgotten-lookup new _ _ forgets r.has_new.1 in
        record {
          valid = forgotten-IsValid r.valid v;
          aged = All-Forgets (IsAged new now) IsAged-forget _ _ forgets r.aged;
          has_new = (y, here);
          room = rw same.0 r.room;
        }

    -- the last round, which removes nothing
    last_round :
        IsReady f
        → Lru.Invariant.IsValid l
        → (ltb_ℤ (pos 0) f.entries.max_ram_size ≡ true
            → ltb_ℤ f.entries.max_ram_size l.ram_size ≡ false)
        → length f.entries.entries ≤ f.entries.max_count
        → Evicted f with_list
    last_round r v ram count = record {
      valid = forgotten-IsValid r.valid v;
      fits = rw (length-Forgets _ _ forgets) count;
      fits_ram = ram;
      kept = λ id y here. lookup-Forgets id _ _ forgets here;
      new_kept = let (y, here, _) = forgotten-lookup new _ _ forgets r.has_new.1 in (y, here);
      file_kept = refl;
      oldest_first = λ id x there gone.
          let (y, here, _) = forgotten-lookup id _ _ forgets there in absurd (cc);
      still_oldest = λ o h.
          All-Forgets (λ (y : LruEntry). o.last_access ≤ y.last_access) (λ e le. le) _ _ forgets h;
    }

    -- a round that removes the entry `r`, the oldest
    module _ (d : Disk) (r : LruEntry) (ready : IsReady f) (v : Lru.Invariant.IsValid l)
        (same : SameBounds f.entries l) (more : f.entries.max_count < length f.entries.entries)
        (i : ℕ) (there : get_elem? f.entries.entries i ≡ some r)
        (oldest : IsOldest r f.entries.entries) where
      found : at bloom f (key r) ≡ some r
      found = lookup_of_get_elem? f.entries.entries i r ready.valid.list.sorted there

      not_new : is_new (key r) ≡ false
      not_new =
          oldest_is_not_new new now f.entries.entries r ready.valid.list.sorted ready.aged
            (omega (arith, ready.room)) oldest
            (All-get_elem? (IsAged new now) f.entries.entries i {a = r} ready.aged there)

      abbrev removed_cache : FastCache Filter
      removed_cache = (delete_blob bloom d with_list (key r)).1

      removed_entries :
          (removed_cache.entries.entries ≡ without (key r) l.entries)
          × IsValid bloom is_new removed_cache
          × ((j : String)
              → at bloom removed_cache j ≡ (if str_eq (key r) j then none else lookup j l.entries))
          × SameBounds l removed_cache.entries
          × (suc (length removed_cache.entries.entries) ≡ length f.entries.entries)
          × (removed_cache.files new ≡ f.files new)
      removed_entries =
          let (y, here, _) = forgotten-lookup (key r) _ _ forgets found in
          let (valid, list, lookups, files) =
            delete_blob_correct bloom d is_new with_list (key r) y
              (forgotten-IsReady ready v same).valid here not_new in
          let (gone, _, _) = Lru.Invariant.entries-delete l (key r) v here in
          let (_, _, count, _) = Lru.Invariant.delete_correct l (key r) v in
          (
            ap (λ (k : LruList). k.entries) list ∙ gone,
            valid,
            lookups,
            rw list (Lru.Invariant.delete-bounds l (key r)),
            rw list ((count y here).1 ∙ length-Forgets _ _ forgets),
            files new not_new,
          )

      removed-IsReady : IsReady removed_cache
      removed-IsReady =
          let (entries, valid, lookups, bounds, _, _) = removed_entries in
          let before = forgotten-IsReady ready v same in
          record {
            valid = valid;
            aged = rw entries (All-without (IsAged new now) (key r) l.entries before.aged);
            has_new = (before.has_new.0, rw (lookups new, not_new) before.has_new.1);
            room = rw bounds.0 before.room;
          }

      then_Evicted : (f' : FastCache Filter) → Evicted removed_cache f' → Evicted f f'
      then_Evicted f' e =
          let (entries, valid, lookups, bounds, _, files) = removed_entries in
          let older = λ (o : LruEntry) (h : IsOldest o f.entries.entries). e.still_oldest o (
            rw entries (
              All-without (λ (y : LruEntry). o.last_access ≤ y.last_access) (key r) l.entries
                (All-Forgets (λ (y : LruEntry). o.last_access ≤ y.last_access) (λ z le. le) _ _
                  forgets h))) in
          record {
            valid = e.valid;
            fits = rw (bounds.0 ∙ same.0) at e.fits;
            fits_ram = rw (bounds.1 ∙ same.1) at e.fits_ram;
            kept = λ id y here.
                let (x', mid, rel') = e.kept id y here in
                let (x, first, rel) = lookup-Forgets id _ _ forgets (was_there id mid) in
                (x, first, forget_twice x x' y rel rel');
            new_kept = e.new_kept;
            file_kept = e.file_kept ∙ files;
            oldest_first = λ id x first gone. elim (Bool-cases (str_eq (key r) id)) [
              | inl hit ↦
                  older x (subst (λ o. IsOldest o f.entries.entries) (at_hit id x hit first) oldest)
              | inr other ↦
                  let (y, mid, rel) = forgotten-lookup id _ _ forgets first in
                  same_age x y rel (e.oldest_first id y (rw (lookups id, other) mid) gone)
            ];
            still_oldest = older;
          }
        where
          was_there :
              (id : String) {x : LruEntry}
              → at bloom removed_cache id ≡ some x
              → lookup id l.entries ≡ some x
          was_there id mid =
              let (_, _, lookups, _, _, _) = removed_entries in ground (arith, lookups id)

          at_hit :
              (id : String) (x : LruEntry)
              → str_eq (key r) id ≡ true
              → at bloom f id ≡ some x
              → r ≡ x
          at_hit id x hit first = ground (arith, str_eq→eq (key r) id hit, found)

          same_age :
              (x y : LruEntry)
              → (y ≡ x) ⊎ (y ≡ forget x)
              → IsOldest y f'.entries.entries
              → IsOldest x f'.entries.entries
          same_age x y (inl p) h = subst (λ z. IsOldest z f'.entries.entries) p h
          same_age x y (inr p) h = subst (λ z. IsOldest z f'.entries.entries) p h

  -- From a state with the new entry, more fuel than entries and room for at least one entry, the loop
  -- ends, whatever the disk does, and makes of the cache what `Evicted` says.
  pub evict_total :
      (d : Disk) (fuel : ℕ) (f : FastCache Filter)
      → IsReady f
      → length f.entries.entries < fuel
      → (f' : FastCache Filter) × (evict bloom fuel d f ≡ some f') × Evicted f f'
  evict_total d zero f r h = absurd (omega arith)
  evict_total d (suc fuel) f r h =
      let (l, id, handled, v, forgets, ram, surplus, same) =
        handle_constrains_correct f.entries r.valid.list in
      elim (Bool-cases (ltb f.entries.max_count (length f.entries.entries))) [
        | inr small ↦
            let count : length f.entries.entries ≤ f.entries.max_count = ground arith in
            (
              record f { entries = l },
              evict_done bloom d fuel f l (rw (surplus.0 count) at handled),
              last_round f l forgets r v ram count,
            )
        | inl large ↦
            let more : f.entries.max_count < length f.entries.entries = ground arith in
            let (o, named, there, oldest) = surplus.1 more in
            let i = Lru.get_oldest f.entries in
            let next = removed-IsReady f l forgets d o r v same more i there oldest in
            let (_, _, _, _, count, _) =
              removed_entries f l forgets d o r v same more i there oldest in
            let (f', done, e) = evict_total d fuel _ next (omega arith) in
            (
              f',
              evict_round bloom d fuel f l (key o) (rw named at handled) (
                    not_empty bloom (key o) (
                      r.valid.named (key o) o (found f l forgets d o r v same more i there oldest)))
                  ∙ done,
              then_Evicted f l forgets d o r v same more i there oldest f' e,
            )
      ]
