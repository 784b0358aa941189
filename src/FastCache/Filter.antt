-- ===== src/FastCache/Filter.antt =====
-- The background task that rebuilds the filter, and a cache with no room for an entry.
use go_blob_store.Prelude.{
  subst, ℕ, zero, suc, ◌≡◌, refl, ap, ◌∙◌, inl, inr, String, true, false, none, some, List, [], ◌∷◌,
  arith, str_eq, str_eq→eq, map, get_elem?, Bool-cases,
}
use go_blob_store.Lru
use go_blob_store.Lru.{LruEntry, key}
use go_blob_store.Lru.Order.{lookup}
use go_blob_store.Lru.Invariant
use go_blob_store.Lru.Ram.{Forgets, handle_constrains_correct, key-Forgets}
use go_blob_store.FastCache.{
  BloomFilter, Disk, FastCache, delete_blob, evict, in_bloom, insert_all, rebuild_bloom_filter,
}
use go_blob_store.FastCache.Invariant.{IsValid}
use go_blob_store.FastCache.Eviction.{evict_round}

module _ (bloom : BloomFilter) where
  open bloom use {Filter}

  insert_all_keeps :
      (b : Filter) (ids : List String) (id : String)
      → bloom.lookup b id ≡ true
      → bloom.lookup (insert_all bloom b ids) id ≡ true
  unfolding insert_all
  insert_all_keeps b [] id h = h
  insert_all_keeps b (i ∷ ids) id h =
      insert_all_keeps (bloom.insert b i) ids id (bloom.lookup-insert b i id h)

  insert_all_covers :
      (b : Filter) (id : String) (es : List LruEntry) {e : LruEntry}
      → lookup id es ≡ some e
      → bloom.lookup (insert_all bloom b (map key es)) id ≡ true
  unfolding insert_all lookup
  insert_all_covers b id [] found = absurd (cc)
  insert_all_covers b id (x ∷ xs) found = elim (Bool-cases (str_eq (key x) id)) [
    | inl same ↦ insert_all_keeps (bloom.insert b (key x)) (map key xs) id (
        subst (λ s. bloom.lookup (bloom.insert b (key x)) s ≡ true) (str_eq→eq (key x) id same)
          (bloom.lookup-insert_self b (key x)))
    | inr other ↦ insert_all_covers (bloom.insert b (key x)) id xs (rw other at found)
  ]

  -- Rebuilding the filter keeps a valid cache valid and its entries and files: no entry is lost.
  pub rebuild_bloom_filter_correct :
      (f : FastCache Filter)
      → IsValid bloom (λ _. false) f
      → IsValid bloom (λ _. false) (rebuild_bloom_filter bloom f)
        × ((rebuild_bloom_filter bloom f).entries ≡ f.entries)
        × ((rebuild_bloom_filter bloom f).files ≡ f.files)
        × ((rebuild_bloom_filter bloom f).bf_dirty ≡ false)
  unfolding rebuild_bloom_filter Lru.get_full_id_list
  rebuild_bloom_filter_correct f v = elim (Bool-cases f.bf_dirty) [
    | inr clean ↦ simp clean (v, refl, refl, refl)
    | inl dirty ↦ simp dirty (
      record {
        list = v.list;
        covered =
            λ id e here _. insert_all_covers (bloom.new f.max_count) id f.entries.entries here;
        stored = v.stored;
        named = v.named;
      },
      refl,
      refl,
      refl,
    )
  ]

  one_of_Forgets :
      (e : LruEntry) (ys : List LruEntry)
      → Forgets (e ∷ []) ys
      → (e' : LruEntry) × (ys ≡ e' ∷ []) × (key e' ≡ key e)
  one_of_Forgets e [] f = absurd f
  one_of_Forgets e (y ∷ []) f = (y, refl, key-Forgets e y f.0)
  one_of_Forgets e (y ∷ y' ∷ ys) f = absurd f.1

  only :
      (es : List LruEntry) (e o : LruEntry) (i : ℕ) → es ≡ e ∷ [] → get_elem? es i ≡ some o → o ≡ e
  only [] e o i one h = absurd (cc)
  only (x ∷ xs) e o zero one h = ground arith
  only (x ∷ []) e o (suc i) one h = absurd (cc)
  only (x ∷ y ∷ xs) e o (suc i) one h = absurd (cc)

  delete_blob_unseen :
      (d : Disk) (f : FastCache Filter) (id : String)
      → bloom.lookup f.bf id ≡ false
      → (delete_blob bloom d f id).1 ≡ f
  unfolding delete_blob in_bloom
  delete_blob_unseen d f id unseen = ground arith

  -- With no room for any entry (a maximal count of 0) the loop that follows the insertion of a blob
  -- never ends: the surplus entry is the new one, which is not yet in the filter, so that its
  -- deletion finds nothing.
  pub evict_never :
      (d : Disk) (fuel : ℕ) (f : FastCache Filter) (e : LruEntry)
      → Lru.Invariant.IsValid f.entries
      → f.entries.entries ≡ e ∷ []
      → f.entries.max_count ≡ 0
      → bloom.lookup f.bf (key e) ≡ false
      → str_eq (key e) "" ≡ false
      → evict bloom fuel d f ≡ none
  unfolding evict
  evict_never d zero f e v one room unseen named = refl
  evict_never d (suc fuel) f e v one room unseen named =
      let (l, id, handled, v', forgets, _, surplus, same) = handle_constrains_correct f.entries v in
      let (o, reported, there, _) = surplus.1 (rw (room, one) (omega arith)) in
      let (e', left, kept) =
        one_of_Forgets e l.entries (subst (λ es. Forgets es l.entries) one forgets) in
      let own : key o ≡ key e =
        ap key (only f.entries.entries e o (Lru.get_oldest f.entries) one there) in
      let own_id : id ≡ key e = reported ∙ own in
      let cache : FastCache Filter = record f { entries = l } in
      let unchanged = delete_blob_unseen d cache id (rw own_id unseen) in
      evict_round bloom d fuel f l id handled (rw own_id named)
      ∙ ap (evict bloom fuel d) unchanged
      ∙ evict_never d fuel cache e' v' left (same.0 ∙ room) (rw kept unseen) (rw kept named)
