-- ===== src/Lru.antt =====
-- internal/services/fastcache/lrulist.go: the list of cached blobs, sorted by blob id, with the size
-- of the data that it holds in memory. A method returns the new list beside its result; the time of a
-- call, `time.Now()`, is an argument, and a time is a number. The list's own lock makes each method
-- one step. The size stays below 2^63, and its wrap-around is not written out.
pub mod Order
pub mod Laws
pub mod Oldest
pub mod Ram
pub mod Members
pub mod Invariant
use go_blob_store.Prelude.{
  ℕ, zero, suc, String, ℤ, pos, Bool, true, false, ◌&&◌, Option, none, some, is_some, List, [], ◌∷◌,
  ◌++◌, map, ltb, str_eq, str_leb, length, get_elem?, set, take, drop, if◌then◌else◌, ◌+ℤ◌, ◌-ℤ◌,
  ltb_ℤ,
}
use go_blob_store.Model.{BlobDescription, Bytes}
use go_blob_store.Search.{sort_search, test_at, insert_slice}

-- `data` is `none` for Go's nil: the blob is only on disk
pub record LruEntry : Type 0 where
  pub last_access : ℕ
  pub description : BlobDescription
  pub data_in_ram : Option Bytes

abbrev pub key : LruEntry → String
key e = e.description.blob_id

pub record LruList : Type 0 where
  pub max_count : ℕ
  pub max_ram_size : ℤ
  pub entries : List LruEntry
  pub ram_size : ℤ

-- `len(e.Data)`
abbrev pub data_size : LruEntry → ℕ
data_size e = elim e.data_in_ram [ none ↦ 0 | some d ↦ length d ]

unfoldable pub init : LruList → LruList
init l = record l { entries = [] }

unfoldable pub size : LruList → ℕ
size l = length l.entries

-- `insertEntryAt`: at the end the entry is appended, else the tail moves up by one
unfoldable pub insert_entry_at : List LruEntry → ℕ → LruEntry → List LruEntry
unfolding insert_slice
insert_entry_at xs i v = insert_slice xs i v

-- the index that each method finds by `sort.Search`
unfoldable pub search_id : List LruEntry → String → ℕ
search_id xs id = sort_search (length xs) (test_at (λ e. str_leb id (key e)) xs)

unfoldable pub insert_sorted : List LruEntry → LruEntry → List LruEntry
unfolding insert_entry_at
insert_sorted xs v = insert_entry_at xs (search_id xs (key v)) v

unfoldable pub add : LruList → LruEntry → LruList × Bool
add l e = (
  record l {
    entries = insert_sorted l.entries e;
    ram_size = if is_some e.data_in_ram then l.ram_size +ℤ pos (data_size e) else l.ram_size;
  },
  true,
)

-- `i < len(l.entries) && l.entries[i].Description.BlobID == id`, with the entry
unfoldable pub entry_at : List LruEntry → ℕ → String → Option LruEntry
entry_at xs i id = elim (get_elem? xs i) [
  | none ↦ none
  | some e ↦ if str_eq (key e) id then some e else none
]

unfoldable pub update : LruList → LruEntry → ℕ → LruList
update l e now =
    let i = search_id l.entries (key e) in
    if is_some (entry_at l.entries i (key e))
    then record l { entries = set l.entries i (record e { last_access = now }) }
    else l

touch_at : List LruEntry → ℕ → ℕ → Option LruEntry → List LruEntry
touch_at xs i now none = xs
touch_at xs i now (some e) = set xs i (record e { last_access = now })

touched : ℕ → Option LruEntry → Option LruEntry
touched now none = none
touched now (some e) = some (record e { last_access = now })

unfoldable pub update_access : LruList → String → ℕ → LruList
unfolding touch_at
update_access l id now =
    let i = search_id l.entries id in
    record l { entries = touch_at l.entries i now (entry_at l.entries i id) }

unfoldable pub get_full_id_list : LruList → List String
get_full_id_list l = map key l.entries

unfoldable pub has : LruList → String → Bool
has l id = is_some (entry_at l.entries (search_id l.entries id) id)

-- `get` also sets the entry's time, and returns the entry with it
unfoldable pub get : LruList → String → ℕ → LruList × Option LruEntry
unfolding touch_at touched
get l id now =
    let i = search_id l.entries id in
    let found = entry_at l.entries i id in
    (record l { entries = touch_at l.entries i now found }, touched now found)

delete_at : LruList → ℕ → String → Option LruEntry → LruList × String
delete_at l i id none = (l, "")
delete_at l i id (some e) = (
  record l {
    entries = take i l.entries ++ drop (suc i) l.entries;
    ram_size = if is_some e.data_in_ram then l.ram_size -ℤ pos (data_size e) else l.ram_size;
  },
  id,
)

unfoldable pub delete : LruList → String → LruList × String
unfolding delete_at
delete l id = let i = search_id l.entries id in delete_at l i id (entry_at l.entries i id)

-- `e.LastAccess.Before(l.entries[oldest].LastAccess)`
before_at : LruEntry → List LruEntry → ℕ → Bool
before_at e xs oldest = elim (get_elem? xs oldest) [
  | none ↦ false
  | some o ↦ ltb e.last_access o.last_access
]

-- the loop of `getOldest` over the entries from index `x` on
get_oldest_from : List LruEntry → ℕ → List LruEntry → ℕ → ℕ
get_oldest_from xs x [] oldest = oldest
get_oldest_from xs x (e ∷ es) oldest =
    get_oldest_from xs (suc x) es (if before_at e xs oldest then x else oldest)

unfoldable pub get_oldest : LruList → ℕ
unfolding get_oldest_from before_at
get_oldest l = get_oldest_from l.entries 0 l.entries 0

-- one round of the loop of `getOldestWithData`; `none` stands for -1
pick_with_data : List LruEntry → ℕ → LruEntry → Option ℕ → Option ℕ
pick_with_data xs x e none = if is_some e.data_in_ram then some x else none
pick_with_data xs x e (some oldest) =
    if is_some e.data_in_ram && before_at e xs oldest then some x else some oldest

get_oldest_with_data_from : List LruEntry → ℕ → List LruEntry → Option ℕ → Option ℕ
get_oldest_with_data_from xs x [] oldest = oldest
get_oldest_with_data_from xs x (e ∷ es) oldest =
    get_oldest_with_data_from xs (suc x) es (pick_with_data xs x e oldest)

unfoldable pub get_oldest_with_data : LruList → Option ℕ
unfolding get_oldest_with_data_from pick_with_data before_at
get_oldest_with_data l = get_oldest_with_data_from l.entries 0 l.entries none

-- `l.ramsize -= int64(len(l.entries[oldest].Data)); l.entries[oldest].Data = nil`
unfoldable pub drop_data : LruList → ℕ → LruList
drop_data l i = elim (get_elem? l.entries i) [
  | none ↦ l
  | some e ↦ record l {
    entries = set l.entries i (record e { data_in_ram = none });
    ram_size = l.ram_size -ℤ pos (data_size e);
  }
]

-- `for l.ramsize > l.MaxRAMSize { … }`; `none` means that the fuel ran out
pub shrink_ram : ℕ → LruList → Option LruList
shrink_ram zero l = none
shrink_ram (suc fuel) l =
    let more : Option LruList = elim (get_oldest_with_data l) [
      | none ↦ some (record l { ram_size = pos 0 })
      | some oldest ↦ shrink_ram fuel (drop_data l oldest)
    ] in
    if ltb_ℤ l.max_ram_size l.ram_size then more else some l

-- the id of the entry to remove, or the empty text
unfoldable pub surplus : LruList → String
surplus l =
    if ltb l.max_count (length l.entries)
    then elim (get_elem? l.entries (get_oldest l)) [ none ↦ "" | some e ↦ key e ]
    else ""

-- One round of the loop takes the data of one entry, so that one more than the entries is fuel
-- enough.
unfoldable pub handle_constrains : LruList → Option (LruList × String)
handle_constrains l =
    if ltb_ℤ (pos 0) l.max_ram_size
    then elim (shrink_ram (suc (length l.entries)) l) [
      | none ↦ none
      | some l' ↦ some (l', surplus l)
    ]
    else some (l, surplus l)
