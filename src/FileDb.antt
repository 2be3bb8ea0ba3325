-- ===== src/FileDb.antt =====
-- The class `FileDB` of lib/include/filedb.h and lib/src/filedb.cpp, over the entries' store. The
-- mutex makes every operation one step.
pub mod Update
pub mod Find
pub mod Space
pub mod Start
pub mod Frame
pub mod Counts
pub mod Children
pub mod Fresh
use mathlib.Core.Option
use spacedisplay.Common.{
  ℕ, zero, suc, ◌+◌, ◌-◌, bit_xor, ◌≡◌, Bool, true, false, ◌&&◌, not, Option, none, some, List, [],
  ◌∷◌, ◌++◌, reverse, arith, ltb, ◌==◌, if◌then◌else◌, length, get_or, drop, take, back, pop_back,
  push_back, Str, str_eq,
}
use spacedisplay.Common.Int.{ℤ, pos, ◌+ℤ◌, ◌-ℤ◌, ◌==ℤ◌, ltb_ℤ}
use spacedisplay.FilePath.{
  Host, separator, str_crc16, Result, ok, err, FilePath, from_root, get_path, get_path_crc, add_dir,
  is_dir,
}
use spacedisplay.FileEntry.{
  Ptr, FileEntry, Store, update, chains, for_each, add_child, set_size,
  mark_children_pending_delete, unmark_pending_delete, remove_pending_delete,
}

-- `entriesMap` lists the crcs with their vectors.
pub record FileDb : Type 0 where
  pub total_space : ℤ
  pub available_space : ℤ
  pub used_space : ℤ
  pub file_count : ℤ
  pub dir_count : ℤ
  pub has_changes : Bool
  pub root_file : Ptr
  pub root_path : FilePath
  pub entries_map : List (ℕ × List Ptr)
  pub store : Store

-- The constructor of `FileEntry`, which throws for an empty name.
unfoldable pub new_entry : Host → Str → Bool → ℤ → Result FileEntry
new_entry host [] is_dir size = err
new_entry host (c ∷ s) is_dir size = ok (record {
  parent = none;
  children = [];
  pending_delete = false;
  is_dir = is_dir;
  name_crc = str_crc16 host (c ∷ s);
  path_crc = str_crc16 host (c ∷ s);
  size = size;
  name = c ∷ s;
})

-- The constructor. The root entry is written to a place in the heap.
unfoldable pub new_db : Host → Str → Ptr → Store → Result FileDb
unfolding new_entry
new_db host path root h = elim (from_root host path 0) [
  | err ↦ err
  | ok p ↦ elim (new_entry host (get_path host p true) true (pos 0)) [
    | err ↦ err
    | ok e ↦ ok (record {
      total_space = pos 0;
      available_space = pos 0;
      used_space = pos 0;
      file_count = pos 0;
      dir_count = pos 1;
      has_changes = true;
      root_file = root;
      root_path = p;
      entries_map = [];
      store = update h root e;
    })
  ]
]

unfoldable pub set_space : ℤ → ℤ → FileDb → FileDb
set_space total available db = record db { total_space = total; available_space = available }

-- `getSpace`: used, available and total.
unfoldable pub get_space : FileDb → ℤ × ℤ × ℤ
get_space db = (
  if ltb_ℤ db.total_space (db.used_space +ℤ db.available_space)
      then db.total_space -ℤ db.available_space
      else db.used_space,
  db.available_space,
  db.total_space,
)

-- The vector of a crc; a crc that is not in the map has none.
unfoldable pub bucket : ℕ → List (ℕ × List Ptr) → List Ptr
bucket crc [] = []
bucket crc ((k, es) ∷ m) = if k == crc then es else bucket crc m

-- `it2->second.push_back`, or a new vector.
unfoldable pub add_pointer : ℕ → Ptr → List (ℕ × List Ptr) → List (ℕ × List Ptr)
add_pointer crc e [] = (crc, e ∷ []) ∷ []
add_pointer crc e ((k, es) ∷ m) =
    if k == crc then (k, push_back es e) ∷ m else (k, es) ∷ add_pointer crc e m

-- The first entry that passes a test.
unfoldable pub find_if : (Ptr → Bool) → List Ptr → Option Ptr
find_if test [] = none
find_if test (e ∷ es) = if test e then some e else find_if test es

abbrev pub is_pointer : Option Ptr → Ptr → Bool
is_pointer none p = false
is_pointer (some q) p = q == p

-- `_findEntry(entryName, nameCrc, parent)`.
unfoldable pub find_child : FileDb → Str → ℕ → Option Ptr → Option Ptr
unfolding bucket find_if
find_child db name crc none =
    if str_eq name (db.store db.root_file).name then some db.root_file else none
find_child db name crc (some p) =
    find_if (λ e. is_pointer (db.store e).parent p && str_eq name (db.store e).name)
      (bucket (bit_xor (db.store p).path_crc crc) db.entries_map)

-- A part is compared without the slash that a directory's part ends in. Names hold no zero byte.
unfoldable pub part_matches : Host → Str → Str → Bool
part_matches host part name =
    let dir = back 0 part == separator host in
    str_eq (take (if dir then length part - 1 else length part) part) name

-- The loop of `_findEntry(path)` over the parts from the last one down to the second: how far up
-- the names agree.
unfoldable pub climb : Host → Store → List Str → Ptr → Ptr
unfolding part_matches
climb host h [] e = e
climb host h (part ∷ parts) e = elim (h e).parent [
  | none ↦ e
  | some p ↦
      let rest = climb host h parts p in if part_matches host part (h e).name then rest else e
]

-- `_findEntry(path)`.
unfoldable pub find_entry : Host → FileDb → FilePath → Option Ptr
unfolding bucket find_if climb
find_entry host db path =
    if not (str_eq (get_or path.parts 0 []) (db.store db.root_file).name)
    then none
    else if length path.parts == 1
    then some db.root_file
    else find_if (λ e. climb host db.store (reverse (drop 1 path.parts)) e == db.root_file)
        (bucket (get_path_crc path) db.entries_map)

-- `processEntry`: the callback reads the entry and changes a state of its own.
unfoldable pub process_entry {ℓ} :
    {S : Type ℓ} → Host → FilePath → (Ptr → Store → S → S) → FileDb → S → FileDb × S × Bool
unfolding find_entry
process_entry host path func db s = elim (find_entry host db path) [
  | none ↦ (db, s, false)
  | some e ↦ (record db { has_changes = false }, func e db.store s, true)
]
