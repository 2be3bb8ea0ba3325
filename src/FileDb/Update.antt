-- ===== src/FileDb/Update.antt =====
-- `setChildrenForPath` and `_cleanupEntryCrc`.
use mathlib.Core.Option
use spacedisplay.Common.{
  ℕ, zero, suc, Bool, true, false, not, Option, none, some, List, [], ◌∷◌, ◌==◌, if◌then◌else◌,
  push_back,
}
use spacedisplay.Common.Int.{ℤ, pos, ◌+ℤ◌, ◌-ℤ◌, ◌==ℤ◌, ltb_ℤ}
use spacedisplay.FilePath.{Host, Result, ok, err, FilePath, add_dir, is_dir}
use spacedisplay.FileEntry.{
  Ptr, FileEntry, Store, for_each, add_child, set_size, mark_children_pending_delete,
  unmark_pending_delete, remove_pending_delete,
}
use spacedisplay.FileDb.{FileDb, add_pointer, find_child, find_entry}

-- `vector::erase` of the first place that holds a pointer; `none` when no place does.
unfoldable pub erase_pointer : Ptr → List Ptr → Option (List Ptr)
erase_pointer e [] = none
erase_pointer e (x ∷ xs) = if x == e then some xs else Option.map (◌∷◌ x) (erase_pointer e xs)

-- A vector that is left empty is erased from the map.
abbrev pub keep_vector : ℕ → List Ptr → List (ℕ × List Ptr) → List (ℕ × List Ptr)
keep_vector crc [] m = m
keep_vector crc (x ∷ xs) m = (crc, x ∷ xs) ∷ m

unfoldable pub forget_pointer : ℕ → Ptr → List (ℕ × List Ptr) → Option (List (ℕ × List Ptr))
unfolding erase_pointer
forget_pointer crc e [] = none
forget_pointer crc e ((k, es) ∷ m) =
    if k == crc
    then Option.map (λ es. keep_vector k es m) (erase_pointer e es)
    else Option.map (◌∷◌ (k, es)) (forget_pointer crc e m)

-- The end of `_cleanupEntryCrc`: the entry itself.
unfoldable pub cleanup_pointer : Ptr → FileDb → FileDb
unfolding forget_pointer
cleanup_pointer e db =
    let entry = db.store e in
    elim (forget_pointer entry.path_crc e db.entries_map) [
      | none ↦ db
      | some m ↦ record db {
        entries_map = m;
        dir_count = if entry.is_dir then db.dir_count -ℤ pos 1 else db.dir_count;
        file_count = if entry.is_dir then db.file_count else db.file_count -ℤ pos 1;
      }
    ]

-- `_cleanupEntryCrc`, with as much fuel as there are levels of entries.
unfoldable pub cleanup_entry_crc : ℕ → Ptr → FileDb → FileDb
unfolding for_each cleanup_pointer
cleanup_entry_crc zero e db = db
cleanup_entry_crc (suc fuel) e db =
    cleanup_pointer e (for_each (λ c s. (cleanup_entry_crc fuel c s, true)) e db.store db).0

unfoldable pub cleanup_deleted : ℕ → List Ptr → FileDb → FileDb
unfolding cleanup_entry_crc
cleanup_deleted fuel [] db = db
cleanup_deleted fuel (e ∷ es) db = cleanup_deleted fuel es (cleanup_entry_crc fuel e db)

-- What the loop of `setChildrenForPath` changes.
pub record Loop : Type 0 where
  pub db : FileDb
  pub deleted_dir_count : ℤ
  pub deleted_file_count : ℤ
  pub new_paths : Option (List FilePath)

-- An entry that has a namesake among the children.
unfoldable pub keep_child : ℕ → Ptr → Ptr → Loop → Loop
keep_child fuel e existing s =
    let h = unmark_pending_delete existing s.db.store in
    let (new, old) : FileEntry × FileEntry = (h e, h existing) in
    if old.is_dir
    then record s {
      db = record s.db { store = h };
      deleted_dir_count = s.deleted_dir_count -ℤ pos 1;
    }
    else record s {
      db = record s.db {
        store = if old.size ==ℤ new.size then h else set_size fuel existing new.size h;
      };
      deleted_file_count = s.deleted_file_count -ℤ pos 1;
    }

-- `newPaths->push_back` of the path with the name of a new directory.
unfoldable pub push_path :
    Host → FilePath → FileEntry → Option (List FilePath) → Result (Option (List FilePath))
push_path host path entry none = ok none
push_path host path entry (some paths) =
    if entry.is_dir
    then elim (add_dir host path entry.name entry.name_crc) [
      | err ↦ err
      | ok p ↦ ok (some (push_back paths p))
    ]
    else ok (some paths)

-- An entry that is new.
unfoldable pub new_child : Host → ℕ → FilePath → Ptr → Ptr → Loop → Result Loop
unfolding push_path add_pointer
new_child host fuel path parent_entry e s =
    let h = add_child fuel parent_entry e s.db.store in
    let entry = h e in
    elim (push_path host path entry s.new_paths) [
      | err ↦ err
      | ok paths ↦ ok (record s {
        db = record s.db {
          store = h;
          dir_count = if entry.is_dir then s.db.dir_count +ℤ pos 1 else s.db.dir_count;
          file_count = if entry.is_dir then s.db.file_count else s.db.file_count +ℤ pos 1;
          entries_map = add_pointer entry.path_crc e s.db.entries_map;
        };
        new_paths = paths;
      })
    ]

-- The loop over the entries.
unfoldable pub set_child : Host → ℕ → FilePath → Ptr → Ptr → Loop → Result Loop
unfolding find_child keep_child new_child
set_child host fuel path parent_entry e s =
    let entry = s.db.store e in
    elim (find_child s.db entry.name entry.name_crc (some parent_entry)) [
      | some existing ↦ ok (keep_child fuel e existing s)
      | none ↦ new_child host fuel path parent_entry e s
    ]

unfoldable pub set_all : Host → ℕ → FilePath → Ptr → List Ptr → Loop → Result Loop
unfolding set_child
set_all host fuel path parent_entry [] s = ok s
set_all host fuel path parent_entry (e ∷ es) s = elim (set_child host fuel path parent_entry e s) [
  | err ↦ err
  | ok s' ↦ set_all host fuel path parent_entry es s'
]

-- What follows the loop.
unfoldable pub finish_children : ℕ → ℕ → Ptr → Loop → FileDb
unfolding cleanup_deleted
finish_children fuel levels parent_entry s =
    let (h, out) : Store × List Ptr =
      if ltb_ℤ (pos 0) (s.deleted_file_count +ℤ s.deleted_dir_count)
      then remove_pending_delete fuel parent_entry s.db.store
      else (s.db.store, []) in
    let db = cleanup_deleted levels out (record s.db { store = h }) in
    record db { used_space = (db.store db.root_file).size; has_changes = true }

-- `setChildrenForPath`. `sort` is `std::sort` by size, and the entries stand in the heap already.
-- `fuel` bounds the depth of the path, `levels` the levels of entries that are removed.
unfoldable pub set_children_for_path :
    Host
    → ((Ptr → ℤ) → List Ptr → List Ptr)
    → ℕ
    → ℕ
    → FilePath
    → List Ptr
    → Option (List FilePath)
    → FileDb
    → Result (FileDb × Option (List FilePath) × Bool)
unfolding find_entry set_all finish_children
set_children_for_path host sort fuel levels path entries new_paths db =
    if not (is_dir host path) then ok (db, new_paths, false) else elim (find_entry host db path) [
      | none ↦ ok (db, new_paths, false)
      | some parent_entry ↦
          let (h, files, dirs) = mark_children_pending_delete parent_entry db.store in
          let start : Loop = record {
            db = record db { store = h };
            deleted_dir_count = pos dirs;
            deleted_file_count = pos files;
            new_paths = new_paths;
          } in
          elim (set_all host fuel path parent_entry (sort (λ e. (h e).size) entries) start) [
            | err ↦ err
            | ok s ↦ ok (finish_children fuel levels parent_entry s, s.new_paths, true)
          ]
    ]
