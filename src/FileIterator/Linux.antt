-- ===== src/FileIterator/Linux.antt =====
-- The class `LinuxFileIterator` of lib/private/LinuxFileIterator.h and LinuxFileIterator.cpp. What
-- `opendir`, `readdir` and `lstat` answer are arguments.
use spacedisplay.Common.{
  suc, length, Bool, true, false, Option, none, some, List, [], ◌∷◌, ◌++◌, if◌then◌else◌, push_back,
  Str,
}
use spacedisplay.Common.Int.{ℤ, pos}
use spacedisplay.Scanner.State.{DirItem}
use spacedisplay.FileIterator.{FileIterator, is_dots, each_item}

-- What `lstat` fills in: `S_ISDIR(st_mode)` and `st_size`.
pub record Stat : Type 0 where
  pub is_dir : Bool
  pub size : ℤ

-- `dirp` is null or holds the names that `readdir` has still to give.
pub record LinuxFileIterator : Type 0 where
  pub valid : Bool
  pub name : Str
  pub dir : Bool
  pub size : ℤ
  pub dirp : Option (List Str)
  pub path : Str

-- The loop over `readdir`: the name that was read last, the names that are left, and whether the
-- loop was left by `break`.
unfoldable pub read_name : Str → List Str → Str × List Str × Bool
unfolding is_dots
read_name name [] = (name, [], false)
read_name name (d ∷ names) = if is_dots d then read_name d names else (d, names, true)

-- Behind the loop: nothing when there was no name, and else what `lstat` says of the path.
unfoldable pub stat_entry :
    (Str → Option Stat) → Str × List Str × Bool → LinuxFileIterator → LinuxFileIterator
stat_entry lstat (name, rest, false) it = record it { valid = false; name = name; dirp = some rest }
stat_entry lstat (name, rest, true) it = elim (lstat (push_back it.path b'/' ++ name)) [
  | none ↦ record it { valid = false; name = name; dirp = some rest }
  | some stat ↦ record {
    valid = true;
    name = name;
    dir = stat.is_dir;
    size = stat.size;
    dirp = some rest;
    path = it.path;
  }
]

unfoldable pub get_next_file_data : (Str → Option Stat) → LinuxFileIterator → LinuxFileIterator
unfolding read_name stat_entry
get_next_file_data lstat it = elim it.dirp [
  | none ↦ record it { valid = false }
  | some names ↦ stat_entry lstat (read_name it.name names) it
]

-- The constructor, with what `opendir` answers.
unfoldable pub create : (Str → Option Stat) → Option (List Str) → Str → LinuxFileIterator
unfolding get_next_file_data
create lstat dirp path =
    get_next_file_data lstat
      (record { valid = false; name = []; dir = false; size = pos 0; dirp = dirp; path = path })

-- The methods, behind `assertValid`.
unfoldable pub linux_methods : (Str → Option Stat) → FileIterator LinuxFileIterator
unfolding get_next_file_data
linux_methods lstat = record {
  is_valid = λ it. it.valid;
  advance = λ it. if it.valid then some (get_next_file_data lstat it) else none;
  item = λ it.
      if it.valid then some (record { name = it.name; is_dir = it.dir; size = it.size }) else none;
}

-- What a loop over the entries of a directory reads, where `opendir` gives the names that its
-- stream has. One more round than there are names is enough.
unfoldable pub list_dir : (Str → Option Stat) → (Str → Option (List Str)) → Str → List DirItem
unfolding linux_methods create each_item
list_dir lstat opendir path = elim (opendir path) [
  | none ↦ []
  | some names ↦
      elim (each_item (linux_methods lstat) (suc (length names)) (create lstat (some names) path)) [
        | none ↦ []
        | some items ↦ items
      ]
]
