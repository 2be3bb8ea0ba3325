-- ===== src/FileIterator/Windows.antt =====
-- The class `WinFileIterator` of lib/private/WinFileIterator.h and WinFileIterator.cpp. What
-- `FindFirstFileW` and `FindNextFileW` answer and the conversion of names are arguments.
use spacedisplay.Common.{
  ℕ, ◌+◌, ◌*◌, ◌^◌, Bool, true, false, ◌&&◌, ◌||◌, not, Option, none, some, List, [], ◌∷◌,
  if◌then◌else◌, Str,
}
use spacedisplay.Common.Int.{ℤ, pos}
use spacedisplay.FileIterator.{FileIterator, is_dots}

-- `WIN32_FIND_DATAW`: the name in wide characters, the bits of the attributes, the tests of
-- `dwReserved0`, and the two halves of the size.
pub record FindData : Type 0 where
  pub file_name : List ℕ
  pub directory : Bool
  pub reparse_point : Bool
  pub tag_symlink : Bool
  pub tag_mount_point : Bool
  pub size_high : ℕ
  pub size_low : ℕ

-- `dir_handle` is invalid or holds what `FindNextFileW` has still to give.
pub record WinFileIterator : Type 0 where
  pub valid : Bool
  pub name : Str
  pub dir : Bool
  pub size : ℤ
  pub dir_handle : Option (List FindData)

unfoldable pub is_directory : FindData → Bool
is_directory d = d.directory && not (d.reparse_point && (d.tag_symlink || d.tag_mount_point))

-- `MAXDWORD` is 2 ^ 32 - 1.
unfoldable pub file_size : FindData → ℤ
file_size d = pos (d.size_high * (2 ^ 32) + d.size_low)

-- The inner loop of `processFileData` from data that was found: the data that is no dots, if there
-- is any, and what is left.
unfoldable pub skip_dots :
    (List ℕ → Str) → FindData → List FindData → Option FindData × List FindData
unfolding is_dots
skip_dots wstr2str d [] = if is_dots (wstr2str d.file_name) then (none, []) else (some d, [])
skip_dots wstr2str d (e ∷ data_left) =
    if is_dots (wstr2str d.file_name)
    then skip_dots wstr2str e data_left
    else (some d, e ∷ data_left)

-- Behind the inner loop. Where nothing was found the iterator stays as it was.
unfoldable pub take_data :
    (List ℕ → Str) → Option FindData × List FindData → WinFileIterator → WinFileIterator
unfolding is_directory file_size
take_data wstr2str (none, rest) it = record it { dir_handle = some rest }
take_data wstr2str (some d, rest) it = record {
  valid = true;
  name = wstr2str d.file_name;
  dir = is_directory d;
  size = file_size d;
  dir_handle = some rest;
}

-- `processFileData(false, ...)`.
unfoldable pub process_next : (List ℕ → Str) → WinFileIterator → WinFileIterator
unfolding skip_dots take_data
process_next wstr2str it = elim it.dir_handle [
  | none ↦ record it { valid = false }
  | some [] ↦ record it { valid = false }
  | some (d ∷ rest) ↦ take_data wstr2str (skip_dots wstr2str d rest) it
]

-- The constructor with `processFileData(true, ...)`, and what `FindFirstFileW` answers: no handle,
-- or the first data and what follows.
unfoldable pub win_create : (List ℕ → Str) → Option (FindData × List FindData) → WinFileIterator
unfolding skip_dots take_data
win_create wstr2str found =
    let it : WinFileIterator = record {
      valid = false;
      name = [];
      dir = false;
      size = pos 0;
      dir_handle = none;
    } in
    elim found [ none ↦ it | some (d, rest) ↦ take_data wstr2str (skip_dots wstr2str d rest) it ]

-- The methods, behind `assertValid`.
unfoldable pub win_methods : (List ℕ → Str) → FileIterator WinFileIterator
unfolding process_next
win_methods wstr2str = record {
  is_valid = λ it. it.valid;
  advance = λ it. if it.valid then some (process_next wstr2str it) else none;
  item = λ it.
      if it.valid then some (record { name = it.name; is_dir = it.dir; size = it.size }) else none;
}
