-- ===== src/FileManager.antt =====
-- The class `FileManager` as lib/private/LinuxFileManager.cpp has it: the commands that open a
-- folder or show a file. What the system answers is an argument, and `system` gets the command that
-- is the result. Strings have no zero byte, at which `%s` ends.
pub mod Folder
use spacedisplay.Common.{
  Bool, true, false, ◌||◌, Option, none, some, List, [], ◌∷◌, ◌++◌, ◌==◌, is_empty, if◌then◌else◌,
  Str, codes, str_eq, starts_with,
}
use spacedisplay.FilePath.{Host, normalize, add_slash, remove_slash}
use spacedisplay.Scanner.State.{DirItem}
use spacedisplay.SpaceWatcher.Linux.{slash}

pub data FileManagerType : Type 0 where
  unknown_manager dolphin nautilus nemo : FileManagerType

-- `s.find(part) != npos`.
unfoldable pub mentions : Str → Str → Bool
mentions part [] = is_empty part
mentions part (c ∷ s) = starts_with part (c ∷ s) || mentions part s

-- `parseFileManagerDesktopFile`, with the lines of the file.
unfoldable pub parse_file_manager_desktop_file : List Str → FileManagerType
unfolding mentions
parse_file_manager_desktop_file [] = unknown_manager
parse_file_manager_desktop_file (line ∷ lines) =
    let rest = parse_file_manager_desktop_file lines in
    if not_exec line
    then rest
    else if mentions (codes "dolphin") line
    then dolphin
    else if mentions (codes "nautilus") line
    then nautilus
    else if mentions (codes "nemo") line
    then nemo
    else rest
  where
    not_exec : Str → Bool
    not_exec s = if starts_with (codes "Exec=") s then false else true

-- What stands before the first end of line, or all.
unfoldable pub first_line : Str → Str
first_line [] = []
first_line (c ∷ s) = if c == 0x0a then [] else c ∷ first_line s

-- The loop over the entries of one location.
unfoldable pub find_in_location :
    (Str → List Str) → Str → Str → List DirItem → Option FileManagerType
unfolding parse_file_manager_desktop_file
find_in_location read_lines file_manager loc [] = none
find_in_location read_lines file_manager loc (item ∷ items) =
    let rest = find_in_location read_lines file_manager loc items in
    if str_eq item.name file_manager
    then some (parse_file_manager_desktop_file (read_lines (loc ++ slash ∷ item.name)))
    else rest

unfoldable pub find_manager :
    (Str → List DirItem) → (Str → List Str) → Str → List Str → FileManagerType
unfolding find_in_location
find_manager list_dir read_lines file_manager [] = unknown_manager
find_manager list_dir read_lines file_manager (loc ∷ locations) =
    elim (find_in_location read_lines file_manager loc (list_dir loc)) [
      | none ↦ find_manager list_dir read_lines file_manager locations
      | some found ↦ found
    ]

-- `getDefaultFileManager`, with the home directory and what `xdg-mime` prints. `none` is the
-- exception when `popen` fails.
unfoldable pub get_default_file_manager :
    (Str → List DirItem) → (Str → List Str) → Str → Option Str → Option FileManagerType
unfolding first_line find_manager
get_default_file_manager list_dir read_lines homedir none = none
get_default_file_manager list_dir read_lines homedir (some printed) =
    let file_manager = first_line printed in
    if is_empty file_manager
    then some unknown_manager
    else some (
        find_manager list_dir read_lines file_manager (
          (homedir ++ codes "/.local/share/applications")
          ∷ codes "/usr/local/share/applications"
          ∷ codes "/usr/share/applications"
          ∷ []))

-- `systemAsync`: the command with a backslash before each `$`.
unfoldable pub system_async : Str → Str
system_async [] = []
system_async (c ∷ cmd) =
    let rest = system_async cmd in if c == 0x24 then 0x5c ∷ c ∷ rest else c ∷ rest

-- A program with a path in double quotes.
abbrev pub with_path : Str → Str → Str
with_path program path = program ++ codes " \"" ++ path ++ codes "\""

unfoldable pub open_folder : Host → Str → Str
unfolding system_async
open_folder h path = system_async (with_path (codes "xdg-open") (normalize h path add_slash))

-- What stands before the last slash, if there is one.
unfoldable pub before_last_slash : Str → Option Str
before_last_slash [] = none
before_last_slash (c ∷ s) = elim (before_last_slash s) [
  | some t ↦ some (c ∷ t)
  | none ↦ if c == slash then some [] else none
]

unfoldable pub dir_path : Str → Str
unfolding before_last_slash
dir_path file_path = elim (before_last_slash file_path) [ none ↦ file_path | some t ↦ t ]

unfoldable pub show_command : FileManagerType → Str → Str
unfolding dir_path
show_command dolphin path = with_path (codes "dolphin --select") path
show_command nautilus path = with_path (codes "nautilus --select") path
show_command nemo path = with_path (codes "nemo") path
show_command unknown_manager path = with_path (codes "xdg-open") (dir_path path)

unfoldable pub show_file : Host → FileManagerType → Str → Str
unfolding show_command system_async
show_file h manager path = system_async (show_command manager (normalize h path remove_slash))
