-- ===== src/Examples/Folders.antt =====
-- The commands that open folders and show files.
use spacedisplay.Common.{
  starts_with, ◌≡◌, refl, false, some, List, [], ◌∷◌, Str, codes, str_eq, if◌then◌else◌,
}
use spacedisplay.Common.Int.{pos}
use spacedisplay.FilePath.{normalize, replace}
use spacedisplay.Scanner.State.{DirItem}
use spacedisplay.FileManager.{
  unknown_manager, nautilus, get_default_file_manager, open_folder, show_file,
}
use spacedisplay.Examples.Paths.{host}

open_folder_dollar : open_folder host (codes "/home/$a") ≡ codes "xdg-open \"/home/\\$a/\""
unfolding open_folder normalize replace
open_folder_dollar = refl

-- No folder stands before the last slash.
show_file_in_root : show_file host unknown_manager (codes "/swapfile") ≡ codes "xdg-open \"\""
unfolding show_file normalize replace
show_file_in_root = refl

show_file_selects :
    show_file host nautilus (codes "/home/a") ≡ codes "nautilus --select \"/home/a\""
unfolding show_file normalize replace
show_file_selects = refl

abbrev desktop_files : Str → List DirItem
desktop_files loc =
    if str_eq loc (codes "/usr/share/applications")
    then record { name = codes "files.desktop"; is_dir = false; size = pos 0 } ∷ []
    else []

abbrev desktop_lines : Str → List Str
desktop_lines path =
    if str_eq path (codes "/usr/share/applications/files.desktop")
    then codes "Name=dolphin" ∷ codes "Exec=nautilus --new-window" ∷ []
    else []

default_is_nautilus :
    get_default_file_manager desktop_files desktop_lines
      (codes "/home/a")
      (some (codes "files.desktop\n"))
    ≡ some nautilus
unfolding get_default_file_manager str_eq starts_with
default_is_nautilus = refl
