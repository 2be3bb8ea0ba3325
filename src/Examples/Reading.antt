-- ===== src/Examples/Reading.antt =====
-- Directories, buffers and tables as the system gives them.
use spacedisplay.Common.{
  ℕ, ◌≡◌, refl, true, false, Option, none, some, List, [], ◌∷◌, ◌++◌, if◌then◌else◌, codes, Str,
  str_eq, arith,
}
use spacedisplay.Common.Int.{pos}
use spacedisplay.FileIterator.{each_item, is_dots}
use spacedisplay.FileIterator.Linux.{Stat, create, linux_methods}
use spacedisplay.FileIterator.Listing.{without_dots, map_while, item_at, each_item-create}
use spacedisplay.FileIterator.Windows.{FindData, win_create, win_methods}
use spacedisplay.FileIterator.Repeated.{real_items, data_item, each_item-win_create}
use spacedisplay.SpaceWatcher.{added, removed, new_watcher}
use spacedisplay.SpaceWatcher.Windows.{WinSpaceWatcher, Conversions, read_records, notified_action}
use spacedisplay.SpaceWatcher.Records.{
  Notification, linked, last_units, noted, all_noted, read_records-linked-last,
  read_records-unknown,
}
use spacedisplay.PlatformUtils.{get_available_mounts, get_excluded_paths, is_space, close_mount}
use spacedisplay.PlatformUtils.Mounts.{Mount, mount_line, escape, IsMount, is_skipped-mounts}
use spacedisplay.Scanner.State.{in_array}
use spacedisplay.Scanner.Scan.{is_skipped}

-- Everything but `/d/gone` is there.
abbrev known : Str → Option Stat
known path =
    if str_eq path (codes "/d/gone") then none else some (record { is_dir = false; size = pos 7 })

abbrev names : List Str
names = codes "." ∷ codes "a" ∷ codes ".." ∷ codes "gone" ∷ codes "b" ∷ []

each_item-create_example :
    (each_item (linux_methods known) 6 (create known (some names) (codes "/d"))
      ≡ some (map_while (item_at known (codes "/d")) (without_dots names)))
    × (each_item (linux_methods known) 1 (create known none (codes "/d")) ≡ some [])
each_item-create_example = each_item-create known (codes "/d") names

-- What lies behind the entry that is gone is not seen.
only_a :
    map_while (item_at known (codes "/d")) (without_dots names)
    ≡ record { name = codes "a"; is_dir = false; size = pos 7 } ∷ []
unfolding map_while item_at without_dots is_dots str_eq
only_a = refl

abbrev data_of : Str → FindData
data_of name = record {
  file_name = name;
  directory = false;
  reparse_point = false;
  tag_symlink = false;
  tag_mount_point = false;
  size_high = 0;
  size_low = 7;
}

abbrev same_text : List ℕ → Str
same_text s = s

each_item-win_create_example :
    each_item (win_methods same_text) 4 (
      win_create same_text
        (some (data_of (codes "a"), data_of (codes "b") ∷ data_of (codes ".") ∷ [])))
    ≡ some (
        real_items same_text (data_of (codes "a") ∷ [])
        ++ data_item same_text (data_of (codes "b"))
          ∷ (data_item same_text (data_of (codes "b")) ∷ []))
unfolding is_dots str_eq
each_item-win_create_example =
    each_item-win_create same_text (data_of (codes "a"))
      (data_of (codes "b") ∷ data_of (codes ".") ∷ []) (data_of (codes "a") ∷ [])
      (data_of (codes "b")) (data_of (codes ".") ∷ []) refl (refl, tt) refl

abbrev conversions : Conversions
conversions = record { wstr2str = λ s. s; to_long_path = λ path. path }

abbrev win_watcher : WinSpaceWatcher
win_watcher = record { base = new_watcher; watched_dir = true; watched_path = codes "C:\\" }

abbrev a_added : Notification
a_added = record { action = added; name = codes "a" }

abbrev b_removed : Notification
b_removed = record { action = removed; name = codes "d\\b" }

read_records-linked-last_example :
    read_records conversions 2
      (linked (a_added ∷ []) ++ (last_units b_removed ++ 9 ∷ []))
      win_watcher
    ≡ some (noted conversions b_removed (all_noted conversions (a_added ∷ []) win_watcher))
read_records-linked-last_example =
    read_records-linked-last conversions (a_added ∷ []) b_removed (9 ∷ []) win_watcher

-- The action 6 is none.
abbrev unknown_record : List ℕ
unknown_record = 0 ∷ 0 ∷ 6 ∷ 0 ∷ []

read_records-unknown_example :
    read_records conversions 50 (linked (a_added ∷ []) ++ unknown_record) win_watcher ≡ none
unfolding notified_action
read_records-unknown_example =
    read_records-unknown conversions 50 (a_added ∷ []) unknown_record win_watcher refl

abbrev disk : Mount
disk = record {
  device = codes "/dev/sda1";
  path = codes "/media/my disk";
  partition = codes "ext4";
  options = codes "rw 0 0";
}

disk-IsMount : IsMount disk
unfolding is_space
disk-IsMount = record {
  device = omega arith;
  path = omega arith;
  partition = (refl, (refl, (refl, (refl, tt))));
}

is_skipped-mounts_example :
    is_skipped
      (get_available_mounts (mount_line disk ∷ []))
      (get_excluded_paths (mount_line disk ∷ []))
      (codes "/media/my disk/")
    ≡ in_array (codes "/media/my disk/") (close_mount (escape disk.path) ∷ [])
is_skipped-mounts_example =
    is_skipped-mounts (disk ∷ []) (codes "/media/my disk/") (disk-IsMount, tt)
