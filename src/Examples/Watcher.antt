-- ===== src/Examples/Watcher.antt =====
-- A watcher of the root and a directory in it.
use spacedisplay.Common.{◌≡◌, refl, true, false, some, [], ◌∷◌, codes, length}
use spacedisplay.SpaceWatcher.{count_dir}
use spacedisplay.SpaceWatcher.Linux.{
  LinuxSpaceWatcher, watch, InotifyEvent, Mask, create, add_dir, set_wd, read_events,
}
use spacedisplay.SpaceWatcher.Counts.{Reached, created, added_dir, was_read, Reached-IsCounted}

abbrev root_watcher : LinuxSpaceWatcher
root_watcher = record {
  base = record { watched_dir_count = 1; event_queue = [] };
  inotify_wds = (1, codes "/") ∷ [];
}

root_watcher-created : create true (watch 1) (codes "/") ≡ some root_watcher
unfolding create add_dir set_wd count_dir
root_watcher-created = refl

abbrev mask : Mask
mask = record {
  ignored = false;
  create = true;
  delete = false;
  modify = false;
  moved_from = false;
  moved_to = false;
}

abbrev created_c : InotifyEvent
created_c = record { wd = 1; mask = mask; len = 16; name = codes "c" }

-- The directory with the descriptor 1 is gone.
abbrev gone : InotifyEvent
gone = record { wd = 1; mask = record mask { ignored = true }; len = 0; name = [] }

abbrev later_watcher : LinuxSpaceWatcher
later_watcher =
    read_events (created_c ∷ gone ∷ []) (add_dir (watch 2) (codes "/home/") root_watcher).0

later_watcher-Reached : Reached later_watcher
later_watcher-Reached =
    was_read (created_c ∷ gone ∷ []) (
      added_dir (watch 2) (codes "/home/")
        (created true (watch 1) (codes "/") root_watcher-created))

Reached-IsCounted_example : later_watcher.base.watched_dir_count ≡ length later_watcher.inotify_wds
Reached-IsCounted_example = Reached-IsCounted later_watcher later_watcher-Reached
