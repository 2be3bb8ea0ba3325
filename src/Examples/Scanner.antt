-- ===== src/Examples/Scanner.antt =====
-- A scan of the root, which lists a directory `home` and a file `b`, and the calls that come in.
use spacedisplay.Common.{
  ℕ, ◌≤◌, ◌≡◌, ◌≢◌, ◌↔◌, refl, true, false, Option, none, some, List, [], ◌∷◌, codes, Str, str_eq,
  arith, starts_with,
}
use spacedisplay.Common.Int.{ℤ, pos, ◌≤ℤ◌}
use spacedisplay.FilePath
use spacedisplay.FilePath.{
  ends_with_slash, FilePath, ok, get_path, str_crc16, from_path, get_root, normalize, replace,
  concat, is_dir, get_name,
}
use spacedisplay.FilePath.Validity.{crcs_of}
use spacedisplay.FileEntry.{Ptr}
use spacedisplay.FileDb.{find_entry, new_entry}
use spacedisplay.FileDb.Counts.{pointers}
use spacedisplay.FileDb.Fresh.{Sorts}
use spacedisplay.SpaceWatcher.{added, FileEvent}
use spacedisplay.SpaceWatcher.Linux.{LinuxSpaceWatcher, watch, InotifyEvent, action_of}
use spacedisplay.Scanner.Queue.{ScanRequest, add_to_queue}
use spacedisplay.Scanner.State.{
  idle, scanning, stopping, World, SpaceScanner, check_for_events, in_array,
}
use spacedisplay.Scanner.Worker.{Pc, visiting, adding, finished, Worker, step, watch_dir}
use spacedisplay.Scanner.Control.{stop_scan, rescan_path, notify, work, stop, done, later}
use spacedisplay.Scanner.Progress.{
  is_busy, get_scan_progress, get_scan_progress-bounds, get_scan_progress-percent,
}
use spacedisplay.Scanner.Stop.{Stopped, steps, stop_scan-ends}
use spacedisplay.Scanner.Sound.{IsSound, Steps-IsSound}
use spacedisplay.FileIterator.Linux.{Stat, list_dir}
use spacedisplay.Scanner.Events.{watch_dir-notify-check_for_events}
use spacedisplay.Scanner.Races.{run, GoesOn, rescan_path-lost, check_for_events-overrides}
use spacedisplay.Examples.Paths.{host, root_path, root_path-IsValid, home_path}
use spacedisplay.Examples.Database.{db, db-IsCounted}

abbrev pub world : World
world = record {
  mount_space = λ path. (pos 100, pos 10);
  list_dir = λ path.
      record { name = codes "home"; is_dir = true; size = pos 0 }
      ∷ record { name = codes "b"; is_dir = false; size = pos 7 }
      ∷ [];
  add_watch = λ path. watch 5;
  available_mounts = [];
  excluded_paths = [];
}

abbrev empty_watcher : LinuxSpaceWatcher
empty_watcher = record {
  base = record { watched_dir_count = 0; event_queue = [] };
  inotify_wds = [];
}

abbrev request : ScanRequest
request = record { path = root_path; recursive = true }

abbrev pub scanner : SpaceScanner
scanner = record {
  run_worker = true;
  current_scanned_path = none;
  is_mount_scanned = true;
  scan_queue = request ∷ [];
  available_roots = [];
  excluded_mounts = [];
  scanner_status = scanning;
  db = db;
  next = 3;
  watcher = some empty_watcher;
  watcher_limit_exceeded = false;
  logger = none;
}

abbrev unsorted : (Ptr → ℤ) → List Ptr → List Ptr
unsorted key es = es

unsorted-Sorts : Sorts unsorted
unsorted-Sorts n key xs h = h

abbrev worker : Pc → Worker
worker pc = record { scanner = scanner; pc = pc }

worker-IsSound : IsSound (worker (visiting request false))
unfolding pointers
worker-IsSound = record {
  db = record { counted = db-IsCounted; below = (omega arith, tt) };
  held = tt;
}

stop_scan-ends_example :
    (n : ℕ) × (n ≤ 7)
    × Stopped (
        steps host unsorted
          (λ n. world)
          (λ n. [])
          n
          (record { scanner = stop_scan scanner; pc = visiting request false }))
stop_scan-ends_example =
    stop_scan-ends host unsorted (λ n. world) (λ n. []) (worker (visiting request false)) refl

Steps-IsSound_example :
    IsSound (record (step host unsorted world [] (worker (visiting request false))) {
      scanner = stop_scan (step host unsorted world [] (worker (visiting request false))).scanner;
    })
unfolding step new_entry in_array FilePath.add_dir
Steps-IsSound_example =
    Steps-IsSound host unsorted (worker (visiting request false)) _ unsorted-Sorts
      (later (later done (work world [])) (stop refl)) worker-IsSound

get_scan_progress-bounds_example :
    ((get_scan_progress scanner ≡ none)
      ↔ ((is_busy scanner ≡ true) × (db.total_space ≡ db.available_space)))
    × (is_busy scanner ≡ false → get_scan_progress scanner ≡ some (pos 100))
    × ((p : ℤ) → get_scan_progress scanner ≡ some p → (pos 0 ≤ℤ p) × (p ≤ℤ pos 100))
get_scan_progress-bounds_example = get_scan_progress-bounds scanner

-- 3 of 90 bytes.
get_scan_progress-percent_example : get_scan_progress scanner ≡ some (pos 3)
get_scan_progress-percent_example =
    get_scan_progress-percent scanner 3 10 100 refl refl refl refl (omega arith)

-- A file `c` is made in the root.
abbrev created_c : InotifyEvent
created_c = record {
  wd = 5;
  mask = record {
    ignored = false;
    create = true;
    delete = false;
    modify = false;
    moved_from = false;
    moved_to = false;
  };
  len = 16;
  name = codes "c";
}

abbrev asleep_scanner : SpaceScanner
asleep_scanner = record scanner { scan_queue = []; scanner_status = idle }

watch_dir-notify-check_for_events_example :
    ((check_for_events host (
        notify
          (created_c ∷ [])
          (watch_dir world (get_path host root_path true) asleep_scanner))).scan_queue
      ≡ add_to_queue root_path false true [])
    × ((check_for_events host (
          notify
            (created_c ∷ [])
            (watch_dir world (get_path host root_path true) asleep_scanner))).scanner_status
        ≡ scanning)
unfolding action_of get_path concat normalize replace get_root ends_with_slash
watch_dir-notify-check_for_events_example =
    watch_dir-notify-check_for_events host world asleep_scanner empty_watcher root_path created_c
      added refl refl refl refl refl refl ((λ e. cc), ((λ e. omega arith), tt)) root_path-IsValid
      refl refl refl refl

abbrev answer : World × Str
answer = (world, [])

abbrev asked : Worker
asked = record { scanner = rescan_path host world root_path scanner; pc = finished true }

abbrev later_on : Worker
later_on = run host unsorted (answer ∷ answer ∷ answer ∷ answer ∷ answer ∷ []) asked

rescan_path-lost_example :
    (asked.scanner.scan_queue ≢ [])
    × ((later_on.pc ≡ finished false)
        × (later_on.scanner.scan_queue ≡ [])
        × (later_on.scanner.db.store ≡ db.store)
        × (later_on.scanner.db.entries_map ≡ db.entries_map))
unfolding find_entry str_eq
rescan_path-lost_example =
    rescan_path-lost host unsorted scanner true root_path 0 world answer answer answer answer answer
      refl refl

abbrev home_event : FileEvent
home_event = record { action = added; filepath = codes "/home/c"; parentpath = codes "/home/" }

-- An event for nothing waits before it.
abbrev empty_event : FileEvent
empty_event = record { action = added; filepath = []; parentpath = [] }

abbrev event_watcher : LinuxSpaceWatcher
event_watcher = record empty_watcher {
  base = record { watched_dir_count = 0; event_queue = empty_event ∷ home_event ∷ [] };
}

abbrev stopping_scanner : SpaceScanner
stopping_scanner = record scanner { scanner_status = stopping; watcher = some event_watcher }

check_for_events-overrides_example : GoesOn host unsorted true (
    run host unsorted
      ((world, []) ∷ (world, []) ∷ [])
      (record { scanner = stopping_scanner; pc = adding true [] }))
unfolding from_path normalize replace str_crc16 crcs_of starts_with get_root
check_for_events-overrides_example =
    check_for_events-overrides host unsorted stopping_scanner event_watcher (empty_event ∷ []) []
      home_event home_path true [] (world, []) (world, []) refl refl (λ e. cc) refl

-- Directories that all hold a file `b`.
abbrev known : Str → Option Stat
known path = some (record { is_dir = false; size = pos 7 })

abbrev names_in : Str → Option (List Str)
names_in path = some (codes "." ∷ codes "b" ∷ [])

abbrev linux_world : World
linux_world = record world { list_dir = list_dir known names_in }
