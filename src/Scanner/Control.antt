-- ===== src/Scanner/Control.antt =====
-- The calls by which the user interface controls the scanner, and its steps with the worker's.
use spacedisplay.Common.{
  ◌+◌, ◌≡◌, Bool, true, false, ◌&&◌, ◌||◌, not, Option, none, some, List, [], if◌then◌else◌, Str,
}
use spacedisplay.Common.Int.{ℤ, pos, ltb_ℤ}
use spacedisplay.FilePath.{Host, Result, ok, err, FilePath}
use spacedisplay.FileEntry.{Ptr, Store}
use spacedisplay.FileDb.{find_entry, new_db}
use spacedisplay.Logger.{Logger}
use spacedisplay.SpaceWatcher.{get_watched_dir_count}
use spacedisplay.SpaceWatcher.Linux.{AddWatch, InotifyEvent, create, read_events}
use spacedisplay.Scanner.Queue.{add_to_queue}
use spacedisplay.Scanner.State.{
  scanning, stopping, scan_paused, is_idle, is_scanning, is_stopping, is_paused, World,
  SpaceScanner, update_disk_space, in_array,
}
use spacedisplay.Scanner.Worker.{holds_lock, Worker, step}

unfoldable pub pause_scan : SpaceScanner → SpaceScanner × Bool
pause_scan s =
    if is_scanning s.scanner_status
    then (record s { scanner_status = scan_paused }, true)
    else (s, false)

unfoldable pub resume_scan : SpaceScanner → SpaceScanner × Bool
resume_scan s =
    if is_paused s.scanner_status
    then (record s { scanner_status = scanning }, true)
    else (s, false)

-- The first half of `stopScan`; the second waits until the status is idle.
unfoldable pub stop_scan : SpaceScanner → SpaceScanner
stop_scan s =
    if not (is_stopping s.scanner_status) && not (is_idle s.scanner_status)
    then record s { scanner_status = stopping }
    else s

unfoldable pub rescan_path : Host → World → FilePath → SpaceScanner → SpaceScanner
unfolding update_disk_space
rescan_path host world path s = elim (find_entry host s.db path) [
  | none ↦ s
  | some e ↦
      let t = update_disk_space host world (record s {
        scanner_status = scanning;
        available_roots = world.available_mounts;
        excluded_mounts = world.excluded_paths;
      }) in
      record t { scan_queue = add_to_queue path true false t.scan_queue }
]

-- The first lines of the destructor, which then waits for the thread.
unfoldable pub shut_down : SpaceScanner → SpaceScanner
shut_down s = record s { run_worker = false; scanner_status = stopping }

-- `getWatcherLimits`, with the limit that the watcher reads: the result, the count and the limit.
unfoldable pub get_watcher_limits : ℤ → SpaceScanner → SpaceScanner × Option (ℤ × ℤ) × Bool
unfolding get_watched_dir_count
get_watcher_limits limit s = elim s.watcher [
  | none ↦ (s, none, false)
  | some w ↦
      if ltb_ℤ limit (pos 0) || not s.watcher_limit_exceeded
      then (s, some (get_watched_dir_count limit w.base, limit), false)
      else (
        record s { watcher_limit_exceeded = false },
        some (get_watched_dir_count limit w.base, limit),
        true,
      )
]

unfoldable pub set_logger : Option Logger → SpaceScanner → SpaceScanner
set_logger logger s = record s { logger = logger }

-- The watcher's thread reads events.
unfoldable pub notify : List InotifyEvent → SpaceScanner → SpaceScanner
unfolding read_events
notify events s = elim s.watcher [
  | none ↦ s
  | some w ↦ record s { watcher = some (read_events events w) }
]

-- The constructor, with what `can_scan_dir` and inotify answer, and the place of the root's entry.
unfoldable pub new_scanner :
    Host → World → Bool → Bool → AddWatch → Str → Ptr → Store → Result SpaceScanner
unfolding update_disk_space
new_scanner host world can_scan opened answer path root h = elim (new_db host path root h) [
  | err ↦ err
  | ok db ↦
      let s = update_disk_space host world (record {
        run_worker = true;
        current_scanned_path = none;
        is_mount_scanned = in_array path world.available_mounts;
        scan_queue = [];
        available_roots = world.available_mounts;
        excluded_mounts = world.excluded_paths;
        scanner_status = scanning;
        db = db;
        next = root + 1;
        watcher = create opened answer path;
        watcher_limit_exceeded = false;
        logger = none;
      }) in
      if can_scan
      then ok (record s { scan_queue = add_to_queue db.root_path true true s.scan_queue })
      else err
]

-- A step of the program: of the worker, of a call from the interface, which waits for the mutex,
-- of the destructor, which does not, or of the watcher's thread.
module _ (host : Host) (sort : (Ptr → ℤ) → List Ptr → List Ptr) where
  pub data Step (w : Worker) : Worker → Type 0 where
    work : (world : World) (line : Str) → Step w (step host sort world line w)
    pause : holds_lock w.pc ≡ false → Step w (record w { scanner = (pause_scan w.scanner).0 })
    resume : holds_lock w.pc ≡ false → Step w (record w { scanner = (resume_scan w.scanner).0 })
    stop : holds_lock w.pc ≡ false → Step w (record w { scanner = stop_scan w.scanner })
    rescan :
        (world : World) (path : FilePath)
        → holds_lock w.pc ≡ false
        → Step w (record w { scanner = rescan_path host world path w.scanner })
    destroy : Step w (record w { scanner = shut_down w.scanner })
    ask_limits :
        (limit : ℤ) → Step w (record w { scanner = (get_watcher_limits limit w.scanner).0 })
    log_to : (logger : Option Logger) → Step w (record w { scanner = set_logger logger w.scanner })
    watch : (events : List InotifyEvent) → Step w (record w { scanner = notify events w.scanner })

  -- What leads from one state to another, in any order.
  pub data Steps (w : Worker) : Worker → Type 0 where
    done : Steps w w
    later : {u v : Worker} → Steps w u → Step u v → Steps w v
