-- ===== src/Scanner/Worker.antt =====
-- `worker_run` as the steps of a thread. A step is what happens between two places where another
-- thread can come in: where the mutex is free, and where the status is read, which the destructor
-- writes without the mutex. `scanChildrenAt` is one step: it reads the status at every entry, but
-- only to skip no more paths when it is to stop.
use spacedisplay.Common.{
  Bool, true, false, ◌&&◌, ◌||◌, Option, none, some, List, [], ◌∷◌, is_empty, if◌then◌else◌, Str,
}
use spacedisplay.Common.Int.{ℤ}
use spacedisplay.FilePath.{Host, ok, err, FilePath, get_path}
use spacedisplay.FileEntry.{Ptr}
use spacedisplay.FileDb.Update.{set_children_for_path}
use spacedisplay.SpaceWatcher.{dir_limit_reached}
use spacedisplay.SpaceWatcher.Linux
use spacedisplay.SpaceWatcher.Linux.{LinuxSpaceWatcher, AddWatch}
use spacedisplay.Scanner.Queue.{ScanRequest, add_children_to_queue}
use spacedisplay.Scanner.State.{
  idle, is_idle, is_stopping, is_paused, World, SpaceScanner, update_disk_space, check_for_events,
}
use spacedisplay.Scanner.Scan.{Scan, scan_children_at, log_if}

-- Where the thread stands, with the local variables that are live there. `rec` is
-- `scannedRecursively`.
pub data Pc : Type 0 where
  loop_head : Pc  -- `while (runWorker)`
  idle_test : Pc  -- `while (scanQueue.empty() && ...)`
  asleep : Pc  -- `sleep_for` of that loop
  scan_test : (rec : Bool) → Pc  -- `while (!scanQueue.empty() && ...)`
  visiting : (request : ScanRequest) (rec : Bool) → Pc  -- behind `scanLock.unlock()`
  visited :
      (request : ScanRequest) (rec : Bool) (entries : List Ptr) (new_paths : List FilePath) → Pc  -- behind `scanChildrenAt`
  pause_test : (rec : Bool) (new_paths : List FilePath) → Pc  -- `while (... SCAN_PAUSED)`
  adding : (rec : Bool) (new_paths : List FilePath) → Pc  -- before `scanLock.lock()`
  finishing : (rec : Bool) → Pc  -- behind the loop over the queue
  finished : (rec : Bool) → Pc  -- behind the last `scanLock.unlock()`
  ended : Pc
  crashed : Pc  -- an exception has left the thread

pub record Worker : Type 0 where
  pub scanner : SpaceScanner
  pub pc : Pc

-- Whether the thread holds `scanMtx`.
abbrev pub holds_lock : Pc → Bool
holds_lock idle_test = true
holds_lock (scan_test rec) = true
holds_lock (finishing rec) = true
holds_lock _ = false

-- `watcher->addDir` and what is noted of its answer.
unfoldable pub watch_dir : World → Str → SpaceScanner → SpaceScanner
watch_dir world path s = elim s.watcher [
  | none ↦ s
  | some w ↦
      let (w', status) = Linux.add_dir (world.add_watch path) path w in
      record s {
        watcher = some w';
        watcher_limit_exceeded = elim status [
          | dir_limit_reached ↦ true
          | _ ↦ s.watcher_limit_exceeded
        ];
      }
]

abbrev pub start_scan : SpaceScanner → Scan
start_scan s = record {
  heap = s.db.store;
  next = s.next;
  scanned_entries = [];
  new_paths = [];
  logger = s.logger;
}

-- The directory is watched, and its entries are read.
unfoldable pub visit_dir : Host → World → ScanRequest → Bool → SpaceScanner → Worker
unfolding watch_dir scan_children_at
visit_dir host world r rec s =
    let path = get_path host r.path true in
    let t = watch_dir world path s in
    elim (scan_children_at host t r.path r.recursive (world.list_dir path) (start_scan t)) [
      | err ↦ record { scanner = t; pc = crashed }
      | ok c ↦ record {
        scanner = record t {
          db = record t.db { store = c.heap };
          next = c.next;
          logger = c.logger;
        };
        pc = visited r (rec || r.recursive) c.scanned_entries c.new_paths;
      }
    ]

abbrev the_paths : List FilePath → Option (List FilePath) → List FilePath
the_paths old none = old
the_paths old (some paths) = paths

-- The entries are put into the database. `next` bounds the depth of the tree, since every entry of
-- it was allocated.
unfoldable pub store_entries :
    Host
    → ((Ptr → ℤ) → List Ptr → List Ptr)
    → ScanRequest
    → Bool
    → List Ptr
    → List FilePath
    → SpaceScanner
    → Worker
unfolding set_children_for_path
store_entries host sort r rec entries paths s =
    elim (set_children_for_path host sort s.next s.next r.path entries
      (if r.recursive then none else some paths) s.db) [
        | err ↦ record { scanner = s; pc = crashed }
        | ok (db, added, done) ↦ record {
          scanner = record s { db = db };
          pc = pause_test rec (the_paths paths added);
        }
      ]

unfoldable pub queue_paths : List FilePath → SpaceScanner → SpaceScanner
queue_paths [] s = s
queue_paths (p ∷ paths) s = record s {
  scan_queue = add_children_to_queue (p ∷ paths) true false s.scan_queue;
}

-- The line that is logged is made of the time and the counters, which nothing reads.
unfoldable pub step : Host → ((Ptr → ℤ) → List Ptr → List Ptr) → World → Str → Worker → Worker
unfolding update_disk_space check_for_events visit_dir store_entries queue_paths log_if
step host sort world line w =
    let s = w.scanner in
    elim w.pc [
      | loop_head ↦ record w { pc = if s.run_worker then idle_test else ended }
      | idle_test ↦
          if is_empty s.scan_queue && is_idle s.scanner_status
          then record w { pc = asleep }
          else record { scanner = update_disk_space host world s; pc = scan_test false }
      | asleep ↦ record { scanner = check_for_events host s; pc = idle_test }
      | scan_test rec ↦ elim s.scan_queue [
        | [] ↦ record w { pc = finishing rec }
        | r ∷ queue ↦ if is_idle s.scanner_status then record w { pc = finishing rec } else record {
          scanner = record s { scan_queue = queue; current_scanned_path = some r.path };
          pc = visiting r rec;
        }
      ]
      | visiting r rec ↦ visit_dir host world r rec s
      | visited r rec entries paths ↦
          if is_stopping s.scanner_status
          then record w { pc = finishing rec }
          else store_entries host sort r rec entries paths s
      | pause_test rec paths ↦
          if is_paused s.scanner_status then w else record w { pc = adding rec paths }
      | adding rec paths ↦ record {
        scanner = check_for_events host (queue_paths paths s);
        pc = scan_test rec;
      }
      | finishing rec ↦ record {
        scanner = record (update_disk_space host world s) {
          scan_queue = [];
          current_scanned_path = none;
        };
        pc = finished rec;
      }
      | finished rec ↦ record {
        scanner = record s { logger = log_if rec line s.logger; scanner_status = idle };
        pc = loop_head;
      }
      | ended ↦ w
      | crashed ↦ w
    ]
