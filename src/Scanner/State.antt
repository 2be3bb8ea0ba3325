-- ===== src/Scanner/State.antt =====
-- The state of `SpaceScanner`, what the system answers, and the parts of the worker's loop that
-- do not scan.
use spacedisplay.Common.{Bool, true, false, ◌||◌, Option, none, some, List, [], ◌∷◌, Str, str_eq}
use spacedisplay.Common.Int.{ℤ}
use spacedisplay.FilePath.{Host, ok, err, FilePath, from_path, get_name, get_root}
use spacedisplay.FileEntry.{Ptr}
use spacedisplay.FileDb.{FileDb, set_space}
use spacedisplay.Logger.{Logger}
use spacedisplay.SpaceWatcher.{FileEvent}
use spacedisplay.SpaceWatcher.Linux.{LinuxSpaceWatcher, AddWatch}
use spacedisplay.Scanner.Queue.{ScanRequest, add_to_queue}

pub data ScannerStatus : Type 0 where
  idle scanning stopping scan_paused : ScannerStatus

abbrev pub is_idle : ScannerStatus → Bool
is_idle idle = true
is_idle _ = false

abbrev pub is_stopping : ScannerStatus → Bool
is_stopping stopping = true
is_stopping _ = false

abbrev pub is_paused : ScannerStatus → Bool
is_paused scan_paused = true
is_paused _ = false

abbrev pub is_scanning : ScannerStatus → Bool
is_scanning scanning = true
is_scanning _ = false

-- What a `FileIterator` yields.
pub record DirItem : Type 0 where
  pub name : Str
  pub is_dir : Bool
  pub size : ℤ

-- What the system answers at one moment: the spaces of a mount point, total and available, the
-- entries of a directory, inotify, and the paths of `PlatformUtils`.
pub record World : Type 0 where
  pub mount_space : Str → ℤ × ℤ
  pub list_dir : Str → List DirItem
  pub add_watch : Str → AddWatch
  pub available_mounts : List Str
  pub excluded_paths : List Str

-- `next` is where the heap of entries goes on.
pub record SpaceScanner : Type 0 where
  pub run_worker : Bool
  pub current_scanned_path : Option FilePath
  pub is_mount_scanned : Bool
  pub scan_queue : List ScanRequest
  pub available_roots : List Str
  pub excluded_mounts : List Str
  pub scanner_status : ScannerStatus
  pub db : FileDb
  pub next : Ptr
  pub watcher : Option LinuxSpaceWatcher
  pub watcher_limit_exceeded : Bool
  pub logger : Option Logger

-- `Utils::in_array` of strings.
unfoldable pub in_array : Str → List Str → Bool
in_array s [] = false
in_array s (t ∷ ts) = str_eq t s || in_array s ts

unfoldable pub update_disk_space : Host → World → SpaceScanner → SpaceScanner
unfolding set_space
update_disk_space host world s =
    let (total, available) = world.mount_space (get_name host s.db.root_path) in
    record s { db = set_space total available s.db }

-- One round of the loop of `checkForEvents`. A path that is refused is only reported.
unfoldable pub queue_event : Host → FileEvent → SpaceScanner → SpaceScanner
queue_event host event s = elim event.parentpath [
  | [] ↦ s
  | c ∷ path ↦ elim (from_path host (c ∷ path) (get_root s.db.root_path)) [
    | err ↦ s
    | ok p ↦ record s {
      scan_queue = add_to_queue p false true s.scan_queue;
      scanner_status = scanning;
    }
  ]
]

unfoldable pub queue_events : Host → List FileEvent → SpaceScanner → SpaceScanner
unfolding queue_event
queue_events host [] s = s
queue_events host (event ∷ events) s = queue_events host events (queue_event host event s)

-- `checkForEvents`: events are popped until there are none.
unfoldable pub check_for_events : Host → SpaceScanner → SpaceScanner
unfolding queue_events
check_for_events host s = elim s.watcher [
  | none ↦ s
  | some w ↦
      let base = w.base in
      queue_events host base.event_queue
        (record s { watcher = some (record w { base = record base { event_queue = [] } }) })
]
