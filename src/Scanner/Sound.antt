-- ===== src/Scanner/Sound.antt =====
-- The database stays sound while the worker and the other threads take turns.
use spacedisplay.Common.{
  is_empty, ◌<◌, ◌≡◌, refl, sym, subst, ◌≢◌, inl, inr, Bool, true, ◌&&◌, none, some, List, All,
  Bool-cases, Option-cases, List-cases, if◌then◌else◌, Str,
}
use spacedisplay.Common.Int.{ℤ}
use spacedisplay.FilePath.{Host, FilePath, get_path}
use spacedisplay.FilePath.Results.{Result-cases}
use spacedisplay.FileEntry.{Ptr}
use spacedisplay.FileDb.{FileDb, find_entry, set_space}
use spacedisplay.FileDb.Counts.{IsCounted}
use spacedisplay.FileDb.Fresh.{Below, Sorts, set_children_for_path-Below}
use spacedisplay.FileDb.Children.{set_children_for_path-IsCounted}
use spacedisplay.Scanner.Queue.{ScanRequest}
use spacedisplay.Scanner.State.{
  scanning, is_idle, is_stopping, is_paused, World, SpaceScanner, update_disk_space,
  check_for_events,
}
use spacedisplay.Scanner.Scan.{scan_children_at}
use spacedisplay.Scanner.Leaves.{
  Leaves, Leaves-trans, check_for_events-Leaves, watch_dir-Leaves, queue_paths-Leaves,
  pause_scan-Leaves, resume_scan-Leaves, stop_scan-Leaves, notify-Leaves, get_watcher_limits-Leaves,
}
use spacedisplay.Scanner.Fresh.{ScanIsFresh, scan_children_at-IsFresh}
use spacedisplay.Scanner.Worker.{
  Pc, loop_head, idle_test, asleep, scan_test, visiting, visited, pause_test, adding, finishing,
  finished, ended, crashed, Worker, start_scan, watch_dir, visit_dir, store_entries, queue_paths,
  step,
}
use spacedisplay.Scanner.Control.{
  rescan_path, shut_down, set_logger, Step, Steps, work, pause, resume, stop, rescan, destroy,
  ask_limits, log_to, watch, done, later,
}

-- The counters agree with the map of entries, and what the map holds was allocated.
pub record DbIsSound (db : FileDb) (next : Ptr) : Type 0 where
  pub counted : IsCounted db
  pub below : Below next db

-- The entries that the thread holds were allocated too.
abbrev pub Holds : Ptr → Pc → Type 0
Holds next (visited r rec entries paths) = All (λ q. q < next) entries
Holds next _ = Unit {0}

pub record IsSound (w : Worker) : Type 0 where
  pub db : DbIsSound w.scanner.db w.scanner.next
  pub held : Holds w.scanner.next w.pc

set_space-DbIsSound :
    (total available : ℤ) (db : FileDb) (next : Ptr)
    → DbIsSound db next
    → DbIsSound (set_space total available db) next
unfolding set_space
set_space-DbIsSound total available db next v = record {
  counted = record { files = v.counted.files; dirs = v.counted.dirs; named = v.counted.named };
  below = v.below;
}

DbIsSound-Leaves : {s t : SpaceScanner} → Leaves s t → DbIsSound s.db s.next → DbIsSound t.db t.next
DbIsSound-Leaves {s = s} {t = t} a v =
    subst (λ (n : Ptr). DbIsSound t.db n) (sym a.next)
      (subst (λ (db : FileDb). DbIsSound db s.next) (sym a.db) v)

pub visit_dir-IsSound :
    (host : Host) (world : World) (r : ScanRequest) (rec : Bool) (s : SpaceScanner)
    → DbIsSound s.db s.next
    → IsSound (visit_dir host world r rec s)
unfolding visit_dir
visit_dir-IsSound host world r rec s v =
    let path = get_path host r.path true in
    let t = watch_dir world path s in
    let w = DbIsSound-Leaves (watch_dir-Leaves world path s) v in
    let start : ScanIsFresh t.db (start_scan t) = record {
      counted = w.counted;
      below = w.below;
      held = tt;
    } in
    let scan = scan_children_at host t r.path r.recursive (world.list_dir path) (start_scan t) in
    elim (Result-cases scan) [
      | inl n ↦ rw (visit_dir, n) (record { db = w; held = tt })
      | inr (c, n) ↦
          let f =
            scan_children_at-IsFresh host t r.path r.recursive (world.list_dir path) t.db
              (start_scan t) c n start in
          rw (visit_dir, n)
            (record { db = record { counted = f.counted; below = f.below }; held = f.held })
    ]

pub store_entries-IsSound :
    (host : Host) (sort : (Ptr → ℤ) → List Ptr → List Ptr) (r : ScanRequest) (rec : Bool)
    (entries : List Ptr) (paths : List FilePath) (s : SpaceScanner)
    → Sorts sort
    → DbIsSound s.db s.next
    → All (λ q. q < s.next) entries
    → IsSound (store_entries host sort r rec entries paths s)
      × ((store_entries host sort r rec entries paths s).pc ≢ crashed)
unfolding store_entries
store_entries-IsSound host sort r rec entries paths s sorts v l =
    let new = if r.recursive then none else some paths in
    let (db, added, stored, f, c, e) =
      set_children_for_path-IsCounted host sort s.next s.next r.path entries new s.db v.counted in
    let below =
      set_children_for_path-Below host sort s.next s.next s.next r.path entries new s.db db added
        stored sorts l f v.below in
    rw (store_entries, f)
      (record { db = record { counted = c; below = below }; held = tt }, (λ n. cc))

-- A step to a place where the thread holds no entries, by what leaves the database.
arrive :
    (s t : SpaceScanner) (pc : Pc)
    → Leaves s t
    → Holds t.next pc
    → DbIsSound s.db s.next
    → IsSound (record { scanner = t; pc = pc })
arrive s t pc a h v = record { db = DbIsSound-Leaves a v; held = h }

update_disk_space-DbIsSound :
    (host : Host) (world : World) (s : SpaceScanner)
    → DbIsSound s.db s.next
    → DbIsSound (update_disk_space host world s).db (update_disk_space host world s).next
unfolding update_disk_space
update_disk_space-DbIsSound host world s v = set_space-DbIsSound _ _ s.db s.next v

step_at-IsSound :
    (host : Host) (sort : (Ptr → ℤ) → List Ptr → List Ptr) (world : World) (line : Str)
    (s : SpaceScanner) (pc : Pc)
    → Sorts sort
    → DbIsSound s.db s.next
    → Holds s.next pc
    → IsSound (step host sort world line (record { scanner = s; pc = pc }))
unfolding step
step_at-IsSound host sort world line s loop_head sorts v h = elim (Bool-cases s.run_worker) [
  | inl e ↦ rw (step, e) (record { db = v; held = tt })
  | inr e ↦ rw (step, e) (record { db = v; held = tt })
]
step_at-IsSound host sort world line s idle_test sorts v h =
    elim (Bool-cases (is_empty s.scan_queue && is_idle s.scanner_status)) [
      | inl e ↦ rw (step, e) (record { db = v; held = tt })
      | inr e ↦ rw (step, e) (record { db = update_disk_space-DbIsSound host world s v; held = tt })
    ]
step_at-IsSound host sort world line s asleep sorts v h =
    arrive s (check_for_events host s) idle_test (check_for_events-Leaves host s) tt v
step_at-IsSound host sort world line s (scan_test rec) sorts v h = elim (List-cases s.scan_queue) [
  | inl e ↦ rw (step, e) (record { db = v; held = tt })
  | inr (r, queue, e) ↦ elim (Bool-cases (is_idle s.scanner_status)) [
    | inl f ↦ rw (step, e, f) (record { db = v; held = tt })
    | inr f ↦ rw (step, e, f) (record { db = v; held = tt })
  ]
]
step_at-IsSound host sort world line s (visiting r rec) sorts v h =
    visit_dir-IsSound host world r rec s v
step_at-IsSound host sort world line s (visited r rec entries paths) sorts v h =
    elim (Bool-cases (is_stopping s.scanner_status)) [
      | inl e ↦ rw (step, e) (record { db = v; held = tt })
      | inr e ↦ rw (step, e) (store_entries-IsSound host sort r rec entries paths s sorts v h).0
    ]
step_at-IsSound host sort world line s (pause_test rec paths) sorts v h =
    elim (Bool-cases (is_paused s.scanner_status)) [
      | inl e ↦ rw (step, e) (record { db = v; held = tt })
      | inr e ↦ rw (step, e) (record { db = v; held = tt })
    ]
step_at-IsSound host sort world line s (adding rec paths) sorts v h =
    arrive s (check_for_events host (queue_paths paths s)) (scan_test rec)
      (Leaves-trans (queue_paths-Leaves paths s)
        (check_for_events-Leaves host (queue_paths paths s)))
      tt v
step_at-IsSound host sort world line s (finishing rec) sorts v h = record {
  db = update_disk_space-DbIsSound host world s v;
  held = tt;
}
step_at-IsSound host sort world line s (finished rec) sorts v h = record { db = v; held = tt }
step_at-IsSound host sort world line s ended sorts v h = record { db = v; held = tt }
step_at-IsSound host sort world line s crashed sorts v h = record { db = v; held = tt }

rescan_path-IsSound :
    (host : Host) (world : World) (path : FilePath) (s : SpaceScanner)
    → DbIsSound s.db s.next
    → DbIsSound (rescan_path host world path s).db (rescan_path host world path s).next
unfolding rescan_path
rescan_path-IsSound host world path s v = elim (Option-cases (find_entry host s.db path)) [
  | inl e ↦ rw (rescan_path, e) v
  | inr (entry, e) ↦
      rw (rescan_path, e)
        (update_disk_space-DbIsSound host world
          (record s {
            scanner_status = scanning;
            available_roots = world.available_mounts;
            excluded_mounts = world.excluded_paths;
          })
          v)
]

rescan_path-next :
    (host : Host) (world : World) (path : FilePath) (s : SpaceScanner)
    → (rescan_path host world path s).next ≡ s.next
unfolding rescan_path
rescan_path-next host world path s = elim (Option-cases (find_entry host s.db path)) [
  | inl e ↦ rw (rescan_path, e) refl
  | inr (entry, e) ↦ rw (rescan_path, e) refl
]

-- A call of another thread moves nothing of what the worker holds.
call-IsSound :
    (w : Worker) (t : SpaceScanner)
    → Leaves w.scanner t
    → IsSound w
    → IsSound (record w { scanner = t })
call-IsSound w t a v = record {
  db = DbIsSound-Leaves a v.db;
  held = subst (λ (n : Ptr). Holds n w.pc) (sym a.next) v.held;
}

module _ (host : Host) (sort : (Ptr → ℤ) → List Ptr → List Ptr) where
  Step-IsSound : (v w : Worker) → Sorts sort → Step host sort v w → IsSound v → IsSound w
  unfolding shut_down set_logger
  Step-IsSound v _ sorts (work world line) s =
      step_at-IsSound host sort world line v.scanner v.pc sorts s.db s.held
  Step-IsSound v _ sorts (pause free) s = call-IsSound v _ (pause_scan-Leaves v.scanner) s
  Step-IsSound v _ sorts (resume free) s = call-IsSound v _ (resume_scan-Leaves v.scanner) s
  Step-IsSound v _ sorts (stop free) s = call-IsSound v _ (stop_scan-Leaves v.scanner) s
  Step-IsSound v _ sorts (rescan world path free) s = record {
    db = rescan_path-IsSound host world path v.scanner s.db;
    held =
        subst (λ (n : Ptr). Holds n v.pc) (sym (rescan_path-next host world path v.scanner)) s.held;
  }
  Step-IsSound v _ sorts destroy s = record { db = s.db; held = s.held }
  Step-IsSound v _ sorts (ask_limits limit) s =
      call-IsSound v _ (get_watcher_limits-Leaves limit v.scanner) s
  Step-IsSound v _ sorts (log_to logger) s = record { db = s.db; held = s.held }
  Step-IsSound v _ sorts (watch events) s = call-IsSound v _ (notify-Leaves events v.scanner) s

  -- However the worker's steps interleave with the calls of the interface, the destructor and the
  -- watcher, the counters agree with the map of entries, and all that the map and the thread hold
  -- was allocated.
  pub Steps-IsSound : (v w : Worker) → Sorts sort → Steps host sort v w → IsSound v → IsSound w
  Steps-IsSound v _ sorts done s = s
  Steps-IsSound v w sorts (later {u = u} steps one) s =
      Step-IsSound u w sorts one (Steps-IsSound v u sorts steps s)
