-- ===== src/Scanner/Leaves.antt =====
-- Operations of the scanner that leave the database and the heap as they are.
use spacedisplay.Common.{
  ◌≡◌, refl, ◌∙◌, inl, inr, ◌&&◌, ◌||◌, not, some, List, [], ◌∷◌, Bool-cases, Option-cases,
  List-cases, Str,
}
use spacedisplay.Common.Int.{ℤ, pos, ltb_ℤ}
use spacedisplay.FilePath.{Host, FilePath, from_path, get_root}
use spacedisplay.FilePath.Results.{Result-cases}
use spacedisplay.SpaceWatcher.{FileEvent}
use spacedisplay.SpaceWatcher.Linux.{InotifyEvent}
use spacedisplay.Scanner.State.{
  is_idle, is_stopping, is_paused, is_scanning, World, SpaceScanner, queue_event, queue_events,
  check_for_events,
}
use spacedisplay.Scanner.Worker.{watch_dir, queue_paths}
use spacedisplay.Scanner.Control.{pause_scan, resume_scan, stop_scan, get_watcher_limits, notify}

-- An operation on the scanner that leaves the database and the heap.
pub record Leaves (s t : SpaceScanner) : Type 0 where
  pub db : t.db ≡ s.db
  pub next : t.next ≡ s.next

pub Leaves-refl : (s : SpaceScanner) → Leaves s s
Leaves-refl s = record { db = refl; next = refl }

pub Leaves-trans : {s t u : SpaceScanner} → Leaves s t → Leaves t u → Leaves s u
Leaves-trans a b = record { db = b.db ∙ a.db; next = b.next ∙ a.next }

queue_event-Leaves :
    (host : Host) (event : FileEvent) (s : SpaceScanner) → Leaves s (queue_event host event s)
unfolding queue_event
queue_event-Leaves host event s = elim (List-cases event.parentpath) [
  | inl e ↦ rw (queue_event, e) (Leaves-refl s)
  | inr (c, path, e) ↦ elim (Result-cases (from_path host (c ∷ path) (get_root s.db.root_path))) [
    | inl n ↦ rw (queue_event, e, n) (Leaves-refl s)
    | inr (p, n) ↦ rw (queue_event, e, n) (record { db = refl; next = refl })
  ]
]

queue_events-Leaves :
    (host : Host) (events : List FileEvent) (s : SpaceScanner)
    → Leaves s (queue_events host events s)
unfolding queue_events
queue_events-Leaves host [] s = Leaves-refl s
queue_events-Leaves host (event ∷ events) s =
    Leaves-trans (queue_event-Leaves host event s)
      (queue_events-Leaves host events (queue_event host event s))

pub check_for_events-Leaves : (host : Host) (s : SpaceScanner) → Leaves s (check_for_events host s)
unfolding check_for_events
check_for_events-Leaves host s = elim (Option-cases s.watcher) [
  | inl e ↦ rw (check_for_events, e) (record { db = refl; next = refl })
  | inr (w, e) ↦
      let base = w.base in
      let t = record s { watcher = some (record w { base = record base { event_queue = [] } }) } in
      let rest = queue_events-Leaves host base.event_queue t in
      rw (check_for_events, e) (record { db = rest.db; next = rest.next })
]

pub watch_dir-Leaves :
    (world : World) (path : Str) (s : SpaceScanner) → Leaves s (watch_dir world path s)
unfolding watch_dir
watch_dir-Leaves world path s = elim (Option-cases s.watcher) [
  | inl e ↦ rw (watch_dir, e) (record { db = refl; next = refl })
  | inr (w, e) ↦ rw (watch_dir, e) (record { db = refl; next = refl })
]

pub queue_paths-Leaves : (paths : List FilePath) (s : SpaceScanner) → Leaves s (queue_paths paths s)
unfolding queue_paths
queue_paths-Leaves [] s = Leaves-refl s
queue_paths-Leaves (p ∷ paths) s = record { db = refl; next = refl }

pub pause_scan-Leaves : (s : SpaceScanner) → Leaves s (pause_scan s).0
unfolding pause_scan
pause_scan-Leaves s = elim (Bool-cases (is_scanning s.scanner_status)) [
  | inl e ↦ rw (pause_scan, e) (record { db = refl; next = refl })
  | inr e ↦ rw (pause_scan, e) (record { db = refl; next = refl })
]

pub resume_scan-Leaves : (s : SpaceScanner) → Leaves s (resume_scan s).0
unfolding resume_scan
resume_scan-Leaves s = elim (Bool-cases (is_paused s.scanner_status)) [
  | inl e ↦ rw (resume_scan, e) (record { db = refl; next = refl })
  | inr e ↦ rw (resume_scan, e) (record { db = refl; next = refl })
]

pub stop_scan-Leaves : (s : SpaceScanner) → Leaves s (stop_scan s)
unfolding stop_scan
stop_scan-Leaves s =
    elim (Bool-cases (not (is_stopping s.scanner_status) && not (is_idle s.scanner_status))) [
      | inl e ↦ rw (stop_scan, e) (record { db = refl; next = refl })
      | inr e ↦ rw (stop_scan, e) (record { db = refl; next = refl })
    ]

pub notify-Leaves : (events : List InotifyEvent) (s : SpaceScanner) → Leaves s (notify events s)
unfolding notify
notify-Leaves events s = elim (Option-cases s.watcher) [
  | inl e ↦ rw (notify, e) (record { db = refl; next = refl })
  | inr (w, e) ↦ rw (notify, e) (record { db = refl; next = refl })
]

pub get_watcher_limits-Leaves :
    (limit : ℤ) (s : SpaceScanner) → Leaves s (get_watcher_limits limit s).0
unfolding get_watcher_limits
get_watcher_limits-Leaves limit s = elim (Option-cases s.watcher) [
  | inl e ↦ rw (get_watcher_limits, e) (record { db = refl; next = refl })
  | inr (w, e) ↦ elim (Bool-cases (ltb_ℤ limit (pos 0) || not s.watcher_limit_exceeded)) [
    | inl f ↦ rw (get_watcher_limits, e, f) (record { db = refl; next = refl })
    | inr f ↦ rw (get_watcher_limits, e, f) (record { db = refl; next = refl })
  ]
]
