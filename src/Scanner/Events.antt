-- ===== src/Scanner/Events.antt =====
-- A change on the disk, from inotify to the queue of scans.
use spacedisplay.Common.{
  ℕ, ◌≡◌, refl, ap, ◌∙◌, inl, inr, true, false, some, List, [], ◌∷◌, ◌++◌, ◌==◌, arith, Str,
  Option-cases, List-cases, back,
}
use spacedisplay.FilePath.{Host, FilePath, from_path, get_path, get_root, normalize, ok, add_slash}
use spacedisplay.FilePath.Validity.{IsValid}
use spacedisplay.FilePath.Roundtrip.{slash_handling}
use spacedisplay.FilePath.Reparse.{from_path-get_path}
use spacedisplay.SpaceWatcher.{FileAction, FileEvent, add_event}
use spacedisplay.SpaceWatcher.Linux
use spacedisplay.SpaceWatcher.Linux.{
  LinuxSpaceWatcher, AddWatch, watch, InotifyEvent, action_of, find_wd, set_wd,
  process_inotify_event, read_events, slash,
}
use spacedisplay.SpaceWatcher.Paths.{IsName, process_inotify_event-parent}
use spacedisplay.Scanner.Queue.{add_to_queue}
use spacedisplay.Scanner.State.{
  scanning, World, SpaceScanner, queue_event, queue_events, check_for_events,
}
use spacedisplay.Scanner.Worker.{watch_dir}
use spacedisplay.Scanner.Quiet.{add_dir-quiet}
use spacedisplay.Scanner.Control.{notify}

find_wd-set_wd :
    (wd : ℕ) (path : Str) (wds : List (ℕ × Str)) → find_wd wd (set_wd wd path wds) ≡ some path
unfolding find_wd set_wd
find_wd-set_wd wd path [] = ground arith
find_wd-set_wd wd path ((k, p) ∷ wds) = ground (arith, find_wd-set_wd wd path wds)

-- Once `inotify` has given a descriptor for a path, it leads to that path.
add_dir-find_wd :
    (wd : ℕ) (path : Str) (w : LinuxSpaceWatcher)
    → find_wd wd (Linux.add_dir (watch wd) path w).0.inotify_wds ≡ some path
unfolding Linux.add_dir
add_dir-find_wd wd path w = elim (Option-cases (find_wd wd w.inotify_wds)) [
  | inl e ↦ rw (Linux.add_dir, e) (find_wd-set_wd wd path w.inotify_wds)
  | inr (old, e) ↦ rw (Linux.add_dir, e) (find_wd-set_wd wd path w.inotify_wds)
]

-- What one event that carries a path of the tree does to the queue.
queue_event-path :
    (host : Host) (event : FileEvent) (s : SpaceScanner) (p : FilePath)
    → back 0 event.parentpath ≡ slash
    → from_path host event.parentpath (get_root s.db.root_path) ≡ ok p
    → queue_event host event s
      ≡ record s { scan_queue = add_to_queue p false true s.scan_queue; scanner_status = scanning }
unfolding queue_event
queue_event-path host event s p ends parsed = elim (List-cases event.parentpath) [
  | inl e ↦ absurd (cc)
  | inr (c, path, e) ↦
      let found : from_path host (c ∷ path) (get_root s.db.root_path) ≡ ok p = rw⁻¹ e parsed in
      rw (queue_event, e, found) refl
]

watch_dir-some :
    (world : World) (path : Str) (s : SpaceScanner) (w : LinuxSpaceWatcher)
    → s.watcher ≡ some w
    → ((watch_dir world path s).watcher ≡ some (Linux.add_dir (world.add_watch path) path w).0)
      × ((watch_dir world path s).db ≡ s.db)
      × ((watch_dir world path s).scan_queue ≡ s.scan_queue)
unfolding watch_dir
watch_dir-some world path s w has = rw (watch_dir, has) (refl, refl, refl)

notify-some :
    (es : List InotifyEvent) (s : SpaceScanner) (w : LinuxSpaceWatcher)
    → s.watcher ≡ some w
    → notify es s ≡ record s { watcher = some (read_events es w) }
unfolding notify
notify-some es s w has = rw (notify, has) refl

-- One event waits, which carries the path `p`.
check_for_events-one :
    (host : Host) (s : SpaceScanner) (w : LinuxSpaceWatcher) (event : FileEvent) (p : FilePath)
    → s.watcher ≡ some w
    → w.base.event_queue ≡ event ∷ []
    → back 0 event.parentpath ≡ slash
    → from_path host event.parentpath (get_root s.db.root_path) ≡ ok p
    → ((check_for_events host s).scan_queue ≡ add_to_queue p false true s.scan_queue)
      × ((check_for_events host s).scanner_status ≡ scanning)
unfolding check_for_events queue_events
check_for_events-one host s w event p has one ends parsed =
    let base = record w.base { event_queue = [] } in
    let t = record s { watcher = some (record w { base = base }) } in
    rw (check_for_events, has, one, queue_events, queue_event-path host event t p ends parsed)
      (refl, refl)

-- From the watch of the directory `p`, which is printed with a slash at its end, to the queue: the
-- next event in it that names an entry makes the worker scan `p` again, whatever its status was.
pub watch_dir-notify-check_for_events :
    (host : Host) (world : World) (s : SpaceScanner) (w : LinuxSpaceWatcher) (p : FilePath)
    (e : InotifyEvent) (action : FileAction)
    → s.watcher ≡ some w
    → w.base.event_queue ≡ []
    → world.add_watch (get_path host p true) ≡ watch e.wd
    → e.mask.ignored ≡ false
    → (e.len == 0) ≡ false
    → action_of e.mask ≡ some action
    → IsName e.name
    → IsValid host p
    → normalize host (get_path host p true) (slash_handling host (get_path host p true))
      ≡ get_path host p true
    → normalize host (get_root p) add_slash ≡ get_root p
    → get_root s.db.root_path ≡ get_root p
    → back 0 (get_path host p true) ≡ slash
    → ((check_for_events host
          (notify (e ∷ []) (watch_dir world (get_path host p true) s))).scan_queue
        ≡ add_to_queue p false true s.scan_queue)
      × ((check_for_events host
            (notify (e ∷ []) (watch_dir world (get_path host p true) s))).scanner_status
          ≡ scanning)
unfolding read_events add_event
watch_dir-notify-check_for_events host world s w p e action has empty gives here named acts name
      valid np nr same ends =
    let path = get_path host p true in
    let v = (Linux.add_dir (watch e.wd) path w).0 in
    let parsed : from_path host path (get_root s.db.root_path) ≡ ok p =
      rw same (from_path-get_path host p valid np nr) in
    let event =
      process_inotify_event-parent e v path action here named acts (add_dir-find_wd e.wd path w)
        ends name in
    let (watcher, db, queue) = watch_dir-some world path s w has in
    let t = watch_dir world path s in
    let notified = notify-some (e ∷ []) t v (rw⁻¹ gives watcher) in
    let x = process_inotify_event e v in
    let change : FileEvent = record {
      action = action;
      filepath = path ++ e.name;
      parentpath = path;
    } in
    let quiet : v.base.event_queue ≡ [] = add_dir-quiet (watch e.wd) path w empty in
    let one : x.base.event_queue ≡ change ∷ [] = rw (event, add_event, quiet) refl in
    let (queued, status) =
      check_for_events-one host (record t { watcher = some x }) x change p refl one ends
        (rw db parsed) in
    rw notified (queued ∙ ap (add_to_queue p false true) queue, status)
