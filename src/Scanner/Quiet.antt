-- ===== src/Scanner/Quiet.antt =====
-- No call but the watcher's makes an event.
use spacedisplay.Common.{◌≡◌, refl, subst, inl, inr, Option, none, some, [], Option-cases, Str}
use spacedisplay.FilePath.{Host}
use spacedisplay.SpaceWatcher.{count_dir}
use spacedisplay.SpaceWatcher.Linux
use spacedisplay.SpaceWatcher.Linux.{LinuxSpaceWatcher, AddWatch, watch, no_space, failed, find_wd}
use spacedisplay.Scanner.State.{World, SpaceScanner, queue_events, check_for_events}
use spacedisplay.Scanner.Worker.{watch_dir}

-- No event waits.
abbrev pub Quiet : Option LinuxSpaceWatcher → Type 0
Quiet none = Unit {0}
Quiet (some w) = w.base.event_queue ≡ []

pub check_for_events-Quiet :
    (host : Host) (s : SpaceScanner)
    → Quiet s.watcher
    → ((check_for_events host s).scanner_status ≡ s.scanner_status)
      × Quiet (check_for_events host s).watcher
unfolding check_for_events
check_for_events-Quiet host s q = elim (Option-cases s.watcher) [
  | inl e ↦ rw (e, check_for_events) (refl, q)
  | inr (w, e) ↦
      let q' : w.base.event_queue ≡ [] = subst Quiet e q in
      rw (e, check_for_events, q', queue_events) (refl, refl)
]

-- Watching a directory makes no event.
pub add_dir-quiet :
    (answer : AddWatch) (path : Str) (w : LinuxSpaceWatcher)
    → w.base.event_queue ≡ []
    → (Linux.add_dir answer path w).0.base.event_queue ≡ []
unfolding Linux.add_dir
add_dir-quiet no_space path w q = q
add_dir-quiet failed path w q = q
add_dir-quiet (watch wd) path w q = elim (Option-cases (find_wd wd w.inotify_wds)) [
  | inl e ↦ rw (e, Linux.add_dir, count_dir) q
  | inr (old, e) ↦ rw (e, Linux.add_dir) q
]

pub watch_dir-Quiet :
    (world : World) (path : Str) (s : SpaceScanner)
    → Quiet s.watcher
    → ((watch_dir world path s).scanner_status ≡ s.scanner_status)
      × Quiet (watch_dir world path s).watcher
unfolding watch_dir Linux.add_dir
watch_dir-Quiet world path s q = elim (Option-cases s.watcher) [
  | inl e ↦ rw (e, watch_dir) (refl, q)
  | inr (w, e) ↦
      let q' : w.base.event_queue ≡ [] = subst Quiet e q in
      rw (e, watch_dir) (refl, add_dir-quiet (world.add_watch path) path w q')
]
