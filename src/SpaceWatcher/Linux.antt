-- ===== src/SpaceWatcher/Linux.antt =====
-- The class `LinuxSpaceWatcher` of lib/private/LinuxSpaceWatcher.h and LinuxSpaceWatcher.cpp. What
-- the calls of inotify answer are arguments.
use spacedisplay.Common.{
  ℕ, Bool, Option, none, some, List, [], ◌∷◌, ◌++◌, ◌==◌, if◌then◌else◌, back, pop_back, Str,
}
use spacedisplay.SpaceWatcher.{
  FileAction, added, removed, modified, old_name, new_name, AddDirStatus, dir_added,
  dir_limit_reached, access_denied, FileEvent, SpaceWatcher, new_watcher, count_dir, uncount_dir,
  add_event,
}

-- `inotifyWds` lists the watch descriptors with their paths.
pub record LinuxSpaceWatcher : Type 0 where
  pub base : SpaceWatcher
  pub inotify_wds : List (ℕ × Str)

-- What `inotify_add_watch` answers: a descriptor, or -1 with `ENOSPC` or another error.
pub data AddWatch : Type 0 where
  watch : ℕ → AddWatch
  no_space failed : AddWatch

unfoldable pub find_wd : ℕ → List (ℕ × Str) → Option Str
find_wd wd [] = none
find_wd wd ((k, path) ∷ wds) = if k == wd then some path else find_wd wd wds

unfoldable pub set_wd : ℕ → Str → List (ℕ × Str) → List (ℕ × Str)
set_wd wd path [] = (wd, path) ∷ []
set_wd wd path ((k, p) ∷ wds) = if k == wd then (k, path) ∷ wds else (k, p) ∷ set_wd wd path wds

unfoldable pub erase_wd : ℕ → List (ℕ × Str) → List (ℕ × Str)
erase_wd wd [] = []
erase_wd wd ((k, p) ∷ wds) = if k == wd then wds else (k, p) ∷ erase_wd wd wds

unfoldable pub add_dir : AddWatch → Str → LinuxSpaceWatcher → LinuxSpaceWatcher × AddDirStatus
unfolding find_wd set_wd count_dir
add_dir no_space path w = (w, dir_limit_reached)
add_dir failed path w = (w, access_denied)
add_dir (watch wd) path w = elim (find_wd wd w.inotify_wds) [
  | some old ↦ (record w { inotify_wds = set_wd wd path w.inotify_wds }, dir_added)
  | none ↦
      (record { base = count_dir w.base; inotify_wds = set_wd wd path w.inotify_wds }, dir_added)
]

-- `beginWatch` of a new watcher, behind `inotify_init1`, and `SpaceWatcher::create`, which throws
-- when it fails.
unfoldable pub create : Bool → AddWatch → Str → Option LinuxSpaceWatcher
unfolding add_dir
create opened answer path =
    let (w, status) = add_dir answer path (record { base = new_watcher; inotify_wds = [] }) in
    if opened then elim status [ dir_added ↦ some w | _ ↦ none ] else none

-- `rmDir`, which leaves the table of descriptors as it is.
unfoldable pub rm_dir : LinuxSpaceWatcher → LinuxSpaceWatcher
unfolding uncount_dir
rm_dir w = record w { base = uncount_dir w.base }

-- The tests of the bits of an event's mask.
pub record Mask : Type 0 where
  pub ignored : Bool
  pub create : Bool
  pub delete : Bool
  pub modify : Bool
  pub moved_from : Bool
  pub moved_to : Bool

-- The name is padded with zeros up to `len`, which is 0 when there is none.
pub record InotifyEvent : Type 0 where
  pub wd : ℕ
  pub mask : Mask
  pub len : ℕ
  pub name : Str

unfoldable pub action_of : Mask → Option FileAction
action_of m =
    if m.create
    then some added
    else if m.delete
    then some removed
    else if m.modify
    then some modified
    else if m.moved_from
    then some old_name
    else if m.moved_to
    then some new_name
    else none

abbrev pub slash : ℕ
slash = 0x2f

-- `substr(0, find_last_of('/') + 1)`, and the empty string when there is no slash.
unfoldable pub up_to_slash : Str → Str
up_to_slash [] = []
up_to_slash (c ∷ s) = elim (up_to_slash s) [
  | [] ↦ if c == slash then c ∷ [] else []
  | d ∷ t ↦ c ∷ d ∷ t
]

abbrev pub without_slash : Str → Str
without_slash path = if back 0 path == slash then pop_back path else path

unfoldable pub file_event : FileAction → Str → Str → FileEvent
unfolding up_to_slash
file_event action dir name =
    let path = without_slash (dir ++ name) in
    record { action = action; filepath = path; parentpath = up_to_slash path }

unfoldable pub process_inotify_event : InotifyEvent → LinuxSpaceWatcher → LinuxSpaceWatcher
unfolding find_wd erase_wd uncount_dir action_of file_event add_event
process_inotify_event e w =
    if e.mask.ignored
    then elim (find_wd e.wd w.inotify_wds) [
      | none ↦ w
      | some path ↦ record { base = uncount_dir w.base; inotify_wds = erase_wd e.wd w.inotify_wds }
    ]
    else if e.len == 0
    then w
    else elim (action_of e.mask) [
      | none ↦ w
      | some action ↦ elim (find_wd e.wd w.inotify_wds) [
        | none ↦ w
        | some dir ↦ record w { base = add_event (file_event action dir e.name) w.base }
      ]
    ]

-- `readEvents`, with the events that the reads give, in order.
unfoldable pub read_events : List InotifyEvent → LinuxSpaceWatcher → LinuxSpaceWatcher
unfolding process_inotify_event
read_events [] w = w
read_events (e ∷ es) w = read_events es (process_inotify_event e w)
