-- ===== src/SpaceWatcher.antt =====
-- The class `SpaceWatcher` of lib/include/spacewatcher.h and lib/src/spacewatcher.cpp: the queue of
-- events, which the watcher's thread fills and the scanner's empties, and the count of watches.
pub mod Linux
pub mod Windows
pub mod Records
pub mod Paths
pub mod Counts
use spacedisplay.Common.{
  ℕ, ◌+◌, ◌-◌, Bool, Option, none, some, List, [], ◌∷◌, ltb, if◌then◌else◌, push_back, Str,
}
use spacedisplay.Common.Int.{ℤ, pos, ltb_ℤ}

pub data FileAction : Type 0 where
  added removed modified old_name new_name : FileAction

pub data AddDirStatus : Type 0 where
  dir_added dir_limit_reached access_denied : AddDirStatus

pub record FileEvent : Type 0 where
  pub action : FileAction
  pub filepath : Str
  pub parentpath : Str

pub record SpaceWatcher : Type 0 where
  pub watched_dir_count : ℕ
  pub event_queue : List FileEvent

abbrev pub new_watcher : SpaceWatcher
new_watcher = record { watched_dir_count = 0; event_queue = [] }

-- The limit is read by a virtual method, and is -1 where there is none.
unfoldable pub get_watched_dir_count : ℤ → SpaceWatcher → ℤ
get_watched_dir_count limit w = if ltb_ℤ limit (pos 0) then pos 1 else pos w.watched_dir_count

-- `SpaceWatcher::addDir` and `SpaceWatcher::rmDir`.
unfoldable pub count_dir : SpaceWatcher → SpaceWatcher
count_dir w = record w { watched_dir_count = w.watched_dir_count + 1 }

unfoldable pub uncount_dir : SpaceWatcher → SpaceWatcher
uncount_dir w =
    if ltb 0 w.watched_dir_count
    then record w { watched_dir_count = w.watched_dir_count - 1 }
    else w

unfoldable pub pop_event : SpaceWatcher → SpaceWatcher × Option FileEvent
pop_event w = elim w.event_queue [
  | [] ↦ (w, none)
  | event ∷ events ↦ (record w { event_queue = events }, some event)
]

unfoldable pub add_event : FileEvent → SpaceWatcher → SpaceWatcher
add_event event w = record w { event_queue = push_back w.event_queue event }
