-- ===== src/SpaceView.antt =====
-- Navigation in the class `SpaceView` of app-gui/include/spaceview.h and app-gui/src/spaceview.cpp.
-- What is painted anew after each call is left out.
pub mod History
pub mod Refinement
pub mod Home
pub mod Screen
pub mod Events
pub mod Pointing
pub mod Spaces
use spacedisplay.Common.{
  is_empty, ℕ, zero, suc, ◌+◌, ◌-◌, Bool, true, false, ◌&&◌, not, Option, none, some, List, [], ◌∷◌,
  length, get_or, pop_back, push_back, ltb, if◌then◌else◌,
}
use spacedisplay.FilePath.{FilePath, can_go_up, go_up}

-- The root path of the scanner that is open, and what is shown of it.
pub record SpaceView : Type 0 where
  pub scanner_root : Option FilePath
  pub path_history : List FilePath
  pub path_history_pointer : ℕ
  pub current_depth : ℕ
  pub current_path : FilePath

abbrev pub min_depth : ℕ
min_depth = 1

abbrev pub max_depth : ℕ
max_depth = 9

-- The loop of `historyPush`, which pops what lies behind the pointer. The fuel is the length.
unfoldable pub pop_ahead : ℕ → ℕ → List FilePath → List FilePath
pop_ahead zero pointer history = history
pop_ahead (suc fuel) pointer history =
    let rest = pop_ahead fuel pointer (pop_back history) in
    if not (is_empty history) && ltb (pointer + 1) (length history) then rest else history

unfoldable pub history_push : SpaceView → SpaceView
unfolding pop_ahead
history_push v =
    let history =
      push_back (pop_ahead (length v.path_history) v.path_history_pointer v.path_history)
        v.current_path in
    record v { path_history = history; path_history_pointer = length history - 1 }

unfoldable pub clear_history : SpaceView → SpaceView
clear_history v = record v { path_history = []; path_history_pointer = 0 }

-- `setScanner` of a scanner.
unfoldable pub set_scanner : FilePath → SpaceView → SpaceView
unfolding history_push clear_history
set_scanner root v =
    history_push (record (clear_history v) { scanner_root = some root; current_path = root })

unfoldable pub is_at_root : SpaceView → Bool
is_at_root v = elim v.scanner_root [ none ↦ true | some root ↦ not (can_go_up v.current_path) ]

-- The loop of `navigateHome`. The fuel is the number of parts.
unfoldable pub go_home : ℕ → FilePath → FilePath
go_home zero p = p
go_home (suc fuel) p = let rest = go_home fuel (go_up p).0 in if can_go_up p then rest else p

unfoldable pub navigate_home : SpaceView → SpaceView
unfolding go_home history_push
navigate_home v =
    let path = v.current_path in
    history_push (record v { current_path = go_home (length path.parts) path })

unfoldable pub navigate_up : SpaceView → SpaceView × Bool
unfolding is_at_root history_push
navigate_up v =
    let up = history_push (record v { current_path = (go_up v.current_path).0 }) in
    if is_at_root v then (v, false) else (up, not (is_at_root up))

unfoldable pub can_navigate_back : SpaceView → Bool
can_navigate_back v =
    not (is_empty v.path_history)
    && (ltb 0 v.path_history_pointer && ltb v.path_history_pointer (length v.path_history + 1))

unfoldable pub can_navigate_forward : SpaceView → Bool
can_navigate_forward v =
    not (is_empty v.path_history) && ltb (v.path_history_pointer + 1) (length v.path_history)

-- The pointer is moved, and the path there is shown.
unfoldable pub go_to : ℕ → SpaceView → SpaceView
go_to pointer v = record v {
  path_history_pointer = pointer;
  current_path = get_or v.path_history pointer v.current_path;
}

unfoldable pub navigate_back : SpaceView → SpaceView
unfolding can_navigate_back go_to
navigate_back v = if can_navigate_back v then go_to (v.path_history_pointer - 1) v else v

unfoldable pub navigate_forward : SpaceView → SpaceView
unfolding can_navigate_forward go_to
navigate_forward v = if can_navigate_forward v then go_to (v.path_history_pointer + 1) v else v

-- `mousePressEvent` over a path.
unfoldable pub open_path : FilePath → SpaceView → SpaceView
unfolding history_push
open_path path v = history_push (record v { current_path = path })

-- `rescanCurrentView`, before the scanner is told to.
unfoldable pub rescan_current_view : SpaceView → SpaceView
unfolding is_at_root clear_history history_push
rescan_current_view v = elim v.scanner_root [
  | none ↦ v
  | some root ↦ if is_at_root v then history_push (clear_history v) else v
]

unfoldable pub increase_detail : SpaceView → SpaceView
increase_detail v = elim v.scanner_root [
  | none ↦ v
  | some root ↦
      if ltb v.current_depth max_depth then record v { current_depth = v.current_depth + 1 } else v
]

unfoldable pub decrease_detail : SpaceView → SpaceView
decrease_detail v = elim v.scanner_root [
  | none ↦ v
  | some root ↦
      if ltb min_depth v.current_depth then record v { current_depth = v.current_depth - 1 } else v
]
