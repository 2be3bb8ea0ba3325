-- ===== src/SpaceView/Screen.antt =====
-- The class `SpaceView` of app-gui/src/spaceview.cpp as a whole: what is shown, what the mouse points
-- at, and the events of the window. Painting is left out. `none` is where an exception leaves a
-- function or `allocate_view` gives none.
use spacedisplay.Common.{
  ℕ, ◌+◌, Bool, true, false, not, Option, none, some, List, [], ◌∷◌, ◌==◌, if◌then◌else◌, back, Str,
}
use spacedisplay.Common.Int.{ℤ}
use spacedisplay.FilePath.{Host, ok, err, FilePath}
use spacedisplay.FileTooltip.{FileTooltip, hide_tooltip, set_tooltip}
use spacedisplay.Scanner.State.{World, SpaceScanner}
use spacedisplay.Scanner.Control.{get_watcher_limits}
use spacedisplay.View.{Rect}
use spacedisplay.View.Tree.{View, EntryType, directory, file, fields_of, get_path}
use spacedisplay.View.Trail.{hovered_trail}
use spacedisplay.FileViewDb
use spacedisplay.FileViewDb.{
  FileViewDb, closest, on_theme_changed, set_view_area, set_view_path, set_view_depth,
  set_text_height,
}
use spacedisplay.SpaceView.{SpaceView}
use spacedisplay.StatusView.{Float}

-- What the system, Qt and the clock answer at one moment, what `FileViewDB` computes with floats,
-- the cast of an integer to `float`, and the texts of the tooltips.
pub record Desk : Type 0 where
  pub host : Host
  pub world : World
  pub min_size_of : ℤ → Rect → ℤ
  pub to_float : ℤ → Float
  pub tooltip_of : View → Str
  pub to_global : ℤ × ℤ → ℤ × ℤ
  pub tooltip_visible : Bool
  pub now : ℕ
  pub watch_limit : ℤ

-- `currentPath` is null when there is no scanner, which `navigation` knows too. `view_counter` goes
-- on with the ids of views, and 0 is no id.
pub record Screen : Type 0 where
  pub navigation : SpaceView
  pub scanner : Option SpaceScanner
  pub view_db : FileViewDb
  pub view_counter : ℕ
  pub mouse : ℤ × ℤ
  pub hovered_path : Option FilePath
  pub hovered_id : ℕ
  pub scanned_path : Option FilePath
  pub scanned_id : ℕ
  pub tooltip : FileTooltip
  pub text_height : ℕ
  pub show_available : Bool
  pub show_unknown : Bool

abbrev pub is_entry : EntryType → Bool
is_entry directory = true
is_entry file = true
is_entry _ = false

-- `updateHoveredView` where there is no view, or one that has no path.
unfoldable pub point_nowhere : Desk → Screen → Screen
unfolding hide_tooltip
point_nowhere d s = record s {
  tooltip = (hide_tooltip d.tooltip_visible s.tooltip).0;
  hovered_path = none;
  hovered_id = 0;
}

unfoldable pub point_at : Desk → View → FilePath → Screen → Screen
unfolding set_tooltip
point_at d v path s =
    let (x, y) = d.to_global s.mouse in
    record s {
      tooltip = (set_tooltip d.tooltip_visible d.now x y (d.tooltip_of v) s.tooltip).0;
      hovered_path = some path;
      hovered_id = (fields_of v).id;
    }

-- With the trail of `getHoveredView`, which is empty at the view that has no parent.
unfoldable pub point : Desk → Option (List View) → Screen → Option Screen
unfolding point_nowhere point_at get_path
point d none s = some (point_nowhere d s)
point d (some []) s = some (point_nowhere d s)
point d (some (u ∷ t)) s =
    let v = back u t in
    if is_entry (fields_of v).entry_type
    then elim (get_path d.host (u ∷ t) s.navigation.current_path) [
      | err ↦ none
      | ok path ↦ some (point_at d v path s)
    ]
    else some (point_nowhere d s)

-- The trail of what `FileViewDB::getHoveredView` answers.
unfoldable pub trail_of_mouse : Screen → Option (List View)
unfolding hovered_trail
trail_of_mouse s = elim s.view_db.root_file [
  | none ↦ none
  | some root ↦ hovered_trail root s.mouse.0 s.mouse.1
]

-- `updateHoveredView`, and whether another view is hovered.
unfoldable pub update_hovered_view : Desk → Screen → Option (Screen × Bool)
unfolding point trail_of_mouse
update_hovered_view d s = elim (point d (trail_of_mouse s) s) [
  | none ↦ none
  | some t ↦ some (t, not (s.hovered_id == t.hovered_id))
]

-- What `FileViewDB::getClosestView` finds for the path that is scanned.
unfoldable pub scanned_view : Desk → Screen → Option View
unfolding closest
scanned_view d s = elim s.scanned_path [
  | none ↦ none
  | some path ↦ elim s.view_db.root_file [
    | none ↦ none
    | some root ↦ elim s.view_db.view_path [
      | none ↦ none
      | some shown ↦ closest d.host shown path root (s.navigation.current_depth + 1)
    ]
  ]
]

unfoldable pub update_scanned_view : Desk → Screen → Screen
unfolding scanned_view
update_scanned_view d s = elim (scanned_view d s) [
  | none ↦ record s { scanned_id = 0 }
  | some v ↦ record s { scanned_id = (fields_of v).id }
]

unfoldable pub show_navigation : Screen → FileViewDb
unfolding set_view_path set_view_depth set_text_height
show_navigation s =
    set_text_height s.text_height (
      set_view_path s.navigation.current_path (set_view_depth s.navigation.current_depth s.view_db))

unfoldable pub allocate_entries : Desk → Screen → Option Screen
unfolding show_navigation update_hovered_view update_scanned_view FileViewDb.update
allocate_entries d s = elim s.scanner [
  | none ↦ some s
  | some sc ↦
      elim (FileViewDb.update d.host d.min_size_of sc.db s.show_unknown s.show_available
        (show_navigation s) s.view_counter) [
          | none ↦ none
          | some (db, view_db, counter, shown) ↦
              elim (update_hovered_view d (record s {
                scanner = some (record sc { db = db });
                view_db = view_db;
                view_counter = counter;
              })) [ none ↦ none | some (t, changed) ↦ some (update_scanned_view d t) ]
        ]
]

-- `onScanUpdate`, and whether `onWatchLimitCallback` is called.
unfoldable pub on_scan_update : Desk → Screen → Option (Screen × Bool)
unfolding allocate_entries get_watcher_limits
on_scan_update d s = elim s.scanner [
  | none ↦ some (s, false)
  | some sc ↦ elim (allocate_entries d (record s { scanned_path = sc.current_scanned_path })) [
    | none ↦ none
    | some t ↦ elim t.scanner [
      | none ↦ some (t, false)
      | some u ↦
          let (v, limits, exceeded) = get_watcher_limits d.watch_limit u in
          some (record t { scanner = some v }, exceeded)
    ]
  ]
]
