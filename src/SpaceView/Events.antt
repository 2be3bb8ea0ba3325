-- ===== src/SpaceView/Events.antt =====
-- The calls and the events of the window: app-gui/src/spaceview.cpp, and the menu of
-- app-gui/src/fileentrypopup.cpp.
use spacedisplay.Common.{
  Bool, true, false, ◌&&◌, not, Option, none, some, List, [], ◌∷◌, ltb, if◌then◌else◌,
}
use spacedisplay.Common.Int.{ℤ, pos, negsuc, ◌-ℤ◌, ltb_ℤ}
use spacedisplay.FilePath.{Host, FilePath, is_dir}
use spacedisplay.FileDb.{get_space}
use spacedisplay.FileTooltip.{hide_tooltip, on_timer}
use spacedisplay.View.{Rect}
use spacedisplay.FileViewDb.{on_theme_changed, set_view_area, get_files_size}
use spacedisplay.Scanner.State.{is_scanning, is_paused, SpaceScanner}
use spacedisplay.Scanner.Control.{pause_scan, resume_scan, rescan_path}
use spacedisplay.SpaceView.{
  SpaceView, min_depth, max_depth, clear_history, set_scanner, is_at_root, navigate_home,
  navigate_up, can_navigate_back, can_navigate_forward, navigate_back, navigate_forward, open_path,
  rescan_current_view, increase_detail, decrease_detail,
}
use spacedisplay.SpaceView.Screen.{
  Desk, Screen, update_hovered_view, allocate_entries, on_scan_update,
}

-- What an event leaves, and which callbacks it calls. `popup` is the path of the menu that opens.
pub record Outcome : Type 0 where
  pub screen : Screen
  pub watch_limit_exceeded : Bool
  pub action : Bool
  pub new_scan : Bool
  pub popup : Option FilePath

abbrev pub quiet : Screen → Outcome
quiet s = record {
  screen = s;
  watch_limit_exceeded = false;
  action = false;
  new_scan = false;
  popup = none;
}

-- `onScanUpdate` at the end of an event, which calls `onActionCallback` or does not.
unfoldable pub updated : Desk → Bool → Screen → Option Outcome
unfolding on_scan_update
updated d action s = elim (on_scan_update d s) [
  | none ↦ none
  | some (t, exceeded) ↦
      some (record (quiet t) { watch_limit_exceeded = exceeded; action = action })
]

abbrev pub move_to : SpaceView → Screen → Screen
move_to navigation s = record s { navigation = navigation }

-- `setScanner`, of a scanner and of null.
unfoldable pub open_scanner : Desk → SpaceScanner → Screen → Option Outcome
unfolding set_scanner updated
open_scanner d sc s =
    updated d false
      (record s { scanner = some sc; navigation = set_scanner sc.db.root_path s.navigation })

unfoldable pub close_scanner : Screen → Screen
unfolding clear_history
close_scanner s = record s {
  scanner = none;
  navigation = record (clear_history s.navigation) { scanner_root = none };
}

unfoldable pub timer_event : Desk → Screen → Option Outcome
unfolding on_timer updated
timer_event d s =
    let t = record s { tooltip = (on_timer d.now s.tooltip).0 } in
    elim s.scanner [
      | none ↦ some (quiet t)
      | some sc ↦ if sc.db.has_changes then updated d true t else some (quiet t)
    ]

-- `mousePressEvent` with the left button.
unfoldable pub left_press : Desk → Screen → Option Outcome
unfolding open_path updated
left_press d s = elim s.hovered_path [
  | none ↦ some (quiet s)
  | some path ↦ updated d true (move_to (open_path path s.navigation) s)
]

-- `mouseReleaseEvent` with the right button, before the menu is used.
unfoldable pub right_release : Desk → Screen → Outcome
unfolding hide_tooltip
right_release d s = elim s.scanner [
  | none ↦ record (quiet s) { new_scan = true; action = true }
  | some sc ↦ elim s.hovered_path [
    | none ↦ record (quiet s) { action = true }
    | some path ↦
        record (quiet (record s { tooltip = (hide_tooltip d.tooltip_visible s.tooltip).0 })) {
          action = true;
          popup = some path;
        }
  ]
]

pub data PopupAction : Type 0 where
  rescan open_in_manager show_in_manager delete_dir delete_file properties : PopupAction

-- The entries of `FileEntryPopup::popup` behind the title.
unfoldable pub popup_actions : Host → FilePath → List PopupAction
unfolding is_dir
popup_actions host path =
    if is_dir host path
    then rescan ∷ open_in_manager ∷ delete_dir ∷ properties ∷ []
    else show_in_manager ∷ delete_file ∷ properties ∷ []

unfoldable pub mouse_move : Desk → ℤ → ℤ → Screen → Option (Screen × Bool)
unfolding update_hovered_view
mouse_move d x y s = update_hovered_view d (record s { mouse = (x, y) })

unfoldable pub leave : Screen → Screen
leave s = record s { mouse = (negsuc 0, negsuc 0) }

unfoldable pub resize : Desk → ℤ → ℤ → Screen → Option Screen
unfolding set_view_area allocate_entries
resize d width height s =
    let area : Rect = record { x = pos 0; y = pos 0; w = width -ℤ pos 1; h = height -ℤ pos 1 } in
    allocate_entries d (record s { view_db = set_view_area area s.view_db })

unfoldable pub set_custom_palette : Desk → Screen → Option Screen
unfolding on_theme_changed allocate_entries
set_custom_palette d s = allocate_entries d (record s { view_db = on_theme_changed s.view_db })

unfoldable pub rescan_dir : Desk → FilePath → Screen → Screen
unfolding rescan_path
rescan_dir d path s = elim s.scanner [
  | none ↦ s
  | some sc ↦ record s { scanner = some (rescan_path d.host d.world path sc) }
]

unfoldable pub rescan_view : Desk → Screen → Screen
unfolding rescan_current_view rescan_dir
rescan_view d s = elim s.scanner [
  | none ↦ s
  | some sc ↦ rescan_dir d s.navigation.current_path (move_to (rescan_current_view s.navigation) s)
]

unfoldable pub set_show_free_space : Desk → Bool → Screen → Option Outcome
unfolding updated
set_show_free_space d b s = updated d false (record s { show_available = b })

unfoldable pub set_show_unknown_space : Desk → Bool → Screen → Option Outcome
unfolding updated
set_show_unknown_space d b s = updated d false (record s { show_unknown = b })

-- The navigation, each of them with `onScanUpdate` when it moves.
unfoldable pub go : Desk → Bool → SpaceView → Screen → Option Outcome
unfolding updated
go d moves navigation s = elim moves [
  | true ↦ updated d false (move_to navigation s)
  | false ↦ some (quiet s)
]

abbrev pub can_increase_detail : SpaceView → Bool
can_increase_detail v = elim v.scanner_root [
  | none ↦ false
  | some root ↦ ltb v.current_depth max_depth
]

abbrev pub can_decrease_detail : SpaceView → Bool
can_decrease_detail v = elim v.scanner_root [
  | none ↦ false
  | some root ↦ ltb min_depth v.current_depth
]

pub data Direction : Type 0 where
  home up back forward more fewer : Direction

unfoldable pub navigate : Desk → Direction → Screen → Option Outcome
unfolding go navigate_home navigate_up navigate_back navigate_forward increase_detail
    decrease_detail is_at_root can_navigate_back can_navigate_forward
navigate d home s = go d true (navigate_home s.navigation) s
navigate d up s = go d (not (is_at_root s.navigation)) (navigate_up s.navigation).0 s
navigate d back s = go d (can_navigate_back s.navigation) (navigate_back s.navigation) s
navigate d forward s = go d (can_navigate_forward s.navigation) (navigate_forward s.navigation) s
navigate d more s = go d (can_increase_detail s.navigation) (increase_detail s.navigation) s
navigate d fewer s = go d (can_decrease_detail s.navigation) (decrease_detail s.navigation) s

unfoldable pub can_toggle_pause : Screen → Bool
can_toggle_pause s = elim s.scanner [
  | none ↦ false
  | some sc ↦
      if is_scanning sc.scanner_status
      then not (is_paused sc.scanner_status)
      else is_paused sc.scanner_status
]

unfoldable pub screen_paused : Screen → Bool
screen_paused s = elim s.scanner [ none ↦ true | some sc ↦ is_paused sc.scanner_status ]

unfoldable pub set_pause : Bool → Screen → Screen
unfolding pause_scan resume_scan
set_pause paused s = elim s.scanner [
  | none ↦ s
  | some sc ↦ record s { scanner = some (if paused then (pause_scan sc).0 else (resume_scan sc).0) }
]

-- The spaces of `SpaceView::getSpace`.
pub record Spaces : Type 0 where
  pub scanned_visible : ℤ
  pub scanned_hidden : ℤ
  pub available : ℤ
  pub total : ℤ

unfoldable pub screen_space : Screen → Option Spaces
unfolding get_space get_files_size is_at_root
screen_space s = elim s.scanner [
  | none ↦ none
  | some sc ↦
      let (scanned, available, total) = get_space sc.db in
      let files = get_files_size s.view_db in
      let visible = if ltb_ℤ scanned files then scanned else files in
      some (record {
        scanned_visible = visible;
        scanned_hidden =
            if ltb_ℤ visible scanned && not (is_at_root s.navigation)
            then scanned -ℤ visible
            else pos 0;
        available = available;
        total = total;
      })
]
