-- ===== src/MainWindow/Slots.antt =====
-- The slots of `MainWindow`, and how it is called back by the view of the space.
use Prim.Native.Nat.{bit_or}
use spacedisplay.Common.{true, false, ◌||◌, not, Option, none, some, List, [], ◌++◌, Str}
use spacedisplay.FilePath.{FilePath}
use spacedisplay.Scanner.State.{SpaceScanner, in_array}
use spacedisplay.SpaceView.{clear_history}
use spacedisplay.SpaceView.Screen.{Desk}
use spacedisplay.SpaceView.Events.{
  Outcome, quiet, Direction, home, up, back, forward, more, fewer, set_pause, open_scanner,
  close_scanner, timer_event, left_press, right_release, rescan_view, rescan_dir, navigate,
  set_show_free_space, set_show_unknown_space, move_to,
}
use spacedisplay.MainWindow.{
  MainWindow, LimitReport, new_scan_mask, refresh_mask, toggle_free_mask, toggle_unknown_mask,
  set_enabled_actions, switch_actions, disable_actions, update_status_view,
  update_available_actions, on_scan_update,
}

-- The callbacks of an outcome: `watchLimitExceeded` is set, and an action leads to `onScanUpdate`.
-- The menu of a new scan and the menu of an entry are left to the user.
unfoldable pub call_back : Desk → Outcome → MainWindow → Option (MainWindow × List LimitReport)
unfolding on_scan_update
call_back d o w =
    let t = record w {
      screen = o.screen;
      watch_limit_exceeded = w.watch_limit_exceeded || o.watch_limit_exceeded;
    } in
    elim o.action [ true ↦ on_scan_update d t | false ↦ some (t, []) ]

unfoldable pub after : Desk → Option Outcome → MainWindow → Option (MainWindow × List LimitReport)
unfolding call_back
after d none w = none
after d (some o) w = call_back d o w

-- An outcome, and then `onScanUpdate` of the window.
unfoldable pub after_and_update :
    Desk → Option Outcome → MainWindow → Option (MainWindow × List LimitReport)
unfolding after on_scan_update
after_and_update d o w = elim (after d o w) [
  | none ↦ none
  | some (t, reports) ↦ elim (on_scan_update d t) [
    | none ↦ none
    | some (u, others) ↦ some (u, reports ++ others)
  ]
]

unfoldable pub toggle_pause : Desk → MainWindow → Option (MainWindow × List LimitReport)
unfolding set_pause on_scan_update
toggle_pause d w = on_scan_update d (record w { screen = set_pause w.pause_checked w.screen })

unfoldable pub refresh_view : Desk → MainWindow → Option (MainWindow × List LimitReport)
unfolding disable_actions rescan_view on_scan_update
refresh_view d w =
    let t = disable_actions refresh_mask w in
    on_scan_update d (record t { screen = rescan_view d t.screen })

-- `lessDetail` and `moreDetail`.
unfoldable pub change_detail :
    Desk → Direction → MainWindow → Option (MainWindow × List LimitReport)
unfolding after update_available_actions
change_detail d direction w = elim (after d (navigate d direction w.screen) w) [
  | none ↦ none
  | some (t, reports) ↦ some (update_available_actions t, reports)
]

-- `toggleFree` and `toggleUnknown`.
unfoldable pub show_and_update :
    Desk → Option Outcome → MainWindow → Option (MainWindow × List LimitReport)
unfolding after update_status_view
show_and_update d o w = elim (after d o w) [
  | none ↦ none
  | some (t, reports) ↦ elim (update_status_view d t) [ none ↦ none | some u ↦ some (u, reports) ]
]

pub data Slot : Type 0 where
  timer press release go_back go_forward go_up go_home pause refresh less_detail more_detail
        toggle_free toggle_unknown :
      Slot
  rescan_entry : (path : FilePath) → Slot

-- Qt toggles a checkable action before it calls the slot.
unfoldable pub slot : Desk → Slot → MainWindow → Option (MainWindow × List LimitReport)
unfolding timer_event left_press right_release navigate after after_and_update toggle_pause
    refresh_view change_detail show_and_update rescan_dir
slot d timer w = after d (timer_event d w.screen) w
slot d press w = after d (left_press d w.screen) w
slot d release w = after d (some (right_release d w.screen)) w
slot d go_back w = after_and_update d (navigate d back w.screen) w
slot d go_forward w = after_and_update d (navigate d forward w.screen) w
slot d go_up w = after_and_update d (navigate d up w.screen) w
slot d go_home w = after_and_update d (navigate d home w.screen) w
slot d pause w = toggle_pause d (record w { pause_checked = not w.pause_checked })
slot d refresh w = refresh_view d w
slot d less_detail w = change_detail d fewer w
slot d more_detail w = change_detail d more w
slot d toggle_free w =
    let checked = not w.toggle_free_checked in
    show_and_update d (set_show_free_space d checked w.screen)
      (record w { toggle_free_checked = checked })
slot d toggle_unknown w =
    let checked = not w.toggle_unknown_checked in
    show_and_update d (set_show_unknown_space d checked w.screen)
      (record w { toggle_unknown_checked = checked })
slot d (rescan_entry path) w =
    call_back d (record (quiet (rescan_dir d path w.screen)) { action = true }) w

-- `startScan`, up to the `try`.
unfoldable pub prepare_scan : Desk → Str → MainWindow → Option (MainWindow × List LimitReport)
unfolding in_array clear_history set_enabled_actions switch_actions after
prepare_scan d path w =
    let root_scanned = in_array path d.world.available_mounts in
    let cleared = move_to (clear_history w.screen.navigation) w.screen in
    let t = switch_actions root_scanned (bit_or toggle_free_mask toggle_unknown_mask) (
      set_enabled_actions new_scan_mask
        (record w { screen = cleared; is_root_scanned = root_scanned })) in
    let u = record t { toggle_unknown_checked = root_scanned; toggle_free_checked = false } in
    elim (after d (set_show_unknown_space d root_scanned u.screen) u) [
      | none ↦ none
      | some (v, reports) ↦ elim (after d (set_show_free_space d false v.screen) v) [
        | none ↦ none
        | some (x, others) ↦ some (x, reports ++ others)
      ]
    ]

-- The rest of `startScan`, with the scanner that was constructed, or null where the constructor
-- threw a `std::runtime_error`.
unfoldable pub show_scan :
    Desk → Option SpaceScanner → MainWindow → Option (MainWindow × List LimitReport)
unfolding open_scanner close_scanner after on_scan_update
show_scan d none w = on_scan_update d (record w { screen = close_scanner w.screen })
show_scan d (some sc) w = elim (after d (open_scanner d sc w.screen) w) [
  | none ↦ none
  | some (u, reports) ↦ elim (on_scan_update d (record u { watch_limit_reported = false })) [
    | none ↦ none
    | some (v, others) ↦ some (v, reports ++ others)
  ]
]

unfoldable pub start_scan :
    Desk → Str → Option SpaceScanner → MainWindow → Option (MainWindow × List LimitReport)
unfolding prepare_scan show_scan
start_scan d path made w = elim (prepare_scan d path w) [
  | none ↦ none
  | some (t, reports) ↦ elim (show_scan d made t) [
    | none ↦ none
    | some (u, others) ↦ some (u, reports ++ others)
  ]
]
