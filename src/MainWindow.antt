-- ===== src/MainWindow.antt =====
-- The class `MainWindow` of app-gui/include/mainwindow.h and app-gui/src/mainwindow.cpp: which
-- actions are enabled, what the status shows, and the report of the limit of watches. Icons,
-- themes, settings and dialogs are left out.
pub mod Slots
pub mod Actions
pub mod Reports
pub mod Session
use Prim.Native.Nat.{bit_and, bit_or}
use spacedisplay.Common.{
  ℕ, ◌+◌, ◌-◌, ◌^◌, Bool, true, false, ◌&&◌, not, Option, none, some, List, [], ◌∷◌, ◌==◌,
  if◌then◌else◌, Str,
}
use spacedisplay.Common.Int.{ℤ, pos, ◌+ℤ◌, ◌-ℤ◌, ◌==ℤ◌}
use spacedisplay.Scanner.State.{SpaceScanner, in_array}
use spacedisplay.Scanner.Control.{get_watcher_limits}
use spacedisplay.Scanner.Progress.{get_scan_progress}
use spacedisplay.SpaceView.{is_at_root, can_navigate_back, can_navigate_forward, clear_history}
use spacedisplay.SpaceView.Screen.{Desk, Screen}
use spacedisplay.SpaceView.Events.{
  Outcome, Direction, home, up, back, forward, more, fewer, can_increase_detail,
  can_decrease_detail, can_toggle_pause, screen_paused, set_pause, Spaces, screen_space,
  open_scanner, close_scanner, timer_event, left_press, right_release, rescan_view, navigate,
  set_show_free_space, set_show_unknown_space, move_to,
}
use spacedisplay.StatusView.{
  StatusView, no_scan, scanning_definite, scanning_indefinite, scan_finished, set_space,
  set_progress, set_mode, set_space_highlight, set_maximize_space, set_scanned_files,
}

-- `ActionMask`.
abbrev pub new_scan_mask : ℕ
new_scan_mask = 1

abbrev pub back_mask : ℕ
back_mask = 2

abbrev pub forward_mask : ℕ
forward_mask = 4

abbrev pub navigate_up_mask : ℕ
navigate_up_mask = 8

abbrev pub home_mask : ℕ
home_mask = 16

abbrev pub pause_mask : ℕ
pause_mask = 32

abbrev pub refresh_mask : ℕ
refresh_mask = 64

abbrev pub less_detail_mask : ℕ
less_detail_mask = 128

abbrev pub more_detail_mask : ℕ
more_detail_mask = 256

abbrev pub toggle_free_mask : ℕ
toggle_free_mask = 512

abbrev pub toggle_unknown_mask : ℕ
toggle_unknown_mask = 1024

-- `operator~` on 32 bits.
abbrev pub mask_not : ℕ → ℕ
mask_not m = 2 ^ 32 - 1 - m

-- `!!(mask & action)`.
abbrev pub has_action : ℕ → ℕ → Bool
has_action mask action = not (bit_and mask action == 0)

-- Which of the window's `QAction`s are enabled.
pub record EnabledActions : Type 0 where
  pub new_act : Bool
  pub back_act : Bool
  pub forward_act : Bool
  pub up_act : Bool
  pub home_act : Bool
  pub pause_act : Bool
  pub rescan_act : Bool
  pub less_detail_act : Bool
  pub more_detail_act : Bool
  pub toggle_free_act : Bool
  pub toggle_unknown_act : Bool

pub record MainWindow : Type 0 where
  pub screen : Screen
  pub enabled_actions : ℕ
  pub actions : EnabledActions
  pub is_root_scanned : Bool
  pub watch_limit_reported : Bool
  pub watch_limit_exceeded : Bool
  pub pause_checked : Bool
  pub toggle_free_checked : Bool
  pub toggle_unknown_checked : Bool
  pub status_view : StatusView

unfoldable pub actions_of : ℕ → EnabledActions
actions_of m = record {
  new_act = has_action m new_scan_mask;
  back_act = has_action m back_mask;
  forward_act = has_action m forward_mask;
  up_act = has_action m navigate_up_mask;
  home_act = has_action m home_mask;
  pause_act = has_action m pause_mask;
  rescan_act = has_action m refresh_mask;
  less_detail_act = has_action m less_detail_mask;
  more_detail_act = has_action m more_detail_mask;
  toggle_free_act = has_action m toggle_free_mask;
  toggle_unknown_act = has_action m toggle_unknown_mask;
}

unfoldable pub set_enabled_actions : ℕ → MainWindow → MainWindow
unfolding actions_of
set_enabled_actions m w = record w { enabled_actions = m; actions = actions_of m }

-- The mask with actions added, as by `enableActions`, or removed, as by `disableActions`.
unfoldable pub with_actions : Bool → ℕ → ℕ → ℕ
with_actions b m mask = if b then bit_or mask m else bit_and mask (mask_not m)

unfoldable pub enable_actions : ℕ → MainWindow → MainWindow
unfolding set_enabled_actions with_actions
enable_actions m w = set_enabled_actions (with_actions true m w.enabled_actions) w

unfoldable pub disable_actions : ℕ → MainWindow → MainWindow
unfolding set_enabled_actions with_actions
disable_actions m w = set_enabled_actions (with_actions false m w.enabled_actions) w

-- An `if` that enables the actions or else disables them.
unfoldable pub switch_actions : Bool → ℕ → MainWindow → MainWindow
unfolding set_enabled_actions with_actions
switch_actions b m w = set_enabled_actions (with_actions b m w.enabled_actions) w

-- The part of `updateAvailableActions` about the place that is shown.
unfoldable pub switch_place : Bool → Bool → MainWindow → MainWindow
unfolding enable_actions disable_actions switch_actions
switch_place at_root root_scanned w =
    if at_root
    then switch_actions root_scanned (bit_or toggle_free_mask toggle_unknown_mask)
        (disable_actions (bit_or home_mask navigate_up_mask) w)
    else disable_actions (bit_or toggle_free_mask toggle_unknown_mask)
        (enable_actions (bit_or home_mask navigate_up_mask) w)

abbrev pub is_open : Screen → Bool
is_open s = elim s.scanner [ none ↦ false | some sc ↦ true ]

unfoldable pub update_available_actions : MainWindow → MainWindow
unfolding switch_actions switch_place
update_available_actions w =
    let s = w.screen in
    let v = s.navigation in
    let t = switch_actions (can_toggle_pause s) pause_mask (
      switch_actions (can_decrease_detail v) less_detail_mask (
        switch_actions (can_increase_detail v) more_detail_mask (
          switch_actions (can_navigate_forward v) forward_mask
            (switch_actions (can_navigate_back v) back_mask w)))) in
    switch_place (is_at_root v) w.is_root_scanned
      (switch_actions (is_open s) refresh_mask (record t { pause_checked = screen_paused s }))

-- `updateStatusView`. The progress is `none` where the scanner divides by zero.
unfoldable pub show_spaces : Desk → MainWindow → SpaceScanner → Spaces → ℤ → StatusView → StatusView
unfolding set_mode set_space_highlight set_maximize_space set_scanned_files set_progress set_space
show_spaces d w sc spaces progress v =
    let unknown =
      spaces.total -ℤ spaces.available -ℤ spaces.scanned_visible -ℤ spaces.scanned_hidden in
    let known = sc.is_mount_scanned in
    let at_root = is_at_root w.screen.navigation in
    let mode =
      if progress ==ℤ pos 100
      then scan_finished
      else if known
      then scanning_definite
      else scanning_indefinite in
    set_space (d.to_float spaces.scanned_visible) (d.to_float spaces.scanned_hidden)
      (d.to_float spaces.available) (d.to_float unknown)
      (set_progress progress (
        set_scanned_files sc.db.file_count (
          set_maximize_space (not known) (
            set_space_highlight (at_root && w.toggle_free_checked)
              (at_root && w.toggle_unknown_checked) (set_mode mode v)))))

unfoldable pub update_status_view : Desk → MainWindow → Option MainWindow
unfolding show_spaces set_mode screen_space
update_status_view d w =
    let v = set_mode no_scan w.status_view in
    elim w.screen.scanner [
      | none ↦ some (record w { status_view = v })
      | some sc ↦ elim (get_scan_progress sc) [
        | none ↦ none
        | some progress ↦ elim (screen_space w.screen) [
          | none ↦ none
          | some spaces ↦ some (record w { status_view = show_spaces d w sc spaces progress v })
        ]
      ]
    ]

-- `SpaceView::getScanProgress`.
unfoldable pub screen_progress : Screen → Option ℤ
unfolding get_scan_progress
screen_progress s = elim s.scanner [ none ↦ some (pos 100) | some sc ↦ get_scan_progress sc ]

-- What `InotifyDialog` is told: the limit, and one that would be enough. They are undefined where
-- `getWatcherLimits` finds no watcher and leaves its variables as they were, not initialised.
pub record LimitReport : Type 0 where
  pub limits : Option (ℤ × ℤ)

abbrev pub new_limit : SpaceScanner → ℤ → ℤ → ℤ
new_limit sc watched limit = limit +ℤ sc.db.dir_count -ℤ watched +ℤ pos 2048

unfoldable pub report_limit : Desk → MainWindow → MainWindow × List LimitReport
unfolding get_watcher_limits
report_limit d w =
    let reported = record w { watch_limit_reported = true; watch_limit_exceeded = false } in
    elim w.screen.scanner [
      | none ↦ (reported, record { limits = none } ∷ [])
      | some sc ↦
          let (t, found, exceeded) = get_watcher_limits d.watch_limit sc in
          let screen = w.screen in
          (
            record reported { screen = record screen { scanner = some t } },
            record {
              limits = elim found [
                | none ↦ none
                | some (watched, limit) ↦ some (limit, new_limit sc watched limit)
              ];
            }
                ∷ [],
          )
    ]

unfoldable pub on_scan_update : Desk → MainWindow → Option (MainWindow × List LimitReport)
unfolding update_status_view update_available_actions screen_progress report_limit
on_scan_update d w = elim (update_status_view d w) [
  | none ↦ none
  | some t ↦
      let u = update_available_actions t in
      elim (screen_progress u.screen) [
        | none ↦ none
        | some progress ↦
            if progress ==ℤ pos 100 && (u.watch_limit_exceeded && not u.watch_limit_reported)
            then some (report_limit d u)
            else some (u, [])
      ]
]
