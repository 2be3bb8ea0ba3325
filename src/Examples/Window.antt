-- ===== src/Examples/Window.antt =====
-- A window with an open scanner, and the mouse over a view.
use spacedisplay.Common.{
  ◌⊎◌, List, ◌++◌, ℕ, ◌≡◌, refl, Bool, true, false, none, some, List, [], ◌∷◌, ◌++◌, length, All,
  codes, Str, str_eq, push_back, arith,
}
use spacedisplay.Common.Int.{pos, ◌+ℤ◌, ◌-ℤ◌, ◌≤ℤ◌}
use spacedisplay.FilePath.{ok, can_go_up, is_dir, add_dir, str_crc16, crc_or_default, push_part}
use spacedisplay.FilePath.Validity.{crcs_of}
use spacedisplay.FileTooltip.{FileTooltip, show_text, set_tooltip, hide_tooltip}
use spacedisplay.FileTooltip.Delay.{
  Call, set, timer, run, last_place, IsHiding, set_tooltip-shows, hide_tooltip-silent,
}
use spacedisplay.FileDb.{get_space}
use spacedisplay.FileViewDb.{FileViewDb, closest, get_files_size}
use spacedisplay.Scanner.State.{idle, SpaceScanner}
use spacedisplay.Scanner.Control.{pause_scan}
use spacedisplay.Scanner.Progress.{get_scan_progress}
use spacedisplay.View.{Rect}
use spacedisplay.View.Tree.{
  View, view, nil, cons, Fields, directory, find_view, get_path, add_view, contains,
}
use spacedisplay.View.Trail.{hovered_trail}
use spacedisplay.View.Closest.{get_path-closest}
use spacedisplay.SpaceView.{set_scanner, is_at_root}
use spacedisplay.SpaceView.Screen.{
  Desk, Screen, update_hovered_view, update_scanned_view, trail_of_mouse,
}
use spacedisplay.SpaceView.Pointing.{update_hovered_view-update_scanned_view}
use spacedisplay.SpaceView.Events.{Spaces, screen_space, screen_paused, set_pause}
use spacedisplay.SpaceView.Spaces.{screen_space-Fits}
use spacedisplay.StatusView.{StatusView, no_scan, set_mode}
use spacedisplay.MainWindow.{
  MainWindow, LimitReport, report_limit, on_scan_update, update_status_view, screen_progress,
  actions_of, update_available_actions, show_spaces,
}
use spacedisplay.MainWindow.Actions.{IsOffered, update_available_actions-IsOffered}
use spacedisplay.MainWindow.Slots.{pause, slot, toggle_pause}
use spacedisplay.MainWindow.Session.{
  Event, call_slot, threads, event, run_events, run_events-reports,
}
use spacedisplay.MainWindow.Session.{
  Event, call_slot, threads, event, run_events, run_events-reports,
}
use spacedisplay.Examples.Paths.{host, root_path, home_path, root_path-IsValid}
use spacedisplay.Examples.Navigation.{closed}
use spacedisplay.Examples.Scanner.{world, scanner}

abbrev tooltip : FileTooltip
tooltip = record {
  request_timepoint = 0;
  text = [];
  x = pos 0;
  y = pos 0;
  tooltip_delay_ms = 250;
  tooltip_pending = false;
  is_shown = false;
}

abbrev moves : List Call
moves = timer 100000000 ∷ set true 200000000 (pos 5) (pos 6) (codes "a") ∷ []

set_tooltip-shows_example :
    (run
      (push_back moves (timer 300000000))
      (set_tooltip true 0 (pos 1) (pos 2) (codes "a") tooltip).0).1
    ≡ show_text (last_place (pos 1, pos 2) moves).0 (last_place (pos 1, pos 2) moves).1 (codes "a")
      ∷ []
unfolding str_eq
set_tooltip-shows_example =
    set_tooltip-shows true 0 (pos 1) (pos 2) (codes "a") tooltip moves 300000000 refl
      (omega arith, (refl, tt)) (omega arith)

hide_tooltip-silent_example :
    All IsHiding
      (run
        (set true 5 (pos 1) (pos 2) (codes "a") ∷ timer 900000000 ∷ [])
        (hide_tooltip true (record tooltip { text = codes "a"; is_shown = true })).0).1
hide_tooltip-silent_example =
    hide_tooltip-silent true (record tooltip { text = codes "a"; is_shown = true })
      (set true 5 (pos 1) (pos 2) (codes "a") ∷ timer 900000000 ∷ []) (refl, (tt, tt))

abbrev area : Rect
area = record { x = pos 0; y = pos 0; w = pos 100; h = pos 50 }

abbrev fields : ℕ → Str → Fields
fields id name = record {
  draw_area = area;
  size = pos 9;
  id = id;
  name = name;
  entry_type = directory;
}

-- The root, with a directory `home` all over it.
abbrev home_view : View
home_view = view (fields 2 (codes "home")) nil

abbrev root_view : View
root_view = view (fields 1 (codes "/")) (cons home_view nil)

home_view-path : get_path host (home_view ∷ []) root_path ≡ ok home_path
unfolding get_path add_view add_dir is_dir crc_or_default str_crc16 push_part crcs_of
home_view-path = refl

get_path-closest_example : closest host root_path home_path root_view 3 ≡ some home_view
unfolding find_view str_eq
get_path-closest_example =
    get_path-closest host root_path home_path root_view home_view [] 3 root_path-IsValid
      (refl, ((λ e. cc), omega arith), tt) home_view-path (omega arith)

abbrev desk : Desk
desk = record {
  host = host;
  world = world;
  min_size_of = λ total rect. pos 0;
  to_float = λ n. record { value = n };
  tooltip_of = λ v. codes "tip";
  to_global = λ place. place;
  tooltip_visible = false;
  now = 7;
  watch_limit = pos 100;
}

abbrev view_db : FileViewDb
view_db = record {
  root_file = some root_view;
  view_path = some root_path;
  view_rect = area;
  view_depth = 5;
  text_height = 10;
}

abbrev screen : Screen
screen = record {
  navigation = set_scanner root_path closed;
  scanner = some scanner;
  view_db = view_db;
  view_counter = 3;
  mouse = (pos 10, pos 20);
  hovered_path = none;
  hovered_id = 0;
  scanned_path = none;
  scanned_id = 0;
  tooltip = tooltip;
  text_height = 10;
  show_available = true;
  show_unknown = true;
}

update_hovered_view-update_scanned_view_example :
    (r : Screen) × (changed : Bool) × (update_hovered_view desk screen ≡ some (r, changed))
    × (r.hovered_path ≡ some home_path)
    × ((update_scanned_view desk (record r { scanned_path = r.hovered_path })).scanned_id
        ≡ r.hovered_id)
unfolding set_scanner trail_of_mouse hovered_trail contains find_view str_eq ◌-ℤ◌
update_hovered_view-update_scanned_view_example =
    update_hovered_view-update_scanned_view desk screen root_view home_view [] home_path refl refl
      refl refl home_view-path root_path-IsValid (refl, ((λ e. cc), omega arith), tt) (omega arith)

abbrev status_view : StatusView
status_view = record {
  scanned_space_visible = record { value = pos 0 };
  scanned_space_hidden = record { value = pos 0 };
  available_space = record { value = pos 0 };
  unknown_space = record { value = pos 1 };
  scan_progress = pos 0;
  scanned_files = pos 0;
  current_mode = no_scan;
  highlight_available = false;
  highlight_unknown = false;
  maximize_space = false;
}

abbrev window : MainWindow
window = record {
  screen = screen;
  enabled_actions = 1;
  actions = actions_of 1;
  is_root_scanned = true;
  watch_limit_reported = false;
  watch_limit_exceeded = true;
  pause_checked = false;
  toggle_free_checked = false;
  toggle_unknown_checked = true;
  status_view = status_view;
}

update_available_actions-IsOffered_example :
    IsOffered window (update_available_actions window).actions
    × ((update_available_actions window).pause_checked ≡ screen_paused screen)
update_available_actions-IsOffered_example = update_available_actions-IsOffered window

abbrev spaces : Spaces
spaces = record {
  scanned_visible = pos 3;
  scanned_hidden = pos 0;
  available = pos 10;
  total = pos 100;
}

screen_space-shows : screen_space screen ≡ some spaces
unfolding screen_space get_space get_files_size set_scanner is_at_root can_go_up ◌-ℤ◌ ◌+ℤ◌
screen_space-shows = refl

screen_space-Fits_example :
    (pos 3 ≤ℤ get_files_size screen.view_db)
    × (pos 0 ≤ℤ pos 0)
    × (pos 3 +ℤ pos 0 +ℤ pos 10 ≤ℤ pos 100)
    × (is_at_root screen.navigation ≡ false → pos 3 +ℤ pos 0 ≡ (get_space scanner.db).0)
screen_space-Fits_example = screen_space-Fits screen scanner spaces refl screen_space-shows

-- The scan is over when the limit was exceeded.
abbrev idle_scanner : SpaceScanner
idle_scanner = record scanner { scanner_status = idle }

abbrev idle_window : MainWindow
idle_window = record window { screen = record screen { scanner = some idle_scanner } }

abbrev paused : MainWindow
paused = record idle_window { pause_checked = true }

abbrev reported : MainWindow × List LimitReport
reported = report_limit desk (
    update_available_actions (record paused {
      status_view = show_spaces desk paused idle_scanner spaces (pos 100) status_view;
    }))

-- The scan ends, and the user pauses.
abbrev ending : List (Desk × Event)
ending = (desk, threads idle_scanner) ∷ (desk, call_slot pause) ∷ []

run_events-pause : run_events ending window ≡ some (reported.0, reported.1 ++ [])
unfolding run_events event slot toggle_pause set_pause pause_scan on_scan_update update_status_view
    update_available_actions screen_progress get_scan_progress screen_space get_space get_files_size
    set_scanner is_at_root can_go_up set_mode ◌-ℤ◌ ◌+ℤ◌
run_events-pause = refl

run_events-reports_example :
    (((reported.1 ++ []) ≡ []) × (reported.0.watch_limit_reported ≡ false))
    ⊎ ((length (reported.1 ++ []) ≡ 1) × (false ≡ false) × (reported.0.watch_limit_reported ≡ true))
run_events-reports_example =
    run_events-reports ending window reported.0 (reported.1 ++ []) run_events-pause
