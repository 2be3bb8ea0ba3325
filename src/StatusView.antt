-- ===== src/StatusView.antt =====
-- The class `StatusView` of app-gui/include/statusview.h and app-gui/src/statusview.cpp: what it is
-- told and the texts that it shows. How the bars are laid out with floats and painted is left out.
use spacedisplay.Common.{Bool, ◌++◌, [], if◌then◌else◌, Str, codes}
use spacedisplay.Common.Int.{ℤ, pos, ltb_ℤ}

pub data Mode : Type 0 where
  no_scan scanning_definite scanning_indefinite scan_finished : Mode

-- A `float`, here as its value, which is an integer for all that `StatusView` is given: a cast of an
-- integer rounds to a float that is an integer.
pub record Float : Type 0 where
  pub value : ℤ

pub record StatusView : Type 0 where
  pub scanned_space_visible : Float
  pub scanned_space_hidden : Float
  pub available_space : Float
  pub unknown_space : Float
  pub scan_progress : ℤ
  pub scanned_files : ℤ
  pub current_mode : Mode
  pub highlight_available : Bool
  pub highlight_unknown : Bool
  pub maximize_space : Bool

unfoldable pub set_space : Float → Float → Float → Float → StatusView → StatusView
set_space visible hidden available unknown s = record s {
  scanned_space_visible = visible;
  scanned_space_hidden = hidden;
  available_space = available;
  unknown_space = unknown;
}

unfoldable pub set_progress : ℤ → StatusView → StatusView
set_progress progress s = record s { scan_progress = progress }

unfoldable pub set_mode : Mode → StatusView → StatusView
set_mode mode s = record s { current_mode = mode }

unfoldable pub set_space_highlight : Bool → Bool → StatusView → StatusView
set_space_highlight available unknown s = record s {
  highlight_available = available;
  highlight_unknown = unknown;
}

unfoldable pub set_maximize_space : Bool → StatusView → StatusView
set_maximize_space maximize s = record s { maximize_space = maximize }

unfoldable pub set_scanned_files : ℤ → StatusView → StatusView
set_scanned_files files s = record s { scanned_files = files }

-- `getScanStatusText`, which keeps the progress below 100. `print` is `%d` of the C library.
unfoldable pub get_scan_status_text : (ℤ → Str) → StatusView → StatusView × Str
get_scan_status_text print s = elim s.current_mode [
  | no_scan ↦ (s, codes "Ready")
  | scan_finished ↦ (s, codes "Ready")
  | scanning_indefinite ↦ (s, codes "Scanning...")
  | scanning_definite ↦
      let progress = if ltb_ℤ (pos 99) s.scan_progress then pos 99 else s.scan_progress in
      (record s { scan_progress = progress }, print progress ++ codes "%")
]

unfoldable pub get_scanned_files_text : (ℤ → Str) → StatusView → Str
get_scanned_files_text print s = elim s.current_mode [
  | no_scan ↦ []
  | _ ↦ print s.scanned_files ++ codes " files"
]
