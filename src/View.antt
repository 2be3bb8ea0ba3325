-- ===== src/View.antt =====
-- The views of entries: lib/include/utils.h (`RectI`), app-gui/include/fileentryview.h and
-- app-gui/src/fileentryview.cpp.
pub mod Allocate
pub mod Division
pub mod Combine
pub mod Placement
pub mod Tree
pub mod Rebuild
pub mod Hover
pub mod Trail
pub mod Closest
pub mod Layout
pub mod Create
use spacedisplay.Common.{ℕ, suc, ◌+◌, Bool, true, false, List, [], ◌∷◌, Str, ltb, if◌then◌else◌}
use spacedisplay.Common.Int.{ℤ, pos, ◌+ℤ◌, ◌-ℤ◌, ◌≤ℤ◌, ltb_ℤ}

pub record Rect : Type 0 where
  pub x : ℤ
  pub y : ℤ
  pub w : ℤ
  pub h : ℤ

-- A child as `allocate_children` sees it.
pub record Item : Type 0 where
  pub size : ℤ
  pub draw_area : Rect
