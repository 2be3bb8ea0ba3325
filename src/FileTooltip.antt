-- ===== src/FileTooltip.antt =====
-- The class `FileTooltip` of app-gui/include/filetooltip.h and app-gui/src/filetooltip.cpp. What the
-- clock and `QToolTip::isVisible` answer are arguments, and the calls of `QToolTip` are results.
pub mod Delay
use spacedisplay.Common.{
  ℕ, ◌-◌, ◌/◌, Bool, true, false, ◌&&◌, not, List, [], ◌∷◌, ◌++◌, ltb, if◌then◌else◌, Str, str_eq,
}
use spacedisplay.Common.Int.{ℤ}

-- Time points in nanoseconds.
pub record FileTooltip : Type 0 where
  pub request_timepoint : ℕ
  pub text : Str
  pub x : ℤ
  pub y : ℤ
  pub tooltip_delay_ms : ℕ
  pub tooltip_pending : Bool
  pub is_shown : Bool

pub data QtCall : Type 0 where
  show_text : ℤ → ℤ → Str → QtCall
  hide_text : QtCall

unfoldable pub set_delay : ℕ → FileTooltip → FileTooltip
set_delay ms t = record t { tooltip_delay_ms = ms }

-- `hideTooltip`, which the destructor calls too.
unfoldable pub hide_tooltip : Bool → FileTooltip → FileTooltip × List QtCall
hide_tooltip visible t =
    if t.is_shown && visible
    then (record t { tooltip_pending = false; is_shown = false }, hide_text ∷ [])
    else (record t { tooltip_pending = false }, [])

unfoldable pub set_tooltip : Bool → ℕ → ℤ → ℤ → Str → FileTooltip → FileTooltip × List QtCall
unfolding hide_tooltip
set_tooltip visible now global_x global_y text t =
    let (hidden, calls) = hide_tooltip visible t in
    if str_eq t.text text then (record t { x = global_x; y = global_y }, []) else (
      record hidden {
        request_timepoint = now;
        tooltip_pending = true;
        text = text;
        x = global_x;
        y = global_y;
      },
      calls,
    )

unfoldable pub show_tooltip : FileTooltip → FileTooltip × List QtCall
show_tooltip t =
    (record t { tooltip_pending = false; is_shown = true }, show_text t.x t.y t.text ∷ [])

-- `duration_cast` to milliseconds cuts off.
unfoldable pub is_due : ℕ → FileTooltip → Bool
is_due now t = ltb t.tooltip_delay_ms ((now - t.request_timepoint) / 1000000)

unfoldable pub on_timer : ℕ → FileTooltip → FileTooltip × List QtCall
unfolding show_tooltip is_due
on_timer now t = if t.tooltip_pending && is_due now t then show_tooltip t else (t, [])
