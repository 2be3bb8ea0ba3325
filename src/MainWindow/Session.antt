-- ===== src/MainWindow/Session.antt =====
-- Events of a window while a scan is open: the slots, the mouse, the size and the theme, and what
-- the threads of the scanner do in between.
use spacedisplay.Common.{
  ◌+◌, ◌≡◌, ◌⊎◌, refl, inl, inr, Bool, true, false, Option, none, some, List, [], ◌∷◌, ◌++◌, length,
  arith, subst,
}
use spacedisplay.Common.Int.{ℤ}
use spacedisplay.Scanner.State.{SpaceScanner}
use spacedisplay.SpaceView.Screen.{Desk, Screen}
use spacedisplay.SpaceView.Events.{mouse_move, leave, resize, set_custom_palette}
use spacedisplay.MainWindow.{MainWindow, LimitReport}
use spacedisplay.MainWindow.Slots.{Slot, slot}
use spacedisplay.MainWindow.Reports.{allowance, Within, then_Within, slot-Within}

-- `threads` is any state that the threads of the scanner have left it in.
pub data Event : Type 0 where
  call_slot : (c : Slot) → Event
  move_mouse : (x y : ℤ) → Event
  leave_view : Event
  resize_view : (width height : ℤ) → Event
  change_palette : Event
  threads : (scanner : SpaceScanner) → Event

abbrev with_screen : MainWindow → Option Screen → Option (MainWindow × List LimitReport)
with_screen w none = none
with_screen w (some s) = some (record w { screen = s }, [])

abbrev first : Option (Screen × Bool) → Option Screen
first none = none
first (some (s, changed)) = some s

abbrev with_scanner : SpaceScanner → Screen → Screen
with_scanner t s = elim s.scanner [ none ↦ s | some sc ↦ record s { scanner = some t } ]

unfoldable pub event : Desk → Event → MainWindow → Option (MainWindow × List LimitReport)
unfolding slot mouse_move leave resize set_custom_palette
event d (call_slot c) w = slot d c w
event d (move_mouse x y) w = with_screen w (first (mouse_move d x y w.screen))
event d leave_view w = with_screen w (some (leave w.screen))
event d (resize_view width height) w = with_screen w (resize d width height w.screen)
event d change_palette w = with_screen w (set_custom_palette d w.screen)
event d (threads t) w = with_screen w (some (with_scanner t w.screen))

-- Events one after another, each with what the system answers then.
unfoldable pub run_events :
    List (Desk × Event) → MainWindow → Option (MainWindow × List LimitReport)
unfolding event
run_events [] w = some (w, [])
run_events ((d, e) ∷ events) w = elim (event d e w) [
  | none ↦ none
  | some (t, reports) ↦ elim (run_events events t) [
    | none ↦ none
    | some (u, others) ↦ some (u, reports ++ others)
  ]
]

with_screen-Within :
    (w : MainWindow) (m : Option Screen) → Within w.watch_limit_reported (with_screen w m)
with_screen-Within w none = tt
with_screen-Within w (some s) = omega arith

event-Within : (d : Desk) (e : Event) (w : MainWindow) → Within w.watch_limit_reported (event d e w)
unfolding event
event-Within d (call_slot c) w = slot-Within d c w
event-Within d (move_mouse x y) w = with_screen-Within w (first (mouse_move d x y w.screen))
event-Within d leave_view w = omega arith
event-Within d (resize_view width height) w = with_screen-Within w (resize d width height w.screen)
event-Within d change_palette w = with_screen-Within w (set_custom_palette d w.screen)
event-Within d (threads t) w = omega arith

run_events-Within :
    (events : List (Desk × Event)) (w : MainWindow)
    → Within w.watch_limit_reported (run_events events w)
unfolding run_events
run_events-Within [] w = omega arith
run_events-Within ((d, e) ∷ events) w =
    then_Within w.watch_limit_reported (event d e w) (run_events events) (event-Within d e w)
      (run_events-Within events)

-- No report and the flag as before, or one report, which sets the flag.
abbrev IsReportedOnce : Bool → Bool → List LimitReport → Type 0
IsReportedOnce before after reports =
    ((reports ≡ []) × (after ≡ before)) ⊎ ((length reports ≡ 1) × (before ≡ false) × (after ≡ true))

reported_lem :
    (before after : Bool) (reports : List LimitReport)
    → length reports + allowance after ≡ allowance before
    → IsReportedOnce before after reports
reported_lem true true [] h = inl (refl, refl)
reported_lem false false [] h = inl (refl, refl)
reported_lem false true (r ∷ reports) h = inr (omega arith, refl, refl)
reported_lem true false reports h = absurd (omega arith)
reported_lem true true (r ∷ reports) h = absurd (omega arith)
reported_lem false true [] h = absurd (omega arith)
reported_lem false false (r ∷ reports) h = absurd (omega arith)

-- While no new scan is started and no exception leaves an event, the window either reports nothing and keeps its mark that the limit
-- of watches was reported, or it was not marked, reports the limit once and is marked: whatever
-- slots, mouse, size and theme events come in which order, whatever the threads of the scanner do
-- in between, and whatever the system answers.
pub run_events-reports :
    (events : List (Desk × Event)) (w t : MainWindow) (reports : List LimitReport)
    → run_events events w ≡ some (t, reports)
    → ((reports ≡ []) × (t.watch_limit_reported ≡ w.watch_limit_reported))
      ⊎ ((length reports ≡ 1) × (w.watch_limit_reported ≡ false) × (t.watch_limit_reported ≡ true))
run_events-reports events w t reports e =
    reported_lem w.watch_limit_reported t.watch_limit_reported reports
      (subst (Within w.watch_limit_reported) e (run_events-Within events w))
