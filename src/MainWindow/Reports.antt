-- ===== src/MainWindow/Reports.antt =====
-- How often the limit of watches is reported.
use spacedisplay.Common.{
  ℕ, ◌+◌, ◌≡◌, refl, sym, ap, ◌∙◌, inl, inr, Bool, true, false, ◌&&◌, ◌||◌, not, Option, none, some,
  some_inj, none_ne_some, List, [], ◌++◌, length, length-append, arith, subst, Bool-cases,
  Option-cases,
}
use spacedisplay.Common.Int.{pos, ◌==ℤ◌}
use spacedisplay.Scanner.Progress.{get_scan_progress}
use spacedisplay.SpaceView.{is_at_root}
use spacedisplay.SpaceView.Screen.{Desk}
use spacedisplay.SpaceView.Events.{
  Outcome, Direction, home, up, back, forward, more, fewer, timer_event, left_press, right_release,
  navigate, rescan_dir, quiet, rescan_view, set_pause, screen_space, set_show_free_space,
  set_show_unknown_space,
}
use spacedisplay.MainWindow.{
  MainWindow, LimitReport, update_status_view, update_available_actions, screen_progress,
  report_limit, on_scan_update, disable_actions, refresh_mask,
}
use spacedisplay.MainWindow.Slots.{
  Slot, timer, press, release, go_back, go_forward, go_up, go_home, pause, refresh, less_detail,
  more_detail, toggle_free, toggle_unknown, rescan_entry, call_back, after, after_and_update,
  toggle_pause, refresh_view, change_detail, show_and_update, slot,
}

-- The reports that may still come: one, until the limit is reported.
abbrev pub allowance : Bool → ℕ
allowance true = 0
allowance false = 1

-- Exactly what was reported comes out of the allowance.
abbrev pub Within : Bool → Option (MainWindow × List LimitReport) → Type 0
Within reported none = Unit {0}
Within reported (some (t, reports)) =
    length reports + allowance t.watch_limit_reported ≡ allowance reported

report_limit-Within : (d : Desk) (w : MainWindow) → Within false (some (report_limit d w))
unfolding report_limit
report_limit-Within d w = elim (Option-cases w.screen.scanner) [
  | inl n ↦ rw (report_limit, n) refl
  | inr (sc, n) ↦ rw (report_limit, n) refl
]

update_status_view-reported :
    (d : Desk) (w t : MainWindow)
    → update_status_view d w ≡ some t
    → t.watch_limit_reported ≡ w.watch_limit_reported
unfolding update_status_view
update_status_view-reported d w t e = elim (Option-cases w.screen.scanner) [
  | inl n ↦
      ap (λ (r : MainWindow). r.watch_limit_reported)
        (sym (some_inj (rw (n, update_status_view) at e)))
  | inr (sc, n) ↦ elim (Option-cases (get_scan_progress sc)) [
    | inl p ↦ absurd (none_ne_some (rw (n, p, update_status_view) at e))
    | inr (progress, p) ↦ elim (Option-cases (screen_space w.screen)) [
      | inl q ↦ absurd (none_ne_some (rw (n, p, q, update_status_view) at e))
      | inr (spaces, q) ↦
          ap (λ (r : MainWindow). r.watch_limit_reported)
            (sym (some_inj (rw (n, p, q, update_status_view) at e)))
    ]
  ]
]

update_available_actions-reported :
    (w : MainWindow) → (update_available_actions w).watch_limit_reported ≡ w.watch_limit_reported
unfolding update_available_actions
update_available_actions-reported w = elim (Bool-cases (is_at_root w.screen.navigation)) [
  | inl e ↦ rw (update_available_actions, e) refl
  | inr e ↦ rw (update_available_actions, e) refl
]

none_reported : (w : MainWindow) (b : Bool) → w.watch_limit_reported ≡ b → Within b (some (w, []))
none_reported w b e = rw e (omega arith)

and_right : (a b c : Bool) → (a && (b && not c)) ≡ true → c ≡ false
and_right true true false e = refl
and_right true true true e = cc
and_right true false c e = cc
and_right false b c e = cc

on_scan_update-Within :
    (d : Desk) (w : MainWindow) → Within w.watch_limit_reported (on_scan_update d w)
unfolding on_scan_update
on_scan_update-Within d w = elim (Option-cases (update_status_view d w)) [
  | inl n ↦ rw (on_scan_update, n) tt
  | inr (t, n) ↦
      let u = update_available_actions t in
      let same : u.watch_limit_reported ≡ w.watch_limit_reported =
        update_available_actions-reported t ∙ update_status_view-reported d w t n in
      elim (Option-cases (screen_progress u.screen)) [
        | inl p ↦ rw (on_scan_update, n, p) tt
        | inr (progress, p) ↦
            elim (Bool-cases
              ((progress ==ℤ pos 100) && (u.watch_limit_exceeded && not u.watch_limit_reported))) [
                | inr c ↦ rw (on_scan_update, n, p, c) (none_reported u w.watch_limit_reported same)
                | inl c ↦
                    let fresh : w.watch_limit_reported ≡ false = sym same ∙ and_right _ _ _ c in
                    rw (on_scan_update, n, p, c)
                      (subst (λ (b : Bool). Within b (some (report_limit d u))) (sym fresh)
                        (report_limit-Within d u))
              ]
      ]
]

call_back-Within :
    (d : Desk) (o : Outcome) (w : MainWindow) → Within w.watch_limit_reported (call_back d o w)
unfolding call_back
call_back-Within d o w = elim (Bool-cases o.action) [
  | inl e ↦
      rw (call_back, e)
        (on_scan_update-Within d (record w {
          screen = o.screen;
          watch_limit_exceeded = w.watch_limit_exceeded || o.watch_limit_exceeded;
        }))
  | inr e ↦ rw (call_back, e) (omega arith)
]

after-Within :
    (d : Desk) (o : Option Outcome) (w : MainWindow) → Within w.watch_limit_reported (after d o w)
unfolding after
after-Within d none w = tt
after-Within d (some o) w = call_back-Within d o w

-- What is done next spends from what is left.
pub then_Within :
    (b : Bool) (m : Option (MainWindow × List LimitReport))
    (k : MainWindow → Option (MainWindow × List LimitReport))
    → Within b m
    → ((t : MainWindow) → Within t.watch_limit_reported (k t))
    → Within b (elim m [
      | none ↦ none
      | some (t, reports) ↦ elim (k t) [
        | none ↦ none
        | some (u, others) ↦ some (u, reports ++ others)
      ]
    ])
then_Within b none k h next = tt
then_Within b (some (t, reports)) k h next = elim (Option-cases (k t)) [
  | inl e ↦ rw e tt
  | inr ((u, others), e) ↦
      let more : Within t.watch_limit_reported (some (u, others)) =
        subst (Within t.watch_limit_reported) e (next t) in
      rw e (omega (arith, length-append reports others))
]

-- A step that reports nothing and keeps whether the limit is reported.
silent_Within :
    (b : Bool) (m : Option (MainWindow × List LimitReport)) (k : MainWindow → MainWindow)
    → Within b m
    → ((t : MainWindow) → (k t).watch_limit_reported ≡ t.watch_limit_reported)
    → Within b (elim m [ none ↦ none | some (t, reports) ↦ some (k t, reports) ])
silent_Within b none k h same = tt
silent_Within b (some (t, reports)) k h same = rw (same t) h

change_detail-Within :
    (d : Desk) (direction : Direction) (w : MainWindow)
    → Within w.watch_limit_reported (change_detail d direction w)
unfolding change_detail
change_detail-Within d direction w =
    silent_Within w.watch_limit_reported (after d (navigate d direction w.screen) w)
      update_available_actions (after-Within d (navigate d direction w.screen) w)
      update_available_actions-reported

after_and_update-Within :
    (d : Desk) (o : Option Outcome) (w : MainWindow)
    → Within w.watch_limit_reported (after_and_update d o w)
unfolding after_and_update
after_and_update-Within d o w =
    then_Within w.watch_limit_reported (after d o w) (on_scan_update d) (after-Within d o w)
      (on_scan_update-Within d)

show_and_update-Within :
    (d : Desk) (o : Option Outcome) (w : MainWindow)
    → Within w.watch_limit_reported (show_and_update d o w)
unfolding show_and_update
show_and_update-Within d o w = go (after d o w) (after-Within d o w)
  where
    go :
        (m : Option (MainWindow × List LimitReport))
        → Within w.watch_limit_reported m
        → Within w.watch_limit_reported (elim m [
          | none ↦ none
          | some (t, reports) ↦ elim (update_status_view d t) [
            | none ↦ none
            | some u ↦ some (u, reports)
          ]
        ])
    go none h = tt
    go (some (t, reports)) h = elim (Option-cases (update_status_view d t)) [
      | inl e ↦ rw e tt
      | inr (u, e) ↦ rw e (rw (update_status_view-reported d t u e) h)
    ]

pub slot-Within :
    (d : Desk) (c : Slot) (w : MainWindow) → Within w.watch_limit_reported (slot d c w)
unfolding slot toggle_pause refresh_view disable_actions
slot-Within d timer w = after-Within d (timer_event d w.screen) w
slot-Within d press w = after-Within d (left_press d w.screen) w
slot-Within d release w = after-Within d (some (right_release d w.screen)) w
slot-Within d go_back w = after_and_update-Within d (navigate d back w.screen) w
slot-Within d go_forward w = after_and_update-Within d (navigate d forward w.screen) w
slot-Within d go_up w = after_and_update-Within d (navigate d up w.screen) w
slot-Within d go_home w = after_and_update-Within d (navigate d home w.screen) w
slot-Within d pause w =
    let checked = not w.pause_checked in
    on_scan_update-Within d
      (record w { pause_checked = checked; screen = set_pause checked w.screen })
slot-Within d refresh w =
    let t = disable_actions refresh_mask w in
    on_scan_update-Within d (record t { screen = rescan_view d t.screen })
slot-Within d less_detail w = change_detail-Within d fewer w
slot-Within d more_detail w = change_detail-Within d more w
slot-Within d toggle_free w =
    let checked = not w.toggle_free_checked in
    show_and_update-Within d (set_show_free_space d checked w.screen)
      (record w { toggle_free_checked = checked })
slot-Within d toggle_unknown w =
    let checked = not w.toggle_unknown_checked in
    show_and_update-Within d (set_show_unknown_space d checked w.screen)
      (record w { toggle_unknown_checked = checked })
slot-Within d (rescan_entry path) w =
    call_back-Within d (record (quiet (rescan_dir d path w.screen)) { action = true }) w
