-- ===== src/FileTooltip/Delay.antt =====
-- When a tooltip is shown.
use spacedisplay.Common.{
  ℕ, ◌-◌, ◌/◌, ◌≤◌, ◌<◌, ◌≡◌, refl, inl, inr, Bool, true, false, ◌&&◌, List, [], ◌∷◌, ◌++◌, ltb,
  Str, str_eq, str_eq_refl, Bool-cases, All, All-append, push_back, lt→ltb, subst, sym, ◌∙◌, arith,
}
use spacedisplay.Common.Int.{ℤ}
use spacedisplay.FileTooltip.{
  FileTooltip, QtCall, show_text, hide_text, hide_tooltip, set_tooltip, show_tooltip, is_due,
  on_timer,
}

-- A call with what the clock and Qt answer in it.
pub data Call : Type 0 where
  set : (visible : Bool) (now : ℕ) (x y : ℤ) (text : Str) → Call
  hide : (visible : Bool) → Call
  timer : (now : ℕ) → Call

unfoldable pub call : Call → FileTooltip → FileTooltip × List QtCall
unfolding set_tooltip hide_tooltip on_timer
call (set visible now x y text) t = set_tooltip visible now x y text t
call (hide visible) t = hide_tooltip visible t
call (timer now) t = on_timer now t

unfoldable pub run : List Call → FileTooltip → FileTooltip × List QtCall
unfolding call
run [] t = (t, [])
run (c ∷ cs) t = let (t', first) = call c t in let (u, rest) = run cs t' in (u, first ++ rest)

-- Calls that ask for no other text.
abbrev pub SameText : Str → Call → Type 0
SameText text (set visible now x y other) = other ≡ text
SameText text (hide visible) = Unit {0}
SameText text (timer now) = Unit {0}

abbrev pub IsHiding : QtCall → Type 0
IsHiding hide_text = Unit {0}
IsHiding (show_text x y text) = ⊥

-- While a text waits: the same text again, at any place, and ticks before the delay is over.
abbrev pub IsEarly : ℕ → ℕ → Str → Call → Type 0
IsEarly asked delay text (set visible now x y other) = other ≡ text
IsEarly asked delay text (hide visible) = ⊥
IsEarly asked delay text (timer now) = (now - asked) / 1000000 ≤ delay

abbrev pub last_place : ℤ × ℤ → List Call → ℤ × ℤ
last_place p [] = p
last_place p (set visible now x y text ∷ cs) = last_place (x, y) cs
last_place p (hide visible ∷ cs) = last_place p cs
last_place p (timer now ∷ cs) = last_place p cs

same-silent :
    (c : Call) (t : FileTooltip)
    → t.tooltip_pending ≡ false
    → SameText t.text c
    → ((call c t).0.tooltip_pending ≡ false)
      × ((call c t).0.text ≡ t.text)
      × All IsHiding (call c t).1
unfolding call set_tooltip hide_tooltip on_timer
same-silent (set visible now x y other) t p e =
    rw (call, set_tooltip, e, str_eq_refl t.text) (p, refl, tt)
same-silent (hide visible) t p e = elim (Bool-cases (t.is_shown && visible)) [
  | inl s ↦ rw (call, hide_tooltip, s) (refl, refl, (tt, tt))
  | inr s ↦ rw (call, hide_tooltip, s) (refl, refl, tt)
]
same-silent (timer now) t p e = rw (call, on_timer, p) (refl, refl, tt)

run-silent :
    (text : Str) (cs : List Call) (t : FileTooltip)
    → t.tooltip_pending ≡ false
    → t.text ≡ text
    → All (SameText text) cs
    → All IsHiding (run cs t).1
unfolding run
run-silent text [] t p e h = tt
run-silent text (c ∷ cs) t p e (hc, h) =
    let (pending, same, silent) =
      same-silent c t p (subst (λ (s : Str). SameText s c) (sym e) hc) in
    All-append IsHiding (call c t).1 (run cs (call c t).0).1 silent
      (run-silent text cs (call c t).0 pending (same ∙ e) h)

-- Once a tooltip is hidden its text is never shown again, however often it is set and however much
-- time goes by, until another text is set.
pub hide_tooltip-silent :
    (visible : Bool) (t : FileTooltip) (cs : List Call)
    → All (SameText t.text) cs
    → All IsHiding (run cs (hide_tooltip visible t).0).1
unfolding hide_tooltip
hide_tooltip-silent visible t cs h = elim (Bool-cases (t.is_shown && visible)) [
  | inl e ↦
      rw (hide_tooltip, e)
        (run-silent t.text cs (record t { tooltip_pending = false; is_shown = false }) refl refl h)
  | inr e ↦
      rw (hide_tooltip, e) (run-silent t.text cs (record t { tooltip_pending = false }) refl refl h)
]

-- A tooltip that was asked for at `asked` and is to be shown at the place `p`.
waiting : ℕ → ℕ → Bool → Str → ℤ × ℤ → FileTooltip
waiting asked delay shown text p = record {
  request_timepoint = asked;
  text = text;
  x = p.0;
  y = p.1;
  tooltip_delay_ms = delay;
  tooltip_pending = true;
  is_shown = shown;
}

run-early :
    (asked delay : ℕ) (shown : Bool) (text : Str) (now : ℕ) (cs : List Call) (p : ℤ × ℤ)
    → All (IsEarly asked delay text) cs
    → delay < (now - asked) / 1000000
    → (run (push_back cs (timer now)) (waiting asked delay shown text p)).1
      ≡ show_text (last_place p cs).0 (last_place p cs).1 text ∷ []
unfolding run call set_tooltip on_timer show_tooltip is_due waiting
run-early asked delay shown text now [] p h due = rw (lt→ltb delay _ due) refl
run-early asked delay shown text now (set visible at x y other ∷ cs) p (e, h) due =
    rw (e, str_eq_refl text) (run-early asked delay shown text now cs (x, y) h due)
run-early asked delay shown text now (hide visible ∷ cs) p (e, h) due = absurd e
run-early asked delay shown text now (timer at ∷ cs) p (e, h) due =
    let early : ltb delay ((at - asked) / 1000000) ≡ false = ground arith in
    rw early (run-early asked delay shown text now cs p h due)

-- A new text is shown by the first tick at which more than the delay has gone by, and by none
-- before, when it is not hidden until then: once, at the place that was set last.
pub set_tooltip-shows :
    (visible : Bool) (asked : ℕ) (x y : ℤ) (text : Str) (t : FileTooltip) (cs : List Call) (now : ℕ)
    → str_eq t.text text ≡ false
    → All (IsEarly asked t.tooltip_delay_ms text) cs
    → t.tooltip_delay_ms < (now - asked) / 1000000
    → (run (push_back cs (timer now)) (set_tooltip visible asked x y text t).0).1
      ≡ show_text (last_place (x, y) cs).0 (last_place (x, y) cs).1 text ∷ []
unfolding set_tooltip hide_tooltip waiting
set_tooltip-shows visible asked x y text t cs now other h due =
    elim (Bool-cases (t.is_shown && visible)) [
      | inl e ↦
          rw (set_tooltip, other, e)
            (run-early asked t.tooltip_delay_ms false text now cs (x, y) h due)
      | inr e ↦
          rw (set_tooltip, other, e)
            (run-early asked t.tooltip_delay_ms t.is_shown text now cs (x, y) h due)
    ]
