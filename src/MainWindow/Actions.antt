-- ===== src/MainWindow/Actions.antt =====
-- Which actions are enabled.
use Prim.Native.Nat.{bit_or}
use spacedisplay.Common.{
  ℕ, ◌≡◌, refl, sym, ap, subst, ◌∙◌, inl, inr, Bool, true, false, ◌&&◌, ◌||◌, not, List, [], ◌∷◌,
  Bool-cases, if◌then◌else◌,
}
use spacedisplay.Common.Masks.{flag, flag-bit_and, flag-bit_or, power, bit_and-power}
use spacedisplay.SpaceView.{is_at_root, can_navigate_back, can_navigate_forward}
use spacedisplay.SpaceView.Events.{
  can_increase_detail, can_decrease_detail, can_toggle_pause, screen_paused,
}
use spacedisplay.MainWindow.{
  MainWindow, EnabledActions, mask_not, has_action, actions_of, is_open, update_available_actions,
  with_actions, home_mask, navigate_up_mask, toggle_free_mask, toggle_unknown_mask, back_mask,
  new_scan_mask, forward_mask, more_detail_mask, less_detail_mask, pause_mask, refresh_mask,
}

-- A mask after some of its actions were switched on or off, in order.
switches : List (Bool × ℕ) → ℕ → ℕ
switches [] m = m
switches ((b, a) ∷ l) m = switches l (with_actions b a m)

-- The last switch of an action decides.
abbrev decided : ℕ → List (Bool × ℕ) → Bool → Bool
decided k [] f = f
decided k ((b, a) ∷ l) f = decided k l (if flag k a then b else f)

-- The complement is taken digit by digit.
abbrev Complements : ℕ → List (Bool × ℕ) → Type 0
Complements k [] = Unit {0}
Complements k ((b, a) ∷ l) = (flag k (mask_not a) ≡ not (flag k a)) × Complements k l

switch_flag : (f g b : Bool) → (if b then f || g else f && not g) ≡ (if g then b else f)
switch_flag true true true = refl
switch_flag true true false = refl
switch_flag true false true = refl
switch_flag true false false = refl
switch_flag false true true = refl
switch_flag false true false = refl
switch_flag false false true = refl
switch_flag false false false = refl

switch_one :
    (k m a : ℕ) (b : Bool)
    → flag k (mask_not a) ≡ not (flag k a)
    → flag k (with_actions b a m) ≡ (if flag k a then b else flag k m)
unfolding with_actions
switch_one k m a true c = flag-bit_or k m a ∙ switch_flag (flag k m) (flag k a) true
switch_one k m a false c =
    flag-bit_and k m (mask_not a) ∙ ap (◌&&◌ (flag k m)) c ∙ switch_flag (flag k m) (flag k a) false

flag-switches :
    (k : ℕ) (l : List (Bool × ℕ)) (m : ℕ)
    → Complements k l
    → flag k (switches l m) ≡ decided k l (flag k m)
unfolding switches
flag-switches k [] m h = refl
flag-switches k ((b, a) ∷ l) m (c, h) =
    flag-switches k l (with_actions b a m) h ∙ ap (decided k l) (switch_one k m a b c)

action-switches :
    (k : ℕ) (l : List (Bool × ℕ)) (m : ℕ)
    → Complements k l
    → has_action (switches l m) (power k) ≡ decided k l (flag k m)
action-switches k l m h = bit_and-power k (switches l m) ∙ flag-switches k l m h

-- The switches of `updateAvailableActions`, in order.
abbrev available : MainWindow → List (Bool × ℕ)
available w =
    let s = w.screen in
    let v = s.navigation in
    let at_root = is_at_root v in
    (can_navigate_back v, back_mask)
    ∷ (can_navigate_forward v, forward_mask)
    ∷ (can_increase_detail v, more_detail_mask)
    ∷ (can_decrease_detail v, less_detail_mask)
    ∷ (can_toggle_pause s, pause_mask)
    ∷ (is_open s, refresh_mask)
    ∷ (not at_root, bit_or home_mask navigate_up_mask)
    ∷ (at_root && w.is_root_scanned, bit_or toggle_free_mask toggle_unknown_mask)
    ∷ []

available-switches :
    (w : MainWindow)
    → (update_available_actions w).enabled_actions ≡ switches (available w) w.enabled_actions
unfolding update_available_actions switches
available-switches w = elim (Bool-cases (is_at_root w.screen.navigation)) [
  | inl e ↦ rw (update_available_actions, e) refl
  | inr e ↦ rw (update_available_actions, e) refl
]

actions-mask :
    (w : MainWindow)
    → ((update_available_actions w).actions
        ≡ actions_of (update_available_actions w).enabled_actions)
      × ((update_available_actions w).pause_checked ≡ screen_paused w.screen)
      × ((update_available_actions w).screen ≡ w.screen)
unfolding update_available_actions
actions-mask w = elim (Bool-cases (is_at_root w.screen.navigation)) [
  | inl e ↦ rw (update_available_actions, e) (refl, refl, refl)
  | inr e ↦ rw (update_available_actions, e) (refl, refl, refl)
]

-- What the view of the space can do is what the actions offer.
pub record IsOffered (w : MainWindow) (a : EnabledActions) : Type 0 where
  pub back_eq : a.back_act ≡ can_navigate_back w.screen.navigation
  pub forward_eq : a.forward_act ≡ can_navigate_forward w.screen.navigation
  pub up_eq : a.up_act ≡ not (is_at_root w.screen.navigation)
  pub home_eq : a.home_act ≡ not (is_at_root w.screen.navigation)
  pub pause_eq : a.pause_act ≡ can_toggle_pause w.screen
  pub rescan_eq : a.rescan_act ≡ is_open w.screen
  pub less_eq : a.less_detail_act ≡ can_decrease_detail w.screen.navigation
  pub more_eq : a.more_detail_act ≡ can_increase_detail w.screen.navigation
  pub free_eq : a.toggle_free_act ≡ (is_at_root w.screen.navigation && w.is_root_scanned)
  pub unknown_eq : a.toggle_unknown_act ≡ (is_at_root w.screen.navigation && w.is_root_scanned)
  pub new_eq : a.new_act ≡ has_action w.enabled_actions new_scan_mask

offered : (w : MainWindow) → IsOffered w (actions_of (switches (available w) w.enabled_actions))
unfolding actions_of flag power
offered w =
    let l = available w in
    let m = w.enabled_actions in
    record {
      back_eq =
          action-switches 1 l m (refl, (refl, (refl, (refl, (refl, (refl, (refl, (refl, tt))))))));
      forward_eq =
          action-switches 2 l m (refl, (refl, (refl, (refl, (refl, (refl, (refl, (refl, tt))))))));
      up_eq =
          action-switches 3 l m (refl, (refl, (refl, (refl, (refl, (refl, (refl, (refl, tt))))))));
      home_eq =
          action-switches 4 l m (refl, (refl, (refl, (refl, (refl, (refl, (refl, (refl, tt))))))));
      pause_eq =
          action-switches 5 l m (refl, (refl, (refl, (refl, (refl, (refl, (refl, (refl, tt))))))));
      rescan_eq =
          action-switches 6 l m (refl, (refl, (refl, (refl, (refl, (refl, (refl, (refl, tt))))))));
      less_eq =
          action-switches 7 l m (refl, (refl, (refl, (refl, (refl, (refl, (refl, (refl, tt))))))));
      more_eq =
          action-switches 8 l m (refl, (refl, (refl, (refl, (refl, (refl, (refl, (refl, tt))))))));
      free_eq =
          action-switches 9 l m (refl, (refl, (refl, (refl, (refl, (refl, (refl, (refl, tt))))))));
      unknown_eq =
          action-switches 10 l m (refl, (refl, (refl, (refl, (refl, (refl, (refl, (refl, tt))))))));
      new_eq =
          action-switches 0 l m (refl, (refl, (refl, (refl, (refl, (refl, (refl, (refl, tt))))))))
          ∙ sym (bit_and-power 0 m);
    }

-- After `updateAvailableActions` every action of the window is enabled exactly when the view of the
-- space can do it, whatever was enabled before: free and unknown space only at the root of a volume.
-- The action for a new scan stays as its bit was, and the pause action is checked exactly when the
-- view is paused.
pub update_available_actions-IsOffered :
    (w : MainWindow)
    → IsOffered w (update_available_actions w).actions
      × ((update_available_actions w).pause_checked ≡ screen_paused w.screen)
update_available_actions-IsOffered w =
    let (mask, checked, same) = actions-mask w in
    (subst (IsOffered w) (sym (mask ∙ ap actions_of (available-switches w))) (offered w), checked)
