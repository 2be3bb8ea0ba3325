-- ===== src/SpaceView/Home.antt =====
-- `navigateHome` comes to its end.
use spacedisplay.Common.{
  length-pop_back, ℕ, zero, suc, ◌≤◌, ◌≡◌, refl, inl, inr, true, false, List, [], ◌∷◌, length,
  pop_back, arith, Bool-cases, Str, Option-cases,
}
use spacedisplay.FilePath.{FilePath, can_go_up, go_up}
use spacedisplay.SpaceView.{SpaceView, go_home, history_push, navigate_home, is_at_root}

length-pop_back_le :
    (fuel : ℕ) (parts : List Str) → length parts ≤ suc fuel → length (pop_back parts) ≤ fuel
length-pop_back_le fuel [] h = omega arith
length-pop_back_le fuel (s ∷ parts) h = omega (arith, length-pop_back s parts)

go_home-ends :
    (fuel : ℕ) (p : FilePath) → length p.parts ≤ fuel → can_go_up (go_home fuel p) ≡ false
unfolding go_home go_up can_go_up
go_home-ends zero p h = ground arith
go_home-ends (suc fuel) p h = elim (Bool-cases (can_go_up p)) [
  | inr e ↦ rw (go_home, e) e
  | inl e ↦
      let up : FilePath = record { parts = pop_back p.parts; path_crcs = pop_back p.path_crcs } in
      let rest = go_home-ends fuel up (length-pop_back_le fuel p.parts h) in
      rw (go_home, go_up, e) rest
]

-- After `navigateHome` the root is shown, for any path that was shown: the loop ends.
pub navigate_home-root : (v : SpaceView) → is_at_root (navigate_home v) ≡ true
unfolding navigate_home is_at_root history_push
navigate_home-root v = elim (Option-cases v.scanner_root) [
  | inl e ↦ rw (navigate_home, is_at_root, e) refl
  | inr (root, e) ↦
      let path = v.current_path in
      rw (navigate_home, is_at_root, e, go_home-ends (length path.parts) path (omega arith)) refl
]
