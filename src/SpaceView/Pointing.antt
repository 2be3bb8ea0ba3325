-- ===== src/SpaceView/Pointing.antt =====
-- The view under the mouse and the view that is scanned.
use spacedisplay.Common.{
  ◌+◌, ◌≤◌, ◌≡◌, refl, ap, sym, ◌∙◌, ◌⊎◌, inl, inr, Bool, true, Option, none, some, List, [], ◌∷◌,
  back, length, not, ◌==◌, subst, some_inj, none_ne_some, Bool-cases, Option-cases,
}
use spacedisplay.FilePath.{ok, FilePath}
use spacedisplay.FilePath.Results.{Result-cases}
use spacedisplay.FilePath.Validity.{IsValid}
use spacedisplay.View.Tree.{View, fields_of, get_path}
use spacedisplay.View.Closest.{IsTrail, get_path-closest}
use spacedisplay.SpaceView.Screen.{
  Desk, Screen, is_entry, point_nowhere, point_at, point, trail_of_mouse, update_hovered_view,
  scanned_view, update_scanned_view,
}

-- The path that is hovered is the path that is shown, extended by the names of the views down to
-- the one under the mouse, whose id is kept; or neither a path nor an id is kept.
abbrev pub IsPointed : Desk → Option (List View) → Screen → Type 0
IsPointed d trail s =
    ((s.hovered_path ≡ none) × (s.hovered_id ≡ 0))
    ⊎ ((u : View) × (t : List View) × (path : FilePath) × (trail ≡ some (u ∷ t))
        × (is_entry (fields_of (back u t)).entry_type ≡ true)
        × (get_path d.host (u ∷ t) s.navigation.current_path ≡ ok path)
        × (s.hovered_path ≡ some path)
        × (s.hovered_id ≡ (fields_of (back u t)).id))

module _ (d : Desk) (s : Screen) where
  nowhere-IsPointed : (trail : Option (List View)) → IsPointed d trail (point_nowhere d s)
  unfolding point_nowhere
  nowhere-IsPointed trail = inl (refl, refl)

  pub point-at :
      (u : View) (t : List View) (path : FilePath)
      → is_entry (fields_of (back u t)).entry_type ≡ true
      → get_path d.host (u ∷ t) s.navigation.current_path ≡ ok path
      → point d (some (u ∷ t)) s ≡ some (point_at d (back u t) path s)
  unfolding point
  point-at u t path e p = rw (point, e, p) refl

  point-IsPointed :
      (trail : Option (List View)) (r : Screen) → point d trail s ≡ some r → IsPointed d trail r
  unfolding point
  point-IsPointed none r e = subst (IsPointed d none) (some_inj e) (nowhere-IsPointed none)
  point-IsPointed (some []) r e =
      subst (IsPointed d (some [])) (some_inj e) (nowhere-IsPointed (some []))
  point-IsPointed (some (u ∷ t)) r e =
      elim (Bool-cases (is_entry (fields_of (back u t)).entry_type)) [
        | inr no_path ↦
            subst (IsPointed d (some (u ∷ t))) (some_inj (rw (no_path, point) at e))
              (nowhere-IsPointed (some (u ∷ t)))
        | inl entry ↦ elim (Result-cases (get_path d.host (u ∷ t) s.navigation.current_path)) [
          | inl f ↦ absurd (none_ne_some (rw (entry, f, point) at e))
          | inr (path, f) ↦
              subst (IsPointed d (some (u ∷ t))) (some_inj (sym (point-at u t path entry f) ∙ e)) (
                inr (
                  u,
                  t,
                  path,
                  refl,
                  entry,
                  unfold point_at in f,
                  unfold point_at in refl,
                  unfold point_at in refl,
                ))
        ]
      ]

-- What is pointed at is what lies under the mouse, whatever was pointed at before.
pub update_hovered_view-IsPointed :
    (d : Desk) (s r : Screen) (changed : Bool)
    → update_hovered_view d s ≡ some (r, changed)
    → IsPointed d (trail_of_mouse s) r
unfolding update_hovered_view
update_hovered_view-IsPointed d s r changed e = elim (Option-cases (point d (trail_of_mouse s) s)) [
  | inl f ↦ absurd (none_ne_some (rw (f, update_hovered_view) at e))
  | inr (q, f) ↦
      let same : q ≡ r =
        ap (λ (o : Screen × Bool). o.0) (some_inj (rw (f, update_hovered_view) at e)) in
      point-IsPointed d s (trail_of_mouse s) r (f ∙ ap (λ (x : Screen). some x) same)
]

-- When the scanner comes to the path that is hovered, the view that is marked as scanned is the
-- view under the mouse: `updateHoveredView` makes a path of the view, and `updateScannedView` finds
-- the view by the path, when the view lies within the depth and each view on the way to it is the
-- first one of its name, among its siblings, that is more than ten pixels wide and high.
pub update_hovered_view-update_scanned_view :
    (d : Desk) (s : Screen) (root u : View) (t : List View) (path : FilePath)
    → s.view_db.root_file ≡ some root
    → s.view_db.view_path ≡ some s.navigation.current_path
    → trail_of_mouse s ≡ some (u ∷ t)
    → is_entry (fields_of (back u t)).entry_type ≡ true
    → get_path d.host (u ∷ t) s.navigation.current_path ≡ ok path
    → IsValid d.host s.navigation.current_path
    → IsTrail d.host root (u ∷ t)
    → length (u ∷ t) ≤ s.navigation.current_depth + 1
    → (r : Screen) × (changed : Bool) × (update_hovered_view d s ≡ some (r, changed))
      × (r.hovered_path ≡ some path)
      × ((update_scanned_view d (record r { scanned_path = r.hovered_path })).scanned_id
          ≡ r.hovered_id)
unfolding update_hovered_view point_at update_scanned_view scanned_view
update_hovered_view-update_scanned_view d s root u t path shows at_path trail entry p valid down l =
    let r = point_at d (back u t) path s in
    let found =
      get_path-closest d.host s.navigation.current_path path root u t
        (s.navigation.current_depth + 1) valid down p l in
    (
      r,
      not (s.hovered_id == r.hovered_id),
      rw (update_hovered_view, trail, point-at d s u t path entry p) refl,
      refl,
      rw (update_scanned_view, scanned_view, shows, at_path, found) refl,
    )
