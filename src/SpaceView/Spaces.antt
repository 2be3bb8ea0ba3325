-- ===== src/SpaceView/Spaces.antt =====
-- The spaces that `SpaceView::getSpace` gives.
use spacedisplay.Common.{
  ◌≡◌, inl, inr, Bool, true, false, ◌&&◌, not, some, arith, Bool-cases, some_inj, subst,
  if◌then◌else◌,
}
use spacedisplay.Common.Int.{ℤ, pos, ◌+ℤ◌, ◌-ℤ◌, ◌≤ℤ◌, ltb_ℤ, int_laws}
use spacedisplay.FileDb.{get_space}
use spacedisplay.FileDb.Space.{get_space_lem}
use spacedisplay.FileViewDb.{get_files_size}
use spacedisplay.Scanner.State.{SpaceScanner}
use spacedisplay.SpaceView.{is_at_root}
use spacedisplay.SpaceView.Screen.{Screen}
use spacedisplay.SpaceView.Events.{Spaces, screen_space}

-- What is shown of `files` and `scanned` bytes, and what is hidden.
abbrev smaller : ℤ → ℤ → ℤ
smaller scanned files = if ltb_ℤ scanned files then scanned else files

abbrev rest_of : Bool → ℤ → ℤ → ℤ
rest_of b visible scanned = if ltb_ℤ visible scanned && b then scanned -ℤ visible else pos 0

smaller-le :
    (scanned files : ℤ) → (smaller scanned files ≤ℤ scanned) × (smaller scanned files ≤ℤ files)
smaller-le scanned files = (ground arith, ground arith)

rest_of_lem : (v s : ℤ) (b : Bool) → v ≤ℤ s → (pos 0 ≤ℤ rest_of b v s) × (v +ℤ rest_of b v s ≤ℤ s)
rest_of_lem v s b h = elim (Bool-cases (ltb_ℤ v s && b)) [
  | inl e ↦ rw e (omega int_laws, omega int_laws)
  | inr e ↦ rw e (omega int_laws, omega int_laws)
]

not_less : (v s : ℤ) → ltb_ℤ v s ≡ false → s ≤ℤ v
not_less v s e = ground arith

no_rest : (v s : ℤ) → v ≤ℤ s → s ≤ℤ v → v +ℤ pos 0 ≡ s
no_rest v s h k = omega int_laws

whole : (v s : ℤ) → v ≤ℤ s → v +ℤ rest_of true v s ≡ s
whole v s h = elim (Bool-cases (ltb_ℤ v s)) [
  | inl e ↦ rw e (omega int_laws)
  | inr e ↦ rw e (no_rest v s h (not_less v s e))
]

fits_sum : (x u a t : ℤ) → x ≤ℤ u → u +ℤ a ≤ℤ t → x +ℤ a ≤ℤ t
fits_sum x u a t h k = omega int_laws

-- Whatever spaces `getSpace` gives, when a scanner is open: what is visible is at most the files in
-- the view, what is hidden is not negative, and with the available space both fit into the total.
-- Below the root they are together all that was scanned.
pub screen_space-Fits :
    (s : Screen) (sc : SpaceScanner) (spaces : Spaces)
    → s.scanner ≡ some sc
    → screen_space s ≡ some spaces
    → (spaces.scanned_visible ≤ℤ get_files_size s.view_db)
      × (pos 0 ≤ℤ spaces.scanned_hidden)
      × (spaces.scanned_visible +ℤ spaces.scanned_hidden +ℤ spaces.available ≤ℤ spaces.total)
      × (is_at_root s.navigation ≡ false
          → spaces.scanned_visible +ℤ spaces.scanned_hidden ≡ (get_space sc.db).0)
unfolding screen_space
screen_space-Fits s sc spaces has e =
    let (scanned, available, total) = get_space sc.db in
    let visible = smaller scanned (get_files_size s.view_db) in
    let below_root = not (is_at_root s.navigation) in
    let (within, in_view) = smaller-le scanned (get_files_size s.view_db) in
    let (positive, below) = rest_of_lem visible scanned below_root within in
    subst
      (λ (spaces : Spaces).
        (spaces.scanned_visible ≤ℤ get_files_size s.view_db)
        × (pos 0 ≤ℤ spaces.scanned_hidden)
        × (spaces.scanned_visible +ℤ spaces.scanned_hidden +ℤ spaces.available ≤ℤ spaces.total)
        × (is_at_root s.navigation ≡ false
            → spaces.scanned_visible +ℤ spaces.scanned_hidden ≡ (get_space sc.db).0))
      (some_inj (rw (has, screen_space) at e))
      (
        in_view,
        positive,
        fits_sum _ scanned available total below (get_space_lem sc.db).0,
        λ n. rw n (whole visible scanned within),
      )
