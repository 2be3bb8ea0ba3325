-- ===== src/FileDb/Space.antt =====
-- The spaces that `getSpace` reports.
use spacedisplay.Common.{◌+◌, ◌<◌, ◌≡◌, refl, inl, inr, ◌⊎◌, true, false, Bool-cases, arith}
use spacedisplay.Common.Int.{ℤ, pos_part, neg_part, ◌+ℤ◌, ◌-ℤ◌, ◌≤ℤ◌, ltb_ℤ, int_laws}
use spacedisplay.FileDb.{FileDb, get_space}

less :
    (u a t : ℤ)
    → ltb_ℤ t (u +ℤ a) ≡ true
    → (t -ℤ a +ℤ a ≤ℤ t) × (t -ℤ a ≤ℤ u) × ((t -ℤ a ≡ u) ⊎ (t -ℤ a +ℤ a ≡ t))
less u a t e =
    let over : pos_part t + neg_part (u +ℤ a) < pos_part (u +ℤ a) + neg_part t = ground arith in
    (omega int_laws, omega int_laws, inr (omega int_laws))

fits : (u a t : ℤ) → ltb_ℤ t (u +ℤ a) ≡ false → u +ℤ a ≤ℤ t
fits u a t e = ground arith

-- The spaces that `getSpace` reports as used and available never exceed the total; the used space
-- is at most what is stored, and is either that or fills up the total.
pub get_space_lem :
    (db : FileDb)
    → let (used, available, total) = get_space db in
      (used +ℤ available ≤ℤ total)
      × (used ≤ℤ db.used_space)
      × ((used ≡ db.used_space) ⊎ (used +ℤ available ≡ total))
unfolding get_space
get_space_lem db = elim (Bool-cases (ltb_ℤ db.total_space (db.used_space +ℤ db.available_space))) [
  | inl t ↦ rw t (less db.used_space db.available_space db.total_space t)
  | inr t ↦ rw t (fits db.used_space db.available_space db.total_space t, omega arith, inl refl)
]
