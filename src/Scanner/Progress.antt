-- ===== src/Scanner/Progress.antt =====
-- `getScanProgress`.
use spacedisplay.Common.{
  ℕ, ◌+◌, ◌-◌, ◌*◌, ◌/◌, ◌%◌, ◌^◌, ◌≤◌, ◌<◌, ◌≡◌, ◌≢◌, ◌⊎◌, ◌↔◌, Bool, none_ne_some, some_inj, sym,
  ap, ◌∙◌, subst, refl, inl, inr, true, false, ◌&&◌, ◌||◌, Option, none, some, arith, Option-cases,
  ltb, leb, ◌==◌, Bool-cases, if◌then◌else◌,
}
use spacedisplay.Common.Int.{
  ℤ, pos, negsuc, ◌+ℤ◌, ◌-ℤ◌, ◌≤ℤ◌, ltb_ℤ, negative, scale, quotient, quotient-none, int_laws,
}
use native.Mathlib.Nat.{div-le_of_le-mul, div-eq_of_eq-mul_right}
use spacedisplay.FileDb.{FileDb, get_space}
use spacedisplay.Scanner.State.{is_scanning, is_paused, SpaceScanner}

-- The cast to a 32-bit `int`.
unfoldable to_int : ℤ → ℤ
to_int (pos a) = let m = a % 2 ^ 32 in if ltb m (2 ^ 31) then pos m else negative (2 ^ 32 - m)
to_int (negsuc a) =
    let m = (a + 1) % 2 ^ 32 in if leb m (2 ^ 31) then negative m else pos (2 ^ 32 - m)

-- `Utils::clip`.
unfoldable clip : ℤ → ℤ → ℤ → ℤ
clip n lower upper =
    let low = if ltb_ℤ upper n then upper else n in if ltb_ℤ lower low then low else lower

unfoldable pub get_scan_progress : SpaceScanner → Option ℤ
unfolding quotient to_int clip
get_scan_progress s =
    let (used, free, total) = get_space s.db in
    if (is_scanning s.scanner_status || is_paused s.scanner_status) && ltb_ℤ (pos 0) total
    then elim (quotient (scale used 100) (total -ℤ free)) [
      | none ↦ none
      | some progress ↦ some (clip (to_int progress) (pos 0) (pos 100))
    ]
    else some (pos 100)

clip-bounds : (n : ℤ) → (pos 0 ≤ℤ clip n (pos 0) (pos 100)) × (clip n (pos 0) (pos 100) ≤ℤ pos 100)
unfolding clip
clip-bounds n = ground arith

clip_small : (p : ℕ) → p ≤ 100 → clip (to_int (pos p)) (pos 0) (pos 100) ≡ pos p
unfolding clip to_int
clip_small p h = ground arith

-ℤ_pos : (t f : ℕ) → f < t → pos t -ℤ pos f ≡ pos (t - f)
unfolding ◌-ℤ◌
-ℤ_pos t f h = ground arith

-ℤ-zero : (a b : ℤ) → a -ℤ b ≡ pos 0 → a ≡ b
unfolding ◌-ℤ◌
-ℤ-zero a b e = ground arith

-- The share that `getScanProgress` computes before it is clipped.
share : FileDb → Option ℤ
unfolding get_space
share db = quotient (scale (get_space db).0 100) (db.total_space -ℤ db.available_space)

-- Whether `getScanProgress` divides.
abbrev pub is_busy : SpaceScanner → Bool
is_busy s =
    (is_scanning s.scanner_status || is_paused s.scanner_status) && ltb_ℤ (pos 0) s.db.total_space

-ℤ-self : (a : ℤ) → a -ℤ a ≡ pos 0
-ℤ-self a = omega int_laws

quotient-zero : (a : ℤ) → quotient a (pos 0) ≡ none
unfolding quotient
quotient-zero (pos a) = refl
quotient-zero (negsuc a) = refl

abbrev InRange : ℤ → Type 0
InRange p = (pos 0 ≤ℤ p) × (p ≤ℤ pos 100)

true_ne_false : true ≢ false
true_ne_false e = cc

share-zero : (db : FileDb) → db.total_space ≡ db.available_space → share db ≡ none
unfolding share
share-zero db same =
    ap (λ (n : ℤ). quotient (scale (get_space db).0 100) n)
      (ap (λ (t : ℤ). t -ℤ db.available_space) same ∙ -ℤ-self db.available_space)
    ∙ quotient-zero (scale (get_space db).0 100)

idle_lem : (s : SpaceScanner) → is_busy s ≡ false → get_scan_progress s ≡ some (pos 100)
unfolding get_scan_progress get_space
idle_lem s e = rw (get_scan_progress, get_space, e) refl

busy_lem :
    (s : SpaceScanner)
    → is_busy s ≡ true
    → ((s.db.total_space ≡ s.db.available_space) × (get_scan_progress s ≡ none))
      ⊎ ((s.db.total_space ≢ s.db.available_space)
          × ((q : ℤ) × (get_scan_progress s ≡ some (clip (to_int q) (pos 0) (pos 100)))))
unfolding get_scan_progress get_space share
busy_lem s busy = elim (Option-cases (share s.db)) [
  | inl e ↦ inl (
    -ℤ-zero s.db.total_space s.db.available_space
        (quotient-none (scale (get_space s.db).0 100) (s.db.total_space -ℤ s.db.available_space) e),
    rw (get_scan_progress, get_space, busy, e) refl,
  )
  | inr (q, e) ↦ inr (
    (λ same. none_ne_some (sym (share-zero s.db same) ∙ e)),
    (q, rw (get_scan_progress, get_space, busy, e) refl),
  )
]

-- The progress is undefined exactly when a scan runs or waits and the volume, whose size is positive,
-- is wholly free. It is 100 when no scan runs or waits or the size is not positive, and whenever it
-- is defined it is between 0 and 100.
pub get_scan_progress-bounds :
    (s : SpaceScanner)
    → ((get_scan_progress s ≡ none)
        ↔ ((is_busy s ≡ true) × (s.db.total_space ≡ s.db.available_space)))
      × (is_busy s ≡ false → get_scan_progress s ≡ some (pos 100))
      × ((p : ℤ) → get_scan_progress s ≡ some p → (pos 0 ≤ℤ p) × (p ≤ℤ pos 100))
get_scan_progress-bounds s = elim (Bool-cases (is_busy s)) [
  | inr idle ↦
      let full = idle_lem s idle in
      (
        (
          (λ n. absurd (none_ne_some (sym n ∙ full))),
          (λ h. absurd (true_ne_false (sym (h.0) ∙ idle))),
        ),
        (λ e. full),
        (λ p e. subst InRange (some_inj (sym full ∙ e)) (omega arith, omega arith)),
      )
  | inl busy ↦ elim (busy_lem s busy) [
    | inl (free, n) ↦ (
      ((λ e. (busy, free)), (λ h. n)),
      (λ idle. absurd (true_ne_false (sym busy ∙ idle))),
      (λ p e. absurd (none_ne_some (sym n ∙ e))),
    )
    | inr (used, (q, n)) ↦ (
      ((λ e. absurd (none_ne_some (sym e ∙ n))), (λ h. absurd (used (h.1)))),
      (λ idle. absurd (true_ne_false (sym busy ∙ idle))),
      (λ p e. subst InRange (some_inj (sym n ∙ e)) (clip-bounds (to_int q))),
    )
  ]
]

get_space-used :
    (db : FileDb) (u f t : ℕ)
    → db.used_space ≡ pos u
    → db.available_space ≡ pos f
    → db.total_space ≡ pos t
    → f < t
    → (get_space db).0 ≡ pos (if ltb (t - f) u then t - f else u)
unfolding get_space ◌+ℤ◌ ◌-ℤ◌
get_space-used db u f t eu ef et h = rw (get_space, eu, ef, et) (ground arith)

percent-le : (u n : ℕ) → u ≤ n → u * 100 / n ≤ 100
percent-le u n h = div-le_of_le-mul n (omega arith)

percent_all : (n : ℕ) → 0 < n → n * 100 / n ≡ 100
percent_all n h = div-eq_of_eq-mul_right h refl

-- While a scan runs or waits, on a volume of `t` bytes with `f < t` of them free, the progress is
-- what share of the used bytes was found, in percent and rounded down, and 100 when more was found.
pub get_scan_progress-percent :
    (s : SpaceScanner) (u f t : ℕ)
    → (is_scanning s.scanner_status || is_paused s.scanner_status) ≡ true
    → s.db.used_space ≡ pos u
    → s.db.available_space ≡ pos f
    → s.db.total_space ≡ pos t
    → f < t
    → get_scan_progress s ≡ some (pos (if ltb (t - f) u then 100 else u * 100 / (t - f)))
unfolding get_scan_progress get_space
get_scan_progress-percent s u f t busy eu ef et h =
    let n = t - f in
    let volume : ltb_ℤ (pos 0) (pos t) ≡ true = ground arith in
    let nonzero : (n == 0) ≡ false = ground arith in
    let used = get_space-used s.db u f t eu ef et h in
    elim (Bool-cases (ltb n u)) [
      | inl more ↦
          rw (get_scan_progress, used, busy, et, ef, volume, -ℤ_pos t f h) rw
            (nonzero, more, percent_all n (omega arith), clip_small 100 (omega arith)) refl
      | inr less ↦
          rw (get_scan_progress, used, busy, et, ef, volume, -ℤ_pos t f h) rw
            (nonzero, less, clip_small (u * 100 / n) (percent-le u n (ground arith))) refl
    ]
