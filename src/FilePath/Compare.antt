-- ===== src/FilePath/Compare.antt =====
-- `FilePath::compareTo` decides how the lists of parts are related, and `makeRelativeTo` removes
-- the common parts.
use spacedisplay.Common.{
  ℕ, suc, ◌-◌, ◌≤◌, ◌<◌, bit_xor, ◌≡◌, refl, ap, subst, ◌≢◌, ◌⊎◌, inl, inr, true, false, List, [],
  ◌∷◌, ◌++◌, arith, ◌==◌, Bool-cases, if◌then◌else◌, length, get_or, drop, back, Str, str_eq,
  str_eq_iff, str_eq_sound, drop-append,
}
use spacedisplay.FilePath.{
  Host, str_crc16, FilePath, CompareResult, parent, child, different, equal, same_parts, compare_to,
  make_relative_to,
}
use spacedisplay.FilePath.Validity.{IsValid, Parts, part_crc, crcs_from, crcs_of}

-- How two lists of parts are related, by their parts alone.
pub compare_parts : List Str → List Str → CompareResult
compare_parts [] [] = equal
compare_parts [] (y ∷ ys) = parent
compare_parts (x ∷ xs) [] = child
compare_parts (x ∷ xs) (y ∷ ys) = if str_eq x y then compare_parts xs ys else different

same_parts_sound : (xs ys : List Str) → same_parts xs ys ≡ true → (zs : List Str) × (ys ≡ xs ++ zs)
unfolding same_parts
same_parts_sound [] ys e = (ys, refl)
same_parts_sound (x ∷ xs) [] e = cc
same_parts_sound (x ∷ xs) (y ∷ ys) e =
    let (zs, p) = same_parts_sound xs ys (ground arith) in (zs, ground (arith, str_eq_sound x y))

-- The lengths and the test of the parts decide the relation.
compare_parts_shorter :
    (xs ys : List Str)
    → length xs < length ys
    → compare_parts xs ys ≡ (if same_parts xs ys then parent else different)
unfolding same_parts compare_parts
compare_parts_shorter [] [] l = absurd (omega arith)
compare_parts_shorter [] (y ∷ ys) l = refl
compare_parts_shorter (x ∷ xs) [] l = absurd (omega arith)
compare_parts_shorter (x ∷ xs) (y ∷ ys) l =
    ground (arith, compare_parts_shorter xs ys (omega arith))

compare_parts_longer :
    (xs ys : List Str)
    → length ys ≤ length xs
    → compare_parts xs ys
      ≡ (if same_parts ys xs then if length xs == length ys then equal else child else different)
unfolding same_parts compare_parts
compare_parts_longer [] [] l = refl
compare_parts_longer [] (y ∷ ys) l = absurd (omega arith)
compare_parts_longer (x ∷ xs) [] l = ground arith
compare_parts_longer (x ∷ xs) (y ∷ ys) l =
    ground (arith, compare_parts_longer xs ys (omega arith), str_eq_iff x y, str_eq_iff y x)

module _ (h : Host) where
  -- The checksum at the end of a prefix stands at its index in the longer path.
  crcs_from-prefix :
      (c d : ℕ) (qs zs : List Str)
      → get_or (c ∷ crcs_from h c (qs ++ zs)) (length qs) d ≡ back d (c ∷ crcs_from h c qs)
  unfolding crcs_from
  crcs_from-prefix c d [] zs = refl
  crcs_from-prefix c d (q ∷ qs) zs = crcs_from-prefix (bit_xor c (part_crc h q)) d qs zs

  crcs_of-prefix :
      (xs zs : List Str)
      → xs ≢ []
      → get_or (crcs_of h (xs ++ zs)) (length xs - 1) 0 ≡ back 0 (crcs_of h xs)
  unfolding crcs_of
  crcs_of-prefix [] zs n = absurd (n refl)
  crcs_of-prefix (r ∷ qs) zs n =
      rw (let e : suc (length qs) - 1 ≡ length qs = omega arith in e)
        (crcs_from-prefix (str_crc16 h r) 0 qs zs)

  -- So the test of the checksums rejects nothing that the test of the parts accepts.
  crc_test :
      (xs ys : List Str)
      → xs ≢ []
      → same_parts xs ys ≡ true
      → get_or (crcs_of h ys) (length xs - 1) 0 ≡ back 0 (crcs_of h xs)
  crc_test xs ys n e = let (zs, p) = same_parts_sound xs ys e in rw p (crcs_of-prefix xs zs n)

  module _ (p q : FilePath) (vp : IsValid h p) (vq : IsValid h q) where
    parts-ne-nil : (r : FilePath) → IsValid h r → r.parts ≢ []
    parts-ne-nil r v e = subst (Parts h) e v.names

    shorter_test :
        same_parts p.parts q.parts ≡ true
        → get_or q.path_crcs (length p.parts - 1) 0 ≡ back 0 p.path_crcs
    shorter_test e = rw (vp.crcs, vq.crcs) (crc_test p.parts q.parts (parts-ne-nil p vp) e)

    longer_test :
        same_parts q.parts p.parts ≡ true
        → get_or p.path_crcs (length q.parts - 1) 0 ≡ back 0 q.path_crcs
    longer_test e = rw (vp.crcs, vq.crcs) (crc_test q.parts p.parts (parts-ne-nil q vq) e)

    -- On valid paths the checksums only save time: the result is the relation of the parts.
    pub compare_to_lem : compare_to p q ≡ compare_parts p.parts q.parts
    unfolding compare_to
    compare_to_lem = ground (
      arith,
      compare_parts_shorter p.parts q.parts,
      compare_parts_longer p.parts q.parts,
      shorter_test,
      longer_test,
    )

-- What each result of a comparison says of the two lists of parts.
abbrev pub Related : CompareResult → List Str → List Str → Type 0
Related parent xs ys = (z : Str) × (zs : List Str) × (ys ≡ xs ++ z ∷ zs)
Related child xs ys = (z : Str) × (zs : List Str) × (xs ≡ ys ++ z ∷ zs)
Related equal xs ys = xs ≡ ys
Related different xs ys = ((zs : List Str) → ys ≢ xs ++ zs) × ((zs : List Str) → xs ≢ ys ++ zs)

Related-cons :
    (r : CompareResult) (x : Str) (xs ys : List Str) → Related r xs ys → Related r (x ∷ xs) (x ∷ ys)
Related-cons parent x xs ys (z, zs, e) = (z, zs, ap (◌∷◌ x) e)
Related-cons child x xs ys (z, zs, e) = (z, zs, ap (◌∷◌ x) e)
Related-cons equal x xs ys e = ap (◌∷◌ x) e
Related-cons different x xs ys (n, m) = (λ zs e. n zs (cc), λ zs e. m zs (cc))

compare_parts-Related : (xs ys : List Str) → Related (compare_parts xs ys) xs ys
unfolding compare_parts
compare_parts-Related [] [] = refl
compare_parts-Related [] (y ∷ ys) = (y, ys, refl)
compare_parts-Related (x ∷ xs) [] = (x, xs, refl)
compare_parts-Related (x ∷ xs) (y ∷ ys) = elim (Bool-cases (str_eq x y)) [
  | inl e ↦ rw e (
      subst (λ (t : Str). Related (compare_parts xs ys) (x ∷ xs) (t ∷ ys)) (str_eq_sound x y e)
        (Related-cons (compare_parts xs ys) x xs ys (compare_parts-Related xs ys)))
  | inr e ↦
      let apart : x ≢ y = λ p. absurd (ground (arith, str_eq_iff x y)) in
      rw e (λ zs p. apart (cc), λ zs p. apart (cc))
]

-- `PARENT` turns into `CHILD` and back when the paths are exchanged.
abbrev pub flip : CompareResult → CompareResult
flip parent = child
flip child = parent
flip different = different
flip equal = equal

compare_parts-flip : (xs ys : List Str) → compare_parts ys xs ≡ flip (compare_parts xs ys)
unfolding compare_parts
compare_parts-flip [] [] = refl
compare_parts-flip [] (y ∷ ys) = refl
compare_parts-flip (x ∷ xs) [] = refl
compare_parts-flip (x ∷ xs) (y ∷ ys) =
    ground (arith, compare_parts-flip xs ys, str_eq_iff x y, str_eq_iff y x)

module _ (h : Host) (p q : FilePath) (vp : IsValid h p) (vq : IsValid h q) where
  -- On valid paths `compareTo` answers PARENT exactly when this path's parts are a proper prefix
  -- of the other's, CHILD exactly when the other's are one of this path's, EQUAL when the parts
  -- are the same, and DIFFERENT when neither list is a prefix of the other.
  pub compare_to-Related : Related (compare_to p q) p.parts q.parts
  compare_to-Related = rw (compare_to_lem h p q vp vq) (compare_parts-Related p.parts q.parts)

  pub compare_to-flip : compare_to q p ≡ flip (compare_to p q)
  compare_to-flip =
      rw (compare_to_lem h p q vp vq, compare_to_lem h q p vq vp)
        (compare_parts-flip p.parts q.parts)

  -- `makeRelativeTo` succeeds exactly on a child, and leaves the parts that follow the other
  -- path's; otherwise this path stays as it was.
  pub make_relative_to_lem :
      ((compare_to p q ≡ child)
        × (r : FilePath) × (make_relative_to p q ≡ (r, true))
        × (r.parts ≢ [])
        × (p.parts ≡ q.parts ++ r.parts))
      ⊎ ((compare_to p q ≢ child) × (make_relative_to p q ≡ (p, false)))
  unfolding make_relative_to
  make_relative_to_lem = go (compare_to p q) refl compare_to-Related
    where
      go :
          (c : CompareResult)
          → compare_to p q ≡ c
          → Related c p.parts q.parts
          → ((compare_to p q ≡ child)
              × (r : FilePath) × (make_relative_to p q ≡ (r, true))
              × (r.parts ≢ [])
              × (p.parts ≡ q.parts ++ r.parts))
            ⊎ ((compare_to p q ≢ child) × (make_relative_to p q ≡ (p, false)))
      go child e (z, zs, f) = inl (
        e,
        record { parts = z ∷ zs; path_crcs = drop (length q.parts) p.path_crcs },
        ground (arith, drop-append q.parts (z ∷ zs)),
        (λ n. cc),
        f,
      )
      go parent e f = inr ((λ n. cc), ground arith)
      go different e f = inr ((λ n. cc), ground arith)
      go equal e f = inr ((λ n. cc), ground arith)
