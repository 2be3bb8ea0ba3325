-- ===== src/FilePath/Validity.antt =====
-- The comment on `FilePath::parts` and `pathCrcs` as an invariant, which the constructors
-- establish and the methods keep.
use spacedisplay.Common.{
  ℕ, suc, bit_xor, ◌≡◌, refl, sym, ap, ◌≢◌, ◌⊎◌, inl, inr, true, List, [], ◌∷◌, arith, ◌==◌, ==_iff,
  if◌then◌else◌, length, back, back-append, pop_back, pop_back-push_back, push_back, Str, All,
}
use spacedisplay.FilePath.{Host, separator, str_crc16, FilePath, push_part, is_dir}

module _ (h : Host) where
  abbrev pub NoSlash : Str → Type 0
  NoSlash s = All (λ c. c ≢ separator h) s

  -- A directory's name with its slash, and a file's name.
  abbrev pub IsDirPart : Str → Type 0
  IsDirPart x = (name : Str) × NoSlash name × (x ≡ push_back name (separator h))

  abbrev pub IsFilePart : Str → Type 0
  IsFilePart x = (x ≢ []) × NoSlash x

  -- Only the last part can be a file.
  abbrev pub Names : List Str → Type 0
  Names [] = Unit {0}
  Names (x ∷ []) = IsDirPart x ⊎ IsFilePart x
  Names (x ∷ y ∷ xs) = IsDirPart x × Names (y ∷ xs)

  -- The slash at the end of a directory does not count in its checksum.
  unfoldable pub part_crc : Str → ℕ
  part_crc x = str_crc16 h (if back 0 x == separator h then pop_back x else x)

  unfoldable pub crcs_from : ℕ → List Str → List ℕ
  unfolding part_crc
  crcs_from crc [] = []
  crcs_from crc (x ∷ xs) = bit_xor crc (part_crc x) ∷ crcs_from (bit_xor crc (part_crc x)) xs

  -- The checksums of all prefixes of a path; in the root, the slash does count.
  unfoldable pub crcs_of : List Str → List ℕ
  unfolding crcs_from
  crcs_of [] = []
  crcs_of (r ∷ xs) = str_crc16 h r ∷ crcs_from (str_crc16 h r) xs

  abbrev pub Parts : List Str → Type 0
  Parts [] = ⊥
  Parts (r ∷ xs) = (back 0 r ≡ separator h) × Names xs

  pub record IsValid (p : FilePath) : Type 0 where
    pub names : Parts p.parts
    pub crcs : p.path_crcs ≡ crcs_of p.parts

  pub NoSlash-back : (d : ℕ) (s : Str) → NoSlash s → d ≢ separator h → back d s ≢ separator h
  NoSlash-back d [] n e = e
  NoSlash-back d (c ∷ s) n e = NoSlash-back c s n.1 n.0

  pub file_not_dir : (x : Str) → IsFilePart x → back 0 x ≢ separator h
  file_not_dir [] f e = f.0 refl
  file_not_dir (c ∷ s) f e = NoSlash-back c s f.1.1 f.1.0 e

  Names-push :
      (r x : Str) (qs : List Str)
      → back 0 (back r qs) ≡ separator h
      → Names qs
      → IsDirPart x ⊎ IsFilePart x
      → Names (push_back qs x)
  Names-push r x [] e n f = f
  Names-push r x (q ∷ []) e (inl d) f = (d, f)
  Names-push r x (q ∷ []) e (inr g) f = absurd (file_not_dir q g e)
  Names-push r x (q ∷ q' ∷ qs) e n f = (n.0, Names-push q x (q' ∷ qs) e n.1 f)

  pub Names-pop : (qs : List Str) → Names qs → Names (pop_back qs)
  Names-pop [] n = tt
  Names-pop (q ∷ []) n = tt
  Names-pop (q ∷ q' ∷ []) n = inl n.0
  Names-pop (q ∷ q' ∷ q'' ∷ qs) n = (n.0, Names-pop (q' ∷ q'' ∷ qs) n.1)

  crcs_from-push :
      (c : ℕ) (qs : List Str) (x : Str)
      → crcs_from c (push_back qs x)
        ≡ push_back (crcs_from c qs) (bit_xor (back c (crcs_from c qs)) (part_crc x))
  unfolding crcs_from
  crcs_from-push c [] x = refl
  crcs_from-push c (q ∷ qs) x =
      ap (◌∷◌ (bit_xor c (part_crc q))) (crcs_from-push (bit_xor c (part_crc q)) qs x)

  pub crcs_from-pop :
      (c : ℕ) (qs : List Str) → crcs_from c (pop_back qs) ≡ pop_back (crcs_from c qs)
  unfolding crcs_from
  crcs_from-pop c [] = refl
  crcs_from-pop c (q ∷ []) = refl
  crcs_from-pop c (q ∷ q' ∷ qs) =
      ap (◌∷◌ (bit_xor c (part_crc q))) (crcs_from-pop (bit_xor c (part_crc q)) (q' ∷ qs))

  pub length-crcs_from : (c : ℕ) (qs : List Str) → length (crcs_from c qs) ≡ length qs
  unfolding crcs_from
  length-crcs_from c [] = refl
  length-crcs_from c (q ∷ qs) = ap suc (length-crcs_from (bit_xor c (part_crc q)) qs)

  -- A push with the checksum of the part.
  pub push_part-IsValid :
      (p : FilePath) (x : Str)
      → IsValid p
      → is_dir h p ≡ true
      → IsDirPart x ⊎ IsFilePart x
      → IsValid (push_part p x (part_crc x))
  unfolding push_part is_dir crcs_of
  push_part-IsValid p x v e f = go p.parts p.path_crcs e v.names v.crcs
    where
      go :
          (ps : List Str) (cs : List ℕ)
          → (back 0 (back [] ps) == separator h) ≡ true
          → Parts ps
          → cs ≡ crcs_of ps
          → IsValid (push_part (record { parts = ps; path_crcs = cs }) x (part_crc x))
      go [] cs e n c = absurd n
      go (r ∷ qs) cs e n c = record {
        names = (n.0, Names-push r x qs ((==_iff _ _).0 e) n.1 f);
        crcs = rw c (ap (◌∷◌ (str_crc16 h r)) (sym (crcs_from-push (str_crc16 h r) qs x)));
      }

  pub part_crc_dir : (s : Str) → part_crc (push_back s (separator h)) ≡ str_crc16 h s
  unfolding part_crc
  part_crc_dir s =
      rw (back-append 0 s (separator h) [], pop_back-push_back s) (ap (str_crc16 h) (ground arith))

  pub part_crc_file : (s : Str) → back 0 s ≢ separator h → part_crc s ≡ str_crc16 h s
  unfolding part_crc
  part_crc_file s n = ap (str_crc16 h) (ground arith)
