-- ===== src/FilePath/Methods.antt =====
-- What `addDir`, `addFile`, `goUp`, `getName` and `isDir` do on a valid path.
use spacedisplay.Common.{
  ℕ, suc, ◌≡◌, refl, sym, ap, subst, ◌∙◌, ◌≢◌, ◌↔◌, ◌⊎◌, inl, inr, Bool, true, false, List, [], ◌∷◌,
  arith, ◌==◌, ==_iff, Bool-cases, if◌then◌else◌, length, length-push_back_lt, back, back-append,
  pop_back, pop_back-push_back, push_back, Str,
}
use spacedisplay.FilePath.{
  Host, separator, str_crc16, FilePath, ok, err, crc_or_default, push_part, is_dir, add_dir,
  add_file, go_up, get_name,
}
use spacedisplay.FilePath.Validity.{
  NoSlash, Names, Parts, part_crc_dir, part_crc_file, IsValid, crcs_of, Names-pop, crcs_from-pop,
  NoSlash-back, file_not_dir, push_part-IsValid,
}

-- A checksum that is left to be computed, or that was computed from the name.
abbrev pub IsCrcOf : Host → Str → ℕ → Type 0
IsCrcOf h s crc = (crc ≡ 0) ⊎ (crc ≡ str_crc16 h s)

module _ (h : Host) where
  pub crc_or_default_lem :
      (s : Str) (crc : ℕ) → IsCrcOf h s crc → crc_or_default h s crc ≡ str_crc16 h s
  unfolding crc_or_default
  crc_or_default_lem s crc (inl e) = ground arith
  crc_or_default_lem s crc (inr e) = ground arith

  pub is_dir-push_part :
      (p : FilePath) (x : Str) (crc : ℕ) → is_dir h (push_part p x crc) ≡ (back 0 x == separator h)
  unfolding is_dir push_part
  is_dir-push_part p x crc = rw (back-append [] p.parts x [])

  go_up-push_part :
      (p : FilePath) (x : Str) (crc : ℕ) → p.parts ≢ [] → go_up (push_part p x crc) ≡ (p, true)
  unfolding go_up push_part
  go_up-push_part p x crc ne =
      rw (pop_back-push_back p.parts x, pop_back-push_back p.path_crcs)
        (ground (arith, length-push_back_lt p.parts x ne))

  get_name-push_part :
      (p : FilePath) (x : Str) (crc : ℕ)
      → p.parts ≢ []
      → get_name h (push_part p x crc) ≡ (if back 0 x == separator h then pop_back x else x)
  unfolding get_name push_part
  get_name-push_part p x crc ne =
      rw (back-append [] p.parts x []) (ground (arith, length-push_back_lt p.parts x ne))

  parts-ne-nil : (p : FilePath) → IsValid h p → p.parts ≢ []
  parts-ne-nil p v e = subst (Parts h) e v.names

  -- What a path looks like after a name was added to it.
  pub record IsExtended (p q : FilePath) (s : Str) (dir : Bool) : Type 0 where
    pub valid : IsValid h q
    pub is_dir_eq : is_dir h q ≡ dir
    pub name_eq : get_name h q ≡ s
    pub up_eq : go_up q ≡ (p, true)

  module _ (p : FilePath) (c : ℕ) (s : Str) (crc : ℕ) where
    -- A valid directory path takes a name that is not empty and has no slash as a directory: the
    -- result is valid, is a directory with that name, and `goUp` leads back. Nothing throws.
    pub add_dir_lem :
        IsValid h p
        → NoSlash h (c ∷ s)
        → IsCrcOf h (c ∷ s) crc
        → is_dir h p ≡ true
        → (q : FilePath) × (add_dir h p (c ∷ s) crc ≡ ok q) × IsExtended p q (c ∷ s) true
    unfolding add_dir
    add_dir_lem v n hc d = (
      push_part p (push_back (c ∷ s) (separator h)) (str_crc16 h (c ∷ s)),
      rw (d, crc_or_default_lem (c ∷ s) crc hc) (ground (arith, NoSlash-back h c s n.1 n.0)),
      record {
        valid = rw (← part_crc_dir h (c ∷ s)) (push_part-IsValid h p _ v d (inl (c ∷ s, n, refl)));
        is_dir_eq =
            is_dir-push_part p _ (str_crc16 h (c ∷ s))
            ∙ rw (back-append 0 (c ∷ s) (separator h) []) (ground arith);
        name_eq =
            get_name-push_part p _ _ (parts-ne-nil p v)
            ∙ rw (back-append 0 (c ∷ s) (separator h) [], pop_back-push_back (c ∷ s))
                (ground arith);
        up_eq = go_up-push_part p _ _ (parts-ne-nil p v);
      },
    )

    pub add_file_lem :
        IsValid h p
        → NoSlash h (c ∷ s)
        → IsCrcOf h (c ∷ s) crc
        → is_dir h p ≡ true
        → (q : FilePath) × (add_file h p (c ∷ s) crc ≡ ok q) × IsExtended p q (c ∷ s) false
    unfolding add_file
    add_file_lem v n hc d = (
      push_part p (c ∷ s) (str_crc16 h (c ∷ s)),
      rw (d, crc_or_default_lem (c ∷ s) crc hc),
      record {
        valid =
            rw (← part_crc_file h (c ∷ s) (file_not_dir h (c ∷ s) (λ e. cc, n)))
              (push_part-IsValid h p _ v d (inr (λ e. cc, n)));
        is_dir_eq =
            is_dir-push_part p _ (str_crc16 h (c ∷ s)) ∙ ground (arith, NoSlash-back h c s n.1 n.0);
        name_eq =
            get_name-push_part p _ _ (parts-ne-nil p v)
            ∙ ground (arith, NoSlash-back h c s n.1 n.0);
        up_eq = go_up-push_part p _ _ (parts-ne-nil p v);
      },
    )

  -- `addDir` and `addFile` throw exactly on an empty name or on a path to a file.
  pub add_errors :
      (p : FilePath) (s : Str) (crc : ℕ)
      → ((add_dir h p s crc ≡ err) ↔ ((s ≡ []) ⊎ (is_dir h p ≡ false)))
        × ((add_file h p s crc ≡ err) ↔ ((s ≡ []) ⊎ (is_dir h p ≡ false)))
  unfolding add_dir add_file
  add_errors p [] crc = ((λ e. inl refl, λ e. refl), (λ e. inl refl, λ e. refl))
  add_errors p (c ∷ s) crc = elim (Bool-cases (is_dir h p)) [
    | inl e ↦ ground (arith)
    | inr e ↦ ground (arith)
  ]

  parent_is_dir :
      (r q : Str) (qs : List Str)
      → back 0 r ≡ separator h
      → Names h (q ∷ qs)
      → back 0 (back r (pop_back (q ∷ qs))) ≡ separator h
  parent_is_dir r q [] e n = e
  parent_is_dir r q (q' ∷ qs) e ((name, _, d), n) =
      parent_is_dir q q' qs (rw d (back-append 0 name (separator h) [])) n

  length-pop_back : (r q : Str) (qs : List Str) → length (pop_back (r ∷ q ∷ qs)) ≡ suc (length qs)
  length-pop_back r q [] = refl
  length-pop_back r q (q' ∷ qs) = ap suc (length-pop_back q q' qs)

  -- `goUp` on a valid path: at the root nothing changes; below it the result is a valid directory
  -- path with one part less.
  pub go_up_lem :
      (p : FilePath)
      → IsValid h p
      → ((length p.parts ≡ 1) × (go_up p ≡ (p, false)))
        ⊎ ((q : FilePath) × (go_up p ≡ (q, true))
            × IsValid h q
            × (is_dir h q ≡ true)
            × (length p.parts ≡ suc (length q.parts)))
  unfolding go_up is_dir crcs_of
  go_up_lem p v = go p.parts p.path_crcs v.names v.crcs
    where
      go :
          (ps : List Str) (cs : List ℕ)
          → Parts h ps
          → cs ≡ crcs_of h ps
          → let p : FilePath = record { parts = ps; path_crcs = cs } in
            ((length ps ≡ 1) × (go_up p ≡ (p, false)))
            ⊎ ((q : FilePath) × (go_up p ≡ (q, true))
                × IsValid h q
                × (is_dir h q ≡ true)
                × (length ps ≡ suc (length q.parts)))
      go [] cs n c = absurd n
      go (r ∷ []) cs n c = inl (refl, refl)
      go (r ∷ q ∷ qs) cs n c = inr (
        record { parts = pop_back (r ∷ q ∷ qs); path_crcs = pop_back cs },
        ground arith,
        record {
          names = (n.0, Names-pop h (q ∷ qs) n.1);
          crcs = rw c (ap (◌∷◌ (str_crc16 h r)) (sym (crcs_from-pop h (str_crc16 h r) (q ∷ qs))));
        },
        (==_iff _ _).1 (parent_is_dir r q qs n.0 n.1),
        ap suc (sym (length-pop_back r q qs)),
      )
