-- ===== src/FilePath/Reparse.antt =====
-- A path that is printed with `getPath` and constructed again from that string and its root.
use mathlib.Core.List.{append-nil, append_assoc}
use spacedisplay.Common.{
  ℕ, zero, suc, ◌+◌, ◌≤◌, ◌<◌, bit_xor, ◌≡◌, refl, sym, ap, ◌∙◌, ◌≢◌, inl, inr, true, List, [], ◌∷◌,
  ◌++◌, arith, length, length-append, back, back-append, push_back, get_or, Str, starts_with-append,
}
use spacedisplay.FilePath.{
  Host, separator, str_crc16, FilePath, ok, push_part, split_parts, concat, get_path, get_root,
  from_path, split_root, normalize, add_slash,
}
use spacedisplay.FilePath.Validity.{
  NoSlash, Names, Parts, part_crc, part_crc_dir, part_crc_file, IsValid, crcs_from, crcs_of,
  file_not_dir,
}
use spacedisplay.FilePath.Normalize.{separator-pos}
use spacedisplay.FilePath.Roundtrip.{
  split_first-dir, split_first-file, split_parts-file, split_parts-dir, split_root-ok,
  slash_handling, start,
}

module _ (h : Host) where
  split_parts-front :
      (fuel : ℕ) (d r : Str) (p : FilePath)
      → NoSlash h d
      → split_parts h (suc fuel) (push_back d (separator h) ++ r) p
        ≡ split_parts h fuel r (push_part p (push_back d (separator h)) (str_crc16 h d))
  split_parts-front fuel [] r p n =
      split_parts-dir h fuel (separator h) r [] r p (split_first-dir h [] r tt)
  split_parts-front fuel (c ∷ d) r p n =
      split_parts-dir h fuel c (push_back d (separator h) ++ r) (c ∷ d) r p
        (split_first-dir h (c ∷ d) r n)

  -- What the loop makes of the names that are printed.
  abbrev pushed : FilePath → List Str → FilePath
  pushed p qs = record {
    parts = p.parts ++ qs;
    path_crcs = p.path_crcs ++ crcs_from h (back 0 p.path_crcs) qs;
  }

  pushed-nil : (p : FilePath) → pushed p [] ≡ p
  unfolding crcs_from
  pushed-nil p = λ i. record { parts = append-nil p.parts i; path_crcs = append-nil p.path_crcs i }

  pushed-cons :
      (p : FilePath) (x : Str) (crc : ℕ) (qs : List Str)
      → crc ≡ part_crc h x
      → pushed (push_part p x crc) qs ≡ pushed p (x ∷ qs)
  unfolding crcs_from push_part
  pushed-cons p x crc qs e =
      rw (e, back-append 0 p.path_crcs (bit_xor (back 0 p.path_crcs) (part_crc h x)) [])
        (λ i. record {
          parts = append_assoc p.parts (x ∷ []) qs i;
          path_crcs =
              append_assoc p.path_crcs (bit_xor (back 0 p.path_crcs) (part_crc h x) ∷ [])
                (crcs_from h (bit_xor (back 0 p.path_crcs) (part_crc h x)) qs) i;
        })

  length-dir : (x d : Str) → x ≡ push_back d (separator h) → 0 < length x
  length-dir x d e = omega (arith, ap length e, length-append d (separator h ∷ []))

  part_pos : (x : Str) (qs : List Str) → Names h (x ∷ qs) → 0 < length x
  part_pos x [] (inl (d, _, e)) = length-dir x d e
  part_pos [] [] (inr f) = absurd (f.0 refl)
  part_pos (c ∷ s) [] (inr f) = omega arith
  part_pos x (y ∷ qs) ((d, _, e), _) = length-dir x d e

  reparse_dir :
      (fuel : ℕ) (d : Str) (qs : List Str) (p : FilePath)
      → NoSlash h d
      → (let q = push_part p (push_back d (separator h)) (str_crc16 h d) in
          split_parts h fuel (concat qs) q ≡ pushed q qs)
      → split_parts h (suc fuel) (concat (push_back d (separator h) ∷ qs)) p
        ≡ pushed p (push_back d (separator h) ∷ qs)
  unfolding concat
  reparse_dir fuel d qs p n ih =
      split_parts-front fuel d (concat qs) p n
      ∙ ih
      ∙ pushed-cons p (push_back d (separator h)) (str_crc16 h d) qs (sym (part_crc_dir h d))

  concat-cons : (x : Str) (qs : List Str) → length (concat (x ∷ qs)) ≡ length x + length (concat qs)
  unfolding concat
  concat-cons x qs = length-append x (concat qs)

  reparse_parts :
      (fuel : ℕ) (qs : List Str) (p : FilePath)
      → Names h qs
      → length (concat qs) ≤ fuel
      → split_parts h fuel (concat qs) p ≡ pushed p qs
  unfolding concat split_parts
  reparse_parts fuel [] p n l = sym (pushed-nil p)
  reparse_parts zero (x ∷ qs) p n l = absurd (omega (arith, part_pos x qs n, concat-cons x qs))
  reparse_parts (suc fuel) (x ∷ []) p (inl (d, nd, e)) l = rw e (
      reparse_dir fuel d [] p nd (
        reparse_parts fuel [] (push_part p (push_back d (separator h)) (str_crc16 h d)) tt
          (omega arith)))
  reparse_parts (suc fuel) ([] ∷ []) p (inr f) l = absurd (f.0 refl)
  reparse_parts (suc fuel) ((c ∷ s) ∷ []) p (inr f) l = rw (append-nil s) (
      split_parts-file h (suc fuel) c s p (split_first-file h (c ∷ s) f.1)
      ∙ sym (pushed-nil _)
      ∙ pushed-cons p (c ∷ s) (str_crc16 h (c ∷ s)) []
          (sym (part_crc_file h (c ∷ s) (file_not_dir h (c ∷ s) f))))
  reparse_parts (suc fuel) (x ∷ y ∷ qs) p ((d, nd, e), n) l = rw e (
      reparse_dir fuel d (y ∷ qs) p nd (
        reparse_parts fuel (y ∷ qs) (push_part p (push_back d (separator h)) (str_crc16 h d)) n
          (omega (arith, length-dir x d e, concat-cons x (y ∷ qs)))))

  from_path-split_root :
      (path root : Str)
      → path ≢ []
      → root ≢ []
      → from_path h path root
        ≡ split_root h (normalize h path (slash_handling h path)) (normalize h root add_slash)
  unfolding from_path
  from_path-split_root [] root n m = absurd (n refl)
  from_path-split_root (c ∷ s) [] n m = absurd (m refl)
  from_path-split_root (c ∷ s) (d ∷ t) n m = refl

  root-ne-nil : (r : Str) → back 0 r ≡ separator h → r ≢ []
  root-ne-nil [] e n = separator-pos h e
  root-ne-nil (c ∷ s) e n = cc

  append-ne-nil : (r s : Str) → r ≢ [] → r ++ s ≢ []
  append-ne-nil [] s n e = n refl
  append-ne-nil (c ∷ r) s n e = cc

  -- A valid path is constructed again from the string that it prints as and its root, provided
  -- that normalising leaves both as they are.
  pub from_path-get_path :
      (p : FilePath)
      → IsValid h p
      → normalize h (get_path h p true) (slash_handling h (get_path h p true)) ≡ get_path h p true
      → normalize h (get_root p) add_slash ≡ get_root p
      → from_path h (get_path h p true) (get_root p) ≡ ok p
  unfolding get_path get_root concat crcs_of
  from_path-get_path p v np nr = go p.parts p.path_crcs v.names v.crcs np nr
    where
      go :
          (ps : List Str) (cs : List ℕ)
          → Parts h ps
          → cs ≡ crcs_of h ps
          → normalize h (concat ps) (slash_handling h (concat ps)) ≡ concat ps
          → normalize h (get_or ps 0 []) add_slash ≡ get_or ps 0 []
          → from_path h (concat ps) (get_or ps 0 []) ≡ ok (record { parts = ps; path_crcs = cs })
      go [] cs n c np nr = absurd n
      go (r ∷ qs) cs (d, n) c np nr =
          from_path-split_root (r ++ concat qs) r (append-ne-nil r (concat qs) (root-ne-nil r d))
            (root-ne-nil r d)
          ∙ rw (np, nr)
              (split_root-ok h r (concat qs) (starts_with-append r (concat qs))
                ∙ rw (reparse_parts (length (concat qs)) qs (start h r) n (omega arith), c))
