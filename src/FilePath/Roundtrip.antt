-- ===== src/FilePath/Roundtrip.antt =====
-- The constructors of `FilePath` against `getPath`: what is parsed prints as the normalised
-- string, and what is printed parses as the same path.
use mathlib.Core.List.{append-nil, append_assoc}
use spacedisplay.Common.{
  ℕ, zero, suc, ◌≤◌, ◌<◌, ◌≡◌, refl, sym, ap, ◌∙◌, ◌≢◌, inl, inr, true, Option, none, some, List,
  [], ◌∷◌, ◌++◌, arith, ◌==◌, ==_iff, Bool-cases, if◌then◌else◌, length, back, back-append,
  push_back, drop-append, Str, starts_with, starts_with_sound,
}
use spacedisplay.FilePath.{
  Host, separator, str_crc16, FilePath, ok, push_part, is_dir, split_first, split_parts, concat,
  get_path, get_root, from_path, split_root, normalize, add_slash, remove_slash, ends_with_slash,
  SlashHandling,
}
use spacedisplay.FilePath.Normalize.{normalize-back}
use spacedisplay.FilePath.Validity.{
  NoSlash, part_crc_dir, part_crc_file, IsValid, crcs_of, file_not_dir, push_part-IsValid,
}
use spacedisplay.FilePath.Methods.{is_dir-push_part}

pub concat-append : (xs ys : List Str) → concat (xs ++ ys) ≡ concat xs ++ concat ys
unfolding concat
concat-append [] ys = refl
concat-append (x ∷ xs) ys =
    ap (◌++◌ x) (concat-append xs ys) ∙ sym (append_assoc x (concat xs) (concat ys))

module _ (h : Host) where
  -- The string up to its first slash, and from there on.
  abbrev Splits : Str → Option (Str × Str) → Type 0
  Splits s none = NoSlash h s
  Splits s (some (d, r)) =
      (s ≡ push_back d (separator h) ++ r) × NoSlash h d × (length r < length s)

  Splits-cons :
      (c : ℕ) (s : Str) (o : Option (Str × Str))
      → c ≢ separator h
      → Splits s o
      → Splits (c ∷ s) (elim o [ none ↦ none | some (d, r) ↦ some (c ∷ d, r) ])
  Splits-cons c s none n a = (n, a)
  Splits-cons c s (some (d, r)) n (e, a, l) = (ap (◌∷◌ c) e, (n, a), omega arith)

  split_first-Splits : (s : Str) → Splits s (split_first (separator h) s)
  unfolding split_first
  split_first-Splits [] = tt
  split_first-Splits (c ∷ s) = elim (Bool-cases (c == separator h)) [
    | inl t ↦ rw t (ap (λ (d : ℕ). d ∷ s) ((==_iff _ _).0 t), tt, omega arith)
    | inr t ↦
        rw t (Splits-cons c s (split_first (separator h) s) (ground arith) (split_first-Splits s))
  ]

  -- A directory part comes off the front whole.
  pub split_first-dir :
      (d r : Str)
      → NoSlash h d
      → split_first (separator h) (push_back d (separator h) ++ r) ≡ some (d, r)
  unfolding split_first
  split_first-dir [] r n = ground arith
  split_first-dir (c ∷ d) r n = ground (arith, split_first-dir d r n.1)

  pub split_first-file : (s : Str) → NoSlash h s → split_first (separator h) s ≡ none
  unfolding split_first
  split_first-file [] n = refl
  split_first-file (c ∷ s) n = ground (arith, split_first-file s n.1)

  -- One round of the loop: nothing left, a file name left, or a directory to push.
  pub split_parts-file :
      (fuel c : ℕ) (s : Str) (p : FilePath)
      → split_first (separator h) (c ∷ s) ≡ none
      → split_parts h fuel (c ∷ s) p ≡ push_part p (c ∷ s) (str_crc16 h (c ∷ s))
  unfolding split_parts
  split_parts-file zero c s p e = refl
  split_parts-file (suc fuel) c s p e = rw (e, split_parts)

  pub split_parts-dir :
      (fuel c : ℕ) (s d r : Str) (p : FilePath)
      → split_first (separator h) (c ∷ s) ≡ some (d, r)
      → split_parts h (suc fuel) (c ∷ s) p
        ≡ split_parts h fuel r (push_part p (push_back d (separator h)) (str_crc16 h d))
  unfolding split_parts
  split_parts-dir fuel c s d r p e = rw (e, split_parts)

  push_dir-IsValid :
      (p : FilePath) (d : Str)
      → IsValid h p
      → is_dir h p ≡ true
      → NoSlash h d
      → IsValid h (push_part p (push_back d (separator h)) (str_crc16 h d))
  push_dir-IsValid p d v e n =
      rw (← part_crc_dir h d) (push_part-IsValid h p _ v e (inl (d, n, refl)))

  push_dir-is_dir :
      (p : FilePath) (d : Str) (crc : ℕ)
      → is_dir h (push_part p (push_back d (separator h)) crc) ≡ true
  push_dir-is_dir p d crc =
      is_dir-push_part h p _ crc ∙ rw (back-append 0 d (separator h) []) (ground arith)

  concat-push_part :
      (p : FilePath) (x : Str) (crc : ℕ) → concat (push_part p x crc).parts ≡ concat p.parts ++ x
  unfolding push_part concat
  concat-push_part p x crc =
      concat-append p.parts (x ∷ []) ∙ ap (◌++◌ (concat p.parts)) (append-nil x)

  -- With as much fuel as there are bytes, the loop keeps the path valid and its parts make up
  -- what was there before and the string.
  split_parts_lem :
      (fuel : ℕ) (s : Str) (p : FilePath)
      → length s ≤ fuel
      → IsValid h p
      → is_dir h p ≡ true
      → IsValid h (split_parts h fuel s p)
        × (concat (split_parts h fuel s p).parts ≡ concat p.parts ++ s)
  unfolding split_parts
  split_parts_lem fuel [] p l v e = (v, sym (append-nil (concat p.parts)))
  split_parts_lem zero (c ∷ s) p l v e = absurd (omega arith)
  split_parts_lem (suc fuel) (c ∷ s) p l v e =
      go (split_first (separator h) (c ∷ s)) refl (split_first-Splits (c ∷ s))
        λ d r. split_parts_lem fuel r (push_part p (push_back d (separator h)) (str_crc16 h d))
    where
      go :
          (o : Option (Str × Str))
          → split_first (separator h) (c ∷ s) ≡ o
          → Splits (c ∷ s) o
          → ((d r : Str)
              → let q = push_part p (push_back d (separator h)) (str_crc16 h d) in
                length r ≤ fuel
                → IsValid h q
                → is_dir h q ≡ true
                → IsValid h (split_parts h fuel r q)
                  × (concat (split_parts h fuel r q).parts ≡ concat q.parts ++ r))
          → IsValid h (split_parts h (suc fuel) (c ∷ s) p)
            × (concat (split_parts h (suc fuel) (c ∷ s) p).parts ≡ concat p.parts ++ c ∷ s)
      go none f n ih = rw (split_parts-file (suc fuel) c s p f) (
        rw (← part_crc_file h (c ∷ s) (file_not_dir h (c ∷ s) ((λ z. cc), n)))
            (push_part-IsValid h p (c ∷ s) v e (inr ((λ z. cc), n))),
        concat-push_part p (c ∷ s) (str_crc16 h (c ∷ s)),
      )
      go (some (d, r)) f (g, n, k) ih =
          let rest =
            ih d r (omega arith) (push_dir-IsValid p d v e n)
              (push_dir-is_dir p d (str_crc16 h d)) in
          rw (split_parts-dir fuel c s d r p f) (
            rest.0,
            rest.1
                ∙ rw (concat-push_part p (push_back d (separator h)) (str_crc16 h d), g)
                    (append_assoc (concat p.parts) (push_back d (separator h)) r),
          )

  -- The parts that are there stay in front.
  split_parts-extends :
      (fuel : ℕ) (s : Str) (p : FilePath)
      → (xs : List Str) × ((split_parts h fuel s p).parts ≡ p.parts ++ xs)
  unfolding split_parts push_part
  split_parts-extends fuel [] p = ([], sym (append-nil p.parts))
  split_parts-extends zero (c ∷ s) p = ((c ∷ s) ∷ [], refl)
  split_parts-extends (suc fuel) (c ∷ s) p =
      go (split_first (separator h) (c ∷ s)) refl
        λ d r. split_parts-extends fuel r (push_part p (push_back d (separator h)) (str_crc16 h d))
    where
      go :
          (o : Option (Str × Str))
          → split_first (separator h) (c ∷ s) ≡ o
          → ((d r : Str)
              → let q = push_part p (push_back d (separator h)) (str_crc16 h d) in
                (xs : List Str) × ((split_parts h fuel r q).parts ≡ q.parts ++ xs))
          → (xs : List Str) × ((split_parts h (suc fuel) (c ∷ s) p).parts ≡ p.parts ++ xs)
      go none f ih = ((c ∷ s) ∷ [], rw (split_parts-file (suc fuel) c s p f))
      go (some (d, r)) f ih =
          let (xs, e) = ih d r in
          (
            push_back d (separator h) ∷ xs,
            rw (split_parts-dir fuel c s d r p f)
                (e ∙ append_assoc p.parts (push_back d (separator h) ∷ []) xs),
          )

  -- The path that the loop starts from.
  abbrev pub start : Str → FilePath
  start root = record { parts = root ∷ []; path_crcs = str_crc16 h root ∷ [] }

  start-IsValid : (r : Str) → back 0 r ≡ separator h → IsValid h (start r)
  unfolding crcs_of
  start-IsValid r e = record { names = (e, tt); crcs = refl }

  -- How a path is normalised before it is split: as a directory when it ends with a slash of
  -- either kind, and as a file otherwise.
  abbrev pub slash_handling : Str → SlashHandling
  slash_handling path = if ends_with_slash h path then add_slash else remove_slash

  pub split_root-ok :
      (root rest : Str)
      → starts_with root (root ++ rest) ≡ true
      → split_root h (root ++ rest) root ≡ ok (split_parts h (length rest) rest (start root))
  unfolding split_root
  split_root-ok root rest t = rw (t, drop-append root rest)

  split_root_lem :
      (path root : Str) {p : FilePath}
      → back 0 root ≡ separator h
      → split_root h path root ≡ ok p
      → IsValid h p × (concat p.parts ≡ path) × (get_root p ≡ root)
  unfolding split_root get_root is_dir concat
  split_root_lem path root {p} d e = elim (Bool-cases (starts_with root path)) [
    | inl t ↦
        let (rest, f) = starts_with_sound root path t in
        let t' : starts_with root (root ++ rest) ≡ true = rw f at t in
        let same : split_parts h (length rest) rest (start root) ≡ p =
          cc (split_root-ok root rest t', f, e) in
        let (v, prints) =
          split_parts_lem (length rest) rest (start root) (omega arith) (start-IsValid root d)
            ((==_iff _ _).1 d) in
        let (xs, parts) = split_parts-extends (length rest) rest (start root) in
        rw (← same) (v, prints ∙ rw (append-nil root, f), rw parts)
    | inr t ↦ absurd (ground arith)
  ]

  -- A path that is constructed from a string and a root is valid, prints as the normalised
  -- string, and has the normalised root as its first part.
  pub from_path_lem :
      (path root : Str) {p : FilePath}
      → from_path h path root ≡ ok p
      → IsValid h p
        × (get_path h p true ≡ normalize h path (slash_handling path))
        × (get_root p ≡ normalize h root add_slash)
  unfolding from_path get_path
  from_path_lem [] root e = cc
  from_path_lem (c ∷ s) [] e = cc
  from_path_lem (c ∷ s) (d ∷ t) e =
      split_root_lem _ (normalize h (d ∷ t) add_slash) (normalize-back h (d ∷ t)) e
