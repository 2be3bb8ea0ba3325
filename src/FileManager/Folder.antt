-- ===== src/FileManager/Folder.antt =====
-- The folder that is opened in place of a file, when no file manager is known.
use mathlib.Core.List.{append_assoc}
use spacedisplay.Common.{
  Bool, true, false, ℕ, ◌≡◌, refl, sym, ap, ◌∙◌, ◌≢◌, inl, inr, none, some, [], ◌∷◌, ◌++◌, arith,
  ◌==◌, ==_iff, Bool-cases, if◌then◌else◌, push_back, Str, codes, All,
}
use spacedisplay.FilePath.{linux, Host, separator, inverted_separator, replace}
use spacedisplay.FilePath.Normalize.{IsSlash, normalize_lem, replace-append}
use spacedisplay.SpaceWatcher.Linux.{slash}
use spacedisplay.FileManager.{
  unknown_manager, with_path, system_async, before_last_slash, dir_path, show_command, show_file,
}

before_last_slash-plain : (s : Str) → All (λ c. c ≢ slash) s → before_last_slash s ≡ none
unfolding before_last_slash
before_last_slash-plain [] h = refl
before_last_slash-plain (c ∷ s) (hc, hs) =
    rw (before_last_slash, before_last_slash-plain s hs) (ground arith)

before_last_slash-append :
    (d s : Str) → All (λ c. c ≢ slash) s → before_last_slash (d ++ slash ∷ s) ≡ some d
unfolding before_last_slash
before_last_slash-append [] s h = rw (before_last_slash, before_last_slash-plain s h) refl
before_last_slash-append (c ∷ d) s h = rw (before_last_slash, before_last_slash-append d s h) refl

last-All : (P : ℕ → Type 0) (s : Str) (c : ℕ) → All P (push_back s c) → P c
last-All P [] c (p, ps) = p
last-All P (b ∷ s) c (p, ps) = last-All P s c ps

module _ (h : Host) (on_linux : h.platform ≡ linux) where
  abbrev replaced : Str → Str
  replaced = replace (inverted_separator h) (separator h)

  separator-slash : separator h ≡ slash
  separator-slash = rw on_linux refl

  replace-plain : (s : Str) → All (λ c. ¬ IsSlash h c) s → All (λ c. c ≢ slash) (replaced s)
  unfolding replace
  replace-plain [] a = tt
  replace-plain (c ∷ s) (hc, hs) = (
    elim (Bool-cases (c == inverted_separator h)) [
      | inl e ↦ absurd (hc (inr ((==_iff c (inverted_separator h)).0 e)))
      | inr e ↦ rw e (λ k. hc (inl (k ∙ sym separator-slash)))
    ],
    replace-plain s hs,
  )

  replace_slash : (s : Str) → replaced (slash ∷ s) ≡ slash ∷ replaced s
  unfolding replace
  replace_slash s = ap (λ c. c ∷ replaced s) (kept (slash == inverted_separator h))
    where
      kept : (b : Bool) → (if b then separator h else slash) ≡ slash
      kept true = separator-slash
      kept false = refl

  split :
      (dir name : Str) (last : ℕ)
      → replaced (push_back (dir ++ slash ∷ name) last)
        ≡ replaced dir ++ slash ∷ replaced (push_back name last)
  split dir name last =
      ap replaced (append_assoc dir (slash ∷ name) (last ∷ []))
      ∙ replace-append _ _ dir (slash ∷ push_back name last)
      ∙ ap (λ t. replaced dir ++ t) (replace_slash (push_back name last))

  -- When no file manager is known, `showFile` opens the folder that the file lies in, also for a
  -- path that ends in slashes: what stands before the slash in front of the last name. For a file
  -- in the root of the file system that is nothing.
  show_file-parent :
      (dir name : Str) (last : ℕ) (slashes : Str)
      → All (λ c. ¬ IsSlash h c) (push_back name last)
      → All (IsSlash h) slashes
      → show_file h unknown_manager (push_back (dir ++ slash ∷ name) last ++ slashes)
        ≡ system_async (with_path (codes "xdg-open") (replaced dir))
  unfolding show_file show_command dir_path
  show_file-parent dir name last slashes a b =
      rw
        (
          (normalize_lem h last (dir ++ slash ∷ name) slashes (last-All _ name last a) b).1,
          split dir name last,
          before_last_slash-append (replaced dir) (replaced (push_back name last))
              (replace-plain (push_back name last) a),
        )
        refl
