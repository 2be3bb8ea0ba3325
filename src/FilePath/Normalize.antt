-- ===== src/FilePath/Normalize.antt =====
-- What `FilePath::normalize` gives for every string.
use mathlib.Core.List.{reverse-append, reverse-reverse, reverse-cons}
use spacedisplay.Common.{
  ℕ, ◌≡◌, refl, sym, ap, ◌∙◌, ◌≢◌, ◌⊎◌, inl, inr, [], ◌∷◌, ◌++◌, reverse, arith, ◌==◌, ==_iff,
  Bool-cases, if◌then◌else◌, back, back-append, push_back-ne-nil, push_back, Str, All, All-reverse,
}
use spacedisplay.FilePath.{
  Platform, linux, windows, Host, separator, inverted_separator, replace, pop_slashes,
  pop_double_slashes, push_slash, normalize, add_slash, remove_slash,
}

pub separator-ne-inverted : (h : Host) → separator h ≢ inverted_separator h
separator-ne-inverted h = go h.platform
  where
    go :
        (p : Platform)
        → separator (record h { platform = p }) ≢ inverted_separator (record h { platform = p })
    go linux = omega arith
    go windows = omega arith

pub separator-pos : (h : Host) → 0 ≢ separator h
separator-pos h = go h.platform
  where
    go : (p : Platform) → 0 ≢ separator (record h { platform = p })
    go linux = omega arith
    go windows = omega arith

abbrev pub IsSlash : Host → ℕ → Type 0
IsSlash h c = (c ≡ separator h) ⊎ (c ≡ inverted_separator h)

pub replace-append : (a b : ℕ) (s t : Str) → replace a b (s ++ t) ≡ replace a b s ++ replace a b t
unfolding replace
replace-append a b [] t = refl
replace-append a b (c ∷ s) t = ap (◌∷◌ (if c == a then b else c)) (replace-append a b s t)

module _ (h : Host) where
  -- Slashes become separators, and a byte that is no slash stays.
  replace_slashes :
      (s : Str)
      → All (IsSlash h) s
      → All (λ c. c ≡ separator h) (replace (inverted_separator h) (separator h) s)
  unfolding replace
  replace_slashes [] a = tt
  replace_slashes (c ∷ s) a = (ground arith, replace_slashes s a.1)

  stop_double :
      (c : ℕ) (t : Str) → c ≢ separator h → pop_double_slashes (separator h) (c ∷ t) ≡ c ∷ t
  unfolding pop_double_slashes
  stop_double c [] hc = refl
  stop_double c (d ∷ t) hc = ground arith

  stop : (c : ℕ) (t : Str) → c ≢ separator h → pop_slashes (separator h) (c ∷ t) ≡ c ∷ t
  unfolding pop_slashes
  stop c [] hc = refl
  stop c (d ∷ t) hc = ground arith

  module _ (c : ℕ) (t : Str) (hc : c ≢ separator h) where
    push_pop_double :
        (s : Str)
        → All (λ c. c ≡ separator h) s
        → push_slash (separator h) (pop_double_slashes (separator h) (s ++ c ∷ t))
          ≡ separator h ∷ c ∷ t
    unfolding push_slash pop_double_slashes
    push_pop_double [] a = ground (arith, stop_double c t hc)
    push_pop_double (x ∷ []) a = ground arith
    push_pop_double (x ∷ y ∷ s) a = ground (arith, push_pop_double (y ∷ s) a.1)

    pop_to_last :
        (s : Str) → All (λ c. c ≡ separator h) s → pop_slashes (separator h) (s ++ c ∷ t) ≡ c ∷ t
    unfolding pop_slashes
    pop_to_last [] a = stop c t hc
    pop_to_last (x ∷ []) a = ground (arith, stop c t hc)
    pop_to_last (x ∷ y ∷ s) a = ground (arith, pop_to_last (y ∷ s) a.1)

  only_double :
      (s : Str)
      → All (λ c. c ≡ separator h) s
      → push_slash (separator h) (pop_double_slashes (separator h) s) ≡ separator h ∷ []
  unfolding push_slash pop_double_slashes
  only_double [] a = refl
  only_double (x ∷ []) a = ground arith
  only_double (x ∷ y ∷ s) a = ground (arith, only_double (y ∷ s) a.1)

  only :
      (x : ℕ) (s : Str)
      → All (λ c. c ≡ separator h) (x ∷ s)
      → pop_slashes (separator h) (x ∷ s) ≡ separator h ∷ []
  unfolding pop_slashes
  only x [] a = ground arith
  only x (y ∷ s) a = ground (arith, only y s a.1)

  module _ (c : ℕ) (t ss : Str) (hc : ¬ IsSlash h c) (hs : All (IsSlash h) ss) where
    abbrev replaced : Str → Str
    replaced = replace (inverted_separator h) (separator h)

    kept : replaced (push_back t c) ≡ push_back (replaced t) c
    unfolding replace
    kept =
        replace-append _ _ t (c ∷ [])
        ∙ ap (λ (d : ℕ). push_back (replaced t) d)
            (ground (arith, λ (e : c ≡ inverted_separator h). hc (inr e)))

    reversed :
        reverse (replaced (push_back t c ++ ss)) ≡ reverse (replaced ss) ++ c ∷ reverse (replaced t)
    reversed =
        ap reverse (replace-append _ _ (push_back t c) ss)
        ∙ reverse-append (replaced (push_back t c)) (replaced ss)
        ∙ ap (◌++◌ (reverse (replaced ss))) (ap reverse kept ∙ reverse-append (replaced t) (c ∷ []))

    not_separator : c ≢ separator h
    not_separator e = hc (inl e)

    slashes : All (λ d. d ≡ separator h) (reverse (replaced ss))
    slashes = All-reverse _ (replaced ss) (replace_slashes ss hs)

    restored : reverse (c ∷ reverse (replaced t)) ≡ replaced (push_back t c)
    restored = simp (reverse-cons, reverse-reverse, kept)

    -- `add_slash` keeps a string up to its last byte that is no slash, with the slashes in it
    -- replaced by separators, and ends it with one separator, whatever slashes followed;
    -- `remove_slash` keeps the same part and ends it with none.
    pub normalize_lem :
        (normalize h (push_back t c ++ ss) add_slash
          ≡ push_back (replaced (push_back t c)) (separator h))
        × (normalize h (push_back t c ++ ss) remove_slash ≡ replaced (push_back t c))
    unfolding normalize
    normalize_lem = (
      rw (reversed, push_pop_double c (reverse (replaced t)) not_separator _ slashes)
          (reverse-cons (separator h) (c ∷ reverse (replaced t))
            ∙ ap (λ (u : Str). push_back u (separator h)) restored),
      rw (reversed, pop_to_last c (reverse (replaced t)) not_separator _ slashes) restored,
    )

  only_any :
      (s : Str)
      → s ≢ []
      → All (λ c. c ≡ separator h) s
      → pop_slashes (separator h) s ≡ separator h ∷ []
  only_any [] n a = absurd (n refl)
  only_any (x ∷ s) n a = only x s a

  push_slash-back : (s : Str) → back 0 (reverse (push_slash (separator h) s)) ≡ separator h
  unfolding push_slash
  push_slash-back [] = refl
  push_slash-back (c ∷ s) = elim (Bool-cases (c == separator h)) [
    | inl e ↦
        rw (e, reverse-cons c s, back-append 0 (reverse s) c []) ((==_iff c (separator h)).0 e)
    | inr e ↦
        rw (e, reverse-cons (separator h) (c ∷ s))
          (back-append 0 (reverse (c ∷ s)) (separator h) [])
  ]

  pub normalize-back : (s : Str) → back 0 (normalize h s add_slash) ≡ separator h
  unfolding normalize
  normalize-back s = push_slash-back _

  -- A string of slashes alone becomes one separator under both.
  pub normalize_slashes :
      (c : ℕ) (s : Str)
      → All (IsSlash h) (c ∷ s)
      → (normalize h (c ∷ s) add_slash ≡ separator h ∷ [])
        × (normalize h (c ∷ s) remove_slash ≡ separator h ∷ [])
  unfolding normalize replace
  normalize_slashes c s hs =
      (ap reverse (only_double _ backwards), ap reverse (only_any _ not_empty backwards))
    where
      not_empty : reverse (replace (inverted_separator h) (separator h) (c ∷ s)) ≢ []
      not_empty e =
          push_back-ne-nil (reverse (replace (inverted_separator h) (separator h) s))
            (if c == inverted_separator h then separator h else c)
            (sym (
                reverse-cons (if c == inverted_separator h then separator h else c)
                  (replace (inverted_separator h) (separator h) s))
              ∙ e)

      backwards :
          All
            (λ d. d ≡ separator h)
            (reverse (replace (inverted_separator h) (separator h) (c ∷ s)))
      backwards =
          All-reverse _ (replace (inverted_separator h) (separator h) (c ∷ s))
            (replace_slashes (c ∷ s) hs)
