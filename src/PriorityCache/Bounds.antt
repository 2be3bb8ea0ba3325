-- ===== src/PriorityCache/Bounds.antt =====
-- The cache holds no more than its maximal size.
use spacedisplay.Common.{
  ℕ, zero, suc, ◌+◌, ◌≤◌, ◌≡◌, refl, ap, subst, ◌∙◌, ◌⊎◌, inl, inr, Bool, false, ◌&&◌, Option, some,
  List, [], ◌∷◌, arith, ltb, ◌==◌, if◌then◌else◌, length, take, push_back, Bool-cases, Option-cases,
}
use spacedisplay.FilePath.{Result, ok}
use spacedisplay.FilePath.Results.{ok_inj, err_ne_ok, Result-cases}
use spacedisplay.PriorityCache.{
  time, tick, PriorityCache, find_value, trim, touch, new_cache, add_new_value, put, get,
  set_max_size, invalidate,
}

length-take : {A : Type 0} (n : ℕ) (xs : List A) → length (take n xs) ≤ n
length-take zero [] = omega arith
length-take zero (x ∷ xs) = omega arith
length-take (suc n) [] = omega arith
length-take (suc n) (x ∷ xs) = omega (arith, length-take n xs)

-- A size of 0 stands for no bound.
abbrev pub Fits : {K V : Type 0} → PriorityCache K V → Type 0
Fits c = (c.max_size ≡ 0) ⊎ (length c.keys ≤ c.max_size)

module _ {K V : Type 0} (same : K → K → Bool) (sort : (ℕ → ℕ) → List ℕ → List ℕ) where
  trim_lem : (n : ℕ) (c : PriorityCache K V) → length (trim same sort n c).keys ≤ n
  unfolding trim
  trim_lem n c = elim (Bool-cases (ltb n (length c.keys))) [
    | inl t ↦ rw (t, trim) (length-take n (sort (time c.accesses) c.keys))
    | inr t ↦ rw (t, trim) (ground arith)
  ]

  trim_le : (n : ℕ) (c : PriorityCache K V) → length (trim same sort n c).keys ≤ length c.keys
  unfolding trim
  trim_le n c = elim (Bool-cases (ltb n (length c.keys))) [
    | inl t ↦ rw (t, trim) (ground (arith, length-take n (sort (time c.accesses) c.keys)))
    | inr t ↦ rw (t, trim) (omega arith)
  ]

  trim-max_size : (n : ℕ) (c : PriorityCache K V) → (trim same sort n c).max_size ≡ c.max_size
  unfolding trim
  trim-max_size n c = elim (Bool-cases (ltb n (length c.keys))) [
    | inl t ↦ rw (t, trim) refl
    | inr t ↦ rw (t, trim) refl
  ]

  trim-Fits : (n : ℕ) (c : PriorityCache K V) → Fits c → Fits (trim same sort n c)
  trim-Fits n c (inl e) = inl (trim-max_size n c ∙ e)
  trim-Fits n c (inr l) = inr (omega (arith, trim_le n c, trim-max_size n c))

  abbrev added : K → V → PriorityCache K V → PriorityCache K V
  added k v c = record c {
    values = (k, record { value = v; key = c.next }) ∷ c.values;
    keys = push_back c.keys c.next;
    accesses = λ x.
        if x == c.next
        then some (record { key = k; last_access = c.access_counter })
        else c.accesses x;
    next = c.next + 1;
    access_counter = tick c.access_counter;
  }

  add_new_value-Fits :
      (k : K) (v : V) (c : PriorityCache K V) → Fits c → Fits (add_new_value same sort k v c)
  unfolding add_new_value
  add_new_value-Fits k v c f =
      elim (Bool-cases (ltb 0 c.max_size && ltb c.max_size (length (push_back c.keys c.next)))) [
        | inl t ↦
            rw (t, add_new_value)
              (inr (
                omega (
                  arith,
                  trim_lem c.max_size (added k v c),
                  trim-max_size c.max_size (added k v c),
                )))
        | inr t ↦ rw (t, add_new_value) (unbounded c t)
      ]
    where
      unbounded :
          (c : PriorityCache K V)
          → (ltb 0 c.max_size && ltb c.max_size (length (push_back c.keys c.next))) ≡ false
          → (c.max_size ≡ 0) ⊎ (length (push_back c.keys c.next) ≤ c.max_size)
      unbounded c t = elim (Bool-cases (ltb 0 c.max_size)) [
        | inl u ↦ inr (ground arith)
        | inr u ↦ inl (ground arith)
      ]

  put-Fits : (k : K) (v : V) (c : PriorityCache K V) → Fits c → Fits (put same sort k v c)
  unfolding put touch
  put-Fits k v c f = elim (Option-cases (find_value same sort k c.values)) [
    | inl n ↦ rw (n, put) (add_new_value-Fits k v c f)
    | inr (old, e) ↦ rw (e, put) f
  ]

  set_max_size_lem : (n : ℕ) (c : PriorityCache K V) → length (set_max_size same sort n c).keys ≤ n
  unfolding set_max_size
  set_max_size_lem n c = elim (Bool-cases (ltb n (length c.keys))) [
    | inl t ↦ rw (t, set_max_size) (length-take n (sort (time c.accesses) c.keys))
    | inr t ↦ rw (t, set_max_size) (ground arith)
  ]

  set_max_size-max_size :
      (n : ℕ) (c : PriorityCache K V) → (set_max_size same sort n c).max_size ≡ n
  unfolding set_max_size
  set_max_size-max_size n c = refl

  -- A call of a method, with what it leaves.
  pub data Step (supplier : K → Result V) (c : PriorityCache K V) : PriorityCache K V → Type 0 where
    by_put : (k : K) (v : V) → Step supplier c (put same sort k v c)
    by_get :
        (k : K) (d : PriorityCache K V) (v : Option V)
        → get same sort supplier k c ≡ ok (d, v)
        → Step supplier c d
    by_trim : (n : ℕ) → Step supplier c (trim same sort n c)
    by_set_max_size : (n : ℕ) → Step supplier c (set_max_size same sort n c)
    by_invalidate : Step supplier c (invalidate same sort c)

  abbrev first : PriorityCache K V × Option V → PriorityCache K V
  first p = p.0

  get-Fits :
      (supplier : K → Result V) (k : K) (c d : PriorityCache K V) (v : Option V)
      → get same sort supplier k c ≡ ok (d, v)
      → Fits c
      → Fits d
  unfolding get touch
  get-Fits supplier k c d v e f = elim (Option-cases (find_value same sort k c.values)) [
    | inr (w, g) ↦ subst Fits (ap first (ok_inj (rw (g, get) at e))) f
    | inl n ↦ elim (Result-cases (supplier k)) [
      | inl m ↦ absurd (err_ne_ok (rw (n, m, get) at e))
      | inr (w, g) ↦
          subst Fits (ap first (ok_inj (rw (n, g, get) at e))) (add_new_value-Fits k w c f)
    ]
  ]

  Step-Fits :
      (supplier : K → Result V) (c d : PriorityCache K V) → Step supplier c d → Fits c → Fits d
  unfolding invalidate
  Step-Fits supplier c _ (by_put k v) f = put-Fits k v c f
  Step-Fits supplier c d (by_get k _ v e) f = get-Fits supplier k c d v e f
  Step-Fits supplier c _ (by_trim n) f = trim-Fits n c f
  Step-Fits supplier c _ (by_set_max_size n) f =
      inr (omega (arith, set_max_size_lem n c, set_max_size-max_size n c))
  Step-Fits supplier c _ by_invalidate f = inr (omega arith)

  -- A cache that calls lead to from a new one, whose maximal size is `SIZE_MAX`.
  pub data Reachable (supplier : K → Result V) : PriorityCache K V → Type 0 where
    new : Reachable supplier new_cache
    then_call :
        {c d : PriorityCache K V} → Reachable supplier c → Step supplier c d → Reachable supplier d

  -- A cache holds no more keys than its maximal size, if that is not 0, after any calls of `get`,
  -- `put`, `trim`, `setMaxSize` and `invalidate`, however the keys are sorted.
  pub Reachable-Fits :
      (supplier : K → Result V) (c : PriorityCache K V) → Reachable supplier c → Fits c
  Reachable-Fits supplier _ new = inr (omega arith)
  Reachable-Fits supplier _ (then_call {c = c} {d = d} r s) =
      Step-Fits supplier c d s (Reachable-Fits supplier c r)
