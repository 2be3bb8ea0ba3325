-- ===== src/SpaceView/History.antt =====
-- The history of paths is that of a browser: what was shown before, what is shown, and what was
-- left by going back.
use spacedisplay.Common.{
  is_empty, length-pop_back, ℕ, zero, suc, ◌+◌, ◌-◌, ◌≤◌, ◌≡◌, refl, ap, ◌∙◌, true, false, ◌&&◌,
  not, List, [], ◌∷◌, ◌++◌, length, get_or, pop_back, push_back, ltb, arith,
}
use spacedisplay.FilePath.{FilePath}
use spacedisplay.SpaceView.{
  SpaceView, pop_ahead, history_push, can_navigate_back, can_navigate_forward, go_to, navigate_back,
  navigate_forward,
}

-- The nearest paths come first on both sides.
pub record History : Type 0 where
  pub before : List FilePath
  pub shown : FilePath
  pub ahead : List FilePath

-- A path is opened: what lay ahead is forgotten.
abbrev pub visit : FilePath → History → History
visit p s = record { before = s.shown ∷ s.before; shown = p; ahead = [] }

abbrev pub step_back : History → History
step_back s = elim s.before [
  | [] ↦ s
  | p ∷ before ↦ record { before = before; shown = p; ahead = s.shown ∷ s.ahead }
]

abbrev pub step_forward : History → History
step_forward s = elim s.ahead [
  | [] ↦ s
  | p ∷ ahead ↦ record { before = s.shown ∷ s.before; shown = p; ahead = ahead }
]

-- What was before, turned round, and a list behind it.
abbrev pub unwind : List FilePath → List FilePath → List FilePath
unwind [] ys = ys
unwind (x ∷ xs) ys = unwind xs (x ∷ ys)

-- A vector with a pointer stands for a history.
pub record Represents (v : SpaceView) (s : History) : Type 0 where
  pub paths : v.path_history ≡ unwind s.before (s.shown ∷ s.ahead)
  pub pointer : v.path_history_pointer ≡ length s.before
  pub current : v.current_path ≡ s.shown

length-unwind : (xs ys : List FilePath) → length (unwind xs ys) ≡ length xs + length ys
length-unwind [] ys = omega arith
length-unwind (x ∷ xs) ys = omega (arith, length-unwind xs (x ∷ ys))

get_or-unwind :
    (xs ys : List FilePath) (k : ℕ) (d : FilePath)
    → get_or (unwind xs ys) (length xs + k) d ≡ get_or ys k d
get_or-unwind [] ys k d = ap (λ (i : ℕ). get_or ys i d) (omega arith)
get_or-unwind (x ∷ xs) ys k d =
    ap (λ (i : ℕ). get_or (unwind xs (x ∷ ys)) i d) (omega arith)
    ∙ get_or-unwind xs (x ∷ ys) (suc k) d

unwind-append : (xs ys zs : List FilePath) → unwind xs ys ++ zs ≡ unwind xs (ys ++ zs)
unwind-append [] ys zs = refl
unwind-append (x ∷ xs) ys zs = unwind-append xs (x ∷ ys) zs

pop_back-unwind :
    (xs : List FilePath) (y z : FilePath) (zs : List FilePath)
    → pop_back (unwind xs (y ∷ z ∷ zs)) ≡ unwind xs (y ∷ pop_back (z ∷ zs))
pop_back-unwind [] y z zs = refl
pop_back-unwind (x ∷ xs) y z zs = pop_back-unwind xs x y (z ∷ zs)

unwind-is_empty :
    (xs : List FilePath) (y : FilePath) (ys : List FilePath) → is_empty (unwind xs (y ∷ ys)) ≡ false
unwind-is_empty [] y ys = refl
unwind-is_empty (x ∷ xs) y ys = unwind-is_empty xs x (y ∷ ys)

pop_ahead_lem :
    (fuel : ℕ) (xs : List FilePath) (y : FilePath) (ys : List FilePath)
    → length ys ≤ fuel
    → pop_ahead fuel (length xs) (unwind xs (y ∷ ys)) ≡ unwind xs (y ∷ [])
unfolding pop_ahead
pop_ahead_lem zero xs y [] h = refl
pop_ahead_lem zero xs y (z ∷ zs) h = absurd (omega arith)
pop_ahead_lem (suc fuel) xs y [] h =
    let long = length-unwind xs (y ∷ []) in
    let stop : (not (is_empty (unwind xs (y ∷ [])))
          && ltb (length xs + 1) (length (unwind xs (y ∷ []))))
        ≡ false =
      rw (unwind-is_empty xs y [], long) (ground arith) in
    rw (pop_ahead, stop) refl
pop_ahead_lem (suc fuel) xs y (z ∷ zs) h =
    let long = length-unwind xs (y ∷ z ∷ zs) in
    let go : (not (is_empty (unwind xs (y ∷ z ∷ zs)))
          && ltb (length xs + 1) (length (unwind xs (y ∷ z ∷ zs))))
        ≡ true =
      rw (unwind-is_empty xs y (z ∷ zs), long) (ground arith) in
    let rest = pop_ahead_lem fuel xs y (pop_back (z ∷ zs)) (omega (arith, length-pop_back z zs)) in
    rw go (ap (pop_ahead fuel (length xs)) (pop_back-unwind xs y z zs) ∙ rest)

-- A vector with a pointer that shows another path is pushed.
pub history_push-visit :
    (v : SpaceView) (s : History) (p : FilePath)
    → Represents v s
    → Represents (history_push (record v { current_path = p })) (visit p s)
unfolding history_push
history_push-visit v s p r =
    let popped : pop_ahead (length v.path_history) v.path_history_pointer v.path_history
        ≡ unwind s.before (s.shown ∷ []) =
      rw (r.pointer, r.paths)
        (pop_ahead_lem (length (unwind s.before (s.shown ∷ s.ahead))) s.before s.shown s.ahead
          (omega (arith, length-unwind s.before (s.shown ∷ s.ahead)))) in
    let pushed : push_back (unwind s.before (s.shown ∷ [])) p
        ≡ unwind (s.shown ∷ s.before) (p ∷ []) =
      unwind-append s.before (s.shown ∷ []) (p ∷ []) in
    record {
      paths = ap (λ (h : List FilePath). push_back h p) popped ∙ pushed;
      pointer =
          ap (λ (h : List FilePath). length (push_back h p) - 1) popped
          ∙ ap (λ (h : List FilePath). length h - 1) pushed
          ∙ omega (arith, length-unwind (s.shown ∷ s.before) (p ∷ []));
      current = refl;
    }

-- The path that a pointer leads to.
get_or-paths :
    (paths : List FilePath) (pointer : ℕ) (before : List FilePath) (p : FilePath)
    (ahead : List FilePath) (d : FilePath)
    → paths ≡ unwind before (p ∷ ahead)
    → pointer ≡ length before
    → get_or paths pointer d ≡ p
get_or-paths paths pointer before p ahead d e n =
    ap (λ (xs : List FilePath). get_or xs pointer d) e
    ∙ ap (λ (i : ℕ). get_or (unwind before (p ∷ ahead)) i d) (n ∙ omega arith)
    ∙ get_or-unwind before (p ∷ ahead) 0 d

go_to-Represents :
    (v : SpaceView) (pointer : ℕ) (s : History)
    → v.path_history ≡ unwind s.before (s.shown ∷ s.ahead)
    → pointer ≡ length s.before
    → Represents (go_to pointer v) s
unfolding go_to
go_to-Represents v pointer s e n = record {
  paths = e;
  pointer = n;
  current = get_or-paths v.path_history pointer s.before s.shown s.ahead v.current_path e n;
}

can_navigate_back_lem :
    (v : SpaceView) (s : History) → Represents v s → can_navigate_back v ≡ not (is_empty s.before)
unfolding can_navigate_back
can_navigate_back_lem v s r =
    let long = length-unwind s.before (s.shown ∷ s.ahead) in
    rw (can_navigate_back, r.paths, r.pointer, unwind-is_empty s.before s.shown s.ahead, long)
      (tests s.before)
  where
    tests :
        (b : List FilePath)
        → (ltb 0 (length b) && ltb (length b) (length b + length (s.shown ∷ s.ahead) + 1))
          ≡ not (is_empty b)
    tests [] = refl
    tests (x ∷ b) = ground arith

can_navigate_forward_lem :
    (v : SpaceView) (s : History) → Represents v s → can_navigate_forward v ≡ not (is_empty s.ahead)
unfolding can_navigate_forward
can_navigate_forward_lem v s r =
    let long = length-unwind s.before (s.shown ∷ s.ahead) in
    rw (can_navigate_forward, r.paths, r.pointer, unwind-is_empty s.before s.shown s.ahead, long)
      (tests s.ahead)
  where
    tests :
        (a : List FilePath)
        → ltb (length s.before + 1) (length s.before + length (s.shown ∷ a)) ≡ not (is_empty a)
    tests [] = ground arith
    tests (x ∷ a) = ground arith

pub navigate_back-step_back :
    (v : SpaceView) (before : List FilePath) (shown : FilePath) (ahead : List FilePath)
    → let s : History = record { before = before; shown = shown; ahead = ahead } in
      Represents v s → Represents (navigate_back v) (step_back s)
unfolding navigate_back
navigate_back-step_back v [] shown ahead r =
    rw
      (
        navigate_back,
        can_navigate_back_lem v (record { before = []; shown = shown; ahead = ahead }) r,
      )
      r
navigate_back-step_back v (p ∷ before) shown ahead r =
    rw
      (
        navigate_back,
        can_navigate_back_lem v (record { before = p ∷ before; shown = shown; ahead = ahead }) r,
      )
      (go_to-Represents v (v.path_history_pointer - 1)
        (record { before = before; shown = p; ahead = shown ∷ ahead }) r.paths
        (omega (arith, r.pointer)))

pub navigate_forward-step_forward :
    (v : SpaceView) (before : List FilePath) (shown : FilePath) (ahead : List FilePath)
    → let s : History = record { before = before; shown = shown; ahead = ahead } in
      Represents v s → Represents (navigate_forward v) (step_forward s)
unfolding navigate_forward
navigate_forward-step_forward v before shown [] r =
    rw
      (
        navigate_forward,
        can_navigate_forward_lem v (record { before = before; shown = shown; ahead = [] }) r,
      )
      r
navigate_forward-step_forward v before shown (p ∷ ahead) r =
    rw
      (
        navigate_forward,
        can_navigate_forward_lem v (record { before = before; shown = shown; ahead = p ∷ ahead }) r,
      )
      (go_to-Represents v (v.path_history_pointer + 1)
        (record { before = shown ∷ before; shown = p; ahead = ahead }) r.paths
        (omega (arith, r.pointer)))
