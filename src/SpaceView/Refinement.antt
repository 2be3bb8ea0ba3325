-- ===== src/SpaceView/Refinement.antt =====
-- The calls of the window implement the history of a browser.
use spacedisplay.Common.{
  ℕ, ◌+◌, ◌-◌, ◌≡◌, refl, ap, subst, inl, inr, not, some, List, [], ◌∷◌, length, ltb, Bool-cases,
  if◌then◌else◌,
}
use spacedisplay.FilePath.{FilePath, can_go_up, go_up}
use spacedisplay.SpaceView.{
  SpaceView, max_depth, min_depth, history_push, clear_history, set_scanner, is_at_root, go_home,
  navigate_home, navigate_up, can_navigate_back, can_navigate_forward, go_to, navigate_back,
  navigate_forward, open_path, rescan_current_view, increase_detail, decrease_detail,
}
use spacedisplay.SpaceView.History.{
  History, visit, step_back, step_forward, Represents, history_push-visit, navigate_back-step_back,
  navigate_forward-step_forward,
}

pub data Call : Type 0 where
  visit_path : (path : FilePath) → Call
  home up back forward rescan more fewer : Call

unfoldable pub call : Call → SpaceView → SpaceView
unfolding open_path navigate_home navigate_up navigate_back navigate_forward rescan_current_view
    increase_detail decrease_detail
call (visit_path path) v = open_path path v
call home v = navigate_home v
call up v = (navigate_up v).0
call back v = navigate_back v
call forward v = navigate_forward v
call rescan v = rescan_current_view v
call more v = increase_detail v
call fewer v = decrease_detail v

-- What a call means: a browser that starts anew when the root is scanned again.
abbrev pub meaning : Call → History → History
meaning (visit_path path) s = visit path s
meaning home s = let path = s.shown in visit (go_home (length path.parts) path) s
meaning up s = if can_go_up s.shown then visit (go_up s.shown).0 s else s
meaning back s = step_back s
meaning forward s = step_forward s
meaning rescan s =
    if can_go_up s.shown then s else record { before = []; shown = s.shown; ahead = [] }
meaning more s = s
meaning fewer s = s

unfoldable pub calls : List Call → SpaceView → SpaceView
unfolding call
calls [] v = v
calls (c ∷ cs) v = calls cs (call c v)

unfoldable pub meanings : List Call → History → History
meanings [] s = s
meanings (c ∷ cs) s = meanings cs (meaning c s)

-- With a scanner of `root`.
pub record IsOpen (root : FilePath) (v : SpaceView) (s : History) : Type 0 where
  pub scanner : v.scanner_root ≡ some root
  pub history : Represents v s

is_at_root_lem :
    (root : FilePath) (v : SpaceView) (s : History)
    → IsOpen root v s
    → is_at_root v ≡ not (can_go_up s.shown)
unfolding is_at_root
is_at_root_lem root v s o = rw (is_at_root, o.scanner, o.history.current) refl

push-IsOpen :
    (root : FilePath) (v : SpaceView) (s : History) (p q : FilePath)
    → IsOpen root v s
    → p ≡ q
    → IsOpen root (history_push (record v { current_path = p })) (visit q s)
unfolding history_push
push-IsOpen root v s p q o e =
    subst (λ (x : FilePath). IsOpen root (history_push (record v { current_path = p })) (visit x s))
      e (record { scanner = o.scanner; history = history_push-visit v s p o.history })

home-IsOpen :
    (root : FilePath) (v : SpaceView) (s : History)
    → IsOpen root v s
    → IsOpen root (call home v) (meaning home s)
unfolding call navigate_home
home-IsOpen root v s o =
    push-IsOpen root v s _ _ o (ap (λ (p : FilePath). go_home (length p.parts) p) o.history.current)

up-IsOpen :
    (root : FilePath) (v : SpaceView) (s : History)
    → IsOpen root v s
    → IsOpen root (call up v) (meaning up s)
unfolding call navigate_up
up-IsOpen root v s o = elim (Bool-cases (can_go_up s.shown)) [
  | inl e ↦
      rw (call, navigate_up, is_at_root_lem root v s o, e)
        (push-IsOpen root v s _ _ o (ap (λ (p : FilePath). (go_up p).0) o.history.current))
  | inr e ↦ rw (call, navigate_up, is_at_root_lem root v s o, e) o
]

rescan-IsOpen :
    (root : FilePath) (v : SpaceView) (s : History)
    → IsOpen root v s
    → IsOpen root (call rescan v) (meaning rescan s)
unfolding call rescan_current_view history_push clear_history
rescan-IsOpen root v s o = elim (Bool-cases (can_go_up s.shown)) [
  | inl e ↦ rw (call, rescan_current_view, o.scanner, is_at_root_lem root v s o, e) o
  | inr e ↦
      rw (call, rescan_current_view, o.scanner, is_at_root_lem root v s o, e)
        (record {
          scanner = o.scanner;
          history = record {
            paths = ap (λ (p : FilePath). p ∷ []) o.history.current;
            pointer = refl;
            current = o.history.current;
          };
        })
]

back-IsOpen :
    (root : FilePath) (v : SpaceView) (s : History)
    → IsOpen root v s
    → IsOpen root (call back v) (meaning back s)
unfolding call navigate_back go_to
back-IsOpen root v s o = elim (Bool-cases (can_navigate_back v)) [
  | inl e ↦ record {
    scanner = rw (call, navigate_back, e) o.scanner;
    history = navigate_back-step_back v s.before s.shown s.ahead o.history;
  }
  | inr e ↦ record {
    scanner = rw (call, navigate_back, e) o.scanner;
    history = navigate_back-step_back v s.before s.shown s.ahead o.history;
  }
]

forward-IsOpen :
    (root : FilePath) (v : SpaceView) (s : History)
    → IsOpen root v s
    → IsOpen root (call forward v) (meaning forward s)
unfolding call navigate_forward go_to
forward-IsOpen root v s o = elim (Bool-cases (can_navigate_forward v)) [
  | inl e ↦ record {
    scanner = rw (call, navigate_forward, e) o.scanner;
    history = navigate_forward-step_forward v s.before s.shown s.ahead o.history;
  }
  | inr e ↦ record {
    scanner = rw (call, navigate_forward, e) o.scanner;
    history = navigate_forward-step_forward v s.before s.shown s.ahead o.history;
  }
]

same-IsOpen :
    (root : FilePath) (v : SpaceView) (s : History) (depth : ℕ)
    → IsOpen root v s
    → IsOpen root (record v { current_depth = depth }) s
same-IsOpen root v s depth o = record {
  scanner = o.scanner;
  history = record {
    paths = o.history.paths;
    pointer = o.history.pointer;
    current = o.history.current;
  };
}

more-IsOpen :
    (root : FilePath) (v : SpaceView) (s : History) → IsOpen root v s → IsOpen root (call more v) s
unfolding call increase_detail
more-IsOpen root v s o = elim (Bool-cases (ltb v.current_depth max_depth)) [
  | inl e ↦ rw (call, increase_detail, o.scanner, e) (same-IsOpen root v s (v.current_depth + 1) o)
  | inr e ↦ rw (call, increase_detail, o.scanner, e) o
]

fewer-IsOpen :
    (root : FilePath) (v : SpaceView) (s : History) → IsOpen root v s → IsOpen root (call fewer v) s
unfolding call decrease_detail
fewer-IsOpen root v s o = elim (Bool-cases (ltb min_depth v.current_depth)) [
  | inl e ↦ rw (call, decrease_detail, o.scanner, e) (same-IsOpen root v s (v.current_depth - 1) o)
  | inr e ↦ rw (call, decrease_detail, o.scanner, e) o
]

call-IsOpen :
    (root : FilePath) (c : Call) (v : SpaceView) (s : History)
    → IsOpen root v s
    → IsOpen root (call c v) (meaning c s)
unfolding call open_path
call-IsOpen root (visit_path path) v s o = push-IsOpen root v s path path o refl
call-IsOpen root home v s o = home-IsOpen root v s o
call-IsOpen root up v s o = up-IsOpen root v s o
call-IsOpen root back v s o = back-IsOpen root v s o
call-IsOpen root forward v s o = forward-IsOpen root v s o
call-IsOpen root rescan v s o = rescan-IsOpen root v s o
call-IsOpen root more v s o = more-IsOpen root v s o
call-IsOpen root fewer v s o = fewer-IsOpen root v s o

-- After `setScanner` and any calls of the window, the vector of paths with its pointer stands for
-- the history of a browser that was moved as the calls mean, beginning at the scanner's root, and
-- the path that is shown is the one that the history shows.
pub calls-IsOpen :
    (root : FilePath) (cs : List Call) (v : SpaceView)
    → IsOpen root
        (calls cs (set_scanner root v))
        (meanings cs (record { before = []; shown = root; ahead = [] }))
unfolding set_scanner clear_history history_push calls meanings
calls-IsOpen root cs v =
    go cs (set_scanner root v) (record { before = []; shown = root; ahead = [] })
      (record { scanner = refl; history = record { paths = refl; pointer = refl; current = refl } })
  where
    go :
        (cs : List Call) (v : SpaceView) (s : History)
        → IsOpen root v s
        → IsOpen root (calls cs v) (meanings cs s)
    go [] v s o = o
    go (c ∷ cs) v s o = go cs (call c v) (meaning c s) (call-IsOpen root c v s o)
