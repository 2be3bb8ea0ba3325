-- ===== src/Scanner/Distinct.antt =====
-- No path is queued twice; and what a request that is not recursive does to the queue.
use mathlib.Core.List.{append-nil}
use spacedisplay.Common.{
  ◌≡◌, refl, sym, ap, ◌∙◌, ◌≢◌, inl, inr, Bool, true, false, List, [], ◌∷◌, ◌++◌, arith, push_back,
  Str, All, All-append, append_cons_ne, length, length-append,
}
use spacedisplay.FilePath.{
  Host, FilePath, CompareResult, parent, child, different, equal, compare_to,
}
use spacedisplay.FilePath.Validity.{IsValid}
use spacedisplay.FilePath.Compare.{Related, compare_to-Related}
use spacedisplay.Scanner.Queue.{ScanRequest, request, erase_covered, push_request, add_to_queue}
use spacedisplay.Scanner.Coverage.{Covered, Valid}

abbrev pub Without : List Str → List ScanRequest → Type 0
Without d = All (λ r. r.path.parts ≢ d)

-- No two requests are for the same path.
abbrev pub Distinct : List ScanRequest → Type 0
Distinct [] = Unit {0}
Distinct (r ∷ q) = Without r.path.parts q × Distinct q

Distinct-push_back :
    (r : ScanRequest) (q : List ScanRequest)
    → Distinct q
    → Without r.path.parts q
    → Distinct (push_back q r)
Distinct-push_back r [] d w = (tt, tt)
Distinct-push_back r (s ∷ q) d w =
    (All-append _ q (r ∷ []) d.0 ((λ e. w.0 (sym e)), tt), Distinct-push_back r q d.1 w.1)

module _ (h : Host) (p : FilePath) (vp : IsValid h p) where
  -- What the loop keeps was there, and is not for this path.
  erase_covered-All :
      (P : ScanRequest → Type 0) (q : List ScanRequest) → All P q → All P (erase_covered p q)
  unfolding erase_covered
  erase_covered-All P [] a = tt
  erase_covered-All P (r ∷ q) a = go (compare_to p r.path) (erase_covered-All P q a.1)
    where
      go :
          (k : CompareResult)
          → All P (erase_covered p q)
          → All P (elim k [
            | different ↦ r ∷ erase_covered p q
            | child ↦ r ∷ erase_covered p q
            | parent ↦ erase_covered p q
            | equal ↦ q
          ])
      go different w = (a.0, w)
      go child w = (a.0, w)
      go parent w = w
      go equal w = a.1

  erase_covered-Distinct :
      (q : List ScanRequest)
      → Valid h q
      → Distinct q
      → Distinct (erase_covered p q) × Without p.parts (erase_covered p q)
  unfolding erase_covered
  erase_covered-Distinct [] v d = (tt, tt)
  erase_covered-Distinct (r ∷ q) v d =
      go (compare_to p r.path) (compare_to-Related h p r.path vp v.0)
        (erase_covered-Distinct q v.1 d.1)
    where
      go :
          (k : CompareResult)
          → Related k p.parts r.path.parts
          → Distinct (erase_covered p q) × Without p.parts (erase_covered p q)
          → let kept = elim k as (λ _. List ScanRequest) [
            | different ↦ r ∷ erase_covered p q
            | child ↦ r ∷ erase_covered p q
            | parent ↦ erase_covered p q
            | equal ↦ q
          ] in
            Distinct kept × Without p.parts kept
      go different f (w, x) =
          ((erase_covered-All _ q d.0, w), ((λ e. f.0 [] (e ∙ sym (append-nil p.parts))), x))
      go child (z, zs, f) (w, x) =
          ((erase_covered-All _ q d.0, w), ((λ e. append_cons_ne r.path.parts z zs (e ∙ f)), x))
      go parent f w = w
      go equal f w = (d.1, rw f d.0)

  -- The queue never holds two requests for one path.
  pub add_to_queue-Distinct :
      (rec b : Bool) (q : List ScanRequest)
      → Valid h q
      → Distinct q
      → Distinct (add_to_queue p rec b q)
  unfolding add_to_queue push_request
  add_to_queue-Distinct rec true q v d =
      let (w, x) = erase_covered-Distinct q v d in Distinct-push_back (request p rec) _ w x
  add_to_queue-Distinct rec false q v d = let (w, x) = erase_covered-Distinct q v d in (x, w)

  abbrev pub IsBelow : ScanRequest → Type 0
  IsBelow r = (z : Str) × (zs : List Str) × (r.path.parts ≡ p.parts ++ z ∷ zs)

  parent_of_below :
      (r : ScanRequest) (k : CompareResult)
      → IsBelow r
      → Related k p.parts r.path.parts
      → k ≡ parent
  parent_of_below r parent w f = refl
  parent_of_below r child (z, zs, e) (y, ys, f) = absurd (
      omega (
        arith,
        ap length e,
        ap length f,
        length-append p.parts (z ∷ zs),
        length-append r.path.parts (y ∷ ys),
      ))
  parent_of_below r different (z, zs, e) f = absurd (f.0 (z ∷ zs) e)
  parent_of_below r equal (z, zs, e) f = absurd (append_cons_ne p.parts z zs (f ∙ e))

  erase_covered-nil : (q : List ScanRequest) → Valid h q → All IsBelow q → erase_covered p q ≡ []
  unfolding erase_covered
  erase_covered-nil [] v a = refl
  erase_covered-nil (r ∷ q) v a =
      rw
        (
          parent_of_below r (compare_to p r.path) a.0 (compare_to-Related h p r.path vp v.0),
          erase_covered,
        )
        (erase_covered-nil q v.1 a.1)

  -- A request that is not recursive erases all requests for paths below its own, the recursive
  -- ones too: when there were only such requests, no other directory is scanned any more.
  pub add_to_queue-drops :
      (b : Bool) (q : List ScanRequest) (d : List Str)
      → Valid h q
      → All IsBelow q
      → d ≢ p.parts
      → ¬ Covered (add_to_queue p false b q) d
  unfolding add_to_queue push_request
  add_to_queue-drops b q d v a n = rw (erase_covered-nil q v a) (go b)
    where
      go : (b : Bool) → ¬ Covered (push_request (request p false) b []) d
      go true (inl (inl e)) = n e
      go true (inl (inr (e, _))) = cc
      go true (inr x) = x
      go false (inl (inl e)) = n e
      go false (inl (inr (e, _))) = cc
      go false (inr x) = x
