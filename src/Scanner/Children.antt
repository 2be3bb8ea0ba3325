-- ===== src/Scanner/Children.antt =====
-- `addChildrenToQueue`: all the children of one directory are queued, or need not be.

use spacedisplay.Common.{
  suc, ◌≡◌, refl, sym, ap, ◌∙◌, subst, ◌≢◌, ◌⊎◌, inl, inr, Bool, true, false, length, List, [], ◌∷◌,
  arith, if◌then◌else◌, push_back, pop_back, pop_back-push_back, length-push_back_lt, Str, All,
}
use spacedisplay.FilePath.{
  Host, FilePath, CompareResult, parent, child, different, equal, compare_to, go_up, can_go_up,
  is_dir,
}
use spacedisplay.FilePath.Validity.{IsValid}
use spacedisplay.FilePath.Compare.{Related, compare_to-Related}
use spacedisplay.FilePath.Methods.{go_up_lem}
use spacedisplay.Scanner.Queue.{
  ScanRequest, request, push_request, add_to_queue, batch_verdict, push_all, add_all,
  add_children_to_queue, Verdict, covered, separate, safe,
}
use spacedisplay.Scanner.Coverage.{
  Extends, Extends-trans, Scans, Covered, Valid, Covered-push, add_to_queue-Covered,
  add_to_queue-Valid,
}

abbrev pub ExtendsAny : List FilePath → List Str → Type 0
ExtendsAny [] d = ⊥
ExtendsAny (p ∷ ps) d = Extends p.parts d ⊎ ExtendsAny ps d

-- Valid paths to children of one directory.
abbrev pub Siblings : Host → List Str → List FilePath → Type 0
Siblings h dir = All (λ p. IsValid h p × ((name : Str) × (p.parts ≡ push_back dir name)))

module _ (h : Host) where
  push_all-Covered :
      (b : Bool) (ps : List FilePath) (q : List ScanRequest) (d : List Str)
      → Covered q d ⊎ ExtendsAny ps d
      → Covered (push_all ps true b q) d
  unfolding push_all
  push_all-Covered b [] q d (inl c) = c
  push_all-Covered b (p ∷ ps) q d (inl c) =
      push_all-Covered b ps (push_request (request p true) b q) d
        (inl (Covered-push (request p true) b q d (inl c)))
  push_all-Covered b (p ∷ ps) q d (inr (inl e)) =
      push_all-Covered b ps (push_request (request p true) b q) d
        (inl (Covered-push (request p true) b q d (inr (inr (refl, e)))))
  push_all-Covered b (p ∷ ps) q d (inr (inr e)) =
      push_all-Covered b ps (push_request (request p true) b q) d (inr e)
  push_all-Covered b [] q d (inr e) = absurd e

  add_all-Covered :
      (b : Bool) (dir : List Str) (ps : List FilePath) (q : List ScanRequest) (d : List Str)
      → Siblings h dir ps
      → Valid h q
      → Covered q d ⊎ ExtendsAny ps d
      → Covered (add_all ps true b q) d
  unfolding add_all
  add_all-Covered b dir [] q d s v (inl c) = c
  add_all-Covered b dir [] q d s v (inr e) = absurd e
  add_all-Covered b dir (p ∷ ps) q d s v (inl c) =
      add_all-Covered b dir ps (add_to_queue p true b q) d s.1
        (add_to_queue-Valid h p s.0.0 true b q v)
        (inl (add_to_queue-Covered h p s.0.0 b q d v (inl c)))
  add_all-Covered b dir (p ∷ ps) q d s v (inr (inl e)) =
      add_all-Covered b dir ps (add_to_queue p true b q) d s.1
        (add_to_queue-Valid h p s.0.0 true b q v)
        (inl (add_to_queue-Covered h p s.0.0 b q d v (inr e)))
  add_all-Covered b dir (p ∷ ps) q d s v (inr (inr e)) =
      add_all-Covered b dir ps (add_to_queue p true b q) d s.1
        (add_to_queue-Valid h p s.0.0 true b q v) (inr e)

  -- The early return is taken only when a queued request scans the whole directory.
  batch_verdict-covered :
      (p : FilePath) (q : List ScanRequest) (d : List Str)
      → IsValid h p
      → Valid h q
      → Extends p.parts d
      → batch_verdict p q ≡ covered
      → Covered q d
  unfolding batch_verdict
  batch_verdict-covered p [] d vp v x e = cc
  batch_verdict-covered p (r ∷ q) d vp v x e =
      go (compare_to p r.path) (compare_to-Related h p r.path vp v.0)
        (batch_verdict-covered p q d vp v.1 x) e
    where
      go :
          (k : CompareResult)
          → Related k p.parts r.path.parts
          → (batch_verdict p q ≡ covered → Covered q d)
          → (elim k [
            | different ↦ batch_verdict p q
            | child ↦ if r.recursive then covered else separate
            | parent ↦ separate
            | equal ↦ separate
          ])
            ≡ covered
          → Scans r d ⊎ Covered q d
      go different k ih e = inr (ih e)
      go child (z, zs, k) ih e = inl (inr (ground arith, Extends-trans r.path.parts (z ∷ zs, k) x))
      go parent k ih e = cc
      go equal k ih e = cc

  parent_path :
      (p : FilePath) (dir : List Str) (name : Str)
      → IsValid h p
      → dir ≢ []
      → p.parts ≡ push_back dir name
      → IsValid h (go_up p).0 × ((go_up p).0.parts ≡ dir)
  unfolding go_up can_go_up
  parent_path p dir name v n e = go (go_up_lem h p v)
    where
      up : (go_up p).0.parts ≡ dir
      up = ground (
        arith,
        ap pop_back e ∙ pop_back-push_back dir name,
        ap length e,
        length-push_back_lt dir name n,
      )

      go :
          ((length p.parts ≡ 1) × (go_up p ≡ (p, false)))
            ⊎ ((q : FilePath) × (go_up p ≡ (q, true))
                × IsValid h q
                × (is_dir h q ≡ true)
                × (length p.parts ≡ suc (length q.parts)))
          → IsValid h (go_up p).0 × ((go_up p).0.parts ≡ dir)
      go (inl (one, _)) = absurd (omega (arith, ap length e, length-push_back_lt dir name n))
      go (inr (q, f, w, _, _)) = (subst (λ (t : FilePath × Bool). IsValid h t.0) (sym f) w, up)

  Siblings-Extends :
      (dir : List Str) (ps : List FilePath) (d : List Str)
      → Siblings h dir ps
      → ExtendsAny ps d
      → Extends dir d
  Siblings-Extends dir [] d s e = absurd e
  Siblings-Extends dir (p ∷ ps) d s (inl e) =
      let (name, f) = s.0.1 in Extends-trans dir (name ∷ [], f) e
  Siblings-Extends dir (p ∷ ps) d s (inr e) = Siblings-Extends dir ps d s.1 e

  -- After the children of one directory are added for a recursive scan, the queue scans all that
  -- it scanned before and everything in and below each child, whichever way the loop ended.
  pub add_children_to_queue-Covered :
      (b : Bool) (dir : List Str) (ps : List FilePath) (q : List ScanRequest) (d : List Str)
      → dir ≢ []
      → Siblings h dir ps
      → Valid h q
      → Covered q d ⊎ ExtendsAny ps d
      → Covered (add_children_to_queue ps true b q) d
  unfolding add_children_to_queue
  add_children_to_queue-Covered b dir [] q d n s v (inl c) = c
  add_children_to_queue-Covered b dir [] q d n s v (inr e) = absurd e
  add_children_to_queue-Covered b dir (p ∷ ps) q d n s v c = go (batch_verdict (go_up p).0 q) refl
    where
      above : IsValid h (go_up p).0 × ((go_up p).0.parts ≡ dir)
      above = parent_path p dir s.0.1.0 s.0.0 n s.0.1.1

      go :
          (k : Verdict)
          → batch_verdict (go_up p).0 q ≡ k
          → Covered
              (elim k [
                | covered ↦ q
                | separate ↦ add_all (p ∷ ps) true b q
                | safe ↦ push_all (p ∷ ps) true b q
              ])
              d
      go separate e = add_all-Covered b dir (p ∷ ps) q d s v c
      go safe e = push_all-Covered b (p ∷ ps) q d c
      go covered e = early c
        where
          early : Covered q d ⊎ ExtendsAny (p ∷ ps) d → Covered q d
          early (inl already) = already
          early (inr x) =
              batch_verdict-covered (go_up p).0 q d above.0 v
                (subst (λ (t : List Str). Extends t d) (sym above.1)
                  (Siblings-Extends dir (p ∷ ps) d s x))
                e
