-- ===== src/FileEntry/Marks.antt =====
-- `markChildrenPendingDelete`: which entries are marked, and the counts it gives.
use spacedisplay.Common.{
  ℕ, ◌+◌, ◌≡◌, refl, ap, ◌∙◌, Bool, true, not, ◌||◌, List, [], ◌∷◌, arith, ltb, if◌then◌else◌,
}
use spacedisplay.FileEntry.{Ptr, Store, update, chains, mark_all, mark_children_pending_delete}
use spacedisplay.FileEntry.Bins.{count, number, number-same}

abbrev pub marked : Store → Ptr → Bool
marked h q = let e = h q in e.pending_delete

abbrev pub dir : Store → Ptr → Bool
dir h q = let e = h q in e.is_dir

mark_all_lem :
    (cs : List Ptr) (h : Store) (files dirs : ℕ)
    → let (k, f, d) = mark_all cs h files dirs in
      ((q : Ptr) → marked k q ≡ (ltb 0 (count q cs) || marked h q))
      × (f ≡ files + number (λ q. not (dir h q)) cs)
      × (d ≡ dirs + number (dir h) cs)
unfolding mark_all count number
mark_all_lem [] h files dirs = ((λ q. refl), omega arith, omega arith)
mark_all_lem (c ∷ cs) h files dirs =
    let k : Store = let e = h c in update h c (record e { pending_delete = true }) in
    let same : (q : Ptr) → dir k q ≡ dir h q = λ q. ground arith in
    let (m, f, d) =
      mark_all_lem cs k (if dir h c then files else files + 1)
        (if dir h c then dirs + 1 else dirs) in
    (
      (λ q. m q ∙ ground (arith, m q)),
      f
          ∙ ground (
            arith,
            number-same (λ q. not (dir k q)) (λ q. not (dir h q)) (λ q. ap not (same q)) cs,
          ),
      d ∙ ground (arith, number-same (dir k) (dir h) same cs),
    )

-- `markChildrenPendingDelete` marks the children and leaves the marks of all other entries, and
-- counts the files and the directories among the children.
pub mark_children_pending_delete_lem :
    (this : Ptr) (h : Store)
    → let (k, files, dirs) = mark_children_pending_delete this h in
      let cs = chains (h this).children in
      ((q : Ptr) → marked k q ≡ (ltb 0 (count q cs) || marked h q))
      × (files ≡ number (λ q. not (dir h q)) cs)
      × (dirs ≡ number (dir h) cs)
unfolding mark_children_pending_delete
mark_children_pending_delete_lem this h =
    let (m, f, d) = mark_all_lem (chains (h this).children) h 0 0 in
    (m, f ∙ omega arith, d ∙ omega arith)
