-- ===== src/FileEntry/Operations.antt =====
-- `setSize` and `addChild` keep the tree of entries, up to the root.
use mathlib.Core.Path.{fun_ext}
use spacedisplay.Common.{
  ℕ, zero, suc, ◌≤◌, ◌<◌, ◌≡◌, refl, sym, ap, subst, ◌∙◌, ◌≢◌, inl, inr, Bool, true, Option, none,
  some, List, arith, ◌==◌, ==_iff, Bool-cases, Option-cases,
}
use spacedisplay.Common.Int.{ℤ, pos, ◌+ℤ◌, ◌-ℤ◌, ◌==ℤ◌, ==ℤ_iff, +ℤ_zero, +ℤ_difference, int_laws}
use spacedisplay.FileEntry.{
  Ptr, EntryBin, Store, update, attach, detach, chains, total, on_child_size_changed, notify_parent,
  set_size,
}
use spacedisplay.FileEntry.Bins.{count, detach_lem}
use spacedisplay.FileEntry.Tree.{
  IsTree, IsPending, set_at, moved, moved-parent, recorded, once, after-IsPending, Up, root, up,
  Up-same, BinsOk-set_at, total-set_at,
}

-- The bins go by the sizes of the entries, each entry hangs in its parent's bins once, and each
-- size is what the entry counts for by itself and the sizes of its children.
abbrev pub IsSettled : (Ptr → ℤ) → (Ptr → Bool) → Store → Type 0
IsSettled own attached h = IsTree (λ q. (h q).size) own attached h

module _ (own : Ptr → ℤ) (attached : Ptr → Bool) where
  -- At the root nobody has to be told.
  settle_root :
      (key : Ptr → ℤ) (h : Store) (c : Ptr) (change : ℤ)
      → IsPending key own attached h c change
      → (h c).parent ≡ none
      → IsSettled own attached h
  settle_root key h c change v e =
      subst (λ (k : Ptr → ℤ). IsTree k own attached h) (fun_ext same) tree
    where
      nowhere : (p : Ptr) → count c (chains (h p).children) ≡ 0
      nowhere p = ground (arith, v.tree.linked p c)

      tree : IsTree (set_at key c (h c).size) own attached h
      tree = record {
        bins = λ p. BinsOk-set_at key c (h c).size (h p).children (nowhere p) (v.tree.bins p);
        linked = v.tree.linked;
        sums = λ p.
            rw (total-set_at key c (h c).size (chains (h p).children) (nowhere p)) (v.tree.sums p);
      }

      same : (q : Ptr) → set_at key c (h c).size q ≡ (h q).size
      same q = ground (arith, v.settled q)

  -- One round with the parent's record computed away.
  on_child_size_changed-moved :
      (fuel : ℕ) (this c : Ptr) (change : ℤ) (h : Store) (bins : List EntryBin)
      → c ≢ this
      → (h c).parent ≡ some this
      → detach c ((h c).size -ℤ change) (h this).children ≡ some bins
      → on_child_size_changed (suc fuel) (some this) c change h
        ≡ on_child_size_changed fuel (h this).parent this change (moved h this c bins change)
  unfolding on_child_size_changed attach
  on_child_size_changed-moved fuel this c change h bins ne e d =
      rw (d, on_child_size_changed)
        (ap
          (λ (o : Option Ptr).
            on_child_size_changed fuel o this change (moved h this c bins change))
          (ground arith))

  on_child_size_changed-none :
      (fuel : ℕ) (c : Ptr) (change : ℤ) (h : Store) → on_child_size_changed fuel none c change h ≡ h
  unfolding on_child_size_changed
  on_child_size_changed-none zero c change h = refl
  on_child_size_changed-none (suc fuel) c change h = refl

  -- A change that the parent has not been told of is settled when it has travelled up, with as
  -- much fuel as the way is long.
  pub on_child_size_changed-IsSettled :
      (fuel n : ℕ) (key : Ptr → ℤ) (h : Store) (c : Ptr) (change : ℤ)
      → n ≤ fuel
      → IsPending key own attached h c change
      → Up h attached c n
      → IsSettled own attached (on_child_size_changed fuel (h c).parent c change h)
  on_child_size_changed-IsSettled fuel _ key h c change l v (root e) =
      rw (e, on_child_size_changed-none fuel c change h) (settle_root key h c change v e)
  on_child_size_changed-IsSettled zero _ key h c change l v (up p a e ne u) = absurd (omega arith)
  on_child_size_changed-IsSettled (suc fuel) _ key h c change l v (up {n = n} p a e ne u) =
      let held : 0 < count c (chains (h p).children) =
        omega (arith, once key own attached h p c change v a e ne) in
      let (bins, d, i) = detach_lem key c (h p).children (v.tree.bins p) held in
      let d' : detach c ((h c).size -ℤ change) (h p).children ≡ some bins =
        rw (recorded key own attached h p c change v a e ne) d in
      let same = moved-parent h p c bins change ne e in
      let rest =
        on_child_size_changed-IsSettled fuel n (set_at key c (h c).size) (moved h p c bins change) p
          change (omega arith) (after-IsPending key own attached h p c change v a e ne bins i)
          (Up-same same u) in
      rw (e, on_child_size_changed-moved fuel p c change h bins ne e d') (rw (same p) at rest)

  pub notify_parent-IsSettled :
      (fuel n : ℕ) (key : Ptr → ℤ) (h : Store) (c : Ptr) (change : ℤ)
      → n ≤ fuel
      → IsPending key own attached h c change
      → Up h attached c n
      → IsSettled own attached (notify_parent fuel c change h)
  unfolding notify_parent
  notify_parent-IsSettled fuel n key h c change l v u = elim (Bool-cases (change ==ℤ pos 0)) [
    | inl t ↦ rw t (subst (λ (k : Ptr → ℤ). IsTree k own attached h) (fun_ext (same t)) v.tree)
    | inr t ↦ rw t (on_child_size_changed-IsSettled fuel n key h c change l v u)
  ]
    where
      same : (change ==ℤ pos 0) ≡ true → (q : Ptr) → key q ≡ (h q).size
      same t q = elim (Bool-cases (q == c)) [
        | inl e ↦
            rw ((==_iff q c).0 e)
              (sym (v.changed ∙ rw ((==ℤ_iff change (pos 0)).0 t) (+ℤ_zero (key c))))
        | inr n ↦ sym (v.settled q (ground arith))
      ]

-- No parent changes, however far the change travels.
on_child_size_changed-parent :
    {n : ℕ} (attached : Ptr → Bool) (fuel : ℕ) (h : Store) (c : Ptr) (change : ℤ)
    → Up h attached c n
    → (q : Ptr) → (on_child_size_changed fuel (h c).parent c change h q).parent ≡ (h q).parent
unfolding on_child_size_changed
on_child_size_changed-parent att fuel h c change (root e) q =
    rw (e, on_child_size_changed-none (λ x. pos 0) att fuel c change h) refl
on_child_size_changed-parent att zero h c change (up p a e ne u) q = rw e refl
on_child_size_changed-parent att (suc fuel) h c change (up p a e ne u) q =
    elim (Option-cases (detach c ((h c).size -ℤ change) (h p).children)) [
      | inl d ↦ rw (e, d, on_child_size_changed) refl
      | inr (bins, d) ↦
          let k = moved h p c bins change in
          let same = moved-parent h p c bins change ne e in
          ap (λ (m : Store). (m q).parent)
            (ap (λ (o : Option Ptr). on_child_size_changed (suc fuel) o c change h) e
              ∙ on_child_size_changed-moved (λ x. pos 0) att fuel p c change h bins ne e d
              ∙ ap (λ (o : Option Ptr). on_child_size_changed fuel o p change k) (sym (same p)))
          ∙ on_child_size_changed-parent att fuel k p change (Up-same same u) q
          ∙ same q
    ]

pub notify_parent-parent :
    {n : ℕ} (attached : Ptr → Bool) (fuel : ℕ) (h : Store) (c : Ptr) (change : ℤ)
    → Up h attached c n
    → (q : Ptr) → (notify_parent fuel c change h q).parent ≡ (h q).parent
unfolding notify_parent
notify_parent-parent att fuel h c change u q = elim (Bool-cases (change ==ℤ pos 0)) [
  | inl t ↦ rw t refl
  | inr t ↦ rw t (on_child_size_changed-parent att fuel h c change u q)
]

resize : (o n s t : ℤ) → s ≡ o +ℤ t → n ≡ o +ℤ (n -ℤ s) +ℤ t
resize o n s t e = rw e (omega int_laws)

-- `setSize` on an entry of the tree leaves a tree in which all sizes agree again, where the
-- entry counts for the difference more; the fuel that is needed is the entry's depth.
pub set_size-IsSettled :
    (own : Ptr → ℤ) (attached : Ptr → Bool) (fuel n : ℕ) (h : Store) (c : Ptr) (new_size : ℤ)
    → n ≤ fuel
    → IsSettled own attached h
    → Up h attached c n
    → IsSettled
        (set_at own c (own c +ℤ (new_size -ℤ (h c).size)))
        attached
        (set_size fuel c new_size h)
unfolding set_size
set_size-IsSettled own attached fuel n h c new_size l v u =
    notify_parent-IsSettled own' attached fuel n (λ q. (h q).size) h' c (new_size -ℤ (h c).size) l
      pending (Up-same parents u)
  where
    own' : Ptr → ℤ
    own' = set_at own c (own c +ℤ (new_size -ℤ (h c).size))

    h' : Store
    h' = let e = h c in update h c (record e { size = new_size })

    parents : (q : Ptr) → (h' q).parent ≡ (h q).parent
    parents q = ground arith

    children : (q : Ptr) → (h' q).children ≡ (h q).children
    children q = ground arith

    self : (c == c) ≡ true
    self = ground arith

    sum : (q : Ptr) → (h' q).size ≡ own' q +ℤ total (λ q. (h q).size) (chains (h q).children)
    sum q = elim (Bool-cases (q == c)) [
      | inl e ↦
          rw ((==_iff q c).0 e, self)
            (resize (own c) new_size (h c).size (total (λ q. (h q).size) (chains (h c).children))
              (v.sums c))
      | inr n ↦ ground (arith, v.sums q)
    ]

    pending : IsPending (λ q. (h q).size) own' attached h' c (new_size -ℤ (h c).size)
    pending = record {
      tree = record {
        bins = λ q. rw (children q) (v.bins q);
        linked = λ p q. rw (children p, parents q) (v.linked p q);
        sums = λ q. rw (children q) (sum q);
      };
      settled = λ q n. ground arith;
      changed = rw self (sym (+ℤ_difference (h c).size new_size));
    }
