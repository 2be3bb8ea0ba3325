-- ===== src/FileEntry/Tree.antt =====
-- The invariant of the tree of entries, with the sizes that the bins go by kept apart from the
-- sizes of the entries: while a change of size travels up, they differ at one entry.
use spacedisplay.Common.{
  ℕ, zero, suc, ◌≡◌, refl, sym, ap, ◌∙◌, ◌≢◌, inl, inr, Bool, true, false, ◌&&◌, Option, none, some,
  List, [], ◌∷◌, arith, ◌==◌, ==_iff, Bool-cases, if◌then◌else◌, All,
}
use spacedisplay.Common.Int.{ℤ, ◌+ℤ◌, ◌-ℤ◌, +ℤ_cancel, int_laws}
use spacedisplay.FileEntry.{Ptr, EntryBin, Store, update, insert_child, attach, chains, total}
use spacedisplay.FileEntry.Bins.{
  count, count-append, BinsOk, Removed-count, Removed-total, insert_child-BinsOk,
  insert_child-Removed, IsDetached,
}

abbrev pub is_parent : Option Ptr → Ptr → Bool
is_parent none p = false
is_parent (some q) p = q == p

-- `key` is the size by which the bins hold an entry and `own` what an entry counts for besides its
-- children. An entry is attached unless it was moved out of its parent's children.
pub record IsTree (key own : Ptr → ℤ) (attached : Ptr → Bool) (h : Store) : Type 0 where
  pub bins : (p : Ptr) → BinsOk key (h p).children
  pub linked :
      (p c : Ptr)
      → count c (chains (h p).children) ≡ (if attached c && is_parent (h c).parent p then 1 else 0)
  pub sums : (p : Ptr) → (h p).size ≡ own p +ℤ total key (chains (h p).children)

-- Another value at one place.
abbrev pub set_at : (Ptr → ℤ) → Ptr → ℤ → Ptr → ℤ
set_at f p v q = if q == p then v else f q

-- One round of `onChildSizeChanged`: the child moves to the bin of its new size.
abbrev pub moved : Store → Ptr → Ptr → List EntryBin → ℤ → Store
moved h this c bins change =
    let t = h this in
    let h1 = attach this c (update h this (record t { children = bins })) in
    let t1 = h1 this in update h1 this (record t1 { size = t1.size +ℤ change })

All-set_at :
    (key : Ptr → ℤ) (c : Ptr) (v s : ℤ) (xs : List Ptr)
    → count c xs ≡ 0
    → All (λ x. key x ≡ s) xs
    → All (λ x. set_at key c v x ≡ s) xs
unfolding count
All-set_at key c v s [] n a = tt
All-set_at key c v s (x ∷ xs) n a =
    (ground (arith, a.0), All-set_at key c v s xs (ground arith) a.1)

-- Sizes and bins do not depend on the key of an entry that is not there.
pub BinsOk-set_at :
    (key : Ptr → ℤ) (c : Ptr) (v : ℤ) (bs : List EntryBin)
    → count c (chains bs) ≡ 0
    → BinsOk key bs
    → BinsOk (set_at key c v) bs
unfolding count chains
BinsOk-set_at key c v [] n ok = tt
BinsOk-set_at key c v (b ∷ bs) n ok =
    let parts = count-append c b.chain (chains bs) in
    (
      ok.0,
      ok.1,
      All-set_at key c v b.size b.chain (omega (arith, parts, n)) ok.2,
      BinsOk-set_at key c v bs (omega (arith, parts, n)) ok.3,
    )

pub total-set_at :
    (key : Ptr → ℤ) (c : Ptr) (v : ℤ) (xs : List Ptr)
    → count c xs ≡ 0
    → total (set_at key c v) xs ≡ total key xs
unfolding count total
total-set_at key c v [] n = refl
total-set_at key c v (x ∷ xs) n = ground (arith, total-set_at key c v xs)

regroup : (o k t d : ℤ) → o +ℤ (k +ℤ t) +ℤ d ≡ o +ℤ ((k +ℤ d) +ℤ t)
regroup o k t d = omega int_laws

module _ (h : Store) (this c : Ptr) (bins : List EntryBin) (change : ℤ) (ne : c ≢ this) where
  pub moved-parent :
      (h c).parent ≡ some this → (q : Ptr) → (moved h this c bins change q).parent ≡ (h q).parent
  unfolding attach
  moved-parent e q = ground arith

  pub moved-size :
      (q : Ptr)
      → (moved h this c bins change q).size
        ≡ (if q == this then (h this).size +ℤ change else (h q).size)
  unfolding attach
  moved-size q = ground arith

  pub moved-children :
      (q : Ptr)
      → (moved h this c bins change q).children
        ≡ (if q == this then insert_child (h c).size c bins else (h q).children)
  unfolding attach
  moved-children q = ground arith

-- A change of one entry's size of which its parent has not been told.
pub record IsPending (key own : Ptr → ℤ) (attached : Ptr → Bool) (h : Store) (c : Ptr) (change : ℤ)
    : Type 0 where
  pub tree : IsTree key own attached h
  pub settled : (q : Ptr) → q ≢ c → (h q).size ≡ key q
  pub changed : (h c).size ≡ key c +ℤ change

module _ (key own : Ptr → ℤ) (attached : Ptr → Bool) (h : Store) (this c : Ptr) (change : ℤ)
    (v : IsPending key own attached h c change) (at : attached c ≡ true)
    (e : (h c).parent ≡ some this) (ne : c ≢ this) where
  abbrev key' : Ptr → ℤ
  key' = set_at key c (h c).size

  pub recorded : (h c).size -ℤ change ≡ key c
  recorded = rw v.changed (+ℤ_cancel (key c) change)

  pub once : count c (chains (h this).children) ≡ 1
  once = ground (arith, v.tree.linked this c)

  elsewhere : (q : Ptr) → q ≢ this → count c (chains (h q).children) ≡ 0
  elsewhere q n = ground (arith, v.tree.linked q c)

  module _ (bins : List EntryBin) (i : IsDetached key c (h this).children bins) where
    abbrev after : Store
    after = moved h this c bins change

    gone : count c (chains bins) ≡ 0
    gone = ground (arith, Removed-count c c i.removed, once)

    after-bins : (q : Ptr) → BinsOk key' (after q).children
    after-bins q = rw (moved-children h this c bins change ne q) (elim (Bool-cases (q == this)) [
      | inl t ↦ rw t (
          insert_child-BinsOk key' c (h c).size bins (ground arith)
            (BinsOk-set_at key c (h c).size bins gone i.ok))
      | inr t ↦ rw t (
          BinsOk-set_at key c (h c).size (h q).children (elsewhere q (ground arith))
            (v.tree.bins q))
    ])

    after-linked :
        (q x : Ptr)
        → count x (chains (after q).children)
          ≡ (if attached x && is_parent (after x).parent q then 1 else 0)
    after-linked q x =
        rw (moved-children h this c bins change ne q, moved-parent h this c bins change ne e x)
          (elim (Bool-cases (q == this)) [
            | inl t ↦ rw t (
                Removed-count c x (insert_child-Removed key c (h c).size bins)
                ∙ sym (Removed-count c x i.removed)
                ∙ rw ((==_iff q this).0 t) (v.tree.linked this x))
            | inr t ↦ rw t (v.tree.linked q x)
          ])

    this_sum :
        (h this).size +ℤ change ≡ own this +ℤ total key' (chains (insert_child (h c).size c bins))
    this_sum =
        rw
          (
            v.tree.sums this,
            Removed-total key c i.removed,
            Removed-total key' c (insert_child-Removed key c (h c).size bins),
            total-set_at key c (h c).size (chains bins) gone,
          )
          (regroup (own this) (key c) (total key (chains bins)) change
            ∙ ap (λ (z : ℤ). own this +ℤ (z +ℤ total key (chains bins)))
                (sym v.changed ∙ ground arith))

    after-sums : (q : Ptr) → (after q).size ≡ own q +ℤ total key' (chains (after q).children)
    after-sums q =
        rw (moved-children h this c bins change ne q, moved-size h this c bins change ne q)
          (elim (Bool-cases (q == this)) [
            | inl t ↦ rw (t, (==_iff q this).0 t) this_sum
            | inr t ↦
                rw
                  (
                    t,
                    total-set_at key c (h c).size (chains (h q).children)
                        (elsewhere q (ground arith)),
                  )
                  (v.tree.sums q)
          ])

    pub after-IsPending : IsPending key' own attached after this change
    after-IsPending = record {
      tree = record { bins = after-bins; linked = after-linked; sums = after-sums };
      settled = λ q n. rw (moved-size h this c bins change ne q) (ground (arith, v.settled q));
      changed = rw (moved-size h this c bins change ne this) (ground (arith, v.settled this));
    }

-- The way from an entry up to the root, whose length bounds the calls.
pub data Up (h : Store) (attached : Ptr → Bool) : Ptr → ℕ → Type 0 where
  root : {c : Ptr} → (h c).parent ≡ none → Up h attached c zero
  up :
      {c : Ptr} {n : ℕ} (p : Ptr)
      → attached c ≡ true
      → (h c).parent ≡ some p
      → c ≢ p
      → Up h attached p n
      → Up h attached c (suc n)

pub Up-same :
    {h k : Store} {attached : Ptr → Bool} {c : Ptr} {n : ℕ}
    → ((q : Ptr) → (k q).parent ≡ (h q).parent)
    → Up h attached c n
    → Up k attached c n
Up-same same (root {c = c} e) = root (same c ∙ e)
Up-same same (up {c = c} p a e n u) = up p a (same c ∙ e) n (Up-same same u)
