-- ===== src/FileEntry/AddChild.antt =====
-- `addChild` hangs an entry into the tree and tells the entries above of its size.
use spacedisplay.Common.{
  ℕ, ◌≤◌, ◌≡◌, refl, ◌∙◌, ◌≢◌, inl, inr, Bool, true, ◌&&◌, none, some, arith, ◌==◌, ==_iff,
  Bool-cases, if◌then◌else◌,
}
use spacedisplay.Common.Int.{ℤ, ◌+ℤ◌, int_laws}
use spacedisplay.FileEntry.{Ptr, Store, update, insert_child, attach, chains, total, add_child}
use spacedisplay.FileEntry.Bins.{
  count, BinsOk, Removed-count, Removed-total, insert_child-BinsOk, insert_child-Removed,
}
use spacedisplay.FileEntry.Tree.{IsPending, is_parent, Up, root, up}
use spacedisplay.FileEntry.Operations.{IsSettled, notify_parent-IsSettled}

-- The entry at the end of the way up.
abbrev pub origin : {h : Store} {attached : Ptr → Bool} {c : Ptr} {n : ℕ} → Up h attached c n → Ptr
origin (root {c = c} e) = c
origin (up p a e n u) = origin u

-- A way that does not end at an entry without a parent does not meet it.
Up-apart :
    {h k : Store} {attached : Ptr → Bool} {x : Ptr} {n : ℕ} (c : Ptr)
    → (h c).parent ≡ none
    → ((q : Ptr) → q ≢ c → (k q).parent ≡ (h q).parent)
    → (u : Up h attached x n) → origin u ≢ c
    → Up k attached x n
Up-apart c alone same (root {c = x} e) ne = root (same x ne ∙ e)
Up-apart {h = h} c alone same (up {c = x} p a e n u) ne =
    up p a (same x (λ m. cc) ∙ e) n (Up-apart c alone same u ne)

regroup : (o t s : ℤ) → o +ℤ t +ℤ s ≡ o +ℤ (s +ℤ t)
regroup o t s = omega int_laws

module _ (h : Store) (this c : Ptr) (ne : c ≢ this) where
  abbrev added : Store
  added =
      let h1 = attach this c h in
      let t = h1 this in update h1 this (record t { size = t.size +ℤ (h c).size })

  added-parent : (q : Ptr) → (added q).parent ≡ (if q == c then some this else (h q).parent)
  unfolding attach
  added-parent q = ground arith

  added-size :
      (q : Ptr) → (added q).size ≡ (if q == this then (h this).size +ℤ (h c).size else (h q).size)
  unfolding attach
  added-size q = ground arith

  added-children :
      (q : Ptr)
      → (added q).children
        ≡ (if q == this then insert_child (h c).size c (h this).children else (h q).children)
  unfolding attach
  added-children q = ground arith

  module _ (own : Ptr → ℤ) (attached : Ptr → Bool) (v : IsSettled own attached h)
      (alone : (h c).parent ≡ none) (at : attached c ≡ true) where
    abbrev key : Ptr → ℤ
    key q = (h q).size

    added-bins : (q : Ptr) → BinsOk key (added q).children
    added-bins q = rw (added-children q) (elim (Bool-cases (q == this)) [
      | inl t ↦ rw t (insert_child-BinsOk key c (h c).size (h this).children refl (v.bins this))
      | inr t ↦ rw t (v.bins q)
    ])

    new_sum :
        (h this).size +ℤ (h c).size
        ≡ own this +ℤ total key (chains (insert_child (h c).size c (h this).children))
    new_sum =
        rw
          (
            v.sums this,
            Removed-total key c (insert_child-Removed key c (h c).size (h this).children),
          )
          (regroup (own this) (total key (chains (h this).children)) (h c).size)

    added-linked :
        (q x : Ptr)
        → count x (chains (added q).children)
          ≡ (if attached x && is_parent (added x).parent q then 1 else 0)
    added-linked q x =
        rw (added-children q, added-parent x)
          (elim (Bool-cases (q == this)) [
            | inl t ↦ rw t (
                ground (
                  arith,
                  v.linked this x,
                  Removed-count c x (insert_child-Removed key c (h c).size (h this).children),
                ))
            | inr t ↦ rw t (ground (arith, v.linked q x))
          ])

    added-sums : (q : Ptr) → (added q).size ≡ own q +ℤ total key (chains (added q).children)
    added-sums q =
        rw (added-children q, added-size q)
          (elim (Bool-cases (q == this)) [
            | inl t ↦ rw (t, (==_iff q this).0 t) new_sum
            | inr t ↦ rw t (v.sums q)
          ])

    added-IsPending : IsPending key own attached added this (h c).size
    added-IsPending = record {
      tree = record { bins = added-bins; linked = added-linked; sums = added-sums };
      settled = λ q n. rw (added-size q) (ground arith);
      changed = rw (added-size this) (ground arith);
    }

-- `addChild` of an entry without a parent, to an entry below another root, leaves a tree whose
-- sizes agree, and what each entry counts for by itself is unchanged; the fuel that is needed is
-- the depth of the entry that is added to.
pub add_child-IsSettled :
    (own : Ptr → ℤ) (attached : Ptr → Bool) (fuel n : ℕ) (h : Store) (this c : Ptr)
    → n ≤ fuel
    → IsSettled own attached h
    → (h c).parent ≡ none
    → attached c ≡ true
    → c ≢ this
    → (u : Up h attached this n) → origin u ≢ c
    → IsSettled own attached (add_child fuel this c h)
unfolding add_child
add_child-IsSettled own attached fuel n h this c l v alone at ne u apart =
    notify_parent-IsSettled own attached fuel n (λ q. (h q).size) (added h this c ne) this
      (h c).size l (added-IsPending h this c ne own attached v alone at)
      (Up-apart c alone (λ q m. rw (added-parent h this c ne q) (ground arith)) u apart)
