-- ===== src/FileEntry/Delete.antt =====
-- `removePendingDelete`: what is moved out of the bins, and the sizes above.
use mathlib.Core.Path.{fun_ext}
use spacedisplay.Common.{
  ℕ, suc, ◌≤◌, ◌≡◌, refl, ap, subst, ◌∙◌, inl, inr, Bool, false, not, ◌&&◌, Option, none, some,
  List, arith, ◌==◌, ==_iff, Bool-cases, if◌then◌else◌,
}
use spacedisplay.Common.Int.{ℤ, pos, ◌+ℤ◌, ◌-ℤ◌, ◌≤ℤ◌, ltb_ℤ, int_laws, eq_of_parts}
use spacedisplay.FileEntry.{
  Ptr, EntryBin, Store, update, sweep, chains, total, notify_parent, remove_pending_delete,
}
use spacedisplay.FileEntry.Bins.{count, BinsOk}
use spacedisplay.FileEntry.Tree.{IsTree, IsPending, is_parent, Up, Up-same, root, up}
use spacedisplay.FileEntry.Operations.{IsSettled, notify_parent-IsSettled, notify_parent-parent}
use spacedisplay.FileEntry.Sweep.{pending, IsSplit, sweep-IsSplit, sweep-BinsOk, total-nonneg}

less : (o k c : ℤ) → o +ℤ (k +ℤ c) -ℤ c ≡ o +ℤ k
less o k c = omega int_laws

one_parent :
    (o : Option Ptr) (q p : Ptr) → (q == p) ≡ false → (is_parent o q && is_parent o p) ≡ false
one_parent none q p n = refl
one_parent (some x) q p n = ground arith

minus : (s c : ℤ) → s -ℤ c ≡ s +ℤ (pos 0 -ℤ c)
minus s c = omega int_laws

minus_zero : (s : ℤ) → s -ℤ pos 0 ≡ s
minus_zero s = omega int_laws

-- The way up has one length.
Up-length :
    {h : Store} {attached : Ptr → Bool} {c : Ptr} {n m : ℕ}
    → Up h attached c n
    → Up h attached c m
    → n ≡ m
Up-length (root e) (root e') = refl
Up-length (root e) (up p a e' n u) = absurd cc
Up-length (up p a e n u) (root e') = absurd cc
Up-length {h = h} {attached = att} (up p a e n u) (up {n = m} p' a' e' n' u') =
    let same : p' ≡ p = cc in ap suc (Up-length u (subst (λ (z : Ptr). Up h att z m) same u'))

-- The children that are marked.
abbrev pub deleted : Store → Ptr → Ptr → Bool
deleted h this q = pending h q && is_parent (h q).parent this

module _ (h : Store) (this : Ptr) (attached : Ptr → Bool) where
  abbrev pub remaining : Ptr → Bool
  remaining q = attached q && not (deleted h this q)

  -- No entry on the way up from `this` is a child of `this`.
  Up-remaining :
      {x : Ptr} {m n : ℕ} → Up h attached this n → m ≤ n → Up h attached x m → Up h remaining x m
  Up-remaining way l (root e) = root e
  Up-remaining {n = n} way l (up {c = x} {n = m} p a e ne u) =
      up p
        (rw (a, e)
          (elim (Bool-cases (p == this)) [
            | inl t ↦
                let same : p ≡ this = (==_iff p this).0 t in
                absurd
                  (omega (arith, Up-length way (subst (λ (z : Ptr). Up h attached z m) same u)))
            | inr t ↦ rw t (ground arith)
          ]))
        e ne (Up-remaining way (omega arith) u)

  module _ (own : Ptr → ℤ) (v : IsSettled own attached h) where
    abbrev key : Ptr → ℤ
    key q = (h q).size

    abbrev bins : List EntryBin
    bins = (sweep h (h this).children).0

    abbrev moved_out : List Ptr
    moved_out = (sweep h (h this).children).1

    abbrev changed : ℤ
    changed = total key moved_out

    split : IsSplit h (chains (h this).children) (chains bins) moved_out
    split = sweep-IsSplit h (h this).children

    moved_out-count :
        (c : Ptr) → count c moved_out ≡ (if attached c && deleted h this c then 1 else 0)
    moved_out-count c = ground (arith, split.out c, v.linked this c)

    -- Any store in which `this` has the bins that are left and the size that is left.
    module _ (k : Store) (parents : (q : Ptr) → (k q).parent ≡ (h q).parent)
        (children : (q : Ptr) → (k q).children ≡ (if q == this then bins else (h q).children))
        (sizes : (q : Ptr) → (k q).size ≡ (if q == this then key this -ℤ changed else key q)) where
      swept-bins : (q : Ptr) → BinsOk key (k q).children
      swept-bins q = rw (children q) (elim (Bool-cases (q == this)) [
        | inl t ↦ rw t (sweep-BinsOk key h (h this).children (v.bins this))
        | inr t ↦ rw t (v.bins q)
      ])

      swept-linked :
          (q c : Ptr)
          → count c (chains (k q).children)
            ≡ (if remaining c && is_parent (k c).parent q then 1 else 0)
      swept-linked q c =
          rw (children q, parents c)
            (elim (Bool-cases (q == this)) [
              | inl t ↦ rw (t, (==_iff q this).0 t) (ground (arith, split.left c, v.linked this c))
              | inr t ↦ rw t (ground (arith, v.linked q c, one_parent (h c).parent q this t))
            ])

      swept-sums : (q : Ptr) → (k q).size ≡ own q +ℤ total key (chains (k q).children)
      swept-sums q =
          rw (children q, sizes q)
            (elim (Bool-cases (q == this)) [
              | inl t ↦
                  rw (t, (==_iff q this).0 t, v.sums this, split.sizes key)
                    (less (own this) (total key (chains bins)) changed)
              | inr t ↦ rw t (v.sums q)
            ])

      swept-IsTree : IsTree key own remaining k
      swept-IsTree = record { bins = swept-bins; linked = swept-linked; sums = swept-sums }

      swept-IsPending : IsPending key own remaining k this (pos 0 -ℤ changed)
      swept-IsPending = record {
        tree = swept-IsTree;
        settled = λ q n. rw (sizes q) (ground arith);
        changed = sizes this ∙ ground (arith, minus (key this) changed);
      }

      swept-IsSettled : changed ≡ pos 0 → IsSettled own remaining k
      swept-IsSettled e =
          subst (λ (f : Ptr → ℤ). IsTree f own remaining k) (fun_ext same) swept-IsTree
        where
          same : (q : Ptr) → key q ≡ (k q).size
          same q = rw (sizes q, e) (ground (arith, minus_zero (key q)))

-- In a tree of which no size is negative, `removePendingDelete` of an entry moves out exactly the
-- children of that entry that are marked, each once, and leaves a tree of all others in which all
-- sizes agree and in which no entry has another parent than before. The fuel that is needed is the
-- entry's depth.
pub remove_pending_delete-IsSettled :
    (own : Ptr → ℤ) (attached : Ptr → Bool) (fuel n : ℕ) (h : Store) (this : Ptr)
    → n ≤ fuel
    → IsSettled own attached h
    → ((q : Ptr) → pos 0 ≤ℤ (h q).size)
    → Up h attached this n
    → let (k, out) = remove_pending_delete fuel this h in
      IsSettled own (remaining h this attached) k
      × ((c : Ptr) → count c out ≡ (if attached c && deleted h this c then 1 else 0))
      × ((q : Ptr) → (k q).parent ≡ (h q).parent)
unfolding remove_pending_delete
remove_pending_delete-IsSettled own attached fuel n h this l v nonneg u =
    elim (Bool-cases (ltb_ℤ (pos 0) c)) [
      | inl t ↦ rw t (notified, out, parents)
      | inr t ↦ rw t (
        swept-IsSettled h this attached own v same (λ q. ground arith) (λ q. ground arith)
            (same_size (zero_of t)) (zero_of t),
        out,
        λ q. ground arith,
      )
    ]
  where
    c : ℤ
    c = changed h this attached own v

    left : List EntryBin
    left = bins h this attached own v

    same : Store
    same = let t = h this in update h this (record t { children = left })

    smaller : Store
    smaller = let t = h this in update same this (record t { children = left; size = t.size -ℤ c })

    zero_of : ltb_ℤ (pos 0) c ≡ false → c ≡ pos 0
    zero_of t =
        eq_of_parts c (pos 0)
          (ground (arith, total-nonneg (λ q. (h q).size) nonneg (moved_out h this attached own v)))

    same_size :
        c ≡ pos 0
        → (q : Ptr) → (same q).size ≡ (if q == this then (h this).size -ℤ c else (h q).size)
    same_size e q = rw e (ground (arith, minus_zero (h q).size))

    out :
        (x : Ptr)
        → count x (moved_out h this attached own v)
          ≡ (if attached x && deleted h this x then 1 else 0)
    out = moved_out-count h this attached own v

    notified :
        IsSettled own (remaining h this attached) (notify_parent fuel this (pos 0 -ℤ c) smaller)
    notified =
        notify_parent-IsSettled own (remaining h this attached) fuel n (λ q. (h q).size) smaller
          this (pos 0 -ℤ c) l
          (swept-IsPending h this attached own v smaller (λ q. ground arith) (λ q. ground arith)
            (λ q. ground arith))
          (Up-same (λ q. ground arith) (Up-remaining h this attached u (omega arith) u))

    kept : (q : Ptr) → (smaller q).parent ≡ (h q).parent
    kept q = ground arith

    parents : (q : Ptr) → (notify_parent fuel this (pos 0 -ℤ c) smaller q).parent ≡ (h q).parent
    parents q =
        notify_parent-parent attached fuel smaller this (pos 0 -ℤ c)
          (Up-same {h = h} (λ q. ground arith) u) q
        ∙ kept q
