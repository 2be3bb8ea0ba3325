-- ===== src/FileDb/Frame.antt =====
-- What no operation on entries changes: names, and what is a directory.
use spacedisplay.Common.{
  ℕ, zero, suc, ◌≡◌, refl, sym, ◌∙◌, inl, inr, Bool, Option, none, some, List, [], ◌∷◌, arith,
  Bool-cases, Option-cases, Str,
}
use spacedisplay.Common.Int.{ℤ, pos, ◌-ℤ◌, ◌==ℤ◌, ltb_ℤ}
use spacedisplay.FileEntry.{
  Ptr, EntryBin, FileEntry, Store, update, attach, detach, on_child_size_changed, notify_parent,
  add_child, set_size, mark_all, mark_children_pending_delete, unmark_pending_delete,
  remove_pending_delete, chains, total, sweep,
}

abbrev pub dir_at : Store → Ptr → Bool
dir_at h q = let e = h q in e.is_dir

abbrev pub name_at : Store → Ptr → Str
name_at h q = let e = h q in e.name

pub record Same (h k : Store) : Type 0 where
  pub kinds : (q : Ptr) → dir_at k q ≡ dir_at h q
  pub names : (q : Ptr) → name_at k q ≡ name_at h q

pub Same-refl : {h : Store} → Same h h
Same-refl = record { kinds = λ q. refl; names = λ q. refl }

pub Same-trans : {h k l : Store} → Same h k → Same k l → Same h l
Same-trans s t = record { kinds = λ q. t.kinds q ∙ s.kinds q; names = λ q. t.names q ∙ s.names q }

update-Same :
    (h : Store) (p : Ptr) (e : FileEntry)
    → e.is_dir ≡ dir_at h p
    → e.name ≡ name_at h p
    → Same h (update h p e)
update-Same h p e d n = record { kinds = λ q. ground (arith, d); names = λ q. ground (arith, n) }

attach-Same : (this c : Ptr) (h : Store) → Same h (attach this c h)
unfolding attach
attach-Same this c h = Same-trans (update-Same h c _ refl refl) (update-Same _ this _ refl refl)

on_child_size_changed-Same :
    (fuel : ℕ) (to : Option Ptr) (c : Ptr) (change : ℤ) (h : Store)
    → Same h (on_child_size_changed fuel to c change h)
unfolding on_child_size_changed
on_child_size_changed-Same zero none c change h = Same-refl
on_child_size_changed-Same (suc fuel) none c change h = Same-refl
on_child_size_changed-Same zero (some this) c change h = Same-refl
on_child_size_changed-Same (suc fuel) (some this) c change h =
    elim (Option-cases (detach c ((h c).size -ℤ change) (h this).children)) [
      | inl n ↦ rw (n, on_child_size_changed) Same-refl
      | inr (bins, f) ↦
          rw (f, on_child_size_changed)
            (Same-trans (update-Same h this _ refl refl) (
              Same-trans (attach-Same this c _) (
                Same-trans (update-Same _ this _ refl refl)
                  (on_child_size_changed-Same fuel _ this change _))))
    ]

notify_parent-Same :
    (fuel : ℕ) (c : Ptr) (change : ℤ) (h : Store) → Same h (notify_parent fuel c change h)
unfolding notify_parent
notify_parent-Same fuel c change h = elim (Bool-cases (change ==ℤ pos 0)) [
  | inl t ↦ rw t Same-refl
  | inr t ↦ rw t (on_child_size_changed-Same fuel (h c).parent c change h)
]

pub add_child-Same : (fuel : ℕ) (this c : Ptr) (h : Store) → Same h (add_child fuel this c h)
unfolding add_child
add_child-Same fuel this c h =
    Same-trans (attach-Same this c h)
      (Same-trans (update-Same _ this _ refl refl) (notify_parent-Same fuel this (h c).size _))

pub set_size-Same : (fuel : ℕ) (c : Ptr) (size : ℤ) (h : Store) → Same h (set_size fuel c size h)
unfolding set_size
set_size-Same fuel c size h =
    Same-trans (update-Same h c _ refl refl) (notify_parent-Same fuel c (size -ℤ (h c).size) _)

mark_all-Same : (cs : List Ptr) (h : Store) (files dirs : ℕ) → Same h (mark_all cs h files dirs).0
unfolding mark_all
mark_all-Same [] h files dirs = Same-refl
mark_all-Same (c ∷ cs) h files dirs =
    Same-trans (update-Same h c _ refl refl) (mark_all-Same cs _ _ _)

pub mark_children_pending_delete-Same :
    (this : Ptr) (h : Store) → Same h (mark_children_pending_delete this h).0
unfolding mark_children_pending_delete
mark_children_pending_delete-Same this h = mark_all-Same (chains (h this).children) h 0 0

pub unmark_pending_delete-Same : (c : Ptr) (h : Store) → Same h (unmark_pending_delete c h)
unfolding unmark_pending_delete
unmark_pending_delete-Same c h = update-Same h c _ refl refl

swept-Same :
    (h : Store) (this : Ptr) (bins : List EntryBin) (s : ℤ)
    → let t = h this in
      Same h (
        update
          (update h this (record t { children = bins }))
          this
          (record t { children = bins; size = s }))
swept-Same h this bins s =
    let t = h this in
    let h1 : Store = update h this (record t { children = bins }) in
    let first : Same h h1 = update-Same h this _ refl refl in
    Same-trans first (update-Same h1 this _ (sym (first.kinds this)) (sym (first.names this)))

pub remove_pending_delete-Same :
    (fuel : ℕ) (this : Ptr) (h : Store) → Same h (remove_pending_delete fuel this h).0
unfolding remove_pending_delete
remove_pending_delete-Same fuel this h =
    let (bins, out) = sweep h (h this).children in
    let changed = total (λ c. (h c).size) out in
    elim (Bool-cases (ltb_ℤ (pos 0) changed)) [
      | inl t ↦ rw t (
          Same-trans (swept-Same h this bins ((h this).size -ℤ changed))
            (notify_parent-Same fuel this (pos 0 -ℤ changed) _))
      | inr t ↦ rw t (update-Same h this _ refl refl)
    ]
