-- ===== src/FileEntry/Sweep.antt =====
-- The loops of `removePendingDelete`: what stays in the bins, and what is moved out.

use spacedisplay.Common.{
  ◌≡◌, refl, sym, ap, subst, ◌∙◌, inl, inr, Bool, true, false, List, [], ◌∷◌, ◌++◌, arith, ◌==◌,
  ==_iff, Bool-cases, if◌then◌else◌, All,
}
use spacedisplay.Common.Int.{ℤ, pos, ◌+ℤ◌, ◌≤ℤ◌, int_laws}
use spacedisplay.FileEntry.{Ptr, EntryBin, Store, sweep_rest, sweep_chain, sweep, chains, total}
use spacedisplay.FileEntry.Bins.{
  count, count-append, total-append, Below, BinsOk, without_empty-chains, without_empty-BinsOk,
  without_empty-Below,
}

abbrev pub pending : Store → Ptr → Bool
pending h c = let e = h c in e.pending_delete

-- A list of entries is split into those that are not pending and those that are.
pub record IsSplit (h : Store) (xs kept deleted : List Ptr) : Type 0 where
  pub left : (c : Ptr) → count c kept ≡ (if pending h c then 0 else count c xs)
  pub out : (c : Ptr) → count c deleted ≡ (if pending h c then count c xs else 0)
  pub sizes : (key : Ptr → ℤ) → total key xs ≡ total key kept +ℤ total key deleted

four : (a b c d : ℤ) → a +ℤ b +ℤ (c +ℤ d) ≡ a +ℤ c +ℤ (b +ℤ d)
four a b c d = omega int_laws

shift : (k x d : ℤ) → k +ℤ (x +ℤ d) ≡ k +ℤ (d +ℤ (x +ℤ pos 0))
shift k x d = omega int_laws

IsSplit-append :
    (h : Store) {xs ys kept kept' deleted deleted' : List Ptr}
    → IsSplit h xs kept deleted
    → IsSplit h ys kept' deleted'
    → IsSplit h (xs ++ ys) (kept ++ kept') (deleted ++ deleted')
IsSplit-append h {xs = xs} {ys = ys} {kept = k} {kept' = k'} {deleted = d} {deleted' = d'} s t =
    record {
      left = λ c. ground (arith, count-append c xs ys, count-append c k k', s.left c, t.left c);
      out = λ c. ground (arith, count-append c xs ys, count-append c d d', s.out c, t.out c);
      sizes = λ key.
          rw
            (
              total-append key xs ys,
              total-append key k k',
              total-append key d d',
              s.sizes key,
              t.sizes key,
            )
            (four (total key k) (total key d) (total key k') (total key d'));
    }

IsSplit-nil : (h : Store) → IsSplit h [] [] []
unfolding count total
IsSplit-nil h = record {
  left = λ c. ground arith;
  out = λ c. ground arith;
  sizes = λ key. omega int_laws;
}

-- An entry alone is kept or deleted.
module _ (h : Store) (x : Ptr) where
  known : (b : Bool) → pending h x ≡ b → (c : Ptr) → (x == c) ≡ true → pending h c ≡ b
  known b n c e = ap (pending h) (sym ((==_iff x c).0 e)) ∙ n

  one_kept : pending h x ≡ false → IsSplit h (x ∷ []) (x ∷ []) []
  unfolding count total
  one_kept n = record {
    left = λ c. elim (Bool-cases (x == c)) [
      | inl e ↦ rw (e, known false n c e) refl
      | inr e ↦ ground arith
    ];
    out = λ c. elim (Bool-cases (x == c)) [
      | inl e ↦ rw (e, known false n c e) refl
      | inr e ↦ ground arith
    ];
    sizes = λ key. omega int_laws;
  }

  one_deleted : pending h x ≡ true → IsSplit h (x ∷ []) [] (x ∷ [])
  unfolding count total
  one_deleted n = record {
    left = λ c. elim (Bool-cases (x == c)) [
      | inl e ↦ rw (e, known true n c e) refl
      | inr e ↦ ground arith
    ];
    out = λ c. elim (Bool-cases (x == c)) [
      | inl e ↦ rw (e, known true n c e) refl
      | inr e ↦ ground arith
    ];
    sizes = λ key. omega int_laws;
  }

-- The order in which entries are moved out is another.
IsSplit-last :
    (h : Store) (x : Ptr) {xs kept deleted : List Ptr}
    → IsSplit h xs kept (x ∷ deleted)
    → IsSplit h xs kept (deleted ++ x ∷ [])
unfolding count total
IsSplit-last h x {kept = k} {deleted = d} s = record {
  left = s.left;
  out = λ c. ground (arith, count-append c d (x ∷ []), s.out c);
  sizes = λ key.
      s.sizes key ∙ rw (total-append key d (x ∷ [])) (shift (total key k) (key x) (total key d));
}

sweep_rest-IsSplit :
    (h : Store) (xs : List Ptr) → let (kept, deleted) = sweep_rest h xs in IsSplit h xs kept deleted
unfolding sweep_rest
sweep_rest-IsSplit h [] = IsSplit-nil h
sweep_rest-IsSplit h (x ∷ xs) = elim (Bool-cases (pending h x)) [
  | inl e ↦ rw e (IsSplit-append h (one_deleted h x e) (sweep_rest-IsSplit h xs))
  | inr e ↦ rw e (IsSplit-append h (one_kept h x e) (sweep_rest-IsSplit h xs))
]

sweep_chain-IsSplit :
    (h : Store) (xs : List Ptr)
    → let (kept, deleted) = sweep_chain h xs in IsSplit h xs kept deleted
unfolding sweep_chain
sweep_chain-IsSplit h [] = IsSplit-nil h
sweep_chain-IsSplit h (x ∷ xs) = elim (Bool-cases (pending h x)) [
  | inl e ↦ rw e (IsSplit-last h x (IsSplit-append h (one_deleted h x e) (sweep_rest-IsSplit h xs)))
  | inr e ↦ rw e (IsSplit-append h (one_kept h x e) (sweep_rest-IsSplit h xs))
]

pub sweep-IsSplit :
    (h : Store) (bs : List EntryBin)
    → let (bins, deleted) = sweep h bs in IsSplit h (chains bs) (chains bins) deleted
unfolding sweep chains
sweep-IsSplit h [] = IsSplit-nil h
sweep-IsSplit h (b ∷ bs) =
    let (kept, deleted) = sweep_chain h b.chain in
    let (bins, more) = sweep h bs in
    subst (λ (z : List Ptr). IsSplit h (b.chain ++ chains bs) z (deleted ++ more))
      (sym (without_empty-chains b bins kept))
      (IsSplit-append h (sweep_chain-IsSplit h b.chain) (sweep-IsSplit h bs))

sweep_rest-All :
    (P : Ptr → Type 0) (h : Store) (xs : List Ptr) → All P xs → All P (sweep_rest h xs).0
unfolding sweep_rest
sweep_rest-All P h [] a = tt
sweep_rest-All P h (x ∷ xs) a = elim (Bool-cases (pending h x)) [
  | inl e ↦ rw e (sweep_rest-All P h xs a.1)
  | inr e ↦ rw e (a.0, sweep_rest-All P h xs a.1)
]

sweep_chain-All :
    (P : Ptr → Type 0) (h : Store) (xs : List Ptr) → All P xs → All P (sweep_chain h xs).0
unfolding sweep_chain
sweep_chain-All P h [] a = tt
sweep_chain-All P h (x ∷ xs) a = elim (Bool-cases (pending h x)) [
  | inl e ↦ rw e (sweep_rest-All P h xs a.1)
  | inr e ↦ rw e (a.0, sweep_rest-All P h xs a.1)
]

sweep-Below : (t : ℤ) (h : Store) (bs : List EntryBin) → Below t bs → Below t (sweep h bs).0
unfolding sweep
sweep-Below t h [] l = tt
sweep-Below t h (b ∷ bs) l =
    without_empty-Below t b (sweep h bs).0 (sweep_chain h b.chain).0 (l.0, sweep-Below t h bs l.1)

pub sweep-BinsOk :
    (key : Ptr → ℤ) (h : Store) (bs : List EntryBin) → BinsOk key bs → BinsOk key (sweep h bs).0
unfolding sweep
sweep-BinsOk key h [] ok = tt
sweep-BinsOk key h (b ∷ bs) ok =
    without_empty-BinsOk key b (sweep h bs).0 (sweep_chain h b.chain).0
      (sweep-Below b.size h bs ok.0) (sweep_chain-All (λ c. key c ≡ b.size) h b.chain ok.2)
      (sweep-BinsOk key h bs ok.3)

pub total-nonneg :
    (key : Ptr → ℤ) → ((q : Ptr) → pos 0 ≤ℤ key q) → (xs : List Ptr) → pos 0 ≤ℤ total key xs
unfolding total
total-nonneg key l [] = omega arith
total-nonneg key l (x ∷ xs) = omega (int_laws, l x, total-nonneg key l xs)
