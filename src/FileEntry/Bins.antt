-- ===== src/FileEntry/Bins.antt =====
-- The bins of one directory: what `insert_child`, `detach` and `sweep` keep.
use spacedisplay.Common.{
  Bool, ℕ, ◌+◌, ◌<◌, ◌≡◌, refl, sym, ap, subst, ◌∙◌, ◌≢◌, inl, inr, true, false, some, List, [],
  ◌∷◌, ◌++◌, arith, ltb, ◌==◌, ==_iff, Bool-cases, if◌then◌else◌, All,
}
use spacedisplay.Common.Int.{
  ℤ, pos_part, neg_part, ◌+ℤ◌, ◌==ℤ◌, ==ℤ_iff, ltb_ℤ, +ℤ_assoc, +ℤ_left_comm, int_laws,
}
use spacedisplay.FileEntry.{
  Ptr, EntryBin, insert_child, unlink, without_empty, detach, chains, total,
}

infix 50 ◌<ℤ◌
abbrev pub ◌<ℤ◌ : ℤ → ℤ → Type 0
a <ℤ b = pos_part a + neg_part b < pos_part b + neg_part a

-- The second list is the first without one occurrence of an entry.
pub data Removed (c : Ptr) : List Ptr → List Ptr → Type 0 where
  here : {xs : List Ptr} → Removed c (c ∷ xs) xs
  there : {x : Ptr} {xs ys : List Ptr} → Removed c xs ys → Removed c (x ∷ xs) (x ∷ ys)

pub Removed-front :
    (c : Ptr) {xs ys : List Ptr} (zs : List Ptr) → Removed c xs ys → Removed c (xs ++ zs) (ys ++ zs)
Removed-front c zs here = here
Removed-front c zs (there r) = there (Removed-front c zs r)

pub Removed-behind :
    (c : Ptr) (zs : List Ptr) {xs ys : List Ptr} → Removed c xs ys → Removed c (zs ++ xs) (zs ++ ys)
Removed-behind c [] r = r
Removed-behind c (z ∷ zs) r = there (Removed-behind c zs r)

-- How often an entry stands in a list.
unfoldable pub count : Ptr → List Ptr → ℕ
count c [] = 0
count c (x ∷ xs) = (if x == c then 1 else 0) + count c xs

-- How many entries of a list pass a test.
unfoldable pub number : (Ptr → Bool) → List Ptr → ℕ
number test [] = 0
number test (e ∷ es) = (if test e then 1 else 0) + number test es

pub number-same :
    (f g : Ptr → Bool) → ((q : Ptr) → f q ≡ g q) → (xs : List Ptr) → number f xs ≡ number g xs
unfolding number
number-same f g e [] = refl
number-same f g e (x ∷ xs) = rw (e x, number-same f g e xs) refl

abbrev pub Below : ℤ → List EntryBin → Type 0
Below s bs = All (λ (b : EntryBin). b.size <ℤ s) bs

-- Bins fall in size, none is empty, and each holds entries of its size as `key` records it.
abbrev pub BinsOk : (Ptr → ℤ) → List EntryBin → Type 0
BinsOk key [] = Unit {0}
BinsOk key (b ∷ bs) =
    Below b.size bs × (b.chain ≢ []) × All (λ c. key c ≡ b.size) b.chain × BinsOk key bs

pub count-append : (c : Ptr) (xs ys : List Ptr) → count c (xs ++ ys) ≡ count c xs + count c ys
unfolding count
count-append c [] ys = omega arith
count-append c (x ∷ xs) ys = omega (arith, count-append c xs ys)

pub total-append :
    (key : Ptr → ℤ) (xs ys : List Ptr) → total key (xs ++ ys) ≡ total key xs +ℤ total key ys
unfolding total
total-append key [] ys = omega int_laws
total-append key (x ∷ xs) ys =
    ap (◌+ℤ◌ (key x)) (total-append key xs ys)
    ∙ sym (+ℤ_assoc (key x) (total key xs) (total key ys))

pub Removed-count :
    (c : Ptr) {xs ys : List Ptr} (x : Ptr)
    → Removed c xs ys
    → count x xs ≡ (if c == x then 1 else 0) + count x ys
unfolding count
Removed-count c x here = refl
Removed-count c x (there r) = omega (arith, Removed-count c x r)

pub Removed-total :
    (key : Ptr → ℤ) (c : Ptr) {xs ys : List Ptr}
    → Removed c xs ys
    → total key xs ≡ key c +ℤ total key ys
unfolding total
Removed-total key c here = refl
Removed-total key c (there {x = x} {ys = ys} r) =
    ap (◌+ℤ◌ (key x)) (Removed-total key c r) ∙ +ℤ_left_comm (key x) (key c) (total key ys)

Removed-All :
    (P : Ptr → Type 0) (c : Ptr) {xs ys : List Ptr} → Removed c xs ys → All P xs → All P ys
Removed-All P c here a = a.1
Removed-All P c (there r) a = (a.0, Removed-All P c r a.1)

Below-mono : (s t : ℤ) (bs : List EntryBin) → s <ℤ t → Below s bs → Below t bs
Below-mono s t [] l b = tt
Below-mono s t (x ∷ bs) l b = (omega arith, Below-mono s t bs l b.1)

module _ (key : Ptr → ℤ) (c : Ptr) (s : ℤ) where
  insert_child-Below :
      (t : ℤ) (bs : List EntryBin) → s <ℤ t → Below t bs → Below t (insert_child s c bs)
  unfolding insert_child
  insert_child-Below t [] l b = (l, tt)
  insert_child-Below t (x ∷ bs) l b = ground (arith, insert_child-Below t bs l b.1)

  pub insert_child-BinsOk :
      (bs : List EntryBin) → key c ≡ s → BinsOk key bs → BinsOk key (insert_child s c bs)
  unfolding insert_child
  insert_child-BinsOk [] e ok = (tt, (λ z. cc), (e, tt), tt)
  insert_child-BinsOk (x ∷ bs) e ok = elim (Bool-cases (x.size ==ℤ s)) [
    | inl t ↦ rw t (ok.0, (λ z. cc), (e ∙ sym ((==ℤ_iff x.size s).0 t), ok.2), ok.3)
    | inr n ↦ elim (Bool-cases (ltb_ℤ x.size s)) [
      | inl t ↦
          let l : x.size <ℤ s = ground arith in
          rw (n, t) ((l, Below-mono x.size s bs l ok.0), (λ z. cc), (e, tt), ok)
      | inr t ↦
          rw (n, t)
            (
              insert_child-Below x.size bs (ground arith) ok.0,
              ok.1,
              ok.2,
              insert_child-BinsOk bs e ok.3,
            )
    ]
  ]

  -- The new entry stands in the bins once more than before, and all else as before.
  pub insert_child-Removed :
      (bs : List EntryBin) → Removed c (chains (insert_child s c bs)) (chains bs)
  unfolding insert_child chains
  insert_child-Removed [] = here
  insert_child-Removed (b ∷ bs) = elim (Bool-cases (b.size ==ℤ s)) [
    | inl t ↦ rw t here
    | inr n ↦ elim (Bool-cases (ltb_ℤ b.size s)) [
      | inl t ↦ rw (n, t) here
      | inr t ↦ rw (n, t) (Removed-behind c b.chain (insert_child-Removed bs))
    ]
  ]

-- An entry that a chain holds is unlinked from it.
unlink_lem :
    (c : Ptr) (xs : List Ptr)
    → 0 < count c xs
    → (ys : List Ptr) × (unlink c xs ≡ some ys) × Removed c xs ys
unfolding unlink count
unlink_lem c [] l = absurd (omega arith)
unlink_lem c (x ∷ xs) l = elim (Bool-cases (x == c)) [
  | inl t ↦
      (xs, rw (t, unlink), subst (λ (z : Ptr). Removed c (z ∷ xs) xs) (sym ((==_iff x c).0 t)) here)
  | inr n ↦ let (ys, e, f) = unlink_lem c xs (ground arith) in (x ∷ ys, rw (n, e), there f)
]

pub without_empty-chains :
    (b : EntryBin) (bs : List EntryBin) (ys : List Ptr)
    → chains (without_empty b bs ys) ≡ ys ++ chains bs
unfolding chains
without_empty-chains b bs [] = refl
without_empty-chains b bs (y ∷ ys) = refl

pub without_empty-BinsOk :
    (key : Ptr → ℤ) (b : EntryBin) (bs : List EntryBin) (ys : List Ptr)
    → Below b.size bs
    → All (λ c. key c ≡ b.size) ys
    → BinsOk key bs
    → BinsOk key (without_empty b bs ys)
without_empty-BinsOk key b bs [] l a ok = ok
without_empty-BinsOk key b bs (y ∷ ys) l a ok = (l, (λ z. cc), a, ok)

count-All :
    (key : Ptr → ℤ) (c : Ptr) (s : ℤ) (xs : List Ptr)
    → All (λ x. key x ≡ s) xs
    → 0 < count c xs
    → key c ≡ s
unfolding count
count-All key c s [] a l = absurd (omega arith)
count-All key c s (x ∷ xs) a l = elim (Bool-cases (x == c)) [
  | inl t ↦ subst (λ (z : Ptr). key z ≡ s) ((==_iff x c).0 t) a.0
  | inr n ↦ count-All key c s xs a.1 (ground arith)
]

count-Below :
    (key : Ptr → ℤ) (c : Ptr) (s : ℤ) (bs : List EntryBin)
    → Below s bs
    → BinsOk key bs
    → 0 < count c (chains bs)
    → key c <ℤ s
unfolding chains count
count-Below key c s [] l ok n = absurd (omega arith)
count-Below key c s (b ∷ bs) l ok n = elim (Bool-cases (ltb 0 (count c b.chain))) [
  | inl t ↦ subst (λ (z : ℤ). z <ℤ s) (sym (count-All key c b.size b.chain ok.2 (ground arith))) l.0
  | inr t ↦ count-Below key c s bs l.1 ok.3 (ground (arith, count-append c b.chain (chains bs)))
]

pub without_empty-Below :
    (t : ℤ) (b : EntryBin) (bs : List EntryBin) (ys : List Ptr)
    → Below t (b ∷ bs)
    → Below t (without_empty b bs ys)
without_empty-Below t b bs [] l = l.1
without_empty-Below t b bs (y ∷ ys) l = l

-- What is left when an entry has been taken out of the bins.
pub record IsDetached (key : Ptr → ℤ) (c : Ptr) (bs bs' : List EntryBin) : Type 0 where
  pub ok : BinsOk key bs'
  pub removed : Removed c (chains bs) (chains bs')
  pub below : (t : ℤ) → Below t bs → Below t bs'

-- An entry that the bins hold is found by the size that is recorded for it.
pub detach_lem :
    (key : Ptr → ℤ) (c : Ptr) (bs : List EntryBin)
    → BinsOk key bs
    → 0 < count c (chains bs)
    → (bs' : List EntryBin) × (detach c (key c) bs ≡ some bs') × IsDetached key c bs bs'
unfolding detach chains count
detach_lem key c [] ok l = absurd (omega arith)
detach_lem key c (b ∷ bs) ok l = elim (Bool-cases (ltb 0 (count c b.chain))) [
  | inl t ↦
      let (ys, u, r) = unlink_lem c b.chain (ground arith) in
      let same : (b.size ==ℤ key c) ≡ true =
        (==ℤ_iff b.size (key c)).1 (sym (count-All key c b.size b.chain ok.2 (ground arith))) in
      (
        without_empty b bs ys,
        rw (same, u),
        record {
          ok =
              without_empty-BinsOk key b bs ys ok.0 (Removed-All (λ x. key x ≡ b.size) c r ok.2)
                ok.3;
          removed =
              subst (Removed c (b.chain ++ chains bs)) (sym (without_empty-chains b bs ys))
                (Removed-front c (chains bs) r);
          below = λ s l. without_empty-Below s b bs ys l;
        },
      )
  | inr t ↦
      let later : 0 < count c (chains bs) = ground (arith, count-append c b.chain (chains bs)) in
      let smaller : key c <ℤ b.size = count-Below key c b.size bs ok.0 ok.3 later in
      let differs : (b.size ==ℤ key c) ≡ false = ground arith in
      let (bs', d, i) = detach_lem key c bs ok.3 later in
      (
        b ∷ bs',
        rw (differs, d),
        record {
          ok = (i.below b.size ok.0, ok.1, ok.2, i.ok);
          removed = Removed-behind c b.chain i.removed;
          below = λ s l. (l.0, i.below s l.1);
        },
      )
]
