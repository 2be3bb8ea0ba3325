-- ===== src/FileDb/Counts.antt =====
-- The counters of files and directories go with the pointers in `entriesMap`.
use spacedisplay.Common.{
  ℕ, zero, suc, ◌+◌, ◌≡◌, refl, sym, ap, subst, ◌∙◌, ◌≢◌, inl, inr, Bool, true, false, not, none,
  some, List, [], ◌∷◌, ◌++◌, arith, ◌==◌, ==_iff, Bool-cases, Option-cases, some_inj, if◌then◌else◌,
  push_back,
}
use spacedisplay.Common.Int.{pos, ◌-ℤ◌, int_laws}
use spacedisplay.FileEntry.{Ptr, EntryBin, Store, visit, for_each, chains}
use spacedisplay.FileEntry.Bins.{
  number, number-same, Removed, here, there, Removed-behind, Removed-front,
}
use spacedisplay.FileDb.{FileDb, add_pointer}
use spacedisplay.FileDb.Update.{
  erase_pointer, keep_vector, forget_pointer, cleanup_pointer, cleanup_entry_crc, cleanup_deleted,
}
use spacedisplay.FileDb.Frame.{Same, dir_at, name_at}

pub number-Removed :
    (test : Ptr → Bool) (c : Ptr) {xs ys : List Ptr}
    → Removed c xs ys
    → number test xs ≡ (if test c then 1 else 0) + number test ys
unfolding number
number-Removed test c here = refl
number-Removed test c (there r) = omega (arith, number-Removed test c r)

-- All pointers that the map holds.
unfoldable pub pointers : List (ℕ × List Ptr) → List Ptr
pointers [] = []
pointers ((k, es) ∷ m) = es ++ pointers m

push_back-Removed : (e : Ptr) (es : List Ptr) → Removed e (push_back es e) es
push_back-Removed e [] = here
push_back-Removed e (x ∷ es) = there (push_back-Removed e es)

pub add_pointer-Removed :
    (crc : ℕ) (e : Ptr) (m : List (ℕ × List Ptr))
    → Removed e (pointers (add_pointer crc e m)) (pointers m)
unfolding add_pointer pointers
add_pointer-Removed crc e [] = here
add_pointer-Removed crc e ((k, es) ∷ m) = elim (Bool-cases (k == crc)) [
  | inl t ↦ rw t (Removed-front e (pointers m) (push_back-Removed e es))
  | inr t ↦ rw t (Removed-behind e es (add_pointer-Removed crc e m))
]

none_ne_some : {A : Type 0} {x : A} → none ≢ some x
none_ne_some e = cc

erase_pointer-Removed :
    (e : Ptr) (es ys : List Ptr) → erase_pointer e es ≡ some ys → Removed e es ys
unfolding erase_pointer
erase_pointer-Removed e [] ys f = absurd cc
erase_pointer-Removed e (x ∷ es) ys f = elim (Bool-cases (x == e)) [
  | inl t ↦
      let same : es ≡ ys = some_inj (rw t at f) in
      subst (Removed e (x ∷ es)) same
        (subst (λ (z : Ptr). Removed e (z ∷ es) es) (sym ((==_iff x e).0 t)) here)
  | inr t ↦ elim (Option-cases (erase_pointer e es)) [
    | inl n ↦ absurd (none_ne_some (rw (t, n, erase_pointer) at f))
    | inr (zs, g) ↦
        let same : x ∷ zs ≡ ys = some_inj (rw (t, g) at f) in
        subst (Removed e (x ∷ es)) same (there (erase_pointer-Removed e es zs g))
  ]
]

pointers-keep_vector :
    (crc : ℕ) (es : List Ptr) (m : List (ℕ × List Ptr))
    → pointers (keep_vector crc es m) ≡ es ++ pointers m
unfolding pointers
pointers-keep_vector crc [] m = refl
pointers-keep_vector crc (x ∷ es) m = refl

pub forget_pointer-Removed :
    (crc : ℕ) (e : Ptr) (m m' : List (ℕ × List Ptr))
    → forget_pointer crc e m ≡ some m'
    → Removed e (pointers m) (pointers m')
unfolding forget_pointer pointers
forget_pointer-Removed crc e [] m' f = absurd cc
forget_pointer-Removed crc e ((k, es) ∷ m) m' f = elim (Bool-cases (k == crc)) [
  | inl t ↦ elim (Option-cases (erase_pointer e es)) [
    | inl n ↦ absurd (none_ne_some (rw (t, n) at f))
    | inr (ys, g) ↦
        let same : keep_vector k ys m ≡ m' = some_inj (rw (t, g) at f) in
        subst (λ (z : List (ℕ × List Ptr)). Removed e (es ++ pointers m) (pointers z)) same
          (subst (Removed e (es ++ pointers m)) (sym (pointers-keep_vector k ys m))
            (Removed-front e (pointers m) (erase_pointer-Removed e es ys g)))
  ]
  | inr t ↦ elim (Option-cases (forget_pointer crc e m)) [
    | inl n ↦ absurd (none_ne_some (rw (t, n, forget_pointer) at f))
    | inr (n, g) ↦
        let same : (k, es) ∷ n ≡ m' = some_inj (rw (t, g) at f) in
        subst (λ (z : List (ℕ × List Ptr)). Removed e (es ++ pointers m) (pointers z)) same
          (Removed-behind e es (forget_pointer-Removed crc e m n g))
  ]
]

-- There are as many files in the map as are counted, and one directory less, the root; and no
-- entry is without a name.
pub record IsCounted (db : FileDb) : Type 0 where
  pub files : db.file_count ≡ pos (number (λ e. not (dir_at db.store e)) (pointers db.entries_map))
  pub dirs : db.dir_count ≡ pos (suc (number (dir_at db.store) (pointers db.entries_map)))
  pub named : (q : Ptr) → name_at db.store q ≢ []

-- The counters see the store only through `is_dir` and the names.
pub IsCounted-Same :
    (db : FileDb) (k : Store) → Same db.store k → IsCounted db → IsCounted (record db { store = k })
IsCounted-Same db k s v = record {
  files =
      v.files ∙ ap pos (number-same _ _ (λ q. ap not (sym (s.kinds q))) (pointers db.entries_map));
  dirs =
      v.dirs
      ∙ ap (λ (n : ℕ). pos (suc n))
          (number-same _ _ (λ q. sym (s.kinds q)) (pointers db.entries_map));
  named = λ q e. v.named q (sym (s.names q) ∙ e);
}

cleanup_pointer-IsCounted :
    (e : Ptr) (db : FileDb) → IsCounted db → IsCounted (cleanup_pointer e db)
unfolding cleanup_pointer
cleanup_pointer-IsCounted e db v =
    elim (Option-cases (forget_pointer (db.store e).path_crc e db.entries_map)) [
      | inl n ↦ rw (n, cleanup_pointer) v
      | inr (m, f) ↦
          let r = forget_pointer-Removed (db.store e).path_crc e db.entries_map m f in
          rw (f, cleanup_pointer)
            (record {
              files = fewer_files m r (dir_at db.store e) refl;
              dirs = fewer_dirs m r (dir_at db.store e) refl;
              named = v.named;
            })
    ]
  where
    fewer_files :
        (m : List (ℕ × List Ptr))
        → Removed e (pointers db.entries_map) (pointers m)
        → (b : Bool) → dir_at db.store e ≡ b
        → (if b then db.file_count else db.file_count -ℤ pos 1)
          ≡ pos (number (λ q. not (dir_at db.store q)) (pointers m))
    fewer_files m r true t =
        rw (v.files, number-Removed (λ q. not (dir_at db.store q)) e r, t) (omega int_laws)
    fewer_files m r false t =
        rw (v.files, number-Removed (λ q. not (dir_at db.store q)) e r, t) (omega int_laws)

    fewer_dirs :
        (m : List (ℕ × List Ptr))
        → Removed e (pointers db.entries_map) (pointers m)
        → (b : Bool) → dir_at db.store e ≡ b
        → (if b then db.dir_count -ℤ pos 1 else db.dir_count)
          ≡ pos (suc (number (dir_at db.store) (pointers m)))
    fewer_dirs m r true t = rw (v.dirs, number-Removed (dir_at db.store) e r, t) (omega int_laws)
    fewer_dirs m r false t = rw (v.dirs, number-Removed (dir_at db.store) e r, t) (omega int_laws)

visit-keeps :
    {S : Type 0} (P : S → Type 0) (func : Ptr → S → S × Bool)
    → ((e : Ptr) (s : S) → P s → P (func e s).0)
    → (es : List Ptr) (s : S) → P s
    → P (visit func es s)
unfolding visit
visit-keeps P func keeps [] s p = p
visit-keeps P func keeps (e ∷ es) s p = elim (Bool-cases (func e s).1) [
  | inl t ↦ rw (t, visit) (visit-keeps P func keeps es (func e s).0 (keeps e s p))
  | inr t ↦ rw (t, visit) (keeps e s p)
]

pub for_each-keeps :
    {S : Type 0} (P : S → Type 0) (func : Ptr → S → S × Bool)
    → ((e : Ptr) (s : S) → P s → P (func e s).0)
    → (this : Ptr) (h : Store) (s : S) → P s
    → P (for_each func this h s).0
unfolding for_each
for_each-keeps {S = S} P func keeps this h s p = go (h this).children
  where
    go :
        (bs : List EntryBin)
        → P
            (elim bs as (λ _. S × Bool) [
              | [] ↦ (s, false)
              | b ∷ bs ↦ (visit func (chains (b ∷ bs)) s, true)
            ]).0
    go [] = p
    go (b ∷ bs) = visit-keeps P func keeps (chains (b ∷ bs)) s p

cleanup_entry_crc-IsCounted :
    (fuel : ℕ) (e : Ptr) (db : FileDb) → IsCounted db → IsCounted (cleanup_entry_crc fuel e db)
unfolding cleanup_entry_crc
cleanup_entry_crc-IsCounted zero e db v = v
cleanup_entry_crc-IsCounted (suc fuel) e db v = cleanup_pointer-IsCounted e _ (
    for_each-keeps IsCounted (λ c s. (cleanup_entry_crc fuel c s, true))
      (λ c s. cleanup_entry_crc-IsCounted fuel c s) e db.store db v)

pub cleanup_deleted-IsCounted :
    (fuel : ℕ) (es : List Ptr) (db : FileDb) → IsCounted db → IsCounted (cleanup_deleted fuel es db)
unfolding cleanup_deleted
cleanup_deleted-IsCounted fuel [] db v = v
cleanup_deleted-IsCounted fuel (e ∷ es) db v =
    cleanup_deleted-IsCounted fuel es (cleanup_entry_crc fuel e db)
      (cleanup_entry_crc-IsCounted fuel e db v)
