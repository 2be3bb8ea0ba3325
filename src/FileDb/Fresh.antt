-- ===== src/FileDb/Fresh.antt =====
-- The pointers in the map of entries lie below the place where the heap goes on.
use spacedisplay.Common.{
  ℕ, zero, suc, ◌<◌, ◌≡◌, ap, subst, inl, inr, Bool, true, Option, some, List, [], ◌∷◌, Bool-cases,
  Option-cases, All,
}
use spacedisplay.Common.Int.{ℤ, pos, ◌+ℤ◌, ltb_ℤ}
use spacedisplay.FilePath.{Host, FilePath, ok, is_dir}
use spacedisplay.FilePath.Results.{ok_inj, err_ne_ok, Result-cases}
use spacedisplay.FileEntry.{
  Ptr, for_each, add_child, mark_children_pending_delete, unmark_pending_delete,
  remove_pending_delete,
}
use spacedisplay.FileEntry.Bins.{Removed, here, there}
use spacedisplay.FileDb.{FileDb, find_child, find_entry}
use spacedisplay.FileDb.Update.{
  forget_pointer, cleanup_pointer, cleanup_entry_crc, cleanup_deleted, Loop, keep_child, push_path,
  new_child, set_child, set_all, finish_children, set_children_for_path,
}
use spacedisplay.FileDb.Frame.{dir_at, name_at}
use spacedisplay.FileDb.Counts.{
  pointers, add_pointer-Removed, forget_pointer-Removed, for_each-keeps,
}

abbrev pub Below : ℕ → FileDb → Type 0
Below n db = All (λ q. q < n) (pointers db.entries_map)

All-Removed :
    (P : Ptr → Type 0) (c : Ptr) (xs ys : List Ptr) → Removed c xs ys → All P xs → All P ys
All-Removed P c _ ys here (p, h) = h
All-Removed P c _ _ (there {xs = xs} {ys = ys} r) (p, h) = (p, All-Removed P c xs ys r h)

All-Removed_back :
    (P : Ptr → Type 0) (c : Ptr) (xs ys : List Ptr) → Removed c xs ys → P c → All P ys → All P xs
All-Removed_back P c _ ys here p h = (p, h)
All-Removed_back P c _ _ (there {xs = xs} {ys = ys} r) p (q, h) =
    (q, All-Removed_back P c xs ys r p h)

cleanup_pointer-Below :
    (n : ℕ) (e : Ptr) (db : FileDb) → Below n db → Below n (cleanup_pointer e db)
unfolding cleanup_pointer
cleanup_pointer-Below n e db v =
    elim (Option-cases (forget_pointer (db.store e).path_crc e db.entries_map)) [
      | inl f ↦ rw (f, cleanup_pointer) v
      | inr (m, f) ↦
          rw (f, cleanup_pointer)
            (All-Removed (λ q. q < n) e (pointers db.entries_map) (pointers m)
              (forget_pointer-Removed (db.store e).path_crc e db.entries_map m f) v)
    ]

cleanup_entry_crc-Below :
    (n fuel : ℕ) (e : Ptr) (db : FileDb) → Below n db → Below n (cleanup_entry_crc fuel e db)
unfolding cleanup_entry_crc
cleanup_entry_crc-Below n zero e db v = v
cleanup_entry_crc-Below n (suc fuel) e db v =
    cleanup_pointer-Below n e (for_each (λ c s. (cleanup_entry_crc fuel c s, true)) e db.store db).0
      (for_each-keeps (Below n) (λ c s. (cleanup_entry_crc fuel c s, true))
        (λ c s. cleanup_entry_crc-Below n fuel c s) e db.store db v)

cleanup_deleted-Below :
    (n fuel : ℕ) (es : List Ptr) (db : FileDb) → Below n db → Below n (cleanup_deleted fuel es db)
unfolding cleanup_deleted
cleanup_deleted-Below n fuel [] db v = v
cleanup_deleted-Below n fuel (e ∷ es) db v =
    cleanup_deleted-Below n fuel es (cleanup_entry_crc fuel e db)
      (cleanup_entry_crc-Below n fuel e db v)

finish_children-Below :
    (n fuel levels : ℕ) (parent_entry : Ptr) (s : Loop)
    → Below n s.db
    → Below n (finish_children fuel levels parent_entry s)
unfolding finish_children
finish_children-Below n fuel levels parent_entry s v =
    let out = remove_pending_delete fuel parent_entry s.db.store in
    elim (Bool-cases (ltb_ℤ (pos 0) (s.deleted_file_count +ℤ s.deleted_dir_count))) [
      | inl t ↦
          rw (t, finish_children)
            (cleanup_deleted-Below n levels out.1 (record s.db { store = out.0 }) v)
      | inr t ↦ rw (t, finish_children) (cleanup_deleted-Below n levels [] s.db v)
    ]

keep_child-Below :
    (n fuel : ℕ) (e existing : Ptr) (s : Loop)
    → Below n s.db
    → Below n (keep_child fuel e existing s).db
unfolding keep_child
keep_child-Below n fuel e existing s v =
    elim (Bool-cases (dir_at (unmark_pending_delete existing s.db.store) existing)) [
      | inl t ↦ rw (t, keep_child) v
      | inr t ↦ rw (t, keep_child) v
    ]

new_child-Below :
    (host : Host) (n fuel : ℕ) (path : FilePath) (parent_entry e : Ptr) (s t : Loop)
    → e < n
    → new_child host fuel path parent_entry e s ≡ ok t
    → Below n s.db
    → Below n t.db
unfolding new_child
new_child-Below host n fuel path parent_entry e s t l f v =
    let h = add_child fuel parent_entry e s.db.store in
    elim (Result-cases (push_path host path (h e) s.new_paths)) [
      | inl g ↦ absurd (err_ne_ok (rw (g, new_child) at f))
      | inr (paths, g) ↦
          subst (λ (x : Loop). Below n x.db) (ok_inj (rw (g, new_child) at f))
            (All-Removed_back (λ q. q < n) e _ _
              (add_pointer-Removed (h e).path_crc e s.db.entries_map) l v)
    ]

set_child-Below :
    (host : Host) (n fuel : ℕ) (path : FilePath) (parent_entry e : Ptr) (s t : Loop)
    → e < n
    → set_child host fuel path parent_entry e s ≡ ok t
    → Below n s.db
    → Below n t.db
unfolding set_child
set_child-Below host n fuel path parent_entry e s t l f v =
    elim (Option-cases
      (find_child s.db (name_at s.db.store e) (s.db.store e).name_crc (some parent_entry))) [
        | inl g ↦ new_child-Below host n fuel path parent_entry e s t l (rw (g, set_child) at f) v
        | inr (existing, g) ↦
            subst (λ (x : Loop). Below n x.db) (ok_inj (rw (g, set_child) at f))
              (keep_child-Below n fuel e existing s v)
      ]

set_all-Below :
    (host : Host) (n fuel : ℕ) (path : FilePath) (parent_entry : Ptr) (es : List Ptr) (s t : Loop)
    → All (λ q. q < n) es
    → set_all host fuel path parent_entry es s ≡ ok t
    → Below n s.db
    → Below n t.db
unfolding set_all
set_all-Below host n fuel path parent_entry [] s t l f v =
    subst (λ (x : Loop). Below n x.db) (ok_inj f) v
set_all-Below host n fuel path parent_entry (e ∷ es) s t (l, ls) f v =
    elim (Result-cases (set_child host fuel path parent_entry e s)) [
      | inl g ↦ absurd (err_ne_ok (rw (g, set_all) at f))
      | inr (u, g) ↦
          set_all-Below host n fuel path parent_entry es u t ls (rw (g, set_all) at f)
            (set_child-Below host n fuel path parent_entry e s u l g v)
    ]

-- A way to sort that makes up no pointers.
abbrev pub Sorts : ((Ptr → ℤ) → List Ptr → List Ptr) → Type 0
Sorts sort =
    (n : ℕ) (key : Ptr → ℤ) (xs : List Ptr) → All (λ q. q < n) xs → All (λ q. q < n) (sort key xs)

pub set_children_for_path-Below :
    (host : Host) (sort : (Ptr → ℤ) → List Ptr → List Ptr) (n fuel levels : ℕ) (path : FilePath)
    (entries : List Ptr) (new_paths : Option (List FilePath)) (db db' : FileDb)
    (paths : Option (List FilePath)) (done : Bool)
    → Sorts sort
    → All (λ q. q < n) entries
    → set_children_for_path host sort fuel levels path entries new_paths db ≡ ok (db', paths, done)
    → Below n db
    → Below n db'
unfolding set_children_for_path
set_children_for_path-Below host sort n fuel levels path entries new_paths db db' paths done sorts l
      f v =
    elim (Bool-cases (is_dir host path)) [
      | inr t ↦ subst (Below n) (first (ok_inj (rw (t, set_children_for_path) at f))) v
      | inl t ↦ elim (Option-cases (find_entry host db path)) [
        | inl g ↦ subst (Below n) (first (ok_inj (rw (t, g, set_children_for_path) at f))) v
        | inr (p, g) ↦ elim (Result-cases (set_all host fuel path p (sorted p) (start p))) [
          | inl a ↦ absurd (err_ne_ok (rw (t, g, a, set_children_for_path) at f))
          | inr (s, a) ↦
              subst (Below n) (first (ok_inj (rw (t, g, a, set_children_for_path) at f))) (
                finish_children-Below n fuel levels p s (
                  set_all-Below host n fuel path p (sorted p) (start p) s
                    (sorts n (λ e. ((mark_children_pending_delete p db.store).0 e).size) entries l)
                    a v))
        ]
      ]
    ]
  where
    sorted : Ptr → List Ptr
    sorted p = sort (λ e. ((mark_children_pending_delete p db.store).0 e).size) entries

    start : Ptr → Loop
    start p =
        let (h, files, dirs) = mark_children_pending_delete p db.store in
        record {
          db = record db { store = h };
          deleted_dir_count = pos dirs;
          deleted_file_count = pos files;
          new_paths = new_paths;
        }

    first : {a : FileDb × Option (List FilePath) × Bool} → a ≡ (db', paths, done) → a.0 ≡ db'
    first e = ap (λ (x : FileDb × Option (List FilePath) × Bool). x.0) e
