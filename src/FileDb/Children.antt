-- ===== src/FileDb/Children.antt =====
-- `setChildrenForPath` runs to its end and keeps the counters.
use spacedisplay.Common.{
  ℕ, suc, ◌≡◌, refl, ◌≢◌, inl, inr, ◌⊎◌, Bool, true, false, not, Option, none, some, List, [], ◌∷◌,
  Bool-cases, Option-cases, if◌then◌else◌, Str,
}
use spacedisplay.Common.Int.{ℤ, pos, ◌+ℤ◌, ◌==ℤ◌, ltb_ℤ, int_laws}
use spacedisplay.FilePath.{Host, FilePath, Result, ok, err, add_dir, is_dir}
use spacedisplay.FileEntry.{
  Ptr, FileEntry, Store, add_child, set_size, mark_children_pending_delete, unmark_pending_delete,
  remove_pending_delete,
}
use spacedisplay.FileEntry.Bins.{number, Removed}
use spacedisplay.FileDb.{FileDb, add_pointer, find_child, find_entry}
use spacedisplay.FileDb.Update.{
  Loop, keep_child, push_path, new_child, set_child, set_all, finish_children,
  set_children_for_path,
}
use spacedisplay.FileDb.Frame.{
  Same-trans, dir_at, name_at, add_child-Same, set_size-Same, mark_children_pending_delete-Same,
  unmark_pending_delete-Same, remove_pending_delete-Same,
}
use spacedisplay.FileDb.Counts.{
  number-Removed, pointers, add_pointer-Removed, IsCounted, IsCounted-Same,
  cleanup_deleted-IsCounted,
}

-- A result is returned and has a property.
abbrev pub Returns : {A : Type 0} → (A → Type 0) → Result A → Type 0
Returns P (ok a) = P a
Returns P err = ⊥

pub Returns-ok :
    {A : Type 0} (P : A → Type 0) (r : Result A) → Returns P r → (a : A) × (r ≡ ok a) × P a
Returns-ok P (ok a) p = (a, refl, p)
Returns-ok P err p = absurd p

keep_child-IsCounted :
    (fuel : ℕ) (e existing : Ptr) (s : Loop)
    → IsCounted s.db
    → IsCounted (keep_child fuel e existing s).db
unfolding keep_child
keep_child-IsCounted fuel e existing s v =
    let unmarked = unmark_pending_delete-Same existing s.db.store in
    let h = unmark_pending_delete existing s.db.store in
    elim (Bool-cases (dir_at h existing)) [
      | inl t ↦ rw (t, keep_child) (IsCounted-Same s.db h unmarked v)
      | inr t ↦ elim (Bool-cases ((h existing).size ==ℤ (h e).size)) [
        | inl q ↦ rw (t, q, keep_child) (IsCounted-Same s.db h unmarked v)
        | inr q ↦
            rw (t, q, keep_child)
              (IsCounted-Same s.db (set_size fuel existing (h e).size h)
                (Same-trans unmarked (set_size-Same fuel existing (h e).size h)) v)
      ]
    ]

push_path-Returns :
    (host : Host) (path : FilePath) (entry : FileEntry) (paths : Option (List FilePath))
    → is_dir host path ≡ true
    → entry.name ≢ []
    → Returns (λ p. Unit {0}) (push_path host path entry paths)
unfolding push_path add_dir
push_path-Returns host path entry none d n = tt
push_path-Returns host path entry (some paths) d n = elim (Bool-cases entry.is_dir) [
  | inl t ↦
      let (p, e, u) =
        Returns-ok _ (add_dir host path entry.name entry.name_crc) (added entry.name n) in
      rw (t, e) tt
  | inr t ↦ rw t tt
]
  where
    added :
        (name : Str) → name ≢ [] → Returns (λ p. Unit {0}) (add_dir host path name entry.name_crc)
    added [] n = absurd (n refl)
    added (c ∷ s) n = rw d tt

new_child-IsCounted :
    (host : Host) (fuel : ℕ) (path : FilePath) (parent_entry e : Ptr) (s : Loop)
    → is_dir host path ≡ true
    → IsCounted s.db
    → Returns (λ (t : Loop). IsCounted t.db) (new_child host fuel path parent_entry e s)
unfolding new_child
new_child-IsCounted host fuel path parent_entry e s d v =
    let h = add_child fuel parent_entry e s.db.store in
    let w = IsCounted-Same s.db h (add_child-Same fuel parent_entry e s.db.store) v in
    let (paths, f, u) =
      Returns-ok _ (push_path host path (h e) s.new_paths)
        (push_path-Returns host path (h e) s.new_paths d (w.named e)) in
    let r = add_pointer-Removed (h e).path_crc e s.db.entries_map in
    rw (f, new_child)
      (record {
        files = more_files w r (dir_at h e) refl;
        dirs = more_dirs w r (dir_at h e) refl;
        named = w.named;
      })
  where
    h : Store
    h = add_child fuel parent_entry e s.db.store

    more_files :
        IsCounted (record s.db { store = h })
        → Removed e
            (pointers (add_pointer (h e).path_crc e s.db.entries_map))
            (pointers s.db.entries_map)
        → (b : Bool) → dir_at h e ≡ b
        → (if b then s.db.file_count else s.db.file_count +ℤ pos 1)
          ≡ pos (
              number
                (λ q. not (dir_at h q))
                (pointers (add_pointer (h e).path_crc e s.db.entries_map)))
    more_files w r true t =
        rw (w.files, number-Removed (λ q. not (dir_at h q)) e r, t) (omega int_laws)
    more_files w r false t =
        rw (w.files, number-Removed (λ q. not (dir_at h q)) e r, t) (omega int_laws)

    more_dirs :
        IsCounted (record s.db { store = h })
        → Removed e
            (pointers (add_pointer (h e).path_crc e s.db.entries_map))
            (pointers s.db.entries_map)
        → (b : Bool) → dir_at h e ≡ b
        → (if b then s.db.dir_count +ℤ pos 1 else s.db.dir_count)
          ≡ pos (suc (number (dir_at h) (pointers (add_pointer (h e).path_crc e s.db.entries_map))))
    more_dirs w r true t = rw (w.dirs, number-Removed (dir_at h) e r, t) (omega int_laws)
    more_dirs w r false t = rw (w.dirs, number-Removed (dir_at h) e r, t) (omega int_laws)

set_child-IsCounted :
    (host : Host) (fuel : ℕ) (path : FilePath) (parent_entry e : Ptr) (s : Loop)
    → is_dir host path ≡ true
    → IsCounted s.db
    → Returns (λ (t : Loop). IsCounted t.db) (set_child host fuel path parent_entry e s)
unfolding set_child
set_child-IsCounted host fuel path parent_entry e s d v =
    elim (Option-cases
      (find_child s.db (name_at s.db.store e) (s.db.store e).name_crc (some parent_entry))) [
        | inl n ↦ rw (n, set_child) (new_child-IsCounted host fuel path parent_entry e s d v)
        | inr (existing, f) ↦ rw (f, set_child) (keep_child-IsCounted fuel e existing s v)
      ]

set_all-IsCounted :
    (host : Host) (fuel : ℕ) (path : FilePath) (parent_entry : Ptr) (es : List Ptr) (s : Loop)
    → is_dir host path ≡ true
    → IsCounted s.db
    → Returns (λ (t : Loop). IsCounted t.db) (set_all host fuel path parent_entry es s)
unfolding set_all
set_all-IsCounted host fuel path parent_entry [] s d v = v
set_all-IsCounted host fuel path parent_entry (e ∷ es) s d v =
    let (s', f, w) =
      Returns-ok (λ (t : Loop). IsCounted t.db) (set_child host fuel path parent_entry e s)
        (set_child-IsCounted host fuel path parent_entry e s d v) in
    rw (f, set_all) (set_all-IsCounted host fuel path parent_entry es s' d w)

-- What `setChildrenForPath` leaves when it returns true.
finish_children-IsCounted :
    (fuel levels : ℕ) (parent_entry : Ptr) (s : Loop)
    → IsCounted s.db
    → IsCounted (finish_children fuel levels parent_entry s)
unfolding finish_children
finish_children-IsCounted fuel levels parent_entry s v =
    elim (Bool-cases (ltb_ℤ (pos 0) (s.deleted_file_count +ℤ s.deleted_dir_count))) [
      | inl t ↦ rw t (
          rest _ (
            cleanup_deleted-IsCounted levels (remove_pending_delete fuel parent_entry s.db.store).1
              _
              (IsCounted-Same s.db (remove_pending_delete fuel parent_entry s.db.store).0
                (remove_pending_delete-Same fuel parent_entry s.db.store) v)))
      | inr t ↦ rw t (rest s.db v)
    ]
  where
    rest :
        (db : FileDb)
        → IsCounted db
        → IsCounted (record db { used_space = (db.store db.root_file).size; has_changes = true })
    rest db v = record { files = v.files; dirs = v.dirs; named = v.named }

pub set_children_for_path-IsCounted :
    (host : Host) (sort : (Ptr → ℤ) → List Ptr → List Ptr) (fuel levels : ℕ) (path : FilePath)
    (entries : List Ptr) (new_paths : Option (List FilePath)) (db : FileDb)
    → IsCounted db
    → (db' : FileDb) × (paths : Option (List FilePath)) × (done : Bool) × (set_children_for_path
          host sort fuel levels path entries new_paths db
        ≡ ok (db', paths, done))
      × IsCounted db'
      × (((done ≡ false) × (db' ≡ db))
          ⊎ ((done ≡ true) × (db'.used_space ≡ (db'.store db'.root_file).size)))
unfolding set_children_for_path finish_children
set_children_for_path-IsCounted host sort fuel levels path entries new_paths db v =
    elim (Bool-cases (is_dir host path)) [
      | inr t ↦ (db, new_paths, false, rw t refl, v, inl (refl, refl))
      | inl t ↦ elim (Option-cases (find_entry host db path)) [
        | inl n ↦ (db, new_paths, false, rw (t, n) refl, v, inl (refl, refl))
        | inr (p, f) ↦
            let (s, g, w) =
              Returns-ok (λ (t : Loop). IsCounted t.db)
                (set_all host fuel path p (sorted p) (start p))
                (set_all-IsCounted host fuel path p (sorted p) (start p) t (
                  IsCounted-Same db (marked p) (mark_children_pending_delete-Same p db.store) v)) in
            (
              finish_children fuel levels p s,
              s.new_paths,
              true,
              returned p s t f g,
              finish_children-IsCounted fuel levels p s w,
              inr (refl, refl),
            )
      ]
    ]
  where
    marked : Ptr → Store
    marked p = (mark_children_pending_delete p db.store).0

    sorted : Ptr → List Ptr
    sorted p = sort (λ e. (marked p e).size) entries

    start : Ptr → Loop
    start p =
        let (h, files, dirs) = mark_children_pending_delete p db.store in
        record {
          db = record db { store = h };
          deleted_dir_count = pos dirs;
          deleted_file_count = pos files;
          new_paths = new_paths;
        }

    returned :
        (p : Ptr) (s : Loop)
        → is_dir host path ≡ true
        → find_entry host db path ≡ some p
        → set_all host fuel path p (sorted p) (start p) ≡ ok s
        → set_children_for_path host sort fuel levels path entries new_paths db
          ≡ ok (finish_children fuel levels p s, s.new_paths, true)
    returned p s t f g = rw (t, f, g) refl
