-- ===== src/Scanner/Fresh.antt =====
-- What `scanChildrenAt` leaves of the database: the entries that it makes are new.
use spacedisplay.Common.{
  ℕ, suc, ◌+◌, ◌<◌, ◌≡◌, refl, sym, ap, subst, ◌∙◌, ◌≢◌, inl, inr, Bool, true, false, ◌&&◌, not,
  List, [], ◌∷◌, arith, ◌==◌, All, All-append, Bool-cases, Str,
}
use spacedisplay.Common.Int.{ℤ, pos}
use spacedisplay.FilePath.{Host, FilePath, ok, get_path}
use spacedisplay.FilePath.Results.{ok_inj, err_ne_ok, Result-cases}
use spacedisplay.FileEntry.{Ptr, FileEntry, Store, update}
use spacedisplay.FileEntry.Bins.{number}
use spacedisplay.FileDb.{FileDb, new_entry}
use spacedisplay.FileDb.Frame.{dir_at, name_at}
use spacedisplay.FileDb.Counts.{pointers, IsCounted}
use spacedisplay.FileDb.Fresh.{Below}
use spacedisplay.Scanner.State.{DirItem, SpaceScanner, is_stopping}
use spacedisplay.Scanner.Scan.{
  Scan, lookup_path, is_skipped, collect_path, scan_item, scan_children_at,
}

-- What the loop keeps, over the database as it was.
pub record ScanIsFresh (db : FileDb) (c : Scan) : Type 0 where
  pub counted : IsCounted (record db { store = c.heap })
  pub below : Below c.next db
  pub held : All (λ q. q < c.next) c.scanned_entries

number-All :
    (f g : Ptr → Bool) (n : ℕ) (xs : List Ptr)
    → ((q : Ptr) → q < n → f q ≡ g q)
    → All (λ q. q < n) xs
    → number f xs ≡ number g xs
unfolding number
number-All f g n [] same h = refl
number-All f g n (x ∷ xs) same (l, h) = rw (number, same x l, number-All f g n xs same h) refl

All-later : (n : ℕ) (xs : List Ptr) → All (λ q. q < n) xs → All (λ q. q < n + 1) xs
All-later n [] h = tt
All-later n (x ∷ xs) (l, h) = (omega arith, All-later n xs h)

update_old : (h : Store) (n q : Ptr) (e : FileEntry) → q < n → update h n e q ≡ h q
update_old h n q e l = ground arith

new_entry-named :
    (host : Host) (name : Str) (is_dir : Bool) (size : ℤ) (e : FileEntry)
    → new_entry host name is_dir size ≡ ok e
    → e.name ≢ []
unfolding new_entry
new_entry-named host [] is_dir size e f = absurd (err_ne_ok f)
new_entry-named host (c ∷ s) is_dir size e f =
    subst (λ (x : FileEntry). x.name ≢ []) (ok_inj f) (λ m. cc)

dir_at-old : (h : Store) (n q : Ptr) (e : FileEntry) → q < n → dir_at h q ≡ dir_at (update h n e) q
dir_at-old h n q e l = ap (λ (x : FileEntry). x.is_dir) (sym (update_old h n q e l))

update-named :
    (h : Store) (n q : Ptr) (e : FileEntry)
    → e.name ≢ []
    → name_at h q ≢ []
    → name_at (update h n e) q ≢ []
update-named h n q e new old = elim (Bool-cases (q == n)) [
  | inl t ↦ subst (λ (x : FileEntry). x.name ≢ []) (sym (same t)) new
  | inr t ↦ subst (λ (x : FileEntry). x.name ≢ []) (sym (other t)) old
]
  where
    same : (q == n) ≡ true → update h n e q ≡ e
    same t = rw t refl

    other : (q == n) ≡ false → update h n e q ≡ h q
    other t = rw t refl

allocate :
    (db : FileDb) (h : Store) (n : Ptr) (e : FileEntry)
    → e.name ≢ []
    → Below n db
    → IsCounted (record db { store = h })
    → IsCounted (record db { store = update h n e })
allocate db h n e named below v = record {
  files =
      v.files
      ∙ ap pos (
          number-All (λ q. not (dir_at h q)) (λ q. not (dir_at (update h n e) q)) n
            (pointers db.entries_map) (λ q l. ap not (dir_at-old h n q e l)) below);
  dirs =
      v.dirs
      ∙ ap (λ (k : ℕ). pos (suc k))
          (number-All (dir_at h) (dir_at (update h n e)) n (pointers db.entries_map)
            (λ q l. dir_at-old h n q e l) below);
  named = λ q. update-named h n q e named (v.named q);
}

scan_item-IsFresh :
    (host : Host) (s : SpaceScanner) (path : FilePath) (collect : Bool) (item : DirItem)
    (db : FileDb) (c d : Scan)
    → scan_item host s path collect item c ≡ ok d
    → ScanIsFresh db c
    → ScanIsFresh db d
unfolding scan_item
scan_item-IsFresh host s path collect item db c d f v =
    elim (Result-cases (new_entry host item.name item.is_dir item.size)) [
      | inl n ↦ absurd (err_ne_ok (rw (n, scan_item) at f))
      | inr (e, n) ↦
          elim (Result-cases (
            collect_path host (item.is_dir && not skip && collect) path item.name e.name_crc
              c.new_paths)) [
                | inl p ↦ absurd (err_ne_ok (rw (n, p, scan_item) at f))
                | inr (paths, p) ↦
                    subst (ScanIsFresh db) (ok_inj (rw (n, p, scan_item) at f)) (record {
                      counted =
                          allocate db c.heap c.next e
                            (new_entry-named host item.name item.is_dir item.size e n) v.below
                            v.counted;
                      below = All-later c.next (pointers db.entries_map) v.below;
                      held =
                          All-append (λ q. q < c.next + 1) c.scanned_entries (c.next ∷ [])
                            (All-later c.next c.scanned_entries v.held) (omega arith, tt);
                    })
              ]
    ]
  where
    skip : Bool
    skip =
        item.is_dir
        && not (is_stopping s.scanner_status)
        && is_skipped s.available_roots s.excluded_mounts
            (lookup_path host (get_path host path true) item.name)

pub scan_children_at-IsFresh :
    (host : Host) (s : SpaceScanner) (path : FilePath) (collect : Bool) (items : List DirItem)
    (db : FileDb) (c d : Scan)
    → scan_children_at host s path collect items c ≡ ok d
    → ScanIsFresh db c
    → ScanIsFresh db d
unfolding scan_children_at
scan_children_at-IsFresh host s path collect [] db c d f v = subst (ScanIsFresh db) (ok_inj f) v
scan_children_at-IsFresh host s path collect (item ∷ items) db c d f v =
    elim (Result-cases (scan_item host s path collect item c)) [
      | inl n ↦ absurd (err_ne_ok (rw (n, scan_children_at) at f))
      | inr (x, n) ↦
          scan_children_at-IsFresh host s path collect items db x d (rw (n, scan_children_at) at f)
            (scan_item-IsFresh host s path collect item db c x n v)
    ]
