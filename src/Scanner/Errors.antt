-- ===== src/Scanner/Errors.antt =====
-- Where exceptions leave the thread.
use spacedisplay.Common.{
  is_empty, ℕ, ◌≡◌, refl, ◌≢◌, inl, inr, Bool, true, ◌&&◌, not, List, [], ◌∷◌, All, Bool-cases,
  List-cases, Str,
}
use spacedisplay.Common.Int.{ℤ}
use spacedisplay.FilePath.{Host, FilePath, Result, ok, err, get_path, is_dir, add_dir}
use spacedisplay.FilePath.Results.{Result-cases}
use spacedisplay.FileEntry.{Ptr, FileEntry}
use spacedisplay.FileDb.{new_entry}
use spacedisplay.FileDb.Fresh.{Sorts}
use spacedisplay.Scanner.Queue.{ScanRequest}
use spacedisplay.Scanner.State.{DirItem, is_idle, is_stopping, is_paused, World, SpaceScanner}
use spacedisplay.Scanner.Scan.{
  Scan, lookup_path, is_skipped, collect_path, scan_item, scan_children_at,
}
use spacedisplay.Scanner.Worker.{
  Pc, loop_head, idle_test, asleep, scan_test, visiting, visited, pause_test, adding, finishing,
  finished, ended, crashed, Worker, start_scan, watch_dir, visit_dir, step,
}
use spacedisplay.Scanner.Sound.{IsSound, DbIsSound, Holds, store_entries-IsSound}

-- What a listing of a directory gives: entries with names.
abbrev pub IsNamed : DirItem → Type 0
IsNamed item = item.name ≢ []

-- A directory is visited, and the system names its entries.
abbrev pub CanVisit : Host → World → Pc → Type 0
CanVisit host world (visiting r rec) =
    (is_dir host r.path ≡ true) × All IsNamed (world.list_dir (get_path host r.path true))
CanVisit host world _ = Unit {0}

ok_ne_err {ℓ} : {A : Type ℓ} {a : A} → ok a ≢ err
ok_ne_err e = cc

new_entry-runs :
    (host : Host) (name : Str) (is_dir : Bool) (size : ℤ)
    → name ≢ []
    → new_entry host name is_dir size ≢ err
unfolding new_entry
new_entry-runs host [] is_dir size n e = n refl
new_entry-runs host (c ∷ s) is_dir size n e = cc

add_dir-runs :
    (host : Host) (path : FilePath) (name : Str) (crc : ℕ)
    → is_dir host path ≡ true
    → name ≢ []
    → add_dir host path name crc ≢ err
unfolding add_dir
add_dir-runs host path [] crc d n e = n refl
add_dir-runs host path (c ∷ s) crc d n e = cc

collect_path-runs :
    (host : Host) (collect : Bool) (path : FilePath) (name : Str) (crc : ℕ) (paths : List FilePath)
    → is_dir host path ≡ true
    → name ≢ []
    → collect_path host collect path name crc paths ≢ err
unfolding collect_path
collect_path-runs host collect path name crc paths d n e = elim (Bool-cases collect) [
  | inr off ↦ ok_ne_err (rw (off, collect_path) at e)
  | inl on ↦ elim (Result-cases (add_dir host path name crc)) [
    | inl f ↦ add_dir-runs host path name crc d n f
    | inr (p, f) ↦ ok_ne_err (rw (on, f, collect_path) at e)
  ]
]

scan_item-runs :
    (host : Host) (s : SpaceScanner) (path : FilePath) (collect : Bool) (item : DirItem) (c : Scan)
    → is_dir host path ≡ true
    → IsNamed item
    → scan_item host s path collect item c ≢ err
unfolding scan_item
scan_item-runs host s path collect item c d n e =
    elim (Result-cases (new_entry host item.name item.is_dir item.size)) [
      | inl f ↦ new_entry-runs host item.name item.is_dir item.size n f
      | inr (fe, f) ↦ elim (Result-cases (collected fe)) [
        | inl g ↦
            collect_path-runs host (item.is_dir && not skip && collect) path item.name fe.name_crc
              c.new_paths d n g
        | inr (paths, g) ↦ ok_ne_err (rw (f, g, scan_item) at e)
      ]
    ]
  where
    skip : Bool
    skip =
        item.is_dir
        && not (is_stopping s.scanner_status)
        && is_skipped s.available_roots s.excluded_mounts
            (lookup_path host (get_path host path true) item.name)

    collected : FileEntry → Result (List FilePath)
    collected fe =
        collect_path host (item.is_dir && not skip && collect) path item.name fe.name_crc
          c.new_paths

-- `scanChildrenAt` of a directory whose entries have names does not throw.
scan_children_at-runs :
    (host : Host) (s : SpaceScanner) (path : FilePath) (collect : Bool) (items : List DirItem)
    (c : Scan)
    → is_dir host path ≡ true
    → All IsNamed items
    → scan_children_at host s path collect items c ≢ err
unfolding scan_children_at
scan_children_at-runs host s path collect [] c d n e = ok_ne_err e
scan_children_at-runs host s path collect (item ∷ items) c d (n, ns) e =
    elim (Result-cases (scan_item host s path collect item c)) [
      | inl f ↦ scan_item-runs host s path collect item c d n f
      | inr (x, f) ↦
          scan_children_at-runs host s path collect items x d ns (rw (f, scan_children_at) at e)
    ]

visit_dir-runs :
    (host : Host) (world : World) (r : ScanRequest) (rec : Bool) (s : SpaceScanner)
    → is_dir host r.path ≡ true
    → All IsNamed (world.list_dir (get_path host r.path true))
    → (visit_dir host world r rec s).pc ≢ crashed
unfolding visit_dir
visit_dir-runs host world r rec s d n =
    let path = get_path host r.path true in
    let t = watch_dir world path s in
    let scan = scan_children_at host t r.path r.recursive (world.list_dir path) (start_scan t) in
    elim (Result-cases scan) [
      | inl f ↦ absurd (
          scan_children_at-runs host t r.path r.recursive (world.list_dir path) (start_scan t) d n
            f)
      | inr (c, f) ↦ rw (visit_dir, f) (λ e. cc)
    ]

step_at-runs :
    (host : Host) (sort : (Ptr → ℤ) → List Ptr → List Ptr) (world : World) (line : Str)
    (s : SpaceScanner) (pc : Pc)
    → Sorts sort
    → DbIsSound s.db s.next
    → Holds s.next pc
    → CanVisit host world pc
    → pc ≢ crashed
    → (step host sort world line (record { scanner = s; pc = pc })).pc ≢ crashed
unfolding step
step_at-runs host sort world line s loop_head sorts v h d n = elim (Bool-cases s.run_worker) [
  | inl e ↦ rw (step, e) (λ f. cc)
  | inr e ↦ rw (step, e) (λ f. cc)
]
step_at-runs host sort world line s idle_test sorts v h d n =
    elim (Bool-cases (is_empty s.scan_queue && is_idle s.scanner_status)) [
      | inl e ↦ rw (step, e) (λ f. cc)
      | inr e ↦ rw (step, e) (λ f. cc)
    ]
step_at-runs host sort world line s asleep sorts v h d n = λ f. cc
step_at-runs host sort world line s (scan_test rec) sorts v h d n = elim (List-cases s.scan_queue) [
  | inl e ↦ rw (step, e) (λ f. cc)
  | inr (r, queue, e) ↦ elim (Bool-cases (is_idle s.scanner_status)) [
    | inl g ↦ rw (step, e, g) (λ f. cc)
    | inr g ↦ rw (step, e, g) (λ f. cc)
  ]
]
step_at-runs host sort world line s (visiting r rec) sorts v h d n =
    visit_dir-runs host world r rec s d.0 d.1
step_at-runs host sort world line s (visited r rec entries paths) sorts v h d n =
    elim (Bool-cases (is_stopping s.scanner_status)) [
      | inl e ↦ rw (step, e) (λ f. cc)
      | inr e ↦ rw (step, e) (store_entries-IsSound host sort r rec entries paths s sorts v h).1
    ]
step_at-runs host sort world line s (pause_test rec paths) sorts v h d n =
    elim (Bool-cases (is_paused s.scanner_status)) [
      | inl e ↦ rw (step, e) (λ f. cc)
      | inr e ↦ rw (step, e) (λ f. cc)
    ]
step_at-runs host sort world line s (adding rec paths) sorts v h d n = λ f. cc
step_at-runs host sort world line s (finishing rec) sorts v h d n = λ f. cc
step_at-runs host sort world line s (finished rec) sorts v h d n = λ f. cc
step_at-runs host sort world line s ended sorts v h d n = λ f. cc
step_at-runs host sort world line s crashed sorts v h d n = absurd (n refl)

-- On a sound database no exception leaves the thread, when what it visits is a directory of whose
-- entries the system gives the names.
pub step-runs :
    (host : Host) (sort : (Ptr → ℤ) → List Ptr → List Ptr) (world : World) (line : Str) (w : Worker)
    → Sorts sort
    → IsSound w
    → CanVisit host world w.pc
    → w.pc ≢ crashed
    → (step host sort world line w).pc ≢ crashed
step-runs host sort world line w sorts v d n =
    step_at-runs host sort world line w.scanner w.pc sorts v.db v.held d n
