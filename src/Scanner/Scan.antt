-- ===== src/Scanner/Scan.antt =====
-- `scanChildrenAt`.
use spacedisplay.Common.{
  ℕ, ◌+◌, Bool, true, ◌&&◌, ◌||◌, not, Option, none, some, List, [], ◌∷◌, ◌++◌, ◌==◌, if◌then◌else◌,
  back, push_back, Str, codes,
}
use spacedisplay.FilePath.{Host, separator, Result, ok, err, FilePath, get_path, add_dir}
use spacedisplay.FileEntry.{Ptr, Store, update}
use spacedisplay.FileDb.{new_entry}
use spacedisplay.Logger.{Logger, log}
use spacedisplay.Scanner.State.{DirItem, SpaceScanner, is_stopping, in_array}

-- What the loop changes: the heap, the vectors of entries and of new paths, and the log.
pub record Scan : Type 0 where
  pub heap : Store
  pub next : Ptr
  pub scanned_entries : List Ptr
  pub new_paths : List FilePath
  pub logger : Option Logger

unfoldable pub with_slash : Host → Str → Str
with_slash host s = if back 0 s == separator host then s else push_back s (separator host)

-- The path that is looked up among the mount points and the excluded paths.
unfoldable pub lookup_path : Host → Str → Str → Str
unfolding with_slash
lookup_path host path_str name = with_slash host (with_slash host path_str ++ name)

abbrev pub is_skipped : List Str → List Str → Str → Bool
is_skipped roots excluded path = in_array path roots || in_array path excluded

abbrev pub skip_line : Str → Str
skip_line path = codes "Skip scan of: " ++ path

unfoldable pub log_if : Bool → Str → Option Logger → Option Logger
log_if b msg none = none
log_if b msg (some l) = if b then some (log msg (codes "SCAN") l) else some l

-- `newPaths->push_back` of the path to a directory.
unfoldable pub collect_path :
    Host → Bool → FilePath → Str → ℕ → List FilePath → Result (List FilePath)
collect_path host collect path name crc paths =
    if collect
    then elim (add_dir host path name crc) [ err ↦ err | ok p ↦ ok (push_back paths p) ]
    else ok paths

-- One round of the loop. `collect` tells whether `newPaths` is given.
unfoldable pub scan_item : Host → SpaceScanner → FilePath → Bool → DirItem → Scan → Result Scan
unfolding lookup_path log_if collect_path
scan_item host s path collect item c =
    let full = lookup_path host (get_path host path true) item.name in
    let skip =
      item.is_dir
      && not (is_stopping s.scanner_status)
      && is_skipped s.available_roots s.excluded_mounts full in
    elim (new_entry host item.name item.is_dir item.size) [
      | err ↦ err
      | ok fe ↦
          elim (collect_path host (item.is_dir && not skip && collect) path item.name fe.name_crc
            c.new_paths) [
              | err ↦ err
              | ok paths ↦ ok (record {
                heap = update c.heap c.next fe;
                next = c.next + 1;
                scanned_entries = push_back c.scanned_entries c.next;
                new_paths = paths;
                logger = log_if skip (skip_line full) c.logger;
              })
            ]
    ]

-- The exceptions of the entries' and the paths' constructors are not caught.
unfoldable pub scan_children_at :
    Host → SpaceScanner → FilePath → Bool → List DirItem → Scan → Result Scan
unfolding scan_item
scan_children_at host s path collect [] c = ok c
scan_children_at host s path collect (item ∷ items) c =
    elim (scan_item host s path collect item c) [
      | err ↦ err
      | ok d ↦ scan_children_at host s path collect items d
    ]
