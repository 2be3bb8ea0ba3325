-- ===== src/Examples/Database.antt =====
-- A database of a root with a file `b` in it.
use spacedisplay.Common.{
  ℕ, ◌<◌, ◌≡◌, refl, Bool, true, false, inl, inr, ◌≢◌, Bool-cases, Option, none, some, List, [],
  ◌∷◌, ◌++◌, codes, str_eq, arith, ◌==◌, if◌then◌else◌, bit_xor, reverse, drop, Str,
}
use spacedisplay.Common.Int.{pos}
use spacedisplay.FilePath.{FilePath, str_crc16, push_part, get_path_crc}
use spacedisplay.FileEntry.{Ptr, EntryBin, FileEntry, Store}
use spacedisplay.FileEntry.Bins.{number, count}
use spacedisplay.FileDb.{FileDb, find_entry, bucket, part_matches}
use spacedisplay.FileDb.Find.{
  At, at_root, at_child, find_entry-At, At-find_entry, find_entry-confuses,
}
use spacedisplay.FileDb.Counts.{IsCounted, pointers}
use spacedisplay.FileDb.Frame.{name_at}
use spacedisplay.Examples.Paths.{host, root_path}

abbrev pub crc : Str → ℕ
crc s = str_crc16 host s

abbrev pub entry : Bool → Option Ptr → List EntryBin → Str → FileEntry
entry dir parent bins name = record {
  parent = parent;
  children = bins;
  pending_delete = false;
  is_dir = dir;
  name_crc = crc name;
  path_crc = crc name;
  size = pos 3;
  name = name;
}

-- The entry 2 is not in the tree yet.
abbrev pub entries : Store
entries q =
    if q == 0
    then entry true none (record { size = pos 3; chain = 1 ∷ [] } ∷ []) (codes "/")
    else if q == 1
    then entry false (some 0) [] (codes "b")
    else entry false none [] (codes "c")

abbrev pub db : FileDb
db = record {
  total_space = pos 100;
  available_space = pos 10;
  used_space = pos 3;
  file_count = pos 1;
  dir_count = pos 1;
  has_changes = true;
  root_file = 0;
  root_path = record { parts = codes "/" ∷ []; path_crcs = crc (codes "/") ∷ [] };
  entries_map = (bit_xor (crc (codes "/")) (crc (codes "b")), 1 ∷ []) ∷ [];
  store = entries;
}

-- There is no directory `a`, and yet the file `/a/a/b` is found.
find_entry-confuses_example :
    find_entry host db (
      push_part
        (push_part
          (push_part db.root_path (codes "a/") (crc (codes "a")))
          (codes "a/")
          (crc (codes "a")))
        (codes "b")
        (crc (codes "b")))
    ≡ some 1
unfolding bucket part_matches str_eq str_crc16
find_entry-confuses_example =
    find_entry-confuses host db (codes "a/") (codes "b") (crc (codes "/")) (crc (codes "a"))
      (crc (codes "b")) 1 [] refl refl refl refl refl

abbrev b_path : FilePath
b_path = record {
  parts = codes "/" ∷ codes "b" ∷ [];
  path_crcs = crc (codes "/") ∷ bit_xor (crc (codes "/")) (crc (codes "b")) ∷ [];
}

At-find_entry_example : (x : Ptr) × (find_entry host db b_path ≡ some x)
unfolding bucket part_matches str_eq str_crc16 count get_path_crc
At-find_entry_example =
    At-find_entry host db b_path 1 refl (omega arith) refl (at_child 0 refl refl at_root)
      (omega arith)

find_entry-At_example :
    (used more : List Str) × (reverse (drop 1 b_path.parts) ≡ used ++ more)
    × At host db.store 0 used 1
    × (0 < count 1 (bucket (get_path_crc b_path) db.entries_map))
unfolding find_entry str_eq str_crc16 get_path_crc
find_entry-At_example = find_entry-At host db b_path 1 refl (omega arith) refl

cons_ne_nil : {c : ℕ} {s : Str} → (c ∷ s) ≢ []
cons_ne_nil e = cc

db-named : (q : Ptr) → name_at entries q ≢ []
db-named q e = elim (Bool-cases (q == 0)) [
  | inl t ↦ cons_ne_nil (rw (t, name_at) at e)
  | inr t ↦ elim (Bool-cases (q == 1)) [
    | inl u ↦ cons_ne_nil (rw (t, u, name_at) at e)
    | inr u ↦ cons_ne_nil (rw (t, u, name_at) at e)
  ]
]

pub db-IsCounted : IsCounted db
unfolding number pointers
db-IsCounted = record { files = refl; dirs = refl; named = db-named }
