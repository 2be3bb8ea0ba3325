-- ===== src/FileIterator/Listing.antt =====
-- What the loop over a directory sees on Linux.
use spacedisplay.Common.{
  ℕ, zero, suc, ◌<◌, ◌≡◌, refl, inl, inr, Bool, true, false, Option, none, some, List, [], ◌∷◌,
  ◌++◌, if◌then◌else◌, length, push_back, arith, Bool-cases, Option-cases, Str,
}
use spacedisplay.Common.Int.{ℤ}
use spacedisplay.Scanner.State.{DirItem}
use spacedisplay.FileIterator.{is_dots, each_item}
use spacedisplay.FileIterator.Loop.{each_item-end, each_item-next}
use spacedisplay.FileIterator.Linux.{
  Stat, LinuxFileIterator, read_name, stat_entry, get_next_file_data, create, linux_methods,
}

-- The names but the dots.
unfoldable pub without_dots : List Str → List Str
without_dots [] = []
without_dots (d ∷ names) = if is_dots d then without_dots names else d ∷ without_dots names

-- Each image up to the first value that has none.
unfoldable pub map_while {ℓ κ} : {A : Type ℓ} {B : Type κ} → (A → Option B) → List A → List B
map_while f [] = []
map_while f (x ∷ xs) = elim (f x) [ none ↦ [] | some y ↦ y ∷ map_while f xs ]

-- An entry with what `lstat` says of its path.
unfoldable pub item_at : (Str → Option Stat) → Str → Str → Option DirItem
item_at lstat path name = elim (lstat (push_back path b'/' ++ name)) [
  | none ↦ none
  | some stat ↦ some (record { name = name; is_dir = stat.is_dir; size = stat.size })
]

module _ (lstat : Str → Option Stat) (path : Str) where
  -- An iterator of the directory over the names that are left.
  at : Bool → Str → Bool → ℤ → List Str → LinuxFileIterator
  at valid name dir size names = record {
    valid = valid;
    name = name;
    dir = dir;
    size = size;
    dirp = some names;
    path = path;
  }

  abbrev listing : List Str → List DirItem
  listing names = map_while (item_at lstat path) (without_dots names)

  read_name-dots :
      (n d : Str) (names : List Str)
      → is_dots d ≡ true
      → read_name n (d ∷ names) ≡ read_name d names
  unfolding read_name
  read_name-dots n d names e = rw (read_name, e) refl

  next-dots :
      (v : Bool) (n : Str) (dir : Bool) (size : ℤ) (d : Str) (names : List Str)
      → is_dots d ≡ true
      → get_next_file_data lstat (at v n dir size (d ∷ names))
        ≡ get_next_file_data lstat (at v d dir size names)
  unfolding get_next_file_data stat_entry at
  next-dots v n dir size d names e =
      rw (get_next_file_data, read_name-dots n d names e) (split (read_name d names))
    where
      split :
          (r : Str × List Str × Bool)
          → stat_entry lstat r (at v n dir size (d ∷ names))
            ≡ stat_entry lstat r (at v d dir size names)
      split (name, rest, false) = refl
      split (name, rest, true) = elim (Option-cases (lstat (push_back path b'/' ++ name))) [
        | inl l ↦ rw (stat_entry, l) refl
        | inr (stat, l) ↦ rw (stat_entry, l) refl
      ]

  read_name-plain :
      (n d : Str) (names : List Str)
      → is_dots d ≡ false
      → read_name n (d ∷ names) ≡ (d, names, true)
  unfolding read_name
  read_name-plain n d names e = rw (read_name, e) refl

  -- At a name of which `lstat` says nothing the iterator is not valid any more.
  next-unknown :
      (v : Bool) (n : Str) (dir : Bool) (size : ℤ) (d : Str) (names : List Str)
      → is_dots d ≡ false
      → lstat (push_back path b'/' ++ d) ≡ none
      → get_next_file_data lstat (at v n dir size (d ∷ names)) ≡ at false d dir size names
  unfolding get_next_file_data at
  next-unknown v n dir size d names e l =
      rw (get_next_file_data, read_name-plain n d names e) (rw (stat_entry, l) refl)

  next-known :
      (v : Bool) (n : Str) (dir : Bool) (size : ℤ) (d : Str) (names : List Str) (stat : Stat)
      → is_dots d ≡ false
      → lstat (push_back path b'/' ++ d) ≡ some stat
      → get_next_file_data lstat (at v n dir size (d ∷ names))
        ≡ at true d stat.is_dir stat.size names
  unfolding get_next_file_data at
  next-known v n dir size d names stat e l =
      rw (get_next_file_data, read_name-plain n d names e) (rw (stat_entry, l) refl)

  next_lem :
      (fuel : ℕ) (v : Bool) (n : Str) (dir : Bool) (size : ℤ) (names : List Str)
      → length names < fuel
      → each_item (linux_methods lstat) fuel (get_next_file_data lstat (at v n dir size names))
        ≡ some (listing names)
  unfolding linux_methods at without_dots map_while item_at
  next_lem zero v n dir size names h = absurd (omega arith)
  next_lem (suc fuel) v n dir size [] h = unfold each_item get_next_file_data read_name in refl
  next_lem (suc fuel) v n dir size (d ∷ names) h = elim (Bool-cases (is_dots d)) [
    | inl e ↦
        rw (next-dots v n dir size d names e, without_dots, e)
          (next_lem (suc fuel) v d dir size names (omega arith))
    | inr e ↦ elim (Option-cases (lstat (push_back path b'/' ++ d))) [
      | inl l ↦
          rw (next-unknown v n dir size d names e l, without_dots, e, map_while, item_at, l)
            (each_item-end (linux_methods lstat) fuel (at false d dir size names) refl)
      | inr (stat, l) ↦
          rw (next-known v n dir size d names stat e l, without_dots, e, map_while, item_at, l)
            (each_item-next (linux_methods lstat) fuel (at true d stat.is_dir stat.size names) _ _ _
              refl refl refl (next_lem fuel true d stat.is_dir stat.size names (omega arith)))
    ]
  ]

-- The loop over the entries of a directory ends without an exception. On Linux it sees the names
-- that `readdir` gives but the dots, in their order, each with what `lstat` says of it, up to the
-- first of which `lstat` says nothing; it sees none when the directory cannot be opened.
pub each_item-create :
    (lstat : Str → Option Stat) (path : Str) (names : List Str)
    → (each_item (linux_methods lstat) (suc (length names)) (create lstat (some names) path)
        ≡ some (map_while (item_at lstat path) (without_dots names)))
      × (each_item (linux_methods lstat) 1 (create lstat none path) ≡ some [])
unfolding create at
each_item-create lstat path names = (
  next_lem lstat path (suc (length names)) false [] false _ names (omega arith),
  unfold each_item linux_methods get_next_file_data in refl,
)
