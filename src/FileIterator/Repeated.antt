-- ===== src/FileIterator/Repeated.antt =====
-- What the loop over a directory sees on Windows.
use spacedisplay.Common.{
  ℕ, zero, suc, ◌≤◌, ◌≡◌, refl, inl, inr, Bool, true, false, Option, none, some, List, [], ◌∷◌,
  ◌++◌, if◌then◌else◌, is_empty, length, All, arith, Bool-cases, Str,
}
use spacedisplay.Common.Int.{ℤ, pos}
use spacedisplay.Scanner.State.{DirItem}
use spacedisplay.FileIterator.{is_dots, each_item}
use spacedisplay.FileIterator.Loop.{each_item-next}
use spacedisplay.FileIterator.Windows.{
  FindData, WinFileIterator, is_directory, file_size, skip_dots, take_data, process_next,
  win_create, win_methods,
}

module _ (wstr2str : List ℕ → Str) where
  abbrev pub is_dots_data : FindData → Bool
  is_dots_data d = is_dots (wstr2str d.file_name)

  unfoldable pub data_item : FindData → DirItem
  data_item d = record { name = wstr2str d.file_name; is_dir = is_directory d; size = file_size d }

  -- The entries that are no dots.
  unfoldable pub real_items : List FindData → List DirItem
  unfolding data_item
  real_items [] = []
  real_items (d ∷ ds) = if is_dots_data d then real_items ds else data_item d ∷ real_items ds

  -- An iterator over the data that is left.
  at : Bool → Str → Bool → ℤ → List FindData → WinFileIterator
  at valid name dir size ds = record {
    valid = valid;
    name = name;
    dir = dir;
    size = size;
    dir_handle = some ds;
  }

  -- An iterator at an entry.
  at_data : FindData → List FindData → WinFileIterator
  unfolding at
  at_data d = at true (wstr2str d.file_name) (is_directory d) (file_size d)

  skip_dots-plain :
      (d : FindData) (ds : List FindData)
      → is_dots_data d ≡ false
      → skip_dots wstr2str d ds ≡ (some d, ds)
  unfolding skip_dots
  skip_dots-plain d [] e = rw (skip_dots, e) refl
  skip_dots-plain d (c ∷ ds) e = rw (skip_dots, e) refl

  skip_dots-dots :
      (d : FindData) (ds : List FindData)
      → is_dots_data d ≡ true
      → All (λ c. is_dots_data c ≡ true) ds
      → skip_dots wstr2str d ds ≡ (none, [])
  unfolding skip_dots
  skip_dots-dots d [] e h = rw (skip_dots, e) refl
  skip_dots-dots d (c ∷ ds) e (hc, h) = rw (skip_dots, e) (skip_dots-dots c ds hc h)

  skip_dots-skips :
      (c d : FindData) (ds : List FindData)
      → is_dots_data c ≡ true
      → skip_dots wstr2str c (d ∷ ds) ≡ skip_dots wstr2str d ds
  unfolding skip_dots
  skip_dots-skips c d ds e = rw (skip_dots, e) refl

  next-dots :
      (v : Bool) (n : Str) (dir : Bool) (size : ℤ) (c d : FindData) (ds : List FindData)
      → is_dots_data c ≡ true
      → process_next wstr2str (at v n dir size (c ∷ d ∷ ds))
        ≡ process_next wstr2str (at v n dir size (d ∷ ds))
  unfolding process_next take_data at
  next-dots v n dir size c d ds e =
      rw (process_next, skip_dots-skips c d ds e) (split (skip_dots wstr2str d ds))
    where
      split :
          (r : Option FindData × List FindData)
          → take_data wstr2str r (at v n dir size (c ∷ d ∷ ds))
            ≡ take_data wstr2str r (at v n dir size (d ∷ ds))
      split (none, rest) = refl
      split (some f, rest) = refl

  next-dots_append :
      (v : Bool) (n : Str) (dir : Bool) (size : ℤ) (c : FindData) (ds : List FindData)
      (d : FindData) (dots : List FindData)
      → is_dots_data c ≡ true
      → process_next wstr2str (at v n dir size (c ∷ ds ++ d ∷ dots))
        ≡ process_next wstr2str (at v n dir size (ds ++ d ∷ dots))
  next-dots_append v n dir size c [] d dots e = next-dots v n dir size c d dots e
  next-dots_append v n dir size c (b ∷ ds) d dots e = next-dots v n dir size c b (ds ++ d ∷ dots) e

  next-plain :
      (v : Bool) (n : Str) (dir : Bool) (size : ℤ) (d : FindData) (ds : List FindData)
      → is_dots_data d ≡ false
      → process_next wstr2str (at v n dir size (d ∷ ds)) ≡ at_data d ds
  unfolding process_next take_data at at_data
  next-plain v n dir size d ds e = rw (process_next, skip_dots-plain d ds e) refl

  -- Where nothing but dots are left the iterator stays valid at its entry.
  next-stays :
      (v : Bool) (n : Str) (dir : Bool) (size : ℤ) (d : FindData) (ds : List FindData)
      → is_dots_data d ≡ true
      → All (λ c. is_dots_data c ≡ true) ds
      → process_next wstr2str (at v n dir size (d ∷ ds)) ≡ at v n dir size []
  unfolding process_next take_data at
  next-stays v n dir size d ds e h = rw (process_next, skip_dots-dots d ds e h) refl

  -- What is left once the last entry but the dots is read: it is read again when there are dots.
  last_lem :
      (fuel : ℕ) (d : FindData) (dots : List FindData)
      → All (λ c. is_dots_data c ≡ true) dots
      → each_item (win_methods wstr2str) (suc (suc (suc fuel))) (at_data d dots)
        ≡ some (data_item d ∷ (if is_empty dots then [] else data_item d ∷ []))
  unfolding at at_data data_item win_methods
  last_lem fuel d [] h = unfold each_item process_next in refl
  last_lem fuel d (c ∷ dots) (hc, h) =
      let stays =
        next-stays true (wstr2str d.file_name) (is_directory d) (file_size d) c dots hc h in
      let again : each_item (win_methods wstr2str) (suc (suc fuel)) (at_data d [])
          ≡ some (data_item d ∷ []) =
        unfold each_item process_next in refl in
      each_item-next (win_methods wstr2str) (suc (suc fuel)) (at_data d (c ∷ dots)) (data_item d)
        (process_next wstr2str (at_data d (c ∷ dots))) (data_item d ∷ []) refl refl refl
        (rw stays again)

  next_lem :
      (fuel : ℕ) (v : Bool) (n : Str) (dir : Bool) (size : ℤ) (ds : List FindData) (d : FindData)
      (dots : List FindData)
      → length ds ≤ fuel
      → is_dots_data d ≡ false
      → All (λ c. is_dots_data c ≡ true) dots
      → each_item
          (win_methods wstr2str)
          (suc (suc (suc fuel)))
          (process_next wstr2str (at v n dir size (ds ++ d ∷ dots)))
        ≡ some (real_items ds ++ data_item d ∷ (if is_empty dots then [] else data_item d ∷ []))
  unfolding real_items win_methods at at_data data_item
  next_lem fuel v n dir size [] d dots h e hs =
      rw (next-plain v n dir size d dots e) (last_lem fuel d dots hs)
  next_lem zero v n dir size (c ∷ ds) d dots h e hs = absurd (omega arith)
  next_lem (suc fuel) v n dir size (c ∷ ds) d dots h e hs =
      let name = wstr2str c.file_name in
      elim (Bool-cases (is_dots_data c)) [
        | inl f ↦
            rw (next-dots_append v n dir size c ds d dots f, real_items, f)
              (next_lem (suc fuel) v n dir size ds d dots (omega arith) e hs)
        | inr f ↦
            rw (next-plain v n dir size c (ds ++ d ∷ dots) f, real_items, f)
              (each_item-next (win_methods wstr2str) (suc (suc (suc fuel)))
                (at_data c (ds ++ d ∷ dots)) (data_item c) _ _ refl refl refl
                (next_lem fuel true name (is_directory c) (file_size c) ds d dots (omega arith) e
                  hs))
      ]

  win_create-next :
      (d : FindData) (ds : List FindData)
      → win_create wstr2str (some (d, ds))
        ≡ process_next wstr2str (at false [] false (pos 0) (d ∷ ds))
  unfolding win_create process_next at take_data
  win_create-next d ds = split (skip_dots wstr2str d ds)
    where
      split :
          (r : Option FindData × List FindData)
          → take_data wstr2str r
              (record { valid = false; name = []; dir = false; size = pos 0; dir_handle = none })
            ≡ take_data wstr2str r (at false [] false (pos 0) (d ∷ ds))
      split (none, rest) = refl
      split (some f, rest) = refl

-- On Windows the loop over a directory that has an entry ends without an exception. Up to the last
-- entry that is no dots it sees each such entry once, in the order in which the system gives them;
-- the last one it sees once more when dots follow it.
pub each_item-win_create :
    (wstr2str : List ℕ → Str) (first : FindData) (found ds : List FindData) (d : FindData)
    (dots : List FindData)
    → is_dots_data wstr2str d ≡ false
    → All (λ c. is_dots_data wstr2str c ≡ true) dots
    → first ∷ found ≡ ds ++ d ∷ dots
    → each_item
        (win_methods wstr2str)
        (suc (suc (suc (length ds))))
        (win_create wstr2str (some (first, found)))
      ≡ some (
          real_items wstr2str ds
          ++ data_item wstr2str d ∷ (if is_empty dots then [] else data_item wstr2str d ∷ []))
each_item-win_create wstr2str first found ds d dots e hs shape =
    rw (win_create-next wstr2str first found, shape)
      (next_lem wstr2str (length ds) false [] false (pos 0) ds d dots (omega arith) e hs)
