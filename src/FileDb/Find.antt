-- ===== src/FileDb/Find.antt =====
-- `_findEntry`: what the loop over the parts of a path finds, and what it does not tell apart.
use mathlib.Core.List.{append-nil}
use spacedisplay.Common.{
  ℕ, ◌<◌, ◌≡◌, refl, sym, ap, subst, inl, inr, Option-cases, some_inj, ◌∙◌, ◌≢◌, Bool, true, false,
  none, some, List, [], ◌∷◌, ◌++◌, reverse, arith, ◌==◌, ==_iff, Bool-cases, length, get_or, drop,
  Str, str_eq, str_eq_iff, bit_xor,
}
use spacedisplay.Common.Bits.{bit_xor-twice}
use spacedisplay.FilePath.{Host, FilePath, get_path_crc, push_part}
use spacedisplay.FileEntry.{Ptr, Store}
use spacedisplay.FileEntry.Bins.{count}
use spacedisplay.FileDb.{FileDb, bucket, find_if, part_matches, climb, find_entry}

-- An entry lies below the root by the given parts, the last part first.
pub data At (host : Host) (h : Store) (root : Ptr) : List Str → Ptr → Type 0 where
  at_root : At host h root [] root
  at_child :
      {part : Str} {parts : List Str} {e : Ptr} (p : Ptr)
      → (h e).parent ≡ some p
      → part_matches host part (h e).name ≡ true
      → At host h root parts p
      → At host h root (part ∷ parts) e

module _ (host : Host) (h : Store) (root : Ptr) (top : (h root).parent ≡ none) where
  climb-root : (parts : List Str) → climb host h parts root ≡ root
  unfolding climb
  climb-root [] = refl
  climb-root (part ∷ parts) = rw (top, climb) refl

  -- Parts that are left over at the root are not looked at.
  climb-At :
      {parts : List Str} {e : Ptr} (more : List Str)
      → At host h root parts e
      → climb host h (parts ++ more) e ≡ root
  unfolding climb
  climb-At more at_root = climb-root more
  climb-At more (at_child p e m a) = rw (e, m, climb) (climb-At more a)

  -- The loop may end before the parts do.
  stopped :
      (parts : List Str) (e : Ptr)
      → e ≡ root
      → (used more : List Str) × (parts ≡ used ++ more) × At host h root used e
  stopped parts e c = ([], parts, refl, subst (At host h root []) (sym c) at_root)

  At-climb :
      (parts : List Str) (e : Ptr)
      → climb host h parts e ≡ root
      → (used more : List Str) × (parts ≡ used ++ more) × At host h root used e
  unfolding climb
  At-climb [] e c = stopped [] e c
  At-climb (part ∷ parts) e c = elim (Option-cases (h e).parent) [
    | inl n ↦ stopped (part ∷ parts) e (rw (n, climb) at c)
    | inr (p, f) ↦ elim (Bool-cases (part_matches host part (h e).name)) [
      | inl m ↦
          let (used, more, split, a) = At-climb parts p (rw (f, m, climb) at c) in
          (part ∷ used, more, ap (◌∷◌ part) split, at_child p f m a)
      | inr m ↦ stopped (part ∷ parts) e (rw (f, m, climb) at c)
    ]
  ]

none_ne_some : {x : Ptr} → none ≢ some x
none_ne_some e = cc

true_ne_false : true ≢ false
true_ne_false e = cc

-- What `find_if` finds is in the list and passes the test.
find_if_lem :
    (test : Ptr → Bool) (es : List Ptr) (e : Ptr)
    → find_if test es ≡ some e
    → (test e ≡ true) × 0 < count e es
unfolding find_if count
find_if_lem test [] e f = absurd cc
find_if_lem test (x ∷ es) e f = elim (Bool-cases (test x)) [
  | inl t ↦
      let same : x ≡ e = some_inj (rw t at f) in
      (subst (λ (z : Ptr). test z ≡ true) same t, ground arith)
  | inr t ↦ let (passes, held) = find_if_lem test es e (rw t at f) in (passes, omega arith)
]

find_if-some :
    (test : Ptr → Bool) (es : List Ptr) (e : Ptr)
    → test e ≡ true
    → 0 < count e es
    → (x : Ptr) × (find_if test es ≡ some x)
unfolding find_if count
find_if-some test [] e t l = absurd (omega arith)
find_if-some test (x ∷ es) e t l = elim (Bool-cases (test x)) [
  | inl u ↦ (x, rw u refl)
  | inr u ↦
      let (y, f) = find_if-some test es e t (elim (Bool-cases (x == e)) [
        | inl same ↦ absurd (true_ne_false (sym t ∙ ap test (sym ((==_iff x e).0 same)) ∙ u))
        | inr other ↦ ground arith
      ]) in
      (y, rw u f)
]

module _ (host : Host) (db : FileDb) (path : FilePath) where
  abbrev candidates : List Ptr
  candidates = bucket (get_path_crc path) db.entries_map

  abbrev upwards : List Str
  upwards = reverse (drop 1 path.parts)

  -- Whatever `_findEntry` finds for a path of several parts stands in the map under the checksum
  -- of the path, and lies below the root by a last stretch of the parts of the path, when the root
  -- has no parent.
  pub find_entry-At :
      (e : Ptr)
      → (db.store db.root_file).parent ≡ none
      → 1 < length path.parts
      → find_entry host db path ≡ some e
      → (used more : List Str) × (upwards ≡ used ++ more)
        × At host db.store db.root_file used e
        × (0 < count e candidates)
  unfolding find_entry
  find_entry-At e top l f =
      elim (Bool-cases (str_eq (get_or path.parts 0 []) (db.store db.root_file).name)) [
        | inl t ↦
            let several : (length path.parts == 1) ≡ false = ground arith in
            let (passes, held) =
              find_if_lem (λ x. climb host db.store upwards x == db.root_file) candidates e
                (rw (t, several) at f) in
            let (used, more, split, a) =
              At-climb host db.store db.root_file top upwards e
                ((==_iff (climb host db.store upwards e) db.root_file).0 passes) in
            (used, more, split, a, held)
        | inr t ↦ absurd (none_ne_some (rw t at f))
      ]

  -- `_findEntry` finds an entry for the parts that lead to one, when the map holds that entry
  -- under the checksum of the path.
  pub At-find_entry :
      (e : Ptr)
      → (db.store db.root_file).parent ≡ none
      → 1 < length path.parts
      → get_or path.parts 0 [] ≡ (db.store db.root_file).name
      → At host db.store db.root_file upwards e
      → 0 < count e candidates
      → (x : Ptr) × (find_entry host db path ≡ some x)
  unfolding find_entry
  At-find_entry e top l name a held =
      let several : (length path.parts == 1) ≡ false = ground arith in
      let arrives : climb host db.store upwards e ≡ db.root_file =
        ap (λ (ps : List Str). climb host db.store ps e) (sym (append-nil upwards))
        ∙ climb-At host db.store db.root_file top [] a in
      rw ((str_eq_iff (get_or path.parts 0 []) (db.store db.root_file).name).1 name, several)
        (find_if-some (λ x. climb host db.store upwards x == db.root_file) candidates e
          ((==_iff (climb host db.store upwards e) db.root_file).1 arrives) held)

  find_entry-first :
      (e : Ptr) (es : List Ptr)
      → 1 < length path.parts
      → get_or path.parts 0 [] ≡ (db.store db.root_file).name
      → climb host db.store upwards e ≡ db.root_file
      → candidates ≡ e ∷ es
      → find_entry host db path ≡ some e
  unfolding find_entry
  find_entry-first e es l name arrives held =
      let several : (length path.parts == 1) ≡ false = ground arith in
      let passes = (==_iff (climb host db.store upwards e) db.root_file).1 arrives in
      rw
        (
          (str_eq_iff (get_or path.parts 0 []) (db.store db.root_file).name).1 name,
          several,
          held,
          passes,
        )
        refl

-- The checksum of a path with one name twice in a row is the checksum without both, so for a path
-- through a directory in a directory of its own name `_findEntry` answers with the entry of the
-- path's last part in the root itself, when the root has one, which is the first entry that the map
-- holds under that checksum, and the root has no parent and its name as the root path.
pub find_entry-confuses :
    (host : Host) (db : FileDb) (dir name : Str) (root_crc dir_crc name_crc : ℕ) (e : Ptr)
    (es : List Ptr)
    → (db.store db.root_file).parent ≡ none
    → db.root_path
      ≡ (record { parts = (db.store db.root_file).name ∷ []; path_crcs = root_crc ∷ [] })
    → (db.store e).parent ≡ some db.root_file
    → part_matches host name (db.store e).name ≡ true
    → bucket (bit_xor root_crc name_crc) db.entries_map ≡ e ∷ es
    → find_entry host db
        (push_part (push_part (push_part db.root_path dir dir_crc) dir dir_crc) name name_crc)
      ≡ some e
unfolding find_entry push_part get_path_crc
find_entry-confuses host db dir name r d n e es top path below same held =
    let arrives : climb host db.store (name ∷ dir ∷ dir ∷ []) e ≡ db.root_file =
      climb-At host db.store db.root_file top (dir ∷ dir ∷ [])
        (at_child {part = name} db.root_file below same at_root) in
    subst
      (λ (p : FilePath).
        find_entry host db (push_part (push_part (push_part p dir d) dir d) name n) ≡ some e)
      (sym path)
      (find_entry-first host db (push_part (push_part (push_part start dir d) dir d) name n) e es
        (omega arith) refl arrives
        (ap (λ (c : ℕ). bucket (bit_xor c n) db.entries_map) (bit_xor-twice r d) ∙ held))
  where
    start : FilePath
    start = record { parts = (db.store db.root_file).name ∷ []; path_crcs = r ∷ [] }
