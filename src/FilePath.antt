-- ===== src/FilePath.antt =====
-- The class `FilePath` of lib/include/filepath.h and lib/src/filepath.cpp, and the separators of
-- lib/include/platformutils.h. A method that changes its object returns the new path; one that
-- throws `std::invalid_argument` returns `err`.
pub mod Normalize
pub mod Validity
pub mod Methods
pub mod Compare
pub mod Roundtrip
pub mod Reparse
pub mod Results
use spacedisplay.Common.{
  ℕ, zero, suc, ◌-◌, ◌%◌, ◌^◌, bit_xor, ◌≡◌, Bool, true, false, ◌&&◌, not, Option, none, some, List,
  [], ◌∷◌, ◌++◌, map, reverse, ltb, ◌==◌, if◌then◌else◌, length, get_or, drop, back, pop_back,
  push_back, Str, str_eq, starts_with,
}

pub data Platform : Type 0 where
  linux windows : Platform

-- `PlatformUtils::filePathSeparator`, 0x2f is '/' and 0x5c is '\'.
abbrev pub file_path_separator : Platform → ℕ
file_path_separator linux = 0x2f
file_path_separator windows = 0x5c

abbrev pub inverted_file_path_separator : Platform → ℕ
inverted_file_path_separator linux = 0x5c
inverted_file_path_separator windows = 0x2f

-- What the code is built for, and `crc16` of the crc library: the checksum of the bytes of a
-- buffer up to a length.
pub record Host : Type 0 where
  pub platform : Platform
  pub crc16 : Str → ℕ → ℕ

abbrev pub separator : Host → ℕ
separator h = file_path_separator h.platform

abbrev pub inverted_separator : Host → ℕ
inverted_separator h = inverted_file_path_separator h.platform

-- `Utils::strCrc16`: the length is cast to `uint16_t`.
unfoldable pub str_crc16 : Host → Str → ℕ
str_crc16 h s = h.crc16 s (length s % 2 ^ 16)

pub data Result {ℓ} (A : Type ℓ) : Type ℓ where
  ok : A → Result A
  err : Result A

pub record FilePath : Type 0 where
  pub parts : List Str
  pub path_crcs : List ℕ

pub data CompareResult : Type 0 where
  parent child different equal : CompareResult

pub data SlashHandling : Type 0 where
  remove_slash add_slash leave_slash : SlashHandling

-- `std::replace` of one byte by another.
unfoldable pub replace : ℕ → ℕ → Str → Str
replace old new [] = []
replace old new (c ∷ s) = (if c == old then new else c) ∷ replace old new s

-- The loops of `normalize` walk from the end, so they are written over the reversed string, whose
-- head is `path.back()`.
unfoldable pub pop_slashes : ℕ → Str → Str
pop_slashes sep (a ∷ b ∷ s) = if a == sep then pop_slashes sep (b ∷ s) else a ∷ b ∷ s
pop_slashes sep s = s

unfoldable pub pop_double_slashes : ℕ → Str → Str
pop_double_slashes sep (a ∷ b ∷ s) =
    if a == sep && b == sep then pop_double_slashes sep (b ∷ s) else a ∷ b ∷ s
pop_double_slashes sep s = s

-- On the empty string, where the source reads `path.back()` out of range, the slash is added.
unfoldable pub push_slash : ℕ → Str → Str
push_slash sep [] = sep ∷ []
push_slash sep (a ∷ s) = if a == sep then a ∷ s else sep ∷ a ∷ s

unfoldable pub normalize : Host → Str → SlashHandling → Str
unfolding pop_slashes pop_double_slashes push_slash
normalize h path leave_slash = replace (inverted_separator h) (separator h) path
normalize h path remove_slash =
    reverse
      (pop_slashes (separator h) (reverse (replace (inverted_separator h) (separator h) path)))
normalize h path add_slash = reverse (
    push_slash (separator h) (
      pop_double_slashes (separator h)
        (reverse (replace (inverted_separator h) (separator h) path))))

-- A checksum of 0 asks for it to be computed.
unfoldable pub crc_or_default : Host → Str → ℕ → ℕ
crc_or_default h s crc = if crc == 0 then str_crc16 h s else crc

-- `FilePath(root, crc)`.
unfoldable pub from_root : Host → Str → ℕ → Result FilePath
from_root h [] crc = err
from_root h (c ∷ s) crc =
    let root = normalize h (c ∷ s) add_slash in
    ok (record { parts = root ∷ []; path_crcs = crc_or_default h root crc ∷ [] })

-- `find` of a separator with the `substr` and `erase` that follow it: what stands before the
-- first one, and what stands behind.
unfoldable pub split_first : ℕ → Str → Option (Str × Str)
split_first sep [] = none
split_first sep (c ∷ s) = if c == sep then some ([], s) else elim (split_first sep s) [
  | none ↦ none
  | some (dir_name, rest) ↦ some (c ∷ dir_name, rest)
]

unfoldable pub push_part : FilePath → Str → ℕ → FilePath
push_part p part crc = record {
  parts = push_back p.parts part;
  path_crcs = push_back p.path_crcs (bit_xor (back 0 p.path_crcs) crc);
}

-- The loop that splits the rest of the string by slashes, with as much fuel as there are bytes,
-- and the push of a file name that is left.
unfoldable pub split_parts : Host → ℕ → Str → FilePath → FilePath
unfolding push_part split_first
split_parts h fuel [] p = p
split_parts h zero (c ∷ s) p = push_part p (c ∷ s) (str_crc16 h (c ∷ s))
split_parts h (suc fuel) (c ∷ s) p = elim (split_first (separator h) (c ∷ s)) [
  | none ↦ push_part p (c ∷ s) (str_crc16 h (c ∷ s))
  | some (dir_name, rest) ↦
      split_parts h fuel rest
        (push_part p (push_back dir_name (separator h)) (str_crc16 h dir_name))
]

unfoldable pub ends_with_slash : Host → Str → Bool
ends_with_slash h [] = false
ends_with_slash h (c ∷ s) =
    if back c s == separator h then true else back c s == inverted_separator h

-- The rest of `FilePath(path, root)`, from the test of the prefix on.
unfoldable pub split_root : Host → Str → Str → Result FilePath
unfolding split_parts
split_root h new_path new_root =
    let rest = drop (length new_root) new_path in
    let start : FilePath = record {
      parts = new_root ∷ [];
      path_crcs = str_crc16 h new_root ∷ [];
    } in
    if starts_with new_root new_path then ok (split_parts h (length rest) rest start) else err

-- `FilePath(path, root)`.
unfoldable pub from_path : Host → Str → Str → Result FilePath
unfolding ends_with_slash split_root
from_path h [] root = err
from_path h (c ∷ s) [] = err
from_path h (c ∷ s) (d ∷ t) =
    split_root h
      (normalize h (c ∷ s) (if ends_with_slash h (c ∷ s) then add_slash else remove_slash))
      (normalize h (d ∷ t) add_slash)

unfoldable pub concat : List Str → Str
concat [] = []
concat (s ∷ ss) = s ++ concat ss

unfoldable pub get_path : Host → FilePath → Bool → Str
get_path h p add_dir_slash =
    let path = concat p.parts in
    if not add_dir_slash && back 0 path == separator h then pop_back path else path

unfoldable pub is_dir : Host → FilePath → Bool
is_dir h p = back 0 (back [] p.parts) == separator h

unfoldable pub get_name : Host → FilePath → Str
unfolding is_dir
get_name h p =
    if length p.parts == 1
    then back [] p.parts
    else if is_dir h p
    then pop_back (back [] p.parts)
    else back [] p.parts

unfoldable pub get_root : FilePath → Str
get_root p = get_or p.parts 0 []

unfoldable pub get_path_crc : FilePath → ℕ
get_path_crc p = back 0 p.path_crcs

unfoldable pub add_dir : Host → FilePath → Str → ℕ → Result FilePath
unfolding push_part is_dir
add_dir h p [] crc = err
add_dir h p (c ∷ s) crc =
    if is_dir h p
    then ok (
        push_part p (if back c s == separator h then c ∷ s else push_back (c ∷ s) (separator h))
          (crc_or_default h (c ∷ s) crc))
    else err

unfoldable pub add_file : Host → FilePath → Str → ℕ → Result FilePath
unfolding push_part is_dir
add_file h p [] crc = err
add_file h p (c ∷ s) crc =
    if is_dir h p then ok (push_part p (c ∷ s) (crc_or_default h (c ∷ s) crc)) else err

unfoldable pub can_go_up : FilePath → Bool
can_go_up p = ltb 1 (length p.parts)

unfoldable pub go_up : FilePath → FilePath × Bool
unfolding can_go_up
go_up p =
    if can_go_up p
    then (record { parts = pop_back p.parts; path_crcs = pop_back p.path_crcs }, true)
    else (p, false)

-- The loops of `compareTo`: whether every part of the first list is the part of the second at
-- the same index.
unfoldable pub same_parts : List Str → List Str → Bool
same_parts [] qs = true
same_parts (p ∷ ps) [] = false
same_parts (p ∷ ps) (q ∷ qs) = str_eq p q && same_parts ps qs

unfoldable pub compare_to : FilePath → FilePath → CompareResult
compare_to p q =
    if ltb (length p.parts) (length q.parts)
    then if not (get_or q.path_crcs (length p.parts - 1) 0 == back 0 p.path_crcs)
      then different
      else if not (same_parts p.parts q.parts)
      then different
      else parent
    else if not (get_or p.path_crcs (length q.parts - 1) 0 == back 0 q.path_crcs)
    then different
    else if not (same_parts q.parts p.parts)
    then different
    else if length p.parts == length q.parts
    then equal
    else child

unfoldable pub make_relative_to : FilePath → FilePath → FilePath × Bool
make_relative_to p q = elim (compare_to p q) [
  | child ↦ (
    record { parts = drop (length q.parts) p.parts; path_crcs = drop (length q.parts) p.path_crcs },
    true,
  )
  | _ ↦ (p, false)
]
