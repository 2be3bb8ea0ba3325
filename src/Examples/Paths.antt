-- ===== src/Examples/Paths.antt =====
-- Paths as in tests/FilePathTest.cpp.
use spacedisplay.Common.{
  ℕ, ◌+◌, ◌≡◌, refl, inl, inr, true, List, [], ◌∷◌, ◌++◌, arith, codes, Str, zero, suc, starts_with,
  str_eq,
}
use spacedisplay.FilePath.{
  linux, Host, str_crc16, FilePath, ok, err, parent, add_slash, normalize, replace, from_path,
  get_path, get_root, compare_to, same_parts, concat, ends_with_slash,
}
use spacedisplay.FilePath.Validity.{IsValid, crcs_of}
use spacedisplay.FilePath.Compare
use spacedisplay.FilePath.Roundtrip
use spacedisplay.FilePath.Reparse

-- A checksum for the tests: the sum of the bytes.
abbrev byte_sum : Str → ℕ → ℕ
byte_sum [] n = 0
byte_sum (c ∷ s) zero = 0
byte_sum (c ∷ s) (suc n) = c + byte_sum s n

abbrev pub host : Host
host = record { platform = linux; crc16 = byte_sum }

abbrev pub path_of : List Str → FilePath
path_of parts = record { parts = parts; path_crcs = crcs_of host parts }

abbrev pub root_path : FilePath
root_path = path_of (codes "/" ∷ [])

abbrev pub home_path : FilePath
home_path = path_of (codes "/" ∷ codes "home/" ∷ [])

abbrev pub file_path : FilePath
file_path = path_of (codes "/" ∷ codes "home/" ∷ codes "a" ∷ [])

pub root_path-IsValid : IsValid host root_path
root_path-IsValid = record { names = (refl, tt); crcs = refl }

pub home_path-IsValid : IsValid host home_path
home_path-IsValid = record { names = (refl, inl (codes "home", omega arith, refl)); crcs = refl }

pub file_path-IsValid : IsValid host file_path
file_path-IsValid = record {
  names = (refl, ((codes "home", omega arith, refl), inr ((λ e. cc), omega arith)));
  crcs = refl;
}

-- Both kinds of slash are read; the slash at the end makes it a directory.
parse_home : from_path host (codes "/" ++ codes "home" ++ 0x5c ∷ []) (codes "/") ≡ ok home_path
unfolding from_path normalize replace str_crc16 crcs_of starts_with
parse_home = refl

parse_outside : from_path host (codes "/usr") (codes "/home") ≡ err
unfolding from_path normalize replace str_crc16 crcs_of starts_with
parse_outside = refl

compare_home : compare_to root_path home_path ≡ parent
unfolding compare_to same_parts str_eq crcs_of str_crc16
compare_home = refl

compare_to-Related_example :
    Compare.Related (compare_to file_path home_path) file_path.parts home_path.parts
compare_to-Related_example =
    Compare.compare_to-Related host file_path home_path file_path-IsValid home_path-IsValid

from_path_lem_example :
    IsValid host home_path
    × (get_path host home_path true
        ≡ normalize host (codes "/home/") (Roundtrip.slash_handling host (codes "/home/")))
    × (get_root home_path ≡ normalize host (codes "/") add_slash)
unfolding from_path normalize replace str_crc16 crcs_of starts_with get_path get_root
from_path_lem_example = Roundtrip.from_path_lem host (codes "/home/") (codes "/") refl

from_path-get_path_example :
    from_path host (get_path host file_path true) (get_root file_path) ≡ ok file_path
unfolding get_path concat normalize replace ends_with_slash get_root
from_path-get_path_example = Reparse.from_path-get_path host file_path file_path-IsValid refl refl
