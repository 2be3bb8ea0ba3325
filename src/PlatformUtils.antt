-- ===== src/PlatformUtils.antt =====
-- The functions of lib/include/platformutils.h as lib/private/LinuxPlatformUtils.cpp has them. What
-- the system answers is an argument.
pub mod Mounts
use spacedisplay.Common.{
  ℕ, ◌*◌, Bool, true, false, ◌&&◌, ◌||◌, not, Option, none, some, List, [], ◌∷◌, ◌==◌, leb,
  if◌then◌else◌, back, push_back, Str, codes,
}
use spacedisplay.Common.Int.{ℤ, pos}
use spacedisplay.FileIterator.Linux.{Stat}
use spacedisplay.Scanner.State.{in_array}

unfoldable pub can_scan_dir : (Str → Option Stat) → Str → Bool
can_scan_dir lstat path = elim (lstat path) [ none ↦ false | some stat ↦ stat.is_dir ]

-- `statvfs`: `f_frsize`, `f_blocks` and `f_bavail`.
pub record DiskStat : Type 0 where
  pub frsize : ℕ
  pub blocks : ℕ
  pub bavail : ℕ

-- Whether the spaces were read, the total and the available space.
unfoldable pub get_mount_space : (Str → Option DiskStat) → Str → Bool × ℤ × ℤ
get_mount_space statvfs path = elim (statvfs path) [
  | none ↦ (false, pos 0, pos 0)
  | some d ↦ (true, pos (d.frsize * d.blocks), pos (d.frsize * d.bavail))
]

-- `\s` of a regular expression.
unfoldable pub is_space : ℕ → Bool
is_space c = c == b' ' || (leb 9 c && leb c 13)

-- `\S*`: what it takes, and what is left.
unfoldable pub take_field : Str → Str × Str
unfolding is_space
take_field [] = ([], [])
take_field (c ∷ s) =
    let (field, rest) = take_field s in if is_space c then ([], c ∷ s) else (c ∷ field, rest)

unfoldable pub skip_blank : Str → Option Str
skip_blank [] = none
skip_blank (c ∷ s) = if c == b' ' then some s else none

-- The groups `(\S*) (\S*)`.
unfoldable pub parse_fields : Str → Option (Str × Str)
unfolding take_field skip_blank
parse_fields s = elim (skip_blank (take_field s).1) [
  | none ↦ none
  | some behind_mount ↦ some ((take_field s).0, (take_field behind_mount).0)
]

-- `^\S* (\S*) (\S*)`. What is taken cannot be shortened, since a blank must follow.
unfoldable pub parse_mount : Str → Option (Str × Str)
unfolding take_field skip_blank parse_fields
parse_mount line = elim (skip_blank (take_field line).1) [
  | none ↦ none
  | some behind_device ↦ parse_fields behind_device
]

abbrev pub partitions : List Str
partitions =
    codes "ext2" ∷ codes "ext3" ∷ codes "ext4" ∷ codes "vfat" ∷ codes "ntfs" ∷ codes "fuseblk" ∷ []

unfoldable pub close_mount : Str → Str
close_mount mount = if back 0 mount == b'/' then mount else push_back mount b'/'

-- What the consumer is given, from the lines of `/proc/mounts`: a path, and whether it is excluded.
unfoldable pub process_mount_points : List Str → List (Str × Bool)
unfolding parse_mount close_mount in_array
process_mount_points [] = []
process_mount_points (line ∷ lines) =
    let rest = process_mount_points lines in
    elim (parse_mount line) [
      | none ↦ rest
      | some (mount, part) ↦ (close_mount mount, not (in_array part partitions)) ∷ rest
    ]

-- The mounts that are given as excluded, or as not excluded.
unfoldable pub collect_mounts : Bool → List (Str × Bool) → List Str
collect_mounts true [] = []
collect_mounts false [] = []
collect_mounts true ((mount, is_excluded) ∷ mounts) =
    let rest = collect_mounts true mounts in if is_excluded then mount ∷ rest else rest
collect_mounts false ((mount, is_excluded) ∷ mounts) =
    let rest = collect_mounts false mounts in if is_excluded then rest else mount ∷ rest

unfoldable pub get_available_mounts : List Str → List Str
unfolding process_mount_points collect_mounts
get_available_mounts lines = collect_mounts false (process_mount_points lines)

unfoldable pub get_excluded_paths : List Str → List Str
unfolding process_mount_points collect_mounts
get_excluded_paths lines = collect_mounts true (process_mount_points lines)
