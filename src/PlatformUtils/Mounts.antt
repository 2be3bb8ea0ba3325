-- ===== src/PlatformUtils/Mounts.antt =====
-- Which directories the scanner leaves out as mount points.
use spacedisplay.Common.{
  ℕ, ◌≡◌, ◌≢◌, refl, ap, ◌∙◌, inl, inr, Bool, true, false, ◌||◌, some, List, [], ◌∷◌, ◌++◌, ◌==◌,
  map, if◌then◌else◌, Str, codes, str_eq, All, All-append, Bool-cases, arith,
}
use spacedisplay.Scanner.State.{in_array}
use spacedisplay.Scanner.Scan.{is_skipped}
use spacedisplay.PlatformUtils.{
  is_space, take_field, skip_blank, parse_fields, parse_mount, close_mount, process_mount_points,
  collect_mounts, get_available_mounts, get_excluded_paths,
}

-- A line of the table of mounts, with what follows its first three fields.
pub record Mount : Type 0 where
  pub device : Str
  pub path : Str
  pub partition : Str
  pub options : Str

-- How the system writes a byte of a path: blanks, tabs, line feeds and backslashes in octal.
abbrev pub escape_byte : ℕ → Str
escape_byte c =
    if c == b' '
    then codes "\\040"
    else if c == 9
    then codes "\\011"
    else if c == 10
    then codes "\\012"
    else if c == 0x5c
    then codes "\\134"
    else c ∷ []

abbrev pub escape : Str → Str
escape [] = []
escape (c ∷ s) = escape_byte c ++ escape s

abbrev pub mount_line : Mount → Str
mount_line m = escape m.device ++ b' ' ∷ (escape m.path ++ b' ' ∷ (m.partition ++ b' ' ∷ m.options))

abbrev NoSpace : Str → Type 0
NoSpace s = All (λ c. is_space c ≡ false) s

take_field-append :
    (field rest : Str) → NoSpace field → take_field (field ++ b' ' ∷ rest) ≡ (field, b' ' ∷ rest)
unfolding take_field
take_field-append [] rest h = refl
take_field-append (c ∷ field) rest (hc, h) =
    rw (take_field, hc, take_field-append field rest h) refl

or_assoc : (a b c : Bool) → ((a || b) || c) ≡ (a || (b || c))
or_assoc true b c = refl
or_assoc false b c = refl

or_left_comm : (a b c : Bool) → (a || (b || c)) ≡ (b || (a || c))
or_left_comm true true c = refl
or_left_comm true false c = refl
or_left_comm false true c = refl
or_left_comm false false c = refl

is_skipped-collect :
    (p : Str) (mounts : List (Str × Bool))
    → is_skipped (collect_mounts false mounts) (collect_mounts true mounts) p
      ≡ in_array p (map (λ (m : Str × Bool). m.0) mounts)
unfolding in_array collect_mounts
is_skipped-collect p [] = refl
is_skipped-collect p ((mount, true) ∷ mounts) =
    or_left_comm (in_array p (collect_mounts false mounts)) (str_eq mount p)
      (in_array p (collect_mounts true mounts))
    ∙ ap (◌||◌ (str_eq mount p)) (is_skipped-collect p mounts)
is_skipped-collect p ((mount, false) ∷ mounts) =
    or_assoc (str_eq mount p) (in_array p (collect_mounts false mounts))
      (in_array p (collect_mounts true mounts))
    ∙ ap (◌||◌ (str_eq mount p)) (is_skipped-collect p mounts)

-- No byte of an escaped path ends a field, when none of the other white space stands in it.
abbrev pub IsPlain : ℕ → Type 0
IsPlain c = (c ≢ 11) × (c ≢ 12) × (c ≢ 13)

escape_byte-NoSpace : (c : ℕ) → IsPlain c → NoSpace (escape_byte c)
unfolding is_space
escape_byte-NoSpace c (n, m, k) = elim (Bool-cases (c == b' ')) [
  | inl e ↦ rw e (refl, (refl, (refl, (refl, tt))))
  | inr blank ↦ elim (Bool-cases (c == 9)) [
    | inl e ↦ rw (blank, e) (refl, (refl, (refl, (refl, tt))))
    | inr tab ↦ elim (Bool-cases (c == 10)) [
      | inl e ↦ rw (blank, tab, e) (refl, (refl, (refl, (refl, tt))))
      | inr feed ↦ elim (Bool-cases (c == 0x5c)) [
        | inl e ↦ rw (blank, tab, feed, e) (refl, (refl, (refl, (refl, tt))))
        | inr slash ↦ rw (blank, tab, feed, slash) (ground arith, tt)
      ]
    ]
  ]
]

escape-NoSpace : (s : Str) → All IsPlain s → NoSpace (escape s)
escape-NoSpace [] h = tt
escape-NoSpace (c ∷ s) (hc, h) =
    All-append (λ c. is_space c ≡ false) (escape_byte c) (escape s) (escape_byte-NoSpace c hc)
      (escape-NoSpace s h)

-- The paths of a mount are such, and so is the name of its partition.
pub record IsMount (m : Mount) : Type 0 where
  pub device : All IsPlain m.device
  pub path : All IsPlain m.path
  pub partition : All (λ c. is_space c ≡ false) m.partition

parse_mount-line :
    (m : Mount) → IsMount m → parse_mount (mount_line m) ≡ some (escape m.path, m.partition)
unfolding parse_mount parse_fields skip_blank
parse_mount-line m h =
    let behind = m.partition ++ b' ' ∷ m.options in
    let device =
      take_field-append (escape m.device) (escape m.path ++ b' ' ∷ behind)
        (escape-NoSpace m.device h.device) in
    let path = take_field-append (escape m.path) behind (escape-NoSpace m.path h.path) in
    let partition = take_field-append m.partition m.options h.partition in
    rw (parse_mount, device, parse_fields, path) (rw (path, partition) refl)

mounts-lines :
    (ms : List Mount)
    → All IsMount ms
    → map (λ (m : Str × Bool). m.0) (process_mount_points (map mount_line ms))
      ≡ map (λ m. close_mount (escape m.path)) ms
unfolding process_mount_points
mounts-lines [] h = refl
mounts-lines (m ∷ ms) (hm, h) =
    rw (process_mount_points, parse_mount-line m hm)
      (ap (◌∷◌ (close_mount (escape m.path))) (mounts-lines ms h))

-- From the table of mounts to the scanner: the available mounts and the excluded paths together
-- leave out exactly the paths that are listed as mount points, whatever the partition is. They are
-- looked up as the table writes them, with blanks and backslashes in octal.
pub is_skipped-mounts :
    (ms : List Mount) (path : Str)
    → All IsMount ms
    → is_skipped
        (get_available_mounts (map mount_line ms))
        (get_excluded_paths (map mount_line ms))
        path
      ≡ in_array path (map (λ m. close_mount (escape m.path)) ms)
unfolding get_available_mounts get_excluded_paths
is_skipped-mounts ms path h =
    is_skipped-collect path (process_mount_points (map mount_line ms))
    ∙ ap (in_array path) (mounts-lines ms h)
