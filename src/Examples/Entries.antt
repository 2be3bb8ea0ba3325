-- ===== src/Examples/Entries.antt =====
-- A tree of three entries: a root, a directory in it, and a file in that.
use spacedisplay.Common.{
  ◌≡◌, refl, inl, inr, Bool-cases, ==_iff, sym, Bool, true, ◌&&◌, not, none, [], ◌∷◌, arith, ◌==◌,
  if◌then◌else◌,
}
use spacedisplay.Common.Int.{ℤ, pos, ◌+ℤ◌, ◌-ℤ◌, ◌≤ℤ◌, +ℤ_zero}
use spacedisplay.FileEntry.{
  chains, Ptr, Store, add_child, set_size, remove_pending_delete, chains, total,
}
use spacedisplay.FileEntry.Bins.{count}
use spacedisplay.FileEntry.Tree.{root, up, set_at}
use spacedisplay.FileEntry.Operations.{IsSettled, set_size-IsSettled}
use spacedisplay.FileEntry.AddChild.{add_child-IsSettled}
use spacedisplay.FileEntry.Delete.{deleted, remaining, remove_pending_delete-IsSettled}

abbrev own : Ptr → ℤ
own q = if q == 2 then pos 5 else if q == 3 then pos 7 else pos 0

-- No entry has children yet.
abbrev alone : Store
alone q = record {
  parent = none;
  children = [];
  pending_delete = q == 3;
  is_dir = not (q == 2);
  name_crc = q;
  path_crc = q;
  size = own q;
  name = q ∷ [];
}

abbrev all_attached : Ptr → Bool
all_attached q = true

alone-IsSettled : IsSettled own all_attached alone
unfolding chains count total
alone-IsSettled = record { bins = λ q. tt; linked = λ p c. refl; sums = λ q. sym (+ℤ_zero (own q)) }

abbrev one_dir : Store
one_dir = add_child 2 0 1 alone

abbrev one_file : Store
one_file = add_child 2 1 2 one_dir

abbrev two_files : Store
two_files = add_child 2 1 3 one_file

one_dir-IsSettled : IsSettled own all_attached one_dir
one_dir-IsSettled =
    add_child-IsSettled own all_attached 2 0 alone 0 1 (omega arith) alone-IsSettled refl refl
      (λ e. absurd (omega arith)) (root refl) (λ e. absurd (omega arith))

add_child-IsSettled_example : IsSettled own all_attached one_file
unfolding add_child
add_child-IsSettled_example =
    add_child-IsSettled own all_attached 2 1 one_dir 1 2 (omega arith) one_dir-IsSettled refl refl
      (λ e. absurd (omega arith)) (up 0 refl refl (λ e. absurd (omega arith)) (root refl))
      (λ e. absurd (omega arith))

one_file-IsSettled : IsSettled own all_attached one_file
unfolding add_child
one_file-IsSettled =
    add_child-IsSettled own all_attached 2 1 one_dir 1 2 (omega arith) one_dir-IsSettled refl refl
      (λ e. absurd (omega arith)) (up 0 refl refl (λ e. absurd (omega arith)) (root refl))
      (λ e. absurd (omega arith))

two_files-IsSettled : IsSettled own all_attached two_files
unfolding add_child ◌-ℤ◌ ◌+ℤ◌
two_files-IsSettled =
    add_child-IsSettled own all_attached 2 1 one_file 1 3 (omega arith) one_file-IsSettled refl refl
      (λ e. absurd (omega arith)) (up 0 refl refl (λ e. absurd (omega arith)) (root refl))
      (λ e. absurd (omega arith))

-- The file of five bytes is found to have nine.
set_size-IsSettled_example :
    IsSettled
      (set_at own 2 (own 2 +ℤ (pos 9 -ℤ (two_files 2).size)))
      all_attached
      (set_size 2 2 (pos 9) two_files)
unfolding add_child ◌-ℤ◌ ◌+ℤ◌
set_size-IsSettled_example =
    set_size-IsSettled own all_attached 2 2 two_files 2 (pos 9) (omega arith) two_files-IsSettled (
      up 1 refl refl (λ e. absurd (omega arith))
        (up 0 refl refl (λ e. absurd (omega arith)) (root refl)))

root_grows : (set_size 2 2 (pos 9) two_files 0).size ≡ pos 16
unfolding set_size add_child ◌-ℤ◌ ◌+ℤ◌
root_grows = refl

two_files-nonneg : (q : Ptr) → pos 0 ≤ℤ (two_files q).size
unfolding add_child ◌-ℤ◌ ◌+ℤ◌
two_files-nonneg q = elim (Bool-cases (q == 0)) [
  | inl e ↦ rw ((==_iff q 0).0 e) (omega arith)
  | inr e ↦ elim (Bool-cases (q == 1)) [
    | inl f ↦ rw ((==_iff q 1).0 f) (omega arith)
    | inr f ↦ rw (e, f) (ground arith)
  ]
]

-- The file of seven bytes goes.
remove_pending_delete-IsSettled_example :
    let (k, out) = remove_pending_delete 2 1 two_files in
    IsSettled own (remaining two_files 1 all_attached) k
    × ((c : Ptr) → count c out ≡ (if true && deleted two_files 1 c then 1 else 0))
    × ((q : Ptr) → (k q).parent ≡ (two_files q).parent)
unfolding add_child ◌-ℤ◌ ◌+ℤ◌
remove_pending_delete-IsSettled_example =
    remove_pending_delete-IsSettled own all_attached 2 1 two_files 1 (omega arith)
      two_files-IsSettled two_files-nonneg (up 0 refl refl (λ e. absurd (omega arith)) (root refl))

file_goes : (remove_pending_delete 2 1 two_files).1 ≡ 3 ∷ []
unfolding remove_pending_delete add_child ◌-ℤ◌ ◌+ℤ◌
file_goes = refl
