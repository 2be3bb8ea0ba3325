-- ===== src/FileIterator.antt =====
-- The class `FileIterator` of lib/include/FileIterator.h, and the loop over the entries of a
-- directory that its users write.
pub mod Linux
pub mod Windows
pub mod Loop
pub mod Listing
pub mod Repeated
use spacedisplay.Common.{
  ℕ, zero, suc, Bool, true, false, ◌||◌, Option, none, some, List, [], ◌∷◌, is_empty, if◌then◌else◌,
  Str, str_eq, codes,
}
use spacedisplay.Scanner.State.{DirItem}

-- The names that are no entries of a directory.
unfoldable pub is_dots : Str → Bool
is_dots name = is_empty name || (str_eq name (codes ".") || str_eq name (codes ".."))

-- What the virtual methods give. `advance` is `operator++`; the methods throw, here `none`, when
-- the iterator is not valid.
pub record FileIterator (It : Type 0) : Type 0 where
  pub is_valid : It → Bool
  pub advance : It → Option It
  pub item : It → Option DirItem

-- `for (auto it = create(path); it->isValid(); ++(*it))`, with what each round reads. `none` when a
-- method throws or the fuel runs out.
unfoldable pub each_item : {It : Type 0} → FileIterator It → ℕ → It → Option (List DirItem)
each_item methods zero it = none
each_item methods (suc fuel) it = elim (methods.is_valid it) [
  | false ↦ some []
  | true ↦ elim (methods.item it) [
    | none ↦ none
    | some item ↦ elim (methods.advance it) [
      | none ↦ none
      | some next ↦ elim (each_item methods fuel next) [
        | none ↦ none
        | some items ↦ some (item ∷ items)
      ]
    ]
  ]
]
