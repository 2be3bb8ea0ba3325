-- ===== src/FileIterator/Loop.antt =====
-- The rounds of the loop over the entries of a directory.
use spacedisplay.Common.{ℕ, suc, ◌≡◌, refl, true, false, some, List, [], ◌∷◌}
use spacedisplay.Scanner.State.{DirItem}
use spacedisplay.FileIterator.{FileIterator, each_item}

module _ {It : Type 0} (methods : FileIterator It) (fuel : ℕ) (it : It) where
  pub each_item-end : methods.is_valid it ≡ false → each_item methods (suc fuel) it ≡ some []
  unfolding each_item
  each_item-end v = rw (each_item, v) refl

  pub each_item-next :
      (item : DirItem) (next : It) (items : List DirItem)
      → methods.is_valid it ≡ true
      → methods.item it ≡ some item
      → methods.advance it ≡ some next
      → each_item methods fuel next ≡ some items
      → each_item methods (suc fuel) it ≡ some (item ∷ items)
  unfolding each_item
  each_item-next item next items v i a r = rw (each_item, v, i, a, r) refl
