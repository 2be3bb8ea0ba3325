-- ===== src/Examples/Cache.antt =====
-- A cache of two numbers at most.
use spacedisplay.Common.{ℕ, ◌≡◌, refl, Bool, List, [], ◌∷◌, ◌==◌}
use spacedisplay.FilePath.{Result, err}
use spacedisplay.PriorityCache.{PriorityCache, new_cache, put, set_max_size}
use spacedisplay.PriorityCache.Bounds.{
  Fits, Reachable-Fits, new, then_call, by_put, by_set_max_size,
}

same : ℕ → ℕ → Bool
same a b = a == b

-- The latest key is the last one.
abbrev sort : (ℕ → ℕ) → List ℕ → List ℕ
sort time (a ∷ b ∷ c ∷ []) = c ∷ b ∷ a ∷ []
sort time keys = keys

supplier : ℕ → Result ℕ
supplier k = err

abbrev start : PriorityCache ℕ ℕ
start = new_cache

abbrev filled : PriorityCache ℕ ℕ
filled =
    put same sort 3 30 (put same sort 2 20 (put same sort 1 10 (set_max_size same sort 2 start)))

Reachable-Fits_example : Fits filled
Reachable-Fits_example = Reachable-Fits same sort supplier filled (
    then_call
      (then_call (then_call (then_call new (by_set_max_size 2)) (by_put 1 10)) (by_put 2 20))
      (by_put 3 30))

oldest_is_gone : filled.keys ≡ 2 ∷ 1 ∷ []
unfolding put set_max_size same
oldest_is_gone = refl
