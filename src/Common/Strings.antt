-- ===== src/Common/Strings.antt =====
-- `std::string` as the list of its bytes, and comparison of such strings.
use Prim.Native.Char.{code}
use Prim.Native.String.{String}
use Prim.Native.Nat.{ℕ}
use mathlib.Core.Path.{◌≡◌, refl}
use mathlib.Core.Logic.{◌↔◌}
use mathlib.Core.Bool.{Bool, true, false, ◌&&◌}
use mathlib.Core.List.{List, [], ◌∷◌, ◌++◌}
use native.Mathlib.Omega.{arith}
use spacedisplay.Common.Tests.{◌==◌}

abbrev pub Str : Type 0
Str = List ℕ

-- The bytes of an ASCII text.
abbrev pub codes : String → Str
codes String.[] = []
codes (String.◌∷◌ c s) = code c ∷ codes s

-- `operator==` of strings.
unfoldable pub str_eq : Str → Str → Bool
str_eq [] [] = true
str_eq (a ∷ s) (b ∷ t) = a == b && str_eq s t
str_eq _ _ = false

pub str_eq_sound : (s t : Str) → str_eq s t ≡ true → s ≡ t
unfolding str_eq
str_eq_sound [] [] h = refl
str_eq_sound (a ∷ s) (b ∷ t) h = ground (arith, str_eq_sound s t)
str_eq_sound [] (b ∷ t) h = cc
str_eq_sound (a ∷ s) [] h = cc

pub str_eq_refl : (s : Str) → str_eq s s ≡ true
unfolding str_eq
str_eq_refl [] = refl
str_eq_refl (a ∷ s) = ground (arith, str_eq_refl s)

pub str_eq_iff : (s t : Str) → (str_eq s t ≡ true) ↔ (s ≡ t)
str_eq_iff s t = (str_eq_sound s t, λ e. rw e (str_eq_refl t))

-- `s.rfind(prefix, 0) == 0`.
unfoldable pub starts_with : Str → Str → Bool
starts_with [] s = true
starts_with (a ∷ p) [] = false
starts_with (a ∷ p) (b ∷ s) = a == b && starts_with p s

-- A prefix, and what follows it.
pub starts_with_sound : (p s : Str) → starts_with p s ≡ true → (t : Str) × (s ≡ p ++ t)
unfolding starts_with
starts_with_sound [] s h = (s, refl)
starts_with_sound (a ∷ p) [] h = cc
starts_with_sound (a ∷ p) (b ∷ s) h =
    let (t, e) = starts_with_sound p s (ground arith) in (t, ground arith)

pub starts_with-append : (p s : Str) → starts_with p (p ++ s) ≡ true
unfolding starts_with
starts_with-append [] s = refl
starts_with-append (c ∷ p) s = ground (arith, starts_with-append p s)
