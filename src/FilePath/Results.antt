-- ===== src/FilePath/Results.antt =====
-- Cases of a result.
use spacedisplay.Common.{◌≡◌, refl, ◌≢◌, ◌⊎◌, inl, inr}
use spacedisplay.FilePath.{Result, ok, err}

pub ok_inj {ℓ} : {A : Type ℓ} {p q : A} → ok p ≡ ok q → p ≡ q
ok_inj e = cc

pub err_ne_ok {ℓ} : {A : Type ℓ} {a : A} → err ≢ ok a
err_ne_ok e = cc

pub Result-cases {ℓ} : {A : Type ℓ} (r : Result A) → (r ≡ err) ⊎ ((a : A) × (r ≡ ok a))
Result-cases (ok a) = inr (a, refl)
Result-cases err = inl refl
