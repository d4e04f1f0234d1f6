-- ===== src/Base/Exec.antt =====
-- Methods that change an object's state and may raise. What was written before an exception stays
-- written, so the state comes back beside the exception too.
use sodtware_dev_ops_gp_proj.Base.Result.{Exception, Result, ok, err}
use mathlib.Core.Path.{◌≡◌, refl}
use mathlib.Core.Logic.{◌⊎◌, inl, inr}
use mathlib.Core.Bool.{Bool, true, false}

abbrev pub Exec {ℓ} : Type ℓ → Type ℓ → Type ℓ
Exec S A = S → Result A × S

-- What follows a step, from the state that the step left.
abbrev pub continue {ℓ} : {S A B : Type ℓ} → Result A × S → (A → Exec S B) → Result B × S
continue (ok a, s) f = f a s
continue (err e, s) f = (err e, s)

infixl 5 ◌>>=◌ ◌>>◌
abbrev pub ◌>>=◌ {ℓ} : {S A B : Type ℓ} → Exec S A → (A → Exec S B) → Exec S B
◌>>=◌ m f s = continue (m s) f

abbrev pub ◌>>◌ {ℓ} : {S A B : Type ℓ} → Exec S A → Exec S B → Exec S B
m >> k = m >>= λ _. k

module _ {ℓ} {S A : Type ℓ} where
  abbrev pub pure : A → Exec S A
  pure a s = (ok a, s)

  abbrev pub raise : Exception → Exec S A
  raise e s = (err e, s)

  -- A computation that touches no state.
  abbrev pub lift : Result A → Exec S A
  lift r s = (r, s)

abbrev pub unless {ℓ} : {S : Type ℓ} → Bool → Exception → Exec S (Unit {ℓ})
unless true e s = (ok tt, s)
unless false e s = (err e, s)

-- What a run came to.
pub Exec-cases {ℓ} :
    {S A : Type ℓ} (p : Result A × S)
    → ((a : A) × (s : S) × (p ≡ (ok a, s))) ⊎ ((e : Exception) × (s : S) × (p ≡ (err e, s)))
Exec-cases (ok a, s) = inl (a, s, refl)
Exec-cases (err e, s) = inr (e, s, refl)
