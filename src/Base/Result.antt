-- ===== src/Base/Result.antt =====
-- Python exceptions as values, and methods that change state and may raise.
use mathlib.Core.Path.{◌≡◌, refl}
use mathlib.Core.Logic.{◌⊎◌, inl, inr}
use Prim.Native.Nat.{ℕ}

-- The exceptions that the program raises or lets through; `http_error` carries a status code.
pub data Exception : Type 0 where
  value_error channel_error key_error type_error attribute_error overflow_error : Exception
  request_error uplink_error os_error index_error : Exception
  http_error : ℕ → Exception

pub data Result {ℓ} (A : Type ℓ) : Type ℓ where
  ok : A → Result A
  err : Exception → Result A

infixl 5 ◌>>=◌
abbrev pub ◌>>=◌ {ℓ κ} : {A : Type ℓ} {B : Type κ} → Result A → (A → Result B) → Result B
ok a >>= f = f a
err e >>= f = err e

pub Result-cases {ℓ} :
    {A : Type ℓ} (r : Result A) → ((a : A) × (r ≡ ok a)) ⊎ ((e : Exception) × (r ≡ err e))
Result-cases (ok a) = inl (a, refl)
Result-cases (err e) = inr (e, refl)

-- What a chain that returned has behind it.
module _ {ℓ κ} {A : Type ℓ} {B : Type κ} where
  pub chain_returned :
      {z : B} (first : Result A) (rest : A → Result B)
      → (first >>= rest) ≡ ok z
      → (v : A) × (first ≡ ok v) × (rest v ≡ ok z)
  chain_returned first rest e = elim (Result-cases first) [
    | inl (v, came) ↦ (v, came, (rw came at e))
    | inr (x, raised) ↦ let k : err x ≡ ok _ = rw raised at e in absurd (cc k)
  ]
