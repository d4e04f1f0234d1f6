-- ===== src/Base/Plain.antt =====
-- Computations whose only exception is `ValueError`.
use sodtware_dev_ops_gp_proj.Base.Result.{Exception, Result, ok, err, value_error, ◌>>=◌}
use sodtware_dev_ops_gp_proj.Base.Tests.{if◌then◌else◌}
use mathlib.Core.Path.{◌≡◌}
use mathlib.Core.Bool.{Bool, true, false}

pub record IsPlain {A : Type 0} (r : Result A) : Type 0 where
  pub error : (e : Exception) → r ≡ err e → e ≡ value_error

module _ {A : Type 0} where
  pub IsPlain-ok : (a : A) → IsPlain (ok a)
  IsPlain-ok a = record { error = λ e h. cc h }

  pub IsPlain-err : IsPlain {A = A} (err value_error)
  IsPlain-err = record { error = λ e h. cc h }

  pub IsPlain-if :
      (b : Bool) (r s : Result A) → IsPlain r → IsPlain s → IsPlain (if b then r else s)
  IsPlain-if true r s p q = p
  IsPlain-if false r s p q = q

pub IsPlain-bind :
    {A B : Type 0} (m : Result A) (f : A → Result B)
    → IsPlain m
    → ((a : A) → IsPlain (f a))
    → IsPlain (m >>= f)
IsPlain-bind (ok a) f p q = q a
IsPlain-bind (err x) f p q = record { error = λ e h. p.error e (cc h) }

pub ruleset plain_rules = (IsPlain-ok, IsPlain-err, IsPlain-if, IsPlain-bind)
