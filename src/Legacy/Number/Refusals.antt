-- ===== src/Legacy/Number/Refusals.antt =====
-- The exceptions of reading a whole number.
use sodtware_dev_ops_gp_proj.Base.{ℕ, zero, suc, false, Option, none, some, [], ◌∷◌, Text, ◌==◌}
use sodtware_dev_ops_gp_proj.Base.Plain.{IsPlain, IsPlain-ok, IsPlain-err, IsPlain-if}
use sodtware_dev_ops_gp_proj.Legacy.Number.{
  digits, positive, negative, signed, skip_blanks, read_number, int_text, is_printable,
}

positive-IsPlain : (o : Option ℕ) → IsPlain (positive o)
positive-IsPlain none = IsPlain-err
positive-IsPlain (some n) = IsPlain-ok _

negative-IsPlain : (o : Option ℕ) → IsPlain (negative o)
negative-IsPlain none = IsPlain-err
negative-IsPlain (some zero) = IsPlain-ok _
negative-IsPlain (some (suc n)) = IsPlain-ok _

signed-IsPlain : (t : Text) → IsPlain (signed t)
unfolding signed
signed-IsPlain [] = IsPlain-err
signed-IsPlain (c ∷ t) = IsPlain-if (c == b'-') _ _ (negative-IsPlain (digits t 0 false)) (
    IsPlain-if (c == b'+') _ _ (positive-IsPlain (digits t 0 false))
      (positive-IsPlain (digits (c ∷ t) 0 false)))

pub read_number-IsPlain : (t : Text) → IsPlain (read_number t)
unfolding read_number
read_number-IsPlain t = signed-IsPlain (skip_blanks t)

pub int_text-IsPlain : (t : Text) → IsPlain (int_text t)
unfolding int_text
int_text-IsPlain t = IsPlain-if (is_printable t) _ _ (read_number-IsPlain t) IsPlain-err
