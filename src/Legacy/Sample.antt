-- ===== src/Legacy/Sample.antt =====
-- Whole numbers in the place of floats, to try the records on.
use sodtware_dev_ops_gp_proj.Base.{◌≢◌, arith}
use sodtware_dev_ops_gp_proj.Base.Int.{ℤ}
use sodtware_dev_ops_gp_proj.Legacy.Number.{read_number, number_text}
use sodtware_dev_ops_gp_proj.Legacy.Number.RoundTrip.{read_number-number_text, number_text-All}
use sodtware_dev_ops_gp_proj.Legacy.Number.Refusals.{read_number-IsPlain}
use sodtware_dev_ops_gp_proj.Legacy.Record.{FloatText, IsFloatText, field_sep}

-- Whole numbers for floats: their print is that of the whole number.
abbrev pub whole_text : FloatText ℤ
whole_text = record { format2 = number_text; float = read_number }

unfoldable pub whole_text-IsFloatText : IsFloatText whole_text
whole_text-IsFloatText = record {
  round2 = λ x. x;
  float_format2 = read_number-number_text;
  float_IsPlain = read_number-IsPlain;
  format2_Lacks =
      λ x. number_text-All (λ c. c ≢ field_sep) x (omega arith) (λ c (h, k). omega arith);
}
