-- ===== src/Device/Sample.antt =====
-- Whole numbers in the place of floats, and a device on a flaky link, to try the simulator on.
use sodtware_dev_ops_gp_proj.Base.{
  ◌+◌, ◌*◌, ◌≡◌, refl, true, false, not, Bool, List, [], ◌∷◌, Text, codes, arith,
}
use sodtware_dev_ops_gp_proj.Base.Int.{ℤ, pos, negsuc, leb_ℤ, pos_part, neg_part, sub_ℕ}
use sodtware_dev_ops_gp_proj.Cloud.Sample.{whole}
use sodtware_dev_ops_gp_proj.Cloud.State.{second}
use sodtware_dev_ops_gp_proj.Device.Sensor.{FloatMath, IsFloatMath}
use sodtware_dev_ops_gp_proj.Legacy.Sample.{whole_text-IsFloatText}
use sodtware_dev_ops_gp_proj.Device.Firmware.{Round, Attempt, refused, connected}

abbrev pub whole_math : FloatMath ℤ
whole_math = record {
  order = whole;
  add = λ a b. sub_ℕ (pos_part a + pos_part b) (neg_part a + neg_part b);
  lt = λ a b. not (leb_ℤ b a);
  round2 = λ x. x;
}

pub whole_math-IsFloatMath : IsFloatMath whole_math
whole_math-IsFloatMath = record {
  le_trans = λ x y z h j. ground arith;
  lt_le = λ x y h. ground arith;
  of_ℤ_le = λ i j h. h;
  round2_le = λ x y h. h;
  round2_of_ℤ = λ i. refl;
}

-- The two roundings are the same.
pub whole_rounding : (x : ℤ) → whole_text-IsFloatText.round2 x ≡ whole_math.round2 x
unfolding whole_text-IsFloatText
whole_rounding x = refl

abbrev pub node : Text
node = codes "dev-001"

abbrev pub round_at : ℤ → Bool → Round ℤ
round_at drift sends = record {
  drift_t = drift;
  drift_h = drift;
  now = 9 * second;
  random = 3;
  sends = sends;
}

-- A refusal, a connection that breaks at its second round, and one that holds.
abbrev pub flaky : List (Attempt ℤ)
flaky =
    refused
    ∷ connected (round_at (pos 1) true ∷ round_at (pos 40) false ∷ round_at (pos 1) true ∷ [])
    ∷ connected (round_at (negsuc 60) true ∷ [])
    ∷ []
