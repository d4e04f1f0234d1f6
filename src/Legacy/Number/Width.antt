-- ===== src/Legacy/Number/Width.antt =====
-- How many digits a printed number has.
use sodtware_dev_ops_gp_proj.Base.{
  ℕ, zero, suc, ◌+◌, ◌*◌, ◌/◌, ◌%◌, ◌≤◌, ◌<◌, Bool-cases, inl, inr, [], ◌∷◌, Text, length, arith,
  ltb,
}
use sodtware_dev_ops_gp_proj.Base.Int.{pos}
use sodtware_dev_ops_gp_proj.Legacy.Number.{decimal_loop, decimal, number_text}
use sodtware_dev_ops_gp_proj.Legacy.Number.RoundTrip.{decimal_loop_last, decimal_loop_more}

-- Ten to the power.
abbrev pub pow10 : ℕ → ℕ
pow10 zero = 1
pow10 (suc k) = 10 * pow10 k

length-decimal_loop :
    (fuel k n : ℕ) (acc : Text)
    → n < pow10 (suc k)
    → length (decimal_loop fuel n acc) ≤ suc k + length acc
unfolding decimal_loop
length-decimal_loop zero k n acc h = omega arith
length-decimal_loop (suc fuel) zero n acc h =
    rw (decimal_loop_last fuel n acc (ground arith)) (omega arith)
length-decimal_loop (suc fuel) (suc k) n acc h = elim (Bool-cases (ltb n 10)) [
  | inl t ↦ rw (decimal_loop_last fuel n acc t) (omega arith)
  | inr t ↦
      rw (decimal_loop_more fuel n acc t)
        (omega (arith, length-decimal_loop fuel k (n / 10) ((48 + n % 10) ∷ acc) (omega arith)))
]

pub length-number_text : (k n : ℕ) → n < pow10 (suc k) → length (number_text (pos n)) ≤ suc k
unfolding number_text decimal
length-number_text k n h = omega (arith, length-decimal_loop (n + 1) k n [] h)
