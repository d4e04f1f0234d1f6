-- ===== src/Legacy/Number/RoundTrip.antt =====
-- Whole numbers, printed and read back.
use sodtware_dev_ops_gp_proj.Base.{
  ℕ, zero, suc, ◌+◌, ◌*◌, ◌/◌, ◌%◌, ◌≤◌, ◌<◌, ◌≡◌, ◌≢◌, refl, ◌∙◌, ap, Bool, true, false,
  Bool-cases, inl, inr, some, [], ◌∷◌, Text, length, All, All-map, arith, ltb, ◌==◌,
}
use sodtware_dev_ops_gp_proj.Base.Int.{ℤ, pos, negsuc}
use sodtware_dev_ops_gp_proj.Base.Result.{ok}
use sodtware_dev_ops_gp_proj.Base.Hex.{is_space}
use sodtware_dev_ops_gp_proj.Legacy.Number.{
  digit, mark_of, decimal_loop, decimal, number_text, digits, signed, skip_blanks, read_number,
  digit_count, is_printable,
}

mark_of-digit : (v : ℕ) → v < 10 → mark_of (48 + v) ≡ digit v
mark_of-digit v h = ground arith

digits-digit :
    (v acc : ℕ) (t : Text) (b : Bool)
    → v < 10
    → digits ((48 + v) ∷ t) acc b ≡ digits t (acc * 10 + v) true
unfolding digits
digits-digit v acc t b h = rw (mark_of-digit v h, digits) refl

pub decimal_loop_last :
    (fuel n : ℕ) (acc : Text) → ltb n 10 ≡ true → decimal_loop (suc fuel) n acc ≡ (48 + n) ∷ acc
unfolding decimal_loop
decimal_loop_last fuel n acc t = rw (t, decimal_loop) refl

pub decimal_loop_more :
    (fuel n : ℕ) (acc : Text)
    → ltb n 10 ≡ false
    → decimal_loop (suc fuel) n acc ≡ decimal_loop fuel (n / 10) ((48 + n % 10) ∷ acc)
unfolding decimal_loop
decimal_loop_more fuel n acc t = rw (t, decimal_loop) refl

digits-decimal_loop :
    (fuel n : ℕ) (acc : Text)
    → n < fuel
    → digits (decimal_loop fuel n acc) 0 false ≡ digits acc n true
digits-decimal_loop zero n acc h = absurd (omega arith)
digits-decimal_loop (suc fuel) n acc h = elim (Bool-cases (ltb n 10)) [
  | inl t ↦
      rw (decimal_loop_last fuel n acc t) (
        digits-digit n 0 acc false (ground arith) ∙ ap (λ (k : ℕ). digits acc k true) (omega arith))
  | inr t ↦
      let e : n / 10 * 10 + n % 10 ≡ n = omega arith in
      rw (decimal_loop_more fuel n acc t) (
        digits-decimal_loop fuel (n / 10) ((48 + n % 10) ∷ acc) (ground arith)
        ∙ digits-digit (n % 10) (n / 10) acc true (omega arith)
        ∙ ap (λ (k : ℕ). digits acc k true) e)
]

digits-decimal : (n : ℕ) → digits (decimal n) 0 false ≡ some n
unfolding decimal
digits-decimal n = digits-decimal_loop (n + 1) n [] (omega arith) ∙ unfold digits in refl

abbrev pub IsDigit : ℕ → Type 0
IsDigit c = (48 ≤ c) × (c ≤ 57)

decimal_loop-All :
    (fuel n : ℕ) (acc : Text) → All IsDigit acc → All IsDigit (decimal_loop fuel n acc)
unfolding decimal_loop
decimal_loop-All zero n acc h = h
decimal_loop-All (suc fuel) n acc h = elim (Bool-cases (ltb n 10)) [
  | inl t ↦ rw (decimal_loop_last fuel n acc t) (((omega arith), (ground arith)), h)
  | inr t ↦
      rw (decimal_loop_more fuel n acc t)
        (decimal_loop-All fuel (n / 10) ((48 + n % 10) ∷ acc) ((omega arith, omega arith), h))
]

pub decimal-All : (n : ℕ) → All IsDigit (decimal n)
unfolding decimal
decimal-All n = decimal_loop-All (n + 1) n [] tt

no_digits : (n : ℕ) → digits [] 0 false ≢ some n
unfolding digits
no_digits n e = cc e

-- A digit is no blank and no sign.
IsDigit-plain :
    (c : ℕ) → IsDigit c → (is_space c ≡ false) × ((c == b'-') ≡ false) × ((c == b'+') ≡ false)
IsDigit-plain c (h, k) = ground arith

signed-digits :
    (t : Text) (n : ℕ)
    → All IsDigit t
    → digits t 0 false ≡ some n
    → signed (skip_blanks t) ≡ ok (pos n)
unfolding signed skip_blanks
signed-digits [] n h e = absurd (no_digits n e)
signed-digits (c ∷ t) n h e =
    let (space, minus, plus) = IsDigit-plain c h.0 in rw (space, minus, plus, e) refl

-- Reading the print of a whole number of any sign gives the number back.
pub read_number-number_text : (z : ℤ) → read_number (number_text z) ≡ ok z
unfolding read_number number_text
read_number-number_text (pos n) = signed-digits (decimal n) n (decimal-All n) (digits-decimal n)
read_number-number_text (negsuc n) =
    unfold signed skip_blanks in
    rw (digits-decimal (n + 1)) (let e : n + 1 ≡ suc n = omega arith in rw e refl)

-- A print consists of digits and perhaps a sign.
pub number_text-All :
    (P : ℕ → Type 0) (z : ℤ) → P b'-' → ((c : ℕ) → IsDigit c → P c) → All P (number_text z)
unfolding number_text
number_text-All P (pos n) minus f = All-map IsDigit P (decimal n) f (decimal-All n)
number_text-All P (negsuc n) minus f =
    (minus, All-map IsDigit P (decimal (n + 1)) f (decimal-All (n + 1)))

pub digit_count_le : (t : Text) → digit_count t ≤ length t
unfolding digit_count
digit_count_le [] = omega arith
digit_count_le (c ∷ t) = ground (arith, digit_count_le t)

pub is_printable_le : (t : Text) → length t ≤ 4300 → is_printable t ≡ true
is_printable_le t h = ground (arith, digit_count_le t, h)
