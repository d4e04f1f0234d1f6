-- ===== src/Legacy/Number.antt =====
-- Python's `str` and `int` of a whole number, which the records of legacy_device/protocol.py use, on
-- ASCII texts. (`decrypt_frame` returns nothing else.)
pub mod RoundTrip
pub mod Refusals
pub mod Width
use sodtware_dev_ops_gp_proj.Base.{
  ℕ, zero, suc, ◌+◌, ◌-◌, ◌*◌, ◌/◌, ◌%◌, Bool, true, false, ◌&&◌, Option, none, some, [], ◌∷◌, Text,
  ltb, leb, ◌==◌, if◌then◌else◌,
}
use sodtware_dev_ops_gp_proj.Base.Int.{ℤ, pos, negsuc}
use sodtware_dev_ops_gp_proj.Base.Result.{Result, ok, err, value_error}
use sodtware_dev_ops_gp_proj.Base.Hex.{is_space}

-- The decimal digits of `n` in front of `acc`.
unfoldable pub decimal_loop : ℕ → ℕ → Text → Text
decimal_loop zero n acc = acc
decimal_loop (suc fuel) n acc = elim (ltb n 10) [
  | true ↦ (48 + n) ∷ acc
  | false ↦ decimal_loop fuel (n / 10) ((48 + n % 10) ∷ acc)
]

unfoldable pub decimal : ℕ → Text
unfolding decimal_loop
decimal n = decimal_loop (n + 1) n []

-- The digits of a whole number of any size, with its sign.
unfoldable pub number_text : ℤ → Text
number_text (pos n) = decimal n
number_text (negsuc n) = b'-' ∷ decimal (n + 1)

pub data Mark : Type 0 where
  digit : ℕ → Mark
  underscore blank other : Mark

abbrev mark_of : ℕ → Mark
mark_of c =
    if leb b'0' c && leb c b'9'
    then digit (c - 48)
    else if c == b'_'
    then underscore
    else if is_space c
    then blank
    else other

all_blank : Text → Bool
all_blank [] = true
all_blank (c ∷ t) = is_space c && all_blank t

abbrev when : Bool → ℕ → Option ℕ
when true n = some n
when false n = none

-- The digits behind `acc`: an underscore may stand between two of them, blanks behind the last.
digits : Text → ℕ → Bool → Option ℕ
unfolding all_blank
digits [] acc after_digit = when after_digit acc
digits (c ∷ t) acc after_digit = elim (mark_of c) [
  | digit v ↦ digits t (acc * 10 + v) true
  | underscore ↦ elim after_digit [ true ↦ digits t acc false | false ↦ none ]
  | blank ↦ when (after_digit && all_blank t) acc
  | other ↦ none
]

abbrev positive : Option ℕ → Result ℤ
positive none = err value_error
positive (some n) = ok (pos n)

abbrev negative : Option ℕ → Result ℤ
negative none = err value_error
negative (some zero) = ok (pos zero)
negative (some (suc n)) = ok (negsuc n)

-- The sign.
signed : Text → Result ℤ
unfolding digits
signed [] = err value_error
signed (c ∷ t) =
    if c == b'-'
    then negative (digits t 0 false)
    else if c == b'+'
    then positive (digits t 0 false)
    else positive (digits (c ∷ t) 0 false)

skip_blanks : Text → Text
skip_blanks [] = []
skip_blanks (c ∷ t) = let rest = skip_blanks t in if is_space c then rest else c ∷ t

-- A whole number of any size.
unfoldable pub read_number : Text → Result ℤ
unfolding signed skip_blanks
read_number t = signed (skip_blanks t)

-- `sys.int_info.default_max_str_digits`, which Python sets since 3.11: `str` and `int` raise a
-- `ValueError` for more digits.
abbrev pub max_str_digits : ℕ
max_str_digits = 4300

unfoldable pub digit_count : Text → ℕ
digit_count [] = 0
digit_count (c ∷ t) = (if leb b'0' c && leb c b'9' then 1 else 0) + digit_count t

-- Not more digits than that.
abbrev pub is_printable : Text → Bool
is_printable t = leb (digit_count t) max_str_digits

-- `str`
unfoldable pub str_int : ℤ → Result Text
str_int z = let t = number_text z in if is_printable t then ok t else err value_error

-- `int` of a text
unfoldable pub int_text : Text → Result ℤ
int_text t = if is_printable t then read_number t else err value_error
