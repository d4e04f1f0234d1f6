-- ===== src/Base/Hex.antt =====
-- `bytes.hex()` and `bytes.fromhex()` of Python.
use sodtware_dev_ops_gp_proj.Base.Tests.{ltb, leb, ◌==◌, if◌then◌else◌}
use sodtware_dev_ops_gp_proj.Base.Codes.{Bytes, Text, IsBytes}
use sodtware_dev_ops_gp_proj.Base.Lists.{All, length}
use Prim.Native.Nat.{ℕ, ◌+◌, ◌-◌, ◌*◌, ◌/◌, ◌%◌, ◌<◌}
use mathlib.Core.Path.{◌≡◌, refl}
use mathlib.Core.Logic.{◌≢◌}
use mathlib.Core.Bool.{Bool, false, ◌&&◌, ◌||◌}
use mathlib.Core.Option.{Option, none, some}
use mathlib.Core.List.{[], ◌∷◌}
use native.Mathlib.Omega.{arith}

digit : ℕ → ℕ
digit v = if ltb v 10 then v + 48 else v + 87

unfoldable pub hex : Bytes → Text
unfolding digit
hex [] = []
hex (b ∷ bs) = digit (b / 16) ∷ digit (b % 16) ∷ hex bs

-- Both cases of the letters are read.
digit_value : ℕ → Option ℕ
digit_value c =
    if leb b'0' c && leb c b'9'
    then some (c - 48)
    else if leb b'a' c && leb c b'f'
    then some (c - 87)
    else if leb b'A' c && leb c b'F'
    then some (c - 55)
    else none

-- Tab to carriage return, and the blank.
abbrev pub is_space : ℕ → Bool
is_space c = (leb 9 c && leb c 13) || c == 32

abbrev pair : Option ℕ → Option ℕ → Option Bytes → Option Bytes
pair (some hi) (some lo) (some bs) = some ((hi * 16 + lo) ∷ bs)
pair _ _ _ = none

-- White space may stand between two bytes, not inside one; `none` is a `ValueError`.
unfoldable pub fromhex : Text → Option Bytes
unfolding digit_value
fromhex [] = some []
fromhex (c ∷ []) = if is_space c then some [] else none
fromhex (c ∷ d ∷ rest) =
    if is_space c then fromhex (d ∷ rest) else pair (digit_value c) (digit_value d) (fromhex rest)

digit_value-digit : (v : ℕ) → v < 16 → digit_value (digit v) ≡ some v
unfolding digit digit_value
digit_value-digit v h = ground arith

-- A digit is printable ASCII and none of the separators of the frame format.
abbrev pub IsHexChar : ℕ → Type 0
IsHexChar c =
    (is_space c ≡ false) × (c < 128) × (c ≢ b':') × (28 ≢ c) × (29 ≢ c) × (30 ≢ c) × (31 ≢ c)

digit-IsHexChar : (v : ℕ) → v < 16 → IsHexChar (digit v)
unfolding digit
digit-IsHexChar v h = ground arith

pub hex-IsHexChar : (bs : Bytes) → IsBytes bs → All IsHexChar (hex bs)
unfolding hex
hex-IsHexChar [] h = tt
hex-IsHexChar (b ∷ bs) h = (
  digit-IsHexChar (b / 16) (omega arith),
  (digit-IsHexChar (b % 16) (omega arith), hex-IsHexChar bs h.1),
)

fromhex_step :
    (b : ℕ) (rest : Text)
    → b < 256
    → fromhex (digit (b / 16) ∷ digit (b % 16) ∷ rest)
      ≡ pair (some (b / 16)) (some (b % 16)) (fromhex rest)
unfolding fromhex
fromhex_step b rest h = rw (
  (digit-IsHexChar (b / 16) (omega arith)).0,
  digit_value-digit (b / 16) (omega arith),
  digit_value-digit (b % 16) (omega arith),
)

-- Bytes come back from their hexadecimal print.
pub fromhex-hex : (bs : Bytes) → IsBytes bs → fromhex (hex bs) ≡ some bs
unfolding hex
fromhex-hex [] h = unfold fromhex in refl
fromhex-hex (b ∷ bs) h = rw (fromhex_step b (hex bs) h.0, fromhex-hex bs h.1) (ground arith)

pub length-hex : (bs : Bytes) → length (hex bs) ≡ length bs * 2
unfolding hex
length-hex [] = refl
length-hex (b ∷ bs) = omega (arith, length-hex bs)
