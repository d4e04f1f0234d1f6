-- ===== src/Base/Utf8.antt =====
-- `str.encode()` of Python: UTF-8, which refuses surrogates.
use sodtware_dev_ops_gp_proj.Base.Tests.{ltb, leb, if◌then◌else◌}
use sodtware_dev_ops_gp_proj.Base.Codes.{Bytes, Text}
use sodtware_dev_ops_gp_proj.Base.Lists.{All}
use sodtware_dev_ops_gp_proj.Base.Result.{Result, ok, err, value_error, ◌>>=◌}
use Prim.Native.Nat.{ℕ, ◌+◌, ◌/◌, ◌%◌, ◌<◌}
use mathlib.Core.Path.{◌≡◌, refl}
use mathlib.Core.Bool.{◌&&◌}
use mathlib.Core.List.{[], ◌∷◌, ◌++◌}
use native.Mathlib.Omega.{arith}

utf8_char : ℕ → Result Bytes
utf8_char c =
    if ltb c 0x80
    then ok (c ∷ [])
    else if ltb c 0x800
    then ok ((0xc0 + c / 64) ∷ (0x80 + c % 64) ∷ [])
    else if leb 0xd800 c && ltb c 0xe000
    then err value_error
    else if ltb c 0x10000
    then ok ((0xe0 + c / 4096) ∷ (0x80 + c / 64 % 64) ∷ (0x80 + c % 64) ∷ [])
    else ok
        ((0xf0 + c / 262144) ∷ (0x80 + c / 4096 % 64) ∷ (0x80 + c / 64 % 64) ∷ (0x80 + c % 64) ∷ [])

unfoldable pub encode : Text → Result Bytes
unfolding utf8_char
encode [] = ok []
encode (c ∷ t) = do bs ← utf8_char c; rest ← encode t; ok (bs ++ rest)

-- An ASCII text is its own encoding.
pub encode-ascii : (t : Text) → All (λ c. c < 128) t → encode t ≡ ok t
unfolding encode
encode-ascii [] h = refl
encode-ascii (c ∷ t) h = ground (arith, encode-ascii t h.1)
