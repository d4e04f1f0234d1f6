-- ===== src/Channel/Nonce.antt =====
-- `nonce_for` and `counter_from` of pqc_channel/channel.py, with the big-endian conversions of
-- Python's `int` that they use.
pub mod RoundTrip
use sodtware_dev_ops_gp_proj.Base.{
  ℕ, zero, suc, ◌+◌, ◌*◌, ◌/◌, ◌%◌, ◌^◌, Bool, [], ◌∷◌, ◌++◌, Bytes, length, ltb, ◌==◌,
  if◌then◌else◌,
}
use sodtware_dev_ops_gp_proj.Base.Result.{Result, ok, err, overflow_error, channel_error}

-- `NONCE_BYTES`
abbrev pub nonce_bytes : ℕ
nonce_bytes = 12

-- The `len` lowest bytes of a number, the highest of them first.
unfoldable pub big_endian : ℕ → ℕ → Bytes
big_endian zero n = []
big_endian (suc len) n = big_endian len (n / 256) ++ n % 256 ∷ []

-- `n.to_bytes(len, "big")` of a number that is not negative: too large a number raises.
to_bytes : ℕ → ℕ → Result Bytes
to_bytes n len = if ltb n (256 ^ len) then ok (big_endian len n) else err overflow_error

-- The number that bytes spell behind `acc`.
unfoldable pub horner : ℕ → Bytes → ℕ
horner acc [] = acc
horner acc (b ∷ bs) = horner (acc * 256 + b) bs

-- `int.from_bytes(bs, "big")`
from_bytes : Bytes → ℕ
from_bytes bs = horner 0 bs

unfoldable pub nonce_for : ℕ → Result Bytes
unfolding to_bytes
nonce_for counter = to_bytes counter nonce_bytes

unfoldable pub counter_from : Bytes → Result ℕ
unfolding from_bytes
counter_from nonce =
    if length nonce == nonce_bytes then ok (from_bytes nonce) else err channel_error
