-- ===== src/Legacy/Frame.antt =====
-- `encrypt_frame` and `decrypt_frame` of legacy_device/protocol.py.
pub mod RoundTrip
use sodtware_dev_ops_gp_proj.Base.{
  ℕ, ◌+◌, ◌%◌, Bool, true, false, ◌&&◌, not, Option, none, some, List, [], ◌∷◌, ◌++◌, Bytes, Text,
  length, codes, ltb, leb, ◌==◌, if◌then◌else◌,
}
use sodtware_dev_ops_gp_proj.Base.Result.{Result, ok, err, value_error, ◌>>=◌}
use sodtware_dev_ops_gp_proj.Base.Hex.{hex, fromhex}
use sodtware_dev_ops_gp_proj.Base.Split.{split_on, strip}
use sodtware_dev_ops_gp_proj.Legacy.Cipher.{Cipher, aes_block_bytes}

abbrev pub frame_sep : ℕ
frame_sep = b':'

-- `MAX_FRAME_BYTES`
abbrev pub max_frame_bytes : ℕ
max_frame_bytes = 256

-- `text.encode("ascii")`, and `data.decode("ascii")` with the same result: both refuse what is not
-- ASCII with a subclass of `ValueError`.
unfoldable pub ascii : Text → Result Bytes
ascii [] = ok []
ascii (x ∷ t) = if ltb x 128 then (do rest ← ascii t; ok (x ∷ rest)) else err value_error

-- A documented `ValueError` of a library.
abbrev pub or_value_error {ℓ} : {A : Type ℓ} → Option A → Result A
or_value_error none = err value_error
or_value_error (some a) = ok a

-- `iv_hex, ct_hex = parts`
abbrev pub two_parts : List Text → Result (Text × Text)
two_parts (a ∷ b ∷ []) = ok (a, b)
two_parts _ = err value_error

-- The part in the first `try` block: the initialization vector and the ciphertext.
unfoldable pub read_frame : Bytes → Result (Bytes × Bytes)
read_frame frame = do
  text ← ascii frame
  (iv_hex, ct_hex) ← two_parts (split_on frame_sep (strip text))
  iv ← or_value_error (fromhex iv_hex)
  ciphertext ← or_value_error (fromhex ct_hex)
  ok (iv, ciphertext)

-- The checks of the lengths.
unfoldable pub is_whole : Bytes → Bytes → Bool
is_whole iv ciphertext =
    length iv == aes_block_bytes
    && (leb 1 (length ciphertext) && (length ciphertext % aes_block_bytes) == 0)

module _ (k : Cipher) (key : Bytes) where
  open k use {pad, unpad, cbc_encrypt, cbc_decrypt, urandom}

  -- `encrypt_frame`, for what the random source returns.
  unfoldable pub encrypt_frame : ℕ → Text → Result Bytes
  encrypt_frame random plaintext = do
    message ← ascii plaintext
    let iv = urandom random
    let frame = hex iv ++ frame_sep ∷ hex (cbc_encrypt key iv (pad message)) ++ 10 ∷ []
    if leb (length frame) max_frame_bytes then ok frame else err value_error

  unfoldable pub decrypt_frame : Bytes → Result Text
  decrypt_frame frame = do
    (iv, ciphertext) ← read_frame frame
    _ ← if is_whole iv ciphertext then ok (tt {0}) else err value_error
    plaintext ← or_value_error (unpad (cbc_decrypt key iv ciphertext))
    ascii plaintext
