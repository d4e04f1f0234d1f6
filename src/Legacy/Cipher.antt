-- ===== src/Legacy/Cipher.antt =====
-- The cryptography that legacy_device/protocol.py calls and does not implement: AES-128-CBC and
-- PKCS7 padding of `cryptography`.
pub mod Sample
use sodtware_dev_ops_gp_proj.Base.{ℕ, ◌+◌, ◌*◌, ◌/◌, ◌%◌, ◌≡◌, Option, some, Bytes, IsBytes, length}

-- `_AES_BLOCK_BYTES`
abbrev pub aes_block_bytes : ℕ
aes_block_bytes = 16

pub record Cipher : Type 0 where
  -- a whole padding run: `update` and `finalize`
  pub pad : Bytes → Bytes
  -- `none` is the documented `ValueError`
  pub unpad : Bytes → Option Bytes
  -- key, initialization vector, text
  pub cbc_encrypt : Bytes → Bytes → Bytes → Bytes
  pub cbc_decrypt : Bytes → Bytes → Bytes → Bytes
  -- `os.urandom(_AES_BLOCK_BYTES)` for what the random source gives
  pub urandom : ℕ → Bytes

pub record IsCipher (k : Cipher) : Type 0 where
  -- PKCS7 fills the last block, or adds a whole one.
  pub pad_length :
      (m : Bytes) → length (k.pad m) ≡ (length m / aes_block_bytes + 1) * aes_block_bytes
  pub pad_bytes : (m : Bytes) → IsBytes m → IsBytes (k.pad m)
  pub unpad_pad : (m : Bytes) → k.unpad (k.pad m) ≡ some m
  pub encrypt_length : (key iv m : Bytes) → length (k.cbc_encrypt key iv m) ≡ length m
  pub encrypt_bytes : (key iv m : Bytes) → IsBytes m → IsBytes (k.cbc_encrypt key iv m)
  pub decrypt_encrypt : (key iv m : Bytes) → k.cbc_decrypt key iv (k.cbc_encrypt key iv m) ≡ m
  pub urandom_length : (r : ℕ) → length (k.urandom r) ≡ aes_block_bytes
  pub urandom_bytes : (r : ℕ) → IsBytes (k.urandom r)
