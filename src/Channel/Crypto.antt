-- ===== src/Channel/Crypto.antt =====
-- The cryptography that pqc_channel/channel.py calls and does not implement: kyber-py's ML-KEM-768,
-- AES-GCM and HKDF of `cryptography`, SHA-256, HMAC and the random source of Python.
pub mod Sample
use sodtware_dev_ops_gp_proj.Base.{
  ◌≤◌, Bool, true, ◌==◌, ◌||◌, ℕ, ◌+◌, ◌<◌, ◌≡◌, Option, none, some, ◌≢◌, Bytes, Text, IsBytes,
  length, All,
}

-- The sizes that channel.py states: `PUBLIC_KEY_BYTES`, `CIPHERTEXT_BYTES`, `SHARED_SECRET_BYTES`,
-- `AES_KEY_BYTES`.
abbrev pub public_key_bytes : ℕ
public_key_bytes = 1184

abbrev pub ciphertext_bytes : ℕ
ciphertext_bytes = 1088

abbrev pub aes_key_bytes : ℕ
aes_key_bytes = 32

-- `AESGCM(key)` raises `ValueError` for keys of other sizes.
abbrev pub is_aes_key : Bytes → Bool
is_aes_key key = length key == 16 || (length key == 24 || length key == 32)

-- `encrypt` raises `OverflowError` for more bytes of plaintext or of associated data.
abbrev pub aead_limit : ℕ
aead_limit = 2_147_483_647

-- What `encrypt` takes: a key, a nonce of the channel's size, a plaintext and associated data.
pub record IsAeadInput (k n p a : Bytes) : Type 0 where
  pub key : is_aes_key k ≡ true
  pub nonce : length n ≡ 12
  pub plaintext : length p ≤ aead_limit
  pub associated : length a ≤ aead_limit

-- The operations. A number stands for what a random source returned; `none` is the exception that
-- the library documents (`ValueError`, and `InvalidTag` for `aead_decrypt`).
pub record Crypto : Type 0 where
  pub sha256 : Bytes → Bytes
  -- key, message
  pub hmac_sha256 : Bytes → Bytes → Bytes
  -- length, salt, info, key material
  pub hkdf : ℕ → Bytes → Bytes → Bytes → Bytes
  -- the public and the private key
  pub keygen : ℕ → Bytes × Bytes
  -- randomness, public key; the shared secret and the ciphertext
  pub encaps : ℕ → Bytes → Option (Bytes × Bytes)
  -- private key, ciphertext
  pub decaps : Bytes → Bytes → Option Bytes
  -- key, nonce, plaintext, associated data
  pub aead_encrypt : Bytes → Bytes → Bytes → Bytes → Bytes
  -- key, nonce, ciphertext, associated data
  pub aead_decrypt : Bytes → Bytes → Bytes → Bytes → Option Bytes
  -- `secrets.token_hex(16)`
  pub token_hex : ℕ → Text

-- What the libraries document, as far as a proof relies on it.
pub record IsSound (c : Crypto) : Type 0 where
  pub hash_bytes : (m : Bytes) → IsBytes (c.sha256 m)
  -- HKDF-SHA256 gives as many bytes as are asked for, up to 255 digests.
  pub hkdf_length : (n : ℕ) (salt info ikm : Bytes) → n ≤ 8160 → length (c.hkdf n salt info ikm) ≡ n
  pub mac_length : (k m : Bytes) → length (c.hmac_sha256 k m) ≡ 32
  pub mac_bytes : (k m : Bytes) → IsBytes (c.hmac_sha256 k m)
  pub public_length : (r : ℕ) → length (c.keygen r).0 ≡ public_key_bytes
  pub public_bytes : (r : ℕ) → IsBytes (c.keygen r).0
  pub private_bytes : (r : ℕ) → IsBytes (c.keygen r).1
  -- FIPS 203 accepts a generated key, and decapsulation recovers the secret (the failure
  -- probability below 2 ^ -164 is neglected).
  pub encaps_made :
      (r s : ℕ)
      → (secret ct : Bytes) × (c.encaps s (c.keygen r).0 ≡ some (secret, ct))
        × (c.decaps (c.keygen r).1 ct ≡ some secret)
        × (length ct ≡ ciphertext_bytes)
        × IsBytes ct
  pub aead_bytes :
      (k n p a : Bytes) → IsAeadInput k n p a → IsBytes p → IsBytes (c.aead_encrypt k n p a)
  pub aead_length :
      (k n p a : Bytes) → IsAeadInput k n p a → length (c.aead_encrypt k n p a) ≡ length p + 16
  pub aead_open :
      (k n p a : Bytes)
      → IsAeadInput k n p a
      → c.aead_decrypt k n (c.aead_encrypt k n p a) a ≡ some p
  pub id_length : (r : ℕ) → length (c.token_hex r) ≡ 32
  pub id_ascii : (r : ℕ) → All (λ x. x < 128) (c.token_hex r)
