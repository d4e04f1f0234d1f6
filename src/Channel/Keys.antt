-- ===== src/Channel/Keys.antt =====
-- The ML-KEM wrappers, the handshake pieces and the messages of pqc_channel/channel.py.
pub mod Laws
use sodtware_dev_ops_gp_proj.Base.{
  ℕ, ◌+◌, ◌*◌, ◌%◌, Bool, true, false, Option, none, some, [], ◌++◌, Bytes, Text, codes, length,
  take, drop, same, leb, ◌&&◌, ◌==◌, if◌then◌else◌,
}
use sodtware_dev_ops_gp_proj.Base.Result.{
  Result, ok, err, channel_error, value_error, overflow_error, ◌>>=◌,
}
use sodtware_dev_ops_gp_proj.Base.Hex.{hex}
use sodtware_dev_ops_gp_proj.Base.Utf8
use sodtware_dev_ops_gp_proj.Channel.Crypto.{
  Crypto, public_key_bytes, ciphertext_bytes, aes_key_bytes, is_aes_key, aead_limit,
}
use sodtware_dev_ops_gp_proj.Channel.Nonce.{nonce_for, counter_from}

abbrev pub algorithm : Text
algorithm = codes "ML-KEM-768"

abbrev pub protocol_label : Bytes
protocol_label = codes "sdmo-pqc-channel v1"

-- A library's documented `ValueError` or `InvalidTag`, raised again as `ChannelError`.
abbrev pub or_channel_error {ℓ} : {A : Type ℓ} → Option A → Result A
or_channel_error none = err channel_error
or_channel_error (some a) = ok a

-- `okm[:AES_KEY_BYTES], okm[AES_KEY_BYTES:]`
abbrev pub halves : Bytes → Bytes × Bytes
halves okm = (take aes_key_bytes okm, drop aes_key_bytes okm)

pub transcript : Bytes → Bytes → Bytes → Bytes → Bytes
transcript cloud_pk static_ct ephemeral_pk ephemeral_ct =
    cloud_pk ++ (static_ct ++ (ephemeral_pk ++ ephemeral_ct))

module _ (c : Crypto) where
  open c use {
    sha256, hmac_sha256, hkdf, keygen, encaps, decaps, aead_encrypt, aead_decrypt, token_hex,
  }

  pub fingerprint : Bytes → Text
  fingerprint public_key = hex (sha256 public_key)

  unfoldable pub generate_keypair : ℕ → Bytes × Bytes
  generate_keypair random = keygen random

  unfoldable pub encapsulate : ℕ → Bytes → Result (Bytes × Bytes)
  encapsulate random public_key =
      if length public_key == public_key_bytes
      then or_channel_error (encaps random public_key)
      else err channel_error

  unfoldable pub decapsulate : Bytes → Bytes → Result Bytes
  decapsulate private_key ciphertext =
      if length ciphertext == ciphertext_bytes
      then or_channel_error (decaps private_key ciphertext)
      else err channel_error

  pub gateway_proof : Text → Bytes → Bytes → Result Bytes
  gateway_proof gateway_token static_ct ephemeral_pk = do
    key ← Utf8.encode gateway_token
    ok (hmac_sha256 key (static_ct ++ ephemeral_pk))

  -- (aead_key, confirm_key)
  pub derive_session_keys : Bytes → Bytes → Bytes → Bytes × Bytes
  derive_session_keys static_ss ephemeral_ss transcript' =
      halves
        (hkdf (2 * aes_key_bytes) (sha256 transcript') protocol_label (static_ss ++ ephemeral_ss))

  pub confirmation_tag : Bytes → Text → Result Bytes
  confirmation_tag confirm_key session_id = do
    id ← Utf8.encode session_id
    ok (hmac_sha256 confirm_key (codes "cloud-confirm|" ++ id))

  unfoldable pub verify_confirmation : Bytes → Text → Bytes → Result (Unit {0})
  verify_confirmation confirm_key session_id tag = do
    expected ← confirmation_tag confirm_key session_id
    if same expected tag then ok tt else err channel_error

  unfoldable pub new_session_id : ℕ → Text
  new_session_id random = token_hex random

  -- (nonce, ciphertext)
  unfoldable pub seal : Bytes → ℕ → Text → Bytes → Result (Bytes × Bytes)
  seal key counter session_id plaintext = do
    nonce ← nonce_for counter
    _ ← if is_aes_key key then ok (tt {0}) else err value_error
    id ← Utf8.encode session_id
    _ ←
        if leb (length plaintext) aead_limit && leb (length id) aead_limit
        then ok (tt {0})
        else err overflow_error
    ok (nonce, aead_encrypt key nonce plaintext id)

  unfoldable pub open_sealed : Bytes → Bytes → Text → Bytes → Result Bytes
  open_sealed key nonce session_id ciphertext = do
    _ ← counter_from nonce
    _ ← if is_aes_key key then ok (tt {0}) else err value_error
    id ← Utf8.encode session_id
    or_channel_error (aead_decrypt key nonce ciphertext id)
