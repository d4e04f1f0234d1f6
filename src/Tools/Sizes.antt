-- ===== src/Tools/Sizes.antt =====
-- `measure_frame_sizes`, `measure_key_establishment` and the sizes in `measure_mlkem` of
-- tools/baseline.py.
pub mod Mlkem
use sodtware_dev_ops_gp_proj.Base.{ℕ, ◌+◌, ◌-◌, Bool, Bytes, Text, codes, length, leb}
use sodtware_dev_ops_gp_proj.Base.Int.{pos}
use sodtware_dev_ops_gp_proj.Base.Json.{Json, int, str, obj, field, no_field}
use sodtware_dev_ops_gp_proj.Base.Result.{Result, ok, ◌>>=◌}
use sodtware_dev_ops_gp_proj.Channel.Base64.{b64encode}
use sodtware_dev_ops_gp_proj.Channel.Crypto.{Crypto}
use sodtware_dev_ops_gp_proj.Channel.Keys.{
  algorithm, fingerprint, generate_keypair, encapsulate, gateway_proof, derive_session_keys,
  transcript, new_session_id, confirmation_tag, seal,
}
use sodtware_dev_ops_gp_proj.Cloud.Reading.{Reading}
use sodtware_dev_ops_gp_proj.Legacy.Cipher.{Cipher}
use sodtware_dev_ops_gp_proj.Legacy.Frame.{ascii, encrypt_frame, max_frame_bytes}
use sodtware_dev_ops_gp_proj.Legacy.Record.{FloatText, build_reading, parse_reading}

abbrev pub mlkem768_public_key_bytes : ℕ
mlkem768_public_key_bytes = 1184

abbrev pub mlkem768_ciphertext_bytes : ℕ
mlkem768_ciphertext_bytes = 1088

-- `mlkem768_projected` of `measure_key_establishment`: its handshake bytes, and whether a public key
-- fits the device's buffer.
abbrev pub projected_handshake_bytes : ℕ
projected_handshake_bytes = mlkem768_public_key_bytes + mlkem768_ciphertext_bytes

abbrev pub fits_device_buffer : Bool
fits_device_buffer = leb mlkem768_public_key_bytes max_frame_bytes

-- The numbers of `measure_frame_sizes`, without the percentage that follows from them.
pub record FrameSizes : Type 0 where
  pub plaintext_bytes : ℕ
  pub frame_bytes : ℕ
  pub overhead_bytes : ℕ
  pub headroom_bytes : ℕ

-- The sizes of `measure_mlkem`.
pub record MlkemSizes : Type 0 where
  pub handshake_raw_bytes : ℕ
  pub handshake_json_bytes : ℕ
  pub legacy_reading_json_bytes : ℕ
  pub sealed_reading_json_bytes : ℕ

module _ {F : Type 0} (f : FloatText F) (temp humidity : F) where
  -- `REFERENCE_RECORD`, whose floats 21.50 and 44.20 are arguments.
  abbrev pub reference_record : Result Text
  reference_record = build_reading f (record {
    device_id = codes "dev-001";
    seq = pos 1;
    temp_c = temp;
    humidity = humidity;
    uptime_s = pos 12;
  })

  unfoldable pub measure_frame_sizes : Cipher → Bytes → ℕ → Result FrameSizes
  measure_frame_sizes k key random = do
    reference ← reference_record
    frame ← encrypt_frame k key random reference
    plaintext ← ascii reference
    ok (record {
      plaintext_bytes = length plaintext;
      frame_bytes = length frame;
      overhead_bytes = length frame - length plaintext;
      headroom_bytes = max_frame_bytes - length frame;
    })

-- The JSON bodies that gateway and cloud exchange.
abbrev pub key_body : Crypto → Bytes → Json
key_body c cloud_pk = obj (
    field (codes "algorithm") (str algorithm) (
      field (codes "public_key") (str (b64encode cloud_pk))
        (field (codes "fingerprint") (str (fingerprint c cloud_pk)) no_field)))

abbrev pub request_body : Bytes → Bytes → Bytes → Json
request_body static_ct eph_pk proof = obj (
    field (codes "static_ciphertext") (str (b64encode static_ct)) (
      field (codes "ephemeral_public_key") (str (b64encode eph_pk))
        (field (codes "gateway_proof") (str (b64encode proof)) no_field)))

abbrev pub reply_body : Text → Bytes → Bytes → Json
reply_body session_id eph_ct tag = obj (
    field (codes "session_id") (str session_id) (
      field (codes "ephemeral_ciphertext") (str (b64encode eph_ct)) (
        field (codes "confirmation") (str (b64encode tag)) (
          field (codes "expires_in_s") (int (pos 3600))
            (field (codes "max_messages") (int (pos 10_000)) no_field)))))

abbrev pub sealed_body : Text → Bytes → Bytes → Json
sealed_body session_id nonce sealed = obj (
    field (codes "session_id") (str session_id) (
      field (codes "nonce") (str (b64encode nonce))
        (field (codes "ciphertext") (str (b64encode sealed)) no_field)))

-- What is reported of them.
abbrev pub sizes_of :
    Crypto
    → (Json → ℕ)
    → Bytes
    → Bytes
    → Bytes
    → Bytes
    → Bytes
    → Bytes
    → Text
    → Bytes
    → Bytes
    → Bytes
    → MlkemSizes
sizes_of c json_size cloud_pk static_ct eph_pk proof eph_ct tag session_id reading nonce sealed =
    record {
      handshake_raw_bytes =
          length cloud_pk
          + length static_ct
          + length eph_pk
          + length proof
          + length eph_ct
          + length tag;
      handshake_json_bytes =
          json_size (key_body c cloud_pk)
          + json_size (request_body static_ct eph_pk proof)
          + json_size (reply_body session_id eph_ct tag);
      legacy_reading_json_bytes = length reading;
      sealed_reading_json_bytes = json_size (sealed_body session_id nonce sealed);
    }

-- The handshake and one sealed reading, from the draw number `r` of the random source on;
-- `json_size` is `len(json.dumps(...))`, and `dumps` the compact print of a reading.
unfoldable pub measure_mlkem :
    {F : Type 0}
    → FloatText F
    → Crypto
    → (Json → ℕ)
    → (Reading F → Bytes)
    → Text
    → ℕ
    → Result MlkemSizes
measure_mlkem f c json_size dumps reference r = do
  let (cloud_pk, cloud_sk) = generate_keypair c r
  (static_ss, static_ct) ← encapsulate c (r + 1) cloud_pk
  let (eph_pk, eph_sk) = generate_keypair c (r + 2)
  (eph_ss, eph_ct) ← encapsulate c (r + 3) eph_pk
  proof ← gateway_proof c (codes "token") static_ct eph_pk
  let (aead_key, confirm_key) =
      derive_session_keys c static_ss eph_ss (transcript cloud_pk static_ct eph_pk eph_ct)
  let session_id = new_session_id c (r + 4)
  tag ← confirmation_tag c confirm_key session_id
  reading ← parse_reading f reference
  (nonce, sealed) ← seal c aead_key 0 session_id (dumps reading)
  ok (
      sizes_of c json_size cloud_pk static_ct eph_pk proof eph_ct tag session_id (dumps reading)
        nonce sealed)
