-- ===== src/Cloud/Messages.antt =====
-- The request and response bodies of the v2 endpoints of cloud_service/app.py, and the parts of
-- their handlers that touch no shared state.
pub mod Received
use sodtware_dev_ops_gp_proj.Base.{
  ℕ, Bool, ◌&&◌, Option, none, some, Bytes, Text, same, length, leb, ◌==◌, if◌then◌else◌,
}
use sodtware_dev_ops_gp_proj.Base.Result.{Result, ok, err, channel_error, http_error, ◌>>=◌}
use sodtware_dev_ops_gp_proj.Channel.Base64.{b64encode, b64decode}
use sodtware_dev_ops_gp_proj.Channel.Nonce.{counter_from, nonce_bytes}
use sodtware_dev_ops_gp_proj.Channel.Crypto.{Crypto, public_key_bytes, ciphertext_bytes}
use sodtware_dev_ops_gp_proj.Channel.Keys.{
  gateway_proof, decapsulate, encapsulate, derive_session_keys, transcript, confirmation_tag,
  open_sealed,
}
use sodtware_dev_ops_gp_proj.Cloud.Sessions.{find_session}
use sodtware_dev_ops_gp_proj.Cloud.Reading.{Reading, FloatOrder, fits}
use sodtware_dev_ops_gp_proj.Cloud.State.{Cloud, Config, session_ttl_s, session_max_messages}

-- `_CT_B64_MAX` and `_PK_B64_MAX`
abbrev pub ct_b64_max : ℕ
ct_b64_max = 1500

abbrev pub pk_b64_max : ℕ
pk_b64_max = 1700

pub record SessionRequest : Type 0 where
  pub static_ciphertext : Text
  pub ephemeral_public_key : Text
  pub gateway_proof : Text

-- The declared bounds, which FastAPI checks before the handler runs.
unfoldable pub session_request_fits : SessionRequest → Bool
session_request_fits r =
    leb (length r.static_ciphertext) ct_b64_max
    && (leb (length r.ephemeral_public_key) pk_b64_max && leb (length r.gateway_proof) 64)

pub record SealedReading : Type 0 where
  pub session_id : Text
  pub nonce : Text
  pub ciphertext : Text

unfoldable pub sealed_reading_fits : SealedReading → Bool
sealed_reading_fits m =
    length m.session_id == 32 && (leb (length m.nonce) 24 && leb (length m.ciphertext) 4096)

pub record SessionReply : Type 0 where
  pub session_id : Text
  pub ephemeral_ciphertext : Text
  pub confirmation : Text
  pub expires_in_s : ℕ
  pub max_messages : ℕ

-- `except channel.ChannelError as exc: raise _bad_request(str(exc))`; other exceptions pass.
abbrev pub or_bad_request {ℓ} : {A : Type ℓ} → Result A → Result A
or_bad_request (err channel_error) = err (http_error 400)
or_bad_request r = r

-- What `ingest_sealed` has in hand between its two locked steps.
pub record Ticket : Type 0 where
  pub ref : ℕ
  pub counter : ℕ
  pub plaintext : Bytes

-- The first `try` block of `ingest_sealed`.
unfoldable pub decode_sealed : SealedReading → Result (Bytes × Bytes)
decode_sealed m = or_bad_request do
  nonce ← b64decode m.nonce (some nonce_bytes)
  sealed ← b64decode m.ciphertext none
  ok (nonce, sealed)

-- The first `try` block of `pqc_session`: the static ciphertext, the ephemeral public key and the
-- proof.
unfoldable pub decode_request : SessionRequest → Result (Bytes × Bytes × Bytes)
decode_request r = or_bad_request do
  static_ct ← b64decode r.static_ciphertext (some ciphertext_bytes)
  ephemeral_pk ← b64decode r.ephemeral_public_key (some public_key_bytes)
  proof ← b64decode r.gateway_proof (some 32)
  ok (static_ct, ephemeral_pk, proof)

module _ (c : Crypto) where
  -- The second `try` block of `ingest_sealed`, and the counter.
  unfoldable pub open_message : Bytes → Bytes → Text → Bytes → Result (ℕ × Bytes)
  open_message aead_key nonce sid sealed = do
    plaintext ← or_bad_request (open_sealed c aead_key nonce sid sealed)
    counter ← counter_from nonce
    ok (counter, plaintext)

  -- `ingest_sealed` up to its second locked step. It changes nothing.
  unfoldable pub receive : {F : Type 0} → SealedReading → ℕ → Cloud F → Result Ticket
  receive message now cloud = do
    (nonce, sealed) ← decode_sealed message
    (ref, aead_key) ← find_session message.session_id now cloud
    (counter, plaintext) ← open_message aead_key nonce message.session_id sealed
    ok (record { ref = ref; counter = counter; plaintext = plaintext })

  -- `pqc_session` before the lock, for what the random source returns to `encapsulate`: the two
  -- session keys and the ephemeral ciphertext.
  unfoldable pub agree : Config → ℕ → SessionRequest → Result (Bytes × Bytes × Bytes)
  agree config random request = do
    (static_ct, ephemeral_pk, proof) ← decode_request request
    expected ← gateway_proof c config.expected_token static_ct ephemeral_pk
    _ ← if same expected proof then ok (tt {0}) else err (http_error 401)
    (static_ss, (ephemeral_ss, ephemeral_ct)) ← or_bad_request do
      static_ss ← decapsulate c config.kem_private_key static_ct
      made ← encapsulate c random ephemeral_pk
      ok (static_ss, made)
    let keys =
        derive_session_keys c static_ss ephemeral_ss
          (transcript config.kem_public_key static_ct ephemeral_pk ephemeral_ct)
    ok (keys.0, keys.1, ephemeral_ct)

  -- The body of its reply.
  unfoldable pub session_reply : Text → Bytes → Bytes → Result SessionReply
  session_reply sid confirm_key ephemeral_ct = do
    tag ← confirmation_tag c confirm_key sid
    ok (record {
      session_id = sid;
      ephemeral_ciphertext = b64encode ephemeral_ct;
      confirmation = b64encode tag;
      expires_in_s = session_ttl_s;
      max_messages = session_max_messages;
    })

-- `Reading.model_validate_json`: pydantic decodes the fields (`none` if the document has not their
-- shape), and checks the declared bounds.
unfoldable pub validate :
    {F : Type 0} → FloatOrder F → (Bytes → Option (Reading F)) → Bytes → Result (Reading F)
validate o parse_fields body = elim (parse_fields body) [
  | none ↦ err (http_error 422)
  | some r ↦ if fits o r then ok r else err (http_error 422)
]
