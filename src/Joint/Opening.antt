-- ===== src/Joint/Opening.antt =====
-- The cloud's half of the handshake, for a request that the gateway makes.
use sodtware_dev_ops_gp_proj.Base.{ℕ, ◌≡◌, refl, true, Bytes, Text, IsBytes, length, same_refl}
use sodtware_dev_ops_gp_proj.Base.Result.{ok}
use sodtware_dev_ops_gp_proj.Channel.Base64.{b64encode}
use sodtware_dev_ops_gp_proj.Channel.Base64.RoundTrip.{b64decode_exact, length-b64encode}
use sodtware_dev_ops_gp_proj.Channel.Crypto.{Crypto, public_key_bytes, ciphertext_bytes}
use sodtware_dev_ops_gp_proj.Channel.Keys.{
  gateway_proof, confirmation_tag, encapsulate, decapsulate, derive_session_keys, transcript,
  new_session_id,
}
use sodtware_dev_ops_gp_proj.Cloud.State.{Cloud, Config, session_ttl_s, session_max_messages}
use sodtware_dev_ops_gp_proj.Cloud.Sessions.{open_session}
use sodtware_dev_ops_gp_proj.Cloud.Messages.{
  SessionRequest, SessionReply, session_request_fits, decode_request, agree, session_reply,
}
use sodtware_dev_ops_gp_proj.Cloud.Ingest.{pqc_session, post_session, opening}

-- The request as `_do_handshake` writes it.
abbrev pub request_of : Bytes → Bytes → Bytes → SessionRequest
request_of ct pk proof = record {
  static_ciphertext = b64encode ct;
  ephemeral_public_key = b64encode pk;
  gateway_proof = b64encode proof;
}

-- The declared bounds leave room for the base64 of the fixed sizes.
session_request_fits_made :
    (ct pk proof : Bytes)
    → length ct ≡ ciphertext_bytes
    → length pk ≡ public_key_bytes
    → length proof ≡ 32
    → session_request_fits (request_of ct pk proof) ≡ true
unfolding session_request_fits
session_request_fits_made ct pk proof h k l =
    rw (length-b64encode ct, length-b64encode pk, length-b64encode proof, h, k, l) refl

decode_request_made :
    (ct pk proof : Bytes)
    → IsBytes ct
    → IsBytes pk
    → IsBytes proof
    → length ct ≡ ciphertext_bytes
    → length pk ≡ public_key_bytes
    → length proof ≡ 32
    → decode_request (request_of ct pk proof) ≡ ok (ct, pk, proof)
unfolding decode_request
decode_request_made ct pk proof a b d h k l = rw (
  b64decode_exact ct ciphertext_bytes a h,
  b64decode_exact pk public_key_bytes b k,
  b64decode_exact proof 32 d l,
)

module _ (c : Crypto) where
  -- The keys that both ends derive.
  abbrev pub session_keys : Bytes → Bytes → Bytes → Bytes → Bytes → Bytes → Bytes × Bytes
  session_keys static_ss ephemeral_ss cloud_pk static_ct ephemeral_pk ephemeral_ct =
      derive_session_keys c static_ss ephemeral_ss
        (transcript cloud_pk static_ct ephemeral_pk ephemeral_ct)

  -- The body of the reply.
  abbrev pub reply_made : Text → Bytes → Bytes → SessionReply
  reply_made sid ct tag = record {
    session_id = sid;
    ephemeral_ciphertext = b64encode ct;
    confirmation = b64encode tag;
    expires_in_s = session_ttl_s;
    max_messages = session_max_messages;
  }

  -- A request with the right proof is answered with a session under the derived key.
  pub post_session_made :
      {F : Type 0} (config : Config) (r_encaps r_id now : ℕ) (cloud : Cloud F)
      (static_ss static_ct ephemeral_pk ephemeral_ss ephemeral_ct proof tag : Bytes)
      → IsBytes static_ct × (length static_ct ≡ ciphertext_bytes)
      → IsBytes ephemeral_pk × (length ephemeral_pk ≡ public_key_bytes)
      → IsBytes proof × (length proof ≡ 32)
      → gateway_proof c config.expected_token static_ct ephemeral_pk ≡ ok proof
      → decapsulate c config.kem_private_key static_ct ≡ ok static_ss
      → encapsulate c r_encaps ephemeral_pk ≡ ok (ephemeral_ss, ephemeral_ct)
      → let keys =
          session_keys static_ss ephemeral_ss config.kem_public_key static_ct ephemeral_pk
            ephemeral_ct in
        confirmation_tag c keys.1 (new_session_id c r_id) ≡ ok tag
        → post_session c config r_encaps r_id now (request_of static_ct ephemeral_pk proof) cloud
          ≡ (
            ok (reply_made (new_session_id c r_id) ephemeral_ct tag),
            open_session (new_session_id c r_id) keys.0 now cloud,
          )
  unfolding post_session pqc_session opening agree session_reply
  post_session_made config r_encaps r_id now cloud static_ss static_ct ephemeral_pk ephemeral_ss
        ephemeral_ct proof tag (b1, l1) (b2, l2) (b3, l3) g d e t =
      rw (
        session_request_fits_made static_ct ephemeral_pk proof l1 l2 l3,
        decode_request_made static_ct ephemeral_pk proof b1 b2 b3 l1 l2 l3,
        g,
        same_refl proof,
        d,
        e,
        t,
      )
