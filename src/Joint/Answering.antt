-- ===== src/Joint/Answering.antt =====
-- What the gateway makes of the cloud's answers when both are paired.
use sodtware_dev_ops_gp_proj.Base.{
  ◌<◌, ◌*◌, ℕ, ◌≡◌, refl, ◌⊎◌, inl, inr, Option, none, some, Bytes, Text, IsBytes, length, same,
}
use sodtware_dev_ops_gp_proj.Base.Codes
use sodtware_dev_ops_gp_proj.Base.Int.{ℤ, pos}
use sodtware_dev_ops_gp_proj.Base.Result.{Result, ok}
use sodtware_dev_ops_gp_proj.Base.Json.{Json, str, subscript, to_int}
use sodtware_dev_ops_gp_proj.Base.Utf8.{encode}
use sodtware_dev_ops_gp_proj.Channel.Base64.{b64encode, b64decode}
use sodtware_dev_ops_gp_proj.Channel.Base64.RoundTrip.{b64decode-b64encode}
use sodtware_dev_ops_gp_proj.Channel.Crypto.{Crypto, IsSound, public_key_bytes, ciphertext_bytes}
use sodtware_dev_ops_gp_proj.Channel.Keys.{
  generate_keypair, confirmation_tag, decapsulate, fingerprint,
}
use sodtware_dev_ops_gp_proj.Channel.Keys.Laws.{
  generate_keypair-length, fingerprint-All, verify_confirmation_iff,
}
use sodtware_dev_ops_gp_proj.Cloud.Reading.{Reading, FloatOrder}
use sodtware_dev_ops_gp_proj.Cloud.State.{Config, second}
use sodtware_dev_ops_gp_proj.Gateway.State.{cloud_timeout_s, Gateway}
use sodtware_dev_ops_gp_proj.Gateway.Answers.{expect, is_text, verify_json, lifetime, conclude}
use sodtware_dev_ops_gp_proj.Channel.Base64.{b64decode_json}
use sodtware_dev_ops_gp_proj.Gateway.Answers.Digest.{check_digest_same}
use sodtware_dev_ops_gp_proj.Gateway.Handshake.{asks, check_pin, pin_to, fetch_key}
use sodtware_dev_ops_gp_proj.Joint.Link.{
  in_time_lt, World, link_edited, passed, pqc_public_key, session_body,
}
use sodtware_dev_ops_gp_proj.Joint.Opening.{session_keys, reply_made}
use sodtware_dev_ops_gp_proj.Channel.Base64.RoundTrip.{b64decode_exact}

-- The gateway's pin is the fingerprint of the cloud's key, or not set yet.
abbrev pub Trusts : {W : Type 0} → Crypto → Config → Gateway W → Type 0
Trusts c config g = (g.pinned ≡ none) ⊎ (g.pinned ≡ some (fingerprint c config.kem_public_key))

-- The cloud's key pair was generated, and both ends have the same token.
pub record Paired (c : Crypto) (config : Config) (token : Text) : Type 0 where
  pub seed : ℕ
  pub public_key : config.kem_public_key ≡ (generate_keypair c seed).0
  pub private_key : config.kem_private_key ≡ (generate_keypair c seed).1
  pub same_token : config.expected_token ≡ token
  pub key : Bytes
  pub encodes : encode token ≡ ok key

module _ {F : Type 0} (c : Crypto) (sound : IsSound c) (o : FloatOrder F)
    (parse_fields : Bytes → Option (Reading F)) (config : Config) (int_text : Text → Result ℤ)
    (lag : ℕ) (token : Text) (quick : lag < cloud_timeout_s * second) where
  check_pin_trusted :
      (g : Gateway (World F))
      → Trusts c config g
      → (h : Gateway (World F)) × (h.world ≡ g.world)
        × Trusts c config h
        × (check_pin (fingerprint c config.kem_public_key) g ≡ (ok tt, h))
  unfolding check_pin pin_to
  check_pin_trusted g (inl e) = (
    record g { uplink = record g.uplink { pinned = some (fingerprint c config.kem_public_key) } },
    refl,
    inr refl,
    (rw e refl),
  )
  check_pin_trusted g (inr e) = (
    g,
    refl,
    inr e,
    (rw (e, check_digest_same _ (fingerprint-All c sound config.kem_public_key)) refl),
  )

  pub fetch_key_made :
      (edit : Json → Json) (g : Gateway (World F))
      → Paired c config token
      → Trusts c config g
      → (h : Gateway (World F)) × (h.world ≡ passed lag 0 g.world g.world.cloud)
        × Trusts c config h
        × (fetch_key c (link_edited c o parse_fields config int_text lag edit) token g
            ≡ (ok config.kem_public_key, h))
  unfolding fetch_key asks expect is_text subscript b64decode_json pqc_public_key Codes.same
  fetch_key_made edit g paired t =
      let asked = record g { world = passed lag 0 g.world g.world.cloud } in
      let (h, w, still, e) = check_pin_trusted asked t in
      let (len, small) = generate_keypair-length c sound paired.seed in
      let decoded : b64decode (b64encode config.kem_public_key) (some public_key_bytes)
          ≡ ok config.kem_public_key =
        b64decode_exact config.kem_public_key public_key_bytes (rw paired.public_key small)
          (rw paired.public_key len) in
      (h, w, still, (rw (in_time_lt lag quick, decoded, e) refl))

-- What the gateway makes of a genuine reply.
module _ (c : Crypto) (int_text : Text → Result ℤ) where
  verify_json_made :
      (key : Bytes) (sid : Text) (tag : Bytes)
      → confirmation_tag c key sid ≡ ok tag
      → verify_json c key (str sid) tag ≡ ok sid
  unfolding verify_json
  verify_json_made key sid tag t =
      rw ((verify_confirmation_iff c key sid tag).1 t, verify_json) refl

  pub conclude_made :
      (cloud_pk static_ss static_ct ephemeral_pk ephemeral_sk ephemeral_ss ephemeral_ct tag : Bytes)
      (sid : Text)
      → IsBytes ephemeral_ct
      → length ephemeral_ct ≡ ciphertext_bytes
      → IsBytes tag
      → decapsulate c ephemeral_sk ephemeral_ct ≡ ok ephemeral_ss
      → let keys =
          session_keys c static_ss ephemeral_ss cloud_pk static_ct ephemeral_pk ephemeral_ct in
        confirmation_tag c keys.1 sid ≡ ok tag
        → conclude c int_text cloud_pk static_ss static_ct ephemeral_pk ephemeral_sk
            (session_body (reply_made c sid ephemeral_ct tag))
          ≡ ok (record {
            session_id = sid;
            aead_key = keys.0;
            lifetime_s = 3540;
            max_messages = pos 10_000;
          })
  unfolding conclude subscript session_body b64decode_json to_int lifetime Codes.same
  conclude_made cloud_pk static_ss static_ct ephemeral_pk ephemeral_sk ephemeral_ss ephemeral_ct tag
        sid b l bt d t =
      let keys =
        session_keys c static_ss ephemeral_ss cloud_pk static_ct ephemeral_pk ephemeral_ct in
      rw
        (
          b64decode_exact ephemeral_ct ciphertext_bytes b l,
          d,
          (b64decode-b64encode tag 0 bt).0,
          verify_json_made keys.1 sid tag t,
        )
        refl
