-- ===== src/Tools/Sizes/Mlkem.antt =====
-- The measured sizes of the ML-KEM handshake against the projected ones.
use sodtware_dev_ops_gp_proj.Base.{
  ℕ, ◌+◌, ◌*◌, ◌≤◌, ◌≡◌, refl, inl, inr, true, ◌&&◌, leb, Bytes, Text, codes, length, arith,
}
use sodtware_dev_ops_gp_proj.Base.Json.{Json}
use sodtware_dev_ops_gp_proj.Base.Utf8.{encode-ascii}
use sodtware_dev_ops_gp_proj.Base.Result.{ok}
use sodtware_dev_ops_gp_proj.Channel.Crypto.{Crypto, IsSound, is_aes_key, aead_limit}
use sodtware_dev_ops_gp_proj.Channel.Nonce.RoundTrip.{nonce_for_cases}
use sodtware_dev_ops_gp_proj.Channel.Keys.{
  generate_keypair, derive_session_keys, transcript, new_session_id, seal,
}
use sodtware_dev_ops_gp_proj.Channel.Keys.Laws.{
  decapsulate-encapsulate, generate_keypair-length, gateway_proof-IsTag, confirmation_tag-IsTag,
  new_session_id_ascii, derive_session_keys-length,
}
use sodtware_dev_ops_gp_proj.Cloud.Reading.{Reading}
use sodtware_dev_ops_gp_proj.Channel.Base64.{b64encode}
use sodtware_dev_ops_gp_proj.Cloud.State.{Config, session_ttl_s, session_max_messages}
use sodtware_dev_ops_gp_proj.Joint.Link.{pqc_public_key, session_body}
use sodtware_dev_ops_gp_proj.Legacy.Record.{FloatText, parse_reading}
use sodtware_dev_ops_gp_proj.Tools.Sizes.{
  MlkemSizes, measure_mlkem, sizes_of, request_body, projected_handshake_bytes,
}

module _ {F : Type 0} (f : FloatText F) (c : Crypto) (sound : IsSound c) (json_size : Json → ℕ)
    (dumps : Reading F → Bytes) where
  -- The session reply with this id, ciphertext and tag, as the cloud sends it.
  abbrev pub reply_of : Text → Bytes → Bytes → Json
  reply_of sid ct tag = session_body (record {
    session_id = sid;
    ephemeral_ciphertext = b64encode ct;
    confirmation = b64encode tag;
    expires_in_s = session_ttl_s;
    max_messages = session_max_messages;
  })

  -- The measurement runs through, for a record that parses into a reading of at most 2 ** 31 - 1
  -- bytes of JSON. The handshake it measures has 64 bytes
  -- more than twice the projected ones, and the bodies it weighs are the answers that the cloud
  -- with that key gives to the two requests, beside a request of three base64 texts.
  pub measure_mlkem_lem :
      (config : Config) (reference : Text) (r : ℕ) (reading : Reading F)
      → config.kem_public_key ≡ (generate_keypair c r).0
      → parse_reading f reference ≡ ok reading
      → length (dumps reading) ≤ aead_limit
      → (sizes : MlkemSizes) × (static_ct eph_pk proof eph_ct tag : Bytes) × (measure_mlkem f c
            json_size dumps reference r
          ≡ ok sizes)
        × (sizes.handshake_raw_bytes ≡ 2 * projected_handshake_bytes + 64)
        × (sizes.handshake_json_bytes
            ≡ json_size (pqc_public_key c config)
              + json_size (request_body static_ct eph_pk proof)
              + json_size (reply_of (new_session_id c (r + 4)) eph_ct tag))
        × (sizes.legacy_reading_json_bytes ≡ length (dumps reading))
  unfolding measure_mlkem pqc_public_key session_body seal
  measure_mlkem_lem config reference r reading same_key parsed small =
      let (static_ss, static_ct, e1, _, l1, _) = decapsulate-encapsulate c sound r (r + 1) in
      let (eph_ss, eph_ct, e2, _, l2, _) = decapsulate-encapsulate c sound (r + 2) (r + 3) in
      let cloud_pk = (generate_keypair c r).0 in
      let eph_pk = (generate_keypair c (r + 2)).0 in
      let (k1, _) = generate_keypair-length c sound r in
      let (k2, _) = generate_keypair-length c sound (r + 2) in
      let (proof, made, _, pl) =
        gateway_proof-IsTag c sound (codes "token") (codes "token") static_ct eph_pk
          (encode-ascii (codes "token") (omega arith)) in
      let keys =
        derive_session_keys c static_ss eph_ss (transcript cloud_pk static_ct eph_pk eph_ct) in
      let sid = new_session_id c (r + 4) in
      let (ascii, _) = new_session_id_ascii c sound (r + 4) in
      let (tag, tagged, _, tl) = confirmation_tag-IsTag c sound keys.1 sid ascii in
      let aes : is_aes_key keys.0 ≡ true =
        rw
          (derive_session_keys-length c sound static_ss eph_ss
            (transcript cloud_pk static_ct eph_pk eph_ct))
          refl in
      let room : (leb (length (dumps reading)) aead_limit && leb (length sid) aead_limit) ≡ true =
        ground (arith, small, sound.id_length (r + 4)) in
      elim (nonce_for_cases 0) [
        | inr (_, large) ↦ absurd (cc large)
        | inl (nonce, counted, _, _, _, _) ↦ (
          sizes_of c json_size cloud_pk static_ct eph_pk proof eph_ct tag sid (dumps reading) nonce
              (c.aead_encrypt keys.0 nonce (dumps reading) sid),
          static_ct,
          eph_pk,
          proof,
          eph_ct,
          tag,
          (rw (e1, e2, made, tagged, parsed, counted, aes, encode-ascii sid ascii, room) refl),
          omega (arith, k1, k2, l1, l2, pl, tl),
          (rw same_key refl),
          refl,
        )
      ]
