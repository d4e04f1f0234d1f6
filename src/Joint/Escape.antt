-- ===== src/Joint/Escape.antt =====
-- A reply of the wrong shape before `_handshake` of edge_gateway/gateway.py.
use sodtware_dev_ops_gp_proj.Base.{
  ℕ, ◌*◌, ◌<◌, ◌≡◌, refl, ◌∙◌, ap, false, Option, Bytes, Text, IsBytes, length,
}
use sodtware_dev_ops_gp_proj.Base.Codes
use sodtware_dev_ops_gp_proj.Base.Int.{ℤ, pos}
use sodtware_dev_ops_gp_proj.Base.Result.{Result, ok, err, attribute_error}
use sodtware_dev_ops_gp_proj.Base.Json.{Json, int, obj, field, subscript}
use sodtware_dev_ops_gp_proj.Channel.Base64.RoundTrip.{b64decode-b64encode}
use sodtware_dev_ops_gp_proj.Channel.Crypto.{Crypto, IsSound, ciphertext_bytes}
use sodtware_dev_ops_gp_proj.Channel.Keys.{decapsulate}
use sodtware_dev_ops_gp_proj.Cloud.Reading.{Reading, FloatOrder}
use sodtware_dev_ops_gp_proj.Cloud.State.{Config, second}
use sodtware_dev_ops_gp_proj.Gateway.State.{cloud_timeout_s, Gateway}
use sodtware_dev_ops_gp_proj.Gateway.Answers.{Agreed, conclude, verify_json, is_caught}
use sodtware_dev_ops_gp_proj.Channel.Base64.{b64decode_json}
use sodtware_dev_ops_gp_proj.Gateway.Handshake.{handshake, do_handshake}
use sodtware_dev_ops_gp_proj.Gateway.Handshake.Frame.{prepare-Keeps}
use sodtware_dev_ops_gp_proj.Gateway.Handler.{is_uplink_failure}
use sodtware_dev_ops_gp_proj.Joint.Link.{World, link_edited, session_body}
use sodtware_dev_ops_gp_proj.Joint.Opening.{reply_made}
use sodtware_dev_ops_gp_proj.Channel.Base64.RoundTrip.{b64decode_exact}
use sodtware_dev_ops_gp_proj.Joint.Answering.{Paired, Trusts}
use sodtware_dev_ops_gp_proj.Joint.Agreement.{prepare-Exchange}

-- The reply with a number for its first field, the session id.
abbrev pub number_id : Json → Json
number_id (obj (field k v fs)) = obj (field k (int (pos 7)) fs)
number_id j = j

conclude-number_id :
    (c : Crypto) (int_text : Text → Result ℤ)
    (cloud_pk static_ss static_ct ephemeral_pk ephemeral_sk ephemeral_ss ephemeral_ct tag : Bytes)
    (sid : Text)
    → IsBytes ephemeral_ct
    → length ephemeral_ct ≡ ciphertext_bytes
    → IsBytes tag
    → decapsulate c ephemeral_sk ephemeral_ct ≡ ok ephemeral_ss
    → conclude c int_text cloud_pk static_ss static_ct ephemeral_pk ephemeral_sk
        (number_id (session_body (reply_made c sid ephemeral_ct tag)))
      ≡ err attribute_error
unfolding conclude subscript session_body b64decode_json verify_json Codes.same
conclude-number_id c int_text cloud_pk static_ss static_ct ephemeral_pk ephemeral_sk ephemeral_ss
      ephemeral_ct tag sid b l bt d =
    rw (b64decode_exact ephemeral_ct ciphertext_bytes b l, d, (b64decode-b64encode tag 0 bt).0) refl

module _ {F : Type 0} (c : Crypto) (sound : IsSound c) (o : FloatOrder F)
    (parse_fields : Bytes → Option (Reading F)) (config : Config) (int_text : Text → Result ℤ)
    (lag : ℕ) (token : Text) (quick : lag < cloud_timeout_s * second) where
  -- If the cloud's reply to a session request names a number for the session id, a handshake that
  -- is in order otherwise, with every answer there within the five seconds that the gateway waits,
  -- raises `AttributeError`: no counter changes, not even that of the failed
  -- handshakes, and neither `_handshake` nor `_forward` catches the exception.
  pub handshake_escapes :
      (g : Gateway (World F))
      → Paired c config token
      → Trusts c config g
      → (after : Gateway (World F)) × (handshake c
            (link_edited c o parse_fields config int_text lag number_id)
            token
            g
          ≡ (err attribute_error, after))
        × (after.stats ≡ g.stats)
        × (is_caught attribute_error ≡ false)
        × (is_uplink_failure attribute_error ≡ false)
  unfolding handshake do_handshake is_caught is_uplink_failure
  handshake_escapes g paired t =
      let x =
        prepare-Exchange c sound o parse_fields config int_text lag token quick number_id g paired
          t in
      let ran =
        x.ran
        ∙ ap (λ (r : Result Agreed). (r, x.after))
            (conclude-number_id c int_text config.kem_public_key x.static_ss x.static_ct
              x.ephemeral_pk x.ephemeral_sk x.ephemeral_ss x.ephemeral_ct x.tag x.sid x.ct_bytes
              x.ct_length x.tag_bytes x.decapsulated) in
      let framed = rw ran at (
        (prepare-Keeps c (link_edited c o parse_fields config int_text lag number_id) token).at
          g) in
      (x.after, (rw ran refl), framed.stats, refl, refl)
