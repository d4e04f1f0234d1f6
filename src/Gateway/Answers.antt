-- ===== src/Gateway/Answers.antt =====
-- What the gateway makes of the cloud's answers in the ML-KEM handshake: the parts of
-- `PqcUplink._do_handshake` of edge_gateway/gateway.py that touch no state.
pub mod Digest
use sodtware_dev_ops_gp_proj.Base.{
  ℕ, ◌-◌, ◌^◌, Bool, true, false, ◌&&◌, Option, none, some, [], ◌∷◌, Bytes, Text, same, codes, ltb,
  ◌==◌, if◌then◌else◌,
}
use sodtware_dev_ops_gp_proj.Base.Int.{ℤ, pos, negsuc}
use sodtware_dev_ops_gp_proj.Base.Result.{
  Exception, Result, ok, err, value_error, channel_error, key_error, type_error, attribute_error,
  overflow_error, request_error, ◌>>=◌,
}
use sodtware_dev_ops_gp_proj.Base.Json.{Json, str, subscript, to_int}
use sodtware_dev_ops_gp_proj.Channel.Base64.{b64decode_json}
use sodtware_dev_ops_gp_proj.Channel.Crypto.{Crypto, ciphertext_bytes}
use sodtware_dev_ops_gp_proj.Channel.Keys.{
  decapsulate, transcript, derive_session_keys, verify_confirmation,
}
use sodtware_dev_ops_gp_proj.Gateway.State.{not_json, json, Reply, unreachable, answered}

-- `RENEW_MARGIN_S`
abbrev pub renew_margin_s : ℕ
renew_margin_s = 60

-- The body of a response that must have the given status.
unfoldable pub expect : ℕ → Reply → Result Json
expect want unreachable = err request_error
expect want (answered status not_json) =
    if status == want then err value_error else err channel_error
expect want (answered status (json j)) = if status == want then ok j else err channel_error

-- `body["algorithm"] != channel.ALGORITHM`
unfoldable pub is_text : Text → Json → Bool
is_text t (str s) = same s t
is_text t _ = false

is_ascii : Text → Bool
is_ascii [] = true
is_ascii (x ∷ t) = ltb x 128 && is_ascii t

-- `hmac.compare_digest` on texts takes ASCII only.
unfoldable pub check_digest : Text → Text → Result (Unit {0})
unfolding is_ascii
check_digest actual pinned =
    if is_ascii actual && is_ascii pinned
    then (if same actual pinned then ok tt else err channel_error)
    else err type_error

-- `session_id` is whatever the cloud sent: only a text has the method `encode` that
-- `confirmation_tag` calls.
unfoldable pub verify_json : Crypto → Bytes → Json → Bytes → Result Text
verify_json c confirm_key (str sid) tag = elim (verify_confirmation c confirm_key sid tag) [
  | ok _ ↦ ok sid
  | err e ↦ err e
]
verify_json c confirm_key _ tag = err attribute_error

-- `max(0, seconds - RENEW_MARGIN_S)`, which is then added to a float: an integer that rounds
-- past the largest float raises.
unfoldable pub lifetime : ℤ → Result ℕ
lifetime (pos n) =
    if ltb (n - renew_margin_s) (2 ^ 1024 - 2 ^ 970)
    then ok (n - renew_margin_s)
    else err overflow_error
lifetime (negsuc n) = ok 0

-- The exceptions that `_handshake` turns into an `UplinkError`: `channel.ChannelError`,
-- `requests.RequestException`, `KeyError`, `TypeError` and `ValueError`.
unfoldable pub is_caught : Exception → Bool
is_caught value_error = true
is_caught channel_error = true
is_caught key_error = true
is_caught type_error = true
is_caught request_error = true
is_caught _ = false

-- What the handshake has found out before it makes the session object.
pub record Agreed : Type 0 where
  pub session_id : Text
  pub aead_key : Bytes
  pub lifetime_s : ℕ
  pub max_messages : ℤ

-- Steps 3 and 4: recover the second secret, derive the keys, check the confirmation tag and read
-- the limits.
unfoldable pub conclude :
    Crypto → (Text → Result ℤ) → Bytes → Bytes → Bytes → Bytes → Bytes → Json → Result Agreed
conclude c int_text cloud_pk static_ss static_ct ephemeral_pk ephemeral_sk body = do
  ct ← subscript body (codes "ephemeral_ciphertext")
  ephemeral_ct ← b64decode_json ct (some ciphertext_bytes)
  ephemeral_ss ← decapsulate c ephemeral_sk ephemeral_ct
  let keys =
      derive_session_keys c static_ss ephemeral_ss
        (transcript cloud_pk static_ct ephemeral_pk ephemeral_ct)
  sid ← subscript body (codes "session_id")
  confirmation ← subscript body (codes "confirmation")
  tag ← b64decode_json confirmation none
  session_id ← verify_json c keys.1 sid tag
  expires ← subscript body (codes "expires_in_s")
  seconds ← to_int int_text expires
  lifetime_s ← lifetime seconds
  most ← subscript body (codes "max_messages")
  max_messages ← to_int int_text most
  ok (record {
    session_id = session_id;
    aead_key = keys.0;
    lifetime_s = lifetime_s;
    max_messages = max_messages;
  })
