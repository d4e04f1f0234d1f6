-- ===== src/Gateway/Handshake.antt =====
-- `PqcUplink._do_handshake` and `_handshake` of edge_gateway/gateway.py, which run under the lock.
pub mod Frame
pub mod Counts
use sodtware_dev_ops_gp_proj.Base.{
  ℕ, ◌+◌, ◌*◌, Option, none, some, Bytes, Text, codes, if◌then◌else◌,
}
use sodtware_dev_ops_gp_proj.Base.Result.{Result, ok, err, channel_error, uplink_error}
use sodtware_dev_ops_gp_proj.Base.Exec.{Exec, pure, lift, unless, ◌>>=◌, ◌>>◌}
use sodtware_dev_ops_gp_proj.Base.Json.{subscript}
use sodtware_dev_ops_gp_proj.Channel.Base64.{b64encode}
use sodtware_dev_ops_gp_proj.Channel.Crypto.{Crypto, public_key_bytes}
use sodtware_dev_ops_gp_proj.Channel.Keys.{
  algorithm, fingerprint, generate_keypair, encapsulate, gateway_proof,
}
use sodtware_dev_ops_gp_proj.Cloud.State.{second}
use sodtware_dev_ops_gp_proj.Gateway.Stats.{shaken, unshaken}
use sodtware_dev_ops_gp_proj.Gateway.State.{PqcSession, Gateway, Net, count}
use sodtware_dev_ops_gp_proj.Gateway.Answers.{
  Agreed, expect, is_text, check_digest, is_caught, conclude,
}
use sodtware_dev_ops_gp_proj.Channel.Base64.{b64decode_json}

module _ {W : Type 0} where
  -- A request, or a draw of the random source.
  unfoldable pub asks : {A : Type 0} → (W → A × W) → Exec (Gateway W) A
  asks f g = let (a, w) = f g.world in (ok a, record g { world = w })

  -- The pin: set from the first key that is seen when none was configured.
  unfoldable pub pin_to : Text → Option Text → Exec (Gateway W) (Unit {0})
  pin_to actual none g = (ok tt, record g { uplink = record g.uplink { pinned = some actual } })
  pin_to actual (some pinned) g = (check_digest actual pinned, g)

  unfoldable pub check_pin : Text → Exec (Gateway W) (Unit {0})
  unfolding pin_to
  check_pin actual g = pin_to actual g.pinned g

  -- The `_PqcSession` that the handshake returns.
  abbrev pub new_session : Net W → Agreed → Gateway W → PqcSession
  new_session net a g = record {
    serial = g.made;
    session_id = a.session_id;
    aead_key = a.aead_key;
    expires_at = net.monotonic g.world + a.lifetime_s * second;
    max_messages = a.max_messages;
    next_counter = 0;
  }

  abbrev pub one_more : Gateway W → Gateway W
  one_more g = record g { uplink = record g.uplink { made = g.made + 1 } }

  unfoldable pub construct : Net W → Agreed → Exec (Gateway W) PqcSession
  construct net a g = (ok (new_session net a g), one_more g)

  -- How `_handshake` counts what `_do_handshake` came to.
  abbrev pub outcome : Result PqcSession × Gateway W → Result PqcSession × Gateway W
  outcome (ok s, g) = (ok s, count shaken g)
  outcome (err e, g) = if is_caught e then (err uplink_error, count unshaken g) else (err e, g)

module _ {W : Type 0} (c : Crypto) (net : Net W) (token : Text) where
  -- Step 1: fetch the cloud's public key and check it against the pin.
  unfoldable pub fetch_key : Exec (Gateway W) Bytes
  fetch_key = do
    reply ← asks net.get_public_key
    body ← lift (expect 200 reply)
    alg ← lift (subscript body (codes "algorithm"))
    unless (is_text algorithm alg) channel_error
    pk ← lift (subscript body (codes "public_key"))
    cloud_pk ← lift (b64decode_json pk (some public_key_bytes))
    check_pin (fingerprint c cloud_pk)
    pure cloud_pk

  -- `_do_handshake` up to the session object.
  unfoldable pub prepare : Exec (Gateway W) Agreed
  prepare = do
    cloud_pk ← fetch_key
    r ← asks net.random
    (static_ss, static_ct) ← lift (encapsulate c r cloud_pk)
    r' ← asks net.random
    let pair = generate_keypair c r'
    proof ← lift (gateway_proof c token static_ct pair.0)
    reply ← asks (
        net.post_session (record {
          static_ciphertext = b64encode static_ct;
          ephemeral_public_key = b64encode pair.0;
          gateway_proof = b64encode proof;
        }))
    body ← lift (expect 201 reply)
    lift (conclude c net.int_text cloud_pk static_ss static_ct pair.0 pair.1 body)

  unfoldable pub do_handshake : Exec (Gateway W) PqcSession
  do_handshake = do agreed ← prepare; construct net agreed

  -- `_handshake`
  unfoldable pub handshake : Exec (Gateway W) PqcSession
  handshake g = outcome (do_handshake g)
