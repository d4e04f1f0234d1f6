-- ===== src/Gateway/Uplink.antt =====
-- `PqcUplink.send`, `_next_message` and `_invalidate` of edge_gateway/gateway.py.
pub mod Issued
pub mod Nonces
pub mod First
pub mod Quiet
pub mod Pinned
use sodtware_dev_ops_gp_proj.Base.{
  ℕ, ◌+◌, Bool, true, false, ◌||◌, Option, none, some, Bytes, Text, ltb, leb, ◌==◌, if◌then◌else◌,
}
use sodtware_dev_ops_gp_proj.Base.Int.{pos, leb_ℤ}
use sodtware_dev_ops_gp_proj.Base.Result.{Result, ok, err, request_error, uplink_error}
use sodtware_dev_ops_gp_proj.Base.Exec.{Exec, pure, lift, unless, ◌>>=◌, ◌>>◌}
use sodtware_dev_ops_gp_proj.Channel.Base64.{b64encode}
use sodtware_dev_ops_gp_proj.Channel.Crypto.{Crypto}
use sodtware_dev_ops_gp_proj.Channel.Keys.{seal}
use sodtware_dev_ops_gp_proj.Gateway.State.{PqcSession, Gateway, Reply, unreachable, answered, Net}
use sodtware_dev_ops_gp_proj.Gateway.Handshake.{asks, handshake}

-- The current session will not do: there is none, its time is over, or its counters are used up.
unfoldable pub is_spent : ℕ → Option PqcSession → Bool
is_spent now none = true
is_spent now (some s) = leb s.expires_at now || leb_ℤ s.max_messages (pos s.next_counter)

status_of : Reply → Result ℕ
status_of unreachable = err request_error
status_of (answered status body) = ok status

module _ {W : Type 0} where
  -- The next counter of the session, which becomes or stays the current one.
  unfoldable pub issue : PqcSession → Exec (Gateway W) (PqcSession × ℕ)
  issue s g = (
    ok (s, s.next_counter),
    record g {
      uplink = record g.uplink { session = some (record s { next_counter = s.next_counter + 1 }) };
    },
  )

  -- `_invalidate`: only the current session object is dropped.
  unfoldable pub invalidate : PqcSession → Exec (Gateway W) (Unit {0})
  invalidate s g = elim g.session [
    | none ↦ (ok tt, g)
    | some current ↦ (
      ok tt,
      if current.serial == s.serial
          then record g { uplink = record g.uplink { session = none } }
          else g,
    )
  ]

module _ {W : Type 0} (c : Crypto) (net : Net W) (token : Text) where
  -- The current session if it will do, and otherwise a new one.
  usable : Option PqcSession → ℕ → Exec (Gateway W) PqcSession
  usable none now = handshake c net token
  usable (some s) now = if is_spent now (some s) then handshake c net token else pure s

  unfoldable pub next_message : Exec (Gateway W) (PqcSession × ℕ)
  unfolding usable
  next_message g = (usable g.session (net.monotonic g.world) >>= issue) g

  -- One round of the loop in `send`: the session that was used and the status.
  unfoldable pub post_once : Bytes → Exec (Gateway W) (PqcSession × ℕ)
  unfolding status_of
  post_once plaintext = do
    (s, counter) ← next_message
    (nonce, sealed) ← lift (seal c s.aead_key counter s.session_id plaintext)
    reply ← asks (
        net.post_telemetry (record {
          session_id = s.session_id;
          nonce = b64encode nonce;
          ciphertext = b64encode sealed;
        }))
    status ← lift (status_of reply)
    pure (s, status)

  -- Its last round: a status from 400 on is an `UplinkError`.
  unfoldable pub check_status : ℕ → Exec (Gateway W) (Unit {0})
  check_status status = unless (ltb status 400) uplink_error

  -- `send`: a 401 to the first attempt drops the session and leads to a second attempt.
  unfoldable pub send : Bytes → Exec (Gateway W) (Unit {0})
  send plaintext = do
    (s, status) ← post_once plaintext
    if status == 401
        then (do invalidate s; (_, status') ← post_once plaintext; check_status status')
        else check_status status
