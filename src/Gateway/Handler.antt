-- ===== src/Gateway/Handler.antt =====
-- `DeviceHandler` of edge_gateway/gateway.py: one device connection, from the lines that come in.
pub mod Accounting
pub mod Mlkem
pub mod Refused
use sodtware_dev_ops_gp_proj.Base.{
  ℕ, Bool, true, false, List, [], ◌∷◌, Bytes, length, ltb, if◌then◌else◌,
}
use sodtware_dev_ops_gp_proj.Base.Result.{
  Exception, Result, ok, err, value_error, channel_error, request_error, uplink_error, ◌>>=◌,
}
use sodtware_dev_ops_gp_proj.Base.Exec.{Exec, continue}
use sodtware_dev_ops_gp_proj.Cloud.Reading.{Reading}
use sodtware_dev_ops_gp_proj.Gateway.Stats.{received, rejected, forwarded, failed, replayed}
use sodtware_dev_ops_gp_proj.Gateway.State.{Gateway, count}
use sodtware_dev_ops_gp_proj.Gateway.Tracker.{accept}
use sodtware_dev_ops_gp_proj.Legacy.Cipher.{Cipher}
use sodtware_dev_ops_gp_proj.Legacy.Frame.{decrypt_frame}
use sodtware_dev_ops_gp_proj.Legacy.Record.{FloatText, parse_reading}

-- `MAX_FRAME_BYTES` of the gateway
abbrev pub max_line_bytes : ℕ
max_line_bytes = 4096

-- `except ValueError` in `_process`: `ChannelError` is one too.
unfoldable pub is_value_error : Exception → Bool
is_value_error value_error = true
is_value_error channel_error = true
is_value_error _ = false

-- `except (requests.RequestException, UplinkError)` in `_forward`
unfoldable pub is_uplink_failure : Exception → Bool
is_uplink_failure request_error = true
is_uplink_failure uplink_error = true
is_uplink_failure _ = false

module _ {W : Type 0} where
  -- How `_forward` counts what `send` came to.
  unfoldable pub settle : Result (Unit {0}) × Gateway W → Result (Unit {0}) × Gateway W
  settle (ok _, g) = (ok tt, count forwarded g)
  settle (err e, g) = if is_uplink_failure e then (ok tt, count failed g) else (err e, g)

module _ {W F : Type 0} (k : Cipher) (key : Bytes) (f : FloatText F)
    (send : Reading F → Exec (Gateway W) (Unit {0})) where
  unfoldable pub forward : Reading F → Exec (Gateway W) (Unit {0})
  forward reading g = settle (send reading g)

  -- `_process` after the tracker has answered.
  unfoldable pub dispatch : Bool → Reading F → Exec (Gateway W) (Unit {0})
  dispatch true reading g = forward reading g
  dispatch false reading g = (ok tt, count replayed g)

  -- `_process` after the frame was read.
  unfoldable pub sequence : Result (Reading F) → Exec (Gateway W) (Unit {0})
  sequence (err e) g = if is_value_error e then (ok tt, count rejected g) else (err e, g)
  sequence (ok r) g =
      let (fresh, seen) = accept r.device_id r.seq g.seen in
      dispatch fresh r (record g { seen = seen })

  unfoldable pub process : Bytes → Exec (Gateway W) (Unit {0})
  process raw = sequence (decrypt_frame k key raw >>= parse_reading f)

  -- `handle`, for the lines that the connection delivers until it ends or is reset.
  unfoldable pub handle : List Bytes → Exec (Gateway W) (Unit {0})
  handle [] g = (ok tt, g)
  handle (raw ∷ rest) g =
      let go = handle rest in
      if ltb max_line_bytes (length raw)
      then go (count rejected g)
      else continue (process raw (count received g)) (λ _. go)
