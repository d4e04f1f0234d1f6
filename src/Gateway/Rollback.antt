-- ===== src/Gateway/Rollback.antt =====
-- `LegacyUplink` of edge_gateway/gateway.py, and the handler over it.
use sodtware_dev_ops_gp_proj.Base.{
  ◌≡◌, refl, Bool, true, false, ◌&&◌, List, [], ◌∷◌, Bytes, length, ltb, leb, if◌then◌else◌,
  Bool-cases, inl, inr,
}
use sodtware_dev_ops_gp_proj.Base.Result.{
  Exception, Result, ok, err, value_error, request_error, ◌>>=◌,
}
use sodtware_dev_ops_gp_proj.Base.Exec.{Exec, continue}
use sodtware_dev_ops_gp_proj.Cloud.Reading.{Reading}
use sodtware_dev_ops_gp_proj.Gateway.Stats.{received, rejected, failed}
use sodtware_dev_ops_gp_proj.Gateway.Stats.Lines.{IsQuiet, IsQuiet-refl}
use sodtware_dev_ops_gp_proj.Gateway.State.{Gateway, count, Reply, unreachable, answered}
use sodtware_dev_ops_gp_proj.Gateway.Tracker.{accept}
use sodtware_dev_ops_gp_proj.Gateway.Handler.{
  handle, process, sequence, dispatch, forward, settle, is_value_error, is_uplink_failure,
  max_line_bytes,
}
use sodtware_dev_ops_gp_proj.Gateway.Handler.Accounting.{Accounts, handle-Accounts}
use sodtware_dev_ops_gp_proj.Legacy.Cipher.{Cipher}
use sodtware_dev_ops_gp_proj.Legacy.Frame.{decrypt_frame}
use sodtware_dev_ops_gp_proj.Legacy.Record.{FloatText, IsFloatText, parse_reading}
use sodtware_dev_ops_gp_proj.Legacy.Refusals.{read_error}

-- `response.raise_for_status()`, or the request's own exception.
unfoldable pub raise_for_status : Reply → Result (Unit {0})
raise_for_status unreachable = err request_error
raise_for_status (answered status body) =
    if leb 400 status && ltb status 600 then err request_error else ok tt

-- `LegacyUplink.send`; `post` is the request with the reading as JSON and the token in its header.
unfoldable pub send_legacy :
    {W F : Type 0} → (Reading F → W → Reply × W) → Reading F → Exec (Gateway W) (Unit {0})
send_legacy post reading g =
    let (reply, world) = post reading g.world in
    (raise_for_status reply, record g { world = world })

-- It returns, or raises an exception that `_forward` catches.
abbrev IsHandled : {W : Type 0} → Result (Unit {0}) × Gateway W → Type 0
IsHandled (ok _, g) = Unit
IsHandled (err e, g) = is_uplink_failure e ≡ true

abbrev Returns : {W : Type 0} → Result (Unit {0}) × Gateway W → Type 0
Returns {W} p = (h : Gateway W) × (p ≡ (ok tt, h))

module _ {W F : Type 0} (k : Cipher) (key : Bytes) (f : FloatText F) (sound : IsFloatText f)
    (send : Reading F → Exec (Gateway W) (Unit {0}))
    (handled : (r : Reading F) (g : Gateway W) → IsHandled (send r g)) where
  settle-Returns : (p : Result (Unit {0}) × Gateway W) → IsHandled p → Returns (settle p)
  unfolding settle
  settle-Returns (ok _, g) h = (_, refl)
  settle-Returns (err e, g) h = (count failed g, (rw h refl))

  dispatch-Returns :
      (b : Bool) (r : Reading F) (g : Gateway W) → Returns (dispatch k key f send b r g)
  unfolding dispatch forward
  dispatch-Returns true r g = settle-Returns (send r g) (handled r g)
  dispatch-Returns false r g = (_, refl)

  sequence-Returns :
      (p : Result (Reading F)) (g : Gateway W)
      → ((e : Exception) → p ≡ err e → e ≡ value_error)
      → Returns (sequence k key f send p g)
  unfolding sequence is_value_error
  sequence-Returns (ok r) g h =
      let (fresh, seen) = accept r.device_id r.seq g.seen in
      dispatch-Returns fresh r (record g { seen = seen })
  sequence-Returns (err e) g h = (count rejected g, (rw (h e refl) refl))

  continue-Returns :
      (p : Result (Unit {0}) × Gateway W) (go : Exec (Gateway W) (Unit {0}))
      → Returns p
      → ((g : Gateway W) → Returns (go g))
      → Returns (continue p (λ _. go))
  continue-Returns p go (h, e) ih = let (j, q) = ih h in (j, (rw e q))

  handle-Returns : (lines : List Bytes) (g : Gateway W) → Returns (handle k key f send lines g)
  unfolding handle process
  handle-Returns [] g = (g, refl)
  handle-Returns (raw ∷ rest) g = elim (Bool-cases (ltb max_line_bytes (length raw))) [
    | inl t ↦ rw t (handle-Returns rest (count rejected g))
    | inr t ↦ rw t (
        continue-Returns (process k key f send raw (count received g)) (handle k key f send rest)
          (sequence-Returns (decrypt_frame k key raw >>= parse_reading f) (count received g)
            (read_error k key f sound raw))
          (handle-Returns rest))
  ]

reply_IsHandled :
    {W : Type 0} (reply : Reply) (g : Gateway W) → IsHandled (raise_for_status reply, g)
unfolding raise_for_status is_uplink_failure
reply_IsHandled unreachable g = refl
reply_IsHandled (answered status body) g = elim (Bool-cases (leb 400 status && ltb status 600)) [
  | inl t ↦ rw t refl
  | inr t ↦ rw t tt
]

module _ {W F : Type 0} (k : Cipher) (key : Bytes) (f : FloatText F) (sound : IsFloatText f)
    (post : Reading F → W → Reply × W) where
  send_legacy-IsHandled : (r : Reading F) (g : Gateway W) → IsHandled (send_legacy post r g)
  unfolding send_legacy
  send_legacy-IsHandled r g =
      let (reply, w) = post r g.world in reply_IsHandled reply (record g { world = w })

  send_legacy-IsQuiet :
      (r : Reading F) (g : Gateway W) → IsQuiet g.stats (send_legacy post r g).1.stats
  unfolding send_legacy
  send_legacy-IsQuiet r g = IsQuiet-refl g.stats

  -- Over the legacy uplink, whatever a device sends and whatever the cloud and the network answer, a
  -- connection ends without an exception, and every line has been counted once as rejected,
  -- replayed, forwarded or failed, and every line that is not too long as received.
  pub handle_legacy-Accounts :
      (lines : List Bytes) (g : Gateway W)
      → (h : Gateway W) × (handle k key f (send_legacy post) lines g ≡ (ok tt, h))
        × Accounts g lines (ok tt, h)
  handle_legacy-Accounts lines g =
      let (h, e) = handle-Returns k key f sound (send_legacy post) send_legacy-IsHandled lines g in
      (h, e, (rw e at (handle-Accounts k key f (send_legacy post) send_legacy-IsQuiet lines g)))
