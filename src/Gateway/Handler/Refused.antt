-- ===== src/Gateway/Handler/Refused.antt =====
-- The handler of a pinned gateway before a network that serves another key.
use sodtware_dev_ops_gp_proj.Base.{
  ℕ, ◌≡◌, ◌≢◌, none, some, refl, inl, inr, Bool, true, false, Bool-cases, List, [], ◌∷◌, Bytes,
  Text, length, ltb,
}
use sodtware_dev_ops_gp_proj.Base.Result.{Result, ok, err, ◌>>=◌}
use sodtware_dev_ops_gp_proj.Base.Exec.{Exec, continue}
use sodtware_dev_ops_gp_proj.Channel.Crypto.{Crypto}
use sodtware_dev_ops_gp_proj.Channel.Keys.{fingerprint}
use sodtware_dev_ops_gp_proj.Cloud.Reading.{Reading}
use sodtware_dev_ops_gp_proj.Gateway.Stats.{bump, received, rejected, replayed, failed}
use sodtware_dev_ops_gp_proj.Gateway.State.{Gateway, Net, count}
use sodtware_dev_ops_gp_proj.Gateway.Tracker.{accept}
use sodtware_dev_ops_gp_proj.Gateway.Handler.{
  settle, forward, dispatch, sequence, process, handle, is_uplink_failure, is_value_error,
  max_line_bytes,
}
use sodtware_dev_ops_gp_proj.Gateway.Handler.Mlkem.{handle_mlkem}
use sodtware_dev_ops_gp_proj.Gateway.Uplink.{send}
use sodtware_dev_ops_gp_proj.Gateway.Uplink.Pinned.{Offers, Shut, Failed, recount, send-Failed}
use sodtware_dev_ops_gp_proj.Legacy.Cipher.{Cipher}
use sodtware_dev_ops_gp_proj.Legacy.Frame.{decrypt_frame}
use sodtware_dev_ops_gp_proj.Legacy.Record.{FloatText, parse_reading}

module _ {W F : Type 0} (k : Cipher) (key : Bytes) (f : FloatText F)
    (send : Reading F → Exec (Gateway W) (Unit {0})) (pin : Text) (Kept : W → Type 0) (n : ℕ)
    (fails : (r : Reading F) (g : Gateway W)
      → Shut pin Kept n g
      → Failed pin Kept n (send r g)) where
  dispatch-Shut :
      (b : Bool) (r : Reading F) (g : Gateway W)
      → Shut pin Kept n g
      → Shut pin Kept n (dispatch k key f send b r g).1
  unfolding dispatch forward settle bump
  dispatch-Shut true r g s =
      let (e, h, raised, shut) = fails r g s in
      rw raised (elim (Bool-cases (is_uplink_failure e)) [
        | inl t ↦ rw t (recount pin Kept n h (bump failed h.stats) shut refl)
        | inr t ↦ rw t shut
      ])
  dispatch-Shut false r g s = recount pin Kept n g (bump replayed g.stats) s refl

  sequence-Shut :
      (p : Result (Reading F)) (g : Gateway W)
      → Shut pin Kept n g
      → Shut pin Kept n (sequence k key f send p g).1
  unfolding sequence bump
  sequence-Shut (err e) g s = elim (Bool-cases (is_value_error e)) [
    | inl t ↦ rw t (recount pin Kept n g (bump rejected g.stats) s refl)
    | inr t ↦ rw t s
  ]
  sequence-Shut (ok r) g s =
      let (fresh, seen) = accept r.device_id r.seq g.seen in
      dispatch-Shut fresh r (record g { seen = seen })
        (record {
          pinned = s.pinned;
          session = s.session;
          world = s.world;
          forwarded = s.forwarded;
        })

  continued-Shut :
      (p : Result (Unit {0}) × Gateway W) (go : Exec (Gateway W) (Unit {0}))
      → Shut pin Kept n p.1
      → ((h : Gateway W) → Shut pin Kept n h → Shut pin Kept n (go h).1)
      → Shut pin Kept n (continue p (λ _. go)).1
  continued-Shut (ok _, h) go s more = more h s
  continued-Shut (err e, h) go s more = s

  handle-Shut :
      (lines : List Bytes) (g : Gateway W)
      → Shut pin Kept n g
      → Shut pin Kept n (handle k key f send lines g).1
  unfolding handle process bump
  handle-Shut [] g s = s
  handle-Shut (raw ∷ rest) g s = elim (Bool-cases (ltb max_line_bytes (length raw))) [
    | inl t ↦
        rw t (
          handle-Shut rest (count rejected g) (recount pin Kept n g (bump rejected g.stats) s refl))
    | inr t ↦ rw t (
        continued-Shut (process k key f send raw (count received g)) (handle k key f send rest)
          (sequence-Shut (decrypt_frame k key raw >>= parse_reading f) (count received g)
            (recount pin Kept n g (bump received g.stats) s refl))
          (handle-Shut rest))
  ]

module _ {W F : Type 0} (k : Cipher) (key : Bytes) (f : FloatText F) (c : Crypto) (net : Net W)
    (token : Text) (dumps : Reading F → Bytes) (pin : Text) (Kept : W → Type 0) where
  -- A gateway with a pin and no session, before a network whose answers to the request for the public
  -- key never hold a key with the pinned fingerprint: whatever lines come from a device, and whatever
  -- the network would answer to anything else, all that holds of the world and that this request
  -- leaves true still holds when the connection has ended, with an exception or without. There is
  -- still no session, the pin is the same, and no line was counted as forwarded.
  pub handle_mlkem-Shut :
      (lines : List Bytes) (g : Gateway W)
      → ((w : W) → Kept w → Kept (net.get_public_key w).1)
      → ((w : W) (pk : Bytes)
          → Kept w
          → Offers (net.get_public_key w).0 pk
          → fingerprint c pk ≢ pin)
      → g.pinned ≡ some pin
      → g.session ≡ none
      → Kept g.world
      → let h = (handle_mlkem k key f c net token dumps lines g).1 in
        Kept h.world
        × (h.session ≡ none)
        × (h.pinned ≡ some pin)
        × (h.stats.forwarded_ok ≡ g.stats.forwarded_ok)
  handle_mlkem-Shut lines g keeps other pinned session world =
      let s =
        handle-Shut k key f (λ r. send c net token (dumps r)) pin Kept g.stats.forwarded_ok
          (λ r h s. send-Failed c net token pin Kept keeps other g.stats.forwarded_ok (dumps r) h s)
          lines g
          (record { pinned = pinned; session = session; world = world; forwarded = refl }) in
      (s.world, s.session, s.pinned, s.forwarded)
