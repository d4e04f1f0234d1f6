-- ===== src/Joint/Reboot.antt =====
-- A device that runs, and one that starts again, at the gateway: legacy_device/device.py with
-- edge_gateway/gateway.py.
pub mod Tests
use sodtware_dev_ops_gp_proj.Base.{
  ℕ, suc, ◌+◌, ◌≤◌, ◌≡◌, refl, sym, ap, true, false, some, List, Bytes, Text, length, arith, ltb,
}
use sodtware_dev_ops_gp_proj.Base.Int.{pos, leb_ℤ}
use sodtware_dev_ops_gp_proj.Base.Dict.{get}
use sodtware_dev_ops_gp_proj.Base.Result.{ok}
use sodtware_dev_ops_gp_proj.Base.Exec.{Exec}
use sodtware_dev_ops_gp_proj.Cloud.Reading.{Reading, FloatOrder}
use sodtware_dev_ops_gp_proj.Device.Sensor.{FloatMath, IsFloatMath}
use sodtware_dev_ops_gp_proj.Device.Firmware.{LegacyDevice, Attempt, run, power_on}
use sodtware_dev_ops_gp_proj.Device.Stream.{IsName, Stream, over, next, Stream-le}
use sodtware_dev_ops_gp_proj.Device.Stream.Made.{run-Streams}
use sodtware_dev_ops_gp_proj.Gateway.Stats.{GatewayStats, received, replayed, bump}
use sodtware_dev_ops_gp_proj.Gateway.State.{Gateway, count}
use sodtware_dev_ops_gp_proj.Gateway.Tracker.{accept}
use sodtware_dev_ops_gp_proj.Gateway.Handler.{handle, process, sequence, dispatch, max_line_bytes}
use sodtware_dev_ops_gp_proj.Gateway.Uplink.Quiet.{Untouched}
use sodtware_dev_ops_gp_proj.Joint.Stream.{UpTo, Passed, handle-Passed}
use sodtware_dev_ops_gp_proj.Legacy.Cipher.{Cipher, IsCipher}
use sodtware_dev_ops_gp_proj.Legacy.Record.{FloatText, IsFloatText}

-- `n` frames were received and dropped as replays.
abbrev pub dropped : ℕ → GatewayStats → GatewayStats
dropped n s = record s {
  frames_received = s.frames_received + n;
  replays_dropped = s.replays_dropped + n;
}

dropped-zero : (s : GatewayStats) → dropped 0 s ≡ s
dropped-zero s =
    let a : s.frames_received + 0 ≡ s.frames_received = omega arith in
    let b : s.replays_dropped + 0 ≡ s.replays_dropped = omega arith in rw (a, b) refl

dropped-suc :
    (n : ℕ) (s : GatewayStats) → dropped n (bump replayed (bump received s)) ≡ dropped (suc n) s
unfolding bump
dropped-suc n s =
    let a : s.frames_received + 1 + n ≡ s.frames_received + suc n = omega arith in
    let b : s.replays_dropped + 1 + n ≡ s.replays_dropped + suc n = omega arith in rw (a, b) refl

module _ {W F : Type 0} (k : Cipher) (key : Bytes) (f : FloatText F)
    (send : Reading F → Exec (Gateway W) (Unit {0})) where
  -- A number that the gateway has seen, or a lower one.
  accept_stale :
      (name : Text) (n mark : ℕ) (g : Gateway W)
      → get name g.seen ≡ some (pos mark)
      → n ≤ mark
      → accept name (pos n) g.seen ≡ (false, g.seen)
  unfolding accept
  accept_stale name n mark g e h =
      let stale : leb_ℤ (pos n) (pos mark) ≡ true = ground arith in rw e (rw stale refl)

  handle-dropped :
      (o : FloatOrder F) (name : Text) {low high : ℕ} (mark : ℕ) {frames : List Bytes}
      (g : Gateway W)
      → Stream k key f o name low frames high
      → get name g.seen ≡ some (pos mark)
      → high ≤ mark
      → handle k key f send frames g ≡ (ok tt, record g { stats = dropped (length frames) g.stats })
  unfolding handle process sequence dispatch
  handle-dropped o name mark g (over h) e j =
      ap (λ (s : GatewayStats). (ok tt, record g { stats = s })) (sym (dropped-zero g.stats))
  handle-dropped o name mark g (next {n = n} {frame = frame} {frames = frames} h t s) e j =
      let fits_line : ltb max_line_bytes (length frame) ≡ false = ground (arith, t.small) in
      let stale : accept t.reading.device_id t.reading.seq g.seen ≡ (false, g.seen) =
        rw (t.named, t.numbered)
          (accept_stale name n mark g e (omega (arith, j, Stream-le k key f o s))) in
      rw
        (
          fits_line,
          t.decoded,
          stale,
          handle-dropped o name mark (count replayed (count received g)) s e j,
          dropped-suc (length frames) g.stats,
        )
        refl

module _ {W F : Type 0} (k : Cipher) (whole : IsCipher k) (key : Bytes) (f : FloatText F)
    (floats : IsFloatText f) (m : FloatMath F) (sound : IsFloatMath m)
    (same_round : (x : F) → floats.round2 x ≡ m.round2 x)
    (send : Reading F → Exec (Gateway W) (Unit {0}))
    (untouched : (r : Reading F) (g : Gateway W) → Untouched g (send r g).1) where
  -- Whatever happens to the sensor, the clock and the link: of the frames of a run, at a gateway
  -- that has seen no higher number of the device than the one before the run, if the device's name
  -- has 1 to 64 characters and none of them is the separator, none is refused and
  -- none dropped as a replay. If no exception ends the connection, every frame is counted as
  -- received, and as forwarded or failed, and the gateway has then seen no higher number than the
  -- device's after the run, so that the next run can go on.
  pub handle-run :
      (name : Text) (attempts : List (Attempt F)) (d : LegacyDevice F) (g : Gateway W)
      → IsName name
      → d.device_id ≡ name
      → UpTo name d.seq g.seen
      → let s = run k key f m attempts d in
        Passed g name s.device.seq (length s.frames) (handle k key f send s.frames g)
  handle-run name attempts d g good same up =
      handle-Passed k key f m.order send untouched name g
        (run-Streams k whole key f floats m sound same_round name attempts d good same).stream up

  -- A device, whose name has 1 to 64 characters and none of them the separator, that powers on again
  -- counts from 1, and the gateway still holds the number `mark` for it.
  -- All frames of a run up to that number are received and dropped as replays, and nothing else
  -- changes at the gateway. Of the frames of the runs after that, none is refused and none dropped.
  pub handle-power_on :
      (name : Text) (now mark : ℕ) (before after : List (Attempt F)) (g : Gateway W)
      → IsName name
      → get name g.seen ≡ some (pos mark)
      → let first = run k key f m before (power_on m name now) in
        let then_on = run k key f m after first.device in
        let g1 = record g { stats = dropped (length first.frames) g.stats } in
        first.device.seq ≡ mark
        → (handle k key f send first.frames g ≡ (ok tt, g1))
          × Passed g1 name then_on.device.seq
              (length then_on.frames)
              (handle k key f send then_on.frames g1)
  handle-power_on name now mark before after g good e reached =
      let d = power_on m name now in
      let first = run k key f m before d in
      let streams =
        run-Streams k whole key f floats m sound same_round name before d good
          (unfold power_on in refl) in
      (
        handle-dropped k key f send m.order name mark g streams.stream e (omega (arith, reached)),
        handle-run name after first.device
            (record g { stats = dropped (length first.frames) g.stats }) good streams.same_name
            (λ q same.
              let is : some (pos mark) ≡ some q = rw e at same in ground (arith, is, reached)),
      )
