-- ===== src/Device/Firmware.antt =====
-- `LegacyDevice` of legacy_device/device.py. What the outside does is an argument: the drifts of the
-- sensor, the clock, the random source, and whether the link holds.
use sodtware_dev_ops_gp_proj.Base.{
  ℕ, ◌+◌, ◌-◌, ◌/◌, Bool, true, false, List, [], ◌∷◌, ◌++◌, Bytes, Text,
}
use sodtware_dev_ops_gp_proj.Base.Int.{pos}
use sodtware_dev_ops_gp_proj.Base.Result.{◌>>=◌, Exception, Result, ok, err, os_error}
use sodtware_dev_ops_gp_proj.Cloud.Reading.{Reading}
use sodtware_dev_ops_gp_proj.Cloud.State.{second}
use sodtware_dev_ops_gp_proj.Device.Sensor.{FloatMath, SensorSimulator, new_sensor, read}
use sodtware_dev_ops_gp_proj.Legacy.Cipher.{Cipher}
use sodtware_dev_ops_gp_proj.Legacy.Frame.{encrypt_frame}
use sodtware_dev_ops_gp_proj.Legacy.Record.{FloatText, build_reading}

pub record LegacyDevice (F : Type 0) : Type 0 where
  pub device_id : Text
  pub sensor : SensorSimulator F
  pub seq : ℕ
  pub booted_at : ℕ

-- `LegacyDevice(...)`: the device powers on.
unfoldable pub power_on : {F : Type 0} → FloatMath F → Text → ℕ → LegacyDevice F
power_on m device_id now = record {
  device_id = device_id;
  sensor = new_sensor m;
  seq = 0;
  booted_at = now;
}

-- `_uptime_s`: whole seconds of the monotonic clock.
abbrev pub uptime_s : {F : Type 0} → ℕ → LegacyDevice F → ℕ
uptime_s now d = (now - d.booted_at) / second

-- What one round of the loop meets: two drifts, the time, the random source, and whether `sendall`
-- returns or raises an `OSError`.
pub record Round (F : Type 0) : Type 0 where
  pub drift_t : F
  pub drift_h : F
  pub now : ℕ
  pub random : ℕ
  pub sends : Bool

-- What one attempt to connect meets: `create_connection` raises an `OSError`, or there are rounds.
pub data Attempt (F : Type 0) : Type 0 where
  refused : Attempt F
  connected : List (Round F) → Attempt F

-- The frames that `sendall` took, how the run ended, and the device then.
pub record Sent (F : Type 0) : Type 0 where
  pub frames : List Bytes
  pub end : Result (Unit {0})
  pub device : LegacyDevice F

abbrev pub is_os_error : Exception → Bool
is_os_error os_error = true
is_os_error _ = false

module _ {F : Type 0} (k : Cipher) (key : Bytes) (f : FloatText F) (m : FloatMath F) where
  -- The device after a round has taken its sample, and the reading of the round.
  abbrev pub sampled : Round F → LegacyDevice F → LegacyDevice F
  sampled r d = record d { sensor = (read m r.drift_t r.drift_h d.sensor).1; seq = d.seq + 1 }

  abbrev pub reading_at : Round F → LegacyDevice F → Reading F
  reading_at r d = record {
    device_id = d.device_id;
    seq = pos (d.seq + 1);
    temp_c = (read m r.drift_t r.drift_h d.sensor).0.0;
    humidity = (read m r.drift_t r.drift_h d.sensor).0.1;
    uptime_s = pos (uptime_s r.now d);
  }

  -- `sendall` of a frame that was made.
  abbrev pub sendall : Bool → Result Bytes → Result Bytes
  sendall true frame = frame
  sendall false (ok frame) = err os_error
  sendall false (err e) = err e

  abbrev pub one_round : Round F → LegacyDevice F → Result Bytes
  one_round r d =
      sendall r.sends (build_reading f (reading_at r d) >>= encrypt_frame k key r.random)

  -- What follows a round.
  abbrev pub after_round : Result Bytes → LegacyDevice F → (LegacyDevice F → Sent F) → Sent F
  after_round (ok frame) d go = let s = go d in record s { frames = frame ∷ s.frames }
  after_round (err e) d go = record { frames = []; end = err e; device = d }

  -- `_send_forever`. The rounds end where the process is interrupted.
  unfoldable pub send_forever : List (Round F) → LegacyDevice F → Sent F
  send_forever [] d = record { frames = []; end = ok tt; device = d }
  send_forever (r ∷ rest) d = after_round (one_round r d) (sampled r d) (send_forever rest)

  -- The next attempt, after the wait.
  abbrev pub again : Bool → Sent F → (LegacyDevice F → Sent F) → Sent F
  again true s go = let t = go s.device in record t { frames = s.frames ++ t.frames }
  again false s go = s

  -- `except OSError` in `run`. Anything else ends it.
  abbrev pub retry : Result (Unit {0}) → Sent F → (LegacyDevice F → Sent F) → Sent F
  retry (ok _) s go = s
  retry (err e) s go = again (is_os_error e) s go

  -- `run`, for the attempts until the process is interrupted.
  unfoldable pub run : List (Attempt F) → LegacyDevice F → Sent F
  run [] d = record { frames = []; end = ok tt; device = d }
  run (refused ∷ rest) d = run rest d
  run (connected rounds ∷ rest) d = let s = send_forever rounds d in retry s.end s (run rest)
