-- ===== src/Tools/Throughput.antt =====
-- `measure_ingest_throughput` of tools/baseline.py.
pub mod Ends
use sodtware_dev_ops_gp_proj.Base.{
  ℕ, zero, suc, ◌+◌, ◌-◌, ◌*◌, Bool, false, ◌&&◌, Option, none, some, Bytes, Text, ltb, ◌==◌,
  if◌then◌else◌,
}
use sodtware_dev_ops_gp_proj.Base.Result.{ok}
use sodtware_dev_ops_gp_proj.Base.Exec.{Exec, pure, ◌>>=◌, ◌>>◌}
use sodtware_dev_ops_gp_proj.Cloud.Reading.{FloatOrder}
use sodtware_dev_ops_gp_proj.Cloud.State.{second}
use sodtware_dev_ops_gp_proj.Legacy.Cipher.{Cipher}
use sodtware_dev_ops_gp_proj.Legacy.Record.{FloatText}
use sodtware_dev_ops_gp_proj.Tools.Rig.{Rig, sample_frame}
use sodtware_dev_ops_gp_proj.Tools.Latency.{pause}

-- `time.sleep(0.2)`
abbrev pub check_pause : ℕ
check_pause = 200_000_000

-- `now == last`, where `last` is -1 at first, which no count is.
abbrev pub is_still : ℕ → Option ℕ → Bool
is_still now none = false
is_still now (some last) = now == last

-- The variables of the loop that waits: `stable` and `last`.
pub record Watch : Type 0 where
  pub stable : ℕ
  pub last : Option ℕ

abbrev pub unseen : Watch
unseen = record { stable = 0; last = none }

abbrev pub watched : ℕ → Watch → Watch
watched now v = record { stable = if is_still now v.last then v.stable + 1 else 0; last = some now }

-- `max(0, last - before)`
abbrev pub risen : ℕ → Option ℕ → ℕ
risen before none = 0
risen before (some last) = last - before

-- The dict that it returns; the rate in it is the quotient of the last two.
pub record Throughput : Type 0 where
  pub frames_sent : ℕ
  pub readings_stored : ℕ
  pub elapsed : ℕ

module _ {W : Type 0} (r : Rig W) where
  -- The loop that waits for the backlog: `none` if the fuel has run out.
  unfoldable pub drain : ℕ → ℕ → Watch → Exec W (Option Watch)
  drain zero start v w = (ok none, w)
  drain (suc n) start v w =
      let go = drain n start in
      if ltb v.stable 3 && ltb (r.perf_counter w - start) (60 * second)
      then (pause r check_pause >> r.stored_readings >>= λ now. go (watched now v)) w
      else (ok (some v), w)

  abbrev pub finish : ℕ → ℕ → ℕ → Option Watch → Exec W (Option Throughput)
  finish before count start none w = (ok none, w)
  finish before count start (some v) w = (
    ok (
        some (record {
          frames_sent = count;
          readings_stored = risen before v.last;
          elapsed = r.perf_counter w - start;
        })),
    w,
  )

module _ {W F : Type 0} (r : Rig W) (k : Cipher) (key : Bytes) (f : FloatText F)
    (o : FloatOrder F) where
  -- The frames back to back, from number `seq` on.
  unfoldable pub send_all : Text → ℕ → ℕ → Exec W (Unit {0})
  send_all device_id zero seq = pure tt
  send_all device_id (suc n) seq = do
    frame ← sample_frame r k key f o device_id seq
    r.sendall frame
    send_all device_id n (seq + 1)

  -- What is done on the connection, from the time that was read before it.
  abbrev pub timed : ℕ → Text → ℕ → ℕ → ℕ → Exec W (Option Throughput)
  timed fuel device_id count before start = do
    r.connect
    send_all device_id count 1
    v ← drain r fuel start unseen
    finish r before count start v

  -- `measure_ingest_throughput`: `none` if the fuel has run out.
  unfoldable pub measure_ingest_throughput : ℕ → Text → ℕ → Exec W (Option Throughput)
  measure_ingest_throughput fuel device_id count = do
    before ← r.stored_readings
    (λ w. timed fuel device_id count before (r.perf_counter w) w)
