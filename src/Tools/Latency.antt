-- ===== src/Tools/Latency.antt =====
-- `measure_end_to_end` of tools/baseline.py.
pub mod Ends
use sodtware_dev_ops_gp_proj.Base.{
  ℕ, zero, suc, ◌+◌, ◌-◌, ◌*◌, Bool, true, false, Option, none, some, List, [], ◌∷◌, ◌++◌, Bytes,
  Text, ltb, if◌then◌else◌,
}
use sodtware_dev_ops_gp_proj.Base.Result.{ok}
use sodtware_dev_ops_gp_proj.Base.Exec.{Exec, pure, lift, ◌>>=◌, ◌>>◌}
use sodtware_dev_ops_gp_proj.Cloud.Reading.{FloatOrder}
use sodtware_dev_ops_gp_proj.Cloud.State.{second}
use sodtware_dev_ops_gp_proj.Legacy.Cipher.{Cipher}
use sodtware_dev_ops_gp_proj.Legacy.Record.{FloatText}
use sodtware_dev_ops_gp_proj.Tools.Rig.{Rig, seq_present, sample_frame}
use sodtware_dev_ops_gp_proj.Tools.Summary.{Statistics, Latencies, summarise_latencies}

-- What the polling for one sample comes to: a latency, a sample that is given up, or no fuel left.
pub data Polled : Type 0 where
  arrived : ℕ → Polled
  skipped unfinished : Polled

module _ {W : Type 0} (r : Rig W) where
  abbrev pub pause : ℕ → Exec W (Unit {0})
  pause d w = (ok tt, r.sleep d w)

  abbrev pub latency_since : ℕ → Exec W Polled
  latency_since start w = (ok (arrived (r.perf_counter w - start)), w)

  -- One look, and the rest of the loop if the reading is not there.
  abbrev pub look : Text → ℕ → ℕ → ℕ → Exec W Polled → Exec W Polled
  look device_id seq start poll_s go = do
    present ← seq_present r device_id seq
    if present then latency_since start else (pause poll_s >> go)

  -- The `while` with its `else`: until the reading is there, or ten seconds after the start.
  unfoldable pub poll : ℕ → Text → ℕ → ℕ → ℕ → Exec W Polled
  poll zero device_id seq start poll_s w = (ok unfinished, w)
  poll (suc n) device_id seq start poll_s w =
      let go = poll n device_id seq start poll_s in
      if ltb (r.perf_counter w) (start + 10 * second)
      then look device_id seq start poll_s go w
      else (ok skipped, w)

module _ {W F : Type 0} (r : Rig W) (k : Cipher) (key : Bytes) (f : FloatText F) (o : FloatOrder F)
    (s : Statistics F) where
  -- What follows a sample, by what it came to.
  abbrev pub next_sample :
      Polled → List ℕ → (List ℕ → Exec W (Option (List ℕ))) → Exec W (Option (List ℕ))
  next_sample (arrived d) latencies go = go (latencies ++ d ∷ [])
  next_sample skipped latencies go = go latencies
  next_sample unfinished latencies go = pure none

  -- `sendall` of the frame, from the time that was read before it, and the polling.
  abbrev pub one_sample : ℕ → Text → ℕ → ℕ → Exec W Polled
  one_sample fuel device_id poll_s seq = do
    frame ← sample_frame r k key f o device_id seq
    (λ w. (r.sendall frame >> poll r fuel device_id seq (r.perf_counter w) poll_s) w)

  -- The loop over the samples from number `seq` on, with the latencies so far.
  unfoldable pub sample_all : ℕ → Text → ℕ → ℕ → ℕ → List ℕ → Exec W (Option (List ℕ))
  sample_all fuel device_id poll_s zero seq latencies = pure (some latencies)
  sample_all fuel device_id poll_s (suc n) seq latencies =
      one_sample fuel device_id poll_s seq >>= λ p.
      next_sample p latencies (sample_all fuel device_id poll_s n (seq + 1))

  abbrev pub report : Option (List ℕ) → Exec W (Option (Option (Latencies F)))
  report none = pure none
  report (some latencies) = do summary ← lift (summarise_latencies s latencies); pure (some summary)

  -- `measure_end_to_end`: `none` if the fuel has run out.
  unfoldable pub measure_end_to_end : ℕ → Text → ℕ → ℕ → Exec W (Option (Option (Latencies F)))
  measure_end_to_end fuel device_id samples poll_s = do
    r.connect
    latencies ← sample_all fuel device_id poll_s samples 1 []
    report latencies
