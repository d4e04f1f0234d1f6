-- ===== src/Tools/Rig.antt =====
-- What tools/baseline.py sees of the running chain. `W` is the world outside: the clock, the random
-- source, the gateway's socket and the cloud's two queries.
use sodtware_dev_ops_gp_proj.Base.{ℕ, ◌+◌, ◌≤◌, Bool, false, ◌||◌, List, [], ◌∷◌, Bytes, Text, ◌&&◌}
use sodtware_dev_ops_gp_proj.Base.Int.{ℤ, pos, leb_ℤ}
use sodtware_dev_ops_gp_proj.Base.Exec.{Exec, lift, pure, ◌>>=◌}
use sodtware_dev_ops_gp_proj.Cloud.Reading.{Reading, FloatOrder}
use sodtware_dev_ops_gp_proj.Legacy.Cipher.{Cipher}
use sodtware_dev_ops_gp_proj.Legacy.Frame.{encrypt_frame}
use sodtware_dev_ops_gp_proj.Legacy.Record.{FloatText, build_reading}

pub record Rig (W : Type 0) : Type 0 where
  -- `time.perf_counter()`, `time.sleep`, and the source of `os.urandom`
  pub perf_counter : W → ℕ
  pub sleep : ℕ → W → W
  pub random : W → ℕ × W
  -- `socket.create_connection` and `sendall`
  pub connect : Exec W (Unit {0})
  pub sendall : Bytes → Exec W (Unit {0})
  -- `_cloud_get` of `/health`, its `stored_readings`; and of the device's newest readings, their `seq`
  pub stored_readings : Exec W ℕ
  pub seqs : Text → Exec W (List ℤ)

-- The clock does not go back, and a sleep takes its time.
pub record IsOrderly {W : Type 0} (r : Rig W) : Type 0 where
  pub sleeps : (d : ℕ) (w : W) → r.perf_counter w + d ≤ r.perf_counter (r.sleep d w)
  pub draws : (w : W) → r.perf_counter w ≤ r.perf_counter (r.random w).1
  pub connects : (w : W) → r.perf_counter w ≤ r.perf_counter (r.connect w).1
  pub sends : (frame : Bytes) (w : W) → r.perf_counter w ≤ r.perf_counter (r.sendall frame w).1
  pub counts : (w : W) → r.perf_counter w ≤ r.perf_counter (r.stored_readings w).1
  pub lists : (d : Text) (w : W) → r.perf_counter w ≤ r.perf_counter (r.seqs d w).1

-- `a == b`
abbrev pub same_ℤ : ℤ → ℤ → Bool
same_ℤ a b = leb_ℤ a b && leb_ℤ b a

-- `any(r["seq"] == seq for r in ...)`
unfoldable pub any_seq : ℤ → List ℤ → Bool
any_seq seq [] = false
any_seq seq (x ∷ xs) = same_ℤ x seq || any_seq seq xs

module _ {W F : Type 0} (r : Rig W) (k : Cipher) (key : Bytes) (f : FloatText F)
    (o : FloatOrder F) where
  -- The reading of the sample number `seq`, and its frame.
  abbrev pub sample_reading : Text → ℕ → Reading F
  sample_reading device_id seq = record {
    device_id = device_id;
    seq = pos seq;
    temp_c = o.of_ℤ (pos 21);
    humidity = o.of_ℤ (pos 45);
    uptime_s = pos seq;
  }

  unfoldable pub sample_frame : Text → ℕ → Exec W Bytes
  sample_frame device_id seq = do
    text ← lift (build_reading f (sample_reading device_id seq))
    λ w. let (random, w1) = r.random w in (encrypt_frame k key random text, w1)

-- `_seq_present`
unfoldable pub seq_present : {W : Type 0} → Rig W → Text → ℕ → Exec W Bool
seq_present r device_id seq = do xs ← r.seqs device_id; pure (any_seq (pos seq) xs)
