-- ===== src/Tools/Calls/Returned.antt =====
-- Calls that return can be timed: tools/baseline.py.
use sodtware_dev_ops_gp_proj.Base.{
  ℕ, zero, suc, ◌+◌, ◌-◌, ◌≡◌, refl, List, [], ◌∷◌, ◌++◌, length, length-append, arith,
}
use sodtware_dev_ops_gp_proj.Base.Result.{ok}
use sodtware_dev_ops_gp_proj.Base.Exec.{Exec}
use sodtware_dev_ops_gp_proj.Tools.Rig.{Rig}
use sodtware_dev_ops_gp_proj.Tools.Summary.{Statistics, Timing}
use sodtware_dev_ops_gp_proj.Tools.Summary.Sorting.{summarise_calls_some}
use sodtware_dev_ops_gp_proj.Tools.Calls.{call_all, time_calls}

module _ {W : Type 0} (r : Rig W) (fn : Exec W (Unit {0}))
    (returns : (w : W) → (v : W) × (fn w ≡ (ok tt, v))) where
  call_all_returned :
      (n : ℕ) (samples : List ℕ) (w : W)
      → (all : List ℕ) × (v : W) × (call_all r fn n samples w ≡ (ok all, v))
        × (length all ≡ length samples + n)
  unfolding call_all
  call_all_returned zero samples w = (samples, w, refl, omega arith)
  call_all_returned (suc n) samples w =
      let (v, e) = returns w in
      let d = r.perf_counter v - r.perf_counter w in
      let (all, u, k, size) = call_all_returned n (samples ++ d ∷ []) v in
      (all, u, (rw e k), omega (arith, size, length-append samples (d ∷ [])))

  -- A call that always returns can be timed any number of times but none.
  pub time_calls_returned :
      {F : Type 0} (s : Statistics F) (rate : F → F) (n : ℕ) (w : W)
      → (t : Timing F) × (v : W) × (time_calls r s rate fn (suc n) w ≡ (ok t, v))
        × (t.iterations ≡ suc n)
  unfolding time_calls
  time_calls_returned s rate n w =
      let (all, v, e, size) = call_all_returned (suc n) [] w in
      let (t, k, same) = summarise_calls_some s rate (suc n) all (omega (arith, size)) in
      (t, v, (rw (e, k) refl), same)
