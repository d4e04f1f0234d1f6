-- ===== src/Tools/Sample.antt =====
-- A chain in which every request takes a nanosecond, to try the measurements on. The world is the
-- clock.
use sodtware_dev_ops_gp_proj.Base.{ℕ, ◌+◌, ◌≤◌, ◌≡◌, [], ◌∷◌, codes, arith}
use sodtware_dev_ops_gp_proj.Base.Int.{ℤ, pos}
use sodtware_dev_ops_gp_proj.Base.Result.{ok}
use sodtware_dev_ops_gp_proj.Legacy.Record.{FloatText}
use sodtware_dev_ops_gp_proj.Tools.Rig.{Rig, IsOrderly}
use sodtware_dev_ops_gp_proj.Tools.Summary.{Statistics}

abbrev pub quick : Rig ℕ
quick = record {
  perf_counter = λ w. w;
  sleep = λ d w. w + d;
  random = λ w. (3, w);
  connect = λ w. (ok tt, w + 1);
  sendall = λ frame w. (ok tt, w + 1);
  stored_readings = λ w. (ok 7, w + 1);
  seqs = λ d w. (ok (pos 1 ∷ []), w + 1);
}

pub quick-IsOrderly : IsOrderly quick
quick-IsOrderly = record {
  sleeps = λ d w. omega arith;
  draws = λ w. omega arith;
  connects = λ w. omega arith;
  sends = λ frame w. omega arith;
  counts = λ w. omega arith;
  lists = λ d w. omega arith;
}

pub quick_few : (w n : ℕ) → (quick.stored_readings w).0 ≡ ok n → n ≤ 1000
quick_few w n e = ground (arith, e)

-- Statistics that show the duration itself.
abbrev pub plain : Statistics ℕ
plain = record { fmean = λ xs. 0; median = λ xs. 0; shown = λ x. x }

abbrev pub plain_ℤ : Statistics ℤ
plain_ℤ = record { fmean = λ xs. pos 0; median = λ xs. pos 0; shown = pos }

-- Floats of which every print is the same.
abbrev pub same_text : FloatText ℤ
same_text = record { format2 = λ x. codes "21.50"; float = λ t. ok (pos 21) }
