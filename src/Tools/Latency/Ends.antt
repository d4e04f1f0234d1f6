-- ===== src/Tools/Latency/Ends.antt =====
-- The loops of `measure_end_to_end` in tools/baseline.py come to an end.
use native.Mathlib.Nat.{suc-mul}
use sodtware_dev_ops_gp_proj.Base.{
  ℕ, zero, suc, ◌+◌, ◌-◌, ◌*◌, ◌≤◌, ◌≡◌, ◌≢◌, refl, ap, inl, inr, false, Bool-cases, Option, none,
  some, List, [], ◌∷◌, ◌++◌, Bytes, Text, length, length-append, arith, ltb,
}
use sodtware_dev_ops_gp_proj.Base.Int.{pos}
use sodtware_dev_ops_gp_proj.Base.Result.{Result, ok, err}
use sodtware_dev_ops_gp_proj.Base.Exec.{Exec, Exec-cases}
use sodtware_dev_ops_gp_proj.Cloud.Reading.{FloatOrder}
use sodtware_dev_ops_gp_proj.Cloud.State.{second}
use sodtware_dev_ops_gp_proj.Legacy.Cipher.{Cipher}
use sodtware_dev_ops_gp_proj.Legacy.Record.{FloatText}
use sodtware_dev_ops_gp_proj.Tools.Rig.{Rig, IsOrderly, seq_present, any_seq, sample_frame}
use sodtware_dev_ops_gp_proj.Tools.Summary.{Statistics, Latencies, summarise_latencies}
use sodtware_dev_ops_gp_proj.Tools.Summary.Sorting.{summarise_latencies_lem}
use sodtware_dev_ops_gp_proj.Tools.Latency.{
  Polled, arrived, skipped, unfinished, look, poll, next_sample, one_sample, sample_all, report,
  measure_end_to_end,
}

module _ {W : Type 0} (r : Rig W) (orderly : IsOrderly r) where
  look_ends :
      (device_id : Text) (seq start poll_s : ℕ) (go : Exec W Polled) (w : W)
      → ((v : W) → r.perf_counter w + poll_s ≤ r.perf_counter v → (go v).0 ≢ ok unfinished)
      → (look r device_id seq start poll_s go w).0 ≢ ok unfinished
  unfolding seq_present
  look_ends device_id seq start poll_s go w ends e = elim (Exec-cases (r.seqs device_id w)) [
    | inl (xs, v, came) ↦
        let later : r.perf_counter w ≤ r.perf_counter v = rw came at (orderly.lists device_id w) in
        elim (Bool-cases (any_seq (pos seq) xs)) [
          | inl there ↦
              let k : ok (arrived (r.perf_counter v - start)) ≡ ok unfinished =
                rw (came, there) at e in
              absurd (cc k)
          | inr missing ↦
              ends (r.sleep poll_s v) (omega (arith, later, orderly.sleeps poll_s v))
                (rw (came, missing) at e)
        ]
    | inr (x, v, raised) ↦ let k : err x ≡ ok unfinished = rw raised at e in absurd (cc k)
  ]

  poll_ends :
      (n : ℕ) (device_id : Text) (seq start poll_s : ℕ) (w : W)
      → start + 10 * second ≤ r.perf_counter w + n * poll_s
      → (poll r (suc n) device_id seq start poll_s w).0 ≢ ok unfinished
  unfolding poll
  poll_ends zero device_id seq start poll_s w h e =
      let over : ltb (r.perf_counter w) (start + 10 * second) ≡ false = ground (arith, h) in
      let k : ok skipped ≡ ok unfinished = rw over at e in absurd (cc k)
  poll_ends (suc n) device_id seq start poll_s w h e =
      elim (Bool-cases (ltb (r.perf_counter w) (start + 10 * second))) [
        | inl more ↦
            look_ends device_id seq start poll_s (poll r (suc n) device_id seq start poll_s) w
              (λ v later.
                poll_ends n device_id seq start poll_s v
                  (omega (arith, h, later, suc-mul n poll_s)))
              (rw more at e)
        | inr over ↦ let k : ok skipped ≡ ok unfinished = rw over at e in absurd (cc k)
      ]

module _ {W F : Type 0} (r : Rig W) (orderly : IsOrderly r) (k : Cipher) (key : Bytes)
    (f : FloatText F) (o : FloatOrder F) (s : Statistics F) where
  -- With fuel for ten seconds of looks.
  one_sample_ends :
      (n : ℕ) (device_id : Text) (poll_s seq : ℕ) (w : W)
      → 10 * second ≤ n * poll_s
      → (one_sample r k key f o s (suc n) device_id poll_s seq w).0 ≢ ok unfinished
  one_sample_ends n device_id poll_s seq w h e =
      elim (Exec-cases (sample_frame r k key f o device_id seq w)) [
        | inr (x, v, raised) ↦ let z : err x ≡ ok unfinished = rw raised at e in absurd (cc z)
        | inl (frame, v, made) ↦ elim (Exec-cases (r.sendall frame v)) [
          | inr (x, u, raised) ↦
              let z : err x ≡ ok unfinished = rw (made, raised) at e in absurd (cc z)
          | inl (_, u, sent) ↦
              let later : r.perf_counter v ≤ r.perf_counter u =
                rw sent at (orderly.sends frame v) in
              poll_ends r orderly n device_id seq (r.perf_counter v) poll_s u
                (omega (arith, h, later)) (rw (made, sent) at e)
        ]
      ]

  -- The loop has ended, with at most so many latencies, or an exception has ended it.
  abbrev Ended : ℕ → Result (Option (List ℕ)) → Type 0
  Ended most (ok none) = 1 ≤ 0
  Ended most (ok (some latencies)) = length latencies ≤ most
  Ended most (err e) = Unit

  next_sample-Ended :
      (p : Polled) (latencies : List ℕ) (most : ℕ) (go : List ℕ → Exec W (Option (List ℕ))) (w : W)
      → p ≢ unfinished
      → ((more : List ℕ) → length more ≤ suc (length latencies) → Ended most (go more w).0)
      → Ended most (next_sample r k key f o s p latencies go w).0
  next_sample-Ended (arrived d) latencies most go w h ih =
      ih (latencies ++ d ∷ []) (omega (arith, length-append latencies (d ∷ [])))
  next_sample-Ended skipped latencies most go w h ih = ih latencies (omega arith)
  next_sample-Ended unfinished latencies most go w h ih = absurd (h refl)

  sample_all-Ended :
      (n : ℕ) (device_id : Text) (poll_s samples seq : ℕ) (latencies : List ℕ) (w : W)
      → 10 * second ≤ n * poll_s
      → (most : ℕ) → length latencies + samples ≤ most
      → Ended most (sample_all r k key f o s (suc n) device_id poll_s samples seq latencies w).0
  unfolding sample_all
  sample_all-Ended n device_id poll_s zero seq latencies w h most few = omega arith
  sample_all-Ended n device_id poll_s (suc samples) seq latencies w h most few =
      let ends = one_sample_ends n device_id poll_s seq w h in
      elim (Exec-cases (one_sample r k key f o s (suc n) device_id poll_s seq w)) [
        | inr (x, v, raised) ↦ rw raised tt
        | inl (p, v, came) ↦ rw came (
            next_sample-Ended p latencies most _ v (λ q. (rw came at ends) (ap ok q))
              (λ more size.
                sample_all-Ended n device_id poll_s samples (seq + 1) more v h most
                  (omega (arith, size, few))))
      ]

  -- What the measurement may come to: an exception, the report that nothing arrived, or a report of
  -- some samples, but not of more than were sent. The fuel has not run out.
  abbrev pub Reported : ℕ → Result (Option (Option (Latencies F))) → Type 0
  Reported samples (ok none) = 1 ≤ 0
  Reported samples (ok (some none)) = Unit
  Reported samples (ok (some (some l))) = (1 ≤ l.samples) × (l.samples ≤ samples)
  Reported samples (err e) = Unit

  report-Reported :
      (result : Option (List ℕ)) (samples : ℕ) (w : W)
      → Ended samples (ok result)
      → Reported samples (report r k key f o s result w).0
  report-Reported none samples w h = h
  report-Reported (some []) samples w h = unfold summarise_latencies in tt
  report-Reported (some (x ∷ xs)) samples w h =
      let (low, p95, high, mean, median, made, _, _, _, _, _, _) = summarise_latencies_lem s x xs in
      rw made (omega arith, omega (arith, h))

  -- `measure_end_to_end` comes to an end, whatever the gateway and the cloud do: with one round more
  -- than the looks that fill ten seconds, the loop of no sample runs out. It then reports at least
  -- one and at most as many latencies as it sent samples, or that none arrived, or an exception has
  -- ended it.
  pub measure_end_to_end-Reported :
      (n : ℕ) (device_id : Text) (samples poll_s : ℕ) (w : W)
      → 10 * second ≤ n * poll_s
      → Reported samples (measure_end_to_end r k key f o s (suc n) device_id samples poll_s w).0
  unfolding measure_end_to_end
  measure_end_to_end-Reported n device_id samples poll_s w h = elim (Exec-cases (r.connect w)) [
    | inr (x, v, raised) ↦ rw raised tt
    | inl (_, v, connected) ↦
        let ended = sample_all-Ended n device_id poll_s samples 1 [] v h samples (omega arith) in
        elim (Exec-cases (sample_all r k key f o s (suc n) device_id poll_s samples 1 [] v)) [
          | inr (x, u, raised) ↦ rw (connected, raised) tt
          | inl (latencies, u, came) ↦
              rw (connected, came) (report-Reported latencies samples u (rw came at ended))
        ]
  ]
