-- ===== src/Tools/Throughput/Ends.antt =====
-- The loop of `measure_ingest_throughput` in tools/baseline.py comes to an end.
use sodtware_dev_ops_gp_proj.Base.{
  ℕ, zero, suc, ◌+◌, ◌-◌, ◌*◌, ◌≤◌, ◌≡◌, refl, ◌⊎◌, inl, inr, ◌&&◌, Bool-cases, Option, none, some,
  Bytes, Text, arith, ltb,
}
use sodtware_dev_ops_gp_proj.Base.Result.{Result-cases, Result, ok, err}
use sodtware_dev_ops_gp_proj.Base.Exec.{Exec-cases}
use sodtware_dev_ops_gp_proj.Cloud.Reading.{FloatOrder}
use sodtware_dev_ops_gp_proj.Cloud.State.{second}
use sodtware_dev_ops_gp_proj.Legacy.Cipher.{Cipher}
use sodtware_dev_ops_gp_proj.Legacy.Record.{FloatText, build_reading}
use sodtware_dev_ops_gp_proj.Tools.Rig.{Rig, IsOrderly, sample_reading, sample_frame}
use sodtware_dev_ops_gp_proj.Tools.Throughput.{
  Watch, unseen, watched, risen, check_pause, Throughput, drain, finish, send_all, timed,
  measure_ingest_throughput,
}

module _ {W : Type 0} (r : Rig W) (orderly : IsOrderly r) (most : ℕ)
    (few : (w : W) (n : ℕ) → (r.stored_readings w).0 ≡ ok n → n ≤ most) where
  -- The last count was one of the cloud's.
  abbrev IsCount : Option ℕ → Type 0
  IsCount none = Unit
  IsCount (some n) = n ≤ most

  -- The loop has ended because the count has not moved or the minute is over, or by an exception.
  abbrev Drained : ℕ → Result (Option Watch) × W → Type 0
  Drained start (ok none, w) = 1 ≤ 0
  Drained start (ok (some v), w) =
      ((3 ≤ v.stable) ⊎ (start + 60 * second ≤ r.perf_counter w)) × IsCount v.last
  Drained start (err e, w) = Unit

  drain-Drained :
      (n start : ℕ) (v : Watch) (w : W)
      → start + 60 * second ≤ r.perf_counter w + n * check_pause
      → IsCount v.last
      → Drained start (drain r (suc n) start v w)
  unfolding drain
  drain-Drained zero start v w h c =
      elim (Bool-cases (ltb v.stable 3 && ltb (r.perf_counter w - start) (60 * second))) [
        | inr over ↦ rw over (ground arith, c)
        | inl more ↦ absurd (ground (arith, more, h))
      ]
  drain-Drained (suc n) start v w h c =
      elim (Bool-cases (ltb v.stable 3 && ltb (r.perf_counter w - start) (60 * second))) [
        | inr over ↦ rw over (ground arith, c)
        | inl more ↦
            let slept = r.sleep check_pause w in
            elim (Exec-cases (r.stored_readings slept)) [
              | inr (x, u, raised) ↦ rw (more, raised) tt
              | inl (now, u, came) ↦
                  let later : r.perf_counter slept ≤ r.perf_counter u =
                    rw came at (orderly.counts slept) in
                  rw (more, came)
                    (drain-Drained n start (watched now v) u
                      (omega (arith, h, later, orderly.sleeps check_pause w))
                      (few slept now (rw came refl)))
            ]
      ]

module _ {W F : Type 0} (r : Rig W) (orderly : IsOrderly r) (most : ℕ)
    (few : (w : W) (n : ℕ) → (r.stored_readings w).0 ≡ ok n → n ≤ most) (k : Cipher) (key : Bytes)
    (f : FloatText F) (o : FloatOrder F) where
  sample_frame_later :
      (device_id : Text) (seq : ℕ) (w : W)
      → r.perf_counter w ≤ r.perf_counter (sample_frame r k key f o device_id seq w).1
  unfolding sample_frame
  sample_frame_later device_id seq w =
      elim (Result-cases (build_reading f (sample_reading r k key f o device_id seq))) [
        | inl (text, e) ↦ rw e (orderly.draws w)
        | inr (x, e) ↦ rw e (omega arith)
      ]

  send_all_later :
      (device_id : Text) (n seq : ℕ) (w : W)
      → r.perf_counter w ≤ r.perf_counter (send_all r k key f o device_id n seq w).1
  unfolding send_all
  send_all_later device_id zero seq w = omega arith
  send_all_later device_id (suc n) seq w =
      let drawn = sample_frame_later device_id seq w in
      elim (Exec-cases (sample_frame r k key f o device_id seq w)) [
        | inr (x, v, raised) ↦ rw raised (rw raised at drawn)
        | inl (frame, v, made) ↦
            let first : r.perf_counter w ≤ r.perf_counter v = rw made at drawn in
            let second = orderly.sends frame v in
            elim (Exec-cases (r.sendall frame v)) [
              | inr (x, u, raised) ↦ rw (made, raised) (omega (arith, first, (rw raised at second)))
              | inl (_, u, sent) ↦
                  rw (made, sent)
                    (omega
                      (arith, first, (rw sent at second), send_all_later device_id n (seq + 1) u))
            ]
      ]

  -- What the measurement may come to: an exception, or a report. The fuel has not run out.
  abbrev pub Measured : ℕ → ℕ → Result (Option Throughput) → Type 0
  Measured count before (ok none) = 1 ≤ 0
  Measured count before (ok (some t)) =
      (t.frames_sent ≡ count) × (t.readings_stored ≤ most - before)
  Measured count before (err e) = Unit

  finish-Measured :
      (count before start : ℕ) (v : Option Watch) (w : W)
      → Drained r orderly most few start (ok v, w)
      → Measured count before (finish r before count start v w).0
  finish-Measured count before start none w h = h
  finish-Measured count before start (some v) w h = (refl, risen_le before v.last h.1)
    where
      risen_le :
          (before : ℕ) (last : Option ℕ)
          → IsCount r orderly most few last
          → risen before last ≤ most - before
      risen_le before none c = omega arith
      risen_le before (some n) c = omega arith

  timed-Measured :
      (device_id : Text) (count before start : ℕ) (w : W)
      → start ≤ r.perf_counter w
      → Measured count before (timed r k key f o 301 device_id count before start w).0
  timed-Measured device_id count before start w h = elim (Exec-cases (r.connect w)) [
    | inr (x, v, raised) ↦ rw raised tt
    | inl (_, v, connected) ↦
        let joined : r.perf_counter w ≤ r.perf_counter v = rw connected at (orderly.connects w) in
        let sent = send_all_later device_id count 1 v in
        elim (Exec-cases (send_all r k key f o device_id count 1 v)) [
          | inr (x, u, raised) ↦ rw (connected, raised) tt
          | inl (_, u, done) ↦
              let later : r.perf_counter v ≤ r.perf_counter u = rw done at sent in
              let drained =
                drain-Drained r orderly most few 300 start unseen u
                  (omega (arith, h, joined, later)) tt in
              elim (Exec-cases (drain r 301 start unseen u)) [
                | inr (x, z, raised) ↦ rw (connected, done, raised) tt
                | inl (v, z, came) ↦
                    rw (connected, done, came)
                      (finish-Measured count before start v z (rw came at drained))
              ]
        ]
  ]

  -- Where the clock does not go back, a sleep takes its time, and the cloud never counts more than
  -- `most` readings: `measure_ingest_throughput`, once it has the first count, comes to an end, with
  -- an exception or a report, since 300 checks, a fifth of a second apart, fill the minute after which
  -- it waits no longer. It reports the frames sent, and no more readings as stored than were missing
  -- to that number before.
  pub measure_ingest_throughput-Measured :
      (device_id : Text) (count before : ℕ) (w : W)
      → (r.stored_readings w).0 ≡ ok before
      → Measured count before (measure_ingest_throughput r k key f o 301 device_id count w).0
  unfolding measure_ingest_throughput
  measure_ingest_throughput-Measured device_id count before w e =
      let (answer, v) = r.stored_readings w in
      let came : answer ≡ ok before = e in
      rw came (timed-Measured device_id count before (r.perf_counter v) v (omega arith))
