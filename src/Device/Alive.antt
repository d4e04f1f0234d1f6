-- ===== src/Device/Alive.antt =====
-- How a run of legacy_device/device.py goes on, and what it comes to.
use sodtware_dev_ops_gp_proj.Base.{
  ℕ, map, ◌++◌, append-nil, sym, ◌∙◌, suc, ◌+◌, ◌*◌, ◌≤◌, ◌<◌, ◌≡◌, refl, ap, inl, inr, Bool, true,
  Bool-cases, ◌&&◌, List, [], ◌∷◌, Bytes, Text, length, length-append, All, arith, if◌then◌else◌,
}
use sodtware_dev_ops_gp_proj.Base.Int.{pos}
use sodtware_dev_ops_gp_proj.Base.Result.{Result, ok, err, os_error, ◌>>=◌}
use mathlib.Core.List.{map-append}
use sodtware_dev_ops_gp_proj.Cloud.State.{second}
use sodtware_dev_ops_gp_proj.Device.Sensor.{FloatMath, IsFloatMath}
use sodtware_dev_ops_gp_proj.Device.Sensor.Bounds.{IsWithin-wider, read-IsWithin}
use sodtware_dev_ops_gp_proj.Device.Firmware.{
  LegacyDevice, Round, Attempt, refused, connected, Sent, sampled, reading_at, send_forever, run,
  uptime_s, power_on,
}
use sodtware_dev_ops_gp_proj.Legacy.Cipher.{Cipher, IsCipher}
use sodtware_dev_ops_gp_proj.Legacy.Frame.{encrypt_frame}
use sodtware_dev_ops_gp_proj.Legacy.Frame.RoundTrip.{encrypt_frame_size}
use sodtware_dev_ops_gp_proj.Legacy.Number.Width.{length-number_text}
use sodtware_dev_ops_gp_proj.Legacy.Record.{FloatText, record_text, build_reading}
use sodtware_dev_ops_gp_proj.Legacy.Record.Width.{
  length-record_text, record_text-All, build_reading-short,
}

module _ {F : Type 0} where
  -- The frames that a connection takes before it fails, and whether it holds to the end.
  abbrev pub taken : List (Round F) → ℕ
  taken [] = 0
  taken (r ∷ rest) = if r.sends then suc (taken rest) else 0

  abbrev pub holds : List (Round F) → Bool
  holds [] = true
  holds (r ∷ rest) = r.sends && holds rest

  -- The frames that a run gets through.
  abbrev pub delivered : List (Attempt F) → ℕ
  delivered [] = 0
  delivered (refused ∷ rest) = delivered rest
  delivered (connected rounds ∷ rest) = taken rounds + (if holds rounds then 0 else delivered rest)

  -- Its rounds at most, and what holds of all of them.
  abbrev pub rounds_of : List (Attempt F) → ℕ
  rounds_of [] = 0
  rounds_of (refused ∷ rest) = rounds_of rest
  rounds_of (connected rounds ∷ rest) = length rounds + rounds_of rest

  abbrev pub AllRounds : (Round F → Type 0) → List (Attempt F) → Type 0
  AllRounds P [] = Unit
  AllRounds P (refused ∷ rest) = AllRounds P rest
  AllRounds P (connected rounds ∷ rest) = All P rounds × AllRounds P rest

-- The print of a sample, with two places, has at most five characters, all of them ASCII.
pub record IsShort {F : Type 0} (f : FloatText F) (m : FloatMath F) : Type 0 where
  pub format2_size :
      (x : F)
      → m.le (m.of_ℤ (pos 5)) x ≡ true
      → m.le x (m.of_ℤ (pos 95)) ≡ true
      → length (f.format2 x) ≤ 5
  pub format2_ascii : (x : F) → All (λ c. c < 128) (f.format2 x)

module _ {F : Type 0} (k : Cipher) (key : Bytes) (f : FloatText F) (m : FloatMath F) where
  -- The frame of a round.
  abbrev pub frame_of : Round F × LegacyDevice F → Result Bytes
  frame_of (r, d) = build_reading f (reading_at k key f m r d) >>= encrypt_frame k key r.random

  -- The rounds of a connection whose frames get through, with the device before each; the device when
  -- the connection ends; and the rounds of a whole run.
  abbrev pub sent_in : LegacyDevice F → List (Round F) → List (Round F × LegacyDevice F)
  sent_in d [] = []
  sent_in d (r ∷ rest) = if r.sends then (r, d) ∷ sent_in (sampled k key f m r d) rest else []

  abbrev pub left : LegacyDevice F → List (Round F) → LegacyDevice F
  left d [] = d
  left d (r ∷ rest) = let next = sampled k key f m r d in if r.sends then left next rest else next

  abbrev pub due : LegacyDevice F → List (Attempt F) → List (Round F × LegacyDevice F)
  due d [] = []
  due d (refused ∷ rest) = due d rest
  due d (connected rounds ∷ rest) =
      let later = due (left d rounds) rest in
      sent_in d rounds ++ (if holds rounds then [] else later)

module _ {F : Type 0} (k : Cipher) (whole : IsCipher k) (key : Bytes) (f : FloatText F)
    (m : FloatMath F) (sound : IsFloatMath m) (short : IsShort f m) (name : Text)
    (small : length name ≤ 64) (ascii : All (λ c. c < 128) name) (start : ℕ) where
  -- Less than ten million seconds after the start.
  abbrev pub IsEarly : Round F → Type 0
  IsEarly r = r.now < start + 10_000_000 * second

  -- The device of this name that was started then, with a number below a million.
  record IsYoung (d : LegacyDevice F) : Type 0 where
    same_name : d.device_id ≡ name
    same_start : d.booted_at ≡ start

  encrypt_frame_made :
      (r : Round F) (d : LegacyDevice F)
      → IsYoung d
      → d.seq + 1 < 1_000_000
      → IsEarly r
      → (frame : Bytes) × (frame_of k key f m (r, d) ≡ ok frame)
  encrypt_frame_made r d young low early =
      let reading = reading_at k key f m r d in
      let (temp, humidity, _, _) = read-IsWithin m sound r.drift_t r.drift_h d.sensor in
      let t = IsWithin-wider m sound (pos 5) (pos 35) (pos 5) (pos 95) _ temp refl refl in
      let h = IsWithin-wider m sound (pos 10) (pos 95) (pos 5) (pos 95) _ humidity refl refl in
      let uptime : uptime_s r.now d < 10_000_000 = omega (arith, early, young.same_start) in
      let plain =
        record_text-All f reading (rw young.same_name ascii) (short.format2_ascii _)
          (short.format2_ascii _) in
      elim (encrypt_frame_size k whole key r.random (record_text f reading) plain) [
        | inl (few, (frame, made, _)) ↦
            (frame, rw (build_reading-short f reading (omega (arith, few))) made)
        | inr (long, _) ↦ absurd (
            omega (
              arith,
              long,
              length-record_text f reading,
              length-number_text 5 (d.seq + 1) low,
              length-number_text 6 (uptime_s r.now d) uptime,
              short.format2_size _ t.above t.below,
              short.format2_size _ h.above h.below,
              small,
              ap length young.same_name,
            ))
      ]

  -- What a connection comes to.
  record Went (rounds : List (Round F)) (d : LegacyDevice F) (s : Sent F) : Type 0 where
    still : IsYoung s.device
    number : s.device.seq ≤ d.seq + length rounds
    count : length s.frames ≡ taken rounds
    wire : map ok s.frames ≡ map (frame_of k key f m) (sent_in k key f m d rounds)
    same_device : s.device ≡ left k key f m d rounds
    ended : s.end ≡ (if holds rounds then ok tt else err os_error)

  send_forever-Went :
      (rounds : List (Round F)) (d : LegacyDevice F)
      → IsYoung d
      → d.seq + length rounds < 1_000_000
      → All IsEarly rounds
      → Went rounds d (send_forever k key f m rounds d)
  unfolding send_forever
  send_forever-Went [] d young low early = record {
    still = young;
    number = omega arith;
    count = refl;
    wire = refl;
    same_device = refl;
    ended = refl;
  }
  send_forever-Went (r ∷ rest) d young low (early, all_early) =
      let (frame, made) = encrypt_frame_made r d young (omega arith) early in
      let next = sampled k key f m r d in
      elim (Bool-cases r.sends) [
        | inl sent ↦
            let more =
              send_forever-Went rest next
                (record { same_name = young.same_name; same_start = young.same_start })
                (omega arith) all_early in
            rw (sent, made)
              (record {
                still = more.still;
                number = omega (arith, more.number);
                count = ap suc more.count;
                wire = rw (made, more.wire) refl;
                same_device = more.same_device;
                ended = more.ended;
              })
        | inr lost ↦
            rw (lost, made)
              (record {
                still = record { same_name = young.same_name; same_start = young.same_start };
                number = omega arith;
                count = refl;
                wire = refl;
                same_device = refl;
                ended = refl;
              })
      ]

  -- What a run comes to.
  Lives : List (Attempt F) → LegacyDevice F → Sent F → Type 0
  Lives attempts d s =
      (s.end ≡ ok tt)
      × (length s.frames ≡ delivered attempts)
      × (map ok s.frames ≡ map (frame_of k key f m) (due k key f m d attempts))

  run-Lives :
      (attempts : List (Attempt F)) (d : LegacyDevice F)
      → IsYoung d
      → d.seq + rounds_of attempts < 1_000_000
      → AllRounds IsEarly attempts
      → Lives attempts d (run k key f m attempts d)
  unfolding run Lives
  run-Lives [] d young low early = (refl, refl, refl)
  run-Lives (refused ∷ rest) d young low early = run-Lives rest d young low early
  run-Lives (connected rounds ∷ rest) d young low (early, later) =
      let s = send_forever k key f m rounds d in
      let went = send_forever-Went rounds d young (omega arith) early in
      elim (Bool-cases (holds rounds)) [
        | inl h ↦
            let fine : s.end ≡ ok tt = rw h at went.ended in
            rw (h, fine) (refl, omega (arith, went.count), rw append-nil went.wire)
        | inr h ↦
            let down : s.end ≡ err os_error = rw h at went.ended in
            let (fine, count, wire) =
              run-Lives rest s.device went.still (omega (arith, went.number)) later in
            let after = run k key f m rest s.device in
            rw (h, down)
              (
                fine,
                omega (arith, went.count, count, length-append s.frames after.frames),
                map-append ok s.frames after.frames
                    ∙ (rw (went.wire, wire)
                        (sym (
                          map-append (frame_of k key f m) (sent_in k key f m d rounds)
                            (due k key f m (left k key f m d rounds) rest)
                          ∙ (rw (← went.same_device) refl)))),
              )
      ]

  -- No failure of the link ends a run: whatever connections are refused and whatever sends fail, a
  -- device whose name has at most 64 characters, all ASCII, goes on from its start without an
  -- exception through fewer than a million rounds within ten million seconds. The frames on the wire
  -- are those that were made, in order, of the readings of exactly the rounds that come before the
  -- first failure of their connection.
  pub run-power_on :
      (attempts : List (Attempt F))
      → rounds_of attempts < 1_000_000
      → AllRounds IsEarly attempts
      → let s = run k key f m attempts (power_on m name start) in
        (s.end ≡ ok tt)
        × (length s.frames ≡ delivered attempts)
        × (map ok s.frames
            ≡ map (frame_of k key f m) (due k key f m (power_on m name start) attempts))
  unfolding Lives power_on
  run-power_on attempts low early =
      run-Lives attempts (power_on m name start) (record { same_name = refl; same_start = refl })
        (omega arith) early
