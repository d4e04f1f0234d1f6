-- ===== src/Device/Stream/Made.antt =====
-- The frames of a run of legacy_device/device.py.
use sodtware_dev_ops_gp_proj.Base.{
  ◌+◌, ◌≡◌, ◌≢◌, refl, sym, subst, ap, Bool, true, false, List, [], ◌∷◌, Bytes, Text, length, arith,
  le→leb,
}
use sodtware_dev_ops_gp_proj.Base.Int.{ℤ, pos, negsuc}
use sodtware_dev_ops_gp_proj.Base.Result.{Result, ok, err, chain_returned}
use sodtware_dev_ops_gp_proj.Cloud.Reading.{fits}
use sodtware_dev_ops_gp_proj.Device.Sensor.{FloatMath, IsFloatMath}
use sodtware_dev_ops_gp_proj.Device.Sensor.Bounds.{
  IsWithin, IsWithin-wider, IsWithin-round2, read-IsWithin,
}
use sodtware_dev_ops_gp_proj.Device.Firmware.{
  LegacyDevice, Round, Attempt, refused, connected, Sent, sampled, reading_at, sendall, one_round,
  after_round, send_forever, is_os_error, again, retry, run,
}
use sodtware_dev_ops_gp_proj.Legacy.Cipher.{Cipher, IsCipher}
use sodtware_dev_ops_gp_proj.Legacy.Frame.RoundTrip.{encrypt_frame_back}
use sodtware_dev_ops_gp_proj.Legacy.Record.{FloatText, IsFloatText, rounded, build_reading}
use sodtware_dev_ops_gp_proj.Legacy.Record.RoundTrip.{build_reading_back}
use sodtware_dev_ops_gp_proj.Device.Stream.{IsName, Told, Stream, over, next, Stream-append}

module _ {F : Type 0} (k : Cipher) (whole : IsCipher k) (key : Bytes) (f : FloatText F)
    (floats : IsFloatText f) (m : FloatMath F) (sound : IsFloatMath m)
    (same_round : (x : F) → floats.round2 x ≡ m.round2 x) where
  -- The cloud's bounds, for a value of one of the sensors.
  rounded_IsWithin :
      (low high : ℤ) (x : F)
      → IsWithin m sound low high x
      → IsWithin m sound low high (floats.round2 x)
  rounded_IsWithin low high x w = rw (same_round x) (IsWithin-round2 m sound low high x w)

  reading_at-fits :
      (r : Round F) (d : LegacyDevice F)
      → IsName d.device_id
      → fits m.order (rounded floats (reading_at k key f m r d)) ≡ true
  unfolding fits
  reading_at-fits r d name =
      let (temp, humidity, _, _) = read-IsWithin m sound r.drift_t r.drift_h d.sensor in
      let t =
        IsWithin-wider m sound (pos 5) (pos 35) (negsuc 49) (pos 150) _
          (rounded_IsWithin _ _ _ temp) refl refl in
      let h =
        IsWithin-wider m sound (pos 10) (pos 95) (pos 0) (pos 100) _
          (rounded_IsWithin _ _ _ humidity) refl refl in
      rw
        (
          le→leb _ _ name.long_enough,
          le→leb _ _ name.short_enough,
          t.above,
          t.below,
          h.above,
          h.below,
        )
        (ground arith)

  sendall_made :
      (b : Bool) (p : Result Bytes) (frame : Bytes)
      → sendall k key f m b p ≡ ok frame
      → p ≡ ok frame
  sendall_made true p frame e = e
  sendall_made false (ok x) frame e = absurd (cc e)
  sendall_made false (err x) frame e = absurd (cc e)

  named_ne : (d : LegacyDevice F) → IsName d.device_id → d.device_id ≢ []
  named_ne d name e = absurd (omega (arith, name.long_enough, ap length e))

  one_round-Told :
      (r : Round F) (d : LegacyDevice F) (frame : Bytes) (id : Text)
      → IsName d.device_id
      → d.device_id ≡ id
      → one_round k key f m r d ≡ ok frame
      → Told k key f m.order id (d.seq + 1) frame
  one_round-Told r d frame id name same e =
      let reading = reading_at k key f m r d in
      let (text, built, made) =
        chain_returned (build_reading f reading) _ (sendall_made r.sends _ frame e) in
      let (plain, back, small) = encrypt_frame_back k whole key r.random text frame made in
      record {
        reading = rounded floats reading;
        decoded =
            rw back (build_reading_back f floats reading text (named_ne d name) name.plain built);
        named = same;
        numbered = refl;
        within = reading_at-fits r d name;
        small = small;
      }

  -- What a run has sent, and the device then.
  pub record Streams (name : Text) (d : LegacyDevice F) (s : Sent F) : Type 0 where
    pub stream : Stream k key f m.order name d.seq s.frames s.device.seq
    pub same_name : s.device.device_id ≡ name

  -- A round, and the rounds behind it.
  after_round-Streams :
      (name : Text) (r : Round F) (d : LegacyDevice F) (go : LegacyDevice F → Sent F)
      → IsName name
      → d.device_id ≡ name
      → Streams name (sampled k key f m r d) (go (sampled k key f m r d))
      → (p : Result Bytes) → one_round k key f m r d ≡ p
      → Streams name d (after_round k key f m p (sampled k key f m r d) go)
  after_round-Streams name r d go good same more (ok frame) e = record {
    stream =
        next (omega arith) (one_round-Told r d frame name (subst IsName (sym same) good) same e)
          more.stream;
    same_name = more.same_name;
  }
  after_round-Streams name r d go good same more (err x) e = record {
    stream = over (omega arith);
    same_name = same;
  }

  send_forever-Streams :
      (name : Text) (rounds : List (Round F)) (d : LegacyDevice F)
      → IsName name
      → d.device_id ≡ name
      → Streams name d (send_forever k key f m rounds d)
  unfolding send_forever
  send_forever-Streams name [] d good same = record {
    stream = over (omega arith);
    same_name = same;
  }
  send_forever-Streams name (r ∷ rest) d good same =
      after_round-Streams name r d (send_forever k key f m rest) good same
        (send_forever-Streams name rest (sampled k key f m r d) good same) _ refl

  -- A connection, and the attempts behind it.
  again-Streams :
      (name : Text) (d : LegacyDevice F) (s : Sent F) (go : LegacyDevice F → Sent F)
      → Streams name d s
      → Streams name s.device (go s.device)
      → (b : Bool) → Streams name d (again k key f m b s go)
  again-Streams name d s go first more true = record {
    stream = Stream-append k key f m.order first.stream more.stream;
    same_name = more.same_name;
  }
  again-Streams name d s go first more false = first

  retry-Streams :
      (name : Text) (d : LegacyDevice F) (s : Sent F) (go : LegacyDevice F → Sent F)
      → Streams name d s
      → Streams name s.device (go s.device)
      → (p : Result (Unit {0})) → Streams name d (retry k key f m p s go)
  retry-Streams name d s go first more (ok _) = first
  retry-Streams name d s go first more (err e) =
      again-Streams name d s go first more (is_os_error e)

  -- Whatever happens to the sensor, the clock and the link: a run of a device whose name has 1 to 64
  -- characters and no separator puts frames of at most 256 bytes on the wire that the gateway reads,
  -- each as a reading of that device within the cloud's bounds, with sequence numbers that rise
  -- strictly, across all reconnections, from above the device's number before the run up to at most
  -- the one after it.
  pub run-Streams :
      (name : Text) (attempts : List (Attempt F)) (d : LegacyDevice F)
      → IsName name
      → d.device_id ≡ name
      → Streams name d (run k key f m attempts d)
  unfolding run
  run-Streams name [] d good same = record { stream = over (omega arith); same_name = same }
  run-Streams name (refused ∷ rest) d good same = run-Streams name rest d good same
  run-Streams name (connected rounds ∷ rest) d good same =
      let first = send_forever-Streams name rounds d good same in
      let s = send_forever k key f m rounds d in
      retry-Streams name d s (run k key f m rest) first
        (run-Streams name rest s.device good first.same_name) s.end
