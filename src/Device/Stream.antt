-- ===== src/Device/Stream.antt =====
-- The frames that a device puts on the wire, as the gateway reads them.
pub mod Made
use sodtware_dev_ops_gp_proj.Base.{
  ℕ, ◌+◌, ◌≤◌, ◌<◌, ◌≡◌, refl, ap, inl, inr, Bool, true, false, Bool-cases, List, [], ◌∷◌, ◌++◌,
  Bytes, Text, length, All, arith, ltb, leb, if◌then◌else◌, le→leb, leb→le, ltb→lt, ◌∙◌, ◌&&◌,
}
use sodtware_dev_ops_gp_proj.Base.Int.{ℤ, pos, negsuc, leb_ℤ}
use sodtware_dev_ops_gp_proj.Base.Result.{
  Exception, Result, Result-cases, ok, err, value_error, os_error, ◌>>=◌,
}
use sodtware_dev_ops_gp_proj.Base.Split.{Lacks}
use sodtware_dev_ops_gp_proj.Cloud.Reading.{Reading, FloatOrder, fits}
use sodtware_dev_ops_gp_proj.Device.Sensor.{FloatMath, IsFloatMath, read}
use sodtware_dev_ops_gp_proj.Device.Sensor.Bounds.{
  IsWithin, IsWithin-wider, IsWithin-round2, read-IsWithin,
}
use sodtware_dev_ops_gp_proj.Device.Firmware.{
  LegacyDevice, Round, Attempt, refused, connected, Sent, sampled, reading_at, sendall, one_round,
  after_round, send_forever, retry, run, uptime_s,
}
use sodtware_dev_ops_gp_proj.Legacy.Cipher.{Cipher, IsCipher}
use sodtware_dev_ops_gp_proj.Legacy.Frame.{ascii, encrypt_frame, decrypt_frame}
use sodtware_dev_ops_gp_proj.Legacy.Frame.RoundTrip.{encrypt_frame_back}
use sodtware_dev_ops_gp_proj.Legacy.Record.{
  FloatText, IsFloatText, rounded, field_sep, build_reading, parse_reading,
}

-- A name that a device may have.
pub record IsName (name : Text) : Type 0 where
  pub long_enough : 1 ≤ length name
  pub short_enough : length name ≤ 64
  pub plain : Lacks field_sep name

module _ {F : Type 0} (k : Cipher) (key : Bytes) (f : FloatText F) (o : FloatOrder F) where
  -- A frame that the gateway reads as a reading with this number, which the cloud would take.
  pub record Told (name : Text) (n : ℕ) (frame : Bytes) : Type 0 where
    pub reading : Reading F
    pub decoded : (decrypt_frame k key frame >>= parse_reading f) ≡ ok reading
    pub named : reading.device_id ≡ name
    pub numbered : reading.seq ≡ pos n
    pub within : fits o reading ≡ true
    pub small : length frame ≤ 256

  -- Frames whose numbers rise, from above `low` up to at most `high`.
  pub data Stream (name : Text) : ℕ → List Bytes → ℕ → Type 0 where
    over : {low high : ℕ} → low ≤ high → Stream name low [] high
    next :
        {low n high : ℕ} {frame : Bytes} {frames : List Bytes}
        → low < n
        → Told name n frame
        → Stream name n frames high
        → Stream name low (frame ∷ frames) high

  pub Stream-le :
      {name : Text} {low high : ℕ} {frames : List Bytes} → Stream name low frames high → low ≤ high
  Stream-le (over h) = h
  Stream-le (next h t s) = omega (arith, h, Stream-le s)

  pub Stream-lower :
      {name : Text} {low mid high : ℕ} {frames : List Bytes}
      → low ≤ mid
      → Stream name mid frames high
      → Stream name low frames high
  Stream-lower h (over j) = over (omega arith)
  Stream-lower h (next j t s) = next (omega arith) t s

  pub Stream-append :
      {name : Text} {low mid high : ℕ} {frames more : List Bytes}
      → Stream name low frames mid
      → Stream name mid more high
      → Stream name low (frames ++ more) high
  Stream-append (over h) s = Stream-lower h s
  Stream-append (next h t s) u = next h t (Stream-append s u)
