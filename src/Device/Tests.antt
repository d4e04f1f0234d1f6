-- ===== src/Device/Tests.antt =====
-- The simulator on a concrete run.
use sodtware_dev_ops_gp_proj.Base.{map, ◌≡◌, refl, true, ◌<◌, [], ◌≤◌, length, arith}
use sodtware_dev_ops_gp_proj.Base.Result.{ok}
use sodtware_dev_ops_gp_proj.Base.Int.{ℤ, pos, negsuc}
use sodtware_dev_ops_gp_proj.Device.Sensor.{new_sensor, walk, read}
use sodtware_dev_ops_gp_proj.Device.Sensor.Bounds.{IsWithin, read-IsWithin}
use sodtware_dev_ops_gp_proj.Device.Firmware.{run, power_on}
use sodtware_dev_ops_gp_proj.Device.Stream.{IsName}
use sodtware_dev_ops_gp_proj.Device.Stream.Made.{Streams, run-Streams}
use sodtware_dev_ops_gp_proj.Device.Alive.{frame_of, due, IsShort, delivered, run-power_on}
use sodtware_dev_ops_gp_proj.Device.Sample.{
  whole_math, whole_math-IsFloatMath, whole_rounding, node, flaky,
}
use sodtware_dev_ops_gp_proj.Legacy.Cipher.Sample.{toy_cipher, toy_cipher-IsCipher}
use sodtware_dev_ops_gp_proj.Legacy.Number.{number_text}
use sodtware_dev_ops_gp_proj.Legacy.Number.RoundTrip.{number_text-All}
use sodtware_dev_ops_gp_proj.Legacy.Number.Width.{length-number_text}
use sodtware_dev_ops_gp_proj.Legacy.Sample.{whole_text, whole_text-IsFloatText}

-- The walk, clamped above.
read_clamped : (read whole_math (pos 40) (negsuc 60) (new_sensor whole_math)).0 ≡ (pos 35, pos 10)
unfolding read walk
read_clamped = refl

read-IsWithin_example :
    let (sample, after) = read whole_math (pos 40) (negsuc 60) (new_sensor whole_math) in
    IsWithin whole_math whole_math-IsFloatMath (pos 5) (pos 35) sample.0
    × IsWithin whole_math whole_math-IsFloatMath (pos 10) (pos 95) sample.1
    × (after.temp_c ≡ sample.0)
    × (after.humidity ≡ sample.1)
read-IsWithin_example =
    read-IsWithin whole_math whole_math-IsFloatMath (pos 40) (negsuc 60) (new_sensor whole_math)

node-IsName : IsName node
node-IsName = record { long_enough = omega arith; short_enough = omega arith; plain = omega arith }

run-Streams_example :
    Streams toy_cipher toy_cipher-IsCipher [] whole_text whole_text-IsFloatText whole_math
      whole_math-IsFloatMath whole_rounding node
      (power_on whole_math node 0)
      (run toy_cipher [] whole_text whole_math flaky (power_on whole_math node 0))
run-Streams_example =
    run-Streams toy_cipher toy_cipher-IsCipher [] whole_text whole_text-IsFloatText whole_math
      whole_math-IsFloatMath whole_rounding node flaky (power_on whole_math node 0) node-IsName
      (unfold power_on in refl)

whole_text-IsShort : IsShort whole_text whole_math
whole_text-IsShort = record {
  format2_size = size;
  format2_ascii = λ x. number_text-All (λ c. c < 128) x (omega arith) (λ c (h, k). omega arith);
}
  where
    size :
        (x : ℤ)
        → whole_math.le (pos 5) x ≡ true
        → whole_math.le x (pos 95) ≡ true
        → length (number_text x) ≤ 5
    size (pos n) h j = omega (arith, length-number_text 1 n (ground arith))
    size (negsuc n) h j = absurd (ground arith)

run-power_on_example :
    let s = run toy_cipher [] whole_text whole_math flaky (power_on whole_math node 0) in
    (s.end ≡ ok tt)
    × (length s.frames ≡ delivered flaky)
    × (map ok s.frames
        ≡ map
            (frame_of toy_cipher [] whole_text whole_math)
            (due toy_cipher [] whole_text whole_math (power_on whole_math node 0) flaky))
run-power_on_example =
    run-power_on toy_cipher toy_cipher-IsCipher [] whole_text whole_math whole_math-IsFloatMath
      whole_text-IsShort node (omega arith) (omega arith) 0 flaky (omega arith) (omega arith)

delivered-flaky : delivered flaky ≡ 2
delivered-flaky = refl
