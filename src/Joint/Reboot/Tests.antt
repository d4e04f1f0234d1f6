-- ===== src/Joint/Reboot/Tests.antt =====
-- A device that runs and starts again, over the legacy uplink.
use sodtware_dev_ops_gp_proj.Base.{◌≡◌, refl, some, none, [], ◌∷◌, length, arith}
use sodtware_dev_ops_gp_proj.Base.Dict.{get}
use sodtware_dev_ops_gp_proj.Base.Int.{ℤ, pos}
use sodtware_dev_ops_gp_proj.Base.Result.{ok}
use sodtware_dev_ops_gp_proj.Cloud.Reading.{Reading}
use sodtware_dev_ops_gp_proj.Device.Firmware.{run, send_forever, power_on}
use sodtware_dev_ops_gp_proj.Device.Stream.{IsName}
use sodtware_dev_ops_gp_proj.Device.Sample.{
  whole_math, whole_math-IsFloatMath, whole_rounding, node, flaky,
}
use sodtware_dev_ops_gp_proj.Gateway.Stats.{no_stats}
use sodtware_dev_ops_gp_proj.Gateway.State.{Gateway, Reply, answered, not_json}
use sodtware_dev_ops_gp_proj.Gateway.Handler.{handle}
use sodtware_dev_ops_gp_proj.Gateway.Rollback.{send_legacy}
use sodtware_dev_ops_gp_proj.Gateway.Uplink.Quiet.{Untouched, Untouched-same}
use sodtware_dev_ops_gp_proj.Joint.Stream.{Passed}
use sodtware_dev_ops_gp_proj.Joint.Reboot.{dropped, handle-run, handle-power_on}
use sodtware_dev_ops_gp_proj.Legacy.Cipher.Sample.{toy_cipher, toy_cipher-IsCipher}
use sodtware_dev_ops_gp_proj.Legacy.Sample.{whole_text, whole_text-IsFloatText}
use sodtware_dev_ops_gp_proj.Base.Codes
use sodtware_dev_ops_gp_proj.Base.Split.{join}
use sodtware_dev_ops_gp_proj.Base.Hex.{hex}
use sodtware_dev_ops_gp_proj.Device.Sensor.{read, walk}
use sodtware_dev_ops_gp_proj.Legacy.Frame.{ascii, encrypt_frame}
use sodtware_dev_ops_gp_proj.Legacy.Number.{number_text, str_int, digit_count, decimal}
use sodtware_dev_ops_gp_proj.Legacy.Record.{build_reading}

abbrev post : Reading ℤ → Unit {0} → Reply × Unit {0}
post r w = (answered 202 not_json, w)

untouched : (r : Reading ℤ) (g : Gateway (Unit {0})) → Untouched g (send_legacy post r g).1
unfolding send_legacy
untouched r g = Untouched-same g _ refl refl

good : IsName node
good = record { long_enough = omega arith; short_enough = omega arith; plain = omega arith }

-- The gateway has seen 3 of the device.
abbrev known : Gateway (Unit {0})
known = record {
  stats = no_stats;
  seen = (node, pos 3) ∷ [];
  uplink = record { pinned = none; session = none; made = 0 };
  world = tt;
}

known_3 : get node known.seen ≡ some (pos 3)
unfolding get Codes.same
known_3 = refl

handle-run_example :
    let s =
      run toy_cipher [] whole_text whole_math flaky
        (record (power_on whole_math node 0) { seq = 3 }) in
    Passed known node s.device.seq
      (length s.frames)
      (handle toy_cipher [] whole_text (send_legacy post) s.frames known)
handle-run_example =
    handle-run toy_cipher toy_cipher-IsCipher [] whole_text whole_text-IsFloatText whole_math
      whole_math-IsFloatMath whole_rounding (send_legacy post) untouched node flaky
      (record (power_on whole_math node 0) { seq = 3 }) known good (unfold power_on in refl)
      (λ q e. let is : some (pos 3) ≡ some q = rw known_3 at e in ground (arith, is))

reached :
    (run toy_cipher [] whole_text whole_math flaky (power_on whole_math node 0)).device.seq ≡ 3
unfolding run send_forever power_on encrypt_frame ascii build_reading str_int digit_count join
    number_text decimal read walk hex toy_cipher
reached = refl

handle-power_on_example :
    let first = run toy_cipher [] whole_text whole_math flaky (power_on whole_math node 0) in
    let then_on = run toy_cipher [] whole_text whole_math flaky first.device in
    let g1 = record known { stats = dropped (length first.frames) known.stats } in
    (handle toy_cipher [] whole_text (send_legacy post) first.frames known ≡ (ok tt, g1))
    × Passed g1 node then_on.device.seq
        (length then_on.frames)
        (handle toy_cipher [] whole_text (send_legacy post) then_on.frames g1)
handle-power_on_example =
    handle-power_on toy_cipher toy_cipher-IsCipher [] whole_text whole_text-IsFloatText whole_math
      whole_math-IsFloatMath whole_rounding (send_legacy post) untouched node 0 3 flaky flaky known
      good known_3 reached
