-- ===== src/Joint/Fleet/Tests.antt =====
-- Three connections of two devices.
use sodtware_dev_ops_gp_proj.Joint.Sample.{
  config, dumps, parse_fields, start, paired, name, other, other-IsSendable, other_within,
  first-IsSendable, second-IsSendable, first_within, second_within, line, line-Told,
}
use sodtware_dev_ops_gp_proj.Joint.Fleet.{
  Fleet, closed, connection, all_told, total, serve_all-all_told,
}
use sodtware_dev_ops_gp_proj.Base.Codes
use sodtware_dev_ops_gp_proj.Joint.Arrival.{told}
use sodtware_dev_ops_gp_proj.Gateway.Setup.{new_gateway, serve_all}
use sodtware_dev_ops_gp_proj.Gateway.Handler.Mlkem.{handle_mlkem}
use sodtware_dev_ops_gp_proj.Cloud.Readings.{last_items}
use sodtware_dev_ops_gp_proj.Channel.Crypto.Sample.{toy, toy-IsSound}
use sodtware_dev_ops_gp_proj.Base.{
  ◌≡◌, refl, none, List, [], ◌∷◌, ◌++◌, map, Bytes, codes, arith, All,
}
use sodtware_dev_ops_gp_proj.Base.Int.{ℤ}
use sodtware_dev_ops_gp_proj.Cloud.Sample.{whole, reading_of, small}
use sodtware_dev_ops_gp_proj.Cloud.State.{Stored, mlkem, max_stored_readings}
use sodtware_dev_ops_gp_proj.Device.Stream.{over, next}
use sodtware_dev_ops_gp_proj.Base.Result.{err, value_error}
use sodtware_dev_ops_gp_proj.Joint.Link.{link}
use sodtware_dev_ops_gp_proj.Legacy.Cipher.Sample.{toy_cipher}
use sodtware_dev_ops_gp_proj.Legacy.Sample.{whole_text}

abbrev lines : List (List Bytes)
lines =
    (line name 3 first-IsSendable ∷ [])
    ∷ (line other 1 other-IsSendable ∷ [])
    ∷ (line name 9 second-IsSendable ∷ [])
    ∷ []

-- The second device comes between the two connections of the first.
abbrev fleet : Fleet toy_cipher [] whole_text whole (λ x. 0) lines
unfolding Codes.same
fleet =
    connection {n = 3} name
      (next (omega arith) (line-Told name 3 first-IsSendable first_within) (over (omega arith)))
      (connection {n = 1} other
        (next (omega arith) (line-Told other 1 other-IsSendable other_within) (over (omega arith)))
        (connection {n = 9} name
          (next (omega arith) (line-Told name 9 second-IsSendable second_within)
            (over (omega arith)))
          closed))

serve_all-all_told_example :
    let h =
      serve_all
        (handle_mlkem toy_cipher [] whole_text toy
          (link toy whole parse_fields config (λ t. err value_error) 2_000_000)
          (codes "token")
          dumps)
        lines
        (new_gateway none start.world) in
    (stored : List (Stored ℤ)) × (h.world.cloud.readings
      ≡ last_items max_stored_readings (small.readings ++ stored))
    × (map (λ a. a.reading) stored
        ≡ reading_of name 3 ∷ reading_of other 1 ∷ reading_of name 9 ∷ [])
    × All (λ a. a.channel ≡ mlkem) stored
    × (h.stats.forwarded_ok ≡ 3)
    × (h.stats.forward_failed ≡ 0)
unfolding told all_told total line-Told Codes.same
serve_all-all_told_example =
    serve_all-all_told toy_cipher [] whole_text toy toy-IsSound whole parse_fields dumps config
      (λ t. err value_error) 2_000_000 (codes "token") (omega arith) paired none start.world fleet
      (
        (record { bytes = omega arith; short = omega arith; parsed = refl }, tt),
        (
          (record { bytes = omega arith; short = omega arith; parsed = refl }, tt),
          ((record { bytes = omega arith; short = omega arith; parsed = refl }, tt), tt),
        ),
      )
      tt (omega arith)
