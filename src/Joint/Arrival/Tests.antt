-- ===== src/Joint/Arrival/Tests.antt =====
-- Two frames of a device, through the gateway into the cloud, and at one with the wrong pin.
use sodtware_dev_ops_gp_proj.Joint.Sample.{
  config, dumps, parse_fields, start, paired, name, first-IsSendable, second-IsSendable,
  first_within, second_within, line, line-Told,
}
use sodtware_dev_ops_gp_proj.Joint.Stream.{UpTo}
use sodtware_dev_ops_gp_proj.Joint.Steady.{Ready}
use sodtware_dev_ops_gp_proj.Joint.Answering.{Trusts}
use sodtware_dev_ops_gp_proj.Gateway.Handler.Mlkem.{handle_mlkem}
use sodtware_dev_ops_gp_proj.Cloud.Readings.{last_items}
use sodtware_dev_ops_gp_proj.Channel.Crypto.Sample.{toy, toy-IsSound, length-sha256}
use sodtware_dev_ops_gp_proj.Base.{
  ap, sym, ◌∙◌, ◌≢◌, ◌+◌, ◌≡◌, refl, inl, none, some, List, [], ◌∷◌, ◌++◌, map, Bytes, codes, arith,
  length, All,
}
use sodtware_dev_ops_gp_proj.Base.Int.{ℤ}
use sodtware_dev_ops_gp_proj.Channel.Keys.{fingerprint}
use sodtware_dev_ops_gp_proj.Cloud.Sample.{whole, reading_of, small}
use sodtware_dev_ops_gp_proj.Cloud.State.{Stored, mlkem, max_stored_readings}
use sodtware_dev_ops_gp_proj.Device.Stream.{Stream, over, next}
use sodtware_dev_ops_gp_proj.Gateway.State.{Gateway}
use sodtware_dev_ops_gp_proj.Channel.Keys.Laws.{length-fingerprint}
use sodtware_dev_ops_gp_proj.Base.Dict.{get}
use sodtware_dev_ops_gp_proj.Gateway.Uplink.{is_spent}
use sodtware_dev_ops_gp_proj.Base.Result.{ok, err, value_error}
use sodtware_dev_ops_gp_proj.Joint.Arrival.{told, handle_mlkem-told}
use sodtware_dev_ops_gp_proj.Joint.Refusal.{pqc_public_key-Offers}
use sodtware_dev_ops_gp_proj.Gateway.Handler.Refused.{handle_mlkem-Shut}
use sodtware_dev_ops_gp_proj.Joint.Link.{World, link}
use sodtware_dev_ops_gp_proj.Legacy.Cipher.Sample.{toy_cipher}
use sodtware_dev_ops_gp_proj.Legacy.Sample.{whole_text}

abbrev lines : List Bytes
lines = line name 3 first-IsSendable ∷ line name 9 second-IsSendable ∷ []

abbrev stream : Stream toy_cipher [] whole_text whole name 0 lines 9
stream =
    next (omega arith) (line-Told name 3 first-IsSendable first_within)
      (next (omega arith) (line-Told name 9 second-IsSendable second_within) (over (omega arith)))

handle_mlkem-told_example :
    (after : Gateway (World ℤ)) × (stored : List (Stored ℤ)) × (handle_mlkem toy_cipher []
        whole_text toy
        (link toy whole parse_fields config (λ t. err value_error) 2_000_000)
        (codes "token")
        dumps
        lines
        start
      ≡ (ok tt, after))
    × (after.world.cloud.readings
        ≡ last_items max_stored_readings (start.world.cloud.readings ++ stored))
    × (map (λ a. a.reading) stored ≡ reading_of name 3 ∷ reading_of name 9 ∷ [])
    × All (λ a. a.channel ≡ mlkem) stored
    × (after.stats.forwarded_ok ≡ start.stats.forwarded_ok + length lines)
    × (after.stats.forward_failed ≡ start.stats.forward_failed)
    × (after.stats.frames_rejected ≡ start.stats.frames_rejected)
    × (after.stats.replays_dropped ≡ start.stats.replays_dropped)
    × UpTo name 9 after.seen
    × Ready after
    × Trusts toy config after
unfolding told line-Told get is_spent
handle_mlkem-told_example =
    handle_mlkem-told toy_cipher [] whole_text toy toy-IsSound whole parse_fields dumps config
      (λ t. err value_error) 2_000_000 (codes "token") (omega arith) paired name start stream
      (
        record { bytes = omega arith; short = omega arith; parsed = refl },
        (record { bytes = omega arith; short = omega arith; parsed = refl }, tt),
      )
      (λ q e. absurd (cc e)) (inl refl) (inl refl) (omega arith)

-- The pin was mistyped.
abbrev mispinned : Gateway (World ℤ)
mispinned = record start {
  uplink = record { pinned = some (codes "00"); session = none; made = 0 };
}

mistyped : fingerprint toy config.kem_public_key ≢ codes "00"
mistyped e = absurd (
    omega (
      arith,
      ap length e,
      length-fingerprint toy config.kem_public_key,
      length-sha256 config.kem_public_key,
    ))

handle_mlkem-Shut_example :
    let after =
      (handle_mlkem toy_cipher [] whole_text toy
        (link toy whole parse_fields config (λ t. err value_error) 2_000_000)
        (codes "token")
        dumps
        lines
        mispinned).1 in
    (after.world.cloud ≡ small)
    × (after.session ≡ none)
    × (after.pinned ≡ some (codes "00"))
    × (after.stats.forwarded_ok ≡ 0)
handle_mlkem-Shut_example =
    handle_mlkem-Shut toy_cipher [] whole_text toy
      (link toy whole parse_fields config (λ t. err value_error) 2_000_000) (codes "token") dumps
      (codes "00") (λ w. w.cloud ≡ small) lines mispinned (λ w e. e)
      (λ w pk e offer same. mistyped (
        ap (fingerprint toy)
          (sym (pqc_public_key-Offers toy toy-IsSound config (codes "token") pk paired offer))
        ∙ same))
      refl refl refl
