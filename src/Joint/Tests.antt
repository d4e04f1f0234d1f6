-- ===== src/Joint/Tests.antt =====
-- The gateway and the cloud together on concrete inputs.
use sodtware_dev_ops_gp_proj.Base.{
  ◌+◌, ◌*◌, ◌<◌, ◌≡◌, refl, inl, true, false, none, some, [], ◌∷◌, Bytes, Text, codes, arith,
  length, All,
}
use sodtware_dev_ops_gp_proj.Base.Int.{ℤ, pos}
use sodtware_dev_ops_gp_proj.Base.Utf8.{encode}
use sodtware_dev_ops_gp_proj.Base.Result.{◌>>=◌, ok, err, value_error}
use sodtware_dev_ops_gp_proj.Channel.Crypto.Sample.{toy, toy-IsSound}
use sodtware_dev_ops_gp_proj.Channel.Keys.{generate_keypair}
use sodtware_dev_ops_gp_proj.Cloud.Reading.{Reading, fits}
use sodtware_dev_ops_gp_proj.Base.Split.{join}
use sodtware_dev_ops_gp_proj.Base.Dict.{get}
use sodtware_dev_ops_gp_proj.Legacy.Number.{number_text, decimal}
use sodtware_dev_ops_gp_proj.Legacy.Record.{record_text, build_reading, rounded}
use sodtware_dev_ops_gp_proj.Legacy.Frame.{encrypt_frame}
use sodtware_dev_ops_gp_proj.Legacy.Sample.{whole_text, whole_text-IsFloatText}
use sodtware_dev_ops_gp_proj.Legacy.Cipher.Sample.{toy_cipher, toy_cipher-IsCipher}
use sodtware_dev_ops_gp_proj.Gateway.Handler.Mlkem.{handle_mlkem}
use sodtware_dev_ops_gp_proj.Joint.Journey.{IsSendable, handle_delivers}
use sodtware_dev_ops_gp_proj.Cloud.State.{
  Config, mlkem, max_stored_readings, second, session_ttl_s, session_max_messages,
}
use sodtware_dev_ops_gp_proj.Cloud.Readings.{append_bounded}
use sodtware_dev_ops_gp_proj.Cloud.Sessions.{open_session}
use sodtware_dev_ops_gp_proj.Cloud.Sample.{whole, reading_of, decode_name, empty, sid}
use sodtware_dev_ops_gp_proj.Gateway.Stats.{no_stats, bump, shaken, received, forwarded}
use sodtware_dev_ops_gp_proj.Gateway.State.{PqcSession, Gateway, Net}
use sodtware_dev_ops_gp_proj.Gateway.Handshake.{handshake}
use sodtware_dev_ops_gp_proj.Gateway.Uplink.{is_spent, next_message, issue, send}
use sodtware_dev_ops_gp_proj.Gateway.Uplink.First.{next_message_first}
use sodtware_dev_ops_gp_proj.Gateway.Uplink.Nonces.{
  AllDifferent, begins, issues, Schedule-AllDifferent,
}
use sodtware_dev_ops_gp_proj.Base.Result.{attribute_error}
use sodtware_dev_ops_gp_proj.Gateway.Answers.{is_caught}
use sodtware_dev_ops_gp_proj.Gateway.Handler.{is_uplink_failure}
use sodtware_dev_ops_gp_proj.Joint.Escape.{number_id, handshake_escapes}
use sodtware_dev_ops_gp_proj.Joint.Link.{link_edited, World, link}
use sodtware_dev_ops_gp_proj.Joint.Answering.{Paired, Trusts}
use sodtware_dev_ops_gp_proj.Joint.Agreement.{handshake_agrees}
use sodtware_dev_ops_gp_proj.Joint.Recovery.{IsStale, send_recovers}

abbrev token : Text
token = codes "token"

abbrev config : Config
config = record {
  expected_token = token;
  legacy_ingest_enabled = false;
  kem_public_key = (generate_keypair toy 5).0;
  kem_private_key = (generate_keypair toy 5).1;
}

-- A request takes two milliseconds.
abbrev net : Net (World ℤ)
net = link toy whole decode_name config (λ t. err value_error) 2_000_000

abbrev start : Gateway (World ℤ)
start = record {
  stats = no_stats;
  seen = [];
  uplink = record { pinned = none; session = none; made = 0 };
  world = record { cloud = empty; clock = 100; draws = 1 };
}

paired : Paired toy config token
unfolding encode
paired = record {
  seed = 5;
  public_key = refl;
  private_key = refl;
  same_token = refl;
  key = token;
  encodes = refl;
}

handshake_agrees_example :
    (s : PqcSession) × (after : Gateway (World ℤ)) × (handshake toy net token start ≡ (ok s, after))
    × (after.world.cloud
        ≡ open_session s.session_id s.aead_key (start.world.clock + 2_000_000) start.world.cloud)
    × (after.world.clock ≡ start.world.clock + 2_000_000 + 2_000_000)
    × (s.next_counter ≡ 0)
    × (s.max_messages ≡ pos session_max_messages)
    × (s.expires_at + 60 * second
        ≡ start.world.clock + 2_000_000 + 2_000_000 + session_ttl_s * second)
    × (after.stats ≡ bump shaken start.stats)
    × All (λ x. x < 128) s.session_id
    × (length s.session_id ≡ 32)
    × (length s.aead_key ≡ 32)
    × Trusts toy config after
handshake_agrees_example =
    handshake_agrees toy toy-IsSound whole decode_name config (λ t. err value_error) 2_000_000 token
      (omega arith) start paired (inl refl)

reading_within : fits whole (reading_of (codes "dev-002") 5) ≡ true
unfolding fits
reading_within = refl

-- The first message of that gateway takes counter 0.
abbrev new_session : PqcSession
new_session =
    (handshake_agrees toy toy-IsSound whole decode_name config (λ t. err value_error) 2_000_000
      token (omega arith) start paired (inl refl)).0

abbrev issued : Gateway (World ℤ)
issued =
    (issue new_session
      (handshake_agrees toy toy-IsSound whole decode_name config (λ t. err value_error) 2_000_000
        token (omega arith) start paired (inl refl)).1).1

first_issued :
    next_message toy net token start ≡ (ok (new_session, new_session.next_counter), issued)
unfolding issue
first_issued =
    next_message_first toy net token start _ new_session refl
      (handshake_agrees toy toy-IsSound whole decode_name config (λ t. err value_error) 2_000_000
        token (omega arith) start paired (inl refl)).2

Schedule-AllDifferent_example : AllDifferent ((new_session.serial, new_session.next_counter) ∷ [])
Schedule-AllDifferent_example =
    Schedule-AllDifferent toy net token start issued _ refl
      (issues new_session new_session.next_counter begins first_issued)

-- The same reading from the device on.
abbrev measured : Reading ℤ
measured = reading_of (codes "dev-002") 5

measured-IsSendable : IsSendable whole_text measured
unfolding record_text number_text join decimal
measured-IsSendable = record {
  named = λ e. cc e;
  plain = omega arith;
  ascii = omega arith;
  short = omega arith;
}

measured_within : fits whole (rounded whole_text-IsFloatText measured) ≡ true
unfolding fits whole_text-IsFloatText
measured_within = refl

handle_delivers_example :
    (frame : Bytes) × (after : Gateway (World ℤ)) × ((build_reading whole_text measured
        >>= encrypt_frame toy_cipher [] 3)
      ≡ ok frame)
    × (handle_mlkem toy_cipher [] whole_text toy net token (λ r. r.device_id) (frame ∷ []) start
        ≡ (ok tt, after))
    × (after.world.cloud.readings
        ≡ append_bounded max_stored_readings start.world.cloud.readings (record {
          reading = rounded whole_text-IsFloatText measured;
          received_at = start.world.clock + 2_000_000 + 2_000_000;
          channel = mlkem;
        }))
    × (after.stats ≡ bump forwarded (bump shaken (bump received start.stats)))
unfolding whole_text-IsFloatText
handle_delivers_example =
    handle_delivers toy_cipher toy_cipher-IsCipher [] whole_text whole_text-IsFloatText toy
      toy-IsSound whole decode_name (λ r. r.device_id) config (λ t. err value_error) 2_000_000 token
      (omega arith) start 3 measured measured-IsSendable (unfold get in refl) paired (inl refl) refl
      (omega arith) (omega arith) refl measured_within

handshake_escapes_example :
    (after : Gateway (World ℤ)) × (handshake toy
        (link_edited toy whole decode_name config (λ t. err value_error) 2_000_000 number_id)
        token
        start
      ≡ (err attribute_error, after))
    × (after.stats ≡ start.stats)
    × (is_caught attribute_error ≡ false)
    × (is_uplink_failure attribute_error ≡ false)
handshake_escapes_example =
    handshake_escapes toy toy-IsSound whole decode_name config (λ t. err value_error) 2_000_000
      token (omega arith) start paired (inl refl)

-- The cloud was started again, and the gateway still holds a session of before.
abbrev wide_key : Bytes
wide_key = codes "0123456789abcdef0123456789abcdef"

abbrev old_session : PqcSession
old_session = record {
  serial = 0;
  session_id = sid;
  aead_key = wide_key;
  expires_at = 3600 * second;
  max_messages = pos 10_000;
  next_counter = 7;
}

abbrev left_behind : Gateway (World ℤ)
left_behind = record start {
  uplink = record { pinned = none; session = some old_session; made = 1 };
}

left_behind-IsStale : IsStale left_behind old_session
unfolding is_spent get
left_behind-IsStale = record {
  current = refl;
  unspent = refl;
  unknown = refl;
  ascii = omega arith;
  size = refl;
  wide = refl;
  counter = omega arith;
}

send_recovers_example :
    (after : Gateway (World ℤ)) × (send toy net token (codes "dev-002") left_behind
      ≡ (ok tt, after))
    × (after.world.cloud.readings
        ≡ append_bounded max_stored_readings left_behind.world.cloud.readings (record {
          reading = reading_of (codes "dev-002") 5;
          received_at = left_behind.world.clock + 2_000_000 + 2_000_000 + 2_000_000;
          channel = mlkem;
        }))
    × (after.stats ≡ bump shaken left_behind.stats)
send_recovers_example =
    send_recovers toy toy-IsSound whole decode_name config (λ t. err value_error) 2_000_000 token
      (omega arith) left_behind old_session (codes "dev-002") (reading_of (codes "dev-002") 5)
      left_behind-IsStale paired (inl refl) (omega arith) (omega arith) refl reading_within
