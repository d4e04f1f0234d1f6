-- ===== src/Joint/Sample.antt =====
-- A gateway that has just started beside a cloud, and frames of two devices.
use sodtware_dev_ops_gp_proj.Joint.Answering.{Paired}
use sodtware_dev_ops_gp_proj.Channel.Crypto.Sample.{toy}
use sodtware_dev_ops_gp_proj.Base.{
  ℕ, ◌≡◌, refl, true, false, Option, none, some, [], ◌∷◌, Bytes, Text, codes, arith,
}
use sodtware_dev_ops_gp_proj.Base.Int.{ℤ, pos_part}
use sodtware_dev_ops_gp_proj.Base.Utf8.{encode}
use sodtware_dev_ops_gp_proj.Base.Split.{join}
use sodtware_dev_ops_gp_proj.Channel.Keys.{generate_keypair}
use sodtware_dev_ops_gp_proj.Cloud.Reading.{Reading, fits}
use sodtware_dev_ops_gp_proj.Cloud.Sample.{whole, reading_of, small}
use sodtware_dev_ops_gp_proj.Cloud.State.{Config}
use sodtware_dev_ops_gp_proj.Device.Stream.{Told}
use sodtware_dev_ops_gp_proj.Gateway.State.{Gateway}
use sodtware_dev_ops_gp_proj.Gateway.Stats.{no_stats}
use sodtware_dev_ops_gp_proj.Joint.Journey.{IsSendable, framed}
use sodtware_dev_ops_gp_proj.Joint.Link.{World}
use sodtware_dev_ops_gp_proj.Legacy.Cipher.Sample.{toy_cipher, toy_cipher-IsCipher}
use sodtware_dev_ops_gp_proj.Legacy.Frame.RoundTrip.{encrypt_frame_back}
use sodtware_dev_ops_gp_proj.Legacy.Number.{number_text, decimal}
use sodtware_dev_ops_gp_proj.Legacy.Record.{record_text, build_reading}
use sodtware_dev_ops_gp_proj.Base.Result.{chain_returned}
use sodtware_dev_ops_gp_proj.Legacy.Sample.{whole_text, whole_text-IsFloatText}

abbrev pub config : Config
config = record {
  expected_token = codes "token";
  legacy_ingest_enabled = false;
  kem_public_key = (generate_keypair toy 5).0;
  kem_private_key = (generate_keypair toy 5).1;
}

-- The number, and then the name.
abbrev pub dumps : Reading ℤ → Bytes
dumps r = pos_part r.seq ∷ r.device_id

abbrev pub parse_fields : Bytes → Option (Reading ℤ)
parse_fields [] = none
parse_fields (n ∷ name) = some (reading_of name n)

-- The cloud holds a reading of another device already.
abbrev pub start : Gateway (World ℤ)
start = record {
  stats = no_stats;
  seen = [];
  uplink = record { pinned = none; session = none; made = 0 };
  world = record { cloud = small; clock = 100; draws = 1 };
}

pub paired : Paired toy config (codes "token")
unfolding encode
paired = record {
  seed = 5;
  public_key = refl;
  private_key = refl;
  same_token = refl;
  key = codes "token";
  encodes = refl;
}

abbrev pub name : Text
name = codes "dev-002"

pub first-IsSendable : IsSendable whole_text (reading_of name 3)
unfolding record_text number_text join decimal
first-IsSendable = record {
  named = λ e. cc e;
  plain = omega arith;
  ascii = omega arith;
  short = omega arith;
}

pub second-IsSendable : IsSendable whole_text (reading_of name 9)
unfolding record_text number_text join decimal
second-IsSendable = record {
  named = λ e. cc e;
  plain = omega arith;
  ascii = omega arith;
  short = omega arith;
}

abbrev pub other : Text
other = codes "dev-003"

pub other-IsSendable : IsSendable whole_text (reading_of other 1)
unfolding record_text number_text join decimal
other-IsSendable = record {
  named = λ e. cc e;
  plain = omega arith;
  ascii = omega arith;
  short = omega arith;
}

pub other_within : fits whole (reading_of other 1) ≡ true
unfolding fits
other_within = refl

pub first_within : fits whole (reading_of name 3) ≡ true
unfolding fits
first_within = refl

pub second_within : fits whole (reading_of name 9) ≡ true
unfolding fits
second_within = refl

abbrev pub line : (name : Text) (n : ℕ) → IsSendable whole_text (reading_of name n) → Bytes
line name n s =
    (framed toy_cipher toy_cipher-IsCipher [] whole_text whole_text-IsFloatText 7
      (reading_of name n) s).frame

unfoldable pub line-Told :
    (name : Text) (n : ℕ) (s : IsSendable whole_text (reading_of name n))
    → fits whole (reading_of name n) ≡ true
    → Told toy_cipher [] whole_text whole name n (line name n s)
unfolding whole_text-IsFloatText
line-Told name n s within =
    let fr =
      framed toy_cipher toy_cipher-IsCipher [] whole_text whole_text-IsFloatText 7
        (reading_of name n) s in
    let (text, _, made) = chain_returned (build_reading whole_text (reading_of name n)) _ fr.made in
    record {
      reading = reading_of name n;
      decoded = fr.read;
      named = refl;
      numbered = refl;
      within = within;
      small = (encrypt_frame_back toy_cipher toy_cipher-IsCipher [] 7 text fr.frame made).2;
    }
