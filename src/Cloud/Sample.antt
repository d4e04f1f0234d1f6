-- ===== src/Cloud/Sample.antt =====
-- A small service to try things on: whole numbers for floats, and a decoder that takes the whole
-- body for the device's name.
use sodtware_dev_ops_gp_proj.Base.{ℕ, ◌*◌, Option, none, some, [], ◌∷◌, Bytes, Text, codes}
use sodtware_dev_ops_gp_proj.Base.Int.{ℤ, pos, leb_ℤ}
use sodtware_dev_ops_gp_proj.Cloud.Reading.{Reading, FloatOrder}
use sodtware_dev_ops_gp_proj.Cloud.State.{Cloud, Stored, legacy, second}
use sodtware_dev_ops_gp_proj.Cloud.Messages.{SealedReading}

abbrev pub whole : FloatOrder ℤ
whole = record { le = leb_ℤ; of_ℤ = λ z. z }

abbrev pub reading_of : Text → ℕ → Reading ℤ
reading_of name seq = record {
  device_id = name;
  seq = pos seq;
  temp_c = pos 21;
  humidity = pos 44;
  uptime_s = pos 12;
}

abbrev pub decode_name : Bytes → Option (Reading ℤ)
decode_name [] = none
decode_name (b ∷ bs) = some (reading_of (b ∷ bs) 5)

abbrev pub stored_of : Text → ℕ → ℕ → Stored ℤ
stored_of name seq at = record { reading = reading_of name seq; received_at = at; channel = legacy }

abbrev pub sid : Text
sid = codes "0123456789abcdef0123456789abcdef"

-- One reading and one open session.
abbrev pub small : Cloud ℤ
small = record {
  readings = stored_of (codes "dev-001") 1 10 ∷ [];
  heap =
      record {
        aead_key = codes "0123456789abcdef0123456789abcdef";
        expires_at = 3600 * second;
        seen_counters = [];
      }
      ∷ [];
  sessions = (sid, 0) ∷ [];
}

abbrev pub empty : Cloud ℤ
empty = record { readings = []; heap = []; sessions = [] }

-- A message with counter 0 for that session, as the toy cryptography seals it.
abbrev pub message : SealedReading
message = record {
  session_id = sid;
  nonce = codes "AAAAAAAAAAAAAAAA";
  ciphertext = codes "ZGV2LTAwMgAAAAAAAAAAAAAAAAAAAAA=";
}
