-- ===== src/Legacy/Tests.antt =====
-- The legacy hop on concrete inputs.
use sodtware_dev_ops_gp_proj.Base.{
  ◌+◌, ◌*◌, ◌/◌, ◌≡◌, ◌≤◌, ◌<◌, ◌⊎◌, refl, [], Bytes, Text, codes, length, arith,
}
use sodtware_dev_ops_gp_proj.Base.Int.{ℤ, pos, negsuc}
use sodtware_dev_ops_gp_proj.Base.Result.{ok, err, value_error}
use sodtware_dev_ops_gp_proj.Base.Split.{join}
use sodtware_dev_ops_gp_proj.Legacy.Cipher.{aes_block_bytes}
use sodtware_dev_ops_gp_proj.Legacy.Cipher.Sample.{toy_cipher, toy_cipher-IsCipher}
use sodtware_dev_ops_gp_proj.Legacy.Frame.{encrypt_frame}
use sodtware_dev_ops_gp_proj.Legacy.Frame.RoundTrip.{encrypt_frame_size}
use sodtware_dev_ops_gp_proj.Legacy.Number.{
  decimal, read_number, int_text, digit_count, number_text, str_int,
}
use sodtware_dev_ops_gp_proj.Legacy.Number.RoundTrip.{read_number-number_text}
use sodtware_dev_ops_gp_proj.Legacy.Record.{build_reading}
use sodtware_dev_ops_gp_proj.Legacy.Sample.{whole_text}
use sodtware_dev_ops_gp_proj.Cloud.Reading.{Reading}

int_text_quirks :
    (int_text (codes " +1_000 ") ≡ ok (pos 1000))
    × (int_text (codes "-12") ≡ ok (negsuc 11))
    × (int_text (codes "1__0") ≡ err value_error)
    × (int_text (codes "_1") ≡ err value_error)
    × (int_text (codes "+ 1") ≡ err value_error)
    × (int_text [] ≡ err value_error)
unfolding int_text digit_count read_number
int_text_quirks = (refl, refl, refl, refl, refl, refl)

abbrev sample : Reading ℤ
sample = record {
  device_id = codes "dev-001";
  seq = pos 7;
  temp_c = negsuc 2;
  humidity = pos 44;
  uptime_s = pos 12;
}

built : build_reading whole_text sample ≡ ok (codes "DEV|dev-001|7|-3|44|12")
unfolding build_reading str_int digit_count number_text join decimal
built = refl

read_number-str_int_example : read_number (number_text (negsuc 11)) ≡ ok (negsuc 11)
read_number-str_int_example = read_number-number_text (negsuc 11)

abbrev plain : Text
plain = codes "DEV|dev-001|1|21.50|44.20|12"

-- The typical frame of 98 bytes.
encrypt_frame_size_example :
    ((length plain ≤ 95)
      × ((frame : Bytes) × (encrypt_frame toy_cipher [] 3 plain ≡ ok frame)
          × (length frame ≡ 66 + length plain / aes_block_bytes * 32)))
    ⊎ ((95 < length plain) × (encrypt_frame toy_cipher [] 3 plain ≡ err value_error))
encrypt_frame_size_example =
    encrypt_frame_size toy_cipher toy_cipher-IsCipher [] 3 plain (omega arith)
