-- ===== src/Legacy/Record.antt =====
-- `build_reading` and `parse_reading` of legacy_device/protocol.py, on ASCII texts.
pub mod RoundTrip
pub mod Width
use sodtware_dev_ops_gp_proj.Base.{
  ℕ, ◌≡◌, Bool, true, false, List, [], ◌∷◌, Text, All, codes, same, not, if◌then◌else◌,
}
use sodtware_dev_ops_gp_proj.Base.Int.{ℤ}
use sodtware_dev_ops_gp_proj.Base.Result.{Result, ok, err, value_error, ◌>>=◌}
use sodtware_dev_ops_gp_proj.Base.Plain.{IsPlain}
use sodtware_dev_ops_gp_proj.Base.Split.{split_on, join, Lacks}
use sodtware_dev_ops_gp_proj.Legacy.Number.{number_text, str_int, int_text}
use sodtware_dev_ops_gp_proj.Cloud.Reading.{Reading}

abbrev pub field_sep : ℕ
field_sep = b'|'

abbrev pub dev_tag : Text
dev_tag = codes "DEV"

-- What Python makes of a float's text: `f"{x:.2f}"`, and `float(text)` with its `ValueError`.
pub record FloatText (F : Type 0) : Type 0 where
  pub format2 : F → Text
  pub float : Text → Result F

-- A float comes back rounded to two places; the print holds no separator; a text that
-- is no float raises `ValueError`.
pub record IsFloatText {F : Type 0} (f : FloatText F) : Type 0 where
  pub round2 : F → F
  pub float_format2 : (x : F) → f.float (f.format2 x) ≡ ok (round2 x)
  pub float_IsPlain : (t : Text) → IsPlain (f.float t)
  pub format2_Lacks : (x : F) → Lacks field_sep (f.format2 x)

-- The reading that the device's record stands for.
abbrev pub rounded : {F : Type 0} {f : FloatText F} → IsFloatText f → Reading F → Reading F
rounded sound r = record r { temp_c = sound.round2 r.temp_c; humidity = sound.round2 r.humidity }

-- The six fields.
pub record Parts : Type 0 where
  pub tag : Text
  pub device_id : Text
  pub seq : Text
  pub temp_c : Text
  pub humidity : Text
  pub uptime_s : Text

abbrev pub six_parts : List Text → Result Parts
six_parts (a ∷ b ∷ c ∷ d ∷ e ∷ f ∷ []) =
    ok (record { tag = a; device_id = b; seq = c; temp_c = d; humidity = e; uptime_s = f })
six_parts _ = err value_error

abbrev pub is_empty : Text → Bool
is_empty [] = true
is_empty (_ ∷ _) = false

module _ {F : Type 0} (f : FloatText F) where
  -- The record, from the texts of the two whole numbers.
  abbrev pub joined : Reading F → Text → Text → Text
  joined r seq uptime_s =
      join field_sep
        (dev_tag ∷ r.device_id ∷ seq ∷ f.format2 r.temp_c ∷ f.format2 r.humidity ∷ uptime_s ∷ [])

  unfoldable pub build_reading : Reading F → Result Text
  build_reading r = do
    seq ← str_int r.seq
    uptime_s ← str_int r.uptime_s
    ok (joined r seq uptime_s)

  -- The record without the limit on digits.
  unfoldable pub record_text : Reading F → Text
  record_text r = joined r (number_text r.seq) (number_text r.uptime_s)

  -- The dict that it returns is the reading.
  unfoldable pub parse_reading : Text → Result (Reading F)
  parse_reading text = do
    parts ← six_parts (split_on field_sep text)
    _ ← if same parts.tag dev_tag then ok (tt {0}) else err value_error
    _ ← if is_empty parts.device_id then err value_error else ok (tt {0})
    seq ← int_text parts.seq
    temp_c ← f.float parts.temp_c
    humidity ← f.float parts.humidity
    uptime_s ← int_text parts.uptime_s
    ok (record {
      device_id = parts.device_id;
      seq = seq;
      temp_c = temp_c;
      humidity = humidity;
      uptime_s = uptime_s;
    })
