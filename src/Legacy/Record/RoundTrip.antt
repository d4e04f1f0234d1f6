-- ===== src/Legacy/Record/RoundTrip.antt =====
-- Records of legacy_device/protocol.py, built and read back.
use sodtware_dev_ops_gp_proj.Base.{
  Bool-cases, inl, inr, sym, ◌∙◌, true, ◌≡◌, ◌≢◌, refl, false, [], ◌∷◌, Text, arith, same,
}
use sodtware_dev_ops_gp_proj.Base.Int.{ℤ}
use sodtware_dev_ops_gp_proj.Base.Codes
use sodtware_dev_ops_gp_proj.Base.Result.{ok, err, value_error}
use sodtware_dev_ops_gp_proj.Base.Split.{Lacks, split_on-join}
use sodtware_dev_ops_gp_proj.Legacy.Number.{number_text, str_int, int_text, is_printable}
use sodtware_dev_ops_gp_proj.Legacy.Number.RoundTrip.{read_number-number_text, number_text-All}
use sodtware_dev_ops_gp_proj.Legacy.Record.{
  FloatText, IsFloatText, field_sep, dev_tag, record_text, build_reading, parse_reading, is_empty,
  rounded,
}
use sodtware_dev_ops_gp_proj.Cloud.Reading.{Reading}

number_text-Lacks : (z : ℤ) → Lacks field_sep (number_text z)
number_text-Lacks z = number_text-All (λ x. x ≢ field_sep) z (omega arith) (λ c (h, k). omega arith)

is_empty_ne : (t : Text) → t ≢ [] → is_empty t ≡ false
is_empty_ne [] h = absurd (h refl)
is_empty_ne (c ∷ t) h = refl

-- The whole record is read back, if the limit on digits allows it.
parse_reading-record_text :
    {F : Type 0} (f : FloatText F) (sound : IsFloatText f) (r : Reading F)
    → r.device_id ≢ []
    → Lacks field_sep r.device_id
    → is_printable (number_text r.seq) ≡ true
    → is_printable (number_text r.uptime_s) ≡ true
    → parse_reading f (record_text f r) ≡ ok (rounded sound r)
unfolding parse_reading record_text int_text Codes.same
parse_reading-record_text f sound r named plain seq uptime =
    let parts =
      split_on-join field_sep dev_tag
        (r.device_id
          ∷ number_text r.seq
          ∷ f.format2 r.temp_c
          ∷ f.format2 r.humidity
          ∷ number_text r.uptime_s
          ∷ [])
        (
          (omega arith),
          (
            plain,
            (
              number_text-Lacks r.seq,
              (
                sound.format2_Lacks r.temp_c,
                (sound.format2_Lacks r.humidity, (number_text-Lacks r.uptime_s, tt)),
              ),
            ),
          ),
        ) in
    rw
      (
        parts,
        is_empty_ne r.device_id named,
        seq,
        uptime,
        read_number-number_text r.seq,
        read_number-number_text r.uptime_s,
        sound.float_format2 r.temp_c,
        sound.float_format2 r.humidity,
      )
      refl

pub build_reading-record_text :
    {F : Type 0} (f : FloatText F) (r : Reading F)
    → is_printable (number_text r.seq) ≡ true
    → is_printable (number_text r.uptime_s) ≡ true
    → build_reading f r ≡ ok (record_text f r)
unfolding build_reading record_text str_int
build_reading-record_text f r seq uptime = rw (seq, uptime) refl

-- What a record that was built says of the texts of its numbers, and how it is read.
pub build_reading_back :
    {F : Type 0} (f : FloatText F) (sound : IsFloatText f) (r : Reading F) (text : Text)
    → r.device_id ≢ []
    → Lacks field_sep r.device_id
    → build_reading f r ≡ ok text
    → parse_reading f text ≡ ok (rounded sound r)
unfolding build_reading str_int
build_reading_back f sound r text named plain e =
    elim (Bool-cases (is_printable (number_text r.seq))) [
      | inr many ↦ let z : err value_error ≡ ok text = rw many at e in absurd (cc z)
      | inl seq ↦ elim (Bool-cases (is_printable (number_text r.uptime_s))) [
        | inr many ↦ let z : err value_error ≡ ok text = rw (seq, many) at e in absurd (cc z)
        | inl uptime ↦
            let made : ok (record_text f r) ≡ ok text =
              sym (build_reading-record_text f r seq uptime) ∙ unfold build_reading str_int in e in
            let same_text : text ≡ record_text f r = cc made in
            rw same_text (parse_reading-record_text f sound r named plain seq uptime)
      ]
    ]
