-- ===== src/Legacy/Record/Width.antt =====
-- How long a record of legacy_device/protocol.py is, and its characters.
use sodtware_dev_ops_gp_proj.Base.{
  ℕ, suc, ◌+◌, ◌<◌, ◌≤◌, ◌≡◌, List, [], ◌∷◌, Text, length, length-append, All, All-append, arith,
}
use sodtware_dev_ops_gp_proj.Base.Split.{join}
use sodtware_dev_ops_gp_proj.Cloud.Reading.{Reading}
use sodtware_dev_ops_gp_proj.Legacy.Number.{number_text}
use sodtware_dev_ops_gp_proj.Legacy.Number.RoundTrip.{number_text-All, is_printable_le}
use sodtware_dev_ops_gp_proj.Legacy.Record.{
  FloatText, field_sep, dev_tag, record_text, build_reading,
}
use sodtware_dev_ops_gp_proj.Base.Result.{ok}
use sodtware_dev_ops_gp_proj.Legacy.Record.RoundTrip.{build_reading-record_text}

-- The parts, and one separator before each but the first.
total : List Text → ℕ
total [] = 0
total (p ∷ ps) = suc (length p) + total ps

length-join :
    (sep : ℕ) (p : Text) (ps : List Text) → suc (length (join sep (p ∷ ps))) ≡ total (p ∷ ps)
unfolding join total
length-join sep p [] = omega arith
length-join sep p (q ∷ ps) =
    omega (arith, length-append p (sep ∷ join sep (q ∷ ps)), length-join sep q ps)

All-join :
    (P : ℕ → Type 0) (sep : ℕ) (ps : List Text) → P sep → All (All P) ps → All P (join sep ps)
unfolding join
All-join P sep [] h a = tt
All-join P sep (p ∷ []) h a = a.0
All-join P sep (p ∷ q ∷ ps) h a =
    All-append P p (sep ∷ join sep (q ∷ ps)) a.0 (h, All-join P sep (q ∷ ps) h a.1)

module _ {F : Type 0} (f : FloatText F) (r : Reading F) where
  pub length-record_text :
      length (record_text f r)
      ≡ 8
        + length r.device_id
        + length (number_text r.seq)
        + length (f.format2 r.temp_c)
        + length (f.format2 r.humidity)
        + length (number_text r.uptime_s)
  unfolding record_text total
  length-record_text = omega (
    arith,
    length-join field_sep dev_tag (
        r.device_id
        ∷ number_text r.seq
        ∷ f.format2 r.temp_c
        ∷ f.format2 r.humidity
        ∷ number_text r.uptime_s
        ∷ []),
  )

  pub record_text-All :
      All (λ x. x < 128) r.device_id
      → All (λ x. x < 128) (f.format2 r.temp_c)
      → All (λ x. x < 128) (f.format2 r.humidity)
      → All (λ x. x < 128) (record_text f r)
  unfolding record_text
  record_text-All name temp humidity =
      let seq = number_text-All (λ x. x < 128) r.seq (omega arith) (λ c (h, k). omega arith) in
      let uptime =
        number_text-All (λ x. x < 128) r.uptime_s (omega arith) (λ c (h, k). omega arith) in
      All-join (λ x. x < 128) field_sep _ (omega arith)
        (omega arith, (name, (seq, (temp, (humidity, (uptime, tt))))))

  -- A record that is not long is built.
  pub build_reading-short :
      length (record_text f r) ≤ 4300 → build_reading f r ≡ ok (record_text f r)
  build_reading-short h =
      build_reading-record_text f r
        (is_printable_le (number_text r.seq) (omega (arith, h, length-record_text)))
        (is_printable_le (number_text r.uptime_s) (omega (arith, h, length-record_text)))
