-- ===== src/Tools/Tests.antt =====
-- The measurements on concrete inputs.
use sodtware_dev_ops_gp_proj.Base.{
  ℕ, ◌+◌, ◌*◌, ◌≤◌, ◌<◌, ◌≡◌, refl, some, [], ◌∷◌, Bytes, Text, codes, arith, false,
}
use sodtware_dev_ops_gp_proj.Base.Int.{ℤ, pos}
use sodtware_dev_ops_gp_proj.Base.Codes
use sodtware_dev_ops_gp_proj.Base.Split.{split_on, join}
use sodtware_dev_ops_gp_proj.Base.Hex.{hex}
use sodtware_dev_ops_gp_proj.Legacy.Number.{
  read_number, int_text, str_int, digit_count, number_text, decimal,
}
use sodtware_dev_ops_gp_proj.Legacy.Frame.{ascii, encrypt_frame}
use sodtware_dev_ops_gp_proj.Base.Result.{ok, err, value_error}
use sodtware_dev_ops_gp_proj.Channel.Crypto.Sample.{toy, toy-IsSound}
use sodtware_dev_ops_gp_proj.Channel.Keys.{generate_keypair}
use sodtware_dev_ops_gp_proj.Cloud.Reading.{Reading}
use sodtware_dev_ops_gp_proj.Cloud.Sample.{whole}
use sodtware_dev_ops_gp_proj.Cloud.State.{Config}
use sodtware_dev_ops_gp_proj.Legacy.Cipher.Sample.{toy_cipher}
use sodtware_dev_ops_gp_proj.Legacy.Record.{parse_reading, build_reading}
use sodtware_dev_ops_gp_proj.Legacy.Sample.{whole_text}
use sodtware_dev_ops_gp_proj.Tools.Latency.{measure_end_to_end}
use sodtware_dev_ops_gp_proj.Tools.Latency.Ends.{Reported, measure_end_to_end-Reported}
use sodtware_dev_ops_gp_proj.Tools.Throughput.{measure_ingest_throughput}
use sodtware_dev_ops_gp_proj.Tools.Throughput.Ends.{Measured, measure_ingest_throughput-Measured}
use sodtware_dev_ops_gp_proj.Tools.Sample.{
  quick, quick-IsOrderly, quick_few, plain, plain_ℤ, same_text,
}
use sodtware_dev_ops_gp_proj.Tools.Sizes.{
  MlkemSizes, measure_mlkem, projected_handshake_bytes, fits_device_buffer, measure_frame_sizes,
}
use sodtware_dev_ops_gp_proj.Tools.Sizes.Mlkem.{measure_mlkem_lem}
use sodtware_dev_ops_gp_proj.Tools.Summary.{summarise_latencies, summarise_calls, sort}
use sodtware_dev_ops_gp_proj.Tools.Summary.Sorting.{below, up_to, summarise_latencies_lem}

sorted : sort (3 ∷ 1 ∷ 2 ∷ []) ≡ 1 ∷ 2 ∷ 3 ∷ []
unfolding sort
sorted = refl

no_calls : summarise_calls plain (λ x. x) 0 [] ≡ err value_error
unfolding summarise_calls
no_calls = refl

reference_sizes :
    measure_frame_sizes same_text (pos 21) (pos 44) toy_cipher [] 3
    ≡ ok (record {
      plaintext_bytes = 28;
      frame_bytes = 98;
      overhead_bytes = 70;
      headroom_bytes = 158;
    })
unfolding measure_frame_sizes encrypt_frame ascii build_reading str_int digit_count join number_text
    decimal hex toy_cipher
reference_sizes = refl

key_too_large : fits_device_buffer ≡ false
key_too_large = refl

summarise_latencies_lem_example :
    (low p95 high mean median : ℕ) × (summarise_latencies plain (30 ∷ 10 ∷ 20 ∷ [])
      ≡ ok (
          some (record {
            samples = 3;
            mean_ms = mean;
            median_ms = median;
            p95_ms = p95;
            min_ms = low;
            max_ms = high;
          })))
    × (below low (30 ∷ 10 ∷ 20 ∷ []) ≡ 0)
    × (1 ≤ up_to low (30 ∷ 10 ∷ 20 ∷ []))
    × (100 * below p95 (30 ∷ 10 ∷ 20 ∷ []) ≤ 95 * 3)
    × (95 * 3 < 100 * up_to p95 (30 ∷ 10 ∷ 20 ∷ []))
    × (below high (30 ∷ 10 ∷ 20 ∷ []) < 3)
    × (3 ≤ up_to high (30 ∷ 10 ∷ 20 ∷ []))
summarise_latencies_lem_example = summarise_latencies_lem plain 30 (10 ∷ 20 ∷ [])

-- A look every half second.
measure_end_to_end-Reported_example :
    Reported quick quick-IsOrderly toy_cipher [] whole_text whole plain_ℤ 2
      (measure_end_to_end quick toy_cipher [] whole_text whole plain_ℤ 21
        (codes "baseline-1")
        2
        500_000_000
        0).0
measure_end_to_end-Reported_example =
    measure_end_to_end-Reported quick quick-IsOrderly toy_cipher [] whole_text whole plain_ℤ 20
      (codes "baseline-1") 2 500_000_000 0 (omega arith)

measure_ingest_throughput-Measured_example :
    Measured quick quick-IsOrderly 1000 quick_few toy_cipher [] whole_text whole 3 7
      (measure_ingest_throughput quick toy_cipher [] whole_text whole 301
        (codes "throughput-1")
        3
        0).0
measure_ingest_throughput-Measured_example =
    measure_ingest_throughput-Measured quick quick-IsOrderly 1000 quick_few toy_cipher [] whole_text
      whole (codes "throughput-1") 3 7 0 refl

abbrev config : Config
config = record {
  expected_token = codes "token";
  legacy_ingest_enabled = false;
  kem_public_key = (generate_keypair toy 5).0;
  kem_private_key = (generate_keypair toy 5).1;
}

abbrev reference : Text
reference = codes "DEV|dev-001|1|21|44|12"

abbrev reference_reading : Reading ℤ
reference_reading = record {
  device_id = codes "dev-001";
  seq = pos 1;
  temp_c = pos 21;
  humidity = pos 44;
  uptime_s = pos 12;
}

reference_parses : parse_reading whole_text reference ≡ ok reference_reading
unfolding parse_reading split_on Codes.same int_text digit_count read_number
reference_parses = refl

measure_mlkem_lem_example :
    (sizes : MlkemSizes) × (static_ct eph_pk proof eph_ct tag : Bytes) × (measure_mlkem whole_text
        toy
        (λ j. 2)
        (λ r. r.device_id)
        reference
        5
      ≡ ok sizes)
    × (sizes.handshake_raw_bytes ≡ 2 * projected_handshake_bytes + 64)
    × (sizes.handshake_json_bytes ≡ 6)
    × (sizes.legacy_reading_json_bytes ≡ 7)
measure_mlkem_lem_example =
    measure_mlkem_lem whole_text toy toy-IsSound (λ j. 2) (λ r. r.device_id) config reference 5
      reference_reading refl reference_parses (omega arith)
