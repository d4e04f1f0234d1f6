-- ===== src/Cloud/Tests.antt =====
-- The service on concrete inputs.
use Prim.Native.Nat.{min}
use mathlib.Core.List.{reverse}
use sodtware_dev_ops_gp_proj.Base.{
  ◌+◌, ◌*◌, ◌≤◌, ◌≡◌, refl, ◌⊎◌, inr, List, true, false, some, [], ◌∷◌, ◌++◌, codes, length, take,
  All, arith,
}
use sodtware_dev_ops_gp_proj.Base.Int.{ℤ, pos}
use sodtware_dev_ops_gp_proj.Base.Codes.{same}
use sodtware_dev_ops_gp_proj.Base.Dict.{get}
use sodtware_dev_ops_gp_proj.Base.Utf8.{encode}
use sodtware_dev_ops_gp_proj.Base.Result.{Result, ok, err, http_error}
use sodtware_dev_ops_gp_proj.Channel.Base64.{b64decode}
use sodtware_dev_ops_gp_proj.Channel.Nonce.{counter_from, horner}
use sodtware_dev_ops_gp_proj.Channel.Crypto.Sample.{toy, toy-IsSound}
use sodtware_dev_ops_gp_proj.Channel.Keys.{open_sealed, generate_keypair}
use sodtware_dev_ops_gp_proj.Cloud.KeyFile.{absent, load_or_create_keypair}
use sodtware_dev_ops_gp_proj.Cloud.KeyFile.Restart.{load_or_create_keypair_again}
use sodtware_dev_ops_gp_proj.Cloud.State.{
  Cloud, Config, mlkem, max_stored_readings, max_sessions, second,
}
use sodtware_dev_ops_gp_proj.Cloud.Reading.{Reading, fits}
use sodtware_dev_ops_gp_proj.Cloud.Readings.{
  store, append_bounded, last_items, list_readings, list_devices, of_device, by_channel,
}
use sodtware_dev_ops_gp_proj.Cloud.Readings.Ring.{store_all, readings-store_all}
use sodtware_dev_ops_gp_proj.Cloud.Readings.Page.{dec_wanted, list_readings-take-reverse}
use Prim.Native.Nat.{max}
use mathlib.Core.List.{filter}
use sodtware_dev_ops_gp_proj.Base.Int.{pos_part}
use sodtware_dev_ops_gp_proj.Base.{set, Bytes}
use sodtware_dev_ops_gp_proj.Cloud.Readings.Devices.{summary_of, list_devices-summary_of}
use sodtware_dev_ops_gp_proj.Cloud.Sessions.{
  contains, open_session, find_session, claim_counter, active_sessions, count_live, is_expired,
}
use sodtware_dev_ops_gp_proj.Cloud.Messages.{
  SessionRequest, decode_request, decode_sealed, open_message, receive, validate,
}
use sodtware_dev_ops_gp_proj.Cloud.Ingest.{Accepted, ingest_sealed, deliver}
use sodtware_dev_ops_gp_proj.Cloud.Ingest.Outcome.{ingest_sealed_refused}
use sodtware_dev_ops_gp_proj.Cloud.Ingest.Admission.{IsAuthentic, ingest_sealed_accepted}
use sodtware_dev_ops_gp_proj.Cloud.Steps.{here, next, opens}
use sodtware_dev_ops_gp_proj.Cloud.Health.{health}
use sodtware_dev_ops_gp_proj.Cloud.Health.Report.{health-handle_all}
use sodtware_dev_ops_gp_proj.Channel.Keys.{fingerprint}
use sodtware_dev_ops_gp_proj.Cloud.Steps.Handlers.{Request, reading, session, sealed, handle_all}
use sodtware_dev_ops_gp_proj.Cloud.Steps.Outsider.{IsOutsider, handle_all-IsOutsider}
use sodtware_dev_ops_gp_proj.Cloud.Steps.Invariant.{IsWell, Reach-IsWell}
use sodtware_dev_ops_gp_proj.Cloud.Steps.Once.{ingest_sealed_once}
use sodtware_dev_ops_gp_proj.Cloud.Sample.{whole, decode_name, stored_of, small, empty, message}

abbrev answer : Accepted
answer = record { device_id = codes "dev-002"; seq = pos 5 }

abbrev after : Cloud ℤ
after = (ingest_sealed toy whole decode_name message 0 20 small).1

message_accepted : (ingest_sealed toy whole decode_name message 0 20 small).0 ≡ ok answer
unfolding ingest_sealed deliver receive decode_sealed b64decode find_session open_message
    open_sealed counter_from claim_counter validate fits toy get same encode contains store
    append_bounded
message_accepted = refl

name_kept : get message.session_id after.sessions ≡ get message.session_id small.sessions
unfolding ingest_sealed deliver receive decode_sealed b64decode find_session open_message
    open_sealed counter_from claim_counter validate fits toy get same encode contains store
    append_bounded
name_kept = refl

-- The same message a minute later.
ingest_sealed_once_example :
    (ingest_sealed toy whole decode_name message 60 80 after ≡ (err (http_error 409), after))
    ⊎ (ingest_sealed toy whole decode_name message 60 80 after ≡ (err (http_error 401), after))
ingest_sealed_once_example =
    ingest_sealed_once toy whole decode_name message 0 20 60 80 small after answer message_accepted
      here name_kept

-- The same message again is refused, and leaves everything as it is.
abbrev repeat : Result Accepted × Cloud ℤ
repeat = ingest_sealed toy whole decode_name message 60 80 after

repeat_refused : repeat.0 ≡ err (http_error 409)
unfolding ingest_sealed deliver receive decode_sealed b64decode find_session open_message
    open_sealed counter_from claim_counter validate fits toy get same encode contains store
    append_bounded horner
repeat_refused = refl

ingest_sealed_refused_example :
    (repeat.1.readings ≡ after.readings)
    × (repeat.1.sessions ≡ after.sessions)
    × ((repeat.1 ≡ after) ⊎ (http_error 409 ≡ http_error 422))
ingest_sealed_refused_example =
    ingest_sealed_refused toy whole decode_name message 60 80 after (http_error 409) repeat_refused

ingest_sealed_accepted_example :
    (plaintext : Bytes) × (r : Reading ℤ) × (w : IsAuthentic toy message 0 small plaintext)
    × (decode_name plaintext ≡ some r)
    × (fits whole r ≡ true)
    × (answer ≡ record { device_id = r.device_id; seq = r.seq })
    × (after.readings
        ≡ append_bounded max_stored_readings small.readings
            (record { reading = r; received_at = 20; channel = mlkem }))
    × (after.sessions ≡ small.sessions)
    × (after.heap
        ≡ set small.heap w.ref
            (record w.object { seen_counters = w.counter ∷ w.object.seen_counters }))
ingest_sealed_accepted_example =
    ingest_sealed_accepted toy whole decode_name message 0 20 small answer message_accepted

empty-IsWell : IsWell empty
empty-IsWell = record { ring = omega arith; table = omega arith; placed = tt; bounded = tt }

Reach-IsWell_example : IsWell (open_session (codes "new") (8 ∷ []) 5 empty)
Reach-IsWell_example = Reach-IsWell empty-IsWell (next here (opens (codes "new") (8 ∷ []) 5 empty))

abbrev config : Config
config = record {
  expected_token = codes "token";
  legacy_ingest_enabled = false;
  kem_public_key = [];
  kem_private_key = [];
}

health-handle_all_example :
    let h =
      health toy config 0 50 20
        (handle_all toy whole decode_name config empty (sealed message 0 20 ∷ [])) in
    (h.readings_by_channel.0 + h.readings_by_channel.1 ≡ h.stored_readings)
    × (h.stored_readings ≤ max_stored_readings)
    × (h.active_sessions ≤ max_sessions)
    × ((h.readings_by_channel.1 ≤ (by_channel {F = ℤ} []).1)
        ⊎ (config.legacy_ingest_enabled ≡ true))
health-handle_all_example =
    health-handle_all toy whole decode_name config (sealed message 0 20 ∷ []) empty 0 50 20
      empty-IsWell

-- An empty token, a session request without a proof, and a message to a session that has expired.
abbrev open_config : Config
open_config = record config { legacy_ingest_enabled = true }

abbrev no_proof : SessionRequest
no_proof = record {
  static_ciphertext = codes "AAAA";
  ephemeral_public_key = codes "AAAA";
  gateway_proof = [];
}

abbrev attempts : List Request
attempts =
    reading (codes "dev-002") (some []) 20
    ∷ session 1 2 0 no_proof
    ∷ sealed message (3600 * second) 20
    ∷ []

no_proof_decoded : decode_request no_proof ≡ err (http_error 400)
unfolding decode_request b64decode
no_proof_decoded = refl

message_late : find_session message.session_id (3600 * second) small ≡ err (http_error 401)
unfolding find_session get same
message_late = refl

attempts-IsOutsider : All (IsOutsider toy open_config small) attempts
unfolding IsOutsider
attempts-IsOutsider = (
  inr (λ e. cc e),
  (
    (λ ct pk proof decoded _.
        let z : err (http_error 400) ≡ ok (ct, pk, proof) = rw no_proof_decoded at decoded in
        absurd (cc z)),
    (
      (λ ref key nonce text plaintext _ found _.
          let z : err (http_error 401) ≡ ok (ref, key) = rw message_late at found in absurd (cc z)),
      tt,
    ),
  ),
)

handle_all-IsOutsider_example : handle_all toy whole decode_name open_config small attempts ≡ small
handle_all-IsOutsider_example =
    handle_all-IsOutsider toy whole decode_name open_config attempts small attempts-IsOutsider

-- One reading over the legacy path is stored, and its session is active.
health_small : health toy config 0 (5 * second) 20 small ≡ record {
  status = codes "ok";
  uptime_s = 5;
  stored_readings = 1;
  algorithm = codes "ML-KEM-768";
  public_key_fingerprint = fingerprint toy [];
  active_sessions = 1;
  legacy_ingest_enabled = false;
  readings_by_channel = (0, 1);
}
unfolding health by_channel active_sessions count_live is_expired
health_small = refl

readings-store_all_example :
    (store_all (stored_of (codes "a") 1 5 ∷ stored_of (codes "b") 1 6 ∷ []) small).readings
    ≡ last_items max_stored_readings
        (small.readings ++ (stored_of (codes "a") 1 5 ∷ stored_of (codes "b") 1 6 ∷ []))
readings-store_all_example =
    readings-store_all (stored_of (codes "a") 1 5 ∷ stored_of (codes "b") 1 6 ∷ []) small
      (omega arith)

list_readings-take-reverse_example :
    let page =
      take
        (min 1000 (max 1 (pos_part (pos 20))))
        (reverse (filter (dec_wanted (some (codes "dev-001"))) small.readings)) in
    list_readings (pos 20) (some (codes "dev-001")) small ≡ (length page, page)
list_readings-take-reverse_example =
    list_readings-take-reverse (pos 20) (some (codes "dev-001")) small

list_devices-summary_of_example :
    get (codes "dev-001") (list_devices small).1
    ≡ summary_of (of_device (codes "dev-001") small.readings)
list_devices-summary_of_example = list_devices-summary_of small (codes "dev-001")

load_or_create_keypair_again_example :
    let first = load_or_create_keypair toy 5 (some (codes "kem.json")) absent in
    (first.0 ≡ ok (generate_keypair toy 5))
    × (load_or_create_keypair toy 6 (some (codes "kem.json")) first.1 ≡ first)
load_or_create_keypair_again_example =
    load_or_create_keypair_again toy toy-IsSound 5 6 b'k' (codes "em.json")
