-- ===== src/Joint/Link.antt =====
-- The endpoints that the gateway calls, with their JSON bodies, as the network that it sees: a cloud
-- that runs beside it, one request at a time. Each request takes a time `lag`; if that is not less
-- than the gateway's timeout, the gateway does not see the answer.
use sodtware_dev_ops_gp_proj.Base.{
  ◌<◌, ◌≡◌, lt→ltb, Bool, ◌*◌, ltb, if◌then◌else◌, ℕ, ◌+◌, Bytes, Text, Option, codes,
}
use sodtware_dev_ops_gp_proj.Base.Int.{ℤ, pos}
use sodtware_dev_ops_gp_proj.Base.Result.{Result, ok, err, http_error}
use sodtware_dev_ops_gp_proj.Base.Json.{Json, null, int, bool, str, obj, field, no_field}
use sodtware_dev_ops_gp_proj.Channel.Base64.{b64encode}
use sodtware_dev_ops_gp_proj.Channel.Crypto.{Crypto}
use sodtware_dev_ops_gp_proj.Channel.Keys.{algorithm, fingerprint}
use sodtware_dev_ops_gp_proj.Cloud.Reading.{Reading, FloatOrder}
use sodtware_dev_ops_gp_proj.Cloud.State.{Cloud, Config, second}
use sodtware_dev_ops_gp_proj.Cloud.Messages.{SessionReply}
use sodtware_dev_ops_gp_proj.Cloud.Ingest.{Accepted, post_session, post_sealed}
use sodtware_dev_ops_gp_proj.Gateway.State.{
  cloud_timeout_s, unreachable, Net, Reply, answered, json, not_json,
}
use mathlib.Core.Bool.{true}

-- `pqc_public_key`
unfoldable pub pqc_public_key : Crypto → Config → Json
pqc_public_key c config = obj (
    field (codes "algorithm") (str algorithm) (
      field (codes "public_key") (str (b64encode config.kem_public_key))
        (field (codes "fingerprint") (str (fingerprint c config.kem_public_key)) no_field)))

-- What `pqc_session` returns, as JSON.
unfoldable pub session_body : SessionReply → Json
session_body r = obj (
    field (codes "session_id") (str r.session_id) (
      field (codes "ephemeral_ciphertext") (str r.ephemeral_ciphertext) (
        field (codes "confirmation") (str r.confirmation) (
          field (codes "expires_in_s") (int (pos r.expires_in_s))
            (field (codes "max_messages") (int (pos r.max_messages)) no_field)))))

-- What `ingest_sealed` returns, as JSON.
unfoldable pub accepted_body : Accepted → Json
accepted_body a = obj (
    field (codes "accepted") (bool true)
      (field (codes "device_id") (str a.device_id) (field (codes "seq") (int a.seq) no_field)))

-- FastAPI's answer: the declared status and the body, the status of an `HTTPException`, or 500. The
-- gateway does not look into the body of an error.
abbrev pub reply_of : {A : Type 0} → ℕ → (A → Json) → Result A → Reply
reply_of status body (ok a) = answered status (json (body a))
reply_of status body (err (http_error n)) = answered n (json null)
reply_of status body (err _) = answered 500 not_json

-- The cloud, the clock and the random source; `draws` stands for the next thing it returns.
pub record World (F : Type 0) : Type 0 where
  pub cloud : Cloud F
  pub clock : ℕ
  pub draws : ℕ

module _ {F : Type 0} where
  -- After a request: the cloud's new state, a later time, and `n` draws.
  abbrev pub passed : ℕ → ℕ → World F → Cloud F → World F
  passed lag n w cloud' = record { cloud = cloud'; clock = w.clock + lag; draws = w.draws + n }

-- In time for the gateway, whose requests have `timeout=CLOUD_TIMEOUT_S`.
abbrev pub in_time : ℕ → Bool
in_time lag = ltb lag (cloud_timeout_s * second)

pub in_time_lt : (lag : ℕ) → lag < cloud_timeout_s * second → in_time lag ≡ true
in_time_lt lag h = lt→ltb lag (cloud_timeout_s * second) h

-- What it gets, and how long it waits.
abbrev pub seen_reply : ℕ → Reply → Reply
seen_reply lag reply = if in_time lag then reply else unreachable

abbrev pub waited : ℕ → ℕ
waited lag = if in_time lag then lag else cloud_timeout_s * second

module _ {F : Type 0} (c : Crypto) (o : FloatOrder F) (parse_fields : Bytes → Option (Reading F))
    (config : Config) (int_text : Text → Result ℤ) (lag : ℕ) where
  -- A cloud whose session replies are edited on their way.
  abbrev pub link_edited : (Json → Json) → Net (World F)
  link_edited edit = record {
    monotonic = λ w. w.clock;
    random = λ w. (w.draws, record w { draws = w.draws + 1 });
    get_public_key = λ w. (
      seen_reply lag (answered 200 (json (pqc_public_key c config))),
      passed (waited lag) 0 w w.cloud,
    );
    post_session = λ request w.
        let (r, cloud') = post_session c config w.draws (w.draws + 1) w.clock request w.cloud in
        (
          seen_reply lag (reply_of 201 (λ b. edit (session_body b)) r),
          passed (waited lag) 2 w cloud',
        );
    post_telemetry = λ message w.
        let (r, cloud') = post_sealed c o parse_fields message w.clock w.clock w.cloud in
        (seen_reply lag (reply_of 202 accepted_body r), passed (waited lag) 0 w cloud');
    int_text = int_text;
  }

  abbrev pub link : Net (World F)
  link = link_edited (λ j. j)
