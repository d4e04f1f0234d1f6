-- ===== src/Cloud/Ingest.antt =====
-- The handlers of cloud_service/app.py that change state: `ingest`, `pqc_session` and
-- `ingest_sealed`, each behind the checks that FastAPI makes of its body.
pub mod Outcome
pub mod Admission
use sodtware_dev_ops_gp_proj.Base.{
  ℕ, Bool, false, Option, none, some, Bytes, Text, same, if◌then◌else◌,
}
use sodtware_dev_ops_gp_proj.Base.Int.{ℤ}
use sodtware_dev_ops_gp_proj.Base.Result.{Result, ok, err, http_error}
use sodtware_dev_ops_gp_proj.Base.Exec.{Exec, pure, raise, lift, unless, ◌>>=◌, ◌>>◌}
use sodtware_dev_ops_gp_proj.Channel.Crypto.{Crypto}
use sodtware_dev_ops_gp_proj.Channel.Keys.{new_session_id}
use sodtware_dev_ops_gp_proj.Cloud.Reading.{Reading, FloatOrder}
use sodtware_dev_ops_gp_proj.Cloud.State.{Cloud, Config, Channel, legacy, mlkem}
use sodtware_dev_ops_gp_proj.Cloud.Readings.{store}
use sodtware_dev_ops_gp_proj.Cloud.Sessions.{open_session, claim_counter}
use sodtware_dev_ops_gp_proj.Cloud.Messages.{
  SessionRequest, SealedReading, SessionReply, Ticket, session_request_fits, sealed_reading_fits,
  receive, agree, session_reply, validate,
}

-- `{"accepted": True, "device_id": ..., "seq": ...}`
pub record Accepted : Type 0 where
  pub device_id : Text
  pub seq : ℤ

-- `_require_token`: an absent header is `None`.
unfoldable pub is_token : Text → Option Text → Bool
is_token expected none = false
is_token expected (some t) = same t expected

module _ {F : Type 0} where
  abbrev stored : Reading F → Channel → ℕ → Exec (Cloud F) Accepted
  stored r channel wall cloud =
      (ok (record { device_id = r.device_id; seq = r.seq }), store r channel wall cloud)

  -- `ingest`: the v1 path, for a reading that passed validation.
  unfoldable pub ingest : Config → Reading F → Option Text → ℕ → Exec (Cloud F) Accepted
  ingest config reading token wall = do
    unless config.legacy_ingest_enabled (http_error 410)
    unless (is_token config.expected_token token) (http_error 401)
    stored reading legacy wall

module _ {F : Type 0} (c : Crypto) (o : FloatOrder F)
    (parse_fields : Bytes → Option (Reading F)) where
  -- What follows that step.
  unfoldable pub deliver : Bytes → ℕ → Exec (Cloud F) Accepted
  deliver plaintext wall = do
    reading ← lift (validate o parse_fields plaintext)
    stored reading mlkem wall

  -- `ingest_sealed`, at a monotonic time and a wall-clock time.
  unfoldable pub ingest_sealed : SealedReading → ℕ → ℕ → Exec (Cloud F) Accepted
  ingest_sealed message now wall = do
    ticket ← λ cloud. (receive c message now cloud, cloud)
    claim_counter ticket.ref ticket.counter
    deliver ticket.plaintext wall

  -- `POST /api/v2/telemetry`
  unfoldable pub post_sealed : SealedReading → ℕ → ℕ → Exec (Cloud F) Accepted
  post_sealed message now wall = do
    unless (sealed_reading_fits message) (http_error 422)
    ingest_sealed message now wall

  -- `POST /api/v1/telemetry`, from the bytes of the body.
  unfoldable pub post_reading : Config → Bytes → Option Text → ℕ → Exec (Cloud F) Accepted
  post_reading config body token wall = do
    reading ← lift (validate o parse_fields body)
    ingest config reading token wall

module _ {F : Type 0} where
  -- The locked step.
  unfoldable pub opening : Text → Bytes → ℕ → Exec (Cloud F) (Unit {0})
  opening sid aead_key now cloud = (ok tt, open_session sid aead_key now cloud)

module _ {F : Type 0} (c : Crypto) where
  -- `pqc_session`: the two numbers are what the random source returns to `encapsulate` and to
  -- `new_session_id`.
  unfoldable pub pqc_session : Config → ℕ → ℕ → ℕ → SessionRequest → Exec (Cloud F) SessionReply
  unfolding opening
  pqc_session config r_encaps r_id now request = do
    (aead_key, confirm_key, ephemeral_ct) ← lift (agree c config r_encaps request)
    let sid = new_session_id c r_id
    opening sid aead_key now
    lift (session_reply c sid confirm_key ephemeral_ct)

  -- `POST /api/v2/pqc/session`
  unfoldable pub post_session : Config → ℕ → ℕ → ℕ → SessionRequest → Exec (Cloud F) SessionReply
  post_session config r_encaps r_id now request = do
    unless (session_request_fits request) (http_error 422)
    pqc_session config r_encaps r_id now request
