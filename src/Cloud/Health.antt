-- ===== src/Cloud/Health.antt =====
-- `health` of cloud_service/app.py.
pub mod Report
use sodtware_dev_ops_gp_proj.Base.{ℕ, ◌-◌, ◌/◌, Bool, Text, codes, length}
use sodtware_dev_ops_gp_proj.Channel.Crypto.{Crypto}
use sodtware_dev_ops_gp_proj.Channel.Keys.{algorithm, fingerprint}
use sodtware_dev_ops_gp_proj.Cloud.State.{Cloud, Config, second}
use sodtware_dev_ops_gp_proj.Cloud.Readings.{by_channel}
use sodtware_dev_ops_gp_proj.Cloud.Sessions.{active_sessions}

-- The dict that it returns, with the fields of its `pqc`; the counts by channel are those of
-- `mlkem` and `legacy`.
pub record Health : Type 0 where
  pub status : Text
  pub uptime_s : ℕ
  pub stored_readings : ℕ
  pub algorithm : Text
  pub public_key_fingerprint : Text
  pub active_sessions : ℕ
  pub legacy_ingest_enabled : Bool
  pub readings_by_channel : ℕ × ℕ

-- The service started at a wall-clock time; the request comes at one, and at a monotonic time.
unfoldable pub health : {F : Type 0} → Crypto → Config → ℕ → ℕ → ℕ → Cloud F → Health
health c config started_at wall now cloud = record {
  status = codes "ok";
  uptime_s = (wall - started_at) / second;
  stored_readings = length cloud.readings;
  algorithm = algorithm;
  public_key_fingerprint = fingerprint c config.kem_public_key;
  active_sessions = active_sessions now cloud;
  legacy_ingest_enabled = config.legacy_ingest_enabled;
  readings_by_channel = by_channel cloud.readings;
}
