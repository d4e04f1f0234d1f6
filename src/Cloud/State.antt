-- ===== src/Cloud/State.antt =====
-- The module-level state of cloud_service/app.py: the stored readings and the sessions. A session
-- is an object that a request keeps in hand while other requests run, so sessions live in a heap
-- and `_sessions` maps an id to a place in it.
use sodtware_dev_ops_gp_proj.Base.{ℕ, Bool, List, Bytes, Text}
use sodtware_dev_ops_gp_proj.Base.Dict.{Dict}
use sodtware_dev_ops_gp_proj.Cloud.Reading.{Reading}

abbrev pub max_stored_readings : ℕ
max_stored_readings = 1000

-- Clocks count nanoseconds.
abbrev pub second : ℕ
second = 1_000_000_000

abbrev pub session_ttl_s : ℕ
session_ttl_s = 3600

abbrev pub session_max_messages : ℕ
session_max_messages = 10_000

abbrev pub max_sessions : ℕ
max_sessions = 1000

-- The values of a record's `channel` field.
pub data Channel : Type 0 where
  legacy mlkem : Channel

-- A stored reading: `reading.model_dump()` with `received_at` and `channel`.
pub record Stored (F : Type 0) : Type 0 where
  pub reading : Reading F
  pub open reading use *
  pub received_at : ℕ
  pub channel : Channel

pub record Session : Type 0 where
  pub aead_key : Bytes
  pub expires_at : ℕ
  pub seen_counters : List ℕ

pub record Cloud (F : Type 0) : Type 0 where
  pub readings : List (Stored F)
  pub heap : List Session
  pub sessions : Dict ℕ

-- What is read once at import: the environment and the long-term key pair.
pub record Config : Type 0 where
  pub expected_token : Text
  pub legacy_ingest_enabled : Bool
  pub kem_public_key : Bytes
  pub kem_private_key : Bytes
