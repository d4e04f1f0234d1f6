-- ===== src/Gateway/State.antt =====
-- The state of edge_gateway/gateway.py, what it sees of the network, and what it asks of the
-- libraries. `W` is the world outside: the clock, the random source, the network and the cloud.
use sodtware_dev_ops_gp_proj.Base.{ℕ, Option, Bytes, Text}
use sodtware_dev_ops_gp_proj.Base.Int.{ℤ}
use sodtware_dev_ops_gp_proj.Base.Result.{Result}
use sodtware_dev_ops_gp_proj.Base.Json.{Json}
use sodtware_dev_ops_gp_proj.Base.Dict.{Dict}
use sodtware_dev_ops_gp_proj.Gateway.Stats.{GatewayStats, Counter, bump}
use sodtware_dev_ops_gp_proj.Cloud.Messages.{SessionRequest, SealedReading}

-- `_PqcSession`. The serial number stands for the identity of the object, which `is` compares.
pub record PqcSession : Type 0 where
  pub serial : ℕ
  pub session_id : Text
  pub aead_key : Bytes
  pub expires_at : ℕ
  pub max_messages : ℤ
  pub next_counter : ℕ

-- `PqcUplink`: `made` counts the session objects made so far.
pub record PqcUplink : Type 0 where
  pub pinned : Option Text
  pub session : Option PqcSession
  pub made : ℕ

-- What `GatewayServer` shares between the device threads, and the world.
pub record Gateway (W : Type 0) : Type 0 where
  pub stats : GatewayStats
  pub seen : Dict ℤ
  pub uplink : PqcUplink
  pub open uplink use *
  pub world : W

abbrev pub count : {W : Type 0} → Counter → Gateway W → Gateway W
count k g = record g { stats = bump k g.stats }

-- A response body: JSON, or something that `response.json()` refuses with a `ValueError`.
pub data Body : Type 0 where
  not_json : Body
  json : Json → Body

-- What a request returns: a `RequestException`, or a status and a body.
pub data Reply : Type 0 where
  unreachable : Reply
  answered : ℕ → Body → Reply

-- `CLOUD_TIMEOUT_S`
abbrev pub cloud_timeout_s : ℕ
cloud_timeout_s = 5

-- The outside. `int_text` is `int()` of a text that came in a JSON body.
pub record Net (W : Type 0) : Type 0 where
  pub monotonic : W → ℕ
  pub random : W → ℕ × W
  pub get_public_key : W → Reply × W
  pub post_session : SessionRequest → W → Reply × W
  pub post_telemetry : SealedReading → W → Reply × W
  pub int_text : Text → Result ℤ
