-- ===== src/Gateway.antt =====
-- edge_gateway/gateway.py: the gateway between the devices and the cloud.
pub mod Stats
pub mod Tracker
pub mod State
pub mod Answers
pub mod Handshake
pub mod Uplink
pub mod Handler
pub mod Rollback
pub mod Setup
pub mod Sample
pub mod Tests
