-- ===== src/Cloud.antt =====
-- cloud_service/app.py: the cloud telemetry service.
pub mod Reading
pub mod State
pub mod Readings
pub mod Sessions
pub mod Messages
pub mod Ingest
pub mod Steps
pub mod KeyFile
pub mod Health
pub mod Sample
pub mod Tests
