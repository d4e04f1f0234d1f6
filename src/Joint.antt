-- ===== src/Joint.antt =====
-- The gateway and the cloud together: edge_gateway/gateway.py calling cloud_service/app.py.
pub mod Link
pub mod Opening
pub mod Answering
pub mod Agreement
pub mod Acceptance
pub mod Escape
pub mod Delivery
pub mod Journey
pub mod Session
pub mod Steady
pub mod Recovery
pub mod Stream
pub mod Arrival
pub mod Fleet
pub mod Refusal
pub mod Reboot
pub mod Sample
pub mod Tests
