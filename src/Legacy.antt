-- ===== src/Legacy.antt =====
-- legacy_device/protocol.py: the frames and records of the hop between device and gateway.
pub mod Cipher
pub mod Frame
pub mod Number
pub mod Record
pub mod Refusals
pub mod Sample
pub mod Tests
