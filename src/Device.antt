-- ===== src/Device.antt =====
-- legacy_device/device.py: the simulated sensor node.
pub mod Sensor
pub mod Firmware
pub mod Stream
pub mod Alive
pub mod Sample
pub mod Tests
