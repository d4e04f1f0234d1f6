-- ===== src/Tools.antt =====
-- tools/baseline.py: the measurements of the chain.
pub mod Summary
pub mod Rig
pub mod Latency
pub mod Throughput
pub mod Calls
pub mod Sizes
pub mod Sample
pub mod Tests
