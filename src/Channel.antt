-- ===== src/Channel.antt =====
-- pqc_channel/channel.py: the channel shared by the gateway and the cloud.
pub mod Base64
pub mod Nonce
pub mod Crypto
pub mod Keys
pub mod Tests
