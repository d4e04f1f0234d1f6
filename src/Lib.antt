-- ===== src/Lib.antt =====
-- Sensor telemetry from legacy devices over an edge gateway to a cloud service, with an ML-KEM-768
-- channel between gateway and cloud. A device sends frames to the gateway (legacy_device/), the
-- gateway checks them for replays and sends each reading, sealed under a session key, to the cloud
-- (edge_gateway/gateway.py), which opens, validates and stores it (cloud_service/app.py). Both ends
-- of the channel share pqc_channel/channel.py.
--
-- Parts:
--   Base      Python's types and exceptions: texts and byte strings as lists of code points and
--             values, dicts as association lists in insertion order, JSON documents, UTF-8, hex,
--             methods that change state and may raise (Base.Exec).
--   Channel   pqc_channel/channel.py. Channel.Base64 and Channel.Nonce are the encodings,
--             Channel.Keys the handshake pieces and the messages, Channel.Crypto the library
--             cryptography: a record of operations, and a record of the laws that are documented,
--             for AEAD keys of 16, 24 or 32 bytes, nonces of 12 and data below 2 ** 31 bytes.
--   Cloud     cloud_service/app.py. Cloud.State holds `_readings` and `_sessions`, Cloud.Readings
--             and Cloud.Sessions the operations on each, Cloud.Messages the bodies and the parts of
--             the handlers that touch no state, Cloud.Ingest the handlers `ingest`, `pqc_session`
--             and `ingest_sealed`, Cloud.Steps the interleavings of their locked steps and any
--             sequence of requests, Cloud.KeyFile `_load_or_create_keypair`, and Cloud.Health the
--             report of `health`.
--   Device    legacy_device/device.py. Device.Sensor is `SensorSimulator`, Device.Firmware
--             `LegacyDevice` with `_send_forever` and `run`, for what the sensor, the clock and the
--             link do in each round; Device.Stream says what its frames are to the gateway, and
--             Device.Alive counts them.
--   Gateway   edge_gateway/gateway.py. Gateway.Stats and Gateway.Tracker are the shared counters and
--             the replay table, Gateway.Handshake is `_handshake` and `_do_handshake`,
--             Gateway.Uplink `_next_message`, `_invalidate` and `send`, Gateway.Handler the
--             `DeviceHandler` of one connection, from the lines that come in, Gateway.Rollback the
--             `LegacyUplink`, and Gateway.Setup what the constructors and `main` make of them:
--             the first state, and the server over its connections.
--   Legacy    legacy_device/protocol.py. Legacy.Frame is `encrypt_frame` and `decrypt_frame`,
--             Legacy.Record `build_reading` and `parse_reading`, Legacy.Number Python's `int` and
--             `str` of a whole number with their limit of 4300 digits, Legacy.Cipher the library
--             cryptography.
--   Joint     The programs together: Joint.Link answers the gateway's requests by the cloud's
--             handlers, each after a time `lag`, and by no answer if that is not less than the five
--             seconds of `CLOUD_TIMEOUT_S`, Joint.Answering and Joint.Opening are the two sides of the handshake and
--             Joint.Agreement its outcome, Joint.Escape a reply of the wrong shape,
--             Joint.Acceptance and Joint.Delivery a sealed reading, Joint.Journey a reading's way
--             from the device to the cloud, Joint.Recovery a session that the cloud has lost,
--             Joint.Session what both ends know of a session, Joint.Steady one reading after the
--             other over it, Joint.Stream and Joint.Reboot all frames of a device's runs at the
--             gateway, Joint.Arrival their readings in the cloud, Joint.Fleet the connections of many
--             devices, and Joint.Refusal what the cloud shows to a gateway that is pinned to
--             another key.
--   Tools     tools/baseline.py. Tools.Rig is what it sees of the running chain, Tools.Latency
--             `measure_end_to_end`, Tools.Throughput `measure_ingest_throughput`, Tools.Calls
--             `_time_calls`, Tools.Summary their summaries, Tools.Sizes the sizes of frames and
--             handshakes.
-- The modules named Sample hold concrete inputs and a toy instance of the cryptography, and those
-- named Tests run the definitions and apply the theorems to them.
--
-- Conventions. Clocks count nanoseconds. A session object of the cloud is a place in a heap that
-- `_sessions` points into, so a request that has an object in hand keeps it while others prune the
-- table; a session object of the gateway has a serial number for its identity. Locks make steps
-- atomic: the cloud's interleavings are sequences of `Step`, the gateway's of `Schedule`.
-- Recursion is structural; on fuel run only the decimal print of n, with n + 1 rounds for a number
-- that each round divides by ten (Legacy.Number), and the two waiting loops of tools/baseline.py, in
-- which every round takes at least the pause that is in it: one round more than the pauses that fill
-- ten seconds (Tools.Latency), and 301 rounds of a fifth of a second for a minute (Tools.Throughput).
-- In `serve_all` the connections of the gateway's server come one after the other.
-- A run of the device is a list of attempts to connect with their rounds, and ends with the list.
--
-- Parameters: the cryptography and the random source (Crypto, IsSound), pydantic's decoding of the
-- fields of a reading and `json.dumps`, the order and the texts of floats (FloatOrder, FloatText),
-- AES-CBC and PKCS7 (Cipher, IsCipher), the network, the clock and `int()` of a JSON text (Net), the
-- floats of the random walk (FloatMath, IsFloatMath), the running chain as the measurements see it
-- (Rig, IsOrderly) and the statistics library (Statistics).
--
-- Not modelled: the arguments that the `main` functions parse, sockets, logging, the dashboard page,
-- the printed report of tools/baseline.py, and the tests.
pub mod Base
pub mod Channel
pub mod Cloud
pub mod Device
pub mod Gateway
pub mod Joint
pub mod Legacy
pub mod Tools
