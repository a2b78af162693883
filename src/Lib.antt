-- ===== src/Lib.antt =====
-- Verification of the GATHRA gateway firmware: the path of a telemetry packet from the radio to the
-- durable queue and back to the node as an acknowledgement, and the commands that ride on it.
--
-- The parts and their files. A name in the model is the name in the source, in snake case; a method is
-- a function from the state of its object to the new state and the results.
--
-- - Prelude: Boolean tests, lists over native numbers, machine words and two's complement. Build:
--   include/build_config.hpp. Text: C strings, a char array being its bytes before the first NUL.
-- - Protocol: lib/protocol/protocol.hpp and protocol.cpp, LoRa Protocol 3. Wire has the classes Writer
--   and Reader, a writer being a function on what was written and a reader a function on what is left;
--   Header has writeHeader, readHeader and nodeIdValid; Telemetry, Ack and Result have the encoder and
--   the decoder of a message each, with the round trip in the child RoundTrip; Types and Codes have the
--   enumerations and their values, Names what the logs show.
-- - Pairing: lib/pairing/pairing_manager.cpp. Dedup: lib/pairing/deduplicator.cpp, the ring of recent
--   keys; Dedup.Slots has the arithmetic of the ring, Dedup.Refinement the list that it stands for,
--   Dedup.Distinct that no key stands in it twice.
-- - Commands: lib/commands/command_store.cpp, the one persistent command over a CommandBackend.
--   Commands.Machine has its life as a state machine, Commands.Durability its restart.
-- - Queue: Queue.Record is lib/queue/queue_record.cpp, the file of a record. Queue.Entries, Queue.Core
--   and Queue.Recovery are lib/queue/durable_queue_core.cpp over a QueueStorage. Queue.Bounds,
--   Queue.Runs and Queue.Restart have the invariant; Queue.Names, Queue.Storage, Queue.Frame and
--   Queue.Steps lead to Queue.Refinement and Queue.Acceptance, the queue as a list of records.
--   Queue.Durable, Queue.Readers and Queue.Startup are lib/queue/durable_queue.cpp over a Device and a
--   Flash, which are the file system, the preferences and the clock; Queue.Finish has what is known
--   after `finish`, Queue.Recall the file of the recent keys, Queue.Reopened, over Queue.Untouched,
--   what is known after a start.
-- - Metrics: lib/metrics/running_statistics.cpp.
-- - Processor: lib/radio/packet_processor.cpp, which calls the pairing, the command store, the queue,
--   the radio and the clock. Processor.Order has what is acknowledged, Processor.Counters and
--   Processor.Accounting the counters, Processor.Restored whether reception is restored.
-- - Heartbeat: lib/heartbeat/heartbeat_contract.cpp without its JSON document; Heartbeat.Snapshot has the
--   data of a heartbeat.
-- - Backend: lib/backend/backend_contract.cpp, the check of a response; the JSON parser is a function
--   to what the source asks of a document. Backend.Response and Backend.Complete have its theorems.
-- - Base64: lib/backend/base64.cpp, with its round trip in Base64.RoundTrip and the texts that it
--   accepts in Base64.Exact.
-- - Config: lib/config/gateway_config.cpp; Config.Url is the syntax of the backend's address, with the
--   scanners compared to a description by words and numbers in Config.Url.Hosts, Config.Rules the bounds
--   of an accepted configuration.
-- - Time: lib/time/time_manager.cpp, with the rule of trust in Time.Trust.
-- - Worker: lib/backend/backend_worker.cpp. Types has its state and the Platform, which is the HTTP
--   client, Wi-Fi, the JSON library and the clocks; Status has setFailure, setSuccess and applyConfig,
--   Request has performRequest, Upload has uploadOnce, Capture has captureHeartbeatSnapshot, Beat has
--   attemptHeartbeat, over a Heart, which has the answers of the other components and the JSON library,
--   and Round has the body of the loop. Worker.Retention has, over Worker.Actions, what an upload does
--   to the queue, Worker.Backoff the wait after failures, Worker.Isolation what a heartbeat and a round
--   without an upload leave alone.
-- - Radio: lib/radio/radio_service.cpp over a Chip, which is the driver of the SX1278, its interrupt and
--   the clocks. Configuration has configureUnlocked, startReceiveUnlocked, applyConfig and restart,
--   Acknowledgement has transmitAck, Reception has handlePhysicalReceive and handleFrame; the theorems
--   are in Radio.Rollback, Radio.Listening, Radio.Answer and Radio.Sent. They stand on Radio.Driver,
--   which has what the driver is documented to do (IsDriver: what the interrupt is attached to, the
--   settings, the mode, the frames on the air), and on Radio.Transmission.
-- - Wifi: lib/wifi/wifi_manager.cpp over a Driver; a round of its loop is `run_round`. Wifi.Access has
--   that the dashboard can be reached, Wifi.Grace when the access point is given up.
-- - Examples: every theorem below at concrete inputs.
--
-- How they interact. The processor decodes a frame by Protocol, asks Pairing whether the node is the
-- paired one, asks the queue for the key of the packet, stores a new packet, and only then asks the
-- radio to acknowledge it. The queue and the radio are parameters of the processor over one state of
-- the surroundings, so that they may affect each other; the radio also gets the command store, since it
-- sends the open command and records that it was sent. Radio.Reception gives the processor the real
-- queue and the real radio (`surroundings` over a World of both). The worker holds the queue too: what
-- the other tasks do to it while a request is under way is the parameter `meanwhile`.
--
-- Numbers are natural numbers; a C++ integer keeps its wrap-around as a remainder, and a float is its
-- bit pattern. Loops are recursion on a list or on the number of rounds that are left, so no fuel is
-- chosen: the ring's search takes as many rounds as the ring has keys, and the CRC eight for a byte.
--
-- Not under the model: the mutexes, the NVS and LittleFS back ends (parameters with the laws IsAtomic,
-- IsStore, IsWilling and IsBeside), the layout of a record in memory (Platform), the arithmetic of double and of
-- float (Doubles, Floats), the driver of the SX1278 (Chip, with the laws IsDriver), the SNTP client, the HTTP client and the
-- JSON library, the Wi-Fi driver (Driver); the creation of tasks, the build with
-- synthetic frames, OTA, the dashboard, the logger, the store of the configuration and the
-- application object that wires the parts.
pub mod Prelude
pub mod Build
pub mod Text
pub mod Protocol
pub mod Pairing
pub mod Dedup
pub mod Commands
pub mod Queue
pub mod Backend
pub mod Base64
pub mod Config
pub mod Heartbeat
pub mod Metrics
pub mod Processor
pub mod Radio
pub mod Time
pub mod Wifi
pub mod Worker
pub mod Examples
