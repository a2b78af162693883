-- ===== src/Protocol.antt =====
-- lib/protocol/protocol.hpp and protocol.cpp: LoRa Protocol 3.
pub mod Types
pub mod Codes
pub mod Wire
pub mod Header
pub mod Telemetry
pub mod Ack
pub mod Result
pub mod Names
