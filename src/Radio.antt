-- ===== src/Radio.antt =====
-- lib/radio/radio_service.hpp and radio_service.cpp: the SX1278 and its frames.
pub mod Types
pub mod Configuration
pub mod Acknowledgement
pub mod Reception
pub mod Driver
pub mod Transmission
pub mod Rollback
pub mod Listening
pub mod Answer
pub mod Sent
