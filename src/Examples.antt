-- ===== src/Examples.antt =====
-- The theorems at concrete inputs, and runs of the definitions on them.
mod Backend
mod Base64
mod Protocol
mod Pairing
mod Dedup
mod Commands
mod Durable
mod Heartbeat
mod Config
mod Time
mod Radio
mod Worker
mod Wifi
mod Beat
mod Queue
mod Processor
