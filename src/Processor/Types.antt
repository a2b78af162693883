-- ===== src/Processor/Types.antt =====
-- lib/radio/packet_processor.hpp: the frames, the interfaces and the counters of the packet processor.
use gathra_gateway.Prelude.{ℕ, Bool, List, Option}
use gathra_gateway.Protocol.Types.{TelemetryPacket, CommandResultPacket, DecodeStatus}
use gathra_gateway.Pairing.{PairingManager}
use gathra_gateway.Dedup.{TelemetryKey}
use gathra_gateway.Commands.Types.{Platform}
use gathra_gateway.Commands.{CommandBackend, CommandStore}
use gathra_gateway.Queue.Record.{ReceptionMetadata, QueueRecord}
use gathra_gateway.Metrics.{Doubles, AckLatencyStatistics}

-- `bytes` are the `length` first bytes of the array.
pub record ReceivedFrame : Type 0 where
  pub bytes : List ℕ
  pub reception : ReceptionMetadata
  pub observed_us : ℕ

pub record EnqueueOutcome : Type 0 where
  pub persisted : Bool
  pub dropped_oldest : Bool

pub record AckTransmission : Type 0 where
  pub attempted : Bool
  pub success : Bool
  pub receive_restored : Bool
  pub start_us : ℕ
  pub completed_us : ℕ

-- `W` is the state of what the processor calls: the queue, the radio and the clock.
pub record PacketQueueSink (W : Type 0) : Type 0 where
  pub contains_key : W → TelemetryKey → W × Bool
  pub durably_enqueue : W → QueueRecord → W × EnqueueOutcome
  pub note_duplicate : W → W

-- The radio adds the open command to the acknowledgement, and records in the command store that it
-- was sent.
pub record AckSink (W M : Type 0) : Type 0 where
  pub transmit_ack : W → CommandStore M → TelemetryPacket → W × CommandStore M × AckTransmission

-- Reading the clock changes nothing else; the time of the next reading is another.
pub record MonotonicClock (W : Type 0) : Type 0 where
  pub now_us : W → W × ℕ

-- What the processor is given: the interfaces that it calls, and what the compiler decides.
pub record Surroundings (W M F : Type 0) : Type 0 where
  pub platform : Platform
  pub backend : CommandBackend M
  pub doubles : Doubles F
  pub queue : PacketQueueSink W
  pub sink : AckSink W M
  pub clock : MonotonicClock W

pub data PacketDisposition : Type 0 where
  decode_rejected pairing_candidate unpaired_ignored unknown_node_ignored : PacketDisposition
  durable_enqueue_failed new_acknowledged duplicate_acknowledged ack_failed : PacketDisposition
  command_result_confirmed command_result_duplicate command_result_ignored : PacketDisposition

pub record PacketProcessingStats (F : Type 0) : Type 0 where
  pub valid_protocol_packets : ℕ
  pub valid_telemetry_packets : ℕ
  pub valid_command_result_packets : ℕ
  pub decode_errors : ℕ
  pub unknown_node_packets : ℕ
  pub duplicates : ℕ
  pub ack_sent : ℕ
  pub ack_failures : ℕ
  pub durable_enqueue_failures : ℕ
  pub command_results_confirmed : ℕ
  pub command_results_ignored : ℕ
  pub last_queue_write_us : ℕ
  pub last_rx_to_durable_enqueue_us : ℕ
  pub last_rx_to_ack_start_us : ℕ
  pub last_rx_to_ack_complete_us : ℕ
  pub last_ack_tx_duration_us : ℕ
  pub successful_ack_latency : AckLatencyStatistics F

pub record LatestTelemetry : Type 0 where
  pub available : Bool
  pub packet : TelemetryPacket
  pub reception : ReceptionMetadata

-- The packets are there only where they were decoded; no caller reads them otherwise.
pub record PacketProcessingResult : Type 0 where
  pub disposition : PacketDisposition
  pub decode_status : DecodeStatus
  pub telemetry : Option TelemetryPacket
  pub command_result : Option CommandResultPacket
  pub is_command_result : Bool
  pub ack : AckTransmission
  pub dropped_oldest : Bool

-- The processor and what it refers to.
pub record PacketProcessor (W M F : Type 0) : Type 0 where
  pub pairing : PairingManager
  pub commands : CommandStore M
  pub world : W
  pub stats : PacketProcessingStats F
  pub latest : LatestTelemetry
