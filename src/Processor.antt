-- ===== src/Processor.antt =====
-- lib/radio/packet_processor.hpp and packet_processor.cpp: what becomes of a received frame. Counters
-- and times have 64 bits.
pub mod Types
pub mod Order
pub mod Counters
pub mod Accounting
pub mod Restored
use gathra_gateway.Prelude.{
  ℕ, ◌+◌, ◌-◌, ◌%◌, ◌^◌, Bool, true, false, not, ◌&&◌, ◌||◌, Option, none, some, length, get_or,
  ltb, leb, ◌==◌, if◌then◌else◌,
}
use gathra_gateway.Protocol.Types.{TelemetryPacket, CommandResultPacket, DecodeStatus, MessageType}
use gathra_gateway.Protocol.Codes.{message_code}
use gathra_gateway.Protocol.Header.{Decoded, ok, fail}
use gathra_gateway.Protocol.Telemetry.{decode_telemetry}
use gathra_gateway.Protocol.Result.{decode_command_result}
use gathra_gateway.Pairing.{PairingManager, paired, matches, observe}
use gathra_gateway.Dedup.{TelemetryKey, make_telemetry_key}
use gathra_gateway.Commands.{confirm}
use gathra_gateway.Queue.Record.{QueueRecord}
use gathra_gateway.Queue.Entries.{key_of}
use gathra_gateway.Metrics.{record_latency}
use gathra_gateway.Processor.Types.{
  Surroundings, ReceivedFrame, EnqueueOutcome, AckTransmission, PacketQueueSink, AckSink,
  MonotonicClock, PacketDisposition, PacketProcessingStats, LatestTelemetry, PacketProcessingResult,
  PacketProcessor,
}

abbrev pub increment : ℕ → ℕ
increment n = (n + 1) % 2 ^ 64

-- The subtraction of the unsigned times.
abbrev pub elapsed : ℕ → ℕ → ℕ
elapsed late early = (late + 2 ^ 64 - early) % 2 ^ 64

abbrev pub no_ack : AckTransmission
no_ack = record {
  attempted = false;
  success = false;
  receive_restored = false;
  start_us = 0;
  completed_us = 0;
}

-- `PacketProcessingResult{}`, with the disposition that it is returned with.
abbrev pub rejected : Bool → DecodeStatus → PacketProcessingResult
rejected is_command_result status = record {
  disposition = PacketDisposition.decode_rejected;
  decode_status = status;
  telemetry = none;
  command_result = none;
  is_command_result = is_command_result;
  ack = no_ack;
  dropped_oldest = false;
}

abbrev pub answered : CommandResultPacket → PacketDisposition → PacketProcessingResult
answered packet disposition = record {
  disposition = disposition;
  decode_status = DecodeStatus.ok;
  telemetry = none;
  command_result = some packet;
  is_command_result = true;
  ack = no_ack;
  dropped_oldest = false;
}

abbrev pub heard : TelemetryPacket → PacketDisposition → Bool → PacketProcessingResult
heard packet disposition dropped_oldest = record {
  disposition = disposition;
  decode_status = DecodeStatus.ok;
  telemetry = some packet;
  command_result = none;
  is_command_result = false;
  ack = no_ack;
  dropped_oldest = dropped_oldest;
}

-- The record that is queued for a frame.
abbrev pub queued_record : ReceivedFrame → QueueRecord
queued_record frame = record {
  record_id = 0;
  reception = frame.reception;
  payload_length = length frame.bytes % 2 ^ 8;
  raw_payload = frame.bytes;
}

unfoldable pub is_result_frame : ReceivedFrame → Bool
is_result_frame frame =
    leb 4 (length frame.bytes) && get_or frame.bytes 3 0 == message_code MessageType.command_result

module _ {W M F : Type 0} where
  -- A command result counts only from the session of the paired node that was heard last.
  unfoldable pub expects_result : PacketProcessor W M F → CommandResultPacket → Bool
  expects_result s packet =
      paired s.pairing
      && s.latest.available
      && matches s.pairing (some packet.node_id)
      && s.latest.packet.persistent_session_id == packet.persistent_session_id

module _ {W M F : Type 0} (g : Surroundings W M F) where
  unfoldable pub process_result :
      PacketProcessor W M F
      → Decoded CommandResultPacket
      → PacketProcessor W M F × PacketProcessingResult
  unfolding expects_result
  process_result s (fail status) = (
    record s { stats = record (s.stats) { decode_errors = increment s.stats.decode_errors } },
    rejected true status,
  )
  process_result s (ok packet) =
      let valid = record (s.stats) {
        valid_protocol_packets = increment s.stats.valid_protocol_packets;
        valid_command_result_packets = increment s.stats.valid_command_result_packets;
      } in
      let ignored = record valid {
        command_results_ignored = increment s.stats.command_results_ignored;
      } in
      let counted = record valid {
        command_results_confirmed = increment s.stats.command_results_confirmed;
      } in
      let (commands', done, duplicate) = confirm g.platform g.backend s.commands packet in
      if not (expects_result s packet)
      then (record s { stats = ignored }, answered packet PacketDisposition.command_result_ignored)
      else if not done
      then (
        record s { commands = commands'; stats = ignored },
        answered packet PacketDisposition.command_result_ignored,
      )
      else (
        record s { commands = commands'; stats = counted },
        answered packet (
            if duplicate
            then PacketDisposition.command_result_duplicate
            else PacketDisposition.command_result_confirmed),
      )

  -- The times of an acknowledgement, as the counters keep them.
  unfoldable pub timed :
      PacketProcessingStats F → ReceivedFrame → AckTransmission → PacketProcessingStats F
  timed stats frame ack = record stats {
    last_rx_to_ack_start_us =
        if ack.attempted && leb frame.observed_us ack.start_us
        then ack.start_us - frame.observed_us
        else stats.last_rx_to_ack_start_us;
    last_rx_to_ack_complete_us =
        if ack.attempted && leb frame.observed_us ack.completed_us
        then ack.completed_us - frame.observed_us
        else stats.last_rx_to_ack_complete_us;
    last_ack_tx_duration_us =
        if ack.attempted && leb ack.start_us ack.completed_us
        then ack.completed_us - ack.start_us
        else stats.last_ack_tx_duration_us;
  }

  unfoldable pub sent :
      PacketProcessingStats F → ReceivedFrame → AckTransmission → PacketProcessingStats F
  sent stats frame ack = record stats {
    ack_sent = increment stats.ack_sent;
    successful_ack_latency =
        if leb frame.observed_us ack.start_us && leb frame.observed_us ack.completed_us
        then record_latency g.doubles stats.successful_ack_latency
            (ack.start_us - frame.observed_us) (ack.completed_us - frame.observed_us)
        else stats.successful_ack_latency;
  }

  -- From `transmitAck` to the end, for a packet that is on the queue.
  unfoldable pub acknowledge :
      PacketProcessor W M F
      → ReceivedFrame
      → TelemetryPacket
      → Bool
      → Bool
      → PacketProcessor W M F × PacketProcessingResult
  unfolding timed sent
  acknowledge s frame packet duplicate dropped_oldest =
      let (world', commands', ack) = g.sink.transmit_ack s.world s.commands packet in
      let s' = record s { world = world'; commands = commands' } in
      let stats' = timed s.stats frame ack in
      let kept : PacketDisposition =
        if duplicate
        then PacketDisposition.duplicate_acknowledged
        else PacketDisposition.new_acknowledged in
      if ack.success && ack.receive_restored
      then (
        record s' { stats = sent stats' frame ack },
        record (heard packet kept dropped_oldest) { ack = ack },
      )
      else (
        record s' { stats = record stats' { ack_failures = increment stats'.ack_failures } },
        record (heard packet PacketDisposition.ack_failed dropped_oldest) { ack = ack },
      )

  -- A packet that is not on the queue yet.
  unfoldable pub enqueue_new :
      PacketProcessor W M F
      → ReceivedFrame
      → TelemetryPacket
      → PacketProcessor W M F × PacketProcessingResult
  unfolding acknowledge
  enqueue_new s frame packet =
      let (before, started) = g.clock.now_us s.world in
      let (stored, outcome) = g.queue.durably_enqueue before (queued_record frame) in
      let (after, completed) = g.clock.now_us stored in
      let stats' = record (s.stats) {
        last_queue_write_us = elapsed completed started;
        last_rx_to_durable_enqueue_us =
            if leb frame.observed_us completed
            then completed - frame.observed_us
            else s.stats.last_rx_to_durable_enqueue_us;
      } in
      if not outcome.persisted
      then (
        record s {
          world = stored;
          stats = record (s.stats) {
            durable_enqueue_failures = increment s.stats.durable_enqueue_failures;
          };
        },
        heard packet PacketDisposition.durable_enqueue_failed outcome.dropped_oldest,
      )
      else acknowledge (record s { world = after; stats = stats' }) frame packet false
          outcome.dropped_oldest

  -- A packet of the paired node.
  unfoldable pub deliver :
      PacketProcessor W M F
      → ReceivedFrame
      → TelemetryPacket
      → PacketProcessor W M F × PacketProcessingResult
  unfolding enqueue_new
  deliver s frame packet =
      let (world', duplicate) = g.queue.contains_key s.world (key_of packet) in
      if duplicate
      then acknowledge
          (record s {
            world = g.queue.note_duplicate world';
            stats = record (s.stats) { duplicates = increment s.stats.duplicates };
          })
          frame packet true false
      else enqueue_new (record s { world = world' }) frame packet

  unfoldable pub process_telemetry :
      PacketProcessor W M F
      → ReceivedFrame
      → Decoded TelemetryPacket
      → PacketProcessor W M F × PacketProcessingResult
  unfolding deliver
  process_telemetry s frame (fail status) = (
    record s { stats = record (s.stats) { decode_errors = increment s.stats.decode_errors } },
    rejected false status,
  )
  process_telemetry s frame (ok packet) =
      let valid = record (s.stats) {
        valid_protocol_packets = increment s.stats.valid_protocol_packets;
        valid_telemetry_packets = increment s.stats.valid_telemetry_packets;
      } in
      let unknown = record valid {
        unknown_node_packets = increment s.stats.unknown_node_packets;
      } in
      let r = frame.reception in
      if s.pairing.pairing_mode
      then (
        record s {
          stats = valid;
          pairing = observe s.pairing packet r.rssi_dbm r.snr_db r.gateway_uptime_ms;
        },
        heard packet PacketDisposition.pairing_candidate false,
      )
      else if not (paired s.pairing)
      then (record s { stats = unknown }, heard packet PacketDisposition.unpaired_ignored false)
      else if not (matches s.pairing (some packet.node_id))
      then (record s { stats = unknown }, heard packet PacketDisposition.unknown_node_ignored false)
      else deliver
          (record s {
            stats = valid;
            latest = record { available = true; packet = packet; reception = r };
          })
          frame packet

  unfoldable pub process :
      PacketProcessor W M F → ReceivedFrame → PacketProcessor W M F × PacketProcessingResult
  unfolding is_result_frame process_result process_telemetry
  process s frame =
      if is_result_frame frame
      then process_result s (decode_command_result (some frame.bytes))
      else process_telemetry s frame (decode_telemetry (some frame.bytes))
