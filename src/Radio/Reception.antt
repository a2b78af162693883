-- ===== src/Radio/Reception.antt =====
-- lib/radio/radio_service.cpp: a frame from the chip to the processor, and the gateway that the radio,
-- the queue and the processor make up.
use gathra_gateway.Prelude.{
  ℕ, ◌+◌, ◌/◌, ◌%◌, ◌^◌, not, ◌||◌, List, Option, none, some, length, take, ltb, ◌==◌,
  if◌then◌else◌,
}
use gathra_gateway.Build.{radio_packet_capacity}
use gathra_gateway.Commands.Types.{Platform}
use gathra_gateway.Commands.{CommandBackend}
use gathra_gateway.Metrics.{Doubles}
use gathra_gateway.Queue.Record.{ReceptionMetadata}
use gathra_gateway.Queue.Durable.{Device, DurableQueue, contains, enqueue, record_duplicate}
use gathra_gateway.Processor.Types.{
  ReceivedFrame, Surroundings, PacketProcessor, PacketProcessingResult,
}
use gathra_gateway.Processor.{process}
use gathra_gateway.Worker.Status.{trusted_ms}
use gathra_gateway.Radio.Types.{RadioCode, is_fine, is_crc_mismatch, Chip, Radio}
use gathra_gateway.Radio.Configuration.{start_receive_unlocked}
use gathra_gateway.Radio.Acknowledgement.{transmit_ack}

abbrev counted : ℕ → ℕ
counted n = (n + 1) % 2 ^ 64

-- What the processor calls: the queue and the radio.
pub record World (S N H : Type 0) : Type 0 where
  pub queue : DurableQueue S N
  pub radio : Radio H

-- The parts outside: the file system and the preferences, the chip, the flash of the command store, the
-- layout of its record, and the arithmetic of double.
pub record Hardware (S N H M F : Type 0) : Type 0 where
  pub device : Device S N
  pub chip : Chip H
  pub backend : CommandBackend M
  pub platform : Platform
  pub doubles : Doubles F

module _ {S N H M F : Type 0} (h : Hardware S N H M F) where
  abbrev pub radio_clock : World S N H → World S N H × ℕ
  radio_clock w =
      let (chip', now) = h.chip.now_us w.radio.chip in
      (record w { radio = record (w.radio) { chip = chip' } }, now)

  -- The processor's surroundings are the durable queue and this radio.
  unfoldable pub surroundings : Surroundings (World S N H) M F
  surroundings = record {
    platform = h.platform;
    backend = h.backend;
    doubles = h.doubles;
    queue = record {
      contains_key = λ w key.
          let (q, found) = contains h.device w.queue key in (record w { queue = q }, found);
      durably_enqueue = λ w r.
          let (q, stored, outcome) = enqueue h.device w.queue r in
          (record w { queue = q }, outcome);
      note_duplicate = λ w. record w { queue = record_duplicate h.device w.queue };
    };
    sink = record {
      transmit_ack = λ w commands packet.
          let (r, commands', report) =
            transmit_ack h.chip h.platform h.backend w.radio commands packet in
          (record w { radio = r }, commands', report);
    };
    clock = record { now_us = radio_clock };
  }

  abbrev Station : Type 0
  Station = PacketProcessor (World S N H) M F

  abbrev with_radio : Station → Radio H → Station
  with_radio s r = record s { world = record (s.world) { radio = r } }

  -- Reception is started again where the acknowledgement has not done so. The rest is the log.
  unfoldable pub handle_frame : Station → ReceivedFrame → Station × PacketProcessingResult
  handle_frame s frame =
      let (s', result) = process surroundings s frame in
      if result.ack.receive_restored
      then (s', result)
      else (with_radio s' (start_receive_unlocked h.chip s'.world.radio).0, result)

  -- A frame that was read: its reception, and the diagnostics of the last one.
  abbrev reception_of : ℕ → ℕ → ℕ → Radio H → ReceptionMetadata
  reception_of boot_session_id observed_us length r =
      let (chip', timestamp) = h.chip.now r.chip in
      record {
        gateway_received_unix_ms = trusted_ms timestamp;
        gateway_time_trusted = timestamp.trusted;
        gateway_uptime_ms = observed_us / 1_000;
        gateway_boot_session_id = boot_session_id;
        rssi_dbm = h.chip.rssi r.chip;
        snr_db = h.chip.snr r.chip;
        frequency_error_hz = h.chip.frequency_error r.chip;
        packet_length = length % 2 ^ 16;
      }

  abbrev heard : Radio H → ReceptionMetadata → ℕ → Radio H
  heard r reception observed_us =
      let (chip', timestamp) = h.chip.now r.chip in
      record r {
        chip = chip';
        diagnostics = record (r.diagnostics) {
          last_rssi_dbm = reception.rssi_dbm;
          last_snr_db = reception.snr_db;
          last_frequency_error_hz = reception.frequency_error_hz;
          last_rx_uptime_us = observed_us;
          last_rx_unix_ms = reception.gateway_received_unix_ms;
        };
      }

  -- What is done with the bytes and the code of `readData`.
  unfoldable pub handle_read :
      ℕ → Station → ℕ → ℕ → List ℕ → RadioCode → Station × Option PacketProcessingResult
  handle_read boot_session_id s observed_us length bytes code =
      let r = s.world.radio in
      let d = r.diagnostics in
      let reception = reception_of boot_session_id observed_us length r in
      let (s', result) =
        handle_frame (with_radio s (heard r reception observed_us))
          (record { bytes = bytes; reception = reception; observed_us = observed_us }) in
      if is_crc_mismatch code
      then (
        with_radio s
            (start_receive_unlocked h.chip
              (record r { diagnostics = record d { crc_errors = counted d.crc_errors } })).0,
        none,
      )
      else if not (is_fine code)
      then (
        with_radio s
            (start_receive_unlocked h.chip
              (record r { diagnostics = record d { read_errors = counted d.read_errors } })).0,
        none,
      )
      else (s', some result)

  unfoldable pub handle_length : ℕ → Station → ℕ → ℕ → Station × Option PacketProcessingResult
  handle_length boot_session_id s observed_us length =
      let r = s.world.radio in
      let d = r.diagnostics in
      let (chip', bytes, code) = h.chip.read_data r.chip length in
      if length == 0 || ltb radio_packet_capacity length
      then (
        with_radio s
            (start_receive_unlocked h.chip (record r {
              chip = h.chip.standby r.chip;
              diagnostics = record d { invalid_length_packets = counted d.invalid_length_packets };
            })).0,
        none,
      )
      else handle_read boot_session_id
          (with_radio s (record r { chip = chip'; diagnostics = record d { last_code = code } }))
          observed_us length (take length bytes) code

  unfoldable pub handle_physical_receive : ℕ → Station → Station × Option PacketProcessingResult
  handle_physical_receive boot_session_id s =
      let r = s.world.radio in
      let d = r.diagnostics in
      let (chip', observed_us) = h.chip.now_us r.chip in
      let length = h.chip.packet_length chip' in
      if not d.ready
      then (s, none)
      else handle_length boot_session_id
          (with_radio s (record r {
            chip = chip';
            diagnostics = record d {
              received_packets = counted d.received_packets;
              last_packet_length = length % 2 ^ 16;
            };
          }))
          observed_us length
