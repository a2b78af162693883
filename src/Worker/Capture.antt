-- ===== src/Worker/Capture.antt =====
-- lib/backend/backend_worker.cpp: `captureHeartbeatSnapshot`, what a heartbeat reports of the other
-- components.
use gathra_gateway.Prelude.{
  ℕ, ◌+◌, ◌-◌, ◌/◌, ◌%◌, ◌^◌, ℤ, pos, negsuc, Bool, true, false, not, ◌&&◌, List, [], ◌∷◌, Option,
  none, some, ltb, leb, ◌==◌, if◌then◌else◌,
}
use gathra_gateway.Build.{gateway_id_capacity, wifi_ssid_capacity, node_id_capacity}
use gathra_gateway.Text.{strncpy, codes}
use gathra_gateway.Time.{TimeStatus}
use gathra_gateway.Pairing.{PairingManager, paired}
use gathra_gateway.Commands.Types.{CommandState, GatewayCommand}
use gathra_gateway.Commands.{command_state_name}
use gathra_gateway.Protocol.Header.{version}
use gathra_gateway.Protocol.Names.{command_type_name, command_result_name}
use gathra_gateway.Processor.Types.{PacketProcessingStats}
use gathra_gateway.Queue.Record.{QueueRecord}
use gathra_gateway.Queue.Durable.{Device, DurableQueue}
use gathra_gateway.Queue.Readers.{size, capacity, peek}
use gathra_gateway.Radio.Types.{RadioDiagnostics}
use gathra_gateway.Wifi.{WifiStatus}
use gathra_gateway.Heartbeat.{classify_backend_connectivity}
use gathra_gateway.Heartbeat.Snapshot.{
  HeartbeatGateway, HeartbeatRuntime, HeartbeatNetwork, HeartbeatTime, HeartbeatLora, HeartbeatAck,
  HeartbeatQueue, HeartbeatCommands, HeartbeatSnapshot,
}
use gathra_gateway.Worker.Types.{RuntimeConfig, BackendStatus, Platform, Worker}
use gathra_gateway.Worker.Status.{uptime_ms}

-- What the other components and the chip answer when they are asked, and the build's flavour.
pub record Observed (F : Type 0) : Type 0 where
  pub radio : RadioDiagnostics
  pub processing : PacketProcessingStats F
  pub pairing : PairingManager
  pub wifi : WifiStatus
  pub time : TimeStatus
  pub command : GatewayCommand
  pub build_flavor : List ℕ
  pub reset_reason : List ℕ
  pub boot_count : ℕ
  pub free_heap_bytes : ℕ
  pub min_free_heap_bytes : ℕ
  pub largest_free_heap_block_bytes : ℕ
  pub sketch_size_bytes : ℕ
  pub free_sketch_space_bytes : ℕ
  pub flash_size_bytes : ℕ

-- `a - b`, unless it is negative.
unfoldable pub positive_difference : ℤ → ℤ → Option ℕ
positive_difference (pos a) (pos b) = if leb b a then some (a - b) else none
positive_difference (pos a) (negsuc b) = some (a + b + 1)
positive_difference (negsuc a) (pos b) = none
positive_difference (negsuc a) (negsuc b) = if leb a b then some (b - a) else none

abbrev pub is_pending : CommandState → Bool
is_pending CommandState.pending = true
is_pending CommandState.sent = true
is_pending _ = false

abbrev pub seconds_or_zero : Option ℕ → ℕ
seconds_or_zero none = 0
seconds_or_zero (some ms) = ms / 1_000

abbrev pub is_known : Option ℕ → Bool
is_known none = false
is_known (some ms) = true

abbrev pub queue_part : BackendStatus → ℕ → ℕ → Option ℕ → HeartbeatQueue
queue_part s depth limit age = record {
  depth = depth % 2 ^ 32;
  capacity = limit % 2 ^ 32;
  oldest_age_available = is_known age;
  oldest_record_age_seconds = seconds_or_zero age;
  telemetry_upload_success_count = s.telemetry_upload_success_count;
  telemetry_upload_failure_count = s.telemetry_upload_failure_count;
}

module _ {F : Type 0} where
  unfoldable pub gateway_part : RuntimeConfig → Observed F → HeartbeatGateway
  gateway_part c o = record {
    gateway_id = strncpy c.identity.gateway_id (gateway_id_capacity - 1);
    mac = strncpy c.identity.hardware_mac 17;
    firmware_version = codes "2.2.0";
    protocol_version = version;
    build_flavor = strncpy o.build_flavor 23;
  }

  unfoldable pub runtime_part : ℕ → Observed F → HeartbeatRuntime
  runtime_part uptime o = record {
    uptime_seconds = uptime / 1_000;
    reset_reason = strncpy o.reset_reason 31;
    boot_count = o.boot_count;
    free_heap_bytes = o.free_heap_bytes;
    min_free_heap_bytes = o.min_free_heap_bytes;
    largest_free_heap_block_bytes = o.largest_free_heap_block_bytes;
    sketch_size_bytes = o.sketch_size_bytes;
    free_sketch_space_bytes = o.free_sketch_space_bytes;
    flash_size_bytes = o.flash_size_bytes;
  }

  unfoldable pub network_part : BackendStatus → Observed F → HeartbeatNetwork
  network_part s o = record {
    wifi_connected = o.wifi.connected;
    ssid = strncpy o.wifi.ssid (wifi_ssid_capacity - 1);
    wifi_rssi_dbm = o.wifi.rssi_dbm;
    local_ip = strncpy o.wifi.local_ip 15;
    backend_connectivity_state =
        classify_backend_connectivity s.telemetry_upload_success_count s.consecutive_failures;
    last_backend_success_unix_ms = s.last_success_unix_ms;
    last_backend_error_unix_ms = s.last_error_unix_ms;
    consecutive_backend_failures = s.consecutive_failures;
  }

  unfoldable pub time_part : Observed F → HeartbeatTime
  time_part o = record {
    valid = o.time.trusted;
    current_unix_ms = if o.time.trusted then o.time.current_unix_ms else negsuc 0;
    last_ntp_sync_unix_ms = if o.time.trusted then o.time.last_sync_unix_ms else negsuc 0;
  }

  unfoldable pub lora_part : Observed F → HeartbeatLora
  lora_part o =
      let r = o.radio in
      record {
        paired = paired o.pairing;
        paired_node_id = strncpy o.pairing.paired_node_id (node_id_capacity - 1);
        latest_reception_available = not (r.last_rx_uptime_us == 0);
        last_rx_unix_ms = r.last_rx_unix_ms;
        latest_rssi_dbm = r.last_rssi_dbm;
        latest_snr_db = r.last_snr_db;
        latest_frequency_error_hz = r.last_frequency_error_hz;
        received_packet_count = r.received_packets;
        valid_telemetry_count = o.processing.valid_telemetry_packets;
        invalid_packet_count =
            (r.crc_errors + r.invalid_length_packets + r.read_errors + o.processing.decode_errors)
            % 2 ^ 64;
        crc_error_count = r.crc_errors;
        protocol_rejected_packet_count = o.processing.decode_errors;
        unpaired_rejected_packet_count = o.processing.unknown_node_packets;
      }

  unfoldable pub ack_part : Observed F → HeartbeatAck F
  ack_part o =
      let s = o.processing in
      let count = (s.ack_sent + s.ack_failures) % 2 ^ 64 in
      record {
        count = count;
        success_count = s.ack_sent;
        failure_count = s.ack_failures;
        latest_available =
            ltb 0 count
            && ltb 0 s.last_rx_to_ack_complete_us
            && leb s.last_rx_to_ack_start_us s.last_rx_to_ack_complete_us;
        latest_rx_to_start_us = s.last_rx_to_ack_start_us;
        latest_rx_to_complete_us = s.last_rx_to_ack_complete_us;
        rx_to_start = s.successful_ack_latency.rx_to_start;
        rx_to_complete = s.successful_ack_latency.rx_to_complete;
        tx_duration = s.successful_ack_latency.tx_duration;
      }

  unfoldable pub commands_part : Observed F → HeartbeatCommands
  commands_part o =
      let c = o.command in
      record {
        pending = is_pending c.state;
        pending_command_id = c.command_id;
        pending_command_type = strncpy (codes (command_type_name c.type)) 39;
        pending_command_state = strncpy (codes (command_state_name c.state)) 15;
        last_available = not (c.command_id == 0);
        last_command_id = c.command_id;
        last_command_result = strncpy (codes (command_result_name c.result)) 31;
        commands_sent_count = o.radio.commands_sent_count;
        command_results_received_count = o.processing.valid_command_result_packets;
      }

  -- The age of the oldest record, by the clock where both times are trusted, and otherwise by the uptime
  -- where the record was received since the start.
  unfoldable pub age_ms : RuntimeConfig → Observed F → ℕ → List QueueRecord → Option ℕ
  unfolding positive_difference
  age_ms c o uptime [] = none
  age_ms c o uptime (oldest ∷ _) =
      let m = oldest.reception in
      if o.time.trusted && m.gateway_time_trusted
      then positive_difference o.time.current_unix_ms m.gateway_received_unix_ms
      else if m.gateway_boot_session_id == c.identity.boot_session_id
      then positive_difference (pos uptime) (pos m.gateway_uptime_ms)
      else none

  -- Whether the age is taken from the uptime.
  unfoldable pub by_uptime : RuntimeConfig → Observed F → List QueueRecord → Bool
  by_uptime c o [] = false
  by_uptime c o (oldest ∷ _) =
      not (o.time.trusted && oldest.reception.gateway_time_trusted)
      && oldest.reception.gateway_boot_session_id == c.identity.boot_session_id

module _ {S N E F : Type 0} (dev : Device S N) (p : Platform E (DurableQueue S N)) where
  -- The oldest record is read where there is one; the worker's pointers are not null.
  unfoldable pub capture_heartbeat_snapshot :
      Worker S N E → RuntimeConfig → Observed F → Worker S N E × HeartbeatSnapshot F
  unfolding gateway_part runtime_part network_part time_part lora_part ack_part commands_part age_ms
      by_uptime
  capture_heartbeat_snapshot w c o =
      let (e, uptime) = uptime_ms p w.outside in
      let depth = size w.queue in
      let (queue', oldest, okay) = peek dev w.queue 1 in
      let (e', later) = uptime_ms p e in
      let last = if okay && by_uptime c o oldest then e' else e in
      let w' =
        if ltb 0 depth
        then record w { outside = last; queue = queue' }
        else record w { outside = e } in
      let age = if ltb 0 depth && okay then age_ms c o later oldest else none in
      (
        w',
        record {
          heartbeat_interval_seconds = c.heartbeat_interval_seconds;
          gateway = gateway_part c o;
          runtime = runtime_part uptime o;
          network = network_part w.status o;
          time = time_part o;
          lora = lora_part o;
          ack = ack_part o;
          queue = queue_part w.status depth (capacity w.queue) age;
          commands = commands_part o;
        },
      )
