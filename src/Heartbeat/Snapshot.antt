-- ===== src/Heartbeat/Snapshot.antt =====
-- lib/heartbeat/heartbeat_contract.hpp: what a heartbeat reports. A float is its bit pattern, a double is
-- a parameter.
use gathra_gateway.Prelude.{ℕ, ℤ, Bool, List}
use gathra_gateway.Metrics.{RunningStatistics}
use gathra_gateway.Heartbeat.{BackendConnectivityState}

pub record HeartbeatGateway : Type 0 where
  pub gateway_id : List ℕ
  pub mac : List ℕ
  pub firmware_version : List ℕ
  pub protocol_version : ℕ
  pub build_flavor : List ℕ

pub record HeartbeatRuntime : Type 0 where
  pub uptime_seconds : ℕ
  pub reset_reason : List ℕ
  pub boot_count : ℕ
  pub free_heap_bytes : ℕ
  pub min_free_heap_bytes : ℕ
  pub largest_free_heap_block_bytes : ℕ
  pub sketch_size_bytes : ℕ
  pub free_sketch_space_bytes : ℕ
  pub flash_size_bytes : ℕ

pub record HeartbeatNetwork : Type 0 where
  pub wifi_connected : Bool
  pub ssid : List ℕ
  pub wifi_rssi_dbm : ℤ
  pub local_ip : List ℕ
  pub backend_connectivity_state : BackendConnectivityState
  pub last_backend_success_unix_ms : ℤ
  pub last_backend_error_unix_ms : ℤ
  pub consecutive_backend_failures : ℕ

pub record HeartbeatTime : Type 0 where
  pub valid : Bool
  pub current_unix_ms : ℤ
  pub last_ntp_sync_unix_ms : ℤ

pub record HeartbeatLora : Type 0 where
  pub paired : Bool
  pub paired_node_id : List ℕ
  pub latest_reception_available : Bool
  pub last_rx_unix_ms : ℤ
  pub latest_rssi_dbm : ℕ
  pub latest_snr_db : ℕ
  pub latest_frequency_error_hz : ℤ
  pub received_packet_count : ℕ
  pub valid_telemetry_count : ℕ
  pub invalid_packet_count : ℕ
  pub crc_error_count : ℕ
  pub protocol_rejected_packet_count : ℕ
  pub unpaired_rejected_packet_count : ℕ

pub record HeartbeatAck (F : Type 0) : Type 0 where
  pub count : ℕ
  pub success_count : ℕ
  pub failure_count : ℕ
  pub latest_available : Bool
  pub latest_rx_to_start_us : ℕ
  pub latest_rx_to_complete_us : ℕ
  pub rx_to_start : RunningStatistics F
  pub rx_to_complete : RunningStatistics F
  pub tx_duration : RunningStatistics F

pub record HeartbeatQueue : Type 0 where
  pub depth : ℕ
  pub capacity : ℕ
  pub oldest_age_available : Bool
  pub oldest_record_age_seconds : ℕ
  pub telemetry_upload_success_count : ℕ
  pub telemetry_upload_failure_count : ℕ

pub record HeartbeatCommands : Type 0 where
  pub pending : Bool
  pub pending_command_id : ℕ
  pub pending_command_type : List ℕ
  pub pending_command_state : List ℕ
  pub last_available : Bool
  pub last_command_id : ℕ
  pub last_command_result : List ℕ
  pub commands_sent_count : ℕ
  pub command_results_received_count : ℕ

pub record HeartbeatSnapshot (F : Type 0) : Type 0 where
  pub heartbeat_interval_seconds : ℕ
  pub gateway : HeartbeatGateway
  pub runtime : HeartbeatRuntime
  pub network : HeartbeatNetwork
  pub time : HeartbeatTime
  pub lora : HeartbeatLora
  pub ack : HeartbeatAck F
  pub queue : HeartbeatQueue
  pub commands : HeartbeatCommands
