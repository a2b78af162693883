-- ===== src/Protocol/Types.antt =====
-- lib/protocol/protocol.hpp: the messages of LoRa Protocol 3 and their enumerations.
-- An enumeration whose values may come from raw memory keeps its unnamed values.
use gathra_gateway.Prelude.{ℕ, ℤ, negsuc, List, [], Bool, false}

pub data MessageType : Type 0 where
  telemetry ack_command command_result : MessageType

pub data FilterState : Type 0 where
  stable accepted verify_rise verify_fall transient_rejected : FilterState
  change_confirmed uncertain invalid : FilterState

pub data BootReason : Type 0 where
  rtc_timer rtc_scheduled_maintenance manual_button maintenance_reboot : BootReason
  ota_reboot unknown : BootReason

pub data RtcState : Type 0 where
  valid invalid_vl uninitialized i2c_error : RtcState

pub data ScheduleState : Type 0 where
  none pending completed failed : ScheduleState

pub data CommandType : Type 0 where
  none enter_maintenance_now schedule_maintenance_at set_poll_interval_minutes : CommandType
  unnamed : ℕ → CommandType

pub data CommandResultCode : Type 0 where
  applied already_applied invalid_argument rtc_unavailable rtc_time_untrusted : CommandResultCode
  schedule_unrepresentable storage_error internal_error none : CommandResultCode
  unnamed : ℕ → CommandResultCode

pub data DecodeStatus : Type 0 where
  ok buffer_too_small bad_magic unsupported_version wrong_type : DecodeStatus
  invalid_node_id invalid_enum invalid_flags invalid_command trailing_data : DecodeStatus

pub record TelemetryPacket : Type 0 where
  pub node_id : List ℕ
  pub persistent_session_id : ℕ
  pub sequence : ℕ
  pub median_echo_us : ℕ
  pub raw_distance_mm : ℕ
  pub accepted_distance_mm : ℕ
  pub mad_mm : ℕ
  pub temperature_centi_c : ℤ
  pub humidity_centi_percent : ℕ
  pub battery_mv : ℕ
  pub valid_samples : ℕ
  pub total_samples : ℕ
  pub filter_state : FilterState
  pub quality_flags : ℕ
  pub health_flags : ℕ
  pub boot_reason : BootReason
  pub rtc_state : RtcState
  pub rtc_unix_time : ℕ
  pub poll_interval_minutes : ℕ
  pub schedule_state : ScheduleState
  pub scheduled_maintenance_unix : ℕ
  pub last_command_id : ℕ
  pub last_command_type : CommandType
  pub last_command_result : CommandResultCode
  pub reference_distance_mm : ℕ

pub record AckCommandPacket : Type 0 where
  pub node_id : List ℕ
  pub persistent_session_id : ℕ
  pub sequence : ℕ
  pub gateway_unix_time : ℕ
  pub time_valid : Bool
  pub command_id : ℕ
  pub command_type : CommandType
  pub poll_interval_minutes : ℕ
  pub scheduled_maintenance_unix : ℕ

pub record CommandResultPacket : Type 0 where
  pub node_id : List ℕ
  pub persistent_session_id : ℕ
  pub command_id : ℕ
  pub command_type : CommandType
  pub result_code : CommandResultCode
  pub effective_poll_interval_minutes : ℕ
  pub scheduled_maintenance_unix : ℕ

-- `TelemetryPacket{}`, `AckCommandPacket{}` and `CommandResultPacket{}`.
abbrev pub empty_telemetry : TelemetryPacket
empty_telemetry = record {
  node_id = [];
  persistent_session_id = 0;
  sequence = 0;
  median_echo_us = 0;
  raw_distance_mm = 0xffff_ffff;
  accepted_distance_mm = 0xffff_ffff;
  mad_mm = 0;
  temperature_centi_c = negsuc 32767;
  humidity_centi_percent = 0xffff;
  battery_mv = 0;
  valid_samples = 0;
  total_samples = 0;
  filter_state = FilterState.invalid;
  quality_flags = 0;
  health_flags = 0;
  boot_reason = BootReason.unknown;
  rtc_state = RtcState.uninitialized;
  rtc_unix_time = 0;
  poll_interval_minutes = 10;
  schedule_state = ScheduleState.none;
  scheduled_maintenance_unix = 0;
  last_command_id = 0;
  last_command_type = CommandType.none;
  last_command_result = CommandResultCode.none;
  reference_distance_mm = 0;
}

abbrev pub empty_ack : AckCommandPacket
empty_ack = record {
  node_id = [];
  persistent_session_id = 0;
  sequence = 0;
  gateway_unix_time = 0;
  time_valid = false;
  command_id = 0;
  command_type = CommandType.none;
  poll_interval_minutes = 0;
  scheduled_maintenance_unix = 0;
}

abbrev pub empty_command_result : CommandResultPacket
empty_command_result = record {
  node_id = [];
  persistent_session_id = 0;
  command_id = 0;
  command_type = CommandType.none;
  result_code = CommandResultCode.internal_error;
  effective_poll_interval_minutes = 0;
  scheduled_maintenance_unix = 0;
}
