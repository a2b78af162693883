-- ===== src/Protocol/Names.antt =====
-- lib/protocol/protocol.cpp: the names that logs and the dashboard show.
use Prim.Native.String.{String}
use gathra_gateway.Protocol.Types.{
  DecodeStatus, FilterState, BootReason, RtcState, ScheduleState, CommandType, CommandResultCode,
}

unfoldable pub decode_status_name : DecodeStatus → String
decode_status_name DecodeStatus.ok = "OK"
decode_status_name DecodeStatus.buffer_too_small = "BUFFER_TOO_SMALL"
decode_status_name DecodeStatus.bad_magic = "BAD_MAGIC"
decode_status_name DecodeStatus.unsupported_version = "UNSUPPORTED_VERSION"
decode_status_name DecodeStatus.wrong_type = "WRONG_TYPE"
decode_status_name DecodeStatus.invalid_node_id = "INVALID_NODE_ID"
decode_status_name DecodeStatus.invalid_enum = "INVALID_ENUM"
decode_status_name DecodeStatus.invalid_flags = "INVALID_FLAGS"
decode_status_name DecodeStatus.invalid_command = "INVALID_COMMAND"
decode_status_name DecodeStatus.trailing_data = "TRAILING_DATA"

unfoldable pub filter_state_name : FilterState → String
filter_state_name FilterState.stable = "STABLE"
filter_state_name FilterState.accepted = "ACCEPTED"
filter_state_name FilterState.verify_rise = "VERIFY_RISE"
filter_state_name FilterState.verify_fall = "VERIFY_FALL"
filter_state_name FilterState.transient_rejected = "TRANSIENT_REJECTED"
filter_state_name FilterState.change_confirmed = "CHANGE_CONFIRMED"
filter_state_name FilterState.uncertain = "UNCERTAIN"
filter_state_name FilterState.invalid = "INVALID"

unfoldable pub boot_reason_name : BootReason → String
boot_reason_name BootReason.rtc_timer = "RTC_TIMER"
boot_reason_name BootReason.rtc_scheduled_maintenance = "RTC_SCHEDULED_MAINTENANCE"
boot_reason_name BootReason.manual_button = "MANUAL_BUTTON"
boot_reason_name BootReason.maintenance_reboot = "MAINTENANCE_REBOOT"
boot_reason_name BootReason.ota_reboot = "OTA_REBOOT"
boot_reason_name BootReason.unknown = "UNKNOWN"

unfoldable pub rtc_state_name : RtcState → String
rtc_state_name RtcState.valid = "VALID"
rtc_state_name RtcState.invalid_vl = "INVALID_VL"
rtc_state_name RtcState.uninitialized = "UNINITIALIZED"
rtc_state_name RtcState.i2c_error = "I2C_ERROR"

unfoldable pub schedule_state_name : ScheduleState → String
schedule_state_name ScheduleState.none = "NONE"
schedule_state_name ScheduleState.pending = "PENDING"
schedule_state_name ScheduleState.completed = "COMPLETED"
schedule_state_name ScheduleState.failed = "FAILED"

unfoldable pub command_type_name : CommandType → String
command_type_name CommandType.none = "NONE"
command_type_name CommandType.enter_maintenance_now = "ENTER_MAINTENANCE_NOW"
command_type_name CommandType.schedule_maintenance_at = "SCHEDULE_MAINTENANCE_AT"
command_type_name CommandType.set_poll_interval_minutes = "SET_POLL_INTERVAL_MINUTES"
command_type_name (CommandType.unnamed n) = "UNKNOWN"

unfoldable pub command_result_name : CommandResultCode → String
command_result_name CommandResultCode.applied = "APPLIED"
command_result_name CommandResultCode.already_applied = "ALREADY_APPLIED"
command_result_name CommandResultCode.invalid_argument = "INVALID_ARGUMENT"
command_result_name CommandResultCode.rtc_unavailable = "RTC_UNAVAILABLE"
command_result_name CommandResultCode.rtc_time_untrusted = "RTC_TIME_UNTRUSTED"
command_result_name CommandResultCode.schedule_unrepresentable = "SCHEDULE_UNREPRESENTABLE"
command_result_name CommandResultCode.storage_error = "STORAGE_ERROR"
command_result_name CommandResultCode.internal_error = "INTERNAL_ERROR"
command_result_name CommandResultCode.none = "NONE"
command_result_name (CommandResultCode.unnamed n) = "UNKNOWN"
