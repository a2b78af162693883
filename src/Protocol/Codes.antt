-- ===== src/Protocol/Codes.antt =====
-- lib/protocol/protocol.hpp and protocol.cpp: the numbers that stand for the enumerators on the wire,
-- the casts between the two, and the range checks.
use gathra_gateway.Prelude.{
  ℕ, ◌≡◌, refl, Bool, true, ◌&&◌, ◌||◌, arith, leb, ◌==◌, if◌then◌else◌, ◌≤◌,
}
use gathra_gateway.Protocol.Types.{
  MessageType, FilterState, BootReason, RtcState, ScheduleState, CommandType, CommandResultCode,
}

unfoldable pub message_code : MessageType → ℕ
message_code MessageType.telemetry = 1
message_code MessageType.ack_command = 2
message_code MessageType.command_result = 3

unfoldable pub filter_code : FilterState → ℕ
filter_code FilterState.stable = 0
filter_code FilterState.accepted = 1
filter_code FilterState.verify_rise = 2
filter_code FilterState.verify_fall = 3
filter_code FilterState.transient_rejected = 4
filter_code FilterState.change_confirmed = 5
filter_code FilterState.uncertain = 6
filter_code FilterState.invalid = 7

unfoldable pub filter_state : ℕ → FilterState
filter_state v =
    if v == 0
    then FilterState.stable
    else if v == 1
    then FilterState.accepted
    else if v == 2
    then FilterState.verify_rise
    else if v == 3
    then FilterState.verify_fall
    else if v == 4
    then FilterState.transient_rejected
    else if v == 5
    then FilterState.change_confirmed
    else if v == 6
    then FilterState.uncertain
    else FilterState.invalid

unfoldable pub boot_code : BootReason → ℕ
boot_code BootReason.rtc_timer = 0
boot_code BootReason.rtc_scheduled_maintenance = 1
boot_code BootReason.manual_button = 2
boot_code BootReason.maintenance_reboot = 3
boot_code BootReason.ota_reboot = 4
boot_code BootReason.unknown = 5

unfoldable pub boot_reason : ℕ → BootReason
boot_reason v =
    if v == 0
    then BootReason.rtc_timer
    else if v == 1
    then BootReason.rtc_scheduled_maintenance
    else if v == 2
    then BootReason.manual_button
    else if v == 3
    then BootReason.maintenance_reboot
    else if v == 4
    then BootReason.ota_reboot
    else BootReason.unknown

unfoldable pub rtc_code : RtcState → ℕ
rtc_code RtcState.valid = 0
rtc_code RtcState.invalid_vl = 1
rtc_code RtcState.uninitialized = 2
rtc_code RtcState.i2c_error = 3

unfoldable pub rtc_state : ℕ → RtcState
rtc_state v =
    if v == 0
    then RtcState.valid
    else if v == 1
    then RtcState.invalid_vl
    else if v == 2
    then RtcState.uninitialized
    else RtcState.i2c_error

unfoldable pub schedule_code : ScheduleState → ℕ
schedule_code ScheduleState.none = 0
schedule_code ScheduleState.pending = 1
schedule_code ScheduleState.completed = 2
schedule_code ScheduleState.failed = 3

unfoldable pub schedule_state : ℕ → ScheduleState
schedule_state v =
    if v == 0
    then ScheduleState.none
    else if v == 1
    then ScheduleState.pending
    else if v == 2
    then ScheduleState.completed
    else ScheduleState.failed

unfoldable pub command_code : CommandType → ℕ
command_code CommandType.none = 0
command_code CommandType.enter_maintenance_now = 1
command_code CommandType.schedule_maintenance_at = 2
command_code CommandType.set_poll_interval_minutes = 3
command_code (CommandType.unnamed n) = n

unfoldable pub command_type : ℕ → CommandType
command_type v =
    if v == 0
    then CommandType.none
    else if v == 1
    then CommandType.enter_maintenance_now
    else if v == 2
    then CommandType.schedule_maintenance_at
    else if v == 3
    then CommandType.set_poll_interval_minutes
    else CommandType.unnamed v

unfoldable pub result_code : CommandResultCode → ℕ
result_code CommandResultCode.applied = 0
result_code CommandResultCode.already_applied = 1
result_code CommandResultCode.invalid_argument = 2
result_code CommandResultCode.rtc_unavailable = 3
result_code CommandResultCode.rtc_time_untrusted = 4
result_code CommandResultCode.schedule_unrepresentable = 5
result_code CommandResultCode.storage_error = 6
result_code CommandResultCode.internal_error = 7
result_code CommandResultCode.none = 255
result_code (CommandResultCode.unnamed n) = n

unfoldable pub command_result_code : ℕ → CommandResultCode
command_result_code v =
    if v == 0
    then CommandResultCode.applied
    else if v == 1
    then CommandResultCode.already_applied
    else if v == 2
    then CommandResultCode.invalid_argument
    else if v == 3
    then CommandResultCode.rtc_unavailable
    else if v == 4
    then CommandResultCode.rtc_time_untrusted
    else if v == 5
    then CommandResultCode.schedule_unrepresentable
    else if v == 6
    then CommandResultCode.storage_error
    else if v == 7
    then CommandResultCode.internal_error
    else if v == 255
    then CommandResultCode.none
    else CommandResultCode.unnamed v

-- Two values of an enumeration are equal if their numbers are.
unfoldable pub command_type_eq : CommandType → CommandType → Bool
unfolding command_code
command_type_eq a b = command_code a == command_code b

unfoldable pub result_code_eq : CommandResultCode → CommandResultCode → Bool
unfolding result_code
result_code_eq a b = result_code a == result_code b

unfoldable pub valid_filter : ℕ → Bool
valid_filter v = leb v 7

unfoldable pub valid_boot : ℕ → Bool
valid_boot v = leb v 5

unfoldable pub valid_rtc : ℕ → Bool
valid_rtc v = leb v 3

unfoldable pub valid_schedule : ℕ → Bool
valid_schedule v = leb v 3

unfoldable pub valid_command : ℕ → Bool
valid_command v = leb v 3

unfoldable pub valid_result : ℕ → Bool → Bool
valid_result v allow_none = leb v 7 || (allow_none && v == 255)

-- The values that the source names.
abbrev pub IsNamedType : CommandType → Type 0
IsNamedType (CommandType.unnamed n) = ⊥
IsNamedType _ = Unit {0}

abbrev pub IsNamedResult : CommandResultCode → Type 0
IsNamedResult (CommandResultCode.unnamed n) = ⊥
IsNamedResult _ = Unit {0}

pub filter_state-filter_code :
    (s : FilterState) → (filter_state (filter_code s) ≡ s) × (filter_code s ≤ 7)
unfolding filter_state filter_code
filter_state-filter_code FilterState.stable = (refl, omega arith)
filter_state-filter_code _ = (refl, omega arith)

pub boot_reason-boot_code : (s : BootReason) → (boot_reason (boot_code s) ≡ s) × (boot_code s ≤ 5)
unfolding boot_reason boot_code
boot_reason-boot_code BootReason.rtc_timer = (refl, omega arith)
boot_reason-boot_code _ = (refl, omega arith)

pub rtc_state-rtc_code : (s : RtcState) → (rtc_state (rtc_code s) ≡ s) × (rtc_code s ≤ 3)
unfolding rtc_state rtc_code
rtc_state-rtc_code RtcState.valid = (refl, omega arith)
rtc_state-rtc_code _ = (refl, omega arith)

pub schedule_state-schedule_code :
    (s : ScheduleState) → (schedule_state (schedule_code s) ≡ s) × (schedule_code s ≤ 3)
unfolding schedule_state schedule_code
schedule_state-schedule_code ScheduleState.none = (refl, omega arith)
schedule_state-schedule_code _ = (refl, omega arith)

pub command_type-command_code :
    (t : CommandType) → IsNamedType t → (command_type (command_code t) ≡ t) × (command_code t ≤ 3)
unfolding command_type command_code
command_type-command_code (CommandType.unnamed n) h = absurd h
command_type-command_code _ h = (refl, omega arith)

pub command_result_code-result_code :
    (r : CommandResultCode)
    → IsNamedResult r
    → (command_result_code (result_code r) ≡ r)
      × (valid_result (result_code r) true ≡ true)
      × (result_code r ≤ 255)
unfolding command_result_code result_code valid_result
command_result_code-result_code (CommandResultCode.unnamed n) h = absurd h
command_result_code-result_code _ h = (refl, refl, omega arith)
