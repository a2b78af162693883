-- ===== src/Protocol/Telemetry.antt =====
-- lib/protocol/protocol.cpp: the TELEMETRY message. An output buffer is its capacity, an input the
-- bytes that it holds; `none` is a null pointer. The bytes of a failed encoding are not looked at.
pub mod RoundTrip
use gathra_gateway.Prelude.{
  ℕ, ◌≡◌, Bool, true, false, not, ◌&&◌, ◌||◌, List, [], Option, none, some, ltb, ◌==◌,
  if◌then◌else◌, signed16, unsigned16,
}
use gathra_gateway.Protocol.Types.{MessageType, DecodeStatus, TelemetryPacket}
use gathra_gateway.Protocol.Codes.{
  filter_code, filter_state, boot_code, boot_reason, rtc_code, rtc_state, schedule_code,
  schedule_state, command_code, command_type, result_code, command_result_code, valid_filter,
  valid_boot, valid_rtc, valid_schedule, valid_command, valid_result,
}
use gathra_gateway.Protocol.Wire.{
  Writer, W, finish, ◌>>◌, put_u8, put_u16, put_u32, R, ◌>>=◌, ret, get_u8, get_u16, get_u32,
}
use gathra_gateway.Protocol.Header.{
  Decoded, ok, fail, or_fail, at_end, ◌>>=◌ as then_decode, write_header, read_header,
}

-- The numbers between the header and the end, as they stand on the wire.
pub record Fields : Type 0 where
  pub persistent_session_id : ℕ
  pub sequence : ℕ
  pub median_echo_us : ℕ
  pub raw_distance_mm : ℕ
  pub accepted_distance_mm : ℕ
  pub mad_mm : ℕ
  pub temperature : ℕ
  pub humidity_centi_percent : ℕ
  pub battery_mv : ℕ
  pub valid_samples : ℕ
  pub total_samples : ℕ
  pub filter : ℕ
  pub quality_flags : ℕ
  pub health_flags : ℕ
  pub boot : ℕ
  pub rtc : ℕ
  pub rtc_unix_time : ℕ
  pub poll_interval_minutes : ℕ
  pub schedule : ℕ
  pub scheduled_maintenance_unix : ℕ
  pub last_command_id : ℕ
  pub command : ℕ
  pub result : ℕ
  pub reference_distance_mm : ℕ

unfoldable pub fields_of : TelemetryPacket → Fields
unfolding filter_code boot_code rtc_code schedule_code command_code result_code unsigned16
fields_of p = record {
  persistent_session_id = p.persistent_session_id;
  sequence = p.sequence;
  median_echo_us = p.median_echo_us;
  raw_distance_mm = p.raw_distance_mm;
  accepted_distance_mm = p.accepted_distance_mm;
  mad_mm = p.mad_mm;
  temperature = unsigned16 p.temperature_centi_c;
  humidity_centi_percent = p.humidity_centi_percent;
  battery_mv = p.battery_mv;
  valid_samples = p.valid_samples;
  total_samples = p.total_samples;
  filter = filter_code p.filter_state;
  quality_flags = p.quality_flags;
  health_flags = p.health_flags;
  boot = boot_code p.boot_reason;
  rtc = rtc_code p.rtc_state;
  rtc_unix_time = p.rtc_unix_time;
  poll_interval_minutes = p.poll_interval_minutes;
  schedule = schedule_code p.schedule_state;
  scheduled_maintenance_unix = p.scheduled_maintenance_unix;
  last_command_id = p.last_command_id;
  command = command_code p.last_command_type;
  result = result_code p.last_command_result;
  reference_distance_mm = p.reference_distance_mm;
}

unfoldable pub write_fields : Fields → W
unfolding put_u8 put_u16 put_u32
write_fields f = do
  put_u32 f.persistent_session_id
  put_u32 f.sequence
  put_u32 f.median_echo_us
  put_u32 f.raw_distance_mm
  put_u32 f.accepted_distance_mm
  put_u16 f.mad_mm
  put_u16 f.temperature
  put_u16 f.humidity_centi_percent
  put_u16 f.battery_mv
  put_u8 f.valid_samples
  put_u8 f.total_samples
  put_u8 f.filter
  put_u16 f.quality_flags
  put_u16 f.health_flags
  put_u8 f.boot
  put_u8 f.rtc
  put_u32 f.rtc_unix_time
  put_u8 f.poll_interval_minutes
  put_u8 f.schedule
  put_u32 f.scheduled_maintenance_unix
  put_u32 f.last_command_id
  put_u8 f.command
  put_u8 f.result
  put_u32 f.reference_distance_mm

unfoldable pub read_fields : R Fields
unfolding get_u8 get_u16 get_u32
read_fields = do
  persistent_session_id ← get_u32
  sequence ← get_u32
  median_echo_us ← get_u32
  raw_distance_mm ← get_u32
  accepted_distance_mm ← get_u32
  mad_mm ← get_u16
  temperature ← get_u16
  humidity_centi_percent ← get_u16
  battery_mv ← get_u16
  valid_samples ← get_u8
  total_samples ← get_u8
  filter ← get_u8
  quality_flags ← get_u16
  health_flags ← get_u16
  boot ← get_u8
  rtc ← get_u8
  rtc_unix_time ← get_u32
  poll_interval_minutes ← get_u8
  schedule ← get_u8
  scheduled_maintenance_unix ← get_u32
  last_command_id ← get_u32
  command ← get_u8
  result ← get_u8
  reference_distance_mm ← get_u32
  ret (record {
    persistent_session_id = persistent_session_id;
    sequence = sequence;
    median_echo_us = median_echo_us;
    raw_distance_mm = raw_distance_mm;
    accepted_distance_mm = accepted_distance_mm;
    mad_mm = mad_mm;
    temperature = temperature;
    humidity_centi_percent = humidity_centi_percent;
    battery_mv = battery_mv;
    valid_samples = valid_samples;
    total_samples = total_samples;
    filter = filter;
    quality_flags = quality_flags;
    health_flags = health_flags;
    boot = boot;
    rtc = rtc;
    rtc_unix_time = rtc_unix_time;
    poll_interval_minutes = poll_interval_minutes;
    schedule = schedule;
    scheduled_maintenance_unix = scheduled_maintenance_unix;
    last_command_id = last_command_id;
    command = command;
    result = result;
    reference_distance_mm = reference_distance_mm;
  })

unfoldable pub telemetry_writes : TelemetryPacket → W
unfolding write_header fields_of write_fields
telemetry_writes p = do write_header MessageType.telemetry p.node_id; write_fields (fields_of p)

-- The bytes written.
unfoldable pub encode_telemetry : TelemetryPacket → Option ℕ → Option (List ℕ)
unfolding telemetry_writes
encode_telemetry p none = none
encode_telemetry p (some capacity) =
    if p.poll_interval_minutes == 0
    then none
    else finish (telemetry_writes p (record { capacity = capacity; bytes = [] }))

valid_enums : Fields → Bool
unfolding valid_filter valid_boot valid_rtc valid_schedule valid_command valid_result
valid_enums f =
    valid_filter f.filter
    && valid_boot f.boot
    && valid_rtc f.rtc
    && valid_schedule f.schedule
    && valid_command f.command
    && valid_result f.result true
    && not (f.poll_interval_minutes == 0)

valid_flags : Fields → Bool
valid_flags f =
    not (not (f.rtc == 0) && not (f.rtc_unix_time == 0))
    && not (f.schedule == 0 && not (f.scheduled_maintenance_unix == 0))
    && not (f.command == 0 && not (f.last_command_id == 0))

unfoldable pub packet_of : List ℕ → Fields → TelemetryPacket
unfolding filter_state boot_reason rtc_state schedule_state command_type command_result_code
    signed16
packet_of node_id f = record {
  node_id = node_id;
  persistent_session_id = f.persistent_session_id;
  sequence = f.sequence;
  median_echo_us = f.median_echo_us;
  raw_distance_mm = f.raw_distance_mm;
  accepted_distance_mm = f.accepted_distance_mm;
  mad_mm = f.mad_mm;
  temperature_centi_c = signed16 f.temperature;
  humidity_centi_percent = f.humidity_centi_percent;
  battery_mv = f.battery_mv;
  valid_samples = f.valid_samples;
  total_samples = f.total_samples;
  filter_state = filter_state f.filter;
  quality_flags = f.quality_flags;
  health_flags = f.health_flags;
  boot_reason = boot_reason f.boot;
  rtc_state = rtc_state f.rtc;
  rtc_unix_time = f.rtc_unix_time;
  poll_interval_minutes = f.poll_interval_minutes;
  schedule_state = schedule_state f.schedule;
  scheduled_maintenance_unix = f.scheduled_maintenance_unix;
  last_command_id = f.last_command_id;
  last_command_type = command_type f.command;
  last_command_result = command_result_code f.result;
  reference_distance_mm = f.reference_distance_mm;
}

check_fields : List ℕ → Fields × List ℕ → Decoded TelemetryPacket
check_fields node_id (f, rest) =
    if not (valid_enums f)
    then fail DecodeStatus.invalid_enum
    else if not (valid_flags f)
    then fail DecodeStatus.invalid_flags
    else at_end (packet_of node_id f) rest

read_telemetry : List ℕ × List ℕ → Decoded TelemetryPacket
read_telemetry (node_id, s) =
    then_decode (or_fail (read_fields s) DecodeStatus.buffer_too_small) (check_fields node_id)

unfoldable pub decode_telemetry : Option (List ℕ) → Decoded TelemetryPacket
unfolding read_header read_telemetry check_fields valid_enums valid_flags read_fields packet_of
decode_telemetry none = fail DecodeStatus.buffer_too_small
decode_telemetry (some input) = then_decode (read_header MessageType.telemetry input) read_telemetry
