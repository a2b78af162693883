-- ===== src/Protocol/Telemetry/RoundTrip.antt =====
-- lib/protocol/protocol.cpp: `encodeTelemetry` and `decodeTelemetry` undo one another.
use gathra_gateway.Prelude.{
  lt-IsByte, ℕ, ◌+◌, ◌≤◌, ◌<◌, ◌≡◌, ◌≢◌, ◌⊎◌, ap, true, List, [], ◌++◌, append-nil, some, arith,
  le→leb, ne→==_false, length, length-append, IsByte, IsU16, IsU32, IsSigned, signed16-unsigned16,
  unsigned16-IsU16,
}
use gathra_gateway.Protocol.Types.{
  MessageType, TelemetryPacket, RtcState, ScheduleState, CommandType,
}
use gathra_gateway.Protocol.Codes.{
  valid_result, IsNamedType, IsNamedResult, filter_state-filter_code, boot_reason-boot_code,
  rtc_state-rtc_code, schedule_state-schedule_code, command_type-command_code,
  command_result_code-result_code,
}
use gathra_gateway.Protocol.Wire.{
  W, put_bytes, put_bytes-put_bytes, put_bytes_fits, writes, be8, be16, be32, join8, join16, join32,
  get_u8, get_u16, get_u32,
}
use gathra_gateway.Protocol.Header.{ok, IsNodeId}
use gathra_gateway.Protocol.Header.RoundTrip.{header, write_header-put_bytes, read_header-header}
use gathra_gateway.Protocol.Telemetry.{
  Fields, fields_of, packet_of, write_fields, read_fields, telemetry_writes, encode_telemetry,
  decode_telemetry, valid_enums, valid_flags,
}

pub field_bytes : Fields → List ℕ
field_bytes f =
    (be32 f.persistent_session_id
      ++ (be32 f.sequence
          ++ (be32 f.median_echo_us
              ++ (be32 f.raw_distance_mm
                  ++ (be32 f.accepted_distance_mm
                      ++ (be16 f.mad_mm
                          ++ (be16 f.temperature
                              ++ (be16 f.humidity_centi_percent
                                  ++ (be16 f.battery_mv
                                      ++ (be8 f.valid_samples
                                          ++ (be8 f.total_samples
                                              ++ (be8 f.filter
                                                  ++ (be16 f.quality_flags
                                                      ++ (be16 f.health_flags
                                                          ++ (be8 f.boot
                                                            ++ (be8 f.rtc
                                                            ++ (be32 f.rtc_unix_time
                                                            ++ (be8 f.poll_interval_minutes
                                                            ++ (be8 f.schedule
                                                            ++ (be32 f.scheduled_maintenance_unix
                                                            ++ (be32 f.last_command_id
                                                            ++ (be8 f.command
                                                            ++ (be8 f.result
                                                            ++ (be32
                                                            f.reference_distance_mm))))))))))))))))))))))))

-- Every number fits its place on the wire.
pub record IsInRange (f : Fields) : Type 0 where
  pub persistent_session_id : IsU32 f.persistent_session_id
  pub sequence : IsU32 f.sequence
  pub median_echo_us : IsU32 f.median_echo_us
  pub raw_distance_mm : IsU32 f.raw_distance_mm
  pub accepted_distance_mm : IsU32 f.accepted_distance_mm
  pub mad_mm : IsU16 f.mad_mm
  pub temperature : IsU16 f.temperature
  pub humidity_centi_percent : IsU16 f.humidity_centi_percent
  pub battery_mv : IsU16 f.battery_mv
  pub valid_samples : IsByte f.valid_samples
  pub total_samples : IsByte f.total_samples
  pub filter : IsByte f.filter
  pub quality_flags : IsU16 f.quality_flags
  pub health_flags : IsU16 f.health_flags
  pub boot : IsByte f.boot
  pub rtc : IsByte f.rtc
  pub rtc_unix_time : IsU32 f.rtc_unix_time
  pub poll_interval_minutes : IsByte f.poll_interval_minutes
  pub schedule : IsByte f.schedule
  pub scheduled_maintenance_unix : IsU32 f.scheduled_maintenance_unix
  pub last_command_id : IsU32 f.last_command_id
  pub command : IsByte f.command
  pub result : IsByte f.result
  pub reference_distance_mm : IsU32 f.reference_distance_mm

write_fields-put_bytes : (f : Fields) → write_fields f ≡ put_bytes (field_bytes f)
unfolding write_fields field_bytes
write_fields-put_bytes f = simp writes

pub read_fields-field_bytes :
    (f : Fields) (rest : List ℕ)
    → IsInRange f
    → read_fields (field_bytes f ++ rest) ≡ some (f, rest)
unfolding read_fields field_bytes get_u8 get_u16 get_u32
read_fields-field_bytes f rest v = λ i. some (
  record {
    persistent_session_id = join32 f.persistent_session_id v.persistent_session_id i;
    sequence = join32 f.sequence v.sequence i;
    median_echo_us = join32 f.median_echo_us v.median_echo_us i;
    raw_distance_mm = join32 f.raw_distance_mm v.raw_distance_mm i;
    accepted_distance_mm = join32 f.accepted_distance_mm v.accepted_distance_mm i;
    mad_mm = join16 f.mad_mm v.mad_mm i;
    temperature = join16 f.temperature v.temperature i;
    humidity_centi_percent = join16 f.humidity_centi_percent v.humidity_centi_percent i;
    battery_mv = join16 f.battery_mv v.battery_mv i;
    valid_samples = join8 f.valid_samples v.valid_samples i;
    total_samples = join8 f.total_samples v.total_samples i;
    filter = join8 f.filter v.filter i;
    quality_flags = join16 f.quality_flags v.quality_flags i;
    health_flags = join16 f.health_flags v.health_flags i;
    boot = join8 f.boot v.boot i;
    rtc = join8 f.rtc v.rtc i;
    rtc_unix_time = join32 f.rtc_unix_time v.rtc_unix_time i;
    poll_interval_minutes = join8 f.poll_interval_minutes v.poll_interval_minutes i;
    schedule = join8 f.schedule v.schedule i;
    scheduled_maintenance_unix = join32 f.scheduled_maintenance_unix v.scheduled_maintenance_unix i;
    last_command_id = join32 f.last_command_id v.last_command_id i;
    command = join8 f.command v.command i;
    result = join8 f.result v.result i;
    reference_distance_mm = join32 f.reference_distance_mm v.reference_distance_mm i;
  },
  rest,
)

-- A packet that a node may send: members in range, enumerators that the source names, and the
-- members that the state of the clock, the schedule and the last command leave unused at zero.
pub record IsEncodable (p : TelemetryPacket) : Type 0 where
  pub node_id : IsNodeId p.node_id
  pub persistent_session_id : IsU32 p.persistent_session_id
  pub sequence : IsU32 p.sequence
  pub median_echo_us : IsU32 p.median_echo_us
  pub raw_distance_mm : IsU32 p.raw_distance_mm
  pub accepted_distance_mm : IsU32 p.accepted_distance_mm
  pub mad_mm : IsU16 p.mad_mm
  pub humidity_centi_percent : IsU16 p.humidity_centi_percent
  pub battery_mv : IsU16 p.battery_mv
  pub valid_samples : IsByte p.valid_samples
  pub total_samples : IsByte p.total_samples
  pub quality_flags : IsU16 p.quality_flags
  pub health_flags : IsU16 p.health_flags
  pub rtc_unix_time : IsU32 p.rtc_unix_time
  pub poll_interval_minutes : IsByte p.poll_interval_minutes
  pub scheduled_maintenance_unix : IsU32 p.scheduled_maintenance_unix
  pub last_command_id : IsU32 p.last_command_id
  pub reference_distance_mm : IsU32 p.reference_distance_mm
  pub temperature_centi_c : IsSigned 15 p.temperature_centi_c
  pub last_command_type : IsNamedType p.last_command_type
  pub last_command_result : IsNamedResult p.last_command_result
  pub polls : 0 < p.poll_interval_minutes
  pub clock : (p.rtc_state ≡ RtcState.valid) ⊎ (p.rtc_unix_time ≡ 0)
  pub schedule : (p.schedule_state ≢ ScheduleState.none) ⊎ (p.scheduled_maintenance_unix ≡ 0)
  pub command : (p.last_command_type ≢ CommandType.none) ⊎ (p.last_command_id ≡ 0)

fields_of-IsInRange : (p : TelemetryPacket) → IsEncodable p → IsInRange (fields_of p)
unfolding fields_of
fields_of-IsInRange p v = record {
  persistent_session_id = v.persistent_session_id;
  sequence = v.sequence;
  median_echo_us = v.median_echo_us;
  raw_distance_mm = v.raw_distance_mm;
  accepted_distance_mm = v.accepted_distance_mm;
  mad_mm = v.mad_mm;
  temperature = unsigned16-IsU16 p.temperature_centi_c;
  humidity_centi_percent = v.humidity_centi_percent;
  battery_mv = v.battery_mv;
  valid_samples = v.valid_samples;
  total_samples = v.total_samples;
  filter = lt-IsByte (filter_state-filter_code p.filter_state).1 (omega arith);
  quality_flags = v.quality_flags;
  health_flags = v.health_flags;
  boot = lt-IsByte (boot_reason-boot_code p.boot_reason).1 (omega arith);
  rtc = lt-IsByte (rtc_state-rtc_code p.rtc_state).1 (omega arith);
  rtc_unix_time = v.rtc_unix_time;
  poll_interval_minutes = v.poll_interval_minutes;
  schedule = lt-IsByte (schedule_state-schedule_code p.schedule_state).1 (omega arith);
  scheduled_maintenance_unix = v.scheduled_maintenance_unix;
  last_command_id = v.last_command_id;
  command =
      lt-IsByte (command_type-command_code p.last_command_type v.last_command_type).1 (omega arith);
  result =
      lt-IsByte (command_result_code-result_code p.last_command_result v.last_command_result).2
        (omega arith);
  reference_distance_mm = v.reference_distance_mm;
}

packet_of-fields_of : (p : TelemetryPacket) → IsEncodable p → packet_of p.node_id (fields_of p) ≡ p
unfolding packet_of fields_of
packet_of-fields_of p v = λ i. record p {
  temperature_centi_c = signed16-unsigned16 p.temperature_centi_c v.temperature_centi_c i;
  filter_state = (filter_state-filter_code p.filter_state).0 i;
  boot_reason = (boot_reason-boot_code p.boot_reason).0 i;
  rtc_state = (rtc_state-rtc_code p.rtc_state).0 i;
  schedule_state = (schedule_state-schedule_code p.schedule_state).0 i;
  last_command_type = (command_type-command_code p.last_command_type v.last_command_type).0 i;
  last_command_result =
      (command_result_code-result_code p.last_command_result v.last_command_result).0 i;
}

valid_enums_lem :
    (f : Fields)
    → f.filter ≤ 7
    → f.boot ≤ 5
    → f.rtc ≤ 3
    → f.schedule ≤ 3
    → f.command ≤ 3
    → valid_result f.result true ≡ true
    → 0 < f.poll_interval_minutes
    → valid_enums f ≡ true
unfolding valid_enums valid_result
valid_enums_lem f a b c d e r z = rw (
  le→leb f.filter 7 a,
  le→leb f.boot 5 b,
  le→leb f.rtc 3 c,
  le→leb f.schedule 3 d,
  le→leb f.command 3 e,
  r,
  ne→==_false f.poll_interval_minutes 0 (omega arith),
)

valid_enums-fields_of : (p : TelemetryPacket) → IsEncodable p → valid_enums (fields_of p) ≡ true
unfolding fields_of
valid_enums-fields_of p v =
    valid_enums_lem (fields_of p) (filter_state-filter_code p.filter_state).1
      (boot_reason-boot_code p.boot_reason).1 (rtc_state-rtc_code p.rtc_state).1
      (schedule_state-schedule_code p.schedule_state).1
      (command_type-command_code p.last_command_type v.last_command_type).1
      (command_result_code-result_code p.last_command_result v.last_command_result).1 v.polls

valid_flags-fields_of : (p : TelemetryPacket) → IsEncodable p → valid_flags (fields_of p) ≡ true
unfolding valid_flags fields_of
valid_flags-fields_of p v = ground (arith)

-- The whole message.
abbrev pub telemetry_bytes : TelemetryPacket → List ℕ
telemetry_bytes p = header MessageType.telemetry p.node_id ++ field_bytes (fields_of p)

pub length-telemetry_bytes :
    (p : TelemetryPacket) → length (telemetry_bytes p) ≡ 62 + length p.node_id
unfolding field_bytes
length-telemetry_bytes p = omega (arith, length-append p.node_id (field_bytes (fields_of p)))

telemetry_writes-put_bytes :
    (p : TelemetryPacket) → IsEncodable p → telemetry_writes p ≡ put_bytes (telemetry_bytes p)
unfolding telemetry_writes
telemetry_writes-put_bytes p v =
    rw
      (
        write_header-put_bytes MessageType.telemetry p.node_id v.node_id,
        write_fields-put_bytes (fields_of p),
      )
      (put_bytes-put_bytes (header MessageType.telemetry p.node_id) (field_bytes (fields_of p)))

pub encode_telemetry_lem :
    (p : TelemetryPacket) (capacity : ℕ)
    → IsEncodable p
    → 62 + length p.node_id ≤ capacity
    → encode_telemetry p (some capacity) ≡ some (telemetry_bytes p)
unfolding encode_telemetry
encode_telemetry_lem p capacity v h = ground (
  arith,
  ap (λ (w : W). w (record { capacity = capacity; bytes = [] })) (telemetry_writes-put_bytes p v),
  put_bytes_fits (telemetry_bytes p) (record { capacity = capacity; bytes = [] }),
  length-telemetry_bytes p,
)

read_all_fields : (f : Fields) → IsInRange f → read_fields (field_bytes f) ≡ some (f, [])
read_all_fields f v = rw append-nil at (read_fields-field_bytes f [] v)

pub decode_telemetry_lem :
    (p : TelemetryPacket) → IsEncodable p → decode_telemetry (some (telemetry_bytes p)) ≡ ok p
unfolding decode_telemetry
decode_telemetry_lem p v = ground (
  arith,
  read_header-header MessageType.telemetry p.node_id (field_bytes (fields_of p)) v.node_id,
  read_all_fields (fields_of p) (fields_of-IsInRange p v),
  valid_enums-fields_of p v,
  valid_flags-fields_of p v,
  packet_of-fields_of p v,
)

-- A telemetry packet that a node may send is decoded to itself from what is encoded into a buffer of
-- 86 bytes or more, and its encoding takes 62 bytes and the node identifier.
pub decode-encode_telemetry :
    (p : TelemetryPacket) (capacity : ℕ)
    → IsEncodable p
    → 86 ≤ capacity
    → (bytes : List ℕ) × (encode_telemetry p (some capacity) ≡ some bytes)
      × (decode_telemetry (some bytes) ≡ ok p)
      × (length bytes ≡ 62 + length p.node_id)
decode-encode_telemetry p capacity v h = (
  telemetry_bytes p,
  encode_telemetry_lem p capacity v (omega arith),
  decode_telemetry_lem p v,
  length-telemetry_bytes p,
)
