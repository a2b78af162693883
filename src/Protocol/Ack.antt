-- ===== src/Protocol/Ack.antt =====
-- lib/protocol/protocol.cpp: the ACK_COMMAND message, and the acknowledgement of a packet.
pub mod Payload
pub mod RoundTrip
use gathra_gateway.Prelude.{
  ℕ, ◌-◌, ◌/◌, ◌*◌, ◌%◌, ◌≡◌, Bool, true, false, not, ◌&&◌, ◌||◌, List, [], Option, none, some, leb,
  ◌==◌, if◌then◌else◌,
}
use gathra_gateway.Build.{node_id_capacity}
use gathra_gateway.Text.{strncpy, strncmp_eq}
use gathra_gateway.Protocol.Types.{
  MessageType, DecodeStatus, CommandType, TelemetryPacket, AckCommandPacket, empty_ack,
}
use gathra_gateway.Protocol.Codes.{command_code, command_type, command_type_eq, valid_command}
use gathra_gateway.Protocol.Wire.{
  Writer, W, refuse, finish, ◌>>◌, put_u8, put_u32, put_bytes, R, ◌>>=◌, ret, get_u8, get_u32,
}
use gathra_gateway.Protocol.Header.{
  Decoded, ok, fail, or_fail, at_end, ◌>>=◌ as then_decode, write_header, read_header,
}

unfoldable pub command_payload_length : CommandType → ℕ
command_payload_length CommandType.none = 0
command_payload_length CommandType.enter_maintenance_now = 0
command_payload_length CommandType.set_poll_interval_minutes = 1
command_payload_length CommandType.schedule_maintenance_at = 4
command_payload_length (CommandType.unnamed n) = 255

unfoldable pub ack_valid : AckCommandPacket → Bool
unfolding command_type_eq
ack_valid p =
    if not p.time_valid && not (p.gateway_unix_time == 0)
    then false
    else if command_type_eq p.command_type CommandType.none
    then p.command_id == 0
    else if p.command_id == 0
    then false
    else if command_type_eq p.command_type CommandType.set_poll_interval_minutes
    then leb 1 p.poll_interval_minutes
    else if command_type_eq p.command_type CommandType.schedule_maintenance_at
    then not (p.scheduled_maintenance_unix == 0)
    else command_type_eq p.command_type CommandType.enter_maintenance_now

-- The members between the header and the payload, as they stand on the wire.
pub record Fields : Type 0 where
  pub persistent_session_id : ℕ
  pub sequence : ℕ
  pub gateway_unix_time : ℕ
  pub flags : ℕ
  pub command_id : ℕ
  pub command : ℕ
  pub payload_length : ℕ

unfoldable pub ack_fields : AckCommandPacket → Fields
unfolding command_code command_payload_length
ack_fields p = record {
  persistent_session_id = p.persistent_session_id;
  sequence = p.sequence;
  gateway_unix_time = p.gateway_unix_time;
  flags = if p.time_valid then 1 else 0;
  command_id = p.command_id;
  command = command_code p.command_type;
  payload_length = command_payload_length p.command_type;
}

unfoldable pub write_fields : Fields → W
unfolding put_u8 put_u32
write_fields f = do
  put_u32 f.persistent_session_id
  put_u32 f.sequence
  put_u32 f.gateway_unix_time
  put_u8 f.flags
  put_u32 f.command_id
  put_u8 f.command
  put_u8 f.payload_length

unfoldable pub read_fields : R Fields
unfolding get_u8 get_u32
read_fields = do
  persistent_session_id ← get_u32
  sequence ← get_u32
  gateway_unix_time ← get_u32
  flags ← get_u8
  command_id ← get_u32
  command ← get_u8
  payload_length ← get_u8
  ret (record {
    persistent_session_id = persistent_session_id;
    sequence = sequence;
    gateway_unix_time = gateway_unix_time;
    flags = flags;
    command_id = command_id;
    command = command;
    payload_length = payload_length;
  })

unfoldable pub write_payload : CommandType → ℕ → ℕ → W
unfolding command_type_eq
write_payload type poll at = do
  (if command_type_eq type CommandType.set_poll_interval_minutes then put_u8 poll else some)
  (if command_type_eq type CommandType.schedule_maintenance_at then put_u32 at else some)

unfoldable pub read_payload : CommandType → R (ℕ × ℕ)
unfolding command_type_eq get_u8 get_u32
read_payload type = do
  poll ← if command_type_eq type CommandType.set_poll_interval_minutes then get_u8 else ret 0
  at ← if command_type_eq type CommandType.schedule_maintenance_at then get_u32 else ret 0
  ret (poll, at)

unfoldable pub ack_writes : AckCommandPacket → W
unfolding write_header ack_fields write_fields write_payload
ack_writes p = do
  write_header MessageType.ack_command p.node_id
  write_fields (ack_fields p)
  write_payload p.command_type p.poll_interval_minutes p.scheduled_maintenance_unix

unfoldable pub encode_ack_command : AckCommandPacket → Option ℕ → Option (List ℕ)
unfolding ack_valid ack_writes put_u8 put_u32 put_bytes
encode_ack_command p none = none
encode_ack_command p (some capacity) =
    if not (ack_valid p)
    then none
    else finish (ack_writes p (record { capacity = capacity; bytes = [] }))

unfoldable pub ack_of : List ℕ → Fields → ℕ × ℕ → AckCommandPacket
unfolding command_type
ack_of node_id f (poll, at) = record {
  node_id = node_id;
  persistent_session_id = f.persistent_session_id;
  sequence = f.sequence;
  gateway_unix_time = f.gateway_unix_time;
  time_valid = not (f.flags % 2 == 0);
  command_id = f.command_id;
  command_type = command_type f.command;
  poll_interval_minutes = poll;
  scheduled_maintenance_unix = at;
}

check_ack : AckCommandPacket → List ℕ → Decoded AckCommandPacket
check_ack p rest = if not (ack_valid p) then fail DecodeStatus.invalid_command else at_end p rest

-- `flags & ~kAckTimeValid` is `flags / 2 * 2`.
check_fields : List ℕ → Fields × List ℕ → Decoded AckCommandPacket
check_fields node_id (f, s) =
    if not (f.flags / 2 * 2 == 0)
    then fail DecodeStatus.invalid_flags
    else if not (valid_command f.command)
    then fail DecodeStatus.invalid_command
    else if not (f.payload_length == command_payload_length (command_type f.command))
    then fail DecodeStatus.invalid_command
    else then_decode
        (or_fail (read_payload (command_type f.command) s) DecodeStatus.buffer_too_small)
        λ r. check_ack (ack_of node_id f r.0) r.1

read_ack : List ℕ × List ℕ → Decoded AckCommandPacket
read_ack (node_id, s) =
    then_decode (or_fail (read_fields s) DecodeStatus.buffer_too_small) (check_fields node_id)

unfoldable pub decode_ack_command : Option (List ℕ) → Decoded AckCommandPacket
unfolding read_ack check_fields check_ack
decode_ack_command none = fail DecodeStatus.buffer_too_small
decode_ack_command (some input) = then_decode (read_header MessageType.ack_command input) read_ack

unfoldable pub make_ack : TelemetryPacket → ℕ → Bool → AckCommandPacket
make_ack telemetry gateway_unix time_valid = record empty_ack {
  node_id = strncpy telemetry.node_id (node_id_capacity - 1);
  persistent_session_id = telemetry.persistent_session_id;
  sequence = telemetry.sequence;
  gateway_unix_time = if time_valid then gateway_unix else 0;
  time_valid = time_valid;
}

unfoldable pub ack_matches : AckCommandPacket → TelemetryPacket → Bool
ack_matches ack telemetry =
    strncmp_eq ack.node_id telemetry.node_id node_id_capacity
    && ack.persistent_session_id == telemetry.persistent_session_id
    && ack.sequence == telemetry.sequence
