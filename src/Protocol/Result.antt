-- ===== src/Protocol/Result.antt =====
-- lib/protocol/protocol.cpp: the COMMAND_RESULT message.
pub mod RoundTrip
use gathra_gateway.Prelude.{
  ℕ, ◌≡◌, Bool, true, false, not, ◌&&◌, ◌||◌, List, [], Option, none, some, ◌==◌, if◌then◌else◌,
}
use gathra_gateway.Protocol.Types.{MessageType, DecodeStatus, CommandType, CommandResultPacket}
use gathra_gateway.Protocol.Codes.{
  command_code, command_type, command_type_eq, result_code, command_result_code, valid_command,
  valid_result,
}
use gathra_gateway.Protocol.Wire.{
  Writer, W, finish, ◌>>◌, put_u8, put_u32, R, ◌>>=◌, ret, get_u8, get_u32,
}
use gathra_gateway.Protocol.Header.{
  Decoded, ok, fail, or_fail, at_end, ◌>>=◌ as then_decode, write_header, read_header,
}

pub record Fields : Type 0 where
  pub persistent_session_id : ℕ
  pub command_id : ℕ
  pub command : ℕ
  pub result : ℕ
  pub effective_poll_interval_minutes : ℕ
  pub scheduled_maintenance_unix : ℕ

unfoldable pub result_fields : CommandResultPacket → Fields
unfolding command_code result_code
result_fields p = record {
  persistent_session_id = p.persistent_session_id;
  command_id = p.command_id;
  command = command_code p.command_type;
  result = result_code p.result_code;
  effective_poll_interval_minutes = p.effective_poll_interval_minutes;
  scheduled_maintenance_unix = p.scheduled_maintenance_unix;
}

unfoldable pub write_fields : Fields → W
unfolding put_u8 put_u32
write_fields f = do
  put_u32 f.persistent_session_id
  put_u32 f.command_id
  put_u8 f.command
  put_u8 f.result
  put_u8 f.effective_poll_interval_minutes
  put_u32 f.scheduled_maintenance_unix

unfoldable pub read_fields : R Fields
unfolding get_u8 get_u32
read_fields = do
  persistent_session_id ← get_u32
  command_id ← get_u32
  command ← get_u8
  result ← get_u8
  effective_poll_interval_minutes ← get_u8
  scheduled_maintenance_unix ← get_u32
  ret (record {
    persistent_session_id = persistent_session_id;
    command_id = command_id;
    command = command;
    result = result;
    effective_poll_interval_minutes = effective_poll_interval_minutes;
    scheduled_maintenance_unix = scheduled_maintenance_unix;
  })

unfoldable pub result_writes : CommandResultPacket → W
unfolding write_header result_fields write_fields
result_writes p = do
  write_header MessageType.command_result p.node_id
  write_fields (result_fields p)

unfoldable pub encode_command_result : CommandResultPacket → Option ℕ → Option (List ℕ)
unfolding result_writes command_type_eq valid_result result_code
encode_command_result p none = none
encode_command_result p (some capacity) =
    if p.command_id == 0
      || command_type_eq p.command_type CommandType.none
      || not (valid_result (result_code p.result_code) false)
    then none
    else finish (result_writes p (record { capacity = capacity; bytes = [] }))

unfoldable pub result_of : List ℕ → Fields → CommandResultPacket
unfolding command_type command_result_code
result_of node_id f = record {
  node_id = node_id;
  persistent_session_id = f.persistent_session_id;
  command_id = f.command_id;
  command_type = command_type f.command;
  result_code = command_result_code f.result;
  effective_poll_interval_minutes = f.effective_poll_interval_minutes;
  scheduled_maintenance_unix = f.scheduled_maintenance_unix;
}

valid_fields : Fields → Bool
unfolding valid_command valid_result
valid_fields f = not (
    not (valid_command f.command)
    || f.command == 0
    || not (valid_result f.result false)
    || f.command_id == 0)

check_fields : List ℕ → Fields × List ℕ → Decoded CommandResultPacket
check_fields node_id (f, rest) =
    if not (valid_fields f)
    then fail DecodeStatus.invalid_command
    else at_end (result_of node_id f) rest

read_result : List ℕ × List ℕ → Decoded CommandResultPacket
read_result (node_id, s) =
    then_decode (or_fail (read_fields s) DecodeStatus.buffer_too_small) (check_fields node_id)

unfoldable pub decode_command_result : Option (List ℕ) → Decoded CommandResultPacket
unfolding read_header read_result check_fields valid_fields read_fields result_of
decode_command_result none = fail DecodeStatus.buffer_too_small
decode_command_result (some input) =
    then_decode (read_header MessageType.command_result input) read_result
