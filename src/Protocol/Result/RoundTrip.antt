-- ===== src/Protocol/Result/RoundTrip.antt =====
-- lib/protocol/protocol.cpp: `encodeCommandResult` and `decodeCommandResult` undo one another.
use gathra_gateway.Prelude.{
  lt-IsByte, ℕ, ◌+◌, ◌≤◌, ◌<◌, ◌≡◌, ap, true, false, List, [], ◌++◌, some, arith, length,
  length-append, IsByte, IsU32, le→leb, ne→==_false,
}
use gathra_gateway.Protocol.Types.{MessageType, CommandType, CommandResultPacket}
use gathra_gateway.Protocol.Codes.{
  valid_result, result_code, IsNamedType, IsNamedResult, command_type-command_code,
  command_result_code-result_code, command_type_eq,
}
use gathra_gateway.Protocol.Wire.{
  put_bytes, put_bytes-put_bytes, put_bytes_fits, finish, writes, be8, be32, join8, join32, get_u8,
  get_u32,
}
use gathra_gateway.Protocol.Header.{ok, IsNodeId}
use gathra_gateway.Protocol.Header.RoundTrip.{header, write_header-put_bytes, read_header-header}
use gathra_gateway.Protocol.Result.{
  Fields, result_fields, result_of, write_fields, read_fields, result_writes, encode_command_result,
  decode_command_result, valid_fields,
}

pub field_bytes : Fields → List ℕ
field_bytes f =
    be32 f.persistent_session_id
    ++ (be32 f.command_id
        ++ (be8 f.command
            ++ (be8 f.result
                ++ (be8 f.effective_poll_interval_minutes ++ be32 f.scheduled_maintenance_unix))))

record IsInRange (f : Fields) : Type 0 where
  persistent_session_id : IsU32 f.persistent_session_id
  command_id : IsU32 f.command_id
  command : IsByte f.command
  result : IsByte f.result
  effective_poll_interval_minutes : IsByte f.effective_poll_interval_minutes
  scheduled_maintenance_unix : IsU32 f.scheduled_maintenance_unix

write_fields-put_bytes : (f : Fields) → write_fields f ≡ put_bytes (field_bytes f)
unfolding write_fields field_bytes
write_fields-put_bytes f = simp writes

read_fields-field_bytes : (f : Fields) → IsInRange f → read_fields (field_bytes f) ≡ some (f, [])
unfolding read_fields field_bytes get_u8 get_u32
read_fields-field_bytes f v = λ i. some (
  record {
    persistent_session_id = join32 f.persistent_session_id v.persistent_session_id i;
    command_id = join32 f.command_id v.command_id i;
    command = join8 f.command v.command i;
    result = join8 f.result v.result i;
    effective_poll_interval_minutes =
        join8 f.effective_poll_interval_minutes v.effective_poll_interval_minutes i;
    scheduled_maintenance_unix = join32 f.scheduled_maintenance_unix v.scheduled_maintenance_unix i;
  },
  [],
)

-- A result that a node may report: a command that the source names, with its identifier.
pub record IsEncodable (p : CommandResultPacket) : Type 0 where
  pub node_id : IsNodeId p.node_id
  pub persistent_session_id : IsU32 p.persistent_session_id
  pub command_id : IsU32 p.command_id
  pub effective_poll_interval_minutes : IsByte p.effective_poll_interval_minutes
  pub scheduled_maintenance_unix : IsU32 p.scheduled_maintenance_unix
  pub identified : 0 < p.command_id
  pub named_type : IsNamedType p.command_type
  pub is_command : command_type_eq p.command_type CommandType.none ≡ false
  pub named_result : IsNamedResult p.result_code
  pub is_result : valid_result (result_code p.result_code) false ≡ true

result_fields-IsInRange : (p : CommandResultPacket) → IsEncodable p → IsInRange (result_fields p)
unfolding result_fields
result_fields-IsInRange p v = record {
  persistent_session_id = v.persistent_session_id;
  command_id = v.command_id;
  command = lt-IsByte (command_type-command_code p.command_type v.named_type).1 (omega arith);
  result = lt-IsByte (command_result_code-result_code p.result_code v.named_result).2 (omega arith);
  effective_poll_interval_minutes = v.effective_poll_interval_minutes;
  scheduled_maintenance_unix = v.scheduled_maintenance_unix;
}

result_of-result_fields :
    (p : CommandResultPacket) → IsEncodable p → result_of p.node_id (result_fields p) ≡ p
unfolding result_of result_fields
result_of-result_fields p v = λ i. record p {
  command_type = (command_type-command_code p.command_type v.named_type).0 i;
  result_code = (command_result_code-result_code p.result_code v.named_result).0 i;
}

valid_fields-result_fields :
    (p : CommandResultPacket) → IsEncodable p → valid_fields (result_fields p) ≡ true
unfolding valid_fields result_fields command_type_eq valid_result
valid_fields-result_fields p v = rw (
  le→leb _ _ (command_type-command_code p.command_type v.named_type).1,
  v.is_command,
  v.is_result,
  ne→==_false p.command_id 0 (omega arith),
)

abbrev pub result_bytes : CommandResultPacket → List ℕ
result_bytes p = header MessageType.command_result p.node_id ++ field_bytes (result_fields p)

length-result_bytes : (p : CommandResultPacket) → length (result_bytes p) ≡ 20 + length p.node_id
unfolding field_bytes
length-result_bytes p = omega (arith, length-append p.node_id (field_bytes (result_fields p)))

result_writes-put_bytes :
    (p : CommandResultPacket) → IsEncodable p → result_writes p ≡ put_bytes (result_bytes p)
unfolding result_writes
result_writes-put_bytes p v =
    rw
      (
        write_header-put_bytes MessageType.command_result p.node_id v.node_id,
        write_fields-put_bytes (result_fields p),
      )
      (put_bytes-put_bytes (header MessageType.command_result p.node_id)
        (field_bytes (result_fields p)))

encode_command_result_lem :
    (p : CommandResultPacket) (capacity : ℕ)
    → IsEncodable p
    → 20 + length p.node_id ≤ capacity
    → encode_command_result p (some capacity) ≡ some (result_bytes p)
unfolding encode_command_result
encode_command_result_lem p capacity v h =
    rw
      (
        ne→==_false p.command_id 0 (omega arith),
        v.is_command,
        v.is_result,
        result_writes-put_bytes p v,
      )
      (ap finish (
        put_bytes_fits (result_bytes p) (record { capacity = capacity; bytes = [] })
          (omega (arith, length-result_bytes p))))

pub decode_command_result_lem :
    (p : CommandResultPacket) → IsEncodable p → decode_command_result (some (result_bytes p)) ≡ ok p
unfolding decode_command_result
decode_command_result_lem p v = ground (
  arith,
  read_header-header MessageType.command_result p.node_id (field_bytes (result_fields p)) v.node_id,
  read_fields-field_bytes (result_fields p) (result_fields-IsInRange p v),
  valid_fields-result_fields p v,
  result_of-result_fields p v,
)

-- A command result that is encoded into a buffer of 44 bytes or more is decoded to itself, and its
-- encoding takes 20 bytes and the node identifier.
pub decode-encode_command_result :
    (p : CommandResultPacket) (capacity : ℕ)
    → IsEncodable p
    → 44 ≤ capacity
    → (bytes : List ℕ) × (encode_command_result p (some capacity) ≡ some bytes)
      × (decode_command_result (some bytes) ≡ ok p)
      × (length bytes ≡ 20 + length p.node_id)
decode-encode_command_result p capacity v h = (
  result_bytes p,
  encode_command_result_lem p capacity v (omega arith),
  decode_command_result_lem p v,
  length-result_bytes p,
)
