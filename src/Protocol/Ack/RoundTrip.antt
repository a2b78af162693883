-- ===== src/Protocol/Ack/RoundTrip.antt =====
-- lib/protocol/protocol.cpp: `encodeAckCommand` and `decodeAckCommand` undo one another, up to the
-- members that the command does not use.
use gathra_gateway.Prelude.{
  lt-IsByte, ℕ, ◌+◌, ◌*◌, ◌/◌, ◌%◌, ◌≤◌, ◌<◌, ◌≡◌, refl, Bool, true, false, not, List, [], ◌++◌,
  append_assoc, some, arith, length, length-append, IsByte, IsU32, ==_iff, le→leb, ◌==◌,
  if◌then◌else◌,
}
use gathra_gateway.Protocol.Types.{MessageType, CommandType, AckCommandPacket}
use gathra_gateway.Protocol.Codes.{
  command_code, command_type, IsNamedType, command_type-command_code, valid_command,
}
use gathra_gateway.Protocol.Wire.{
  Writer, W, ◌>>◌, >>_assoc, put_bytes, put_bytes-put_bytes, put_bytes_fits,
}
use gathra_gateway.Protocol.Header.{ok, IsNodeId}
use gathra_gateway.Protocol.Header.RoundTrip.{header, write_header-put_bytes, read_header-header}
use gathra_gateway.Protocol.Ack.{
  ack_fields, ack_of, ack_valid, write_payload, ack_writes, encode_ack_command, decode_ack_command,
  command_payload_length,
}
use gathra_gateway.Protocol.Ack.Payload.{
  IsInRange, field_bytes, length-payload_bytes, payload_bytes, read_fields-field_bytes,
  read_payload-payload_bytes, used_poll, used_time, write_fields-put_bytes, write_payload_lem,
}

-- An acknowledgement that the gateway may send.
pub record IsEncodable (p : AckCommandPacket) : Type 0 where
  pub node_id : IsNodeId p.node_id
  pub persistent_session_id : IsU32 p.persistent_session_id
  pub sequence : IsU32 p.sequence
  pub gateway_unix_time : IsU32 p.gateway_unix_time
  pub command_id : IsU32 p.command_id
  pub poll_interval_minutes : IsByte p.poll_interval_minutes
  pub scheduled_maintenance_unix : IsU32 p.scheduled_maintenance_unix
  pub named_type : IsNamedType p.command_type
  pub is_valid : ack_valid p ≡ true

-- The acknowledgement as a node decodes it.
unfoldable pub received : AckCommandPacket → AckCommandPacket
received p = record p {
  poll_interval_minutes = used_poll p.command_type p.poll_interval_minutes;
  scheduled_maintenance_unix = used_time p.command_type p.scheduled_maintenance_unix;
}

flag_byte : (b : Bool) → (if b then 1 else 0) < 256
flag_byte true = omega arith
flag_byte false = omega arith

command_payload_length-IsByte : (t : CommandType) → IsByte (command_payload_length t)
unfolding command_payload_length
command_payload_length-IsByte CommandType.none = omega arith
command_payload_length-IsByte _ = omega arith

ack_fields-IsInRange : (p : AckCommandPacket) → IsEncodable p → IsInRange (ack_fields p)
unfolding ack_fields
ack_fields-IsInRange p v = record {
  persistent_session_id = v.persistent_session_id;
  sequence = v.sequence;
  gateway_unix_time = v.gateway_unix_time;
  flags = flag_byte p.time_valid;
  command_id = v.command_id;
  command = lt-IsByte (command_type-command_code p.command_type v.named_type).1 (omega arith);
  payload_length = command_payload_length-IsByte p.command_type;
}

-- The body of a decoded acknowledgement and what the fields say of it.
ack_of-ack_fields :
    (p : AckCommandPacket)
    → IsEncodable p
    → ack_of p.node_id (ack_fields p) (
      used_poll p.command_type p.poll_interval_minutes,
      used_time p.command_type p.scheduled_maintenance_unix,
    )
      ≡ received p
unfolding ack_of ack_fields received
ack_of-ack_fields p v = λ i. record p {
  time_valid = flag p.time_valid i;
  command_type = (command_type-command_code p.command_type v.named_type).0 i;
  poll_interval_minutes = used_poll p.command_type p.poll_interval_minutes;
  scheduled_maintenance_unix = used_time p.command_type p.scheduled_maintenance_unix;
}
  where
    flag : (b : Bool) → not ((if b then 1 else 0) % 2 == 0) ≡ b
    flag true = refl
    flag false = refl

received_valid : (p : AckCommandPacket) → IsEncodable p → ack_valid (received p) ≡ true
unfolding ack_valid received used_poll used_time
received_valid p v = ground (arith, v.is_valid)

abbrev ack_bytes : AckCommandPacket → List ℕ
ack_bytes p =
    (header MessageType.ack_command p.node_id ++ field_bytes (ack_fields p))
    ++ payload_bytes p.command_type p.poll_interval_minutes p.scheduled_maintenance_unix

length-ack_bytes :
    (p : AckCommandPacket)
    → length (ack_bytes p)
      ≡ 24
        + length p.node_id
        + length (payload_bytes p.command_type p.poll_interval_minutes p.scheduled_maintenance_unix)
unfolding field_bytes
length-ack_bytes p = omega (
  arith,
  length-append (header MessageType.ack_command p.node_id ++ field_bytes (ack_fields p))
      (payload_bytes p.command_type p.poll_interval_minutes p.scheduled_maintenance_unix),
  length-append p.node_id (field_bytes (ack_fields p)),
)

ack_writes_lem :
    (p : AckCommandPacket) (capacity : ℕ)
    → IsEncodable p
    → length (ack_bytes p) ≤ capacity
    → ack_writes p (record { capacity = capacity; bytes = [] })
      ≡ some (record { capacity = capacity; bytes = ack_bytes p })
unfolding ack_writes
ack_writes_lem p capacity v h =
    rw
      (
        write_header-put_bytes MessageType.ack_command p.node_id v.node_id,
        write_fields-put_bytes (ack_fields p),
        ← >>_assoc (put_bytes (header MessageType.ack_command p.node_id))
            (put_bytes (field_bytes (ack_fields p))) payload,
        put_bytes-put_bytes (header MessageType.ack_command p.node_id) (field_bytes (ack_fields p)),
      )
      (rw (put_bytes_fits front start (omega (arith, whole)), ◌>>◌)
        (write_payload_lem p.command_type p.poll_interval_minutes p.scheduled_maintenance_unix _
          v.named_type (omega (arith, whole))))
  where
    start : Writer
    start = record { capacity = capacity; bytes = [] }

    front : List ℕ
    front = header MessageType.ack_command p.node_id ++ field_bytes (ack_fields p)

    payload : W
    payload = write_payload p.command_type p.poll_interval_minutes p.scheduled_maintenance_unix

    whole :
        length (ack_bytes p)
        ≡ length front
          + length
              (payload_bytes p.command_type p.poll_interval_minutes p.scheduled_maintenance_unix)
    whole = length-append front _

encode_ack_command_lem :
    (p : AckCommandPacket) (capacity : ℕ)
    → IsEncodable p
    → length (ack_bytes p) ≤ capacity
    → encode_ack_command p (some capacity) ≡ some (ack_bytes p)
unfolding encode_ack_command
encode_ack_command_lem p capacity v h = rw (v.is_valid, ack_writes_lem p capacity v h)

-- The tests that the decoder makes of the fields pass.
fields_pass :
    (p : AckCommandPacket)
    → IsEncodable p
    → (((ack_fields p).flags / 2 * 2 == 0) ≡ true)
      × (valid_command (ack_fields p).command ≡ true)
      × (((ack_fields p).payload_length
            == command_payload_length (command_type (ack_fields p).command))
          ≡ true)
unfolding ack_fields valid_command
fields_pass p v = (
  flag p.time_valid,
  le→leb _ _ (command_type-command_code p.command_type v.named_type).1,
  rw (command_type-command_code p.command_type v.named_type).0 ((==_iff _ _).1 refl),
)
  where
    flag : (b : Bool) → ((if b then 1 else 0) / 2 * 2 == 0) ≡ true
    flag true = refl
    flag false = refl

command_of : (p : AckCommandPacket) → (ack_fields p).command ≡ command_code p.command_type
unfolding ack_fields
command_of p = refl

decode_ack_command_lem :
    (p : AckCommandPacket)
    → IsEncodable p
    → decode_ack_command (some (ack_bytes p)) ≡ ok (received p)
unfolding decode_ack_command
decode_ack_command_lem p v = rw (append_assoc p.node_id fields payload) (
    ground (
      arith,
      read_header-header MessageType.ack_command p.node_id (fields ++ payload) v.node_id,
      read_fields-field_bytes (ack_fields p) payload (ack_fields-IsInRange p v),
      fields_pass p v,
      (command_type-command_code p.command_type v.named_type).0,
      command_of p,
      read_payload-payload_bytes p.command_type p.poll_interval_minutes p.scheduled_maintenance_unix
          v.named_type v.poll_interval_minutes v.scheduled_maintenance_unix,
      ack_of-ack_fields p v,
      received_valid p v,
    ))
  where
    fields : List ℕ
    fields = field_bytes (ack_fields p)

    payload : List ℕ
    payload = payload_bytes p.command_type p.poll_interval_minutes p.scheduled_maintenance_unix

-- An acknowledgement that is encoded into a buffer of 52 bytes or more is decoded to itself, but for
-- the poll interval and the maintenance time, which arrive as 0 where the command does not use them.
pub decode-encode_ack_command :
    (p : AckCommandPacket) (capacity : ℕ)
    → IsEncodable p
    → 52 ≤ capacity
    → (bytes : List ℕ) × (encode_ack_command p (some capacity) ≡ some bytes)
      × (decode_ack_command (some bytes) ≡ ok (received p))
decode-encode_ack_command p capacity v h = (
  ack_bytes p,
  encode_ack_command_lem p capacity v (
      omega (
        arith,
        length-ack_bytes p,
        length-payload_bytes p.command_type p.poll_interval_minutes p.scheduled_maintenance_unix,
      )),
  decode_ack_command_lem p v,
)
