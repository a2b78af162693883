-- ===== src/Protocol/Ack/Payload.antt =====
-- lib/protocol/protocol.cpp: the fields of an acknowledgement and its payload are written and read back.
use gathra_gateway.Prelude.{
  ℕ, ◌+◌, ◌≤◌, ◌≡◌, refl, List, [], ◌++◌, append-nil, some, arith, length, IsByte, IsU32,
}
use gathra_gateway.Protocol.Types.{CommandType}
use gathra_gateway.Protocol.Codes.{IsNamedType}
use gathra_gateway.Protocol.Wire.{
  Writer, ◌>>◌, put_bytes, put_bytes_fits, writes, put_u8-put_bytes, put_u32-put_bytes, be8, be32,
  join8, join32, get_u8, get_u32,
}
use gathra_gateway.Protocol.Ack.{Fields, write_fields, read_fields, write_payload, read_payload}

unfoldable pub field_bytes : Fields → List ℕ
field_bytes f =
    be32 f.persistent_session_id
    ++ (be32 f.sequence
        ++ (be32 f.gateway_unix_time
            ++ (be8 f.flags ++ (be32 f.command_id ++ (be8 f.command ++ be8 f.payload_length)))))

pub record IsInRange (f : Fields) : Type 0 where
  pub persistent_session_id : IsU32 f.persistent_session_id
  pub sequence : IsU32 f.sequence
  pub gateway_unix_time : IsU32 f.gateway_unix_time
  pub flags : IsByte f.flags
  pub command_id : IsU32 f.command_id
  pub command : IsByte f.command
  pub payload_length : IsByte f.payload_length

pub write_fields-put_bytes : (f : Fields) → write_fields f ≡ put_bytes (field_bytes f)
unfolding write_fields field_bytes
write_fields-put_bytes f = simp writes

pub read_fields-field_bytes :
    (f : Fields) (rest : List ℕ)
    → IsInRange f
    → read_fields (field_bytes f ++ rest) ≡ some (f, rest)
unfolding read_fields field_bytes get_u8 get_u32
read_fields-field_bytes f rest v = λ i. some (
  record {
    persistent_session_id = join32 f.persistent_session_id v.persistent_session_id i;
    sequence = join32 f.sequence v.sequence i;
    gateway_unix_time = join32 f.gateway_unix_time v.gateway_unix_time i;
    flags = join8 f.flags v.flags i;
    command_id = join32 f.command_id v.command_id i;
    command = join8 f.command v.command i;
    payload_length = join8 f.payload_length v.payload_length i;
  },
  rest,
)

pub payload_bytes : CommandType → ℕ → ℕ → List ℕ
payload_bytes CommandType.set_poll_interval_minutes poll at = be8 poll
payload_bytes CommandType.schedule_maintenance_at poll at = be32 at
payload_bytes _ poll at = []

pub length-payload_bytes :
    (type : CommandType) (poll at : ℕ) → length (payload_bytes type poll at) ≤ 4
unfolding payload_bytes
length-payload_bytes CommandType.none poll at = omega arith
length-payload_bytes _ poll at = omega arith

-- What a node makes of the payload: a member that the command does not use stays 0.
unfoldable pub used_poll : CommandType → ℕ → ℕ
used_poll CommandType.set_poll_interval_minutes poll = poll
used_poll _ poll = 0

unfoldable pub used_time : CommandType → ℕ → ℕ
used_time CommandType.schedule_maintenance_at at = at
used_time _ at = 0

pub write_payload_lem :
    (type : CommandType) (poll at : ℕ) (w : Writer)
    → IsNamedType type
    → length w.bytes + length (payload_bytes type poll at) ≤ w.capacity
    → write_payload type poll at w
      ≡ some (record w { bytes = w.bytes ++ payload_bytes type poll at })
unfolding write_payload payload_bytes
write_payload_lem (CommandType.unnamed n) poll at w v h = absurd v
write_payload_lem CommandType.set_poll_interval_minutes poll at w v h =
    rw (put_u8-put_bytes poll) (rw (put_bytes_fits (be8 poll) w h, ◌>>◌) refl)
write_payload_lem CommandType.schedule_maintenance_at poll at w v h =
    rw (put_u32-put_bytes at) (put_bytes_fits (be32 at) w h)
write_payload_lem _ poll at w v h = rw append-nil refl

pub read_payload-payload_bytes :
    (type : CommandType) (poll at : ℕ)
    → IsNamedType type
    → IsByte poll
    → IsU32 at
    → read_payload type (payload_bytes type poll at)
      ≡ some ((used_poll type poll, used_time type at), [])
unfolding read_payload payload_bytes get_u8 get_u32 used_poll used_time
read_payload-payload_bytes (CommandType.unnamed n) poll at v hp ha = absurd v
read_payload-payload_bytes CommandType.set_poll_interval_minutes poll at v hp ha =
    λ i. some ((join8 poll hp i, 0), [])
read_payload-payload_bytes CommandType.schedule_maintenance_at poll at v hp ha =
    λ i. some ((0, join32 at ha i), [])
read_payload-payload_bytes _ poll at v hp ha = refl
