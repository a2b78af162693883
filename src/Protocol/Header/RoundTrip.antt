-- ===== src/Protocol/Header/RoundTrip.antt =====
-- lib/protocol/protocol.cpp: a header that is written is read back, and what is read is a header.
use gathra_gateway.Prelude.{
  ℕ, ◌%◌, ◌^◌, ◌≡◌, refl, true, List, ◌∷◌, ◌++◌, some, arith, length, length-append, take_all,
}
use gathra_gateway.Build.{node_id_capacity}
use gathra_gateway.Text.{strnlen}
use gathra_gateway.Protocol.Types.{MessageType}
use gathra_gateway.Protocol.Codes.{message_code}
use gathra_gateway.Protocol.Wire.{put_bytes, get_u8, get_bytes-append, writes}
use gathra_gateway.Protocol.Header.{
  IsNodeId, node_id_valid, header_writes, write_header, read_header, ok,
}

pub node_id_valid-IsNodeId : (t : List ℕ) → node_id_valid (some t) ≡ true → IsNodeId t
unfolding node_id_valid
node_id_valid-IsNodeId t h = grind (arith, take_all {0} (length t) t)

pub IsNodeId-node_id_valid : (t : List ℕ) → IsNodeId t → node_id_valid (some t) ≡ true
unfolding node_id_valid
IsNodeId-node_id_valid t v = ground (arith, take_all (length t) t)

-- The bytes of a header.
abbrev pub header : MessageType → List ℕ → List ℕ
header type t = 0x47 ∷ 0x54 ∷ 3 ∷ message_code type ∷ length t ∷ t

message_code_byte : (type : MessageType) → message_code type % 2 ^ 8 ≡ message_code type
unfolding message_code
message_code_byte MessageType.telemetry = refl
message_code_byte _ = refl

pub strnlen-IsNodeId : (t : List ℕ) → IsNodeId t → strnlen t node_id_capacity ≡ length t
unfolding strnlen
strnlen-IsNodeId t v = ground arith

pub write_header-put_bytes :
    (type : MessageType) (t : List ℕ) → IsNodeId t → write_header type t ≡ put_bytes (header type t)
unfolding write_header
write_header-put_bytes type t v =
    let e : length t % 2 ^ 8 ≡ length t = omega arith in
    rw (strnlen-IsNodeId t v, IsNodeId-node_id_valid t v)
      (unfold header_writes in
        simp writes (rw (message_code_byte type, take_all (length t) t (omega arith), e)))

pub read_header-header :
    (type : MessageType) (t rest : List ℕ)
    → IsNodeId t
    → read_header type (header type t ++ rest) ≡ ok (t, rest)
unfolding read_header get_u8
read_header-header type t rest v = ground (arith, get_bytes-append t rest, length-append t rest)
