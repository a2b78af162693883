-- ===== src/Protocol/Header.antt =====
-- lib/protocol/protocol.cpp: node identifiers and the common header.
pub mod RoundTrip
use gathra_gateway.Prelude.{
  ℕ, zero, suc, ◌+◌, ◌≤◌, ◌<◌, ◌≡◌, Bool, true, false, not, ◌&&◌, ◌||◌, List, [], ◌∷◌, Option, none,
  some, arith, length, take, ltb, leb, ◌==◌, if◌then◌else◌,
}
use gathra_gateway.Build.{node_id_capacity}
use gathra_gateway.Text.{CString, strnlen}
use gathra_gateway.Protocol.Types.{MessageType, DecodeStatus}
use gathra_gateway.Protocol.Codes.{message_code}
use gathra_gateway.Protocol.Wire.{
  W, refuse, ◌>>◌, put_u8, put_bytes, R, ◌>>=◌ as bind, ret, get_u8, get_bytes,
}

abbrev pub magic0 : ℕ
magic0 = 0x47

abbrev pub magic1 : ℕ
magic1 = 0x54

abbrev pub version : ℕ
version = 3

unfoldable pub valid_node_byte : ℕ → Bool
valid_node_byte v =
    (leb b'A' v && leb v b'Z')
    || (leb b'a' v && leb v b'z')
    || (leb b'0' v && leb v b'9')
    || v == b'-'
    || v == b'_'

unfoldable pub all_node_bytes : List ℕ → Bool
all_node_bytes [] = true
all_node_bytes (v ∷ vs) = if valid_node_byte v then all_node_bytes vs else false

unfoldable pub node_id_valid : CString → Bool
unfolding strnlen
node_id_valid none = false
node_id_valid (some node_id) =
    let length = strnlen node_id node_id_capacity in
    if length == 0 || leb node_id_capacity length
    then false
    else all_node_bytes (take length node_id)

-- A status, or what was decoded.
pub data Decoded (A : Type 0) : Type 0 where
  ok : A → Decoded A
  fail : DecodeStatus → Decoded A

infixl 5 ◌>>=◌
abbrev pub ◌>>=◌ : {A B : Type 0} → Decoded A → (A → Decoded B) → Decoded B
ok a >>= f = f a
fail e >>= f = fail e

abbrev pub or_fail : {A : Type 0} → Option A → DecodeStatus → Decoded A
or_fail none e = fail e
or_fail (some a) e = ok a

-- `r.remaining() == 0U ? kOk : kTrailingData`
abbrev pub at_end : {A : Type 0} → A → List ℕ → Decoded A
at_end a [] = ok a
at_end a (b ∷ rest) = fail DecodeStatus.trailing_data

unfoldable pub header_writes : MessageType → List ℕ → ℕ → W
unfolding message_code
header_writes type node_id length = do
  put_u8 magic0
  put_u8 magic1
  put_u8 version
  put_u8 (message_code type)
  put_u8 length
  put_bytes (take length node_id)

unfoldable pub write_header : MessageType → List ℕ → W
write_header type node_id =
    if not (node_id_valid (some node_id))
    then refuse
    else header_writes type node_id (strnlen node_id node_id_capacity)

pub record Fixed : Type 0 where
  pub m0 : ℕ
  pub m1 : ℕ
  pub version : ℕ
  pub type : ℕ
  pub length : ℕ

read_fixed : R Fixed
read_fixed = bind get_u8 λ m0. bind get_u8 λ m1. bind get_u8 λ v. bind get_u8 λ type.
    bind get_u8
      λ length. ret (record { m0 = m0; m1 = m1; version = v; type = type; length = length })

check_node_id : List ℕ × List ℕ → Decoded (List ℕ × List ℕ)
check_node_id (node_id, rest) =
    if all_node_bytes node_id then ok (node_id, rest) else fail DecodeStatus.invalid_node_id

check_header : MessageType → Fixed × List ℕ → Decoded (List ℕ × List ℕ)
check_header expected (h, s) =
    if not (h.m0 == magic0) || not (h.m1 == magic1)
    then fail DecodeStatus.bad_magic
    else if not (h.version == version)
    then fail DecodeStatus.unsupported_version
    else if not (h.type == message_code expected)
    then fail DecodeStatus.wrong_type
    else if h.length == 0 || leb node_id_capacity h.length || ltb (length s) h.length
    then fail DecodeStatus.invalid_node_id
    else (or_fail (get_bytes h.length s) DecodeStatus.invalid_node_id >>= check_node_id)

-- The node identifier and the bytes behind the header.
unfoldable pub read_header : MessageType → List ℕ → Decoded (List ℕ × List ℕ)
unfolding read_fixed check_header check_node_id message_code
read_header expected s =
    or_fail (read_fixed s) DecodeStatus.buffer_too_small >>= check_header expected

-- A text that may be sent as a node identifier.
pub record IsNodeId (t : List ℕ) : Type 0 where
  pub nonempty : 0 < length t
  pub short : length t < node_id_capacity
  pub bytes : all_node_bytes t ≡ true
