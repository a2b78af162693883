-- ===== src/Queue/Record.antt =====
-- lib/queue/queue_record.hpp and queue_record.cpp: a queued packet and its file. A float is its bit
-- pattern. `raw_payload` holds the bytes that were written to the array; what follows is zero and is
-- never read. The classes `Writer` and `Reader` of this file are those of the protocol with an
-- output that grows.
pub mod Layout
pub mod RoundTrip
use gathra_gateway.Prelude.{
  ℕ, zero, suc, ◌+◌, ◌-◌, ◌*◌, ◌/◌, ◌%◌, ◌^◌, ◌≡◌, ℤ, negsuc, is_negative, Bool, true, false, not,
  ◌&&◌, ◌||◌, List, [], ◌∷◌, ◌++◌, Option, none, some, bit_xor, bit_and, length, take, drop, ltb,
  leb, ◌==◌, if◌then◌else◌, signed64, unsigned64, signed32, unsigned32,
}
use gathra_gateway.Build.{radio_packet_capacity, queue_magic, queue_record_version}
use gathra_gateway.Protocol.Wire.{
  R, ◌>>=◌, ret, be8, be16, be32, get_u8, get_u16, get_u32, get_bytes,
}

pub record ReceptionMetadata : Type 0 where
  pub gateway_received_unix_ms : ℤ
  pub gateway_time_trusted : Bool
  pub gateway_uptime_ms : ℕ
  pub gateway_boot_session_id : ℕ
  pub rssi_dbm : ℕ
  pub snr_db : ℕ
  pub frequency_error_hz : ℤ
  pub packet_length : ℕ

pub record QueueRecord : Type 0 where
  pub record_id : ℕ
  pub reception : ReceptionMetadata
  pub payload_length : ℕ
  pub raw_payload : List ℕ

abbrev pub fixed_bytes : ℕ
fixed_bytes = 56

abbrev pub maximum_encoded_bytes : ℕ
maximum_encoded_bytes = fixed_bytes + radio_packet_capacity

-- `crc & 1` selects the polynomial: the mask is all ones or zero.
crc_bit : ℕ → ℕ
crc_bit crc = let mask = (2 ^ 32 - crc % 2) % 2 ^ 32 in bit_xor (crc / 2) (bit_and 0xedb8_8320 mask)

crc_bits : ℕ → ℕ → ℕ
unfolding crc_bit
crc_bits zero crc = crc
crc_bits (suc bits) crc = crc_bits bits (crc_bit crc)

crc_bytes : ℕ → List ℕ → ℕ
unfolding crc_bits
crc_bytes crc [] = crc
crc_bytes crc (b ∷ bs) = crc_bytes (crc_bits 8 (bit_xor crc b)) bs

-- `~crc` on 32 bits.
unfoldable pub crc32 : List ℕ → ℕ
unfolding crc_bytes
crc32 input = 2 ^ 32 - 1 - crc_bytes 0xffff_ffff input

abbrev pub be64 : ℕ → List ℕ
be64 v = be32 (v / 2 ^ 32 % 2 ^ 32) ++ be32 (v % 2 ^ 32)

unfoldable pub get_u64 : R ℕ
unfolding get_u32
get_u64 = do hi ← get_u32; lo ← get_u32; ret (hi * 2 ^ 32 + lo)

-- The members of the file between its start and the payload.
pub record Fields : Type 0 where
  pub magic : ℕ
  pub version : ℕ
  pub encoded_length : ℕ
  pub record_id : ℕ
  pub flags : ℕ
  pub payload_length : ℕ
  pub packet_length : ℕ
  pub boot : ℕ
  pub received_at_bits : ℕ
  pub uptime_ms : ℕ
  pub rssi : ℕ
  pub snr : ℕ
  pub frequency_error : ℕ

unfoldable pub fields_of : QueueRecord → Fields
unfolding unsigned64 unsigned32
fields_of r = record {
  magic = queue_magic;
  version = queue_record_version;
  encoded_length = (fixed_bytes + r.payload_length) % 2 ^ 16;
  record_id = r.record_id;
  flags = if r.reception.gateway_time_trusted then 1 else 0;
  payload_length = r.payload_length;
  packet_length = r.reception.packet_length;
  boot = r.reception.gateway_boot_session_id;
  received_at_bits = unsigned64 r.reception.gateway_received_unix_ms;
  uptime_ms = r.reception.gateway_uptime_ms;
  rssi = r.reception.rssi_dbm;
  snr = r.reception.snr_db;
  frequency_error = unsigned32 r.reception.frequency_error_hz;
}

unfoldable pub field_bytes : Fields → List ℕ
field_bytes f =
    (be32 f.magic
      ++ (be16 f.version
          ++ (be16 f.encoded_length
              ++ (be64 f.record_id
                  ++ (be8 f.flags
                      ++ (be8 f.payload_length
                          ++ (be16 f.packet_length
                              ++ (be32 f.boot
                                  ++ (be64 f.received_at_bits
                                      ++ (be64 f.uptime_ms
                                          ++ (be32 f.rssi
                                              ++ (be32 f.snr ++ (be32 f.frequency_error)))))))))))))

unfoldable pub read_fields : R Fields
unfolding get_u8 get_u16 get_u32 get_u64
read_fields = do
  magic ← get_u32
  version ← get_u16
  encoded_length ← get_u16
  record_id ← get_u64
  flags ← get_u8
  payload_length ← get_u8
  packet_length ← get_u16
  boot ← get_u32
  received_at_bits ← get_u64
  uptime_ms ← get_u64
  rssi ← get_u32
  snr ← get_u32
  frequency_error ← get_u32
  ret (record {
    magic = magic;
    version = version;
    encoded_length = encoded_length;
    record_id = record_id;
    flags = flags;
    payload_length = payload_length;
    packet_length = packet_length;
    boot = boot;
    received_at_bits = received_at_bits;
    uptime_ms = uptime_ms;
    rssi = rssi;
    snr = snr;
    frequency_error = frequency_error;
  })

-- A trusted time is not negative, and an untrusted one is -1.
unfoldable pub time_consistent : Bool → ℤ → Bool
time_consistent true at = not (is_negative at)
time_consistent false (negsuc zero) = true
time_consistent false _ = false

unfoldable pub may_encode : QueueRecord → Bool
unfolding time_consistent
may_encode r =
    not (r.record_id == 0)
    && not (r.payload_length == 0)
    && not (ltb radio_packet_capacity r.payload_length)
    && r.reception.packet_length == r.payload_length
    && time_consistent r.reception.gateway_time_trusted r.reception.gateway_received_unix_ms

-- The file without its checksum.
unfoldable pub body : QueueRecord → List ℕ
unfolding fields_of field_bytes
body r = field_bytes (fields_of r) ++ take r.payload_length r.raw_payload

unfoldable pub with_checksum : List ℕ → List ℕ
unfolding crc32
with_checksum bytes = bytes ++ be32 (crc32 bytes)

unfoldable pub encode : QueueRecord → Option (List ℕ)
unfolding may_encode body with_checksum
encode r =
    let output = with_checksum (body r) in
    if not (may_encode r)
    then none
    else if length output == fixed_bytes + r.payload_length
    then some output
    else none

valid_fields : Fields → ℕ → ℕ → Bool
valid_fields f length remaining =
    f.magic == queue_magic
    && f.version == queue_record_version
    && f.encoded_length == length
    && not (f.record_id == 0)
    && not (ltb 1 f.flags)
    && not (f.payload_length == 0)
    && not (ltb radio_packet_capacity f.payload_length)
    && f.packet_length == f.payload_length
    && remaining == f.payload_length

unfoldable pub record_of : Fields → List ℕ → QueueRecord
unfolding signed64 signed32
record_of f payload = record {
  record_id = f.record_id;
  payload_length = f.payload_length;
  raw_payload = payload;
  reception = record {
    packet_length = f.packet_length;
    gateway_boot_session_id = f.boot;
    gateway_time_trusted = f.flags == 1;
    gateway_received_unix_ms = signed64 f.received_at_bits;
    gateway_uptime_ms = f.uptime_ms;
    rssi_dbm = f.rssi;
    snr_db = f.snr;
    frequency_error_hz = signed32 f.frequency_error;
  };
}

-- `reader.bytes(...) && reader.remaining() == 0U`
finish : Fields → Option (List ℕ × List ℕ) → Option QueueRecord
finish f none = none
finish f (some (payload, [])) = some (record_of f payload)
finish f (some (payload, _ ∷ _)) = none

decode_fields : ℕ → Option (Fields × List ℕ) → Option QueueRecord
decode_fields size none = none
decode_fields size (some (f, rest)) =
    if not (valid_fields f size (length rest))
    then none
    else if not (time_consistent (f.flags == 1) (signed64 f.received_at_bits))
    then none
    else finish f (get_bytes f.payload_length rest)

-- `stored` is the checksum at the end of the file, and `content` what stands before it.
decode_content : ℕ → List ℕ → Option (ℕ × List ℕ) → Option QueueRecord
decode_content size content none = none
decode_content size content (some (stored, _)) =
    if not (stored == crc32 content) then none else decode_fields size (read_fields content)

unfoldable pub decode : List ℕ → Option QueueRecord
unfolding decode_content decode_fields finish valid_fields
decode input =
    let size = length input in
    if ltb size fixed_bytes || ltb maximum_encoded_bytes size
    then none
    else decode_content size (take (size - 4) input) (get_u32 (drop (size - 4) input))
