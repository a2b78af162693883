-- ===== src/Queue/Record/Layout.antt =====
-- lib/queue/queue_record.cpp: the fields of a record are written and read back.
use gathra_gateway.Prelude.{
  ℕ, ◌+◌, ◌*◌, ◌/◌, ◌%◌, ◌^◌, ◌<◌, ◌≡◌, ap₂, ◌∙◌, List, ◌++◌, some, arith, IsByte, IsU16, IsU32,
  IsU64,
}
use gathra_gateway.Protocol.Wire.{get_u8, get_u16, get_u32, join8, join16, join32}
use gathra_gateway.Queue.Record.{Fields, field_bytes, read_fields, get_u64}

pub record IsInRange (f : Fields) : Type 0 where
  pub magic : IsU32 f.magic
  pub version : IsU16 f.version
  pub encoded_length : IsU16 f.encoded_length
  pub record_id : IsU64 f.record_id
  pub flags : IsByte f.flags
  pub payload_length : IsByte f.payload_length
  pub packet_length : IsU16 f.packet_length
  pub boot : IsU32 f.boot
  pub received_at_bits : IsU64 f.received_at_bits
  pub uptime_ms : IsU64 f.uptime_ms
  pub rssi : IsU32 f.rssi
  pub snr : IsU32 f.snr
  pub frequency_error : IsU32 f.frequency_error

join64 :
    (v : ℕ)
    → v < 2 ^ 64
    → (v / 2 ^ 32 % 2 ^ 32 / 2 ^ 24 % 2 ^ 8 * 2 ^ 24
            + v / 2 ^ 32 % 2 ^ 32 / 2 ^ 16 % 2 ^ 8 * 2 ^ 16
            + v / 2 ^ 32 % 2 ^ 32 / 2 ^ 8 % 2 ^ 8 * 2 ^ 8
            + v / 2 ^ 32 % 2 ^ 32 % 2 ^ 8)
          * 2 ^ 32
        + (v % 2 ^ 32 / 2 ^ 24 % 2 ^ 8 * 2 ^ 24
            + v % 2 ^ 32 / 2 ^ 16 % 2 ^ 8 * 2 ^ 16
            + v % 2 ^ 32 / 2 ^ 8 % 2 ^ 8 * 2 ^ 8
            + v % 2 ^ 32 % 2 ^ 8)
      ≡ v
join64 v h =
    ap₂ (λ (a b : ℕ). a * 2 ^ 32 + b) (join32 (v / 2 ^ 32 % 2 ^ 32) (omega arith))
      (join32 (v % 2 ^ 32) (omega arith))
    ∙ omega arith

pub read_fields-field_bytes :
    (f : Fields) (rest : List ℕ)
    → IsInRange f
    → read_fields (field_bytes f ++ rest) ≡ some (f, rest)
unfolding read_fields field_bytes get_u8 get_u16 get_u32 get_u64
read_fields-field_bytes f rest v = λ i. some (
  record {
    magic = join32 f.magic v.magic i;
    version = join16 f.version v.version i;
    encoded_length = join16 f.encoded_length v.encoded_length i;
    record_id = join64 f.record_id v.record_id i;
    flags = join8 f.flags v.flags i;
    payload_length = join8 f.payload_length v.payload_length i;
    packet_length = join16 f.packet_length v.packet_length i;
    boot = join32 f.boot v.boot i;
    received_at_bits = join64 f.received_at_bits v.received_at_bits i;
    uptime_ms = join64 f.uptime_ms v.uptime_ms i;
    rssi = join32 f.rssi v.rssi i;
    snr = join32 f.snr v.snr i;
    frequency_error = join32 f.frequency_error v.frequency_error i;
  },
  rest,
)
