-- ===== src/Queue/Record/RoundTrip.antt =====
-- lib/queue/queue_record.cpp: what `encode` writes, `decode` reads.
use gathra_gateway.Prelude.{
  ℕ, ◌+◌, ◌-◌, ◌≤◌, ◌<◌, ◌≡◌, refl, sym, ap, subst, ◌∙◌, Bool, true, false, ◌||◌, List, [], ◌++◌,
  append-nil, some, arith, length, length-append, take, drop, take_all, take-append, drop-append,
  IsByte, IsU32, IsU64, IsSigned, signed64, signed64-unsigned64, signed32-unsigned32,
  unsigned64-IsU64, unsigned32-IsU32, ltb, ◌==◌, if◌then◌else◌,
}
use gathra_gateway.Protocol.Wire.{be32, get_u32, get_u32-be32, get_bytes, get_bytes-append}
use gathra_gateway.Queue.Record.{
  QueueRecord, Fields, fields_of, field_bytes, record_of, crc32, time_consistent, may_encode, body,
  with_checksum, encode, decode, decode_content, decode_fields, valid_fields, finish, fixed_bytes,
  maximum_encoded_bytes,
}
use gathra_gateway.Queue.Record.Layout.{IsInRange, read_fields-field_bytes}

-- What the processor puts into a record: the members are in range for their C++ types, the payload
-- has 1 to 96 bytes, both lengths say so, and the time agrees with its trust.
pub record IsStorable (r : QueueRecord) : Type 0 where
  pub record_id : IsU64 r.record_id
  pub identified : 0 < r.record_id
  pub nonempty : 0 < r.payload_length
  pub fits : r.payload_length ≤ 96
  pub measured : length r.raw_payload ≡ r.payload_length
  pub packet_length : r.reception.packet_length ≡ r.payload_length
  pub boot : IsU32 r.reception.gateway_boot_session_id
  pub received_at : IsSigned 63 r.reception.gateway_received_unix_ms
  pub uptime_ms : IsU64 r.reception.gateway_uptime_ms
  pub rssi : IsU32 r.reception.rssi_dbm
  pub snr : IsU32 r.reception.snr_db
  pub frequency_error : IsSigned 31 r.reception.frequency_error_hz
  pub consistent :
      time_consistent r.reception.gateway_time_trusted r.reception.gateway_received_unix_ms ≡ true

flag-IsByte : (trusted : Bool) → IsByte (if trusted then 1 else 0)
flag-IsByte true = omega arith
flag-IsByte false = omega arith

flag_read : (trusted : Bool) → ((if trusted then 1 else 0) == 1) ≡ trusted
flag_read true = refl
flag_read false = refl

flag_le : (trusted : Bool) → ltb 1 (if trusted then 1 else 0) ≡ false
flag_le true = refl
flag_le false = refl

fields_of-IsInRange : (r : QueueRecord) → IsStorable r → IsInRange (fields_of r)
unfolding fields_of
fields_of-IsInRange r v = record {
  magic = omega arith;
  version = omega arith;
  encoded_length = omega arith;
  record_id = v.record_id;
  flags = flag-IsByte r.reception.gateway_time_trusted;
  payload_length = omega (arith, v.fits);
  packet_length = omega (arith, v.fits, v.packet_length);
  boot = v.boot;
  received_at_bits = unsigned64-IsU64 r.reception.gateway_received_unix_ms;
  uptime_ms = v.uptime_ms;
  rssi = v.rssi;
  snr = v.snr;
  frequency_error = unsigned32-IsU32 r.reception.frequency_error_hz;
}

record_of-fields_of : (r : QueueRecord) → IsStorable r → record_of (fields_of r) r.raw_payload ≡ r
unfolding record_of fields_of
record_of-fields_of r v = λ i. record r {
  reception = record r.reception {
    gateway_time_trusted = flag_read r.reception.gateway_time_trusted i;
    gateway_received_unix_ms =
        signed64-unsigned64 r.reception.gateway_received_unix_ms v.received_at i;
    frequency_error_hz = signed32-unsigned32 r.reception.frequency_error_hz v.frequency_error i;
  };
}

valid_fields-fields_of :
    (r : QueueRecord)
    → IsStorable r
    → valid_fields (fields_of r) (56 + r.payload_length) r.payload_length ≡ true
unfolding valid_fields fields_of
valid_fields-fields_of r v = ground (
  arith,
  flag_le r.reception.gateway_time_trusted,
  v.identified,
  v.nonempty,
  v.fits,
  v.packet_length,
)

consistent-fields_of :
    (r : QueueRecord)
    → IsStorable r
    → time_consistent ((fields_of r).flags == 1) (signed64 (fields_of r).received_at_bits) ≡ true
unfolding fields_of
consistent-fields_of r v =
    rw
      (
        flag_read r.reception.gateway_time_trusted,
        signed64-unsigned64 r.reception.gateway_received_unix_ms v.received_at,
      )
      v.consistent

length-field_bytes : (f : Fields) → length (field_bytes f) ≡ 52
unfolding field_bytes
length-field_bytes f = refl

body_lem : (r : QueueRecord) → IsStorable r → body r ≡ field_bytes (fields_of r) ++ r.raw_payload
unfolding body
body_lem r v = rw (take_all r.payload_length r.raw_payload (omega (arith, v.measured))) refl

length-body : (r : QueueRecord) → IsStorable r → length (body r) ≡ 52 + r.payload_length
length-body r v = rw (body_lem r v) (
    omega (
      arith,
      length-append (field_bytes (fields_of r)) r.raw_payload,
      length-field_bytes (fields_of r),
      v.measured,
    ))

pub length-with_checksum : (bytes : List ℕ) → length (with_checksum bytes) ≡ length bytes + 4
unfolding with_checksum
length-with_checksum bytes = omega (arith, length-append bytes (be32 (crc32 bytes)))

crc32-IsU32 : (bytes : List ℕ) → IsU32 (crc32 bytes)
unfolding crc32
crc32-IsU32 bytes = omega arith

may_encode-IsStorable : (r : QueueRecord) → IsStorable r → may_encode r ≡ true
unfolding may_encode
may_encode-IsStorable r v =
    ground (arith, v.consistent, v.identified, v.nonempty, v.fits, v.packet_length)

==_refl : (a b : ℕ) → a ≡ b → (a == b) ≡ true
==_refl a b h = ground arith

encode_lem : (r : QueueRecord) → IsStorable r → encode r ≡ some (with_checksum (body r))
unfolding encode
encode_lem r v =
    rw
      (
        may_encode-IsStorable r v,
        length-with_checksum (body r),
        length-body r v,
        ==_refl (52 + r.payload_length + 4) (56 + r.payload_length) (omega arith),
      )
      refl

pub get_checksum :
    (bytes : List ℕ) → get_u32 (drop (length bytes) (with_checksum bytes)) ≡ some (crc32 bytes, [])
unfolding with_checksum
get_checksum bytes = rw (drop-append bytes (be32 (crc32 bytes))) (
    subst (λ (l : List ℕ). get_u32 l ≡ some (crc32 bytes, [])) (append-nil (be32 (crc32 bytes)))
      (get_u32-be32 (crc32 bytes) []
        ∙ ap (λ (n : ℕ). some (n, [])) (omega (arith, crc32-IsU32 bytes))))

pub take_content : (bytes : List ℕ) → take (length bytes) (with_checksum bytes) ≡ bytes
unfolding with_checksum
take_content bytes = take-append bytes (be32 (crc32 bytes))

get_payload :
    (r : QueueRecord)
    → IsStorable r
    → get_bytes r.payload_length r.raw_payload ≡ some (r.raw_payload, [])
get_payload r v =
    subst (λ (l : List ℕ). get_bytes r.payload_length l ≡ some (r.raw_payload, []))
      (append-nil r.raw_payload)
      (subst (λ (n : ℕ). get_bytes n (r.raw_payload ++ []) ≡ some (r.raw_payload, [])) v.measured
        (get_bytes-append r.raw_payload []))

finish_lem :
    (r : QueueRecord) → IsStorable r → finish (fields_of r) (some (r.raw_payload, [])) ≡ some r
unfolding finish
finish_lem r v = ap some (record_of-fields_of r v)

payload_length-fields_of : (r : QueueRecord) → (fields_of r).payload_length ≡ r.payload_length
unfolding fields_of
payload_length-fields_of r = refl

decode_fields_lem :
    (r : QueueRecord)
    → IsStorable r
    → decode_fields (56 + r.payload_length) (some (fields_of r, r.raw_payload)) ≡ some r
unfolding decode_fields fields_of
decode_fields_lem r v =
    rw
      (
        v.measured,
        valid_fields-fields_of r v,
        consistent-fields_of r v,
        payload_length-fields_of r,
        get_payload r v,
      )
      (finish_lem r v)

decode_content_lem :
    (r : QueueRecord)
    → IsStorable r
    → decode_content (56 + r.payload_length) (body r) (some (crc32 (body r), [])) ≡ some r
unfolding decode_content
decode_content_lem r v =
    rw
      (
        ==_refl (crc32 (body r)) (crc32 (body r)) refl,
        body_lem r v,
        read_fields-field_bytes (fields_of r) r.raw_payload (fields_of-IsInRange r v),
      )
      (decode_fields_lem r v)

decode_lem : (r : QueueRecord) → IsStorable r → decode (with_checksum (body r)) ≡ some r
unfolding decode
decode_lem r v =
    rw
      (
        length-with_checksum (body r),
        length-body r v,
        size_fits r.payload_length v.nonempty v.fits,
        content r.payload_length,
        total r.payload_length,
        sym (length-body r v),
        take_content (body r),
        get_checksum (body r),
      )
      (decode_content_lem r v)
  where
    size_fits :
        (n : ℕ)
        → 0 < n
        → n ≤ 96
        → (ltb (52 + n + 4) fixed_bytes || ltb maximum_encoded_bytes (52 + n + 4)) ≡ false
    size_fits n h k = ground arith

    content : (n : ℕ) → 52 + n + 4 - 4 ≡ 52 + n
    content n = omega arith

    total : (n : ℕ) → 52 + n + 4 ≡ 56 + n
    total n = omega arith

-- A record that is storable encodes, its file has 56 bytes and its payload, and decoding the file
-- gives the record back.
pub decode-encode_record :
    (r : QueueRecord)
    → IsStorable r
    → (bytes : List ℕ) × (encode r ≡ some bytes)
      × (decode bytes ≡ some r)
      × (length bytes ≡ 56 + r.payload_length)
decode-encode_record r v = (
  with_checksum (body r),
  encode_lem r v,
  decode_lem r v,
  length-with_checksum (body r) ∙ (rw (length-body r v) (omega arith)),
)
