-- ===== src/Queue/Entries.antt =====
-- lib/queue/durable_queue_core.hpp and durable_queue_core.cpp: the entries of the queue, the names of
-- their files and the hash of a telemetry key.
use gathra_gateway.Prelude.{
  ℕ, zero, suc, ◌+◌, ◌*◌, ◌/◌, ◌%◌, ◌^◌, Bool, false, ◌||◌, List, [], ◌∷◌, ◌++◌, Option, none, some,
  bit_xor, take, ltb, ◌==◌, if◌then◌else◌,
}
use gathra_gateway.Build.{node_id_capacity}
use gathra_gateway.Text.{strnlen}
use gathra_gateway.Protocol.Types.{TelemetryPacket}
use gathra_gateway.Protocol.Wire.{be8, be32}
use gathra_gateway.Protocol.Header.{Decoded, ok, fail}
use gathra_gateway.Protocol.Telemetry.{decode_telemetry}
use gathra_gateway.Dedup.{TelemetryKey, make_telemetry_key}
use gathra_gateway.Queue.Record.{QueueRecord}

pub record Entry : Type 0 where
  pub record_id : ℕ
  pub key_hash : ℕ

unfoldable pub hex_digit : ℕ → ℕ
hex_digit d = if ltb d 10 then 48 + d else 87 + d

-- The `n` last hexadecimal digits of `v`.
unfoldable pub hex_digits : ℕ → ℕ → List ℕ
unfolding hex_digit
hex_digits zero v = []
hex_digits (suc n) v = hex_digit (v / 16 ^ n % 16) ∷ hex_digits n v

-- `%016llx.rec`
unfoldable pub record_name : ℕ → List ℕ
unfolding hex_digits
record_name record_id = hex_digits 16 record_id ++ (46 ∷ 114 ∷ 101 ∷ 99 ∷ [])

-- The lambda `mix`, over the bytes it is called with.
mix_all : ℕ → List ℕ → ℕ
mix_all hash [] = hash
mix_all hash (b ∷ bs) = mix_all (bit_xor hash b * 1099511628211 % 2 ^ 64) bs

unfoldable pub key_hash : TelemetryKey → ℕ
unfolding mix_all strnlen
key_hash key =
    let length = strnlen key.node_id node_id_capacity in
    mix_all 14695981039346656037 (
      be8 length
      ++ (take length key.node_id ++ (be32 key.persistent_session_id ++ be32 key.sequence)))

abbrev pub key_of : TelemetryPacket → TelemetryKey
key_of telemetry =
    make_telemetry_key (some telemetry.node_id) telemetry.persistent_session_id telemetry.sequence

unfoldable pub entry_of : ℕ → TelemetryPacket → Entry
unfolding key_hash
entry_of record_id telemetry = record {
  record_id = record_id;
  key_hash = key_hash (key_of telemetry);
}

-- `decodeTelemetry(record.rawPayload, record.payloadLength, telemetry) == kOk`
unfoldable pub ok_packet : Decoded TelemetryPacket → Option TelemetryPacket
ok_packet (ok telemetry) = some telemetry
ok_packet (fail status) = none

unfoldable pub telemetry_of : QueueRecord → Option TelemetryPacket
unfolding ok_packet
telemetry_of r = ok_packet (decode_telemetry (some (take r.payload_length r.raw_payload)))

-- `std::sort` by the identifier. The identifiers are names of files in one directory, so no two are
-- equal.
unfoldable pub insert_entry : Entry → List Entry → List Entry
insert_entry e [] = e ∷ []
insert_entry e (x ∷ xs) =
    let rest = insert_entry e xs in if ltb e.record_id x.record_id then e ∷ (x ∷ xs) else x ∷ rest

unfoldable pub sort_entries : List Entry → List Entry
unfolding insert_entry
sort_entries [] = []
sort_entries (x ∷ xs) = insert_entry x (sort_entries xs)

unfoldable pub without : ℕ → List Entry → List Entry
without record_id [] = []
without record_id (x ∷ xs) =
    let rest = without record_id xs in if x.record_id == record_id then xs else x ∷ rest

unfoldable pub has_entry : ℕ → List Entry → Bool
has_entry record_id [] = false
has_entry record_id (x ∷ xs) = x.record_id == record_id || has_entry record_id xs
