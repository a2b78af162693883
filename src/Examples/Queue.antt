-- ===== src/Examples/Queue.antt =====
-- lib/queue: a queue of two records on files in memory.
use gathra_gateway.Prelude.{
  ℕ, ◌+◌, ◌≡◌, ◌≢◌, refl, inl, inr, Bool, true, false, ◌&&◌, List, [], ◌∷◌, Option, none, some,
  arith, length, take_all, if◌then◌else◌, pos, negsuc, ◌==◌, Bool-cases,
}
use gathra_gateway.Protocol.Telemetry.RoundTrip.{
  telemetry_bytes, decode_telemetry_lem, length-telemetry_bytes,
}
use gathra_gateway.Queue.Record.{QueueRecord, time_consistent, encode, decode}
use gathra_gateway.Queue.Record.RoundTrip.{IsStorable, decode-encode_record}
use gathra_gateway.Queue.Entries.{record_name, telemetry_of, ok_packet, key_of}
use gathra_gateway.Queue.Core.{QueueStorage, DurableQueueCore, enqueue, contains, read_all}
use gathra_gateway.Queue.Storage.{IsStore}
use gathra_gateway.Queue.Bounds.{IsWellFormed}
use gathra_gateway.Queue.Runs.{Call, run, run-IsWellFormed}
use gathra_gateway.Queue.Entries.{sort_entries}
use gathra_gateway.Queue.Core.{stored_record, decode_file}
use gathra_gateway.Queue.Recovery.{
  recover, recover_listed, recover_all, recover_one, recoverable, sort_and_trim, trim,
  count_recovered,
}
use gathra_gateway.Queue.Restart.{recover-IsWellFormed}
use gathra_gateway.Queue.Refinement.{numbered, Enqueued, enqueue-pushed}
use gathra_gateway.Queue.Acceptance.{IsWilling, contains-enqueue, enqueue-accepts}
use gathra_gateway.Examples.Protocol.{probe, probe-IsEncodable}

same_name : List ℕ → List ℕ → Bool
same_name [] [] = true
same_name [] (y ∷ b) = false
same_name (x ∷ a) [] = false
same_name (x ∷ a) (y ∷ b) = x == y && same_name a b

same_name_refl : (a : List ℕ) → same_name a a ≡ true
unfolding same_name
same_name_refl [] = refl
same_name_refl (x ∷ a) = ground (arith, same_name_refl a)

same_name_sound : (a b : List ℕ) → same_name a b ≡ true → a ≡ b
unfolding same_name
same_name_sound [] [] h = refl
same_name_sound [] (y ∷ b) h = ground arith
same_name_sound (x ∷ a) [] h = ground arith
same_name_sound (x ∷ a) (y ∷ b) h = ground (arith, same_name_sound a b)

other_name : (a b : List ℕ) → a ≢ b → same_name a b ≡ false
other_name a b n = elim (Bool-cases (same_name a b)) [
  | inl h ↦ absurd (n (same_name_sound a b h))
  | inr h ↦ h
]

-- Files in memory: a write and a removal always succeed.
abbrev Files : Type 0
Files = List ℕ → Option (List ℕ)

memory : QueueStorage Files
unfolding same_name
memory = record {
  list_record_ids = λ s. (s, some ([], 0));
  read_record = λ s name. s name;
  write_record_atomic = λ s record_id bytes.
      ((λ name. if same_name name (record_name record_id) then some bytes else s name), true);
  remove_record = λ s removed. ((λ name. if same_name name removed then none else s name), true);
  cleanup_temporary_files = λ s. s;
}

memory-IsStore : IsStore memory
unfolding memory
memory-IsStore = record {
  written = λ s record_id bytes h. rw (same_name_refl (record_name record_id)) refl;
  unwritten = λ s record_id bytes name h. absurd (ground arith);
  beside_write = λ s record_id bytes name n. rw (other_name name (record_name record_id) n) refl;
  unremoved = λ s removed name h. absurd (ground arith);
  beside_removal = λ s removed name n. rw (other_name name removed n) refl;
}

memory-IsWilling : IsWilling memory
unfolding memory
memory-IsWilling = record { writes = λ s record_id bytes. refl; removes = λ s name. refl }

abbrev pub heard : QueueRecord
heard = record {
  record_id = 0;
  reception = record {
    gateway_received_unix_ms = pos 1_760_000_000_123;
    gateway_time_trusted = true;
    gateway_uptime_ms = 90_000;
    gateway_boot_session_id = 12;
    rssi_dbm = 0xc2b4_0000;
    snr_db = 0x4110_0000;
    frequency_error_hz = negsuc 99;
    packet_length = 64;
  };
  payload_length = 64;
  raw_payload = telemetry_bytes probe;
}

heard-IsStorable : IsStorable (record heard { record_id = 1 })
unfolding time_consistent
heard-IsStorable = record {
  record_id = omega arith;
  identified = omega arith;
  nonempty = omega arith;
  fits = omega arith;
  measured = length-telemetry_bytes probe;
  packet_length = refl;
  boot = omega arith;
  received_at = omega arith;
  uptime_ms = omega arith;
  rssi = omega arith;
  snr = omega arith;
  frequency_error = omega arith;
  consistent = refl;
}

pub telemetry_of-heard : telemetry_of heard ≡ some probe
unfolding telemetry_of ok_packet
telemetry_of-heard =
    rw
      (
        take_all 64 (telemetry_bytes probe) (omega (arith, length-telemetry_bytes probe)),
        decode_telemetry_lem probe probe-IsEncodable,
      )
      refl

decode-encode_record_example :
    (bytes : List ℕ) × (encode (record heard { record_id = 1 }) ≡ some bytes)
    × (decode bytes ≡ some (record heard { record_id = 1 }))
    × (length bytes ≡ 56 + 64)
decode-encode_record_example =
    decode-encode_record (record heard { record_id = 1 }) heard-IsStorable

abbrev empty_files : Files
empty_files name = none

abbrev start : DurableQueueCore Files
start = record {
  storage = empty_files;
  capacity = 2;
  next_record_id = 1;
  entries = [];
  stats = record {
    recovered_records = 0;
    corrupt_records = 0;
    dropped_oldest = 0;
    storage_errors = 0;
  };
}

start-IsWellFormed : IsWellFormed start
start-IsWellFormed = record {
  positive = omega arith;
  bounded = omega arith;
  next = omega arith;
  ascending = omega arith;
}

no_records : read_all memory empty_files [] ≡ some []
unfolding read_all
no_records = refl

abbrev history : List Call
history = Call.enqueues heard ∷ (Call.peeks 5 ∷ (Call.removes 1 ∷ (Call.asks (key_of probe) ∷ [])))

run-IsWellFormed_example : IsWellFormed (run memory start history)
run-IsWellFormed_example = run-IsWellFormed memory start history start-IsWellFormed

-- A storage with two files that hold nothing.
abbrev pub damaged : QueueStorage Bool
damaged = record {
  list_record_ids = λ s. (s, some (9 ∷ (4 ∷ []), 1));
  read_record = λ s name. some [];
  write_record_atomic = λ s record_id bytes. (s, true);
  remove_record = λ s name. (s, true);
  cleanup_temporary_files = λ s. s;
}

abbrev pub unread : DurableQueueCore Bool
unread = record {
  storage = true;
  capacity = 2;
  next_record_id = 1;
  entries = [];
  stats = record {
    recovered_records = 0;
    corrupt_records = 0;
    dropped_oldest = 0;
    storage_errors = 0;
  };
}

recovered : (recover damaged unread).1 ≡ true
unfolding recover recover_listed recover_all recover_one recoverable stored_record decode_file
    decode sort_and_trim sort_entries trim count_recovered
recovered = refl

recover-IsWellFormed_example : IsWellFormed (recover damaged unread).0
recover-IsWellFormed_example =
    recover-IsWellFormed damaged unread (9 ∷ (4 ∷ [])) 1 (omega arith) refl
      ((omega arith, omega arith), ((omega arith, omega arith), tt))
      (((λ e. ground arith), tt), (tt, tt)) recovered

enqueue-pushed_example :
    Enqueued memory 2 []
      (numbered start heard)
      ((enqueue memory start heard).0, (enqueue memory start heard).2)
enqueue-pushed_example =
    enqueue-pushed memory memory-IsStore start heard [] start-IsWellFormed heard-IsStorable
      no_records

enqueue-accepts_example : (enqueue memory start heard).2 ≡ true
enqueue-accepts_example =
    enqueue-accepts memory memory-IsWilling start heard probe (omega arith) heard-IsStorable
      telemetry_of-heard

accepted : (enqueue memory start heard).2 ≡ true
accepted =
    enqueue-accepts memory memory-IsWilling start heard probe (omega arith) heard-IsStorable
      telemetry_of-heard

contains-enqueue_example : (contains memory (enqueue memory start heard).0 (key_of probe)).1 ≡ true
contains-enqueue_example =
    contains-enqueue memory memory-IsStore start heard probe [] start-IsWellFormed heard-IsStorable
      no_records telemetry_of-heard accepted
