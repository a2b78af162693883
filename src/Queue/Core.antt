-- ===== src/Queue/Core.antt =====
-- lib/queue/durable_queue_core.hpp and durable_queue_core.cpp: the bounded queue of record files.
-- `S` is the state of the storage behind the interface `QueueStorage`. The constructor of the source
-- never makes a capacity of 0, so a full queue has an oldest entry. The counters have 32 bits, a
-- record identifier has 64.
use gathra_gateway.Prelude.{
  ℕ, ◌+◌, ◌%◌, ◌^◌, Bool, true, false, not, List, [], ◌∷◌, ◌++◌, Option, none, some, length, take,
  leb, ◌==◌, if◌then◌else◌,
}
use gathra_gateway.Protocol.Types.{TelemetryPacket}
use gathra_gateway.Dedup.{TelemetryKey, telemetry_key_equal}
use gathra_gateway.Queue.Record.{QueueRecord, encode, decode}
use gathra_gateway.Queue.Entries.{
  Entry, record_name, key_hash, key_of, entry_of, telemetry_of, has_entry, without,
}

-- `list_record_ids` gives the identifiers and the number of corrupt names; it deletes the files that
-- have one.
pub record QueueStorage (S : Type 0) : Type 0 where
  pub list_record_ids : S → S × Option (List ℕ × ℕ)
  pub read_record : S → List ℕ → Option (List ℕ)
  pub write_record_atomic : S → ℕ → List ℕ → S × Bool
  pub remove_record : S → List ℕ → S × Bool
  pub cleanup_temporary_files : S → S

pub record QueueCoreStats : Type 0 where
  pub recovered_records : ℕ
  pub corrupt_records : ℕ
  pub dropped_oldest : ℕ
  pub storage_errors : ℕ

pub record DurableQueueCore (S : Type 0) : Type 0 where
  pub storage : S
  pub capacity : ℕ
  pub next_record_id : ℕ
  pub entries : List Entry
  pub stats : QueueCoreStats

abbrev pub counted_error : QueueCoreStats → QueueCoreStats
counted_error s = record s { storage_errors = (s.storage_errors + 1) % 2 ^ 32 }

abbrev pub counted_drop : QueueCoreStats → QueueCoreStats
counted_drop s = record s { dropped_oldest = (s.dropped_oldest + 1) % 2 ^ 32 }

abbrev pub counted_corrupt : QueueCoreStats → ℕ → QueueCoreStats
counted_corrupt s n = record s { corrupt_records = (s.corrupt_records + n) % 2 ^ 32 }

module _ {S : Type 0} (st : QueueStorage S) where
  unfoldable pub create : S → ℕ → DurableQueueCore S
  create storage capacity = record {
    storage = storage;
    capacity = if capacity == 0 then 1 else capacity;
    next_record_id = 1;
    entries = [];
    stats = record {
      recovered_records = 0;
      corrupt_records = 0;
      dropped_oldest = 0;
      storage_errors = 0;
    };
  }

  unfoldable pub decode_file : Option (List ℕ) → Option QueueRecord
  decode_file none = none
  decode_file (some bytes) = decode bytes

  -- `readRecord(name, bytes) && decode(bytes, record)`
  unfoldable pub stored_record : S → ℕ → Option QueueRecord
  unfolding decode_file
  stored_record storage record_id = decode_file (st.read_record storage (record_name record_id))

  -- Removes the file of the oldest entry, then the entry.
  unfoldable pub drop_oldest : DurableQueueCore S → List Entry → DurableQueueCore S × Bool
  drop_oldest q [] = (q, false)
  drop_oldest q (oldest ∷ rest) =
      let (storage', removed) = st.remove_record q.storage (record_name oldest.record_id) in
      if removed
      then (record q { storage = storage'; entries = rest; stats = counted_drop q.stats }, true)
      else (record q { storage = storage' }, false)

  unfoldable pub write_again : ℕ → List ℕ → DurableQueueCore S × Bool → DurableQueueCore S × Bool
  write_again record_id bytes (q, false) = (q, false)
  write_again record_id bytes (q, true) =
      let (storage', wrote) = st.write_record_atomic q.storage record_id bytes in
      (record q { storage = storage' }, wrote)

  -- A write that fails while the queue is full is tried again without the oldest record.
  unfoldable pub write_record : DurableQueueCore S → ℕ → List ℕ → DurableQueueCore S × Bool
  unfolding drop_oldest write_again
  write_record q record_id bytes =
      let (storage', wrote) = st.write_record_atomic q.storage record_id bytes in
      let q' = record q { storage = storage' } in
      let again = write_again record_id bytes (drop_oldest q' q'.entries) in
      if wrote then (q', true) else if leb q.capacity (length q.entries) then again else (q', false)

  -- Where the oldest record cannot be removed, the newest is.
  unfoldable pub or_remove_newest : ℕ → DurableQueueCore S × Bool → DurableQueueCore S × Bool
  or_remove_newest record_id (q, true) = (q, true)
  or_remove_newest record_id (q, false) =
      (record q { storage = (st.remove_record q.storage (record_name record_id)).0 }, false)

  unfoldable pub restore_bound : ℕ → DurableQueueCore S × Bool → DurableQueueCore S × Bool
  unfolding or_remove_newest drop_oldest
  restore_bound record_id (q, false) = (q, false)
  restore_bound record_id (q, true) =
      let dropped = or_remove_newest record_id (drop_oldest q q.entries) in
      if leb q.capacity (length q.entries) then dropped else (q, true)

  unfoldable pub append_entry : Entry → DurableQueueCore S × Bool → DurableQueueCore S × Bool
  append_entry e (q, false) = (record q { stats = counted_error q.stats }, false)
  append_entry e (q, true) = (
    record q { entries = q.entries ++ (e ∷ []); next_record_id = (q.next_record_id + 1) % 2 ^ 64 },
    true,
  )

  unfoldable pub enqueue_bytes :
      DurableQueueCore S → Entry → Option (List ℕ) → DurableQueueCore S × Bool
  unfolding write_record restore_bound append_entry
  enqueue_bytes q e none = (q, false)
  enqueue_bytes q e (some bytes) =
      append_entry e (restore_bound e.record_id (write_record q e.record_id bytes))

  unfoldable pub enqueue_packet :
      DurableQueueCore S
      → QueueRecord
      → Option TelemetryPacket
      → DurableQueueCore S × QueueRecord × Bool
  unfolding enqueue_bytes entry_of
  enqueue_packet q r none = (q, r, false)
  enqueue_packet q r (some telemetry) =
      let r' = record r { record_id = q.next_record_id } in
      let e = entry_of q.next_record_id telemetry in
      let (q', done) = enqueue_bytes q e (encode r') in (q', r', done)

  -- The queue, the record with the identifier that it was given, and whether it is stored.
  unfoldable pub enqueue :
      DurableQueueCore S → QueueRecord → DurableQueueCore S × QueueRecord × Bool
  unfolding enqueue_packet telemetry_of
  enqueue q r =
      if q.next_record_id == 0
      then (record q { stats = counted_error q.stats }, r, false)
      else enqueue_packet q r (telemetry_of r)

  unfoldable pub with_first :
      Option QueueRecord → Option (List QueueRecord) → Option (List QueueRecord)
  with_first none rest = none
  with_first (some r) none = none
  with_first (some r) (some rest) = some (r ∷ rest)

  -- The records of the entries; none if one of them cannot be read.
  unfoldable pub read_all : S → List Entry → Option (List QueueRecord)
  unfolding stored_record with_first
  read_all storage [] = some []
  read_all storage (e ∷ es) = with_first (stored_record storage e.record_id) (read_all storage es)

  unfoldable pub or_no_records :
      DurableQueueCore S → Option (List QueueRecord) → DurableQueueCore S × List QueueRecord × Bool
  or_no_records q (some records) = (q, records, true)
  or_no_records q none = (record q { stats = counted_error q.stats }, [], false)

  unfoldable pub peek : DurableQueueCore S → ℕ → DurableQueueCore S × List QueueRecord × Bool
  unfolding read_all or_no_records
  peek q limit = or_no_records q (read_all q.storage (take limit q.entries))

  unfoldable pub remove : DurableQueueCore S → ℕ → DurableQueueCore S × Bool
  unfolding has_entry without
  remove q record_id =
      let (storage', removed) = st.remove_record q.storage (record_name record_id) in
      if not (has_entry record_id q.entries)
      then (q, false)
      else if not removed
      then (record q { storage = storage'; stats = counted_error q.stats }, false)
      else (record q { storage = storage'; entries = without record_id q.entries }, true)

  -- What the loop of `contains` does with an entry whose hash is the one it looks for: the number of
  -- errors it counts, and whether the key is the one it looks for.
  unfoldable pub same_key : TelemetryKey → Option TelemetryPacket → ℕ × Bool
  unfolding telemetry_key_equal
  same_key key none = (1, false)
  same_key key (some telemetry) = (0, telemetry_key_equal (key_of telemetry) key)

  unfoldable pub packet_in : Option QueueRecord → Option TelemetryPacket
  unfolding telemetry_of
  packet_in none = none
  packet_in (some r) = telemetry_of r

  unfoldable pub stored_packet : S → ℕ → Option TelemetryPacket
  unfolding stored_record packet_in
  stored_packet storage record_id = packet_in (stored_record storage record_id)

  unfoldable pub search : S → TelemetryKey → List Entry → ℕ × Bool
  unfolding same_key stored_packet key_hash
  search storage key [] = (0, false)
  search storage key (e ∷ es) =
      let (errors, found) = search storage key es in
      let (error, same) = same_key key (stored_packet storage e.record_id) in
      if not (e.key_hash == key_hash key)
      then (errors, found)
      else if same
      then (error, true)
      else (error + errors, found)

  unfoldable pub contains : DurableQueueCore S → TelemetryKey → DurableQueueCore S × Bool
  unfolding search
  contains q key =
      let (errors, found) = search q.storage key q.entries in
      (
        record q {
          stats = record (q.stats) { storage_errors = (q.stats.storage_errors + errors) % 2 ^ 32 };
        },
        found,
      )
