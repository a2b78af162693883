-- ===== src/Queue/Startup.antt =====
-- lib/queue/durable_queue.cpp: what `begin` loads, which is the records, the recent keys and the
-- counters, and the counters' checkpoint on request.
use Prim.Native.String.{String}
use gathra_gateway.Prelude.{
  ℕ, zero, suc, ◌+◌, ◌-◌, ◌%◌, ◌^◌, Bool, true, false, not, ◌&&◌, ◌||◌, List, [], ◌∷◌, Option, none,
  some, length, take, drop, ltb, ◌==◌, if◌then◌else◌,
}
use gathra_gateway.Build.{node_id_capacity, recent_dedup_capacity}
use gathra_gateway.Text.{c_string}
use gathra_gateway.Protocol.Wire.{R, ◌>>=◌, ret, get_u8, get_u32, get_bytes}
use gathra_gateway.Protocol.Header.{node_id_valid}
use gathra_gateway.Dedup.{
  TelemetryKey, RecentDeduplicator, make_telemetry_key, remember, clear, create,
}
use gathra_gateway.Queue.Record.{crc32}
use gathra_gateway.Queue.Core.{QueueCoreStats, DurableQueueCore}
use gathra_gateway.Queue.Core.{create as core_create}
use gathra_gateway.Queue.Recovery.{recover}
use gathra_gateway.Queue.Durable.{
  Device, QueueOperationalStats, DurableQueue, derive_capacity, counted, persist_counters,
  checkpoint_counters_unlocked,
}

-- The file of the recent keys: it is not there, it cannot be opened or read, or it has these bytes.
pub data RecentFile : Type 0 where
  absent unreadable : RecentFile
  content : List ℕ → RecentFile

-- The calls of the preferences and the file system that only `begin` makes. `begin_storage` also makes
-- the directory; its argument is whether a file system that cannot be mounted is formatted.
pub record Flash (S N : Type 0) : Type 0 where
  pub begin_preferences : N → N × Bool
  pub get_bool : N → String → Bool → Bool
  pub put_bool : N → String → Bool → N × ℕ
  pub get_uint64 : N → String → ℕ → ℕ
  pub begin_storage : S → Bool → S × Bool
  pub total_bytes : S → ℕ
  pub recent_file : S → RecentFile
  pub unlink_recent : S → S × Bool

-- Refuses where the test fails.
abbrev pub require : Bool → R Bool
require b s = if b then some (true, s) else none

-- The node identifier is copied into an array of zeros, so it ends at its first NUL.
unfoldable pub read_key : R TelemetryKey
read_key = do
  count ← get_u8
  _ ← require (not (count == 0) && ltb count node_id_capacity)
  node_id ← get_bytes count
  _ ← require (node_id_valid (some (c_string node_id)))
  session ← get_u32
  sequence ← get_u32
  ret (make_telemetry_key (some (c_string node_id)) session sequence)

-- The loop, with `left` keys left: the ring as far as it was filled, and the bytes that are left.
unfoldable pub read_keys :
    ℕ
    → RecentDeduplicator
    → Option (TelemetryKey × List ℕ)
    → List ℕ
    → RecentDeduplicator × Option (List ℕ)
unfolding read_key
read_keys zero d next bytes = (d, some bytes)
read_keys (suc left) d none bytes = (d, none)
read_keys (suc left) d (some (key, rest)) bytes =
    read_keys left (remember d key).0 (read_key rest) rest

-- `cursor == end`
abbrev pub is_consumed : Option (List ℕ) → Bool
is_consumed none = false
is_consumed (some []) = true
is_consumed (some (b ∷ rest)) = false

-- After the magic number: the count and the keys.
unfoldable pub load_keys : RecentDeduplicator → List ℕ → RecentDeduplicator × Bool
unfolding read_keys
load_keys d [] = (d, false)
load_keys d (count ∷ rest) =
    let (d', left) = read_keys count (clear d) (read_key rest) rest in
    if ltb recent_dedup_capacity count then (d, false) else (d', is_consumed left)

unfoldable pub load_magic : RecentDeduplicator → Option (ℕ × List ℕ) → RecentDeduplicator × Bool
unfolding load_keys
load_magic d none = (d, false)
load_magic d (some (magic, rest)) = if magic == 0x4754_4431 then load_keys d rest else (d, false)

-- `stored` is the checksum at the end of the file, and `bytes` what stands before it.
unfoldable pub load_checked :
    RecentDeduplicator → List ℕ → Option (ℕ × List ℕ) → RecentDeduplicator × Bool
unfolding load_magic
load_checked d bytes none = (d, false)
load_checked d bytes (some (stored, _)) =
    if stored == crc32 bytes then load_magic d (get_u32 bytes) else (d, false)

unfoldable pub load_recent : RecentDeduplicator → RecentFile → RecentDeduplicator × Bool
unfolding load_checked
load_recent d RecentFile.absent = (d, true)
load_recent d RecentFile.unreadable = (d, false)
load_recent d (RecentFile.content bytes) =
    let size = length bytes in
    if ltb size 9 || ltb 4096 size
    then (d, false)
    else load_checked d (take (size - 4) bytes) (get_u32 (drop (size - 4) bytes))

module _ {S N : Type 0} (dev : Device S N) (flash : Flash S N) where
  unfoldable pub load_counters : N → QueueOperationalStats
  load_counters n = record {
    records_uploaded = flash.get_uint64 n "uploaded" 0;
    upload_retries = flash.get_uint64 n "retries" 0;
    records_deduplicated = flash.get_uint64 n "dedup" 0;
    records_permanently_rejected = flash.get_uint64 n "rejected" 0;
    records_dropped_oldest = flash.get_uint64 n "dropped" 0;
    filesystem_errors = flash.get_uint64 n "fs-errors" 0;
  }

  -- The object before `begin`, but for the mutex and the state of the preferences.
  unfoldable pub unbegun : Bool → N → DurableQueue S N
  unfolding create
  unbegun locked n = record {
    locked = locked;
    healthy = false;
    core = none;
    recent = create recent_dedup_capacity;
    preferences = n;
    stats = record {
      records_uploaded = 0;
      upload_retries = 0;
      records_deduplicated = 0;
      records_permanently_rejected = 0;
      records_dropped_oldest = 0;
      filesystem_errors = 0;
    };
    mutations_since_checkpoint = 0;
    last_checkpoint_ms = 0;
  }

  -- `loadCounters` with what recovery counted.
  abbrev pub with_recovered : QueueOperationalStats → QueueCoreStats → QueueOperationalStats
  with_recovered s c = record s {
    records_dropped_oldest = (s.records_dropped_oldest + c.dropped_oldest) % 2 ^ 64;
    filesystem_errors =
        (s.filesystem_errors + (c.storage_errors + c.corrupt_records) % 2 ^ 32) % 2 ^ 64;
  }

  -- The recent keys are discarded with their file.
  unfoldable pub discard_recent : DurableQueue S N → DurableQueueCore S → DurableQueue S N
  discard_recent q core =
      let (storage', unlinked) = flash.unlink_recent core.storage in
      let errors = counted q.stats.filesystem_errors in
      record q {
        core = some (record core { storage = storage' });
        recent = clear q.recent;
        stats = record (q.stats) {
          filesystem_errors = if unlinked then errors else counted errors;
        };
      }

  -- The counters are stored where they have changed, and the queue serves.
  unfoldable pub opened : Bool → DurableQueue S N → DurableQueue S N
  unfolding persist_counters
  opened changed q = record (if changed then persist_counters dev q else q) { healthy = true }

  -- `recover` has succeeded.
  unfoldable pub begin_recovered : DurableQueue S N → DurableQueueCore S → DurableQueue S N
  unfolding load_counters discard_recent opened
  begin_recovered q core =
      let (recent', ready) = load_recent q.recent (flash.recent_file core.storage) in
      let loaded = record q {
        core = some core;
        recent = recent';
        stats = with_recovered (load_counters q.preferences) core.stats;
      } in
      let q' = if ready then loaded else discard_recent loaded core in
      let changed =
        not (core.stats.dropped_oldest == 0)
        || not ((core.stats.storage_errors + core.stats.corrupt_records) % 2 ^ 32 == 0)
        || not ready in
      opened changed q'

  unfoldable pub begin_core : DurableQueue S N → S → DurableQueue S N × Bool
  unfolding begin_recovered core_create
  begin_core q storage =
      let (core, recovered) =
        recover dev.storage
          (core_create dev.storage storage (derive_capacity (flash.total_bytes storage))) in
      if recovered then (begin_recovered q core, true) else (record q { core = some core }, false)

  -- The file system is formatted only where it was never ready before.
  unfoldable pub begin_mounted : N → S → DurableQueue S N × Bool
  unfolding begin_core unbegun
  begin_mounted n storage =
      let before = flash.get_bool n "fs-ready" false in
      let (storage', mounted) = flash.begin_storage storage (not before) in
      let (n', stored) = flash.put_bool n "fs-ready" true in
      if not mounted
      then (unbegun true n, false)
      else if before
      then begin_core (unbegun true n) storage'
      else if stored == 1
      then begin_core (unbegun true n') storage'
      else (unbegun true n', false)

  -- `locked` is whether the mutex could be made.
  unfoldable pub begin : Bool → N → S → DurableQueue S N × Bool
  unfolding begin_mounted unbegun
  begin locked n storage =
      let (n', begun) = flash.begin_preferences n in
      if not locked
      then (unbegun false n, false)
      else if not begun
      then (unbegun true n', false)
      else begin_mounted n' storage

module _ {S N : Type 0} (dev : Device S N) where
  unfoldable pub checkpoint_counters : DurableQueue S N → Bool → DurableQueue S N
  checkpoint_counters q force = if q.locked then checkpoint_counters_unlocked dev q force else q
