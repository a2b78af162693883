-- ===== src/Queue/Durable.antt =====
-- lib/queue/durable_queue.hpp and durable_queue.cpp: the queue as the tasks use it, with its recent keys
-- and its counters. The mutex is taken without a time limit, so `locked` is whether it exists. `N` is
-- the state of the preferences and of the clock, which `millis` reads. What `persistRecent` does with
-- the bytes of the keys is a call of the file system.
use Prim.Native.String.{String}
use gathra_gateway.Prelude.{
  ℕ, zero, suc, ◌+◌, ◌-◌, ◌*◌, ◌/◌, ◌%◌, ◌^◌, Bool, true, false, not, ◌&&◌, ◌||◌, List, [], ◌∷◌,
  ◌++◌, Option, none, some, take, ltb, leb, ◌==◌, if◌then◌else◌,
}
use gathra_gateway.Build.{
  node_id_capacity, queue_reserved_bytes, estimated_littlefs_file_overhead, queue_capacity_hard_max,
}
use gathra_gateway.Text.{strnlen}
use gathra_gateway.Protocol.Wire.{be8, be32}
use gathra_gateway.Dedup.{TelemetryKey, RecentDeduplicator, oldest_at, remember}
use gathra_gateway.Dedup.{contains as recent_contains}
use gathra_gateway.Queue.Record.{QueueRecord, maximum_encoded_bytes, with_checksum}
use gathra_gateway.Queue.Core.{QueueStorage, DurableQueueCore}
use gathra_gateway.Queue.Core.{
  enqueue as core_enqueue, remove as core_remove, contains as core_contains,
}
use gathra_gateway.Processor.Types.{EnqueueOutcome}

pub record QueueOperationalStats : Type 0 where
  pub records_uploaded : ℕ
  pub upload_retries : ℕ
  pub records_deduplicated : ℕ
  pub records_permanently_rejected : ℕ
  pub records_dropped_oldest : ℕ
  pub filesystem_errors : ℕ

pub record QueueTerminalAction : Type 0 where
  pub record_id : ℕ
  pub key : TelemetryKey
  pub permanently_rejected : Bool

-- `put_uint64` gives the number of bytes that it stored.
pub record Device (S N : Type 0) : Type 0 where
  pub storage : QueueStorage S
  pub save_recent : S → List ℕ → S × Bool
  pub put_uint64 : N → String → ℕ → N × ℕ
  pub millis : N → N × ℕ

pub record DurableQueue (S N : Type 0) : Type 0 where
  pub locked : Bool
  pub healthy : Bool
  pub core : Option (DurableQueueCore S)
  pub recent : RecentDeduplicator
  pub preferences : N
  pub stats : QueueOperationalStats
  pub mutations_since_checkpoint : ℕ
  pub last_checkpoint_ms : ℕ

unfoldable pub derive_capacity : ℕ → ℕ
derive_capacity filesystem_bytes =
    let per_record = maximum_encoded_bytes + estimated_littlefs_file_overhead in
    let capacity = (filesystem_bytes - queue_reserved_bytes) / per_record * 4 / 5 in
    let positive = if capacity == 0 then 1 else capacity in
    if leb filesystem_bytes queue_reserved_bytes
    then 1
    else if ltb queue_capacity_hard_max positive
    then queue_capacity_hard_max
    else positive

unfoldable pub key_bytes : TelemetryKey → List ℕ
unfolding strnlen
key_bytes key =
    let length = strnlen key.node_id node_id_capacity in
    be8 length ++ (take length key.node_id ++ (be32 key.persistent_session_id ++ be32 key.sequence))

-- The keys from `index` on; `left` are left.
unfoldable pub keys_bytes : RecentDeduplicator → ℕ → ℕ → List ℕ
unfolding key_bytes oldest_at
keys_bytes d index zero = []
keys_bytes d index (suc left) = key_bytes (oldest_at d index) ++ keys_bytes d (index + 1) left

-- The file of the recent keys.
unfoldable pub recent_bytes : RecentDeduplicator → List ℕ
unfolding keys_bytes with_checksum
recent_bytes d = with_checksum (be32 0x4754_4431 ++ (be8 d.size ++ keys_bytes d 0 d.size))

abbrev pub counted : ℕ → ℕ
counted n = (n + 1) % 2 ^ 64

abbrev pub mutated : ℕ → ℕ
mutated n = (n + 1) % 2 ^ 32

-- A 32-bit counter's growth, added to a 64-bit one.
abbrev pub grown : ℕ → ℕ → ℕ → ℕ
grown total before after = (total + (after + 2 ^ 32 - before) % 2 ^ 32) % 2 ^ 64

module _ {S N : Type 0} (dev : Device S N) where
  -- All counters are stored, also after one that fails.
  put_all : N → List (String × ℕ) → N × Bool
  put_all n [] = (n, true)
  put_all n ((name, value) ∷ rest) =
      let (n', stored) = dev.put_uint64 n name value in
      let (n'', okay) = put_all n' rest in (n'', ltb 0 stored && okay)

  unfoldable pub persist_counters : DurableQueue S N → DurableQueue S N
  unfolding put_all
  persist_counters q =
      let (n, okay) = put_all q.preferences (
        ("uploaded", q.stats.records_uploaded)
        ∷ (("retries", q.stats.upload_retries)
            ∷ (("dedup", q.stats.records_deduplicated)
                ∷ (("rejected", q.stats.records_permanently_rejected)
                    ∷ (("dropped", q.stats.records_dropped_oldest)
                        ∷ (("fs-errors", q.stats.filesystem_errors) ∷ [])))))) in
      let (n', now) = dev.millis n in
      if okay
      then record q { preferences = n'; mutations_since_checkpoint = 0; last_checkpoint_ms = now }
      else record q { preferences = n }

  unfoldable pub checkpoint_counters_unlocked : DurableQueue S N → Bool → DurableQueue S N
  unfolding persist_counters
  checkpoint_counters_unlocked q force =
      let (n, now) = dev.millis q.preferences in
      let q' = record q { preferences = n } in
      if not force
        && ltb q.mutations_since_checkpoint 16
        && ltb ((now + 2 ^ 32 - q.last_checkpoint_ms) % 2 ^ 32) 60_000
      then q'
      else persist_counters q'

  unfoldable pub enqueue_core :
      DurableQueue S N
      → QueueRecord
      → Option (DurableQueueCore S)
      → DurableQueue S N × QueueRecord × EnqueueOutcome
  enqueue_core q r none = (q, r, record { persisted = false; dropped_oldest = false })
  enqueue_core q r (some core) =
      let (core', r', result) = core_enqueue dev.storage core r in
      let dropped = not (core'.stats.dropped_oldest == core.stats.dropped_oldest) in
      let q' = record q {
        core = some core';
        stats = record (q.stats) {
          records_dropped_oldest =
              grown q.stats.records_dropped_oldest core.stats.dropped_oldest
                core'.stats.dropped_oldest;
          filesystem_errors =
              grown q.stats.filesystem_errors core.stats.storage_errors core'.stats.storage_errors;
        };
      } in
      (
        if dropped then persist_counters q' else q',
        r',
        record { persisted = result; dropped_oldest = dropped },
      )

  unfoldable pub enqueue :
      DurableQueue S N → QueueRecord → DurableQueue S N × QueueRecord × EnqueueOutcome
  unfolding enqueue_core
  enqueue q r =
      if not q.locked || not q.healthy
      then (q, r, record { persisted = false; dropped_oldest = false })
      else enqueue_core q r q.core

  unfoldable pub contains_core :
      DurableQueue S N → TelemetryKey → Option (DurableQueueCore S) → DurableQueue S N × Bool
  contains_core q key none = (q, false)
  contains_core q key (some core) =
      let (core', found) = core_contains dev.storage core key in
      if recent_contains q.recent key then (q, true) else (
        record q {
          core = some core';
          stats = record (q.stats) {
            filesystem_errors =
                grown q.stats.filesystem_errors core.stats.storage_errors
                  core'.stats.storage_errors;
          };
        },
        found,
      )

  unfoldable pub contains : DurableQueue S N → TelemetryKey → DurableQueue S N × Bool
  unfolding contains_core
  contains q key = if not q.locked || not q.healthy then (q, false) else contains_core q key q.core

  -- One action of `finish`: the queue, whether the record was removed, and whether its key is new
  -- among the recent ones.
  unfoldable pub finish_one :
      DurableQueue S N → DurableQueueCore S → QueueTerminalAction → DurableQueue S N × Bool × Bool
  finish_one q core action =
      let (core', removed) = core_remove dev.storage core action.record_id in
      let (recent', changed) = remember q.recent action.key in
      let s = q.stats in
      if not removed
      then (
        record q {
          core = some core';
          stats = record s { filesystem_errors = counted s.filesystem_errors };
        },
        false,
        false,
      )
      else (
        record q {
          core = some core';
          recent = recent';
          stats =
              if action.permanently_rejected
              then record s {
                records_permanently_rejected = counted s.records_permanently_rejected;
              }
              else record s { records_uploaded = counted s.records_uploaded };
          mutations_since_checkpoint = mutated q.mutations_since_checkpoint;
        },
        true,
        changed,
      )

  -- The loop, with `success` and `changedRecent`.
  unfoldable pub finish_all :
      List QueueTerminalAction
      → DurableQueue S N
      → Option (DurableQueueCore S)
      → Bool
      → Bool
      → DurableQueue S N × Bool × Bool
  unfolding finish_one
  finish_all actions q none success changed = (q, false, changed)
  finish_all [] q (some core) success changed = (q, success, changed)
  finish_all (action ∷ actions) q (some core) success changed =
      let (q', removed, new) = finish_one q core action in
      finish_all actions q' q'.core (success && removed) (new || changed)

  -- `if (changedRecent && !persistRecent())`, on the storage of the core.
  unfoldable pub save_changed :
      DurableQueue S N → Option (DurableQueueCore S) → Bool → DurableQueue S N × Bool
  unfolding recent_bytes
  save_changed q none changed = (q, true)
  save_changed q (some core) changed =
      let (storage', saved) = dev.save_recent core.storage (recent_bytes q.recent) in
      let q' = record q { core = some (record core { storage = storage' }) } in
      let s = q.stats in
      if not changed then (q, true) else if saved then (q', true) else (
        record q' { stats = record s { filesystem_errors = counted s.filesystem_errors } },
        false,
      )

  unfoldable pub finish_saved : DurableQueue S N × Bool → Bool → DurableQueue S N × Bool
  unfolding checkpoint_counters_unlocked
  finish_saved (q, saved) success = (checkpoint_counters_unlocked q false, success && saved)

  unfoldable pub finish_changed : DurableQueue S N × Bool × Bool → DurableQueue S N × Bool
  unfolding save_changed finish_saved
  finish_changed (q, success, changed) = finish_saved (save_changed q q.core changed) success

  unfoldable pub finish_present :
      DurableQueue S N
      → List QueueTerminalAction
      → Option (DurableQueueCore S)
      → DurableQueue S N × Bool
  unfolding finish_all finish_changed
  finish_present q actions none = (q, false)
  finish_present q actions (some core) =
      finish_changed (finish_all actions q (some core) true false)

  unfoldable pub finish : DurableQueue S N → List QueueTerminalAction → DurableQueue S N × Bool
  unfolding finish_present
  finish q actions =
      if not q.locked || not q.healthy then (q, false) else finish_present q actions q.core

  unfoldable pub record_duplicate : DurableQueue S N → DurableQueue S N
  record_duplicate q = if not q.locked then q else record q {
    stats = record (q.stats) { records_deduplicated = counted q.stats.records_deduplicated };
    mutations_since_checkpoint = mutated q.mutations_since_checkpoint;
  }

  unfoldable pub record_upload_retry : DurableQueue S N → DurableQueue S N
  unfolding checkpoint_counters_unlocked
  record_upload_retry q =
      let q' = record q {
        stats = record (q.stats) { upload_retries = counted q.stats.upload_retries };
        mutations_since_checkpoint = mutated q.mutations_since_checkpoint;
      } in
      if not q.locked then q else checkpoint_counters_unlocked q' false

  unfoldable pub record_filesystem_error : DurableQueue S N → DurableQueue S N
  record_filesystem_error q = if not q.locked then q else record q {
    stats = record (q.stats) { filesystem_errors = counted q.stats.filesystem_errors };
    mutations_since_checkpoint = mutated q.mutations_since_checkpoint;
  }
