-- ===== src/Queue/Recovery.antt =====
-- lib/queue/durable_queue_core.cpp: the recovery of the queue from its files.
use gathra_gateway.Prelude.{
  ℕ, ◌+◌, ◌%◌, ◌^◌, Bool, true, false, not, List, [], ◌∷◌, ◌++◌, Option, none, some, length, ltb,
  leb, ◌==◌, if◌then◌else◌,
}
use gathra_gateway.Protocol.Types.{TelemetryPacket}
use gathra_gateway.Queue.Record.{QueueRecord}
use gathra_gateway.Queue.Entries.{Entry, record_name, entry_of, telemetry_of, sort_entries}
use gathra_gateway.Queue.Core.{
  QueueStorage, DurableQueueCore, counted_error, counted_corrupt, drop_oldest, stored_record,
}

module _ {S : Type 0} (st : QueueStorage S) where
  -- What recovery takes from a listed file.
  unfoldable pub recoverable : ℕ → Option QueueRecord → Option TelemetryPacket
  unfolding telemetry_of
  recoverable listed none = none
  recoverable listed (some r) = if r.record_id == listed then telemetry_of r else none

  unfoldable pub recover_one : DurableQueueCore S → ℕ → Option TelemetryPacket → DurableQueueCore S
  unfolding entry_of
  recover_one q listed none =
      let (storage', removed) = st.remove_record q.storage (record_name listed) in
      let stats' = counted_corrupt q.stats 1 in
      record q { storage = storage'; stats = if removed then stats' else counted_error stats' }
  recover_one q listed (some telemetry) = record q {
    entries = q.entries ++ (entry_of listed telemetry ∷ []);
    next_record_id =
        if leb q.next_record_id listed then (listed + 1) % 2 ^ 64 else q.next_record_id;
  }

  unfoldable pub recover_all : DurableQueueCore S → List ℕ → DurableQueueCore S
  unfolding recover_one recoverable stored_record
  recover_all q [] = q
  recover_all q (listed ∷ ids) =
      recover_all (recover_one q listed (recoverable listed (stored_record st q.storage listed)))
        ids

  -- The loop that removes the oldest records while there are too many. The list is `q.entries`.
  unfoldable pub trim : List Entry → DurableQueueCore S → DurableQueueCore S × Bool
  unfolding drop_oldest
  trim [] q = (q, true)
  trim (e ∷ es) q =
      let (q', dropped) = drop_oldest st q (e ∷ es) in
      let rest = trim es q' in
      if not (ltb q.capacity (length (e ∷ es)))
      then (q, true)
      else if dropped
      then rest
      else (record q' { stats = counted_error q'.stats }, false)

  unfoldable pub count_recovered : DurableQueueCore S × Bool → DurableQueueCore S × Bool
  count_recovered (q, false) = (q, false)
  count_recovered (q, true) = (
    record q { stats = record (q.stats) { recovered_records = length q.entries % 2 ^ 32 } },
    true,
  )

  unfoldable pub sort_and_trim : DurableQueueCore S → DurableQueueCore S × Bool
  unfolding trim count_recovered
  sort_and_trim q =
      let sorted = sort_entries q.entries in
      count_recovered (trim sorted (record q { entries = sorted }))

  unfoldable pub recover_listed :
      DurableQueueCore S → Option (List ℕ × ℕ) → DurableQueueCore S × Bool
  unfolding recover_all sort_and_trim
  recover_listed q none = (record q { stats = counted_error q.stats }, false)
  recover_listed q (some (ids, corrupt_names)) =
      sort_and_trim (recover_all (record q { stats = counted_corrupt q.stats corrupt_names }) ids)

  unfoldable pub recover : DurableQueueCore S → DurableQueueCore S × Bool
  unfolding recover_listed
  recover q =
      let (storage', listed) = st.list_record_ids (st.cleanup_temporary_files q.storage) in
      recover_listed (record q { storage = storage'; next_record_id = 1; entries = [] }) listed
