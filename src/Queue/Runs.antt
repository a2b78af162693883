-- ===== src/Queue/Runs.antt =====
-- lib/queue/durable_queue_core.cpp: every history of calls on a new queue.
use gathra_gateway.Prelude.{ℕ, List, [], ◌∷◌, Option-cases, inl, inr}
use gathra_gateway.Dedup.{TelemetryKey}
use gathra_gateway.Queue.Record.{QueueRecord}
use gathra_gateway.Queue.Core.{
  QueueStorage, QueueCoreStats, DurableQueueCore, enqueue, peek, or_no_records, read_all, remove,
  contains,
}
use gathra_gateway.Queue.Bounds.{IsWellFormed, enqueue-IsWellFormed, remove-IsWellFormed}
use gathra_gateway.Prelude.{take}

pub data Call : Type 0 where
  enqueues : QueueRecord → Call
  peeks : ℕ → Call
  removes : ℕ → Call
  asks : TelemetryKey → Call

module _ {S : Type 0} (st : QueueStorage S) where
  pub step : DurableQueueCore S → Call → DurableQueueCore S
  step q (enqueues r) = (enqueue st q r).0
  step q (peeks limit) = (peek st q limit).0
  step q (removes record_id) = (remove st q record_id).0
  step q (asks key) = (contains st q key).0

  pub run : DurableQueueCore S → List Call → DurableQueueCore S
  run q [] = q
  run q (c ∷ cs) = run (step q c) cs

  counted :
      (q : DurableQueueCore S) (stats : QueueCoreStats)
      → IsWellFormed q
      → IsWellFormed (record q { stats = stats })
  counted q stats w = record {
    positive = w.positive;
    bounded = w.bounded;
    next = w.next;
    ascending = w.ascending;
  }

  peek-IsWellFormed :
      (q : DurableQueueCore S) (limit : ℕ) → IsWellFormed q → IsWellFormed (peek st q limit).0
  unfolding peek or_no_records
  peek-IsWellFormed q limit w = elim (Option-cases (read_all st q.storage (take limit q.entries))) [
    | inl e ↦ rw e (counted q _ w)
    | inr (records, e) ↦ rw e w
  ]

  contains-IsWellFormed :
      (q : DurableQueueCore S) (key : TelemetryKey)
      → IsWellFormed q
      → IsWellFormed (contains st q key).0
  unfolding contains
  contains-IsWellFormed q key w = counted q _ w

  step-IsWellFormed : (q : DurableQueueCore S) (c : Call) → IsWellFormed q → IsWellFormed (step q c)
  unfolding step
  step-IsWellFormed q (enqueues r) w = enqueue-IsWellFormed st q r w
  step-IsWellFormed q (peeks limit) w = peek-IsWellFormed q limit w
  step-IsWellFormed q (removes record_id) w = remove-IsWellFormed st q record_id w
  step-IsWellFormed q (asks key) w = contains-IsWellFormed q key w

  -- A queue that starts well formed stays so through every history of calls, whatever the storage
  -- answers: at most as many entries as the capacity, identifiers that ascend, and all of them below
  -- the next one.
  pub run-IsWellFormed :
      (q : DurableQueueCore S) (cs : List Call) → IsWellFormed q → IsWellFormed (run q cs)
  unfolding run
  run-IsWellFormed q [] w = w
  run-IsWellFormed q (c ∷ cs) w = run-IsWellFormed (step q c) cs (step-IsWellFormed q c w)
