-- ===== src/Queue/Readers.antt =====
-- lib/queue/durable_queue.cpp: the methods that read the queue under its lock.
use gathra_gateway.Prelude.{
  ℕ, Bool, false, ◌&&◌, List, [], Option, none, some, length, if◌then◌else◌,
}
use gathra_gateway.Queue.Record.{QueueRecord}
use gathra_gateway.Queue.Core.{DurableQueueCore}
use gathra_gateway.Queue.Core.{peek as core_peek}
use gathra_gateway.Queue.Durable.{Device, DurableQueue}

module _ {S : Type 0} where
  abbrev pub core_size : Option (DurableQueueCore S) → ℕ
  core_size none = 0
  core_size (some core) = length core.entries

  abbrev pub core_capacity : Option (DurableQueueCore S) → ℕ
  core_capacity none = 0
  core_capacity (some core) = core.capacity

module _ {S N : Type 0} where
  unfoldable pub size : DurableQueue S N → ℕ
  size q = if q.locked then core_size q.core else 0

  unfoldable pub capacity : DurableQueue S N → ℕ
  capacity q = if q.locked then core_capacity q.core else 0

module _ {S N : Type 0} (dev : Device S N) where
  -- The records are those of the list that the caller passes empty.
  unfoldable pub peek_core :
      DurableQueue S N
      → ℕ
      → Option (DurableQueueCore S)
      → DurableQueue S N × List QueueRecord × Bool
  peek_core q limit none = (q, [], false)
  peek_core q limit (some core) =
      let (core', records, okay) = core_peek dev.storage core limit in
      (record q { core = some core' }, records, okay)

  unfoldable pub peek : DurableQueue S N → ℕ → DurableQueue S N × List QueueRecord × Bool
  unfolding peek_core
  peek q limit = if q.locked && q.healthy then peek_core q limit q.core else (q, [], false)
