-- ===== src/Dedup.antt =====
-- lib/pairing/deduplicator.hpp and deduplicator.cpp: telemetry keys and the ring of recent ones.
pub mod Slots
pub mod Refinement
pub mod Distinct
use gathra_gateway.Prelude.{
  ℕ, zero, suc, ◌+◌, ◌-◌, ◌%◌, ◌<◌, Bool, true, false, ◌&&◌, List, [], ◌∷◌, Option, none, some, set,
  get_or, ltb, ◌==◌, if◌then◌else◌,
}
use gathra_gateway.Build.{node_id_capacity, recent_dedup_capacity}
use gathra_gateway.Text.{CString, strncpy, strncmp_eq}

pub record TelemetryKey : Type 0 where
  pub node_id : List ℕ
  pub persistent_session_id : ℕ
  pub sequence : ℕ

abbrev pub empty_key : TelemetryKey
empty_key = record { node_id = []; persistent_session_id = 0; sequence = 0 }

unfoldable pub make_telemetry_key : CString → ℕ → ℕ → TelemetryKey
make_telemetry_key none session sequence = record {
  node_id = [];
  persistent_session_id = session;
  sequence = sequence;
}
make_telemetry_key (some node_id) session sequence = record {
  node_id = strncpy node_id (node_id_capacity - 1);
  persistent_session_id = session;
  sequence = sequence;
}

unfoldable pub telemetry_key_equal : TelemetryKey → TelemetryKey → Bool
telemetry_key_equal a b =
    strncmp_eq a.node_id b.node_id node_id_capacity
    && a.persistent_session_id == b.persistent_session_id
    && a.sequence == b.sequence

-- `next` is the slot that the next key takes.
pub record RecentDeduplicator : Type 0 where
  pub keys : List TelemetryKey
  pub capacity : ℕ
  pub size : ℕ
  pub next : ℕ

empty_keys : ℕ → List TelemetryKey
empty_keys zero = []
empty_keys (suc n) = empty_key ∷ empty_keys n

unfoldable pub create : ℕ → RecentDeduplicator
unfolding empty_keys
create capacity =
    let chosen = if capacity == 0 then 1 else capacity in
    record {
      keys = empty_keys recent_dedup_capacity;
      capacity = if ltb recent_dedup_capacity chosen then recent_dedup_capacity else chosen;
      size = 0;
      next = 0;
    }

unfoldable pub oldest_at : RecentDeduplicator → ℕ → TelemetryKey
oldest_at d index =
    let oldest = if ltb d.size d.capacity then 0 else d.next in
    get_or d.keys ((oldest + index) % d.capacity) empty_key

-- The loop of `contains` from `index` on; `left` rounds are left.
unfoldable pub contains_from : RecentDeduplicator → TelemetryKey → ℕ → ℕ → Bool
unfolding oldest_at telemetry_key_equal
contains_from d key index zero = false
contains_from d key index (suc left) =
    let rest = contains_from d key (index + 1) left in
    if telemetry_key_equal (oldest_at d index) key then true else rest

unfoldable pub contains : RecentDeduplicator → TelemetryKey → Bool
unfolding contains_from
contains d key = contains_from d key 0 d.size

unfoldable pub remember : RecentDeduplicator → TelemetryKey → RecentDeduplicator × Bool
unfolding contains
remember d key = if contains d key then (d, false) else (
  record d {
    keys = set d.keys d.next key;
    next = (d.next + 1) % d.capacity;
    size = if ltb d.size d.capacity then d.size + 1 else d.size;
  },
  true,
)

unfoldable pub clear : RecentDeduplicator → RecentDeduplicator
clear d = record d { size = 0; next = 0 }
