-- ===== src/Examples/Dedup.antt =====
-- lib/pairing/deduplicator.cpp: a ring of two keys.
use gathra_gateway.Prelude.{◌≡◌, ◌≤◌, not, List, [], ◌∷◌, if◌then◌else◌, length}
use gathra_gateway.Dedup.{TelemetryKey, create, contains, remember}
use gathra_gateway.Dedup.Slots.{IsValid}
use gathra_gateway.Dedup.Refinement.{
  any_equal, recent, push_recent, contains-any_equal, remember-recent, remember_all, recent_all,
  remember_all-create, create-IsValid,
}
use gathra_gateway.Examples.Protocol.{probe_id}

abbrev first : TelemetryKey
first = record { node_id = probe_id; persistent_session_id = 7; sequence = 41 }

abbrev second : TelemetryKey
second = record { node_id = probe_id; persistent_session_id = 7; sequence = 42 }

contains-any_equal_example : contains (create 2) first ≡ any_equal (recent (create 2)) first
contains-any_equal_example = contains-any_equal (create 2) first

remember-recent_example :
    ((remember (create 2) first).1 ≡ not (any_equal (recent (create 2)) first))
    × (recent (remember (create 2) first).0 ≡ (
        if any_equal (recent (create 2)) first
        then recent (create 2)
        else push_recent (create 2).capacity (recent (create 2)) first))
    × IsValid (remember (create 2) first).0
remember-recent_example = remember-recent (create 2) first (create-IsValid 2)

abbrev heard : List TelemetryKey
heard = first ∷ (second ∷ (first ∷ []))

remember_all-create_example :
    (recent (remember_all (create 2) heard) ≡ recent_all (create 2).capacity [] heard)
    × (length (recent (remember_all (create 2) heard)) ≤ 64)
remember_all-create_example = remember_all-create 2 heard
