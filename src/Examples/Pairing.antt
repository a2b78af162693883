-- ===== src/Examples/Pairing.antt =====
-- lib/pairing/pairing_manager.cpp: one node is heard and paired.
use gathra_gateway.Prelude.{refl, inl, inr, [], ◌∷◌, none, arith, false}
use gathra_gateway.Pairing.{PairingManager, begin, no_candidate}
use gathra_gateway.Pairing.Safety.{IsSafe, Call, run, run-begin-IsSafe}
use gathra_gateway.Examples.Protocol.{probe_id, probe_id-IsNodeId, probe}

run-begin-IsSafe_example :
    IsSafe (run (begin none) (Call.starts ∷ (Call.observes probe 5 6 7 ∷ (Call.confirms ∷ []))))
run-begin-IsSafe_example =
    run-begin-IsSafe none (Call.starts ∷ (Call.observes probe 5 6 7 ∷ (Call.confirms ∷ [])))

abbrev pub with_probe : PairingManager
with_probe = record { paired_node_id = probe_id; pairing_mode = false; candidate = no_candidate }

with_probe-IsSafe : IsSafe with_probe
with_probe-IsSafe = record {
  identifier = inr probe_id-IsNodeId;
  exclusive = inl refl;
  bounded = omega arith;
}
