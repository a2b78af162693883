-- ===== src/Examples/Heartbeat.antt =====
-- lib/heartbeat/heartbeat_contract.cpp: a scheduler that is set to half a minute.
use gathra_gateway.Prelude.{◌+◌, ◌*◌, ◌≤◌, ◌≡◌, ◌↔◌, List, [], ◌∷◌, true, arith}
use gathra_gateway.Heartbeat.{unscheduled, due, mark_attempt}
use gathra_gateway.Heartbeat.Schedule.{Call, run, IsPaced, due-mark_attempt}

abbrev calls : List Call
calls = Call.configures 30 0 ∷ (Call.configures 5 0 ∷ (Call.marks 30_000_000 ∷ []))

due-mark_attempt_example :
    IsPaced (run unscheduled calls)
    × ((due (mark_attempt (run unscheduled calls) 60_000_000) 95_000_000 ≡ true)
        ↔ (60_000_000 + (run unscheduled calls).interval_seconds * 1_000_000 ≤ 95_000_000))
due-mark_attempt_example = due-mark_attempt calls 60_000_000 95_000_000 (omega arith)
