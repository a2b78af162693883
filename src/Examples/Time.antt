-- ===== src/Examples/Time.antt =====
-- lib/time/time_manager.cpp: a clock that is set to a time in 2026.
use gathra_gateway.Prelude.{ℕ, ◌≤◌, ◌≡◌, refl, pos, true, List, [], ◌∷◌, some}
use gathra_gateway.Time.{not_synchronized, milliseconds, on_sntp_time_sync, now, run_round}
use gathra_gateway.Time.Trust.{Call, call, run, any_plausible, now-run}

-- A time of 1970, a round, a time of 2026, a round.
abbrev calls : List Call
calls =
    Call.notifies (some (12, 0))
    ∷ (Call.rounds ∷ (Call.notifies (some (1_790_000_000, 500_000)) ∷ (Call.rounds ∷ [])))

trusted : (now (run not_synchronized calls) (some (1_790_000_003, 0))).trusted ≡ true
unfolding now run call on_sntp_time_sync run_round milliseconds
trusted = refl

now-run_example :
    (any_plausible calls ≡ true)
    × ((t : ℕ) × ((now (run not_synchronized calls) (some (1_790_000_003, 0))).unix_ms ≡ pos t)
        × (1_700_000_000_000 ≤ t))
now-run_example = now-run calls (some (1_790_000_003, 0)) trusted
