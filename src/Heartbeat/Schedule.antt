-- ===== src/Heartbeat/Schedule.antt =====
-- lib/heartbeat/heartbeat_contract.cpp: how often a heartbeat may be attempted.
use gathra_gateway.Prelude.{ℕ, ◌+◌, ◌*◌, ◌^◌, ◌≤◌, ◌<◌, ◌≡◌, true, List, [], ◌∷◌, arith, ◌↔◌}
use gathra_gateway.Heartbeat.{
  HeartbeatScheduler, unscheduled, heartbeat_interval_valid, configure, due, mark_attempt,
}

-- The interval lies between the configured bounds.
abbrev pub IsPaced : HeartbeatScheduler → Type 0
IsPaced h = (15 ≤ h.interval_seconds) × (h.interval_seconds ≤ 3600)

pub data Call : Type 0 where
  configures : ℕ → ℕ → Call
  marks : ℕ → Call

pub step : HeartbeatScheduler → Call → HeartbeatScheduler
step h (configures interval_seconds now_us) = (configure h interval_seconds now_us).0
step h (marks now_us) = mark_attempt h now_us

pub run : HeartbeatScheduler → List Call → HeartbeatScheduler
run h [] = h
run h (c ∷ cs) = run (step h c) cs

step-IsPaced : (h : HeartbeatScheduler) (c : Call) → IsPaced h → IsPaced (step h c)
unfolding step configure mark_attempt heartbeat_interval_valid
step-IsPaced h (configures interval_seconds now_us) v = ground arith
step-IsPaced h (marks now_us) v = v

run-IsPaced : (h : HeartbeatScheduler) (cs : List Call) → IsPaced h → IsPaced (run h cs)
unfolding run
run-IsPaced h [] v = v
run-IsPaced h (c ∷ cs) v = run-IsPaced (step h c) cs (step-IsPaced h c v)

-- After any calls on a new scheduler the interval is from 15 to 3600 seconds; and once an attempt is
-- marked at a time that is more than an hour before the clock wraps, a heartbeat is due exactly from
-- the end of the interval on, which is at least 15 seconds later.
pub due-mark_attempt :
    (cs : List Call) (marked_us now_us : ℕ)
    → marked_us + 3600 * 1_000_000 < 2 ^ 64
    → IsPaced (run unscheduled cs)
      × ((due (mark_attempt (run unscheduled cs) marked_us) now_us ≡ true)
          ↔ (marked_us + (run unscheduled cs).interval_seconds * 1_000_000 ≤ now_us))
due-mark_attempt cs marked_us now_us h =
    let v = run-IsPaced unscheduled cs (omega arith) in
    (v, after (run unscheduled cs) marked_us now_us h v)
  where
    after :
        (s : HeartbeatScheduler) (marked_us now_us : ℕ)
        → marked_us + 3600 * 1_000_000 < 2 ^ 64
        → IsPaced s
        → (due (mark_attempt s marked_us) now_us ≡ true)
          ↔ (marked_us + s.interval_seconds * 1_000_000 ≤ now_us)
    after s marked_us now_us h v = unfold due mark_attempt in ground arith
