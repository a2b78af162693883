-- ===== src/Heartbeat.antt =====
-- lib/heartbeat/heartbeat_contract.hpp and heartbeat_contract.cpp: when a heartbeat is due, and what
-- its failures mean. The JSON document that `serializeHeartbeat` builds is not modelled.
pub mod Schedule
pub mod Snapshot
use Prim.Native.String.{String}
use gathra_gateway.Prelude.{
  ℕ, ◌+◌, ◌*◌, ◌%◌, ◌^◌, ℤ, pos, negsuc, Bool, true, false, not, ◌&&◌, ltb, leb, ◌==◌,
  if◌then◌else◌,
}
use gathra_gateway.Build.{
  default_heartbeat_interval_seconds, minimum_heartbeat_interval_seconds,
  maximum_heartbeat_interval_seconds,
}

unfoldable pub heartbeat_interval_valid : ℕ → Bool
heartbeat_interval_valid seconds =
    leb minimum_heartbeat_interval_seconds seconds && leb seconds maximum_heartbeat_interval_seconds

unfoldable pub heartbeat_http_succeeded : ℤ → Bool
heartbeat_http_succeeded (pos status) = leb 200 status && ltb status 300
heartbeat_http_succeeded (negsuc n) = false

pub data BackendConnectivityState : Type 0 where
  unknown healthy degraded offline : BackendConnectivityState

unfoldable pub classify_backend_connectivity : ℕ → ℕ → BackendConnectivityState
classify_backend_connectivity successful_operations consecutive_failures =
    if successful_operations == 0 && consecutive_failures == 0
    then BackendConnectivityState.unknown
    else if consecutive_failures == 0
    then BackendConnectivityState.healthy
    else if ltb consecutive_failures 3
    then BackendConnectivityState.degraded
    else BackendConnectivityState.offline

unfoldable pub backend_connectivity_state_name : BackendConnectivityState → String
backend_connectivity_state_name BackendConnectivityState.unknown = "UNKNOWN"
backend_connectivity_state_name BackendConnectivityState.healthy = "HEALTHY"
backend_connectivity_state_name BackendConnectivityState.degraded = "DEGRADED"
backend_connectivity_state_name BackendConnectivityState.offline = "OFFLINE"

pub record HeartbeatScheduler : Type 0 where
  pub interval_seconds : ℕ
  pub next_due_us : ℕ

-- `HeartbeatScheduler{}`
abbrev pub unscheduled : HeartbeatScheduler
unscheduled = record { interval_seconds = default_heartbeat_interval_seconds; next_due_us = 0 }

unfoldable pub configure : HeartbeatScheduler → ℕ → ℕ → HeartbeatScheduler × Bool
unfolding heartbeat_interval_valid
configure h interval_seconds now_us =
    if not (heartbeat_interval_valid interval_seconds) then (h, false) else (
      record {
        interval_seconds = interval_seconds;
        next_due_us = (now_us + interval_seconds * 1_000_000) % 2 ^ 64;
      },
      true,
    )

unfoldable pub due : HeartbeatScheduler → ℕ → Bool
due h now_us = not (h.next_due_us == 0) && leb h.next_due_us now_us

unfoldable pub mark_attempt : HeartbeatScheduler → ℕ → HeartbeatScheduler
mark_attempt h now_us = record h {
  next_due_us = (now_us + h.interval_seconds * 1_000_000) % 2 ^ 64;
}
