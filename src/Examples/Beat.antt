-- ===== src/Examples/Beat.antt =====
-- lib/backend/backend_worker.cpp: a heartbeat of a worker without telemetry, and a round without a
-- credential.
use gathra_gateway.Prelude.{
  ℕ, ◌+◌, ◌*◌, ◌/◌, ◌^◌, ◌≤◌, length, ◌≡◌, refl, Bool, true, false, [], ◌∷◌, some, pos, negsuc,
  ◌==◌,
}
use gathra_gateway.Commands.Types.{empty_command}
use gathra_gateway.Queue.Readers.{size}
use gathra_gateway.Worker.Types.{Worker}
use gathra_gateway.Worker.Capture.{Observed}
use gathra_gateway.Worker.Beat.{Heart, attempt_heartbeat}
use gathra_gateway.Worker.Round.{Wait, back_off, run_round}
use gathra_gateway.Worker.Status.{apply_config}
use gathra_gateway.Worker.Backoff.{min, fail_all, back_off-fail_all}
use gathra_gateway.Worker.Request.{network_available}
use gathra_gateway.Worker.Isolation.{
  Counted, cannot_upload, attempt_heartbeat-Counted, run_round-cannot_upload,
}
use gathra_gateway.Examples.Durable.{board, serving}
use gathra_gateway.Examples.Queue.{unread}
use gathra_gateway.Examples.Pairing.{with_probe}
use gathra_gateway.Examples.Processor.{no_counts}
use gathra_gateway.Examples.Radio.{receiving}
use gathra_gateway.Examples.Worker.{online, idle, nobody, timeout}
use gathra_gateway.Examples.Config.{thousandths, defaults, defaults_valid}

abbrev seen : Observed ℕ
seen = record {
  radio = receiving.diagnostics;
  processing = no_counts;
  pairing = with_probe;
  wifi = record {
    configured = true;
    connected = true;
    ssid = b'a' ∷ [];
    local_ip = [];
    rssi_dbm = negsuc 60;
    reconnecting = false;
    fallback_ap_active = false;
    fallback_ap_ssid = [];
  };
  time = record {
    trusted = true;
    current_unix_ms = pos 1_790_000_000_000;
    last_sync_unix_ms = pos 1_790_000_000_000;
  };
  command = empty_command;
  build_flavor = [];
  reset_reason = [];
  boot_count = 3;
  free_heap_bytes = 100_000;
  min_free_heap_bytes = 90_000;
  largest_free_heap_block_bytes = 50_000;
  sketch_size_bytes = 1_000_000;
  free_sketch_space_bytes = 1_000_000;
  flash_size_bytes = 4_000_000;
}

abbrev heart : Heart ℕ ℕ
heart = record {
  observe = λ e. (e, seen);
  serialize = λ snapshot. some (b'{' ∷ (b'}' ∷ []));
  random = λ e. (e, 17);
}

-- The worker with an empty queue and a credential.
abbrev drained : Worker Bool ℕ ℕ
drained = record idle {
  queue = record serving { core = some unread };
  config = record (idle.config) { token = b't' ∷ [] };
}

nothing_queued : size drained.queue ≡ 0
unfolding size
nothing_queued = refl

attempt_heartbeat-Counted_example :
    let v = attempt_heartbeat board online heart drained in
    (v.status ≡ drained.status)
    × (v.config ≡ drained.config)
    × (v.heartbeat_status.in_progress ≡ false)
    × Counted drained.heartbeat_status v.heartbeat_status
attempt_heartbeat-Counted_example =
    attempt_heartbeat-Counted board online heart drained nothing_queued

queued : (size idle.queue == 0) ≡ false
unfolding size
queued = refl

hindered : cannot_upload board online heart idle ≡ true
unfolding cannot_upload network_available
hindered = refl

run_round-cannot_upload_example :
    let (v, wait) = run_round board online heart idle in
    (v.queue ≡ idle.queue)
    × (v.status.current_backoff_ms ≡ idle.status.current_backoff_ms)
    × (v.status.consecutive_failures ≡ idle.status.consecutive_failures)
    × (v.status.telemetry_upload_failure_count ≡ idle.status.telemetry_upload_failure_count)
    × (v.heartbeat_status ≡ idle.heartbeat_status)
    × (wait ≡ Wait.notified 5_000)
run_round-cannot_upload_example = run_round-cannot_upload board online heart idle queued hindered

abbrev timed_out : Worker Bool ℕ ℕ
timed_out = fail_all online (apply_config online idle defaults nobody) (timeout ∷ (timeout ∷ []))

back_off-fail_all_example :
    (timed_out.status.current_backoff_ms
      ≡ min
          (defaults.backend_initial_backoff_ms * 2 ^ length (timeout ∷ []))
          defaults.backend_maximum_backoff_ms)
    × (1_000 ≤ timed_out.status.current_backoff_ms)
    × (timed_out.status.current_backoff_ms ≤ 300_000)
    × ((ms : ℕ) × ((back_off board online heart timed_out).1 ≡ Wait.notified ms)
        × (timed_out.status.current_backoff_ms ≤ ms)
        × (ms ≤ timed_out.status.current_backoff_ms + timed_out.status.current_backoff_ms / 5))
back_off-fail_all_example =
    back_off-fail_all board online heart thousandths idle defaults nobody timeout (timeout ∷ [])
      defaults_valid
