-- ===== src/Worker/Status.antt =====
-- lib/backend/backend_worker.cpp: what a failure and a success change in the status, and a new
-- configuration.
use gathra_gateway.Prelude.{
  ℕ, ◌+◌, ◌-◌, ◌*◌, ◌/◌, ◌%◌, ◌^◌, ℤ, negsuc, Bool, not, List, [], ltb, ◌==◌, if◌then◌else◌,
}
use gathra_gateway.Build.{backend_url_capacity, bearer_token_capacity}
use gathra_gateway.Text.{strncpy, codes, starts_with}
use gathra_gateway.Time.{TrustedTimeSnapshot}
use gathra_gateway.Config.{GatewayConfig}
use gathra_gateway.Config.Url.{is_empty}
use gathra_gateway.Heartbeat.{configure}
use gathra_gateway.Queue.Durable.{DurableQueue}
use gathra_gateway.Worker.Types.{GatewayIdentity, RuntimeConfig, Platform, Worker}

abbrev pub counted : ℕ → ℕ
counted n = (n + 1) % 2 ^ 64

-- A counter of 32 bits that stops at its maximum.
abbrev pub saturated : ℕ → ℕ
saturated n = if n == 2 ^ 32 - 1 then n else (n + 1) % 2 ^ 32

abbrev pub trusted_ms : TrustedTimeSnapshot → ℤ
trusted_ms t = if t.trusted then t.unix_ms else negsuc 0

-- The sum has 64 bits, so nothing is lost before the comparison.
unfoldable pub advanced : RuntimeConfig → ℕ → ℕ
advanced c current =
    if current == 0
    then c.initial_backoff_ms
    else if ltb c.maximum_backoff_ms (current * 2)
    then c.maximum_backoff_ms
    else current * 2 % 2 ^ 32

unfoldable pub starts_tls : List ℕ → Bool
unfolding starts_with
starts_tls base_url = starts_with base_url (codes "https://")

module _ {S N E : Type 0} (p : Platform E (DurableQueue S N)) where
  unfoldable pub uptime_ms : E → E × ℕ
  uptime_ms e = let (e', us) = p.uptime_us e in (e', us / 1_000)

  -- The part of `setFailure` for a failed upload.
  unfoldable pub count_failure : Worker S N E → Worker S N E
  unfolding uptime_ms
  count_failure w =
      let (e, uptime) = uptime_ms w.outside in
      let (e', time) = p.now e in
      record w {
        outside = e';
        status = record (w.status) {
          telemetry_upload_failure_count = counted w.status.telemetry_upload_failure_count;
          consecutive_failures = saturated w.status.consecutive_failures;
          last_error_uptime_ms = uptime;
          last_error_unix_ms = trusted_ms time;
        };
      }

  unfoldable pub set_failure : Worker S N E → ℤ → List ℕ → Bool → Bool → Worker S N E
  unfolding count_failure advanced
  set_failure w http_status message advance_backoff telemetry_operation_failure =
      let w' = record w {
        status = record (w.status) {
          state = codes "BACKOFF";
          last_http_status = http_status;
          last_error = strncpy message 127;
        };
      } in
      let w'' = if telemetry_operation_failure then count_failure w' else w' in
      if not advance_backoff then w'' else record w'' {
        status = record (w''.status) {
          current_backoff_ms = advanced w''.config w''.status.current_backoff_ms;
        };
      }

  unfoldable pub set_success : Worker S N E → ℤ → Worker S N E
  unfolding uptime_ms
  set_success w http_status =
      let (e, uptime) = uptime_ms w.outside in
      let (e', time) = p.now e in
      record w {
        outside = e';
        status = record (w.status) {
          state = codes "CONNECTED";
          last_http_status = http_status;
          last_error = [];
          current_backoff_ms = 0;
          last_success_uptime_ms = uptime;
          last_success_unix_ms = trusted_ms time;
          consecutive_failures = 0;
          telemetry_upload_success_count = counted w.status.telemetry_upload_success_count;
        };
      }

  unfoldable pub apply_config : Worker S N E → GatewayConfig → GatewayIdentity → Worker S N E
  unfolding starts_tls configure
  apply_config w c identity =
      let (e, now) = p.uptime_us w.outside in
      let base_url = strncpy c.backend_base_url (backend_url_capacity - 1) in
      let token = strncpy c.backend_bearer_token (bearer_token_capacity - 1) in
      record w {
        outside = e;
        config = record {
          base_url = base_url;
          token = token;
          batch_size = c.backend_batch_size;
          timeout_ms = c.backend_http_timeout_ms;
          initial_backoff_ms = c.backend_initial_backoff_ms;
          maximum_backoff_ms = c.backend_maximum_backoff_ms;
          heartbeat_interval_seconds = c.heartbeat_interval_seconds;
          identity = identity;
        };
        status = record (w.status) {
          credential_configured = not (is_empty token);
          tls_endpoint = starts_tls base_url;
          current_backoff_ms = 0;
        };
        heartbeat_scheduler = (configure w.heartbeat_scheduler c.heartbeat_interval_seconds now).0;
        heartbeat_status = record (w.heartbeat_status) {
          interval_seconds = c.heartbeat_interval_seconds;
        };
      }
