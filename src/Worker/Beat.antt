-- ===== src/Worker/Beat.antt =====
-- lib/backend/backend_worker.cpp: `attemptHeartbeat`, which yields to telemetry.
use gathra_gateway.Prelude.{
  ℕ, zero, suc, ◌+◌, ◌/◌, ◌%◌, ℤ, pos, negsuc, Bool, true, false, not, List, [], ◌∷◌, ◌++◌, Option,
  none, some, ltb, ◌==◌, if◌then◌else◌,
}
use gathra_gateway.Text.{strncpy, codes}
use gathra_gateway.Config.Url.{is_empty}
use gathra_gateway.Queue.Durable.{Device, DurableQueue}
use gathra_gateway.Queue.Readers.{size}
use gathra_gateway.Heartbeat.{heartbeat_http_succeeded, mark_attempt}
use gathra_gateway.Heartbeat.Snapshot.{HeartbeatSnapshot}
use gathra_gateway.Worker.Types.{RuntimeConfig, HttpMethod, Platform, Worker}
use gathra_gateway.Worker.Status.{counted, trusted_ms, uptime_ms}
use gathra_gateway.Worker.Request.{Answer, is_positive, network_available, perform_request}
use gathra_gateway.Worker.Capture.{Observed, capture_heartbeat_snapshot}

-- The other components, the JSON library and the source of random numbers.
pub record Heart (E F : Type 0) : Type 0 where
  pub observe : E → E × Observed F
  pub serialize : HeartbeatSnapshot F → Option (List ℕ)
  pub random : E → E × ℕ

-- How an attempt ended; one that failed before the request has an error and the status 0.
pub data Beat : Type 0 where
  deferred : Beat
  failed : List ℕ → Beat
  answered : Answer → Beat

abbrev pub beat_status : Beat → ℤ
beat_status deferred = pos 0
beat_status (failed error) = pos 0
beat_status (answered a) = a.http_status

abbrev pub beat_error : Beat → List ℕ
beat_error deferred = []
beat_error (failed error) = error
beat_error (answered a) = a.error

abbrev pub is_deferred : Beat → Bool
is_deferred deferred = true
is_deferred _ = false

-- `%d`, for a number of at most `n` digits.
unfoldable pub decimal_text : ℕ → ℕ → List ℕ
decimal_text zero v = []
decimal_text (suc n) v =
    let rest = decimal_text n (v / 10) in
    if ltb v 10 then (b'0' + v) ∷ [] else rest ++ ((b'0' + v % 10) ∷ [])

abbrev pub status_text : ℤ → List ℕ
status_text (pos status) = codes "HTTP " ++ decimal_text 10 status
status_text (negsuc n) = []

unfoldable pub failure_text : Beat → List ℕ
failure_text b =
    if not (is_empty (beat_error b))
    then strncpy (beat_error b) 127
    else if is_positive (beat_status b)
    then status_text (beat_status b)
    else codes "heartbeat request failed"

-- A heartbeat has at most five seconds.
abbrev pub hurried : RuntimeConfig → RuntimeConfig
hurried c = record c { timeout_ms = if ltb 5_000 c.timeout_ms then 5_000 else c.timeout_ms }

module _ {S N E F : Type 0} (dev : Device S N) (p : Platform E (DurableQueue S N))
    (heart : Heart E F) where
  -- The other tasks have gone on.
  unfoldable pub elapse : Worker S N E → Worker S N E
  elapse w = record w { queue = p.meanwhile w.outside w.queue }

  unfoldable pub started : Worker S N E → Worker S N E
  started w =
      let (e, uptime) = uptime_ms p w.outside in
      let (e', time) = p.now e in
      let (e'', us) = p.uptime_us e' in
      record w {
        outside = e'';
        heartbeat_scheduler = mark_attempt w.heartbeat_scheduler us;
        heartbeat_status = record (w.heartbeat_status) {
          in_progress = true;
          last_attempt_uptime_ms = uptime;
          last_attempt_unix_ms = trusted_ms time;
        };
      }

  unfoldable pub send_heartbeat : Worker S N E → RuntimeConfig → List ℕ → Worker S N E × Beat
  send_heartbeat w config payload =
      let (e, a) =
        perform_request p w.outside (hurried config) HttpMethod.post
          (codes "/api/v1/iot/gateway/heartbeat") payload false in
      (record w { outside = e; queue = p.meanwhile w.outside w.queue }, answered a)

  -- From the last look at the queue on.
  unfoldable pub offer_heartbeat :
      Worker S N E → RuntimeConfig → Option (List ℕ) → Worker S N E × Beat
  offer_heartbeat w config none = (w, failed (codes "heartbeat serialization failed"))
  offer_heartbeat w config (some payload) =
      if size (elapse w).queue == 0
      then send_heartbeat (elapse w) config payload
      else (elapse w, deferred)

  unfoldable pub report_heartbeat : Worker S N E → RuntimeConfig → Worker S N E × Beat
  report_heartbeat w config =
      let (e, o) = heart.observe w.outside in
      let (w', snapshot) = capture_heartbeat_snapshot dev p (record w { outside = e }) config o in
      offer_heartbeat w' config (heart.serialize snapshot)

  unfoldable pub try_heartbeat : Worker S N E → Worker S N E × Beat
  try_heartbeat w =
      let config = w.config in
      let (e, available) = network_available p w.outside config in
      let w' = record w { outside = e } in
      if not (size w.queue == 0)
      then (w, deferred)
      else if not available
      then (w', failed (codes "Wi-Fi unavailable"))
      else if is_empty config.token
      then (w', failed (codes "backend credential is not configured"))
      else report_heartbeat w' config

  unfoldable pub concluded : Worker S N E → Beat → Worker S N E
  concluded w b =
      let (e, time) = p.now w.outside in
      let (e', uptime) = uptime_ms p e in
      let s = record (w.heartbeat_status) {
        in_progress = false;
        last_http_status = beat_status b;
      } in
      if is_deferred b
      then record w {
        outside = e;
        heartbeat_status = record s { last_error = codes "deferred for durable telemetry" };
      }
      else if heartbeat_http_succeeded (beat_status b)
      then record w {
        outside = e';
        heartbeat_status = record s {
          success_count = counted s.success_count;
          last_success_uptime_ms = uptime;
          last_success_unix_ms = trusted_ms time;
          last_error = [];
        };
      }
      else record w {
        outside = e;
        heartbeat_status = record s {
          failure_count = counted s.failure_count;
          last_error = failure_text b;
        };
      }

  unfoldable pub conclude : Worker S N E × Beat → Worker S N E
  conclude (w, b) = concluded w b

  unfoldable pub attempt_heartbeat : Worker S N E → Worker S N E
  attempt_heartbeat w =
      if size w.queue == 0 then conclude (try_heartbeat (elapse (started w))) else w
