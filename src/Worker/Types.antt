-- ===== src/Worker/Types.antt =====
-- lib/backend/backend_worker.hpp: the state of the task that uploads, and what surrounds it.
use gathra_gateway.Prelude.{ℕ, ℤ, Bool, List, Option}
use gathra_gateway.Time.{TrustedTimeSnapshot}
use gathra_gateway.Queue.Record.{QueueRecord}
use gathra_gateway.Queue.Durable.{DurableQueue}
use gathra_gateway.Heartbeat.{HeartbeatScheduler}
use gathra_gateway.Backend.{Document}

pub record GatewayIdentity : Type 0 where
  pub gateway_id : List ℕ
  pub hardware_mac : List ℕ
  pub firmware_version : List ℕ
  pub boot_session_id : ℕ

pub record RuntimeConfig : Type 0 where
  pub base_url : List ℕ
  pub token : List ℕ
  pub batch_size : ℕ
  pub timeout_ms : ℕ
  pub initial_backoff_ms : ℕ
  pub maximum_backoff_ms : ℕ
  pub heartbeat_interval_seconds : ℕ
  pub identity : GatewayIdentity

pub record BackendStatus : Type 0 where
  pub state : List ℕ
  pub credential_configured : Bool
  pub tls_endpoint : Bool
  pub last_attempt_uptime_ms : ℕ
  pub last_http_status : ℤ
  pub last_success_uptime_ms : ℕ
  pub last_success_unix_ms : ℤ
  pub last_error_uptime_ms : ℕ
  pub last_error_unix_ms : ℤ
  pub consecutive_failures : ℕ
  pub telemetry_upload_success_count : ℕ
  pub telemetry_upload_failure_count : ℕ
  pub last_error : List ℕ
  pub current_backoff_ms : ℕ

pub record HeartbeatStatus : Type 0 where
  pub interval_seconds : ℕ
  pub in_progress : Bool
  pub last_attempt_uptime_ms : ℕ
  pub last_attempt_unix_ms : ℤ
  pub last_success_uptime_ms : ℕ
  pub last_success_unix_ms : ℤ
  pub last_http_status : ℤ
  pub last_error : List ℕ
  pub success_count : ℕ
  pub failure_count : ℕ

pub data HttpMethod : Type 0 where
  get post : HttpMethod

-- What the HTTP client is asked for: the headers are `Accept`, `Authorization` with the bearer token
-- and, for `POST`, `Content-Type`.
pub record HttpRequest : Type 0 where
  pub method : HttpMethod
  pub url : List ℕ
  pub bearer : List ℕ
  pub body : List ℕ
  pub timeout_ms : ℕ
  pub tls : Bool

-- The platform, with a state `E`: `uptime_us` is `esp_timer_get_time`, `now` is `TimeManager::now`,
-- `begin` and `send` are those of the HTTP client, the latter with the status, the body of the response
-- and the text for a status that is not positive. `serialize` and `deserialize` are the JSON library's
-- and `meanwhile` what the other tasks do to the queue while a request is under way.
pub record Platform (E Q : Type 0) : Type 0 where
  pub uptime_us : E → E × ℕ
  pub now : E → E × TrustedTimeSnapshot
  pub wifi_connected : E → E × Bool
  pub ap_active : E → E × Bool
  pub ap_stations : E → E × ℕ
  pub begin : E → HttpRequest → E × Bool
  pub send : E → HttpRequest → E × ℤ × List ℕ × List ℕ
  pub serialize : GatewayIdentity → List QueueRecord → Option (List ℕ)
  pub deserialize : List ℕ → Document
  pub meanwhile : E → Q → Q

-- The mutex of the worker is taken without a time limit, and exists once `begin` has succeeded.
pub record Worker (S N E : Type 0) : Type 0 where
  pub queue : DurableQueue S N
  pub outside : E
  pub config : RuntimeConfig
  pub status : BackendStatus
  pub heartbeat_status : HeartbeatStatus
  pub heartbeat_scheduler : HeartbeatScheduler
