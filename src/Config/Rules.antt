-- ===== src/Config/Rules.antt =====
-- lib/config/gateway_config.cpp: what an accepted configuration lets the other components rely on.
use gathra_gateway.Prelude.{◌≤◌, ◌≡◌, arith}
use gathra_gateway.Config.{Floats, GatewayConfig, ConfigValidationCode, validate_config}

-- The numbers of a configuration are in the ranges that its users rely on.
pub record IsWithinBounds (c : GatewayConfig) : Type 0 where
  pub batch_some : 1 ≤ c.backend_batch_size
  pub batch_bound : c.backend_batch_size ≤ 50
  pub timeout_low : 1_000 ≤ c.backend_http_timeout_ms
  pub timeout_high : c.backend_http_timeout_ms ≤ 30_000
  pub initial_low : 1_000 ≤ c.backend_initial_backoff_ms
  pub initial_high : c.backend_initial_backoff_ms ≤ 60_000
  pub backoff_order : c.backend_initial_backoff_ms ≤ c.backend_maximum_backoff_ms
  pub maximum_high : c.backend_maximum_backoff_ms ≤ 300_000
  pub reconnect_low : 5_000 ≤ c.wifi_reconnect_interval_ms
  pub fallback_low : 15_000 ≤ c.wifi_fallback_after_ms
  pub heartbeat_low : 15 ≤ c.heartbeat_interval_seconds
  pub heartbeat_high : c.heartbeat_interval_seconds ≤ 3_600

module _ (f : Floats) (c : GatewayConfig) where
  -- A configuration that is accepted is within its bounds.
  pub validate_config-IsWithinBounds :
      validate_config f c ≡ ConfigValidationCode.ok → IsWithinBounds c
  unfolding validate_config
  validate_config-IsWithinBounds h = ground arith
