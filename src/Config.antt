-- ===== src/Config.antt =====
-- lib/config/gateway_config.hpp and gateway_config.cpp: the configuration and its rules. A float is its
-- bit pattern; what the code does with one belongs to the compiler: `Floats` has it.
pub mod Url
pub mod Rules
use Prim.Native.String.{String}
use gathra_gateway.Prelude.{
  ℕ, ◌-◌, ℤ, pos, negsuc, Bool, true, false, not, ◌&&◌, ◌||◌, List, [], ◌∷◌, Option, none, some,
  length, take, ltb, leb, ◌==◌, if◌then◌else◌,
}
use gathra_gateway.Build.{
  config_schema_version, gateway_id_capacity, wifi_ssid_capacity, wifi_password_capacity,
  backend_url_capacity, bearer_token_capacity, backend_maximum_batch_size,
  default_heartbeat_interval_seconds, minimum_heartbeat_interval_seconds,
  maximum_heartbeat_interval_seconds,
}
use gathra_gateway.Text.{CString, strnlen, strncpy, codes, alphanumeric}
use gathra_gateway.Protocol.Header.{node_id_valid}
use gathra_gateway.Config.Url.{
  backend_url_valid, bounded_c_string, contains_control_or_space, is_empty,
}

-- `literal n` is the constant n / 1000; `near a b e` is `fabsf(a - b) < e`.
pub record Floats : Type 0 where
  pub literal : ℕ → ℕ
  pub less : ℕ → ℕ → Bool
  pub finite : ℕ → Bool
  pub near : ℕ → ℕ → ℕ → Bool

pub record RadioConfig : Type 0 where
  pub frequency_mhz : ℕ
  pub bandwidth_khz : ℕ
  pub spreading_factor : ℕ
  pub coding_rate_denominator : ℕ
  pub tx_power_dbm : ℤ
  pub sync_word : ℕ

pub record GatewayConfig : Type 0 where
  pub schema_version : ℕ
  pub gateway_id : List ℕ
  pub wifi_ssid : List ℕ
  pub wifi_password : List ℕ
  pub paired_node_id : List ℕ
  pub backend_base_url : List ℕ
  pub backend_bearer_token : List ℕ
  pub radio : RadioConfig
  pub backend_batch_size : ℕ
  pub backend_http_timeout_ms : ℕ
  pub backend_initial_backoff_ms : ℕ
  pub backend_maximum_backoff_ms : ℕ
  pub wifi_reconnect_interval_ms : ℕ
  pub wifi_fallback_after_ms : ℕ
  pub wifi_ap_grace_ms : ℕ
  pub heartbeat_interval_seconds : ℕ

pub record GatewayConfigV1 : Type 0 where
  pub schema_version : ℕ
  pub gateway_id : List ℕ
  pub wifi_ssid : List ℕ
  pub wifi_password : List ℕ
  pub paired_node_id : List ℕ
  pub backend_base_url : List ℕ
  pub backend_bearer_token : List ℕ
  pub radio : RadioConfig
  pub backend_batch_size : ℕ
  pub backend_http_timeout_ms : ℕ
  pub backend_initial_backoff_ms : ℕ
  pub backend_maximum_backoff_ms : ℕ
  pub wifi_reconnect_interval_ms : ℕ
  pub wifi_fallback_after_ms : ℕ
  pub wifi_ap_grace_ms : ℕ

pub data ConfigValidationCode : Type 0 where
  ok schema gateway_id wifi node_id backend_url bearer_token radio : ConfigValidationCode
  backend_policy wifi_policy heartbeat_policy : ConfigValidationCode

-- The message that each code is returned with.
unfoldable pub message_of : ConfigValidationCode → String
message_of ConfigValidationCode.ok = "ok"
message_of ConfigValidationCode.schema = "unsupported configuration schema"
message_of ConfigValidationCode.gateway_id =
    "gatewayId must be 1-48 ASCII letters, digits, '-' or '_'"
message_of ConfigValidationCode.wifi = "invalid Wi-Fi credentials"
message_of ConfigValidationCode.node_id =
    "pairedNodeId must be empty or 1-24 ASCII letters, digits, '-' or '_'"
message_of ConfigValidationCode.backend_url =
    "backend URL must be an http:// or https:// base URL without credentials or trailing slash"
message_of ConfigValidationCode.bearer_token =
    "backend token must be bounded and contain no whitespace"
message_of ConfigValidationCode.radio = "invalid SX1278 radio setting"
message_of ConfigValidationCode.backend_policy = "invalid backend batching/timeout/backoff policy"
message_of ConfigValidationCode.wifi_policy = "invalid Wi-Fi reconnect/fallback policy"
message_of ConfigValidationCode.heartbeat_policy = "heartbeat interval must be 15-3600 seconds"

unfoldable pub all_identifier_bytes : List ℕ → Bool
unfolding alphanumeric
all_identifier_bytes [] = true
all_identifier_bytes (c ∷ rest) =
    (alphanumeric c || c == b'-' || c == b'_') && all_identifier_bytes rest

unfoldable pub identifier_valid : CString → ℕ → Bool
unfolding strnlen all_identifier_bytes
identifier_valid none capacity = false
identifier_valid (some value) capacity =
    let length = strnlen value capacity in
    not (length == 0) && ltb length capacity && all_identifier_bytes (take length value)

unfoldable pub gateway_id_valid : CString → Bool
unfolding identifier_valid
gateway_id_valid id = identifier_valid id gateway_id_capacity

-- `GatewayConfig{}`, but for the radio
abbrev pub default_config : RadioConfig → GatewayConfig
default_config r = record {
  schema_version = config_schema_version;
  gateway_id = [];
  wifi_ssid = [];
  wifi_password = [];
  paired_node_id = [];
  backend_base_url = [];
  backend_bearer_token = [];
  radio = r;
  backend_batch_size = 20;
  backend_http_timeout_ms = 10_000;
  backend_initial_backoff_ms = 2_000;
  backend_maximum_backoff_ms = 300_000;
  wifi_reconnect_interval_ms = 15_000;
  wifi_fallback_after_ms = 60_000;
  wifi_ap_grace_ms = 30_000;
  heartbeat_interval_seconds = default_heartbeat_interval_seconds;
}

abbrev or_unknown : CString → List ℕ
or_unknown none = codes "GTH-GW-UNKNOWN"
or_unknown (some id) = id

-- `r` is outside `2 .. 20`
abbrev pub power_invalid : ℤ → Bool
power_invalid (pos n) = ltb n 2 || ltb 20 n
power_invalid (negsuc n) = true

unfoldable pub power_equal : ℤ → ℤ → Bool
power_equal (pos a) (pos b) = a == b
power_equal (negsuc a) (negsuc b) = a == b
power_equal _ _ = false

unfoldable pub wifi_invalid : GatewayConfig → Bool
wifi_invalid c =
    not (bounded_c_string c.wifi_ssid wifi_ssid_capacity)
    || not (bounded_c_string c.wifi_password wifi_password_capacity)
    || (is_empty c.wifi_ssid && not (is_empty c.wifi_password))
    || (not (is_empty c.wifi_password) && ltb (length c.wifi_password) 8)

unfoldable pub backend_policy_invalid : GatewayConfig → Bool
backend_policy_invalid c =
    c.backend_batch_size == 0
    || ltb backend_maximum_batch_size c.backend_batch_size
    || ltb c.backend_http_timeout_ms 1_000
    || ltb 30_000 c.backend_http_timeout_ms
    || ltb c.backend_initial_backoff_ms 1_000
    || ltb 60_000 c.backend_initial_backoff_ms
    || ltb c.backend_maximum_backoff_ms c.backend_initial_backoff_ms
    || ltb 300_000 c.backend_maximum_backoff_ms

unfoldable pub wifi_policy_invalid : GatewayConfig → Bool
wifi_policy_invalid c =
    ltb c.wifi_reconnect_interval_ms 5_000
    || ltb 300_000 c.wifi_reconnect_interval_ms
    || ltb c.wifi_fallback_after_ms 15_000
    || ltb 3_600_000 c.wifi_fallback_after_ms
    || ltb 300_000 c.wifi_ap_grace_ms

unfoldable pub is_valid : ConfigValidationCode → Bool
is_valid ConfigValidationCode.ok = true
is_valid _ = false

-- The candidate of `migrateConfigV1`
unfoldable pub migrated : GatewayConfigV1 → GatewayConfig
migrated legacy = record {
  schema_version = config_schema_version;
  gateway_id = legacy.gateway_id;
  wifi_ssid = legacy.wifi_ssid;
  wifi_password = legacy.wifi_password;
  paired_node_id = legacy.paired_node_id;
  backend_base_url = legacy.backend_base_url;
  backend_bearer_token = legacy.backend_bearer_token;
  radio = legacy.radio;
  backend_batch_size = legacy.backend_batch_size;
  backend_http_timeout_ms = legacy.backend_http_timeout_ms;
  backend_initial_backoff_ms = legacy.backend_initial_backoff_ms;
  backend_maximum_backoff_ms = legacy.backend_maximum_backoff_ms;
  wifi_reconnect_interval_ms = legacy.wifi_reconnect_interval_ms;
  wifi_fallback_after_ms = legacy.wifi_fallback_after_ms;
  wifi_ap_grace_ms = legacy.wifi_ap_grace_ms;
  heartbeat_interval_seconds = default_heartbeat_interval_seconds;
}

module _ (f : Floats) where
  -- `RadioConfig{}`
  unfoldable pub default_radio : RadioConfig
  default_radio = record {
    frequency_mhz = f.literal 433_000;
    bandwidth_khz = f.literal 125_000;
    spreading_factor = 10;
    coding_rate_denominator = 6;
    tx_power_dbm = pos 17;
    sync_word = 0x12;
  }

  unfoldable pub set_defaults : CString → GatewayConfig
  unfolding default_radio
  set_defaults derived_gateway_id = record (default_config default_radio) {
    gateway_id = strncpy (or_unknown derived_gateway_id) (gateway_id_capacity - 1);
    backend_base_url = strncpy (codes "https://api.gathra.my.id") (backend_url_capacity - 1);
  }

  unfoldable pub near_one : ℕ → List ℕ → Bool
  near_one value [] = false
  near_one value (candidate ∷ rest) =
      f.near value (f.literal candidate) (f.literal 60) || near_one value rest

  unfoldable pub valid_bandwidth : ℕ → Bool
  unfolding near_one
  valid_bandwidth value =
      near_one value
        (7_800 ∷ 10_400 ∷ 15_600 ∷ 20_800 ∷ 31_250 ∷ 41_700 ∷ 62_500 ∷ 125_000 ∷ 250_000 ∷ [])

  unfoldable pub radio_config_equal : RadioConfig → RadioConfig → Bool
  unfolding power_equal
  radio_config_equal a b =
      f.near a.frequency_mhz b.frequency_mhz (f.literal 1)
      && f.near a.bandwidth_khz b.bandwidth_khz (f.literal 10)
      && a.spreading_factor == b.spreading_factor
      && a.coding_rate_denominator == b.coding_rate_denominator
      && power_equal a.tx_power_dbm b.tx_power_dbm
      && a.sync_word == b.sync_word

  unfoldable pub radio_invalid : RadioConfig → Bool
  unfolding valid_bandwidth
  radio_invalid r =
      not (f.finite r.frequency_mhz)
      || f.less r.frequency_mhz (f.literal 410_000)
      || f.less (f.literal 525_000) r.frequency_mhz
      || not (valid_bandwidth r.bandwidth_khz)
      || ltb r.spreading_factor 7
      || ltb 12 r.spreading_factor
      || ltb r.coding_rate_denominator 5
      || ltb 8 r.coding_rate_denominator
      || power_invalid r.tx_power_dbm

  unfoldable pub validate_config : GatewayConfig → ConfigValidationCode
  unfolding backend_policy_invalid wifi_policy_invalid
  validate_config c =
      if not (c.schema_version == config_schema_version)
      then ConfigValidationCode.schema
      else if not (gateway_id_valid (some c.gateway_id))
      then ConfigValidationCode.gateway_id
      else if wifi_invalid c
      then ConfigValidationCode.wifi
      else if not (is_empty c.paired_node_id) && not (node_id_valid (some c.paired_node_id))
      then ConfigValidationCode.node_id
      else if not (backend_url_valid (some c.backend_base_url))
      then ConfigValidationCode.backend_url
      else if not (bounded_c_string c.backend_bearer_token bearer_token_capacity)
          || contains_control_or_space c.backend_bearer_token
      then ConfigValidationCode.bearer_token
      else if radio_invalid c.radio
      then ConfigValidationCode.radio
      else if backend_policy_invalid c
      then ConfigValidationCode.backend_policy
      else if wifi_policy_invalid c
      then ConfigValidationCode.wifi_policy
      else if ltb c.heartbeat_interval_seconds minimum_heartbeat_interval_seconds
          || ltb maximum_heartbeat_interval_seconds c.heartbeat_interval_seconds
      then ConfigValidationCode.heartbeat_policy
      else ConfigValidationCode.ok

  unfoldable pub migrate_config_v1 : GatewayConfigV1 → Option GatewayConfig
  unfolding migrated validate_config is_valid
  migrate_config_v1 legacy =
      if not (legacy.schema_version == 1)
      then none
      else if is_valid (validate_config (migrated legacy))
      then some (migrated legacy)
      else none
