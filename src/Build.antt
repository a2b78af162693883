-- ===== src/Build.antt =====
-- include/build_config.hpp: the capacities and limits that the components share.
use gathra_gateway.Prelude.{ℕ}

abbrev pub node_id_capacity : ℕ
node_id_capacity = 25

abbrev pub gateway_id_capacity : ℕ
gateway_id_capacity = 49

abbrev pub radio_packet_capacity : ℕ
radio_packet_capacity = 96

abbrev pub recent_dedup_capacity : ℕ
recent_dedup_capacity = 64

abbrev pub default_heartbeat_interval_seconds : ℕ
default_heartbeat_interval_seconds = 60

abbrev pub minimum_heartbeat_interval_seconds : ℕ
minimum_heartbeat_interval_seconds = 15

abbrev pub maximum_heartbeat_interval_seconds : ℕ
maximum_heartbeat_interval_seconds = 3600

abbrev pub queue_record_version : ℕ
queue_record_version = 1

abbrev pub queue_magic : ℕ
queue_magic = 0x4754_5131

abbrev pub backend_maximum_batch_size : ℕ
backend_maximum_batch_size = 50

abbrev pub queue_reserved_bytes : ℕ
queue_reserved_bytes = 65536

abbrev pub estimated_littlefs_file_overhead : ℕ
estimated_littlefs_file_overhead = 128

abbrev pub queue_capacity_hard_max : ℕ
queue_capacity_hard_max = 4096

abbrev pub backend_url_capacity : ℕ
backend_url_capacity = 161

abbrev pub wifi_ssid_capacity : ℕ
wifi_ssid_capacity = 33

abbrev pub wifi_password_capacity : ℕ
wifi_password_capacity = 65

abbrev pub bearer_token_capacity : ℕ
bearer_token_capacity = 129

abbrev pub config_schema_version : ℕ
config_schema_version = 2
