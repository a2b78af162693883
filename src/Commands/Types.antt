-- ===== src/Commands/Types.antt =====
-- lib/commands/command_store.hpp: the persistent record of the one command.
use gathra_gateway.Prelude.{ℕ, ℤ, negsuc, Bool, List, ◌==◌}
use gathra_gateway.Protocol.Types.{CommandType, CommandResultCode}

abbrev pub command_store_magic : ℕ
command_store_magic = 0x4757_4332

abbrev pub command_store_schema : ℕ
command_store_schema = 1

pub data CommandState : Type 0 where
  none pending sent confirmed failed cancelled : CommandState
  unnamed : ℕ → CommandState

unfoldable pub state_code : CommandState → ℕ
state_code CommandState.none = 0
state_code CommandState.pending = 1
state_code CommandState.sent = 2
state_code CommandState.confirmed = 3
state_code CommandState.failed = 4
state_code CommandState.cancelled = 5
state_code (CommandState.unnamed n) = n

unfoldable pub state_eq : CommandState → CommandState → Bool
unfolding state_code
state_eq a b = state_code a == state_code b

pub record GatewayCommand : Type 0 where
  pub command_id : ℕ
  pub type : CommandType
  pub state : CommandState
  pub poll_interval_minutes : ℕ
  pub scheduled_maintenance_unix : ℕ
  pub created_unix_ms : ℤ
  pub last_sent_unix_ms : ℤ
  pub send_count : ℕ
  pub result : CommandResultCode
  pub effective_poll_interval_minutes : ℕ
  pub effective_maintenance_unix : ℕ

pub record CommandStoreRecord : Type 0 where
  pub magic : ℕ
  pub schema_version : ℕ
  pub structure_size : ℕ
  pub next_command_id : ℕ
  pub command : GatewayCommand
  pub checksum : ℕ

-- `GatewayCommand{}`
abbrev pub empty_command : GatewayCommand
empty_command = record {
  command_id = 0;
  type = CommandType.none;
  state = CommandState.none;
  poll_interval_minutes = 0;
  scheduled_maintenance_unix = 0;
  created_unix_ms = negsuc 0;
  last_sent_unix_ms = negsuc 0;
  send_count = 0;
  result = CommandResultCode.none;
  effective_poll_interval_minutes = 0;
  effective_maintenance_unix = 0;
}

-- The bytes of a record before its member `checksum`, and `sizeof(CommandStoreRecord)`.
pub record Platform : Type 0 where
  pub bytes : CommandStoreRecord → List ℕ
  pub record_size : ℕ
