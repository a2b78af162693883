-- ===== src/Commands.antt =====
-- lib/commands/command_store.hpp and command_store.cpp: the one persistent command. The object is
-- the state that each method returns; the build without ARDUINO has no mutex, and neither has the
-- model. `CommandBackend` is the interface of the source; `Platform` holds what the compiler decides
-- on the layout of the record.
pub mod Types
pub mod Machine
pub mod Durability
use Prim.Native.String.{String}
use gathra_gateway.Prelude.{
  ℕ, ◌+◌, ◌*◌, ◌%◌, ◌^◌, ◌≡◌, ℤ, negsuc, Bool, true, false, not, ◌&&◌, ◌||◌, List, [], ◌∷◌, Option,
  none, some, bit_xor, leb, ◌==◌, if◌then◌else◌,
}
use gathra_gateway.Protocol.Types.{CommandType, CommandResultCode, CommandResultPacket}
use gathra_gateway.Commands.Types.{
  command_store_magic, command_store_schema, CommandState, state_code, state_eq, GatewayCommand,
  CommandStoreRecord, empty_command, Platform,
}
use gathra_gateway.Protocol.Codes.{command_code, result_code, command_type_eq, result_code_eq}

-- `M` is what the backend stores.
pub record CommandBackend (M : Type 0) : Type 0 where
  pub load : M → Option CommandStoreRecord
  pub save : M → CommandStoreRecord → M × Bool

pub record CommandStore (M : Type 0) : Type 0 where
  pub attached : Bool
  pub memory : M
  pub stored : CommandStoreRecord
  pub last_error : String

hash_bytes : ℕ → List ℕ → ℕ
hash_bytes hash [] = hash
hash_bytes hash (b ∷ bs) = hash_bytes (bit_xor hash b * 16777619 % 2 ^ 32) bs

-- A command waits for its result.
abbrev pub is_open : CommandState → Bool
is_open s = state_eq s CommandState.pending || state_eq s CommandState.sent

module _ (p : Platform) where
  unfoldable pub checksum : CommandStoreRecord → ℕ
  unfolding hash_bytes
  checksum r = hash_bytes 2166136261 (p.bytes r)

  -- `initialize`, before the checksum is set.
  unfoldable pub blank : CommandStoreRecord
  blank = record {
    magic = command_store_magic;
    schema_version = command_store_schema;
    structure_size = p.record_size % 2 ^ 16;
    next_command_id = 1;
    command = record empty_command { result = CommandResultCode.none };
    checksum = 0;
  }

  unfoldable pub initialize : CommandStoreRecord
  unfolding blank checksum
  initialize = record blank { checksum = checksum blank }

  unfoldable pub valid : CommandStoreRecord → Bool
  unfolding command_code result_code state_code result_code_eq checksum
  valid r =
      r.magic == command_store_magic
      && r.schema_version == command_store_schema
      && r.structure_size == p.record_size
      && not (r.next_command_id == 0)
      && leb (command_code r.command.type) 3
      && leb (state_code r.command.state) 5
      && (result_code_eq r.command.result CommandResultCode.none
          || leb (result_code r.command.result) 7)
      && r.checksum == checksum r

-- The candidates that the methods commit.
unfoldable pub created : CommandStoreRecord → CommandType → ℕ → ℕ → ℤ → CommandStoreRecord
created r type poll maintenance created_unix_ms = record r {
  next_command_id = (r.next_command_id + 1) % 2 ^ 32;
  command = record empty_command {
    command_id = r.next_command_id;
    type = type;
    state = CommandState.pending;
    poll_interval_minutes = poll;
    scheduled_maintenance_unix = maintenance;
    created_unix_ms = created_unix_ms;
    last_sent_unix_ms = negsuc 0;
    result = CommandResultCode.none;
  };
}

unfoldable pub marked_sent : CommandStoreRecord → ℤ → CommandStoreRecord
marked_sent r sent_unix_ms = record r {
  command = record (r.command) {
    state = CommandState.sent;
    last_sent_unix_ms = sent_unix_ms;
    send_count = (r.command.send_count + 1) % 2 ^ 32;
  };
}

unfoldable pub confirmed : CommandStoreRecord → CommandResultPacket → CommandStoreRecord
confirmed r result = record r {
  command = record (r.command) {
    state = CommandState.confirmed;
    result = result.result_code;
    effective_poll_interval_minutes = result.effective_poll_interval_minutes;
    effective_maintenance_unix = result.scheduled_maintenance_unix;
  };
}

unfoldable pub cancelled : CommandStoreRecord → CommandStoreRecord
cancelled r = record r { command = record (r.command) { state = CommandState.cancelled } }

-- `return true` behind a successful `commit`, with the message of the method.
abbrev committed : {M : Type 0} → CommandStore M × Bool → String → CommandStore M × Bool
committed (s, true) message = (record s { last_error = message }, true)
committed (s, false) message = (s, false)

module _ {M : Type 0} (p : Platform) (b : CommandBackend M) where
  unfoldable pub begin_fresh : M → CommandStore M × Bool × Bool
  begin_fresh memory =
      let (memory', saved) = b.save memory (initialize p) in
      (
        record {
          attached = true;
          memory = memory';
          stored = initialize p;
          last_error =
              if saved
              then "command state initialized"
              else "command state initialization write failed";
        },
        saved,
        true,
      )

  unfoldable pub begin_loaded : M → Option CommandStoreRecord → CommandStore M × Bool × Bool
  begin_loaded memory none = begin_fresh memory
  begin_loaded memory (some loaded) =
      if valid p loaded
      then (
        record {
          attached = true;
          memory = memory;
          stored = loaded;
          last_error = "command state loaded";
        },
        true,
        false,
      )
      else begin_fresh memory

  -- The store, whether it is ready, and `initializedFresh`.
  unfoldable pub begin : M → CommandStore M × Bool × Bool
  unfolding begin_loaded
  begin memory = begin_loaded memory (b.load memory)

  unfoldable pub commit : CommandStore M → CommandStoreRecord → CommandStore M × Bool
  commit s candidate =
      let sealed = record candidate { checksum = checksum p candidate } in
      let (memory', saved) = b.save s.memory sealed in
      if not s.attached
      then (s, false)
      else if not saved
      then (record s { memory = memory'; last_error = "command state persistence failed" }, false)
      else (record s { memory = memory'; stored = sealed }, true)

  -- Whether it succeeded, and the identifier of the command.
  unfoldable pub create : CommandStore M → CommandType → ℕ → ℕ → ℤ → CommandStore M × Bool × ℕ
  create s type poll maintenance created_unix_ms =
      let (s', done) =
        committed (commit s (created s.stored type poll maintenance created_unix_ms))
          "command created and allocator persisted" in
      if command_type_eq type CommandType.none
        || s.stored.next_command_id == 0xffff_ffff
        || is_open s.stored.command.state
      then (
        record s { last_error = "a command is already pending or arguments are invalid" },
        false,
        0,
      )
      else if (command_type_eq type CommandType.set_poll_interval_minutes && poll == 0)
          || (command_type_eq type CommandType.schedule_maintenance_at && maintenance == 0)
      then (record s { last_error = "command payload is invalid" }, false, 0)
      else (s', done, if done then s.stored.next_command_id else 0)

  unfoldable pub mark_sent : CommandStore M → ℕ → ℤ → CommandStore M × Bool
  mark_sent s command_id sent_unix_ms =
      let c = s.stored.command in
      if command_id == 0 || not (command_id == c.command_id) || not (is_open c.state)
      then (s, false)
      else committed (commit s (marked_sent s.stored sent_unix_ms)) "command send recorded"

  -- Whether it succeeded, and `duplicate`.
  unfoldable pub confirm : CommandStore M → CommandResultPacket → CommandStore M × Bool × Bool
  confirm s result =
      let c = s.stored.command in
      let (s', done) =
        committed (commit s (confirmed s.stored result)) "matching command result confirmed" in
      if result.command_id == 0
        || not (result.command_id == c.command_id)
        || not (command_type_eq result.command_type c.type)
      then (record s { last_error = "command result does not match current command" }, false, false)
      else if state_eq c.state CommandState.confirmed
      then (s, true, true)
      else if not (is_open c.state)
      then (s, false, false)
      else (s', done, false)

  unfoldable pub cancel : CommandStore M → ℕ → CommandStore M × Bool
  cancel s command_id =
      let c = s.stored.command in
      if command_id == 0 || not (command_id == c.command_id) || not (is_open c.state)
      then (s, false)
      else committed (commit s (cancelled s.stored)) "command cancelled"

module _ {M : Type 0} where
  unfoldable pub pending_for_ack : CommandStore M → Option GatewayCommand
  pending_for_ack s = if is_open s.stored.command.state then some s.stored.command else none

  unfoldable pub current : CommandStore M → GatewayCommand
  current s = s.stored.command

  unfoldable pub next_command_id : CommandStore M → ℕ
  next_command_id s = s.stored.next_command_id

unfoldable pub command_state_name : CommandState → String
command_state_name CommandState.none = "NONE"
command_state_name CommandState.pending = "PENDING"
command_state_name CommandState.sent = "SENT"
command_state_name CommandState.confirmed = "CONFIRMED"
command_state_name CommandState.failed = "FAILED"
command_state_name CommandState.cancelled = "CANCELLED"
command_state_name (CommandState.unnamed n) = "UNKNOWN"
