-- ===== src/Radio/Answer.antt =====
-- lib/radio/radio_service.cpp: what an acknowledgement says, which a node can read.
use gathra_gateway.Prelude.{
  ℕ, ◌≤◌, ◌≡◌, ◌≢◌, refl, inl, inr, ℤ, pos, negsuc, Bool, true, false, List, Option, none, some,
  arith, IsByte, IsU32, take_all, Bool-cases,
}
use gathra_gateway.Text.{strncpy, strncmp_eq_refl}
use gathra_gateway.Time.{TrustedTimeSnapshot}
use gathra_gateway.Protocol.Types.{TelemetryPacket, AckCommandPacket, CommandType}
use gathra_gateway.Protocol.Codes.{command_type_eq, command_code, IsNamedType}
use gathra_gateway.Protocol.Header.{IsNodeId}
use gathra_gateway.Protocol.Telemetry.RoundTrip
use gathra_gateway.Protocol.Ack.{make_ack, ack_valid, ack_matches}
use gathra_gateway.Protocol.Ack.RoundTrip.{IsEncodable, received}
use gathra_gateway.Commands.Types.{GatewayCommand}
use gathra_gateway.Radio.Acknowledgement.{
  seconds_of, trusted_seconds, plain_ack, with_command, ack_for,
}

-- A command that `create` accepts.
pub record IsSendable (command : GatewayCommand) : Type 0 where
  pub command_id : IsU32 command.command_id
  pub some_id : command.command_id ≢ 0
  pub named_type : IsNamedType command.type
  pub some_type : command_type_eq command.type CommandType.none ≡ false
  pub poll : IsByte command.poll_interval_minutes
  pub some_poll :
      command_type_eq command.type CommandType.set_poll_interval_minutes ≡ true
      → command.poll_interval_minutes ≢ 0
  pub at : IsU32 command.scheduled_maintenance_unix
  pub some_at :
      command_type_eq command.type CommandType.schedule_maintenance_at ≡ true
      → command.scheduled_maintenance_unix ≢ 0

abbrev pub AreSendable : Option GatewayCommand → Type 0
AreSendable none = Unit
AreSendable (some command) = IsSendable command

seconds_of-IsU32 : (t : ℤ) {n : ℕ} → seconds_of t ≡ some n → IsU32 n
seconds_of-IsU32 (negsuc k) h = absurd (ground arith)
seconds_of-IsU32 (pos k) h = ground arith

trusted_seconds-IsU32 : (t : TrustedTimeSnapshot) (n : ℕ) → trusted_seconds t ≡ some n → IsU32 n
trusted_seconds-IsU32 t n = elim (Bool-cases t.trusted) [
  | inl e ↦ rw e (λ h. seconds_of-IsU32 t.unix_ms h)
  | inr e ↦ rw e (λ h. absurd (ground arith))
]

type_code : (t : CommandType) → IsNamedType t → command_code t ≤ 3
unfolding command_code
type_code CommandType.none h = omega arith
type_code CommandType.enter_maintenance_now h = omega arith
type_code CommandType.set_poll_interval_minutes h = omega arith
type_code CommandType.schedule_maintenance_at h = omega arith
type_code (CommandType.unnamed n) h = absurd h

-- An open command is valid in an acknowledgement whose time is.
command_valid :
    (ack : AckCommandPacket) (command : GatewayCommand)
    → ack_valid ack ≡ true
    → IsSendable command
    → ack_valid (with_command ack (some command)) ≡ true
unfolding ack_valid command_type_eq command_code
command_valid ack command h s =
    ground (
      arith,
      h,
      type_code command.type s.named_type,
      s.some_id,
      s.some_type,
      s.some_poll,
      s.some_at,
    )

-- The identifier of the open command.
abbrev pub open_id : Option GatewayCommand → ℕ
open_id none = 0
open_id (some command) = command.command_id

-- The acknowledgement may be sent, and it is the packet's.
pub record IsAnswer (packet : TelemetryPacket) (ack : AckCommandPacket) : Type 0 where
  pub encodable : IsEncodable ack
  pub node_id : ack.node_id ≡ packet.node_id
  pub session : ack.persistent_session_id ≡ packet.persistent_session_id
  pub sequence : ack.sequence ≡ packet.sequence

whole_id : (t : List ℕ) → IsNodeId t → strncpy t 24 ≡ t
whole_id t v = take_all 24 t (ground (arith, v))

plain_ack_id :
    (packet : TelemetryPacket) (seconds : Option ℕ) → (plain_ack packet seconds).command_id ≡ 0
unfolding make_ack
plain_ack_id packet none = refl
plain_ack_id packet (some n) = refl

module _ (packet : TelemetryPacket) (v : RoundTrip.IsEncodable packet) where
  make_ack-IsAnswer : (n : ℕ) (valid : Bool) → IsU32 n → IsAnswer packet (make_ack packet n valid)
  unfolding make_ack ack_valid
  make_ack-IsAnswer n valid h = record {
    encodable = record {
      node_id = rw (whole_id packet.node_id v.node_id) v.node_id;
      persistent_session_id = v.persistent_session_id;
      sequence = v.sequence;
      gateway_unix_time = ground (arith, h);
      command_id = omega arith;
      poll_interval_minutes = omega arith;
      scheduled_maintenance_unix = omega arith;
      named_type = tt;
      is_valid = ground arith;
    };
    node_id = whole_id packet.node_id v.node_id;
    session = refl;
    sequence = refl;
  }

  seconds-IsAnswer :
      (seconds : Option ℕ)
      → ((n : ℕ) → seconds ≡ some n → IsU32 n)
      → IsAnswer packet (plain_ack packet seconds)
  seconds-IsAnswer none h = make_ack-IsAnswer 0 false (omega arith)
  seconds-IsAnswer (some n) h = make_ack-IsAnswer n true (h n refl)

  plain_ack-IsAnswer :
      (timestamp : TrustedTimeSnapshot)
      → IsAnswer packet (plain_ack packet (trusted_seconds timestamp))
  plain_ack-IsAnswer timestamp =
      seconds-IsAnswer (trusted_seconds timestamp) (trusted_seconds-IsU32 timestamp)

  with_command-IsAnswer :
      (ack : AckCommandPacket) (pending : Option GatewayCommand)
      → IsAnswer packet ack
      → ack.command_id ≡ 0
      → AreSendable pending
      → IsAnswer packet (with_command ack pending)
  with_command-IsAnswer ack none a e s = a
  with_command-IsAnswer ack (some command) a e s = record {
    encodable = record {
      node_id = a.encodable.node_id;
      persistent_session_id = a.encodable.persistent_session_id;
      sequence = a.encodable.sequence;
      gateway_unix_time = a.encodable.gateway_unix_time;
      command_id = s.command_id;
      poll_interval_minutes = s.poll;
      scheduled_maintenance_unix = s.at;
      named_type = s.named_type;
      is_valid = command_valid ack command a.encodable.is_valid s;
    };
    node_id = a.node_id;
    session = a.session;
    sequence = a.sequence;
  }

  pub ack_for-IsAnswer :
      (timestamp : TrustedTimeSnapshot) (pending : Option GatewayCommand)
      → AreSendable pending
      → IsAnswer packet (ack_for packet timestamp pending)
  unfolding ack_for
  ack_for-IsAnswer timestamp pending s =
      with_command-IsAnswer _ pending (plain_ack-IsAnswer timestamp) plain_id s
    where
      plain_id : (plain_ack packet (trusted_seconds timestamp)).command_id ≡ 0
      plain_id = plain_ack_id packet (trusted_seconds timestamp)

pub received_matches :
    (packet : TelemetryPacket) (ack : AckCommandPacket)
    → IsAnswer packet ack
    → ack_matches (received ack) packet ≡ true
unfolding ack_matches received
received_matches packet ack a =
    rw a.node_id (rw (strncmp_eq_refl packet.node_id 25) (ground (arith, a.session, a.sequence)))

pub ack_for_id :
    (packet : TelemetryPacket) (timestamp : TrustedTimeSnapshot) (pending : Option GatewayCommand)
    → (ack_for packet timestamp pending).command_id ≡ open_id pending
unfolding ack_for
ack_for_id packet timestamp none = plain_ack_id packet (trusted_seconds timestamp)
ack_for_id packet timestamp (some command) = refl
