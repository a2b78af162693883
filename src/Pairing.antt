-- ===== src/Pairing.antt =====
-- lib/pairing/pairing_manager.hpp and pairing_manager.cpp: the paired node, pairing mode and the
-- candidate that pairing mode observes. A float is its bit pattern.
pub mod Safety
use gathra_gateway.Prelude.{
  ℕ, ◌-◌, Bool, true, false, not, ◌&&◌, ◌||◌, List, [], ◌∷◌, Option, none, some, if◌then◌else◌,
}
use gathra_gateway.Build.{node_id_capacity}
use gathra_gateway.Text.{CString, strncpy, strncmp_eq}
use gathra_gateway.Protocol.Types.{TelemetryPacket}
use gathra_gateway.Protocol.Header.{node_id_valid}

pub record PairingCandidate : Type 0 where
  pub available : Bool
  pub node_id : List ℕ
  pub persistent_session_id : ℕ
  pub sequence : ℕ
  pub rssi_dbm : ℕ
  pub snr_db : ℕ
  pub observed_uptime_ms : ℕ

pub record PairingManager : Type 0 where
  pub paired_node_id : List ℕ
  pub pairing_mode : Bool
  pub candidate : PairingCandidate

abbrev pub no_candidate : PairingCandidate
no_candidate = record {
  available = false;
  node_id = [];
  persistent_session_id = 0;
  sequence = 0;
  rssi_dbm = 0;
  snr_db = 0;
  observed_uptime_ms = 0;
}

-- `strncpy(array, source, sizeof(array) - 1U)` into a node identifier.
abbrev copied : List ℕ → List ℕ
copied source = strncpy source (node_id_capacity - 1)

abbrev copied_string : CString → List ℕ
copied_string none = []
copied_string (some source) = copied source

unfoldable pub begin : CString → PairingManager
begin persisted = record {
  paired_node_id = if node_id_valid persisted then copied_string persisted else [];
  pairing_mode = false;
  candidate = no_candidate;
}

unfoldable pub paired : PairingManager → Bool
paired m = elim m.paired_node_id [ [] ↦ false | _ ∷ _ ↦ true ]

unfoldable pub start : PairingManager → PairingManager × Bool
unfolding paired
start m =
    if paired m
    then (m, false)
    else (record m { pairing_mode = true; candidate = no_candidate }, true)

unfoldable pub cancel : PairingManager → PairingManager
cancel m = record m { pairing_mode = false; candidate = no_candidate }

unfoldable pub observe : PairingManager → TelemetryPacket → ℕ → ℕ → ℕ → PairingManager
observe m packet rssi_dbm snr_db uptime_ms = if not m.pairing_mode then m else record m {
  candidate = record {
    available = true;
    node_id = copied packet.node_id;
    persistent_session_id = packet.persistent_session_id;
    sequence = packet.sequence;
    rssi_dbm = rssi_dbm;
    snr_db = snr_db;
    observed_uptime_ms = uptime_ms;
  };
}

unfoldable pub confirm_candidate : PairingManager → PairingManager × Bool
confirm_candidate m =
    if not m.pairing_mode
      || not m.candidate.available
      || not (node_id_valid (some m.candidate.node_id))
    then (m, false)
    else (record m { paired_node_id = copied m.candidate.node_id; pairing_mode = false }, true)

unfoldable pub pair_manual : PairingManager → CString → PairingManager × Bool
pair_manual m node_id = if not (node_id_valid node_id) then (m, false) else (
  record { paired_node_id = copied_string node_id; pairing_mode = false; candidate = no_candidate },
  true,
)

unfoldable pub unpair : PairingManager → PairingManager
unpair m = record { paired_node_id = []; pairing_mode = false; candidate = no_candidate }

unfoldable pub matches : PairingManager → CString → Bool
unfolding paired
matches m none = false
matches m (some node_id) = paired m && strncmp_eq m.paired_node_id node_id node_id_capacity
