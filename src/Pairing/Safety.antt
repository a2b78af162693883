-- ===== src/Pairing/Safety.antt =====
-- lib/pairing/pairing_manager.cpp: what every history of calls keeps, and what pairing allows.
use gathra_gateway.Prelude.{
  ℕ, ◌<◌, ◌≡◌, ◌↔◌, sym, ◌⊎◌, inl, inr, true, false, List, [], ◌∷◌, none, some, arith, length, take,
  take_all, length-take-le,
}
use gathra_gateway.Build.{node_id_capacity}
use gathra_gateway.Text.{CString, strncmp_eq_refl, strncmp_eq_sound}
use gathra_gateway.Protocol.Types.{TelemetryPacket}
use gathra_gateway.Protocol.Header.{IsNodeId, node_id_valid}
use gathra_gateway.Protocol.Header.RoundTrip.{node_id_valid-IsNodeId, IsNodeId-node_id_valid}
use gathra_gateway.Pairing.{
  PairingManager, begin, start, cancel, observe, confirm_candidate, pair_manual, unpair, matches,
}

pub data Call : Type 0 where
  starts cancels confirms unpairs : Call
  observes : TelemetryPacket → ℕ → ℕ → ℕ → Call
  pairs : CString → Call

pub step : PairingManager → Call → PairingManager
step m starts = (start m).0
step m cancels = cancel m
step m confirms = (confirm_candidate m).0
step m unpairs = unpair m
step m (observes packet rssi snr uptime) = observe m packet rssi snr uptime
step m (pairs node_id) = (pair_manual m node_id).0

pub run : PairingManager → List Call → PairingManager
run m [] = m
run m (c ∷ cs) = run (step m c) cs

-- The paired identifier is empty or a valid node identifier, pairing mode is on only while nothing
-- is paired, and the candidate fits its array.
pub record IsSafe (m : PairingManager) : Type 0 where
  pub identifier : (m.paired_node_id ≡ []) ⊎ IsNodeId m.paired_node_id
  pub exclusive : (m.pairing_mode ≡ false) ⊎ (m.paired_node_id ≡ [])
  pub bounded : length m.candidate.node_id < node_id_capacity

valid_copy : (t : List ℕ) → node_id_valid (some t) ≡ true → IsNodeId (take 24 t)
valid_copy t h = let v = node_id_valid-IsNodeId t h in rw (take_all 24 t (omega (arith, v.short))) v

begin-IsSafe : (persisted : CString) → IsSafe (begin persisted)
unfolding begin
begin-IsSafe none = ground arith
begin-IsSafe (some t) = ground (arith, valid_copy t)

start-IsSafe : (m : PairingManager) → IsSafe m → IsSafe (start m).0
unfolding start
start-IsSafe m v = ground arith

observe-IsSafe :
    (m : PairingManager) (packet : TelemetryPacket) (rssi snr uptime : ℕ)
    → IsSafe m
    → IsSafe (observe m packet rssi snr uptime)
unfolding observe
observe-IsSafe m packet rssi snr uptime v = ground (arith, length-take-le 24 packet.node_id)

confirm_candidate-IsSafe : (m : PairingManager) → IsSafe m → IsSafe (confirm_candidate m).0
unfolding confirm_candidate
confirm_candidate-IsSafe m v = ground (arith, valid_copy m.candidate.node_id)

pair_manual-IsSafe : (m : PairingManager) (t : CString) → IsSafe m → IsSafe (pair_manual m t).0
unfolding pair_manual
pair_manual-IsSafe m none v = ground arith
pair_manual-IsSafe m (some t) v = ground (arith, valid_copy t)

step-IsSafe : (m : PairingManager) (c : Call) → IsSafe m → IsSafe (step m c)
unfolding step cancel unpair
step-IsSafe m starts v = start-IsSafe m v
step-IsSafe m cancels v = ground arith
step-IsSafe m confirms v = confirm_candidate-IsSafe m v
step-IsSafe m unpairs v = ground arith
step-IsSafe m (observes packet rssi snr uptime) v = observe-IsSafe m packet rssi snr uptime v
step-IsSafe m (pairs t) v = pair_manual-IsSafe m t v

run-IsSafe : (m : PairingManager) (cs : List Call) → IsSafe m → IsSafe (run m cs)
unfolding run
run-IsSafe m [] v = v
run-IsSafe m (c ∷ cs) v = run-IsSafe (step m c) cs (step-IsSafe m c v)

-- After any calls from any persisted identifier the paired identifier is empty or valid, pairing mode
-- is on only while nothing is paired, and the candidate's identifier fits its array.
pub run-begin-IsSafe : (persisted : CString) (cs : List Call) → IsSafe (run (begin persisted) cs)
run-begin-IsSafe persisted cs = run-IsSafe _ cs (begin-IsSafe persisted)

matches-eq :
    (m : PairingManager) (t : List ℕ)
    → IsSafe m
    → length t < node_id_capacity
    → matches m (some t) ≡ true
    → IsNodeId m.paired_node_id × (t ≡ m.paired_node_id)
unfolding matches
matches-eq m t v h e = elim v.identifier [
  | inl none_paired ↦ ground arith
  | inr known ↦ (
    known,
    sym (strncmp_eq_sound m.paired_node_id t node_id_capacity (ground arith) known.short h),
  )
]

eq-matches :
    (m : PairingManager) (t : List ℕ)
    → IsNodeId m.paired_node_id × (t ≡ m.paired_node_id)
    → matches m (some t) ≡ true
unfolding matches
eq-matches m t (v, e) = rw e (grind (arith, strncmp_eq_refl m.paired_node_id node_id_capacity))

-- In a safe state a node identifier that fits its array matches exactly when it is the paired one
-- and one is paired.
pub matches_iff :
    (m : PairingManager) (t : List ℕ)
    → IsSafe m
    → length t < node_id_capacity
    → (matches m (some t) ≡ true) ↔ (IsNodeId m.paired_node_id × (t ≡ m.paired_node_id))
matches_iff m t v h = (matches-eq m t v h, eq-matches m t)

-- Pairing mode pairs the node that was heard last: if it is on and the last packet's identifier is
-- valid, confirming succeeds, pairs exactly that identifier and leaves pairing mode.
pub confirm_candidate-observe :
    (m : PairingManager) (packet : TelemetryPacket) (rssi snr uptime : ℕ)
    → m.pairing_mode ≡ true
    → IsNodeId packet.node_id
    → ((confirm_candidate (observe m packet rssi snr uptime)).1 ≡ true)
      × ((confirm_candidate (observe m packet rssi snr uptime)).0.paired_node_id ≡ packet.node_id)
      × ((confirm_candidate (observe m packet rssi snr uptime)).0.pairing_mode ≡ false)
unfolding confirm_candidate observe
confirm_candidate-observe m packet rssi snr uptime on v =
    ground (arith, take_all 24 packet.node_id, IsNodeId-node_id_valid packet.node_id v)
