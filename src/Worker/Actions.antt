-- ===== src/Worker/Actions.antt =====
-- lib/backend/backend_worker.cpp: the actions of a response, and when a response is complete.
use gathra_gateway.Prelude.{
  ℕ, ◌<◌, ◌≡◌, refl, ◌⊎◌, inl, inr, Bool, true, false, ◌||◌, List, [], ◌∷◌, Option, none, some,
  arith, length, ◌==◌, ==_iff, Bool-cases,
}
use gathra_gateway.Protocol.Types.{TelemetryPacket}
use gathra_gateway.Queue.Record.{QueueRecord}
use gathra_gateway.Queue.Entries.{telemetry_of}
use gathra_gateway.Queue.Durable.{QueueTerminalAction}
use gathra_gateway.Backend.{BackendRecordResult, backend_batch_response_complete}
use gathra_gateway.Backend.Complete.{answers}
use gathra_gateway.Worker.Upload.{
  record_at, action_for, action_at, with_action, no_actions, actions_of,
}

-- One of the actions removes the record.
unfoldable pub removes : ℕ → List QueueTerminalAction → Bool
removes record_id [] = false
removes record_id (a ∷ actions) = a.record_id == record_id || removes record_id actions

with_action-eq-some :
    (o : Option QueueTerminalAction) (os : Option (List QueueTerminalAction))
    {actions : List QueueTerminalAction}
    → with_action o os ≡ some actions
    → (a : QueueTerminalAction) × (rest : List QueueTerminalAction) × (o ≡ some a)
      × (os ≡ some rest)
      × (actions ≡ a ∷ rest)
with_action-eq-some none os h = absurd (ground arith)
with_action-eq-some (some a) none h = absurd (ground arith)
with_action-eq-some (some a) (some rest) h = (a, rest, refl, refl, ground (arith, h))

action_for_id :
    (result : BackendRecordResult) (r : QueueRecord) (t : Option TelemetryPacket)
    {a : QueueTerminalAction}
    → action_for result r t ≡ some a
    → a.record_id ≡ r.record_id
action_for_id result r none h = absurd (ground arith)
action_for_id result r (some t) h = ground (arith, h)

-- An answered record has an action that removes it.
pub removes-actions_of :
    (records : List QueueRecord) (results : List BackendRecordResult) (i : ℕ) (r : QueueRecord)
    {actions : List QueueTerminalAction}
    → actions_of records results ≡ some actions
    → answers i results ≡ true
    → record_at records i ≡ some r
    → removes r.record_id actions ≡ true
unfolding actions_of answers removes
removes-actions_of records [] i r h k e = absurd (ground arith)
removes-actions_of records (result ∷ results) i r h k e =
    let (a, rest, first, others, same) =
      with_action-eq-some (action_at result (record_at records result.index))
        (actions_of records results) h in
    rw same (elim (Bool-cases (result.index == i)) [
      | inr other ↦ ground (arith, other, k, removes-actions_of records results i r others)
      | inl found ↦
          let at : record_at records result.index ≡ some r =
            rw ((==_iff result.index i).0 found) e in
          ground (arith, action_for_id result r (telemetry_of r) (rw at at first))
    ])

-- A result has an action.
pub some_actions :
    (records : List QueueRecord) (results : List BackendRecordResult)
    {actions : List QueueTerminalAction}
    → actions_of records results ≡ some actions
    → 0 < length results
    → no_actions actions ≡ false
unfolding actions_of
some_actions records [] h l = absurd (omega arith)
some_actions records (result ∷ results) h l =
    let (a, rest, first, others, same) =
      with_action-eq-some (action_at result (record_at records result.index))
        (actions_of records results) h in
    rw same refl

pub finished_of : {idle : Bool} {A : Type 0} → idle ≡ false → (idle ≡ true) ⊎ A → A
finished_of busy (inl e) = absurd (ground arith)
finished_of busy (inr e) = e

pub complete_length :
    (count : ℕ) (results : List BackendRecordResult)
    → backend_batch_response_complete count results ≡ true
    → 0 < length results
unfolding backend_batch_response_complete
complete_length count results h = ground arith
