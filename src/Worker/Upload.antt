-- ===== src/Worker/Upload.antt =====
-- lib/backend/backend_worker.cpp: `uploadOnce`, one batch from the queue to the backend.
use gathra_gateway.Prelude.{
  ℕ, zero, suc, ℤ, pos, negsuc, Bool, true, false, not, ◌&&◌, ◌||◌, List, [], ◌∷◌, Option, none,
  some, length, ◌==◌, if◌then◌else◌,
}
use gathra_gateway.Text.{codes}
use gathra_gateway.Protocol.Types.{TelemetryPacket}
use gathra_gateway.Config.Url.{is_empty}
use gathra_gateway.Queue.Record.{QueueRecord}
use gathra_gateway.Queue.Entries.{key_of, telemetry_of}
use gathra_gateway.Queue.Durable.{
  Device, DurableQueue, QueueTerminalAction, finish, record_upload_retry, record_filesystem_error,
}
use gathra_gateway.Queue.Readers.{peek}
use gathra_gateway.Backend.{
  BackendRecordStatus, BackendRecordResult, parse_backend_batch_response,
  backend_http_response_may_dequeue, backend_batch_response_complete,
}
use gathra_gateway.Worker.Types.{HttpMethod, RuntimeConfig, Platform, Worker}
use gathra_gateway.Worker.Status.{uptime_ms, set_failure, set_success}
use gathra_gateway.Worker.Request.{Answer, perform_request}

-- `records[index]`, which `parseBackendBatchResponse` has checked.
unfoldable pub record_at : List QueueRecord → ℕ → Option QueueRecord
record_at [] index = none
record_at (r ∷ records) zero = some r
record_at (r ∷ records) (suc index) = record_at records index

abbrev pub is_rejected : BackendRecordStatus → Bool
is_rejected BackendRecordStatus.rejected_invalid = true
is_rejected _ = false

abbrev pub action_for :
    BackendRecordResult → QueueRecord → Option TelemetryPacket → Option QueueTerminalAction
action_for result r none = none
action_for result r (some telemetry) = some (record {
  record_id = r.record_id;
  key = key_of telemetry;
  permanently_rejected = is_rejected result.status;
})

abbrev pub action_at : BackendRecordResult → Option QueueRecord → Option QueueTerminalAction
action_at result none = none
action_at result (some r) = action_for result r (telemetry_of r)

abbrev pub with_action :
    Option QueueTerminalAction
    → Option (List QueueTerminalAction)
    → Option (List QueueTerminalAction)
with_action none actions = none
with_action (some action) none = none
with_action (some action) (some actions) = some (action ∷ actions)

-- The loop over the results; `none` where a payload cannot be decoded.
unfoldable pub actions_of :
    List QueueRecord → List BackendRecordResult → Option (List QueueTerminalAction)
unfolding record_at
actions_of records [] = some []
actions_of records (result ∷ results) =
    with_action (action_at result (record_at records result.index)) (actions_of records results)

abbrev is_empty_batch : List QueueRecord → Bool
is_empty_batch [] = true
is_empty_batch (r ∷ records) = false

abbrev pub no_actions : List QueueTerminalAction → Bool
no_actions [] = true
no_actions (a ∷ actions) = false

-- `HTTP_CODE_UNAUTHORIZED` or `HTTP_CODE_FORBIDDEN`
abbrev is_forbidden : ℤ → Bool
is_forbidden (pos n) = n == 401 || n == 403
is_forbidden (negsuc n) = false

unfoldable pub failure_message : Answer → List ℕ
failure_message a =
    if not (is_empty a.error)
    then a.error
    else if is_forbidden a.http_status
    then codes "backend authentication rejected; queue retained"
    else codes "backend request failed; queue retained"

module _ {S N E : Type 0} (dev : Device S N) (p : Platform E (DurableQueue S N)) where
  unfoldable pub retried : Worker S N E → Worker S N E
  unfolding record_upload_retry
  retried w = record w { queue = record_upload_retry dev w.queue }

  -- From the actions on: the worker, whether the request was completed, and whether every record was
  -- answered.
  unfoldable pub settle :
      Worker S N E
      → ℤ
      → ℕ
      → List BackendRecordResult
      → List QueueTerminalAction
      → Worker S N E × Bool × Bool
  settle w http_status count results actions =
      let (queue', finished) = finish dev w.queue actions in
      let w' = if no_actions actions then w else record w { queue = queue' } in
      if not (no_actions actions) && not finished
      then (
        set_failure p w' http_status (codes "terminal queue dequeue failed") true false,
        false,
        false,
      )
      else if not (backend_batch_response_complete count results)
      then (
        retried (
            set_failure p w' http_status (codes "partial batch response; missing records retained")
              true true),
        true,
        false,
      )
      else (set_success p w' http_status, true, true)

  unfoldable pub settle_decoded :
      Worker S N E
      → ℤ
      → ℕ
      → List BackendRecordResult
      → Option (List QueueTerminalAction)
      → Worker S N E × Bool × Bool
  unfolding settle
  settle_decoded w http_status count results none = (
    set_failure p w http_status (codes "queued payload unexpectedly failed local decode") true
        false,
    false,
    false,
  )
  settle_decoded w http_status count results (some actions) =
      settle w http_status count results actions

  -- What is done with the answer to a batch.
  unfoldable pub take_answer : Worker S N E → List QueueRecord → Answer → Worker S N E × Bool × Bool
  take_answer w records a =
      let (results, parsed) =
        parse_backend_batch_response p.deserialize (some a.response) (length records) in
      if not (backend_http_response_may_dequeue a.http_status)
      then (retried (set_failure p w a.http_status (failure_message a) true true), false, false)
      else if not parsed
      then (
        retried (
            set_failure p w a.http_status
              (codes "incompatible/malformed batch response; queue retained") true true),
        false,
        false,
      )
      else settle_decoded w a.http_status (length records) results (actions_of records results)

  -- The batch is serialized: the request, during which the other tasks go on.
  unfoldable pub send_batch :
      Worker S N E → RuntimeConfig → List QueueRecord → Option (List ℕ) → Worker S N E × Bool × Bool
  send_batch w config records none = (
    set_failure p w (pos 0) (codes "backend batch serialization failed") true false,
    false,
    false,
  )
  send_batch w config records (some payload) =
      let (e, uptime) = uptime_ms p w.outside in
      let (e', a) =
        perform_request p e config HttpMethod.post (codes "/api/v1/iot/telemetry/batch") payload
          true in
      let w' = record w {
        outside = e';
        queue = p.meanwhile e w.queue;
        status = record (w.status) { state = codes "UPLOADING"; last_attempt_uptime_ms = uptime };
      } in
      take_answer w' records a

  unfoldable pub upload_once : Worker S N E → Worker S N E × Bool × Bool
  upload_once w =
      let config = w.config in
      let (queue', records, okay) = peek dev w.queue config.batch_size in
      let w' = record w { queue = queue' } in
      let failed = set_failure p w' (pos 0) (codes "queue batch read failed") true false in
      if not okay || is_empty_batch records
      then (record failed { queue = record_filesystem_error dev failed.queue }, false, false)
      else send_batch w' config records (p.serialize config.identity records)
