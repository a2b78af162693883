-- ===== src/Examples/Worker.antt =====
-- lib/backend/backend_worker.cpp: a worker whose backend answers as the request asks.
use gathra_gateway.Prelude.{
  ℕ, ◌+◌, ◌<◌, ◌≡◌, refl, pos, negsuc, Bool, true, false, List, [], ◌∷◌, none, some, length, arith,
}
use gathra_gateway.Text.{codes}
use gathra_gateway.Queue.Record.{QueueRecord}
use gathra_gateway.Queue.Entries.{telemetry_of}
use gathra_gateway.Queue.Durable.{DurableQueue, QueueTerminalAction, finish}
use gathra_gateway.Backend.{
  BackendRecordStatus, Item, inserted_text, parse_backend_batch_response, parse_document,
  parse_items, parse_item, parse_status, reason_of, backend_http_response_may_dequeue,
  backend_batch_response_complete,
}
use gathra_gateway.Base64.{text_equal}
use gathra_gateway.Heartbeat.{unscheduled}
use gathra_gateway.Worker.Types.{GatewayIdentity, Platform, Worker}
use gathra_gateway.Worker.Request.{Answer}
use gathra_gateway.Worker.Upload.{record_at, actions_of, settle, settle_decoded, take_answer}
use gathra_gateway.Worker.Backoff.{Failure}
use gathra_gateway.Worker.Retention.{is_accepted, Keeps, take_answer-Keeps, take_answer-removes}
use gathra_gateway.Worker.Actions.{removes}
use gathra_gateway.Examples.Protocol.{probe}
use gathra_gateway.Examples.Queue.{heard, telemetry_of-heard}
use gathra_gateway.Examples.Durable.{board, serving, uploaded, finished}

abbrev stored : Item
stored = record { index = some 0; status = some inserted_text; reason = none }

abbrev pub online : Platform ℕ (DurableQueue Bool ℕ)
online = record {
  uptime_us = λ e. (e + 1, e);
  now = λ e. (e, record { trusted = true; unix_ms = pos 1_790_000_000_000 });
  wifi_connected = λ e. (e, true);
  ap_active = λ e. (e, false);
  ap_stations = λ e. (e, 0);
  begin = λ e request. (e, true);
  send = λ e request. (e, pos 200, [], []);
  serialize = λ identity records. some [];
  deserialize = λ json. some (some (stored ∷ []));
  meanwhile = λ e q. q;
}

abbrev pub nobody : GatewayIdentity
nobody = record { gateway_id = []; hardware_mac = []; firmware_version = []; boot_session_id = 9 }

abbrev pub idle : Worker Bool ℕ ℕ
idle = record {
  queue = serving;
  outside = 5_000_000;
  config = record {
    base_url = [];
    token = [];
    batch_size = 20;
    timeout_ms = 10_000;
    initial_backoff_ms = 2_000;
    maximum_backoff_ms = 300_000;
    heartbeat_interval_seconds = 60;
    identity = nobody;
  };
  status = record {
    state = [];
    credential_configured = false;
    tls_endpoint = true;
    last_attempt_uptime_ms = 0;
    last_http_status = pos 0;
    last_success_uptime_ms = 0;
    last_success_unix_ms = negsuc 0;
    last_error_uptime_ms = 0;
    last_error_unix_ms = negsuc 0;
    consecutive_failures = 0;
    telemetry_upload_success_count = 0;
    telemetry_upload_failure_count = 0;
    last_error = [];
    current_backoff_ms = 0;
  };
  heartbeat_status = record {
    interval_seconds = 60;
    in_progress = false;
    last_attempt_uptime_ms = 0;
    last_attempt_unix_ms = negsuc 0;
    last_success_uptime_ms = 0;
    last_success_unix_ms = negsuc 0;
    last_http_status = pos 0;
    last_error = [];
    success_count = 0;
    failure_count = 0;
  };
  heartbeat_scheduler = unscheduled;
}

abbrev pub timeout : Failure
timeout = record { http_status = negsuc 10; message = codes "timeout"; telemetry_operation = true }

-- The record that is on the queue.
abbrev on_disk : QueueRecord
on_disk = record heard { record_id = 3 }

abbrev unavailable : Answer
unavailable = record { http_status = pos 503; response = []; error = [] }

unavailable_refused : is_accepted board online (on_disk ∷ []) unavailable ≡ false
unfolding is_accepted backend_http_response_may_dequeue
unavailable_refused = refl

take_answer-Keeps_example :
    Keeps board online idle (take_answer board online idle (on_disk ∷ []) unavailable)
take_answer-Keeps_example =
    take_answer-Keeps board online idle (on_disk ∷ []) unavailable unavailable_refused

abbrev done : Answer
done = record { http_status = pos 200; response = []; error = [] }

answered :
    parse_backend_batch_response online.deserialize (some []) 1
    ≡ (record { index = 0; status = BackendRecordStatus.inserted; reason = [] } ∷ [], true)
unfolding parse_backend_batch_response parse_document parse_items parse_item parse_status reason_of
    text_equal
answered = refl

on_disk_packet : telemetry_of on_disk ≡ some probe
unfolding telemetry_of
on_disk_packet = telemetry_of-heard

on_disk_actions :
    actions_of
      (on_disk ∷ [])
      (record { index = 0; status = BackendRecordStatus.inserted; reason = [] } ∷ [])
    ≡ some (uploaded ∷ [])
unfolding actions_of record_at
on_disk_actions = rw on_disk_packet refl

complete : (take_answer board online idle (on_disk ∷ []) done).2 ≡ true
unfolding take_answer settle_decoded settle backend_http_response_may_dequeue
    backend_batch_response_complete
complete = rw answered (rw on_disk_actions (rw finished refl))

take_answer-removes_example :
    (backend_http_response_may_dequeue done.http_status ≡ true)
    × ((actions : List QueueTerminalAction) × ((finish board idle.queue actions).1 ≡ true)
        × ((take_answer board online idle (on_disk ∷ []) done).0.queue
            ≡ (finish board idle.queue actions).0)
        × ((i : ℕ) (r : QueueRecord)
            → i < length (on_disk ∷ [])
            → record_at (on_disk ∷ []) i ≡ some r
            → removes r.record_id actions ≡ true))
take_answer-removes_example =
    take_answer-removes board online idle (on_disk ∷ []) done (omega arith) complete
