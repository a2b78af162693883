-- ===== src/Worker/Round.antt =====
-- lib/backend/backend_worker.cpp: the loop of the task, its start, and the test of the connection.
use gathra_gateway.Prelude.{
  ℕ, ◌+◌, ◌/◌, ◌%◌, ◌^◌, ℤ, pos, negsuc, Bool, true, false, not, ◌&&◌, [], ◌==◌, if◌then◌else◌,
}
use gathra_gateway.Text.{codes}
use gathra_gateway.Config.{GatewayConfig}
use gathra_gateway.Config.Url.{is_empty}
use gathra_gateway.Queue.Durable.{Device, DurableQueue}
use gathra_gateway.Queue.Readers.{size}
use gathra_gateway.Heartbeat.{due}
use gathra_gateway.Worker.Types.{GatewayIdentity, HttpMethod, Platform, Worker}
use gathra_gateway.Worker.Status.{starts_tls, set_failure, apply_config}
use gathra_gateway.Worker.Request.{Answer, network_available, perform_request}
use gathra_gateway.Worker.Upload.{upload_once}
use gathra_gateway.Worker.Beat.{Heart, elapse, attempt_heartbeat}

-- What a round ends with: nothing, a wait for a notification, or a delay, in milliseconds.
pub data Wait : Type 0 where
  at_once : Wait
  notified delayed : ℕ → Wait

-- `httpStatus == HTTP_CODE_OK`
abbrev pub is_ok : ℤ → Bool
is_ok (pos status) = status == 200
is_ok (negsuc n) = false

module _ {S N E F : Type 0} (dev : Device S N) (p : Platform E (DurableQueue S N))
    (heart : Heart E F) where
  unfoldable pub empty_round : Worker S N E → Worker S N E × Wait
  empty_round w =
      let (e, us) = p.uptime_us w.outside in
      let w' =
        elapse dev p heart
          (record w { outside = e; status = record (w.status) { state = codes "IDLE" } }) in
      if due w.heartbeat_scheduler us && size w'.queue == 0
      then (attempt_heartbeat dev p heart w', Wait.at_once)
      else (w', Wait.notified 1_000)

  -- After an upload that was not complete; the wait has a random part of up to a fifth.
  unfoldable pub back_off : Worker S N E → Worker S N E × Wait
  back_off w =
      let current = w.status.current_backoff_ms in
      let (e, random) = heart.random w.outside in
      if current == 0 then (w, Wait.notified 0) else (
        record w { outside = e },
        Wait.notified ((current + random % (current / 5 + 1)) % 2 ^ 32),
      )

  unfoldable pub after_upload : Worker S N E × Bool × Bool → Worker S N E × Wait
  after_upload (w, completed, complete_success) =
      if completed && complete_success then (w, Wait.delayed 50) else back_off w

  -- The time has been checked, where it is needed.
  unfoldable pub upload_round : Worker S N E → Worker S N E × Wait
  upload_round w =
      let config = w.config in
      let (e, available) = network_available p w.outside config in
      let (e', time) = p.now e in
      let tls = starts_tls config.base_url in
      let w' = record w { outside = e } in
      let w'' = record w { outside = if tls then e' else e } in
      if not available
      then (
        set_failure p w' (pos 0) (codes "Wi-Fi unavailable; queue retained") false false,
        Wait.notified 5_000,
      )
      else if is_empty config.token
      then (
        set_failure p w' (pos 0) (codes "backend credential is not configured; queue retained")
            false false,
        Wait.notified 5_000,
      )
      else if tls && not time.trusted
      then (
        set_failure p w'' (pos 0) (codes "HTTPS waiting for trusted NTP time; queue retained") false
            false,
        Wait.notified 5_000,
      )
      else after_upload (upload_once dev p w'')

  unfoldable pub run_round : Worker S N E → Worker S N E × Wait
  run_round w = if size w.queue == 0 then empty_round w else upload_round w

module _ {S N E : Type 0} (p : Platform E (DurableQueue S N)) where
  -- The mutex and the task could be made.
  unfoldable pub begin : Worker S N E → GatewayConfig → GatewayIdentity → Worker S N E
  begin w config identity =
      let w' = apply_config p w config identity in
      record w' { status = record (w'.status) { state = codes "IDLE" } }

  unfoldable pub test_connection : Worker S N E → Worker S N E × Answer × Bool
  test_connection w =
      let (e, a) =
        perform_request p w.outside w.config HttpMethod.get (codes "/api/v1/iot/gateway/ping") []
          true in
      (record w { outside = e }, a, is_ok a.http_status)
