-- ===== src/Worker/Isolation.antt =====
-- lib/backend/backend_worker.cpp: a heartbeat leaves the upload of telemetry alone, and a round that
-- cannot upload leaves the queue and the wait alone.
use gathra_gateway.Prelude.{
  ℕ, ◌≡◌, refl, subst, ◌∙◌, ◌⊎◌, inl, inr, pos, Bool, true, false, not, ◌&&◌, ◌||◌, List, [],
  Option, none, some, arith, ltb, ◌==◌, Bool-cases,
}
use gathra_gateway.Text.{codes}
use gathra_gateway.Config.Url.{is_empty}
use gathra_gateway.Queue.Durable.{Device, DurableQueue}
use gathra_gateway.Queue.Readers.{size}
use gathra_gateway.Heartbeat.{heartbeat_http_succeeded}
use gathra_gateway.Worker.Types.{RuntimeConfig, HeartbeatStatus, Platform, Worker}
use gathra_gateway.Worker.Status.{counted, starts_tls, set_failure}
use gathra_gateway.Worker.Request.{network_available}
use gathra_gateway.Worker.Capture.{Observed, capture_heartbeat_snapshot}
use gathra_gateway.Worker.Beat.{
  Heart, Beat, beat_status, is_deferred, elapse, started, send_heartbeat, offer_heartbeat,
  report_heartbeat, try_heartbeat, concluded, conclude, attempt_heartbeat,
}
use gathra_gateway.Worker.Round.{Wait, upload_round, run_round}

-- The attempt was put off, or one of the counters goes on.
pub Counted : HeartbeatStatus → HeartbeatStatus → Type 0
Counted s t =
    ((t.success_count ≡ s.success_count)
      × (t.failure_count ≡ s.failure_count)
      × (t.last_error ≡ codes "deferred for durable telemetry"))
    ⊎ ((t.success_count ≡ counted s.success_count)
        × (t.failure_count ≡ s.failure_count)
        × (t.last_error ≡ []))
    ⊎ ((t.success_count ≡ s.success_count) × (t.failure_count ≡ counted s.failure_count))

module _ {S N E F : Type 0} (dev : Device S N) (p : Platform E (DurableQueue S N))
    (heart : Heart E F) where
  record Apart (w v : Worker S N E) : Type 0 where
    status : v.status ≡ w.status
    config : v.config ≡ w.config
    beats : v.heartbeat_status ≡ w.heartbeat_status

  refl-Apart : (w : Worker S N E) → Apart w w
  refl-Apart w = record { status = refl; config = refl; beats = refl }

  trans-Apart : (u v w : Worker S N E) → Apart u v → Apart v w → Apart u w
  trans-Apart u v w a b = record {
    status = b.status ∙ a.status;
    config = b.config ∙ a.config;
    beats = b.beats ∙ a.beats;
  }

  moved-Apart : (w : Worker S N E) (e : E) → Apart w (record w { outside = e })
  moved-Apart w e = record { status = refl; config = refl; beats = refl }

  elapse-Apart : (w : Worker S N E) → Apart w (elapse dev p heart w)
  unfolding elapse
  elapse-Apart w = record { status = refl; config = refl; beats = refl }

  send_heartbeat-Apart :
      (w : Worker S N E) (c : RuntimeConfig) (payload : List ℕ)
      → Apart w (send_heartbeat dev p heart w c payload).0
  unfolding send_heartbeat
  send_heartbeat-Apart w c payload = record { status = refl; config = refl; beats = refl }

  capture-Apart :
      (w : Worker S N E) (c : RuntimeConfig) (o : Observed F)
      → Apart w (capture_heartbeat_snapshot dev p w c o).0
  unfolding capture_heartbeat_snapshot
  capture-Apart w c o = elim (Bool-cases (ltb 0 (size w.queue))) [
    | inl e ↦ rw e (record { status = refl; config = refl; beats = refl })
    | inr e ↦ rw e (record { status = refl; config = refl; beats = refl })
  ]

  offer_heartbeat-Apart :
      (w : Worker S N E) (c : RuntimeConfig) (payload : Option (List ℕ))
      → Apart w (offer_heartbeat dev p heart w c payload).0
  unfolding offer_heartbeat
  offer_heartbeat-Apart w c none = refl-Apart w
  offer_heartbeat-Apart w c (some payload) =
      elim (Bool-cases (size (elapse dev p heart w).queue == 0)) [
        | inl e ↦ rw e (
            trans-Apart w (elapse dev p heart w) _ (elapse-Apart w)
              (send_heartbeat-Apart (elapse dev p heart w) c payload))
        | inr e ↦ rw e (elapse-Apart w)
      ]

  report_heartbeat-Apart :
      (w : Worker S N E) (c : RuntimeConfig) → Apart w (report_heartbeat dev p heart w c).0
  unfolding report_heartbeat
  report_heartbeat-Apart w c =
      let (e, o) = heart.observe w.outside in
      trans-Apart w (record w { outside = e }) _ (moved-Apart w e)
        (trans-Apart (record w { outside = e }) _ _ (capture-Apart (record w { outside = e }) c o)
          (offer_heartbeat-Apart _ c _))

  try_heartbeat-Apart : (w : Worker S N E) → Apart w (try_heartbeat dev p heart w).0
  unfolding try_heartbeat
  try_heartbeat-Apart w = elim (Bool-cases (size w.queue == 0)) [
    | inr b ↦ rw b (refl-Apart w)
    | inl b ↦ rw b (elim (Bool-cases (network_available p w.outside w.config).1) [
      | inr n ↦ rw n (moved-Apart w _)
      | inl n ↦ rw n (elim (Bool-cases (is_empty w.config.token)) [
        | inl t ↦ rw t (moved-Apart w _)
        | inr t ↦ rw t (trans-Apart w _ _ (moved-Apart w _) (report_heartbeat-Apart _ w.config))
      ])
    ])
  ]

  concluded_effect :
      (w : Worker S N E) (b : Beat)
      → ((concluded dev p heart w b).status ≡ w.status)
        × ((concluded dev p heart w b).config ≡ w.config)
        × ((concluded dev p heart w b).heartbeat_status.in_progress ≡ false)
        × Counted w.heartbeat_status (concluded dev p heart w b).heartbeat_status
  unfolding concluded Counted
  concluded_effect w b = elim (Bool-cases (is_deferred b)) [
    | inl d ↦ rw d (refl, refl, refl, inl (refl, refl, refl))
    | inr d ↦ rw d (elim (Bool-cases (heartbeat_http_succeeded (beat_status b))) [
      | inl s ↦ rw s (refl, refl, refl, inr (inl (refl, refl, refl)))
      | inr s ↦ rw s (refl, refl, refl, inr (inr (refl, refl)))
    ])
  ]

  started-Counted :
      (w : Worker S N E) (t : HeartbeatStatus)
      → Counted (started dev p heart w).heartbeat_status t
      → Counted w.heartbeat_status t
  unfolding started Counted
  started-Counted w t c = c

  -- Where the queue is empty and a heartbeat is attempted, the status of the upload and the configuration
  -- stay as they were, whatever the backend answers; the attempt is over afterwards, and it was put off
  -- for telemetry, or counted once as a success or once as a failure.
  pub attempt_heartbeat-Counted :
      (w : Worker S N E)
      → size w.queue ≡ 0
      → let v = attempt_heartbeat dev p heart w in
        (v.status ≡ w.status)
        × (v.config ≡ w.config)
        × (v.heartbeat_status.in_progress ≡ false)
        × Counted w.heartbeat_status v.heartbeat_status
  unfolding attempt_heartbeat conclude
  attempt_heartbeat-Counted w h =
      let begun = elapse dev p heart (started dev p heart w) in
      let (v, beat) = try_heartbeat dev p heart begun in
      let apart =
        trans-Apart (started dev p heart w) begun v (elapse-Apart _) (try_heartbeat-Apart begun) in
      let (status, config, over, count) = concluded_effect v beat in
      rw (let none_left : (size w.queue == 0) ≡ true = ground arith in none_left) (
        status ∙ apart.status ∙ (unfold started in refl),
        config ∙ apart.config ∙ (unfold started in refl),
        over,
        started-Counted w _ (
            subst
              (λ (s : HeartbeatStatus). Counted s (concluded dev p heart v beat).heartbeat_status)
              apart.beats count),
      )

  failed_effect :
      (w : Worker S N E) (e : E) (message : List ℕ)
      → let v = set_failure p (record w { outside = e }) (pos 0) message false false in
        (v.queue ≡ w.queue)
        × (v.status.current_backoff_ms ≡ w.status.current_backoff_ms)
        × (v.status.consecutive_failures ≡ w.status.consecutive_failures)
        × (v.status.telemetry_upload_failure_count ≡ w.status.telemetry_upload_failure_count)
        × (v.heartbeat_status ≡ w.heartbeat_status)
        × (Wait.notified 5_000 ≡ Wait.notified 5_000)
  unfolding set_failure
  failed_effect w e message = (refl, refl, refl, refl, refl, refl)

  -- What keeps a round from uploading.
  unfoldable pub cannot_upload : Worker S N E → Bool
  cannot_upload w =
      let (e, available) = network_available p w.outside w.config in
      not available
      || is_empty w.config.token
      || (starts_tls w.config.base_url && not (p.now e).1.trusted)

  -- Where records are queued and there is no network, no credential, or no trusted time for HTTPS, a round
  -- leaves the queue as it is, counts nothing, does not lengthen the wait after failures, and waits for
  -- five seconds or a notification.
  pub run_round-cannot_upload :
      (w : Worker S N E)
      → (size w.queue == 0) ≡ false
      → cannot_upload w ≡ true
      → let (v, wait) = run_round dev p heart w in
        (v.queue ≡ w.queue)
        × (v.status.current_backoff_ms ≡ w.status.current_backoff_ms)
        × (v.status.consecutive_failures ≡ w.status.consecutive_failures)
        × (v.status.telemetry_upload_failure_count ≡ w.status.telemetry_upload_failure_count)
        × (v.heartbeat_status ≡ w.heartbeat_status)
        × (wait ≡ Wait.notified 5_000)
  unfolding run_round upload_round cannot_upload
  run_round-cannot_upload w q h =
      rw q (elim (Bool-cases (network_available p w.outside w.config).1) [
        | inr n ↦ rw n (failed_effect w _ _)
        | inl n ↦ rw n (elim (Bool-cases (is_empty w.config.token)) [
          | inl t ↦ rw t (failed_effect w _ _)
          | inr t ↦ rw t (
              rw
                (let hindered : (starts_tls w.config.base_url
                        && not (p.now (network_available p w.outside w.config).0).1.trusted)
                      ≡ true =
                    ground (arith, h, n, t) in
                  hindered)
                (failed_effect w _ _))
        ])
      ])
