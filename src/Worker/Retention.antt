-- ===== src/Worker/Retention.antt =====
-- lib/backend/backend_worker.cpp: what an upload takes off the queue, and what it leaves there.
use gathra_gateway.Prelude.{
  ℕ, ◌≤◌, ◌<◌, ◌≡◌, refl, ap, ◌∙◌, ◌⊎◌, inl, inr, ℤ, Bool, true, false, ◌&&◌, List, Option, none,
  some, arith, length, Bool-cases,
}
use gathra_gateway.Queue.Record.{QueueRecord}
use gathra_gateway.Queue.Durable.{
  Device, DurableQueue, QueueTerminalAction, finish, checkpoint_counters_unlocked, persist_counters,
  record_upload_retry,
}
use gathra_gateway.Backend.{
  BackendRecordResult, parse_backend_batch_response, backend_http_response_may_dequeue,
  backend_batch_response_complete,
}
use gathra_gateway.Backend.Complete.{answers-parse_backend_batch_response}
use gathra_gateway.Worker.Types.{Platform, Worker}
use gathra_gateway.Worker.Status.{uptime_ms, count_failure, set_failure, set_success}
use gathra_gateway.Worker.Request.{Answer}
use gathra_gateway.Worker.Upload.{
  record_at, no_actions, actions_of, retried, settle, settle_decoded, take_answer, failure_message,
}
use gathra_gateway.Text.{codes}
use gathra_gateway.Worker.Actions.{
  complete_length, finished_of, removes, removes-actions_of, some_actions,
}

module _ {S N E : Type 0} (dev : Device S N) (p : Platform E (DurableQueue S N)) where
  set_failure-queue :
      (w : Worker S N E) (http_status : ℤ) (message : List ℕ) (advance operation : Bool)
      → (set_failure p w http_status message advance operation).queue ≡ w.queue
  unfolding set_failure count_failure
  set_failure-queue w http_status message advance operation = ground arith

  -- The records and the recent keys are what they were.
  pub record Keeps (w : Worker S N E) (d : Worker S N E × Bool × Bool) : Type 0 where
    pub core : d.0.queue.core ≡ w.queue.core
    pub recent : d.0.queue.recent ≡ w.queue.recent
    pub completed : d.1 ≡ false
    pub complete : d.2 ≡ false

  record_upload_retry_effect :
      (q : DurableQueue S N)
      → ((record_upload_retry dev q).core ≡ q.core)
        × ((record_upload_retry dev q).recent ≡ q.recent)
  unfolding record_upload_retry checkpoint_counters_unlocked persist_counters
  record_upload_retry_effect q = ground arith

  retried-Keeps :
      (w : Worker S N E) (http_status : ℤ) (message : List ℕ)
      → Keeps w (retried dev p (set_failure p w http_status message true true), false, false)
  unfolding retried
  retried-Keeps w http_status message =
      let same = set_failure-queue w http_status message true true in
      let (core, recent) =
        record_upload_retry_effect (set_failure p w http_status message true true).queue in
      record {
        core = core ∙ ap (λ (q : DurableQueue S N). q.core) same;
        recent = recent ∙ ap (λ (q : DurableQueue S N). q.recent) same;
        completed = refl;
        complete = refl;
      }

  -- The batch is accepted: status 200, and a response that can be read.
  unfoldable pub is_accepted : List QueueRecord → Answer → Bool
  is_accepted records a =
      backend_http_response_may_dequeue a.http_status
      && (parse_backend_batch_response p.deserialize (some a.response) (length records)).1

  -- Unless the status is 200 and the response can be read, an upload leaves the records of the queue and
  -- the recent keys as they are when the answer comes, and reports neither a completed request nor a
  -- complete batch.
  pub take_answer-Keeps :
      (w : Worker S N E) (records : List QueueRecord) (a : Answer)
      → is_accepted records a ≡ false
      → Keeps w (take_answer dev p w records a)
  unfolding take_answer is_accepted retried
  take_answer-Keeps w records a h =
      elim (Bool-cases (backend_http_response_may_dequeue a.http_status)) [
        | inr e ↦ rw e (retried-Keeps w a.http_status (failure_message a))
        | inl e ↦ rw e (
            rw
              (let unread : (parse_backend_batch_response p.deserialize (some a.response)
                      (length records)).1
                    ≡ false =
                  ground (arith, h, e) in
                unread)
              (retried-Keeps w a.http_status
                (codes "incompatible/malformed batch response; queue retained")))
      ]

  set_success-queue :
      (w : Worker S N E) (http_status : ℤ) → (set_success p w http_status).queue ≡ w.queue
  unfolding set_success uptime_ms
  set_success-queue w http_status = refl

  -- The queue `q` is what a `finish` that succeeds makes of the worker's, where there are actions.
  abbrev Finishes : Worker S N E → List QueueTerminalAction → DurableQueue S N → Type 0
  Finishes w actions q =
      (no_actions actions ≡ true)
      ⊎ (((finish dev w.queue actions).1 ≡ true) × (q ≡ (finish dev w.queue actions).0))

  -- A complete batch was taken off the queue by `finish`, which left `q`.
  record Settled (w : Worker S N E) (records : List QueueRecord)
      (results : List BackendRecordResult) (q : DurableQueue S N) : Type 0 where
    actions : List QueueTerminalAction
    all : actions_of records results ≡ some actions
    answered : backend_batch_response_complete (length records) results ≡ true
    finished : Finishes w actions q

  settle_effect :
      (w : Worker S N E) (http_status : ℤ) (count : ℕ) (results : List BackendRecordResult)
      (actions : List QueueTerminalAction)
      → (settle dev p w http_status count results actions).2 ≡ true
      → (backend_batch_response_complete count results ≡ true)
        × Finishes w actions (settle dev p w http_status count results actions).0.queue
  unfolding settle
  settle_effect w http_status count results actions =
      elim (Bool-cases (backend_batch_response_complete count results)) [
        | inr e ↦ rw e (λ h. absurd (ground arith))
        | inl e ↦ rw e (elim (Bool-cases (no_actions actions)) [
          | inl idle ↦ λ h. (refl, inl idle)
          | inr busy ↦ elim (Bool-cases (finish dev w.queue actions).1) [
            | inl done ↦ rw (busy, done) (λ h. (refl, inr (refl, set_success-queue _ http_status)))
            | inr undone ↦ rw (busy, undone) (λ h. absurd (ground arith))
          ]
        ])
      ]

  settle_decoded-Settled :
      (w : Worker S N E) (http_status : ℤ) (records : List QueueRecord)
      (results : List BackendRecordResult) (actions : Option (List QueueTerminalAction))
      → actions_of records results ≡ actions
      → (settle_decoded dev p w http_status (length records) results actions).2 ≡ true
      → Settled w records results
          (settle_decoded dev p w http_status (length records) results actions).0.queue
  unfolding settle_decoded
  settle_decoded-Settled w http_status records results none e h = absurd (ground arith)
  settle_decoded-Settled w http_status records results (some actions) e h =
      let (complete, done) = settle_effect w http_status (length records) results actions h in
      record { actions = actions; all = e; answered = complete; finished = done }

  take_answer-Settled :
      (w : Worker S N E) (records : List QueueRecord) (a : Answer)
      → (take_answer dev p w records a).2 ≡ true
      → (backend_http_response_may_dequeue a.http_status ≡ true)
        × Settled w records
            (parse_backend_batch_response p.deserialize (some a.response) (length records)).0
            (take_answer dev p w records a).0.queue
  unfolding take_answer
  take_answer-Settled w records a =
      let results =
        (parse_backend_batch_response p.deserialize (some a.response) (length records)).0 in
      elim (Bool-cases (backend_http_response_may_dequeue a.http_status)) [
        | inr e ↦ rw e (λ h. absurd (ground arith))
        | inl e ↦
            rw e
              (elim (Bool-cases
                (parse_backend_batch_response p.deserialize (some a.response) (length records)).1) [
                  | inr u ↦ rw u (λ h. absurd (ground arith))
                  | inl u ↦ rw u (λ h. (
                    refl,
                    settle_decoded-Settled w a.http_status records results
                        (actions_of records results) refl h,
                  ))
                ])
      ]

  -- Where the upload of a batch of 50 records at most is reported complete, the status was 200, and the
  -- queue is what `finish` made of it, without a failure, with actions among which one removes each
  -- record of the batch.
  pub take_answer-removes :
      (w : Worker S N E) (records : List QueueRecord) (a : Answer)
      → length records ≤ 50
      → (take_answer dev p w records a).2 ≡ true
      → (backend_http_response_may_dequeue a.http_status ≡ true)
        × ((actions : List QueueTerminalAction) × ((finish dev w.queue actions).1 ≡ true)
            × ((take_answer dev p w records a).0.queue ≡ (finish dev w.queue actions).0)
            × ((i : ℕ) (r : QueueRecord)
                → i < length records
                → record_at records i ≡ some r
                → removes r.record_id actions ≡ true))
  take_answer-removes w records a l h =
      let results =
        (parse_backend_batch_response p.deserialize (some a.response) (length records)).0 in
      let (ok, settled) = take_answer-Settled w records a h in
      let busy : no_actions settled.actions ≡ false =
        some_actions records results settled.all
          (complete_length (length records) results settled.answered) in
      let (done, left) = finished_of busy settled.finished in
      (
        ok,
        (
          settled.actions,
          done,
          left,
          λ i r b e.
              removes-actions_of records results i r settled.all
                (answers-parse_backend_batch_response p.deserialize (some a.response)
                  (length records) i l settled.answered b)
                e,
        ),
      )
