-- ===== src/Queue/Finish.antt =====
-- lib/queue/durable_queue.cpp: a record that left the queue is still known, and the derived capacity
-- fits the file system.
use gathra_gateway.Prelude.{
  ℕ, ◌+◌, ◌*◌, ◌≤◌, ◌≡◌, refl, subst, sym, ◌∙◌, ◌⊎◌, inl, inr, Bool, true, false, List, [], ◌∷◌,
  ◌++◌, Option, none, some, arith, if◌then◌else◌, Bool-cases,
}
use gathra_gateway.Dedup.{TelemetryKey, RecentDeduplicator, remember, telemetry_key_equal}
use gathra_gateway.Dedup.{contains as recent_contains}
use gathra_gateway.Dedup.Slots.{IsValid}
use gathra_gateway.Dedup.Refinement.{
  any_equal, recent, push_recent, contains-any_equal, remember-recent,
}
use gathra_gateway.Queue.Core.{DurableQueueCore}
use gathra_gateway.Queue.Core.{remove as core_remove}
use gathra_gateway.Queue.Acceptance.{telemetry_key_equal_refl}
use gathra_gateway.Queue.Durable.{
  Device, QueueOperationalStats, recent_bytes, DurableQueue, QueueTerminalAction, derive_capacity,
  persist_counters, checkpoint_counters_unlocked, contains_core, contains, finish_one, finish_all,
  save_changed, finish_saved, finish_changed, finish_present, finish,
}

-- The capacity is from 1 to 4096, and unless it is 1 the reserve and that many of the largest records,
-- each with its overhead, fit the file system.
pub derive_capacity-fits :
    (filesystem_bytes : ℕ)
    → (1 ≤ derive_capacity filesystem_bytes)
      × (derive_capacity filesystem_bytes ≤ 4096)
      × ((derive_capacity filesystem_bytes ≡ 1)
          ⊎ (65536 + derive_capacity filesystem_bytes * (152 + 128) ≤ filesystem_bytes))
unfolding derive_capacity
derive_capacity-fits filesystem_bytes = ground arith

any_equal-append :
    (ks : List TelemetryKey) (key : TelemetryKey) → any_equal (ks ++ (key ∷ [])) key ≡ true
unfolding any_equal
any_equal-append [] key = rw (telemetry_key_equal_refl key) refl
any_equal-append (k ∷ ks) key = elim (Bool-cases (telemetry_key_equal k key)) [
  | inl e ↦ rw e refl
  | inr e ↦ rw e (any_equal-append ks key)
]

-- A key that was remembered is among the recent ones.
pub contains-remember :
    (d : RecentDeduplicator) (key : TelemetryKey)
    → IsValid d
    → recent_contains (remember d key).0 key ≡ true
unfolding push_recent
contains-remember d key v =
    contains-any_equal (remember d key).0 key
    ∙ subst (λ (ks : List TelemetryKey). any_equal ks key ≡ true) (sym (remember-recent d key v).1)
        found
  where
    found :
        any_equal
          (if any_equal (recent d) key then recent d else push_recent d.capacity (recent d) key)
          key
        ≡ true
    found = elim (Bool-cases (any_equal (recent d) key)) [
      | inl e ↦ rw e e
      | inr e ↦ rw e (any_equal-append _ key)
    ]

-- The queue answers, and its recent keys are in order.
pub record IsServing {S N : Type 0} (q : DurableQueue S N) : Type 0 where
  pub locked : q.locked ≡ true
  pub healthy : q.healthy ≡ true
  pub core : DurableQueueCore S
  pub present : q.core ≡ some core
  pub valid : IsValid q.recent

module _ {S N : Type 0} (dev : Device S N) where
  finish_one-IsServing :
      (q : DurableQueue S N) (core : DurableQueueCore S) (action : QueueTerminalAction)
      → IsServing q
      → IsServing (finish_one dev q core action).0
  unfolding finish_one
  finish_one-IsServing q core action v =
      elim (Bool-cases (core_remove dev.storage core action.record_id).1) [
        | inl e ↦ rw e (record {
          locked = v.locked;
          healthy = v.healthy;
          core = (core_remove dev.storage core action.record_id).0;
          present = refl;
          valid = (remember-recent q.recent action.key v.valid).2;
        })
        | inr e ↦ rw e (record {
          locked = v.locked;
          healthy = v.healthy;
          core = (core_remove dev.storage core action.record_id).0;
          present = refl;
          valid = v.valid;
        })
      ]

  finish_one-contains :
      (q : DurableQueue S N) (core : DurableQueueCore S) (action : QueueTerminalAction)
      → IsValid q.recent
      → (finish_one dev q core action).1 ≡ true
      → recent_contains (finish_one dev q core action).0.recent action.key ≡ true
  unfolding finish_one
  finish_one-contains q core action v =
      elim (Bool-cases (core_remove dev.storage core action.record_id).1) [
        | inl e ↦ rw e (λ h. contains-remember q.recent action.key v)
        | inr e ↦ rw e (λ h. absurd (ground arith))
      ]

  -- After the loop the key of the last action is known, if the loop succeeded.
  Knows : TelemetryKey → DurableQueue S N × Bool × Bool → Type 0
  Knows key (q, success, changed) =
      IsServing q × ((success ≡ true) → recent_contains q.recent key ≡ true)

  finish_all-end :
      (key : TelemetryKey) (q : DurableQueue S N) (core : Option (DurableQueueCore S))
      (success changed : Bool)
      → q.core ≡ core
      → IsServing q
      → ((success ≡ true) → recent_contains q.recent key ≡ true)
      → Knows key (finish_all dev [] q core success changed)
  unfolding finish_all Knows
  finish_all-end key q none success changed e v k = absurd (ground (arith, e, v.present))
  finish_all-end key q (some core) success changed e v k = (v, k)

  finish_all-Knows :
      (actions : List QueueTerminalAction) (last : QueueTerminalAction) (q : DurableQueue S N)
      (core : Option (DurableQueueCore S)) (success changed : Bool)
      → q.core ≡ core
      → IsServing q
      → Knows last.key (finish_all dev (actions ++ (last ∷ [])) q core success changed)
  unfolding finish_all Knows
  finish_all-Knows actions last q none success changed e v = absurd (ground (arith, e, v.present))
  finish_all-Knows [] last q (some core) success changed e v =
      finish_all-end last.key (finish_one dev q core last).0 (finish_one dev q core last).0.core _ _
        refl (finish_one-IsServing q core last v)
        (λ h. finish_one-contains q core last v.valid (ground (arith, h)))
  finish_all-Knows (x ∷ actions) last q (some core) success changed e v =
      finish_all-Knows actions last (finish_one dev q core x).0 (finish_one dev q core x).0.core _ _
        refl (finish_one-IsServing q core x v)

  pub contains_known :
      (q : DurableQueue S N) (key : TelemetryKey)
      → IsServing q
      → recent_contains q.recent key ≡ true
      → (contains dev q key).1 ≡ true
  unfolding contains contains_core
  contains_known q key v k = rw (v.locked, v.healthy, v.present, k) refl

  -- The end of `finish` changes neither the recent keys nor whether the queue answers.
  save_changed-IsServing :
      (q : DurableQueue S N) (core : Option (DurableQueueCore S)) (changed : Bool)
      → q.core ≡ core
      → IsServing q
      → IsServing (save_changed dev q core changed).0
        × ((save_changed dev q core changed).0.recent ≡ q.recent)
  unfolding save_changed
  save_changed-IsServing q none changed e v = absurd (ground (arith, e, v.present))
  save_changed-IsServing q (some core) false e v = (v, refl)
  save_changed-IsServing q (some core) true e v =
      elim (Bool-cases (dev.save_recent core.storage (recent_bytes q.recent)).1) [
        | inl k ↦ rw k (stored, refl)
        | inr k ↦ rw k (stored_again, refl)
      ]
    where
      core' : DurableQueueCore S
      core' = record core { storage = (dev.save_recent core.storage (recent_bytes q.recent)).0 }

      stored : IsServing (record q { core = some core' })
      stored = record {
        locked = v.locked;
        healthy = v.healthy;
        core = core';
        present = refl;
        valid = v.valid;
      }

      stored_again :
          {stats : QueueOperationalStats}
          → IsServing (record q { core = some core'; stats = stats })
      stored_again = record {
        locked = v.locked;
        healthy = v.healthy;
        core = core';
        present = refl;
        valid = v.valid;
      }

  pub checkpoint_effect :
      (q : DurableQueue S N) (force : Bool)
      → ((checkpoint_counters_unlocked dev q force).locked ≡ q.locked)
        × ((checkpoint_counters_unlocked dev q force).healthy ≡ q.healthy)
        × ((checkpoint_counters_unlocked dev q force).core ≡ q.core)
        × ((checkpoint_counters_unlocked dev q force).recent ≡ q.recent)
  unfolding checkpoint_counters_unlocked persist_counters
  checkpoint_effect q force = ground arith

  checkpoint-contains :
      (q : DurableQueue S N) (force : Bool) (key : TelemetryKey)
      → IsServing q
      → recent_contains q.recent key ≡ true
      → (contains dev (checkpoint_counters_unlocked dev q force) key).1 ≡ true
  checkpoint-contains q force key v k =
      let (locked, healthy, core, kept) = checkpoint_effect q force in
      contains_known (checkpoint_counters_unlocked dev q force) key
        (record {
          locked = locked ∙ v.locked;
          healthy = healthy ∙ v.healthy;
          core = v.core;
          present = core ∙ v.present;
          valid = subst IsValid (sym kept) v.valid;
        })
        (subst (λ (d : RecentDeduplicator). recent_contains d key ≡ true) (sym kept) k)

  finish_changed-contains :
      (d : DurableQueue S N × Bool × Bool) (key : TelemetryKey)
      → Knows key d
      → (finish_changed dev d).1 ≡ true
      → (contains dev (finish_changed dev d).0 key).1 ≡ true
  unfolding finish_changed finish_saved Knows
  finish_changed-contains (q, success, changed) key (v, k) h =
      let (serving, same) = save_changed-IsServing q q.core changed refl v in
      checkpoint-contains (save_changed dev q q.core changed).0 false key serving (
        subst (λ (d : RecentDeduplicator). recent_contains d key ≡ true) (sym same)
          (k (ground (arith, h))))

  finish_present-contains :
      (q : DurableQueue S N) (actions : List QueueTerminalAction) (last : QueueTerminalAction)
      (core : Option (DurableQueueCore S))
      → q.core ≡ core
      → q.locked ≡ true
      → q.healthy ≡ true
      → IsValid q.recent
      → (finish_present dev q (actions ++ (last ∷ [])) core).1 ≡ true
      → (contains dev (finish_present dev q (actions ++ (last ∷ [])) core).0 last.key).1 ≡ true
  unfolding finish_present
  finish_present-contains q actions last none e l a v h = absurd (ground (arith, h))
  finish_present-contains q actions last (some core) e l a v h =
      finish_changed-contains _ last.key
        (finish_all-Knows actions last q (some core) true false e
          (record { locked = l; healthy = a; core = core; present = e; valid = v }))
        h

  -- Where the ring of recent keys is valid and `finish` succeeds for some actions, the queue still
  -- contains the key of the last of them, whose record it has removed.
  pub contains-finish :
      (q : DurableQueue S N) (actions : List QueueTerminalAction) (last : QueueTerminalAction)
      → IsValid q.recent
      → (finish dev q (actions ++ (last ∷ []))).1 ≡ true
      → (contains dev (finish dev q (actions ++ (last ∷ []))).0 last.key).1 ≡ true
  unfolding finish
  contains-finish q actions last v = elim (Bool-cases q.locked) [
    | inr l ↦ simp l (λ h. absurd (ground arith))
    | inl l ↦ elim (Bool-cases q.healthy) [
      | inr a ↦ simp (l, a) (λ h. absurd (ground arith))
      | inl a ↦ simp (l, a) (finish_present-contains q actions last q.core refl l a v)
    ]
  ]
