-- ===== src/Queue/Reopened.antt =====
-- lib/queue/durable_queue.cpp: a key that was known is known after the next start.
use gathra_gateway.Prelude.{
  ◌≡◌, refl, sym, ap, ◌∙◌, subst, inl, inr, Bool, true, false, List, some, arith, Bool-cases,
}
use gathra_gateway.Dedup.{TelemetryKey, RecentDeduplicator, create}
use gathra_gateway.Dedup.{contains as recent_contains}
use gathra_gateway.Dedup.Slots.{IsValid}
use gathra_gateway.Dedup.Refinement.{recent, remember_all-recent, create-IsValid}
use gathra_gateway.Queue.Core.{DurableQueueCore}
use gathra_gateway.Queue.Durable.{
  recent_bytes, Device, DurableQueue, persist_counters, contains, derive_capacity,
}
use gathra_gateway.Queue.Finish.{contains_known}
use gathra_gateway.Queue.Core.{create as core_create}
use gathra_gateway.Queue.Recovery.{recover}
use gathra_gateway.Queue.Startup.{
  opened, unbegun, Flash, begin_recovered, begin, begin_core, begin_mounted, RecentFile,
  load_recent,
}
use gathra_gateway.Queue.Untouched.{IsUntouched, recover_recent}
use gathra_gateway.Queue.Recall.{remembered, load_recent_lem, remembered_knows}
use gathra_gateway.Queue.Recall.Keys.{AreKeys}

-- Mounting a file system that is not to be formatted leaves the file of the recent keys alone, and so
-- does recovery, which lists the directory and removes record files and temporary files.
pub record IsBeside {S N : Type 0} (dev : Device S N) (flash : Flash S N) : Type 0 where
  pub mount : (s : S) → flash.recent_file (flash.begin_storage s false).0 ≡ flash.recent_file s
  pub recovery : IsUntouched dev.storage flash.recent_file

module _ {S N : Type 0} (dev : Device S N) (flash : Flash S N) (beside : IsBeside dev flash) where
  opened_effect :
      (changed : Bool) (q : DurableQueue S N)
      → ((opened dev flash changed q).locked ≡ q.locked)
        × ((opened dev flash changed q).healthy ≡ true)
        × ((opened dev flash changed q).core ≡ q.core)
        × ((opened dev flash changed q).recent ≡ q.recent)
  unfolding opened persist_counters
  opened_effect changed q = ground arith

  opened-contains :
      (changed : Bool) (q : DurableQueue S N) (core : DurableQueueCore S) (key : TelemetryKey)
      → q.locked ≡ true
      → q.core ≡ some core
      → IsValid q.recent
      → recent_contains q.recent key ≡ true
      → (contains dev (opened dev flash changed q) key).1 ≡ true
  opened-contains changed q core key l c v k =
      let (locked, healthy, present, kept) = opened_effect changed q in
      contains_known dev (opened dev flash changed q) key
        (record {
          locked = locked ∙ l;
          healthy = healthy;
          core = core;
          present = present ∙ c;
          valid = subst IsValid (sym kept) v;
        })
        (subst (λ (d : RecentDeduplicator). recent_contains d key ≡ true) (sym kept) k)

  begin_recovered-contains :
      (q : DurableQueue S N) (core : DurableQueueCore S) (loaded : RecentDeduplicator)
      (key : TelemetryKey)
      → q.locked ≡ true
      → load_recent q.recent (flash.recent_file core.storage) ≡ (loaded, true)
      → IsValid loaded
      → recent_contains loaded key ≡ true
      → (contains dev (begin_recovered dev flash q core) key).1 ≡ true
  unfolding begin_recovered
  begin_recovered-contains q core loaded key l h v k =
      rw h (opened-contains _ _ core key l refl v k)

  begin_core-contains :
      (q : DurableQueue S N) (storage : S) (loaded : RecentDeduplicator) (key : TelemetryKey)
      → q.locked ≡ true
      → load_recent q.recent (flash.recent_file storage) ≡ (loaded, true)
      → IsValid loaded
      → recent_contains loaded key ≡ true
      → (begin_core dev flash q storage).1 ≡ true
      → (contains dev (begin_core dev flash q storage).0 key).1 ≡ true
  unfolding begin_core core_create
  begin_core-contains q storage loaded key l h v k =
      let fresh = core_create dev.storage storage (derive_capacity (flash.total_bytes storage)) in
      let kept = recover_recent dev.storage flash.recent_file beside.recovery fresh in
      elim (Bool-cases (recover dev.storage fresh).1) [
        | inr e ↦ rw e (λ failed. absurd (ground arith))
        | inl e ↦ rw e (λ done.
            begin_recovered-contains q (recover dev.storage fresh).0 loaded key l
              (ap (load_recent q.recent) kept ∙ h) v k)
      ]

  begin_mounted-contains :
      (n : N) (storage : S) (loaded : RecentDeduplicator) (key : TelemetryKey)
      → flash.get_bool n "fs-ready" false ≡ true
      → load_recent (create 64) (flash.recent_file storage) ≡ (loaded, true)
      → IsValid loaded
      → recent_contains loaded key ≡ true
      → (begin_mounted dev flash n storage).1 ≡ true
      → (contains dev (begin_mounted dev flash n storage).0 key).1 ≡ true
  unfolding begin_mounted unbegun
  begin_mounted-contains n storage loaded key b h v k =
      rw b (elim (Bool-cases (flash.begin_storage storage false).1) [
        | inr m ↦ rw m (λ failed. absurd (ground arith))
        | inl m ↦ rw m (
            begin_core-contains (unbegun dev flash true n) _ loaded key refl
              (ap (load_recent (create 64)) (beside.mount storage) ∙ h) v k)
      ])

  -- Let the file system have been ready before, and no step of mounting and recovery touch the file of
  -- the recent keys. Let that file be the one that is stored after keys of packets that a node may
  -- send were finished. Once the next start succeeds, the queue contains every key that the ring of
  -- recent keys then held, whatever became of the records.
  pub contains-begin :
      (locked : Bool) (n : N) (storage : S) (ks : List TelemetryKey) (key : TelemetryKey)
      → AreKeys ks
      → flash.get_bool (flash.begin_preferences n).0 "fs-ready" false ≡ true
      → flash.recent_file storage ≡ RecentFile.content (recent_bytes (remembered ks))
      → recent_contains (remembered ks) key ≡ true
      → (begin dev flash locked n storage).1 ≡ true
      → (contains dev (begin dev flash locked n storage).0 key).1 ≡ true
  unfolding begin
  contains-begin false n storage ks key vs ready file k = λ failed. absurd (ground arith)
  contains-begin true n storage ks key vs ready file k =
      elim (Bool-cases (flash.begin_preferences n).1) [
        | inr b ↦ rw b (λ failed. absurd (ground arith))
        | inl b ↦ rw b (
            begin_mounted-contains _ storage (remembered (recent (remembered ks))) key ready
              (ap (load_recent (create 64)) file ∙ load_recent_lem ks vs)
              (remember_all-recent (create 64) (recent (remembered ks)) (create-IsValid 64)).1
              (remembered_knows ks key ∙ k))
      ]
