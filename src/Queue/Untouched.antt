-- ===== src/Queue/Untouched.antt =====
-- lib/queue/durable_queue_core.cpp: recovery and a file that is no record.
use gathra_gateway.Prelude.{
  ℕ, ◌≡◌, refl, ◌∙◌, inl, inr, Bool, true, false, List, [], ◌∷◌, Option, none, some, length, ltb,
  Bool-cases,
}
use gathra_gateway.Protocol.Types.{TelemetryPacket}
use gathra_gateway.Queue.Entries.{Entry, record_name, sort_entries}
use gathra_gateway.Queue.Core.{
  QueueStorage, DurableQueueCore, counted_corrupt, drop_oldest, stored_record,
}
use gathra_gateway.Queue.Recovery.{
  recoverable, recover_one, recover_all, trim, count_recovered, sort_and_trim, recover_listed,
  recover,
}

-- What recovery does to the storage leaves `f` of it, such as another file, as it is.
pub record IsUntouched {S A : Type 0} (st : QueueStorage S) (f : S → A) : Type 0 where
  pub listing : (s : S) → f (st.list_record_ids s).0 ≡ f s
  pub cleanup : (s : S) → f (st.cleanup_temporary_files s) ≡ f s
  pub removal : (s : S) (record_id : ℕ) → f (st.remove_record s (record_name record_id)).0 ≡ f s

module _ {S A : Type 0} (st : QueueStorage S) (f : S → A) (v : IsUntouched st f) where
  drop_oldest_recent :
      (q : DurableQueueCore S) (es : List Entry) → f (drop_oldest st q es).0.storage ≡ f q.storage
  unfolding drop_oldest
  drop_oldest_recent q [] = refl
  drop_oldest_recent q (e ∷ es) =
      elim (Bool-cases (st.remove_record q.storage (record_name e.record_id)).1) [
        | inl k ↦ rw k (v.removal q.storage e.record_id)
        | inr k ↦ rw k (v.removal q.storage e.record_id)
      ]

  recover_one_recent :
      (q : DurableQueueCore S) (listed : ℕ) (t : Option TelemetryPacket)
      → f (recover_one st q listed t).storage ≡ f q.storage
  unfolding recover_one
  recover_one_recent q listed none = v.removal q.storage listed
  recover_one_recent q listed (some t) = refl

  recover_all_recent :
      (q : DurableQueueCore S) (ids : List ℕ) → f (recover_all st q ids).storage ≡ f q.storage
  unfolding recover_all
  recover_all_recent q [] = refl
  recover_all_recent q (listed ∷ ids) =
      let found = recoverable st listed (stored_record st q.storage listed) in
      recover_all_recent (recover_one st q listed found) ids ∙ recover_one_recent q listed found

  trim_recent :
      (es : List Entry) (q : DurableQueueCore S) → f (trim st es q).0.storage ≡ f q.storage
  unfolding trim
  trim_recent [] q = refl
  trim_recent (e ∷ es) q =
      let dropped = drop_oldest_recent q (e ∷ es) in
      elim (Bool-cases (ltb q.capacity (length (e ∷ es)))) [
        | inr k ↦ rw k refl
        | inl k ↦ elim (Bool-cases (drop_oldest st q (e ∷ es)).1) [
          | inl done ↦ rw (k, done) (trim_recent es (drop_oldest st q (e ∷ es)).0 ∙ dropped)
          | inr undone ↦ rw (k, undone) dropped
        ]
      ]

  count_recovered_recent :
      (d : DurableQueueCore S × Bool) → f (count_recovered st d).0.storage ≡ f d.0.storage
  unfolding count_recovered
  count_recovered_recent (q, false) = refl
  count_recovered_recent (q, true) = refl

  sort_and_trim_recent : (q : DurableQueueCore S) → f (sort_and_trim st q).0.storage ≡ f q.storage
  unfolding sort_and_trim
  sort_and_trim_recent q =
      let sorted = sort_entries q.entries in
      let q' = record q { entries = sorted } in
      count_recovered_recent (trim st sorted q') ∙ trim_recent sorted q'

  recover_listed_recent :
      (q : DurableQueueCore S) (listed : Option (List ℕ × ℕ))
      → f (recover_listed st q listed).0.storage ≡ f q.storage
  unfolding recover_listed
  recover_listed_recent q none = refl
  recover_listed_recent q (some (ids, corrupt_names)) =
      let q' = record q { stats = counted_corrupt q.stats corrupt_names } in
      sort_and_trim_recent (recover_all st q' ids) ∙ recover_all_recent q' ids

  -- A recovery, whether it succeeds or fails.
  pub recover_recent : (q : DurableQueueCore S) → f (recover st q).0.storage ≡ f q.storage
  unfolding recover
  recover_recent q =
      let cleaned = st.cleanup_temporary_files q.storage in
      let (storage', listed) = st.list_record_ids cleaned in
      recover_listed_recent (record q { storage = storage'; next_record_id = 1; entries = [] })
        listed
      ∙ v.listing cleaned
      ∙ v.cleanup q.storage
