-- ===== src/Queue/Acceptance.antt =====
-- lib/queue/durable_queue_core.cpp: what an accepted record leads to, and when a record is accepted.
use gathra_gateway.Prelude.{
  ℕ, ◌<◌, ◌≡◌, ◌≢◌, refl, ap, ◌∙◌, inl, inr, Bool, true, false, List, [], ◌∷◌, ◌++◌, some, arith,
  length, leb, ◌==◌, leb→le, ne→==_false, Bool-cases,
}
use gathra_gateway.Protocol.Types.{TelemetryPacket}
use gathra_gateway.Queue.Record.{QueueRecord, encode}
use gathra_gateway.Queue.Record.RoundTrip.{IsStorable, decode-encode_record}
use gathra_gateway.Queue.Entries.{Entry, record_name, entry_of, telemetry_of, key_hash, key_of}
use gathra_gateway.Build.{node_id_capacity}
use gathra_gateway.Text.{strncmp_eq_refl}
use gathra_gateway.Dedup.{TelemetryKey, telemetry_key_equal}
use gathra_gateway.Queue.Core.{
  QueueStorage, DurableQueueCore, stored_record, read_all, drop_oldest, write_record,
  or_remove_newest, restore_bound, append_entry, enqueue_bytes, enqueue_packet, enqueue,
  stored_packet, search, same_key, packet_in, contains,
}
use gathra_gateway.Queue.Bounds.{IsWellFormed}
use gathra_gateway.Queue.Storage.{IsStore}
use gathra_gateway.Queue.Steps.{Restores}
use gathra_gateway.Queue.Refinement.{numbered, enqueue_bytes-Restores}

module _ {S : Type 0} (st : QueueStorage S) where
  search-last :
      (s : S) (key : TelemetryKey) (es : List Entry) (e : Entry) (t : TelemetryPacket)
      → stored_packet st s e.record_id ≡ some t
      → e.key_hash ≡ key_hash key
      → telemetry_key_equal (key_of t) key ≡ true
      → (search st s key (es ++ (e ∷ []))).1 ≡ true
  unfolding search same_key
  search-last s key [] e t h k m = ground (arith, h, k, m)
  search-last s key (x ∷ es) e t h k m = ground (arith, search-last s key es e t h k m)

numbered_packet :
    {S : Type 0} (q : DurableQueueCore S) (r : QueueRecord)
    → telemetry_of (numbered q r) ≡ telemetry_of r
unfolding telemetry_of
numbered_packet q r = refl

pub telemetry_key_equal_refl : (k : TelemetryKey) → telemetry_key_equal k k ≡ true
unfolding telemetry_key_equal
telemetry_key_equal_refl k = ground (arith, strncmp_eq_refl k.node_id node_id_capacity)

module _ {S : Type 0} (st : QueueStorage S) (store : IsStore st) where
  append_entry-found :
      (capacity record_id : ℕ) (r : QueueRecord) (t : TelemetryPacket) (es : List Entry)
      (rs : List QueueRecord) (d : DurableQueueCore S × Bool)
      → telemetry_of r ≡ some t
      → Restores st store capacity record_id r es rs d
      → (append_entry st (entry_of record_id t) d).1 ≡ true
      → (contains st (append_entry st (entry_of record_id t) d).0 (key_of t)).1 ≡ true
  unfolding append_entry Restores contains entry_of stored_packet packet_in
  append_entry-found capacity record_id r t es rs (q, false) h k f = absurd (ground arith)
  append_entry-found capacity record_id r t es rs (q, true) h k f =
      search-last st q.storage (key_of t) q.entries _ t (packet (k.1 refl).0) refl
        (telemetry_key_equal_refl (key_of t))
    where
      packet :
          stored_record st q.storage record_id ≡ some r
          → stored_packet st q.storage record_id ≡ some t
      packet e = ap (packet_in st) e ∙ h

  enqueue_bytes-found :
      (q : DurableQueueCore S) (r : QueueRecord) (t : TelemetryPacket) (rs : List QueueRecord)
      → IsWellFormed q
      → q.next_record_id ≢ 0
      → IsStorable r
      → read_all st q.storage q.entries ≡ some rs
      → telemetry_of r ≡ some t
      → (enqueue_bytes st q (entry_of q.next_record_id t) (encode r)).1 ≡ true
      → (contains st (enqueue_bytes st q (entry_of q.next_record_id t) (encode r)).0 (key_of t)).1
        ≡ true
  unfolding enqueue_bytes entry_of contains
  enqueue_bytes-found q r t rs w n v k h =
      let (bytes, encoded, decoded, _) = decode-encode_record r v in
      rw encoded (
        append_entry-found q.capacity q.next_record_id r t q.entries rs _ h (
          enqueue_bytes-Restores st store q (entry_of q.next_record_id t) bytes r rs w n refl
            decoded k))

  -- Where the storage is atomic, the queue well formed, every queued record readable and the new record
  -- storable under the next identifier, an enqueue that succeeds leaves a queue that contains the key
  -- of the packet.
  pub contains-enqueue :
      (q : DurableQueueCore S) (r : QueueRecord) (t : TelemetryPacket) (rs : List QueueRecord)
      → IsWellFormed q
      → IsStorable (numbered q r)
      → read_all st q.storage q.entries ≡ some rs
      → telemetry_of r ≡ some t
      → (enqueue st q r).2 ≡ true
      → (contains st (enqueue st q r).0 (key_of t)).1 ≡ true
  unfolding enqueue enqueue_packet
  contains-enqueue q r t rs w v k h = elim (Bool-cases (q.next_record_id == 0)) [
    | inl z ↦ absurd (ground (arith, z, v.identified))
    | inr z ↦
        rw (z, h)
          (enqueue_bytes-found q (numbered q r) t rs w (ground (arith, z)) v k
            (numbered_packet q r ∙ h))
  ]

-- A storage that never refuses a write or a removal.
pub record IsWilling {S : Type 0} (st : QueueStorage S) : Type 0 where
  pub writes :
      (s : S) (record_id : ℕ) (bytes : List ℕ) → (st.write_record_atomic s record_id bytes).1 ≡ true
  pub removes : (s : S) (name : List ℕ) → (st.remove_record s name).1 ≡ true

module _ {S : Type 0} (st : QueueStorage S) (willing : IsWilling st) where
  drop_oldest_done :
      (q : DurableQueueCore S) (es : List Entry) → 0 < length es → (drop_oldest st q es).1 ≡ true
  unfolding drop_oldest
  drop_oldest_done q [] h = absurd (omega arith)
  drop_oldest_done q (x ∷ es) h = rw (willing.removes q.storage (record_name x.record_id)) refl

  kept_done :
      (record_id : ℕ) (d : DurableQueueCore S × Bool)
      → d.1 ≡ true
      → (or_remove_newest st record_id d).1 ≡ true
  unfolding or_remove_newest
  kept_done record_id (q, true) h = refl
  kept_done record_id (q, false) h = absurd (ground arith)

  appended_done :
      (e : Entry) (d : DurableQueueCore S × Bool) → d.1 ≡ true → (append_entry st e d).1 ≡ true
  unfolding append_entry
  appended_done e (q, true) h = refl
  appended_done e (q, false) h = absurd (ground arith)

  enqueue_bytes_done :
      (q : DurableQueueCore S) (e : Entry) (bytes : List ℕ)
      → 0 < q.capacity
      → (enqueue_bytes st q e (some bytes)).1 ≡ true
  unfolding enqueue_bytes write_record restore_bound
  enqueue_bytes_done q e bytes p = appended_done e _ done
    where
      done : (restore_bound st e.record_id (write_record st q e.record_id bytes)).1 ≡ true
      done = elim (Bool-cases (leb q.capacity (length q.entries))) [
        | inl f ↦
            rw (willing.writes q.storage e.record_id bytes, f)
              (kept_done e.record_id _ (
                drop_oldest_done _ q.entries
                  (omega (arith, p, leb→le q.capacity (length q.entries) f))))
        | inr f ↦ rw (willing.writes q.storage e.record_id bytes, f) refl
      ]

  enqueue_packet_done :
      (q : DurableQueueCore S) (r : QueueRecord) (t : TelemetryPacket)
      → 0 < q.capacity
      → IsStorable (numbered q r)
      → (enqueue_packet st q r (some t)).2 ≡ true
  unfolding enqueue_packet
  enqueue_packet_done q r t p v =
      let (bytes, encoded, _, _) = decode-encode_record (numbered q r) v in
      rw encoded (enqueue_bytes_done q (entry_of q.next_record_id t) bytes p)

  -- Where the storage refuses nothing, a record that is storable under the next identifier and holds a
  -- valid telemetry packet is accepted, also by a full queue.
  pub enqueue-accepts :
      (q : DurableQueueCore S) (r : QueueRecord) (t : TelemetryPacket)
      → 0 < q.capacity
      → IsStorable (numbered q r)
      → telemetry_of r ≡ some t
      → (enqueue st q r).2 ≡ true
  unfolding enqueue
  enqueue-accepts q r t p v h =
      rw (ne→==_false q.next_record_id 0 (omega (arith, v.identified)), h)
        (enqueue_packet_done q r t p v)
