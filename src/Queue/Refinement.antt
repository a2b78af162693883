-- ===== src/Queue/Refinement.antt =====
-- lib/queue/durable_queue_core.cpp: the queue is a bounded list of records, the oldest first. The list
-- is what reading the files of all entries gives.
use gathra_gateway.Prelude.{
  ℕ, suc, ◌^◌, ◌≤◌, ◌<◌, ◌≡◌, ◌≢◌, zero, take, some-injective, refl, sym, ap, subst, ◌∙◌, ◌⊎◌, inl,
  inr, Bool, true, false, List, [], ◌∷◌, ◌++◌, Option, none, some, arith, length, drop, leb, ◌==◌,
  le→leb, if◌then◌else◌, Bool-cases, Option-cases,
}
use gathra_gateway.Protocol.Types.{TelemetryPacket}
use gathra_gateway.Queue.Record.{QueueRecord, encode, decode}
use gathra_gateway.Queue.Record.RoundTrip.{IsStorable, decode-encode_record}
use gathra_gateway.Queue.Entries.{Entry, entry_of, telemetry_of}
use gathra_gateway.Queue.Core.{
  QueueStorage, DurableQueueCore, stored_record, read_all, with_first, write_record, restore_bound,
  append_entry, enqueue_bytes, enqueue_packet, enqueue, peek, or_no_records,
}
use gathra_gateway.Queue.Bounds.{write_record-IsShrunk, Between, ceiling, IsWellFormed}
use gathra_gateway.Queue.Storage.{IsStore, length-read_all}
use gathra_gateway.Queue.Steps.{same, lost, Restores, write_record-Writes, restore_bound-Restores}
use gathra_gateway.Queue.Frame.{append_record}

-- A new record at the end, and the oldest one gone where the queue is full.
abbrev pub pushed : ℕ → List QueueRecord → QueueRecord → List QueueRecord
pushed capacity rs r = if leb capacity (length rs) then drop 1 rs ++ (r ∷ []) else rs ++ (r ∷ [])

-- The given record, as the queue stores it.
abbrev pub numbered : {S : Type 0} → DurableQueueCore S → QueueRecord → QueueRecord
numbered q r = record r { record_id = q.next_record_id }

-- The two outcomes of an enqueue.
unfoldable pub Enqueued :
    {S : Type 0}
    → QueueStorage S
    → ℕ
    → List QueueRecord
    → QueueRecord
    → DurableQueueCore S × Bool
    → Type 0
Enqueued st capacity rs r (q, true) = read_all st q.storage q.entries ≡ some (pushed capacity rs r)
Enqueued st capacity rs r (q, false) =
    (read_all st q.storage q.entries ≡ some rs)
    ⊎ (capacity ≤ length rs) × (read_all st q.storage q.entries ≡ some (drop 1 rs))

module _ {S : Type 0} (st : QueueStorage S) (store : IsStore st) where
  append_entry-Enqueued :
      (capacity : ℕ) (e : Entry) (r : QueueRecord) (es : List Entry) (rs : List QueueRecord)
      (d : DurableQueueCore S × Bool)
      → length rs ≡ length es
      → Restores st store capacity e.record_id r es rs d
      → Enqueued st capacity rs r (append_entry st e d)
  unfolding append_entry Restores Enqueued
  append_entry-Enqueued capacity e r es rs (q, false) n (same (i, k), t) =
      inl (subst (λ (l : List Entry). read_all st q.storage l ≡ some rs) (sym i) k)
  append_entry-Enqueued capacity e r es rs (q, false) n (lost full (i, k), t) = inr (
    omega (arith, n, full),
    subst (λ (l : List Entry). read_all st q.storage l ≡ some (drop 1 rs)) (sym i) k,
  )
  append_entry-Enqueued capacity e r es rs (q, true) n (same (i, k), t) =
      rw
        (not_full capacity (length rs) (length q.entries) (n ∙ sym (ap (length {A = Entry}) i))
          (t refl).1)
        (append_record st store q.storage q.entries e rs r
          (subst (λ (l : List Entry). read_all st q.storage l ≡ some rs) (sym i) k) (t refl).0)
    where
      not_full : (c n m : ℕ) → n ≡ m → m < c → leb c n ≡ false
      not_full c n m e k = ground arith
  append_entry-Enqueued capacity e r es rs (q, true) n (lost full (i, k), t) =
      rw (le→leb capacity (length rs) (omega (arith, n, full))) (
        append_record st store q.storage q.entries e (drop 1 rs) r
          (subst (λ (l : List Entry). read_all st q.storage l ≡ some (drop 1 rs)) (sym i) k)
          (t refl).0)

  -- The steps of `enqueue` for a record that encodes.
  pub enqueue_bytes-Restores :
      (q : DurableQueueCore S) (e : Entry) (bytes : List ℕ) (r : QueueRecord)
      (rs : List QueueRecord)
      → IsWellFormed q
      → q.next_record_id ≢ 0
      → e.record_id ≡ q.next_record_id
      → decode bytes ≡ some r
      → read_all st q.storage q.entries ≡ some rs
      → Restores st store q.capacity e.record_id r q.entries rs
          (restore_bound st e.record_id (write_record st q e.record_id bytes))
  enqueue_bytes-Restores q e bytes r rs w n i d k =
      restore_bound-Restores st store q.capacity e.record_id r q.entries rs _ low below w.positive
        w.bounded (write_record-IsShrunk st q e.record_id bytes).capacity
        (write_record-Writes st store q e.record_id bytes r q.entries rs low below d (refl, k))
    where
      nonzero : (n : ℕ) → n ≢ 0 → ceiling n ≡ n
      nonzero n h = ground arith

      low : Between 1 q.entries e.record_id
      low =
          subst (λ (n : ℕ). Between 1 q.entries n) (nonzero q.next_record_id n ∙ sym i) w.ascending

      below : e.record_id < 2 ^ 64
      below = omega (arith, i, w.next)

  enqueue_bytes-Enqueued :
      (q : DurableQueueCore S) (e : Entry) (r : QueueRecord) (rs : List QueueRecord)
      → IsWellFormed q
      → q.next_record_id ≢ 0
      → e.record_id ≡ q.next_record_id
      → IsStorable r
      → read_all st q.storage q.entries ≡ some rs
      → Enqueued st q.capacity rs r (enqueue_bytes st q e (encode r))
  unfolding enqueue_bytes
  enqueue_bytes-Enqueued q e r rs w n i v k =
      let (bytes, encoded, decoded, _) = decode-encode_record r v in
      rw encoded (
        append_entry-Enqueued q.capacity e r q.entries rs _
          (length-read_all st q.storage q.entries rs k)
          (enqueue_bytes-Restores q e bytes r rs w n i decoded k))

  enqueue_packet-Enqueued :
      (q : DurableQueueCore S) (r : QueueRecord) (t : Option TelemetryPacket)
      (rs : List QueueRecord)
      → IsWellFormed q
      → q.next_record_id ≢ 0
      → IsStorable (numbered q r)
      → read_all st q.storage q.entries ≡ some rs
      → Enqueued st q.capacity rs
          (numbered q r)
          ((enqueue_packet st q r t).0, (enqueue_packet st q r t).2)
  unfolding enqueue_packet entry_of Enqueued
  enqueue_packet-Enqueued q r none rs w n v k = inl k
  enqueue_packet-Enqueued q r (some t) rs w n v k =
      enqueue_bytes-Enqueued q (entry_of q.next_record_id t) (numbered q r) rs w n entry_id v k
    where
      entry_id : (entry_of q.next_record_id t).record_id ≡ q.next_record_id
      entry_id = refl

  -- Let the storage be atomic, the queue well formed, its records `rs`, and the new record storable
  -- under the next identifier. An enqueue that succeeds puts that record last, and drops the oldest
  -- record exactly where the queue was full. One that fails leaves the records, or a full queue
  -- without its oldest record.
  pub enqueue-pushed :
      (q : DurableQueueCore S) (r : QueueRecord) (rs : List QueueRecord)
      → IsWellFormed q
      → IsStorable (numbered q r)
      → read_all st q.storage q.entries ≡ some rs
      → Enqueued st q.capacity rs (numbered q r) ((enqueue st q r).0, (enqueue st q r).2)
  unfolding enqueue Enqueued
  enqueue-pushed q r rs w v k = elim (Bool-cases (q.next_record_id == 0)) [
    | inl h ↦ rw h (inl k)
    | inr h ↦ rw h (enqueue_packet-Enqueued q r (telemetry_of r) rs w (ground (arith, h)) v k)
  ]

module _ {S : Type 0} (st : QueueStorage S) where
  read_all-take :
      (s : S) (limit : ℕ) (es : List Entry) (rs : List QueueRecord)
      → read_all st s es ≡ some rs
      → read_all st s (take limit es) ≡ some (take limit rs)
  unfolding read_all with_first
  read_all-take s zero es rs h = refl
  read_all-take s (suc limit) [] rs h = rw⁻¹ (some-injective [] rs h) refl
  read_all-take s (suc limit) (e ∷ es) rs h = elim (Option-cases (stored_record st s e.record_id)) [
    | inl k ↦ ground (arith, k, h)
    | inr (r, k) ↦ elim (Option-cases (read_all st s es)) [
      | inl m ↦ ground (arith, k, m, h)
      | inr (rest, m) ↦ ground (arith, k, m, h, read_all-take s limit es rest m)
    ]
  ]

  -- Where the queue has the records `rs`, `peek` gives the first of them, in order and at most as many
  -- as the limit, and changes nothing.
  pub peek-take :
      (q : DurableQueueCore S) (limit : ℕ) (rs : List QueueRecord)
      → read_all st q.storage q.entries ≡ some rs
      → peek st q limit ≡ (q, take limit rs, true)
  unfolding peek or_no_records
  peek-take q limit rs h = rw (read_all-take q.storage limit q.entries rs h) refl
