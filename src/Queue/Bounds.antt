-- ===== src/Queue/Bounds.antt =====
-- lib/queue/durable_queue_core.cpp: the bound on the entries, and the order of their identifiers.
use gathra_gateway.Prelude.{
  ℕ, ◌+◌, ◌%◌, ◌^◌, ◌≤◌, ◌<◌, ◌≡◌, ◌≢◌, refl, sym, subst, ◌∙◌, Bool, true, false, List, [], ◌∷◌,
  ◌++◌, Option, none, some, arith, length, length-append, leb, ◌==◌, if◌then◌else◌, Bool-cases, inl,
  inr,
}
use gathra_gateway.Protocol.Types.{TelemetryPacket}
use gathra_gateway.Queue.Record.{QueueRecord, encode}
use gathra_gateway.Queue.Entries.{Entry, record_name, entry_of, telemetry_of, without, has_entry}
use gathra_gateway.Queue.Core.{
  QueueStorage, DurableQueueCore, QueueCoreStats, drop_oldest, write_again, write_record,
  or_remove_newest, restore_bound, append_entry, enqueue_bytes, enqueue_packet, enqueue, remove,
}

-- The identifiers ascend, the first is at least `low`, and all are below `high`.
abbrev pub Between : ℕ → List Entry → ℕ → Type 0
Between low [] high = low ≤ high
Between low (e ∷ es) high = (low ≤ e.record_id) × Between (e.record_id + 1) es high

-- The identifiers that may have been given out are below this. The next one is 0 after the last.
abbrev pub ceiling : ℕ → ℕ
ceiling next = if next == 0 then 2 ^ 64 else next

pub record IsWellFormed {S : Type 0} (q : DurableQueueCore S) : Type 0 where
  pub positive : 0 < q.capacity
  pub bounded : length q.entries ≤ q.capacity
  pub next : q.next_record_id < 2 ^ 64
  pub ascending : Between 1 q.entries (ceiling q.next_record_id)

pub Between-lower :
    (low low' : ℕ) (es : List Entry) (high : ℕ)
    → low' ≤ low
    → Between low es high
    → Between low' es high
Between-lower low low' [] high h b = omega arith
Between-lower low low' (e ∷ es) high h b = (omega (arith, b.0), b.1)

pub Between-append :
    (low : ℕ) (es : List Entry) (e : Entry) (high : ℕ)
    → Between low es e.record_id
    → e.record_id < high
    → Between low (es ++ (e ∷ [])) high
Between-append low [] e high b h = (b, omega arith)
Between-append low (x ∷ es) e high b h = (b.0, Between-append (x.record_id + 1) es e high b.1 h)

Between-without :
    (low record_id : ℕ) (es : List Entry) (high : ℕ)
    → Between low es high
    → Between low (without record_id es) high
unfolding without
Between-without low record_id [] high b = b
Between-without low record_id (x ∷ es) high b = elim (Bool-cases (x.record_id == record_id)) [
  | inl e ↦ rw e (Between-lower (x.record_id + 1) low es high (omega (arith, b.0)) b.1)
  | inr e ↦ rw e (b.0, Between-without (x.record_id + 1) record_id es high b.1)
]

length-without : (record_id : ℕ) (es : List Entry) → length (without record_id es) ≤ length es
unfolding without
length-without record_id [] = omega arith
length-without record_id (x ∷ es) = ground (arith, length-without record_id es)

-- The queue after a step that at most takes entries away.
pub record IsShrunk {S : Type 0} (q q' : DurableQueueCore S) : Type 0 where
  pub capacity : q'.capacity ≡ q.capacity
  pub next : q'.next_record_id ≡ q.next_record_id
  pub shorter : length q'.entries ≤ length q.entries
  pub between : (low high : ℕ) → Between low q.entries high → Between low q'.entries high

module _ {S : Type 0} where
  IsShrunk-same :
      (q q' : DurableQueueCore S)
      → q'.capacity ≡ q.capacity
      → q'.next_record_id ≡ q.next_record_id
      → q'.entries ≡ q.entries
      → IsShrunk q q'
  IsShrunk-same q q' c n e = record {
    capacity = c;
    next = n;
    shorter = rw e (omega arith);
    between = λ low high b. rw e b;
  }

  pub IsShrunk-trans : (a b c : DurableQueueCore S) → IsShrunk a b → IsShrunk b c → IsShrunk a c
  IsShrunk-trans a b c x y = record {
    capacity = omega (arith, x.capacity, y.capacity);
    next = omega (arith, x.next, y.next);
    shorter = omega (arith, x.shorter, y.shorter);
    between = λ low high h. y.between low high (x.between low high h);
  }

Between-tail :
    (low : ℕ) (x : Entry) (es : List Entry) (high : ℕ)
    → Between low (x ∷ es) high
    → Between low es high
Between-tail low x es high b = Between-lower (x.record_id + 1) low es high (omega (arith, b.0)) b.1

-- A step that at most takes entries away, and takes one away where it succeeds.
abbrev pub Drops : {S : Type 0} → DurableQueueCore S → DurableQueueCore S × Bool → Type 0
Drops q (q', done) = IsShrunk q q' × ((done ≡ true) → length q'.entries < length q.entries)

-- The queue may be as long as before, or it has room where the step succeeds.
abbrev MakesRoom : {S : Type 0} → DurableQueueCore S → DurableQueueCore S × Bool → Type 0
MakesRoom q (q', done) = IsShrunk q q' × ((done ≡ true) → length q'.entries < q.capacity)

module _ {S : Type 0} (st : QueueStorage S) where
  pub drop_oldest-Drops :
      (q : DurableQueueCore S) (es : List Entry) → q.entries ≡ es → Drops q (drop_oldest st q es)
  unfolding drop_oldest
  drop_oldest-Drops q [] e = (IsShrunk-same q q refl refl refl, λ h. ground arith)
  drop_oldest-Drops q (x ∷ es) e =
      elim (Bool-cases (st.remove_record q.storage (record_name x.record_id)).1) [
        | inl h ↦ rw h (
          record {
            capacity = refl;
            next = refl;
            shorter = rw e (omega arith);
            between = λ low high b.
                Between-tail low x es high (subst (λ (l : List Entry). Between low l high) e b);
          },
          λ k. rw e (omega arith),
        )
        | inr h ↦ rw h (IsShrunk-same q _ refl refl refl, λ k. ground arith)
      ]

  write_again-IsShrunk :
      (record_id : ℕ) (bytes : List ℕ) (q : DurableQueueCore S) (d : DurableQueueCore S × Bool)
      → IsShrunk q d.0
      → IsShrunk q (write_again st record_id bytes d).0
  unfolding write_again
  write_again-IsShrunk record_id bytes q (q', false) h = h
  write_again-IsShrunk record_id bytes q (q', true) h =
      IsShrunk-trans q q' _ h (IsShrunk-same q' _ refl refl refl)

  pub write_record-IsShrunk :
      (q : DurableQueueCore S) (record_id : ℕ) (bytes : List ℕ)
      → IsShrunk q (write_record st q record_id bytes).0
  unfolding write_record
  write_record-IsShrunk q record_id bytes =
      elim (Bool-cases (st.write_record_atomic q.storage record_id bytes).1) [
        | inl h ↦ rw h (IsShrunk-same q _ refl refl refl)
        | inr h ↦ elim (Bool-cases (leb q.capacity (length q.entries))) [
          | inl k ↦
              rw (h, k)
                (write_again-IsShrunk record_id bytes q _ (
                  IsShrunk-trans q _ _ (IsShrunk-same q _ refl refl refl)
                    (drop_oldest-Drops _ q.entries refl).0))
          | inr k ↦ rw (h, k) (IsShrunk-same q _ refl refl refl)
        ]
      ]

  or_remove_newest-Drops :
      (record_id : ℕ) (q : DurableQueueCore S) (d : DurableQueueCore S × Bool)
      → Drops q d
      → Drops q (or_remove_newest st record_id d)
  unfolding or_remove_newest
  or_remove_newest-Drops record_id q (q', true) h = h
  or_remove_newest-Drops record_id q (q', false) h =
      (IsShrunk-trans q q' _ h.0 (IsShrunk-same q' _ refl refl refl), λ k. ground arith)

  restore_bound-MakesRoom :
      (record_id : ℕ) (q : DurableQueueCore S) (d : DurableQueueCore S × Bool)
      → length q.entries ≤ q.capacity
      → IsShrunk q d.0
      → MakesRoom q (restore_bound st record_id d)
  unfolding restore_bound
  restore_bound-MakesRoom record_id q (q', false) h s = (s, λ k. ground arith)
  restore_bound-MakesRoom record_id q (q', true) h s =
      elim (Bool-cases (leb q'.capacity (length q'.entries))) [
        | inl k ↦
            rw k (
              IsShrunk-trans q q' _ s (dropped.0),
              λ done. omega (arith, dropped.1 done, s.shorter),
            )
        | inr k ↦ rw k (s, λ done. room (length q'.entries) q'.capacity q.capacity s.capacity k)
      ]
    where
      dropped : Drops q' (or_remove_newest st record_id (drop_oldest st q' q'.entries))
      dropped = or_remove_newest-Drops record_id q' _ (drop_oldest-Drops q' q'.entries refl)

      room : (a b c : ℕ) → b ≡ c → leb b a ≡ false → a < c
      room a b c e k = ground arith

  append_entry-IsWellFormed :
      (q : DurableQueueCore S) (e : Entry) (d : DurableQueueCore S × Bool)
      → IsWellFormed q
      → q.next_record_id ≢ 0
      → e.record_id ≡ q.next_record_id
      → MakesRoom q d
      → IsWellFormed (append_entry st e d).0
  unfolding append_entry
  append_entry-IsWellFormed q e (q', false) w n i (s, room) = record {
    positive = omega (arith, w.positive, s.capacity);
    bounded = omega (arith, w.bounded, s.shorter, s.capacity);
    next = omega (arith, w.next, s.next);
    ascending =
        subst (λ (n : ℕ). Between 1 q'.entries (ceiling n)) (sym s.next)
          (s.between 1 (ceiling q.next_record_id) w.ascending);
  }
  append_entry-IsWellFormed q e (q', true) w n i (s, room) = record {
    positive = omega (arith, w.positive, s.capacity);
    bounded = omega (arith, room refl, s.capacity, length-append q'.entries (e ∷ []));
    next = omega arith;
    ascending =
        Between-append 1 q'.entries e _ low
          (below e.record_id q.next_record_id q'.next_record_id i s.next w.next);
  }
    where
      nonzero : (n : ℕ) → n ≢ 0 → ceiling n ≡ n
      nonzero n h = ground arith

      low : Between 1 q'.entries e.record_id
      low =
          subst (λ (n : ℕ). Between 1 q'.entries n) (nonzero q.next_record_id n ∙ sym i)
            (s.between 1 (ceiling q.next_record_id) w.ascending)

      below :
          (id next next' : ℕ)
          → id ≡ next
          → next' ≡ next
          → next < 2 ^ 64
          → id < ceiling ((next' + 1) % 2 ^ 64)
      below id next next' e k h = ground arith

  enqueue_bytes-IsWellFormed :
      (q : DurableQueueCore S) (e : Entry) (bytes : Option (List ℕ))
      → IsWellFormed q
      → q.next_record_id ≢ 0
      → e.record_id ≡ q.next_record_id
      → IsWellFormed (enqueue_bytes st q e bytes).0
  unfolding enqueue_bytes
  enqueue_bytes-IsWellFormed q e none w n i = w
  enqueue_bytes-IsWellFormed q e (some bytes) w n i = append_entry-IsWellFormed q e _ w n i (
      restore_bound-MakesRoom e.record_id q _ w.bounded (write_record-IsShrunk q e.record_id bytes))

  enqueue_packet-IsWellFormed :
      (q : DurableQueueCore S) (r : QueueRecord) (t : Option TelemetryPacket)
      → IsWellFormed q
      → q.next_record_id ≢ 0
      → IsWellFormed (enqueue_packet st q r t).0
  unfolding enqueue_packet entry_of
  enqueue_packet-IsWellFormed q r none w n = w
  enqueue_packet-IsWellFormed q r (some telemetry) w n =
      enqueue_bytes-IsWellFormed q _ (encode (record r { record_id = q.next_record_id })) w n refl

  -- Whatever the storage answers, an enqueue keeps the queue well formed: at most as many entries as
  -- the capacity, identifiers that ascend from 1, and all of them below the next one.
  pub enqueue-IsWellFormed :
      (q : DurableQueueCore S) (r : QueueRecord) → IsWellFormed q → IsWellFormed (enqueue st q r).0
  unfolding enqueue
  enqueue-IsWellFormed q r w = elim (Bool-cases (q.next_record_id == 0)) [
    | inl h ↦ rw h (same q _ w)
    | inr h ↦ rw h (enqueue_packet-IsWellFormed q r (telemetry_of r) w (ground (arith, h)))
  ]
    where
      same :
          (q : DurableQueueCore S) (stats : QueueCoreStats)
          → IsWellFormed q
          → IsWellFormed (record q { stats = stats })
      same q stats w = record {
        positive = w.positive;
        bounded = w.bounded;
        next = w.next;
        ascending = w.ascending;
      }

  -- Whatever the storage answers, removing a record keeps the queue well formed.
  pub remove-IsWellFormed :
      (q : DurableQueueCore S) (record_id : ℕ)
      → IsWellFormed q
      → IsWellFormed (remove st q record_id).0
  unfolding remove
  remove-IsWellFormed q record_id w = elim (Bool-cases (has_entry record_id q.entries)) [
    | inr h ↦ rw h w
    | inl h ↦ elim (Bool-cases (st.remove_record q.storage (record_name record_id)).1) [
      | inl k ↦
          rw (h, k)
            (record {
              positive = w.positive;
              bounded = omega (arith, w.bounded, length-without record_id q.entries);
              next = w.next;
              ascending =
                  Between-without 1 record_id q.entries (ceiling q.next_record_id) w.ascending;
            })
      | inr k ↦
          rw (h, k)
            (record {
              positive = w.positive;
              bounded = w.bounded;
              next = w.next;
              ascending = w.ascending;
            })
    ]
  ]
