-- ===== src/Queue/Restart.antt =====
-- lib/queue/durable_queue_core.cpp: a recovered queue is well formed.
use gathra_gateway.Prelude.{
  ℕ, suc, ◌+◌, ◌%◌, ◌^◌, ◌≤◌, ◌<◌, ◌≡◌, ◌≢◌, refl, sym, subst, ◌∙◌, Bool, true, false, List, [],
  ◌∷◌, ◌++◌, Option, none, some, All, All-append, arith, length, ltb, leb, ltb→lt, if◌then◌else◌,
  Bool-cases, inl, inr,
}
use gathra_gateway.Protocol.Types.{TelemetryPacket}
use gathra_gateway.Queue.Entries.{Entry, record_name, entry_of, insert_entry, sort_entries}
use gathra_gateway.Queue.Core.{
  QueueStorage, DurableQueueCore, counted_drop, counted_corrupt, drop_oldest, stored_record,
}
use gathra_gateway.Queue.Bounds.{Between, Between-lower, ceiling, IsWellFormed}
use gathra_gateway.Queue.Recovery.{
  recoverable, recover_one, recover_all, trim, count_recovered, sort_and_trim, recover_listed,
  recover,
}

-- No entry has this identifier.
abbrev IsNew : ℕ → List Entry → Type 0
IsNew record_id es = All (λ (e : Entry). e.record_id ≢ record_id) es

abbrev IsDistinct : List Entry → Type 0
IsDistinct [] = Unit
IsDistinct (e ∷ es) = IsNew e.record_id es × IsDistinct es

-- The identifiers of files are names in one directory, so no two are equal.
abbrev pub AreDistinct : List ℕ → Type 0
AreDistinct [] = Unit
AreDistinct (i ∷ ids) = All (λ (j : ℕ). j ≢ i) ids × AreDistinct ids

abbrev IsWithin : ℕ → List Entry → Type 0
IsWithin next es = All (λ (e : Entry). (1 ≤ e.record_id) × (e.record_id < next)) es

All-insert_entry :
    (P : Entry → Type 0) (e : Entry) (es : List Entry) → P e → All P es → All P (insert_entry e es)
unfolding insert_entry
All-insert_entry P e [] p h = (p, tt)
All-insert_entry P e (x ∷ es) p h = elim (Bool-cases (ltb e.record_id x.record_id)) [
  | inl k ↦ rw k (p, h)
  | inr k ↦ rw k (h.0, All-insert_entry P e es p h.1)
]

All-sort_entries : (P : Entry → Type 0) (es : List Entry) → All P es → All P (sort_entries es)
unfolding sort_entries
All-sort_entries P [] h = tt
All-sort_entries P (e ∷ es) h =
    All-insert_entry P e (sort_entries es) h.0 (All-sort_entries P es h.1)

Between-insert_entry :
    (low : ℕ) (e : Entry) (es : List Entry) (high : ℕ)
    → low ≤ e.record_id
    → e.record_id < high
    → IsNew e.record_id es
    → Between low es high
    → Between low (insert_entry e es) high
unfolding insert_entry
Between-insert_entry low e [] high l h n b = (l, omega (arith, h))
Between-insert_entry low e (x ∷ es) high l h n b = elim (Bool-cases (ltb e.record_id x.record_id)) [
  | inl k ↦ rw k (l, (omega (arith, ltb→lt e.record_id x.record_id k), b.1))
  | inr k ↦ rw k (
    b.0,
    Between-insert_entry (x.record_id + 1) e es high (above e.record_id x.record_id n.0 k) h n.1
        b.1,
  )
]
  where
    above : (a c : ℕ) → c ≢ a → ltb a c ≡ false → c + 1 ≤ a
    above a c n k = ground arith

Between-sort_entries :
    (es : List Entry) (next : ℕ)
    → 0 < next
    → IsDistinct es
    → IsWithin next es
    → Between 1 (sort_entries es) next
unfolding sort_entries
Between-sort_entries [] next p d w = p
Between-sort_entries (e ∷ es) next p d w =
    Between-insert_entry 1 e (sort_entries es) next w.0.0 w.0.1
      (All-sort_entries (λ (x : Entry). x.record_id ≢ e.record_id) es d.0)
      (Between-sort_entries es next p d.1 w.1)

IsDistinct-append :
    (es : List Entry) (e : Entry)
    → IsDistinct es
    → IsNew e.record_id es
    → IsDistinct (es ++ (e ∷ []))
IsDistinct-append [] e d n = (tt, tt)
IsDistinct-append (x ∷ es) e d n =
    (All-append _ es (e ∷ []) d.0 ((λ q. n.0 (sym q)), tt), IsDistinct-append es e d.1 n.1)

IsWithin-grow :
    (next next' : ℕ) (es : List Entry) → next ≤ next' → IsWithin next es → IsWithin next' es
IsWithin-grow next next' [] h w = tt
IsWithin-grow next next' (e ∷ es) h w =
    ((w.0.0, omega (arith, w.0.1)), IsWithin-grow next next' es h w.1)

-- What the loop over the files keeps: the entries are distinct and below the next identifier, and the
-- files that are left have other identifiers.
record IsRecovering {S : Type 0} (q : DurableQueueCore S) (ids : List ℕ) : Type 0 where
  next : q.next_record_id < 2 ^ 64
  started : 0 < q.next_record_id
  distinct : IsDistinct q.entries
  within : IsWithin q.next_record_id q.entries
  others : All (λ (i : ℕ). IsNew i q.entries) ids

others-append :
    (es : List Entry) (e : Entry) (ids : List ℕ)
    → All (λ (i : ℕ). IsNew i es) ids
    → All (λ (j : ℕ). j ≢ e.record_id) ids
    → All (λ (i : ℕ). IsNew i (es ++ (e ∷ []))) ids
others-append es e [] h k = tt
others-append es e (i ∷ ids) h k =
    (All-append _ es (e ∷ []) h.0 ((λ q. k.0 (sym q)), tt), others-append es e ids h.1 k.1)

module _ {S : Type 0} (st : QueueStorage S) where
  recover_one-IsRecovering :
      (q : DurableQueueCore S) (listed : ℕ) (ids : List ℕ) (t : Option TelemetryPacket)
      → 0 < listed
      → listed + 1 < 2 ^ 64
      → All (λ (j : ℕ). j ≢ listed) ids
      → IsRecovering q (listed ∷ ids)
      → IsRecovering (recover_one st q listed t) ids
  unfolding recover_one entry_of
  recover_one-IsRecovering q listed ids none p h n v = record {
    next = v.next;
    started = v.started;
    distinct = v.distinct;
    within = v.within;
    others = v.others.1;
  }
  recover_one-IsRecovering q listed ids (some t) p h n v = record {
    next = grows.0;
    started = omega (arith, grows.1, v.started);
    distinct = IsDistinct-append q.entries (entry_of listed t) v.distinct v.others.0;
    within =
        All-append _ q.entries (entry_of listed t ∷ [])
          (IsWithin-grow q.next_record_id _ q.entries grows.1 v.within)
          ((omega arith, grows.2), tt);
    others = others-append q.entries (entry_of listed t) ids v.others.1 n;
  }
    where
      grows :
          ((if leb q.next_record_id listed then (listed + 1) % 2 ^ 64 else q.next_record_id)
            < 2 ^ 64)
          × (q.next_record_id
              ≤ (if leb q.next_record_id listed then (listed + 1) % 2 ^ 64 else q.next_record_id))
          × (listed
              < (if leb q.next_record_id listed then (listed + 1) % 2 ^ 64 else q.next_record_id))
      grows = ground (arith, v.next)

  recover_all-IsRecovering :
      (q : DurableQueueCore S) (ids : List ℕ)
      → All (λ (i : ℕ). (0 < i) × (i + 1 < 2 ^ 64)) ids
      → AreDistinct ids
      → IsRecovering q ids
      → IsRecovering (recover_all st q ids) []
  unfolding recover_all
  recover_all-IsRecovering q [] h n v = v
  recover_all-IsRecovering q (listed ∷ ids) h n v =
      recover_all-IsRecovering (recover_one st q listed _) ids h.1 n.1 (
        recover_one-IsRecovering q listed ids
          (recoverable st listed (stored_record st q.storage listed)) h.0.0 h.0.1 n.0 v)

  recover_one-capacity :
      (q : DurableQueueCore S) (listed : ℕ) (t : Option TelemetryPacket)
      → (recover_one st q listed t).capacity ≡ q.capacity
  unfolding recover_one
  recover_one-capacity q listed none = refl
  recover_one-capacity q listed (some t) = refl

  recover_all-capacity :
      (q : DurableQueueCore S) (ids : List ℕ) → (recover_all st q ids).capacity ≡ q.capacity
  unfolding recover_all
  recover_all-capacity q [] = refl
  recover_all-capacity q (listed ∷ ids) =
      recover_all-capacity (recover_one st q listed _) ids
      ∙ recover_one-capacity q listed (recoverable st listed (stored_record st q.storage listed))

  -- The trim keeps a sorted queue, and ends within the capacity where it succeeds.
  trim-IsWellFormed :
      (es : List Entry) (q : DurableQueueCore S)
      → q.entries ≡ es
      → 0 < q.capacity
      → q.next_record_id < 2 ^ 64
      → Between 1 es (ceiling q.next_record_id)
      → (trim st es q).1 ≡ true
      → IsWellFormed (trim st es q).0
  unfolding trim drop_oldest
  trim-IsWellFormed [] q e p n b = λ h. record {
    positive = p;
    bounded = rw e (omega arith);
    next = n;
    ascending = subst (λ (l : List Entry). Between 1 l (ceiling q.next_record_id)) (sym e) b;
  }
  trim-IsWellFormed (x ∷ es) q e p n b = elim (Bool-cases (ltb q.capacity (suc (length es)))) [
    | inr k ↦ rw k (λ h. record {
      positive = p;
      bounded = rw e (fits q.capacity (suc (length es)) k);
      next = n;
      ascending = subst (λ (l : List Entry). Between 1 l (ceiling q.next_record_id)) (sym e) b;
    })
    | inl k ↦ elim (Bool-cases (st.remove_record q.storage (record_name x.record_id)).1) [
      | inl r ↦
          rw (k, r)
            (trim-IsWellFormed es
              (record q {
                storage = (st.remove_record q.storage (record_name x.record_id)).0;
                entries = es;
                stats = counted_drop q.stats;
              })
              refl p n (Between-lower (x.record_id + 1) 1 es _ (omega arith) b.1))
      | inr r ↦ rw (k, r) (λ h. absurd (ground arith))
    ]
  ]
    where
      fits : (c n : ℕ) → ltb c n ≡ false → n ≤ c
      fits c n k = ground arith

  counted_recovery :
      (d : DurableQueueCore S × Bool)
      → ((d.1 ≡ true) → IsWellFormed d.0)
      → (count_recovered st d).1 ≡ true
      → IsWellFormed (count_recovered st d).0
  unfolding count_recovered
  counted_recovery (q, false) w h = absurd (ground arith)
  counted_recovery (q, true) w h =
      let v = w refl in
      record { positive = v.positive; bounded = v.bounded; next = v.next; ascending = v.ascending }

  sort_and_trim-IsWellFormed :
      (q : DurableQueueCore S)
      → 0 < q.capacity
      → IsRecovering q []
      → (sort_and_trim st q).1 ≡ true
      → IsWellFormed (sort_and_trim st q).0
  unfolding sort_and_trim
  sort_and_trim-IsWellFormed q p v = counted_recovery _ (
      trim-IsWellFormed (sort_entries q.entries) (record q { entries = sort_entries q.entries })
        refl p v.next
        (subst (λ (n : ℕ). Between 1 (sort_entries q.entries) n)
          (sym (nonzero q.next_record_id v.started))
          (Between-sort_entries q.entries q.next_record_id v.started v.distinct v.within)))
    where
      nonzero : (n : ℕ) → 0 < n → ceiling n ≡ n
      nonzero n h = ground arith

  recover_listed-IsWellFormed :
      (q : DurableQueueCore S) (ids : List ℕ) (corrupt_names : ℕ)
      → 0 < q.capacity
      → q.entries ≡ []
      → q.next_record_id ≡ 1
      → All (λ (i : ℕ). (0 < i) × (i + 1 < 2 ^ 64)) ids
      → AreDistinct ids
      → (recover_listed st q (some (ids, corrupt_names))).1 ≡ true
      → IsWellFormed (recover_listed st q (some (ids, corrupt_names))).0
  unfolding recover_listed
  recover_listed-IsWellFormed q ids corrupt_names p e o h n =
      sort_and_trim-IsWellFormed (recover_all st start ids)
        (omega (arith, recover_all-capacity start ids, p))
        (recover_all-IsRecovering start ids h n (record {
          next = omega (arith, o);
          started = omega (arith, o);
          distinct = rw e tt;
          within = rw e tt;
          others = rw e (fresh ids);
        }))
    where
      start : DurableQueueCore S
      start = record q { stats = counted_corrupt q.stats corrupt_names }

      fresh : (ids : List ℕ) → All (λ (i : ℕ). IsNew i []) ids
      fresh [] = tt
      fresh (i ∷ ids) = (tt, fresh ids)

  -- Let the storage list distinct identifiers that are neither 0 nor the last one of 64 bits. A
  -- recovery that succeeds gives a well-formed queue, whatever the files hold: at most as many entries
  -- as the capacity, in ascending order, and the next identifier above all of them.
  pub recover-IsWellFormed :
      (q : DurableQueueCore S) (ids : List ℕ) (corrupt_names : ℕ)
      → 0 < q.capacity
      → (st.list_record_ids (st.cleanup_temporary_files q.storage)).1 ≡ some (ids, corrupt_names)
      → All (λ (i : ℕ). (0 < i) × (i + 1 < 2 ^ 64)) ids
      → AreDistinct ids
      → (recover st q).1 ≡ true
      → IsWellFormed (recover st q).0
  unfolding recover
  recover-IsWellFormed q ids corrupt_names p e h n =
      rw e (recover_listed-IsWellFormed _ ids corrupt_names p refl refl h n)
