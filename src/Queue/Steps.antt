-- ===== src/Queue/Steps.antt =====
-- lib/queue/durable_queue_core.cpp: the steps of `enqueue`, from the write to the restored bound.
use gathra_gateway.Prelude.{
  ℕ, ◌+◌, ◌^◌, ◌≤◌, ◌<◌, ◌≡◌, refl, sym, ap, subst, ◌∙◌, ◌⊎◌, inl, inr, Bool, true, false, List, [],
  ◌∷◌, some, arith, length, drop, leb, leb→le, Bool-cases,
}
use gathra_gateway.Queue.Record.{QueueRecord, decode}
use gathra_gateway.Queue.Entries.{Entry, record_name}
use gathra_gateway.Queue.Core.{
  QueueStorage, DurableQueueCore, decode_file, stored_record, drop_oldest, write_again,
  write_record, or_remove_newest, restore_bound,
}
use gathra_gateway.Queue.Bounds.{Between, Between-lower}
use gathra_gateway.Queue.Storage.{IsStore, other_names, other_name, same_record, Between-le}
use gathra_gateway.Queue.Frame.{
  Shows, after_removal, after_failed_removal, after_write, tail_records,
}

-- After a step the queue shows what it showed, or it was full and lost its oldest record.
pub data Kept {S : Type 0} (st : QueueStorage S) (capacity : ℕ) (es : List Entry)
    (rs : List QueueRecord) (q : DurableQueueCore S) : Type 0 where
  same : Shows st q es rs → Kept st capacity es rs q
  lost : capacity ≤ length es → Shows st q (drop 1 es) (drop 1 rs) → Kept st capacity es rs q

module _ {S : Type 0} (st : QueueStorage S) (store : IsStore st) where
  -- One removal of the oldest entry.
  drop_oldest_effect :
      (q : DurableQueueCore S) (es : List Entry) (rs : List QueueRecord) (high : ℕ)
      → Between 1 es high
      → high ≤ 2 ^ 64
      → Shows st q es rs
      → ((drop_oldest st q q.entries).1 ≡ true)
          × Shows st (drop_oldest st q q.entries).0 (drop 1 es) (drop 1 rs)
        ⊎ ((drop_oldest st q q.entries).1 ≡ false) × Shows st (drop_oldest st q q.entries).0 es rs
  unfolding drop_oldest
  drop_oldest_effect q [] rs high b h (e, k) = rw e (inr (refl, (refl, k)))
  drop_oldest_effect q (x ∷ es) rs high b h (e, k) =
      elim (Bool-cases (st.remove_record q.storage (record_name x.record_id)).1) [
        | inl removed ↦
            rw (e, removed)
              (inl (
                refl,
                (
                  refl,
                  after_removal st store q.storage (record_name x.record_id) es (
                        other_names (x.record_id + 1) es high x.record_id b.1 h
                          (omega (arith, h, Between-le (x.record_id + 1) es high b.1))
                          (inl (omega arith)))
                      ∙ tail_records st store q.storage x es rs k,
                ),
              ))
        | inr removed ↦
            rw (e, removed)
              (inr (
                refl,
                (
                  refl,
                  after_failed_removal st store q.storage (record_name x.record_id) (x ∷ es) removed
                      ∙ k,
                ),
              ))
      ]

  -- The record with this identifier is on the storage.
  abbrev Stored : DurableQueueCore S → ℕ → QueueRecord → Type 0
  Stored q record_id r = stored_record st q.storage record_id ≡ some r

  write_effect :
      (q : DurableQueueCore S) (record_id : ℕ) (bytes : List ℕ) (r : QueueRecord) (es : List Entry)
      (rs : List QueueRecord)
      → Between 1 es record_id
      → record_id < 2 ^ 64
      → decode bytes ≡ some r
      → Shows st q es rs
      → Shows st (record q { storage = (st.write_record_atomic q.storage record_id bytes).0 }) es rs
        × (((st.write_record_atomic q.storage record_id bytes).1 ≡ true)
            → stored_record st (st.write_record_atomic q.storage record_id bytes).0 record_id
              ≡ some r)
  unfolding stored_record decode_file
  write_effect q record_id bytes r es rs b h d (e, k) = (
    (
      e,
      after_write st store q.storage record_id bytes es
            (other_names 1 es record_id record_id b (omega arith) h (inr (omega arith)))
          ∙ k,
    ),
    λ w. ap (decode_file st) (store.written q.storage record_id bytes w) ∙ d,
  )

  -- The write, with its second try.
  unfoldable pub Writes :
      ℕ → ℕ → QueueRecord → List Entry → List QueueRecord → DurableQueueCore S × Bool → Type 0
  Writes capacity record_id r es rs (q, done) =
      Kept st capacity es rs q × ((done ≡ true) → stored_record st q.storage record_id ≡ some r)

  Between-drop :
      (low : ℕ) (es : List Entry) (high : ℕ) → Between low es high → Between low (drop 1 es) high
  Between-drop low [] high b = b
  Between-drop low (x ∷ es) high b =
      Between-lower (x.record_id + 1) low es high (omega (arith, b.0)) b.1

  write_again-Writes :
      (capacity record_id : ℕ) (bytes : List ℕ) (r : QueueRecord) (es : List Entry)
      (rs : List QueueRecord) (d : DurableQueueCore S × Bool)
      → Between 1 es record_id
      → record_id < 2 ^ 64
      → decode bytes ≡ some r
      → capacity ≤ length es
      → (d.1 ≡ true) × Shows st d.0 (drop 1 es) (drop 1 rs) ⊎ (d.1 ≡ false) × Shows st d.0 es rs
      → Writes capacity record_id r es rs (write_again st record_id bytes d)
  unfolding write_again Writes
  write_again-Writes capacity record_id bytes r es rs (q, true) b h d full (inr (f, k)) =
      absurd (ground arith)
  write_again-Writes capacity record_id bytes r es rs (q, false) b h d full (inl (f, k)) =
      absurd (ground arith)
  write_again-Writes capacity record_id bytes r es rs (q, false) b h d full (inr (f, k)) =
      (same k, λ done. ground arith)
  write_again-Writes capacity record_id bytes r es rs (q, true) b h d full (inl (f, k)) =
      let effect =
        write_effect q record_id bytes r (drop 1 es) (drop 1 rs) (Between-drop 1 es record_id b) h d
          k in
      (lost full effect.0, effect.1)

  pub write_record-Writes :
      (q : DurableQueueCore S) (record_id : ℕ) (bytes : List ℕ) (r : QueueRecord) (es : List Entry)
      (rs : List QueueRecord)
      → Between 1 es record_id
      → record_id < 2 ^ 64
      → decode bytes ≡ some r
      → Shows st q es rs
      → Writes q.capacity record_id r es rs (write_record st q record_id bytes)
  unfolding write_record Writes
  write_record-Writes q record_id bytes r es rs b h d k =
      elim (Bool-cases (st.write_record_atomic q.storage record_id bytes).1) [
        | inl w ↦ rw w (same first.0, λ done. first.1 w)
        | inr w ↦ elim (Bool-cases (leb q.capacity (length q.entries))) [
          | inr f ↦ rw (w, f) (same first.0, λ done. ground arith)
          | inl f ↦
              rw (w, f)
                (write_again-Writes q.capacity record_id bytes r es rs _ b h d
                  (omega
                    (arith, leb→le q.capacity (length q.entries) f, ap (length {A = Entry}) k.0))
                  (drop_oldest_effect
                    (record q { storage = (st.write_record_atomic q.storage record_id bytes).0 }) es
                    rs record_id b (omega arith) first.0))
        ]
      ]
    where
      first :
          Shows st
            (record q { storage = (st.write_record_atomic q.storage record_id bytes).0 })
            es
            rs
          × (((st.write_record_atomic q.storage record_id bytes).1 ≡ true)
              → stored_record st (st.write_record_atomic q.storage record_id bytes).0 record_id
                ≡ some r)
      first = write_effect q record_id bytes r es rs b h d k

  -- The bound restored: what was shown is shown, or without the oldest where that made a full queue
  -- fit; the new record stays.
  unfoldable pub Restores :
      ℕ → ℕ → QueueRecord → List Entry → List QueueRecord → DurableQueueCore S × Bool → Type 0
  Restores capacity record_id r es rs (q, done) =
      Kept st capacity es rs q
      × ((done ≡ true)
          → (stored_record st q.storage record_id ≡ some r) × (length q.entries < capacity))

  shorter :
      (es : List Entry) (capacity : ℕ)
      → 0 < capacity
      → length es ≤ capacity
      → length (drop 1 es) < capacity
  shorter [] capacity p h = omega arith
  shorter (x ∷ es) capacity p h = omega arith

  drop_oldest-Stored :
      (q : DurableQueueCore S) (es : List Entry) (record_id : ℕ)
      → Between 1 es record_id
      → record_id < 2 ^ 64
      → stored_record st (drop_oldest st q es).0.storage record_id
        ≡ stored_record st q.storage record_id
  unfolding drop_oldest
  drop_oldest-Stored q [] record_id b h = refl
  drop_oldest-Stored q (x ∷ es) record_id b h =
      elim (Bool-cases (st.remove_record q.storage (record_name x.record_id)).1) [
        | inl k ↦ rw k kept
        | inr k ↦ rw k kept
      ]
    where
      above : x.record_id + 1 ≤ record_id
      above = Between-le (x.record_id + 1) es record_id b.1

      kept :
          stored_record st (st.remove_record q.storage (record_name x.record_id)).0 record_id
          ≡ stored_record st q.storage record_id
      kept = same_record st q.storage _ record_id (
          store.beside_removal q.storage (record_name x.record_id) (record_name record_id) (
            other_name record_id x.record_id h (omega (arith, above, h))
              (λ e. omega (arith, e, above))))

  or_remove_newest-Restores :
      (capacity record_id : ℕ) (r : QueueRecord) (es : List Entry) (rs : List QueueRecord)
      (d : DurableQueueCore S × Bool)
      → Between 1 es record_id
      → record_id < 2 ^ 64
      → 0 < capacity
      → length es ≤ capacity
      → capacity ≤ length es
      → stored_record st d.0.storage record_id ≡ some r
      → (d.1 ≡ true) × Shows st d.0 (drop 1 es) (drop 1 rs) ⊎ (d.1 ≡ false) × Shows st d.0 es rs
      → Restores capacity record_id r es rs (or_remove_newest st record_id d)
  unfolding or_remove_newest Restores
  or_remove_newest-Restores capacity record_id r es rs (q, true) b h p l full t (inr (f, k)) =
      absurd (ground arith)
  or_remove_newest-Restores capacity record_id r es rs (q, false) b h p l full t (inl (f, k)) =
      absurd (ground arith)
  or_remove_newest-Restores capacity record_id r es rs (q, true) b h p l full t (inl (f, k)) =
      (lost full k, λ done. (t, rw k.0 (shorter es capacity p l)))
  or_remove_newest-Restores capacity record_id r es rs (q, false) b h p l full t (inr (f, k)) = (
    same (
      k.0,
      after_removal st store q.storage (record_name record_id) es
            (other_names 1 es record_id record_id b (omega arith) h (inr (omega arith)))
          ∙ k.1,
    ),
    λ done. ground arith,
  )

  pub restore_bound-Restores :
      (capacity record_id : ℕ) (r : QueueRecord) (es : List Entry) (rs : List QueueRecord)
      (d : DurableQueueCore S × Bool)
      → Between 1 es record_id
      → record_id < 2 ^ 64
      → 0 < capacity
      → length es ≤ capacity
      → d.0.capacity ≡ capacity
      → Writes capacity record_id r es rs d
      → Restores capacity record_id r es rs (restore_bound st record_id d)
  unfolding restore_bound Restores Writes
  restore_bound-Restores capacity record_id r es rs (q, false) b h p l c (k, t) =
      (k, λ done. ground arith)
  restore_bound-Restores capacity record_id r es rs (q, true) b h p l c (lost full k, t) =
      rw (room q.capacity (length q.entries) capacity c fits) (lost full k, λ done. (t refl, fits))
    where
      fits : length q.entries < capacity
      fits = rw k.0 (shorter es capacity p l)

      room : (a n c : ℕ) → a ≡ c → n < c → leb a n ≡ false
      room a n c e k = ground arith
  restore_bound-Restores capacity record_id r es rs (q, true) b h p l c (same k, t) =
      elim (Bool-cases (leb q.capacity (length q.entries))) [
        | inr f ↦ rw f (same k, λ done. (t refl, room q.capacity (length q.entries) capacity c f))
        | inl f ↦ rw f (
            or_remove_newest-Restores capacity record_id r es rs (drop_oldest st q q.entries) b h p
              l
              (omega
                (arith, c, leb→le q.capacity (length q.entries) f, ap (length {A = Entry}) k.0))
              (stays ∙ t refl) (drop_oldest_effect q es rs record_id b (omega arith) k))
      ]
    where
      room : (a n c : ℕ) → a ≡ c → leb a n ≡ false → n < c
      room a n c e k = ground arith

      stays :
          stored_record st (drop_oldest st q q.entries).0.storage record_id
          ≡ stored_record st q.storage record_id
      stays =
          drop_oldest-Stored q q.entries record_id
            (subst (λ (l : List Entry). Between 1 l record_id) (sym k.0) b) h
