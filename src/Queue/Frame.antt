-- ===== src/Queue/Frame.antt =====
-- lib/queue/durable_queue_core.cpp: the records of the entries while other files change.
use gathra_gateway.Prelude.{
  ℕ, ◌≡◌, ◌≢◌, inl, inr, false, List, [], ◌∷◌, ◌++◌, some, All, arith, drop, Option-cases,
}
use gathra_gateway.Queue.Record.{QueueRecord}
use gathra_gateway.Queue.Entries.{Entry, record_name}
use gathra_gateway.Queue.Core.{QueueStorage, DurableQueueCore, stored_record, read_all, with_first}
use gathra_gateway.Queue.Storage.{IsStore, same_records}

-- The queue has the entries `es` and their records `rs`.
abbrev pub Shows :
    {S : Type 0} → QueueStorage S → DurableQueueCore S → List Entry → List QueueRecord → Type 0
Shows st q es rs = (q.entries ≡ es) × (read_all st q.storage es ≡ some rs)

module _ {S : Type 0} (st : QueueStorage S) (store : IsStore st) where
  -- What reads do after a change of other files.
  pub after_removal :
      (s : S) (name : List ℕ) (es : List Entry)
      → All (λ (e : Entry). record_name e.record_id ≢ name) es
      → read_all st (st.remove_record s name).0 es ≡ read_all st s es
  after_removal s name es h = same_records st s _ es (beside es h)
    where
      beside :
          (es : List Entry)
          → All (λ (e : Entry). record_name e.record_id ≢ name) es
          → All
              (λ (e : Entry).
                st.read_record (st.remove_record s name).0 (record_name e.record_id)
                ≡ st.read_record s (record_name e.record_id))
              es
      beside [] h = tt
      beside (e ∷ es) h = (store.beside_removal s name (record_name e.record_id) h.0, beside es h.1)

  pub after_failed_removal :
      (s : S) (name : List ℕ) (es : List Entry)
      → (st.remove_record s name).1 ≡ false
      → read_all st (st.remove_record s name).0 es ≡ read_all st s es
  after_failed_removal s name es f = same_records st s _ es (untouched es)
    where
      untouched :
          (es : List Entry)
          → All
              (λ (e : Entry).
                st.read_record (st.remove_record s name).0 (record_name e.record_id)
                ≡ st.read_record s (record_name e.record_id))
              es
      untouched [] = tt
      untouched (e ∷ es) = (store.unremoved s name (record_name e.record_id) f, untouched es)

  pub after_write :
      (s : S) (record_id : ℕ) (bytes : List ℕ) (es : List Entry)
      → All (λ (e : Entry). record_name e.record_id ≢ record_name record_id) es
      → read_all st (st.write_record_atomic s record_id bytes).0 es ≡ read_all st s es
  after_write s record_id bytes es h = same_records st s _ es (beside es h)
    where
      beside :
          (es : List Entry)
          → All (λ (e : Entry). record_name e.record_id ≢ record_name record_id) es
          → All
              (λ (e : Entry).
                st.read_record
                  (st.write_record_atomic s record_id bytes).0
                  (record_name e.record_id)
                ≡ st.read_record s (record_name e.record_id))
              es
      beside [] h = tt
      beside (e ∷ es) h =
          (store.beside_write s record_id bytes (record_name e.record_id) h.0, beside es h.1)

  pub tail_records :
      (s : S) (e : Entry) (es : List Entry) (rs : List QueueRecord)
      → read_all st s (e ∷ es) ≡ some rs
      → read_all st s es ≡ some (drop 1 rs)
  unfolding read_all with_first
  tail_records s e es rs h = elim (Option-cases (stored_record st s e.record_id)) [
    | inl k ↦ ground (arith, k, h)
    | inr (r, k) ↦ elim (Option-cases (read_all st s es)) [
      | inl m ↦ ground (arith, k, m, h)
      | inr (rest, m) ↦ ground (arith, k, m, h)
    ]
  ]

  pub append_record :
      (s : S) (es : List Entry) (e : Entry) (rs : List QueueRecord) (r : QueueRecord)
      → read_all st s es ≡ some rs
      → stored_record st s e.record_id ≡ some r
      → read_all st s (es ++ (e ∷ [])) ≡ some (rs ++ (r ∷ []))
  unfolding read_all with_first
  append_record s [] e rs r h k = ground (arith, h, k)
  append_record s (x ∷ es) e rs r h k = elim (Option-cases (stored_record st s x.record_id)) [
    | inl m ↦ ground (arith, m, h)
    | inr (a, m) ↦ elim (Option-cases (read_all st s es)) [
      | inl n ↦ ground (arith, m, n, h)
      | inr (rest, n) ↦ ground (arith, m, n, h, append_record s es e rest r n k)
    ]
  ]
