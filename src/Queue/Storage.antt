-- ===== src/Queue/Storage.antt =====
-- lib/queue/durable_queue_core.hpp: what the queue asks of its storage, and what the records of the
-- entries are while the storage changes.
use gathra_gateway.Prelude.{
  ℕ, ◌+◌, ◌^◌, ◌≤◌, ◌<◌, ◌≡◌, ◌≢◌, refl, ap, ap₂, ◌⊎◌, inl, inr, true, false, List, [], ◌∷◌, some,
  All, arith, some-injective, length, Option-cases,
}
use gathra_gateway.Queue.Record.{QueueRecord}
use gathra_gateway.Queue.Entries.{Entry, record_name}
use gathra_gateway.Queue.Core.{QueueStorage, decode_file, stored_record, read_all, with_first}
use gathra_gateway.Queue.Names.{record_name-injective}
use gathra_gateway.Queue.Bounds.{Between}

-- A write is atomic: it stores the whole file, or it changes no file. It touches only its own file,
-- and so does a removal; a removal that fails changes nothing.
pub record IsStore {S : Type 0} (st : QueueStorage S) : Type 0 where
  pub written :
      (s : S) (record_id : ℕ) (bytes : List ℕ)
      → (st.write_record_atomic s record_id bytes).1 ≡ true
      → st.read_record (st.write_record_atomic s record_id bytes).0 (record_name record_id)
        ≡ some bytes
  pub unwritten :
      (s : S) (record_id : ℕ) (bytes name : List ℕ)
      → (st.write_record_atomic s record_id bytes).1 ≡ false
      → st.read_record (st.write_record_atomic s record_id bytes).0 name ≡ st.read_record s name
  pub beside_write :
      (s : S) (record_id : ℕ) (bytes name : List ℕ)
      → name ≢ record_name record_id
      → st.read_record (st.write_record_atomic s record_id bytes).0 name ≡ st.read_record s name
  pub unremoved :
      (s : S) (removed name : List ℕ)
      → (st.remove_record s removed).1 ≡ false
      → st.read_record (st.remove_record s removed).0 name ≡ st.read_record s name
  pub beside_removal :
      (s : S) (removed name : List ℕ)
      → name ≢ removed
      → st.read_record (st.remove_record s removed).0 name ≡ st.read_record s name

pub other_name : (a b : ℕ) → a < 2 ^ 64 → b < 2 ^ 64 → a ≢ b → record_name a ≢ record_name b
other_name a b ha hb n e = n (record_name-injective a b ha hb e)

pub Between-le : (low : ℕ) (es : List Entry) (high : ℕ) → Between low es high → low ≤ high
Between-le low [] high b = b
Between-le low (e ∷ es) high b = omega (arith, b.0, Between-le (e.record_id + 1) es high b.1)

-- Entries whose identifiers are on one side of another identifier have other files.
pub other_names :
    (low : ℕ) (es : List Entry) (high record_id : ℕ)
    → Between low es high
    → high ≤ 2 ^ 64
    → record_id < 2 ^ 64
    → (record_id < low) ⊎ (high ≤ record_id)
    → All (λ (e : Entry). record_name e.record_id ≢ record_name record_id) es
other_names low [] high record_id b h k side = tt
other_names low (e ∷ es) high record_id b h k side = (
  other_name e.record_id record_id (omega (arith, Between-le (e.record_id + 1) es high b.1)) k
      (outside b.0 (Between-le (e.record_id + 1) es high b.1) side),
  other_names (e.record_id + 1) es high record_id b.1 h k (beside b.0 side),
)
  where
    outside :
        (low ≤ e.record_id)
        → e.record_id + 1 ≤ high
        → (record_id < low) ⊎ (high ≤ record_id)
        → e.record_id ≢ record_id
    outside a c (inl l) q = omega arith
    outside a c (inr l) q = omega arith

    beside :
        (low ≤ e.record_id)
        → (record_id < low) ⊎ (high ≤ record_id)
        → (record_id < e.record_id + 1) ⊎ (high ≤ record_id)
    beside a (inl l) = inl (omega arith)
    beside a (inr l) = inr l

module _ {S : Type 0} (st : QueueStorage S) where
  pub same_record :
      (s s' : S) (record_id : ℕ)
      → st.read_record s' (record_name record_id) ≡ st.read_record s (record_name record_id)
      → stored_record st s' record_id ≡ stored_record st s record_id
  unfolding stored_record
  same_record s s' record_id e = ap (decode_file st) e

  pub same_records :
      (s s' : S) (es : List Entry)
      → All
          (λ (e : Entry).
            st.read_record s' (record_name e.record_id)
            ≡ st.read_record s (record_name e.record_id))
          es
      → read_all st s' es ≡ read_all st s es
  unfolding read_all
  same_records s s' [] h = refl
  same_records s s' (e ∷ es) h =
      ap₂ (with_first st) (same_record s s' e.record_id h.0) (same_records s s' es h.1)

  pub length-read_all :
      (s : S) (es : List Entry) (rs : List QueueRecord)
      → read_all st s es ≡ some rs
      → length rs ≡ length es
  unfolding read_all with_first
  length-read_all s [] rs h = rw⁻¹ (some-injective [] rs h) refl
  length-read_all s (e ∷ es) rs h = elim (Option-cases (stored_record st s e.record_id)) [
    | inl k ↦ ground (arith, k, h)
    | inr (r, k) ↦ elim (Option-cases (read_all st s es)) [
      | inl m ↦ ground (arith, k, m, h)
      | inr (rest, m) ↦ ground (arith, k, m, h, length-read_all s es rest m)
    ]
  ]
