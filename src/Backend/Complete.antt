-- ===== src/Backend/Complete.antt =====
-- lib/backend/backend_contract.cpp: a complete response answers every record of the batch.
use gathra_gateway.Prelude.{
  ℕ, zero, suc, ◌+◌, ◌≤◌, ◌<◌, ◌≡◌, ◌≢◌, refl, ◌∙◌, inl, inr, Bool, true, false, ◌||◌, List, [],
  ◌∷◌, arith, length, ◌==◌, All, Bool-cases, ap, ==_iff, if◌then◌else◌,
}
use gathra_gateway.Text.{CString}
use gathra_gateway.Backend.{
  BackendRecordResult, Document, parse_backend_batch_response, backend_batch_response_complete,
}
use gathra_gateway.Backend.Response.{AreDistinct, parse_backend_batch_response-AreDistinct}

-- One of the results is for this record.
unfoldable pub answers : ℕ → List BackendRecordResult → Bool
answers i [] = false
answers i (r ∷ rs) = r.index == i || answers i rs

-- How many of the first `n` records are answered.
answered : ℕ → List BackendRecordResult → ℕ
answered zero rs = 0
answered (suc n) rs = (if answers n rs then 1 else 0) + answered n rs

answered-le : (n : ℕ) (rs : List BackendRecordResult) → answered n rs ≤ n
unfolding answered
answered-le zero rs = omega arith
answered-le (suc n) rs = ground (arith, answered-le n rs)

answers-ne :
    (i : ℕ) (rs : List BackendRecordResult)
    → All (λ (r : BackendRecordResult). r.index ≢ i) rs
    → answers i rs ≡ false
unfolding answers
answers-ne i [] h = refl
answers-ne i (r ∷ rs) h = ground (arith, answers-ne i rs h.1)

-- A result for a later record changes nothing below.
answered_later :
    (n : ℕ) (r : BackendRecordResult) (rs : List BackendRecordResult)
    → n ≤ r.index
    → answered n (r ∷ rs) ≡ answered n rs
unfolding answered answers
answered_later zero r rs h = refl
answered_later (suc n) r rs h = ground (arith, answered_later n r rs)

answered_new :
    (n : ℕ) (r : BackendRecordResult) (rs : List BackendRecordResult)
    → r.index < n
    → answers r.index rs ≡ false
    → answered n (r ∷ rs) ≡ answered n rs + 1
unfolding answered answers
answered_new zero r rs h k = absurd (omega arith)
answered_new (suc n) r rs h k = elim (Bool-cases (r.index == n)) [
  | inl e ↦
      ground (arith, answered_later n r rs, ap (λ (j : ℕ). answers j rs) ((==_iff r.index n).0 e))
  | inr e ↦ ground (arith, answered_new n r rs)
]

answered_none : (n : ℕ) → answered n [] ≡ 0
unfolding answered answers
answered_none zero = refl
answered_none (suc n) = omega (arith, answered_none n)

answered-length :
    (n : ℕ) (rs : List BackendRecordResult) → AreDistinct n rs → answered n rs ≡ length rs
answered-length n [] h = answered_none n
answered-length n (r ∷ rs) h =
    omega (arith, answered_new n r rs h.0 (answers-ne r.index rs h.1), answered-length n rs h.2)

answered_all :
    (n : ℕ) (rs : List BackendRecordResult) (i : ℕ)
    → answered n rs ≡ n
    → i < n
    → answers i rs ≡ true
unfolding answered
answered_all zero rs i h k = absurd (omega arith)
answered_all (suc n) rs i h k = elim (Bool-cases (i == n)) [
  | inl e ↦ ground (arith, answered-le n rs, ap (λ (j : ℕ). answers j rs) ((==_iff i n).0 e))
  | inr e ↦ answered_all n rs i (ground (arith, answered-le n rs)) (ground arith)
]

-- A response that is complete for a batch of 50 records at most answers each record of the batch.
pub answers-parse_backend_batch_response :
    (deserialize : List ℕ → Document) (json : CString) (expected i : ℕ)
    → expected ≤ 50
    → backend_batch_response_complete expected
        (parse_backend_batch_response deserialize json expected).0
      ≡ true
    → i < expected
    → answers i (parse_backend_batch_response deserialize json expected).0 ≡ true
unfolding backend_batch_response_complete
answers-parse_backend_batch_response deserialize json expected i l c k =
    let rs = (parse_backend_batch_response deserialize json expected).0 in
    answered_all expected rs i
      (answered-length expected rs
          (parse_backend_batch_response-AreDistinct deserialize json expected l)
        ∙ ground arith)
      k
