-- ===== src/Backend/Response.antt =====
-- lib/backend/backend_contract.cpp: the results of a response name different records of the batch.
use gathra_gateway.Prelude.{
  ℕ, zero, suc, ◌≤◌, ◌<◌, ◌≡◌, ◌≢◌, refl, inl, inr, Bool, true, false, ◌||◌, List, [], ◌∷◌, Option,
  none, some, arith, set, get_or, length, leb, ltb, ◌==◌, All, Bool-cases, Option-cases,
}
use gathra_gateway.Text.{CString}
use gathra_gateway.Backend.{
  BackendRecordResult, Item, Document, parse_status, reason_of, parse_items, parse_item, mark,
  repeated, parse_document, parse_backend_batch_response,
}

-- Each index is that of a record of the batch, and no two are equal.
abbrev pub AreDistinct : ℕ → List BackendRecordResult → Type 0
AreDistinct expected [] = Unit
AreDistinct expected (r ∷ rs) =
    (r.index < expected)
    × All (λ (r' : BackendRecordResult). r'.index ≢ r.index) rs
    × AreDistinct expected rs

-- The results have indices that were not seen.
abbrev AreUnseen : List Bool → List BackendRecordResult → Type 0
AreUnseen seen rs = All (λ (r : BackendRecordResult). get_or seen r.index false ≡ false) rs

length-set : (xs : List Bool) (i : ℕ) → length (set xs i true) ≡ length xs
length-set [] i = refl
length-set (x ∷ xs) zero = refl
length-set (x ∷ xs) (suc i) = omega (arith, length-set xs i)

unseen_ne :
    (seen : List Bool) (i j : ℕ)
    → i < length seen
    → get_or (set seen i true) j false ≡ false
    → j ≢ i
unseen_ne [] i j l h e = absurd (omega arith)
unseen_ne (x ∷ xs) zero zero l h e = ground arith
unseen_ne (x ∷ xs) zero (suc j) l h e = absurd (omega arith)
unseen_ne (x ∷ xs) (suc i) zero l h e = absurd (omega arith)
unseen_ne (x ∷ xs) (suc i) (suc j) l h e = unseen_ne xs i j (omega arith) h (omega arith)

unseen_before :
    (seen : List Bool) (i j : ℕ)
    → get_or (set seen i true) j false ≡ false
    → get_or seen j false ≡ false
unseen_before [] i j h = refl
unseen_before (x ∷ xs) zero zero h = absurd (ground arith)
unseen_before (x ∷ xs) zero (suc j) h = h
unseen_before (x ∷ xs) (suc i) zero h = h
unseen_before (x ∷ xs) (suc i) (suc j) h = unseen_before xs i j h

AreUnseen-ne :
    (seen : List Bool) (i : ℕ) (rs : List BackendRecordResult)
    → i < length seen
    → AreUnseen (set seen i true) rs
    → All (λ (r : BackendRecordResult). r.index ≢ i) rs
AreUnseen-ne seen i [] l h = tt
AreUnseen-ne seen i (r ∷ rs) l h = (unseen_ne seen i r.index l h.0, AreUnseen-ne seen i rs l h.1)

AreUnseen-before :
    (seen : List Bool) (i : ℕ) (rs : List BackendRecordResult)
    → AreUnseen (set seen i true) rs
    → AreUnseen seen rs
AreUnseen-before seen i [] h = tt
AreUnseen-before seen i (r ∷ rs) h =
    (unseen_before seen i r.index h.0, AreUnseen-before seen i rs h.1)

length-mark : (seen : List Bool) (i : Option ℕ) → length (mark seen i) ≡ length seen
length-mark seen none = refl
length-mark seen (some i) = length-set seen i

AreNew : ℕ → List Bool → List BackendRecordResult → Type 0
AreNew expected seen rs = AreUnseen seen rs × AreDistinct expected rs

parse_item-AreNew :
    (expected : ℕ) (seen : List Bool) (i : Option ℕ) (v : Option (List ℕ)) (reason : List ℕ)
    (later : List BackendRecordResult × Bool)
    → expected ≤ length seen
    → AreNew expected (mark seen i) later.0
    → AreNew expected seen (parse_item expected seen i v reason later).0
unfolding parse_item AreNew
parse_item-AreNew expected seen none v reason later l h = (tt, tt)
parse_item-AreNew expected seen (some i) none reason later l h = (tt, tt)
parse_item-AreNew expected seen (some i) (some v) reason later l h =
    elim (Bool-cases (leb expected i || get_or seen i false)) [
      | inl e ↦ rw e (tt, tt)
      | inr e ↦ rw e (elim (Option-cases (parse_status v)) [
        | inl n ↦ rw n (tt, tt)
        | inr (s, y) ↦ rw y (
            (
              (ground arith, AreUnseen-before seen i later.0 h.0),
              (ground arith, AreUnseen-ne seen i later.0 (ground arith) h.0, h.1),
            ))
      ])
    ]

parse_items-AreNew :
    (expected : ℕ) (seen : List Bool) (items : List Item)
    → expected ≤ length seen
    → AreNew expected seen (parse_items expected seen items).0
unfolding parse_items AreNew
parse_items-AreNew expected seen [] l = (tt, tt)
parse_items-AreNew expected seen (item ∷ items) l =
    parse_item-AreNew expected seen item.index item.status (reason_of item.reason) _ l (
      parse_items-AreNew expected (mark seen item.index) items
        (omega (arith, length-mark seen item.index)))

parse_document-AreDistinct :
    (expected : ℕ) (d : Document)
    → expected ≤ 50
    → AreDistinct expected (parse_document expected d).0
unfolding parse_document AreNew
parse_document-AreDistinct expected none l = tt
parse_document-AreDistinct expected (some none) l = tt
parse_document-AreDistinct expected (some (some items)) l =
    elim (Bool-cases (ltb expected (length items))) [
      | inl e ↦ rw e tt
      | inr e ↦ rw e (parse_items-AreNew expected (repeated 50) items l).1
    ]

-- For a batch of 50 records at most, whatever the parser makes of the response: the results, also those
-- stored before a refusal, are for different records of the batch.
pub parse_backend_batch_response-AreDistinct :
    (deserialize : List ℕ → Document) (json : CString) (expected : ℕ)
    → expected ≤ 50
    → AreDistinct expected (parse_backend_batch_response deserialize json expected).0
unfolding parse_backend_batch_response
parse_backend_batch_response-AreDistinct deserialize none expected l = tt
parse_backend_batch_response-AreDistinct deserialize (some json) expected l =
    elim (Bool-cases (expected == 0)) [
      | inl e ↦ rw e tt
      | inr e ↦ rw e (parse_document-AreDistinct expected (deserialize json) l)
    ]
