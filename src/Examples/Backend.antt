-- ===== src/Examples/Backend.antt =====
-- lib/backend/backend_contract.cpp: a response for two records.
use gathra_gateway.Prelude.{ℕ, ◌≡◌, refl, List, [], ◌∷◌, some, none, true, false}
use gathra_gateway.Backend.{
  Item, Document, BackendRecordStatus, inserted_text, duplicate_text, parse_backend_batch_response,
  parse_document, parse_items, parse_item, parse_status, reason_of,
}
use gathra_gateway.Base64.{text_equal}

abbrev second : Item
second = record { index = some 1; status = some duplicate_text; reason = none }

abbrev first : Item
first = record { index = some 0; status = some inserted_text; reason = none }

-- A parser that finds the two records, the second one first.
abbrev parser : List ℕ → Document
parser json = some (some (second ∷ (first ∷ [])))

two_results : parse_backend_batch_response parser (some (123 ∷ [])) 2 ≡ (
  record { index = 1; status = BackendRecordStatus.duplicate; reason = [] }
      ∷ (record { index = 0; status = BackendRecordStatus.inserted; reason = [] } ∷ []),
  true,
)
unfolding parse_backend_batch_response parse_document parse_items parse_item parse_status reason_of
    text_equal
two_results = refl

-- The second answer for a record is refused, and the first stays in the results.
twice :
    parse_backend_batch_response (λ json. some (some (second ∷ (second ∷ [])))) (some (123 ∷ [])) 2
    ≡ (record { index = 1; status = BackendRecordStatus.duplicate; reason = [] } ∷ [], false)
unfolding parse_backend_batch_response parse_document parse_items parse_item parse_status reason_of
    text_equal
twice = refl
