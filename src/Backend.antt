-- ===== src/Backend.antt =====
-- lib/backend/backend_contract.hpp and backend_contract.cpp: what the backend answers to a batch. The
-- JSON parser is a library: `Document` has what the source asks of a parsed document.
pub mod Response
pub mod Complete
use Prim.Native.String.{String}
use gathra_gateway.Prelude.{
  ℤ, pos, negsuc, ℕ, zero, suc, Bool, true, false, not, ◌&&◌, ◌||◌, List, [], ◌∷◌, ◌++◌, Option,
  none, some, set, get_or, length, take, ltb, leb, ◌==◌, if◌then◌else◌,
}
use gathra_gateway.Build.{backend_maximum_batch_size}
use gathra_gateway.Text.{CString}
use gathra_gateway.Base64.{text_equal}

pub data BackendRecordStatus : Type 0 where
  inserted : BackendRecordStatus
  duplicate : BackendRecordStatus
  rejected_invalid : BackendRecordStatus

pub record BackendRecordResult : Type 0 where
  pub index : ℕ
  pub status : BackendRecordStatus
  pub reason : List ℕ

-- A member of the array: its three fields where they have the type that is asked for.
pub record Item : Type 0 where
  pub index : Option ℕ
  pub status : Option (List ℕ)
  pub reason : Option (List ℕ)

-- `none` for text that is no JSON, and for a document without the array.
abbrev pub Document : Type 0
Document = Option (Option (List Item))

-- "INSERTED"
abbrev pub inserted_text : List ℕ
inserted_text = 73 ∷ (78 ∷ (83 ∷ (69 ∷ (82 ∷ (84 ∷ (69 ∷ (68 ∷ [])))))))

-- "DUPLICATE"
abbrev pub duplicate_text : List ℕ
duplicate_text = 68 ∷ (85 ∷ (80 ∷ (76 ∷ (73 ∷ (67 ∷ (65 ∷ (84 ∷ (69 ∷ []))))))))

-- "REJECTED_INVALID"
abbrev pub rejected_invalid_text : List ℕ
rejected_invalid_text =
    82
    ∷ (69
        ∷ (74
            ∷ (69
                ∷ (67
                    ∷ (84
                        ∷ (69
                            ∷ (68
                                ∷ (95 ∷ (73 ∷ (78 ∷ (86 ∷ (65 ∷ (76 ∷ (73 ∷ (68 ∷ [])))))))))))))))

unfoldable pub parse_status : List ℕ → Option BackendRecordStatus
unfolding text_equal
parse_status value =
    if text_equal value inserted_text
    then some BackendRecordStatus.inserted
    else if text_equal value duplicate_text
    then some BackendRecordStatus.duplicate
    else if text_equal value rejected_invalid_text
    then some BackendRecordStatus.rejected_invalid
    else none

unfoldable pub reason_of : Option (List ℕ) → List ℕ
reason_of none = []
reason_of (some reason) = take 96 reason

-- The result goes before those of the later members.
abbrev pub pushed :
    BackendRecordResult → List BackendRecordResult × Bool → List BackendRecordResult × Bool
pushed r (rs, okay) = (r ∷ rs, okay)

abbrev pub checked :
    ℕ
    → List ℕ
    → Option BackendRecordStatus
    → List BackendRecordResult × Bool
    → List BackendRecordResult × Bool
checked index reason none later = ([], false)
checked index reason (some status) later =
    pushed (record { index = index; status = status; reason = reason }) later

-- `seen[index] = true`
abbrev pub mark : List Bool → Option ℕ → List Bool
mark seen none = seen
mark seen (some index) = set seen index true

-- One round of the loop, with what the later rounds store and answer.
unfoldable pub parse_item :
    ℕ
    → List Bool
    → Option ℕ
    → Option (List ℕ)
    → List ℕ
    → List BackendRecordResult × Bool
    → List BackendRecordResult × Bool
unfolding parse_status
parse_item expected seen (some index) (some value) reason later =
    if leb expected index || get_or seen index false
    then ([], false)
    else checked index reason (parse_status value) later
parse_item expected seen _ _ reason later = ([], false)

-- The loop: the results that were stored, also before a member that is refused, and the answer.
unfoldable pub parse_items : ℕ → List Bool → List Item → List BackendRecordResult × Bool
unfolding parse_item reason_of
parse_items expected seen [] = ([], true)
parse_items expected seen (item ∷ items) =
    parse_item expected seen item.index item.status (reason_of item.reason)
      (parse_items expected (mark seen item.index) items)

abbrev pub repeated : ℕ → List Bool
repeated zero = []
repeated (suc n) = false ∷ repeated n

unfoldable pub parse_document : ℕ → Document → List BackendRecordResult × Bool
unfolding parse_items
parse_document expected (some (some items)) =
    if ltb expected (length items)
    then ([], false)
    else parse_items expected (repeated backend_maximum_batch_size) items
parse_document expected _ = ([], false)

unfoldable pub parse_backend_batch_response :
    (List ℕ → Document) → CString → ℕ → List BackendRecordResult × Bool
unfolding parse_document
parse_backend_batch_response deserialize none expected = ([], false)
parse_backend_batch_response deserialize (some json) expected =
    if expected == 0 then ([], false) else parse_document expected (deserialize json)

unfoldable pub backend_http_response_may_dequeue : ℤ → Bool
backend_http_response_may_dequeue (pos http_status) = http_status == 200
backend_http_response_may_dequeue (negsuc n) = false

unfoldable pub backend_batch_response_complete : ℕ → List BackendRecordResult → Bool
backend_batch_response_complete expected results = ltb 0 expected && length results == expected

unfoldable pub backend_record_status_name : BackendRecordStatus → String
backend_record_status_name BackendRecordStatus.inserted = "INSERTED"
backend_record_status_name BackendRecordStatus.duplicate = "DUPLICATE"
backend_record_status_name BackendRecordStatus.rejected_invalid = "REJECTED_INVALID"
