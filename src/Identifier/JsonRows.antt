-- ===== src/Identifier/JsonRows.antt =====
-- The JSON adapter: identifiers written as the API's JSON are read back by
-- `submitted_identifiers_from_json`.
use agent_data_oracle.Base.{◌≡◌, refl, Text, codes, text_eq, Bool, true, List, [], ◌∷◌, map, ok}
use agent_data_oracle.Json
use agent_data_oracle.Json.{Json, Items, Fields, end, nil, cons, get, keys, elements, as_array}
use agent_data_oracle.Identifier.{Unicode, SubmittedIdentifier, print_type}
use agent_data_oracle.Identifier.Submission.{from_rows, from_json, json_row, json_rows}
use agent_data_oracle.Identifier.Rows.{row_of, from_rows-again}

-- `{"type": …, "literal": …}` and `{"identifiers": […]}`.
abbrev pub json_of : SubmittedIdentifier → Json
json_of i = Json.object (
    Json.field (codes "type") (Json.text (print_type i.identifier_type))
      (Json.field (codes "literal") (Json.text i.submitted_literal) end))

abbrev pub items_of : List SubmittedIdentifier → Items
items_of [] = nil
items_of (i ∷ is') = cons (json_of i) (items_of is')

abbrev pub document_of : List SubmittedIdentifier → Json
document_of found = Json.object (Json.field (codes "identifiers") (Json.array (items_of found)) end)

json_row-json_of : (i : SubmittedIdentifier) → json_row (json_of i) ≡ ok (row_of i)
unfolding json_row keys get text_eq
json_row-json_of i = refl

json_rows-items_of :
    (found : List SubmittedIdentifier)
    → json_rows (elements (items_of found)) ≡ ok (map row_of found)
unfolding json_rows elements
json_rows-items_of [] = refl
json_rows-items_of (i ∷ found) = rw (json_row-json_of i, json_rows-items_of found)

from_json-document_of :
    (u : Unicode) (found : List SubmittedIdentifier)
    → from_json u (document_of found) ≡ from_rows u (map row_of found) true
unfolding from_json keys get text_eq as_array
from_json-document_of u found = rw (json_rows-items_of found)

-- Identifiers that were accepted as rows and are written as the API's JSON are read back, each with
-- its type, literal and normal form, in order.
pub from_json-roundtrip :
    (u : Unicode) (rows : List (Text × Text)) (matches : Bool) (found : List SubmittedIdentifier)
    → from_rows u rows matches ≡ ok found
    → from_json u (document_of found) ≡ ok found
from_json-roundtrip u rows matches found h =
    rw (from_json-document_of u found) (from_rows-again u rows matches found h)
