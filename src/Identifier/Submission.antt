-- ===== src/Identifier/Submission.antt =====
-- The validation of submitted rows, and its form and JSON adapters.
use agent_data_oracle.Base.{
  Text, codes, text_eq, text_in, starts_with, strip, is_empty, Bool, true, false, not, ◌&&◌, ◌||◌,
  ltb, ◌==◌, none, some, List, [], ◌∷◌, length, any, all, if◌then◌else◌, Result, ok, err, ◌>>=◌,
  ◌>>◌, raise_if, or_raise,
}
use agent_data_oracle.Json.{Json, get, keys, as_text, as_array}
use agent_data_oracle.Identifier.{
  Unicode, SubmittedIdentifier, max_identifier_rows, max_identifier_literal_length,
  normalize_identifier, parse_type, literal_is_valid,
}

-- `SubmissionError`, by its message.
pub data SubmissionError : Type 0 where
  explicit_rows_only not_authorized row_count literal_too_long invalid_token : SubmissionError

-- The literals of `startswith(("http://", "https://", "www."))`.
abbrev pub looks_like_url : Unicode → Text → Bool
looks_like_url u t =
    let s = u.casefold (strip u.is_space t) in
    starts_with (codes "http://") s
    || starts_with (codes "https://") s
    || starts_with (codes "www.") s

-- One pass of the loop's body, on a row that is not blank.
unfoldable pub accept_row : Unicode → Text × Text → Result SubmissionError SubmittedIdentifier
accept_row u (type_literal, t) = do
  raise_if (looks_like_url u t) explicit_rows_only
  typed ← or_raise explicit_rows_only (parse_type type_literal)
  raise_if (ltb max_identifier_literal_length (length t)) literal_too_long
  raise_if (not (literal_is_valid u typed t)) explicit_rows_only
  ok (record {
    identifier_type = typed;
    submitted_literal = t;
    normalized_value = normalize_identifier u typed t;
  })

-- The loop: blank rows are skipped, and the first bad row ends it.
unfoldable pub accept_rows :
    Unicode → List (Text × Text) → Result SubmissionError (List SubmittedIdentifier)
unfolding accept_row
accept_rows u [] = ok []
accept_rows u (row ∷ rows) =
    let rest = accept_rows u rows in
    if is_empty row.1
    then rest
    else do identifier ← accept_row u row; identifiers ← rest; ok (identifier ∷ identifiers)

-- `submitted_identifiers_from_rows`
unfoldable pub from_rows :
    Unicode → List (Text × Text) → Bool → Result SubmissionError (List SubmittedIdentifier)
unfolding accept_rows
from_rows u rows row_count_matches = do
  raise_if (not row_count_matches || ltb max_identifier_rows (length rows)) row_count
  identifiers ← accept_rows u rows
  raise_if (length identifiers == 0) row_count
  ok identifiers

-- A parsed form: each field name with its values in order.
abbrev pub Form : Type 0
Form = List (Text × List Text)

-- `form.get(name, [])`
unfoldable pub values : Text → Form → List Text
values name [] = []
values name ((field, vs) ∷ form) = if text_eq field name then vs else values name form

abbrev pub allowed_fields : List Text
allowed_fields =
    codes "authorization"
    ∷ codes "csrf_token"
    ∷ codes "idempotency_key"
    ∷ codes "identifier_type"
    ∷ codes "identifier_value"
    ∷ []

abbrev pub single_value_fields : List Text
single_value_fields = codes "authorization" ∷ codes "csrf_token" ∷ codes "idempotency_key" ∷ []

-- `zip(…, strict=False)`
unfoldable pub zip_shortest : List Text → List Text → List (Text × Text)
zip_shortest [] bs = []
zip_shortest (a ∷ as') [] = []
zip_shortest (a ∷ as') (b ∷ bs) = (a, b) ∷ zip_shortest as' bs

abbrev pub is_authorized : List Text → Bool
is_authorized (v ∷ []) = text_eq v (codes "authorized")
is_authorized _ = false

-- `submitted_identifiers_from_form`
unfoldable pub from_form : Unicode → Form → Bool → Result SubmissionError (List SubmittedIdentifier)
unfolding from_rows values zip_shortest
from_form u form body_is_within_limit = do
  raise_if
      (not body_is_within_limit
        || any (λ entry. not (text_in entry.0 allowed_fields)) form
        || any (λ name. not (length (values name form) == 1)) single_value_fields)
      explicit_rows_only
  raise_if (not (is_authorized (values (codes "authorization") form))) not_authorized
  let types = values (codes "identifier_type") form
  let literals = values (codes "identifier_value") form
  from_rows u (zip_shortest types literals) (length types == length literals)

-- `set(keys) == set(names)`
abbrev pub same_keys : List Text → List Text → Bool
same_keys ks names = all (λ k. text_in k names) ks && all (λ n. text_in n ks) names

-- One row of the JSON adapter's loop.
unfoldable pub json_row : Json → Result SubmissionError (Text × Text)
json_row (Json.object fs) =
    if same_keys (keys fs) (codes "type" ∷ codes "literal" ∷ [])
    then elim (as_text (get (codes "type") fs)) [
      | none ↦ err explicit_rows_only
      | some k ↦ elim (as_text (get (codes "literal") fs)) [
        | none ↦ err explicit_rows_only
        | some t ↦ ok (k, t)
      ]
    ]
    else err explicit_rows_only
json_row _ = err explicit_rows_only

unfoldable pub json_rows : List Json → Result SubmissionError (List (Text × Text))
unfolding json_row
json_rows [] = ok []
json_rows (v ∷ vs) = let rest = json_rows vs in do row ← json_row v; rows ← rest; ok (row ∷ rows)

-- `submitted_identifiers_from_json`
unfoldable pub from_json : Unicode → Json → Result SubmissionError (List SubmittedIdentifier)
unfolding json_rows from_rows as_array
from_json u (Json.object fs) =
    if same_keys (keys fs) (codes "identifiers" ∷ [])
    then elim (as_array (get (codes "identifiers") fs)) [
      | none ↦ err row_count
      | some vs ↦ (do rows ← json_rows vs; from_rows u rows true)
    ]
    else err explicit_rows_only
from_json u _ = err explicit_rows_only
