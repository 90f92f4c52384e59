-- ===== src/Ingest/Records.antt =====
-- `parse_source_records`: the received body as validated records.
use agent_data_oracle.Base.{
  ℕ, Text, codes, text_eq, text_in, Bool, false, not, ◌&&◌, ◌==◌, Option, none, some, List, [], ◌∷◌,
  length, any, is_empty, if◌then◌else◌, Result, ok, err, ◌>>=◌, ◌>>◌, raise_if, or_raise,
}
use agent_data_oracle.Base.Int.{ℤ, eq_ℤ}
use agent_data_oracle.Json.{Json, Fields, get, as_object, as_array}
use agent_data_oracle.Ingest.{CpscRecord, SplitUrl, IngestEnv, IngestError, invalid, value_error}

-- The tests of `_required_text` on the field's value.
unfoldable pub require_text : Text → Json → Result IngestError Text
require_text code (Json.text t) = if is_empty t then err (invalid code) else ok t
require_text code _ = err (invalid code)

-- `_required_text`, with the code of the field's absence.
unfoldable pub required_text : Fields → Text → Text → Result IngestError Text
unfolding require_text
required_text fields name code = require_text code (get name fields)

-- The tests of `_optional_source_literal` on the field's value.
unfoldable pub allow_text : Text → Json → Result IngestError (Option Text)
allow_text code Json.null = ok none
allow_text code (Json.text t) = ok (some t)
allow_text code _ = err (invalid code)

-- `_optional_source_literal`, with the code of another type.
unfoldable pub optional_source_literal : Fields → Text → Text → Result IngestError (Option Text)
unfolding allow_text
optional_source_literal fields name code = allow_text code (get name fields)

-- `isinstance(value, int) and not isinstance(value, bool)`
abbrev pub as_integer : Json → Option ℤ
as_integer (Json.integer n) = some n
as_integer _ = none

abbrev pub is_cpsc_host : Option Text → Bool
is_cpsc_host none = false
is_cpsc_host (some h) = text_in h (codes "www.cpsc.gov" ∷ codes "cpsc.gov" ∷ [])

-- The provenance test on a record's URL.
unfoldable pub is_official : SplitUrl → Bool
unfolding text_eq
is_official u = text_eq u.scheme (codes "https") && is_cpsc_host u.hostname

-- What follows the tests of a record's identity and provenance.
unfoldable pub read_literals : IngestEnv → Fields → ℤ → Text → Result IngestError CpscRecord
read_literals env fields recall_id official_url = do
  recall_number ← required_text fields (codes "RecallNumber") (codes "missing_RecallNumber")
  recall_date ← optional_source_literal fields (codes "RecallDate") (codes "invalid_RecallDate")
  last_publish_date ←
      optional_source_literal fields (codes "LastPublishDate") (codes "invalid_LastPublishDate")
  content_hash ← or_raise value_error (env.sha256 (env.canonical fields))
  ok (record {
    recall_id = recall_id;
    recall_number = recall_number;
    recall_date_literal = recall_date;
    last_publish_date_literal = last_publish_date;
    official_url = official_url;
    raw_record = fields;
    canonical_json = env.canonical fields;
    content_hash = content_hash;
  })

unfoldable pub read_fields : IngestEnv → List ℤ → Fields → Result IngestError CpscRecord
read_fields env seen fields = do
  recall_id ←
      or_raise (invalid (codes "missing_RecallID")) (as_integer (get (codes "RecallID") fields))
  raise_if (any (eq_ℤ recall_id) seen) (invalid (codes "duplicate_RecallID"))
  official_url ← required_text fields (codes "URL") (codes "missing_URL")
  split ← or_raise value_error (env.urlsplit official_url)
  raise_if (not (is_official split)) (invalid (codes "official_notice_provenance_invalid"))
  read_literals env fields recall_id official_url

-- The loop, with the identifiers that it has seen.
unfoldable pub read_records : IngestEnv → List ℤ → List Json → Result IngestError (List CpscRecord)
read_records env seen [] = ok []
read_records env seen (value ∷ values) = do
  fields ← or_raise (invalid (codes "record_must_be_object")) (as_object value)
  r ← read_fields env seen fields
  rest ← read_records env (r.recall_id ∷ seen) values
  ok (r ∷ rest)

-- `expected_record_count is not None and len(document) != expected_record_count`
abbrev pub miscounted : Option ℕ → List Json → Bool
miscounted none document = false
miscounted (some n) document = not (length document == n)

-- `parse_source_records`
unfoldable pub parse_source_records :
    IngestEnv → Text → Option ℕ → Result IngestError (List CpscRecord)
parse_source_records env raw_response expected = do
  value ← or_raise (invalid (codes "invalid_json")) (env.loads raw_response)
  document ← or_raise (invalid (codes "expected_record_array")) (as_array value)
  raise_if (miscounted expected document) (invalid (codes "record_count_mismatch"))
  read_records env [] document
