-- ===== src/Examples/Queues.antt =====
-- Runs of a submission: a new evaluation that is held, its replay, and the guards.
use agent_data_oracle.Base.{
  ℕ, ◌+◌, ◌≤◌, ◌≡◌, ◌↔◌, ◌⊎◌, refl, Text, codes, text_eq, true, false, not, ◌==◌, some, none, List,
  [], ◌∷◌, ◌++◌, length, ok, err, All,
}
use agent_data_oracle.Base.Int.{pos}
use agent_data_oracle.Json.{Json, Items, nil, cons, get}
use agent_data_oracle.Identifier.{normalize_identifier, compact}
use agent_data_oracle.Identifier.Matching.{match_cpsc_record, match_typed, string_values}
use agent_data_oracle.Source.{
  SourceTables, completed, full, complete, current_completed, source_observed_at,
  source_revision_id, source_records,
}
use agent_data_oracle.Queue.{
  submission_hash, canonical, Env, Queue, Evaluation, EvidenceRow, Pause, idempotency_conflict,
}
use agent_data_oracle.Queue.Submit.{
  Request, Draw, Submitted, submit, submit_body, replay_or_create, create, usable_revision,
  candidate_rows, match_records, evidence_rows, evidence_row, new_evaluation, CandidateRow,
}
use agent_data_oracle.Queue.Replay.{submit-replay, submit-conflict}
use agent_data_oracle.Queue.Gate.{Usable, created-guards, created-gate}
use agent_data_oracle.Queue.Evidence.{IsEvidence, created-IsEvidence}
use agent_data_oracle.Examples.Inputs.{ascii, no_patterns, a_upc, a_record}

abbrev count_items : Items → Text
count_items nil = []
count_items (cons v vs) = 1 ∷ count_items vs

-- In place of a digest, a text as long as the list.
abbrev a_digest : Json → Text
a_digest (Json.array vs) = count_items vs
a_digest _ = []

abbrev pub env : Env
env = record { unicode = ascii; patterns = no_patterns; digest = a_digest }

abbrev pub source : SourceTables
source = record {
  runs =
      record {
        run_id = 1;
        source_url = codes "https://www.saferproducts.gov";
        observed_at = 1000;
        raw_response = [];
        state = completed;
        refresh_mode = full;
        retrieval_attempts = 1;
        error_code = none;
        record_count = 1;
      }
      ∷ [];
  revisions =
      record {
        revision_id = 5;
        run_id = 1;
        state = completed;
        completeness = complete;
        record_count = 1;
        completed_at = some 1001;
      }
      ∷ [];
  current_revision = some 5;
  current_records =
      record {
        recall_id = pos 9;
        revision_id = 5;
        recall_number = codes "24-001";
        recall_date_literal = none;
        last_publish_date_literal = none;
        official_url = codes "https://www.cpsc.gov/24-001";
        normalized_record = Json.object a_record;
      }
      ∷ [];
  observations = record { revision_id = 5; recall_id = pos 9; observed_at = 1000 } ∷ [];
}

abbrev unpaused : Pause
unpaused = record {
  is_paused = false;
  trigger_kind = none;
  reason_category = none;
  activated_at = none;
  activated_by = none;
  resolution_note = none;
  resolved_at = none;
  resolved_by = none;
}

-- A queue with one source record and nothing submitted.
abbrev pub fresh : Queue
fresh = record {
  source = source;
  evaluations = [];
  inputs = [];
  rows = [];
  committed_queue_count = 0;
  audits = [];
  releases = [];
  pause = unpaused;
  pause_events = [];
  acknowledgements = [];
  reports = [];
  retrievals = [];
  refreshes = [];
}

abbrev pub request : Request
request = record {
  operator_id = 7;
  idempotency_key = codes "0123456789abcdef";
  identifiers = a_upc ∷ [];
  refresh_from = none;
  counts_toward_audit_gate = none;
}

abbrev other_request : Request
other_request = record request { identifiers = a_upc ∷ a_upc ∷ [] }

abbrev pub draw : Draw
draw = record { evaluated_at = 2000; evaluation_id = 3; row_id = λ n. n; default_counts = true }

abbrev later_draw : Draw
later_draw = record {
  evaluated_at = 9000;
  evaluation_id = 4;
  row_id = λ n. n;
  default_counts = true;
}

abbrev made : Submitted
made = record { evaluation_id = 3; evaluated_at = 2000; created = true }

abbrev pub held : Queue
held = (submit env request draw fresh).1

pub submits : (submit env request draw fresh).0 ≡ ok made
unfolding submit submit_body replay_or_create create usable_revision source_observed_at
    source_revision_id current_completed source_records candidate_rows match_records
    match_cpsc_record match_typed string_values get normalize_identifier compact text_eq
    evidence_rows evidence_row
submits = refl

submit-replay_example :
    submit env request later_draw held
    ≡ (ok (record { evaluation_id = 3; evaluated_at = 2000; created = false }), held)
submit-replay_example = submit-replay env request draw later_draw fresh made submits

submit-conflict_example :
    submit env other_request later_draw held ≡ (err idempotency_conflict, held)
unfolding text_eq submission_hash canonical
submit-conflict_example =
    submit-conflict env request other_request draw later_draw fresh made submits refl refl refl

created-guards_example :
    (revision : ℕ) × Usable draw fresh revision
    × (found : List CandidateRow) × (held.evaluations
        ≡ [] ++ new_evaluation env request draw revision found (0 + 1) ∷ [])
created-guards_example = created-guards env request draw fresh made submits refl

created-gate_example :
    (e : Evaluation) × (held.evaluations ≡ [] ++ e ∷ [])
    × ((e.released_at ≡ none) ↔ ((e.has_candidates ≡ true) × (0 + 1 ≤ 20)))
    × ((e.released_at ≡ none) ⊎ (e.released_at ≡ some 2000))
    × (held.committed_queue_count ≡ 0 + 1)
created-gate_example = created-gate env request draw fresh made submits refl

created-IsEvidence_example :
    (e : Evaluation) × (rows : List EvidenceRow) × (held.evaluations ≡ [] ++ e ∷ [])
    × (held.rows ≡ [] ++ rows)
    × (e.has_candidates ≡ not (length rows == 0))
    × All (IsEvidence env 3 (a_upc ∷ [])) rows
created-IsEvidence_example = created-IsEvidence env request draw fresh made submits refl
