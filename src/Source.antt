-- ===== src/Source.antt =====
-- The CPSC source of `cpsc_source.py`: its tables and the queries that evaluations run on them.
use agent_data_oracle.Base.{
  ℕ, Text, Bool, true, false, ◌&&◌, ◌==◌, Option, none, some, List, [], select, first, flat_map,
  sort_by, map,
}
use agent_data_oracle.Base.Int.{ℤ, eq_ℤ, leb_ℤ}
use agent_data_oracle.Json.{Json}

pub data RefreshMode : Type 0 where
  fixture daily full : RefreshMode

-- The state of a run or a revision.
pub data State : Type 0 where
  pending completed failed rejected : State

abbrev pub is_completed : State → Bool
is_completed State.completed = true
is_completed _ = false

pub data Completeness : Type 0 where
  unknown complete partial : Completeness

-- `cpsc_ingestion_runs`
pub record Run : Type 0 where
  pub run_id : ℕ
  pub source_url : Text
  pub observed_at : ℕ
  pub raw_response : Text
  pub state : State
  pub refresh_mode : RefreshMode
  pub retrieval_attempts : ℕ
  pub error_code : Option Text
  pub record_count : ℕ

-- `cpsc_source_revisions`
pub record Revision : Type 0 where
  pub revision_id : ℕ
  pub run_id : ℕ
  pub state : State
  pub completeness : Completeness
  pub record_count : ℕ
  pub completed_at : Option ℕ

-- `cpsc_current_records`
pub record CurrentRecord : Type 0 where
  pub recall_id : ℤ
  pub revision_id : ℕ
  pub recall_number : Text
  pub recall_date_literal : Option Text
  pub last_publish_date_literal : Option Text
  pub official_url : Text
  pub normalized_record : Json

-- `cpsc_source_observations`
pub record Observation : Type 0 where
  pub revision_id : ℕ
  pub recall_id : ℤ
  pub observed_at : ℕ

pub record SourceTables : Type 0 where
  pub runs : List Run
  pub revisions : List Revision
  pub current_revision : Option ℕ
  pub current_records : List CurrentRecord
  pub observations : List Observation

-- The rows of `cpsc_current_source_revision` joined with its completed revision.
unfoldable pub current_completed : SourceTables → List Revision
current_completed s = elim s.current_revision [
  | none ↦ []
  | some i ↦ select (λ r. r.revision_id == i && is_completed r.state) s.revisions
]

-- The observation time of the current completed revision's run.
unfoldable pub source_observed_at : SourceTables → Option ℕ
unfolding current_completed
source_observed_at s = first (
    flat_map
      (λ r. map (λ (run : Run). run.observed_at) (select (λ run. run.run_id == r.run_id) s.runs))
      (current_completed s))

unfoldable pub source_revision_id : SourceTables → Option ℕ
unfolding current_completed
source_revision_id s = first (map (λ (r : Revision). r.revision_id) (current_completed s))

-- One row of the join that an evaluation reads.
pub record SourceRecord : Type 0 where
  pub recall_id : ℤ
  pub recall_number : Text
  pub official_url : Text
  pub recall_date_literal : Option Text
  pub last_publish_date_literal : Option Text
  pub normalized_record : Json
  pub observed_at : ℕ
  pub completed_at : Option ℕ

abbrev joined : CurrentRecord → Revision → Observation → SourceRecord
joined c r o = record {
  recall_id = c.recall_id;
  recall_number = c.recall_number;
  official_url = c.official_url;
  recall_date_literal = c.recall_date_literal;
  last_publish_date_literal = c.last_publish_date_literal;
  normalized_record = c.normalized_record;
  observed_at = o.observed_at;
  completed_at = r.completed_at;
}

-- The records of a revision, ordered by their recall.
unfoldable pub source_records : ℕ → SourceTables → List SourceRecord
source_records i s =
    flat_map
      (λ c.
        flat_map
          (λ r. map (joined c r) (
            select (λ o. o.revision_id == c.revision_id && eq_ℤ o.recall_id c.recall_id)
              s.observations))
          (select (λ r. r.revision_id == c.revision_id) s.revisions))
      (sort_by (λ a b. leb_ℤ a.recall_id b.recall_id)
        (select (λ c. c.revision_id == i) s.current_records))
