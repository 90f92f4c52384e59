-- ===== src/Queue.antt =====
-- The evidence queues of `evidence_queue.py`: the tables that they keep. Instants are microseconds,
-- and the identifiers that the program draws at random are arguments of the operations.
pub mod Comparison
pub mod Submit
pub mod Auditing
pub mod Reviews
pub mod Reads
pub mod Outcome
pub mod Replay
pub mod Gate
pub mod Steps
pub mod Evidence
pub mod Approval
pub mod Pausing
pub mod Chains
pub mod Releases
pub mod Deciding
pub mod Refreshing
pub mod Isolation
pub mod Acknowledging
use agent_data_oracle.Base.{
  ℕ, ◌+◌, ◌*◌, Text, codes, Bool, true, false, ◌||◌, ◌&&◌, ◌==◌, ◌∷◌, Option, none, some, List, [],
  any, is_some, select, first, if◌then◌else◌,
}
use agent_data_oracle.Base.Int.{ℤ}
use agent_data_oracle.Json
use agent_data_oracle.Json.{Json, Items}
use agent_data_oracle.Identifier.{print_type, Unicode, CandidateClass, SubmittedIdentifier}
use agent_data_oracle.Identifier.Matching.{Patterns, RecordMatch}
use agent_data_oracle.Source.{SourceTables}
use Comparison.{Delta}

abbrev pub hours : ℕ → ℕ
hours n = n * 3600000000

abbrev pub normalization_version : Text
normalization_version = codes "identifier-v2"

abbrev pub matcher_version : Text
matcher_version = codes "deterministic-candidate-v1"

abbrev pub founder_audit_queue_limit : ℕ
founder_audit_queue_limit = 20

-- What the program takes from Python's libraries: the Unicode tables, the two searches in a
-- description, and the SHA-256 of the compact JSON with sorted keys.
pub record Env : Type 0 where
  pub unicode : Unicode
  pub patterns : Patterns
  pub digest : Json → Text

-- The `canonical` list of `_submission_hash`.
abbrev canonical_item : SubmittedIdentifier → Json
canonical_item i = Json.object (
    Json.field (codes "identifier_type") (Json.text (print_type i.identifier_type)) (
      Json.field (codes "submitted_literal") (Json.text i.submitted_literal)
        (Json.field (codes "normalized_value") (Json.text i.normalized_value) Json.end)))

unfoldable pub canonical : List SubmittedIdentifier → Items
canonical [] = Json.nil
canonical (i ∷ is') = Json.cons (canonical_item i) (canonical is')

-- `_submission_hash`
unfoldable pub submission_hash : Env → List SubmittedIdentifier → Text
unfolding canonical
submission_hash env identifiers = env.digest (Json.array (canonical identifiers))

pub data AuditDecision : Type 0 where
  approved rejected : AuditDecision

pub data ReviewOutcome : Type 0 where
  reviewed_same_product reviewed_different_product need_more_identifiers not_sure : ReviewOutcome

-- `evidence_evaluations`
pub record Evaluation : Type 0 where
  pub evaluation_id : ℕ
  pub operator_id : ℕ
  pub source_revision_id : ℕ
  pub evaluated_at : ℕ
  pub normalization_version : Text
  pub matcher_version : Text
  pub has_candidates : Bool
  pub released_at : Option ℕ
  pub idempotency_key : Text
  pub submission_hash : Text

-- `evidence_evaluation_inputs`
pub record Input : Type 0 where
  pub evaluation_id : ℕ
  pub row_position : ℕ
  pub identifier : SubmittedIdentifier

-- `evidence_rows`
pub record EvidenceRow : Type 0 where
  pub evidence_row_id : ℕ
  pub evaluation_id : ℕ
  pub input_position : ℕ
  pub recall_id : ℤ
  pub candidate_class : CandidateClass
  pub match_bases : List RecordMatch
  pub description : Json
  pub products : Json
  pub title : Json
  pub constraints : Option Text
  pub recall_number : Text
  pub official_url : Text
  pub recall_date_literal : Option Text
  pub last_publish_date_literal : Option Text
  pub source_observed_at : ℕ
  pub source_revision_completed_at : ℕ

-- `evaluation_releases`
pub record Release : Type 0 where
  pub evaluation_id : ℕ
  pub released_at : ℕ

-- `evaluation_audits`
pub record Audit : Type 0 where
  pub evaluation_id : ℕ
  pub founder_id : ℕ
  pub decision : AuditDecision
  pub reason_category : Option Text
  pub audited_at : ℕ

pub data Trigger : Type 0 where
  material_audit_rejection manual_founder_pause source_integrity : Trigger
  deletion_response_deadline : Trigger

-- `global_pause_state`
pub record Pause : Type 0 where
  pub is_paused : Bool
  pub trigger_kind : Option Trigger
  pub reason_category : Option Text
  pub activated_at : Option ℕ
  pub activated_by : Option ℕ
  pub resolution_note : Option Text
  pub resolved_at : Option ℕ
  pub resolved_by : Option ℕ

pub data PauseAction : Type 0 where
  activated resolved : PauseAction

-- `global_pause_events`
pub record PauseEvent : Type 0 where
  pub action : PauseAction
  pub trigger_kind : Option Trigger
  pub reason_category : Option Text
  pub actor_id : Option ℕ
  pub occurred_at : ℕ
  pub resolution_note : Option Text

-- `human_review_acknowledgements`
pub record Acknowledgement : Type 0 where
  pub acknowledgement_id : ℕ
  pub evaluation_id : ℕ
  pub operator_id : ℕ
  pub outcome : ReviewOutcome
  pub supersedes : Option ℕ
  pub acknowledged_at : ℕ

-- `agent_review_reports`
pub record Report : Type 0 where
  pub evaluation_id : ℕ
  pub operator_id : ℕ
  pub agent_key_id : ℕ
  pub outcome : ReviewOutcome
  pub reported_at : ℕ

-- `source_evidence_retrievals`
pub record Retrieval : Type 0 where
  pub evaluation_id : ℕ
  pub operator_id : ℕ
  pub agent_key_id : Option ℕ
  pub evidence_row_id : Option ℕ
  pub retrieved_at : ℕ

-- `evidence_evaluation_refreshes`
pub record Refresh : Type 0 where
  pub successor_id : ℕ
  pub predecessor_id : ℕ
  pub delta : Delta

pub record Queue : Type 0 where
  pub source : SourceTables
  pub evaluations : List Evaluation
  pub inputs : List Input
  pub rows : List EvidenceRow
  pub committed_queue_count : ℕ
  pub audits : List Audit
  pub releases : List Release
  pub pause : Pause
  pub pause_events : List PauseEvent
  pub acknowledgements : List Acknowledgement
  pub reports : List Report
  pub retrievals : List Retrieval
  pub refreshes : List Refresh

-- The exceptions that an operation raises; `integrity_error` is that of a constraint of a table, and
-- `index_error` that of a list's index.
pub data QueueError : Type 0 where
  submission_error idempotency_conflict source_unavailable globally_paused : QueueError
  reason_required multiple_results integrity_error index_error : QueueError

-- `LEFT JOIN evaluation_releases … COALESCE(evaluations.released_at, releases.released_at)`
unfoldable pub release_time : Queue → Evaluation → Option ℕ
release_time s e = elim e.released_at [
  | some t ↦ some t
  | none ↦ elim (first (select (λ r. r.evaluation_id == e.evaluation_id) s.releases)) [
    | none ↦ none
    | some r ↦ some r.released_at
  ]
]

unfoldable pub is_released : Queue → Evaluation → Bool
unfolding release_time
is_released s e = is_some (release_time s e)

-- `COALESCE(…) IS NOT NULL`, for one evaluation of one operator.
unfoldable pub released_to : Queue → ℕ → ℕ → Evaluation → Bool
unfolding is_released
released_to s operator_id evaluation_id e =
    e.evaluation_id == evaluation_id && e.operator_id == operator_id && is_released s e
