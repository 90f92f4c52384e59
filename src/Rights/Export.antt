-- ===== src/Rights/Export.antt =====
-- `export_operator`: the operator's own rows, as the export groups them.
use agent_data_oracle.Base.{
  ℕ, Text, Bool, ◌&&◌, ◌||◌, ltb, leb, ◌==◌, Option, none, some, List, map, select, first, sort_by,
}
use agent_data_oracle.Queue.{
  Queue, Evaluation, Input, EvidenceRow, Acknowledgement, Report, release_time, is_released,
}
use agent_data_oracle.Queue.Reads.{candidate_order}
use agent_data_oracle.Agent.{AgentKey}
use agent_data_oracle.Access.{OperatorRow}
use agent_data_oracle.Rights.{RightsTables}

pub record ExportedAccount : Type 0 where
  pub email : Text
  pub operator_type : Option Text
  pub sells_into_us : Option Bool
  pub declaration_recorded_at : Option ℕ
  pub created_at : ℕ

pub record ExportedSubmission : Type 0 where
  pub evaluation_id : ℕ
  pub source_revision_id : ℕ
  pub evaluated_at : ℕ
  pub normalization_version : Text
  pub matcher_version : Text
  pub has_candidates : Bool
  pub inputs : List Input

pub record ExportedRelease : Type 0 where
  pub evaluation_id : ℕ
  pub source_revision_id : ℕ
  pub evaluated_at : ℕ
  pub has_candidates : Bool
  pub released_at : Option ℕ
  pub evidence_rows : List EvidenceRow

-- The columns of a key that are exported: no secret.
pub record ExportedKey : Type 0 where
  pub agent_key_id : ℕ
  pub secret_prefix : Text
  pub scopes : List Text
  pub created_at : ℕ
  pub last_used_at : Option ℕ
  pub revoked_at : Option ℕ

pub record Export : Type 0 where
  pub account : ExportedAccount
  pub submissions : List ExportedSubmission
  pub released_evaluations : List ExportedRelease
  pub acknowledgements : List Acknowledgement
  pub review_reports : List Report
  pub delegated_keys : List ExportedKey

abbrev pub account_of : OperatorRow → ExportedAccount
account_of o = record {
  email = o.email_normalized;
  operator_type = o.operator_type;
  sells_into_us = o.sells_into_us;
  declaration_recorded_at = o.declaration_recorded_at;
  created_at = o.created_at;
}

-- `ORDER BY` a first column, and a second where the first is equal.
abbrev pub by_two : ℕ → ℕ → ℕ → ℕ → Bool
by_two a b i j = ltb a b || (a == b && leb i j)

abbrev pub own_evaluations : ℕ → Queue → List Evaluation
own_evaluations i s = select (λ (e : Evaluation). e.operator_id == i) s.evaluations

abbrev pub submission_of : Queue → Evaluation → ExportedSubmission
submission_of s e = record {
  evaluation_id = e.evaluation_id;
  source_revision_id = e.source_revision_id;
  evaluated_at = e.evaluated_at;
  normalization_version = e.normalization_version;
  matcher_version = e.matcher_version;
  has_candidates = e.has_candidates;
  inputs =
      sort_by (λ x y. leb x.row_position y.row_position)
        (select (λ (x : Input). x.evaluation_id == e.evaluation_id) s.inputs);
}

unfoldable pub export_submissions : ℕ → Queue → List ExportedSubmission
export_submissions i s = map (submission_of s) (
    sort_by (λ a b. by_two a.evaluated_at b.evaluated_at a.evaluation_id b.evaluation_id)
      (own_evaluations i s))

-- `ORDER BY released_at, evaluation_id`; only released evaluations are compared.
abbrev pub released_before : Option ℕ → Option ℕ → ℕ → ℕ → Bool
released_before (some a) (some b) i j = by_two a b i j
released_before _ _ i j = leb i j

abbrev pub release_of : Queue → Evaluation → ExportedRelease
unfolding release_time candidate_order
release_of s e = record {
  evaluation_id = e.evaluation_id;
  source_revision_id = e.source_revision_id;
  evaluated_at = e.evaluated_at;
  has_candidates = e.has_candidates;
  released_at = release_time s e;
  evidence_rows =
      sort_by candidate_order
        (select (λ (r : EvidenceRow). r.evaluation_id == e.evaluation_id) s.rows);
}

unfoldable pub export_released : ℕ → Queue → List ExportedRelease
unfolding is_released release_time
export_released i s = map (release_of s) (
    sort_by
      (λ a b. released_before (release_time s a) (release_time s b) a.evaluation_id b.evaluation_id)
      (select (is_released s) (own_evaluations i s)))

abbrev pub exported_key : AgentKey → ExportedKey
exported_key k = record {
  agent_key_id = k.agent_key_id;
  secret_prefix = k.secret_prefix;
  scopes = k.scopes;
  created_at = k.created_at;
  last_used_at = k.last_used_at;
  revoked_at = k.revoked_at;
}

-- The export of an account that was found. Reports of the same time keep their order of insertion.
unfoldable pub export_found : ℕ → RightsTables → Option OperatorRow → Option Export
unfolding export_submissions export_released
export_found i s none = none
export_found i s (some o) = some (record {
  account = account_of o;
  submissions = export_submissions i s.queue;
  released_evaluations = export_released i s.queue;
  acknowledgements =
      sort_by
        (λ a b.
          by_two a.acknowledged_at b.acknowledged_at a.acknowledgement_id b.acknowledgement_id)
        (select (λ (a : Acknowledgement). a.operator_id == i) s.queue.acknowledgements);
  review_reports =
      sort_by (λ a b. leb a.reported_at b.reported_at)
        (select (λ (r : Report). r.operator_id == i) s.queue.reports);
  delegated_keys = map exported_key (
      sort_by (λ a b. by_two a.created_at b.created_at a.agent_key_id b.agent_key_id)
        (select (λ (k : AgentKey). k.operator_id == i) s.keys));
})

-- `export_operator`
unfoldable pub export_operator : ℕ → RightsTables → Option Export
unfolding export_found
export_operator i s =
    export_found i s (first (select (λ (o : OperatorRow). o.operator_id == i) s.access.operators))
