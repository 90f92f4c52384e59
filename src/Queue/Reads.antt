-- ===== src/Queue/Reads.antt =====
-- The reads of the evidence queues: released contracts, an operator's queue, and pending audits.
use agent_data_oracle.Base.{
  ℕ, Text, text_eq, text_le, Bool, true, false, not, ◌&&◌, ◌||◌, ◌==◌, ltb, leb, Option, none, some,
  List, map, any, select, sort_by, one_or_none, if◌then◌else◌, Result, ok, ◌>>=◌, or_raise,
  flat_map, [], ◌∷◌, zero, suc,
}
use agent_data_oracle.Identifier.{CandidateClass, SubmittedIdentifier}
use agent_data_oracle.Queue.{
  Queue, Evaluation, EvidenceRow, Input, Refresh, QueueError, multiple_results, index_error,
  release_time, is_released, released_to,
}
use agent_data_oracle.Queue.Comparison.{Delta}
use agent_data_oracle.Queue.Auditing.{is_held_for_audit}

-- `EvaluationSummary`
abbrev pub Summary : Type 0
Summary = ℕ × ℕ

abbrev summary : Evaluation → Summary
summary e = (e.evaluation_id, e.evaluated_at)

abbrev latest_first : Queue → Evaluation → Evaluation → Bool
unfolding release_time
latest_first s a b = elim (release_time s a) [
  | none ↦ true
  | some t ↦ elim (release_time s b) [ none ↦ false | some u ↦ leb u t ]
]

-- `list_released`: the operator's released evaluations, the latest release first.
unfoldable pub list_released : ℕ → Queue → List Summary
unfolding is_released latest_first
list_released operator s = map summary (
    sort_by (latest_first s)
      (select (λ e. e.operator_id == operator && is_released s e) s.evaluations))

-- `EvaluationVersion`
pub record Version : Type 0 where
  pub evaluation_id : ℕ
  pub source_revision_id : ℕ
  pub normalization_version : Text
  pub matcher_version : Text

abbrev pub version : Evaluation → Version
version e = record {
  evaluation_id = e.evaluation_id;
  source_revision_id = e.source_revision_id;
  normalization_version = e.normalization_version;
  matcher_version = e.matcher_version;
}

-- `EvidenceRow` of a contract: the stored row, with the submitted identifier at its position.
pub record CandidateEvidence : Type 0 where
  pub row : EvidenceRow
  pub submitted_identifier : SubmittedIdentifier

-- `EvaluationRefresh`
pub record EvaluationRefresh : Type 0 where
  pub predecessor : Version
  pub successor : Version
  pub delta : Delta

-- `EvidenceQueueContract`
pub record Contract : Type 0 where
  pub version : Version
  pub evaluated_at : ℕ
  pub inputs : List SubmittedIdentifier
  pub candidates : List CandidateEvidence
  pub refresh : Option EvaluationRefresh

abbrev pub between : Refresh → Evaluation → Evaluation → EvaluationRefresh
between r p q = record { predecessor = version p; successor = version q; delta = r.delta }

-- A link, joined with the evaluations at its ends.
abbrev pub joined_ends : Queue → Refresh → List EvaluationRefresh
joined_ends s r =
    flat_map
      (λ (p : Evaluation).
        map (between r p) (select (λ e. e.evaluation_id == r.successor_id) s.evaluations))
      (select (λ e. e.evaluation_id == r.predecessor_id) s.evaluations)

abbrev pub touches : ℕ → Refresh → Bool
touches i r = r.predecessor_id == i || r.successor_id == i

-- The refreshes that a contract's query finds: those to the evaluation and those from it.
unfoldable pub refreshes_of : ℕ → Queue → List EvaluationRefresh
refreshes_of i s = flat_map (joined_ends s) (select (touches i) s.refreshes)

-- `submitted_inputs[row["input_position"]]`
abbrev pub at_position : ℕ → List SubmittedIdentifier → Option SubmittedIdentifier
at_position n [] = none
at_position zero (i ∷ is') = some i
at_position (suc n) (i ∷ is') = at_position n is'

-- The candidates of a contract, from the stored rows.
unfoldable pub with_identifiers :
    List SubmittedIdentifier → List EvidenceRow → Result QueueError (List CandidateEvidence)
with_identifiers inputs [] = ok []
with_identifiers inputs (r ∷ rs) =
    let rest = with_identifiers inputs rs in
    do
      i ← or_raise index_error (at_position r.input_position inputs)
      more ← rest
      ok (record { row = r; submitted_identifier = i } ∷ more)

abbrev pub in_order : Input → Input → Bool
in_order a b = leb a.row_position b.row_position

-- The identifiers that were submitted, in their order.
abbrev pub submitted_inputs : ℕ → Queue → List SubmittedIdentifier
submitted_inputs i s =
    map (λ (x : Input). x.identifier)
      (sort_by in_order (select (λ x. x.evaluation_id == i) s.inputs))

-- `last_publish_date_literal DESC NULLS LAST, recall_number, evidence_row_id`, given that the
-- classes are equal.
date_order : Option Text → Option Text → Bool → Bool
date_order none none rest = rest
date_order none (some b) rest = false
date_order (some a) none rest = true
date_order (some a) (some b) rest = if text_eq a b then rest else text_le b a

row_order : EvidenceRow → EvidenceRow → Bool
unfolding date_order
row_order a b = date_order a.last_publish_date_literal b.last_publish_date_literal (
    if text_eq a.recall_number b.recall_number
    then leb a.evidence_row_id b.evidence_row_id
    else text_le a.recall_number b.recall_number)

-- The exact candidates come first.
class_order : CandidateClass → CandidateClass → Bool → Bool
class_order CandidateClass.exact_identifier CandidateClass.possible_identifier rest = true
class_order CandidateClass.possible_identifier CandidateClass.exact_identifier rest = false
class_order _ _ rest = rest

unfoldable pub candidate_order : EvidenceRow → EvidenceRow → Bool
unfolding row_order class_order
candidate_order a b = class_order a.candidate_class b.candidate_class (row_order a b)

-- `_contract_from_evaluation`
unfoldable pub contract_from_evaluation : Queue → Evaluation → Result QueueError Contract
unfolding refreshes_of candidate_order
contract_from_evaluation s e = do
  refresh ← one_or_none multiple_results (refreshes_of e.evaluation_id s)
  candidates ←
      with_identifiers (submitted_inputs e.evaluation_id s)
        (sort_by candidate_order (select (λ r. r.evaluation_id == e.evaluation_id) s.rows))
  ok (record {
    version = version e;
    evaluated_at = e.evaluated_at;
    inputs = submitted_inputs e.evaluation_id s;
    candidates = candidates;
    refresh = refresh;
  })

unfoldable pub contract_of : Queue → Option Evaluation → Result QueueError (Option Contract)
unfolding contract_from_evaluation
contract_of s none = ok none
contract_of s (some e) = do c ← contract_from_evaluation s e; ok (some c)

-- `released_contract`
unfoldable pub released_contract : ℕ → ℕ → Queue → Result QueueError (Option Contract)
unfolding released_to contract_of
released_contract operator i s = do
  found ← one_or_none multiple_results (select (released_to s operator i) s.evaluations)
  contract_of s found

-- `OperatorQueue`: pending the founder's audit, or with its contract.
pub data OperatorQueue : Type 0 where
  pending_founder_audit : OperatorQueue
  with_contract : Contract → OperatorQueue

abbrev queue_of : Queue → Option Evaluation → Result QueueError (Option OperatorQueue)
unfolding is_released contract_from_evaluation
queue_of s none = ok none
queue_of s (some e) =
    if is_released s e
    then (do c ← contract_from_evaluation s e; ok (some (with_contract c)))
    else ok (some pending_founder_audit)

-- `operator_queue`
unfoldable pub operator_queue : ℕ → ℕ → Queue → Result QueueError (Option OperatorQueue)
unfolding queue_of
operator_queue operator i s = do
  found ←
      one_or_none multiple_results
        (select (λ e. e.evaluation_id == i && e.operator_id == operator) s.evaluations)
  queue_of s found

-- Held for audit and not audited yet.
unfoldable pub is_pending_audit : Queue → Evaluation → Bool
unfolding is_held_for_audit
is_pending_audit s e =
    is_held_for_audit s e && not (any (λ a. a.evaluation_id == e.evaluation_id) s.audits)

abbrev oldest_first : Evaluation → Evaluation → Bool
oldest_first a b =
    ltb a.evaluated_at b.evaluated_at
    || (a.evaluated_at == b.evaluated_at && leb a.evaluation_id b.evaluation_id)

-- `pending_audits`
unfoldable pub pending_audits : Queue → List Summary
unfolding is_pending_audit
pending_audits s = map summary (sort_by oldest_first (select (is_pending_audit s) s.evaluations))

-- `pending_audit_contract`
unfoldable pub pending_audit_contract : ℕ → Queue → Result QueueError (Option Contract)
unfolding is_pending_audit contract_of
pending_audit_contract i s = do
  found ←
      one_or_none multiple_results
        (select (λ e. e.evaluation_id == i && is_pending_audit s e) s.evaluations)
  contract_of s found

-- `global_pause`
unfoldable pub global_pause : Queue → Bool × Option Text
global_pause s = (s.pause.is_paused, s.pause.reason_category)
