-- ===== src/Examples/Audits.antt =====
-- Runs of the founder's audit, of the pause and of refresh links.
use agent_data_oracle.Base.{
  first, map, select, ◌≡◌, ◌≢◌, refl, Text, codes, text_eq, strip, true, false, some, none, [], ◌∷◌,
  arith, any, ok, err,
}
use agent_data_oracle.Json.{get}
use agent_data_oracle.Identifier.{normalize_identifier, compact}
use agent_data_oracle.Identifier.Matching.{match_cpsc_record, match_typed, string_values}
use agent_data_oracle.Source.{
  current_completed, source_observed_at, source_revision_id, source_records,
}
use agent_data_oracle.Queue.{
  Queue, Evaluation, approved, rejected, multiple_results, normalization_version, matcher_version,
  is_released, release_time,
}
use agent_data_oracle.Queue.Comparison.{Delta}
use agent_data_oracle.Queue.Submit.{
  submit, submit_body, replay_or_create, create, usable_revision, candidate_rows, match_records,
  evidence_rows, evidence_row, insert_evaluation,
}
use agent_data_oracle.Queue.Auditing.{
  record_founder_audit, with_reason, audit_reason, audit_body, decide, activate_pause,
  is_held_for_audit,
}
use agent_data_oracle.Queue.Reads.{contract_from_evaluation, is_pending_audit}
use agent_data_oracle.Queue.Steps.{Steps, start, after, submits, decides}
use agent_data_oracle.Queue.Approval.{approves, released_needs_approval, rejection_is_final}
use agent_data_oracle.Queue.Deciding.{
  Approved, Rejected, approval_releases, rejection_pauses, audited_once,
}
use agent_data_oracle.Queue.Pausing.{paused_after, pause_agrees}
use agent_data_oracle.Queue.Chains.{middle_of_chain_raises}
use agent_data_oracle.Queue.{Acknowledgement, not_sure, reviewed_same_product, released_to}
use agent_data_oracle.Queue.Reviews.{current_acknowledgements, record_human_acknowledgement}
use agent_data_oracle.Queue.Acknowledging.{OneIsCurrent, acknowledgement_replaces}
use agent_data_oracle.Queue.Reads.{
  Contract, version, released_contract, contract_of, refreshes_of, with_identifiers,
}
use agent_data_oracle.Queue.Isolation.{ReadBy, ContractOf, released_contract-ContractOf}
use agent_data_oracle.Base.{arith}
use agent_data_oracle.Examples.Inputs.{ascii}
use agent_data_oracle.Examples.Queues.{env, fresh, request, draw, held}

-- The evaluation that the submission has created, held for the founder.
abbrev pub held_evaluation : Evaluation
held_evaluation = record {
  evaluation_id = 3;
  operator_id = 7;
  source_revision_id = 5;
  evaluated_at = 2000;
  normalization_version = normalization_version;
  matcher_version = matcher_version;
  has_candidates = true;
  released_at = none;
  idempotency_key = codes "0123456789abcdef";
  submission_hash = codes "0-12";
}

abbrev pub wrong_product : Text
wrong_product = codes "wrong product"

abbrev after_approval : Queue
after_approval = (record_founder_audit ascii 3 1 approved none 3000 held).1

abbrev pub after_rejection : Queue
after_rejection = (record_founder_audit ascii 3 1 rejected (some wrong_product) 3000 held).1

abbrev submitted : Steps env fresh held
submitted = after fresh held start (submits request draw fresh)

abbrev submitted_and_approved : Steps env fresh after_approval
submitted_and_approved = after held after_approval submitted (decides 3 1 approved none 3000 held)

abbrev submitted_and_rejected : Steps env fresh after_rejection
submitted_and_rejected =
    after held after_rejection submitted (decides 3 1 rejected (some wrong_product) 3000 held)

released_needs_approval_example : any (approves 3) after_approval.audits ≡ true
unfolding submit submit_body replay_or_create create usable_revision source_observed_at
    source_revision_id current_completed source_records candidate_rows match_records
    match_cpsc_record match_typed string_values get normalize_identifier compact text_eq
    evidence_rows evidence_row insert_evaluation record_founder_audit with_reason audit_reason
    audit_body decide is_held_for_audit is_released release_time
released_needs_approval_example =
    released_needs_approval env fresh after_approval held_evaluation refl refl
      submitted_and_approved refl refl

abbrev after_attempt : Queue
after_attempt = (record_founder_audit ascii 3 1 approved none 4000 after_rejection).1

-- A later approval is of no effect.
rejection_is_final_example : is_released after_attempt held_evaluation ≡ false
unfolding submit submit_body replay_or_create create usable_revision source_observed_at
    source_revision_id current_completed source_records candidate_rows match_records
    match_cpsc_record match_typed string_values get normalize_identifier compact text_eq
    evidence_rows evidence_row insert_evaluation record_founder_audit with_reason audit_reason
    audit_body decide activate_pause is_held_for_audit strip
rejection_is_final_example =
    rejection_is_final env fresh after_rejection after_attempt held_evaluation refl refl
      submitted_and_rejected refl refl
      (after after_rejection after_attempt start (decides 3 1 approved none 4000 after_rejection))

pause_agrees_example :
    after_rejection.pause.is_paused ≡ paused_after false after_rejection.pause_events
pause_agrees_example = pause_agrees env fresh after_rejection refl submitted_and_rejected

-- A queue with the held evaluation, written out.
abbrev awaiting : Queue
awaiting = record fresh { evaluations = held_evaluation ∷ [] }

approval_releases_example :
    Approved awaiting held_evaluation 3000
      (record_founder_audit ascii 3 1 approved none 3000 awaiting)
unfolding is_pending_audit is_held_for_audit
approval_releases_example = approval_releases ascii 3 1 3000 awaiting held_evaluation refl refl

rejection_pauses_example :
    Rejected wrong_product awaiting held_evaluation
      (record_founder_audit ascii 3 1 rejected (some wrong_product) 3000 awaiting)
unfolding is_pending_audit is_held_for_audit strip
rejection_pauses_example =
    rejection_pauses ascii 3 1 3000 awaiting held_evaluation wrong_product refl refl refl
      (omega arith)

audited_once_example :
    let s = (record_founder_audit ascii 3 1 approved none 3000 awaiting).1 in
    ((record_founder_audit ascii 3 2 rejected (some wrong_product) 4000 s).1 ≡ s)
    × ((record_founder_audit ascii 3 2 rejected (some wrong_product) 4000 s).0 ≢ ok true)
unfolding record_founder_audit with_reason audit_reason audit_body decide is_held_for_audit
audited_once_example =
    audited_once ascii 3 1 2 approved rejected none (some wrong_product) 3000 4000 awaiting refl

abbrev no_change : Delta
no_change = record { added = []; changed = []; removed = [] }

-- Evaluation 3 refreshes 2, and 4 refreshes 3.
abbrev chain : Queue
chain = record awaiting {
  evaluations =
      held_evaluation
      ∷ record held_evaluation { evaluation_id = 2; released_at = some 1000 }
      ∷ record held_evaluation { evaluation_id = 4; released_at = some 3000 }
      ∷ [];
  refreshes =
      record { successor_id = 3; predecessor_id = 2; delta = no_change }
      ∷ record { successor_id = 4; predecessor_id = 3; delta = no_change }
      ∷ [];
}

middle_of_chain_raises_example :
    contract_from_evaluation chain held_evaluation ≡ err multiple_results
middle_of_chain_raises_example =
    middle_of_chain_raises chain held_evaluation ((refl, refl), ((refl, refl), tt)) refl refl

abbrev first_acknowledgement : Acknowledgement
first_acknowledgement = record {
  acknowledgement_id = 11;
  evaluation_id = 3;
  operator_id = 7;
  outcome = reviewed_same_product;
  supersedes = none;
  acknowledged_at = 5000;
}

-- A queue whose evaluation has been released, with one acknowledgement.
abbrev released : Queue
released = record fresh {
  evaluations = record held_evaluation { released_at = some 2000 } ∷ [];
  acknowledgements = first_acknowledgement ∷ [];
}

released-OneIsCurrent : OneIsCurrent released.acknowledgements
unfolding current_acknowledgements
released-OneIsCurrent operator i = ground arith

acknowledgement_replaces_example :
    (new : Acknowledgement) × (new.outcome ≡ not_sure)
    × (new.supersedes
        ≡ first (
            map
              (λ a. a.acknowledgement_id)
              (current_acknowledgements 7 3 released.acknowledgements)))
    × (current_acknowledgements 7 3
          (record_human_acknowledgement 7 3 not_sure 6000 12 released).1.acknowledgements
        ≡ new ∷ [])
    × OneIsCurrent (record_human_acknowledgement 7 3 not_sure 6000 12 released).1.acknowledgements
unfolding released_to is_released release_time
acknowledgement_replaces_example =
    acknowledgement_replaces 7 3 not_sure 6000 12 released refl (refl, refl) released-OneIsCurrent

abbrev released_evaluation : Evaluation
released_evaluation = record held_evaluation { released_at = some 2000 }

abbrev the_contract : Contract
the_contract = record {
  version = version released_evaluation;
  evaluated_at = 2000;
  inputs = [];
  candidates = [];
  refresh = none;
}

released_contract-ContractOf_example :
    (e : Evaluation) × (select (released_to released 7 3) released.evaluations ≡ e ∷ [])
    × ReadBy 7 3 released e
    × ContractOf released e the_contract
unfolding released_contract released_to is_released release_time contract_of
    contract_from_evaluation refreshes_of with_identifiers
released_contract-ContractOf_example = released_contract-ContractOf 7 3 released the_contract refl
