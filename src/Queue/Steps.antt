-- ===== src/Queue/Steps.antt =====
-- The operations of `evidence_queue.py` that write, as steps between the states of the queue.
use agent_data_oracle.Base.{
  ℕ, ◌≡◌, refl, Text, Option, some, none, arith, settle-keeps, one_or_none-cases, inl, inr,
}
use agent_data_oracle.Source.{SourceTables}
use agent_data_oracle.Queue.{Env, Queue, AuditDecision, ReviewOutcome, multiple_results}
use agent_data_oracle.Queue.Submit.{
  Request, Draw, Submitted, insert_evaluation, submit, submit_body,
}
use agent_data_oracle.Queue.Outcome.{Outcome, replayed, created, submit_body-Outcome}
use agent_data_oracle.Queue.Auditing.{
  record_founder_audit, activate_manual_pause, resolve_pause, activate_pause,
}
use agent_data_oracle.Queue.Reviews.{
  record_agent_review, record_human_acknowledgement, record_source_evidence_retrieval,
  retrieval_body, retrievable_rows,
}

-- One call of `EvidenceQueues` that writes, by an operator, a founder or an agent; or new source data.
-- A submission may stem from a refresh. The other writes to the queue's tables, of the source worker
-- and of the data rights (a pause of their own, and erasure), are added in `Program`.
pub data Step (env : Env) : Queue → Queue → Type 0 where
  submits : (q : Request) (d : Draw) (s : Queue) → Step env s (submit env q d s).1
  decides :
      (i founder : ℕ) (decision : AuditDecision) (reason : Option Text) (now : ℕ) (s : Queue)
      → Step env s (record_founder_audit env.unicode i founder decision reason now s).1
  pauses :
      (founder : ℕ) (reason : Text) (now : ℕ) (s : Queue)
      → Step env s (activate_manual_pause env.unicode founder reason now s).1
  resolves :
      (founder : ℕ) (note : Text) (now : ℕ) (s : Queue)
      → Step env s (resolve_pause env.unicode founder note now s).1
  reports :
      (operator key i : ℕ) (outcome : ReviewOutcome) (now : ℕ) (s : Queue)
      → Step env s (record_agent_review operator key i outcome now s).1
  acknowledges :
      (operator i : ℕ) (outcome : ReviewOutcome) (now ack_id : ℕ) (s : Queue)
      → Step env s (record_human_acknowledgement operator i outcome now ack_id s).1
  retrieves :
      (operator i : ℕ) (key row : Option ℕ) (now : ℕ) (s : Queue)
      → Step env s (record_source_evidence_retrieval operator i key row now s).1
  refreshes : (t : SourceTables) (s : Queue) → Step env s (record s { source = t })

-- Any number of steps, the last one outermost.
pub data Steps (env : Env) (s : Queue) : Queue → Type 0 where
  start : Steps env s s
  after : (t u : Queue) → Steps env s t → Step env t u → Steps env s u

-- Two states with the same audits and releases.
abbrev pub SameDecisions : Queue → Queue → Type 0
SameDecisions s t = (t.audits ≡ s.audits) × (t.releases ≡ s.releases)

Outcome-SameDecisions :
    (env : Env) (q : Request) (d : Draw) (s : Queue) (r : Submitted) (s' : Queue)
    → Outcome env q d s r s'
    → SameDecisions s s'
unfolding insert_evaluation
Outcome-SameDecisions env q d s r s' (replayed e only replays same) = (rw same, rw same)
Outcome-SameDecisions env q d s r s' (created c) = (rw c.stored, rw c.stored)

pub submit-SameDecisions :
    (env : Env) (q : Request) (d : Draw) (s : Queue) → SameDecisions s (submit env q d s).1
unfolding submit
submit-SameDecisions env q d s =
    settle-keeps (SameDecisions s) (submit_body env q d s) s (refl, refl)
      λ r s' h. Outcome-SameDecisions env q d s r s' (submit_body-Outcome env q d s r s' h)

pub activate_manual_pause-SameDecisions :
    (env : Env) (founder : ℕ) (reason : Text) (now : ℕ) (s : Queue)
    → SameDecisions s (activate_manual_pause env.unicode founder reason now s).1
unfolding activate_manual_pause activate_pause
activate_manual_pause-SameDecisions env founder reason now s = ground arith

pub resolve_pause-SameDecisions :
    (env : Env) (founder : ℕ) (note : Text) (now : ℕ) (s : Queue)
    → SameDecisions s (resolve_pause env.unicode founder note now s).1
unfolding resolve_pause
resolve_pause-SameDecisions env founder note now s = ground arith

pub record_agent_review-SameDecisions :
    (operator key i : ℕ) (outcome : ReviewOutcome) (now : ℕ) (s : Queue)
    → SameDecisions s (record_agent_review operator key i outcome now s).1
unfolding record_agent_review
record_agent_review-SameDecisions operator key i outcome now s = ground arith

pub record_human_acknowledgement-SameDecisions :
    (operator i : ℕ) (outcome : ReviewOutcome) (now ack_id : ℕ) (s : Queue)
    → SameDecisions s (record_human_acknowledgement operator i outcome now ack_id s).1
unfolding record_human_acknowledgement
record_human_acknowledgement-SameDecisions operator i outcome now ack_id s = ground arith

pub record_source_evidence_retrieval-SameDecisions :
    (operator i : ℕ) (key row : Option ℕ) (now : ℕ) (s : Queue)
    → SameDecisions s (record_source_evidence_retrieval operator i key row now s).1
unfolding record_source_evidence_retrieval retrieval_body
record_source_evidence_retrieval-SameDecisions operator i key none now s = ground arith
record_source_evidence_retrieval-SameDecisions operator i key (some row) now s =
    elim (one_or_none-cases multiple_results (retrievable_rows s operator i row)) [
      | inl e ↦ (rw e, rw e)
      | inr (inl e) ↦ (rw e, rw e)
      | inr (inr (x, e)) ↦ (rw e, rw e)
    ]
