-- ===== src/Queue/Pausing.antt =====
-- The global pause of `evidence_queue.py`: what its events say, and the work that it stops.
use agent_data_oracle.Base.{
  ℕ, ◌≡◌, refl, Text, Bool, true, false, Option, some, none, List, [], ◌∷◌, ◌++◌, arith, ok, err,
  Result, settle-keeps, one_or_none-cases, select, inl, inr, Result-cases, Bool-cases, any, ◌==◌,
  ◌&&◌,
}
use agent_data_oracle.Identifier.{Unicode}
use agent_data_oracle.Queue.{
  Env, Queue, AuditDecision, PauseEvent, PauseAction, activated, Trigger, QueueError,
  multiple_results, material_audit_rejection,
}
use agent_data_oracle.Queue.Submit.{
  Request, Draw, Submitted, insert_evaluation, submit, submit_body,
}
use agent_data_oracle.Queue.Outcome.{Outcome, replayed, created, submit_body-Outcome}
use agent_data_oracle.Queue.Auditing.{
  record_founder_audit, with_reason, audit_body, audit_reason, decide, activate_pause,
  activate_manual_pause, resolve_pause, is_held_for_audit, new_audit,
}
use agent_data_oracle.Queue.Reviews.{
  record_agent_review, record_human_acknowledgement, record_source_evidence_retrieval,
  retrieval_body, retrievable_rows,
}
use agent_data_oracle.Queue.Steps.{
  Step, submits, decides, pauses, resolves, reports, acknowledges, retrieves, refreshes, Steps,
  start, after,
}

abbrev pub pauses_work : PauseAction → Bool
pauses_work PauseAction.activated = true
pauses_work PauseAction.resolved = false

-- What a history of events says: paused if its last event is an activation.
abbrev pub paused_after : Bool → List PauseEvent → Bool
paused_after b [] = b
paused_after b (e ∷ es) = paused_after (pauses_work e.action) es

paused_after-append :
    (b : Bool) (es : List PauseEvent) (e : PauseEvent)
    → paused_after b (es ++ e ∷ []) ≡ pauses_work e.action
paused_after-append b [] e = refl
paused_after-append b (x ∷ es) e = paused_after-append (pauses_work x.action) es e

-- The state of the pause is what its events say.
abbrev pub PauseAgrees : Queue → Type 0
PauseAgrees s = s.pause.is_paused ≡ paused_after false s.pause_events

-- Two states with the same pause and events.
abbrev SamePause : Queue → Queue → Type 0
SamePause s t = (t.pause ≡ s.pause) × (t.pause_events ≡ s.pause_events)

Outcome-SamePause :
    (env : Env) (q : Request) (d : Draw) (s : Queue) (r : Submitted) (s' : Queue)
    → Outcome env q d s r s'
    → SamePause s s'
unfolding insert_evaluation
Outcome-SamePause env q d s r s' (replayed e only replays same) = (rw same, rw same)
Outcome-SamePause env q d s r s' (created c) = (rw c.stored, rw c.stored)

submit-PauseAgrees :
    (env : Env) (q : Request) (d : Draw) (s : Queue)
    → PauseAgrees s
    → PauseAgrees (submit env q d s).1
unfolding submit
submit-PauseAgrees env q d s agrees =
    settle-keeps PauseAgrees (submit_body env q d s) s agrees λ r s' h.
      (let e = Outcome-SamePause env q d s r s' (submit_body-Outcome env q d s r s' h) in
        rw (e.0, e.1) agrees)

activate_pause-PauseAgrees :
    (founder : ℕ) (kind : Trigger) (reason : Option Text) (now : ℕ) (s s' : Queue)
    → activate_pause founder kind reason now s ≡ ok s'
    → PauseAgrees s'
unfolding activate_pause
activate_pause-PauseAgrees founder kind none now s s' h = absurd (cc)
activate_pause-PauseAgrees founder kind (some reason) now s s' h =
    let e : PauseEvent = record {
      action = activated;
      trigger_kind = some kind;
      reason_category = some reason;
      actor_id = some founder;
      occurred_at = now;
      resolution_note = none;
    } in
    let events : s'.pause_events ≡ s.pause_events ++ e ∷ [] = ground arith in
    let paused : s'.pause.is_paused ≡ true = ground arith in
    rw (events, paused, paused_after-append)

activate_manual_pause-PauseAgrees :
    (u : Unicode) (founder : ℕ) (reason : Text) (now : ℕ) (s : Queue)
    → PauseAgrees s
    → PauseAgrees (activate_manual_pause u founder reason now s).1
unfolding activate_manual_pause activate_pause
activate_manual_pause-PauseAgrees u founder reason now s agrees = grind (arith, paused_after-append)

resolve_pause-PauseAgrees :
    (u : Unicode) (founder : ℕ) (note : Text) (now : ℕ) (s : Queue)
    → PauseAgrees s
    → PauseAgrees (resolve_pause u founder note now s).1
unfolding resolve_pause
resolve_pause-PauseAgrees u founder note now s agrees = grind (arith, paused_after-append)

decide-PauseAgrees :
    (i founder : ℕ) (decision : AuditDecision) (reason : Option Text) (now : ℕ) (s : Queue)
    (b : Bool) (s' : Queue)
    → PauseAgrees s
    → decide i founder decision reason now s ≡ ok (b, s')
    → PauseAgrees s'
unfolding decide
decide-PauseAgrees i founder AuditDecision.approved reason now s b s' agrees h =
    let same : SamePause s s' = (ground arith, ground arith) in rw (same.0, same.1) agrees
decide-PauseAgrees i founder AuditDecision.rejected reason now s b s' agrees h =
    elim (Result-cases (activate_pause founder material_audit_rejection reason now s)) [
      | inl (e, failed) ↦ absurd (ground arith)
      | inr (p, e) ↦
          let same : s' ≡ p = ground arith in
          rw same (activate_pause-PauseAgrees founder material_audit_rejection reason now s p e)
    ]

audit_body-PauseAgrees :
    (i founder : ℕ) (decision : AuditDecision) (reason : Option Text) (now : ℕ) (s : Queue)
    (b : Bool) (s' : Queue)
    → PauseAgrees s
    → audit_body i founder decision reason now s ≡ ok (b, s')
    → PauseAgrees s'
unfolding audit_body
audit_body-PauseAgrees i founder decision reason now s b s' agrees h =
    let held = select (λ e. e.evaluation_id == i && is_held_for_audit s e) s.evaluations in
    elim (one_or_none-cases multiple_results held) [
      | inl e ↦ absurd (ground arith)
      | inr (inl e) ↦ (let same : s' ≡ s = ground arith in rw same agrees)
      | inr (inr (x, e)) ↦ elim (Bool-cases (any (λ a. a.evaluation_id == i) s.audits)) [
        | inl audited ↦ (let same : s' ≡ s = ground arith in rw same agrees)
        | inr unaudited ↦
            let audits = s.audits ++ new_audit i founder decision reason now ∷ [] in
            decide-PauseAgrees i founder decision reason now (record s { audits = audits }) b s'
              agrees (ground arith)
      ]
    ]

with_reason-PauseAgrees :
    (i founder : ℕ) (decision : AuditDecision) (now : ℕ) (s : Queue)
    (reason : Result QueueError (Option Text))
    → PauseAgrees s
    → PauseAgrees (with_reason i founder decision now s reason).1
unfolding with_reason
with_reason-PauseAgrees i founder decision now s (err e) agrees = agrees
with_reason-PauseAgrees i founder decision now s (ok reason) agrees =
    settle-keeps PauseAgrees (audit_body i founder decision reason now s) s agrees
      λ b s'. audit_body-PauseAgrees i founder decision reason now s b s' agrees

retrieval-SamePause :
    (operator i : ℕ) (key row : Option ℕ) (now : ℕ) (s : Queue)
    → SamePause s (record_source_evidence_retrieval operator i key row now s).1
unfolding record_source_evidence_retrieval retrieval_body
retrieval-SamePause operator i key none now s = ground arith
retrieval-SamePause operator i key (some row) now s =
    elim (one_or_none-cases multiple_results (retrievable_rows s operator i row)) [
      | inl e ↦ (rw e, rw e)
      | inr (inl e) ↦ (rw e, rw e)
      | inr (inr (x, e)) ↦ (rw e, rw e)
    ]

Step-PauseAgrees : (env : Env) (s t : Queue) → Step env s t → PauseAgrees s → PauseAgrees t
unfolding record_founder_audit record_agent_review record_human_acknowledgement
Step-PauseAgrees env _ _ (submits q d s) h = submit-PauseAgrees env q d s h
Step-PauseAgrees env _ _ (decides i founder decision reason now s) h =
    with_reason-PauseAgrees i founder decision now s (audit_reason env.unicode decision reason) h
Step-PauseAgrees env _ _ (pauses founder reason now s) h =
    activate_manual_pause-PauseAgrees env.unicode founder reason now s h
Step-PauseAgrees env _ _ (resolves founder note now s) h =
    resolve_pause-PauseAgrees env.unicode founder note now s h
Step-PauseAgrees env _ _ (reports operator key i outcome now s) h = ground arith
Step-PauseAgrees env _ _ (acknowledges operator i outcome now ack_id s) h = ground arith
Step-PauseAgrees env _ _ (retrieves operator i key row now s) h =
    (let e = retrieval-SamePause operator i key row now s in rw (e.0, e.1) h)
Step-PauseAgrees env _ _ (refreshes t s) h = h

-- Starting from a state whose pause agrees with its events, over the calls of `EvidenceQueues` and new
-- source data, in whatever order: new work is paused exactly if the last event of the pause is an
-- activation. The pause of a rejected import, which has no event, and the erasure of events are no
-- such calls.
pub pause_agrees :
    (env : Env) (s t : Queue)
    → PauseAgrees s
    → Steps env s t
    → t.pause.is_paused ≡ paused_after false t.pause_events
pause_agrees env s t agrees start = agrees
pause_agrees env s t agrees (after u _ steps step) =
    Step-PauseAgrees env u t step (pause_agrees env s u agrees steps)
