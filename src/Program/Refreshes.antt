-- ===== src/Program/Refreshes.antt =====
-- The refresh links under all writes of the program: each leads to a later row, so that the walk of
-- a refresh ends.
use agent_data_oracle.Base.{
  ℕ, suc, ◌<◌, ◌≡◌, refl, Text, Bool, true, false, not, ◌&&◌, ◌||◌, ◌==◌, Option, some, none,
  is_some, List, [], ◌∷◌, ◌++◌, arith, ok, err, Result, settle-keeps, any, length, select, All,
  All-imp, All-append, All-select, one_or_none-cases, inl, inr, Bool-cases, Option-cases,
}
use agent_data_oracle.Queue.{
  Env, Queue, Evaluation, Refresh, AuditDecision, QueueError, multiple_results,
}
use agent_data_oracle.Queue.Submit.{
  Request, Draw, Submitted, insert_evaluation, link, link_is_refused, id_is_taken, CandidateRow,
  submit, submit_body,
}
use agent_data_oracle.Queue.Outcome.{Outcome, replayed, created, submit_body-Outcome}
use agent_data_oracle.Queue.Auditing.{
  record_founder_audit, with_reason, audit_body, audit_reason, decide, activate_pause,
  is_held_for_audit, new_audit, activate_manual_pause, resolve_pause,
}
use agent_data_oracle.Queue.Reviews.{
  record_agent_review, record_human_acknowledgement, record_source_evidence_retrieval,
  retrieval_body, retrievable_rows,
}
use agent_data_oracle.Queue.Refreshing.{refresh_evaluation}
use agent_data_oracle.Queue.Refreshing.Fuel.{IsRanked, refresh_evaluation-ends}
use agent_data_oracle.Queue.Steps.{
  Step, submits, decides, pauses, resolves, reports, acknowledges, retrieves, refreshes,
}
use agent_data_oracle.Rights.Cleanup.{delete_where, erase_queue, is_own_evaluation}
use agent_data_oracle.Ingest.{IngestEnv}
use agent_data_oracle.Program.{Writes}
use agent_data_oracle.Program.Keeping.{IsKept, Writes-keep}
use agent_data_oracle.Program.Ordering.{
  has_id, position, position-le, position-present, position-kept, position-grows, position-absent,
  present-position, position-select,
}

-- A link leads from a row of the table to one behind it.
abbrev LeadsOn : List Evaluation → Refresh → Type 0
LeadsOn es r = position r.predecessor_id es < position r.successor_id es

abbrev IsOrdered : Queue → Type 0
IsOrdered s = All (LeadsOn s.evaluations) s.refreshes

abbrev SameLinks : Queue → Queue → Type 0
SameLinks s t = (t.evaluations ≡ s.evaluations) × (t.refreshes ≡ s.refreshes)

grown-LeadsOn : (es more : List Evaluation) (r : Refresh) → LeadsOn es r → LeadsOn (es ++ more) r
grown-LeadsOn es more r before =
    let kept =
      position-kept r.predecessor_id es more
        (position-present r.predecessor_id r.successor_id es before) in
    let grown = position-grows r.successor_id es more in omega (arith, before, kept, grown)

-- The link of a new evaluation, whose identifier is free and whose predecessor is there.
new-before :
    (es : List Evaluation) (e : Evaluation) (i j : ℕ)
    → any (has_id j) es ≡ false
    → any (has_id i) es ≡ true
    → position i (es ++ e ∷ []) < position j (es ++ e ∷ [])
new-before es e i j free there =
    let kept = position-kept i es (e ∷ []) there in
    let low = present-position i es there in
    let behind = position-absent j es free in
    let grown = position-grows j es (e ∷ []) in omega (arith, kept, low, behind, grown)

link-LeadsOn :
    (env : Env) (q : Request) (d : Draw) (s : Queue) (cs : List CandidateRow) (e : Evaluation)
    → id_is_taken d s ≡ false
    → link_is_refused q.refresh_from s ≡ false
    → All (LeadsOn (s.evaluations ++ e ∷ [])) (link env q d s cs)
unfolding link
link-LeadsOn env q d s cs e free accepted = elim (Option-cases q.refresh_from) [
  | inl k ↦ rw k tt
  | inr (i, k) ↦
      let known = rw k at accepted in
      rw k (new-before s.evaluations e i d.evaluation_id free (ground arith), tt)
]

Outcome-IsOrdered :
    (env : Env) (q : Request) (d : Draw) (s : Queue) (r : Submitted) (s' : Queue)
    → IsOrdered s
    → Outcome env q d s r s'
    → IsOrdered s'
unfolding insert_evaluation
Outcome-IsOrdered env q d s r s' h (replayed e only replays same) = rw same h
Outcome-IsOrdered env q d s r s' h (created c) = rw c.stored (
    All-append _ s.refreshes (link env q d s c.found)
      (All-imp _ _ s.refreshes (grown-LeadsOn s.evaluations _) h)
      (link-LeadsOn env q d s c.found _ c.fresh c.accepted))

submit-IsOrdered :
    (env : Env) (q : Request) (d : Draw) (s : Queue) → IsOrdered s → IsOrdered (submit env q d s).1
unfolding submit
submit-IsOrdered env q d s h =
    settle-keeps IsOrdered (submit_body env q d s) s h
      λ r s' k. Outcome-IsOrdered env q d s r s' h (submit_body-Outcome env q d s r s' k)

decide-SameLinks :
    (i founder : ℕ) (decision : AuditDecision) (reason : Option Text) (now : ℕ) (s : Queue)
    (b : Bool) (s' : Queue)
    → decide i founder decision reason now s ≡ ok (b, s')
    → SameLinks s s'
unfolding decide activate_pause
decide-SameLinks i founder AuditDecision.approved reason now s b s' h = (ground arith, ground arith)
decide-SameLinks i founder AuditDecision.rejected none now s b s' h = absurd (cc)
decide-SameLinks i founder AuditDecision.rejected (some x) now s b s' h =
    (ground arith, ground arith)

audit_body-SameLinks :
    (i founder : ℕ) (decision : AuditDecision) (reason : Option Text) (now : ℕ) (s : Queue)
    (b : Bool) (s' : Queue)
    → audit_body i founder decision reason now s ≡ ok (b, s')
    → SameLinks s s'
unfolding audit_body
audit_body-SameLinks i founder decision reason now s b s' h =
    let held = select (λ e. e.evaluation_id == i && is_held_for_audit s e) s.evaluations in
    elim (one_or_none-cases multiple_results held) [
      | inl e ↦ absurd (ground arith)
      | inr (inl e) ↦ (let same : s' ≡ s = ground arith in rw same (refl, refl))
      | inr (inr (x, e)) ↦ elim (Bool-cases (any (λ a. a.evaluation_id == i) s.audits)) [
        | inl audited ↦ (let same : s' ≡ s = ground arith in rw same (refl, refl))
        | inr unaudited ↦
            decide-SameLinks i founder decision reason now
              (record s { audits = s.audits ++ new_audit i founder decision reason now ∷ [] }) b s'
              (ground arith)
      ]
    ]

with_reason-SameLinks :
    (i founder : ℕ) (decision : AuditDecision) (now : ℕ) (s : Queue)
    (reason : Result QueueError (Option Text))
    → SameLinks s (with_reason i founder decision now s reason).1
unfolding with_reason
with_reason-SameLinks i founder decision now s (err e) = (refl, refl)
with_reason-SameLinks i founder decision now s (ok reason) =
    settle-keeps (SameLinks s) (audit_body i founder decision reason now s) s (refl, refl)
      λ b s'. audit_body-SameLinks i founder decision reason now s b s'

retrieval-SameLinks :
    (operator i : ℕ) (key row : Option ℕ) (now : ℕ) (s : Queue)
    → SameLinks s (record_source_evidence_retrieval operator i key row now s).1
unfolding record_source_evidence_retrieval retrieval_body
retrieval-SameLinks operator i key none now s = ground arith
retrieval-SameLinks operator i key (some row) now s =
    elim (one_or_none-cases multiple_results (retrievable_rows s operator i row)) [
      | inl e ↦ (rw e, rw e)
      | inr (inl e) ↦ (rw e, rw e)
      | inr (inr (x, e)) ↦ (rw e, rw e)
    ]

same-IsOrdered : (s t : Queue) → SameLinks s t → IsOrdered s → IsOrdered t
same-IsOrdered s t same h = rw (same.0, same.1) h

Step-IsOrdered : (env : Env) (s t : Queue) → Step env s t → IsOrdered s → IsOrdered t
unfolding record_founder_audit activate_manual_pause activate_pause resolve_pause
    record_agent_review record_human_acknowledgement
Step-IsOrdered env _ _ (submits q d s) h = submit-IsOrdered env q d s h
Step-IsOrdered env _ _ (decides i founder decision reason now s) h =
    same-IsOrdered s
      (with_reason i founder decision now s (audit_reason env.unicode decision reason)).1
      (with_reason-SameLinks i founder decision now s (audit_reason env.unicode decision reason)) h
Step-IsOrdered env _ _ (pauses founder reason now s) h =
    same-IsOrdered s (activate_manual_pause env.unicode founder reason now s).1 (ground arith) h
Step-IsOrdered env _ _ (resolves founder note now s) h =
    same-IsOrdered s (resolve_pause env.unicode founder note now s).1 (ground arith) h
Step-IsOrdered env _ _ (reports operator key i outcome now s) h =
    same-IsOrdered s (record_agent_review operator key i outcome now s).1 (ground arith) h
Step-IsOrdered env _ _ (acknowledges operator i outcome now ack_id s) h =
    same-IsOrdered s (record_human_acknowledgement operator i outcome now ack_id s).1 (ground arith)
      h
Step-IsOrdered env _ _ (retrieves operator i key row now s) h =
    same-IsOrdered s (record_source_evidence_retrieval operator i key row now s).1
      (retrieval-SameLinks operator i key row now s) h
Step-IsOrdered env _ _ (refreshes t s) h = h

-- An erasure deletes the links of the evaluations that it deletes.
erasure-IsOrdered : (i : ℕ) (s : Queue) → IsOrdered s → IsOrdered (erase_queue i s)
unfolding erase_queue
erasure-IsOrdered i s h =
    let own = is_own_evaluation i s in
    let kept = λ (r : Refresh). not (own r.successor_id || own r.predecessor_id) in
    All-imp _ _ (select kept s.refreshes)
      (λ r x.
        position-select own r.predecessor_id r.successor_id s.evaluations (ground arith)
          (ground arith) x.0)
      (All-select (LeadsOn s.evaluations) kept s.refreshes h)

expiry-IsOrdered :
    (p : Refresh → Bool) (s : Queue)
    → IsOrdered s
    → IsOrdered (record s { refreshes = delete_where p s.refreshes })
expiry-IsOrdered p s h =
    All-imp _ _ (delete_where p s.refreshes) (λ r x. x.0)
      (All-select (LeadsOn s.evaluations) (λ r. not (p r)) s.refreshes h)

IsOrdered-IsKept : (env : Env) → IsKept env IsOrdered
IsOrdered-IsKept env = record {
  by_same = λ s t same h. rw (same.evaluations, same.refreshes) h;
  by_step = Step-IsOrdered env;
  by_erasure = erasure-IsOrdered;
  by_expiry = expiry-IsOrdered;
}

ordered-IsRanked :
    (s : Queue) → IsOrdered s → IsRanked (λ i. position i s.evaluations) (length s.evaluations) s
ordered-IsRanked s h =
    All-imp _ _ s.refreshes (λ r before. (before, position-le r.successor_id s.evaluations)) h

-- Starting without refresh links, whatever the program writes to the queue's tables, in whatever
-- order, by calls on the queue, imports, refreshes of the source and cleanups with their erasures:
-- the walk of a refresh ends after as many calls as there are evaluations and one more, with a
-- result or a raise, from any evaluation and whatever the clock reads.
pub refresh_evaluation-returns :
    (env : Env) (ingest : IngestEnv) (print : ℕ → Text) (clock : ℕ → ℕ) (d : Draw) (operator i : ℕ)
    {s t : Queue}
    → s.refreshes ≡ []
    → Writes env ingest s t
    → is_some (refresh_evaluation env print clock d operator (suc (length t.evaluations)) i t)
      ≡ true
refresh_evaluation-returns env ingest print clock d operator i {s} {t} no_links writes =
    let begun : IsOrdered s = rw no_links tt in
    let ordered = Writes-keep env ingest IsOrdered (IsOrdered-IsKept env) writes begun in
    refresh_evaluation-ends (λ i. position i t.evaluations) (length t.evaluations) env print clock d
      operator (suc (length t.evaluations)) i t (ordered-IsRanked t ordered) (omega arith)
      (position-le i t.evaluations)
