-- ===== src/Program/Rejections.antt =====
-- Rejections under all writes of the program: a rejection that stands holds its evaluation back.
use agent_data_oracle.Base.{
  ℕ, ◌≡◌, refl, Text, Bool, true, false, ◌&&◌, ◌==◌, ==_iff, Option, some, none, List, [], ◌∷◌,
  ◌++◌, arith, ok, err, Result, settle-keeps, any, any-append, select, select-none,
  one_or_none-cases, one_or_none-eq-some, inl, inr, Bool-cases,
}
use agent_data_oracle.Queue.{
  Env, Queue, Evaluation, Audit, Release, AuditDecision, QueueError, multiple_results, is_released,
}
use agent_data_oracle.Queue.Auditing.{
  record_founder_audit, with_reason, audit_body, audit_reason, decide, activate_pause,
  is_held_for_audit, new_audit,
}
use agent_data_oracle.Queue.Approval.{audits_it, rejects}
use agent_data_oracle.Queue.Releases.{unreleased}
use agent_data_oracle.Queue.Deciding.{selected-passes}
use agent_data_oracle.Queue.Steps.{
  Step, submits, decides, pauses, resolves, reports, acknowledges, retrieves, refreshes,
  submit-SameDecisions, activate_manual_pause-SameDecisions, resolve_pause-SameDecisions,
  record_agent_review-SameDecisions, record_human_acknowledgement-SameDecisions,
  record_source_evidence_retrieval-SameDecisions,
}
use agent_data_oracle.Rights.Cleanup.{erase_queue}
use agent_data_oracle.Rights.Deleting.{any-select-none}
use agent_data_oracle.Ingest.{IngestEnv}
use agent_data_oracle.Program.{Writes}
use agent_data_oracle.Program.Keeping.{IsKept, Writes-keep}

abbrev releases_it : ℕ → Release → Bool
releases_it i r = r.evaluation_id == i

-- An evaluation with a rejection has no release row.
abbrev Apart : List Audit → List Release → Type 0
Apart audits releases =
    (i : ℕ) → any (rejects i) audits ≡ true → any (releases_it i) releases ≡ false

abbrev IsApart : Queue → Type 0
IsApart s = Apart s.audits s.releases

none-rejects :
    (i : ℕ) (as' : List Audit) → any (audits_it i) as' ≡ false → any (rejects i) as' ≡ false
none-rejects i [] h = refl
none-rejects i (a ∷ as') h = ground (arith, none-rejects i as')

decide-IsApart :
    (i founder : ℕ) (decision : AuditDecision) (reason : Option Text) (now : ℕ) (s : Queue)
    (b : Bool) (s' : Queue)
    → IsApart s
    → any (audits_it i) s.audits ≡ false
    → any (releases_it i) s.releases ≡ false
    → decide i founder decision reason now
        (record s { audits = s.audits ++ new_audit i founder decision reason now ∷ [] })
      ≡ ok (b, s')
    → IsApart s'
unfolding decide activate_pause
decide-IsApart i founder AuditDecision.approved reason now s b s' apart unaudited unreleased' h =
    let r : Release = record { evaluation_id = i; released_at = now } in
    let a = new_audit i founder AuditDecision.approved reason now in
    let same_audits : s'.audits ≡ s.audits ++ a ∷ [] = ground arith in
    let same_releases : s'.releases ≡ s.releases ++ r ∷ [] = ground arith in
    λ j rejection.
      let old : any (rejects j) s.audits ≡ true =
        let k = rw (same_audits, any-append) at rejection in ground arith in
      let kept = apart j old in
      elim (Bool-cases (i == j)) [
        | inl e ↦
            let same : i ≡ j = (==_iff i j).0 e in
            let unrejected = none-rejects i s.audits unaudited in cc
        | inr e ↦ rw (same_releases, any-append, kept, e) refl
      ]
decide-IsApart i founder AuditDecision.rejected none now s b s' apart unaudited unreleased' h =
    absurd (cc)
decide-IsApart i founder AuditDecision.rejected (some x) now s b s' apart unaudited unreleased' h =
    let a = new_audit i founder AuditDecision.rejected (some x) now in
    let same_audits : s'.audits ≡ s.audits ++ a ∷ [] = ground arith in
    let same_releases : s'.releases ≡ s.releases = ground arith in
    λ j rejection. elim (Bool-cases (i == j)) [
      | inl e ↦ let same : i ≡ j = (==_iff i j).0 e in rw (same_releases, ← same) unreleased'
      | inr e ↦
          let old : any (rejects j) s.audits ≡ true =
            let k = rw (same_audits, any-append) at rejection in ground arith in
          rw same_releases (apart j old)
    ]

-- An evaluation that is held has no release row.
held-unreleased :
    (i : ℕ) (s : Queue) (x : Evaluation)
    → (x.evaluation_id == i && is_held_for_audit s x) ≡ true
    → any (releases_it i) s.releases ≡ false
unfolding is_held_for_audit
held-unreleased i s x h =
    let same : x.evaluation_id ≡ i = (==_iff x.evaluation_id i).0 (ground arith) in
    rw (← same) (ground arith)

audit_body-IsApart :
    (i founder : ℕ) (decision : AuditDecision) (reason : Option Text) (now : ℕ) (s : Queue)
    (b : Bool) (s' : Queue)
    → IsApart s
    → audit_body i founder decision reason now s ≡ ok (b, s')
    → IsApart s'
unfolding audit_body
audit_body-IsApart i founder decision reason now s b s' apart h =
    let held = select (λ e. e.evaluation_id == i && is_held_for_audit s e) s.evaluations in
    elim (one_or_none-cases multiple_results held) [
      | inl e ↦ absurd (ground arith)
      | inr (inl e) ↦ (let same : s' ≡ s = ground arith in rw same apart)
      | inr (inr (x, e)) ↦ elim (Bool-cases (any (audits_it i) s.audits)) [
        | inl audited ↦ (let same : s' ≡ s = ground arith in rw same apart)
        | inr unaudited ↦
            decide-IsApart i founder decision reason now s b s' apart unaudited
              (held-unreleased i s x (
                selected-passes (λ e. e.evaluation_id == i && is_held_for_audit s e) s.evaluations
                  (one_or_none-eq-some multiple_results held e)))
              (ground arith)
      ]
    ]

with_reason-IsApart :
    (i founder : ℕ) (decision : AuditDecision) (now : ℕ) (s : Queue)
    (reason : Result QueueError (Option Text))
    → IsApart s
    → IsApart (with_reason i founder decision now s reason).1
unfolding with_reason
with_reason-IsApart i founder decision now s (err e) apart = apart
with_reason-IsApart i founder decision now s (ok reason) apart =
    settle-keeps IsApart (audit_body i founder decision reason now s) s apart
      λ b s'. audit_body-IsApart i founder decision reason now s b s' apart

Step-IsApart : (env : Env) (s t : Queue) → Step env s t → IsApart s → IsApart t
unfolding record_founder_audit
Step-IsApart env _ _ (submits q d s) h = (let e = submit-SameDecisions env q d s in rw (e.0, e.1) h)
Step-IsApart env _ _ (decides i founder decision reason now s) h =
    with_reason-IsApart i founder decision now s (audit_reason env.unicode decision reason) h
Step-IsApart env _ _ (pauses founder reason now s) h =
    (let e = activate_manual_pause-SameDecisions env founder reason now s in rw (e.0, e.1) h)
Step-IsApart env _ _ (resolves founder note now s) h =
    (let e = resolve_pause-SameDecisions env founder note now s in rw (e.0, e.1) h)
Step-IsApart env _ _ (reports operator key i outcome now s) h =
    (let e = record_agent_review-SameDecisions operator key i outcome now s in rw (e.0, e.1) h)
Step-IsApart env _ _ (acknowledges operator i outcome now ack_id s) h =
    (let e = record_human_acknowledgement-SameDecisions operator i outcome now ack_id s in
      rw (e.0, e.1) h)
Step-IsApart env _ _ (retrieves operator i key row now s) h =
    (let e = record_source_evidence_retrieval-SameDecisions operator i key row now s in
      rw (e.0, e.1) h)
Step-IsApart env _ _ (refreshes t s) h = h

any-select-true :
    {A : Type 0} (p q : A → Bool) (xs : List A) → any p (select q xs) ≡ true → any p xs ≡ true
any-select-true p q xs h = elim (Bool-cases (any p xs)) [
  | inl e ↦ e
  | inr e ↦ let none_left = any-select-none p q xs e in cc
]

-- An erasure takes audits and releases away, and adds none.
erasure-IsApart : (i : ℕ) (s : Queue) → IsApart s → IsApart (erase_queue i s)
unfolding erase_queue
erasure-IsApart i s apart j rejection =
    any-select-none (releases_it j) _ s.releases
      (apart j (any-select-true (rejects j) _ s.audits rejection))

IsApart-IsKept : (env : Env) → IsKept env IsApart
IsApart-IsKept env = record {
  by_same = λ s t same apart. rw (same.audits, same.releases) apart;
  by_step = Step-IsApart env;
  by_erasure = erasure-IsApart;
  by_expiry = λ p s apart. apart;
}

-- Starting without audits, whatever the program writes to the queue's tables, in whatever order, by
-- calls on the queue, imports, refreshes of the source and cleanups with their erasures: as long as
-- an audit stands that rejects an evaluation with no release time of its own, the evaluation does
-- not count as released.
pub rejection_holds_back :
    (env : Env) (ingest : IngestEnv) {s t : Queue} (e : Evaluation)
    → s.audits ≡ []
    → Writes env ingest s t
    → e.released_at ≡ none
    → any (rejects e.evaluation_id) t.audits ≡ true
    → is_released t e ≡ false
rejection_holds_back env ingest {s} {t} e no_audits writes held rejection =
    let start_apart : IsApart s = λ i h. absurd (cc (no_audits, h)) in
    let apart = Writes-keep env ingest IsApart (IsApart-IsKept env) writes start_apart in
    unreleased t e held
      (select-none (releases_it e.evaluation_id) t.releases (apart e.evaluation_id rejection))
