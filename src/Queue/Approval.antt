-- ===== src/Queue/Approval.antt =====
-- What the founder's audit promises: nothing that was held is released without an approval.
use agent_data_oracle.Base.{
  ℕ, ◌≤◌, ◌≡◌, refl, sym, Text, Bool, true, false, not, ◌&&◌, ◌==◌, ==_iff, ==_refl, Option, some,
  none, List, [], ◌∷◌, ◌++◌, arith, ok, err, Result, settle-keeps, any, any-append, any-imp, select,
  select-append, select-none, length, length-append, All, All-append, All-imp, one_or_none-cases,
  inl, inr, Bool-cases,
}
use agent_data_oracle.Identifier.{Unicode}
use agent_data_oracle.Queue.{
  Env, Queue, Evaluation, Audit, Release, AuditDecision, QueueError, multiple_results, is_released,
}
use agent_data_oracle.Queue.Auditing.{
  record_founder_audit, with_reason, audit_body, audit_reason, decide, activate_pause,
  is_held_for_audit, new_audit,
}
use agent_data_oracle.Queue.Releases.{unreleased}
use agent_data_oracle.Queue.Steps.{
  Step, submits, decides, pauses, resolves, reports, acknowledges, retrieves, refreshes, Steps,
  start, after, submit-SameDecisions, activate_manual_pause-SameDecisions,
  resolve_pause-SameDecisions, record_agent_review-SameDecisions,
  record_human_acknowledgement-SameDecisions, record_source_evidence_retrieval-SameDecisions,
}

abbrev pub is_approved : AuditDecision → Bool
is_approved AuditDecision.approved = true
is_approved AuditDecision.rejected = false

-- An audit of the evaluation, one that approves it, and one that rejects it.
abbrev pub audits_it : ℕ → Audit → Bool
audits_it i a = a.evaluation_id == i

abbrev pub approves : ℕ → Audit → Bool
approves i a = a.evaluation_id == i && is_approved a.decision

abbrev pub rejects : ℕ → Audit → Bool
rejects i a = a.evaluation_id == i && not (is_approved a.decision)

-- Every release has its approval, an evaluation is audited once at most, and no audit of `old` is
-- lost.
pub record DecisionsAreSound (old audits : List Audit) (releases : List Release) : Type 0 where
  pub released_approved : All (λ r. any (approves r.evaluation_id) audits ≡ true) releases
  pub audited_once : (i : ℕ) → length (select (audits_it i) audits) ≤ 1
  pub append_only : (p : Audit → Bool) → any p old ≡ true → any p audits ≡ true

abbrev pub IsSound : List Audit → Queue → Type 0
IsSound old s = DecisionsAreSound old s.audits s.releases

any-append-left :
    {A : Type 0} (p : A → Bool) (xs ys : List A) → any p xs ≡ true → any p (xs ++ ys) ≡ true
any-append-left p xs ys h = rw (any-append, h)

-- A new audit of an evaluation that had none.
audit-DecisionsAreSound :
    (old audits : List Audit) (releases : List Release) (a : Audit)
    → DecisionsAreSound old audits releases
    → any (audits_it a.evaluation_id) audits ≡ false
    → DecisionsAreSound old (audits ++ a ∷ []) releases
audit-DecisionsAreSound old audits releases a h unaudited = record {
  released_approved =
      All-imp _ _ releases (λ r. any-append-left (approves r.evaluation_id) audits (a ∷ []))
        h.released_approved;
  audited_once = λ i. elim (Bool-cases (audits_it i a)) [
    | inl e ↦
        let same : a.evaluation_id ≡ i = (==_iff a.evaluation_id i).0 e in
        let nothing : select (audits_it i) audits ≡ [] =
          select-none (audits_it i) audits (rw (sym same) unaudited) in
        rw (select-append, nothing, e) (omega arith)
    | inr e ↦
        rw (select-append, e)
          (omega (arith, length-append (select (audits_it i) audits) [], h.audited_once i))
  ];
  append_only = λ p e. any-append-left p audits (a ∷ []) (h.append_only p e);
}

-- An approval with its release keeps the decisions sound, and so does a rejection.
decide-IsSound :
    (old : List Audit) (i founder : ℕ) (decision : AuditDecision) (reason : Option Text) (now : ℕ)
    (s : Queue) (b : Bool) (s' : Queue)
    → IsSound old s
    → any (audits_it i) s.audits ≡ false
    → decide i founder decision reason now
        (record s { audits = s.audits ++ new_audit i founder decision reason now ∷ [] })
      ≡ ok (b, s')
    → IsSound old s'
unfolding decide activate_pause
decide-IsSound old i founder AuditDecision.approved reason now s b s' sound unaudited h =
    let a = new_audit i founder AuditDecision.approved reason now in
    let kept = audit-DecisionsAreSound old s.audits s.releases a sound unaudited in
    let r : Release = record { evaluation_id = i; released_at = now } in
    let grown : DecisionsAreSound old (s.audits ++ a ∷ []) (s.releases ++ r ∷ []) = record {
      released_approved =
          All-append _ s.releases (r ∷ []) kept.released_approved
            (rw (any-append, ==_refl) (ground arith), tt);
      audited_once = kept.audited_once;
      append_only = kept.append_only;
    } in
    let same_audits : s'.audits ≡ s.audits ++ a ∷ [] = ground arith in
    let same_releases : s'.releases ≡ s.releases ++ r ∷ [] = ground arith in
    rw (same_audits, same_releases) grown
decide-IsSound old i founder AuditDecision.rejected none now s b s' sound unaudited h = absurd (cc)
decide-IsSound old i founder AuditDecision.rejected (some reason) now s b s' sound unaudited h =
    let a = new_audit i founder AuditDecision.rejected (some reason) now in
    let same_audits : s'.audits ≡ s.audits ++ a ∷ [] = ground arith in
    let same_releases : s'.releases ≡ s.releases = ground arith in
    rw (same_audits, same_releases)
      (audit-DecisionsAreSound old s.audits s.releases a sound unaudited)

-- The rest of the audit, after the query for the held evaluation.
audit_body-IsSound :
    (old : List Audit) (i founder : ℕ) (decision : AuditDecision) (reason : Option Text) (now : ℕ)
    (s : Queue) (b : Bool) (s' : Queue)
    → IsSound old s
    → audit_body i founder decision reason now s ≡ ok (b, s')
    → IsSound old s'
unfolding audit_body
audit_body-IsSound old i founder decision reason now s b s' sound h =
    let held = select (λ e. e.evaluation_id == i && is_held_for_audit s e) s.evaluations in
    elim (one_or_none-cases multiple_results held) [
      | inl e ↦ absurd (ground arith)
      | inr (inl e) ↦ (let same : s' ≡ s = ground arith in rw same sound)
      | inr (inr (x, e)) ↦ elim (Bool-cases (any (audits_it i) s.audits)) [
        | inl audited ↦ (let same : s' ≡ s = ground arith in rw same sound)
        | inr unaudited ↦
            decide-IsSound old i founder decision reason now s b s' sound unaudited (ground arith)
      ]
    ]

with_reason-IsSound :
    (old : List Audit) (i founder : ℕ) (decision : AuditDecision) (now : ℕ) (s : Queue)
    (reason : Result QueueError (Option Text))
    → IsSound old s
    → IsSound old (with_reason i founder decision now s reason).1
unfolding with_reason
with_reason-IsSound old i founder decision now s (err e) sound = sound
with_reason-IsSound old i founder decision now s (ok reason) sound =
    settle-keeps (IsSound old) (audit_body i founder decision reason now s) s sound
      λ b s'. audit_body-IsSound old i founder decision reason now s b s' sound

record_founder_audit-IsSound :
    (old : List Audit) (u : Unicode) (i founder : ℕ) (decision : AuditDecision)
    (given : Option Text) (now : ℕ) (s : Queue)
    → IsSound old s
    → IsSound old (record_founder_audit u i founder decision given now s).1
unfolding record_founder_audit
record_founder_audit-IsSound old u i founder decision given now s =
    with_reason-IsSound old i founder decision now s (audit_reason u decision given)

pub Step-IsSound :
    (old : List Audit) (env : Env) (s t : Queue) → Step env s t → IsSound old s → IsSound old t
Step-IsSound old env _ _ (submits q d s) h =
    (let e = submit-SameDecisions env q d s in rw (e.0, e.1) h)
Step-IsSound old env _ _ (decides i founder decision reason now s) h =
    record_founder_audit-IsSound old env.unicode i founder decision reason now s h
Step-IsSound old env _ _ (pauses founder reason now s) h =
    (let e = activate_manual_pause-SameDecisions env founder reason now s in rw (e.0, e.1) h)
Step-IsSound old env _ _ (resolves founder note now s) h =
    (let e = resolve_pause-SameDecisions env founder note now s in rw (e.0, e.1) h)
Step-IsSound old env _ _ (reports operator key i outcome now s) h =
    (let e = record_agent_review-SameDecisions operator key i outcome now s in rw (e.0, e.1) h)
Step-IsSound old env _ _ (acknowledges operator i outcome now ack_id s) h =
    (let e = record_human_acknowledgement-SameDecisions operator i outcome now ack_id s in
      rw (e.0, e.1) h)
Step-IsSound old env _ _ (retrieves operator i key row now s) h =
    (let e = record_source_evidence_retrieval-SameDecisions operator i key row now s in
      rw (e.0, e.1) h)
Step-IsSound old env _ _ (refreshes t s) h = h

-- Every operation, and so any number of them, keeps the releases approved, the audits single and
-- the old audits in place.
pub Steps-IsSound :
    (old : List Audit) (env : Env) (s t : Queue) → Steps env s t → IsSound old s → IsSound old t
Steps-IsSound old env s t start h = h
Steps-IsSound old env s t (after u _ steps step) h =
    Step-IsSound old env u t step (Steps-IsSound old env s u steps h)

-- A queue without releases and audits, as the migrations create it.
pub empty-IsSound : (s : Queue) → s.audits ≡ [] → s.releases ≡ [] → IsSound [] s
empty-IsSound s no_audits no_releases =
    rw (no_audits, no_releases)
      (record { released_approved = tt; audited_once = λ i. omega arith; append_only = λ p h. h })

any-of-length :
    {A : Type 0} (p : A → Bool) (xs : List A) → length (select p xs) ≤ 0 → any p xs ≡ false
any-of-length p [] h = refl
any-of-length p (x ∷ xs) h = ground (arith, any-of-length p xs)

approves-audits_it : (i : ℕ) (a : Audit) → approves i a ≡ true → audits_it i a ≡ true
approves-audits_it i a h = ground arith

rejects-audits_it : (i : ℕ) (a : Audit) → rejects i a ≡ true → audits_it i a ≡ true
rejects-audits_it i a h = ground arith

-- One audit cannot both approve and reject.
rejected_not_approved :
    (i : ℕ) (audits : List Audit)
    → length (select (audits_it i) audits) ≤ 1
    → any (rejects i) audits ≡ true
    → any (approves i) audits ≡ false
rejected_not_approved i [] once rejection = refl
rejected_not_approved i (a ∷ audits) once rejection = elim (Bool-cases (audits_it i a)) [
  | inr e ↦ ground (arith, rejected_not_approved i audits)
  | inl e ↦
      let alone : any (audits_it i) audits ≡ false =
        any-of-length (audits_it i) audits (ground arith) in
      let none_rejects = any-imp (rejects i) (audits_it i) audits (rejects-audits_it i) alone in
      let none_approves = any-imp (approves i) (audits_it i) audits (approves-audits_it i) alone in
      ground arith
]

-- The release row of an evaluation stands beside an approval.
release-approved :
    (i : ℕ) (audits : List Audit) (releases : List Release)
    → All (λ r. any (approves r.evaluation_id) audits ≡ true) releases
    → any (approves i) audits ≡ false
    → select (λ r. r.evaluation_id == i) releases ≡ []
release-approved i audits [] h unapproved = refl
release-approved i audits (r ∷ releases) h unapproved = elim (Bool-cases (r.evaluation_id == i)) [
  | inl e ↦
      let same : r.evaluation_id ≡ i = (==_iff r.evaluation_id i).0 e in
      absurd (cc (same, h.0, unapproved))
  | inr e ↦ rw e (release-approved i audits releases h.1 unapproved)
]

-- Starting without audits and releases, whatever steps of `Step` are taken, in whatever order: an evaluation
-- that has no release time of its own counts as released only if there is an audit that approves it.
pub released_needs_approval :
    (env : Env) (s t : Queue) (e : Evaluation)
    → s.audits ≡ []
    → s.releases ≡ []
    → Steps env s t
    → e.released_at ≡ none
    → is_released t e ≡ true
    → any (approves e.evaluation_id) t.audits ≡ true
released_needs_approval env s t e no_audits no_releases steps held released =
    let sound = Steps-IsSound [] env s t steps (empty-IsSound s no_audits no_releases) in
    elim (Bool-cases (any (approves e.evaluation_id) t.audits)) [
      | inl approval ↦ approval
      | inr unapproved ↦
          let none_left =
            release-approved e.evaluation_id t.audits t.releases sound.released_approved
              unapproved in
          absurd (cc (released, unreleased t e held none_left))
    ]

-- Starting without audits and releases, over the calls of `EvidenceQueues` and new source data: once
-- there is an audit that rejects an evaluation that has no release time of its own, it does not
-- count as released, whatever calls follow. An erasure, which can delete the audit, is no such call.
pub rejection_is_final :
    (env : Env) (start_state s t : Queue) (e : Evaluation)
    → start_state.audits ≡ []
    → start_state.releases ≡ []
    → Steps env start_state s
    → e.released_at ≡ none
    → any (rejects e.evaluation_id) s.audits ≡ true
    → Steps env s t
    → is_released t e ≡ false
rejection_is_final env start_state s t e no_audits no_releases before held rejection later =
    let sound =
      Steps-IsSound [] env start_state s before (empty-IsSound start_state no_audits no_releases) in
    let now_old : IsSound s.audits s = record {
      released_approved = sound.released_approved;
      audited_once = sound.audited_once;
      append_only = λ p h. h;
    } in
    let after_all = Steps-IsSound s.audits env s t later now_old in
    let unapproved =
      rejected_not_approved e.evaluation_id t.audits (after_all.audited_once e.evaluation_id)
        (after_all.append_only (rejects e.evaluation_id) rejection) in
    let none_left =
      release-approved e.evaluation_id t.audits t.releases after_all.released_approved unapproved in
    unreleased t e held none_left
