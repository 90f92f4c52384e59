-- ===== src/Queue/Deciding.antt =====
-- The founder's audit of one pending evaluation: its effects, and that it is given once.
use agent_data_oracle.Base.{
  ℕ, ◌≡◌, ◌≢◌, refl, ◌∙◌, ◌≤◌, length, strip, is_empty, All-one, All-select, All-true, Text, Bool,
  true, false, ◌&&◌, ◌==◌, ==_iff, ==_refl, Option, some, none, List, [], ◌∷◌, ◌++◌, arith, ok, err,
  Result, any, any-append, select, select-append, one_or_none-cases, Bool-cases, inl, inr,
  settle-eq-ok,
}
use agent_data_oracle.Identifier.{Unicode}
use agent_data_oracle.Queue.{
  Queue, Evaluation, AuditDecision, QueueError, multiple_results, is_released, release_time,
  material_audit_rejection,
}
use agent_data_oracle.Queue.Auditing.{
  record_founder_audit, with_reason, audit_body, audit_reason, decide, activate_pause,
  is_held_for_audit, new_audit,
}
use agent_data_oracle.Queue.Reads.{is_pending_audit}
use agent_data_oracle.Queue.Releases.{
  unreleased, release_time-row, pending-held, audited-not-pending,
}

-- A query with a further test.
pub select-select :
    {A : Type 0} (p q : A → Bool) (xs : List A)
    → select (λ x. p x && q x) xs ≡ select q (select p xs)
select-select p q [] = refl
select-select p q (x ∷ xs) = ground (arith, select-select p q xs)

pub selected-passes :
    {A : Type 0} (p : A → Bool) (xs : List A) {x : A} → select p xs ≡ x ∷ [] → p x ≡ true
selected-passes p xs e = (All-one _ _ e (All-select (λ _. Unit {0}) p xs (All-true (λ _. tt) xs))).1

audited_changes_nothing :
    (i founder : ℕ) (decision : AuditDecision) (now : ℕ) (s : Queue)
    (reason : Result QueueError (Option Text))
    → any (λ a. a.evaluation_id == i) s.audits ≡ true
    → ((with_reason i founder decision now s reason).1 ≡ s)
      × ((with_reason i founder decision now s reason).0 ≢ ok true)
unfolding with_reason audit_body
audited_changes_nothing i founder decision now s (err e) h = (refl, λ k. absurd (cc))
audited_changes_nothing i founder decision now s (ok reason) h =
    let held = select (λ e. e.evaluation_id == i && is_held_for_audit s e) s.evaluations in
    elim (one_or_none-cases multiple_results held) [
      | inl e ↦ (rw e, λ k. absurd (ground arith))
      | inr (inl e) ↦ (rw e, λ k. absurd (ground arith))
      | inr (inr (x, e)) ↦ (rw (e, h), λ k. absurd (ground arith))
    ]

decide-records :
    (i founder : ℕ) (decision : AuditDecision) (reason : Option Text) (now : ℕ) (s s' : Queue)
    (b : Bool)
    → any (λ a. a.evaluation_id == i) s.audits ≡ true
    → decide i founder decision reason now s ≡ ok (b, s')
    → any (λ a. a.evaluation_id == i) s'.audits ≡ true
unfolding decide activate_pause
decide-records i founder AuditDecision.approved reason now s s' b h e =
    let same : s'.audits ≡ s.audits = ground arith in rw same h
decide-records i founder AuditDecision.rejected none now s s' b h e = absurd (cc)
decide-records i founder AuditDecision.rejected (some r) now s s' b h e =
    let same : s'.audits ≡ s.audits = ground arith in rw same h

body-records :
    (i founder : ℕ) (decision : AuditDecision) (reason : Option Text) (now : ℕ) (s s' : Queue)
    → audit_body i founder decision reason now s ≡ ok (true, s')
    → any (λ a. a.evaluation_id == i) s'.audits ≡ true
unfolding audit_body
body-records i founder decision reason now s s' h =
    let held = select (λ e. e.evaluation_id == i && is_held_for_audit s e) s.evaluations in
    elim (one_or_none-cases multiple_results held) [
      | inl e ↦ absurd (ground arith)
      | inr (inl e) ↦ absurd (ground arith)
      | inr (inr (x, e)) ↦ elim (Bool-cases (any (λ a. a.evaluation_id == i) s.audits)) [
        | inl audited ↦ absurd (ground arith)
        | inr unaudited ↦
            let audits = s.audits ++ new_audit i founder decision reason now ∷ [] in
            decide-records i founder decision reason now (record s { audits = audits }) s' true
              (rw (any-append, ==_refl) (ground arith)) (ground arith)
      ]
    ]

recorded :
    (i founder : ℕ) (decision : AuditDecision) (now : ℕ) (s : Queue)
    (reason : Result QueueError (Option Text))
    → (with_reason i founder decision now s reason).0 ≡ ok true
    → any (λ a. a.evaluation_id == i) (with_reason i founder decision now s reason).1.audits ≡ true
unfolding with_reason
recorded i founder decision now s (err e) h = absurd (cc)
recorded i founder decision now s (ok reason) h =
    body-records i founder decision reason now s _
      (settle-eq-ok (audit_body i founder decision reason now s) s h)

-- The audit of an evaluation that awaits it reaches the decision.
pending-decides :
    (i founder : ℕ) (decision : AuditDecision) (reason : Option Text) (now : ℕ) (s : Queue)
    (e : Evaluation)
    → select (λ x. x.evaluation_id == i) s.evaluations ≡ e ∷ []
    → is_pending_audit s e ≡ true
    → audit_body i founder decision reason now s
      ≡ decide i founder decision reason now
          (record s { audits = s.audits ++ new_audit i founder decision reason now ∷ [] })
unfolding audit_body is_pending_audit
pending-decides i founder decision reason now s e only pending =
    let is_it = λ (x : Evaluation). x.evaluation_id == i in
    let found : select (λ x. is_it x && is_held_for_audit s x) s.evaluations ≡ e ∷ [] =
      select-select is_it (is_held_for_audit s) s.evaluations ∙ (rw only (ground arith)) in
    let same = selected-passes is_it s.evaluations only in
    let unaudited : any (λ a. a.evaluation_id == i) s.audits ≡ false =
      rw⁻¹ ((==_iff e.evaluation_id i).0 same) (ground arith) in
    rw (found, unaudited)

-- What an approval has done.
pub record Approved (s : Queue) (e : Evaluation) (now : ℕ)
    (outcome : Result QueueError Bool × Queue) : Type 0 where
  pub returns : outcome.0 ≡ ok true
  pub released : release_time outcome.1 e ≡ some now
  pub audited : is_pending_audit outcome.1 e ≡ false
  pub same_pause : outcome.1.pause ≡ s.pause

-- What a rejection has done.
pub record Rejected (reason : Text) (s : Queue) (e : Evaluation)
    (outcome : Result QueueError Bool × Queue) : Type 0 where
  pub returns : outcome.0 ≡ ok true
  pub unreleased : is_released outcome.1 e ≡ false
  pub audited : is_pending_audit outcome.1 e ≡ false
  pub paused : outcome.1.pause.is_paused ≡ true
  pub kind : outcome.1.pause.trigger_kind ≡ some material_audit_rejection
  pub reason_category : outcome.1.pause.reason_category ≡ some reason

-- An approval of an evaluation that awaits its audit, and whose number no other evaluation has,
-- releases it at the time of the audit, takes it off the founder's list and leaves the pause alone.
pub approval_releases :
    (u : Unicode) (i founder now : ℕ) (s : Queue) (e : Evaluation)
    → select (λ x. x.evaluation_id == i) s.evaluations ≡ e ∷ []
    → is_pending_audit s e ≡ true
    → Approved s e now (record_founder_audit u i founder AuditDecision.approved none now s)
unfolding record_founder_audit with_reason audit_reason decide
approval_releases u i founder now s e only pending =
    let body = pending-decides i founder AuditDecision.approved none now s e only pending in
    let (held, no_row, _) = pending-held s e pending in
    let same =
      (==_iff e.evaluation_id i).0
        (selected-passes (λ x. x.evaluation_id == i) s.evaluations only) in
    record {
      returns = rw body;
      released = rw body (
          release_time-row _ e (record { evaluation_id = i; released_at = now }) held
            (rw (select-append, no_row, same, ==_refl)));
      audited = rw body (audited-not-pending _ e (rw (any-append, same, ==_refl) (ground arith)));
      same_pause = rw body;
    }

-- A rejection, with a reason of at most 120 characters that is not blank, of an evaluation that awaits its
-- audit, and whose number no other evaluation has, keeps it unreleased, takes it off the founder's
-- list and pauses new work for that reason,
-- without its outer spaces.
pub rejection_pauses :
    (u : Unicode) (i founder now : ℕ) (s : Queue) (e : Evaluation) (given : Text)
    → select (λ x. x.evaluation_id == i) s.evaluations ≡ e ∷ []
    → is_pending_audit s e ≡ true
    → is_empty (strip u.is_space given) ≡ false
    → length given ≤ 120
    → Rejected
        (strip u.is_space given)
        s
        e
        (record_founder_audit u i founder AuditDecision.rejected (some given) now s)
unfolding record_founder_audit with_reason audit_reason decide activate_pause
rejection_pauses u i founder now s e given only pending some_text short =
    let valid : audit_reason u AuditDecision.rejected (some given)
        ≡ ok (some (strip u.is_space given)) =
      ground arith in
    let body =
      pending-decides i founder AuditDecision.rejected (some (strip u.is_space given)) now s e only
        pending in
    let (held, no_row, _) = pending-held s e pending in
    let same =
      (==_iff e.evaluation_id i).0
        (selected-passes (λ x. x.evaluation_id == i) s.evaluations only) in
    record {
      returns = rw (valid, body);
      unreleased = rw (valid, body) (unreleased _ e held no_row);
      audited =
          rw (valid, body)
            (audited-not-pending _ e (rw (any-append, same, ==_refl) (ground arith)));
      paused = rw (valid, body);
      kind = rw (valid, body);
      reason_category = rw (valid, body);
    }

-- In the state that a recorded audit has left, no audit of the same evaluation, by any founder, at
-- any time and with any decision and reason, changes anything or reports success.
pub audited_once :
    (u : Unicode) (i founder founder' : ℕ) (decision decision' : AuditDecision)
    (given given' : Option Text) (now now' : ℕ) (s : Queue)
    → (record_founder_audit u i founder decision given now s).0 ≡ ok true
    → let s' = (record_founder_audit u i founder decision given now s).1 in
      ((record_founder_audit u i founder' decision' given' now' s').1 ≡ s')
      × ((record_founder_audit u i founder' decision' given' now' s').0 ≢ ok true)
unfolding record_founder_audit
audited_once u i founder founder' decision decision' given given' now now' s h =
    audited_changes_nothing i founder' decision' now' _ (audit_reason u decision' given')
      (recorded i founder decision now s (audit_reason u decision given) h)
