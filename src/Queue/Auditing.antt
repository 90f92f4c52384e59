-- ===== src/Queue/Auditing.antt =====
-- The founder's audit of held evaluations, and the global pause.
use agent_data_oracle.Base.{
  ℕ, Text, Bool, true, false, not, ◌&&◌, ◌||◌, ltb, ◌==◌, Option, none, some, [], ◌∷◌, ◌++◌, length,
  any, select, is_some, is_empty, strip, one_or_none, if◌then◌else◌, Result, ok, err, ◌>>=◌,
  transaction,
}
use agent_data_oracle.Identifier.{Unicode}
use agent_data_oracle.Queue.{
  Queue, Evaluation, AuditDecision, Trigger, Audit, activated, resolved, material_audit_rejection,
  manual_founder_pause, QueueError, reason_required, multiple_results,
}

-- The rejection's reason, or its absence, as the audit stores it.
unfoldable pub audit_reason :
    Unicode → AuditDecision → Option Text → Result QueueError (Option Text)
audit_reason u AuditDecision.rejected none = err reason_required
audit_reason u AuditDecision.rejected (some r) =
    if is_empty (strip u.is_space r) || ltb 120 (length r)
    then err reason_required
    else ok (some (strip u.is_space r))
audit_reason u AuditDecision.approved none = ok none
audit_reason u AuditDecision.approved (some r) = err reason_required

-- `outcome = 'candidates' AND evaluations.released_at IS NULL AND releases.evaluation_id IS NULL`
unfoldable pub is_held_for_audit : Queue → Evaluation → Bool
is_held_for_audit s e =
    e.has_candidates
    && not (is_some e.released_at)
    && not (any (λ r. r.evaluation_id == e.evaluation_id) s.releases)

-- `_activate_pause`: the state, with the resolution of the last pause cleared, and an event.
unfoldable pub activate_pause : ℕ → Trigger → Option Text → ℕ → Queue → Result QueueError Queue
activate_pause founder kind none now s = err reason_required
activate_pause founder kind (some reason) now s = ok (record s {
  pause = record {
    is_paused = true;
    trigger_kind = some kind;
    reason_category = some reason;
    activated_at = some now;
    activated_by = some founder;
    resolution_note = none;
    resolved_at = none;
    resolved_by = none;
  };
  pause_events =
      s.pause_events
      ++ record {
        action = activated;
        trigger_kind = some kind;
        reason_category = some reason;
        actor_id = some founder;
        occurred_at = now;
        resolution_note = none;
      }
        ∷ [];
})

abbrev pub new_audit : ℕ → ℕ → AuditDecision → Option Text → ℕ → Audit
new_audit i founder decision reason now = record {
  evaluation_id = i;
  founder_id = founder;
  decision = decision;
  reason_category = reason;
  audited_at = now;
}

-- The effect of the decision, after the audit has been recorded.
unfoldable pub decide :
    ℕ → ℕ → AuditDecision → Option Text → ℕ → Queue → Result QueueError (Bool × Queue)
unfolding activate_pause
decide i founder AuditDecision.approved reason now s = ok (
  true,
  record s { releases = s.releases ++ record { evaluation_id = i; released_at = now } ∷ [] },
)
decide i founder AuditDecision.rejected reason now s = do
  paused ← activate_pause founder material_audit_rejection reason now s
  ok (true, paused)

unfoldable pub audit_body :
    ℕ → ℕ → AuditDecision → Option Text → ℕ → Queue → Result QueueError (Bool × Queue)
unfolding is_held_for_audit decide
audit_body i founder decision reason now s = do
  held ←
      one_or_none multiple_results
        (select (λ e. e.evaluation_id == i && is_held_for_audit s e) s.evaluations)
  elim held [
    | none ↦ ok (false, s)
    | some e ↦
        if any (λ a. a.evaluation_id == i) s.audits
        then ok (false, s)
        else decide i founder decision reason now
            (record s { audits = s.audits ++ new_audit i founder decision reason now ∷ [] })
  ]

-- The audit's transaction, once its reason is validated.
unfoldable pub with_reason :
    ℕ
    → ℕ
    → AuditDecision
    → ℕ
    → Queue
    → Result QueueError (Option Text)
    → Result QueueError Bool × Queue
with_reason i founder decision now s (err e) = (err e, s)
with_reason i founder decision now s (ok reason) =
    transaction (audit_body i founder decision reason now) s

-- `record_founder_audit`
unfoldable pub record_founder_audit :
    Unicode → ℕ → ℕ → AuditDecision → Option Text → ℕ → Queue → Result QueueError Bool × Queue
unfolding with_reason
record_founder_audit u i founder decision given now s =
    with_reason i founder decision now s (audit_reason u decision given)

-- `activate_manual_pause`
unfoldable pub activate_manual_pause :
    Unicode → ℕ → Text → ℕ → Queue → Result QueueError Bool × Queue
unfolding activate_pause
activate_manual_pause u founder given now s =
    let reason = strip u.is_space given in
    if is_empty reason || ltb 120 (length reason)
    then (err reason_required, s)
    else transaction
        (λ s. if s.pause.is_paused then ok (false, s) else (do
          paused ← activate_pause founder manual_founder_pause (some reason) now s
          ok (true, paused)))
        s

-- `resolve_pause`
unfoldable pub resolve_pause : Unicode → ℕ → Text → ℕ → Queue → Result QueueError Bool × Queue
resolve_pause u founder given now s =
    let note = strip u.is_space given in
    if is_empty note || ltb 500 (length note)
    then (err reason_required, s)
    else if not s.pause.is_paused
    then (ok false, s)
    else (
      ok true,
      record s {
        pause = record s.pause {
          is_paused = false;
          resolved_at = some now;
          resolved_by = some founder;
          resolution_note = some note;
        };
        pause_events =
            s.pause_events
            ++ record {
              action = resolved;
              trigger_kind = s.pause.trigger_kind;
              reason_category = s.pause.reason_category;
              actor_id = some founder;
              occurred_at = now;
              resolution_note = some note;
            }
              ∷ [];
      },
    )
