-- ===== src/Queue/Releases.antt =====
-- When an evaluation counts as released, and when it awaits its audit.
use agent_data_oracle.Base.{
  ◌≡◌, true, false, ◌==◌, some, none, List, [], ◌∷◌, arith, any, select, select-none, Option-cases,
  inl, inr,
}
use agent_data_oracle.Queue.{Queue, Evaluation, Release, is_released, release_time}
use agent_data_oracle.Queue.Auditing.{is_held_for_audit}
use agent_data_oracle.Queue.Reads.{is_pending_audit}

-- The release rows of an evaluation.
abbrev pub release_rows : Queue → Evaluation → List Release
release_rows s e = select (λ r. r.evaluation_id == e.evaluation_id) s.releases

pub unreleased :
    (s : Queue) (e : Evaluation)
    → e.released_at ≡ none
    → select (λ r. r.evaluation_id == e.evaluation_id) s.releases ≡ []
    → is_released s e ≡ false
unfolding is_released release_time
unreleased s e held no_row = elim (Option-cases e.released_at) [
  | inl h ↦ ground arith
  | inr (t, h) ↦ absurd (cc)
]

pub release_time-row :
    (s : Queue) (e : Evaluation) (r : Release)
    → e.released_at ≡ none
    → release_rows s e ≡ r ∷ []
    → release_time s e ≡ some r.released_at
unfolding release_time
release_time-row s e r held row = elim (Option-cases e.released_at) [
  | inl h ↦ rw (release_time, h, row)
  | inr (t, h) ↦ absurd (cc)
]

-- An evaluation that awaits its audit has not been released, and has no audit.
pub pending-held :
    (s : Queue) (e : Evaluation)
    → is_pending_audit s e ≡ true
    → (e.released_at ≡ none)
      × (release_rows s e ≡ [])
      × (any (λ a. a.evaluation_id == e.evaluation_id) s.audits ≡ false)
unfolding is_pending_audit is_held_for_audit
pending-held s e pending = (
  ground arith,
  select-none (λ r. r.evaluation_id == e.evaluation_id) s.releases (ground arith),
  ground arith,
)

pub audited-not-pending :
    (s : Queue) (e : Evaluation)
    → any (λ a. a.evaluation_id == e.evaluation_id) s.audits ≡ true
    → is_pending_audit s e ≡ false
unfolding is_pending_audit
audited-not-pending s e audited = ground arith
