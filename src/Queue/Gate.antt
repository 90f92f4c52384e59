-- ===== src/Queue/Gate.antt =====
-- The guards of new work, and the founder's audit gate.
use agent_data_oracle.Base.{
  ℕ, ◌+◌, ◌≤◌, ◌≡◌, true, false, Option, some, none, List, [], ◌∷◌, ◌++◌, arith, ok, Option-cases,
  Bool-cases, ◌⊎◌, inl, inr, length, ◌↔◌, not, if◌then◌else◌, ◌==◌,
}
use agent_data_oracle.Source.{source_observed_at, source_revision_id}
use agent_data_oracle.Queue.{Env, Queue, Evaluation, hours}
use agent_data_oracle.Queue.Submit.{
  Request, Draw, Submitted, CandidateRow, new_evaluation, insert_evaluation, usable_revision,
  is_held, submit, counts,
}
use agent_data_oracle.Queue.Outcome.{
  Outcome, Created, replayed, created, submit_body-Outcome, submit-eq-ok,
}

-- What `usable_revision` has tested.
pub record Usable (d : Draw) (s : Queue) (revision : ℕ) : Type 0 where
  pub observed_at : ℕ
  pub not_paused : s.pause.is_paused ≡ false
  pub observed : source_observed_at s.source ≡ some observed_at
  pub fresh : d.evaluated_at ≤ observed_at + hours 48
  pub completed : source_revision_id s.source ≡ some revision

usable_revision-eq-ok :
    (d : Draw) (s : Queue) (revision : ℕ) → usable_revision d s ≡ ok revision → Usable d s revision
unfolding usable_revision
usable_revision-eq-ok d s revision h = elim (Option-cases (source_observed_at s.source)) [
  | inl e ↦ absurd (ground arith)
  | inr (t, e) ↦ record {
    observed_at = t;
    not_paused = ground arith;
    observed = e;
    fresh = ground arith;
    completed = ground arith;
  }
]

pub Outcome-Created :
    (env : Env) (q : Request) (d : Draw) (s : Queue) (r : Submitted) (s' : Queue)
    → Outcome env q d s r s'
    → r.created ≡ true
    → Created env q d s r s'
Outcome-Created env q d s r s' (replayed e only replays same) h = absurd (ground arith)
Outcome-Created env q d s r s' (created c) h = c

-- An evaluation is created only while new work is not paused and the current completed revision
-- was observed at most 48 hours before; it is stored with that revision.
pub created-guards :
    (env : Env) (q : Request) (d : Draw) (s : Queue) (r : Submitted)
    → (submit env q d s).0 ≡ ok r
    → r.created ≡ true
    → (revision : ℕ) × Usable d s revision
      × (found : List CandidateRow) × ((submit env q d s).1.evaluations
          ≡ s.evaluations
            ++ new_evaluation env q d revision found (s.committed_queue_count + 1) ∷ [])
unfolding insert_evaluation
created-guards env q d s r h fresh =
    let c =
      Outcome-Created env q d s r _ (submit_body-Outcome env q d s r _ (submit-eq-ok env q d s h))
        fresh in
    (c.revision, usable_revision-eq-ok d s c.revision c.usable, c.found, rw c.stored)

-- The release time that a new evaluation gets.
abbrev release_of : List CandidateRow → ℕ → ℕ → Option ℕ
release_of found n now = if is_held found n then none else some now

held_iff :
    (found : List CandidateRow) (n now : ℕ)
    → (release_of found n now ≡ none) ↔ ((not (length found == 0) ≡ true) × (n ≤ 20))
held_iff found n now = (λ h. ground arith, λ h. ground arith)

release_of-cases :
    (found : List CandidateRow) (n now : ℕ)
    → (release_of found n now ≡ none) ⊎ (release_of found n now ≡ some now)
release_of-cases found n now = elim (Bool-cases (is_held found n)) [
  | inl h ↦ inl (rw h)
  | inr h ↦ inr (rw h)
]

-- An evaluation that is created with the queue number `n` (one more than the committed count) is
-- held for the founder exactly if it has candidates and `n` is at most 20, and is otherwise
-- released at the time it was evaluated; the count grows by one exactly if the evaluation counts
-- toward the gate.
pub created-gate :
    (env : Env) (q : Request) (d : Draw) (s : Queue) (r : Submitted)
    → (submit env q d s).0 ≡ ok r
    → r.created ≡ true
    → (e : Evaluation) × ((submit env q d s).1.evaluations ≡ s.evaluations ++ e ∷ [])
      × ((e.released_at ≡ none) ↔ ((e.has_candidates ≡ true) × (s.committed_queue_count + 1 ≤ 20)))
      × ((e.released_at ≡ none) ⊎ (e.released_at ≡ some r.evaluated_at))
      × ((submit env q d s).1.committed_queue_count
          ≡ (if counts q d then s.committed_queue_count + 1 else s.committed_queue_count))
unfolding insert_evaluation
created-gate env q d s r h fresh =
    let c =
      Outcome-Created env q d s r _ (submit_body-Outcome env q d s r _ (submit-eq-ok env q d s h))
        fresh in
    let e = new_evaluation env q d c.revision c.found (s.committed_queue_count + 1) in
    (
      e,
      rw c.stored,
      held_iff c.found (s.committed_queue_count + 1) d.evaluated_at,
      rw c.returned (release_of-cases c.found (s.committed_queue_count + 1) d.evaluated_at),
      rw c.stored,
    )
