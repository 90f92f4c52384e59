-- ===== src/Queue/Outcome.antt =====
-- What a successful submission has done: replayed a token, or created an evaluation.
use agent_data_oracle.Base.{
  ℕ, ◌≡◌, refl, Option, some, none, List, [], ◌∷◌, ok, Result, ◌>>=◌, >>=-eq-ok, raise_if,
  settle-eq-ok, one_or_none, select, not, true, false, Bool,
}
use agent_data_oracle.Source.{source_records}
use agent_data_oracle.Queue.{
  Env, Queue, Evaluation, EvidenceRow, QueueError, multiple_results, submission_error,
  integrity_error,
}
use agent_data_oracle.Queue.Submit.{
  Request, Draw, Submitted, CandidateRow, same_token, replay, usable_revision, candidate_rows,
  evidence_rows, insert_evaluation, create, replay_or_create, submit_body, submit, token_is_valid,
  id_is_taken, link_is_refused,
}

-- The parts of a creation.
pub record Created (env : Env) (q : Request) (d : Draw) (s : Queue) (r : Submitted) (s' : Queue)
    : Type 0 where
  pub revision : ℕ
  pub found : List CandidateRow
  pub rows : List EvidenceRow
  pub unused : select (same_token q) s.evaluations ≡ []
  pub usable : usable_revision d s ≡ ok revision
  pub matched : candidate_rows env 0 q.identifiers (source_records revision s.source) ≡ ok found
  pub fresh : id_is_taken d s ≡ false
  pub complete : evidence_rows env d 0 found ≡ ok rows
  pub accepted : link_is_refused q.refresh_from s ≡ false
  pub returned :
      r ≡ record { evaluation_id = d.evaluation_id; evaluated_at = d.evaluated_at; created = true }
  pub stored : s' ≡ insert_evaluation env q d revision found rows s

pub data Outcome (env : Env) (q : Request) (d : Draw) (s : Queue) (r : Submitted) (s' : Queue)
    : Type 0 where
  replayed :
      (e : Evaluation)
      → select (same_token q) s.evaluations ≡ e ∷ []
      → replay env q e ≡ ok r
      → s' ≡ s
      → Outcome env q d s r s'
  created : Created env q d s r s' → Outcome env q d s r s'

raise_if-eq-ok : {E : Type 0} (b : Bool) (e : E) {u : Unit {0}} → raise_if b e ≡ ok u → b ≡ false
raise_if-eq-ok true e h = absurd (cc)
raise_if-eq-ok false e h = refl

create-eq-ok :
    (env : Env) (q : Request) (d : Draw) (s : Queue) (r : Submitted) (s' : Queue)
    → select (same_token q) s.evaluations ≡ []
    → create env q d s ≡ ok (r, s')
    → Created env q d s r s'
unfolding create
create-eq-ok env q d s r s' unused h =
    let finish = λ (revision : ℕ) (cs : List CandidateRow) (rows : List EvidenceRow) (_ : Unit {0}).
      let made : Submitted = record {
        evaluation_id = d.evaluation_id;
        evaluated_at = d.evaluated_at;
        created = true;
      } in
      let result : Result QueueError (Submitted × Queue) =
        ok (made, insert_evaluation env q d revision cs rows s) in
      result in
    let linked = λ (revision : ℕ) (cs : List CandidateRow) (rows : List EvidenceRow).
      raise_if (link_is_refused q.refresh_from s) integrity_error >>= finish revision cs rows in
    let filled = λ (revision : ℕ) (cs : List CandidateRow) (_ : Unit {0}).
      evidence_rows env d 0 cs >>= linked revision cs in
    let checked = λ (revision : ℕ) (cs : List CandidateRow).
      raise_if (id_is_taken d s) integrity_error >>= filled revision cs in
    let (revision, e₁, h₁) =
      >>=-eq-ok (usable_revision d s)
        (λ i. candidate_rows env 0 q.identifiers (source_records i s.source) >>= checked i) h in
    let (cs, e₂, h₂) =
      >>=-eq-ok (candidate_rows env 0 q.identifiers (source_records revision s.source))
        (checked revision) h₁ in
    let (_, k₁, h₃) =
      >>=-eq-ok (raise_if (id_is_taken d s) integrity_error) (filled revision cs) h₂ in
    let (rows, e₃, h₄) = >>=-eq-ok (evidence_rows env d 0 cs) (linked revision cs) h₃ in
    let (_, k₂, h₅) =
      >>=-eq-ok (raise_if (link_is_refused q.refresh_from s) integrity_error)
        (finish revision cs rows) h₄ in
    record {
      revision = revision;
      found = cs;
      rows = rows;
      unused = unused;
      usable = e₁;
      matched = e₂;
      fresh = raise_if-eq-ok (id_is_taken d s) integrity_error k₁;
      complete = e₃;
      accepted = raise_if-eq-ok (link_is_refused q.refresh_from s) integrity_error k₂;
      returned = cc;
      stored = cc;
    }

replay_or_create-Outcome :
    (env : Env) (q : Request) (d : Draw) (s : Queue) (r : Submitted) (s' : Queue)
    (rows : List Evaluation) (previous : Option Evaluation)
    → select (same_token q) s.evaluations ≡ rows
    → one_or_none multiple_results rows ≡ ok previous
    → replay_or_create env q d s previous ≡ ok (r, s')
    → Outcome env q d s r s'
unfolding replay_or_create
replay_or_create-Outcome env q d s r s' [] none e₁ e₂ h = created (create-eq-ok env q d s r s' e₁ h)
replay_or_create-Outcome env q d s r s' [] (some x) e₁ e₂ h = absurd (cc)
replay_or_create-Outcome env q d s r s' (e ∷ []) none e₁ e₂ h = absurd (cc)
replay_or_create-Outcome env q d s r s' (e ∷ []) (some x) e₁ e₂ h =
    let same : e ≡ x = cc in
    let (r', e₃, h₃) =
      >>=-eq-ok (replay env q x)
        (λ (t : Submitted). let z : Result QueueError (Submitted × Queue) = ok (t, s) in z) h in
    replayed e e₁ (rw same (cc (e₃, h₃))) (cc)
replay_or_create-Outcome env q d s r s' (e ∷ f ∷ rows) previous e₁ e₂ h = absurd (cc)

pub submit_body-Outcome :
    (env : Env) (q : Request) (d : Draw) (s : Queue) (r : Submitted) (s' : Queue)
    → submit_body env q d s ≡ ok (r, s')
    → Outcome env q d s r s'
unfolding submit_body
submit_body-Outcome env q d s r s' h =
    let rest = λ (_ : Unit {0}).
      one_or_none multiple_results (select (same_token q) s.evaluations)
      >>= replay_or_create env q d s in
    let (_, _, h₁) =
      >>=-eq-ok (raise_if (not (token_is_valid q.idempotency_key)) submission_error) rest h in
    let (previous, e₂, h₂) =
      >>=-eq-ok (one_or_none multiple_results (select (same_token q) s.evaluations))
        (replay_or_create env q d s) h₁ in
    replay_or_create-Outcome env q d s r s' _ previous refl e₂ h₂

pub submit-eq-ok :
    (env : Env) (q : Request) (d : Draw) (s : Queue) {r : Submitted}
    → (submit env q d s).0 ≡ ok r
    → submit_body env q d s ≡ ok (r, (submit env q d s).1)
unfolding submit
submit-eq-ok env q d s h = settle-eq-ok (submit_body env q d s) s h
