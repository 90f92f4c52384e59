-- ===== src/Queue/Replay.antt =====
-- Idempotency tokens: the second submission of a token replays the first, or conflicts with it.
use agent_data_oracle.Base.{
  ◌≡◌, text_eq, text_eq_refl, text_eq_sound, true, false, ◌+◌, ==_refl, [], ◌∷◌, arith, ok, err,
  select, select-append, Bool-cases, inl, inr,
}
use agent_data_oracle.Queue.{submission_hash, Env, Queue, Evaluation, idempotency_conflict}
use agent_data_oracle.Queue.Submit.{
  Request, Draw, Submitted, same_token, replay, new_evaluation, token_is_valid, insert_evaluation,
  submit_body, submit,
}
use agent_data_oracle.Queue.Outcome.{Outcome, replayed, created, submit_body-Outcome, submit-eq-ok}

submit_body-token :
    (env : Env) (q : Request) (d : Draw) (s : Queue) {r : Submitted × Queue}
    → submit_body env q d s ≡ ok r
    → token_is_valid q.idempotency_key ≡ true
unfolding submit_body
submit_body-token env q d s h = elim (Bool-cases (token_is_valid q.idempotency_key)) [
  | inl e ↦ e
  | inr e ↦ ground arith
]

-- A known token never creates: it replays its evaluation, or conflicts.
pub submit-known :
    (env : Env) (q : Request) (d : Draw) (s : Queue) (e : Evaluation)
    → token_is_valid q.idempotency_key ≡ true
    → select (same_token q) s.evaluations ≡ e ∷ []
    → ((text_eq e.submission_hash (submission_hash env q.identifiers) ≡ true)
        → submit env q d s ≡ (
          ok (record {
            evaluation_id = e.evaluation_id;
            evaluated_at = e.evaluated_at;
            created = false;
          }),
          s,
        ))
      × ((text_eq e.submission_hash (submission_hash env q.identifiers) ≡ false)
          → submit env q d s ≡ (err idempotency_conflict, s))
unfolding submit submit_body
submit-known env q d s e valid known =
    (λ same. rw (valid, known, same), λ differs. rw (valid, known, differs))

replay-eq-ok :
    (env : Env) (q : Request) (e : Evaluation) (r : Submitted)
    → replay env q e ≡ ok r
    → (text_eq e.submission_hash (submission_hash env q.identifiers) ≡ true)
      × (r ≡ record {
        evaluation_id = e.evaluation_id;
        evaluated_at = e.evaluated_at;
        created = false;
      })
replay-eq-ok env q e r h = ground arith

-- The evaluation that a token stands for after a successful submission.
pub record TokenOf (env : Env) (q : Request) (r : Submitted) (s : Queue) : Type 0 where
  pub evaluation : Evaluation
  pub only : select (same_token q) s.evaluations ≡ evaluation ∷ []
  pub same_hash : text_eq evaluation.submission_hash (submission_hash env q.identifiers) ≡ true
  pub same_id : evaluation.evaluation_id ≡ r.evaluation_id
  pub same_time : evaluation.evaluated_at ≡ r.evaluated_at

Outcome-TokenOf :
    (env : Env) (q : Request) (d : Draw) (s : Queue) (r : Submitted) (s' : Queue)
    → Outcome env q d s r s'
    → TokenOf env q r s'
unfolding insert_evaluation
Outcome-TokenOf env q d s r s' (replayed e only replays same) =
    let (hash, result) = replay-eq-ok env q e r replays in
    record {
      evaluation = e;
      only = rw same only;
      same_hash = hash;
      same_id = rw result;
      same_time = rw result;
    }
Outcome-TokenOf env q d s r s' (created c) =
    let e = new_evaluation env q d c.revision c.found (s.committed_queue_count + 1) in
    record {
      evaluation = e;
      only = rw (c.stored, select-append, c.unused, ==_refl, text_eq_refl);
      same_hash = text_eq_refl (submission_hash env q.identifiers);
      same_id = rw c.returned;
      same_time = rw c.returned;
    }

-- After a submission has succeeded, the same operator, token and identifiers return the same
-- evaluation, marked as not created, and change nothing, whatever the clock reads and even when
-- new work is paused or the source is stale.
pub submit-replay :
    (env : Env) (q : Request) (d d' : Draw) (s : Queue) (r : Submitted)
    → (submit env q d s).0 ≡ ok r
    → submit env q d' (submit env q d s).1
      ≡ (ok (record r { created = false }), (submit env q d s).1)
submit-replay env q d d' s r h =
    let body = submit-eq-ok env q d s h in
    let t = Outcome-TokenOf env q d s r _ (submit_body-Outcome env q d s r _ body) in
    let valid = submit_body-token env q d s body in
    rw ((submit-known env q d' (submit env q d s).1 t.evaluation valid t.only).0 t.same_hash)
      (rw (t.same_id, t.same_time))

-- After a submission has succeeded, other identifiers under its operator and token raise a
-- conflict, provided that their hash differs, and change nothing.
pub submit-conflict :
    (env : Env) (q q' : Request) (d d' : Draw) (s : Queue) (r : Submitted)
    → (submit env q d s).0 ≡ ok r
    → q'.operator_id ≡ q.operator_id
    → q'.idempotency_key ≡ q.idempotency_key
    → text_eq (submission_hash env q.identifiers) (submission_hash env q'.identifiers) ≡ false
    → submit env q' d' (submit env q d s).1 ≡ (err idempotency_conflict, (submit env q d s).1)
submit-conflict env q q' d d' s r h same_operator same_key differs =
    let body = submit-eq-ok env q d s h in
    let t = Outcome-TokenOf env q d s r _ (submit_body-Outcome env q d s r _ body) in
    let valid = submit_body-token env q d s body in
    let same : t.evaluation.submission_hash ≡ submission_hash env q.identifiers =
      text_eq_sound _ _ t.same_hash in
    (submit-known env q' d' (submit env q d s).1 t.evaluation (rw same_key valid)
        (rw (same_operator, same_key) t.only)).1
      (rw same differs)
