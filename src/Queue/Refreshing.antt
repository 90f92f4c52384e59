-- ===== src/Queue/Refreshing.antt =====
-- `EvidenceQueues.refresh_evaluation`: the walk to the end of a chain of refreshes, and the
-- evaluation that it submits there.
pub mod Fuel
use agent_data_oracle.Base.{
  ℕ, zero, suc, ◌+◌, Text, codes, text_eq, Bool, true, false, ◌&&◌, ◌==◌, ltb, leb, Option, none,
  some, List, ◌∷◌, ◌++◌, map, select, flat_map, sort_by, one_or_none, if◌then◌else◌, Result, ok,
  err, ◌>>=◌, ◌>>◌, raise_if, or_raise,
}
use agent_data_oracle.Source.{source_observed_at}
use agent_data_oracle.Queue.{
  Env, Queue, Evaluation, Input, Refresh, QueueError, source_unavailable, globally_paused,
  multiple_results, hours, normalization_version, matcher_version, released_to,
}
use agent_data_oracle.Queue.Submit.{Request, Draw, Submitted, submit}

-- The successors that the query finds.
unfoldable pub successors : ℕ → Queue → List Evaluation
successors i s =
    flat_map (λ (r : Refresh). select (λ e. e.evaluation_id == r.successor_id) s.evaluations)
      (select (λ r. r.predecessor_id == i) s.refreshes)

-- Evaluated with the current revision and versions.
abbrev pub is_up_to_date : ℕ → Evaluation → Bool
is_up_to_date revision e =
    e.source_revision_id == revision
    && text_eq e.normalization_version normalization_version
    && text_eq e.matcher_version matcher_version

-- What a call does next: it answers, calls itself on a successor, or submits.
pub data Next : Type 0 where
  answers : Option Submitted → Next
  moves : ℕ → Next
  submits : ℕ → Next

abbrev existing : Evaluation → Next
existing e = answers (
    some
      (record { evaluation_id = e.evaluation_id; evaluated_at = e.evaluated_at; created = false }))

unfoldable pub next_of : ℕ → Evaluation → Option Evaluation → Next
next_of revision predecessor (some e) =
    if is_up_to_date revision e then existing e else moves e.evaluation_id
next_of revision predecessor none =
    if is_up_to_date revision predecessor then existing predecessor else submits revision

-- The reads and the guards, where the evaluation is one that the operator may read.
unfoldable pub next_from : ℕ → ℕ → Queue → Option Evaluation → Result QueueError Next
next_from now i s none = ok (answers none)
next_from now i s (some predecessor) = do
  raise_if s.pause.is_paused globally_paused
  successor ← one_or_none multiple_results (successors i s)
  revision ← or_raise source_unavailable s.source.current_revision
  observed_at ← or_raise source_unavailable (source_observed_at s.source)
  raise_if (ltb (observed_at + hours 48) now) source_unavailable
  ok (next_of revision predecessor successor)

unfoldable pub decide_next : ℕ → ℕ → ℕ → Queue → Result QueueError Next
unfolding released_to
decide_next now operator i s = do
  found ← one_or_none multiple_results (select (released_to s operator i) s.evaluations)
  next_from now i s found

-- `f"refresh:{evaluation_id}:{current_revision_id}"`, for a way to print identifiers.
abbrev pub refresh_token : (ℕ → Text) → ℕ → ℕ → Text
refresh_token print i revision = codes "refresh:" ++ print i ++ b':' ∷ print revision

abbrev pub refresh_request : (ℕ → Text) → ℕ → ℕ → ℕ → Queue → Request
refresh_request print operator i revision s = record {
  operator_id = operator;
  idempotency_key = refresh_token print i revision;
  identifiers =
      map (λ (x : Input). x.identifier)
        (sort_by (λ a b. leb a.row_position b.row_position)
          (select (λ x. x.evaluation_id == i) s.inputs));
  refresh_from = some i;
  counts_toward_audit_gate = some false;
}

-- A submission's result, as that of the refresh.
abbrev as_refresh :
    Result QueueError Submitted × Queue → Result QueueError (Option Submitted) × Queue
as_refresh (ok r, s) = (ok (some r), s)
as_refresh (err e, s) = (err e, s)

-- What the call does next; `rest` is its call on a successor.
unfoldable pub proceed :
    Env
    → (ℕ → Text)
    → Draw
    → ℕ
    → ℕ
    → Queue
    → (ℕ → Option (Result QueueError (Option Submitted) × Queue))
    → Result QueueError Next
    → Option (Result QueueError (Option Submitted) × Queue)
unfolding submit
proceed env print d operator i s rest (err e) = some (err e, s)
proceed env print d operator i s rest (ok (answers a)) = some (ok a, s)
proceed env print d operator i s rest (ok (moves j)) = rest j
proceed env print d operator i s rest (ok (submits revision)) =
    some (as_refresh (submit env (refresh_request print operator i revision s) d s))

-- `refresh_evaluation`; `clock n` is the reading of the call with `n` fuel left, and `none` stands
-- for a walk that the fuel does not finish.
unfoldable pub refresh_evaluation :
    Env
    → (ℕ → Text)
    → (ℕ → ℕ)
    → Draw
    → ℕ
    → ℕ
    → ℕ
    → Queue
    → Option (Result QueueError (Option Submitted) × Queue)
unfolding decide_next proceed
refresh_evaluation env print clock d operator zero i s = none
refresh_evaluation env print clock d operator (suc fuel) i s =
    proceed env print d operator i s (λ j. refresh_evaluation env print clock d operator fuel j s)
      (decide_next (clock fuel) operator i s)
