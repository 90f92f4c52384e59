-- ===== src/Queue/Refreshing/Fuel.antt =====
-- The walk of a refresh ends: links lead to later evaluations.
use agent_data_oracle.Base.{
  ℕ, zero, suc, ◌+◌, ◌≤◌, ◌<◌, ◌≡◌, refl, sym, Text, true, ◌==◌, ==_iff, ltb, Option, none, some,
  is_some, [], ◌∷◌, arith, ok, err, Result, ◌>>=◌, >>=-eq-ok, select, one_or_none,
  one_or_none-eq-some, raise_if, or_raise, All, All-imp, All-select, All-flat_map, All-true,
  All-one,
}
use agent_data_oracle.Source.{source_observed_at}
use agent_data_oracle.Queue.{
  Env, Queue, Evaluation, Refresh, QueueError, multiple_results, source_unavailable,
  globally_paused, hours, released_to,
}
use agent_data_oracle.Queue.Submit.{Draw, Submitted}
use agent_data_oracle.Queue.Refreshing.{
  Next, answers, moves, submits, successors, decide_next, next_from, next_of, refresh_evaluation,
  proceed,
}

-- Every link leads to a higher rank, and no rank is above `top`.
abbrev pub IsRanked : (ℕ → ℕ) → ℕ → Queue → Type 0
IsRanked rank top s =
    All
      (λ (r : Refresh). (rank r.predecessor_id < rank r.successor_id) × (rank r.successor_id ≤ top))
      s.refreshes

successors-above :
    (rank : ℕ → ℕ) (top i : ℕ) (s : Queue)
    → IsRanked rank top s
    → All
        (λ (e : Evaluation). (rank i < rank e.evaluation_id) × (rank e.evaluation_id ≤ top))
        (successors i s)
unfolding successors
successors-above rank top i s ranked =
    All-flat_map _ _ _ (select (λ r. r.predecessor_id == i) s.refreshes)
      (λ (r : Refresh) h.
        All-imp _ _ (select (λ e. e.evaluation_id == r.successor_id) s.evaluations)
          (λ (e : Evaluation) k.
            (let same = (==_iff e.evaluation_id r.successor_id).0 k.1 in
              let from_i = (==_iff r.predecessor_id i).0 h.1 in
              let above = h.0.0 in let below = h.0.1 in rw (same, sym from_i) (above, below)))
          (All-select (λ _. Unit {0}) (λ e. e.evaluation_id == r.successor_id) s.evaluations
            (All-true (λ _. tt) s.evaluations)))
      (All-select _ (λ r. r.predecessor_id == i) s.refreshes ranked)

next_of-moves :
    (revision : ℕ) (p : Evaluation) (o : Option Evaluation) (j : ℕ)
    → next_of revision p o ≡ moves j
    → (e : Evaluation) × (o ≡ some e) × (e.evaluation_id ≡ j)
unfolding next_of
next_of-moves revision p none j h = absurd (ground arith)
next_of-moves revision p (some e) j h = (e, refl, ground arith)

next_from-moves :
    (now i : ℕ) (s : Queue) (o : Option Evaluation) (j : ℕ)
    → next_from now i s o ≡ ok (moves j)
    → (e : Evaluation) × (successors i s ≡ e ∷ []) × (e.evaluation_id ≡ j)
unfolding next_from
next_from-moves now i s none j h = absurd (ground arith)
next_from-moves now i s (some p) j h =
    let finish = λ (o : Option Evaluation) (revision : ℕ) (_ : Unit {0}).
      (let z : Result QueueError Next = ok (next_of revision p o) in z) in
    let timed = λ (o : Option Evaluation) (revision observed_at : ℕ).
      raise_if (ltb (observed_at + hours 48) now) source_unavailable >>= finish o revision in
    let revised = λ (o : Option Evaluation) (revision : ℕ).
      or_raise source_unavailable (source_observed_at s.source) >>= timed o revision in
    let found = λ (o : Option Evaluation).
      or_raise source_unavailable s.source.current_revision >>= revised o in
    let (_, _, h₁) =
      >>=-eq-ok (raise_if s.pause.is_paused globally_paused)
        (λ _. one_or_none multiple_results (successors i s) >>= found) h in
    let (o, e₂, h₂) = >>=-eq-ok (one_or_none multiple_results (successors i s)) found h₁ in
    let (revision, _, h₃) =
      >>=-eq-ok (or_raise source_unavailable s.source.current_revision) (revised o) h₂ in
    let (observed_at, _, h₄) =
      >>=-eq-ok (or_raise source_unavailable (source_observed_at s.source)) (timed o revision) h₃ in
    let (_, _, h₅) =
      >>=-eq-ok (raise_if (ltb (observed_at + hours 48) now) source_unavailable) (finish o revision)
        h₄ in
    let (e, is_e, same) = next_of-moves revision p o j (ground arith) in
    (e, one_or_none-eq-some multiple_results (successors i s) (rw⁻¹ is_e e₂), same)

decide_next-moves :
    (now operator i : ℕ) (s : Queue) (j : ℕ)
    → decide_next now operator i s ≡ ok (moves j)
    → (e : Evaluation) × (successors i s ≡ e ∷ []) × (e.evaluation_id ≡ j)
unfolding decide_next
decide_next-moves now operator i s j h =
    let (o, _, h₁) =
      >>=-eq-ok (one_or_none multiple_results (select (released_to s operator i) s.evaluations))
        (next_from now i s) h in
    next_from-moves now i s o j h₁

decide_next-above :
    (rank : ℕ → ℕ) (top now operator i : ℕ) (s : Queue) (j : ℕ)
    → IsRanked rank top s
    → decide_next now operator i s ≡ ok (moves j)
    → (rank i < rank j) × (rank j ≤ top)
decide_next-above rank top now operator i s j ranked h =
    let (e, only, same) = decide_next-moves now operator i s j h in
    rw⁻¹ same (All-one _ (successors i s) only (successors-above rank top i s ranked))

proceed-is_some :
    (env : Env) (print : ℕ → Text) (d : Draw) (operator i : ℕ) (s : Queue)
    (rest : ℕ → Option (Result QueueError (Option Submitted) × Queue)) (r : Result QueueError Next)
    → ((j : ℕ) → r ≡ ok (moves j) → is_some (rest j) ≡ true)
    → is_some (proceed env print d operator i s rest r) ≡ true
unfolding proceed
proceed-is_some env print d operator i s rest (err e) deeper = refl
proceed-is_some env print d operator i s rest (ok (answers a)) deeper = refl
proceed-is_some env print d operator i s rest (ok (submits revision)) deeper = refl
proceed-is_some env print d operator i s rest (ok (moves j)) deeper = deeper j refl

-- Where links lead to higher ranks, the walk from an evaluation ends with as much fuel as there are
-- ranks from that of the evaluation to the highest: the refresh returns or raises.
pub refresh_evaluation-ends :
    (rank : ℕ → ℕ) (top : ℕ) (env : Env) (print : ℕ → Text) (clock : ℕ → ℕ) (d : Draw)
    (operator fuel i : ℕ) (s : Queue)
    → IsRanked rank top s
    → top < rank i + fuel
    → rank i ≤ top
    → is_some (refresh_evaluation env print clock d operator fuel i s) ≡ true
unfolding refresh_evaluation
refresh_evaluation-ends rank top env print clock d operator zero i s ranked enough low =
    absurd (omega arith)
refresh_evaluation-ends rank top env print clock d operator (suc fuel) i s ranked enough low =
    proceed-is_some env print d operator i s
      (λ j. refresh_evaluation env print clock d operator fuel j s)
      (decide_next (clock fuel) operator i s)
      (λ j h.
        (let (above, below) = decide_next-above rank top (clock fuel) operator i s j ranked h in
          refresh_evaluation-ends rank top env print clock d operator fuel j s ranked (omega arith)
            below))
