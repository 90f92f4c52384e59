-- ===== src/Queue/Isolation.antt =====
-- What an operator reads: the contract of an own, released evaluation, with that evaluation's rows.
use agent_data_oracle.Base.{
  All-sort_by, ℕ, ◌≡◌, refl, true, ◌==◌, ==_iff, Option, some, none, [], ◌∷◌, arith, ok, Result,
  >>=-eq-ok, All, All-imp, All-select, All-true, select, sort_by, one_or_none, one_or_none-eq-some,
  inl, inr, ◌⊎◌, ◌∙◌, List, Bool-cases, All-flat_map, All-map, All-one, or_raise, or_raise-eq-ok,
  ◌>>=◌,
}
use agent_data_oracle.Identifier.{SubmittedIdentifier}
use agent_data_oracle.Queue.{
  Queue, Evaluation, EvidenceRow, Refresh, QueueError, multiple_results, index_error, released_to,
  is_released,
}
use agent_data_oracle.Queue.Reads.{
  Contract, CandidateEvidence, EvaluationRefresh, at_position, with_identifiers, submitted_inputs,
  between, joined_ends, touches, version, released_contract, contract_of, contract_from_evaluation,
  candidate_order, refreshes_of,
}
use agent_data_oracle.Queue.Deciding.{selected-passes}

-- A candidate of a contract: a row of the evaluation, with the identifier that was submitted for it.
abbrev pub IsOwn : ℕ → List SubmittedIdentifier → CandidateEvidence → Type 0
IsOwn i inputs c =
    (c.row.evaluation_id ≡ i)
    × (at_position c.row.input_position inputs ≡ some c.submitted_identifier)

-- A link to or from the evaluation.
abbrev pub Joins : ℕ → EvaluationRefresh → Type 0
Joins i r = (r.predecessor.evaluation_id ≡ i) ⊎ (r.successor.evaluation_id ≡ i)

abbrev pub LinkOf : ℕ → Option EvaluationRefresh → Type 0
LinkOf i none = Unit {0}
LinkOf i (some r) = Joins i r

-- What a contract says of the evaluation that it was read for.
pub record ContractOf (s : Queue) (e : Evaluation) (c : Contract) : Type 0 where
  pub same_version : c.version ≡ version e
  pub same_time : c.evaluated_at ≡ e.evaluated_at
  pub own_inputs : c.inputs ≡ submitted_inputs e.evaluation_id s
  pub own_rows : All (IsOwn e.evaluation_id c.inputs) c.candidates
  pub own_link : LinkOf e.evaluation_id c.refresh

with_identifiers-IsOwn :
    (i : ℕ) (inputs : List SubmittedIdentifier) (rows : List EvidenceRow)
    (cs : List CandidateEvidence)
    → All (λ (r : EvidenceRow). r.evaluation_id ≡ i) rows
    → with_identifiers inputs rows ≡ ok cs
    → All (IsOwn i inputs) cs
unfolding with_identifiers
with_identifiers-IsOwn i inputs [] cs own h = let e : cs ≡ [] = ground arith in rw e tt
with_identifiers-IsOwn i inputs (r ∷ rs) cs own h =
    let finish = λ (x : SubmittedIdentifier) (more : List CandidateEvidence).
      (let z : Result QueueError (List CandidateEvidence) =
          ok (record { row = r; submitted_identifier = x } ∷ more) in
        z) in
    let (x, e₁, h₁) =
      >>=-eq-ok (or_raise index_error (at_position r.input_position inputs))
        (λ x. with_identifiers inputs rs >>= finish x) h in
    let (more, e₂, h₂) = >>=-eq-ok (with_identifiers inputs rs) (finish x) h₁ in
    let same : cs ≡ record { row = r; submitted_identifier = x } ∷ more = ground arith in
    rw same (
      (own.0, or_raise-eq-ok index_error (at_position r.input_position inputs) e₁),
      with_identifiers-IsOwn i inputs rs more own.1 e₂,
    )

-- The join finds the evaluations that a link names.
joined-Joins :
    (i : ℕ) (s : Queue) (r : Refresh) → touches i r ≡ true → All (Joins i) (joined_ends s r)
joined-Joins i s r h =
    All-flat_map (λ (p : Evaluation). Unit {0} × ((p.evaluation_id == r.predecessor_id) ≡ true))
      (Joins i) _ (select (λ (p : Evaluation). p.evaluation_id == r.predecessor_id) s.evaluations)
      (λ p k.
        All-map (between r p) (Joins i)
          (select (λ (q : Evaluation). q.evaluation_id == r.successor_id) s.evaluations)
          (All-imp _ _
            (select (λ (q : Evaluation). q.evaluation_id == r.successor_id) s.evaluations)
            (λ (q : Evaluation) l.
              let from' = (==_iff p.evaluation_id r.predecessor_id).0 k.1 in
              let to = (==_iff q.evaluation_id r.successor_id).0 l.1 in
              elim (Bool-cases (r.predecessor_id == i)) [
                | inl e ↦ inl (from' ∙ (==_iff r.predecessor_id i).0 e)
                | inr e ↦ inr (to ∙ (==_iff r.successor_id i).0 (ground arith))
              ])
            (All-select (λ _. Unit {0}) (λ (q : Evaluation). q.evaluation_id == r.successor_id)
              s.evaluations (All-true (λ _. tt) s.evaluations))))
      (All-select (λ _. Unit {0}) (λ (p : Evaluation). p.evaluation_id == r.predecessor_id)
        s.evaluations (All-true (λ _. tt) s.evaluations))

refreshes_of-Joins : (i : ℕ) (s : Queue) → All (Joins i) (refreshes_of i s)
unfolding refreshes_of
refreshes_of-Joins i s =
    All-flat_map _ (Joins i) (joined_ends s) (select (touches i) s.refreshes)
      (λ (r : Refresh) h. joined-Joins i s r h.1)
      (All-select (λ _. Unit {0}) (touches i) s.refreshes (All-true (λ _. tt) s.refreshes))

one-LinkOf :
    (i : ℕ) (rs : List EvaluationRefresh) (found : Option EvaluationRefresh)
    → All (Joins i) rs
    → one_or_none multiple_results rs ≡ ok found
    → LinkOf i found
one-LinkOf i rs none h e = tt
one-LinkOf i rs (some r) h e = All-one (Joins i) rs (one_or_none-eq-some multiple_results rs e) h

contract_from_evaluation-ContractOf :
    (s : Queue) (e : Evaluation) (c : Contract)
    → contract_from_evaluation s e ≡ ok c
    → ContractOf s e c
unfolding contract_from_evaluation
contract_from_evaluation-ContractOf s e c h =
    let i = e.evaluation_id in
    let rows = select (λ r. r.evaluation_id == i) s.rows in
    let own : All (λ r. r.evaluation_id ≡ i) rows =
      All-imp _ _ rows (λ r k. (==_iff r.evaluation_id i).0 k.1)
        (All-select (λ _. Unit {0}) (λ r. r.evaluation_id == i) s.rows
          (All-true (λ _. tt) s.rows)) in
    let finish = λ (refresh : Option EvaluationRefresh) (candidates : List CandidateEvidence).
      (let z : Result QueueError Contract = ok (record {
        version = version e;
        evaluated_at = e.evaluated_at;
        inputs = submitted_inputs i s;
        candidates = candidates;
        refresh = refresh;
      }) in
        z) in
    let (refresh, e₁, h₁) =
      >>=-eq-ok (one_or_none multiple_results (refreshes_of i s))
        (λ refresh.
          with_identifiers (submitted_inputs i s) (sort_by candidate_order rows) >>= finish refresh)
        h in
    let (candidates, e₂, h₂) =
      >>=-eq-ok (with_identifiers (submitted_inputs i s) (sort_by candidate_order rows))
        (finish refresh) h₁ in
    let link : c.refresh ≡ refresh = ground arith in
    let same : c.candidates ≡ candidates = ground arith in
    let inputs : c.inputs ≡ submitted_inputs i s = ground arith in
    record {
      same_version = ground arith;
      same_time = ground arith;
      own_inputs = inputs;
      own_rows =
          rw (same, inputs)
            (with_identifiers-IsOwn i (submitted_inputs i s) (sort_by candidate_order rows)
              candidates (All-sort_by _ candidate_order rows own) e₂);
      own_link = rw link (one-LinkOf i (refreshes_of i s) refresh (refreshes_of-Joins i s) e₁);
    }

-- What `released_to` tests.
pub record ReadBy (operator i : ℕ) (s : Queue) (e : Evaluation) : Type 0 where
  pub own : e.operator_id ≡ operator
  pub asked_for : e.evaluation_id ≡ i
  pub released : is_released s e ≡ true

released_to-ReadBy :
    (s : Queue) (operator i : ℕ) (e : Evaluation)
    → released_to s operator i e ≡ true
    → ReadBy operator i s e
unfolding released_to
released_to-ReadBy s operator i e h = record {
  own = ground arith;
  asked_for = ground arith;
  released = ground arith;
}

contract_of-eq-some :
    (s : Queue) (found : Option Evaluation) (c : Contract)
    → contract_of s found ≡ ok (some c)
    → (e : Evaluation) × (found ≡ some e) × (contract_from_evaluation s e ≡ ok c)
unfolding contract_of
contract_of-eq-some s none c h = absurd (cc)
contract_of-eq-some s (some e) c h =
    let (d, e₁, h₁) =
      >>=-eq-ok (contract_from_evaluation s e)
        (λ (c : Contract). (let z : Result QueueError (Option Contract) = ok (some c) in z)) h in
    (e, refl, cc (e₁, h₁))

-- A contract that `released_contract` returns is that of the one stored evaluation with the asked
-- number that belongs to the operator and has been released: its version, its time and its inputs
-- are those of that evaluation, each candidate is a row of it with the input at the row's position,
-- and its refresh link, if any, leads to or from that evaluation.
pub released_contract-ContractOf :
    (operator i : ℕ) (s : Queue) (c : Contract)
    → released_contract operator i s ≡ ok (some c)
    → (e : Evaluation) × (select (released_to s operator i) s.evaluations ≡ e ∷ [])
      × ReadBy operator i s e
      × ContractOf s e c
unfolding released_contract
released_contract-ContractOf operator i s c h =
    let rows = select (released_to s operator i) s.evaluations in
    let (found, e₁, h₁) = >>=-eq-ok (one_or_none multiple_results rows) (contract_of s) h in
    let (e, e₂, h₂) = contract_of-eq-some s found c h₁ in
    let only : rows ≡ e ∷ [] = one_or_none-eq-some multiple_results rows (rw⁻¹ e₂ e₁) in
    (
      e,
      only,
      released_to-ReadBy s operator i e
          (selected-passes (released_to s operator i) s.evaluations only),
      contract_from_evaluation-ContractOf s e c h₂,
    )
