-- ===== src/Rights/Erasing.antt =====
-- What an erasure removes, and what it leaves of the other operators.
use agent_data_oracle.Base.{
  ℕ, ◌≡◌, refl, ◌∙◌, Bool, true, false, ◌&&◌, ◌==◌, Option, none, some, List, [], ◌∷◌, any, select,
  first, arith, Bool-cases, inl, inr, ==_refl, In-All, any-In,
}
use agent_data_oracle.Queue.{Queue, Evaluation, Acknowledgement, Report, Retrieval}
use agent_data_oracle.Agent.{AgentKey}
use agent_data_oracle.Access.{OperatorRow, BrowserSession, TotpFactor, RecoveryCode}
use agent_data_oracle.Rights.{
  RightsTables, DeletionWork, Hold, has_active_hold, operator_exists, work_of,
}
use agent_data_oracle.Rights.Cleanup.{
  erase_operator, erase_found, erase_queue, erase_access, delete_where, is_own_evaluation,
}
use agent_data_oracle.Rights.Deleting.{
  select-delete, any-delete-other, any-delete, any-delete-same, any-select-none, any-active-delete,
}

-- The rows of an operator in the tables that name their operator.
pub record Kept (i : ℕ) (s t : RightsTables) : Type 0 where
  pub operators :
      select (λ (x : OperatorRow). x.operator_id == i) t.access.operators
      ≡ select (λ x. x.operator_id == i) s.access.operators
  pub sessions :
      select (λ (x : BrowserSession). x.operator_id == i) t.access.sessions
      ≡ select (λ x. x.operator_id == i) s.access.sessions
  pub keys :
      select (λ (x : AgentKey). x.operator_id == i) t.keys ≡ select (λ x. x.operator_id == i) s.keys
  pub acknowledgements :
      select (λ (x : Acknowledgement). x.operator_id == i) t.queue.acknowledgements
      ≡ select (λ x. x.operator_id == i) s.queue.acknowledgements
  pub reports :
      select (λ (x : Report). x.operator_id == i) t.queue.reports
      ≡ select (λ x. x.operator_id == i) s.queue.reports
  pub works :
      select (λ (x : DeletionWork). x.operator_id == i) t.works
      ≡ select (λ x. x.operator_id == i) s.works
  pub holds :
      select (λ (x : Hold). x.operator_id == i) t.holds ≡ select (λ x. x.operator_id == i) s.holds

-- No row of the operator is left in the tables that name their operator.
pub record Gone (i : ℕ) (t : RightsTables) : Type 0 where
  pub operators : any (λ (x : OperatorRow). x.operator_id == i) t.access.operators ≡ false
  pub sessions : any (λ (x : BrowserSession). x.operator_id == i) t.access.sessions ≡ false
  pub totp_factors : any (λ (x : TotpFactor). x.operator_id == i) t.access.totp_factors ≡ false
  pub recovery_codes :
      any (λ (x : RecoveryCode). x.operator_id == i) t.access.recovery_codes ≡ false
  pub keys : any (λ (x : AgentKey). x.operator_id == i) t.keys ≡ false
  pub evaluations : any (λ (x : Evaluation). x.operator_id == i) t.queue.evaluations ≡ false
  pub acknowledgements :
      any (λ (x : Acknowledgement). x.operator_id == i) t.queue.acknowledgements ≡ false
  pub reports : any (λ (x : Report). x.operator_id == i) t.queue.reports ≡ false
  pub retrievals : any (λ (x : Retrieval). x.operator_id == i) t.queue.retrievals ≡ false
  pub works : any (λ (x : DeletionWork). x.operator_id == i) t.works ≡ false
  pub holds : any (λ (x : Hold). x.operator_id == i) t.holds ≡ false

-- What an erasure looks up.
abbrev work_found : ℕ → RightsTables → Option DeletionWork
work_found j s = first (select (work_of j) s.works)

abbrev operator_found : ℕ → RightsTables → Option OperatorRow
operator_found j s = first (select (λ (o : OperatorRow). o.operator_id == j) s.access.operators)

pub Kept-trans : (i : ℕ) (s t u : RightsTables) → Kept i s t → Kept i t u → Kept i s u
Kept-trans i s t u a b = record {
  operators = b.operators ∙ a.operators;
  sessions = b.sessions ∙ a.sessions;
  keys = b.keys ∙ a.keys;
  acknowledgements = b.acknowledgements ∙ a.acknowledgements;
  reports = b.reports ∙ a.reports;
  works = b.works ∙ a.works;
  holds = b.holds ∙ a.holds;
}

-- The tables with the pause, its events, the links and the attempts of others: none of them counts.
abbrev pub beside : RightsTables → RightsTables → RightsTables
beside s u = record s {
  queue = record s.queue {
    pause = u.queue.pause;
    pause_events = u.queue.pause_events;
    refreshes = u.queue.refreshes;
  };
  access = record s.access { attempts = u.access.attempts; admissions = u.access.admissions };
  key_attempts = u.key_attempts;
}

pub Kept-beside : (i : ℕ) (s u : RightsTables) → Kept i s (beside s u)
Kept-beside i s u = record {
  operators = refl;
  sessions = refl;
  keys = refl;
  acknowledgements = refl;
  reports = refl;
  works = refl;
  holds = refl;
}

pub Kept-refl : (i : ℕ) (s : RightsTables) → Kept i s s
Kept-refl i s = Kept-beside i s s

pub Gone-beside : (i : ℕ) (s u : RightsTables) → Gone i s → Gone i (beside s u)
Gone-beside i s u g = record {
  operators = g.operators;
  sessions = g.sessions;
  totp_factors = g.totp_factors;
  recovery_codes = g.recovery_codes;
  keys = g.keys;
  evaluations = g.evaluations;
  acknowledgements = g.acknowledgements;
  reports = g.reports;
  retrievals = g.retrievals;
  works = g.works;
  holds = g.holds;
}

-- An operator's evaluations are deleted by their identifiers.
own_evaluations-none :
    (i : ℕ) (s : Queue)
    → any
        (λ (e : Evaluation). e.operator_id == i)
        (delete_where (λ (e : Evaluation). is_own_evaluation i s e.evaluation_id) s.evaluations)
      ≡ false
own_evaluations-none i s =
    any-delete (λ (e : Evaluation). e.operator_id == i)
      (λ (e : Evaluation). is_own_evaluation i s e.evaluation_id) s.evaluations
      (In-All (λ e. (e.operator_id == i) ≡ true → is_own_evaluation i s e.evaluation_id ≡ true)
        s.evaluations
        (λ e listed own.
          any-In (λ (x : Evaluation). x.evaluation_id == e.evaluation_id && x.operator_id == i) e
            s.evaluations listed (rw (==_refl, own))))

found-Kept :
    (now i j : ℕ) (s : RightsTables) (work : Option DeletionWork) (o : Option OperatorRow)
    → (i == j) ≡ false
    → Kept i s (erase_found j now s work o).1
unfolding erase_found erase_queue erase_access
found-Kept now i j s work none e = Kept-refl i s
found-Kept now i j s work (some o) e = record {
  operators = select-delete (λ (x : OperatorRow). x.operator_id) i j s.access.operators e;
  sessions = select-delete (λ (x : BrowserSession). x.operator_id) i j s.access.sessions e;
  keys = select-delete (λ (x : AgentKey). x.operator_id) i j s.keys e;
  acknowledgements =
      select-delete (λ (x : Acknowledgement). x.operator_id) i j s.queue.acknowledgements e;
  reports = select-delete (λ (x : Report). x.operator_id) i j s.queue.reports e;
  works = select-delete (λ (x : DeletionWork). x.operator_id) i j s.works e;
  holds = select-delete (λ (x : Hold). x.operator_id) i j s.holds e;
}

-- The erasure of another operator keeps an operator's rows.
pub erase_operator-Kept :
    (now i j : ℕ) (s : RightsTables) → (i == j) ≡ false → Kept i s (erase_operator j now s).1
unfolding erase_operator
erase_operator-Kept now i j s e = found-Kept now i j s (work_found j s) (operator_found j s) e

found-hold :
    (now i j : ℕ) (s : RightsTables) (work : Option DeletionWork) (o : Option OperatorRow)
    → (i == j) ≡ false
    → has_active_hold i (erase_found j now s work o).1 ≡ has_active_hold i s
unfolding erase_found has_active_hold
found-hold now i j s work none e = refl
found-hold now i j s work (some o) e = any-active-delete i j s.holds e

pub erase_operator-hold :
    (now i j : ℕ) (s : RightsTables)
    → (i == j) ≡ false
    → has_active_hold i (erase_operator j now s).1 ≡ has_active_hold i s
unfolding erase_operator
erase_operator-hold now i j s e = found-hold now i j s (work_found j s) (operator_found j s) e

found-exists :
    (now i j : ℕ) (s : RightsTables) (work : Option DeletionWork) (o : Option OperatorRow)
    → (i == j) ≡ false
    → operator_exists i (erase_found j now s work o).1 ≡ operator_exists i s
unfolding erase_found erase_access operator_exists
found-exists now i j s work none e = refl
found-exists now i j s work (some o) e =
    any-delete-other (λ (x : OperatorRow). x.operator_id) i j s.access.operators e

pub erase_operator-exists :
    (now i j : ℕ) (s : RightsTables)
    → (i == j) ≡ false
    → operator_exists i (erase_operator j now s).1 ≡ operator_exists i s
unfolding erase_operator
erase_operator-exists now i j s e = found-exists now i j s (work_found j s) (operator_found j s) e

found-pause :
    (now j : ℕ) (s : RightsTables) (work : Option DeletionWork) (o : Option OperatorRow)
    → (erase_found j now s work o).1.queue.pause.is_paused ≡ s.queue.pause.is_paused
unfolding erase_found erase_queue
found-pause now j s work none = refl
found-pause now j s work (some o) = refl

-- An erasure leaves the pause as it is.
pub erase_operator-pause :
    (now j : ℕ) (s : RightsTables)
    → (erase_operator j now s).1.queue.pause.is_paused ≡ s.queue.pause.is_paused
unfolding erase_operator
erase_operator-pause now j s = found-pause now j s (work_found j s) (operator_found j s)

found-Gone :
    (now i : ℕ) (s : RightsTables) (work : Option DeletionWork) (o : OperatorRow)
    → Gone i (erase_found i now s work (some o)).1
unfolding erase_found erase_queue erase_access
found-Gone now i s work o = record {
  operators = any-delete-same (λ (x : OperatorRow). x.operator_id == i) s.access.operators;
  sessions = any-delete-same (λ (x : BrowserSession). x.operator_id == i) s.access.sessions;
  totp_factors = any-delete-same (λ (x : TotpFactor). x.operator_id == i) s.access.totp_factors;
  recovery_codes =
      any-delete-same (λ (x : RecoveryCode). x.operator_id == i) s.access.recovery_codes;
  keys = any-delete-same (λ (x : AgentKey). x.operator_id == i) s.keys;
  evaluations = own_evaluations-none i s.queue;
  acknowledgements =
      any-delete-same (λ (x : Acknowledgement). x.operator_id == i) s.queue.acknowledgements;
  reports = any-delete-same (λ (x : Report). x.operator_id == i) s.queue.reports;
  retrievals = any-delete-same (λ (x : Retrieval). x.operator_id == i) s.queue.retrievals;
  works = any-delete-same (λ (x : DeletionWork). x.operator_id == i) s.works;
  holds = any-delete-same (λ (x : Hold). x.operator_id == i) s.holds;
}

first-any :
    {A : Type 0} (p : A → Bool) (xs : List A)
    → any p xs ≡ true
    → (x : A) × (first (select p xs) ≡ some x)
first-any p [] h = absurd (ground arith)
first-any p (x ∷ xs) h = elim (Bool-cases (p x)) [
  | inl e ↦ (x, rw e refl)
  | inr e ↦ let (y, found) = first-any p xs (ground arith) in (y, rw e found)
]

-- The erasure of an operator who is there leaves no row of theirs.
pub erase_operator-Gone :
    (now i : ℕ) (s : RightsTables) → operator_exists i s ≡ true → Gone i (erase_operator i now s).1
unfolding erase_operator operator_exists
erase_operator-Gone now i s there =
    let (o, found) = first-any (λ (o : OperatorRow). o.operator_id == i) s.access.operators there in
    rw found (found-Gone now i s (work_found i s) o)

found-stays-Gone :
    (now i j : ℕ) (s : RightsTables) (work : Option DeletionWork) (o : Option OperatorRow)
    → Gone i s
    → Gone i (erase_found j now s work o).1
unfolding erase_found erase_queue erase_access
found-stays-Gone now i j s work none g = g
found-stays-Gone now i j s work (some o) g = record {
  operators = any-select-none _ _ s.access.operators g.operators;
  sessions = any-select-none _ _ s.access.sessions g.sessions;
  totp_factors = any-select-none _ _ s.access.totp_factors g.totp_factors;
  recovery_codes = any-select-none _ _ s.access.recovery_codes g.recovery_codes;
  keys = any-select-none _ _ s.keys g.keys;
  evaluations = any-select-none _ _ s.queue.evaluations g.evaluations;
  acknowledgements = any-select-none _ _ s.queue.acknowledgements g.acknowledgements;
  reports = any-select-none _ _ s.queue.reports g.reports;
  retrievals = any-select-none _ _ s.queue.retrievals g.retrievals;
  works = any-select-none _ _ s.works g.works;
  holds = any-select-none _ _ s.holds g.holds;
}

pub erase_operator-stays-Gone :
    (now i j : ℕ) (s : RightsTables) → Gone i s → Gone i (erase_operator j now s).1
unfolding erase_operator
erase_operator-stays-Gone now i j s g =
    found-stays-Gone now i j s (work_found j s) (operator_found j s) g
