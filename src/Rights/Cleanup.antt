-- ===== src/Rights/Cleanup.antt =====
-- `cleanup` of `data_rights.py`: the erasure of an operator, and the loops that run it.
use agent_data_oracle.Base.{
  ℕ, ◌+◌, Text, text_eq, Bool, true, false, not, ◌&&◌, ◌||◌, leb, ◌==◌, Option, none, some, List,
  [], ◌∷◌, ◌++◌, any, select, first, sort_by, if◌then◌else◌,
}
use agent_data_oracle.Queue.{
  Queue, Evaluation, Input, EvidenceRow, Release, Audit, Acknowledgement, Report, Retrieval,
  Refresh, PauseEvent,
}
use agent_data_oracle.Agent.{AgentKey, Attempt}
use agent_data_oracle.Access.{
  AccessTables, OperatorRow, BrowserSession, LoginToken, AuthAttempt, TotpFactor, RecoveryCode,
}
use agent_data_oracle.Rights.{
  data_categories, founder_test_retention, security_log_retention, DeletionWork, Hold, RightsTables,
  work_of, has_active_hold, pause_for_overdue_deletion,
}

module _ {A : Type 0} where
  -- `DELETE FROM … WHERE …`
  abbrev pub delete_where : (A → Bool) → List A → List A
  delete_where p xs = select (λ x. not (p x)) xs

-- `evaluation_id = ANY(…)`, for the evaluations of an operator.
abbrev pub is_own_evaluation : ℕ → Queue → ℕ → Bool
is_own_evaluation i s e =
    any (λ (x : Evaluation). x.evaluation_id == e && x.operator_id == i) s.evaluations

-- `agent_key_id = ANY(…)`, for the keys of an operator.
abbrev pub is_own_key : ℕ → List AgentKey → ℕ → Bool
is_own_key i ks k = any (λ (x : AgentKey). x.agent_key_id == k && x.operator_id == i) ks

abbrev pub actor_is : ℕ → Option ℕ → Bool
actor_is i none = false
actor_is i (some j) = j == i

abbrev pub clear_actor : ℕ → Option ℕ → Option ℕ
clear_actor i none = none
clear_actor i (some j) = if j == i then none else some j

-- The deletions from the queue's tables.
unfoldable pub erase_queue : ℕ → Queue → Queue
erase_queue i s =
    let own = is_own_evaluation i s in
    record s {
      retrievals = delete_where (λ (r : Retrieval). r.operator_id == i) s.retrievals;
      reports = delete_where (λ (r : Report). r.operator_id == i) s.reports;
      acknowledgements =
          delete_where (λ (a : Acknowledgement). a.operator_id == i) s.acknowledgements;
      refreshes =
          delete_where (λ (r : Refresh). own r.successor_id || own r.predecessor_id) s.refreshes;
      audits = delete_where (λ (a : Audit). a.founder_id == i || own a.evaluation_id) s.audits;
      releases = delete_where (λ (r : Release). own r.evaluation_id) s.releases;
      rows = delete_where (λ (r : EvidenceRow). own r.evaluation_id) s.rows;
      inputs = delete_where (λ (r : Input). own r.evaluation_id) s.inputs;
      evaluations = delete_where (λ (e : Evaluation). own e.evaluation_id) s.evaluations;
      pause_events = delete_where (λ (e : PauseEvent). actor_is i e.actor_id) s.pause_events;
      pause = record s.pause {
        activated_by = clear_actor i s.pause.activated_by;
        resolved_by = clear_actor i s.pause.resolved_by;
      };
    }

-- The deletions from the tables of the human access, with the operator's address.
unfoldable pub erase_access : ℕ → Text → AccessTables → AccessTables
unfolding text_eq
erase_access i email s = record s {
  sessions = delete_where (λ (x : BrowserSession). x.operator_id == i) s.sessions;
  recovery_codes = delete_where (λ (c : RecoveryCode). c.operator_id == i) s.recovery_codes;
  totp_factors = delete_where (λ (f : TotpFactor). f.operator_id == i) s.totp_factors;
  login_tokens = delete_where (λ (t : LoginToken). text_eq t.email_normalized email) s.login_tokens;
  operators = delete_where (λ (o : OperatorRow). o.operator_id == i) s.operators;
}

-- The categories of the receipt.
abbrev pub receipt_categories : Option DeletionWork → List Text
receipt_categories none = data_categories
receipt_categories (some w) = w.categories

-- The transaction, from the operator's row and the work.
unfoldable pub erase_found :
    ℕ → ℕ → RightsTables → Option DeletionWork → Option OperatorRow → Bool × RightsTables
unfolding erase_queue erase_access
erase_found i now s work none = (false, s)
erase_found i now s work (some o) = (
  true,
  record s {
    queue = erase_queue i s.queue;
    key_attempts =
        delete_where (λ (a : Attempt). is_own_key i s.keys a.agent_key_id) s.key_attempts;
    keys = delete_where (λ (k : AgentKey). k.operator_id == i) s.keys;
    access = erase_access i o.email_normalized s.access;
    holds = delete_where (λ (h : Hold). h.operator_id == i) s.holds;
    works = delete_where (work_of i) s.works;
    receipts =
        s.receipts ++ record { completed_at = now; categories = receipt_categories work } ∷ [];
  },
)

-- `_erase_operator`; the identifiers of both look-ups are unique.
unfoldable pub erase_operator : ℕ → ℕ → RightsTables → Bool × RightsTables
unfolding erase_found
erase_operator i now s =
    erase_found i now s (first (select (work_of i) s.works))
      (first (select (λ (o : OperatorRow). o.operator_id == i) s.access.operators))

-- `_expire_refresh_history`
abbrev pub is_expired_link : ℕ → Queue → Refresh → Bool
is_expired_link now s r =
    any
      (λ (e : Evaluation).
        e.evaluation_id == r.successor_id && leb (e.evaluated_at + founder_test_retention) now)
      s.evaluations

unfoldable pub expire_refresh_history : ℕ → RightsTables → RightsTables
expire_refresh_history now s = record s {
  queue = record s.queue {
    refreshes = delete_where (is_expired_link now s.queue) s.queue.refreshes;
  };
}

-- The deletions of old attempts and admissions.
unfoldable pub expire_attempts : ℕ → RightsTables → RightsTables
expire_attempts now s = record s {
  access = record s.access {
    attempts =
        delete_where (λ (a : AuthAttempt). leb (a.attempted_at + security_log_retention) now)
          s.access.attempts;
    admissions = delete_where (λ t. leb (t + security_log_retention) now) s.access.admissions;
  };
  key_attempts =
      delete_where (λ (a : Attempt). leb (a.attempted_at + security_log_retention) now)
        s.key_attempts;
}

abbrev pub pending_works : RightsTables → List DeletionWork
pending_works s = sort_by (λ v w. leb v.requested_at w.requested_at) s.works

-- The operators whose retention has ended, and who are not held.
unfoldable pub expired_operators : ℕ → RightsTables → List OperatorRow
unfolding has_active_hold
expired_operators now s =
    sort_by (λ o p. leb o.created_at p.created_at)
      (select
        (λ o.
          leb (o.created_at + founder_test_retention) now && not (has_active_hold o.operator_id s))
        s.access.operators)

abbrev pub count_if : Bool → ℕ → ℕ
count_if true n = n + 1
count_if false n = n

-- One pending work: a held operator is kept, with a pause once the work is overdue.
unfoldable pub settle_work : ℕ → DeletionWork → RightsTables → Bool × RightsTables
unfolding has_active_hold pause_for_overdue_deletion erase_operator
settle_work now w s =
    if has_active_hold w.operator_id s
    then (false, if leb w.due_at now then pause_for_overdue_deletion now s else s)
    else erase_operator w.operator_id now s

-- The loop over the pending works.
unfoldable pub settle_works : ℕ → List DeletionWork → RightsTables → ℕ × RightsTables
settle_works now [] s = (0, s)
settle_works now (w ∷ ws) s =
    let (done, t) = settle_work now w s in
    let (n, u) = settle_works now ws t in (count_if done n, u)

-- The loop over the expired operators.
unfoldable pub erase_expired : ℕ → List OperatorRow → RightsTables → ℕ × RightsTables
erase_expired now [] s = (0, s)
erase_expired now (o ∷ os) s =
    let (done, t) = erase_operator o.operator_id now s in
    let (n, u) = erase_expired now os t in (count_if done n, u)

-- `CleanupResult`
pub record CleanupResult : Type 0 where
  pub completed_deletions : ℕ
  pub expired_operators : ℕ

-- `cleanup`, which reads both lists before its loops.
unfoldable pub cleanup : ℕ → RightsTables → CleanupResult × RightsTables
unfolding settle_works erase_expired expire_attempts expire_refresh_history
cleanup now s =
    let t = expire_attempts now s in
    let (completed, u) = settle_works now (pending_works t) t in
    let (expired, v) = erase_expired now (expired_operators now t) u in
    (
      record { completed_deletions = completed; expired_operators = expired },
      expire_refresh_history now v,
    )
