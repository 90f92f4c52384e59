-- ===== src/Rights.antt =====
-- The data rights of `data_rights.py`: the export, the deletion request, incident holds and the
-- cleanup, over the tables of the human access, the agent keys and the queues.
pub mod Cleanup
pub mod Export
pub mod Deleting
pub mod Loops
pub mod Erasing
pub mod Settling
use agent_data_oracle.Base.{
  ℕ, ◌+◌, Text, codes, Bool, true, false, not, ◌&&◌, ◌==◌, Option, none, some, List, [], ◌∷◌, ◌++◌,
  any, select, first, is_some, is_empty, strip, update_where, if◌then◌else◌, Result, ok, err,
}
use agent_data_oracle.Identifier.{Unicode}
use agent_data_oracle.Queue.{Queue, activated, deletion_response_deadline, hours}
use agent_data_oracle.Agent.{AgentKey, Attempt}
use agent_data_oracle.Access.{AccessTables, OperatorRow, BrowserSession}

abbrev pub data_categories : List Text
data_categories =
    codes "account_and_declaration"
    ∷ codes "acknowledgements"
    ∷ codes "delegated_key_metadata"
    ∷ codes "released_evaluations"
    ∷ codes "review_reports"
    ∷ codes "submissions"
    ∷ []

abbrev pub founder_test_retention : ℕ
founder_test_retention = hours 720

abbrev pub security_log_retention : ℕ
security_log_retention = hours 336

abbrev pub deletion_response_target : ℕ
deletion_response_target = hours 168

-- `operator_deletion_work`, whose status is always pending.
pub record DeletionWork : Type 0 where
  pub operator_id : ℕ
  pub requested_at : ℕ
  pub due_at : ℕ
  pub categories : List Text

-- `deletion_completion_receipts`
pub record Receipt : Type 0 where
  pub completed_at : ℕ
  pub categories : List Text

-- `operator_retention_holds`
pub record Hold : Type 0 where
  pub operator_id : ℕ
  pub reason_category : Text
  pub recorded_at : ℕ
  pub released_at : Option ℕ

-- All tables with data of operators.
pub record RightsTables : Type 0 where
  pub access : AccessTables
  pub keys : List AgentKey
  pub key_attempts : List Attempt
  pub queue : Queue
  pub works : List DeletionWork
  pub holds : List Hold
  pub receipts : List Receipt

-- `SELECT 1 FROM operators WHERE operator_id = …`
unfoldable pub operator_exists : ℕ → RightsTables → Bool
operator_exists i s = any (λ (o : OperatorRow). o.operator_id == i) s.access.operators

-- `DeletionRequest`
pub record DeletionRequest : Type 0 where
  pub requested_at : ℕ
  pub due_at : ℕ

abbrev pub new_work : ℕ → ℕ → DeletionWork
new_work i now = record {
  operator_id = i;
  requested_at = now;
  due_at = now + deletion_response_target;
  categories = data_categories;
}

abbrev pub work_of : ℕ → DeletionWork → Bool
work_of i w = w.operator_id == i

abbrev pub request_of : DeletionWork → DeletionRequest
request_of w = record { requested_at = w.requested_at; due_at = w.due_at }

-- `INSERT INTO operator_deletion_work … ON CONFLICT … RETURNING`: an earlier request stands.
unfoldable pub upsert_work :
    ℕ → ℕ → List DeletionWork → Option DeletionWork → DeletionRequest × List DeletionWork
upsert_work i now works (some w) = (request_of w, works)
upsert_work i now works none = (request_of (new_work i now), works ++ new_work i now ∷ [])

-- The end of all sessions and keys of the operator.
abbrev pub with_access_ended : ℕ → ℕ → RightsTables → RightsTables
with_access_ended i now s = record s {
  access = record s.access {
    sessions =
        update_where (λ (x : BrowserSession). x.operator_id == i && not (is_some x.revoked_at))
          (λ x. record x { revoked_at = some now }) s.access.sessions;
  };
  keys =
      update_where (λ (k : AgentKey). k.operator_id == i && not (is_some k.revoked_at))
        (λ k. record k { revoked_at = some now }) s.keys;
}

-- `request_deletion`
unfoldable pub request_deletion : ℕ → ℕ → RightsTables → Option DeletionRequest × RightsTables
unfolding operator_exists upsert_work
request_deletion i now s =
    let (request, works) = upsert_work i now s.works (first (select (work_of i) s.works)) in
    if operator_exists i s
    then (some request, with_access_ended i now (record s { works = works }))
    else (none, s)

-- The `ValueError` of an empty reason.
pub data HoldError : Type 0 where
  reason_missing : HoldError

-- `place_incident_hold`
unfoldable pub place_incident_hold :
    Unicode → ℕ → Text → ℕ → RightsTables → Result HoldError Bool × RightsTables
unfolding operator_exists strip
place_incident_hold u i given recorded_at s =
    let reason = strip u.is_space given in
    if is_empty reason
    then (err reason_missing, s)
    else if operator_exists i s
    then (
      ok true,
      record s {
        holds =
            s.holds
            ++ record {
              operator_id = i;
              reason_category = reason;
              recorded_at = recorded_at;
              released_at = none;
            }
              ∷ [];
      },
    )
    else (ok false, s)

abbrev pub active_hold_of : ℕ → Hold → Bool
active_hold_of i h = h.operator_id == i && not (is_some h.released_at)

-- `_has_active_hold`
unfoldable pub has_active_hold : ℕ → RightsTables → Bool
has_active_hold i s = any (active_hold_of i) s.holds

-- The pause of an overdue deletion, with its event: the columns of an earlier resolution stay.
abbrev pub overdue_pause : ℕ → RightsTables → RightsTables
overdue_pause now s = record s {
  queue = record s.queue {
    pause = record s.queue.pause {
      is_paused = true;
      trigger_kind = some deletion_response_deadline;
      reason_category = some (codes "deletion_work_overdue");
      activated_at = some now;
      activated_by = none;
    };
    pause_events =
        s.queue.pause_events
        ++ record {
          action = activated;
          trigger_kind = some deletion_response_deadline;
          reason_category = some (codes "deletion_work_overdue");
          actor_id = none;
          occurred_at = now;
          resolution_note = none;
        }
          ∷ [];
  };
}

-- `_pause_for_overdue_deletion`
unfoldable pub pause_for_overdue_deletion : ℕ → RightsTables → RightsTables
pause_for_overdue_deletion now s = if s.queue.pause.is_paused then s else overdue_pause now s
