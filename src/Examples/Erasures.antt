-- ===== src/Examples/Erasures.antt =====
-- Runs of the data rights: a cleanup with a pending deletion.
use agent_data_oracle.Base.{◌≡◌, refl, true, false, ◌⊎◌, inl, leb, [], ◌∷◌}
use agent_data_oracle.Rights.{
  RightsTables, DeletionWork, new_work, has_active_hold, operator_exists,
}
use agent_data_oracle.Rights.Cleanup.{settle_work, cleanup}
use agent_data_oracle.Rights.Erasing.{Kept, Gone}
use agent_data_oracle.Rights.Settling.{cleanup_settles}
use agent_data_oracle.Examples.Accounts.{nobody, founder_row, a_session}
use agent_data_oracle.Examples.Queues.{held}

abbrev requested_deletion : DeletionWork
requested_deletion = new_work 7 300

abbrev with_request : RightsTables
with_request = record {
  access = record nobody { operators = founder_row ∷ []; sessions = a_session ∷ [] };
  keys = [];
  key_attempts = [];
  queue = held;
  works = requested_deletion ∷ [];
  holds = [];
  receipts = [];
}

cleanup_settles_example :
    ((has_active_hold 7 with_request ≡ false) × Gone 7 (cleanup 400 with_request).1)
    ⊎ ((has_active_hold 7 with_request ≡ true)
        × Kept 7 with_request (cleanup 400 with_request).1
        × ((leb requested_deletion.due_at 400 ≡ false)
            ⊎ ((cleanup 400 with_request).1.queue.pause.is_paused ≡ true)))
unfolding operator_exists
cleanup_settles_example = cleanup_settles 400 with_request requested_deletion (inl refl) refl

-- The erasure was done.
cleanup_completes : (cleanup 400 with_request).0.completed_deletions ≡ 1
unfolding cleanup settle_work
cleanup_completes = refl
