-- ===== src/Examples/Programs.antt =====
-- Runs of the whole program on the queue: a chain of refreshes, and a rejection with a cleanup.
use agent_data_oracle.Base.{
  ℕ, suc, ◌≡◌, refl, Text, codes, strip, text_eq, true, false, some, is_some, [], ◌∷◌, ◌++◌, length,
  ok,
}
use agent_data_oracle.Json.{get}
use agent_data_oracle.Identifier.{normalize_identifier, compact}
use agent_data_oracle.Identifier.Matching.{match_cpsc_record, match_typed, string_values}
use agent_data_oracle.Source.{
  SourceTables, completed, complete, current_completed, source_observed_at, source_revision_id,
  source_records,
}
use agent_data_oracle.Queue.{Queue, rejected, is_released, release_time, released_to}
use agent_data_oracle.Queue.Submit.{
  Draw, submit, submit_body, replay_or_create, create, usable_revision, candidate_rows,
  match_records, evidence_rows, evidence_row, insert_evaluation, link,
}
use agent_data_oracle.Queue.Auditing.{
  record_founder_audit, with_reason, audit_reason, audit_body, decide, activate_pause,
  is_held_for_audit,
}
use agent_data_oracle.Queue.Refreshing.{
  refresh_evaluation, refresh_request, decide_next, next_from, next_of, successors, moves,
}
use agent_data_oracle.Queue.Steps.{submits, decides, refreshes}
use agent_data_oracle.Rights.{RightsTables}
use agent_data_oracle.Rights.Cleanup.{
  cleanup, expire_attempts, settle_works, erase_expired, expire_refresh_history, expired_operators,
}
use agent_data_oracle.Program.{Writes, start, after, calls, cleans}
use agent_data_oracle.Program.Rejections.{rejection_holds_back}
use agent_data_oracle.Program.Refreshes.{refresh_evaluation-returns}
use agent_data_oracle.Examples.Queues.{env, source, fresh, request, draw, held}
use agent_data_oracle.Examples.Audits.{held_evaluation, wrong_product, after_rejection}
use agent_data_oracle.Examples.Imports.{import_env}
use agent_data_oracle.Examples.Accounts.{nobody}

-- A source without records, at a revision.
abbrev bare : ℕ → SourceTables
bare i = record source {
  current_revision = some i;
  revisions =
      record {
        revision_id = i;
        run_id = 1;
        state = completed;
        completeness = complete;
        record_count = 0;
        completed_at = some 1001;
      }
      ∷ [];
  current_records = [];
}

abbrev print : ℕ → Text
print n = codes "00000000" ++ n ∷ []

abbrev draw_of : ℕ → Draw
draw_of i = record draw { evaluation_id = i }

abbrev on_bare : Queue
on_bare = record fresh { source = bare 5 }

abbrev first_made : Queue
first_made = (submit env request (draw_of 3) on_bare).1

abbrev with_six : Queue
with_six = record first_made { source = bare 6 }

abbrev second_made : Queue
second_made = (submit env (refresh_request print 7 3 6 with_six) (draw_of 4) with_six).1

abbrev with_seven : Queue
with_seven = record second_made { source = bare 7 }

abbrev two_refreshes : Writes env import_env on_bare with_seven
two_refreshes =
    after second_made with_seven
      (after with_six second_made
        (after first_made with_six
          (after on_bare first_made start
            (calls on_bare first_made (submits request (draw_of 3) on_bare)))
          (calls first_made with_six (refreshes (bare 6) first_made)))
        (calls with_six second_made
          (submits (refresh_request print 7 3 6 with_six) (draw_of 4) with_six)))
      (calls second_made with_seven (refreshes (bare 7) second_made))

refresh_evaluation-returns_example :
    is_some (
      refresh_evaluation env print
        (λ n. 3000)
        (draw_of 5)
        7
        (suc (length with_seven.evaluations))
        3
        with_seven)
    ≡ true
refresh_evaluation-returns_example =
    refresh_evaluation-returns env import_env print (λ n. 3000) (draw_of 5) 7 3 refl two_refreshes

-- The walk of that refresh moves from the first evaluation to the second.
walk_moves : decide_next 3000 7 3 with_seven ≡ ok (moves 4)
unfolding submit submit_body replay_or_create create usable_revision source_observed_at
    source_revision_id current_completed source_records candidate_rows match_records evidence_rows
    text_eq insert_evaluation link decide_next next_from next_of successors released_to is_released
    release_time
walk_moves = refl

abbrev with_rejection : RightsTables
with_rejection = record {
  access = nobody;
  keys = [];
  key_attempts = [];
  queue = after_rejection;
  works = [];
  holds = [];
  receipts = [];
}

abbrev cleaned : Queue
cleaned = (cleanup 5000 with_rejection).1.queue

rejection_holds_back_example : is_released cleaned held_evaluation ≡ false
unfolding submit submit_body replay_or_create create usable_revision source_observed_at
    source_revision_id current_completed source_records candidate_rows match_records
    match_cpsc_record match_typed string_values get normalize_identifier compact text_eq
    evidence_rows evidence_row insert_evaluation record_founder_audit with_reason audit_reason
    audit_body decide activate_pause is_held_for_audit strip cleanup expire_attempts settle_works
    erase_expired expire_refresh_history expired_operators
rejection_holds_back_example =
    rejection_holds_back env import_env held_evaluation refl
      (after after_rejection cleaned
        (after held after_rejection
          (after fresh held start (calls fresh held (submits request draw fresh)))
          (calls held after_rejection (decides 3 1 rejected (some wrong_product) 3000 held)))
        (cleans 5000 with_rejection))
      refl refl
