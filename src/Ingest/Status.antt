-- ===== src/Ingest/Status.antt =====
-- `cpsc_source_status`: what the status page and the health check say of the source.
use agent_data_oracle.Base.{
  ℕ, ◌+◌, Text, Bool, false, not, ◌>>◌, raise_if, ◌==◌, leb, Option, none, some, List, [], ◌∷◌, map,
  select, flat_map, is_some, if◌then◌else◌, Result, ok, ◌>>=◌, one_or_none,
}
use agent_data_oracle.Source.{is_completed, Run, Revision, SourceTables}
use agent_data_oracle.Queue.{hours}
use agent_data_oracle.Ingest.{IngestError, unhandled, RefreshState, Ingest}

pub data Readiness : Type 0 where
  unavailable integrity_paused ready transient_failure disabled : Readiness

pub data Freshness : Type 0 where
  current stale unknown_age : Freshness

-- The row of the current revision with its run's time.
pub record CurrentRevision : Type 0 where
  pub revision_id : ℕ
  pub completed_at : Option ℕ
  pub record_count : ℕ
  pub observed_at : ℕ

pub record Status : Type 0 where
  pub current_revision : Option CurrentRevision
  pub last_run : Option Run
  pub readiness : Readiness
  pub freshness : Freshness
  pub last_failure_kind : Option Text
  pub integrity_pause_reason : Option Text

abbrev joined_run : Revision → Run → CurrentRevision
joined_run r run = record {
  revision_id = r.revision_id;
  completed_at = r.completed_at;
  record_count = r.record_count;
  observed_at = run.observed_at;
}

-- The first query: the selected revision, in whatever state, with its run.
unfoldable pub current_rows : SourceTables → List CurrentRevision
current_rows s = elim s.current_revision [
  | none ↦ []
  | some i ↦
      flat_map (λ r. map (joined_run r) (select (λ (run : Run). run.run_id == r.run_id) s.runs))
        (select (λ (r : Revision). r.revision_id == i) s.revisions)
]

-- `ORDER BY run_sequence DESC LIMIT 1`: runs are kept in the order of their insertion.
unfoldable pub last_of : List Run → Option Run
last_of [] = none
last_of (r ∷ []) = some r
last_of (r ∷ q ∷ rs) = last_of (q ∷ rs)

abbrev pub succeeded : Option Run → Bool
succeeded none = false
succeeded (some r) = is_completed r.state

-- The readiness and the freshness, from the rows that the queries gave.
unfoldable pub assess :
    Option CurrentRevision → RefreshState → Option Run → ℕ → Readiness × Freshness
assess none state last now = (unavailable, unknown_age)
assess (some c) state last now =
    if is_some state.integrity_pause_reason
    then (integrity_paused, unknown_age)
    else if leb now (c.observed_at + hours 48)
    then (if succeeded last then ready else transient_failure, current)
    else (disabled, stale)

-- `instant(current["completed_at"])` raises on a current revision without its completion time.
abbrev pub lacks_completion : Option CurrentRevision → Bool
lacks_completion none = false
lacks_completion (some c) = not (is_some c.completed_at)

-- `cpsc_source_status` at a given time.
unfoldable pub cpsc_source_status : ℕ → Ingest → Result IngestError Status
cpsc_source_status now s = do
  found ← one_or_none unhandled (current_rows s.queue.source)
  let last = last_of s.queue.source.runs
  let (readiness, freshness) = assess found s.refresh_state last now
  raise_if (lacks_completion found) unhandled
  ok (record {
    current_revision = found;
    last_run = last;
    readiness = readiness;
    freshness = freshness;
    last_failure_kind = s.refresh_state.last_failure_kind;
    integrity_pause_reason = s.refresh_state.integrity_pause_reason;
  })
