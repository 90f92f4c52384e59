-- ===== src/Ingest/Importing.antt =====
-- The imports: a fixture, a received response, and a refresh from the live source.
use agent_data_oracle.Base.{
  ℕ, ◌+◌, Text, codes, Bool, true, false, not, ◌&&◌, ◌||◌, ◌==◌, ltb, Option, none, some, List, [],
  ◌∷◌, ◌++◌, map, any, first, flat_map, select, update_where, if◌then◌else◌, Result, ok, err, ◌>>◌,
  raise_if, transaction,
}
use agent_data_oracle.Source.{
  RefreshMode, fixture, State, pending, failed, rejected, unknown, partial, Run, Revision,
  SourceTables,
}
use agent_data_oracle.Queue.{Pause, source_integrity, hours}
use agent_data_oracle.Ingest.{
  CpscRecord, IngestEnv, IngestError, invalid, value_error, sql_error, unhandled, Ingest,
  ImportDraw, Imported, imported, rejected_import, failed_import, cpsc_recall_api_url,
}
use agent_data_oracle.Ingest.Records.{parse_source_records}
use agent_data_oracle.Ingest.Retrieval.{
  Fetched, Ending, received, gave_up, raised, assertion_failed, UrlError, source_time_required,
  time_out_of_range, build_cpsc_recall_url, retrieve_cpsc_response, max_retrieval_attempts,
}
use agent_data_oracle.Ingest.Promotion.{promote_revision}

-- Where a run comes from, and what it received.
pub record Response : Type 0 where
  pub source_url : Text
  pub observed_at : ℕ
  pub raw_response : Text
  pub refresh_mode : RefreshMode
  pub retrieval_attempts : ℕ

abbrev pub pending_run : ImportDraw → Response → Run
pending_run d q = record {
  run_id = d.run_id;
  source_url = q.source_url;
  observed_at = q.observed_at;
  raw_response = q.raw_response;
  state = pending;
  refresh_mode = q.refresh_mode;
  retrieval_attempts = q.retrieval_attempts;
  error_code = none;
  record_count = 0;
}

abbrev pub pending_revision : ImportDraw → Revision
pending_revision d = record {
  revision_id = d.revision_id;
  run_id = d.run_id;
  state = pending;
  completeness = unknown;
  record_count = 0;
  completed_at = none;
}

abbrev pub with_source : (SourceTables → SourceTables) → Ingest → Ingest
with_source f s = record s { queue = record s.queue { source = f s.queue.source } }

-- `_start_revision`: both identifiers are unused.
unfoldable pub start_revision : ImportDraw → Response → Ingest → Result IngestError Ingest
start_revision d q s = do
  raise_if
      (any (λ (r : Run). r.run_id == d.run_id) s.queue.source.runs
        || any (λ (r : Revision). r.revision_id == d.revision_id) s.queue.source.revisions)
      sql_error
  ok (
      with_source
        (λ t. record t {
          runs = t.runs ++ pending_run d q ∷ [];
          revisions = t.revisions ++ pending_revision d ∷ [];
        })
        s)

-- `_finish_unsuccessful_revision`
unfoldable pub finish_unsuccessful_revision : ImportDraw → State → Text → Ingest → Ingest
finish_unsuccessful_revision d state code = with_source (λ t. record t {
  runs =
      update_where (λ (r : Run). r.run_id == d.run_id)
        (λ r. record r { state = state; error_code = some code }) t.runs;
  revisions =
      update_where (λ (r : Revision). r.revision_id == d.revision_id)
        (λ r. record r { state = state; completeness = partial }) t.revisions;
})

-- `UPDATE cpsc_source_refresh_state SET last_failure_kind = …`
abbrev pub with_failure : Text → Ingest → Ingest
with_failure code s = record s {
  refresh_state = record s.refresh_state { last_failure_kind = some code };
}

abbrev pub integrity_pause : Text → ℕ → Pause → Pause
integrity_pause code now p = if p.is_paused then p else record p {
  is_paused = true;
  trigger_kind = some source_integrity;
  reason_category = some code;
  activated_at = some now;
  resolution_note = none;
  resolved_at = none;
  resolved_by = none;
}

-- `_activate_source_integrity_pause`: an active pause keeps its trigger; no event is recorded.
unfoldable pub activate_source_integrity_pause : Text → ℕ → Ingest → Ingest
activate_source_integrity_pause code now s = record s {
  queue = record s.queue { pause = integrity_pause code now s.queue.pause };
  refresh_state = record s.refresh_state {
    integrity_pause_reason = some code;
    last_failure_kind = some code;
  };
}

abbrev pub hashes : List CpscRecord → List Text
hashes rs = map (λ (r : CpscRecord). r.content_hash) rs

-- What follows the promotion's transaction: a database error is recorded as a failed import, and
-- every other error leaves the call.
unfoldable pub settle_promotion :
    ImportDraw
    → List CpscRecord
    → (Ingest → Ingest)
    → Result IngestError (ℕ × ℕ) × Ingest
    → Result IngestError Imported × Ingest
settle_promotion d records on_failure (ok (reused, count), s) =
    (ok (imported d.revision_id count reused (hashes records)), s)
settle_promotion d records on_failure (err sql_error, s) = (
  ok (failed_import d.revision_id (codes "promotion_failed")),
  on_failure (finish_unsuccessful_revision d failed (codes "promotion_failed") s),
)
settle_promotion d records on_failure (err e, s) = (err e, s)

-- What follows the parse: the promotion, the recorded rejection, or the error of another kind.
unfoldable pub after_parse :
    IngestEnv
    → ImportDraw
    → Response
    → (Text → Ingest → Ingest)
    → (Ingest → Ingest)
    → Result IngestError (List CpscRecord)
    → Ingest
    → Result IngestError Imported × Ingest
unfolding settle_promotion
after_parse env d q on_rejection on_failure (ok records) s =
    settle_promotion d records on_failure
      (transaction (promote_revision env q.refresh_mode d records q.observed_at) s)
after_parse env d q on_rejection on_failure (err (invalid code)) s = (
  ok (rejected_import d.revision_id code),
  on_rejection code (finish_unsuccessful_revision d rejected code s),
)
after_parse env d q on_rejection on_failure (err e) s = (err e, s)

-- The part that both imports share, from the transaction that starts the run on.
unfoldable pub import_started :
    IngestEnv
    → ImportDraw
    → Response
    → Option ℕ
    → (Text → Ingest → Ingest)
    → (Ingest → Ingest)
    → Ingest
    → Result IngestError Ingest
    → Result IngestError Imported × Ingest
unfolding after_parse
import_started env d q expected on_rejection on_failure s (err e) = (err e, s)
import_started env d q expected on_rejection on_failure s (ok started) =
    after_parse env d q on_rejection on_failure (parse_source_records env q.raw_response expected)
      started

-- `import_cpsc_fixture`, from the file's content.
unfoldable pub import_cpsc_fixture :
    IngestEnv → ImportDraw → Text → ℕ → ℕ → Text → Ingest → Result IngestError Imported × Ingest
unfolding import_started
import_cpsc_fixture env d content observed_at expected source_url s =
    let q : Response = record {
      source_url = source_url;
      observed_at = observed_at;
      raw_response = content;
      refresh_mode = fixture;
      retrieval_attempts = 0;
    } in
    import_started env d q (some expected) (λ code t. t) (λ t. t) s (start_revision d q s)

-- The rejection of a response: the failure and the integrity pause.
abbrev pub reject_response : ℕ → Text → Ingest → Ingest
reject_response now code s = activate_source_integrity_pause code now (with_failure code s)

abbrev pub is_live : RefreshMode → Bool
is_live RefreshMode.fixture = false
is_live _ = true

-- `import_cpsc_refresh_response`; the pause, if any, begins at `now`.
unfoldable pub import_cpsc_refresh_response :
    IngestEnv → ImportDraw → Response → Option ℕ → ℕ → Ingest → Result IngestError Imported × Ingest
unfolding import_started
import_cpsc_refresh_response env d q expected now s =
    if not (is_live q.refresh_mode)
    then (err value_error, s)
    else import_started env d q expected (reject_response now)
        (with_failure (codes "promotion_failed")) s (start_revision d q s)

-- `_last_completed_source_observed_at`
unfoldable pub last_completed_source_observed_at : SourceTables → Option ℕ
last_completed_source_observed_at s = elim s.current_revision [
  | none ↦ none
  | some i ↦ first (
      flat_map
        (λ (r : Revision).
          map (λ (run : Run). run.observed_at)
            (select (λ (run : Run). run.run_id == r.run_id) s.runs))
        (select (λ (r : Revision). r.revision_id == i) s.revisions))
]

-- The transaction of `_record_transport_failure`.
unfoldable pub record_failure :
    ImportDraw → Text → Ingest → Result IngestError Ingest → Result IngestError Imported × Ingest
record_failure d code s (err e) = (err e, s)
record_failure d code s (ok started) = (
  ok (failed_import d.revision_id code),
  with_failure code (finish_unsuccessful_revision d failed code started),
)

-- `_record_transport_failure`
unfoldable pub record_transport_failure :
    ImportDraw → Text → ℕ → RefreshMode → Text → Ingest → Result IngestError Imported × Ingest
unfolding record_failure
record_transport_failure d source_url observed_at mode code s =
    let q : Response = record {
      source_url = source_url;
      observed_at = observed_at;
      raw_response = [];
      refresh_mode = mode;
      retrieval_attempts = max_retrieval_attempts;
    } in
    record_failure d code s (start_revision d q s)

-- The arguments of a refresh.
pub record RefreshCall : Type 0 where
  pub refresh_mode : RefreshMode
  pub observed_at : ℕ
  pub expected_record_count : Option ℕ
  pub now : ℕ

-- What follows the retrieval.
unfoldable pub after_retrieval :
    IngestEnv
    → ImportDraw
    → RefreshCall
    → Text
    → Ending
    → Ingest
    → Result IngestError Imported × Ingest
unfolding import_cpsc_refresh_response record_transport_failure
after_retrieval env d q url (received content) s =
    import_cpsc_refresh_response env d
      (record {
        source_url = url;
        observed_at = q.observed_at;
        raw_response = content;
        refresh_mode = q.refresh_mode;
        retrieval_attempts = 1;
      })
      q.expected_record_count q.now s
after_retrieval env d q url (gave_up code transient) s =
    record_transport_failure d url q.observed_at q.refresh_mode code s
after_retrieval env d q url raised s = (err unhandled, s)
after_retrieval env d q url assertion_failed s = (err unhandled, s)

abbrev pub is_daily : RefreshMode → Bool
is_daily RefreshMode.daily = true
is_daily _ = false

-- A daily refresh whose last completed source time is more than 48 hours back.
abbrev pub needs_reconciliation : RefreshCall → Option ℕ → Bool
needs_reconciliation q none = false
needs_reconciliation q (some last) = is_daily q.refresh_mode && ltb (last + hours 48) q.observed_at

-- What follows the construction of the URL.
unfoldable pub refresh_from :
    IngestEnv
    → ImportDraw
    → RefreshCall
    → (Text → ℕ → Fetched)
    → Option ℕ
    → Result UrlError Text
    → Ingest
    → Result IngestError Imported × Ingest
unfolding after_retrieval retrieve_cpsc_response
refresh_from env d q fetch last (err source_time_required) s =
    record_transport_failure d cpsc_recall_api_url q.observed_at q.refresh_mode
      (codes "completed_revision_required") s
refresh_from env d q fetch last (err time_out_of_range) s = (err unhandled, s)
refresh_from env d q fetch last (ok url) s =
    if needs_reconciliation q last
    then record_transport_failure d url q.observed_at q.refresh_mode
        (codes "stale_source_requires_weekly_reconciliation") s
    else after_retrieval env d q url (retrieve_cpsc_response (fetch url)).ending s

-- `refresh_cpsc_source`
unfoldable pub refresh_cpsc_source :
    IngestEnv
    → ImportDraw
    → RefreshCall
    → (Text → ℕ → Fetched)
    → Ingest
    → Result IngestError Imported × Ingest
unfolding refresh_from last_completed_source_observed_at
refresh_cpsc_source env d q fetch s =
    let last = last_completed_source_observed_at s.queue.source in
    if not (is_live q.refresh_mode)
    then (err value_error, s)
    else refresh_from env d q fetch last (build_cpsc_recall_url env q.refresh_mode last) s
