-- ===== src/Examples/Imports.antt =====
-- Runs of the import: a full refresh that replaces one record by another, a failed one and a
-- rejected response.
use agent_data_oracle.Base.{
  ℕ, ◌≤◌, ◌≡◌, ◌≢◌, ◌⊎◌, refl, Text, codes, text_eq, true, false, Option, some, none, List, [], ◌∷◌,
  ◌++◌, All, In, ok,
}
use agent_data_oracle.Base.Int.{pos}
use agent_data_oracle.Json.{Json, nil, cons, Fields, field, end, elements, as_array, get}
use agent_data_oracle.Source.{full, completed}
use agent_data_oracle.Queue.Submit.{Draw, usable_revision}
use agent_data_oracle.Ingest.{
  CpscRecord, SplitUrl, absent, IngestEnv, Tombstone, Ingest, ImportDraw, cpsc_recall_api_url,
}
use agent_data_oracle.Ingest.Records.{
  parse_source_records, read_records, read_fields, read_literals, required_text,
  optional_source_literal, is_official,
}
use agent_data_oracle.Ingest.Retrieval.{
  Fetched, body, timed_out, retrieve_cpsc_response, retrieve_from, build_cpsc_recall_url,
  assertion_failed,
}
use agent_data_oracle.Ingest.Promotion.{
  new_version, promote_revision, promoted_records, insert_records, record_version, insert_record,
  finish_promotion,
}
use agent_data_oracle.Ingest.Importing.{
  Response, RefreshCall, pending_run, pending_revision, start_revision,
  import_cpsc_refresh_response, refresh_cpsc_source, last_completed_source_observed_at,
  finish_unsuccessful_revision, activate_source_integrity_pause,
}
use agent_data_oracle.Ingest.Status.{
  Status, integrity_paused, ready, unknown_age, cpsc_source_status, current_rows, last_of, assess,
}
use agent_data_oracle.Ingest.Promoted.{row_of}
use agent_data_oracle.Ingest.Steps.{Steps, here, next, refreshes}
use agent_data_oracle.Ingest.Consistency.{IsConsistent}
use agent_data_oracle.Ingest.Lineage.{Steps-IsConsistent}
use agent_data_oracle.Ingest.Keeping.{SameSource, failed_refresh_keeps}
use agent_data_oracle.Ingest.Readiness.{Agrees, status-Agrees}
use agent_data_oracle.Ingest.Reading.{IsParsed, parse_source_records-IsParsed}
use agent_data_oracle.Ingest.Retries.{Stopped, retrieve_cpsc_response-Stopped}
use agent_data_oracle.Ingest.Pausing.{integrity_pause_is_permanent}
use agent_data_oracle.Ingest.Listing.{Pairwise, IsCurrentRow}
use agent_data_oracle.Ingest.Projection.{promote_revision-projects}
use agent_data_oracle.Ingest.Accounting.{is_listed, tombstone_of, full_promotion_accounts}
use agent_data_oracle.Examples.Queues.{fresh}

abbrev a_split : SplitUrl
a_split = record {
  scheme = codes "https";
  hostname = some (codes "www.cpsc.gov");
  port = absent;
  username = none;
  password = none;
  path = codes "/r";
}

abbrev an_object : Fields
an_object = field (codes "RecallID") (Json.integer (pos 10)) (
    field (codes "URL") (Json.text (codes "https://www.cpsc.gov/r"))
      (field (codes "RecallNumber") (Json.text (codes "24-010")) end))

abbrev the_document : Text → Option Json
the_document [] = none
the_document (c ∷ t) = some (Json.array (cons (Json.object an_object) nil))

abbrev pub import_env : IngestEnv
import_env = record {
  loads = the_document;
  dumps = λ vs. [];
  canonical = λ fs. codes "{}";
  sha256 = λ t. some t;
  urlsplit = λ t. some a_split;
  urlencode = λ ps. [];
  rfc3339 = λ t. [];
  decimal = λ n. [];
  stored = λ r. some (Json.object r.raw_record);
}

abbrev import_draw : ImportDraw
import_draw = record { run_id = 2; revision_id = 6; version_id = λ n. n; completed_at = 2001 }

-- The tables of `fresh`, with the record of recall 9 current under revision 5.
abbrev tables : Ingest
tables = record {
  queue = fresh;
  recalls = [];
  versions = [];
  revision_records = [];
  tombstones = [];
  refresh_state = record {
    last_successful_observed_at = some 1000;
    last_failure_kind = none;
    integrity_pause_reason = none;
  };
}

tables-IsConsistent : IsConsistent tables
tables-IsConsistent = record {
  runs_unique = (refl, tt);
  revisions_unique = (refl, tt);
  runs_present = (refl, tt);
  versions_unique = tt;
  rows_known = tt;
  selected = (refl, ((λ e. (refl, refl)), tt), (refl, tt));
}

abbrev full_call : RefreshCall
full_call = record {
  refresh_mode = full;
  observed_at = 2000;
  expected_record_count = some 1;
  now = 2000;
}

abbrev answers : Text → ℕ → Fetched
answers url n = body (codes "[...]")

abbrev never_answers : Text → ℕ → Fetched
never_answers url n = timed_out

abbrev refreshed : Ingest
refreshed = (refresh_cpsc_source import_env import_draw full_call answers tables).1

abbrev one_refresh : Steps import_env tables refreshed
one_refresh = next tables refreshed here (refreshes import_draw full_call answers tables)

Steps-IsConsistent_example : IsConsistent refreshed
Steps-IsConsistent_example = Steps-IsConsistent import_env one_refresh tables-IsConsistent

failed_refresh_keeps_example :
    SameSource tables (refresh_cpsc_source import_env import_draw full_call never_answers tables).1
unfolding refresh_cpsc_source retrieve_cpsc_response retrieve_from build_cpsc_recall_url
    last_completed_source_observed_at start_revision
failed_refresh_keeps_example =
    failed_refresh_keeps import_env import_draw full_call never_answers tables refl

retrieve_cpsc_response-Stopped_example :
    Stopped (never_answers []) 3 0 (retrieve_cpsc_response (never_answers []))
    × (1 ≤ (retrieve_cpsc_response (never_answers [])).fetches)
    × ((retrieve_cpsc_response (never_answers [])).fetches ≤ 3)
    × ((retrieve_cpsc_response (never_answers [])).ending ≢ assertion_failed)
retrieve_cpsc_response-Stopped_example = retrieve_cpsc_response-Stopped (never_answers [])

abbrev the_record : CpscRecord
the_record = record {
  recall_id = pos 10;
  recall_number = codes "24-010";
  recall_date_literal = none;
  last_publish_date_literal = none;
  official_url = codes "https://www.cpsc.gov/r";
  raw_record = an_object;
  canonical_json = codes "{}";
  content_hash = codes "{}";
}

parse_source_records-IsParsed_example :
    IsParsed import_env (codes "[...]") (some 1) (the_record ∷ [])
unfolding parse_source_records read_records read_fields read_literals required_text
    optional_source_literal is_official get elements as_array text_eq
parse_source_records-IsParsed_example =
    parse_source_records-IsParsed import_env (codes "[...]") (some 1) (the_record ∷ []) refl

abbrev a_response : Response
a_response = record {
  source_url = [];
  observed_at = 2000;
  raw_response = codes "[...]";
  refresh_mode = full;
  retrieval_attempts = 1;
}

abbrev bad_response : Response
bad_response = record a_response { raw_response = [] }

abbrev started : Ingest
started = record tables {
  queue = record fresh {
    source = record fresh.source {
      runs = fresh.source.runs ++ pending_run import_draw a_response ∷ [];
      revisions = fresh.source.revisions ++ pending_revision import_draw ∷ [];
    };
  };
}

abbrev promoted : Ingest
promoted = finish_promotion full import_draw (the_record ∷ []) 2000 (record started {
  recalls = record { recall_id = pos 10; first_observed_at = 2000 } ∷ [];
  versions = new_version 0 the_record (Json.object an_object) ∷ [];
  revision_records = row_of import_draw 0 the_record 0 ∷ [];
  queue = record started.queue {
    source = record started.queue.source {
      observations =
          started.queue.source.observations
          ++ record { revision_id = 6; recall_id = pos 10; observed_at = 2000 } ∷ [];
    };
  };
})

promote_revision-projects_example :
    Pairwise (IsCurrentRow import_env 6) (the_record ∷ []) promoted.queue.source.current_records
    × (promoted.queue.source.current_revision ≡ some 6)
    × (◌≡◌ {A = ℕ} 1 1)
unfolding start_revision promote_revision promoted_records insert_records record_version
    insert_record finish_promotion text_eq
promote_revision-projects_example =
    promote_revision-projects import_env import_draw a_response tables started promoted
      (the_record ∷ []) (the_record ∷ []) (0, 1) tables-IsConsistent refl refl tt refl

full_promotion_accounts_example :
    (new : List Tombstone) × (promoted.tombstones ≡ [] ++ new)
    × All
        (λ (x : Tombstone).
          (x.revision_id ≡ 6)
          × (is_listed x.recall_id promoted.queue.source.current_records ≡ false))
        new
    × All
        (λ c.
          (is_listed c.recall_id promoted.queue.source.current_records ≡ true)
          ⊎ In (tombstone_of import_draw 2000 c) new)
        fresh.source.current_records
unfolding start_revision promote_revision promoted_records insert_records record_version
    insert_record finish_promotion text_eq
full_promotion_accounts_example =
    full_promotion_accounts import_env import_draw a_response tables started promoted
      (the_record ∷ []) (0, 1) tables-IsConsistent refl refl tt refl

abbrev at_noon : Draw
at_noon = record { evaluated_at = 3000; evaluation_id = 1; row_id = λ n. n; default_counts = true }

status-Agrees_example :
    (st : Status) × (cpsc_source_status 3000 refreshed ≡ ok st)
    × Agrees refreshed.queue.pause.is_paused 3000 st.readiness st.current_revision
        (usable_revision at_noon refreshed.queue)
status-Agrees_example = status-Agrees import_env at_noon one_refresh tables-IsConsistent

-- A response that is no JSON is rejected; a good refresh follows.
abbrev rejecting : Ingest
rejecting = (import_cpsc_refresh_response import_env import_draw bad_response none 2000 tables).1

abbrev second_draw : ImportDraw
second_draw = record { run_id = 3; revision_id = 7; version_id = λ n. n; completed_at = 2001 }

abbrev recovered : Ingest
recovered = (refresh_cpsc_source import_env second_draw full_call answers rejecting).1

-- The failure kind is gone, and the reason stays.
abbrev recovered_status : Status
recovered_status = record {
  current_revision =
      some (record {
        revision_id = 7;
        completed_at = some 2001;
        record_count = 1;
        observed_at = 2000;
      });
  last_run = some (record {
    run_id = 3;
    source_url = cpsc_recall_api_url ++ b'?' ∷ [];
    observed_at = 2000;
    raw_response = codes "[...]";
    state = completed;
    refresh_mode = full;
    retrieval_attempts = 1;
    error_code = none;
    record_count = 1;
  });
  readiness = integrity_paused;
  freshness = unknown_age;
  last_failure_kind = none;
  integrity_pause_reason = some (codes "invalid_json");
}

integrity_pause_is_permanent_example : recovered_status.readiness ≢ ready
unfolding refresh_cpsc_source import_cpsc_refresh_response retrieve_cpsc_response retrieve_from
    build_cpsc_recall_url last_completed_source_observed_at start_revision parse_source_records
    read_records read_fields read_literals required_text optional_source_literal is_official get
    elements as_array promote_revision promoted_records insert_records record_version insert_record
    finish_promotion finish_unsuccessful_revision activate_source_integrity_pause cpsc_source_status
    current_rows last_of assess text_eq
integrity_pause_is_permanent_example =
    integrity_pause_is_permanent import_env import_draw bad_response none 2000 tables 6
      (codes "invalid_json") 3000 recovered_status refl
      (next rejecting recovered here (refreshes second_draw full_call answers rejecting)) refl
