-- ===== src/Ingest.antt =====
-- The CPSC import of `cpsc_source.py`: its tables beside those that evaluations read, and what it
-- takes from Python's libraries and from the database.
pub mod Records
pub mod Retrieval
pub mod Promotion
pub mod Importing
pub mod Status
pub mod Outcome
pub mod Steps
pub mod Promoted
pub mod Consistency
pub mod Loading
pub mod Lineage
pub mod Readiness
pub mod Pausing
pub mod Keeping
pub mod Retries
pub mod Reading
pub mod Listing
pub mod Projection
pub mod Accounting
use agent_data_oracle.Base.{ℕ, Text, codes, Option, none, some, List}
use agent_data_oracle.Base.Int.{ℤ}
use agent_data_oracle.Json.{Json, Items, Fields}
use agent_data_oracle.Queue.{Queue}

-- `CpscRecord`
pub record CpscRecord : Type 0 where
  pub recall_id : ℤ
  pub recall_number : Text
  pub recall_date_literal : Option Text
  pub last_publish_date_literal : Option Text
  pub official_url : Text
  pub raw_record : Fields
  pub canonical_json : Text
  pub content_hash : Text

-- The port of a split URL: reading an ill-formed one raises.
pub data Port : Type 0 where
  absent : Port
  number : ℕ → Port
  ill_formed : Port

-- What `urlsplit` finds in a URL, as far as the program reads it.
pub record SplitUrl : Type 0 where
  pub scheme : Text
  pub hostname : Option Text
  pub port : Port
  pub username : Option Text
  pub password : Option Text
  pub path : Text

-- Python's JSON, URL, date and hash functions, where `none` is a raise, and the value that the
-- database stores for a record's JSON, where `none` is a value that a column refuses.
pub record IngestEnv : Type 0 where
  pub loads : Text → Option Json
  pub dumps : Items → Text
  pub canonical : Fields → Text
  pub sha256 : Text → Option Text
  pub urlsplit : Text → Option SplitUrl
  pub urlencode : List (Text × Text) → Text
  pub rfc3339 : ℕ → Text
  pub decimal : ℕ → Text
  pub stored : CpscRecord → Option Json

-- The exceptions that leave a call: `SourceValidationError` with its code, any other `ValueError`,
-- a `SQLAlchemyError`, and an exception that nothing catches.
pub data IngestError : Type 0 where
  invalid : Text → IngestError
  value_error : IngestError
  sql_error : IngestError
  unhandled : IngestError

-- `cpsc_recalls`
pub record Recall : Type 0 where
  pub recall_id : ℤ
  pub first_observed_at : ℕ

-- `cpsc_recall_versions`
pub record Version : Type 0 where
  pub version_id : ℕ
  pub recall_id : ℤ
  pub content_hash : Text
  pub raw_record : Json
  pub recall_number : Text
  pub recall_date_literal : Option Text
  pub last_publish_date_literal : Option Text
  pub official_url : Text

-- `cpsc_revision_records`
pub record RevisionRecord : Type 0 where
  pub revision_id : ℕ
  pub recall_id : ℤ
  pub version_id : ℕ
  pub source_position : ℕ

-- `cpsc_source_tombstones`
pub record Tombstone : Type 0 where
  pub revision_id : ℕ
  pub recall_id : ℤ
  pub last_seen_revision_id : ℕ
  pub recorded_at : ℕ

-- `cpsc_source_refresh_state`
pub record RefreshState : Type 0 where
  pub last_successful_observed_at : Option ℕ
  pub last_failure_kind : Option Text
  pub integrity_pause_reason : Option Text

-- All tables that the import writes; the pause and the tables that evaluations read are the queue's.
pub record Ingest : Type 0 where
  pub queue : Queue
  pub recalls : List Recall
  pub versions : List Version
  pub revision_records : List RevisionRecord
  pub tombstones : List Tombstone
  pub refresh_state : RefreshState

-- `RevisionIdentity`, and what an import draws besides: an identifier for the version at each
-- position, and the time of the promotion.
pub record ImportDraw : Type 0 where
  pub run_id : ℕ
  pub revision_id : ℕ
  pub version_id : ℕ → ℕ
  pub completed_at : ℕ

-- `ImportResult`, `RejectedImport` and `FailedImport`
pub data Imported : Type 0 where
  imported :
      (revision_id record_count reused_version_count : ℕ) (content_hashes : List Text) → Imported
  rejected_import : (revision_id : ℕ) (error_code : Text) → Imported
  failed_import : (revision_id : ℕ) (error_code : Text) → Imported

abbrev pub cpsc_recall_api_url : Text
cpsc_recall_api_url = codes "https://www.saferproducts.gov/RestWebServices/Recall"
