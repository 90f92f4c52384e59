-- ===== src/Ingest/Outcome.antt =====
-- The ways in which an import ends, for the proofs about it.
use agent_data_oracle.Base.{
  ℕ, ◌≡◌, refl, Text, codes, Option, List, Result, ok, err, settle, Bool-cases, inl, inr,
}
use agent_data_oracle.Source.{failed, rejected, RefreshMode}
use agent_data_oracle.Ingest.{
  CpscRecord, IngestEnv, IngestError, invalid, value_error, sql_error, unhandled, Ingest,
  ImportDraw, Imported, imported, rejected_import, failed_import,
}
use agent_data_oracle.Ingest.Records.{parse_source_records}
use agent_data_oracle.Ingest.Promotion.{promote_revision}
use agent_data_oracle.Ingest.Importing.{
  Response, start_revision, finish_unsuccessful_revision, hashes, settle_promotion, after_parse,
  import_started, import_cpsc_refresh_response, record_failure, record_transport_failure,
  after_retrieval, refresh_from, refresh_cpsc_source, RefreshCall, needs_reconciliation, is_live,
  last_completed_source_observed_at, reject_response, with_failure,
}
use agent_data_oracle.Ingest.Retrieval.{
  Fetched, Ending, received, gave_up, raised, assertion_failed, UrlError, source_time_required,
  time_out_of_range, build_cpsc_recall_url,
}

module _ (env : IngestEnv) (d : ImportDraw) (q : Response) (expected : Option ℕ)
    (on_rejection : Text → Ingest → Ingest) (on_failure : Ingest → Ingest) (s : Ingest) where
  -- The result of an import with the tables that it leaves.
  pub data ImportOutcome : Result IngestError Imported × Ingest → Type 0 where
    not_started : (e : IngestError) → ImportOutcome (err e, s)
    rejects :
        (t : Ingest) (code : Text)
        → start_revision d q s ≡ ok t
        → parse_source_records env q.raw_response expected ≡ err (invalid code)
        → ImportOutcome (
          ok (rejected_import d.revision_id code),
          on_rejection code (finish_unsuccessful_revision d rejected code t),
        )
    fails :
        (t : Ingest)
        → start_revision d q s ≡ ok t
        → ImportOutcome (
          ok (failed_import d.revision_id (codes "promotion_failed")),
          on_failure (finish_unsuccessful_revision d failed (codes "promotion_failed") t),
        )
    escapes :
        (t : Ingest) (e : IngestError) → start_revision d q s ≡ ok t → ImportOutcome (err e, t)
    promotes :
        (t u : Ingest) (records : List CpscRecord) (reused count : ℕ)
        → start_revision d q s ≡ ok t
        → parse_source_records env q.raw_response expected ≡ ok records
        → promote_revision env q.refresh_mode d records q.observed_at t ≡ ok ((reused, count), u)
        → ImportOutcome (ok (imported d.revision_id count reused (hashes records)), u)

  settled-ImportOutcome :
      (t : Ingest) (records : List CpscRecord) (r : Result IngestError ((ℕ × ℕ) × Ingest))
      → start_revision d q s ≡ ok t
      → parse_source_records env q.raw_response expected ≡ ok records
      → promote_revision env q.refresh_mode d records q.observed_at t ≡ r
      → ImportOutcome (settle_promotion d records on_failure (settle r t))
  unfolding settle_promotion
  settled-ImportOutcome t records (ok ((reused, count), u)) start parsed h =
      promotes t u records reused count start parsed h
  settled-ImportOutcome t records (err sql_error) start parsed h = fails t start
  settled-ImportOutcome t records (err (invalid code)) start parsed h =
      escapes t (invalid code) start
  settled-ImportOutcome t records (err value_error) start parsed h = escapes t value_error start
  settled-ImportOutcome t records (err unhandled) start parsed h = escapes t unhandled start

  parsed-ImportOutcome :
      (t : Ingest) (r : Result IngestError (List CpscRecord))
      → start_revision d q s ≡ ok t
      → parse_source_records env q.raw_response expected ≡ r
      → ImportOutcome (after_parse env d q on_rejection on_failure r t)
  unfolding after_parse
  parsed-ImportOutcome t (ok records) start h = settled-ImportOutcome t records _ start h refl
  parsed-ImportOutcome t (err sql_error) start h = escapes t sql_error start
  parsed-ImportOutcome t (err (invalid code)) start h = rejects t code start h
  parsed-ImportOutcome t (err value_error) start h = escapes t value_error start
  parsed-ImportOutcome t (err unhandled) start h = escapes t unhandled start

  pub started-ImportOutcome :
      (r : Result IngestError Ingest)
      → start_revision d q s ≡ r
      → ImportOutcome (import_started env d q expected on_rejection on_failure s r)
  unfolding import_started
  started-ImportOutcome (err e) h = not_started e
  started-ImportOutcome (ok t) h = parsed-ImportOutcome t _ h refl

-- A refresh is an import of a received response, a recorded failure, or a raise with no write.
module _ (env : IngestEnv) (d : ImportDraw) (q : RefreshCall) (s : Ingest)
    (P : Result IngestError Imported × Ingest → Type 0) (raises : (e : IngestError) → P (err e, s))
    (responds : (r : Response)
      → P (import_cpsc_refresh_response env d r q.expected_record_count q.now s))
    (fails_with : (r : Response) (code : Text)
      → P (record_failure d code s (start_revision d r s))) where
  transport-cases :
      (url : Text) (observed_at : ℕ) (mode : RefreshMode) (code : Text)
      → P (record_transport_failure d url observed_at mode code s)
  unfolding record_transport_failure
  transport-cases url observed_at mode code = fails_with _ code

  retrieval-cases : (url : Text) (ending : Ending) → P (after_retrieval env d q url ending s)
  unfolding after_retrieval
  retrieval-cases url (received content) = responds _
  retrieval-cases url (gave_up code transient) =
      transport-cases url q.observed_at q.refresh_mode code
  retrieval-cases url raised = raises unhandled
  retrieval-cases url assertion_failed = raises unhandled

  refresh_from-cases :
      (fetch : Text → ℕ → Fetched) (last : Option ℕ) (url : Result UrlError Text)
      → P (refresh_from env d q fetch last url s)
  unfolding refresh_from
  refresh_from-cases fetch last (err source_time_required) = transport-cases _ _ _ _
  refresh_from-cases fetch last (err time_out_of_range) = raises unhandled
  refresh_from-cases fetch last (ok url) = elim (Bool-cases (needs_reconciliation q last)) [
    | inl old ↦ rw old (transport-cases url q.observed_at q.refresh_mode _)
    | inr young ↦ rw young (retrieval-cases url _)
  ]

  pub refresh-cases : (fetch : Text → ℕ → Fetched) → P (refresh_cpsc_source env d q fetch s)
  unfolding refresh_cpsc_source
  refresh-cases fetch = elim (Bool-cases (is_live q.refresh_mode)) [
    | inl live ↦
        let last = last_completed_source_observed_at s.queue.source in
        rw live (refresh_from-cases fetch last (build_cpsc_recall_url env q.refresh_mode last))
    | inr offline ↦ rw offline (raises value_error)
  ]

-- An import of a response is not live, or is an import of the shared kind.
module _ (env : IngestEnv) (d : ImportDraw) (q : Response) (expected : Option ℕ) (now : ℕ)
    (s : Ingest) (P : Result IngestError Imported × Ingest → Type 0)
    (raises : (e : IngestError) → P (err e, s))
    (imports : (x : Result IngestError Imported × Ingest)
      → ImportOutcome env d q expected
          (reject_response now)
          (with_failure (codes "promotion_failed"))
          s
          x
      → P x) where
  pub response-cases : P (import_cpsc_refresh_response env d q expected now s)
  unfolding import_cpsc_refresh_response
  response-cases = elim (Bool-cases (is_live q.refresh_mode)) [
    | inl live ↦ rw live (
        imports _
          (started-ImportOutcome env d q expected (reject_response now) (with_failure _) s _ refl))
    | inr offline ↦ rw offline (raises value_error)
  ]
