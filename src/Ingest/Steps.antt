-- ===== src/Ingest/Steps.antt =====
-- The imports as steps, and what every sequence of them keeps.
use agent_data_oracle.Base.{ℕ, ◌≡◌, refl, Text, Option, some, List, Result, ok, err}
use agent_data_oracle.Source.{State, failed, rejected}
use agent_data_oracle.Queue.{Queue}
use agent_data_oracle.Ingest.{CpscRecord, IngestEnv, IngestError, Ingest, ImportDraw, Imported}
use agent_data_oracle.Ingest.Retrieval.{Fetched}
use agent_data_oracle.Ingest.Promotion.{promote_revision}
use agent_data_oracle.Ingest.Importing.{
  Response, RefreshCall, start_revision, finish_unsuccessful_revision, with_failure,
  activate_source_integrity_pause, import_cpsc_fixture, import_cpsc_refresh_response,
  refresh_cpsc_source, record_failure, reject_response,
}
use agent_data_oracle.Ingest.Outcome.{
  ImportOutcome, not_started, rejects, fails, escapes, promotes, started-ImportOutcome,
  refresh-cases, response-cases,
}

-- One import, or a change of the queue that leaves the source tables alone.
pub data Step (env : IngestEnv) : Ingest → Ingest → Type 0 where
  imports_fixture :
      (d : ImportDraw) (content : Text) (observed_at expected : ℕ) (url : Text) (s : Ingest)
      → Step env s (import_cpsc_fixture env d content observed_at expected url s).1
  imports_response :
      (d : ImportDraw) (q : Response) (expected : Option ℕ) (now : ℕ) (s : Ingest)
      → Step env s (import_cpsc_refresh_response env d q expected now s).1
  refreshes :
      (d : ImportDraw) (q : RefreshCall) (fetch : Text → ℕ → Fetched) (s : Ingest)
      → Step env s (refresh_cpsc_source env d q fetch s).1
  works : (q : Queue) (s : Ingest) → q.source ≡ s.queue.source → Step env s (record s { queue = q })

pub data Steps (env : IngestEnv) (s : Ingest) : Ingest → Type 0 where
  here : Steps env s s
  next : (t u : Ingest) → Steps env s t → Step env t u → Steps env s u

-- What has to be shown of a property for every import to keep it.
pub record IsImportKept (env : IngestEnv) (P : Ingest → Type 0) : Type 0 where
  pub by_start :
      (d : ImportDraw) (q : Response) (s t : Ingest) → P s → start_revision d q s ≡ ok t → P t
  pub by_finish :
      (d : ImportDraw) (q : Response) (s t : Ingest) (state : State) (code : Text)
      → P s
      → start_revision d q s ≡ ok t
      → P (finish_unsuccessful_revision d state code t)
  pub by_failure : (code : Text) (s : Ingest) → P s → P (with_failure code s)
  pub by_pause :
      (code : Text) (now : ℕ) (s : Ingest) → P s → P (activate_source_integrity_pause code now s)
  pub by_promotion :
      (d : ImportDraw) (q : Response) (s t u : Ingest) (records : List CpscRecord) (counts : ℕ × ℕ)
      → P s
      → start_revision d q s ≡ ok t
      → promote_revision env q.refresh_mode d records q.observed_at t ≡ ok (counts, u)
      → P u

-- The same for all steps.
pub record IsKept (env : IngestEnv) (P : Ingest → Type 0) : Type 0 where
  pub by_import : IsImportKept env P
  pub by_work :
      (q : Queue) (s : Ingest) → q.source ≡ s.queue.source → P s → P (record s { queue = q })

module _ (env : IngestEnv) (P : Ingest → Type 0) (k : IsImportKept env P) where
  outcome-keeps :
      (d : ImportDraw) (q : Response) (expected : Option ℕ) (on_rejection : Text → Ingest → Ingest)
      (on_failure : Ingest → Ingest) (s : Ingest)
      → ((code : Text) (t : Ingest) → P t → P (on_rejection code t))
      → ((t : Ingest) → P t → P (on_failure t))
      → P s
      → (x : Result IngestError Imported × Ingest)
      → ImportOutcome env d q expected on_rejection on_failure s x
      → P x.1
  outcome-keeps d q expected _ _ s h₁ h₂ p _ (not_started e) = p
  outcome-keeps d q expected _ _ s h₁ h₂ p _ (rejects t code e _) =
      h₁ code _ (k.by_finish d q s t rejected code p e)
  outcome-keeps d q expected _ _ s h₁ h₂ p _ (fails t e) = h₂ _ (k.by_finish d q s t failed _ p e)
  outcome-keeps d q expected _ _ s h₁ h₂ p _ (escapes t _ e) = k.by_start d q s t p e
  outcome-keeps d q expected _ _ s h₁ h₂ p _ (promotes t u records reused count e _ done) =
      k.by_promotion d q s t u records (reused, count) p e done

  pub response-keeps :
      (d : ImportDraw) (q : Response) (expected : Option ℕ) (now : ℕ) (s : Ingest)
      → P s
      → P (import_cpsc_refresh_response env d q expected now s).1
  response-keeps d q expected now s p =
      response-cases env d q expected now s (λ x. P x.1) (λ e. p)
        λ x h.
          outcome-keeps d q expected (reject_response now) (with_failure _) s
            (λ code t r. k.by_pause code now _ (k.by_failure code t r)) (k.by_failure _) p x h

  failure-keeps :
      (d : ImportDraw) (q : Response) (code : Text) (s : Ingest) (r : Result IngestError Ingest)
      → P s
      → start_revision d q s ≡ r
      → P (record_failure d code s r).1
  unfolding record_failure
  failure-keeps d q code s (err e) p h = p
  failure-keeps d q code s (ok t) p h = k.by_failure code _ (k.by_finish d q s t failed code p h)

  pub refresh-keeps :
      (d : ImportDraw) (q : RefreshCall) (fetch : Text → ℕ → Fetched) (s : Ingest)
      → P s
      → P (refresh_cpsc_source env d q fetch s).1
  refresh-keeps d q fetch s p =
      refresh-cases env d q s (λ x. P x.1) (λ e. p)
        (λ r. response-keeps d r q.expected_record_count q.now s p)
        (λ r code. failure-keeps d r code s _ p refl) fetch

  pub fixture-keeps :
      (d : ImportDraw) (content : Text) (observed_at expected : ℕ) (url : Text) (s : Ingest)
      → P s
      → P (import_cpsc_fixture env d content observed_at expected url s).1
  unfolding import_cpsc_fixture
  fixture-keeps d content observed_at expected url s p =
      outcome-keeps d _ (some expected) (λ code t. t) (λ t. t) s (λ code t h. h) (λ t h. h) p _
        (started-ImportOutcome env d _ (some expected) (λ code t. t) (λ t. t) s _ refl)

module _ (env : IngestEnv) (P : Ingest → Type 0) (k : IsKept env P) where
  Step-keeps : {s t : Ingest} → Step env s t → P s → P t
  Step-keeps (imports_fixture d content observed_at expected url s) p =
      fixture-keeps env P k.by_import d content observed_at expected url s p
  Step-keeps (imports_response d q expected now s) p =
      response-keeps env P k.by_import d q expected now s p
  Step-keeps (refreshes d q fetch s) p = refresh-keeps env P k.by_import d q fetch s p
  Step-keeps (works q s same) p = k.by_work q s same p

  pub Steps-keeps : {s t : Ingest} → Steps env s t → P s → P t
  Steps-keeps here p = p
  Steps-keeps (next t u before step) p = Step-keeps step (Steps-keeps before p)
