-- ===== src/Ingest/Keeping.antt =====
-- An import that does not succeed changes nothing that evaluations read.
use agent_data_oracle.Base.{ℕ, ◌≡◌, refl, Text, Bool, true, false, Option, arith, Result, ok, err}
use agent_data_oracle.Source.{State}
use agent_data_oracle.Ingest.{IngestEnv, IngestError, Ingest, ImportDraw, Imported, imported}
use agent_data_oracle.Ingest.Retrieval.{Fetched}
use agent_data_oracle.Ingest.Importing.{
  Response, RefreshCall, start_revision, finish_unsuccessful_revision, with_failure,
  activate_source_integrity_pause, import_cpsc_refresh_response, refresh_cpsc_source,
  record_failure, reject_response,
}
use agent_data_oracle.Ingest.Outcome.{
  ImportOutcome, not_started, rejects, fails, escapes, promotes, refresh-cases, response-cases,
}
use agent_data_oracle.Ingest.Consistency.{start_revision-eq-ok}

-- The call returned an `ImportResult`.
abbrev pub is_imported : Result IngestError Imported → Bool
is_imported (ok (imported i n k hs)) = true
is_imported _ = false

-- Everything but the runs, the revisions, the failure kind and the pause.
abbrev pub SameSource : Ingest → Ingest → Type 0
SameSource s t =
    (t.queue.source.current_revision ≡ s.queue.source.current_revision)
    × (t.queue.source.current_records ≡ s.queue.source.current_records)
    × (t.queue.source.observations ≡ s.queue.source.observations)
    × (t.versions ≡ s.versions)
    × (t.revision_records ≡ s.revision_records)
    × (t.recalls ≡ s.recalls)
    × (t.tombstones ≡ s.tombstones)
    × (t.refresh_state.last_successful_observed_at ≡ s.refresh_state.last_successful_observed_at)

abbrev pub Quiet : Ingest → Result IngestError Imported × Ingest → Type 0
Quiet s x = is_imported x.0 ≡ false → SameSource s x.1

same : (s : Ingest) → SameSource s s
same s = (refl, refl, refl, refl, refl, refl, refl, refl)

started-SameSource :
    (d : ImportDraw) (q : Response) (s t : Ingest) → start_revision d q s ≡ ok t → SameSource s t
started-SameSource d q s t h =
    let (_, _, e) = start_revision-eq-ok d q s t h in
    rw e (refl, refl, refl, refl, refl, refl, refl, refl)

finished-SameSource :
    (d : ImportDraw) (q : Response) (s t : Ingest) (state : State) (code : Text)
    → start_revision d q s ≡ ok t
    → SameSource s (finish_unsuccessful_revision d state code t)
unfolding finish_unsuccessful_revision
finished-SameSource d q s t state code h =
    let (_, _, e) = start_revision-eq-ok d q s t h in
    rw e (refl, refl, refl, refl, refl, refl, refl, refl)

outcome-Quiet :
    (env : IngestEnv) (d : ImportDraw) (q : Response) (expected : Option ℕ)
    (on_rejection : Text → Ingest → Ingest) (on_failure : Ingest → Ingest) (s : Ingest)
    → ((code : Text) (t : Ingest) → SameSource s t → SameSource s (on_rejection code t))
    → ((t : Ingest) → SameSource s t → SameSource s (on_failure t))
    → (x : Result IngestError Imported × Ingest)
    → ImportOutcome env d q expected on_rejection on_failure s x
    → Quiet s x
outcome-Quiet env d q expected _ _ s h₁ h₂ _ (not_started e) n = same s
outcome-Quiet env d q expected _ _ s h₁ h₂ _ (rejects t code e _) n =
    h₁ code _ (finished-SameSource d q s t _ code e)
outcome-Quiet env d q expected _ _ s h₁ h₂ _ (fails t e) n =
    h₂ _ (finished-SameSource d q s t _ _ e)
outcome-Quiet env d q expected _ _ s h₁ h₂ _ (escapes t _ e) n = started-SameSource d q s t e
outcome-Quiet env d q expected _ _ s h₁ h₂ _ (promotes t u records reused count e _ done) n =
    absurd (ground arith)

response-Quiet :
    (env : IngestEnv) (d : ImportDraw) (q : Response) (expected : Option ℕ) (now : ℕ) (s : Ingest)
    → Quiet s (import_cpsc_refresh_response env d q expected now s)
response-Quiet env d q expected now s =
    response-cases env d q expected now s (Quiet s) (λ e n. same s)
      (outcome-Quiet env d q expected (reject_response now) (with_failure _) s
        (λ code t v. unfold activate_source_integrity_pause in v) (λ t v. v))

failure-Quiet :
    (d : ImportDraw) (q : Response) (code : Text) (s : Ingest) (r : Result IngestError Ingest)
    → start_revision d q s ≡ r
    → Quiet s (record_failure d code s r)
unfolding record_failure
failure-Quiet d q code s (err e) h n = same s
failure-Quiet d q code s (ok t) h n = finished-SameSource d q s t _ code h

-- A refresh from the live source that does not return a completed import, because it is refused,
-- fails in transport, is rejected, fails in the database or raises, leaves the selected revision,
-- its records and observations, the versions, the tombstones and the last successful time as they
-- were.
pub failed_refresh_keeps :
    (env : IngestEnv) (d : ImportDraw) (q : RefreshCall) (fetch : Text → ℕ → Fetched) (s : Ingest)
    → is_imported (refresh_cpsc_source env d q fetch s).0 ≡ false
    → SameSource s (refresh_cpsc_source env d q fetch s).1
failed_refresh_keeps env d q fetch s =
    refresh-cases env d q s (Quiet s) (λ e n. same s)
      (λ r. response-Quiet env d r q.expected_record_count q.now s)
      (λ r code. failure-Quiet d r code s _ refl) fetch
