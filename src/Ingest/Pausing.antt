-- ===== src/Ingest/Pausing.antt =====
-- The integrity pause of the source: no operation takes it back.
use agent_data_oracle.Base.{
  ℕ, ◌≡◌, ◌≢◌, refl, ap, ◌∙◌, Text, codes, true, Option, List, arith, ok, Result, is_some,
}
use agent_data_oracle.Ingest.{
  CpscRecord, IngestEnv, IngestError, Ingest, ImportDraw, rejected_import, Imported, RefreshState,
}
use agent_data_oracle.Ingest.Promotion.{finish_promotion, promote_revision}
use agent_data_oracle.Ingest.Importing.{
  Response, start_revision, finish_unsuccessful_revision, activate_source_integrity_pause,
  import_cpsc_refresh_response, with_failure, reject_response,
}
use agent_data_oracle.Ingest.Status.{Status, ready, assess, cpsc_source_status}
use agent_data_oracle.Ingest.Outcome.{
  ImportOutcome, not_started, rejects, fails, escapes, promotes, response-cases,
}
use agent_data_oracle.Ingest.Promoted.{insert_records-Untouched, promote_revision-Promoted}
use agent_data_oracle.Ingest.Steps.{IsKept, Steps, Steps-keeps}
use agent_data_oracle.Ingest.Consistency.{start_revision-eq-ok}

-- The source has an integrity pause reason.
abbrev pub HasReason : Ingest → Type 0
HasReason s = is_some s.refresh_state.integrity_pause_reason ≡ true

promotion-HasReason :
    (env : IngestEnv) (d : ImportDraw) (q : Response) (s t u : Ingest) (records : List CpscRecord)
    (counts : ℕ × ℕ)
    → HasReason s
    → start_revision d q s ≡ ok t
    → promote_revision env q.refresh_mode d records q.observed_at t ≡ ok (counts, u)
    → HasReason u
promotion-HasReason env d q s t u records counts p start h =
    let x = promote_revision-Promoted env q.refresh_mode d records q.observed_at t counts u h in
    let (same, _) =
      insert_records-Untouched env d q.observed_at _ x.records t counts.0 x.loaded x.inserted in
    let (_, _, e) = start_revision-eq-ok d q s t start in
    let kept : u.refresh_state.integrity_pause_reason ≡ s.refresh_state.integrity_pause_reason =
      ap (λ (w : Ingest). w.refresh_state.integrity_pause_reason) x.finished
      ∙ unfold finish_promotion in
        ap (λ (w : RefreshState). w.integrity_pause_reason) same
        ∙ ap (λ (w : Ingest). w.refresh_state.integrity_pause_reason) e in
    rw kept p

HasReason-IsKept : (env : IngestEnv) → IsKept env HasReason
HasReason-IsKept env = record {
  by_import = record {
    by_start = λ d q s t p h. let (_, _, e) = start_revision-eq-ok d q s t h in rw e p;
    by_finish = λ d q s t state code p h.
        let (_, _, e) = start_revision-eq-ok d q s t h in
        unfold finish_unsuccessful_revision in rw e p;
    by_failure = λ code s p. p;
    by_pause = λ code now s p. unfold activate_source_integrity_pause in refl;
    by_promotion = promotion-HasReason env;
  };
  by_work = λ q s same p. p;
}

paused-status :
    (now : ℕ) (s : Ingest) (st : Status)
    → HasReason s
    → cpsc_source_status now s ≡ ok st
    → st.readiness ≢ ready
unfolding cpsc_source_status assess
paused-status now s st p h e = ground arith

-- A rejection leaves a reason.
rejected-HasReason :
    (env : IngestEnv) (d : ImportDraw) (q : Response) (expected : Option ℕ) (at' : ℕ) (s : Ingest)
    (i : ℕ) (code : Text) (x : Result IngestError Imported × Ingest)
    → ImportOutcome env d q expected
        (reject_response at')
        (with_failure (codes "promotion_failed"))
        s
        x
    → x.0 ≡ ok (rejected_import i code)
    → HasReason x.1
unfolding activate_source_integrity_pause
rejected-HasReason env d q expected at' s i code _ (not_started e) h = cc
rejected-HasReason env d q expected at' s i code _ (rejects t c _ _) h = refl
rejected-HasReason env d q expected at' s i code _ (fails t e) h = cc
rejected-HasReason env d q expected at' s i code _ (escapes t _ e) h = cc
rejected-HasReason env d q expected at' s i code _ (promotes t u records reused count e _ done) h =
    cc

response-HasReason :
    (env : IngestEnv) (d : ImportDraw) (q : Response) (expected : Option ℕ) (at' : ℕ) (s : Ingest)
    (i : ℕ) (code : Text)
    → (import_cpsc_refresh_response env d q expected at' s).0 ≡ ok (rejected_import i code)
    → HasReason (import_cpsc_refresh_response env d q expected at' s).1
response-HasReason env d q expected at' s i code =
    response-cases env d q expected at' s (λ x. x.0 ≡ ok (rejected_import i code) → HasReason x.1)
      (λ e h. cc) (rejected-HasReason env d q expected at' s i code)

-- Once a received response has been rejected, the source is never reported ready again, whatever
-- imports and refreshes follow, completed ones and a resolution of the pause included.
pub integrity_pause_is_permanent :
    (env : IngestEnv) (d : ImportDraw) (q : Response) (expected : Option ℕ) (at' : ℕ) (s : Ingest)
    {t : Ingest} (i : ℕ) (code : Text) (now : ℕ) (st : Status)
    → (import_cpsc_refresh_response env d q expected at' s).0 ≡ ok (rejected_import i code)
    → Steps env (import_cpsc_refresh_response env d q expected at' s).1 t
    → cpsc_source_status now t ≡ ok st
    → st.readiness ≢ ready
integrity_pause_is_permanent env d q expected at' s {t} i code now st rejected steps h =
    paused-status now t st
      (Steps-keeps env HasReason (HasReason-IsKept env) steps
        (response-HasReason env d q expected at' s i code rejected))
      h
