-- ===== src/Ingest/Readiness.antt =====
-- The status of the source, against the admission of new evaluations, and the integrity pause.
use agent_data_oracle.Base.{
  ℕ, ◌+◌, ◌≡◌, inl, inr, refl, true, false, ◌&&◌, leb, Option, some, none, List, [], ◌∷◌, arith,
  select, All, All-select, All-one, ◌==◌, keyed, subst, select-Unique, Unique, Result, ok, err,
  is_some, Bool-cases, Bool, ltb, ==_refl, if◌then◌else◌,
}
use agent_data_oracle.Source.{
  is_completed, Run, Revision, SourceTables, current_completed, source_observed_at,
  source_revision_id,
}
use agent_data_oracle.Queue.{Queue, QueueError, source_unavailable, globally_paused, hours}
use agent_data_oracle.Queue.Submit.{Draw, usable_revision}
use agent_data_oracle.Ingest.{IngestEnv, Ingest, RefreshState}
use agent_data_oracle.Ingest.Status.{
  Readiness, unavailable, integrity_paused, ready, transient_failure, disabled, CurrentRevision,
  Status, current_rows, assess, last_of, cpsc_source_status, succeeded,
}
use agent_data_oracle.Ingest.Steps.{Steps}
use agent_data_oracle.Ingest.Lineage.{Steps-IsConsistent}
use agent_data_oracle.Ingest.Consistency.{
  IsConsistent, IsSelected, IsCompleted, has_run, has_revision,
}

-- What the queries find while the source is consistent: nothing, or one completed revision with one
-- run.
pub record OneCurrent (t : SourceTables) (c : CurrentRevision) : Type 0 where
  pub rows : current_rows t ≡ c ∷ []
  pub observed : source_observed_at t ≡ some c.observed_at
  pub selected : source_revision_id t ≡ some c.revision_id
  pub completed : is_some c.completed_at ≡ true

select-completed :
    (i : ℕ) (rs : List Revision)
    → All (IsCompleted i) rs
    → select (λ r. r.revision_id == i && is_completed r.state) rs
      ≡ select (keyed (λ r. r.revision_id) i) rs
select-completed i [] h = refl
select-completed i (r ∷ rs) h = elim (Bool-cases (r.revision_id == i)) [
  | inl e ↦ let done = (h.0 e).0 in rw (e, done, select-completed i rs h.1)
  | inr e ↦ rw (e, select-completed i rs h.1)
]

consistent-OneCurrent :
    (t : SourceTables) (i : ℕ)
    → t.current_revision ≡ some i
    → Unique (λ (r : Run). r.run_id) t.runs
    → Unique (λ (r : Revision). r.revision_id) t.revisions
    → All (λ (r : Revision). has_run r.run_id t.runs ≡ true) t.revisions
    → has_revision i t.revisions ≡ true
    → All (IsCompleted i) t.revisions
    → (c : CurrentRevision) × OneCurrent t c
unfolding current_rows current_completed source_observed_at source_revision_id
consistent-OneCurrent t i cur runs revisions refs present done =
    let (r, found, same) =
      select-Unique (λ (r : Revision). r.revision_id) i t.revisions revisions present in
    let ref =
      All-one (λ (r : Revision). (has_run r.run_id t.runs ≡ true) × ((r.revision_id == i) ≡ true)) _
        found
        (All-select (λ (r : Revision). has_run r.run_id t.runs ≡ true)
          (keyed (λ (r : Revision). r.revision_id) i) t.revisions refs) in
    let (run, met, _) = select-Unique (λ (run : Run). run.run_id) r.run_id t.runs runs ref.0 in
    (
      record {
        revision_id = r.revision_id;
        completed_at = r.completed_at;
        record_count = r.record_count;
        observed_at = run.observed_at;
      },
      record {
        rows = rw (cur, found, met);
        observed = rw (cur, select-completed i t.revisions done, found, met);
        selected = rw (cur, select-completed i t.revisions done, found);
        completed =
            ((All-one (λ (r : Revision). IsCompleted i r × ((r.revision_id == i) ≡ true)) _ found
                (All-select (IsCompleted i) (keyed (λ (r : Revision). r.revision_id) i) t.revisions
                  done)).0
              (rw same (==_refl i))).1;
      },
    )

-- What the pause and a readiness say of the admission of new work at an instant. Only the pause
-- stops an admission for the source's integrity: once it is resolved, the age alone counts.
abbrev pub Agrees : Bool → ℕ → Readiness → Option CurrentRevision → Result QueueError ℕ → Type 0
Agrees true now readiness found admission = admission ≡ err globally_paused
Agrees false now ready found admission =
    (c : CurrentRevision) × (found ≡ some c) × (admission ≡ ok c.revision_id)
Agrees false now transient_failure found admission =
    (c : CurrentRevision) × (found ≡ some c) × (admission ≡ ok c.revision_id)
Agrees false now disabled found admission = admission ≡ err source_unavailable
Agrees false now unavailable found admission = admission ≡ err source_unavailable
Agrees false now integrity_paused found admission =
    (c : CurrentRevision) × (found ≡ some c)
    × (admission
        ≡ (if leb now (c.observed_at + hours 48) then ok c.revision_id else err source_unavailable))

paused-Agrees :
    (d : Draw) (q : Queue) (readiness : Readiness) (found : Option CurrentRevision)
    → q.pause.is_paused ≡ true
    → Agrees true d.evaluated_at readiness found (usable_revision d q)
unfolding usable_revision
paused-Agrees d q readiness found paused = rw paused refl

either-Agrees :
    (b : Bool) (now : ℕ) (readiness : Readiness) (found : Option CurrentRevision)
    (admission : Result QueueError ℕ)
    → (b ≡ true → Agrees true now readiness found admission)
    → (b ≡ false → Agrees false now readiness found admission)
    → Agrees b now readiness found admission
either-Agrees true now readiness found admission paused open' = paused refl
either-Agrees false now readiness found admission paused open' = open' refl

assess-Agrees :
    (c : CurrentRevision) (state : RefreshState) (last : Option Run) (d : Draw) (q : Queue)
    → OneCurrent q.source c
    → q.pause.is_paused ≡ false
    → Agrees false d.evaluated_at
        (assess (some c) state last d.evaluated_at).0
        (some c)
        (usable_revision d q)
unfolding assess usable_revision
assess-Agrees c state last d q one open' =
    elim (Bool-cases (leb d.evaluated_at (c.observed_at + hours 48))) [
      | inl young ↦
          let fresh : ltb (c.observed_at + hours 48) d.evaluated_at ≡ false = ground arith in
          elim (Bool-cases (is_some state.integrity_pause_reason)) [
            | inl e ↦ rw (e, open', one.observed, one.selected, fresh) (c, refl, rw young refl)
            | inr e ↦ elim (Bool-cases (succeeded last)) [
              | inl f ↦ rw (e, young, f, open', one.observed, one.selected, fresh) (c, refl, refl)
              | inr f ↦ rw (e, young, f, open', one.observed, one.selected, fresh) (c, refl, refl)
            ]
          ]
      | inr old ↦
          let late : ltb (c.observed_at + hours 48) d.evaluated_at ≡ true = ground arith in
          elim (Bool-cases (is_some state.integrity_pause_reason)) [
            | inl e ↦ rw (e, open', one.observed, one.selected, late) (c, refl, rw old refl)
            | inr e ↦ rw (e, old, open', one.observed, one.selected, late) refl
          ]
    ]

-- The status that a consistent source is given.
abbrev status_of : Option CurrentRevision → ℕ → Ingest → Status
status_of found now s = record {
  current_revision = found;
  last_run = last_of s.queue.source.runs;
  readiness = (assess found s.refresh_state (last_of s.queue.source.runs) now).0;
  freshness = (assess found s.refresh_state (last_of s.queue.source.runs) now).1;
  last_failure_kind = s.refresh_state.last_failure_kind;
  integrity_pause_reason = s.refresh_state.integrity_pause_reason;
}

open-status :
    (s : Ingest) (d : Draw) (cur : Option ℕ)
    → IsConsistent s
    → s.queue.source.current_revision ≡ cur
    → (found : Option CurrentRevision) × (cpsc_source_status d.evaluated_at s
        ≡ ok (status_of found d.evaluated_at s))
      × (s.queue.pause.is_paused ≡ false
          → Agrees false d.evaluated_at
              (status_of found d.evaluated_at s).readiness
              found
              (usable_revision d s.queue))
unfolding cpsc_source_status
open-status s d none v e =
    let none_there : current_rows s.queue.source ≡ [] = unfold current_rows in rw e in
    let unobserved : source_observed_at s.queue.source ≡ none =
      unfold source_observed_at current_completed in rw e in
    (
      none,
      rw none_there refl,
      λ open'. unfold assess usable_revision in rw (open', unobserved) refl,
    )
open-status s d (some i) v e =
    let (present, done, _) =
      subst (λ c. IsSelected c s.queue.source.revisions s.queue.source.current_records) e
        v.selected in
    let (c, one) =
      consistent-OneCurrent s.queue.source i e v.runs_unique v.revisions_unique v.runs_present
        present done in
    (
      some c,
      rw (one.rows, one.completed) refl,
      assess-Agrees c s.refresh_state (last_of s.queue.source.runs) d s.queue one,
    )

-- After any sequence of imports and refreshes of a consistent source, the status query succeeds, and
-- it says how the same instant's new evaluation is admitted. While work is paused, the evaluation is
-- refused. Otherwise a ready source, or one whose last run failed, gives it the status's current
-- revision; a disabled or unavailable source refuses it; and a source that is shown as paused for
-- its integrity gives it the current revision if that is at most 48 hours old, and else refuses it.
pub status-Agrees :
    (env : IngestEnv) {s t : Ingest} (d : Draw)
    → Steps env s t
    → IsConsistent s
    → (st : Status) × (cpsc_source_status d.evaluated_at t ≡ ok st)
      × Agrees t.queue.pause.is_paused d.evaluated_at st.readiness st.current_revision
          (usable_revision d t.queue)
status-Agrees env {s} {t} d steps c =
    let (found, shown, agrees) =
      open-status t d t.queue.source.current_revision (Steps-IsConsistent env steps c) refl in
    let st = status_of found d.evaluated_at t in
    (
      st,
      shown,
      either-Agrees t.queue.pause.is_paused d.evaluated_at st.readiness found
          (usable_revision d t.queue) (paused-Agrees d t.queue st.readiness found) agrees,
    )
