-- ===== src/Ingest/Lineage.antt =====
-- The consistency of the source tables, over every sequence of imports.
use agent_data_oracle.Base.{
  ℕ, zero, ◌≡◌, refl, true, List, arith, All, All-map, All-select, All-true, All-flat_map,
  All-update_where, any-append, any-update_where, ◌==◌, ==_iff, keyed, ok, update_where, length,
  ==_refl,
}
use agent_data_oracle.Source.{completed, RefreshMode, Run, Revision, CurrentRecord}
use agent_data_oracle.Ingest.{CpscRecord, IngestEnv, Ingest, ImportDraw, RevisionRecord, Version}
use agent_data_oracle.Ingest.Promotion.{
  finish_promotion, complete_revision, projection, projected_row, promote_revision,
}
use agent_data_oracle.Ingest.Importing.{Response, start_revision, activate_source_integrity_pause}
use agent_data_oracle.Ingest.Promoted.{promote_revision-Promoted}
use agent_data_oracle.Ingest.Steps.{IsKept, Steps, Steps-keeps}
use agent_data_oracle.Ingest.Consistency.{
  updated-IsConsistent, IsCompleted, IsConsistent, finish-IsConsistent, has_revision,
  start-IsConsistent, start_revision-eq-ok,
}
use agent_data_oracle.Ingest.Loading.{Loaded, insert_records-Loaded}

IsCompleted-All :
    (d : ImportDraw) (n : ℕ) (rs : List Revision)
    → All (IsCompleted d.revision_id) (
        update_where
          (keyed (λ (r : Revision). r.revision_id) d.revision_id)
          (complete_revision d n)
          rs)
IsCompleted-All d n rs =
    All-update_where (IsCompleted d.revision_id) _ (complete_revision d n) rs
      (λ r e p. (refl, refl)) (λ r e p. absurd (ground arith))

-- The projected rows belong to the revision.
projection-revision :
    (revision : ℕ) (xs : List RevisionRecord) (vs : List Version)
    → All (λ c. c.revision_id ≡ revision) (projection revision xs vs)
unfolding projection
projection-revision revision xs vs =
    All-flat_map (λ x. Unit {0} × ((x.revision_id == revision) ≡ true))
      (λ (c : CurrentRecord). c.revision_id ≡ revision) _ _
      (λ x p.
        All-map (projected_row x) (λ c. c.revision_id ≡ revision) _
          (All-true (λ v. (==_iff _ revision).0 p.1) _))
      (All-select (λ x. Unit {0}) (λ (x : RevisionRecord). x.revision_id == revision) xs
        (All-true (λ x. tt) xs))

finish_promotion-IsConsistent :
    (mode : RefreshMode) (d : ImportDraw) (records : List CpscRecord) (observed_at : ℕ)
    (s v : Ingest)
    → IsConsistent s
    → has_revision d.revision_id s.queue.source.revisions ≡ true
    → Loaded d s v
    → IsConsistent (finish_promotion mode d records observed_at v)
unfolding finish_promotion
finish_promotion-IsConsistent mode d records observed_at s v c present l =
    updated-IsConsistent d
      (λ (r : Run). record r { state = completed; record_count = length records })
      (complete_revision d (length records)) (λ r. refl) (λ r. refl) (λ r. refl) s _ c (rw l.runs)
      (rw l.revisions) l.versions l.rows
      (
        rw l.revisions (
            rw
              (any-update_where (keyed (λ (r : Revision). r.revision_id) d.revision_id)
                (keyed (λ (r : Revision). r.revision_id) d.revision_id)
                (complete_revision d (length records)) s.queue.source.revisions (λ r. refl))
              present),
        IsCompleted-All d (length records) v.queue.source.revisions,
        projection-revision d.revision_id v.revision_records v.versions,
      )

pub started-present :
    (d : ImportDraw) (q : Response) (s t : Ingest)
    → start_revision d q s ≡ ok t
    → has_revision d.revision_id t.queue.source.revisions ≡ true
started-present d q s t h =
    let (_, new, e) = start_revision-eq-ok d q s t h in rw (e, any-append, ==_refl) (ground arith)

pub promotion-IsConsistent :
    (env : IngestEnv) (d : ImportDraw) (q : Response) (s t u : Ingest) (records : List CpscRecord)
    (counts : ℕ × ℕ)
    → IsConsistent s
    → start_revision d q s ≡ ok t
    → promote_revision env q.refresh_mode d records q.observed_at t ≡ ok (counts, u)
    → IsConsistent u
promotion-IsConsistent env d q s t u records counts c start h =
    let p = promote_revision-Promoted env q.refresh_mode d records q.observed_at t counts u h in
    let w = start-IsConsistent d q s t c start in
    let here = started-present d q s t start in
    let l =
      insert_records-Loaded env d q.observed_at zero p.records t counts.0 p.loaded t here
        (record {
          runs = refl;
          revisions = refl;
          current_records = refl;
          versions = w.versions_unique;
          rows = w.rows_known;
        })
        p.inserted in
    rw p.finished
      (finish_promotion-IsConsistent q.refresh_mode d p.records q.observed_at t p.loaded w here l)

IsConsistent-IsKept : (env : IngestEnv) → IsKept env IsConsistent
IsConsistent-IsKept env = record {
  by_import = record {
    by_start = start-IsConsistent;
    by_finish = finish-IsConsistent;
    by_failure = λ code s c. record {
      runs_unique = c.runs_unique;
      revisions_unique = c.revisions_unique;
      runs_present = c.runs_present;
      versions_unique = c.versions_unique;
      rows_known = c.rows_known;
      selected = c.selected;
    };
    by_pause = λ code now s c.
        unfold activate_source_integrity_pause in
        record {
          runs_unique = c.runs_unique;
          revisions_unique = c.revisions_unique;
          runs_present = c.runs_present;
          versions_unique = c.versions_unique;
          rows_known = c.rows_known;
          selected = c.selected;
        };
    by_promotion = promotion-IsConsistent env;
  };
  by_work = λ q s same c. record {
    runs_unique = rw same c.runs_unique;
    revisions_unique = rw same c.revisions_unique;
    runs_present = rw same c.runs_present;
    versions_unique = c.versions_unique;
    rows_known = rw same c.rows_known;
    selected = rw same c.selected;
  };
}

-- Every sequence of imports and refreshes keeps this: runs, revisions and versions have unique
-- identifiers, each revision has its run, and no record is current unless a revision is selected;
-- the selected revision is completed with a completion time, and every current record belongs to
-- it.
pub Steps-IsConsistent :
    (env : IngestEnv) {s t : Ingest} → Steps env s t → IsConsistent s → IsConsistent t
Steps-IsConsistent env steps c = Steps-keeps env IsConsistent (IsConsistent-IsKept env) steps c
