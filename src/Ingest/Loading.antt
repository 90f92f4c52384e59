-- ===== src/Ingest/Loading.antt =====
-- What the loop over a promotion's records keeps.
use agent_data_oracle.Base.{
  ℕ, suc, ◌≡◌, ap, ◌∙◌, subst, true, List, [], ◌∷◌, arith, All, All-append, Unique, Unique-append,
  ok,
}
use agent_data_oracle.Queue.{Queue}
use agent_data_oracle.Ingest.{CpscRecord, IngestEnv, Ingest, ImportDraw, RevisionRecord, Version}
use agent_data_oracle.Ingest.Promotion.{insert_records, new_version}
use agent_data_oracle.Ingest.Promoted.{
  Recorded, reuses, inserts, Round, row_of, insert_record-eq-ok, insert_records-Round,
}
use agent_data_oracle.Ingest.Consistency.{has_revision}

-- What the loop over a promotion's records leaves alone, and the keys that it keeps.
pub record Loaded (d : ImportDraw) (s v : Ingest) : Type 0 where
  pub runs : v.queue.source.runs ≡ s.queue.source.runs
  pub revisions : v.queue.source.revisions ≡ s.queue.source.revisions
  pub current_records : v.queue.source.current_records ≡ s.queue.source.current_records
  pub versions : Unique (λ (v : Version). v.version_id) v.versions
  pub rows :
      All
        (λ (x : RevisionRecord). has_revision x.revision_id s.queue.source.revisions ≡ true)
        v.revision_records

-- The facts of a recorded version that the loop needs.
pub Recorded-frame :
    (env : IngestEnv) (i : ℕ) (r : CpscRecord) (observed_at : ℕ) (s : Ingest) (version : ℕ)
    (t : Ingest)
    → Recorded env i r observed_at s version t
    → Unique (λ (v : Version). v.version_id) s.versions
    → (t.queue ≡ s.queue)
      × (t.revision_records ≡ s.revision_records)
      × Unique (λ (v : Version). v.version_id) t.versions
Recorded-frame env i r observed_at s version t (reuses raw v vs _ _ _ e) u = (rw e, rw e, rw e u)
Recorded-frame env i r observed_at s version t (inserts raw _ free _ e) u =
    (rw e, rw e, rw e (Unique-append _ s.versions (new_version i r raw) u free))

Round-Loaded :
    (env : IngestEnv) (d : ImportDraw) (observed_at position : ℕ) (r : CpscRecord)
    (rs : List CpscRecord) (s : Ingest) (count : ℕ) (v : Ingest) (s₀ : Ingest)
    (x : Round env d observed_at position r rs s count v)
    → has_revision d.revision_id s₀.queue.source.revisions ≡ true
    → Loaded d s₀ s
    → Loaded d s₀ x.with_row
Round-Loaded env d observed_at position r rs s count v s₀ x present l =
    let (queue, rows, unique) =
      Recorded-frame env (d.version_id position) r observed_at s x.version x.with_version x.recorded
        l.versions in
    let (_, grown, versions, runs, revisions, _, records) =
      insert_record-eq-ok d position r x.version observed_at x.with_version x.with_row x.listed in
    record {
      runs = runs ∙ ap (λ (q : Queue). q.source.runs) queue ∙ l.runs;
      revisions = revisions ∙ ap (λ (q : Queue). q.source.revisions) queue ∙ l.revisions;
      current_records =
          records ∙ ap (λ (q : Queue). q.source.current_records) queue ∙ l.current_records;
      versions = rw versions unique;
      rows =
          rw (grown, rows)
            (All-append _ s.revision_records (row_of d position r x.version ∷ []) l.rows
              (present, tt));
    }

pub insert_records-Loaded :
    (env : IngestEnv) (d : ImportDraw) (observed_at position : ℕ) (rs : List CpscRecord)
    (s : Ingest) (count : ℕ) (v : Ingest) (s₀ : Ingest)
    → has_revision d.revision_id s₀.queue.source.revisions ≡ true
    → Loaded d s₀ s
    → insert_records env d observed_at position rs s ≡ ok (count, v)
    → Loaded d s₀ v
unfolding insert_records
insert_records-Loaded env d observed_at position [] s count v s₀ present l h =
    let same : s ≡ v = ground arith in subst (Loaded d s₀) same l
insert_records-Loaded env d observed_at position (r ∷ rs) s count v s₀ present l h =
    let x = insert_records-Round env d observed_at position r rs s count v h in
    insert_records-Loaded env d observed_at (suc position) rs x.with_row x.later v s₀ present
      (Round-Loaded env d observed_at position r rs s count v s₀ x present l) x.rest
