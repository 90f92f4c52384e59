-- ===== src/Program/Imports.antt =====
-- The imports of `cpsc_source.py` write no evaluation, audit, release or refresh link.
use agent_data_oracle.Base.{ℕ, ◌≡◌, refl, ◌∙◌, List, [], ◌∷◌, arith, ok}
use agent_data_oracle.Queue.{Queue}
use agent_data_oracle.Ingest.{CpscRecord, IngestEnv, Ingest, ImportDraw}
use agent_data_oracle.Ingest.Promotion.{
  insert_record, insert_records, finish_promotion, promote_revision,
}
use agent_data_oracle.Ingest.Importing.{
  Response, start_revision, finish_unsuccessful_revision, activate_source_integrity_pause,
}
use agent_data_oracle.Ingest.Promoted.{
  Recorded, reuses, inserts, insert_records-Round, promote_revision-Promoted,
}
use agent_data_oracle.Ingest.Consistency.{start_revision-eq-ok}
use agent_data_oracle.Ingest.Steps.{IsImportKept}

-- Two queues with the same evaluations, audits, releases and links.
pub record SameWork (s t : Queue) : Type 0 where
  pub evaluations : t.evaluations ≡ s.evaluations
  pub audits : t.audits ≡ s.audits
  pub releases : t.releases ≡ s.releases
  pub refreshes : t.refreshes ≡ s.refreshes

pub SameWork-trans : (s t u : Queue) → SameWork s t → SameWork t u → SameWork s u
SameWork-trans s t u a b = record {
  evaluations = b.evaluations ∙ a.evaluations;
  audits = b.audits ∙ a.audits;
  releases = b.releases ∙ a.releases;
  refreshes = b.refreshes ∙ a.refreshes;
}

pub SameWork-refl : (s : Queue) → SameWork s s
SameWork-refl s = record { evaluations = refl; audits = refl; releases = refl; refreshes = refl }

Recorded-SameWork :
    (env : IngestEnv) (i : ℕ) (r : CpscRecord) (observed_at : ℕ) (s : Ingest) (version : ℕ)
    (t : Ingest)
    → Recorded env i r observed_at s version t
    → t.queue ≡ s.queue
Recorded-SameWork env i r observed_at s version t (reuses raw v vs _ _ _ e) = rw e refl
Recorded-SameWork env i r observed_at s version t (inserts raw _ free _ e) = rw e refl

insert_record-SameWork :
    (d : ImportDraw) (position : ℕ) (r : CpscRecord) (version observed_at : ℕ) (s t : Ingest)
    → insert_record d position r version observed_at s ≡ ok t
    → SameWork s.queue t.queue
unfolding insert_record
insert_record-SameWork d position r version observed_at s t h = record {
  evaluations = ground arith;
  audits = ground arith;
  releases = ground arith;
  refreshes = ground arith;
}

insert_records-SameWork :
    (env : IngestEnv) (d : ImportDraw) (observed_at position : ℕ) (rs : List CpscRecord)
    (s : Ingest) (count : ℕ) (v : Ingest)
    → insert_records env d observed_at position rs s ≡ ok (count, v)
    → SameWork s.queue v.queue
unfolding insert_records
insert_records-SameWork env d observed_at position [] s count v h =
    let same : v ≡ s = ground arith in rw same (SameWork-refl s.queue)
insert_records-SameWork env d observed_at position (r ∷ rs) s count v h =
    let x = insert_records-Round env d observed_at position r rs s count v h in
    let recorded =
      Recorded-SameWork env (d.version_id position) r observed_at s x.version x.with_version
        x.recorded in
    let listed =
      insert_record-SameWork d position r x.version observed_at x.with_version x.with_row
        x.listed in
    let rest = insert_records-SameWork env d observed_at _ rs x.with_row x.later v x.rest in
    rw⁻¹ recorded (SameWork-trans _ _ _ listed rest)

abbrev AsBefore : Queue → Ingest → Type 0
AsBefore w s = SameWork w s.queue

start-AsBefore :
    (w : Queue) (d : ImportDraw) (q : Response) (s t : Ingest)
    → AsBefore w s
    → start_revision d q s ≡ ok t
    → AsBefore w t
start-AsBefore w d q s t p h =
    let (_, _, e) = start_revision-eq-ok d q s t h in
    rw e (record {
      evaluations = p.evaluations;
      audits = p.audits;
      releases = p.releases;
      refreshes = p.refreshes;
    })

promotion-AsBefore :
    (env : IngestEnv) (w : Queue) (d : ImportDraw) (q : Response) (s t u : Ingest)
    (records : List CpscRecord) (counts : ℕ × ℕ)
    → AsBefore w s
    → start_revision d q s ≡ ok t
    → promote_revision env q.refresh_mode d records q.observed_at t ≡ ok (counts, u)
    → AsBefore w u
unfolding finish_promotion
promotion-AsBefore env w d q s t u records counts p start h =
    let x = promote_revision-Promoted env q.refresh_mode d records q.observed_at t counts u h in
    let begun = start-AsBefore w d q s t p start in
    let loaded =
      insert_records-SameWork env d q.observed_at _ x.records t counts.0 x.loaded x.inserted in
    let all' = SameWork-trans w t.queue x.loaded.queue begun loaded in
    rw x.finished (record {
      evaluations = all'.evaluations;
      audits = all'.audits;
      releases = all'.releases;
      refreshes = all'.refreshes;
    })

pub AsBefore-IsImportKept :
    (env : IngestEnv) (w : Queue) → IsImportKept env (λ s. SameWork w s.queue)
unfolding finish_unsuccessful_revision activate_source_integrity_pause
AsBefore-IsImportKept env w = record {
  by_start = start-AsBefore w;
  by_finish = λ d q s t state code p h.
      let b = start-AsBefore w d q s t p h in
      record {
        evaluations = b.evaluations;
        audits = b.audits;
        releases = b.releases;
        refreshes = b.refreshes;
      };
  by_failure = λ code s p. p;
  by_pause = λ code now s p. record {
    evaluations = p.evaluations;
    audits = p.audits;
    releases = p.releases;
    refreshes = p.refreshes;
  };
  by_promotion = promotion-AsBefore env w;
}
