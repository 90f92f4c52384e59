-- ===== src/Ingest/Promoted.antt =====
-- What a promotion that succeeds has done, step by step.
use agent_data_oracle.Base.{
  ℕ, suc, ◌≡◌, refl, ◌∙◌, ap, Bool, false, some, List, [], ◌∷◌, ◌++◌, arith, any, length, keyed,
  Result, ok, ◌>>=◌, >>=-eq-ok, or_raise, or_raise-eq-ok, select,
}
use agent_data_oracle.Json.{Json}
use agent_data_oracle.Source.{RefreshMode}
use agent_data_oracle.Ingest.{
  CpscRecord, IngestEnv, IngestError, sql_error, Ingest, ImportDraw, RevisionRecord, Version,
}
use agent_data_oracle.Ingest.Promotion.{
  promoted_records, same_version, new_version, with_recall, insert_version, record_version,
  lists_recall, insert_record, count_if, insert_records, finish_promotion, promote_revision,
}

abbrev succeed : {A : Type 0} → A → Result IngestError A
succeed a = ok a

-- A version that is recorded is either one that the table has, or a new row with an unused
-- identifier.
pub data Recorded (env : IngestEnv) (i : ℕ) (r : CpscRecord) (observed_at : ℕ) (s : Ingest)
    (version : ℕ) (t : Ingest) : Type 0 where
  reuses :
      (raw : Json) (v : Version) (vs : List Version)
      → env.stored r ≡ some raw
      → select (same_version r) s.versions ≡ v ∷ vs
      → version ≡ v.version_id
      → t ≡ record s { recalls = with_recall r observed_at s.recalls }
      → Recorded env i r observed_at s version t
  inserts :
      (raw : Json)
      → env.stored r ≡ some raw
      → any (keyed (λ (v : Version). v.version_id) i) s.versions ≡ false
      → version ≡ i
      → t ≡ record s {
        recalls = with_recall r observed_at s.recalls;
        versions = s.versions ++ new_version i r raw ∷ [];
      }
      → Recorded env i r observed_at s version t

-- A promotion that succeeds has inserted its records and finished.
pub record Promoted (env : IngestEnv) (mode : RefreshMode) (d : ImportDraw)
    (received : List CpscRecord) (observed_at : ℕ) (s : Ingest) (counts : ℕ × ℕ) (u : Ingest)
    : Type 0 where
  pub records : List CpscRecord
  pub loaded : Ingest
  pub chosen : promoted_records env mode received s.queue.source ≡ ok records
  pub inserted : insert_records env d observed_at 0 records s ≡ ok (counts.0, loaded)
  pub counted : counts.1 ≡ length records
  pub finished : u ≡ finish_promotion mode d records observed_at loaded

module _ (env : IngestEnv) (i : ℕ) (r : CpscRecord) (observed_at : ℕ) (s : Ingest) (version : ℕ)
    (reused : Bool) (t : Ingest) where
  insert_version-Recorded :
      (raw : Json) (vs : List Version)
      → env.stored r ≡ some raw
      → select (same_version r) s.versions ≡ vs
      → insert_version i r raw vs (record s { recalls = with_recall r observed_at s.recalls })
        ≡ ok (version, reused, t)
      → Recorded env i r observed_at s version t
  unfolding insert_version
  insert_version-Recorded raw (v ∷ vs) e f h = reuses raw v vs e f (ground arith) (ground arith)
  insert_version-Recorded raw [] e f h = inserts raw e (ground arith) (ground arith) (ground arith)

  pub record_version-Recorded :
      record_version env i r observed_at s ≡ ok (version, reused, t)
      → Recorded env i r observed_at s version t
  unfolding record_version
  record_version-Recorded h =
      let (raw, e, h') =
        >>=-eq-ok (or_raise sql_error (env.stored r))
          (λ raw.
            insert_version i r raw (select (same_version r) s.versions)
              (record s { recalls = with_recall r observed_at s.recalls }))
          h in
      insert_version-Recorded raw _ (or_raise-eq-ok sql_error _ e) refl h'

abbrev pub row_of : ImportDraw → ℕ → CpscRecord → ℕ → RevisionRecord
row_of d position r version = record {
  revision_id = d.revision_id;
  recall_id = r.recall_id;
  version_id = version;
  source_position = position;
}

-- One round of the loop, and what follows it.
pub record Round (env : IngestEnv) (d : ImportDraw) (observed_at position : ℕ) (r : CpscRecord)
    (rs : List CpscRecord) (s : Ingest) (count : ℕ) (v : Ingest) : Type 0 where
  pub version : ℕ
  pub with_version : Ingest
  pub with_row : Ingest
  pub later : ℕ
  pub recorded : Recorded env (d.version_id position) r observed_at s version with_version
  pub unlisted : any (lists_recall d.revision_id r.recall_id) with_version.revision_records ≡ false
  pub listed : insert_record d position r version observed_at with_version ≡ ok with_row
  pub rest : insert_records env d observed_at (suc position) rs with_row ≡ ok (later, v)

pub insert_record-eq-ok :
    (d : ImportDraw) (position : ℕ) (r : CpscRecord) (version observed_at : ℕ) (s t : Ingest)
    → insert_record d position r version observed_at s ≡ ok t
    → (any (lists_recall d.revision_id r.recall_id) s.revision_records ≡ false)
      × (t.revision_records ≡ s.revision_records ++ row_of d position r version ∷ [])
      × (t.versions ≡ s.versions)
      × (t.queue.source.runs ≡ s.queue.source.runs)
      × (t.queue.source.revisions ≡ s.queue.source.revisions)
      × (t.queue.source.current_revision ≡ s.queue.source.current_revision)
      × (t.queue.source.current_records ≡ s.queue.source.current_records)
unfolding insert_record
insert_record-eq-ok d position r version observed_at s t h = ground arith

pub insert_records-Round :
    (env : IngestEnv) (d : ImportDraw) (observed_at position : ℕ) (r : CpscRecord)
    (rs : List CpscRecord) (s : Ingest) (count : ℕ) (v : Ingest)
    → insert_records env d observed_at position (r ∷ rs) s ≡ ok (count, v)
    → Round env d observed_at position r rs s count v
unfolding insert_records
insert_records-Round env d observed_at position r rs s count v h =
    let finish = λ (version : ℕ) (reused : Bool) (t : Ingest).
      insert_record d position r version observed_at t >>= λ u.
      insert_records env d observed_at (suc position) rs u >>= λ (x : ℕ × Ingest).
      succeed (count_if reused x.0, x.1) in
    let ((version, reused, t), e₁, h₁) =
      >>=-eq-ok (record_version env (d.version_id position) r observed_at s)
        (λ (x : ℕ × Bool × Ingest). finish x.0 x.1 x.2) h in
    let (u, e₂, h₂) =
      >>=-eq-ok (insert_record d position r version observed_at t)
        (λ u. insert_records env d observed_at (suc position) rs u >>= λ (x : ℕ × Ingest).
          succeed (count_if reused x.0, x.1))
        h₁ in
    let ((later, w), e₃, h₃) =
      >>=-eq-ok (insert_records env d observed_at (suc position) rs u)
        (λ (x : ℕ × Ingest). succeed (count_if reused x.0, x.1)) h₂ in
    let same : w ≡ v = ground arith in
    record {
      version = version;
      with_version = t;
      with_row = u;
      later = later;
      recorded = record_version-Recorded env (d.version_id position) r observed_at s _ _ _ e₁;
      unlisted = (insert_record-eq-ok d position r version observed_at t u e₂).0;
      listed = e₂;
      rest = e₃ ∙ ap (λ x. ok (later, x)) same;
    }

pub promote_revision-Promoted :
    (env : IngestEnv) (mode : RefreshMode) (d : ImportDraw) (received : List CpscRecord)
    (observed_at : ℕ) (s : Ingest) (counts : ℕ × ℕ) (u : Ingest)
    → promote_revision env mode d received observed_at s ≡ ok (counts, u)
    → Promoted env mode d received observed_at s counts u
unfolding promote_revision
promote_revision-Promoted env mode d received observed_at s counts u h =
    let finish = λ (records : List CpscRecord) (x : ℕ × Ingest).
      succeed ((x.0, length records), finish_promotion mode d records observed_at x.1) in
    let (records, e₁, h₁) =
      >>=-eq-ok (promoted_records env mode received s.queue.source)
        (λ records. insert_records env d observed_at 0 records s >>= finish records) h in
    let ((reused, t), e₂, h₂) =
      >>=-eq-ok (insert_records env d observed_at 0 records s) (finish records) h₁ in
    let same : reused ≡ counts.0 = ground arith in
    record {
      records = records;
      loaded = t;
      chosen = e₁;
      inserted = e₂ ∙ ap (λ x. ok (x, t)) same;
      counted = ground arith;
      finished = ground arith;
    }

-- The loop writes neither the refresh state nor the tombstones.
abbrev pub Untouched : Ingest → Ingest → Type 0
Untouched s t = (t.refresh_state ≡ s.refresh_state) × (t.tombstones ≡ s.tombstones)

Recorded-Untouched :
    (env : IngestEnv) (i : ℕ) (r : CpscRecord) (observed_at : ℕ) (s : Ingest) (version : ℕ)
    (t : Ingest)
    → Recorded env i r observed_at s version t
    → Untouched s t
Recorded-Untouched env i r observed_at s version t (reuses raw v vs _ _ _ e) = (rw e, rw e)
Recorded-Untouched env i r observed_at s version t (inserts raw _ free _ e) = (rw e, rw e)

insert_record-Untouched :
    (d : ImportDraw) (position : ℕ) (r : CpscRecord) (version observed_at : ℕ) (s t : Ingest)
    → insert_record d position r version observed_at s ≡ ok t
    → Untouched s t
unfolding insert_record
insert_record-Untouched d position r version observed_at s t h = ground arith

pub insert_records-Untouched :
    (env : IngestEnv) (d : ImportDraw) (observed_at position : ℕ) (rs : List CpscRecord)
    (s : Ingest) (count : ℕ) (v : Ingest)
    → insert_records env d observed_at position rs s ≡ ok (count, v)
    → Untouched s v
unfolding insert_records
insert_records-Untouched env d observed_at position [] s count v h = ground arith
insert_records-Untouched env d observed_at position (r ∷ rs) s count v h =
    let x = insert_records-Round env d observed_at position r rs s count v h in
    let (a, b) = insert_records-Untouched env d observed_at _ rs x.with_row x.later v x.rest in
    let (a', b') =
      insert_record-Untouched d position r x.version observed_at x.with_version x.with_row
        x.listed in
    let (a'', b'') =
      Recorded-Untouched env (d.version_id position) r observed_at s x.version x.with_version
        x.recorded in
    (a ∙ a' ∙ a'', b ∙ b' ∙ b'')
