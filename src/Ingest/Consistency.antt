-- ===== src/Ingest/Consistency.antt =====
-- Keys and references of the source tables, over every sequence of imports.
use agent_data_oracle.Base.{
  ℕ, ◌≡◌, refl, Text, Bool, true, false, Option, some, none, List, [], ◌∷◌, ◌++◌, arith, any, All,
  All-append, All-imp, any-append, any-update_where, ◌==◌, ==_iff, keyed, Unique, Unique-append,
  Unique-update_where, ok, is_some, Bool-cases, inl, inr, update_where,
}
use agent_data_oracle.Source.{State, is_completed, Run, Revision, CurrentRecord, SourceTables}
use agent_data_oracle.Ingest.{Ingest, ImportDraw, RevisionRecord, Version}
use agent_data_oracle.Ingest.Importing.{
  Response, start_revision, pending_run, pending_revision, finish_unsuccessful_revision,
}

abbrev pub has_run : ℕ → List Run → Bool
has_run i rs = any (keyed (λ (r : Run). r.run_id) i) rs

abbrev pub has_revision : ℕ → List Revision → Bool
has_revision i rs = any (keyed (λ (r : Revision). r.revision_id) i) rs

-- The revision's rows are completed ones.
abbrev pub IsCompleted : ℕ → Revision → Type 0
IsCompleted i r =
    (r.revision_id == i) ≡ true → (is_completed r.state ≡ true) × (is_some r.completed_at ≡ true)

-- No revision is selected and no record is current, or the selected revision is there and is
-- completed, and every current record belongs to it.
abbrev pub IsSelected : Option ℕ → List Revision → List CurrentRecord → Type 0
IsSelected none revisions records = records ≡ []
IsSelected (some i) revisions records =
    (has_revision i revisions ≡ true)
    × All (IsCompleted i) revisions
    × All (λ c. c.revision_id ≡ i) records

abbrev pub SourceSelected : SourceTables → Type 0
SourceSelected t = IsSelected t.current_revision t.revisions t.current_records

-- Every revision has its run, identifiers are unique, and a revision's rows name a known revision.
pub record IsConsistent (s : Ingest) : Type 0 where
  pub runs_unique : Unique (λ (r : Run). r.run_id) s.queue.source.runs
  pub revisions_unique : Unique (λ (r : Revision). r.revision_id) s.queue.source.revisions
  pub runs_present :
      All (λ (r : Revision). has_run r.run_id s.queue.source.runs ≡ true) s.queue.source.revisions
  pub versions_unique : Unique (λ (v : Version). v.version_id) s.versions
  pub rows_known :
      All
        (λ (x : RevisionRecord). has_revision x.revision_id s.queue.source.revisions ≡ true)
        s.revision_records
  pub selected : SourceSelected s.queue.source

-- A transaction that starts a run adds two rows with unused identifiers, and nothing else.
pub start_revision-eq-ok :
    (d : ImportDraw) (q : Response) (s t : Ingest)
    → start_revision d q s ≡ ok t
    → (has_run d.run_id s.queue.source.runs ≡ false)
      × (has_revision d.revision_id s.queue.source.revisions ≡ false)
      × (t ≡ record s {
        queue = record s.queue {
          source = record s.queue.source {
            runs = s.queue.source.runs ++ pending_run d q ∷ [];
            revisions = s.queue.source.revisions ++ pending_revision d ∷ [];
          };
        };
      })
unfolding start_revision
start_revision-eq-ok d q s t h = ground arith

-- The selected revision is not one whose identifier no revision has.
selected-other :
    (k i : ℕ) (rs : List Revision)
    → has_revision k rs ≡ false
    → has_revision i rs ≡ true
    → (k == i) ≡ false
selected-other k i rs new present = elim (Bool-cases (k == i)) [
  | inl e ↦ let same : k ≡ i = (==_iff k i).0 e in cc
  | inr e ↦ e
]

IsSelected-pending :
    (d : ImportDraw) (cur : Option ℕ) (rs : List Revision) (cs : List CurrentRecord)
    → has_revision d.revision_id rs ≡ false
    → IsSelected cur rs cs
    → IsSelected cur (rs ++ pending_revision d ∷ []) cs
IsSelected-pending d none rs cs new h = h
IsSelected-pending d (some i) rs cs new (present, done, own) = (
  rw (any-append, present),
  All-append (IsCompleted i) rs (pending_revision d ∷ []) done
      ((λ e. let other = selected-other d.revision_id i rs new present in cc), tt),
  own,
)

-- A started run keeps the consistency.
pub start-IsConsistent :
    (d : ImportDraw) (q : Response) (s t : Ingest)
    → IsConsistent s
    → start_revision d q s ≡ ok t
    → IsConsistent t
start-IsConsistent d q s t v h =
    let (new_run, new, e) = start_revision-eq-ok d q s t h in
    let src = s.queue.source in
    rw e (record {
      runs_unique = Unique-append _ src.runs (pending_run d q) v.runs_unique new_run;
      revisions_unique = Unique-append _ src.revisions (pending_revision d) v.revisions_unique new;
      runs_present =
          All-append _ src.revisions (pending_revision d ∷ [])
            (All-imp _ _ src.revisions (λ r p. rw (any-append, p)) v.runs_present)
            (rw any-append (ground arith), tt);
      versions_unique = v.versions_unique;
      rows_known =
          All-imp _ _ s.revision_records
            (λ x (p : has_revision x.revision_id src.revisions ≡ true). rw (any-append, p))
            v.rows_known;
      selected =
          IsSelected-pending d src.current_revision src.revisions src.current_records new
            v.selected;
    })

-- An update of a revision and its run that leaves the identifiers alone.
module _ (d : ImportDraw) (f : Run → Run) (g : Revision → Revision)
    (same_run : (r : Run) → (f r).run_id ≡ r.run_id)
    (same_id : (r : Revision) → (g r).revision_id ≡ r.revision_id)
    (same_ref : (r : Revision) → (g r).run_id ≡ r.run_id) where
  abbrev updated_runs : List Run → List Run
  updated_runs = update_where (keyed (λ (r : Run). r.run_id) d.run_id) f

  abbrev updated_revisions : List Revision → List Revision
  updated_revisions = update_where (keyed (λ (r : Revision). r.revision_id) d.revision_id) g

  has_run-updated : (i : ℕ) (rs : List Run) → has_run i (updated_runs rs) ≡ has_run i rs
  has_run-updated i rs = any-update_where (keyed (λ r. r.run_id) i) _ f rs (λ r. rw (same_run r))

  has_revision-updated :
      (i : ℕ) (rs : List Revision) → has_revision i (updated_revisions rs) ≡ has_revision i rs
  has_revision-updated i rs =
      any-update_where (keyed (λ r. r.revision_id) i) _ g rs (λ r. rw (same_id r))

  runs_present-updated :
      (runs : List Run) (rs : List Revision)
      → All (λ (r : Revision). has_run r.run_id runs ≡ true) rs
      → All (λ (r : Revision). has_run r.run_id (updated_runs runs) ≡ true) (updated_revisions rs)
  runs_present-updated runs [] h = tt
  runs_present-updated runs (r ∷ rs) h = (
    elim (Bool-cases (keyed (λ (r : Revision). r.revision_id) d.revision_id r)) [
      | inl e ↦ rw (e, same_ref r, has_run-updated) h.0
      | inr e ↦ rw (e, has_run-updated) h.0
    ],
    runs_present-updated runs rs h.1,
  )

  pub updated-IsConsistent :
      (s t : Ingest)
      → IsConsistent s
      → t.queue.source.runs ≡ updated_runs s.queue.source.runs
      → t.queue.source.revisions ≡ updated_revisions s.queue.source.revisions
      → Unique (λ (v : Version). v.version_id) t.versions
      → All
          (λ (x : RevisionRecord). has_revision x.revision_id s.queue.source.revisions ≡ true)
          t.revision_records
      → SourceSelected t.queue.source
      → IsConsistent t
  updated-IsConsistent s t v runs revisions versions rows chosen = record {
    runs_unique = rw runs (Unique-update_where _ _ f s.queue.source.runs same_run v.runs_unique);
    revisions_unique =
        rw revisions
          (Unique-update_where _ _ g s.queue.source.revisions same_id v.revisions_unique);
    runs_present = rw (runs, revisions) (runs_present-updated _ _ v.runs_present);
    versions_unique = versions;
    rows_known =
        rw revisions (All-imp _ _ t.revision_records (λ x p. rw has_revision-updated p) rows);
    selected = chosen;
  }

IsSelected-finished :
    (d : ImportDraw) (g : Revision → Revision) (cur : Option ℕ) (rs : List Revision)
    (cs : List CurrentRecord)
    → ((r : Revision) → (g r).revision_id ≡ r.revision_id)
    → (before : List Revision) → has_revision d.revision_id before ≡ false
    → IsSelected cur before cs
    → IsSelected cur rs cs
    → IsSelected cur (update_where (keyed (λ (r : Revision). r.revision_id) d.revision_id) g rs) cs
IsSelected-finished d g none rs cs same before new h₀ h = h
IsSelected-finished d g (some i) rs cs same before new (known, _, _) (present, done, own) =
    let other = selected-other d.revision_id i before new known in
    (
      rw (any-update_where (keyed (λ r. r.revision_id) i) _ g rs (λ r. rw (same r))) present,
      touched rs done other,
      own,
    )
  where
    touched :
        (xs : List Revision)
        → All (IsCompleted i) xs
        → (d.revision_id == i) ≡ false
        → All
            (IsCompleted i)
            (update_where (keyed (λ (r : Revision). r.revision_id) d.revision_id) g xs)
    touched [] a other = tt
    touched (x ∷ xs) a other =
        elim (Bool-cases (keyed (λ (r : Revision). r.revision_id) d.revision_id x)) [
          | inl e ↦ rw e (((λ p. absurd (ground (arith, same x))), touched xs a.1 other))
          | inr e ↦ rw e (a.0, touched xs a.1 other)
        ]

-- An import that ends without a promotion marks its own run and revision, and selects nothing else.
pub finish-IsConsistent :
    (d : ImportDraw) (q : Response) (s t : Ingest) (state : State) (code : Text)
    → IsConsistent s
    → start_revision d q s ≡ ok t
    → IsConsistent (finish_unsuccessful_revision d state code t)
unfolding finish_unsuccessful_revision
finish-IsConsistent d q s t state code v h =
    let (_, new, e) = start_revision-eq-ok d q s t h in
    let w = start-IsConsistent d q s t v h in
    let same_cur : t.queue.source.current_revision ≡ s.queue.source.current_revision = rw e in
    let same_rows : t.queue.source.current_records ≡ s.queue.source.current_records = rw e in
    updated-IsConsistent d _ _ (λ r. refl) (λ r. refl) (λ r. refl) t _ w refl refl w.versions_unique
      w.rows_known
      (IsSelected-finished d _ t.queue.source.current_revision t.queue.source.revisions
        t.queue.source.current_records (λ r. refl) s.queue.source.revisions new
        (rw (same_cur, same_rows) v.selected) w.selected)
