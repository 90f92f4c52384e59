-- ===== src/Ingest/Accounting.antt =====
-- The tombstones of a full promotion, against the projections before and after it.
use agent_data_oracle.Base.{
  In-sort_by, ℕ, ◌≡◌, ◌⊎◌, inl, inr, refl, ap, ◌∙◌, Bool, true, false, not, List, [], ◌∷◌, ◌++◌,
  arith, map, select, any, All, All-imp, All-map, All-select, All-true, sort_by, In, In-All,
  Bool-cases, ok,
}
use agent_data_oracle.Base.Int.{ℤ, eq_ℤ, leb_ℤ}
use agent_data_oracle.Source.{full, CurrentRecord}
use agent_data_oracle.Ingest.{CpscRecord, IngestEnv, Ingest, ImportDraw, Tombstone}
use agent_data_oracle.Ingest.Promotion.{
  has_recall, ordered_current, tombstones_of, promoted_records, promote_revision, finish_promotion,
}
use agent_data_oracle.Ingest.Importing.{Response, start_revision}
use agent_data_oracle.Ingest.Promoted.{insert_records-Untouched, promote_revision-Promoted}
use agent_data_oracle.Ingest.Consistency.{IsConsistent, start_revision-eq-ok, start-IsConsistent}
use agent_data_oracle.Ingest.Loading.{insert_records-Loaded}
use agent_data_oracle.Ingest.Lineage.{started-present}
use agent_data_oracle.Ingest.Listing.{Pairwise, IsCurrentRow, NoCollision, ok-injective}
use agent_data_oracle.Ingest.Projection.{promote_revision-projects}

-- A recall is among the current records.
abbrev pub is_listed : ℤ → List CurrentRecord → Bool
is_listed i cs = any (λ c. eq_ℤ c.recall_id i) cs

abbrev pub tombstone_of : ImportDraw → ℕ → CurrentRecord → Tombstone
tombstone_of d observed_at c = record {
  revision_id = d.revision_id;
  recall_id = c.recall_id;
  last_seen_revision_id = c.revision_id;
  recorded_at = observed_at;
}

Pairwise-listed :
    (env : IngestEnv) (revision : ℕ) (i : ℤ) (rs : List CpscRecord) (cs : List CurrentRecord)
    → Pairwise (IsCurrentRow env revision) rs cs
    → is_listed i cs ≡ has_recall i rs
Pairwise-listed env revision i [] [] p = refl
Pairwise-listed env revision i [] (c ∷ cs) p = elim p [ ]
Pairwise-listed env revision i (r ∷ rs) [] p = elim p [ ]
Pairwise-listed env revision i (r ∷ rs) (c ∷ cs) (row, rest) =
    let same = row.0 in rw (same, Pairwise-listed env revision i rs cs rest)

In-map-select :
    (p : CurrentRecord → Bool) (f : CurrentRecord → Tombstone) (y : CurrentRecord)
    (xs : List CurrentRecord)
    → In y xs
    → p y ≡ true
    → In (f y) (map f (select p xs))
In-map-select p f y [] i t = elim i [ ]
In-map-select p f y (x ∷ xs) (inl e) t =
    let passes : p x ≡ true = ap p e ∙ t in rw passes (inl (ap f e))
In-map-select p f y (x ∷ xs) (inr i) t = elim (Bool-cases (p x)) [
  | inl e ↦ rw e (inr (In-map-select p f y xs i t))
  | inr e ↦ rw e (In-map-select p f y xs i t)
]

not-true : (b : Bool) → not b ≡ true → b ≡ false
not-true b h = ground arith

-- A full promotion that succeeds on a consistent source, right after its run has started, loses no
-- recall silently: each recall that was current is current again or has a new tombstone, which
-- names the revision in which it was last seen; and the new tombstones are of the promotion's own
-- revision and of recalls that are no longer current. No stored version may have a promoted
-- record's recall and hash with other content.
pub full_promotion_accounts :
    (env : IngestEnv) (d : ImportDraw) (q : Response) (s t u : Ingest) (received : List CpscRecord)
    (counts : ℕ × ℕ)
    → IsConsistent s
    → q.refresh_mode ≡ full
    → start_revision d q s ≡ ok t
    → All (NoCollision env received) s.versions
    → promote_revision env q.refresh_mode d received q.observed_at t ≡ ok (counts, u)
    → (new : List Tombstone) × (u.tombstones ≡ s.tombstones ++ new)
      × All
          (λ x.
            (x.revision_id ≡ d.revision_id)
            × (is_listed x.recall_id u.queue.source.current_records ≡ false))
          new
      × All
          (λ c.
            (is_listed c.recall_id u.queue.source.current_records ≡ true)
            ⊎ In (tombstone_of d q.observed_at c) new)
          s.queue.source.current_records
unfolding promoted_records tombstones_of ordered_current
full_promotion_accounts env d q s t u received counts c mode start safe h =
    let all_of : promoted_records env q.refresh_mode received t.queue.source ≡ ok received =
      rw mode in
    let (rows, _, _) =
      promote_revision-projects env d q s t u received received counts c start all_of safe h in
    let p = promote_revision-Promoted env q.refresh_mode d received q.observed_at t counts u h in
    let same : received ≡ p.records = ok-injective received p.records _ all_of p.chosen in
    let (_, _, e) = start_revision-eq-ok d q s t start in
    let w = start-IsConsistent d q s t c start in
    let l =
      insert_records-Loaded env d q.observed_at 0 p.records t counts.0 p.loaded t
        (started-present d q s t start)
        (record {
          runs = refl;
          revisions = refl;
          current_records = refl;
          versions = w.versions_unique;
          rows = w.rows_known;
        })
        p.inserted in
    let before : p.loaded.queue.source.current_records ≡ s.queue.source.current_records =
      l.current_records ∙ ap (λ (x : Ingest). x.queue.source.current_records) e in
    let sorted =
      sort_by (λ (a b : CurrentRecord). leb_ℤ a.recall_id b.recall_id)
        s.queue.source.current_records in
    let missing = λ (x : CurrentRecord). not (has_recall x.recall_id received) in
    let (_, kept) =
      insert_records-Untouched env d q.observed_at 0 p.records t counts.0 p.loaded p.inserted in
    let grown : u.tombstones
        ≡ s.tombstones ++ map (tombstone_of d q.observed_at) (select missing sorted) =
      ap (λ (x : Ingest). x.tombstones) p.finished
      ∙ unfold finish_promotion in
        rw (kept, mode, ← same, before)
          (ap
            (λ (x : Ingest).
              x.tombstones ++ map (tombstone_of d q.observed_at) (select missing sorted))
            e) in
    (
      map (tombstone_of d q.observed_at) (select missing sorted),
      grown,
      All-map (tombstone_of d q.observed_at) _ _ (
          All-imp _ _ (select missing sorted)
            (λ x (m : Unit {0} × (missing x ≡ true)). (
              refl,
              Pairwise-listed env d.revision_id x.recall_id received _ rows ∙ not-true _ m.1,
            ))
            (All-select (λ x. Unit {0}) missing sorted (All-true (λ x. tt) sorted))),
      In-All _ s.queue.source.current_records λ x i.
          elim (Bool-cases (has_recall x.recall_id received)) [
            | inl there ↦
                inl (Pairwise-listed env d.revision_id x.recall_id received _ rows ∙ there)
            | inr gone ↦ inr (
                In-map-select missing (tombstone_of d q.observed_at) x sorted
                  (In-sort_by _ x s.queue.source.current_records i) (rw gone))
          ],
    )
