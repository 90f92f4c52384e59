-- ===== src/Ingest/Projection.antt =====
-- A promotion's projection: the promoted records become current, row by row.
use agent_data_oracle.Base.{
  ℕ, ◌≡◌, inl, inr, refl, ap, sym, subst, ◌∙◌, true, false, some, List, [], ◌∷◌, select,
  select-append, All, ◌==◌, ==_iff, Unique, Bool-cases, select-In-Unique, ok, length,
}
use agent_data_oracle.Source.{Revision}
use agent_data_oracle.Ingest.{CpscRecord, IngestEnv, Ingest, ImportDraw, Version, RevisionRecord}
use agent_data_oracle.Ingest.Promotion.{
  insert_records, projection, promoted_records, promote_revision, finish_promotion,
}
use agent_data_oracle.Ingest.Importing.{Response, start_revision}
use agent_data_oracle.Ingest.Promoted.{promote_revision-Promoted}
use agent_data_oracle.Ingest.Consistency.{IsConsistent, has_revision, start_revision-eq-ok}
use agent_data_oracle.Ingest.Listing.{
  Pairwise, IsCurrentRow, Lists, NoCollision, insert_records-Listing, insert_records-Unique,
  ok-injective,
}

-- The join of the revision's rows with their versions.
Listing-projection :
    (env : IngestEnv) (revision : ℕ) (vs : List Version) (rs : List CpscRecord)
    (xs : List RevisionRecord)
    → Unique (λ (v : Version). v.version_id) vs
    → Pairwise (Lists env revision vs) rs xs
    → Pairwise (IsCurrentRow env revision) rs (projection revision xs vs)
unfolding projection
Listing-projection env revision vs [] [] unique p = tt
Listing-projection env revision vs [] (x ∷ xs) unique p = elim p [ ]
Listing-projection env revision vs (r ∷ rs) [] unique p = elim p [ ]
Listing-projection env revision vs (r ∷ rs) (x ∷ xs) unique
      ((same, v, inside, names, holds), rest) =
    let (a, b, c, e, f, stored) = holds in
    let passes : (x.revision_id == revision) ≡ true = (==_iff _ revision).1 same in
    let joined : select (λ (w : Version). w.version_id == x.version_id) vs ≡ v ∷ [] =
      subst (λ k. select (λ (w : Version). w.version_id == k) vs ≡ v ∷ []) (sym names)
        (select-In-Unique (λ (w : Version). w.version_id) v vs unique inside) in
    rw (passes, joined)
      ((a, same, b, c, e, f, stored), Listing-projection env revision vs rs xs unique rest)

fresh-rows :
    (i : ℕ) (revisions : List Revision) (xs : List RevisionRecord)
    → has_revision i revisions ≡ false
    → All (λ (x : RevisionRecord). has_revision x.revision_id revisions ≡ true) xs
    → select (λ (x : RevisionRecord). x.revision_id == i) xs ≡ []
fresh-rows i revisions [] new known = refl
fresh-rows i revisions (x ∷ xs) new known = elim (Bool-cases (x.revision_id == i)) [
  | inl e ↦ let same : x.revision_id ≡ i = (==_iff _ i).0 e in let here = rw same at known.0 in cc
  | inr e ↦ rw (e, fresh-rows i revisions xs new known.1)
]

-- A promotion that succeeds on a consistent source, right after its run has started, makes the
-- promoted records current: the received ones, in a daily refresh followed by those it keeps. Where
-- no stored version has a promoted record's recall and hash with other content, the current
-- records are the promoted ones, one for one and in order, with each record's columns and its
-- stored JSON, under the new revision, which is selected; and the count is theirs.
pub promote_revision-projects :
    (env : IngestEnv) (d : ImportDraw) (q : Response) (s t u : Ingest)
    (received records : List CpscRecord) (counts : ℕ × ℕ)
    → IsConsistent s
    → start_revision d q s ≡ ok t
    → promoted_records env q.refresh_mode received t.queue.source ≡ ok records
    → All (NoCollision env records) s.versions
    → promote_revision env q.refresh_mode d received q.observed_at t ≡ ok (counts, u)
    → Pairwise (IsCurrentRow env d.revision_id) records u.queue.source.current_records
      × (u.queue.source.current_revision ≡ some d.revision_id)
      × (counts.1 ≡ length records)
promote_revision-projects env d q s t u received records counts c start chosen safe h =
    let p = promote_revision-Promoted env q.refresh_mode d received q.observed_at t counts u h in
    let same : p.records ≡ records = ok-injective p.records records _ p.chosen chosen in
    let (_, new, e) = start_revision-eq-ok d q s t start in
    let inserted : insert_records env d q.observed_at 0 records t ≡ ok (counts.0, p.loaded) =
      subst (λ rs. insert_records env d q.observed_at 0 rs t ≡ ok (counts.0, p.loaded)) same
        p.inserted in
    let versions : t.versions ≡ s.versions = ap (λ (w : Ingest). w.versions) e in
    let rows : t.revision_records ≡ s.revision_records =
      ap (λ (w : Ingest). w.revision_records) e in
    let unique : Unique (λ (v : Version). v.version_id) t.versions =
      rw versions c.versions_unique in
    let (xs, listed, pairs) =
      insert_records-Listing env d q.observed_at 0 records t counts.0 p.loaded unique
        (rw versions safe) inserted in
    let unique' =
      insert_records-Unique env d q.observed_at 0 records t counts.0 p.loaded unique inserted in
    let projected =
      Listing-projection env d.revision_id p.loaded.versions records xs unique' pairs in
    let table : u.queue.source.current_records ≡ projection d.revision_id xs p.loaded.versions =
      ap (λ (w : Ingest). w.queue.source.current_records) p.finished
      ∙ unfold finish_promotion projection in
        rw (
          listed,
          rows,
          select-append,
          fresh-rows d.revision_id s.queue.source.revisions s.revision_records new c.rows_known,
        ) in
    let selected : u.queue.source.current_revision ≡ some d.revision_id =
      ap (λ (w : Ingest). w.queue.source.current_revision) p.finished
      ∙ unfold finish_promotion in refl in
    (rw table projected, selected, p.counted ∙ ap (λ rs. length rs) same)
