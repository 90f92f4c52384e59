-- ===== src/Ingest/Listing.antt =====
-- The loop of a promotion lists its records, each with a version that holds it.
use agent_data_oracle.Base.{
  ℕ, suc, ◌≡◌, ◌⊎◌, inl, inr, refl, ap, subst, ◌∙◌, true, false, some, List, [], ◌∷◌, ◌++◌, arith,
  All, All-imp, All-append, ==_refl, Unique, In, In-append-left, In-append-last, any-In, Bool-cases,
  All-In, select-In, Result, ok,
}
use mathlib.Core.List.{append-nil, append_assoc}
use agent_data_oracle.Base.Int.{ℤ, eq_ℤ}
use agent_data_oracle.Source.{CurrentRecord}
use agent_data_oracle.Ingest.{
  CpscRecord, IngestEnv, IngestError, Ingest, ImportDraw, Version, RevisionRecord,
}
use agent_data_oracle.Ingest.Promotion.{same_version, new_version, lists_recall, insert_records}
use agent_data_oracle.Ingest.Promoted.{
  Recorded, reuses, inserts, row_of, insert_record-eq-ok, insert_records-Round,
}
use agent_data_oracle.Ingest.Loading.{Recorded-frame}

-- A version holds the record.
abbrev pub IsVersionOf : IngestEnv → CpscRecord → Version → Type 0
IsVersionOf env r v =
    (v.recall_id ≡ r.recall_id)
    × (v.recall_number ≡ r.recall_number)
    × (v.recall_date_literal ≡ r.recall_date_literal)
    × (v.last_publish_date_literal ≡ r.last_publish_date_literal)
    × (v.official_url ≡ r.official_url)
    × (env.stored r ≡ some v.raw_record)

-- No collision of digests: a version of the record's recall and hash holds the record.
abbrev pub NoCollision : IngestEnv → List CpscRecord → Version → Type 0
NoCollision env records v = All (λ r. (same_version r v ≡ false) ⊎ IsVersionOf env r v) records

-- The row at which the record becomes current.
abbrev pub IsCurrentRow : IngestEnv → ℕ → CpscRecord → CurrentRecord → Type 0
IsCurrentRow env revision r c =
    (c.recall_id ≡ r.recall_id)
    × (c.revision_id ≡ revision)
    × (c.recall_number ≡ r.recall_number)
    × (c.recall_date_literal ≡ r.recall_date_literal)
    × (c.last_publish_date_literal ≡ r.last_publish_date_literal)
    × (c.official_url ≡ r.official_url)
    × (env.stored r ≡ some c.normalized_record)

-- Two lists of the same length, related element by element.
module _ {A B : Type 0} where
  abbrev pub Pairwise : (A → B → Type 0) → List A → List B → Type 0
  Pairwise R [] [] = Unit
  Pairwise R (a ∷ as') (b ∷ bs) = R a b × Pairwise R as' bs
  Pairwise R _ _ = ⊥

-- A revision's row names a version that holds the record.
abbrev pub Lists : IngestEnv → ℕ → List Version → CpscRecord → RevisionRecord → Type 0
Lists env revision vs r x =
    (x.revision_id ≡ revision)
    × (v : Version) × In v vs
    × (x.version_id ≡ v.version_id)
    × IsVersionOf env r v

eq_ℤ_sound : (a b : ℤ) → eq_ℤ a b ≡ true → a ≡ b
eq_ℤ_sound a b h = ground arith

-- The version that a round records holds the round's record.
Recorded-Lists :
    (env : IngestEnv) (i : ℕ) (r : CpscRecord) (observed_at : ℕ) (s : Ingest) (version : ℕ)
    (t : Ingest)
    → Recorded env i r observed_at s version t
    → All (λ v. (same_version r v ≡ false) ⊎ IsVersionOf env r v) s.versions
    → (v : Version) × In v t.versions × (version ≡ v.version_id) × IsVersionOf env r v
Recorded-Lists env i r observed_at s version t (reuses raw v vs _ found same e) safe =
    let (there, passes) = select-In (same_version r) v vs s.versions found in
    let holds : IsVersionOf env r v =
      elim (All-In (λ v. (same_version r v ≡ false) ⊎ IsVersionOf env r v) v s.versions safe
        there) [ inl differs ↦ absurd (ground arith) | inr h ↦ h ] in
    (v, rw e there, same, holds)
Recorded-Lists env i r observed_at s version t (inserts raw stored _ same e) safe = (
  new_version i r raw,
  rw e (In-append-last (new_version i r raw) s.versions),
  same,
  (refl, refl, refl, refl, refl, stored),
)

-- The loop only adds versions.
Recorded-grows :
    (env : IngestEnv) (i : ℕ) (r : CpscRecord) (observed_at : ℕ) (s : Ingest) (version : ℕ)
    (t : Ingest) (v : Version)
    → Recorded env i r observed_at s version t
    → In v s.versions
    → In v t.versions
Recorded-grows env i r observed_at s version t v (reuses _ _ _ _ _ _ e) h = rw e h
Recorded-grows env i r observed_at s version t v (inserts raw _ _ _ e) h =
    rw e (In-append-left v s.versions (new_version i r raw ∷ []) h)

insert_records-grows :
    (env : IngestEnv) (d : ImportDraw) (observed_at position : ℕ) (rs : List CpscRecord)
    (s : Ingest) (count : ℕ) (u : Ingest) (v : Version)
    → insert_records env d observed_at position rs s ≡ ok (count, u)
    → In v s.versions
    → In v u.versions
unfolding insert_records
insert_records-grows env d observed_at position [] s count u v h i =
    let same : s ≡ u = ground arith in subst (λ (w : Ingest). In v w.versions) same i
insert_records-grows env d observed_at position (r ∷ rs) s count u v h i =
    let x = insert_records-Round env d observed_at position r rs s count u h in
    let (_, _, versions, _, _, _, _) =
      insert_record-eq-ok d position r x.version observed_at x.with_version x.with_row x.listed in
    insert_records-grows env d observed_at (suc position) rs x.with_row x.later u v x.rest (
      rw versions (
        Recorded-grows env (d.version_id position) r observed_at s x.version x.with_version v
          x.recorded i))

-- A recall that the revision lists already is not one of those that follow.
unlisted-apart :
    (env : IngestEnv) (d : ImportDraw) (observed_at position : ℕ) (rs : List CpscRecord)
    (s : Ingest) (count : ℕ) (u : Ingest) (x : RevisionRecord)
    → Unique (λ (v : Version). v.version_id) s.versions
    → insert_records env d observed_at position rs s ≡ ok (count, u)
    → In x s.revision_records
    → x.revision_id ≡ d.revision_id
    → All (λ r. eq_ℤ x.recall_id r.recall_id ≡ false) rs
unlisted-apart env d observed_at position [] s count u x unique h there same = tt
unlisted-apart env d observed_at position (r ∷ rs) s count u x unique h there same =
    let y = insert_records-Round env d observed_at position r rs s count u h in
    let (_, rows, unique') =
      Recorded-frame env (d.version_id position) r observed_at s y.version y.with_version y.recorded
        unique in
    let (free, grown, versions, _, _, _, _) =
      insert_record-eq-ok d position r y.version observed_at y.with_version y.with_row y.listed in
    let head : eq_ℤ x.recall_id r.recall_id ≡ false =
      elim (Bool-cases (eq_ℤ x.recall_id r.recall_id)) [
        | inl e ↦
            let found =
              any-In (lists_recall d.revision_id r.recall_id) x s.revision_records there
                (rw (same, ==_refl) e) in
            let free' = rw rows at free in cc
        | inr e ↦ e
      ] in
    (
      head,
      unlisted-apart env d observed_at (suc position) rs y.with_row y.later u x
          (rw versions unique') y.rest
          (rw (grown, rows) (In-append-left x s.revision_records _ there)) same,
    )

-- The versions of a round collide with no later record, since those have other recalls.
Recorded-NoCollision :
    (env : IngestEnv) (i : ℕ) (r : CpscRecord) (rs : List CpscRecord) (observed_at : ℕ) (s : Ingest)
    (version : ℕ) (t : Ingest)
    → Recorded env i r observed_at s version t
    → All (NoCollision env (r ∷ rs)) s.versions
    → All (λ q. eq_ℤ r.recall_id q.recall_id ≡ false) rs
    → All (NoCollision env rs) t.versions
Recorded-NoCollision env i r rs observed_at s version t (reuses raw _ _ _ _ _ e) safe apart =
    rw e (All-imp (NoCollision env (r ∷ rs)) (NoCollision env rs) s.versions (λ v h. h.1) safe)
Recorded-NoCollision env i r rs observed_at s version t (inserts raw _ _ _ e) safe apart = rw e (
    All-append (NoCollision env rs) s.versions (new_version i r raw ∷ [])
      (All-imp (NoCollision env (r ∷ rs)) (NoCollision env rs) s.versions (λ v h. h.1) safe)
      (
        All-imp (λ q. eq_ℤ r.recall_id q.recall_id ≡ false)
            (λ q.
              (same_version q (new_version i r raw) ≡ false)
              ⊎ IsVersionOf env q (new_version i r raw))
            rs (λ q f. inl (rw f)) apart,
        tt,
      ))

abbrev pub Listing : IngestEnv → ImportDraw → List CpscRecord → Ingest → Ingest → Type 0
Listing env d rs s u =
    (xs : List RevisionRecord) × (u.revision_records ≡ s.revision_records ++ xs)
    × Pairwise (Lists env d.revision_id u.versions) rs xs

pub insert_records-Listing :
    (env : IngestEnv) (d : ImportDraw) (observed_at position : ℕ) (rs : List CpscRecord)
    (s : Ingest) (count : ℕ) (u : Ingest)
    → Unique (λ (v : Version). v.version_id) s.versions
    → All (NoCollision env rs) s.versions
    → insert_records env d observed_at position rs s ≡ ok (count, u)
    → Listing env d rs s u
unfolding insert_records
insert_records-Listing env d observed_at position [] s count u unique safe h =
    let same : s ≡ u = ground arith in ([], rw (same, append-nil), tt)
insert_records-Listing env d observed_at position (r ∷ rs) s count u unique safe h =
    let y = insert_records-Round env d observed_at position r rs s count u h in
    let (_, rows, unique') =
      Recorded-frame env (d.version_id position) r observed_at s y.version y.with_version y.recorded
        unique in
    let (_, grown, versions, _, _, _, _) =
      insert_record-eq-ok d position r y.version observed_at y.with_version y.with_row y.listed in
    let x = row_of d position r y.version in
    let unique'' : Unique (λ (v : Version). v.version_id) y.with_row.versions =
      rw versions unique' in
    let there : In x y.with_row.revision_records = rw grown (In-append-last x _) in
    let apart =
      unlisted-apart env d observed_at (suc position) rs y.with_row y.later u x unique'' y.rest
        there refl in
    let safe' =
      Recorded-NoCollision env (d.version_id position) r rs observed_at s y.version y.with_version
        y.recorded safe apart in
    let (v, inside, same, holds) =
      Recorded-Lists env (d.version_id position) r observed_at s y.version y.with_version y.recorded
        (All-imp (NoCollision env (r ∷ rs)) _ s.versions (λ v c. c.0) safe) in
    let (xs, listed, pairs) =
      insert_records-Listing env d observed_at (suc position) rs y.with_row y.later u unique''
        (rw versions safe') y.rest in
    let kept =
      insert_records-grows env d observed_at (suc position) rs y.with_row y.later u v y.rest
        (rw versions inside) in
    (
      x ∷ xs,
      listed
          ∙ ap (λ (ys : List RevisionRecord). ys ++ xs)
              (grown ∙ ap (λ (ys : List RevisionRecord). ys ++ x ∷ []) rows)
          ∙ append_assoc s.revision_records (x ∷ []) xs,
      ((refl, v, kept, same, holds), pairs),
    )

pub insert_records-Unique :
    (env : IngestEnv) (d : ImportDraw) (observed_at position : ℕ) (rs : List CpscRecord)
    (s : Ingest) (count : ℕ) (u : Ingest)
    → Unique (λ (v : Version). v.version_id) s.versions
    → insert_records env d observed_at position rs s ≡ ok (count, u)
    → Unique (λ (v : Version). v.version_id) u.versions
unfolding insert_records
insert_records-Unique env d observed_at position [] s count u unique h =
    let same : s ≡ u = ground arith in
    subst (λ (w : Ingest). Unique (λ (v : Version). v.version_id) w.versions) same unique
insert_records-Unique env d observed_at position (r ∷ rs) s count u unique h =
    let y = insert_records-Round env d observed_at position r rs s count u h in
    let (_, _, unique') =
      Recorded-frame env (d.version_id position) r observed_at s y.version y.with_version y.recorded
        unique in
    let (_, _, versions, _, _, _, _) =
      insert_record-eq-ok d position r y.version observed_at y.with_version y.with_row y.listed in
    insert_records-Unique env d observed_at (suc position) rs y.with_row y.later u
      (rw versions unique') y.rest

pub ok-injective : {A : Type 0} (a b : A) (m : Result IngestError A) → m ≡ ok a → m ≡ ok b → a ≡ b
ok-injective a b m h k = cc
