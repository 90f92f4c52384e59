-- ===== src/Ingest/Promotion.antt =====
-- `_record_version` and `_promote_revision`: the statements that make a revision the current one.
use agent_data_oracle.Base.{
  ℕ, suc, text_eq, Bool, true, false, not, ◌&&◌, ◌==◌, none, some, List, [], ◌∷◌, ◌++◌, length, map,
  any, select, flat_map, sort_by, update_where, if◌then◌else◌, Result, ok, ◌>>=◌, ◌>>◌, raise_if,
  or_raise,
}
use agent_data_oracle.Base.Int.{ℤ, eq_ℤ, leb_ℤ}
use agent_data_oracle.Json.{Json, Items, nil, cons}
use agent_data_oracle.Source.{
  RefreshMode, completed, complete, Run, Revision, CurrentRecord, SourceTables,
}
use agent_data_oracle.Ingest.{
  CpscRecord, IngestEnv, IngestError, sql_error, Recall, Version, RevisionRecord, Tombstone, Ingest,
  ImportDraw,
}
use agent_data_oracle.Ingest.Records.{parse_source_records}

abbrev pub has_recall : ℤ → List CpscRecord → Bool
has_recall i rs = any (λ r. eq_ℤ r.recall_id i) rs

-- An array of the values, and its elements.
unfoldable pub items_of : List Json → Items
items_of [] = nil
items_of (v ∷ vs) = cons v (items_of vs)

-- `ORDER BY recall_id`
unfoldable pub ordered_current : SourceTables → List CurrentRecord
ordered_current s = sort_by (λ a b. leb_ℤ a.recall_id b.recall_id) s.current_records

-- The rows that a daily response does not return.
unfoldable pub retained_raw_records : List CpscRecord → SourceTables → List Json
unfolding ordered_current
retained_raw_records records s =
    map (λ (c : CurrentRecord). c.normalized_record)
      (select (λ c. not (has_recall c.recall_id records)) (ordered_current s))

-- `if retained_raw_records:`
unfoldable pub retained_records : IngestEnv → List Json → Result IngestError (List CpscRecord)
retained_records env [] = ok []
retained_records env (v ∷ vs) = parse_source_records env (env.dumps (items_of (v ∷ vs))) none

-- The records that a promotion inserts: a daily response keeps the rows that it does not return.
unfoldable pub promoted_records :
    IngestEnv → RefreshMode → List CpscRecord → SourceTables → Result IngestError (List CpscRecord)
unfolding retained_raw_records
promoted_records env RefreshMode.daily records s = do
  retained ← retained_records env (retained_raw_records records s)
  ok (records ++ retained)
promoted_records env _ records s = ok records

abbrev pub same_version : CpscRecord → Version → Bool
same_version r v = eq_ℤ v.recall_id r.recall_id && text_eq v.content_hash r.content_hash

abbrev pub new_version : ℕ → CpscRecord → Json → Version
new_version i r raw = record {
  version_id = i;
  recall_id = r.recall_id;
  content_hash = r.content_hash;
  raw_record = raw;
  recall_number = r.recall_number;
  recall_date_literal = r.recall_date_literal;
  last_publish_date_literal = r.last_publish_date_literal;
  official_url = r.official_url;
}

-- `INSERT INTO cpsc_recalls … ON CONFLICT DO NOTHING`
abbrev pub with_recall : CpscRecord → ℕ → List Recall → List Recall
with_recall r observed_at recalls =
    if any (λ (c : Recall). eq_ℤ c.recall_id r.recall_id) recalls
    then recalls
    else recalls ++ record { recall_id = r.recall_id; first_observed_at = observed_at } ∷ []

-- The insertion's outcome, from the versions that it conflicts with: the first of them is read back.
unfoldable pub insert_version :
    ℕ → CpscRecord → Json → List Version → Ingest → Result IngestError (ℕ × Bool × Ingest)
insert_version i r raw (v ∷ _) s = ok (v.version_id, true, s)
insert_version i r raw [] s = do
  raise_if (any (λ v. v.version_id == i) s.versions) sql_error
  ok (i, false, record s { versions = s.versions ++ new_version i r raw ∷ [] })

-- `_record_version`
unfoldable pub record_version :
    IngestEnv → ℕ → CpscRecord → ℕ → Ingest → Result IngestError (ℕ × Bool × Ingest)
unfolding insert_version
record_version env i r observed_at s = do
  raw ← or_raise sql_error (env.stored r)
  insert_version i r raw (select (same_version r) s.versions)
      (record s { recalls = with_recall r observed_at s.recalls })

abbrev pub lists_recall : ℕ → ℤ → RevisionRecord → Bool
lists_recall revision recall x = x.revision_id == revision && eq_ℤ x.recall_id recall

-- The two insertions for the record at a position, whose recall the revision may not list yet.
unfoldable pub insert_record :
    ImportDraw → ℕ → CpscRecord → ℕ → ℕ → Ingest → Result IngestError Ingest
insert_record d position r version observed_at s = do
  raise_if (any (lists_recall d.revision_id r.recall_id) s.revision_records) sql_error
  ok (record s {
    revision_records =
        s.revision_records
        ++ record {
          revision_id = d.revision_id;
          recall_id = r.recall_id;
          version_id = version;
          source_position = position;
        }
          ∷ [];
    queue = record s.queue {
      source = record s.queue.source {
        observations =
            s.queue.source.observations
            ++ record {
              revision_id = d.revision_id;
              recall_id = r.recall_id;
              observed_at = observed_at;
            }
              ∷ [];
      };
    };
  })

abbrev pub count_if : Bool → ℕ → ℕ
count_if true n = suc n
count_if false n = n

-- The loop over the records, from a position on: how many versions were reused, and the tables.
unfoldable pub insert_records :
    IngestEnv → ImportDraw → ℕ → ℕ → List CpscRecord → Ingest → Result IngestError (ℕ × Ingest)
insert_records env d observed_at position [] s = ok (0, s)
insert_records env d observed_at position (r ∷ rs) s = do
  (version, reused, t) ← record_version env (d.version_id position) r observed_at s
  u ← insert_record d position r version observed_at t
  (count, v) ← insert_records env d observed_at (suc position) rs u
  ok (count_if reused count, v)

-- The tombstones of a full promotion.
unfoldable pub tombstones_of :
    RefreshMode → ImportDraw → List CpscRecord → ℕ → SourceTables → List Tombstone
unfolding ordered_current
tombstones_of RefreshMode.full d records observed_at s =
    map
      (λ (c : CurrentRecord). record {
        revision_id = d.revision_id;
        recall_id = c.recall_id;
        last_seen_revision_id = c.revision_id;
        recorded_at = observed_at;
      })
      (select (λ c. not (has_recall c.recall_id records)) (ordered_current s))
tombstones_of _ d records observed_at s = []

abbrev pub projected_row : RevisionRecord → Version → CurrentRecord
projected_row x v = record {
  recall_id = v.recall_id;
  revision_id = x.revision_id;
  recall_number = v.recall_number;
  recall_date_literal = v.recall_date_literal;
  last_publish_date_literal = v.last_publish_date_literal;
  official_url = v.official_url;
  normalized_record = v.raw_record;
}

-- The rows of a revision, each joined with its version.
unfoldable pub projection : ℕ → List RevisionRecord → List Version → List CurrentRecord
projection revision xs vs =
    flat_map (λ x. map (projected_row x) (select (λ v. v.version_id == x.version_id) vs))
      (select (λ x. x.revision_id == revision) xs)

abbrev pub complete_revision : ImportDraw → ℕ → Revision → Revision
complete_revision d n r = record r {
  state = completed;
  completeness = complete;
  record_count = n;
  completed_at = some d.completed_at;
}

-- The statements that follow the loop.
unfoldable pub finish_promotion : RefreshMode → ImportDraw → List CpscRecord → ℕ → Ingest → Ingest
unfolding tombstones_of projection
finish_promotion mode d records observed_at s = record s {
  tombstones = s.tombstones ++ tombstones_of mode d records observed_at s.queue.source;
  refresh_state = record s.refresh_state {
    last_successful_observed_at = some observed_at;
    last_failure_kind = none;
  };
  queue = record s.queue {
    source = record s.queue.source {
      revisions =
          update_where (λ r. r.revision_id == d.revision_id) (complete_revision d (length records))
            s.queue.source.revisions;
      current_revision = some d.revision_id;
      current_records = projection d.revision_id s.revision_records s.versions;
      runs =
          update_where (λ (r : Run). r.run_id == d.run_id)
            (λ r. record r { state = completed; record_count = length records })
            s.queue.source.runs;
    };
  };
}

-- `_promote_revision`: the numbers of reused versions and of records.
unfoldable pub promote_revision :
    IngestEnv
    → RefreshMode
    → ImportDraw
    → List CpscRecord
    → ℕ
    → Ingest
    → Result IngestError ((ℕ × ℕ) × Ingest)
promote_revision env mode d received observed_at s = do
  records ← promoted_records env mode received s.queue.source
  (reused, t) ← insert_records env d observed_at 0 records s
  ok ((reused, length records), finish_promotion mode d records observed_at t)
