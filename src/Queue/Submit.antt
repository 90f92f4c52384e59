-- ===== src/Queue/Submit.antt =====
-- `EvidenceQueues._submit_evaluation`: one transaction that replays or creates an evaluation.
use agent_data_oracle.Base.{
  ℕ, suc, ◌+◌, Text, text_eq, Bool, true, false, not, ◌&&◌, ◌||◌, any, ltb, leb, ◌==◌, Option, none,
  some, List, [], ◌∷◌, ◌++◌, map, length, select, one_or_none, if◌then◌else◌, Result, ok, err,
  ◌>>=◌, ◌>>◌, raise_if, or_raise, transaction,
}
use agent_data_oracle.Json
use agent_data_oracle.Json.{Json, Fields, get, as_object}
use agent_data_oracle.Base.{codes}
use agent_data_oracle.Identifier.{CandidateClass, SubmittedIdentifier}
use agent_data_oracle.Identifier.Matching.{RecordMatch, match_cpsc_record, source_constraints}
use agent_data_oracle.Source.{SourceRecord, source_observed_at, source_revision_id, source_records}
use agent_data_oracle.Queue.{
  submission_hash, Env, Queue, Evaluation, Input, EvidenceRow, Refresh, QueueError,
  submission_error, idempotency_conflict, source_unavailable, globally_paused, multiple_results,
  integrity_error, hours, normalization_version, matcher_version, founder_audit_queue_limit,
}
use agent_data_oracle.Queue.Comparison.{Key, Candidate, Candidates, from_pairs, delta}

pub record Request : Type 0 where
  pub operator_id : ℕ
  pub idempotency_key : Text
  pub identifiers : List SubmittedIdentifier
  pub refresh_from : Option ℕ
  pub counts_toward_audit_gate : Option Bool

-- The clock, the identifiers drawn at random, and the setting of the object.
pub record Draw : Type 0 where
  pub evaluated_at : ℕ
  pub evaluation_id : ℕ
  pub row_id : ℕ → ℕ
  pub default_counts : Bool

-- `RefreshResult`
pub record Submitted : Type 0 where
  pub evaluation_id : ℕ
  pub evaluated_at : ℕ
  pub created : Bool

-- An input position, a record of the source with its object, and the bases of the match.
pub record CandidateRow : Type 0 where
  pub input_position : ℕ
  pub source_record : SourceRecord
  pub raw_record : Fields
  pub match_bases : List RecordMatch

-- The inner loop over the source records, for one identifier.
unfoldable pub match_records :
    Env → ℕ → SubmittedIdentifier → List SourceRecord → Result QueueError (List CandidateRow)
match_records env i identifier [] = ok []
match_records env i identifier (r ∷ rs) =
    let rest = match_records env i identifier rs in
    do
      raw ← or_raise source_unavailable (as_object r.normalized_record)
      found ← rest
      let bases = match_cpsc_record env.unicode env.patterns identifier raw
      ok (
          if length bases == 0
          then found
          else record {
            input_position = i;
            source_record = r;
            raw_record = raw;
            match_bases = bases;
          }
            ∷ found)

-- The outer loop over the identifiers.
unfoldable pub candidate_rows :
    Env → ℕ → List SubmittedIdentifier → List SourceRecord → Result QueueError (List CandidateRow)
candidate_rows env i [] records = ok []
candidate_rows env i (identifier ∷ identifiers) records =
    let rest = candidate_rows env (suc i) identifiers records in
    do found ← match_records env i identifier records; more ← rest; ok (found ++ more)

-- `min(…)` over the classes of the bases: exact if any basis is.
unfoldable pub strongest : List RecordMatch → CandidateClass
strongest [] = CandidateClass.possible_identifier
strongest (m ∷ ms) =
    let rest = strongest ms in
    elim m.candidate_class [
      | CandidateClass.exact_identifier ↦ CandidateClass.exact_identifier
      | CandidateClass.possible_identifier ↦ rest
    ]

-- `record.get("Products", [])`
products_of : Fields → Json
products_of Json.end = Json.array Json.nil
products_of (Json.field j v fs) = if text_eq j (codes "Products") then v else products_of fs

unfoldable pub evidence_row : Env → Draw → ℕ → CandidateRow → ℕ → EvidenceRow
unfolding strongest products_of
evidence_row env d n c completed_at = record {
  evidence_row_id = d.row_id n;
  evaluation_id = d.evaluation_id;
  input_position = c.input_position;
  recall_id = c.source_record.recall_id;
  candidate_class = strongest c.match_bases;
  match_bases = c.match_bases;
  description = get (codes "Description") c.raw_record;
  products = products_of c.raw_record;
  title = get (codes "Title") c.raw_record;
  constraints = source_constraints env.patterns c.raw_record;
  recall_number = c.source_record.recall_number;
  official_url = c.source_record.official_url;
  recall_date_literal = c.source_record.recall_date_literal;
  last_publish_date_literal = c.source_record.last_publish_date_literal;
  source_observed_at = c.source_record.observed_at;
  source_revision_completed_at = completed_at;
}

-- The rows that are inserted, in the order of the loop; a record without its completion time
-- raises.
unfoldable pub evidence_rows :
    Env → Draw → ℕ → List CandidateRow → Result QueueError (List EvidenceRow)
unfolding evidence_row
evidence_rows env d n [] = ok []
evidence_rows env d n (c ∷ cs) =
    let rest = evidence_rows env d (suc n) cs in
    do
      completed_at ← or_raise source_unavailable c.source_record.completed_at
      rows ← rest
      ok (evidence_row env d n c completed_at ∷ rows)

unfoldable pub input_rows : ℕ → ℕ → List SubmittedIdentifier → List Input
input_rows evaluation_id n [] = []
input_rows evaluation_id n (i ∷ is') =
    record { evaluation_id = evaluation_id; row_position = n; identifier = i }
    ∷ input_rows evaluation_id (suc n) is'

abbrev prior_pair : EvidenceRow → Key × Candidate
prior_pair r = (
  record { input_position = r.input_position; recall_number = r.recall_number },
  record {
    candidate_class = r.candidate_class;
    constraints = r.constraints;
    match_bases = r.match_bases;
  },
)

abbrev successor_pair : Env → CandidateRow → Key × Candidate
unfolding strongest
successor_pair env c = (
  record { input_position = c.input_position; recall_number = c.source_record.recall_number },
  record {
    candidate_class = strongest c.match_bases;
    constraints = source_constraints env.patterns c.raw_record;
    match_bases = c.match_bases;
  },
)

-- The candidates of the evaluation that is refreshed, and of its successor.
unfoldable pub prior_candidates : ℕ → Queue → Candidates
unfolding from_pairs
prior_candidates i s = from_pairs [] (map prior_pair (select (λ r. r.evaluation_id == i) s.rows))

unfoldable pub successor_candidates : Env → List CandidateRow → Candidates
unfolding from_pairs strongest
successor_candidates env cs = from_pairs [] (map (successor_pair env) cs)

-- `UPDATE audit_gate_state … RETURNING`, or the count plus one where the evaluation is not counted:
-- the stored count, and the queue number.
abbrev pub gate : Bool → ℕ → ℕ × ℕ
gate counts n = (if counts then n + 1 else n, n + 1)

abbrev pub counts : Request → Draw → Bool
counts q d = elim q.counts_toward_audit_gate [ none ↦ d.default_counts | some b ↦ b ]

-- `bool(candidate_rows) and queue_number <= FOUNDER_AUDIT_QUEUE_LIMIT`
abbrev pub is_held : List CandidateRow → ℕ → Bool
is_held cs queue_number = not (length cs == 0) && leb queue_number founder_audit_queue_limit

-- The previous evaluation of the same operator and token.
abbrev pub same_token : Request → Evaluation → Bool
same_token q e = e.operator_id == q.operator_id && text_eq e.idempotency_key q.idempotency_key

-- The replay of a token, or the conflict.
abbrev pub replay : Env → Request → Evaluation → Result QueueError Submitted
replay env q e =
    if text_eq e.submission_hash (submission_hash env q.identifiers)
    then ok
        (record { evaluation_id = e.evaluation_id; evaluated_at = e.evaluated_at; created = false })
    else err idempotency_conflict

-- The guards of new work: the pause, then the age of the source.
unfoldable pub usable_revision : Draw → Queue → Result QueueError ℕ
usable_revision d s = do
  raise_if s.pause.is_paused globally_paused
  observed_at ← or_raise source_unavailable (source_observed_at s.source)
  raise_if (ltb (observed_at + hours 48) d.evaluated_at) source_unavailable
  or_raise source_unavailable (source_revision_id s.source)

abbrev pub new_evaluation : Env → Request → Draw → ℕ → List CandidateRow → ℕ → Evaluation
new_evaluation env q d revision cs queue_number = record {
  evaluation_id = d.evaluation_id;
  operator_id = q.operator_id;
  source_revision_id = revision;
  evaluated_at = d.evaluated_at;
  normalization_version = normalization_version;
  matcher_version = matcher_version;
  has_candidates = not (length cs == 0);
  released_at = if is_held cs queue_number then none else some d.evaluated_at;
  idempotency_key = q.idempotency_key;
  submission_hash = submission_hash env q.identifiers;
}

unfoldable pub link : Env → Request → Draw → Queue → List CandidateRow → List Refresh
unfolding prior_candidates successor_candidates delta
link env q d s cs = elim q.refresh_from [
  | none ↦ []
  | some i ↦
      record {
        successor_id = d.evaluation_id;
        predecessor_id = i;
        delta = delta (prior_candidates i s) (successor_candidates env cs);
      }
      ∷ []
]

-- The writes of a new evaluation.
unfoldable pub insert_evaluation :
    Env → Request → Draw → ℕ → List CandidateRow → List EvidenceRow → Queue → Queue
unfolding input_rows prior_candidates successor_candidates delta
insert_evaluation env q d revision cs rows s =
    let (stored, queue_number) = gate (counts q d) s.committed_queue_count in
    record s {
      committed_queue_count = stored;
      evaluations = s.evaluations ++ new_evaluation env q d revision cs queue_number ∷ [];
      inputs = s.inputs ++ input_rows d.evaluation_id 0 q.identifiers;
      rows = s.rows ++ rows;
      refreshes = s.refreshes ++ link env q d s cs;
    }

-- The primary key of `evidence_evaluations`.
abbrev pub id_is_taken : Draw → Queue → Bool
id_is_taken d s = any (λ (e : Evaluation). e.evaluation_id == d.evaluation_id) s.evaluations

-- The constraints on the link of a refresh: its predecessor exists, and has no link yet.
abbrev pub link_is_refused : Option ℕ → Queue → Bool
link_is_refused none s = false
link_is_refused (some i) s =
    not (any (λ (e : Evaluation). e.evaluation_id == i) s.evaluations)
    || any (λ (r : Refresh). r.predecessor_id == i) s.refreshes

-- New work: what follows when the token is unused.
unfoldable pub create : Env → Request → Draw → Queue → Result QueueError (Submitted × Queue)
create env q d s = do
  revision ← usable_revision d s
  cs ← candidate_rows env 0 q.identifiers (source_records revision s.source)
  raise_if (id_is_taken d s) integrity_error
  rows ← evidence_rows env d 0 cs
  raise_if (link_is_refused q.refresh_from s) integrity_error
  ok (
    record { evaluation_id = d.evaluation_id; evaluated_at = d.evaluated_at; created = true },
    insert_evaluation env q d revision cs rows s,
  )

abbrev pub token_is_valid : Text → Bool
token_is_valid t = leb 16 (length t) && leb (length t) 128

-- What follows the look-up of the token.
unfoldable pub replay_or_create :
    Env → Request → Draw → Queue → Option Evaluation → Result QueueError (Submitted × Queue)
replay_or_create env q d s (some e) = do r ← replay env q e; ok (r, s)
replay_or_create env q d s none = create env q d s

unfoldable pub submit_body : Env → Request → Draw → Queue → Result QueueError (Submitted × Queue)
unfolding replay_or_create
submit_body env q d s = do
  raise_if (not (token_is_valid q.idempotency_key)) submission_error
  previous ← one_or_none multiple_results (select (same_token q) s.evaluations)
  replay_or_create env q d s previous

-- `_submit_evaluation`
unfoldable pub submit : Env → Request → Draw → Queue → Result QueueError Submitted × Queue
submit env q d s = transaction (submit_body env q d) s
