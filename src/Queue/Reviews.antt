-- ===== src/Queue/Reviews.antt =====
-- The reports of agents, the acknowledgements of humans and the record of retrievals, each appended
-- for a released evaluation of the operator.
use agent_data_oracle.Base.{
  ℕ, Text, Bool, false, not, ◌&&◌, ◌==◌, leb, ltb, ◌||◌, Option, none, some, List, [], ◌∷◌, ◌++◌,
  map, any, select, is_some, first, sort_by, one_or_none, flat_map, if◌then◌else◌, Result, ok,
  ◌>>=◌, transaction,
}
use agent_data_oracle.Queue.{
  Queue, QueueError, multiple_results, ReviewOutcome, Acknowledgement, Report, EvidenceRow,
  released_to,
}

-- `record_agent_review`: what is reported, or `none`.
unfoldable pub record_agent_review :
    ℕ → ℕ → ℕ → ReviewOutcome → ℕ → Queue → Option (ReviewOutcome × ℕ) × Queue
unfolding released_to
record_agent_review operator agent_key i outcome now s =
    if any (released_to s operator i) s.evaluations
    then (
      some (outcome, now),
      record s {
        reports =
            s.reports
            ++ record {
              evaluation_id = i;
              operator_id = operator;
              agent_key_id = agent_key;
              outcome = outcome;
              reported_at = now;
            }
              ∷ [];
      },
    )
    else (none, s)

-- `supersedes_acknowledgement_id = …` of a stored acknowledgement.
abbrev pub supersedes_it : ℕ → Acknowledgement → Bool
supersedes_it i a = elim a.supersedes [ none ↦ false | some j ↦ j == i ]

-- `NOT EXISTS (SELECT 1 … AS superseding …)`
abbrev pub is_current : List Acknowledgement → Acknowledgement → Bool
is_current all_acks a = not (any (supersedes_it a.acknowledgement_id) all_acks)

abbrev pub acknowledges : ℕ → ℕ → Acknowledgement → Bool
acknowledges operator i a = a.evaluation_id == i && a.operator_id == operator

-- The acknowledgements of the evaluation that no other supersedes.
unfoldable pub current_acknowledgements : ℕ → ℕ → List Acknowledgement → List Acknowledgement
current_acknowledgements operator i acks =
    select (λ a. acknowledges operator i a && is_current acks a) acks

-- `record_human_acknowledgement`; the new acknowledgement supersedes the current one.
unfoldable pub record_human_acknowledgement :
    ℕ → ℕ → ReviewOutcome → ℕ → ℕ → Queue → Option (ReviewOutcome × ℕ) × Queue
unfolding released_to current_acknowledgements
record_human_acknowledgement operator i outcome now ack_id s =
    if any (released_to s operator i) s.evaluations
    then (
      some (outcome, now),
      record s {
        acknowledgements =
            s.acknowledgements
            ++ record {
              acknowledgement_id = ack_id;
              evaluation_id = i;
              operator_id = operator;
              outcome = outcome;
              supersedes = first (
                  map (λ (a : Acknowledgement). a.acknowledgement_id)
                    (current_acknowledgements operator i s.acknowledgements));
              acknowledged_at = now;
            }
              ∷ [];
      },
    )
    else (none, s)

-- One line of the history: outcome, time and whether it superseded another.
pub record Acknowledged : Type 0 where
  pub outcome : ReviewOutcome
  pub acknowledged_at : ℕ
  pub supersedes_previous : Bool

pub record Reviews : Type 0 where
  pub current_human_acknowledgement : Option Acknowledged
  pub human_acknowledgement_history : List Acknowledged
  pub agent_review_reports : List (ReviewOutcome × ℕ)

abbrev pub acknowledged : Acknowledgement → Acknowledged
acknowledged a = record {
  outcome = a.outcome;
  acknowledged_at = a.acknowledged_at;
  supersedes_previous = is_some a.supersedes;
}

-- `ORDER BY acknowledged_at, acknowledgement_id`
abbrev earlier : Acknowledgement → Acknowledgement → Bool
earlier a b =
    ltb a.acknowledged_at b.acknowledged_at
    || (a.acknowledged_at == b.acknowledged_at && leb a.acknowledgement_id b.acknowledgement_id)

unfoldable pub acknowledgement_history : ℕ → ℕ → List Acknowledgement → List Acknowledgement
acknowledgement_history operator i acks = sort_by earlier (select (acknowledges operator i) acks)

-- `review_history`. Reports that share an instant keep the order of their insertion here, where
-- the query orders them by their random identifiers.
unfoldable pub review_history : ℕ → ℕ → Queue → Reviews
unfolding acknowledgement_history
review_history operator i s =
    let history = acknowledgement_history operator i s.acknowledgements in
    record {
      current_human_acknowledgement =
          first (map acknowledged (select (is_current s.acknowledgements) history));
      human_acknowledgement_history = map acknowledged history;
      agent_review_reports =
          map (λ (r : Report). (r.outcome, r.reported_at))
            (sort_by (λ a b. leb a.reported_at b.reported_at)
              (select (λ r. r.evaluation_id == i && r.operator_id == operator) s.reports));
    }

-- The rows that the query of a retrieval finds, for one evidence row of a released evaluation.
unfoldable pub retrievable_rows : Queue → ℕ → ℕ → ℕ → List EvidenceRow
unfolding released_to
retrievable_rows s operator i row =
    flat_map (λ _. select (λ r. r.evaluation_id == i && r.evidence_row_id == row) s.rows)
      (select (released_to s operator i) s.evaluations)

abbrev pub with_retrieval : ℕ → ℕ → Option ℕ → Option ℕ → ℕ → Queue → Queue
with_retrieval operator i agent_key row now s = record s {
  retrievals =
      s.retrievals
      ++ record {
        evaluation_id = i;
        operator_id = operator;
        agent_key_id = agent_key;
        evidence_row_id = row;
        retrieved_at = now;
      }
        ∷ [];
}

unfoldable pub retrieval_body :
    ℕ → ℕ → Option ℕ → Option ℕ → ℕ → Queue → Result QueueError (Option (Option Text) × Queue)
unfolding retrievable_rows released_to
retrieval_body operator i agent_key none now s =
    if any (released_to s operator i) s.evaluations
    then ok (some none, with_retrieval operator i agent_key none now s)
    else ok (none, s)
retrieval_body operator i agent_key (some row) now s = do
  found ← one_or_none multiple_results (retrievable_rows s operator i row)
  elim found [
    | none ↦ ok (none, s)
    | some r ↦ ok (some (some r.official_url), with_retrieval operator i agent_key (some row) now s)
  ]

-- `record_source_evidence_retrieval`: the official URL, or `none` within where no row is named.
unfoldable pub record_source_evidence_retrieval :
    ℕ → ℕ → Option ℕ → Option ℕ → ℕ → Queue → Result QueueError (Option (Option Text)) × Queue
unfolding retrieval_body
record_source_evidence_retrieval operator i agent_key row now =
    transaction (retrieval_body operator i agent_key row now)
