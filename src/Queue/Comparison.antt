-- ===== src/Queue/Comparison.antt =====
-- What changed between the candidates of an evaluation and those of its refreshed successor.
use agent_data_oracle.Base.{
  ℕ, Text, text_eq, text_le, Bool, true, false, not, ◌&&◌, ◌||◌, ltb, ◌==◌, Option, none, some,
  List, [], ◌∷◌, map, select, is_some, sort_by, if◌then◌else◌,
}
use agent_data_oracle.Identifier.{CandidateClass}
use agent_data_oracle.Identifier.Matching.{RecordMatch, FieldLabel, plain, at, at_key}

-- `(input_position, recall_number)`
pub record Key : Type 0 where
  pub input_position : ℕ
  pub recall_number : Text

pub record Candidate : Type 0 where
  pub candidate_class : CandidateClass
  pub constraints : Option Text
  pub match_bases : List RecordMatch

abbrev pub key_eq : Key → Key → Bool
key_eq a b = a.input_position == b.input_position && text_eq a.recall_number b.recall_number

-- The order of Python's tuples.
key_le : Key → Key → Bool
key_le a b =
    ltb a.input_position b.input_position
    || (a.input_position == b.input_position && text_le a.recall_number b.recall_number)

abbrev pub class_eq : CandidateClass → CandidateClass → Bool
class_eq CandidateClass.exact_identifier CandidateClass.exact_identifier = true
class_eq CandidateClass.possible_identifier CandidateClass.possible_identifier = true
class_eq _ _ = false

label_eq : FieldLabel → FieldLabel → Bool
label_eq (plain a) (plain b) = text_eq a b
label_eq (at a i) (at b j) = text_eq a b && i == j
label_eq (at_key a i k) (at_key b j l) = text_eq a b && i == j && text_eq k l
label_eq _ _ = false

bool_eq : Bool → Bool → Bool
bool_eq true b = b
bool_eq false b = not b

match_eq : RecordMatch → RecordMatch → Bool
unfolding label_eq bool_eq
match_eq a b =
    class_eq a.candidate_class b.candidate_class
    && label_eq a.matched_field b.matched_field
    && text_eq a.matched_literal b.matched_literal
    && bool_eq a.has_identity_limit b.has_identity_limit

unfoldable pub bases_eq : List RecordMatch → List RecordMatch → Bool
unfolding match_eq
bases_eq [] [] = true
bases_eq (a ∷ as') (b ∷ bs) = match_eq a b && bases_eq as' bs
bases_eq _ _ = false

abbrev pub constraints_eq : Option Text → Option Text → Bool
constraints_eq none none = true
constraints_eq (some a) (some b) = text_eq a b
constraints_eq _ _ = false

unfoldable pub candidate_eq : Candidate → Candidate → Bool
unfolding bases_eq
candidate_eq a b =
    class_eq a.candidate_class b.candidate_class
    && constraints_eq a.constraints b.constraints
    && bases_eq a.match_bases b.match_bases

-- A dict from keys to candidates, in insertion order.
abbrev pub Candidates : Type 0
Candidates = List (Key × Candidate)

unfoldable pub lookup : Key → Candidates → Option Candidate
lookup k [] = none
lookup k ((j, v) ∷ d) = if key_eq k j then some v else lookup k d

unfoldable pub put : Key → Candidate → Candidates → Candidates
put k v [] = (k, v) ∷ []
put k v ((j, w) ∷ d) = if key_eq k j then (j, v) ∷ d else (j, w) ∷ put k v d

-- A dict comprehension over key and value pairs: a later pair replaces an earlier one.
unfoldable pub from_pairs : Candidates → Candidates → Candidates
unfolding put
from_pairs d [] = d
from_pairs d ((k, v) ∷ rest) = from_pairs (put k v d) rest

abbrev pub keys : Candidates → List Key
keys = map (λ e. e.0)

abbrev pub has_key : Candidates → Key → Bool
has_key d k = is_some (lookup k d)

pub record Change : Type 0 where
  pub key : Key
  pub constraints_changed : Bool
  pub match_bases_changed : Bool
  pub previous : Candidate
  pub current : Candidate

pub record Delta : Type 0 where
  pub added : Candidates
  pub changed : List Change
  pub removed : Candidates

-- The entry of a key that the dict has.
entries_of : Candidates → List Key → Candidates
entries_of d [] = []
entries_of d (k ∷ ks) =
    let rest = entries_of d ks in elim (lookup k d) [ none ↦ rest | some v ↦ (k, v) ∷ rest ]

change_of : Key → Candidate → Candidate → Change
change_of k before after = record {
  key = k;
  constraints_changed = not (constraints_eq before.constraints after.constraints);
  match_bases_changed = not (bases_eq before.match_bases after.match_bases);
  previous = before;
  current = after;
}

-- The loop over the keys of both dicts.
changes : Candidates → Candidates → List Key → List Change
unfolding change_of
changes prior successor [] = []
changes prior successor (k ∷ ks) =
    let rest = changes prior successor ks in
    elim (lookup k prior) [
      | none ↦ rest
      | some before ↦ elim (lookup k successor) [
        | none ↦ rest
        | some after ↦ if candidate_eq before after then rest else change_of k before after ∷ rest
      ]
    ]

-- The `delta` of a refresh, its keys sorted.
unfoldable pub delta : Candidates → Candidates → Delta
unfolding entries_of changes key_le text_le
delta prior successor = record {
  added =
      entries_of successor (sort_by key_le (select (λ k. not (has_key prior k)) (keys successor)));
  changed = changes prior successor (sort_by key_le (select (has_key successor) (keys prior)));
  removed =
      entries_of prior (sort_by key_le (select (λ k. not (has_key successor k)) (keys prior)));
}
