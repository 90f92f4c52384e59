-- ===== src/Identifier/Matches.antt =====
-- What a match of `match_cpsc_record` says: the class and the identity limit follow from the type
-- of the identifier, and the matched literal normalizes to the submitted value.
use agent_data_oracle.Base.{
  ◌≡◌, refl, Text, text_eq, text_eq_sound, Bool, true, false, List, arith, map, select, All,
  All-imp, All-map, All-select, All-true,
}
use agent_data_oracle.Json.{Fields}
use agent_data_oracle.Identifier.{
  Unicode, IdentifierType, CandidateClass, SubmittedIdentifier, normalize_identifier,
}
use agent_data_oracle.Identifier.Matching.{
  Patterns, RecordMatch, Labelled, as_match, same_value, same_upc, match_typed, match_cpsc_record,
}

abbrev pub class_of : IdentifierType → CandidateClass
class_of IdentifierType.upc = CandidateClass.exact_identifier
class_of IdentifierType.model = CandidateClass.possible_identifier
class_of IdentifierType.brand = CandidateClass.possible_identifier

abbrev pub is_brand : IdentifierType → Bool
is_brand IdentifierType.brand = true
is_brand _ = false

-- What one match says of an identifier.
pub record Matches (u : Unicode) (k : IdentifierType) (value : Text) (m : RecordMatch)
    : Type 0 where
  pub class_follows : m.candidate_class ≡ class_of k
  pub limit_follows : m.has_identity_limit ≡ is_brand k
  pub same_normal_form : normalize_identifier u k m.matched_literal ≡ value

selected-Matches :
    (u : Unicode) (k : IdentifierType) (value : Text) (test : Labelled → Bool) (ls : List Labelled)
    → ((l : Labelled) → test l ≡ true → text_eq (normalize_identifier u k l.1) value ≡ true)
    → All (Matches u k value) (map (as_match (class_of k) (is_brand k)) (select test ls))
selected-Matches u k value test ls sound =
    All-map (as_match (class_of k) (is_brand k)) (Matches u k value) (select test ls) (
      All-imp _ _ (select test ls)
        (λ l h. record {
          class_follows = refl;
          limit_follows = refl;
          same_normal_form = text_eq_sound _ value (sound l h.1);
        })
        (All-select (λ _. Unit {0}) test ls (All-true (λ _. tt) ls)))

-- Every match of an identifier has the class `exact` exactly if the identifier is a UPC, carries the
-- limit on identity exactly if it is a brand, and the matched literal has the submitted normal
-- form.
pub match_cpsc_record-Matches :
    (u : Unicode) (p : Patterns) (submitted : SubmittedIdentifier) (raw : Fields)
    → All
        (Matches u submitted.identifier_type submitted.normalized_value)
        (match_cpsc_record u p submitted raw)
unfolding match_cpsc_record match_typed
match_cpsc_record-Matches u p submitted raw =
    go submitted.identifier_type submitted.normalized_value
  where
    go : (k : IdentifierType) (value : Text) → All (Matches u k value) (match_typed u p k value raw)
    go IdentifierType.upc value =
        selected-Matches u IdentifierType.upc value (same_upc u value) _ (λ l h. ground arith)
    go IdentifierType.model value =
        selected-Matches u IdentifierType.model value (same_value u IdentifierType.model value) _
          (λ l h. h)
    go IdentifierType.brand value =
        selected-Matches u IdentifierType.brand value (same_value u IdentifierType.brand value) _
          (λ l h. h)
