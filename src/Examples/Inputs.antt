-- ===== src/Examples/Inputs.antt =====
-- Runs of the identifier adapters and of the preview's policy.
use agent_data_oracle.Base.{
  ◌≤◌, ◌≡◌, ◌↔◌, refl, Text, codes, text_eq, text_in, split_words, join_words, strip, starts_with,
  true, false, ◌&&◌, ◌||◌, leb, ltb, ◌==◌, some, List, [], ◌∷◌, ok, All,
}
use agent_data_oracle.Json
use agent_data_oracle.Json.{Json, Fields, end, get}
use agent_data_oracle.Regex.{fullmatch, nullable, derive}
use agent_data_oracle.Identifier.{
  Unicode, IdentifierType, SubmittedIdentifier, normalize_identifier, compact, parse_type,
  model_literal, is_ascii_decimal, literal_is_valid,
}
use agent_data_oracle.Identifier.Submission.{accept_row, accept_rows, from_rows, from_json}
use agent_data_oracle.Identifier.Rows.{AreAccepted, from_rows_iff}
use agent_data_oracle.Identifier.JsonRows.{document_of, from_json-roundtrip}
use agent_data_oracle.Identifier.Matching.{Patterns, match_cpsc_record}
use agent_data_oracle.Identifier.Matches.{Matches, match_cpsc_record-Matches}
use agent_data_oracle.Preview.{
  PreviewAccess, Admissions, founder_only, normalized_email_set, utf8_length, admits_sign_in,
  remove_expired, issue, admits, consume,
}
use agent_data_oracle.Preview.Admission.{issued_lifetime, consumed_once}
use agent_data_oracle.Preview.Policy.{sign_in_is_founder}

-- ASCII: a space, the letters and digits, and no change of case.
abbrev pub ascii : Unicode
ascii = record {
  is_space = λ c. c == 32;
  is_word = λ c. (leb 97 c && leb c 122) || (leb 48 c && leb c 57) || c == b'_';
  casefold = λ t. t;
  nfkc = λ t. t;
}

abbrev pub no_patterns : Patterns
no_patterns = record { model_groups = λ t. []; has_constraint_word = λ t. false }

abbrev pub a_upc : SubmittedIdentifier
a_upc = record {
  identifier_type = IdentifierType.upc;
  submitted_literal = codes "0-12";
  normalized_value = codes "012";
}

abbrev a_model : SubmittedIdentifier
a_model = record {
  identifier_type = IdentifierType.model;
  submitted_literal = codes "Model AB-12";
  normalized_value = codes "Model AB-12";
}

abbrev two_rows : List (Text × Text)
two_rows =
    (codes "upc", codes "0-12") ∷ (codes "brand", []) ∷ (codes "model", codes "Model AB-12") ∷ []

abbrev two_identifiers : List SubmittedIdentifier
two_identifiers = a_upc ∷ a_model ∷ []

two_rows_accepted : from_rows ascii two_rows true ≡ ok two_identifiers
unfolding from_rows accept_rows accept_row parse_type literal_is_valid normalize_identifier compact
    is_ascii_decimal fullmatch derive nullable model_literal text_eq starts_with strip split_words
    join_words
two_rows_accepted = refl

from_rows_iff_example :
    (from_rows ascii two_rows true ≡ ok two_identifiers)
    ↔ AreAccepted ascii two_rows true two_identifiers
from_rows_iff_example = from_rows_iff ascii two_rows true two_identifiers

from_json-roundtrip_example : from_json ascii (document_of two_identifiers) ≡ ok two_identifiers
from_json-roundtrip_example =
    from_json-roundtrip ascii two_rows true two_identifiers two_rows_accepted

-- A record with one UPC.
abbrev pub a_record : Fields
a_record = Json.field (codes "ProductUPCs") (Json.text (codes "012")) end

match_cpsc_record-Matches_example :
    All
      (Matches ascii IdentifierType.upc (codes "012"))
      (match_cpsc_record ascii no_patterns a_upc a_record)
match_cpsc_record-Matches_example = match_cpsc_record-Matches ascii no_patterns a_upc a_record

issued_lifetime_example : (admits (some (codes "d")) 9 (issue (codes "d") 4 5 [])).0 ≡ ltb 9 305
issued_lifetime_example = issued_lifetime (codes "d") 4 5 9 []

abbrev admissions : Admissions
admissions = (codes "d", 305) ∷ []

consumed_once_example :
    ((admits (some (codes "d")) 10 (consume (some (codes "d")) 9 admissions).1).0 ≡ false)
    × ((consume (some (codes "d")) 10 (consume (some (codes "d")) 9 admissions).1).0 ≡ false)
unfolding consume admits remove_expired text_eq
consumed_once_example = consumed_once (codes "d") 9 10 admissions refl

abbrev founders : List Text
founders = codes "f@example.org" ∷ []

abbrev a_secret : Text
a_secret = codes "a-secret-of-24-bytes-or-more"

abbrev preview : PreviewAccess
preview = record { recipient_emails = founders; secret_digest = some a_secret }

sign_in_is_founder_example :
    (text_in (codes "f@example.org") founders ≡ true)
    × (text_in (codes "f@example.org") (normalized_email_set ascii founders) ≡ true)
    × (a_secret ≡ a_secret)
    × (24 ≤ utf8_length a_secret)
unfolding founder_only normalized_email_set utf8_length admits_sign_in text_eq strip
sign_in_is_founder_example =
    sign_in_is_founder ascii (λ t. t) a_secret founders founders preview (codes "f@example.org")
      a_secret refl refl
