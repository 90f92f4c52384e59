-- ===== src/Identifier.antt =====
-- The typed identifiers of `evidence_queue.py`: their types, their normal forms, and the two
-- anchored patterns for model and brand literals.
pub mod Submission
pub mod Matching
pub mod Rows
pub mod Matches
pub mod JsonRows
use agent_data_oracle.Base.{
  ℕ, Text, codes, Bool, true, false, not, ◌&&◌, ◌||◌, ◌==◌, leb, remove, split_words, join_words,
  Option, none, some, length, all, is_empty, text_eq, if◌then◌else◌,
}
use agent_data_oracle.Regex.{Pattern, class, seq, alt, star, plus, opt, up_to, literal, fullmatch}

-- What the program uses of Python's Unicode tables.
pub record Unicode : Type 0 where
  pub is_space : ℕ → Bool
  pub is_word : ℕ → Bool
  pub casefold : Text → Text
  pub nfkc : Text → Text

pub data IdentifierType : Type 0 where
  upc model brand : IdentifierType

pub data CandidateClass : Type 0 where
  exact_identifier possible_identifier : CandidateClass

pub record SubmittedIdentifier : Type 0 where
  pub identifier_type : IdentifierType
  pub submitted_literal : Text
  pub normalized_value : Text

abbrev pub max_identifier_rows : ℕ
max_identifier_rows = 50

abbrev pub max_identifier_literal_length : ℕ
max_identifier_literal_length = 80

-- `literal.replace(" ", "").replace("-", "")`
unfoldable pub compact : Text → Text
compact t = remove b'-' (remove b' ' t)

-- `normalize_identifier`
unfoldable pub normalize_identifier : Unicode → IdentifierType → Text → Text
unfolding compact
normalize_identifier u IdentifierType.upc t = compact t
normalize_identifier u _ t = join_words (split_words u.is_space (u.casefold (u.nfkc t)))

-- `IdentifierType(value)`, which raises `ValueError` on any other text.
unfoldable pub parse_type : Text → Option IdentifierType
parse_type t =
    if text_eq t (codes "upc")
    then some IdentifierType.upc
    else if text_eq t (codes "model")
    then some IdentifierType.model
    else if text_eq t (codes "brand")
    then some IdentifierType.brand
    else none

abbrev pub print_type : IdentifierType → Text
print_type IdentifierType.upc = codes "upc"
print_type IdentifierType.model = codes "model"
print_type IdentifierType.brand = codes "brand"

abbrev pub is_digit : ℕ → Bool
is_digit c = leb b'0' c && leb c b'9'

abbrev pub is_letter : ℕ → Bool
is_letter c = (leb b'A' c && leb c b'Z') || (leb b'a' c && leb c b'z')

abbrev pub is_alphanumeric : ℕ → Bool
is_alphanumeric c = is_letter c || is_digit c

-- `[-_./]`
abbrev pub is_joiner : ℕ → Bool
is_joiner c = c == b'-' || c == b'_' || c == b'.' || c == b'/'

-- `(?:[Mm]odel )?(?:[A-Za-z0-9]+(?:[-_./][A-Za-z0-9]+)+|[A-Za-z]+[0-9]+)`
unfoldable pub model_literal : Pattern
model_literal = seq (opt (seq (class (λ c. c == b'M' || c == b'm')) (literal (codes "odel ")))) (
    alt
      (seq (plus (class is_alphanumeric))
        (plus (seq (class is_joiner) (plus (class is_alphanumeric)))))
      (seq (plus (class is_letter)) (plus (class is_digit))))

-- `[\w'&+\-]`, where 39 is the apostrophe
abbrev pub is_brand_character : Unicode → ℕ → Bool
is_brand_character u c = u.is_word c || c == 39 || c == b'&' || c == b'+' || c == b'-'

-- `[\w][\w'&+\-]{0,31}`
abbrev pub brand_word : Unicode → Pattern
brand_word u = seq (class u.is_word) (up_to 31 (class (is_brand_character u)))

-- `[\w][\w'&+\-]{0,31}( [\w][\w'&+\-]{0,31}){0,2}`
unfoldable pub brand_literal : Unicode → Pattern
brand_literal u = seq (brand_word u) (up_to 2 (seq (class (λ c. b' ' == c)) (brand_word u)))

-- `isascii() and isdecimal()`: some ASCII digits and nothing else. Of the ASCII code points the
-- decimal ones are `0` to `9`.
unfoldable pub is_ascii_decimal : Text → Bool
is_ascii_decimal t = not (is_empty t) && all is_digit t

-- The test on a literal, by its type.
unfoldable pub literal_is_valid : Unicode → IdentifierType → Text → Bool
unfolding is_ascii_decimal fullmatch model_literal brand_literal compact
literal_is_valid u IdentifierType.upc t = is_ascii_decimal (compact t)
literal_is_valid u IdentifierType.model t = fullmatch model_literal t
literal_is_valid u IdentifierType.brand t = fullmatch (brand_literal u) t
