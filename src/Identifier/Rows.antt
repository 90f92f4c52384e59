-- ===== src/Identifier/Rows.antt =====
-- What `submitted_identifiers_from_rows` accepts, and that its result is accepted again, also by
-- way of JSON.
use agent_data_oracle.Base.{
  ◌≤◌, ◌≡◌, ◌↔◌, refl, sym, ap, ◌∙◌, Text, codes, text_eq, text_eq_sound, is_empty, Bool, true,
  false, not, ltb, some, List, [], ◌∷◌, arith, length, length-select-le, map, select, All,
  Bool-cases, inl, inr, ok, Result, ◌>>=◌, >>=-eq-ok, raise_if, raise_if-eq-ok, or_raise,
  or_raise-eq-ok,
}
use agent_data_oracle.Identifier.{
  Unicode, IdentifierType, SubmittedIdentifier, normalize_identifier, parse_type, print_type,
  literal_is_valid,
}
use agent_data_oracle.Identifier.Submission.{
  SubmissionError, explicit_rows_only, literal_too_long, looks_like_url, accept_row, accept_rows,
  from_rows,
}

-- What an accepted identifier satisfies.
pub record IsAccepted (u : Unicode) (i : SubmittedIdentifier) : Type 0 where
  pub no_url : looks_like_url u i.submitted_literal ≡ false
  pub short : length i.submitted_literal ≤ 80
  pub valid : literal_is_valid u i.identifier_type i.submitted_literal ≡ true
  pub normalized : i.normalized_value ≡ normalize_identifier u i.identifier_type i.submitted_literal
  pub not_blank : is_empty i.submitted_literal ≡ false

-- The row that an identifier came from.
abbrev pub row_of : SubmittedIdentifier → Text × Text
row_of i = (print_type i.identifier_type, i.submitted_literal)

abbrev pub is_filled : Text × Text → Bool
is_filled row = not (is_empty row.1)

parse_type-eq-some : (t : Text) (k : IdentifierType) → parse_type t ≡ some k → t ≡ print_type k
unfolding parse_type
parse_type-eq-some t IdentifierType.upc h = text_eq_sound t (codes "upc") (ground arith)
parse_type-eq-some t IdentifierType.model h = text_eq_sound t (codes "model") (ground arith)
parse_type-eq-some t IdentifierType.brand h = text_eq_sound t (codes "brand") (ground arith)

parse_type-print_type : (k : IdentifierType) → parse_type (print_type k) ≡ some k
unfolding parse_type text_eq
parse_type-print_type IdentifierType.upc = refl
parse_type-print_type IdentifierType.model = refl
parse_type-print_type IdentifierType.brand = refl

accept_row-eq-ok :
    (u : Unicode) (row : Text × Text) (i : SubmittedIdentifier)
    → is_empty row.1 ≡ false
    → accept_row u row ≡ ok i
    → IsAccepted u i × (row ≡ row_of i)
unfolding accept_row
accept_row-eq-ok u (k, t) i filled h =
    let made = λ (typed : IdentifierType).
      let z : SubmittedIdentifier = record {
        identifier_type = typed;
        submitted_literal = t;
        normalized_value = normalize_identifier u typed t;
      } in
      z in
    let h₃ = λ (typed : IdentifierType) (_ : Unit {0}).
      (let z : Result SubmissionError SubmittedIdentifier = ok (made typed) in z) in
    let h₂ = λ (typed : IdentifierType) (_ : Unit {0}).
      raise_if (not (literal_is_valid u typed t)) explicit_rows_only >>= h₃ typed in
    let h₁ =
      λ (typed : IdentifierType). raise_if (ltb 80 (length t)) literal_too_long >>= h₂ typed in
    let (_, url, e₁) =
      >>=-eq-ok (raise_if (looks_like_url u t) explicit_rows_only)
        (λ _. or_raise explicit_rows_only (parse_type k) >>= h₁) h in
    let (typed, parsed, e₂) = >>=-eq-ok (or_raise explicit_rows_only (parse_type k)) h₁ e₁ in
    let (_, short, e₃) = >>=-eq-ok (raise_if (ltb 80 (length t)) literal_too_long) (h₂ typed) e₂ in
    let (_, valid, e₄) =
      >>=-eq-ok (raise_if (not (literal_is_valid u typed t)) explicit_rows_only) (h₃ typed) e₃ in
    let same : i ≡ made typed = cc in
    let is_typed = parse_type-eq-some k typed (or_raise-eq-ok _ (parse_type k) parsed) in
    let tested_short = raise_if-eq-ok (ltb 80 (length t)) literal_too_long short in
    let tested_valid = raise_if-eq-ok (not (literal_is_valid u typed t)) explicit_rows_only valid in
    rw same (
      record {
        no_url = raise_if-eq-ok (looks_like_url u t) explicit_rows_only url;
        short = ground arith;
        valid = ground arith;
        normalized = refl;
        not_blank = filled;
      },
      rw is_typed,
    )

-- An accepted identifier's row is accepted, with the same result.
accept_row-row_of :
    (u : Unicode) (i : SubmittedIdentifier) → IsAccepted u i → accept_row u (row_of i) ≡ ok i
unfolding accept_row
accept_row-row_of u i h =
    let short : ltb 80 (length i.submitted_literal) ≡ false = (let k = h.short in ground arith) in
    rw (h.no_url, parse_type-print_type i.identifier_type, short, h.valid, h.normalized)

filled-row :
    (u : Unicode) (row : Text × Text) (i : SubmittedIdentifier) (rows : List (Text × Text))
    (rest found : List SubmittedIdentifier)
    → is_empty row.1 ≡ false
    → found ≡ i ∷ rest
    → IsAccepted u i
    → row ≡ row_of i
    → All (IsAccepted u) rest
    → map row_of rest ≡ select is_filled rows
    → All (IsAccepted u) found × (map row_of found ≡ select is_filled (row ∷ rows))
filled-row u row i rows rest found filled same accepted is_row all_accepted are_rows =
    rw (same, filled, is_row, are_rows) ((accepted, all_accepted), refl)

accept_rows-eq-ok :
    (u : Unicode) (rows : List (Text × Text)) (found : List SubmittedIdentifier)
    → accept_rows u rows ≡ ok found
    → All (IsAccepted u) found × (map row_of found ≡ select is_filled rows)
unfolding accept_rows
accept_rows-eq-ok u [] found h = (let e : found ≡ [] = cc in (rw e tt, rw e))
accept_rows-eq-ok u (row ∷ rows) found h = elim (Bool-cases (is_empty row.1)) [
  | inl blank ↦ let ih = accept_rows-eq-ok u rows found (ground arith) in (ih.0, ih.1 ∙ rw blank)
  | inr filled ↦
      let step = λ (i : SubmittedIdentifier). accept_rows u rows >>= λ is'.
      (let z : Result SubmissionError (List SubmittedIdentifier) = ok (i ∷ is') in z) in
      let opened : (accept_row u row >>= step) ≡ ok found = ground arith in
      let (i, e₁, h₁) = >>=-eq-ok (accept_row u row) step opened in
      let (rest, e₂, h₂) =
        >>=-eq-ok (accept_rows u rows)
          (λ is'. (let z : Result SubmissionError (List SubmittedIdentifier) = ok (i ∷ is') in z))
          h₁ in
      let same : found ≡ i ∷ rest = cc in
      let (accepted, is_row) = accept_row-eq-ok u row i filled e₁ in
      let (all_accepted, are_rows) = accept_rows-eq-ok u rows rest e₂ in
      filled-row u row i rows rest found filled same accepted is_row all_accepted are_rows
]

accept_rows-map :
    (u : Unicode) (found : List SubmittedIdentifier)
    → All (IsAccepted u) found
    → accept_rows u (map row_of found) ≡ ok found
unfolding accept_rows
accept_rows-map u [] h = refl
accept_rows-map u (i ∷ found) (h, hs) =
    rw (h.not_blank, accept_row-row_of u i h, accept_rows-map u found hs)

-- What a submission of rows has been accepted as.
pub record AreAccepted (u : Unicode) (rows : List (Text × Text)) (matches : Bool)
    (found : List SubmittedIdentifier) : Type 0 where
  pub matching : matches ≡ true
  pub few_rows : length rows ≤ 50
  pub some_rows : 1 ≤ length found
  pub accepted : All (IsAccepted u) found
  pub in_order : map row_of found ≡ select is_filled rows

from_rows-inner :
    (u : Unicode) (rows : List (Text × Text)) (matches : Bool) (found : List SubmittedIdentifier)
    → from_rows u rows matches ≡ ok found
    → (matches ≡ true) × (length rows ≤ 50) × (accept_rows u rows ≡ ok found) × (1 ≤ length found)
unfolding from_rows
from_rows-inner u rows matches found h = ground arith

from_rows-outer :
    (u : Unicode) (rows : List (Text × Text)) (found : List SubmittedIdentifier)
    → length rows ≤ 50
    → accept_rows u rows ≡ ok found
    → 1 ≤ length found
    → from_rows u rows true ≡ ok found
unfolding from_rows
from_rows-outer u rows found few accepted some_rows = ground arith

-- Blank rows play no part.
accept_rows-select :
    (u : Unicode) (rows : List (Text × Text))
    → accept_rows u rows ≡ accept_rows u (select is_filled rows)
unfolding accept_rows
accept_rows-select u [] = refl
accept_rows-select u (row ∷ rows) = elim (Bool-cases (is_empty row.1)) [
  | inl blank ↦ rw blank (accept_rows-select u rows)
  | inr filled ↦
      let below : accept_rows u (row ∷ rows) ≡ accept_rows u (row ∷ select is_filled rows) =
        rw (filled, accept_rows-select u rows) in
      let kept : select is_filled (row ∷ rows) ≡ row ∷ select is_filled rows = rw filled in
      below ∙ ap (accept_rows u) (sym kept)
]

length-map : {A B : Type 0} (f : A → B) (xs : List A) → length (map f xs) ≡ length xs
length-map f [] = refl
length-map f (x ∷ xs) = omega (arith, length-map f xs)

-- Rows are accepted exactly if the counts of types and literals agree, there are 50 rows at most,
-- and every row that is not blank, of which there is one at least, holds a literal of at most 80
-- characters that is no URL and valid for its type; the result is those rows in order, with their
-- literals and normal forms.
pub from_rows_iff :
    (u : Unicode) (rows : List (Text × Text)) (matches : Bool) (found : List SubmittedIdentifier)
    → (from_rows u rows matches ≡ ok found) ↔ AreAccepted u rows matches found
from_rows_iff u rows matches found = (
  λ h.
      (let (matching, few, accepts, some_rows) = from_rows-inner u rows matches found h in
        let (accepted, in_order) = accept_rows-eq-ok u rows found accepts in
        record {
          matching = matching;
          few_rows = few;
          some_rows = some_rows;
          accepted = accepted;
          in_order = in_order;
        }),
  λ h. rw h.matching (
      from_rows-outer u rows found h.few_rows
        (accept_rows-select u rows
          ∙ ap (accept_rows u) (sym h.in_order)
          ∙ accept_rows-map u found h.accepted)
        h.some_rows),
)

-- What has been accepted is accepted again, with the same normal forms.
pub from_rows-again :
    (u : Unicode) (rows : List (Text × Text)) (matches : Bool) (found : List SubmittedIdentifier)
    → from_rows u rows matches ≡ ok found
    → from_rows u (map row_of found) true ≡ ok found
from_rows-again u rows matches found h =
    let (_, few, accepts, some_rows) = from_rows-inner u rows matches found h in
    let (accepted, in_order) = accept_rows-eq-ok u rows found accepts in
    from_rows-outer u (map row_of found) found
      (let shorter = length-select-le is_filled rows in rw in_order (omega (arith, shorter, few)))
      (accept_rows-map u found accepted) some_rows
