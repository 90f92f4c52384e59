-- ===== src/Identifier/Matching.antt =====
-- Matching one submitted identifier against one CPSC record.
use agent_data_oracle.Base.{
  ℕ, suc, Text, codes, text_eq, before, is_empty, Bool, true, false, ◌&&◌, ◌==◌, Option, none, some,
  List, [], ◌∷◌, ◌++◌, length, select, map, if◌then◌else◌,
}
use agent_data_oracle.Json.{Json, Items, Fields, nil, cons, get}
use agent_data_oracle.Identifier.{
  Unicode, IdentifierType, CandidateClass, SubmittedIdentifier, normalize_identifier,
}

-- The label that an f-string renders: `field`, `field[index]` or `field[index].key`.
pub data FieldLabel : Type 0 where
  plain : Text → FieldLabel
  at : Text → ℕ → FieldLabel
  at_key : Text → ℕ → Text → FieldLabel

-- `RecordMatch`; the identity limit is `Brand equality alone is insufficient identity.` or `None`.
pub record RecordMatch : Type 0 where
  pub candidate_class : CandidateClass
  pub matched_field : FieldLabel
  pub matched_literal : Text
  pub has_identity_limit : Bool

-- A labelled literal of a record.
abbrev pub Labelled : Type 0
Labelled = FieldLabel × Text

abbrev labelled : FieldLabel → Json → List Labelled
labelled l (Json.text t) = (l, t) ∷ []
labelled l _ = []

-- `("UPC", "upc", "Value", "value")`
abbrev upc_keys : List Text
upc_keys = codes "UPC" ∷ codes "upc" ∷ codes "Value" ∷ codes "value" ∷ []

keyed_values : Text → ℕ → List Text → Fields → List Labelled
keyed_values field index [] fs = []
keyed_values field index (k ∷ ks) fs =
    labelled (at_key field index k) (get k fs) ++ keyed_values field index ks fs

item_values : Text → ℕ → Json → List Labelled
unfolding keyed_values
item_values field index (Json.text t) = (at field index, t) ∷ []
item_values field index (Json.object fs) = keyed_values field index upc_keys fs
item_values field index _ = []

items_values : Text → ℕ → Items → List Labelled
unfolding item_values
items_values field index nil = []
items_values field index (cons v vs) =
    item_values field index v ++ items_values field (suc index) vs

-- `_string_values`
unfoldable pub string_values : Text → Json → List Labelled
unfolding items_values
string_values field (Json.text t) = (plain field, t) ∷ []
string_values field (Json.array vs) = items_values field 0 vs
string_values field _ = []

-- `f"{collection}[{index}].{key}"` for each item that is an object with a text at `key`.
objects_values : Text → Text → ℕ → Items → List Labelled
objects_values collection key index nil = []
objects_values collection key index (cons (Json.object fs) vs) =
    labelled (at_key collection index key) (get key fs)
    ++ objects_values collection key (suc index) vs
objects_values collection key index (cons _ vs) = objects_values collection key (suc index) vs

collection_values : Text → Text → Json → List Labelled
unfolding objects_values
collection_values collection key (Json.array vs) = objects_values collection key 0 vs
collection_values collection key _ = []

-- What `re` finds in a description: the groups of `re.finditer` for the model pattern, and whether
-- `re.search` finds one of the constraint words.
pub record Patterns : Type 0 where
  pub model_groups : Text → List Text
  pub has_constraint_word : Text → Bool

described_models : Patterns → Json → List Labelled
described_models p (Json.text t) =
    map (λ m. (plain (codes "Description (model literal)"), m)) (p.model_groups t)
described_models p _ = []

-- `_model_values`
unfoldable pub model_values : Patterns → Fields → List Labelled
unfolding collection_values described_models
model_values p record' =
    collection_values (codes "Products") (codes "Model") (get (codes "Products") record')
    ++ described_models p (get (codes "Description") record')

-- The leading phrase of the title, if it is not empty.
title_values : Json → List Labelled
title_values (Json.text t) =
    let leading = before (codes " Recalls") t in
    if is_empty leading then [] else (plain (codes "Title (brand retrieval)"), leading) ∷ []
title_values _ = []

-- `_brand_values`
unfoldable pub brand_values : Fields → List Labelled
unfolding collection_values title_values
brand_values record' =
    title_values (get (codes "Title") record')
    ++ collection_values (codes "Manufacturers") (codes "Name")
        (get (codes "Manufacturers") record')
    ++ collection_values (codes "Importers") (codes "Name") (get (codes "Importers") record')
    ++ collection_values (codes "Distributors") (codes "Name") (get (codes "Distributors") record')

abbrev pub as_match : CandidateClass → Bool → Labelled → RecordMatch
as_match c limited (l, t) = record {
  candidate_class = c;
  matched_field = l;
  matched_literal = t;
  has_identity_limit = limited;
}

abbrev pub same_value : Unicode → IdentifierType → Text → Labelled → Bool
same_value u k value (_, t) = text_eq (normalize_identifier u k t) value

-- The UPC branch compares the lengths too.
abbrev pub same_upc : Unicode → Text → Labelled → Bool
same_upc u value (l, t) =
    same_value u IdentifierType.upc value (l, t)
    && length (normalize_identifier u IdentifierType.upc t) == length value

unfoldable pub match_typed : Unicode → Patterns → IdentifierType → Text → Fields → List RecordMatch
match_typed u p IdentifierType.upc value record' =
    map (as_match CandidateClass.exact_identifier false) (
      select (same_upc u value)
        (string_values (codes "ProductUPCs") (get (codes "ProductUPCs") record')))
match_typed u p IdentifierType.model value record' =
    map (as_match CandidateClass.possible_identifier false)
      (select (same_value u IdentifierType.model value) (model_values p record'))
match_typed u p IdentifierType.brand value record' =
    map (as_match CandidateClass.possible_identifier true)
      (select (same_value u IdentifierType.brand value) (brand_values record'))

-- `match_cpsc_record`
unfoldable pub match_cpsc_record :
    Unicode → Patterns → SubmittedIdentifier → Fields → List RecordMatch
unfolding match_typed
match_cpsc_record u p submitted record' =
    match_typed u p submitted.identifier_type submitted.normalized_value record'

abbrev described_constraints : Patterns → Json → Option Text
described_constraints p (Json.text t) = if p.has_constraint_word t then some t else none
described_constraints p _ = none

-- `_source_constraints`: the source literal of the scope `not_machine_parsed`, or `none` for the
-- scope `unavailable`.
unfoldable pub source_constraints : Patterns → Fields → Option Text
source_constraints p record' = described_constraints p (get (codes "Description") record')
