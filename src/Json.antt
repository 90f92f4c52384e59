-- ===== src/Json.antt =====
-- Values that `json.loads` returns, as far as the program takes them apart. Numbers with a fraction
-- are opaque: the program never computes with one.
use agent_data_oracle.Base.Int.{ℤ}
use agent_data_oracle.Base.{Text, text_eq, Bool, Option, none, some, List, [], ◌∷◌, if◌then◌else◌}

mutual
  pub data Json : Type 0 where
    null : Json
    boolean : Bool → Json
    integer : ℤ → Json
    real : Text → Json
    text : Text → Json
    array : Items → Json
    object : Fields → Json

  pub data Items : Type 0 where
    nil : Items
    cons : Json → Items → Items

  pub data Fields : Type 0 where
    end : Fields
    field : Text → Json → Fields → Fields

-- `record.get(key)`, where a missing key reads as `None`.
unfoldable pub get : Text → Fields → Json
get k end = null
get k (field j v fs) = if text_eq j k then v else get k fs

-- `list(record)`: the keys in order.
unfoldable pub keys : Fields → List Text
keys end = []
keys (field j v fs) = j ∷ keys fs

abbrev pub as_text : Json → Option Text
as_text (text t) = some t
as_text _ = none

abbrev pub as_object : Json → Option Fields
as_object (object fs) = some fs
as_object _ = none

unfoldable pub elements : Items → List Json
elements nil = []
elements (cons v vs) = v ∷ elements vs

unfoldable pub as_array : Json → Option (List Json)
unfolding elements
as_array (array vs) = some (elements vs)
as_array _ = none
