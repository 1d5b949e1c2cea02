-- ===== src/Json.antt =====
-- `serde_json::Value`. A number keeps its text: its equality and its value as an `f64` belong to the
-- library and are parameters (External.antt).
use canonical_company_audito.Prelude.{String, Bool, List, [], ◌∷◌}

pub record Number : Type 0 where
  pub literal : String

-- The map of an object is a `BTreeMap`: its entries stand in key order.
mutual
  pub data Value : Type 0 where
    null : Value
    bool : Bool → Value
    number : Number → Value
    string : String → Value
    array : Items → Value
    object : Fields → Value

  pub data Items : Type 0 where
    nil : Items
    cons : Value → Items → Items

  pub data Fields : Type 0 where
    end : Fields
    field : String → Value → Fields → Fields

abbrev pub items : Items → List Value
items nil = []
items (cons v vs) = v ∷ items vs

abbrev pub of_items : List Value → Items
of_items [] = nil
of_items (v ∷ vs) = cons v (of_items vs)

abbrev pub entries : Fields → List (String × Value)
entries end = []
entries (field k v fs) = (k, v) ∷ entries fs

abbrev pub of_entries : List (String × Value) → Fields
of_entries [] = end
of_entries ((k, v) ∷ es) = field k v (of_entries es)
