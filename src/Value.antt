-- ===== src/Value.antt =====
-- Values of Go's `interface{}` as the program meets them: decoded JSON and OPA results.
use policy_agent.Prelude.{ℕ, String, Bool, List, [], ◌∷◌, Map}

-- `null` is the nil interface, `float` a float64 by its bit pattern and `number` a `json.Number`
-- by its text. A value that holds other values has list types of its own.
mutual
  pub data Fields : Type 0 where
    no_fields : Fields
    field : String → Value → Fields → Fields

  pub data Items : Type 0 where
    no_items : Items
    item : Value → Items → Items

  pub data Value : Type 0 where
    null : Value
    text : String → Value
    number : String → Value
    float : ℕ → Value
    boolean : Bool → Value
    object : Fields → Value
    array : Items → Value

abbrev pub to_list : Items → List Value
to_list no_items = []
to_list (item v vs) = v ∷ to_list vs

abbrev pub of_list : List Value → Items
of_list [] = no_items
of_list (v ∷ vs) = item v (of_list vs)

abbrev pub to_map : Fields → Map Value
to_map no_fields = []
to_map (field k v fs) = (k, v) ∷ to_map fs

abbrev pub of_map : Map Value → Fields
of_map [] = no_fields
of_map ((k, v) ∷ m) = field k v (of_map m)
