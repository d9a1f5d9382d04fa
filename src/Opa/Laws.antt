-- ===== src/Opa/Laws.antt =====
-- When an evaluation reports a violation (pkg/opa-core/core.go).
use policy_agent.Prelude.{
  ◌≡◌, refl, ◌↔◌, ◌⊎◌, List, [], ◌∷◌, All, String, ◌<>◌, ok, returns, panics, arith,
}
use policy_agent.Value.{Value, null, boolean, float, number, text, array, object, no_items, item}
use policy_agent.Opa.{
  Rego, OpaPolicy, OpaInput, eval, read_results, valid, invalid, read_value, read_values,
}

-- A value that reports nothing: a truth value, a float64, or the empty array.
abbrev pub IsQuiet : Value → Type 0
IsQuiet (boolean b) = Unit
IsQuiet (float f) = Unit
IsQuiet (array no_items) = Unit
IsQuiet _ = ⊥

-- A value that is itself the details of a violation.
abbrev pub IsLoud : Value → Type 0
IsLoud (text s) = Unit
IsLoud (array (item v vs)) = Unit
IsLoud (object fs) = Unit
IsLoud _ = ⊥

-- A value whose kind the evaluator cannot read: null has none, and a `json.Number` is no string.
abbrev pub IsUnreadable : Value → Type 0
IsUnreadable null = Unit
IsUnreadable (number n) = Unit
IsUnreadable _ = ⊥

-- The first value that is not quiet is `d`, and it is loud.
abbrev pub Reports : Value → List Value → Type 0
Reports d [] = ⊥
Reports d (v ∷ vs) = (IsLoud v × (v ≡ d)) ⊎ (IsQuiet v × Reports d vs)

-- The first value that is not quiet cannot be read.
abbrev pub Breaks : List Value → Type 0
Breaks [] = ⊥
Breaks (v ∷ vs) = IsUnreadable v ⊎ (IsQuiet v × Breaks vs)

valid_iff : (vs : List Value) → (read_values vs ≡ returns valid) ↔ All IsQuiet vs
unfolding read_values read_value
valid_iff [] = (λ _. tt, λ _. refl)
valid_iff (null ∷ vs) = ground arith
valid_iff (boolean b ∷ vs) = ground (arith, valid_iff vs)
valid_iff (float f ∷ vs) = ground (arith, valid_iff vs)
valid_iff (number n ∷ vs) = ground arith
valid_iff (text t ∷ vs) = ground arith
valid_iff (array no_items ∷ vs) = ground (arith, valid_iff vs)
valid_iff (array (item w ws) ∷ vs) = ground arith
valid_iff (object fs ∷ vs) = ground arith

invalid_iff : (d : Value) (vs : List Value) → (read_values vs ≡ returns (invalid d)) ↔ Reports d vs
unfolding read_values read_value
invalid_iff d [] = ground arith
invalid_iff d (null ∷ vs) = ground arith
invalid_iff d (boolean b ∷ vs) = ground (arith, invalid_iff d vs)
invalid_iff d (float f ∷ vs) = ground (arith, invalid_iff d vs)
invalid_iff d (number n ∷ vs) = ground arith
invalid_iff d (text t ∷ vs) = ground arith
invalid_iff d (array no_items ∷ vs) = ground (arith, invalid_iff d vs)
invalid_iff d (array (item w ws) ∷ vs) = ground arith
invalid_iff d (object fs ∷ vs) = ground arith

panics_iff : (vs : List Value) → (read_values vs ≡ panics) ↔ Breaks vs
unfolding read_values read_value
panics_iff [] = ground arith
panics_iff (null ∷ vs) = ground arith
panics_iff (boolean b ∷ vs) = ground (arith, panics_iff vs)
panics_iff (float f ∷ vs) = ground (arith, panics_iff vs)
panics_iff (number n ∷ vs) = ground arith
panics_iff (text t ∷ vs) = ground arith
panics_iff (array no_items ∷ vs) = ground (arith, panics_iff vs)
panics_iff (array (item w ws) ∷ vs) = ground arith
panics_iff (object fs ∷ vs) = ground arith

-- If OPA answers the query with the results `rs`, the evaluation finds nothing wrong exactly when
-- every value is false, true, a float64 or an empty array; it reports the details `d` exactly when
-- `d` is a text, an object or an array with items that comes after such values only; and it panics
-- exactly when a null or a `json.Number` does.
pub eval_iff :
    (rego : Rego) (p : OpaPolicy) (input : OpaInput) (query : String) (rs : List (List Value))
    → rego.eval_query ("data." <> p.pkg <> "." <> query) p.module_ input ≡ ok rs
    → ((eval rego p input query ≡ returns valid) ↔ All IsQuiet (read_results rs))
      × ((d : Value)
          → (eval rego p input query ≡ returns (invalid d)) ↔ Reports d (read_results rs))
      × ((eval rego p input query ≡ panics) ↔ Breaks (read_results rs))
unfolding eval
eval_iff rego p input query rs e =
    rw (e, eval)
      (
        valid_iff (read_results rs),
        λ d. invalid_iff d (read_results rs),
        panics_iff (read_results rs),
      )
