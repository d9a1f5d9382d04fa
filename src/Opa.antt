-- ===== src/Opa.antt =====
-- pkg/opa-core: a policy's rego code is parsed and evaluated, and its result is read as a verdict.
pub mod Laws
use policy_agent.Prelude.{
  String, Bool, List, [], ◌∷◌, Option, none, some, Result, ok, err, Run, returns, panics, Map,
  contains, get_elem?, split_text, if◌then◌else◌, ◌<>◌, Option-cases,
}
use policy_agent.Value.{
  Value, null, boolean, float, number, text, array, object, Items, no_items, item, Fields,
}
use policy_agent.Domain.{Accessors}

-- What is read of OPA's `ast.Module`: the names of its rules, and the text of its package clause.
pub record Module : Type 0 where
  pub rules : List String
  pub package_text : String

-- The fields of the admission request that the review sets.
pub record AdmissionRequest : Type 0 where
  pub name : String
  pub kind : String
  pub version : String
  pub group : String
  pub raw : String

pub record OpaInput : Type 0 where
  pub review : AdmissionRequest
  pub parameters : Map Value

-- OPA itself: `ast.ParseModule`, and `rego.New(...).Eval` as the expression values of each result.
pub record Rego : Type 0 where
  pub parse_module : String → String → Result (Option Module)
  pub eval_query : String → Module → OpaInput → Result (List (List Value))

pub record OpaPolicy : Type 0 where
  pub module_ : Module
  pub pkg : String

-- `Parse`; the index into the split package text is the one place where it can panic.
unfoldable pub parse : Rego → String → String → Run (Result OpaPolicy)
parse rego content rule_query = elim (rego.parse_module "" content) [
  | err e ↦ returns (err e)
  | ok none ↦ returns (err "Failed to parse module: empty content")
  | ok (some m) ↦
      if contains rule_query m.rules
      then (elim (get_elem? (split_text "package " m.package_text) 1) [
        | none ↦ panics
        | some pkg ↦ returns (ok (record { module_ = m; pkg = pkg }))
      ])
      else returns (err ("rule `" <> rule_query <> "` is not found"))
]

-- The error that an evaluation returns: none, a `NoValidError` with its details, or another one.
pub data Verdict : Type 0 where
  valid : Verdict
  invalid : Value → Verdict
  failed : String → Verdict

-- The switch on the kind of one expression value. A nil value has no kind, and a `json.Number` has
-- the kind of a string without being one: both panic.
pub data Reading : Type 0 where
  passes : Reading
  violates : Value → Reading
  crashes : Reading

unfoldable pub read_value : Value → Reading
read_value null = crashes
read_value (boolean b) = passes
read_value (float f) = passes
read_value (number n) = crashes
read_value (text s) = violates (text s)
read_value (array no_items) = passes
read_value (array (item v vs)) = violates (array (item v vs))
read_value (object fs) = violates (object fs)

-- The loops over the results' expressions, as one loop over their values.
unfoldable pub read_values : List Value → Run Verdict
read_values [] = returns valid
read_values (v ∷ vs) =
    let rest = read_values vs in
    elim (read_value v) [ passes ↦ rest | violates d ↦ returns (invalid d) | crashes ↦ panics ]

unfoldable pub read_results : List (List Value) → List Value
read_results [] = []
read_results (es ∷ rs) = policy_agent.Prelude.◌++◌ es (read_results rs)

-- `Policy.Eval`.
unfoldable pub eval : Rego → OpaPolicy → OpaInput → String → Run Verdict
eval rego p input query =
    elim (rego.eval_query ("data." <> p.pkg <> "." <> query) p.module_ input) [
      | err e ↦ returns (failed e)
      | ok rs ↦ read_values (read_results rs)
    ]

-- `Policy.EvalGateKeeperCompliant`; `marshal` is `json.Marshal`.
unfoldable pub eval_gate_keeper_compliant :
    Rego
    → Accessors
    → (Map Value → Result String)
    → OpaPolicy
    → Map Value
    → Map Value
    → String
    → Run Verdict
eval_gate_keeper_compliant rego a marshal p manifest parameters query = elim (marshal manifest) [
  | err e ↦ returns (failed e)
  | ok raw ↦
      let request : AdmissionRequest = record {
        name = a.get_name manifest;
        kind = a.get_object_kind manifest;
        version = a.get_object_version manifest;
        group = a.get_object_group manifest;
        raw = raw;
      } in
      eval rego p (record { review = request; parameters = parameters }) query
]
