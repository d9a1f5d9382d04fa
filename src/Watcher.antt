-- ===== src/Watcher.antt =====
-- internal/policies/policy.go: the policies of the cluster, as the validator reads them.
use policy_agent.Prelude.{
  String, Bool, not, List, [], ◌∷◌, none, some, Result, ok, err, map, map_err, ◌==◌, ◌<>◌, ◌>>=◌,
  if◌then◌else◌,
}
use policy_agent.Value.{Value, null}
use policy_agent.Domain.{Policy, PolicyParameters, by_value}
use policy_agent.Api.{PolicyCrd, PolicyParametersCrd, RawJson}

-- `PoliciesWatcher.match`.
unfoldable pub match_provider : String → PolicyCrd → Bool
match_provider provider p = p.spec.provider == provider

module _ (unmarshal : RawJson → Result Value) where
  -- A default value that cannot be decoded is logged and left nil.
  unfoldable pub convert_parameter : PolicyParametersCrd → PolicyParameters
  convert_parameter p = record {
    name = p.name;
    type = p.type;
    value = elim p.value [
      | none ↦ null
      | some raw ↦ elim (unmarshal raw) [ err e ↦ null | ok v ↦ v ]
    ];
    required = p.required;
    config_ref = "";
  }

  unfoldable pub convert_policy : PolicyCrd → Policy
  convert_policy p = record {
    name = p.spec.name;
    id = p.spec.id;
    code = p.spec.code;
    enforce = p.spec.enforce;
    parameters = map convert_parameter p.spec.parameters;
    targets = p.spec.targets;
    description = p.spec.description;
    how_to_solve = p.spec.how_to_solve;
    category = p.spec.category;
    tags = p.spec.tags;
    severity = p.spec.severity;
    standards = p.spec.standards;
    reference = by_value (record (p.meta) { field_path = "" });
    git_commit = "";
    mutate = p.spec.mutate;
    exclude = p.spec.exclude;
  }

  -- The loop of `GetAll`.
  unfoldable pub convert_policies : String → List PolicyCrd → List Policy
  convert_policies provider [] = []
  convert_policies provider (p ∷ ps) =
      let rest = convert_policies provider ps in
      if not (match_provider provider p) then rest else convert_policy p ∷ rest

  unfoldable pub get_all : String → Result (List PolicyCrd) → Result (List Policy)
  get_all provider listed = do
    policies ← map_err (λ e. "error while retrieving policies CRD from cache: " <> e) listed
    ok (convert_policies provider policies)
