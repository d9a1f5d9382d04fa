-- ===== src/Matching.antt =====
-- pkg/policy-core/validation/common.go: which entities a policy applies to, and `writeToSinks`.
pub mod Laws
use policy_agent.Prelude.{
  String, Bool, true, false, not, ◌&&◌, ◌||◌, List, [], ◌∷◌, ◌++◌, map, none, some, Map, lookup,
  exists_where, contains, is_empty, if◌then◌else◌, ◌==◌, ◌<>◌,
}
use policy_agent.Domain.{Entity, Policy, PolicyValidation, PolicyValidationSummary}

-- One round of the loops over labels: the key is there, and the value is "*" or the entity's.
unfoldable pub label_selects : Map String → String × String → Bool
label_selects labels (key, val) = elim (lookup key labels) [
  | none ↦ false
  | some entity_val ↦ if not (val == "*") && not (val == entity_val) then false else true
]

unfoldable pub match_entity : Entity → Policy → Bool
match_entity entity policy =
    let targets = policy.targets in
    let match_kind : Bool =
      if is_empty targets.kinds then true else contains entity.kind targets.kinds in
    let match_namespace : Bool =
      if is_empty targets.namespaces then true else contains entity.namespace targets.namespaces in
    let match_label : Bool =
      if is_empty targets.labels
      then true
      else exists_where (λ obj. exists_where (label_selects entity.labels) obj) targets.labels in
    match_kind && match_namespace && match_label

unfoldable pub is_excluded : Entity → Policy → Bool
is_excluded entity policy =
    if contains entity.namespace policy.exclude.namespaces
    then true
    else if contains (entity.namespace <> "/" <> entity.name) policy.exclude.resources
    then true
    else exists_where (label_selects entity.labels) policy.exclude.labels

-- What one sink is given: a call of `Write` for each list.
abbrev pub writes_of :
    {N : Type 0} → PolicyValidationSummary N → Bool → List (List PolicyValidation)
writes_of summary write_compliance =
    (if not (is_empty summary.violations) then summary.violations ∷ [] else [])
    ++ (if write_compliance && not (is_empty summary.compliances)
        then summary.compliances ∷ []
        else [])

-- The calls of `Write` in order, each with its sink; their errors are dropped.
unfoldable pub write_to_sinks {ℓ} :
    {N : Type 0} {Sink : Type ℓ}
    → List Sink
    → PolicyValidationSummary N
    → Bool
    → List (Sink × List PolicyValidation)
write_to_sinks [] summary write_compliance = []
write_to_sinks (sink ∷ sinks) summary write_compliance =
    map (λ batch. (sink, batch)) (writes_of summary write_compliance)
    ++ write_to_sinks sinks summary write_compliance
