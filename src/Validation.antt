-- ===== src/Validation.antt =====
-- pkg/policy-core/validation/opa_validation.go: `Validate` evaluates every policy against an entity,
-- one goroutine each, and collects, mutates and reports what they find.
pub mod Workers
pub mod Schedules
pub mod Bounds
pub mod Parameters
pub mod Laws
pub mod Reports
pub mod Mutating
use policy_agent.Prelude.{
  ℕ, suc, String, Bool, true, false, not, List, [], ◌∷◌, ◌++◌, Option, none, some, map, length,
  is_empty, Result, ok, err, map_err, ◌>>=◌, Run, returns, panics, Map, lookup, insert, to_lower,
  ◌≡◌, ap, ◌∙◌, decimal, if◌then◌else◌, ◌<>◌,
}
use policy_agent.Value.{Value, null, text, array, object, to_map, to_list}
use policy_agent.Domain.{
  Policy, PolicyParameters, PolicyConfig, PolicyConfigConfig, get_parameters_map, Entity, Accessors,
  Occurrence, PolicyValidation, PolicyValidationSummary, MutationResult, status_violating,
  status_compliant,
}
use policy_agent.Domain.Mutation.{Yaml, Json, new_mutation_result, mutate}
use policy_agent.Matching.{match_entity, is_excluded, write_to_sinks}
use policy_agent.Opa.{
  Rego, OpaPolicy, parse, eval_gate_keeper_compliant, Verdict, valid, invalid, failed,
}
use policy_agent.Validation.Workers.{
  Outcome, skipped, violating, compliant, crashed, Channels, Scheduler,
}
use policy_agent.Validation.Workers

-- `domain.PoliciesSource`.
pub record PoliciesSource : Type 0 where
  pub get_all : Result (List Policy)
  pub get_policy_config : Entity → Result (Option PolicyConfig)

pub record OpaValidator (Sink : Type 0) : Type 0 where
  pub policies_source : PoliciesSource
  pub results_sinks : List Sink
  pub write_compliance : Bool
  pub validation_type : String
  pub account_id : String
  pub cluster_id : String
  pub mutates : Bool

-- What `Validate` calls outside the repository: OPA, JSON, the id and the clock that a goroutine
-- reads, the text of a list of errors, and Go's scheduler.
pub record Env : Type 0 where
  pub rego : Rego
  pub accessors : Accessors
  pub json : Json
  pub new_id : ℕ → String
  pub now : ℕ → ℕ
  pub multierror : List String → String
  pub scheduler : Scheduler (ℕ × Policy)

-- A parameter under the policy's part of the config, if there is one.
unfoldable pub override_parameter : Option PolicyConfigConfig → PolicyParameters → PolicyParameters
override_parameter none p = p
override_parameter (some c) p = elim (lookup p.name c.parameters) [
  | none ↦ p
  | some q ↦ record p { value = q.value; config_ref = q.config_ref }
]

-- The loop over a policy's parameters: the policy's own list and the map for OPA, which gets the
-- policy's value first and the config's over it.
unfoldable pub override_parameters :
    Option PolicyConfigConfig
    → Map Value
    → List PolicyParameters
    → List PolicyParameters × Map Value
override_parameters c parameters [] = ([], parameters)
override_parameters c parameters (p ∷ ps) =
    let q = override_parameter c p in
    let (qs, final) =
      override_parameters c (insert p.name q.value (insert p.name p.value parameters)) ps in
    (q ∷ qs, final)

unfoldable pub resolve_parameters : Option PolicyConfig → Policy → Policy × Map Value
resolve_parameters none p = (p, get_parameters_map p)
resolve_parameters (some config) p =
    let (qs, parameters) = override_parameters (lookup p.id config.config) [] p.parameters in
    (record p { parameters = qs }, parameters)

-- `v, ok := m[key].(string)`.
text_field : String → Map Value → Option String
text_field key m = elim (lookup key m) [ some (text s) ↦ some s | _ ↦ none ]

unfoldable pub parse_occurrence : String → Value → Occurrence
unfolding text_field
parse_occurrence message (object fields) =
    let m = to_map fields in
    record {
      message = elim (text_field "msg" m) [ none ↦ message | some s ↦ s ];
      violating_key = text_field "violating_key" m;
      recommended_value = elim (lookup "recommended_value" m) [ none ↦ null | some v ↦ v ];
      mutated = false;
    }
parse_occurrence message _ = record {
  message = message;
  violating_key = none;
  recommended_value = null;
  mutated = false;
}

unfoldable pub parse_details : String → Value → List Occurrence
parse_details message (array items) = map (parse_occurrence message) (to_list items)
parse_details message details = parse_occurrence message details ∷ []

abbrev subject : Policy → Entity → String
subject policy entity = policy.name <> " in " <> to_lower entity.kind <> " " <> entity.name

module _ {Sink : Type 0} (env : Env) (v : OpaValidator Sink) (entity : Entity)
    (trigger : String) where
  -- The fields that both kinds of result share.
  unfoldable pub new_result : ℕ → Policy → PolicyValidation
  new_result index policy = record {
    id = env.new_id index;
    account_id = v.account_id;
    cluster_id = v.cluster_id;
    policy = policy;
    entity = entity;
    status = status_compliant;
    message = "";
    occurrences = [];
    type = v.validation_type;
    trigger = trigger;
    created_at = env.now index;
    metadata = null;
    enforced = policy.enforce;
  }

  unfoldable pub new_violation : ℕ → Policy → Value → PolicyValidation
  unfolding new_result
  new_violation index policy details =
      let occurrences = parse_details (subject policy entity) details in
      record (new_result index policy) {
        message = subject policy entity <> " (" <> decimal (length occurrences) <> " occurrences)";
        status = status_violating;
        occurrences = occurrences;
      }

  -- What the goroutine sends for the answer of an evaluation.
  unfoldable pub outcome_of : ℕ → Policy → Run Verdict → Outcome
  outcome_of index policy panics = crashed
  outcome_of index policy (returns valid) = compliant (new_result index policy)
  outcome_of index policy (returns (invalid details)) =
      violating (new_violation index policy details)
  outcome_of index policy (returns (failed e)) =
      Workers.failed
        ("unable to evaluate resource against policy. policy id: " <> policy.id <> ". " <> e)

  -- A policy whose code has been parsed, evaluated with its parameters.
  unfoldable pub evaluate : Option PolicyConfig → ℕ → Policy → Run (Result OpaPolicy) → Outcome
  evaluate config index policy panics = crashed
  evaluate config index policy (returns (err e)) =
      Workers.failed ("failed to parse policy " <> policy.id <> ": " <> e)
  evaluate config index policy (returns (ok code)) =
      let (policy', parameters) = resolve_parameters config policy in
      outcome_of index policy' (
        eval_gate_keeper_compliant env.rego env.accessors env.json.marshal code entity.manifest
          parameters "violation")

  -- The body of the goroutine for the policy at an index.
  unfoldable pub check_policy : Option PolicyConfig → ℕ × Policy → Outcome
  check_policy config (index, policy) =
      if not (match_entity entity policy)
      then skipped
      else if is_excluded entity policy
      then skipped
      else evaluate config index policy (parse env.rego policy.code "violation")

unfoldable pub enumerate_from {ℓ} : {A : Type ℓ} → ℕ → List A → List (ℕ × A)
enumerate_from n [] = []
enumerate_from n (x ∷ xs) = (n, x) ∷ enumerate_from (suc n) xs

unfoldable pub unmutated : List Occurrence → List Occurrence
unmutated [] = []
unmutated (o ∷ os) = if not o.mutated then o ∷ unmutated os else unmutated os

module _ (yaml : Yaml) (json : Json) where
  -- The loop over the violations. The copy that is kept shares its occurrences with the list that
  -- `Mutate` marks, so it keeps them all; the shorter list is written elsewhere and not read again.
  unfoldable pub mutate_violations :
      MutationResult yaml.Node
      → List PolicyValidation
      → MutationResult yaml.Node × List PolicyValidation
  mutate_violations m [] = (m, [])
  mutate_violations m (violation ∷ violations) =
      let skip = mutate_violations m violations in
      let (m', occurrences) = mutate yaml json m violation.occurrences in
      let (final, kept) = mutate_violations m' violations in
      if not violation.policy.mutate
      then skip
      else if is_empty (unmutated occurrences)
      then (final, kept)
      else (final, record violation { occurrences = occurrences } ∷ kept)

  -- Both branches on `v.mutate`.
  unfoldable pub apply_mutations :
      Bool
      → Entity
      → List PolicyValidation
      → Result (Option (MutationResult yaml.Node) × List PolicyValidation)
  apply_mutations false entity violations = ok (none, violations)
  apply_mutations true entity violations = do
    m ← new_mutation_result yaml json entity
    ok (let (final, kept) = mutate_violations m violations in (some final, kept))

-- The error for the errors of the goroutines.
abbrev pub failure_text : Env → Entity → List String → String
failure_text env entity errors =
    "encountered errors while validating policies against resource "
    <> entity.kind
    <> "/"
    <> entity.name
    <> ": "
    <> env.multierror errors

module _ {Sink : Type 0} (yaml : Yaml) (env : Env) (v : OpaValidator Sink) where
  -- What follows the goroutines.
  unfoldable pub conclude :
      Entity
      → Channels
      → Run (Result (PolicyValidationSummary yaml.Node × List (Sink × List PolicyValidation)))
  conclude entity c =
      if not (is_empty c.crashes)
      then panics
      else if not (is_empty c.errors)
      then returns (err (failure_text env entity c.errors))
      else returns do
        mutation ← apply_mutations yaml env.json v.mutates entity c.violations
        let summary : PolicyValidationSummary yaml.Node = record {
          violations = mutation.1;
          compliances = c.compliances;
          mutation = mutation.0;
        }
        ok (summary, write_to_sinks v.results_sinks summary v.write_compliance)

  abbrev Answer : Type 0
  Answer = Run (Result (PolicyValidationSummary yaml.Node × List (Sink × List PolicyValidation)))

  with_config : Entity → String → List Policy → Result (Option PolicyConfig) → Answer
  with_config entity trigger policies (err e) =
      returns (err ("failed to get policy config from source: " <> e))
  with_config entity trigger policies (ok config) =
      conclude entity
        (env.scheduler.run (check_policy env v entity trigger config) (enumerate_from 0 policies))

  with_policies : Entity → String → Result (List Policy) → Answer
  unfolding with_config
  with_policies entity trigger (err e) = returns (err ("failed to get policies from source: " <> e))
  with_policies entity trigger (ok policies) =
      with_config entity trigger policies (v.policies_source.get_policy_config entity)

  -- `Validate`: a panic of a goroutine ends the process; otherwise the summary, and the calls of
  -- `Write` that reach the sinks before it is returned.
  unfoldable pub validate :
      Entity
      → String
      → Run (Result (PolicyValidationSummary yaml.Node × List (Sink × List PolicyValidation)))
  unfolding with_policies
  validate entity trigger = with_policies entity trigger v.policies_source.get_all

  -- Where both sources answer, the rest of `Validate` runs on what they give.
  pub validate-conclude :
      (entity : Entity) (trigger : String) (policies : List Policy) (config : Option PolicyConfig)
      → v.policies_source.get_all ≡ ok policies
      → v.policies_source.get_policy_config entity ≡ ok config
      → validate entity trigger
        ≡ conclude entity (
            env.scheduler.run
              (check_policy env v entity trigger config)
              (enumerate_from 0 policies))
  unfolding validate
  validate-conclude entity trigger policies config listed configured =
      ap (with_policies entity trigger) listed ∙ ap (with_config entity trigger policies) configured
