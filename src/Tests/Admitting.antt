-- ===== src/Tests/Admitting.antt =====
-- A request to the webhook of an agent that has been started.
use policy_agent.Prelude.{
  ℕ, String, true, false, List, [], ◌∷◌, some, Result, ok, err, Run, returns, panics, Map, ◌≡◌,
  refl, ◌↔◌, inl, inr, Any, arith, lookup, insert, delete, contains, exists_where, split_text,
}
use policy_agent.Value.{Value, object, no_fields}
use policy_agent.Domain.{
  Policy, PolicyConfig, PolicyValidationSummary, new_entity_from_spec, get_parameters_map,
  collect_parameters,
}
use policy_agent.Matching.{match_entity, is_excluded, label_selects}
use policy_agent.Api.{PolicyCrd}
use policy_agent.PolicyConfigs.{
  get_policy_config, get_flux_object, match_configs, entity_workspace, merge_configs, decode_config,
  override,
}
use policy_agent.Watcher.{
  match_provider, convert_parameter, convert_policy, convert_policies, get_all,
}
use policy_agent.Opa.{
  parse, eval, eval_gate_keeper_compliant, read_results, read_values, read_value,
}
use policy_agent.Validation.{
  OpaValidator, check_policy, evaluate, parse_details, parse_occurrence, outcome_of, new_violation,
  new_result, resolve_parameters, override_parameters, override_parameter, enumerate_from, validate,
  conclude, apply_mutations,
}
use policy_agent.Validation.Workers.{Outcome, crashed, run_in_order, deliver}
use policy_agent.Validation.Reports.{IsFailed}
use policy_agent.Handlers.{ValidateFn, Request, handle_admission}
use policy_agent.Handlers.Laws.{lets_pass}
use policy_agent.Handlers.Blocking.{IsAnswer, IsBlocking}
use policy_agent.Agent.Configuration.{read_credentials, get_field}
use policy_agent.Agent.Startup.{Runnable}
use policy_agent.Agent.Modes.{new_opa_validator}
use policy_agent.Agent.Admission.{main-IsBlocking_iff}
use policy_agent.Tests.{yaml, env, accessors, deny}
use policy_agent.Tests.Starting.{
  platform_with, viper, read, results, agent_with, runnables, serving,
}

admitting : Unit {0}
unfolding check_policy evaluate outcome_of parse_details parse_occurrence new_violation new_result
    resolve_parameters override_parameters override_parameter get_parameters_map collect_parameters
    match_entity is_excluded label_selects parse eval eval_gate_keeper_compliant read_results
    read_values read_value lookup insert delete contains exists_where split_text
    new_entity_from_spec enumerate_from get_policy_config get_flux_object match_configs
    entity_workspace merge_configs decode_config override match_provider convert_parameter
    convert_policy convert_policies get_all read_credentials get_field
admitting = tt

-- The policy "deny" for a provider.
abbrev crd_for : String → PolicyCrd
crd_for provider = record {
  meta = record {
    api_version = "pac.weave.works/v2beta3";
    kind = "Policy";
    uid = "uid";
    name = "deny";
    namespace = "";
    resource_version = "1";
    field_path = "";
  };
  spec = record {
    name = deny.name;
    id = deny.id;
    code = deny.code;
    enforce = true;
    parameters = [];
    targets = deny.targets;
    description = "";
    how_to_solve = "";
    category = "";
    tags = [];
    severity = "high";
    standards = [];
    provider = provider;
    mutate = false;
    exclude = deny.exclude;
  };
}

abbrev crds : List PolicyCrd
crds = crd_for "terraform" ∷ crd_for "kubernetes" ∷ []

abbrev validator : OpaValidator Runnable
validator =
    new_opa_validator (platform_with crds) (read "insert") "kubernetes" false "Admission" false
      results

abbrev answer_of :
    {N W : Type 0}
    → Run (Result (PolicyValidationSummary N × W))
    → Result (PolicyValidationSummary N)
answer_of (returns (ok (s, writes))) = ok s
answer_of (returns (err e)) = err e
answer_of panics = err ""

abbrev ask : ValidateFn yaml.Node
ask entity operation = answer_of (validate yaml env validator entity operation)

abbrev spec : Map Value
spec = ("metadata", object no_fields) ∷ []

abbrev unmarshal : String → Result (Map Value)
unmarshal raw = ok spec

abbrev request : Request
request = record { namespace = "shop"; name = "web"; raw = "{}"; operation = "CREATE" }

abbrev config : PolicyConfig
config = record { config = [] }

abbrev jobs : List (ℕ × Policy)
jobs = enumerate_from 0 (convert_policies (platform_with crds).unmarshal "kubernetes" crds)

abbrev outcome_for : ℕ × Policy → Outcome
outcome_for =
    check_policy env validator (new_entity_from_spec accessors spec) "CREATE" (some config)

answered :
    IsAnswer
      (validate yaml env validator (new_entity_from_spec accessors spec) "CREATE")
      (ask (new_entity_from_spec accessors spec) "CREATE")
unfolding admitting validate conclude apply_mutations run_in_order deliver
answered = refl

none_crash : ¬ Any (λ j. outcome_for j ≡ crashed) jobs
unfolding admitting
none_crash h = elim h [ inl e ↦ ground arith | inr z ↦ z ]

none_fail : ¬ Any (λ j. IsFailed (outcome_for j)) jobs
unfolding admitting
none_fail h = elim h [ inl e ↦ e | inr z ↦ z ]

admitted : (agent_with crds).admission ≡ some validator
unfolding admitting
admitted = refl

configured :
    get_policy_config
      (platform_with crds).unmarshal
      (platform_with crds).list_configs
      (platform_with crds).get_namespace_labels
      (platform_with crds).flux_kinds
      (new_entity_from_spec accessors spec)
    ≡ ok config
unfolding admitting
configured = refl

main-IsBlocking_iff_example :
    (lets_pass (handle_admission accessors unmarshal ask request) ≡ true)
    ↔ (¬ Any (λ j. IsBlocking (outcome_for j)) jobs)
main-IsBlocking_iff_example =
    main-IsBlocking_iff (platform_with crds) (viper "insert") "config.yaml" (agent_with crds)
      runnables validator yaml env accessors unmarshal ask request spec crds config (serving crds)
      admitted refl configured refl refl answered none_crash none_fail
