-- ===== src/Agent/Admission.antt =====
-- The admission webhook of an agent that serves (main.go, internal/policies, internal/admission and
-- pkg/policy-core/validation).
use policy_agent.Prelude.{
  ℕ, String, true, false, List, some, Result, ok, Map, ◌≡◌, refl, ap, ◌∙◌, ◌↔◌, Any,
}
use policy_agent.Value.{Value}
use policy_agent.Domain.{Policy, PolicyConfig, Accessors, new_entity_from_spec, Entity}
use policy_agent.Domain.Mutation.{Yaml}
use policy_agent.Api.{PolicyCrd}
use policy_agent.PolicyConfigs.{get_policy_config}
use policy_agent.Watcher.{convert_policies, get_all}
use policy_agent.Validation.{Env, OpaValidator, check_policy, enumerate_from, validate}
use policy_agent.Validation.Workers.{Outcome, crashed}
use policy_agent.Validation.Reports.{IsFailed}
use policy_agent.Handlers.{ValidateFn, Request, is_system, handle_admission}
use policy_agent.Handlers.Laws.{lets_pass}
use policy_agent.Handlers.Blocking.{IsAnswer, IsBlocking, handle_admission-IsBlocking_iff}
use policy_agent.Agent.Configuration.{Viper}
use policy_agent.Agent.Startup.{Runnable, Platform}
use policy_agent.Agent.Modes.{Agent}
use policy_agent.Agent.Process.{serves, main}
use policy_agent.Agent.Wired.{OnlyIf-some, IsRunning}
use policy_agent.Agent.Wiring.{main-IsWired}

module _ (x : Platform) (viper : Viper) (file_path : String) (a : Agent) (all : List Runnable)
    (v : OpaValidator Runnable) (yaml : Yaml) (env : Env) (accessors : Accessors)
    (unmarshal : String → Result (Map Value)) (ask : ValidateFn yaml.Node) (req : Request)
    (spec : Map Value) (crds : List PolicyCrd) (config : PolicyConfig) where
  abbrev entity : Entity
  entity = new_entity_from_spec accessors spec

  abbrev work : ℕ × Policy → Outcome
  work = check_policy env v entity req.operation (some config)

  -- The policies of the cluster that are for Kubernetes.
  abbrev jobs : List (ℕ × Policy)
  jobs = enumerate_from 0 (convert_policies x.unmarshal "kubernetes" crds)

  -- The admission webhook of an agent that serves: for a request outside the system namespaces whose
  -- object can be read, when the cluster's policies and the policy config of the object can be read
  -- and no policy panics or fails, it lets the request pass exactly if the object violates no
  -- enforced policy of the cluster that is for the provider "kubernetes".
  pub main-IsBlocking_iff :
      main x viper file_path ≡ serves a all
      → a.admission ≡ some v
      → x.list_policies ≡ ok crds
      → get_policy_config x.unmarshal x.list_configs x.get_namespace_labels x.flux_kinds entity
        ≡ ok config
      → is_system req.namespace ≡ false
      → unmarshal req.raw ≡ ok spec
      → IsAnswer (validate yaml env v entity req.operation) (ask entity req.operation)
      → ¬ Any (λ j. work j ≡ crashed) jobs
      → ¬ Any (λ j. IsFailed (work j)) jobs
      → (lets_pass (handle_admission accessors unmarshal ask req) ≡ true)
        ↔ (¬ Any (λ j. IsBlocking (work j)) jobs)
  unfolding get_all
  main-IsBlocking_iff serving admits listed configured outside readable answers calm clean =
      let (c, _, wired) = main-IsWired x viper file_path a all serving in
      let runs =
        OnlyIf-some c.admission.enabled (IsRunning x c "kubernetes" "Admission" false all)
          a.admission v wired.admission admits in
      let source = runs.source_is in
      handle_admission-IsBlocking_iff yaml env v accessors unmarshal ask req spec
        (convert_policies x.unmarshal "kubernetes" crds) (some config) outside readable
        (ap (λ s. s.get_all) source ∙ rw listed refl)
        (ap (λ s. s.get_policy_config entity) source ∙ rw configured refl) answers runs.mutates_is
        calm clean
