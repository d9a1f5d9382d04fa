-- ===== src/Agent/Modes.antt =====
-- main.go: the sinks and the validator of each mode of operation, and the start as a whole.
use policy_agent.Prelude.{
  ℕ, String, Bool, true, false, not, ◌&&◌, List, [], ◌∷◌, ◌++◌, Option, none, some, Result, ok, err,
  map_err, Run, returns, panics, ltb, if◌then◌else◌, ◌==◌, ◌<>◌, ◌*◌, ◌%◌, ◌^◌,
}
use policy_agent.Prelude
use policy_agent.PolicyConfigs.{get_policy_config}
use policy_agent.Watcher.{get_all}
use policy_agent.Validation.{PoliciesSource, OpaValidator}
use policy_agent.Entities.{EntitySource, get_entities_sources}
use policy_agent.Kube.{new_kube_client, get_agent_permissions, get_api_resources}
use policy_agent.Auditor
use policy_agent.Auditor.{Signal}
use policy_agent.Agent.{
  FileSystemSinkConfig, FluxNotificationSinkConfig, K8sEventsSinkConfig, ElasticSinkConfig,
  SinksConfig, Config, Progress, done, exits, Setup, ◌>>=◌, pure, attempt,
}
use policy_agent.Agent.Startup.{
  Runnable, audit_controller, Platform, run_later, stop_at_end, init_file_system_sink,
  init_k8s_event_sink, init_flux_notification_sink, init_elastic_search_sink,
}

-- The running parts of each mode: the validator of a webhook, and of the audit also what it goes
-- through, the nanoseconds between two audits, and the events that wait for it.
pub record Audit : Type 0 where
  pub validator : OpaValidator Runnable
  pub sources : List EntitySource
  pub interval : ℕ
  pub pending : List Signal

pub record Agent : Type 0 where
  pub audit : Option Audit
  pub admission : Option (OpaValidator Runnable)
  pub mutation : Option (OpaValidator Runnable)
  pub terraform : Option (OpaValidator Runnable)

-- `time.Duration(config.Audit.Interval) * time.Hour`: the bits of an int64, in which the product of
-- the hours and the nanoseconds of an hour wraps around.
unfoldable pub audit_interval : ℕ → ℕ
audit_interval hours = (hours * 3600000000000) % 2 ^ 64

abbrev pub nothing_started : Progress Runnable
nothing_started = record { registered = []; deferred = [] }

module _ (x : Platform) where
  unfoldable pub with_file_system : Option FileSystemSinkConfig → Setup Runnable (List Runnable)
  with_file_system none = pure []
  with_file_system (some c) = do
    sink ← init_file_system_sink x c.file_name
    deferred ← stop_at_end sink
    pure (sink ∷ [])

  unfoldable pub with_k8s_events : Option K8sEventsSinkConfig → Setup Runnable (List Runnable)
  with_k8s_events none = pure []
  with_k8s_events (some c) =
      if not c.enabled
      then pure []
      else do sink ← init_k8s_event_sink x; deferred ← stop_at_end sink; pure (sink ∷ [])

  unfoldable pub with_flux_notification :
      Option FluxNotificationSinkConfig → Setup Runnable (List Runnable)
  with_flux_notification none = pure []
  with_flux_notification (some c) = do
    sink ← init_flux_notification_sink x c.address
    deferred ← stop_at_end sink
    pure (sink ∷ [])

  unfoldable pub with_elastic : Option ElasticSinkConfig → Setup Runnable (List Runnable)
  with_elastic none = pure []
  with_elastic (some c) = do sink ← init_elastic_search_sink x c; pure (sink ∷ [])

  -- The block on the sinks of one mode, which the source has three times.
  unfoldable pub init_sinks : Bool → SinksConfig → Setup Runnable (List Runnable)
  unfolding with_file_system with_k8s_events with_flux_notification with_elastic
  init_sinks false c = pure []
  init_sinks true c = do
    file ← with_file_system c.filesystem_sink
    events ← with_k8s_events c.k8s_events_sink
    flux ← with_flux_notification c.flux_notification_sink
    elastic ← with_elastic c.elastic_sink
    pure (file ++ events ++ flux ++ elastic)

  -- `NewPoliciesWatcher`.
  abbrev pub new_policies_watcher : String → PoliciesSource
  new_policies_watcher provider = record {
    get_all = get_all x.unmarshal provider x.list_policies;
    get_policy_config = λ entity.
        Prelude.◌>>=◌
          (get_policy_config x.unmarshal x.list_configs x.get_namespace_labels x.flux_kinds entity)
          (λ config. ok (some config));
  }

  -- `NewOPAValidator`, with the arguments that differ between the modes.
  abbrev pub new_opa_validator :
      Config → String → Bool → String → Bool → List Runnable → OpaValidator Runnable
  new_opa_validator c provider write_compliance type mutates sinks = record {
    policies_source = new_policies_watcher provider;
    results_sinks = sinks;
    write_compliance = write_compliance;
    validation_type = type;
    account_id = c.account_id;
    cluster_id = c.cluster_id;
    mutates = mutates;
  }

  -- The block on `config.Audit.Enabled`.
  unfoldable pub start_audit :
      Config → List EntitySource → List Runnable → Setup Runnable (Option Audit)
  start_audit c sources sinks =
      if not c.audit.enabled
      then pure none
      else if ltb c.audit.interval 1
      then (λ p. (p, exits "audit interval can not be less than 1 hour, current interval: 0s"))
      else do
        added ← run_later (audit_controller (audit_interval c.audit.interval))
        pure (
            some (record {
              validator =
                  new_opa_validator c "kubernetes" c.audit.write_compliance "Audit" false sinks;
              sources = sources;
              interval = audit_interval c.audit.interval;
              pending = Auditor.event "initial-audit" ∷ [];
            }))

  -- The blocks on `config.Admission.Enabled`, `config.Admission.Mutate` and
  -- `config.TFAdmission.Enabled`, in which nothing fails.
  abbrev pub start_admission : Config → List Runnable → Option (OpaValidator Runnable)
  start_admission c sinks =
      if c.admission.enabled
      then some (new_opa_validator c "kubernetes" false "Admission" false sinks)
      else none

  abbrev pub start_mutation : Config → Option (OpaValidator Runnable)
  start_mutation c =
      if c.admission.enabled && c.admission.mutate
      then some (new_opa_validator c "kubernetes" false "Admission" true [])
      else none

  abbrev pub start_terraform : Config → List Runnable → Option (OpaValidator Runnable)
  start_terraform c sinks =
      if c.tf_admission.enabled
      then some (new_opa_validator c "terraform" false "TFAdmission" false sinks)
      else none

  abbrev pub assemble : Config → Option Audit → List Runnable → List Runnable → Agent
  assemble c audit admission_sinks terraform_sinks = record {
    audit = audit;
    admission = start_admission c admission_sinks;
    mutation = start_mutation c;
    terraform = start_terraform c terraform_sinks;
  }

  -- What comes before the sinks.
  unfoldable pub prepare : Config → Setup Runnable (List EntitySource)
  prepare c = do
    loaded ← attempt (
        map_err (λ e. "failed to load Kubernetes config: " <> e)
          (if c.kube_config_file == ""
            then x.in_cluster_config
            else x.build_config_from_flags c.kube_config_file))
    core ← attempt (map_err (λ e. "failed to add core v1 to scheme: " <> e) x.add_core_to_scheme)
    pac ←
        attempt
          (map_err (λ e. "failed to add policy crd to scheme: " <> e) x.add_policies_to_scheme)
    mgr ← attempt (map_err (λ e. "failed to initialize manager: " <> e) (x.new_manager c))
    live ←
        attempt
          (map_err (λ e. "failed to register liveness probe check: " <> e) x.add_healthz_check)
    ready ←
        attempt
          (map_err (λ e. "failed to register readiness probe check: " <> e) x.add_readyz_check)
    client ← attempt (
        map_err (λ e. "init client failed: " <> e)
          (new_kube_client x.new_clientset x.new_dynamic_client))
    attempt (
        map_err (λ e. "initializing entities sources failed: " <> e)
          (get_entities_sources (get_agent_permissions x.permissions)
            (get_api_resources x.api_resources)))

  -- The end of the process without deferred calls where the controller cannot be set up.
  unfoldable pub set_up_controller : Setup Runnable (Unit {0})
  set_up_controller p = elim x.setup_controller [ err e ↦ (p, exits e) | ok u ↦ (p, done u) ]

  -- `app.Action`, up to `mgr.Start`.
  unfoldable pub start_agent : Config → Setup Runnable Agent
  unfolding set_up_controller
  start_agent c = do
    sources ← prepare c
    audit_sinks ← init_sinks c.audit.enabled c.audit.sinks
    admission_sinks ← init_sinks c.admission.enabled c.admission.sinks
    terraform_sinks ← init_sinks c.tf_admission.enabled c.tf_admission.sinks
    audit ← start_audit c sources audit_sinks
    set_up ← set_up_controller
    pure (assemble c audit admission_sinks terraform_sinks)
