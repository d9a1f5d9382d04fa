-- ===== src/Agent/Startup.antt =====
-- main.go: the tests before the start, the sinks of each mode, and the validators and webhooks.
use policy_agent.Prelude.{
  ℕ, String, Bool, not, ◌&&◌, List, ◌∷◌, Result, ok, err, map_err, Map, contains, [], if◌then◌else◌,
  split_char, ◌||◌, ◌==◌, ◌<>◌,
}
use policy_agent.Value.{Value}
use policy_agent.Domain.{PolicyValidation}
use policy_agent.Domain.Event.{Event, Codec}
use policy_agent.Api.{PolicyCrd, PolicyConfigCrd, RawJson}
use policy_agent.Entities.{ResourceRule, ApiResourceList}
use policy_agent.Elastic.Schema.{Client, new_elastic_search_sink}
use policy_agent.Sinks.FileSystem.{new_file_system_sink}
use policy_agent.Sinks.KubernetesEvents.{K8sEventSink, new_k8s_event_sink}
use policy_agent.Sinks.FluxNotifications.{FluxNotificationSink}
use policy_agent.Agent.{ElasticSinkConfig, Config, done, Setup, ◌>>=◌, pure, attempt}
use policy_agent.Agent.Configuration.{log_levels}

abbrev pub event_reporting_controller : String
event_reporting_controller = "policy-agent"

-- `filepath.Clean` on the parts of a path from the root, the last of the parts so far first.
push_part : String → List String → List String
push_part part done_parts =
    if part == "" || part == "."
    then done_parts
    else if part == ".."
    then elim done_parts [ [] ↦ [] | p ∷ ps ↦ ps ]
    else part ∷ done_parts

clean_parts : List String → List String → List String
clean_parts done_parts [] = done_parts
clean_parts done_parts (part ∷ parts) = clean_parts (push_part part done_parts) parts

path_text : List String → String
path_text [] = ""
path_text (part ∷ parts) = path_text parts <> "/" <> part

-- `filepath.Join("/logs", name)`.
unfoldable pub log_path : String → String
unfolding push_part clean_parts path_text
log_path name =
    let path = path_text (clean_parts [] ("logs" ∷ split_char b'/' name)) in
    if path == "" then "/" else path

-- What is given to the manager to run.
pub data Runnable : Type 0 where
  file_system : String → Runnable
  k8s_events : K8sEventSink → Runnable
  flux_notifications : String → FluxNotificationSink → Runnable
  elastic_search : String → Runnable
  audit_controller : ℕ → Runnable

-- What the start calls outside the repository: controller-runtime and client-go, the Flux recorder,
-- the elasticsearch client, JSON, the clock and the operating system; and the cluster's answers.
pub record Platform : Type 0 where
  pub in_cluster_config : Result (Unit {0})
  pub build_config_from_flags : String → Result (Unit {0})
  pub add_core_to_scheme : Result (Unit {0})
  pub add_policies_to_scheme : Result (Unit {0})
  pub new_manager : Config → Result (Unit {0})
  pub add_healthz_check : Result (Unit {0})
  pub add_readyz_check : Result (Unit {0})
  pub permissions : Result (List ResourceRule)
  pub api_resources : Result (List ApiResourceList)
  pub open_file : String → Result String
  pub new_clientset : Result (Unit {0})
  pub new_dynamic_client : Result (Unit {0})
  pub hostname : Result String
  pub new_recorder : String → Result (Unit {0})
  pub new_elastic_client : String → String → String → Result Client
  pub create_event : Bool → Event → Bool
  pub codec : Codec
  pub now : PolicyValidation → ℕ
  pub flux_kinds : Map String
  pub unmarshal : RawJson → Result Value
  pub list_policies : Result (List PolicyCrd)
  pub list_configs : Result (List PolicyConfigCrd)
  pub get_namespace_labels : String → Result (Map String)
  pub setup_controller : Result (Unit {0})

-- `mgr.Add` and `defer sink.Stop()`.
abbrev pub run_later : Runnable → Setup Runnable (Unit {0})
run_later r p = (record p { registered = r ∷ p.registered }, done tt)

abbrev pub stop_at_end : Runnable → Setup Runnable (Unit {0})
stop_at_end r p = (record p { deferred = r ∷ p.deferred }, done tt)

-- The two tests of `app.Before`, once the configuration has been read.
unfoldable pub check_config : Config → Result (Unit {0})
check_config c =
    if not c.admission.enabled && not c.audit.enabled
    then err "agent needs to be run with at least one mode of operation"
    else if contains c.log_level log_levels
    then ok tt
    else err "invalid log level specified"

module _ (x : Platform) where
  -- `initFileSystemSink`.
  unfoldable pub init_file_system_sink : String → Setup Runnable Runnable
  init_file_system_sink file_name = do
    let path = log_path file_name
    sink ← attempt (
        map_err (λ e. "failed to initialize filesystem sink: " <> e)
          (new_file_system_sink x.open_file path))
    added ← run_later (file_system path)
    pure (file_system path)

  -- `initK8sEventSink`.
  unfoldable pub init_k8s_event_sink : Setup Runnable Runnable
  init_k8s_event_sink = do
    clientset ←
        attempt (map_err (λ e. "failed to initialize kubernetes clientset: " <> e) x.new_clientset)
    sink ← attempt (
        map_err (λ e. "failed to initialize kubernetes event sink: " <> e)
          (new_k8s_event_sink x.hostname x.create_event x.codec x.now x.flux_kinds
            event_reporting_controller))
    added ← run_later (k8s_events sink)
    pure (k8s_events sink)

  -- `initFluxNotificationSink`.
  unfoldable pub init_flux_notification_sink : String → Setup Runnable Runnable
  init_flux_notification_sink address = do
    recorder ←
        attempt
          (map_err (λ e. "failed to initialize event recorder: " <> e) (x.new_recorder address))
    let sink =
        flux_notifications address
          (record { codec = x.codec; now = x.now; flux_kinds = x.flux_kinds })
    added ← run_later sink
    pure sink

  -- `initElasticSearchSink`.
  unfoldable pub init_elastic_search_sink : ElasticSinkConfig → Setup Runnable Runnable
  init_elastic_search_sink c =
      if not (c.insertion_mode == "insert") && not (c.insertion_mode == "upsert")
      then attempt (
          err
            "failed to initialize elasticsearch sink, insertion mode should be one of two options: insert or upsert")
      else do
        sink ← attempt (
            map_err (λ e. "failed to initialize elasticsearch sink: " <> e)
              (new_elastic_search_sink x.new_elastic_client c.address c.username c.password
                c.index_name))
        added ← run_later (elastic_search c.index_name)
        pure (elastic_search c.index_name)
