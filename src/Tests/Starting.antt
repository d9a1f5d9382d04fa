-- ===== src/Tests/Starting.antt =====
-- Starts of the agent.
use policy_agent.Prelude.{
  String, true, false, List, [], ◌∷◌, none, some, ok, ◌≡◌, refl, ◌↔◌, contains, exists_where,
  split_char,
}
use policy_agent.Value.{text}
use policy_agent.Api.{PolicyCrd}
use policy_agent.PolicyConfigs.{flux_controller_kind_map}
use policy_agent.Entities.{
  get_entities_sources, get_validate_rules, collect_rules, allows_list, covers, check_allowed,
  new_rules_cache, list_sources, resource_sources, find_source, EntitySource,
}
use policy_agent.Auditor.{event}
use policy_agent.Kube.{new_kube_client, get_agent_permissions, get_api_resources}
use policy_agent.Elastic.Schema.{Client, create_index_schema, new_elastic_search_sink}
use policy_agent.Sinks.FileSystem.{new_file_system_sink}
use policy_agent.Sinks.KubernetesEvents.{new_k8s_event_sink}
use policy_agent.Agent.{SinksConfig, Config, Progress, done, failed, continue_with, attempt}
use policy_agent.Agent.Configuration.{
  Viper, get_agent_configuration, split_path, missing_field, read_credentials, get_field,
}
use policy_agent.Agent.Startup.{
  log_path, Runnable, file_system, elastic_search, audit_controller, Platform, check_config,
  init_file_system_sink, init_k8s_event_sink, init_flux_notification_sink, init_elastic_search_sink,
}
use policy_agent.Agent.Modes.{
  Agent, with_file_system, with_k8s_events, with_flux_notification, with_elastic, init_sinks,
  start_audit, audit_interval, prepare, set_up_controller, start_agent, nothing_started, assemble,
  new_opa_validator,
}
use policy_agent.Agent.Process.{serves, crashes, exit_with, main}
use policy_agent.Agent.Wired.{IsWired}
use policy_agent.Agent.Wiring.{main-IsWired}
use policy_agent.Agent.Failures.{main-crashes_iff}

starting : Unit {0}
unfolding main continue_with attempt get_agent_configuration split_path missing_field
    read_credentials get_field check_config contains prepare get_entities_sources get_validate_rules
    collect_rules allows_list covers check_allowed new_rules_cache list_sources resource_sources
    find_source init_sinks with_file_system with_k8s_events with_flux_notification with_elastic
    init_file_system_sink init_k8s_event_sink init_flux_notification_sink init_elastic_search_sink
    new_file_system_sink new_k8s_event_sink new_elastic_search_sink create_index_schema start_audit
    audit_interval set_up_controller start_agent exit_with exists_where new_kube_client
    get_agent_permissions get_api_resources
starting = tt

abbrev client : Client
client = record {
  exists = λ index. ok 404;
  create = λ index. ok 200;
  put_mapping = λ index. ok 200;
}

-- A platform on which everything works, for a cluster with the given policies.
abbrev pub platform_with : List PolicyCrd → Platform
platform_with crds = record {
  in_cluster_config = ok tt;
  build_config_from_flags = λ path. ok tt;
  add_core_to_scheme = ok tt;
  add_policies_to_scheme = ok tt;
  new_manager = λ c. ok tt;
  add_healthz_check = ok tt;
  add_readyz_check = ok tt;
  permissions = ok (
      record { verbs = "*" ∷ []; api_groups = "*" ∷ []; resources = "*" ∷ []; resource_names = [] }
      ∷ []);
  api_resources = ok (
      record {
        group_version = ok ("", "v1");
        api_resources = record { name = "pods"; kind = "Pod"; verbs = "list" ∷ [] } ∷ [];
      }
      ∷ []);
  open_file = λ path. ok path;
  new_clientset = ok tt;
  new_dynamic_client = ok tt;
  hostname = ok "node";
  new_recorder = λ address. ok tt;
  new_elastic_client = λ address user password. ok client;
  create_event = λ cancelled e. true;
  codec = record {
    marshal_standards = λ s. ok "";
    marshal_manifest = λ m. ok "";
    marshal_occurrences = λ o. ok "";
    marshal_parameters = λ p. ok "";
    unmarshal_standards = λ t. ok [];
    unmarshal_manifest = λ t. ok [];
    unmarshal_occurrences = λ t. ok [];
    unmarshal_parameters = λ t. ok [];
  };
  now = λ r. 0;
  flux_kinds = flux_controller_kind_map;
  unmarshal = λ raw. ok (text raw);
  list_policies = ok crds;
  list_configs = ok [];
  get_namespace_labels = λ n. ok [];
  setup_controller = ok tt;
}

-- The source that the cluster's answers give.
abbrev pub pods : EntitySource
pods = record { group = ""; version = "v1"; resource = "pods"; kind = "Pod"; resource_names = [] }

abbrev platform : Platform
platform = platform_with []

-- A file sink, and an elastic sink with the given mode of insertion.
abbrev sinks : String → SinksConfig
sinks mode = record {
  filesystem_sink = some (record { file_name = "audit.json" });
  flux_notification_sink = none;
  k8s_events_sink = none;
  elastic_sink = some (record {
    index_name = "results";
    address = "";
    username = "";
    password = "";
    insertion_mode = mode;
  });
}

abbrev config : String → Config
config mode = record {
  kube_config_file = "";
  account_id = "account";
  cluster_id = "cluster";
  log_level = "info";
  probes_listen = ":9000";
  metrics_address = ":8080";
  admission = record {
    enabled = true;
    webhook = record { listen = 8443; cert_dir = "/certs" };
    sinks = sinks "insert";
    mutate = true;
  };
  audit = record { write_compliance = true; enabled = true; sinks = sinks mode; interval = 24 };
  tf_admission = record { enabled = false; sinks = sinks "insert" };
}

abbrev pub viper : String → Viper
viper mode = record {
  read_in_config = λ dir file. ok tt;
  is_set = λ defaults key. true;
  unmarshal = λ defaults. ok (config mode);
  get = λ defaults key. text "";
}

-- The configuration is the one above, with the fields of the elastic sinks read again.
abbrev pub read : String → Config
read mode = read_credentials (λ key. text "") (config mode)

main-crashes_iff_example : (main platform (viper "replace") "config.yaml" ≡ crashes) ↔ (
    (q : Progress Runnable) × (e : String) × (start_agent platform (read "replace") nothing_started
      ≡ (q, failed e)))
unfolding starting
main-crashes_iff_example =
    main-crashes_iff platform (viper "replace") "config.yaml" (read "replace") (pods ∷ [])
      (record { file_name = "audit.json" }) (log_path "audit.json") refl refl refl refl refl refl

abbrev file : Runnable
file = file_system (log_path "audit.json")

-- That agent does crash.
crash : main platform (viper "replace") "config.yaml" ≡ crashes
unfolding starting
crash = main-crashes_iff_example.1 (
  record { registered = file ∷ []; deferred = file ∷ [] },
  "failed to initialize elasticsearch sink, insertion mode should be one of two options: insert or upsert",
  refl,
)

log_path_tests : (log_path "audit.json" ≡ "/logs/audit.json") × (log_path "../a//b" ≡ "/a/b")
unfolding log_path split_char
log_path_tests = (refl, refl)

abbrev pub results : List Runnable
results = file ∷ elastic_search "" ∷ []

-- The agent that serves where the mode of insertion is known, and what is runnables for it.
abbrev pub agent_with : List PolicyCrd → Agent
agent_with crds =
    assemble (platform_with crds) (read "insert")
      (some (record {
        validator =
            new_opa_validator (platform_with crds) (read "insert") "kubernetes" true "Audit" false
              results;
        sources = pods ∷ [];
        interval = 86400000000000;
        pending = event "initial-audit" ∷ [];
      }))
      results []

abbrev pub runnables : List Runnable
runnables =
    audit_controller 86400000000000 ∷ elastic_search "" ∷ file ∷ elastic_search "" ∷ file ∷ []

pub serving :
    (crds : List PolicyCrd)
    → main (platform_with crds) (viper "insert") "config.yaml" ≡ serves (agent_with crds) runnables
unfolding starting
serving crds = refl

main-IsWired_example :
    (c : Config) × (get_agent_configuration (viper "insert") "config.yaml" nothing_started
      ≡ (nothing_started, done c))
    × IsWired platform c (agent_with []) runnables
main-IsWired_example =
    main-IsWired platform (viper "insert") "config.yaml" (agent_with []) runnables (serving [])
