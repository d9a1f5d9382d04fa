-- ===== src/Agent/Configuration.antt =====
-- configuration/config.go: how the configuration is read.
use policy_agent.Prelude.{
  String, Bool, not, List, [], ◌∷◌, Option, none, some, Result, ok, err, Map, if◌then◌else◌, ◌<>◌,
  split_char,
}
use policy_agent.Value.{Value, text, number}
use policy_agent.Agent.{Config, SinksConfig, Setup, done, exits}

-- The viper library, which has the file and the environment: each call is given the defaults.
pub record Viper : Type 0 where
  pub read_in_config : String → String → Result (Unit {0})
  pub is_set : Map Value → String → Bool
  pub unmarshal : Map Value → Result Config
  pub get : Map Value → String → Value

abbrev pub defaults : Map Value
defaults =
    ("kubeConfigFile", text "")
    ∷ ("metricsAddress", text ":8080")
    ∷ ("probesListen", text ":9000")
    ∷ ("logLevel", text "info")
    ∷ ("admission.webhook.listen", number "8443")
    ∷ ("admission.webhook.certDir", text "/certs")
    ∷ ("audit.interval", number "24")
    ∷ []

-- `filepath.Split`: the directory with its last slash, and the file.
join_path : List String → String × String
join_path [] = ("", "")
join_path (file ∷ []) = ("", file)
join_path (part ∷ next ∷ rest) =
    let (dir, file) = join_path (next ∷ rest) in (part <> "/" <> dir, file)

unfoldable pub split_path : String → String × String
unfolding join_path
split_path path = join_path (split_char b'/' path)

-- `checkRequiredFields`: the first field that is missing.
unfoldable pub missing_field : (String → Bool) → List String → Option String
missing_field is_set [] = none
missing_field is_set (field ∷ fields) =
    let rest = missing_field is_set fields in if not (is_set field) then some field else rest

abbrev pub required_fields : List String
required_fields = "accountId" ∷ "clusterId" ∷ []

-- `getField`: a value that is not a text counts as empty.
unfoldable pub get_field : (String → Value) → String → String
get_field get key = elim (get key) [ text s ↦ s | _ ↦ "" ]

-- The elastic section of a mode, its four fields read again by their keys.
abbrev pub read_elastic : (String → Value) → String → SinksConfig → SinksConfig
read_elastic get mode sinks = elim sinks.elastic_sink [
  | none ↦ sinks
  | some e ↦ record sinks {
    elastic_sink = some (record e {
      address = get_field get (mode <> ".sinks.elasticSink.address");
      index_name = get_field get (mode <> ".sinks.elasticSink.indexname");
      username = get_field get (mode <> ".sinks.elasticSink.username");
      password = get_field get (mode <> ".sinks.elasticSink.password");
    });
  }
]

-- The two tests at the end.
unfoldable pub read_credentials : (String → Value) → Config → Config
read_credentials get c = record c {
  admission =
      if c.admission.enabled
      then record (c.admission) { sinks = read_elastic get "admission" c.admission.sinks }
      else c.admission;
  audit =
      if c.audit.enabled
      then record (c.audit) { sinks = read_elastic get "audit" c.audit.sinks }
      else c.audit;
}

-- `GetAgentConfiguration`, which ends the process on every error.
unfoldable pub get_agent_configuration : {R : Type 0} → Viper → String → Setup R Config
get_agent_configuration viper file_path p =
    let (dir, file) = split_path file_path in
    elim (viper.read_in_config dir file) [
      | err e ↦ (p, exits e)
      | ok _ ↦ elim (missing_field (viper.is_set defaults) required_fields) [
        | some field ↦ (p, exits ("missing key in agent configuration file: " <> field))
        | none ↦ elim (viper.unmarshal defaults) [
          | err e ↦ (p, exits e)
          | ok c ↦ (p, done (read_credentials (viper.get defaults) c))
        ]
      ]
    ]

abbrev pub log_levels : List String
log_levels = "info" ∷ "warn" ∷ "debug" ∷ "error" ∷ []
