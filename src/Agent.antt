-- ===== src/Agent.antt =====
-- configuration/config.go and main.go: the agent's configuration, and the start of the agent.
pub mod Configuration
pub mod Startup
pub mod Modes
pub mod Process
pub mod Stages
pub mod Sinks
pub mod Wired
pub mod Wiring
pub mod Interval
pub mod Admission
pub mod Auditing
pub mod Deferred
pub mod Failures
use policy_agent.Prelude.{ℕ, String, Bool, List, [], ◌∷◌, ◌++◌, Option, Result, ok, err, map_err}

-- The sections of the configuration file; a section of `Sinks` may be missing.
pub record FileSystemSinkConfig : Type 0 where
  pub file_name : String

pub record FluxNotificationSinkConfig : Type 0 where
  pub address : String

pub record K8sEventsSinkConfig : Type 0 where
  pub enabled : Bool

pub record ElasticSinkConfig : Type 0 where
  pub index_name : String
  pub address : String
  pub username : String
  pub password : String
  pub insertion_mode : String

pub record SinksConfig : Type 0 where
  pub filesystem_sink : Option FileSystemSinkConfig
  pub flux_notification_sink : Option FluxNotificationSinkConfig
  pub k8s_events_sink : Option K8sEventsSinkConfig
  pub elastic_sink : Option ElasticSinkConfig

pub record AdmissionWebhook : Type 0 where
  pub listen : ℕ
  pub cert_dir : String

pub record AdmissionConfig : Type 0 where
  pub enabled : Bool
  pub webhook : AdmissionWebhook
  pub sinks : SinksConfig
  pub mutate : Bool

pub record AuditConfig : Type 0 where
  pub write_compliance : Bool
  pub enabled : Bool
  pub sinks : SinksConfig
  pub interval : ℕ

pub record TfAdmissionConfig : Type 0 where
  pub enabled : Bool
  pub sinks : SinksConfig

pub record Config : Type 0 where
  pub kube_config_file : String
  pub account_id : String
  pub cluster_id : String
  pub log_level : String
  pub probes_listen : String
  pub metrics_address : String
  pub admission : AdmissionConfig
  pub audit : AuditConfig
  pub tf_admission : TfAdmissionConfig

-- How far a start has got: the runnables given to the manager and the sinks whose `Stop` is
-- deferred, the latest first.
pub record Progress (R : Type 0) : Type 0 where
  pub registered : List R
  pub deferred : List R

-- A step of the start goes on, returns an error, or ends the process.
pub data Halted (A : Type 0) : Type 0 where
  done : A → Halted A
  failed : String → Halted A
  exits : String → Halted A

abbrev pub Setup : Type 0 → Type 0 → Type 0
Setup R A = Progress R → Progress R × Halted A

unfoldable pub continue_with :
    {R A B : Type 0} → (A → Setup R B) → Progress R × Halted A → Progress R × Halted B
continue_with f (p, done a) = f a p
continue_with f (p, failed e) = (p, failed e)
continue_with f (p, exits e) = (p, exits e)

infixl 5 ◌>>=◌
abbrev pub ◌>>=◌ : {R A B : Type 0} → Setup R A → (A → Setup R B) → Setup R B
(m >>= f) p = continue_with f (m p)

abbrev pub pure : {R A : Type 0} → A → Setup R A
pure a p = (p, done a)

-- `if err != nil { return err }`.
unfoldable pub attempt : {R A : Type 0} → Result A → Setup R A
attempt (ok a) p = (p, done a)
attempt (err e) p = (p, failed e)
