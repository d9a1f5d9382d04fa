-- ===== src/Lib.antt =====
-- The Weave policy agent: what it admits, reports, mutates and audits.
--
-- The agent evaluates Rego policies against Kubernetes resources. Its webhooks and its audit give an
-- entity to a validator (pkg/policy-core/validation), which asks a source for the policies and for the
-- policy config of the entity (internal/policies), runs every policy that applies in OPA
-- (pkg/opa-core), in one goroutine each, and sends what it finds to the sinks (internal/sink).
--
--   Prelude        Lists, maps, texts, `(A, error)` results and run-time panics. A Go map is the
--                  list of its entries in the order of a loop over it, a pointer an `Option`.
--   Value          `interface{}` values as JSON and OPA decode them.
--   Domain         pkg/policy-core/domain/policy.go, entity.go, policy_config.go and
--                  policy_validation.go; Domain.Mutation is mutation.go, and Domain.Event has the
--                  conversion of results to Kubernetes events and back.
--   Matching       pkg/policy-core/validation/common.go.
--   Opa            pkg/opa-core: `Parse`, `Eval`, `EvalGateKeeperCompliant`.
--   Validation     pkg/policy-core/validation/opa_validation.go: `validate` is `Validate`,
--                  `check_policy` the body of a goroutine, `conclude` what follows the goroutines.
--                  Validation.Workers has the goroutines and the channels as a step relation.
--   Api            api/v2beta3: the custom resources `Policy` and `PolicyConfig`.
--   PolicyConfigs  internal/policies/policyconfig.go and internal/utils/utils.go.
--   Watcher        internal/policies/policy.go.
--   Controller     controllers/policyconfig_controller.go: the webhook, `Reconcile` and the index.
--                  Controller.Store has the stores of configs that the webhook admits, one change at
--                  a time, and Controller.Loop the queue of requests, the events that fill it and the
--                  worker that runs `Reconcile`, both as step relations.
--   Handlers       internal/admission, internal/mutation and internal/terraform.
--   Auditor        internal/auditor: the loop over sources and pages, and the loop that starts audits,
--                  with its ticker.
--   Elastic        internal/sink/elastic: the batches, the retries and the request bodies;
--                  Elastic.Schema is the constructor.
--   Sinks          internal/sink/filesystem, k8s-event and flux-notification: Sinks.Buffer is what they
--                  share, a channel with one worker, `Start`, `Write` and `Stop`, as a step relation;
--                  Sinks.FileSystem adds the file, which `Stop` closes some time after it has
--                  cancelled the worker's context, while the worker goes on;
--                  Sinks.Reporting follows a result from `Validate` to the cluster's events.
--   Agent          configuration/config.go and main.go: Agent.Configuration is
--                  `GetAgentConfiguration`, Agent.Startup has the constructors of the sinks, and
--                  Agent.Modes the start of each mode and Agent.Process that of the process;
--                  Agent.Admission and Agent.Auditing put the parts together.
--   Entities       internal/entities/k8s: the agent's permissions, its sources and their pages.
--   Kube           internal/clients/kube: the calls of the cluster's client.
--   PolicySet      api/v2beta2/policyset_types.go.
--   PolicyModes    api/v2beta2/policy_types.go: the modes of a policy.
--   Uuid           pkg/uuid-go, over the package that it wraps.
--   Tests          Small instances, and runs of the theorems on them.
--
-- How they interact: Handlers and Auditor take `Validate` as a function; `validate` takes its policies
-- source as a record, which Watcher and PolicyConfigs implement, and calls Matching, Opa and
-- Domain.Mutation; Controller admits the policy configs that PolicyConfigs reads. Agent makes the
-- sinks, gives them to the manager and to the validators, and the validators to Handlers and Auditor.
--
-- What is outside is a parameter: OPA (`Rego`), JSON and yaml (`Json`, `Yaml`), the accessors of
-- unstructured objects (`Accessors`), viper (`Viper`), what the start calls (`Platform`), the API
-- server's answers, what a status patch and the field index do, ids and the clock, and Go's scheduler (`Scheduler`), of which only this is asked:
-- what it answers is left in the channels by some run of the goroutines. A panic in a goroutine ends the process, and is a value of `Run`.
--
-- Bounds: `max_workers` is 25 and the channels are as long as the list of policies; `batch_size` is
-- 100 and `retries` 5; the channel of a sink of Sinks has 50 places.
-- The interval of the audit is an int64 of nanoseconds by its bits, `% 2 ^ 64`: from 2 ^ 63 on it is
-- negative. A source of
-- entities may give pages for ever, so an audit takes fuel; more fuel than a source has pages is
-- enough.
--
-- Not modelled: logging, generated code, and the older versions of the resources, which are schema
-- declarations; what controller-runtime does once the manager has been started, but for the requests
-- of Controller.Loop, where the cache is taken to show what the API server holds. Contexts, timeouts and
-- log lines are left out, and so are the Sync of a file and the time that a sink waits between writes.
pub mod Prelude
pub mod Value
pub mod Domain
pub mod Matching
pub mod Opa
pub mod Validation
pub mod Api
pub mod PolicyConfigs
pub mod Controller
pub mod Handlers
pub mod Auditor
pub mod Elastic
pub mod Sinks
pub mod Agent
pub mod PolicySet
pub mod PolicyModes
pub mod Uuid
pub mod Watcher
pub mod Entities
pub mod Kube
pub mod Tests
