-- ===== src/Tests.antt =====
-- Small instances of what the program calls, and the policies, entities and configs of the tests.
pub mod Validating
pub mod Configuring
pub mod Serving
pub mod Answering
pub mod Blocking
pub mod Sending
pub mod Starting
pub mod Admitting
pub mod Auditing
pub mod Reporting
pub mod Looping
pub mod Identifying
use policy_agent.Prelude.{
  ℕ, String, Bool, true, false, List, [], ◌∷◌, ◌++◌, Option, none, some, Result, ok, err, Map,
  if◌then◌else◌, ◌==◌,
}
use policy_agent.Value.{Value, null, text, array, object, item, no_items, field, no_fields}
use policy_agent.Domain.{
  Policy, PolicyTargets, PolicyExclusions, PolicyParameters, PolicyConfig, Entity, Accessors,
  Occurrence, PolicyValidation, no_reference, status_violating, empty_entity,
}
use policy_agent.Domain.Mutation.{Yaml, Json}
use policy_agent.Opa.{Rego, Module, OpaInput}
use policy_agent.Validation.{Env, OpaValidator, PoliciesSource}
use policy_agent.Validation.Workers.{in_order}

-- A document is the list of the writes to it, with its labels.
abbrev pub yaml : Yaml
yaml = record {
  Node = List (List String × Value) × Map String;
  Cursor = List String;
  unmarshal = λ s. if s == "" then err "no document" else ok ([], []);
  lookup_create = λ path node. (ok (some path), node);
  encode = λ cursor v node. (ok tt, (node.0 ++ (cursor, v) ∷ [], node.1));
  get_labels = λ node. node.1;
  set_labels = λ labels node. (node.0, labels);
  marshal_json = λ node. ok "mutated";
}

abbrev pub json : Json
json = record { marshal = λ m. ok "{}"; float64 = λ s. ok 1 }

abbrev pub accessors : Accessors
accessors = record {
  get_uid = λ m. "uid";
  get_name = λ m. "web";
  get_api_version = λ m. "v1";
  get_kind = λ m. "Pod";
  get_namespace = λ m. "shop";
  get_resource_version = λ m. "7";
  get_labels = λ m. [];
  count_owner_references = λ m. 0;
  get_object_kind = λ m. "Pod";
  get_object_version = λ m. "v1";
  get_object_group = λ m. "";
}

-- What the code "package deny" reports.
abbrev pub finding : Value
finding = object (
    field "msg" (text "runs as root") (
      field "violating_key" (text "spec.user") (field "recommended_value" (text "1000") no_fields)))

abbrev pub rego : Rego
rego = record {
  parse_module = λ name content.
      if content == "package broken"
      then err "syntax error"
      else ok (some (record { rules = "violation" ∷ []; package_text = content }));
  eval_query = λ query code input.
      if query == "data.deny.violation"
      then ok ((array (item finding no_items) ∷ []) ∷ [])
      else if query == "data.odd.violation"
      then ok ((null ∷ []) ∷ [])
      else ok ((array no_items ∷ []) ∷ []);
}

abbrev pub env : Env
env = record {
  rego = rego;
  accessors = accessors;
  json = json;
  new_id = λ n. "id";
  now = λ n. n;
  multierror = λ es. "errors";
  scheduler = in_order;
}

-- A policy for pods in every namespace but "system".
abbrev pub policy_of : String → String → Policy
policy_of id code = record {
  name = id;
  id = id;
  code = code;
  enforce = true;
  parameters = [];
  targets = record { kinds = "Pod" ∷ []; labels = []; namespaces = [] };
  description = "";
  how_to_solve = "";
  category = "security";
  tags = "pods" ∷ [];
  severity = "high";
  standards = [];
  reference = no_reference;
  git_commit = "";
  mutate = true;
  exclude = record { namespaces = "system" ∷ []; resources = []; labels = [] };
}

abbrev pub deny : Policy
deny = policy_of "deny" "package deny"

abbrev pub calm : Policy
calm = policy_of "calm" "package calm"

abbrev pub broken : Policy
broken = policy_of "broken" "package broken"

abbrev pub odd : Policy
odd = policy_of "odd" "package odd"

abbrev pub pod : Entity
pod = record empty_entity {
  id = "uid";
  name = "web";
  api_version = "v1";
  kind = "Pod";
  namespace = "shop";
  labels = ("app", "web") ∷ [];
}

abbrev pub validator_of : Bool → List Policy → OpaValidator String
validator_of mutates policies = record {
  policies_source = record { get_all = ok policies; get_policy_config = λ e. ok none };
  results_sinks = "elastic" ∷ [];
  write_compliance = true;
  validation_type = "Admission";
  account_id = "account";
  cluster_id = "cluster";
  mutates = mutates;
}

abbrev pub occurrence : Occurrence
occurrence = record {
  message = "runs as root";
  violating_key = some "spec.user";
  recommended_value = text "1000";
  mutated = false;
}

abbrev pub violation_by : Policy → PolicyValidation
violation_by policy = record {
  id = "id";
  account_id = "account";
  cluster_id = "cluster";
  policy = policy;
  entity = pod;
  status = status_violating;
  message = "";
  occurrences = occurrence ∷ [];
  type = "Admission";
  trigger = "CREATE";
  created_at = 0;
  metadata = null;
  enforced = policy.enforce;
}
