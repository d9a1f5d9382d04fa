-- ===== src/Domain/Event.antt =====
-- pkg/policy-core/domain/policy_validation.go: results as Kubernetes events, and back.
pub mod RoundTrip
use policy_agent.Prelude.{
  ℕ, String, Bool, true, false, List, [], ◌∷◌, Option, none, some, Result, ok, err, ◌>>=◌, map_err,
  Map, lookup, has_key, text_at, contains, hex, join_comma, split_char, if◌then◌else◌, ◌==◌, ◌<>◌,
  map, ◌++◌, ◌≡◌, refl,
}
use policy_agent.Value.{Value, null}
use policy_agent.Domain.{
  ObjectReference, Reference, no_reference, by_pointer, PolicyTargets, PolicyParameters,
  PolicyStandard, PolicyExclusions, Policy, policy_object_ref, Entity, entity_object_ref,
  empty_entity, Occurrence, PolicyValidation, PolicyValidationSummary, status_violating,
  status_compliant,
}

-- `GetViolationMessages` and `GetViolationOccurrencesMessages`.
unfoldable pub get_violation_messages : {N : Type 0} → PolicyValidationSummary N → List String
get_violation_messages s = map (λ v. v.message) s.violations

occurrence_messages : List PolicyValidation → List String
occurrence_messages [] = []
occurrence_messages (v ∷ vs) = map (λ o. o.message) v.occurrences ++ occurrence_messages vs

unfoldable pub get_violation_occurrences_messages :
    {N : Type 0} → PolicyValidationSummary N → List String
unfolding occurrence_messages
get_violation_occurrences_messages s = occurrence_messages s.violations

-- The fields of `v1.Event` that the program sets; both times are those of one call of the clock.
pub record Event : Type 0 where
  pub name : String
  pub namespace : String
  pub annotations : Map String
  pub labels : Map String
  pub involved_object : ObjectReference
  pub related : Option ObjectReference
  pub type : String
  pub reason : String
  pub action : String
  pub message : String
  pub first_timestamp : ℕ
  pub last_timestamp : ℕ
  pub reporting_controller : String
  pub reporting_instance : String
  pub source : String

-- `encoding/json` on the four parts of a result that are written as JSON.
pub record Codec : Type 0 where
  pub marshal_standards : List PolicyStandard → Result String
  pub marshal_manifest : Map Value → Result String
  pub marshal_occurrences : List Occurrence → Result String
  pub marshal_parameters : List PolicyParameters → Result String
  pub unmarshal_standards : String → Result (List PolicyStandard)
  pub unmarshal_manifest : String → Result (Map Value)
  pub unmarshal_occurrences : String → Result (List Occurrence)
  pub unmarshal_parameters : String → Result (List PolicyParameters)

abbrev pub id_label : String
id_label = "pac.weave.works/id"

abbrev pub type_label : String
type_label = "pac.weave.works/type"

abbrev pub trigger_label : String
trigger_label = "pac.weave.works/trigger"

-- `fmt.Sprint` of a truth value.
abbrev pub print_bool : Bool → String
print_bool true = "true"
print_bool false = "false"

-- `strconv.ParseBool`.
unfoldable pub parse_bool : String → Option Bool
unfolding contains
parse_bool s =
    if contains s ("1" ∷ "t" ∷ "T" ∷ "TRUE" ∷ "true" ∷ "True" ∷ [])
    then some true
    else if contains s ("0" ∷ "f" ∷ "F" ∷ "FALSE" ∷ "false" ∷ "False" ∷ [])
    then some false
    else none

-- The annotations, from the texts of the parts that are JSON.
unfoldable pub annotations_of : PolicyValidation → String → String → String → String → Map String
annotations_of r standards manifest occurrences parameters =
    ("account_id", r.account_id)
    ∷ ("cluster_id", r.cluster_id)
    ∷ ("policy_id", r.policy.id)
    ∷ ("policy_name", r.policy.name)
    ∷ ("severity", r.policy.severity)
    ∷ ("category", r.policy.category)
    ∷ ("standards", standards)
    ∷ ("entity_manifest", manifest)
    ∷ ("occurrences", occurrences)
    ∷ ("tags", join_comma r.policy.tags)
    ∷ ("description", r.policy.description)
    ∷ ("how_to_solve", r.policy.how_to_solve)
    ∷ ("parameters", parameters)
    ∷ ("enforce", print_bool r.policy.enforce)
    ∷ []

-- The type, the reason and the action for a status.
unfoldable pub kind_of_event : String → String × String × String
kind_of_event status =
    if status == status_violating
    then ("Warning", "PolicyViolation", "Rejected")
    else ("Normal", "PolicyCompliance", "Allowed")

unfoldable pub event_of : PolicyValidation → ℕ → Map String → Event
event_of r now annotations =
    let (type, reason, action) = kind_of_event r.status in
    record {
      name = r.entity.name <> "." <> hex now;
      namespace = if r.entity.namespace == "" then "default" else r.entity.namespace;
      annotations = annotations;
      labels = (id_label, r.id) ∷ (type_label, r.type) ∷ (trigger_label, r.trigger) ∷ [];
      involved_object = entity_object_ref r.entity;
      related = policy_object_ref r.policy;
      type = type;
      reason = reason;
      action = action;
      message = r.message;
      first_timestamp = now;
      last_timestamp = now;
      reporting_controller = "";
      reporting_instance = "";
      source = "";
    }

-- `NewK8sEventFromPolicyValidation`; `now` is the clock, in nanoseconds.
unfoldable pub new_k8s_event : Codec → ℕ → PolicyValidation → Result Event
new_k8s_event codec now r = do
  standards ←
      map_err (λ e. "failed to parse policy validation standards: " <> e)
        (codec.marshal_standards r.policy.standards)
  manifest ←
      map_err (λ e. "failed to parse policy validation entity manifest: " <> e)
        (codec.marshal_manifest r.entity.manifest)
  occurrences ←
      map_err (λ e. "failed to parse policy validation occurrences: " <> e)
        (codec.marshal_occurrences r.occurrences)
  parameters ←
      map_err (λ e. "failed to parse policy validation parameters config: " <> e)
        (codec.marshal_parameters r.policy.parameters)
  ok (event_of r now (annotations_of r standards manifest occurrences parameters))

-- A policy of which nothing is known.
abbrev pub empty_policy : Policy
empty_policy = record {
  name = "";
  id = "";
  code = "";
  enforce = false;
  parameters = [];
  targets = record { kinds = []; labels = []; namespaces = [] };
  description = "";
  how_to_solve = "";
  category = "";
  tags = [];
  severity = "";
  standards = [];
  reference = no_reference;
  git_commit = "";
  mutate = false;
  exclude = record { namespaces = []; resources = []; labels = [] };
}

-- A value that cannot be read counts as true.
abbrev pub or_true : Option Bool → Bool
or_true none = true
or_true (some b) = b

-- The result before the parts that are JSON are read.
unfoldable pub result_of : Event → PolicyValidation
result_of event =
    let annotation = λ (key : String). text_at key event.annotations in
    let label = λ (key : String). text_at key event.labels in
    record {
      id = label id_label;
      account_id = annotation "account_id";
      cluster_id = annotation "cluster_id";
      policy = record empty_policy {
        id = annotation "policy_id";
        name = annotation "policy_name";
        category = annotation "category";
        severity = annotation "severity";
        description = annotation "description";
        how_to_solve = annotation "how_to_solve";
        reference = by_pointer event.related;
        tags = split_char b',' (annotation "tags");
      };
      entity = record empty_entity {
        api_version = event.involved_object.api_version;
        kind = event.involved_object.kind;
        id = event.involved_object.uid;
        name = event.involved_object.name;
        namespace = event.involved_object.namespace;
        resource_version = event.involved_object.resource_version;
      };
      status = if event.reason == "PolicyViolation" then status_violating else status_compliant;
      message = event.message;
      occurrences = [];
      type = label type_label;
      trigger = label trigger_label;
      created_at = event.first_timestamp;
      metadata = null;
      enforced = or_true (parse_bool (annotation "enforce"));
    }

-- The parameters are read only where there is an annotation for them.
read_parameters : Codec → Map String → Result (List PolicyParameters)
read_parameters codec annotations = elim (lookup "parameters" annotations) [
  | none ↦ ok []
  | some text ↦
      map_err (λ e. "failed to get policy parameters from event: " <> e)
        (codec.unmarshal_parameters text)
]

-- `NewPolicyValidationFRomK8sEvent`. The half-filled result that Go returns beside an error is left
-- out.
unfoldable pub new_policy_validation : Codec → Event → Result PolicyValidation
unfolding read_parameters
new_policy_validation codec event = do
  standards ←
      map_err (λ e. "failed to get standards from event: " <> e)
        (codec.unmarshal_standards (text_at "standards" event.annotations))
  manifest ←
      map_err (λ e. "failed to get entity manifest from event: " <> e)
        (codec.unmarshal_manifest (text_at "entity_manifest" event.annotations))
  occurrences ←
      map_err (λ e. "failed to get occurrences from event: " <> e)
        (codec.unmarshal_occurrences (text_at "occurrences" event.annotations))
  parameters ← read_parameters codec event.annotations
  let r = result_of event
  ok (record r {
    policy = record (r.policy) { standards = standards; parameters = parameters };
    entity = record (r.entity) { manifest = manifest };
    occurrences = occurrences;
  })
