-- ===== src/Domain.antt =====
-- The types of pkg/policy-core/domain: policies, policy configs, entities, occurrences and
-- validation results, with their small methods. A Go map is a `Map`, a pointer an `Option`.
pub mod Event
pub mod Mutation
pub mod MutationLaws
pub mod Repairs
pub mod KeyPaths
use policy_agent.Prelude.{
  ℕ, String, Bool, true, false, not, List, [], ◌∷◌, ◌++◌, Option, none, some, Map, lookup, insert,
  delete, eqb,
}
use policy_agent.Value.{Value, null, object, to_map, of_map}

pub record ObjectReference : Type 0 where
  pub api_version : String
  pub kind : String
  pub uid : String
  pub name : String
  pub namespace : String
  pub resource_version : String
  pub field_path : String

-- The dynamic type of `Policy.Reference`: nil, an object reference, or a pointer to one.
pub data Reference : Type 0 where
  no_reference : Reference
  by_value : ObjectReference → Reference
  by_pointer : Option ObjectReference → Reference

pub record PolicyTargets : Type 0 where
  pub kinds : List String
  pub labels : List (Map String)
  pub namespaces : List String

pub record PolicyParameters : Type 0 where
  pub name : String
  pub type : String
  pub value : Value
  pub required : Bool
  pub config_ref : String

pub record PolicyStandard : Type 0 where
  pub id : String
  pub controls : List String

pub record PolicyExclusions : Type 0 where
  pub namespaces : List String
  pub resources : List String
  pub labels : Map String

pub record Policy : Type 0 where
  pub name : String
  pub id : String
  pub code : String
  pub enforce : Bool
  pub parameters : List PolicyParameters
  pub targets : PolicyTargets
  pub description : String
  pub how_to_solve : String
  pub category : String
  pub tags : List String
  pub severity : String
  pub standards : List PolicyStandard
  pub reference : Reference
  pub git_commit : String
  pub mutate : Bool
  pub exclude : PolicyExclusions

-- `Policy.ObjectRef`: only a reference held by value passes the type assertion.
unfoldable pub policy_object_ref : Policy → Option ObjectReference
policy_object_ref p = elim p.reference [ by_value r ↦ some r | _ ↦ none ]

-- One round of `GetParametersMap`, and the loop.
unfoldable pub collect_parameters : Map Value → List PolicyParameters → Map Value
collect_parameters res [] = res
collect_parameters res (p ∷ ps) = collect_parameters (insert p.name p.value res) ps

unfoldable pub get_parameters_map : Policy → Map Value
unfolding collect_parameters
get_parameters_map p = collect_parameters [] p.parameters

pub record PolicyConfigParameter : Type 0 where
  pub value : Value
  pub config_ref : String

pub record PolicyConfigConfig : Type 0 where
  pub parameters : Map PolicyConfigParameter

-- The fields of a policy config that the program sets.
pub record PolicyConfig : Type 0 where
  pub config : Map PolicyConfigConfig

pub record Entity : Type 0 where
  pub id : String
  pub name : String
  pub api_version : String
  pub kind : String
  pub namespace : String
  pub manifest : Map Value
  pub resource_version : String
  pub labels : Map String
  pub git_commit : String
  pub has_parent : Bool

unfoldable pub entity_object_ref : Entity → ObjectReference
entity_object_ref e = record {
  api_version = e.api_version;
  kind = e.kind;
  uid = e.id;
  name = e.name;
  namespace = e.namespace;
  resource_version = e.resource_version;
  field_path = "";
}

abbrev pub empty_entity : Entity
empty_entity = record {
  id = "";
  name = "";
  api_version = "";
  kind = "";
  namespace = "";
  manifest = [];
  resource_version = "";
  labels = [];
  git_commit = "";
  has_parent = false;
}

-- The accessors of apimachinery's `unstructured.Unstructured`.
pub record Accessors : Type 0 where
  pub get_uid : Map Value → String
  pub get_name : Map Value → String
  pub get_api_version : Map Value → String
  pub get_kind : Map Value → String
  pub get_namespace : Map Value → String
  pub get_resource_version : Map Value → String
  pub get_labels : Map Value → Map String
  pub count_owner_references : Map Value → ℕ
  pub get_object_kind : Map Value → String
  pub get_object_version : Map Value → String
  pub get_object_group : Map Value → String

-- The deletion in the metadata map is seen by whoever holds the specification.
unfoldable pub new_entity_from_spec : Accessors → Map Value → Entity
new_entity_from_spec a spec = elim (lookup "metadata" spec) [
  | some (object metadata) ↦
      let manifest =
        insert "metadata" (object (of_map (delete "managedFields" (to_map metadata)))) spec in
      record {
        id = a.get_uid manifest;
        name = a.get_name manifest;
        api_version = a.get_api_version manifest;
        kind = a.get_kind manifest;
        namespace = a.get_namespace manifest;
        manifest = manifest;
        resource_version = a.get_resource_version manifest;
        labels = a.get_labels manifest;
        git_commit = "";
        has_parent = not (eqb (a.count_owner_references manifest) 0);
      }
  | _ ↦ empty_entity
]

pub record Occurrence : Type 0 where
  pub message : String
  pub violating_key : Option String
  pub recommended_value : Value
  pub mutated : Bool

abbrev pub status_violating : String
status_violating = "Violation"

abbrev pub status_compliant : String
status_compliant = "Compliance"

pub record PolicyValidation : Type 0 where
  pub id : String
  pub account_id : String
  pub cluster_id : String
  pub policy : Policy
  pub entity : Entity
  pub status : String
  pub message : String
  pub occurrences : List Occurrence
  pub type : String
  pub trigger : String
  pub created_at : ℕ
  pub metadata : Value
  pub enforced : Bool

-- A mutation result: the resource before, and the document that is changed.
pub record MutationResult (Node : Type 0) : Type 0 where
  pub raw : String
  pub node : Node

pub record PolicyValidationSummary (Node : Type 0) : Type 0 where
  pub violations : List PolicyValidation
  pub compliances : List PolicyValidation
  pub mutation : Option (MutationResult Node)

pub record ListOptions : Type 0 where
  pub limit : ℕ
  pub key_set : String

pub record EntitiesList : Type 0 where
  pub has_next : Bool
  pub key_set : String
  pub entities : List Entity
