-- ===== src/Api.antt =====
-- api/v2beta3: the custom resources `Policy` and `PolicyConfig`, as the agent reads them.
pub mod Laws
use policy_agent.Prelude.{
  String, Bool, true, false, List, [], ◌∷◌, Option, none, some, Result, ok, err, Map, is_empty,
  to_lower, if◌then◌else◌, ◌==◌, ◌<>◌, ◌>>=◌, not,
}
use policy_agent.Domain.{PolicyTargets, PolicyStandard, PolicyExclusions, ObjectReference}

-- Raw JSON text (`apiextensionsv1.JSON`).
abbrev pub RawJson : Type 0
RawJson = String

pub record PolicyParametersCrd : Type 0 where
  pub name : String
  pub type : String
  pub required : Bool
  pub value : Option RawJson

pub record PolicySpec : Type 0 where
  pub name : String
  pub id : String
  pub code : String
  pub enforce : Bool
  pub parameters : List PolicyParametersCrd
  pub targets : PolicyTargets
  pub description : String
  pub how_to_solve : String
  pub category : String
  pub tags : List String
  pub severity : String
  pub standards : List PolicyStandard
  pub provider : String
  pub mutate : Bool
  pub exclude : PolicyExclusions

-- The object's own reference stands for its type and object metadata.
pub record PolicyCrd : Type 0 where
  pub meta : ObjectReference
  pub spec : PolicySpec

-- Applications and resources have the same three fields.
pub record ObjectTarget : Type 0 where
  pub kind : String
  pub name : String
  pub namespace : String

-- `PolicyTargetApplication.ID` and `PolicyTargetResource.ID`.
unfoldable pub target_id : ObjectTarget → String
target_id t = to_lower t.kind <> "/" <> t.name <> ":" <> t.namespace

-- A nil slice is `none`: the agent tells it from an empty one.
pub record PolicyConfigTarget : Type 0 where
  pub workspaces : Option (List String)
  pub namespaces : Option (List String)
  pub applications : Option (List ObjectTarget)
  pub resources : Option (List ObjectTarget)

-- What a loop over a slice visits.
abbrev pub elements {ℓ} : {A : Type ℓ} → Option (List A) → List A
elements none = []
elements (some xs) = xs

pub record PolicyConfigStatus : Type 0 where
  pub status : String
  pub missing_policies : List String

pub record PolicyConfigCrd : Type 0 where
  pub name : String
  pub config : Map (Map RawJson)
  pub match : PolicyConfigTarget
  pub deleting : Bool
  pub status : PolicyConfigStatus

-- `SetPolicyConfigStatus`.
unfoldable pub set_policy_config_status : List String → PolicyConfigCrd → PolicyConfigCrd
set_policy_config_status missing c = record c {
  status = record {
    status = if not (is_empty missing) then "Warning" else "OK";
    missing_policies = missing;
  };
}

-- One of the guards of `Validate`: a kind of target that is set may not follow another one.
add_target {ℓ} : {A : Type ℓ} → Option (List A) → String → String → Result String
add_target none kind target = ok target
add_target (some xs) kind target =
    if target == ""
    then ok kind
    else err ("cannot target " <> target <> " and " <> kind <> " in same policy config")

unfoldable pub validate_config : PolicyConfigCrd → Result (Unit {0})
unfolding add_target
validate_config c = do
  target ← add_target c.match.workspaces "workspaces" ""
  target ← add_target c.match.namespaces "namespaces" target
  target ← add_target c.match.applications "apps" target
  target ← add_target c.match.resources "resources" target
  if target == "" then err "policy config must target namespace, application or resource" else ok tt
