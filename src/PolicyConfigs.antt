-- ===== src/PolicyConfigs.antt =====
-- internal/policies/policyconfig.go: which policy configs apply to an entity, and how they override
-- one another; with internal/utils/utils.go, which finds the entity's Flux application.
pub mod Override
pub mod Hits
pub mod Groups
pub mod Order
pub mod Precedence
pub mod FirstTargets
use policy_agent.Prelude.{
  String, Bool, true, false, ◌&&◌, List, [], ◌∷◌, ◌++◌, Option, none, some, Result, ok, err, ◌>>=◌,
  map_err, Map, lookup, insert, text_at, contains, if◌then◌else◌, ◌==◌, ◌<>◌, not, has_key,
}
use policy_agent.Value.{Value}
use policy_agent.Domain.{Entity, PolicyConfig, PolicyConfigConfig, PolicyConfigParameter}
use policy_agent.Api.{PolicyConfigCrd, ObjectTarget, RawJson, elements}

abbrev pub tenant_label : String
tenant_label = "toolkit.fluxcd.io/tenant"

-- `fluxControllerKindMap`, in one of its orders.
abbrev pub flux_controller_kind_map : Map String
flux_controller_kind_map =
    ("helm.toolkit.fluxcd.io", "HelmRelease")
    ∷ ("kustomize.toolkit.fluxcd.io", "Kustomization")
    ∷ []

pub record FluxObject : Type 0 where
  pub api_version : String
  pub kind : String
  pub namespace : String
  pub name : String

-- `GetFluxObject`, which goes through the kinds in the order given.
unfoldable pub get_flux_object : Map String → Map String → Option FluxObject
get_flux_object [] labels = none
get_flux_object ((api_version, kind) ∷ kinds) labels =
    let next = get_flux_object kinds labels in
    elim (lookup (api_version <> "/name") labels) [
      | none ↦ next
      | some name ↦ elim (lookup (api_version <> "/namespace") labels) [
        | none ↦ next
        | some namespace ↦
            some (record {
              api_version = api_version;
              kind = kind;
              namespace = namespace;
              name = name;
            })
      ]
    ]

-- The lists that the loop over the configs appends to, from the least specific to the most.
pub record Matched : Type 0 where
  pub workspaces : List PolicyConfigCrd
  pub namespaces : List PolicyConfigCrd
  pub apps : List PolicyConfigCrd
  pub apps_with_namespace : List PolicyConfigCrd
  pub resources : List PolicyConfigCrd
  pub resources_with_namespace : List PolicyConfigCrd

-- Which of two lists a loop over applications or resources appends its config to.
pub data Hit : Type 0 where
  no_hit : Hit
  anywhere : Hit
  in_namespace : Hit

-- The loop over a config's applications goes on while the namespace of a match is another one.
unfoldable pub match_apps : FluxObject → List ObjectTarget → Hit
match_apps flux [] = no_hit
match_apps flux (app ∷ apps) =
    let rest = match_apps flux apps in
    if app.name == flux.name && app.kind == flux.kind
    then (if app.namespace == ""
        then anywhere
        else if app.namespace == flux.namespace
        then in_namespace
        else rest)
    else rest

-- The loop over a config's resources ends at the first one with the entity's name and kind.
unfoldable pub match_resources : Entity → List ObjectTarget → Hit
match_resources entity [] = no_hit
match_resources entity (r ∷ rs) =
    let rest = match_resources entity rs in
    if r.name == entity.name && r.kind == entity.kind
    then (if not (r.namespace == "")
        then (if r.namespace == entity.namespace then in_namespace else no_hit)
        else anywhere)
    else rest

abbrev pub if_hit : Hit → Hit → PolicyConfigCrd → List PolicyConfigCrd
if_hit no_hit _ c = []
if_hit anywhere anywhere c = c ∷ []
if_hit in_namespace in_namespace c = c ∷ []
if_hit _ _ c = []

pub app_hit : Option FluxObject → PolicyConfigCrd → Hit
unfolding match_apps
app_hit none c = no_hit
app_hit (some flux) c = match_apps flux (elements c.match.applications)

-- One round of the loop over the configs.
unfoldable pub match_config :
    Entity → String → Option FluxObject → PolicyConfigCrd → Matched → Matched
unfolding app_hit match_resources
match_config entity workspace flux c m =
    let app = app_hit flux c in
    let resource = match_resources entity (elements c.match.resources) in
    let by_workspace : Bool =
      not (workspace == "") && contains workspace (elements c.match.workspaces) in
    let by_namespace : Bool = contains entity.namespace (elements c.match.namespaces) in
    record {
      workspaces = m.workspaces ++ (if by_workspace then c ∷ [] else []);
      namespaces = m.namespaces ++ (if by_namespace then c ∷ [] else []);
      apps = m.apps ++ if_hit app anywhere c;
      apps_with_namespace = m.apps_with_namespace ++ if_hit app in_namespace c;
      resources = m.resources ++ if_hit resource anywhere c;
      resources_with_namespace = m.resources_with_namespace ++ if_hit resource in_namespace c;
    }

unfoldable pub match_configs :
    Entity → String → Option FluxObject → List PolicyConfigCrd → Matched → Matched
match_configs entity workspace flux [] m = m
match_configs entity workspace flux (c ∷ cs) m =
    match_configs entity workspace flux cs (match_config entity workspace flux c m)

abbrev pub nothing_matched : Matched
nothing_matched = record {
  workspaces = [];
  namespaces = [];
  apps = [];
  apps_with_namespace = [];
  resources = [];
  resources_with_namespace = [];
}

-- `allConfigs`.
abbrev pub all_configs : Matched → List PolicyConfigCrd
all_configs m =
    m.workspaces
    ++ (m.namespaces
        ++ (m.apps ++ (m.apps_with_namespace ++ (m.resources ++ m.resources_with_namespace))))

-- `m[k]` of a map of maps, the nil map where it is missing.
abbrev pub at {ℓ} : {V : Type ℓ} → String → Map (Map V) → Map V
at k m = elim (lookup k m) [ none ↦ [] | some v ↦ v ]

-- `m[p][k] = v`, with `m[p]` made first where it is missing.
unfoldable pub put {ℓ} : {V : Type ℓ} → String → String → V → Map (Map V) → Map (Map V)
put p k v m = insert p (insert k v (at p m)) m

-- The merged raw parameters, and the name of the config that set each of them last.
pub record Merged : Type 0 where
  pub config : Map (Map RawJson)
  pub history : Map (Map String)

unfoldable pub merge_parameters : String → String → Map RawJson → Merged → Merged
merge_parameters name p [] s = s
merge_parameters name p ((k, v) ∷ ps) s =
    merge_parameters name p ps
      (record { config = put p k v s.config; history = put p k name s.history })

-- An entry is made for each policy of the config, also for one without parameters.
unfoldable pub merge_policies : String → Map (Map RawJson) → Merged → Merged
merge_policies name [] s = s
merge_policies name ((p, parameters) ∷ rest) s =
    merge_policies name rest
      (merge_parameters name p parameters (record s { config = insert p (at p s.config) s.config }))

unfoldable pub merge_configs : List PolicyConfigCrd → Merged → Merged
merge_configs [] s = s
merge_configs (c ∷ cs) s = merge_configs cs (merge_policies c.name c.config s)

-- The tenant label of the entity's namespace; a cluster-wide entity has none.
unfoldable pub entity_workspace : (String → Result (Map String)) → Entity → Result String
entity_workspace get_namespace_labels entity =
    if not (entity.namespace == "")
    then (do
      labels ←
          map_err (λ e. "failed to get entity namespace: " <> e)
            (get_namespace_labels entity.namespace)
      ok (text_at tenant_label labels))
    else ok ""

-- The last loops decode every parameter; `unmarshal` is `json.Unmarshal` into an `interface{}`.
module _ (unmarshal : RawJson → Result Value) where
  unfoldable pub decode_parameters : Map String → Map RawJson → Result (Map PolicyConfigParameter)
  decode_parameters refs [] = ok []
  decode_parameters refs ((k, raw) ∷ ps) = do
    value ← unmarshal raw
    rest ← decode_parameters refs ps
    ok ((k, record { value = value; config_ref = text_at k refs }) ∷ rest)

  unfoldable pub decode_config :
      Map (Map String) → Map (Map RawJson) → Result (Map PolicyConfigConfig)
  decode_config history [] = ok []
  decode_config history ((p, ps) ∷ m) = do
    parameters ← decode_parameters (at p history) ps
    rest ← decode_config history m
    ok ((p, record { parameters = parameters }) ∷ rest)

  unfoldable pub override : List PolicyConfigCrd → Result PolicyConfig
  override configs =
      let s = merge_configs configs (record { config = []; history = [] }) in
      decode_config s.history s.config >>= λ config. ok (record { config = config })

  -- `GetPolicyConfig`: `list_configs` and `get_namespace_labels` are the two reads of the cache.
  unfoldable pub get_policy_config :
      Result (List PolicyConfigCrd)
      → (String → Result (Map String))
      → Map String
      → Entity
      → Result PolicyConfig
  get_policy_config list_configs get_namespace_labels kinds entity = do
    configs ← list_configs
    workspace ← entity_workspace get_namespace_labels entity
    override (
        all_configs (
          match_configs entity workspace (get_flux_object kinds entity.labels) configs
            nothing_matched))
