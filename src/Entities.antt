-- ===== src/Entities.antt =====
-- internal/entities/k8s/k8s.go: which kinds of resource the agent may list, and the entities of one.
pub mod Laws
pub mod Sources
use policy_agent.Prelude.{
  ℕ, String, Bool, true, false, not, ◌&&◌, ◌||◌, List, [], ◌∷◌, ◌++◌, Option, none, some, Result,
  ok, err, ◌>>=◌, map_err, map, contains, exists_where, is_empty, if◌then◌else◌, ◌==◌, ◌<>◌, Map,
}
use policy_agent.Value.{Value}
use policy_agent.Domain.{Accessors, Entity, EntitiesList, ListOptions, new_entity_from_spec}

-- A rule of the agent's permissions.
pub record ResourceRule : Type 0 where
  pub verbs : List String
  pub api_groups : List String
  pub resources : List String
  pub resource_names : List String

-- The two sets are the lists of their elements.
pub record RulesCache : Type 0 where
  pub api_groups : List String
  pub resources : List String
  pub resource_names : List String

-- `newRulesCache`, with the sets that `getValidateRules` fills: "*" among the names lifts the limit.
unfoldable pub new_rules_cache : ResourceRule → RulesCache
new_rules_cache rule = record {
  api_groups = rule.api_groups;
  resources = rule.resources;
  resource_names = if contains "*" rule.resource_names then [] else rule.resource_names;
}

-- `checkAllowed`.
unfoldable pub check_allowed : String → List String → Bool
check_allowed subject rules = contains subject rules || contains "*" rules

-- The rule lets the agent list.
unfoldable pub allows_list : ResourceRule → Bool
allows_list rule = exists_where (λ v. v == "list" || v == "*") rule.verbs

unfoldable pub covers : String → String → RulesCache → Bool
covers group resource cache =
    check_allowed group cache.api_groups && check_allowed resource cache.resources

-- The loop over the rules: the caches, and whether the policies' own rule was among them.
unfoldable pub collect_rules : List ResourceRule → List RulesCache × Bool
collect_rules [] = ([], false)
collect_rules (rule ∷ rules) =
    let (caches, found) = collect_rules rules in
    let cache = new_rules_cache rule in
    if allows_list rule
    then (cache ∷ caches, covers "pac.weave.works" "policies" cache || found)
    else (caches, found)

-- `getValidateRules`.
unfoldable pub get_validate_rules : Result (List ResourceRule) → Result (List RulesCache)
get_validate_rules permissions = permissions >>= λ rules.
    if (collect_rules rules).1
    then ok (collect_rules rules).0
    else err "missing weaveworks policies resource permissions"

pub record ApiResource : Type 0 where
  pub name : String
  pub kind : String
  pub verbs : List String

-- A list of resources of one group and version, as `ParseGroupVersion` reads it.
pub record ApiResourceList : Type 0 where
  pub group_version : Result (String × String)
  pub api_resources : List ApiResource

pub record EntitySource : Type 0 where
  pub group : String
  pub version : String
  pub resource : String
  pub kind : String
  pub resource_names : List String

-- The loop over the caches: the first that covers a resource gives its source. The agent's own
-- policies are passed over, by every cache.
unfoldable pub find_source : String → String → ApiResource → List RulesCache → List EntitySource
find_source group version r [] = []
find_source group version r (cache ∷ caches) =
    let rest = find_source group version r caches in
    if covers group r.name cache
    then (if group == "pac.weave.works" && version == "v2beta3" && r.name == "policies"
        then rest
        else record {
          group = group;
          version = version;
          resource = r.name;
          kind = r.kind;
          resource_names = cache.resource_names;
        }
          ∷ [])
    else rest

unfoldable pub resource_sources :
    String → String → List RulesCache → List ApiResource → List EntitySource
resource_sources group version caches [] = []
resource_sources group version caches (r ∷ rs) =
    let rest = resource_sources group version caches rs in
    if not (contains "list" r.verbs) then rest else find_source group version r caches ++ rest

unfoldable pub list_sources : List RulesCache → List ApiResourceList → List EntitySource
list_sources caches [] = []
list_sources caches (l ∷ ls) = elim l.group_version [
  | err e ↦ list_sources caches ls
  | ok (group, version) ↦
      resource_sources group version caches l.api_resources ++ list_sources caches ls
]

-- `GetEntitiesSources`.
unfoldable pub get_entities_sources :
    Result (List ResourceRule) → Result (List ApiResourceList) → Result (List EntitySource)
get_entities_sources permissions api_resources = do
  caches ← get_validate_rules permissions
  lists ← api_resources
  ok (list_sources caches lists)

-- What the API server answers to a list request: the objects and the key of the next page.
pub record Listing : Type 0 where
  pub items : List (Map Value)
  pub continue : String

-- A list request: by the name of one resource, or by page.
pub data ListRequest : Type 0 where
  by_name : String → ListRequest
  by_page : ListOptions → ListRequest

-- The loop over the names: all items, with the key of the last answer.
unfoldable pub list_names :
    (ListRequest → Result Listing) → List (Map Value) → Listing → List String → Result Listing
list_names list items current [] = ok (record current { items = items })
list_names list items current (name ∷ names) = do
  answer ←
      map_err (λ e. "error while getting resource with name " <> name <> ": " <> e)
        (list (by_name name))
  list_names list (items ++ answer.items) answer names

unfoldable pub keep_items : Accessors → String → List (Map Value) → List Entity
keep_items a ignored [] = []
keep_items a ignored (i ∷ is) =
    let rest = keep_items a ignored is in
    if not (a.get_namespace i == ignored) then new_entity_from_spec a i ∷ rest else rest

-- `K8SEntitySource.List`.
unfoldable pub list_entities :
    Accessors
    → String
    → EntitySource
    → (ListRequest → Result Listing)
    → ListOptions
    → Result EntitiesList
list_entities a ignored source list options = do
  answer ←
      (if not (is_empty source.resource_names)
        then list_names list [] (record { items = []; continue = "" }) source.resource_names
        else list (by_page options))
  ok (record {
    has_next = not (answer.continue == "");
    key_set = answer.continue;
    entities = keep_items a ignored answer.items;
  })
