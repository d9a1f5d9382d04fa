-- ===== src/PolicyConfigs/Precedence.antt =====
-- Which of the configs that match an entity decides a parameter
-- (internal/policies/policyconfig.go, `GetPolicyConfig`).
use policy_agent.Prelude.{
  String, Bool, true, false, List, [], ◌∷◌, ◌++◌, Option, none, some, Result, ok, Map, ◌≡◌, refl,
  sym, subst, arith, All, All-append, if◌then◌else◌,
}
use policy_agent.Value.{Value}
use policy_agent.Domain.{Entity, PolicyConfig}
use policy_agent.Api.{PolicyConfigCrd, RawJson}
use policy_agent.PolicyConfigs.{
  Matched, match_config, match_configs, nothing_matched, all_configs, override, get_policy_config,
  entity_workspace, get_flux_object, FluxObject, Hit, no_hit, anywhere, in_namespace, if_hit,
}
use policy_agent.PolicyConfigs.Override.{
  IsConfig, or_else, map_option, get2, setting, Decides, parameter_of, override-Decides,
}

or_else_assoc : {A : Type 0} (x y z : Option A) → or_else x (or_else y z) ≡ or_else (or_else x y) z
or_else_assoc none y z = refl
or_else_assoc (some a) y z = refl

-- Of two lists of configs the second one counts first.
setting-append :
    (p k : String) (xs ys : List PolicyConfigCrd)
    → setting p k (xs ++ ys) ≡ or_else (setting p k ys) (setting p k xs)
setting-append p k [] ys = ground (arith, or_else_nothing (setting p k ys))
  where
    or_else_nothing : (o : Option (RawJson × String)) → or_else o none ≡ o
    or_else_nothing none = refl
    or_else_nothing (some a) = refl
setting-append p k (x ∷ xs) ys = rw (setting-append p k xs ys) (
    sym (
      or_else_assoc (setting p k ys) (setting p k xs)
        (map_option (λ raw. (raw, x.name)) (get2 p k x.config))))

record AllMatched (P : PolicyConfigCrd → Type 0) (m : Matched) : Type 0 where
  workspaces : All P m.workspaces
  namespaces : All P m.namespaces
  apps : All P m.apps
  apps_with_namespace : All P m.apps_with_namespace
  resources : All P m.resources
  resources_with_namespace : All P m.resources_with_namespace

add_if :
    (P : PolicyConfigCrd → Type 0) (xs : List PolicyConfigCrd) (c : PolicyConfigCrd) (b : Bool)
    → P c
    → All P xs
    → All P (xs ++ (if b then c ∷ [] else []))
add_if P xs c true h hs = All-append P xs _ hs (h, tt)
add_if P xs c false h hs = All-append P xs _ hs tt

add_hit :
    (P : PolicyConfigCrd → Type 0) (xs : List PolicyConfigCrd) (c : PolicyConfigCrd) (a b : Hit)
    → P c
    → All P xs
    → All P (xs ++ if_hit a b c)
add_hit P xs c no_hit b h hs = All-append P xs _ hs tt
add_hit P xs c anywhere anywhere h hs = All-append P xs _ hs (h, tt)
add_hit P xs c in_namespace in_namespace h hs = All-append P xs _ hs (h, tt)
add_hit P xs c anywhere no_hit h hs = All-append P xs _ hs tt
add_hit P xs c anywhere in_namespace h hs = All-append P xs _ hs tt
add_hit P xs c in_namespace no_hit h hs = All-append P xs _ hs tt
add_hit P xs c in_namespace anywhere h hs = All-append P xs _ hs tt

module _ (P : PolicyConfigCrd → Type 0) (entity : Entity) (workspace : String)
    (flux : Option FluxObject) where
  match_configs-AllMatched :
      (cs : List PolicyConfigCrd) (m : Matched)
      → All P cs
      → AllMatched P m
      → AllMatched P (match_configs entity workspace flux cs m)
  unfolding match_configs match_config
  match_configs-AllMatched [] m h a = a
  match_configs-AllMatched (c ∷ cs) m (hc, h) a = match_configs-AllMatched cs _ h (record {
    workspaces = add_if P m.workspaces c _ hc a.workspaces;
    namespaces = add_if P m.namespaces c _ hc a.namespaces;
    apps = add_hit P m.apps c _ _ hc a.apps;
    apps_with_namespace = add_hit P m.apps_with_namespace c _ _ hc a.apps_with_namespace;
    resources = add_hit P m.resources c _ _ hc a.resources;
    resources_with_namespace =
        add_hit P m.resources_with_namespace c _ _ hc a.resources_with_namespace;
  })

all_configs-All :
    (P : PolicyConfigCrd → Type 0) (m : Matched) → AllMatched P m → All P (all_configs m)
all_configs-All P m a = All-append P m.workspaces _ a.workspaces (
    All-append P m.namespaces _ a.namespaces (
      All-append P m.apps _ a.apps (
        All-append P m.apps_with_namespace _ a.apps_with_namespace
          (All-append P m.resources _ a.resources a.resources_with_namespace))))

-- What the configs that match an entity say of a parameter, the most specific first: those that name
-- the resource with its namespace, the resource without one, the application with its namespace, the
-- application without one, the namespace, and the workspace; within a group the last config counts.
abbrev pub said_by : String → String → Matched → Option (RawJson × String)
said_by p k m = or_else (setting p k m.resources_with_namespace) (
    or_else (setting p k m.resources) (
      or_else (setting p k m.apps_with_namespace) (
        or_else (setting p k m.apps)
          (or_else (setting p k m.namespaces) (setting p k m.workspaces)))))

setting-all_configs : (p k : String) (m : Matched) → setting p k (all_configs m) ≡ said_by p k m
setting-all_configs p k m = simp (setting-append, or_else_assoc)

-- When `GetPolicyConfig` succeeds, every parameter of every policy is in the result exactly as the
-- most specific group of matching configs that sets it says: with the decoded value of the last config
-- of the group that sets it, and that config's name; a parameter that no group sets is not in it.
pub get_policy_config-Decides :
    (unmarshal : RawJson → Result Value) (get_namespace_labels : String → Result (Map String))
    (kinds : Map String) (entity : Entity) (configs : List PolicyConfigCrd) (workspace : String)
    (r : PolicyConfig) (p k : String)
    → All IsConfig configs
    → entity_workspace get_namespace_labels entity ≡ ok workspace
    → get_policy_config unmarshal (ok configs) get_namespace_labels kinds entity ≡ ok r
    → Decides unmarshal
        (said_by p k (
          match_configs entity workspace
            (get_flux_object kinds entity.labels)
            configs
            nothing_matched))
        (parameter_of unmarshal p k r.config)
unfolding get_policy_config
get_policy_config-Decides unmarshal get_namespace_labels kinds entity configs workspace r p k h w
      e =
    let m =
      match_configs entity workspace (get_flux_object kinds entity.labels) configs
        nothing_matched in
    let all_maps = all_configs-All IsConfig m (
      match_configs-AllMatched IsConfig entity workspace (get_flux_object kinds entity.labels)
        configs nothing_matched h
        (record {
          workspaces = tt;
          namespaces = tt;
          apps = tt;
          apps_with_namespace = tt;
          resources = tt;
          resources_with_namespace = tt;
        })) in
    let done : override unmarshal (all_configs m) ≡ ok r = ground arith in
    subst (λ s. Decides unmarshal s (parameter_of unmarshal p k r.config))
      (setting-all_configs p k m) (override-Decides unmarshal (all_configs m) r p k all_maps done)
