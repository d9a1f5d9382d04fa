-- ===== src/Tests/Configuring.antt =====
-- Runs of the policy configs: their admission, and what they decide for an entity.
use mathlib.Core.List.Perm
use policy_agent.Prelude.{
  String, false, [], ◌∷◌, none, some, Result, ok, ◌≡◌, refl, ◌↔◌, Map, insert, lookup, contains,
}
use policy_agent.Value.{Value, text}
use policy_agent.Domain.{PolicyConfig}
use policy_agent.Api.{PolicyConfigCrd, PolicyConfigTarget, ObjectTarget, RawJson, validate_config}
use policy_agent.Api.Laws.{count_targets}
use policy_agent.Controller.{check_configs, check_target_overlap, handle, allowed}
use policy_agent.Controller.Laws.{StandsApart, handle-allowed_iff}
use policy_agent.Controller.Store.{Stored, empty, admitted, IsStore, Stored-IsStore_iff}
use policy_agent.PolicyConfigs.Order.{get_policy_config-Perm}
use policy_agent.PolicyConfigs.{
  FluxObject, entity_workspace, get_flux_object, match_apps, match_resources, match_configs,
  match_config, nothing_matched, get_policy_config, override, merge_configs, merge_policies,
  merge_parameters, put, decode_config, decode_parameters, flux_controller_kind_map,
}
use policy_agent.PolicyConfigs.Override.{setting, Decides, parameter_of, override-Decides}
use policy_agent.PolicyConfigs.FirstTargets.{IsDecided, Names, Fits, match-IsDecided}
use policy_agent.PolicyConfigs.Precedence.{said_by, get_policy_config-Decides}
use policy_agent.Tests.{pod}

abbrev resource_in : String → ObjectTarget
resource_in namespace = record { kind = "Pod"; name = "web"; namespace = namespace }

abbrev nothing_targeted : PolicyConfigTarget
nothing_targeted = record {
  workspaces = none;
  namespaces = none;
  applications = none;
  resources = none;
}

-- A config that sets the replicas of the policy "deny".
abbrev config_of : String → String → PolicyConfigTarget → PolicyConfigCrd
config_of name value target = record {
  name = name;
  config = ("deny", ("replicas", value) ∷ []) ∷ [];
  match = target;
  deleting = false;
  status = record { status = ""; missing_policies = [] };
}

abbrev by_namespace : PolicyConfigCrd
by_namespace = config_of "wide" "1" (record nothing_targeted { namespaces = some ("shop" ∷ []) })

abbrev pub by_resource : PolicyConfigCrd
by_resource =
    config_of "narrow" "3" (record nothing_targeted { resources = some (resource_in "" ∷ []) })

abbrev decode : RawJson → Result Value
decode raw = ok (text raw)

abbrev no_labels : String → Result (Map String)
no_labels namespace = ok []

handle-allowed_iff_example :
    (handle (ok by_resource) (ok (by_namespace ∷ by_resource ∷ [])) ≡ allowed) ↔ (
      (count_targets by_resource.match ≡ 1)
      × StandsApart by_resource (by_namespace ∷ by_resource ∷ []))
handle-allowed_iff_example =
    handle-allowed_iff by_resource (by_namespace ∷ by_resource ∷ []) (refl, (refl, tt))

configuring : Unit {0}
unfolding get_policy_config entity_workspace get_flux_object match_configs match_config match_apps
    match_resources override merge_configs merge_policies merge_parameters put decode_config
    decode_parameters lookup insert contains
configuring = tt

-- The webhook allows the one and then the other.
built : Stored (by_resource ∷ by_namespace ∷ [])
unfolding handle check_configs check_target_overlap validate_config
built = admitted by_resource (admitted by_namespace empty refl) refl

Stored-IsStore_iff_example :
    Stored (by_resource ∷ by_namespace ∷ []) ↔ IsStore (by_resource ∷ by_namespace ∷ [])
Stored-IsStore_iff_example = Stored-IsStore_iff (by_resource ∷ by_namespace ∷ [])

get_policy_config-Perm_example :
    get_policy_config decode
      (ok (by_resource ∷ by_namespace ∷ []))
      no_labels
      flux_controller_kind_map
      pod
    ≡ get_policy_config decode
        (ok (by_namespace ∷ by_resource ∷ []))
        no_labels
        flux_controller_kind_map
        pod
get_policy_config-Perm_example =
    get_policy_config-Perm decode no_labels flux_controller_kind_map pod
      (by_resource ∷ by_namespace ∷ []) (by_namespace ∷ by_resource ∷ []) built
      (Perm.swap by_namespace by_resource [])

-- What the two configs come to: the one that names the resource decides.
abbrev merged : PolicyConfig
merged = record {
  config =
      (
        "deny",
        record {
          parameters = ("replicas", record { value = text "3"; config_ref = "narrow" }) ∷ [];
        },
      )
      ∷ [];
}

sets_once :
    ((lookup {V = Map RawJson} "deny" [] ≡ none) × Unit {0})
    × (((lookup {V = RawJson} "replicas" [] ≡ none) × Unit {0}) × Unit {0})
unfolding lookup
sets_once = ((refl, tt), ((refl, tt), tt))

overridden : override decode (by_namespace ∷ by_resource ∷ []) ≡ ok merged
unfolding configuring
overridden = refl

override-Decides_example :
    Decides decode
      (setting "deny" "replicas" (by_namespace ∷ by_resource ∷ []))
      (parameter_of decode "deny" "replicas" merged.config)
override-Decides_example =
    override-Decides decode (by_namespace ∷ by_resource ∷ []) merged "deny" "replicas"
      (sets_once, (sets_once, tt)) overridden

decided :
    get_policy_config decode
      (ok (by_resource ∷ by_namespace ∷ []))
      no_labels
      flux_controller_kind_map
      pod
    ≡ ok merged
unfolding configuring
decided = refl

no_workspace : entity_workspace no_labels pod ≡ ok ""
unfolding configuring
no_workspace = refl

get_policy_config-Decides_example :
    Decides decode
      (said_by "deny" "replicas" (
        match_configs pod ""
          (get_flux_object flux_controller_kind_map (("app", "web") ∷ []))
          (by_resource ∷ by_namespace ∷ [])
          nothing_matched))
      (parameter_of decode "deny" "replicas" merged.config)
get_policy_config-Decides_example =
    get_policy_config-Decides decode no_labels flux_controller_kind_map pod
      (by_resource ∷ by_namespace ∷ []) "" merged "deny" "replicas" (sets_once, (sets_once, tt))
      no_workspace decided

abbrev flux : FluxObject
flux = record { api_version = "helm"; kind = "HelmRelease"; namespace = "shop"; name = "web" }

match-IsDecided_example :
    IsDecided
      (Names pod.name pod.kind)
      pod.namespace
      (resource_in "other" ∷ resource_in "shop" ∷ [])
      (match_resources pod (resource_in "other" ∷ resource_in "shop" ∷ []))
    × IsDecided
        (λ t. Names "web" "HelmRelease" t × Fits "shop" t)
        "shop"
        (resource_in "other" ∷ resource_in "shop" ∷ [])
        (match_apps flux (resource_in "other" ∷ resource_in "shop" ∷ []))
match-IsDecided_example = match-IsDecided pod flux (resource_in "other" ∷ resource_in "shop" ∷ [])
