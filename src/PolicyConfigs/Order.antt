-- ===== src/PolicyConfigs/Order.antt =====
-- The order in which the cache lists the policy configs (internal/policies/policyconfig.go,
-- `GetPolicyConfig`, and the webhook of controllers/policyconfig_controller.go behind the store).
use mathlib.Core.List.{Perm, filter_map, perm-replicate}
use mathlib.Core.List.Perm
use text.Mathlib.TextEquality.{IsScalar-prop}
use policy_agent.Prelude.{
  String, Bool, true, List, [], ◌∷◌, Option, Result, ok, Result-cases, Map, ◌≡◌, ◌≢◌, refl, sym,
  ◌∙◌, subst, inl, inr, Bool-cases, arith, All, Member, contains_iff,
}
use policy_agent.Api.{RawJson, PolicyConfigCrd, elements}
use policy_agent.Value.{Value}
use policy_agent.Domain.{Entity}
use policy_agent.Controller.{ids_of}
use policy_agent.Controller.Laws.{Common, Common-both, SharesTarget}
use policy_agent.Controller.Store.{IsApart, AreApart, Stored, Stored-IsStore}
use policy_agent.PolicyConfigs.{
  match_configs, nothing_matched, get_policy_config, entity_workspace, get_flux_object, FluxObject,
  Hit, no_hit, anywhere, in_namespace,
}
use policy_agent.PolicyConfigs.Groups.{
  pick, picked, picked-hit, picked-miss, by_workspace, by_namespace, by_app, by_resource,
  match_configs-groups, by_app-Member, resource_hit-Hits,
}
use policy_agent.PolicyConfigs.Hits.{id_in, is_hit-Hits, app_key}

config_set : IsSet PolicyConfigCrd
config_set = hlevel (IsScalar-prop)

abbrev IsShort : List PolicyConfigCrd → Type 0
IsShort [] = Unit
IsShort (x ∷ xs) = xs ≡ []

Perm-short : (xs ys : List PolicyConfigCrd) → Perm xs ys → IsShort xs → xs ≡ ys
Perm-short [] ys p h = Perm.nil-eq p
Perm-short (x ∷ []) ys p h = sym ((perm-replicate config_set 1 x).0 (Perm.symm p))
Perm-short (x ∷ y ∷ xs) ys p h = absurd (cc)

-- Where the key of a test is an id of every config that passes it, at most one of several configs
-- without a common target passes.
module _ (test : PolicyConfigCrd → Bool) (ids : PolicyConfigCrd → List String) (key : String)
    (keyed : (c : PolicyConfigCrd) → test c ≡ true → Member key (ids c))
    (shared : (c d : PolicyConfigCrd) → Common (ids c) (ids d) → SharesTarget c.match d.match) where
  picked-alone :
      (c : PolicyConfigCrd) (cs : List PolicyConfigCrd)
      → test c ≡ true
      → All (λ d. IsApart d c) cs
      → picked test cs ≡ []
  unfolding picked filter_map
  picked-alone c [] hit h = refl
  picked-alone c (d ∷ cs) hit ((_, apart), h) = elim (Bool-cases (test d)) [
    | inl e ↦
        absurd (apart (shared d c (Common-both key (ids d) (ids c) (keyed d e) (keyed c hit))))
    | inr e ↦ picked-miss test d cs e ∙ picked-alone c cs hit h
  ]

  picked-IsShort : (cs : List PolicyConfigCrd) → AreApart cs → IsShort (picked test cs)
  unfolding picked filter_map
  picked-IsShort [] h = tt
  picked-IsShort (c ∷ cs) (apart, h) = elim (Bool-cases (test c)) [
    | inl e ↦ subst IsShort (sym (picked-hit test c cs e)) (picked-alone c cs e apart)
    | inr e ↦ subst IsShort (sym (picked-miss test c cs e)) (picked-IsShort cs h)
  ]

  picked-Perm :
      (cs ds : List PolicyConfigCrd) → Perm cs ds → AreApart cs → picked test cs ≡ picked test ds
  unfolding picked
  picked-Perm cs ds p h =
      Perm-short (picked test cs) (picked test ds) (Perm.filter_map (pick test) p)
        (picked-IsShort cs h)

module _ (entity : Entity) (workspace : String) (flux : Option FluxObject)
    (cs ds : List PolicyConfigCrd) (same : Perm cs ds) (apart : AreApart cs) where
  workspaces-Perm :
      picked (by_workspace entity workspace flux) cs
      ≡ picked (by_workspace entity workspace flux) ds
  unfolding by_workspace
  workspaces-Perm =
      picked-Perm (by_workspace entity workspace flux) (λ c. elements c.match.workspaces) workspace
        (λ c e. (contains_iff workspace (elements c.match.workspaces)).0 (ground arith))
        (λ c d h. inl h) cs ds same apart

  namespaces-Perm :
      picked (by_namespace entity workspace flux) cs
      ≡ picked (by_namespace entity workspace flux) ds
  unfolding by_namespace
  namespaces-Perm =
      picked-Perm (by_namespace entity workspace flux) (λ c. elements c.match.namespaces)
        entity.namespace (λ c e. (contains_iff entity.namespace (elements c.match.namespaces)).0 e)
        (λ c d h. inr (inl h)) cs ds same apart

  apps-Perm :
      (hit : Hit)
      → hit ≢ no_hit
      → picked (by_app entity workspace flux hit) cs ≡ picked (by_app entity workspace flux hit) ds
  apps-Perm hit n =
      picked-Perm (by_app entity workspace flux hit) (λ c. elements (ids_of c.match.applications))
        (app_key flux hit) (λ c e. by_app-Member entity workspace flux c hit e n)
        (λ c d h. inr (inr (inl h))) cs ds same apart

  resources-Perm :
      (picked (by_resource entity workspace flux anywhere) cs
        ≡ picked (by_resource entity workspace flux anywhere) ds)
      × (picked (by_resource entity workspace flux in_namespace) cs
          ≡ picked (by_resource entity workspace flux in_namespace) ds)
  unfolding by_resource
  resources-Perm = (
    picked-Perm (by_resource entity workspace flux anywhere)
        (λ c. elements (ids_of c.match.resources)) (id_in entity.kind entity.name "")
        (λ c e.
          is_hit-Hits entity.kind entity.name entity.namespace _ _ anywhere e
            (resource_hit-Hits entity workspace flux c))
        (λ c d h. inr (inr (inr h))) cs ds same apart,
    picked-Perm (by_resource entity workspace flux in_namespace)
        (λ c. elements (ids_of c.match.resources)) (id_in entity.kind entity.name entity.namespace)
        (λ c e.
          is_hit-Hits entity.kind entity.name entity.namespace _ _ in_namespace e
            (resource_hit-Hits entity workspace flux c))
        (λ c d h. inr (inr (inr h))) cs ds same apart,
  )

  match_configs-Perm :
      match_configs entity workspace flux cs nothing_matched
      ≡ match_configs entity workspace flux ds nothing_matched
  match_configs-Perm =
      match_configs-groups entity workspace flux cs nothing_matched
      ∙ rw
          (
            workspaces-Perm,
            namespaces-Perm,
            apps-Perm anywhere (λ e. cc),
            apps-Perm in_namespace (λ e. cc),
            resources-Perm.0,
            resources-Perm.1,
          )
          refl
      ∙ sym (match_configs-groups entity workspace flux ds nothing_matched)

-- Where every config came into the store through the webhook, the order in which the cache lists the
-- configs makes no difference to what `GetPolicyConfig` answers for any entity, its errors included.
pub get_policy_config-Perm :
    (unmarshal : RawJson → Result Value) (get_namespace_labels : String → Result (Map String))
    (kinds : Map String) (entity : Entity) (cs ds : List PolicyConfigCrd)
    → Stored cs
    → Perm cs ds
    → get_policy_config unmarshal (ok cs) get_namespace_labels kinds entity
      ≡ get_policy_config unmarshal (ok ds) get_namespace_labels kinds entity
unfolding get_policy_config
get_policy_config-Perm unmarshal get_namespace_labels kinds entity cs ds stored same =
    elim (Result-cases (entity_workspace get_namespace_labels entity)) [
      | inl (w, e) ↦
          let m =
            match_configs-Perm entity w (get_flux_object kinds entity.labels) cs ds same
              (Stored-IsStore stored).apart in
          rw (e, m) refl
      | inr (x, e) ↦ rw e refl
    ]
