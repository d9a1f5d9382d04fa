-- ===== src/PolicyConfigs/Groups.antt =====
-- The lists that the loops of `GetPolicyConfig` collect the configs in
-- (internal/policies/policyconfig.go).
use mathlib.Core.List.{
  filter_map, filter_map-cons-none, filter_map-cons-some, append_assoc, append-nil,
}
use policy_agent.Prelude.{
  String, Bool, true, false, ◌&&◌, not, List, [], ◌∷◌, ◌++◌, Option, none, some, ◌≡◌, ◌≢◌, ◌∙◌,
  subst, inl, inr, Bool-cases, arith, Member, contains, ◌==◌, if◌then◌else◌,
}
use policy_agent.Api.{PolicyConfigCrd, elements}
use policy_agent.Domain.{Entity}
use policy_agent.Controller.{ids_of}
use policy_agent.PolicyConfigs.{
  Matched, match_config, match_configs, FluxObject, Hit, no_hit, anywhere, in_namespace,
  match_resources, app_hit,
}
use policy_agent.PolicyConfigs.Hits.{
  is_hit, if_hit-is_hit, Hits, match_resources-Hits, elements-ids_of, app_key, app_hit-Member,
}

-- The configs that pass a test.
unfoldable pub pick : (PolicyConfigCrd → Bool) → PolicyConfigCrd → Option PolicyConfigCrd
pick test c = if test c then some c else none

unfoldable pub picked : (PolicyConfigCrd → Bool) → List PolicyConfigCrd → List PolicyConfigCrd
unfolding pick
picked test cs = filter_map (pick test) cs

pub picked-hit :
    (test : PolicyConfigCrd → Bool) (c : PolicyConfigCrd) (cs : List PolicyConfigCrd)
    → test c ≡ true
    → picked test (c ∷ cs) ≡ (c ∷ picked test cs)
unfolding picked pick
picked-hit test c cs h = filter_map-cons-some (pick test) c cs (ground arith)

pub picked-miss :
    (test : PolicyConfigCrd → Bool) (c : PolicyConfigCrd) (cs : List PolicyConfigCrd)
    → test c ≡ false
    → picked test (c ∷ cs) ≡ picked test cs
unfolding picked pick
picked-miss test c cs h = filter_map-cons-none (pick test) c cs (ground arith)

-- One round of a loop that appends the configs that pass a test.
picked-step :
    (test : PolicyConfigCrd → Bool) (xs : List PolicyConfigCrd) (c : PolicyConfigCrd)
    (cs : List PolicyConfigCrd)
    → (xs ++ (if test c then c ∷ [] else [])) ++ picked test cs ≡ xs ++ picked test (c ∷ cs)
picked-step test xs c cs = elim (Bool-cases (test c)) [
  | inl e ↦ rw (e, picked-hit test c cs e) (append_assoc xs (c ∷ []) (picked test cs))
  | inr e ↦ rw (e, picked-miss test c cs e) (append_assoc xs [] (picked test cs))
]

module _ (entity : Entity) (workspace : String) (flux : Option FluxObject) where
  unfoldable pub by_workspace : PolicyConfigCrd → Bool
  by_workspace c = not (workspace == "") && contains workspace (elements c.match.workspaces)

  unfoldable pub by_namespace : PolicyConfigCrd → Bool
  by_namespace c = contains entity.namespace (elements c.match.namespaces)

  pub by_app : Hit → PolicyConfigCrd → Bool
  by_app hit c = is_hit (app_hit flux c) hit

  unfoldable pub by_resource : Hit → PolicyConfigCrd → Bool
  by_resource hit c = is_hit (match_resources entity (elements c.match.resources)) hit

  abbrev pub groups : List PolicyConfigCrd → Matched → Matched
  groups cs m = record {
    workspaces = m.workspaces ++ picked by_workspace cs;
    namespaces = m.namespaces ++ picked by_namespace cs;
    apps = m.apps ++ picked (by_app anywhere) cs;
    apps_with_namespace = m.apps_with_namespace ++ picked (by_app in_namespace) cs;
    resources = m.resources ++ picked (by_resource anywhere) cs;
    resources_with_namespace = m.resources_with_namespace ++ picked (by_resource in_namespace) cs;
  }

  pub match_configs-groups :
      (cs : List PolicyConfigCrd) (m : Matched)
      → match_configs entity workspace flux cs m ≡ groups cs m
  unfolding match_configs match_config picked filter_map by_workspace by_namespace by_app
      by_resource
  match_configs-groups [] m = simp (append-nil)
  match_configs-groups (c ∷ cs) m =
      match_configs-groups cs _
      ∙ simp (
        if_hit-is_hit,
        picked-step by_workspace,
        picked-step by_namespace,
        picked-step (by_app anywhere),
        picked-step (by_app in_namespace),
        picked-step (by_resource anywhere),
        picked-step (by_resource in_namespace),
      )

  pub resource_hit-Hits :
      (c : PolicyConfigCrd)
      → Hits entity.kind entity.name entity.namespace
          (elements (ids_of c.match.resources))
          (match_resources entity (elements c.match.resources))
  resource_hit-Hits c =
      subst
        (λ ids.
          Hits entity.kind entity.name entity.namespace ids
            (match_resources entity (elements c.match.resources)))
        (elements-ids_of c.match.resources)
        (match_resources-Hits entity (elements c.match.resources))

  pub by_app-Member :
      (c : PolicyConfigCrd) (hit : Hit)
      → by_app hit c ≡ true
      → hit ≢ no_hit
      → Member (app_key flux hit) (elements (ids_of c.match.applications))
  unfolding by_app
  by_app-Member c hit e n = app_hit-Member flux c hit e n
