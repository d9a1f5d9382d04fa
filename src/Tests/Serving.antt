-- ===== src/Tests/Serving.antt =====
-- Runs of the webhooks, the audit, the elastic sink, policy sets and the agent's permissions.
use policy_agent.Prelude.{
  All, contains, exists_where, String, true, false, List, [], ◌∷◌, ◌++◌, none, some, Result, ok,
  err, ◌≡◌, refl, ◌↔◌, ◌⊎◌, inl, inr, Any, Member, arith, Map, map, insert, split_char, ◌==◌,
  if◌then◌else◌,
}
use policy_agent.Value.{Value, text, null}
use policy_agent.Domain.{EntitiesList, Occurrence, PolicyValidation, MutationResult}
use policy_agent.Domain.Mutation.{
  mutated_label, new_mutation_result, mutate, mutate_all, mutate_one, plain_value, parse_key_path,
}
use policy_agent.Domain.KeyPaths.{IsStep, field, item, parse_key_path-write_path}
use policy_agent.Validation.{apply_mutations, mutate_violations, unmutated}
use policy_agent.Validation.Mutating.{IsKept, apply_mutations-IsKept}
use policy_agent.Handlers.{ValidateFn, Request, is_system, handle_admission}
use policy_agent.Handlers.Laws.{lets_pass, IsCleared, handle_admission_iff}
use policy_agent.Auditor.{Source, do_audit}
use policy_agent.Auditor.Laws.{last, more, no_sources, next_source, do_audit-roots}
use policy_agent.Elastic.{Signal, result, tick, done, start, run}
use policy_agent.Elastic.Laws.{flatten, IsBounded, run-start}
use policy_agent.PolicySet.{PolicySetFilters, PolicyView, match, match_iff}
use policy_agent.Entities.{
  ResourceRule, collect_rules, get_validate_rules, ApiResourceList, EntitySource,
  get_entities_sources, list_sources, resource_sources, find_source, covers, check_allowed,
  allows_list, new_rules_cache,
}
use policy_agent.Entities.Sources.{IsAllowed, get_entities_sources-IsAllowed}
use policy_agent.Entities.Laws.{Grants, get_validate_rules-ok_iff}
use policy_agent.Tests.{yaml, json, accessors, deny, pod, occurrence, violation_by}

abbrev document : MutationResult yaml.Node
document = record { raw = "raw"; node = ([], []) }

spec-IsStep : IsStep (field "spec")
spec-IsStep = ((refl, (refl, (refl, (refl, tt)))), (refl, (refl, (refl, (refl, tt)))))

name-IsStep : IsStep (field "name")
name-IsStep = ((refl, (refl, (refl, (refl, tt)))), (refl, (refl, (refl, (refl, tt)))))

ports-IsStep : IsStep (item "ports" "80")
ports-IsStep = (
  λ e. cc,
  λ e. cc,
  (
    inr (inl (omega arith, omega arith)),
    (
      inr (inl (omega arith, omega arith)),
      (
        inr (inl (omega arith, omega arith)),
        (inr (inl (omega arith, omega arith)), (inr (inl (omega arith, omega arith)), tt)),
      ),
    ),
  ),
  ((omega arith, omega arith), ((omega arith, omega arith), tt)),
)

parse_key_path-write_path_example :
    parse_key_path "spec.ports[80].name" ≡ "spec" ∷ "ports" ∷ "80" ∷ "name" ∷ []
parse_key_path-write_path_example =
    parse_key_path-write_path (field "spec") (item "ports" "80" ∷ field "name" ∷ [])
      (spec-IsStep, (ports-IsStep, (name-IsStep, tt)))

abbrev plain_occurrence : Occurrence
plain_occurrence = record occurrence { recommended_value = null }

-- A violation whose second occurrence cannot be repaired, and one whose policy does not mutate.
abbrev found_violations : List PolicyValidation
found_violations =
    record (violation_by deny) { occurrences = occurrence ∷ plain_occurrence ∷ [] }
    ∷ violation_by (record deny { mutate = false })
    ∷ []

abbrev kept_violations : List PolicyValidation
kept_violations =
    record (violation_by deny) {
      occurrences = record occurrence { mutated = true } ∷ plain_occurrence ∷ [];
    }
    ∷ []

abbrev mutated_document : MutationResult yaml.Node
mutated_document = record {
  raw = "{}";
  node = (("spec" ∷ "user" ∷ [], text "1000") ∷ [], (mutated_label, "") ∷ []);
}

mutated_run :
    apply_mutations yaml json true pod found_violations
    ≡ ok (some mutated_document, kept_violations)
unfolding apply_mutations mutate_violations new_mutation_result mutate mutate_all mutate_one
    plain_value parse_key_path split_char unmutated insert
mutated_run = refl

apply_mutations-IsKept_example :
    IsKept yaml json true pod found_violations kept_violations (some mutated_document)
apply_mutations-IsKept_example =
    apply_mutations-IsKept yaml json true pod found_violations kept_violations
      (some mutated_document) mutated_run

-- A validator that finds one enforced violation.
abbrev strict : ValidateFn String
strict entity operation =
    ok (record { violations = violation_by deny ∷ []; compliances = []; mutation = none })

abbrev create_web : Request
create_web = record { namespace = "shop"; name = "web"; raw = "{}"; operation = "CREATE" }

abbrev unmarshal : String → Result (Map Value)
unmarshal raw = ok (("kind", text "Pod") ∷ [])

handle_admission_iff_example :
    (lets_pass (handle_admission accessors unmarshal strict create_web) ≡ true)
    ↔ ((is_system "shop" ≡ true) ⊎ IsCleared accessors strict "CREATE" (unmarshal "{}"))
handle_admission_iff_example = handle_admission_iff accessors unmarshal strict create_web

-- Two pages, the second one empty.
abbrev first_page : EntitiesList
first_page = record {
  has_next = true;
  key_set = "next";
  entities = pod ∷ record pod { has_parent = true } ∷ [];
}

abbrev last_page : EntitiesList
last_page = record { has_next = false; key_set = ""; entities = [] }

abbrev source : Source
source options = if options.key_set == "next" then ok last_page else ok first_page

do_audit-roots_example : do_audit 3 (source ∷ []) ≡ some (pod ∷ [])
do_audit-roots_example =
    do_audit-roots 3 (source ∷ []) (((pod ∷ record pod { has_parent = true } ∷ []) ∷ [] ∷ []) ∷ [])
      (next_source (more first_page refl refl (last last_page refl refl)) no_sources)
      (omega arith, tt)

abbrev signals : List Signal
signals = result (violation_by deny) ∷ tick ∷ result (violation_by deny) ∷ done ∷ []

run-start_example :
    (flatten (run start signals).written
        ++ (if (run start signals).stopped then [] else (run start signals).batch)
      ≡ violation_by deny ∷ violation_by deny ∷ [])
    × ((run start signals).stopped ≡ true)
    × IsBounded (run start signals)
run-start_example = run-start signals

abbrev filters : PolicySetFilters
filters = record {
  ids = [];
  categories = "security" ∷ [];
  severities = [];
  standards = [];
  tags = [];
}

abbrev view : PolicyView
view = record { name = "deny"; category = "security"; severity = "low"; standards = []; tags = [] }

match_iff_example : (match filters view ≡ true) ↔ (
    Member "deny" []
    ⊎ Member "security" ("security" ∷ [])
    ⊎ Member "low" []
    ⊎ Any (λ v. Member v []) (map (λ s. s.id) view.standards)
    ⊎ Any (λ v. Member v []) [])
match_iff_example = match_iff filters view

abbrev rules : List ResourceRule
rules =
    record {
      verbs = "list" ∷ [];
      api_groups = "*" ∷ [];
      resources = "policies" ∷ [];
      resource_names = [];
    }
    ∷ []

get_validate_rules-ok_iff_example :
    ((get_validate_rules (ok rules) ≡ ok (collect_rules rules).0)
      ↔ Any (λ r. Grants "pac.weave.works" "policies" r) rules)
    × ((get_validate_rules (ok rules) ≡ err "missing weaveworks policies resource permissions")
        ↔ (¬ Any (λ r. Grants "pac.weave.works" "policies" r) rules))
get_validate_rules-ok_iff_example = get_validate_rules-ok_iff rules

abbrev listing_rules : List ResourceRule
listing_rules =
    record { verbs = "*" ∷ []; api_groups = "*" ∷ []; resources = "*" ∷ []; resource_names = [] }
    ∷ []

-- Pods can be listed, bindings cannot, and the policies are the agent's own.
abbrev served_lists : List ApiResourceList
served_lists =
    record {
      group_version = ok ("", "v1");
      api_resources =
          record { name = "pods"; kind = "Pod"; verbs = "get" ∷ "list" ∷ [] }
          ∷ record { name = "bindings"; kind = "Binding"; verbs = "create" ∷ [] }
          ∷ [];
    }
    ∷ record {
      group_version = ok ("pac.weave.works", "v2beta3");
      api_resources = record { name = "policies"; kind = "Policy"; verbs = "list" ∷ [] } ∷ [];
    }
    ∷ []

abbrev pod_source : EntitySource
pod_source = record {
  group = "";
  version = "v1";
  resource = "pods";
  kind = "Pod";
  resource_names = [];
}

only_pods : get_entities_sources (ok listing_rules) (ok served_lists) ≡ ok (pod_source ∷ [])
unfolding get_entities_sources get_validate_rules collect_rules list_sources resource_sources
    find_source covers check_allowed allows_list new_rules_cache contains exists_where
only_pods = refl

get_entities_sources-IsAllowed_example :
    All (IsAllowed listing_rules served_lists) (pod_source ∷ [])
get_entities_sources-IsAllowed_example =
    get_entities_sources-IsAllowed listing_rules served_lists (pod_source ∷ []) only_pods
