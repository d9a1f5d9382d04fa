-- ===== src/Tests/Auditing.antt =====
-- An audit of an agent that has been started.
use policy_agent.Prelude.{
  String, true, false, List, [], ◌∷◌, some, Result, ok, err, Map, map, ◌≡◌, refl, arith, ◌==◌,
  if◌then◌else◌,
}
use policy_agent.Value.{Value, null}
use policy_agent.Entities.{
  EntitySource, Listing, ListRequest, by_name, by_page, get_entities_sources,
}
use policy_agent.Kube.{get_agent_permissions, get_api_resources}
use policy_agent.Auditor.{do_audit}
use policy_agent.Agent.Modes.{Audit, new_opa_validator}
use policy_agent.Agent.Auditing.{
  source_of, final, further, AllItems, nothing, these, all_audited, main-do_audit,
}
use policy_agent.Auditor
use policy_agent.Tests.{accessors}
use policy_agent.Tests.Starting.{
  platform_with, pods, viper, read, results, agent_with, runnables, serving,
}

abbrev object_named : String → Map Value
object_named name = (name, null) ∷ []

-- An API server that has two pages.
abbrev list : EntitySource → ListRequest → Result Listing
list s (by_name name) = err "not found"
list s (by_page o) =
    if o.key_set == ""
    then ok (record { items = object_named "a" ∷ object_named "b" ∷ []; continue = "next" })
    else ok (record { items = object_named "c" ∷ []; continue = "" })

abbrev pages : List (List (Map Value))
pages = (object_named "a" ∷ object_named "b" ∷ []) ∷ (object_named "c" ∷ []) ∷ []

abbrev audit : Audit
audit = record {
  validator =
      new_opa_validator (platform_with []) (read "insert") "kubernetes" true "Audit" false results;
  sources = pods ∷ [];
  interval = 86400000000000;
  pending = Auditor.event "initial-audit" ∷ [];
}

listed : AllItems accessors (ok "agent") list (pods ∷ []) (pages ∷ [])
listed = these refl (further _ refl refl (final _ refl refl)) nothing

main-do_audit_example :
    (get_entities_sources
        (get_agent_permissions (platform_with []).permissions)
        (get_api_resources (platform_with []).api_resources)
      ≡ ok (pods ∷ []))
    × (do_audit 3 (map (source_of accessors (ok "agent") list) (pods ∷ []))
        ≡ some (all_audited accessors (ok "agent") list (pages ∷ [])))
main-do_audit_example =
    main-do_audit (platform_with []) (viper "insert") "config.yaml" (agent_with []) runnables audit
      accessors (ok "agent") list (pages ∷ []) 3 (serving []) refl listed (omega arith, tt)
