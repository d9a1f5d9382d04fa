-- ===== src/Agent/Auditing.antt =====
-- The audit of an agent that serves (main.go, internal/auditor, internal/entities and
-- internal/clients).
use policy_agent.Prelude.{
  ℕ, ◌<◌, String, true, false, List, [], ◌∷◌, ◌++◌, some, Result, ok, err, Map, map, ◌≡◌, refl, ap,
  sym, ◌∙◌, subst, All, Bool-cases, inl, inr, arith, is_empty, length, length-map, ◌==◌, ◌<>◌, not,
  if◌then◌else◌,
}
use policy_agent.Value.{Value}
use policy_agent.Domain.{Accessors, Entity, EntitiesList, ListOptions, new_entity_from_spec}
use policy_agent.Entities.{
  EntitySource, Listing, ListRequest, by_page, keep_items, list_entities, get_entities_sources,
}
use policy_agent.Kube.{
  list_resource_items, get_agent_namespace, get_agent_permissions, get_api_resources,
}
use policy_agent.Auditor.{Source, entities_size_limit, do_audit}
use policy_agent.Auditor.Laws.{
  Pages, fault, last, more, roots_of_page, roots, AllPages, no_sources, next_source, all_roots,
  do_audit-roots,
}
use policy_agent.Agent.Configuration.{Viper}
use policy_agent.Agent.Startup.{Runnable, Platform}
use policy_agent.Agent.Modes.{Audit, Agent}
use policy_agent.Agent.Process.{serves, main}
use policy_agent.Agent.Wired.{OnlyIf-some, IsAudited}
use policy_agent.Agent.Wiring.{main-IsWired}

module _ (accessors : Accessors) (mounted : Result String)
    (list : EntitySource → ListRequest → Result Listing) where
  -- The entities sources as the audit calls them: `mounted` is the file with the agent's namespace,
  -- and `list` is the API server's answer to a list request for the resource of a source.
  unfoldable pub source_of : EntitySource → Source
  source_of s options =
      list_entities accessors (get_agent_namespace mounted) s
        (λ r. list_resource_items s.resource "" (list s r)) options

  -- The objects of a source, page by page from a key on, as the API server gives them.
  pub data Items (s : EntitySource) : String → List (List (Map Value)) → Type 0 where
    refused :
        {key : String} (e : String)
        → list s (by_page (record { limit = entities_size_limit; key_set = key })) ≡ err e
        → Items s key []
    final :
        {key : String} (page : Listing)
        → list s (by_page (record { limit = entities_size_limit; key_set = key })) ≡ ok page
        → (page.continue == "") ≡ true
        → Items s key (page.items ∷ [])
    further :
        {key : String} {rest : List (List (Map Value))} (page : Listing)
        → list s (by_page (record { limit = entities_size_limit; key_set = key })) ≡ ok page
        → (page.continue == "") ≡ false
        → Items s page.continue rest
        → Items s key (page.items ∷ rest)

  pub data AllItems : List EntitySource → List (List (List (Map Value))) → Type 0 where
    nothing : AllItems [] []
    these :
        {s : EntitySource} {ss : List EntitySource} {pages : List (List (Map Value))}
        {rest : List (List (List (Map Value)))}
        → is_empty s.resource_names ≡ true
        → Items s "" pages
        → AllItems ss rest
        → AllItems (s ∷ ss) (pages ∷ rest)

  -- The objects outside the agent's own namespace that have no parent, as entities.
  abbrev pub audited : List (Map Value) → List Entity
  audited [] = []
  audited (i ∷ is) =
      if accessors.get_namespace i == get_agent_namespace mounted
      then audited is
      else if (new_entity_from_spec accessors i).has_parent
      then audited is
      else new_entity_from_spec accessors i ∷ audited is

  abbrev pub audited_pages : List (List (Map Value)) → List Entity
  audited_pages [] = []
  audited_pages (page ∷ pages) = audited page ++ audited_pages pages

  abbrev pub all_audited : List (List (List (Map Value))) → List Entity
  all_audited [] = []
  all_audited (pages ∷ rest) = audited_pages pages ++ all_audited rest

  abbrev kept : List (Map Value) → List Entity
  kept = keep_items accessors (get_agent_namespace mounted)

  roots_of_page-kept : (is : List (Map Value)) → roots_of_page (kept is) ≡ audited is
  unfolding keep_items
  roots_of_page-kept [] = refl
  roots_of_page-kept (i ∷ is) =
      elim (Bool-cases (accessors.get_namespace i == get_agent_namespace mounted)) [
        | inl e ↦ rw (e, roots_of_page-kept is) refl
        | inr e ↦ rw e (ground (arith, roots_of_page-kept is))
      ]

  roots-kept : (pages : List (List (Map Value))) → roots (map kept pages) ≡ audited_pages pages
  roots-kept [] = refl
  roots-kept (p ∷ ps) = rw (roots_of_page-kept p, roots-kept ps) refl

  all_roots-kept :
      (all : List (List (List (Map Value)))) → all_roots (map (map kept) all) ≡ all_audited all
  all_roots-kept [] = refl
  all_roots-kept (p ∷ ps) = rw (roots-kept p, all_roots-kept ps) refl

  abbrev page_of : Listing → EntitiesList
  page_of l = record {
    has_next = not (l.continue == "");
    key_set = l.continue;
    entities = kept l.items;
  }

  source_of-ok :
      (s : EntitySource) (options : ListOptions) (l : Listing)
      → is_empty s.resource_names ≡ true
      → list s (by_page options) ≡ ok l
      → source_of s options ≡ ok (page_of l)
  unfolding source_of list_entities list_resource_items
  source_of-ok s options l h q = rw (h, q) refl

  source_of-err :
      (s : EntitySource) (options : ListOptions) (e : String)
      → is_empty s.resource_names ≡ true
      → list s (by_page options) ≡ err e
      → source_of s options
        ≡ err ("unable to list resource " <> s.resource <> " in namespace " <> "" <> ": " <> e)
  unfolding source_of list_entities list_resource_items
  source_of-err s options e h q = rw (h, q) refl

  Items-Pages :
      (s : EntitySource) {key : String} {pages : List (List (Map Value))}
      → is_empty s.resource_names ≡ true
      → Items s key pages
      → Pages (source_of s) key (map kept pages)
  Items-Pages s h (refused e q) = fault _ (source_of-err s _ e h q)
  Items-Pages s h (final page q n) = last (page_of page) (source_of-ok s _ page h q) (rw n refl)
  Items-Pages s h (further page q n rest) =
      more (page_of page) (source_of-ok s _ page h q) (rw n refl) (Items-Pages s h rest)

  AllItems-AllPages :
      {ss : List EntitySource} {all : List (List (List (Map Value)))}
      → AllItems ss all
      → AllPages (map source_of ss) (map (map kept) all)
  AllItems-AllPages nothing = no_sources
  AllItems-AllPages (these {s = s} h p rest) =
      next_source (Items-Pages s h p) (AllItems-AllPages rest)

  length-kept :
      (fuel : ℕ) (all : List (List (List (Map Value))))
      → All (λ ps. length ps < fuel) all
      → All (λ ps. length ps < fuel) (map (map kept) all)
  length-kept fuel [] h = tt
  length-kept fuel (ps ∷ rest) (h, hs) =
      (subst (λ n. n < fuel) (sym (length-map kept ps)) h, length-kept fuel rest hs)

module _ (x : Platform) where
  -- An audit of an agent that serves goes through the sources that the cluster's answers give. If
  -- all of them are listed by page, and each comes to an end, at a last page or at an error, an
  -- audit with more fuel than any has pages ends, and `Validate` has been called for exactly the objects on the listed pages that are
  -- outside the agent's namespace and have no parent, once and in order.
  pub main-do_audit :
      (viper : Viper) (file_path : String) (a : Agent) (runs : List Runnable) (u : Audit)
      (accessors : Accessors) (mounted : Result String)
      (list : EntitySource → ListRequest → Result Listing) (all : List (List (List (Map Value))))
      (fuel : ℕ)
      → main x viper file_path ≡ serves a runs
      → a.audit ≡ some u
      → AllItems accessors mounted list u.sources all
      → All (λ ps. length ps < fuel) all
      → (get_entities_sources
            (get_agent_permissions x.permissions)
            (get_api_resources x.api_resources)
          ≡ ok u.sources)
        × (do_audit fuel (map (source_of accessors mounted list) u.sources)
            ≡ some (all_audited accessors mounted list all))
  main-do_audit viper file_path a runs u accessors mounted list all fuel serving audits listed
        enough =
      let (c, _, wired) = main-IsWired x viper file_path a runs serving in
      let audit = OnlyIf-some c.audit.enabled (IsAudited x c runs) a.audit u wired.audit audits in
      (
        audit.sources_are,
        do_audit-roots fuel _ _ (AllItems-AllPages accessors mounted list listed)
              (length-kept accessors mounted list fuel all enough)
            ∙ ap some (all_roots-kept accessors mounted list all),
      )
