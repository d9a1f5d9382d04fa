-- ===== src/Entities/Sources.antt =====
-- The sources that the agent audits are those that it may list (internal/entities/k8s/k8s.go).
use policy_agent.Prelude.{
  String, true, not, ◌&&◌, List, [], ◌∷◌, ◌++◌, ok, Result-cases, ◌≡◌, refl, sym, ◌∙◌, subst, inl,
  inr, arith, Any, All, All-append, Member, contains, contains_iff, eq_iff, Bool-cases, if_cases,
  ◌==◌,
}
use policy_agent.Entities.{
  ResourceRule, RulesCache, allows_list, covers, collect_rules, get_validate_rules, ApiResource,
  ApiResourceList, EntitySource, find_source, resource_sources, list_sources, get_entities_sources,
}
use policy_agent.Entities.Laws.{Grants, covers_iff}

-- The resource under which the agent's own policies are stored.
abbrev pub IsOwnPolicies : EntitySource → Type 0
IsOwnPolicies s =
    (s.group ≡ "pac.weave.works") × (s.version ≡ "v2beta3") × (s.resource ≡ "policies")

-- A list of resources serves a source's resource, which can be listed.
abbrev pub Serves : EntitySource → ApiResourceList → Type 0
Serves s l =
    (l.group_version ≡ ok (s.group, s.version))
    × Any (λ r. (r.name ≡ s.resource) × Member "list" r.verbs) l.api_resources

-- A rule behind one of the caches.
abbrev Covered : String → String → List RulesCache → Type 0
Covered group resource caches = Any (λ c. covers group resource c ≡ true) caches

-- What a cache's source has in common with the resource that it was found for.
record IsFound (group version : String) (name : String) (caches : List RulesCache)
    (s : EntitySource) : Type 0 where
  group_is : s.group ≡ group
  version_is : s.version ≡ version
  resource_is : s.resource ≡ name
  is_covered : Covered group name caches
  not_own : ¬ IsOwnPolicies s

weaken :
    (group version name : String) (caches : List RulesCache) (c : RulesCache)
    (ss : List EntitySource)
    → All (IsFound group version name caches) ss
    → All (IsFound group version name (c ∷ caches)) ss
weaken group version name caches c [] h = tt
weaken group version name caches c (s ∷ ss) (h, hs) = (
  record {
    group_is = h.group_is;
    version_is = h.version_is;
    resource_is = h.resource_is;
    is_covered = inr h.is_covered;
    not_own = h.not_own;
  },
  weaken group version name caches c ss hs,
)

find_source-IsFound :
    (group version : String) (r : ApiResource) (caches : List RulesCache)
    → All (IsFound group version r.name caches) (find_source group version r caches)
unfolding find_source
find_source-IsFound group version r [] = tt
find_source-IsFound group version r (c ∷ cs) =
    let rest = weaken group version r.name cs c _ (find_source-IsFound group version r cs) in
    if_cases (All (IsFound group version r.name (c ∷ cs))) (covers group r.name c) _ _
      (λ covered.
        if_cases (All (IsFound group version r.name (c ∷ cs)))
          (group == "pac.weave.works" && version == "v2beta3" && r.name == "policies") _ _
          (λ _. rest)
          (λ other. (
            record {
              group_is = refl;
              version_is = refl;
              resource_is = refl;
              is_covered = inl covered;
              not_own = λ own. ground (
                arith,
                own,
                other,
                eq_iff group "pac.weave.works",
                eq_iff version "v2beta3",
                eq_iff r.name "policies",
              );
            },
            tt,
          )))
      (λ _. rest)

collect_rules-Grants :
    (group resource : String) (rules : List ResourceRule)
    → Covered group resource (collect_rules rules).0
    → Any (λ r. Grants group resource r) rules
unfolding collect_rules
collect_rules-Grants group resource [] h = absurd h
collect_rules-Grants group resource (r ∷ rs) h = elim (Bool-cases (allows_list r)) [
  | inr e ↦ inr (collect_rules-Grants group resource rs (rw (e, collect_rules) at h))
  | inl e ↦ elim (rw (e, collect_rules) at h) [
    | inl k ↦ inl ((covers_iff group resource r).0 (rw (e, k) refl))
    | inr k ↦ inr (collect_rules-Grants group resource rs k)
  ]
]

-- A source that may be audited.
pub record IsAllowed (rules : List ResourceRule) (lists : List ApiResourceList) (s : EntitySource)
    : Type 0 where
  pub granted : Any (λ r. Grants s.group s.resource r) rules
  pub served : Any (λ l. Serves s l) lists
  pub not_own : ¬ IsOwnPolicies s

All-map :
    (P Q : EntitySource → Type 0) (ss : List EntitySource)
    → ((s : EntitySource) → P s → Q s)
    → All P ss
    → All Q ss
All-map P Q [] f h = tt
All-map P Q (s ∷ ss) f (h, hs) = (f s h, All-map P Q ss f hs)

-- The part of `IsAllowed` that is known inside the loop over one list.
record IsListed (group version : String) (caches : List RulesCache) (rs : List ApiResource)
    (s : EntitySource) : Type 0 where
  group_is : group ≡ s.group
  version_is : version ≡ s.version
  is_covered : Covered s.group s.resource caches
  offered : Any (λ r. (r.name ≡ s.resource) × Member "list" r.verbs) rs
  not_own : ¬ IsOwnPolicies s

resource_sources-IsListed :
    (group version : String) (caches : List RulesCache) (rs : List ApiResource)
    → All (IsListed group version caches rs) (resource_sources group version caches rs)
unfolding resource_sources
resource_sources-IsListed group version caches [] = tt
resource_sources-IsListed group version caches (r ∷ rs) =
    let later =
      All-map (IsListed group version caches rs) (IsListed group version caches (r ∷ rs)) _
        (λ s h. record {
          group_is = h.group_is;
          version_is = h.version_is;
          is_covered = h.is_covered;
          offered = inr h.offered;
          not_own = h.not_own;
        })
        (resource_sources-IsListed group version caches rs) in
    if_cases (All (IsListed group version caches (r ∷ rs))) (not (contains "list" r.verbs)) _ _
      (λ _. later)
      (λ lists.
        All-append (IsListed group version caches (r ∷ rs)) (find_source group version r caches) _
          (All-map (IsFound group version r.name caches) (IsListed group version caches (r ∷ rs)) _
            (λ s h. record {
              group_is = sym h.group_is;
              version_is = sym h.version_is;
              is_covered = rw (h.group_is, h.resource_is) (h.is_covered);
              offered = inl (sym h.resource_is, (contains_iff "list" r.verbs).0 (ground arith));
              not_own = h.not_own;
            })
            (find_source-IsFound group version r caches))
          later)

list_sources-IsAllowed :
    (rules : List ResourceRule) (lists : List ApiResourceList)
    → All (IsAllowed rules lists) (list_sources (collect_rules rules).0 lists)
unfolding list_sources
list_sources-IsAllowed rules [] = tt
list_sources-IsAllowed rules (l ∷ ls) =
    let later =
      All-map (IsAllowed rules ls) (IsAllowed rules (l ∷ ls)) _
        (λ s h. record { granted = h.granted; served = inr h.served; not_own = h.not_own })
        (list_sources-IsAllowed rules ls) in
    elim (Result-cases l.group_version) [
      | inr (e, bad) ↦
          let passed : list_sources (collect_rules rules).0 (l ∷ ls)
              ≡ list_sources (collect_rules rules).0 ls =
            rw (bad, list_sources) refl in
          subst (All (IsAllowed rules (l ∷ ls))) (sym passed) later
      | inl ((group, version), good) ↦
          let opened : list_sources (collect_rules rules).0 (l ∷ ls)
              ≡ resource_sources group version (collect_rules rules).0 l.api_resources
                ++ list_sources (collect_rules rules).0 ls =
            rw (good, list_sources) refl in
          subst (All (IsAllowed rules (l ∷ ls))) (sym opened) (
            All-append (IsAllowed rules (l ∷ ls))
              (resource_sources group version (collect_rules rules).0 l.api_resources) _
              (All-map (IsListed group version (collect_rules rules).0 l.api_resources)
                (IsAllowed rules (l ∷ ls)) _
                (λ s h. record {
                  granted = collect_rules-Grants s.group s.resource rules h.is_covered;
                  served = inl (good ∙ rw (h.group_is, h.version_is) refl, h.offered);
                  not_own = h.not_own;
                })
                (resource_sources-IsListed group version (collect_rules rules).0 l.api_resources))
              later)
    ]

-- Every source that `GetEntitiesSources` answers with is of a resource that the API server serves and
-- can list, that one of the agent's rules lets it list, and that is not the agent's own policies.
pub get_entities_sources-IsAllowed :
    (rules : List ResourceRule) (lists : List ApiResourceList) (sources : List EntitySource)
    → get_entities_sources (ok rules) (ok lists) ≡ ok sources
    → All (IsAllowed rules lists) sources
unfolding get_entities_sources get_validate_rules
get_entities_sources-IsAllowed rules lists sources h =
    let same : list_sources (collect_rules rules).0 lists ≡ sources = ground arith in
    subst (All (IsAllowed rules lists)) same (list_sources-IsAllowed rules lists)
