-- ===== src/Entities/Laws.antt =====
-- The agent lists only what it may (internal/entities/k8s/k8s.go).
use policy_agent.Prelude.{
  String, Bool, true, false, ◌&&◌, List, [], ◌∷◌, ok, err, ◌≡◌, refl, sym, subst, ◌↔◌, ◌⊎◌, arith,
  Any, Member, contains_iff, exists_where, exists_where_iff, or_iff, and_iff, eq_iff, if◌then◌else◌,
}
use policy_agent.Entities.{
  ResourceRule, RulesCache, new_rules_cache, check_allowed, allows_list, covers, collect_rules,
  get_validate_rules,
}

-- A rule grants the listing of a resource of a group; "*" stands for every verb, group and resource.
abbrev pub Grants : String → String → ResourceRule → Type 0
Grants group resource rule =
    Any (λ v. (v ≡ "list") ⊎ (v ≡ "*")) rule.verbs
    × ((Member group rule.api_groups ⊎ Member "*" rule.api_groups)
        × (Member resource rule.resources ⊎ Member "*" rule.resources))

pub covers_iff :
    (group resource : String) (rule : ResourceRule)
    → ((allows_list rule && covers group resource (new_rules_cache rule)) ≡ true) ↔ (
        Any (λ v. (v ≡ "list") ⊎ (v ≡ "*")) rule.verbs
        × ((Member group rule.api_groups ⊎ Member "*" rule.api_groups)
            × (Member resource rule.resources ⊎ Member "*" rule.resources)))
unfolding allows_list covers check_allowed new_rules_cache
covers_iff group resource rule =
    and_iff _ _ (exists_where_iff _ rule.verbs (λ v. or_iff _ _ (eq_iff v "list") (eq_iff v "*"))) (
      and_iff _ _
        (or_iff _ _ (contains_iff group rule.api_groups) (contains_iff "*" rule.api_groups))
        (or_iff _ _ (contains_iff resource rule.resources) (contains_iff "*" rule.resources)))

collect_rules-found :
    (rules : List ResourceRule)
    → (collect_rules rules).1
      ≡ exists_where
          (λ r. allows_list r && covers "pac.weave.works" "policies" (new_rules_cache r))
          rules
unfolding collect_rules exists_where
collect_rules-found [] = refl
collect_rules-found (r ∷ rs) = let h = collect_rules-found rs in ground arith

accepted :
    (P : Type 0) (b : Bool) (x : List RulesCache) (m : String)
    → (b ≡ true) ↔ P
    → (((if b then ok x else err m) ≡ ok x) ↔ P) × (((if b then ok x else err m) ≡ err m) ↔ (¬ P))
accepted P true x m (to, from) =
    ((λ _. to refl, λ _. refl), (λ e. absurd (cc), λ n. absurd (n (to refl))))
accepted P false x m (to, from) =
    ((λ e. absurd (cc), λ p. absurd (cc (from p))), (λ _ p. absurd (cc (from p)), λ _. refl))

-- The agent accepts the rules of its permissions exactly if one of them grants it to list the
-- policies; otherwise it fails with an error that says so.
pub get_validate_rules-ok_iff :
    (rules : List ResourceRule)
    → ((get_validate_rules (ok rules) ≡ ok (collect_rules rules).0)
        ↔ Any (λ r. Grants "pac.weave.works" "policies" r) rules)
      × ((get_validate_rules (ok rules) ≡ err "missing weaveworks policies resource permissions")
          ↔ (¬ Any (λ r. Grants "pac.weave.works" "policies" r) rules))
unfolding get_validate_rules
get_validate_rules-ok_iff rules =
    let h = collect_rules-found rules in
    let granted = exists_where_iff _ rules (covers_iff "pac.weave.works" "policies") in
    accepted (Any (λ r. Grants "pac.weave.works" "policies" r) rules) (collect_rules rules).1
      (collect_rules rules).0 "missing weaveworks policies resource permissions"
      (subst (λ b. (b ≡ true) ↔ Any (λ r. Grants "pac.weave.works" "policies" r) rules) (sym h)
        granted)
