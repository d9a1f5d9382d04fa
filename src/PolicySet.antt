-- ===== src/PolicySet.antt =====
-- api/v2beta2/policyset_types.go: which policies a policy set selects.
use policy_agent.Prelude.{
  String, Bool, true, false, not, ◌||◌, List, [], ◌∷◌, map, contains, contains_iff, is_empty,
  exists_where, exists_where_iff, or_iff, Any, Member, ◌≡◌, refl, ◌↔◌, ◌⊎◌, inl, inr, arith,
  if◌then◌else◌,
}
use policy_agent.Domain.{PolicyStandard}

pub record PolicySetFilters : Type 0 where
  pub ids : List String
  pub categories : List String
  pub severities : List String
  pub standards : List String
  pub tags : List String

-- The fields of a v2beta2 policy that the filters look at; `name` is the object's name.
pub record PolicyView : Type 0 where
  pub name : String
  pub category : String
  pub severity : String
  pub standards : List PolicyStandard
  pub tags : List String

-- A loop over a filter, where the filter is not empty.
one_of : List String → String → Bool
one_of filter value = if not (is_empty filter) then contains value filter else false

-- A loop over a policy's values, against the set that is made of the filter.
any_of : List String → List String → Bool
any_of filter values =
    if not (is_empty filter) then exists_where (λ v. contains v filter) values else false

-- `PolicySet.Match`.
unfoldable pub match : PolicySetFilters → PolicyView → Bool
unfolding one_of any_of
match f p =
    if one_of f.ids p.name
    then true
    else if one_of f.categories p.category
    then true
    else if one_of f.severities p.severity
    then true
    else if any_of f.standards (map (λ s. s.id) p.standards)
    then true
    else any_of f.tags p.tags

one_of_iff :
    (filter : List String) (value : String) → (one_of filter value ≡ true) ↔ Member value filter
unfolding one_of contains
one_of_iff [] value = (λ h. absurd (ground arith), λ m. absurd m)
one_of_iff (f ∷ fs) value = contains_iff value (f ∷ fs)

any_of_iff :
    (filter values : List String)
    → (any_of filter values ≡ true) ↔ Any (λ v. Member v filter) values
unfolding any_of
any_of_iff [] values = (λ h. absurd (ground arith), λ a. absurd (nothing values a))
  where
    nothing : (vs : List String) → ¬ Any (λ v. Member v []) vs
    nothing [] a = a
    nothing (v ∷ vs) a = elim a [ inl m ↦ m | inr r ↦ nothing vs r ]
any_of_iff (f ∷ fs) values =
    exists_where_iff (λ v. contains v (f ∷ fs)) values (λ v. contains_iff v (f ∷ fs))

-- A chain of early returns is a disjunction.
or_return : (a b : Bool) → (if a then true else b) ≡ (a || b)
or_return true b = refl
or_return false b = refl

-- A policy set selects a policy exactly when one of its filters names the policy: its name, its
-- category, its severity, one of its standards or one of its tags. An empty filter names none.
pub match_iff :
    (f : PolicySetFilters) (p : PolicyView)
    → (match f p ≡ true) ↔ (
        Member p.name f.ids
        ⊎ Member p.category f.categories
        ⊎ Member p.severity f.severities
        ⊎ Any (λ v. Member v f.standards) (map (λ s. s.id) p.standards)
        ⊎ Any (λ v. Member v f.tags) p.tags)
unfolding match
match_iff f p =
    rw (or_return, or_return, or_return, or_return)
      (or_iff _ _ (one_of_iff f.ids p.name) (
        or_iff _ _ (one_of_iff f.categories p.category) (
          or_iff _ _ (one_of_iff f.severities p.severity) (
            or_iff _ _ (any_of_iff f.standards (map (λ s. s.id) p.standards))
              (any_of_iff f.tags p.tags)))))
