-- ===== src/Matching/Laws.antt =====
-- When a policy is evaluated against an entity (pkg/policy-core/validation/common.go).
use policy_agent.Prelude.{
  String, ◌≡◌, refl, ◌↔◌, ◌⊎◌, inl, inr, Bool, true, List, [], ◌∷◌, some, arith, Map, lookup, Any,
  Member, exists_where_iff, contains_iff, and_iff, is_empty, if◌then◌else◌, Bool-cases,
  Option-cases, eq_iff, ◌<>◌,
}
use policy_agent.Domain.{Entity, Policy}
use policy_agent.Matching.{label_selects, match_entity, is_excluded}

-- A label requirement that the labels meet: "*" accepts any value.
abbrev pub Selects : Map String → String × String → Type 0
Selects labels (key, val) = (v : String) × (lookup key labels ≡ some v) × ((val ≡ "*") ⊎ (val ≡ v))

label_selects_iff :
    (labels : Map String) (r : String × String) → (label_selects labels r ≡ true) ↔ Selects labels r
unfolding label_selects
label_selects_iff labels (key, val) = elim (Option-cases (lookup key labels)) [
  | inl e ↦ (λ h. ground arith, λ s. ground arith)
  | inr (v, e) ↦ (
    λ h. (v, e, ground (arith, eq_iff val "*", eq_iff val v)),
    λ s. ground (arith, eq_iff val "*", eq_iff val v),
  )
]

-- A list of targets leaves its dimension open, or names the value.
abbrev pub Targets : (A : Type 0) → List A → Type 0 → Type 0
Targets A xs P = (xs ≡ []) ⊎ P

open_or_iff :
    {A : Type 0} {P : Type 0} (xs : List A) (b : Bool)
    → (b ≡ true) ↔ P
    → ((if is_empty xs then true else b) ≡ true) ↔ Targets A xs P
open_or_iff [] b h = (λ _. inl refl, λ _. refl)
open_or_iff (x ∷ xs) b h = (λ e. inr (h.0 e), elim [ inl e ↦ absurd (cc) | inr p ↦ h.1 p ])

or_else_iff :
    {P Q : Type 0} {a b : Bool}
    → (a ≡ true) ↔ P
    → (b ≡ true) ↔ Q
    → ((if a then true else b) ≡ true) ↔ (P ⊎ Q)
or_else_iff {a} {b} p q = elim (Bool-cases a) [
  | inl e ↦ (λ _. inl (p.0 e), λ _. rw e)
  | inr e ↦ (
    λ h. inr (q.0 (rw e at h)),
    λ x. elim x [ inl y ↦ absurd (ground (arith, p.1 y)) | inr y ↦ rw e (q.1 y) ],
  )
]

-- The entities that a policy targets, kind, namespace and labels each open or matched.
abbrev pub InScope : Entity → Policy → Type 0
InScope e p =
    Targets String p.targets.kinds (Member e.kind p.targets.kinds)
    × Targets String p.targets.namespaces (Member e.namespace p.targets.namespaces)
    × Targets (Map String) p.targets.labels (Any (Any (Selects e.labels)) p.targets.labels)

-- A policy matches an entity exactly when kind, namespace and labels are each left open by the
-- policy or matched: one label requirement of one of the label maps is enough.
pub match_entity_iff : (e : Entity) (p : Policy) → (match_entity e p ≡ true) ↔ InScope e p
unfolding match_entity
match_entity_iff e p =
    let kinds = open_or_iff p.targets.kinds _ (contains_iff e.kind p.targets.kinds) in
    let namespaces =
      open_or_iff p.targets.namespaces _ (contains_iff e.namespace p.targets.namespaces) in
    let labels = open_or_iff p.targets.labels _ (
      exists_where_iff _ p.targets.labels
        (λ m. exists_where_iff _ m (label_selects_iff e.labels))) in
    let all = and_iff _ _ (and_iff _ _ kinds namespaces) labels in
    (λ h. let (kn, l) = all.0 h in (kn.0, kn.1, l), λ s. all.1 ((s.0, s.1), s.2))

-- A policy excludes an entity exactly when its exclusions name the entity's namespace, its
-- "namespace/name", or a label that the entity carries with the value or under "*".
pub is_excluded_iff :
    (e : Entity) (p : Policy)
    → (is_excluded e p ≡ true) ↔ (
        Member e.namespace p.exclude.namespaces
        ⊎ Member (e.namespace <> "/" <> e.name) p.exclude.resources
        ⊎ Any (Selects e.labels) p.exclude.labels)
unfolding is_excluded
is_excluded_iff e p = or_else_iff (contains_iff e.namespace p.exclude.namespaces) (
    or_else_iff (contains_iff (e.namespace <> "/" <> e.name) p.exclude.resources)
      (exists_where_iff _ p.exclude.labels (label_selects_iff e.labels)))
