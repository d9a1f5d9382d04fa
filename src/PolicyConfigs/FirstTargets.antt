-- ===== src/PolicyConfigs/FirstTargets.antt =====
-- Which target of a config decides whether it applies to an entity
-- (internal/policies/policyconfig.go).
use policy_agent.Prelude.{
  String, ◌&&◌, List, [], ◌∷◌, ◌≡◌, refl, ◌≢◌, ◌⊎◌, inl, inr, All, Bool-cases, ◌==◌, eq_iff,
  and_iff,
}
use policy_agent.Domain.{Entity}
use policy_agent.Api.{ObjectTarget}
use policy_agent.PolicyConfigs.{
  FluxObject, Hit, no_hit, anywhere, in_namespace, match_apps, match_resources,
}

-- The first item of a list that has a property.
abbrev pub IsFirst : (ObjectTarget → Type 0) → ObjectTarget → List ObjectTarget → Type 0
IsFirst P x [] = ⊥
IsFirst P x (y ∷ ys) = (P y × (x ≡ y)) ⊎ ((¬ P y) × IsFirst P x ys)

-- A target names an object, in whatever namespace.
abbrev pub Names : String → String → ObjectTarget → Type 0
Names name kind t = (t.name ≡ name) × (t.kind ≡ kind)

-- A target that names an object fits it in every namespace or in that of the object.
abbrev pub Fits : String → ObjectTarget → Type 0
Fits namespace t = (t.namespace ≡ "") ⊎ (t.namespace ≡ namespace)

-- What a target says of an object in a namespace.
abbrev pub Says : String → ObjectTarget → Hit → Type 0
Says namespace t h =
    ((t.namespace ≡ "") × (h ≡ anywhere))
    ⊎ ((t.namespace ≢ "") × (t.namespace ≡ namespace) × (h ≡ in_namespace))
    ⊎ ((¬ Fits namespace t) × (h ≡ no_hit))

-- The first target with a property decides; without one there is no match.
abbrev pub IsDecided : (ObjectTarget → Type 0) → String → List ObjectTarget → Hit → Type 0
IsDecided P namespace ts h =
    (All (λ t. ¬ P t) ts × (h ≡ no_hit))
    ⊎ ((t : ObjectTarget) × IsFirst P t ts × Says namespace t h)

IsDecided-pass :
    (P : ObjectTarget → Type 0) (namespace : String) (t : ObjectTarget) (ts : List ObjectTarget)
    (h : Hit)
    → ¬ P t
    → IsDecided P namespace ts h
    → IsDecided P namespace (t ∷ ts) h
IsDecided-pass P namespace t ts h never (inl (all, e)) = inl ((never, all), e)
IsDecided-pass P namespace t ts h never (inr (x, first, says)) = inr (x, inr (never, first), says)

match_resources-IsDecided :
    (entity : Entity) (rs : List ObjectTarget)
    → IsDecided (Names entity.name entity.kind) entity.namespace rs (match_resources entity rs)
unfolding match_resources
match_resources-IsDecided entity [] = inl (tt, refl)
match_resources-IsDecided entity (r ∷ rs) =
    let P = Names entity.name entity.kind in
    let named = and_iff _ _ (eq_iff r.name entity.name) (eq_iff r.kind entity.kind) in
    elim (Bool-cases (r.name == entity.name && r.kind == entity.kind)) [
      | inr e ↦ rw e (
          IsDecided-pass P entity.namespace r rs _ (λ n. let e2 = named.1 n in absurd (cc))
            (match_resources-IsDecided entity rs))
      | inl e ↦ elim (Bool-cases (r.namespace == "")) [
        | inl f ↦
            rw (e, f) (inr (r, inl (named.0 e, refl), inl ((eq_iff r.namespace "").0 f, refl)))
        | inr f ↦
            let some_ : r.namespace ≢ "" =
              λ q. let f2 = (eq_iff r.namespace "").1 q in absurd (cc) in
            elim (Bool-cases (r.namespace == entity.namespace)) [
              | inl g ↦
                  rw (e, f, g)
                    (inr (
                      r,
                      inl (named.0 e, refl),
                      inr (inl (some_, (eq_iff r.namespace entity.namespace).0 g, refl)),
                    ))
              | inr g ↦
                  let other : ¬ Fits entity.namespace r = λ z. elim z [
                    | inl q ↦ some_ q
                    | inr q ↦ let g2 = (eq_iff r.namespace entity.namespace).1 q in absurd (cc)
                  ] in
                  rw (e, f, g) (inr (r, inl (named.0 e, refl), inr (inr (other, refl))))
            ]
      ]
    ]

match_apps-IsDecided :
    (flux : FluxObject) (apps : List ObjectTarget)
    → IsDecided
        (λ t. Names flux.name flux.kind t × Fits flux.namespace t)
        flux.namespace
        apps
        (match_apps flux apps)
unfolding match_apps
match_apps-IsDecided flux [] = inl (tt, refl)
match_apps-IsDecided flux (r ∷ rs) =
    let P = λ (t : ObjectTarget). Names flux.name flux.kind t × Fits flux.namespace t in
    let named = and_iff _ _ (eq_iff r.name flux.name) (eq_iff r.kind flux.kind) in
    let later = match_apps-IsDecided flux rs in
    elim (Bool-cases (r.name == flux.name && r.kind == flux.kind)) [
      | inr e ↦
          rw e (
            IsDecided-pass P flux.namespace r rs _ (λ n. let e2 = named.1 n.0 in absurd (cc)) later)
      | inl e ↦ elim (Bool-cases (r.namespace == "")) [
        | inl f ↦
            let w = (eq_iff r.namespace "").0 f in
            rw (e, f) (inr (r, inl ((named.0 e, inl w), refl), inl (w, refl)))
        | inr f ↦
            let some_ : r.namespace ≢ "" =
              λ q. let f2 = (eq_iff r.namespace "").1 q in absurd (cc) in
            elim (Bool-cases (r.namespace == flux.namespace)) [
              | inl g ↦
                  let s = (eq_iff r.namespace flux.namespace).0 g in
                  rw (e, f, g) (inr (r, inl ((named.0 e, inr s), refl), inr (inl (some_, s, refl))))
              | inr g ↦
                  let other : ¬ Fits flux.namespace r = λ z. elim z [
                    | inl q ↦ some_ q
                    | inr q ↦ let g2 = (eq_iff r.namespace flux.namespace).1 q in absurd (cc)
                  ] in
                  rw (e, f, g) (IsDecided-pass P flux.namespace r rs _ (λ n. other n.1) later)
            ]
      ]
    ]

-- Among the resources of a config the first one with the name and the kind of the entity decides,
-- also where it is in another namespace, when the config does not match, whatever resources follow;
-- among its applications the first one decides that has the name and the kind of the entity's
-- application and also no namespace or that of the application. One without a namespace matches
-- anywhere, one with the right namespace matches in it, and where no target decides nothing matches.
pub match-IsDecided :
    (entity : Entity) (flux : FluxObject) (targets : List ObjectTarget)
    → IsDecided
        (Names entity.name entity.kind)
        entity.namespace
        targets
        (match_resources entity targets)
      × IsDecided
          (λ t. Names flux.name flux.kind t × Fits flux.namespace t)
          flux.namespace
          targets
          (match_apps flux targets)
match-IsDecided entity flux targets =
    (match_resources-IsDecided entity targets, match_apps-IsDecided flux targets)
