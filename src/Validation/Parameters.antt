-- ===== src/Validation/Parameters.antt =====
-- The parameters that a policy is evaluated with (pkg/policy-core/validation/opa_validation.go).
use policy_agent.Prelude.{
  String, List, [], ◌∷◌, Option, Option-cases, none, some, map, inl, inr, ◌⊎◌, ◌≡◌, refl, arith,
  Map, lookup, insert, eq_iff, eq_refl,
}
use policy_agent.Value.{Value}
use policy_agent.Domain.{
  Policy, PolicyParameters, PolicyConfig, PolicyConfigConfig, PolicyConfigParameter,
  get_parameters_map, collect_parameters,
}
use policy_agent.Validation.{override_parameter, override_parameters, resolve_parameters}

-- A second write to a key replaces the first.
insert-insert :
    (k : String) (v w : Value) (m : Map Value) → insert k w (insert k v m) ≡ insert k w m
unfolding insert
insert-insert k v w [] = ground (arith, eq_refl k)
insert-insert k v w ((j, x) ∷ m) = ground (arith, eq_iff j k, insert-insert k v w m)

override_parameter-name :
    (c : Option PolicyConfigConfig) (p : PolicyParameters) → (override_parameter c p).name ≡ p.name
unfolding override_parameter
override_parameter-name none p = refl
override_parameter-name (some c) p = ground arith

override_parameters-map :
    (c : Option PolicyConfigConfig) (m : Map Value) (ps : List PolicyParameters)
    → override_parameters c m ps
      ≡ (map (override_parameter c) ps, collect_parameters m (map (override_parameter c) ps))
unfolding override_parameters collect_parameters
override_parameters-map c m [] = refl
override_parameters-map c m (p ∷ ps) =
    let q = override_parameter c p in
    rw (
      insert-insert p.name p.value q.value m,
      override_parameters-map c (insert p.name q.value m) ps,
      override_parameter-name c p,
    )

-- The value that a config gives to a parameter of a policy.
abbrev pub SetsParameter : PolicyConfig → String → String → PolicyConfigParameter → Type 0
SetsParameter config id name v =
    (entry : PolicyConfigConfig) × (lookup id config.config ≡ some entry)
    × (lookup name entry.parameters ≡ some v)

-- A parameter of the policy is taken over, with the config's value and reference if it gives one.
abbrev pub IsResolved : Option PolicyConfig → String → PolicyParameters → PolicyParameters → Type 0
IsResolved none id p q = q ≡ p
IsResolved (some config) id p q =
    ((v : PolicyConfigParameter) × SetsParameter config id p.name v
      × (q ≡ record p { value = v.value; config_ref = v.config_ref }))
    ⊎ (((v : PolicyConfigParameter) → ¬ SetsParameter config id p.name v) × (q ≡ p))

-- The parameters correspond in their order.
abbrev pub AreResolved :
    Option PolicyConfig → String → List PolicyParameters → List PolicyParameters → Type 0
AreResolved c id [] [] = Unit {0}
AreResolved c id (p ∷ ps) (q ∷ qs) = IsResolved c id p q × AreResolved c id ps qs
AreResolved _ _ _ _ = ⊥

override_parameter-IsResolved :
    (config : PolicyConfig) (id : String) (p : PolicyParameters)
    → IsResolved (some config) id p (override_parameter (lookup id config.config) p)
unfolding override_parameter
override_parameter-IsResolved config id p = elim (Option-cases (lookup id config.config)) [
  | inl e ↦ rw e (inr (λ v (entry, f, g). absurd (cc), refl))
  | inr (entry, e) ↦ elim (Option-cases (lookup p.name entry.parameters)) [
    | inl f ↦ inr (
      λ v (other, g, h).
          let same : other ≡ entry = ground arith in let h2 = rw same at h in absurd (cc),
      rw (e, f, override_parameter) refl,
    )
    | inr (v, f) ↦ inl (v, (entry, e, f), rw (e, f, override_parameter) refl)
  ]
]

map-AreResolved :
    (config : PolicyConfig) (id : String) (ps : List PolicyParameters)
    → AreResolved (some config) id ps (map (override_parameter (lookup id config.config)) ps)
map-AreResolved config id [] = tt
map-AreResolved config id (p ∷ ps) =
    (override_parameter-IsResolved config id p, map-AreResolved config id ps)

AreResolved-none : (id : String) (ps : List PolicyParameters) → AreResolved none id ps ps
AreResolved-none id [] = tt
AreResolved-none id (p ∷ ps) = (refl, AreResolved-none id ps)

-- The policy that is evaluated and reported differs from the one that is checked in its parameters
-- at most. These are the policy's own in their order, each with the value and the reference that the
-- policy config sets for it under the policy's id, if there is a config and it sets the parameter, and
-- as it was otherwise. The map that OPA is given is the parameter map of the policy that is reported.
pub resolve_parameters_lem :
    (c : Option PolicyConfig) (p : Policy)
    → (qs : List PolicyParameters) × AreResolved c p.id p.parameters qs
      × (resolve_parameters c p
          ≡ (record p { parameters = qs }, get_parameters_map (record p { parameters = qs })))
unfolding resolve_parameters get_parameters_map
resolve_parameters_lem none p = (p.parameters, AreResolved-none p.id p.parameters, refl)
resolve_parameters_lem (some config) p = (
  map (override_parameter (lookup p.id config.config)) p.parameters,
  map-AreResolved config p.id p.parameters,
  rw (override_parameters-map (lookup p.id config.config) [] p.parameters) refl,
)
