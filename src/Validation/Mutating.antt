-- ===== src/Validation/Mutating.antt =====
-- What `Validate` keeps of the violations when it mutates
-- (pkg/policy-core/validation/opa_validation.go).
use policy_agent.Prelude.{
  Bool, true, false, not, List, [], ◌∷◌, Option, none, is_empty, ok, ◌≡◌, refl, some, inl, inr, All,
  Any, Bool-cases, Result-cases, arith, subst, if◌then◌else◌,
}
use policy_agent.Domain.{Occurrence, PolicyValidation, MutationResult, Entity}
use policy_agent.Domain.MutationLaws.{IsMutated, mutate-IsMutated}
use policy_agent.Domain.Mutation.{Yaml, Json, mutate, new_mutation_result}
use policy_agent.Validation.{unmutated, mutate_violations, apply_mutations}

Any-unmutated :
    (os : List Occurrence) → is_empty (unmutated os) ≡ false → Any (λ o. o.mutated ≡ false) os
unfolding unmutated
Any-unmutated [] h = absurd (cc)
Any-unmutated (o ∷ os) h = elim (Bool-cases o.mutated) [
  | inl e ↦ inr (Any-unmutated os (rw (e, unmutated) at h))
  | inr e ↦ inl e
]

All-unmutated :
    (os : List Occurrence) → is_empty (unmutated os) ≡ true → All (λ o. o.mutated ≡ true) os
unfolding unmutated
All-unmutated [] h = tt
All-unmutated (o ∷ os) h = elim (Bool-cases o.mutated) [
  | inl e ↦ (e, All-unmutated os (rw (e, unmutated) at h))
  | inr e ↦ absurd (ground arith)
]

-- The three ways through one round of the loop.
round_cases :
    {A : Type 0} (P : A → Type 0) (mutates fixed : Bool) (skip drop keep : A)
    → (mutates ≡ false → P skip)
    → (mutates ≡ true → fixed ≡ true → P drop)
    → (mutates ≡ true → fixed ≡ false → P keep)
    → P (if not mutates then skip else if fixed then drop else keep)
round_cases P false fixed skip drop keep s d k = s refl
round_cases P true true skip drop keep s d k = d refl refl
round_cases P true false skip drop keep s d k = k refl refl

module _ (yaml : Yaml) (json : Json) where
  -- The way through the violations: the resource before, the violations, the resource afterwards, and
  -- the violations that are left.
  pub data Leaves
      : MutationResult yaml.Node
        → List PolicyValidation
        → MutationResult yaml.Node
        → List PolicyValidation
        → Type 0 where
    no_more : {m : MutationResult yaml.Node} → Leaves m [] m []
    not_mutating :
        {m final : MutationResult yaml.Node} {r : PolicyValidation}
        {rs left : List PolicyValidation}
        → r.policy.mutate ≡ false
        → Leaves m rs final left
        → Leaves m (r ∷ rs) final left
    repaired :
        {m mid final : MutationResult yaml.Node} {r : PolicyValidation}
        {rs left : List PolicyValidation} {os : List Occurrence}
        → r.policy.mutate ≡ true
        → IsMutated yaml json m r.occurrences mid os
        → All (λ o. o.mutated ≡ true) os
        → Leaves mid rs final left
        → Leaves m (r ∷ rs) final left
    unrepaired :
        {m mid final : MutationResult yaml.Node} {r : PolicyValidation}
        {rs left : List PolicyValidation} {os : List Occurrence}
        → r.policy.mutate ≡ true
        → IsMutated yaml json m r.occurrences mid os
        → Any (λ o. o.mutated ≡ false) os
        → Leaves mid rs final left
        → Leaves m (r ∷ rs) final (record r { occurrences = os } ∷ left)

  mutate_violations-Leaves :
      (m : MutationResult yaml.Node) (rs : List PolicyValidation)
      → Leaves m rs (mutate_violations yaml json m rs).0 (mutate_violations yaml json m rs).1
  unfolding mutate_violations
  mutate_violations-Leaves m [] = no_more
  mutate_violations-Leaves m (r ∷ rs) =
      let (m', os) = mutate yaml json m r.occurrences in
      let mutated = mutate-IsMutated yaml json m r.occurrences in
      let later = mutate_violations-Leaves m' rs in
      round_cases
        (λ (a : MutationResult yaml.Node × List PolicyValidation). Leaves m (r ∷ rs) a.0 a.1)
        r.policy.mutate (is_empty (unmutated os)) _ _ _
        (λ e. not_mutating e (mutate_violations-Leaves m rs))
        (λ e f. repaired e mutated (All-unmutated os f) later)
        (λ e f. unrepaired e mutated (Any-unmutated os f) later)

  -- The resource as it is read: the encoding of the manifest, and its document.
  pub record IsRead (entity : Entity) (m : MutationResult yaml.Node) : Type 0 where
    pub raw_is : json.marshal entity.manifest ≡ ok m.raw
    pub node_is : yaml.unmarshal m.raw ≡ ok m.node

  -- What `Validate` keeps of the violations, with mutation and without.
  abbrev pub IsKept :
      Bool
      → Entity
      → List PolicyValidation
      → List PolicyValidation
      → Option (MutationResult yaml.Node)
      → Type 0
  IsKept true entity rs kept mutation =
      (first : MutationResult yaml.Node) × (final : MutationResult yaml.Node) × IsRead entity first
      × (mutation ≡ some final)
      × Leaves first rs final kept
  IsKept false entity rs kept mutation = (kept ≡ rs) × (mutation ≡ none)

  new_mutation_result-IsRead :
      (entity : Entity) (m : MutationResult yaml.Node)
      → new_mutation_result yaml json entity ≡ ok m
      → IsRead entity m
  unfolding new_mutation_result
  new_mutation_result-IsRead entity m h = elim (Result-cases (json.marshal entity.manifest)) [
    | inr (x, e) ↦ absurd (ground arith)
    | inl (raw, e) ↦ elim (Result-cases (yaml.unmarshal raw)) [
      | inr (x, f) ↦ absurd (ground arith)
      | inl (node, f) ↦
          let made : record { raw = raw; node = node } ≡ m = ground arith in
          subst (IsRead entity) made (record { raw_is = e; node_is = f })
    ]
  ]

  -- When the validator mutates, the resource is read from the manifest of the entity, and the
  -- violations are gone through in their order, each with the resource that those before it left. A
  -- violation of a policy that does not mutate changes nothing and is dropped. Any other has its
  -- occurrences mutated, and is dropped if each of them is marked then; if one is not, the violation
  -- is left, with all its occurrences as they are marked then. The mutation is the resource at the
  -- end. When the validator does not mutate, all violations are left, and there is no mutation.
  pub apply_mutations-IsKept :
      (mutates : Bool) (entity : Entity) (rs kept : List PolicyValidation)
      (mutation : Option (MutationResult yaml.Node))
      → apply_mutations yaml json mutates entity rs ≡ ok (mutation, kept)
      → IsKept mutates entity rs kept mutation
  unfolding apply_mutations
  apply_mutations-IsKept false entity rs kept mutation h = ground arith
  apply_mutations-IsKept true entity rs kept mutation h =
      elim (Result-cases (new_mutation_result yaml json entity)) [
        | inr (x, e) ↦ absurd (ground arith)
        | inl (m, e) ↦
            let left : (mutate_violations yaml json m rs).1 ≡ kept = ground arith in
            let made : mutation ≡ some (mutate_violations yaml json m rs).0 = ground arith in
            (
              m,
              (mutate_violations yaml json m rs).0,
              new_mutation_result-IsRead entity m e,
              made,
              subst (Leaves m rs (mutate_violations yaml json m rs).0) left
                  (mutate_violations-Leaves m rs),
            )
      ]
