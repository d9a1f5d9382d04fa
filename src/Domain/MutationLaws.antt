-- ===== src/Domain/MutationLaws.antt =====
-- What `Mutate` changes (pkg/policy-core/domain/mutation.go).
use policy_agent.Prelude.{
  Bool, true, false, List, [], ◌∷◌, ◌≡◌, refl, inl, inr, insert, if◌then◌else◌,
}
use policy_agent.Domain.{Occurrence, MutationResult}
use policy_agent.Domain.Mutation.{Yaml, Json, mutated_label, mutate_one, mutate_all, mutate}
use policy_agent.Domain.Repairs.{IsRepair, IsRemains, mutate_one-IsRound}

module _ (yaml : Yaml) (json : Json) where
  -- The rounds of the loop over the occurrences: the document before, the occurrences, whether any
  -- of them was repaired, the document afterwards, and the occurrences that are returned.
  pub data Rounds : yaml.Node → List Occurrence → Bool → yaml.Node → List Occurrence → Type 0 where
    no_more : {node : yaml.Node} → Rounds node [] false node []
    repaired :
        {node mid final : yaml.Node} {o : Occurrence} {os qs : List Occurrence} {some_ : Bool}
        → IsRepair yaml json o node mid
        → Rounds mid os some_ final qs
        → Rounds node (o ∷ os) true final (record o { mutated = true } ∷ qs)
    passed :
        {node mid final : yaml.Node} {o : Occurrence} {os qs : List Occurrence} {some_ : Bool}
        → ((after : yaml.Node) → ¬ IsRepair yaml json o node after)
        → IsRemains yaml json o node mid
        → Rounds mid os some_ final qs
        → Rounds node (o ∷ os) some_ final (o ∷ qs)

  mutate_all-Rounds :
      (os : List Occurrence) (node : yaml.Node)
      → Rounds node os
          (mutate_all yaml json os node).0
          (mutate_all yaml json os node).1
          (mutate_all yaml json os node).2
  unfolding mutate_all
  mutate_all-Rounds [] node = no_more
  mutate_all-Rounds (o ∷ os) node =
      let later = mutate_all-Rounds os (mutate_one yaml json o node).1 in
      elim (mutate_one-IsRound yaml json o node) [
        | inl (done, r) ↦ rw done (repaired r later)
        | inr (kept, never, left) ↦ rw kept (passed never left later)
      ]

  -- What `Mutate` makes of a resource and its occurrences.
  abbrev pub IsMutated :
      MutationResult yaml.Node
      → List Occurrence
      → MutationResult yaml.Node
      → List Occurrence
      → Type 0
  IsMutated m os m' qs =
      (any_repaired : Bool) × (final : yaml.Node) × Rounds m.node os any_repaired final qs
      × (m' ≡ record m {
        node =
            if any_repaired
            then yaml.set_labels (insert mutated_label "" (yaml.get_labels final)) final
            else final;
      })

  pub mutate-IsMutated :
      (m : MutationResult yaml.Node) (os : List Occurrence)
      → IsMutated m os (mutate yaml json m os).0 (mutate yaml json m os).1
  unfolding mutate
  mutate-IsMutated m os = (_, _, mutate_all-Rounds os m.node, refl)
