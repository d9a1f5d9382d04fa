-- ===== src/Validation/Laws.antt =====
-- What `Validate` reports without mutation (pkg/policy-core/validation/opa_validation.go).
use policy_agent.Prelude.{
  ℕ, String, Bool, true, false, not, Option, Result, ok, err, Run, returns, panics, ◌≡◌, refl, ◌↔◌,
  ◌⊎◌, inl, inr, ◌≢◌, arith, Any, Member, Bool-cases, if◌then◌else◌, ◌<>◌,
}
use policy_agent.Domain.{
  Policy, PolicyConfig, Entity, PolicyValidation, status_violating, status_compliant,
}
use policy_agent.Matching.{match_entity, is_excluded}
use policy_agent.Matching.Laws.{InScope, Selects, match_entity_iff, is_excluded_iff}
use policy_agent.Opa.{OpaPolicy, parse, Verdict, valid, invalid, failed}
use policy_agent.Validation.{
  Env, OpaValidator, check_policy, evaluate, outcome_of, new_violation, new_result,
}
use policy_agent.Validation.Workers.{Outcome, skipped, violating, compliant}

-- The policy's exclusions name the entity.
abbrev pub IsExempt : Entity → Policy → Type 0
IsExempt e p =
    Member e.namespace p.exclude.namespaces
    ⊎ Member (e.namespace <> "/" <> e.name) p.exclude.resources
    ⊎ Any (Selects e.labels) p.exclude.labels

-- The two early returns of a goroutine.
pass_over_iff :
    (m x : Bool) (rest : Outcome)
    → rest ≢ skipped
    → ((if not m then skipped else if x then skipped else rest) ≡ skipped)
      ↔ ((m ≡ false) ⊎ (x ≡ true))
pass_over_iff false x rest h = (λ _. inl refl, λ _. refl)
pass_over_iff true true rest h = (λ _. inr refl, λ _. refl)
pass_over_iff true false rest h = (λ e. absurd (h e), λ c. ground arith)

false_iff : {P : Type 0} {b : Bool} → (b ≡ true) ↔ P → (b ≡ false) ↔ (¬ P)
false_iff {b} h = elim (Bool-cases b) [
  | inl e ↦ (λ f. absurd (cc), λ n. absurd (n (h.0 e)))
  | inr e ↦ (λ _ p. ground (arith, h.1 p), λ _. e)
]

module _ {Sink : Type 0} (env : Env) (v : OpaValidator Sink) (entity : Entity)
    (trigger : String) where
  -- The fields of a result that do not depend on what the policy says.
  pub record IsReport (status : String) (r : PolicyValidation) : Type 0 where
    pub entity_is : r.entity ≡ entity
    pub status_is : r.status ≡ status
    pub trigger_is : r.trigger ≡ trigger
    pub type_is : r.type ≡ v.validation_type
    pub enforced_is : r.enforced ≡ r.policy.enforce

  -- What a goroutine sends is about this entity, and enforced as its policy is.
  abbrev pub IsReported : Outcome → Type 0
  IsReported (violating r) = IsReport status_violating r
  IsReported (compliant r) = IsReport status_compliant r
  IsReported _ = Unit

  outcome_of-IsReported :
      (index : ℕ) (policy : Policy) (answer : Run Verdict)
      → IsReported (outcome_of env v entity trigger index policy answer)
  unfolding outcome_of new_violation new_result
  outcome_of-IsReported index policy panics = tt
  outcome_of-IsReported index policy (returns valid) = record {
    entity_is = refl;
    status_is = refl;
    trigger_is = refl;
    type_is = refl;
    enforced_is = refl;
  }
  outcome_of-IsReported index policy (returns (invalid d)) = record {
    entity_is = refl;
    status_is = refl;
    trigger_is = refl;
    type_is = refl;
    enforced_is = refl;
  }
  outcome_of-IsReported index policy (returns (failed e)) = tt

  outcome_of-ne-skipped :
      (index : ℕ) (policy : Policy) (answer : Run Verdict)
      → outcome_of env v entity trigger index policy answer ≢ skipped
  unfolding outcome_of
  outcome_of-ne-skipped index policy answer = ground arith

  evaluate-IsReported :
      (config : Option PolicyConfig) (index : ℕ) (policy : Policy) (code : Run (Result OpaPolicy))
      → IsReported (evaluate env v entity trigger config index policy code)
  unfolding evaluate
  evaluate-IsReported config index policy panics = tt
  evaluate-IsReported config index policy (returns (err e)) = tt
  evaluate-IsReported config index policy (returns (ok code)) = outcome_of-IsReported index _ _

  evaluate-ne-skipped :
      (config : Option PolicyConfig) (index : ℕ) (policy : Policy) (code : Run (Result OpaPolicy))
      → evaluate env v entity trigger config index policy code ≢ skipped
  unfolding evaluate
  evaluate-ne-skipped config index policy panics = cc
  evaluate-ne-skipped config index policy (returns (err e)) = cc
  evaluate-ne-skipped config index policy (returns (ok code)) = outcome_of-ne-skipped index _ _

  pub check_policy-IsReported :
      (config : Option PolicyConfig) (job : ℕ × Policy)
      → IsReported (check_policy env v entity trigger config job)
  unfolding check_policy
  check_policy-IsReported config (index, policy) = elim (Bool-cases (match_entity entity policy)) [
    | inr e ↦ rw (e, check_policy) tt
    | inl e ↦ elim (Bool-cases (is_excluded entity policy)) [
      | inl x ↦ rw (e, x, check_policy) tt
      | inr x ↦ rw (e, x, check_policy) (evaluate-IsReported config index policy _)
    ]
  ]

  -- A policy is passed over exactly when the entity is out of its scope or exempt from it: in every
  -- other case the goroutine sends a result or an error, or panics.
  pub check_policy-skipped_iff :
      (config : Option PolicyConfig) (index : ℕ) (policy : Policy)
      → (check_policy env v entity trigger config (index, policy) ≡ skipped)
        ↔ ((¬ InScope entity policy) ⊎ IsExempt entity policy)
  unfolding check_policy
  check_policy-skipped_iff config index policy =
      let passed =
        pass_over_iff (match_entity entity policy) (is_excluded entity policy) _
          (evaluate-ne-skipped config index policy (parse env.rego policy.code "violation")) in
      let scope = false_iff (match_entity_iff entity policy) in
      let exempt = is_excluded_iff entity policy in
      (
        λ h. elim (passed.0 h) [ inl m ↦ inl (scope.0 m) | inr x ↦ inr (exempt.0 x) ],
        λ h. passed.1 (elim h [ inl m ↦ inl (scope.1 m) | inr x ↦ inr (exempt.1 x) ]),
      )
