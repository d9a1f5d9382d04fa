-- ===== src/Handlers/Laws.antt =====
-- When the webhooks let a resource pass (internal/admission, internal/mutation, internal/terraform).
use policy_agent.Prelude.{
  String, Bool, true, false, List, [], ◌∷◌, Result, ok, err, Map, ◌≡◌, refl, ◌↔◌, ◌⊎◌, inl, inr,
  arith, Any, exists_where, exists_where_iff, Bool-cases,
}
use policy_agent.Value.{Value}
use policy_agent.Domain.{Accessors, new_entity_from_spec, PolicyValidation, PolicyValidationSummary}
use policy_agent.Handlers.{
  ValidateFn, Request, Response, validation, internal_error, patch, allowed, is_system, admit,
  admit_spec, handle_admission,
}

-- The API server lets the resource pass.
abbrev pub lets_pass : Response → Bool
lets_pass (validation b message) = b
lets_pass (internal_error message) = false
lets_pass (patch old new) = true
lets_pass allowed = true

-- Nothing that the validator finds stands against the resource.
abbrev pub IsClear : {N : Type 0} → Result (PolicyValidationSummary N) → Type 0
IsClear (err e) = ⊥
IsClear (ok s) = ¬ Any (λ v. v.enforced ≡ true) s.violations

-- The request holds a resource that the validator clears.
abbrev pub IsCleared :
    {N : Type 0} → Accessors → ValidateFn N → String → Result (Map Value) → Type 0
IsCleared accessors validate operation (err e) = ⊥
IsCleared accessors validate operation (ok spec) =
    IsClear (validate (new_entity_from_spec accessors spec) operation)

admit_iff :
    {N : Type 0} (r : Result (PolicyValidationSummary N)) → (lets_pass (admit r) ≡ true) ↔ IsClear r
unfolding admit
admit_iff (err e) = ground arith
admit_iff {N} (ok s) = by_violations s.violations
  where
    by_violations :
        (vs : List PolicyValidation)
        → (lets_pass (admit {N = N} (ok (record s { violations = vs }))) ≡ true)
          ↔ (¬ Any (λ v. v.enforced ≡ true) vs)
    by_violations [] = (λ _ a. a, λ _. refl)
    by_violations (v ∷ vs) =
        let (to, from) =
          exists_where_iff {P = λ w. w.enforced ≡ true} (λ w. w.enforced) (v ∷ vs)
            (λ w. (λ e. e, λ e. e)) in
        elim (Bool-cases (exists_where (λ w. w.enforced) (v ∷ vs))) [
          | inl e ↦ (λ h. absurd (ground arith), λ n. absurd (n (to e)))
          | inr e ↦ (λ _ a. ground (arith, from a), λ _. rw e refl)
        ]

admit_spec_iff :
    {N : Type 0} (accessors : Accessors) (validate : ValidateFn N) (operation : String)
    (spec : Result (Map Value))
    → (lets_pass (admit_spec accessors validate operation spec) ≡ true)
      ↔ IsCleared accessors validate operation spec
unfolding admit_spec
admit_spec_iff accessors validate operation (err e) = ground arith
admit_spec_iff accessors validate operation (ok spec) = admit_iff _

module _ (accessors : Accessors) (unmarshal : String → Result (Map Value)) {N : Type 0} where
  -- The admission webhook lets a request pass exactly when it is for a system namespace, or its
  -- resource can be read and validated and no enforced policy is violated: a request that cannot be
  -- read or validated is refused.
  pub handle_admission_iff :
      (validate : ValidateFn N) (req : Request)
      → (lets_pass (handle_admission accessors unmarshal validate req) ≡ true) ↔ (
          (is_system req.namespace ≡ true)
          ⊎ IsCleared accessors validate req.operation (unmarshal req.raw))
  unfolding handle_admission
  handle_admission_iff validate req = elim (Bool-cases (is_system req.namespace)) [
    | inl e ↦ (λ _. inl e, λ _. rw e refl)
    | inr e ↦
        let (to, from) = admit_spec_iff accessors validate req.operation (unmarshal req.raw) in
        rw e (λ h. inr (to h), λ s. elim s [ inl x ↦ absurd (cc) | inr c ↦ from c ])
  ]
