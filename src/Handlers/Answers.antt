-- ===== src/Handlers/Answers.antt =====
-- The answers of the mutation webhook and of the terraform handler (internal/mutation/mutation.go and
-- internal/terraform/terraform.go).
use policy_agent.Prelude.{
  String, Bool, true, false, List, [], ◌∷◌, some, Result, ok, err, Result-cases, Option-cases,
  Bool-cases, Map, ◌≡◌, refl, ◌↔◌, inl, inr, arith, is_empty,
}
use policy_agent.Value.{Value}
use policy_agent.Domain.{
  Accessors, new_entity_from_spec, PolicyValidation, PolicyValidationSummary, MutationResult,
}
use policy_agent.Domain.Mutation.{Yaml, Json, new_resource}
use policy_agent.Handlers.{
  ValidateFn, Request, patch, is_system, handle_mutation, mutated_response, TerraformResponse,
  http_error, encoded, serve_http,
}

-- Terraform is told to go on.
abbrev pub passes : TerraformResponse → Bool
passes (http_error code message) = false
passes (encoded passed violations) = passed

-- The validator answers, and finds nothing.
abbrev pub HasNone : {N : Type 0} → Result (PolicyValidationSummary N) → Type 0
HasNone (err e) = ⊥
HasNone (ok s) = s.violations ≡ []

-- The body can be read, and the validator finds nothing in its object.
abbrev pub IsUnviolated : {N : Type 0} → Accessors → ValidateFn N → Result (Map Value) → Type 0
IsUnviolated accessors validate (err e) = ⊥
IsUnviolated accessors validate (ok spec) =
    HasNone (validate (new_entity_from_spec accessors spec) "terraform")

nothing_or_more : (vs : List PolicyValidation) → (is_empty vs ≡ true) ↔ (vs ≡ [])
nothing_or_more [] = (λ _. refl, λ _. refl)
nothing_or_more (v ∷ vs) = (λ e. absurd (cc), λ e. absurd (cc))

-- The terraform handler lets a resource pass exactly if its body can be read, the validator answers,
-- and no policy is violated, enforced or not.
pub serve_http-passes_iff :
    {N : Type 0} (accessors : Accessors) (decode : String → Result (Map Value))
    (validate : ValidateFn N) (body : String)
    → (passes (serve_http accessors decode validate body) ≡ true)
      ↔ IsUnviolated accessors validate (decode body)
unfolding serve_http
serve_http-passes_iff accessors decode validate body = elim (Result-cases (decode body)) [
  | inr (e, bad) ↦ rw (bad, serve_http) (λ h. absurd (ground arith), λ u. absurd u)
  | inl (spec, good) ↦
      elim (Result-cases (validate (new_entity_from_spec accessors spec) "terraform")) [
        | inr (e, bad) ↦ rw (good, bad, serve_http) (λ h. absurd (ground arith), λ u. absurd u)
        | inl (s, told) ↦
            let (to, from) = nothing_or_more s.violations in
            rw (good, told, serve_http) (λ h. to (ground arith), λ u. ground (arith, from u))
      ]
]

module _ (accessors : Accessors) (unmarshal : String → Result (Map Value)) (yaml : Yaml)
    (json : Json) where
  -- What it takes for a request to be answered with a patch between two documents.
  pub record IsPatched (validate : ValidateFn yaml.Node) (req : Request) (old new : String)
      : Type 0 where
    pub spec : Map Value
    pub summary : PolicyValidationSummary yaml.Node
    pub mutation : MutationResult yaml.Node
    pub outside : is_system req.namespace ≡ false
    pub readable : unmarshal req.raw ≡ ok spec
    pub validated : validate (new_entity_from_spec accessors spec) req.operation ≡ ok summary
    pub mutated : summary.mutation ≡ some mutation
    pub before : old ≡ mutation.raw
    pub after : new_resource yaml json mutation ≡ ok new

  -- The mutation webhook patches a request's object exactly if the request is outside the system
  -- namespaces, its object can be read and validated, and the validator has mutated it into a
  -- document that can be written: the patch leads from the object before to that document.
  pub handle_mutation-patch_iff :
      (validate : ValidateFn yaml.Node) (req : Request) (old new : String)
      → (handle_mutation accessors unmarshal yaml json validate req ≡ patch old new)
        ↔ IsPatched validate req old new
  unfolding handle_mutation mutated_response
  handle_mutation-patch_iff validate req old new = (
    λ h. elim (Bool-cases (is_system req.namespace)) [
      | inl s ↦ absurd (ground arith)
      | inr outside ↦ elim (Result-cases (unmarshal req.raw)) [
        | inr (x, bad) ↦ absurd (ground arith)
        | inl (spec, readable) ↦
            elim (Result-cases (validate (new_entity_from_spec accessors spec) req.operation)) [
              | inr (x, bad) ↦ absurd (ground arith)
              | inl (s, validated) ↦ elim (Option-cases s.mutation) [
                | inl nothing ↦ absurd (ground arith)
                | inr (m, mutated) ↦ elim (Result-cases (new_resource yaml json m)) [
                  | inr (x, bad) ↦ absurd (ground arith)
                  | inl (text, written) ↦ record {
                    spec = spec;
                    summary = s;
                    mutation = m;
                    outside = outside;
                    readable = readable;
                    validated = validated;
                    mutated = mutated;
                    before = ground arith;
                    after = ground arith;
                  }
                ]
              ]
            ]
      ]
    ],
    λ p. ground (arith, p.outside, p.readable, p.validated, p.mutated, p.before, p.after),
  )
