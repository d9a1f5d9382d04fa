-- ===== src/Handlers.antt =====
-- The webhooks that call the validator: internal/admission, internal/mutation, internal/terraform.
pub mod Laws
pub mod Blocking
pub mod Answers
use policy_agent.Prelude.{
  ℕ, String, Bool, true, false, not, ◌||◌, List, [], ◌∷◌, Option, none, some, Result, ok, err, map,
  Map, has_key, insert, is_empty, exists_where, to_lower, if◌then◌else◌, ◌==◌, ◌<>◌,
}
use policy_agent.Value.{Value, null}
use policy_agent.Domain.{
  Accessors, Entity, new_entity_from_spec, Occurrence, PolicyValidation, PolicyValidationSummary,
}
use policy_agent.Domain.Mutation.{Yaml, Json, new_resource, old_resource}

-- `validation.Validator`: an entity and what triggered the validation.
abbrev pub ValidateFn : Type 0 → Type 0
ValidateFn N = Entity → String → Result (PolicyValidationSummary N)

pub record Request : Type 0 where
  pub namespace : String
  pub name : String
  pub raw : String
  pub operation : String

-- The answers that the handlers build: `ValidationResponse`, the same with the code 500,
-- `PatchResponseFromRaw`, and `Allowed("")`.
pub data Response : Type 0 where
  validation : Bool → String → Response
  internal_error : String → Response
  patch : String → String → Response
  allowed : Response

abbrev pub is_system : String → Bool
is_system namespace = namespace == "kube-public" || namespace == "kube-system"

occurrence_lines : List Occurrence → String
occurrence_lines [] = ""
occurrence_lines (o ∷ os) = "- " <> o.message <> "\n" <> occurrence_lines os

entity_line : Entity → String
entity_line e =
    if e.namespace == ""
    then "Entity\t: " <> to_lower e.kind <> "/" <> e.name <> "\n"
    else "Entity\t: "
      <> to_lower e.kind
      <> "/"
      <> e.name
      <> " in namespace: "
      <> e.namespace
      <> "\n"

unfoldable pub generate_response : List PolicyValidation → String
unfolding occurrence_lines entity_line
generate_response [] = ""
generate_response (v ∷ vs) =
    "==================================================================\n"
    <> "Policy\t: "
    <> v.policy.id
    <> "\n"
    <> entity_line v.entity
    <> "Occurrences:\n"
    <> occurrence_lines v.occurrences
    <> generate_response vs

-- The end of the admission handler, on what the validator answers.
unfoldable pub admit : {N : Type 0} → Result (PolicyValidationSummary N) → Response
admit (err e) = internal_error "failed to validate resource"
admit (ok summary) =
    if not (is_empty summary.violations)
    then validation (if exists_where (λ v. v.enforced) summary.violations then false else true)
        (generate_response summary.violations)
    else validation true ""

pub admit_spec : {N : Type 0} → Accessors → ValidateFn N → String → Result (Map Value) → Response
admit_spec accessors validate operation (err e) =
    internal_error "failed to get entity info from admission request"
admit_spec accessors validate operation (ok spec) =
    admit (validate (new_entity_from_spec accessors spec) operation)

module _ (accessors : Accessors) (unmarshal : String → Result (Map Value)) where
  -- `AdmissionHandler.Handle`.
  unfoldable pub handle_admission : {N : Type 0} → ValidateFn N → Request → Response
  unfolding admit_spec
  handle_admission validate req =
      if is_system req.namespace
      then validation true "default kubernetes namespaces are excluded"
      else admit_spec accessors validate req.operation (unmarshal req.raw)

  -- `MutationHandler.Handle`.
  module _ (yaml : Yaml) (json : Json) where
    pub mutated_response : Request → PolicyValidationSummary yaml.Node → Response
    mutated_response req summary = elim summary.mutation [
      | none ↦ allowed
      | some m ↦ elim (new_resource yaml json m) [
        | err e ↦
            internal_error ("failed to mutate entity " <> req.namespace <> "/" <> req.name <> " ")
        | ok mutated ↦ patch (old_resource m) mutated
      ]
    ]

    unfoldable pub handle_mutation : ValidateFn yaml.Node → Request → Response
    unfolding mutated_response
    handle_mutation validate req =
        if is_system req.namespace
        then validation true "exclude default system namespaces"
        else elim (unmarshal req.raw) [
          | err e ↦ internal_error (
              "failed to unmarshal entity " <> req.namespace <> "/" <> req.name
              <> " spec into a map")
          | ok spec ↦ elim (validate (new_entity_from_spec accessors spec) req.operation) [
            | err e ↦
                internal_error ("failed to validate entity " <> req.namespace <> "/" <> req.name)
            | ok summary ↦ mutated_response req summary
          ]
        ]

-- The answer of the terraform handler: an HTTP error with its code, or the encoded `Response`.
pub data TerraformResponse : Type 0 where
  http_error : ℕ → String → TerraformResponse
  encoded : Bool → List PolicyValidation → TerraformResponse

-- A status in the manifest is blanked before the violation is sent.
unfoldable pub blank_status : PolicyValidation → PolicyValidation
blank_status v =
    let manifest = v.entity.manifest in
    record v {
      entity = record (v.entity) {
        manifest = if has_key "status" manifest then insert "status" null manifest else manifest;
      };
    }

-- `ServeHTTP`; `decode` reads the request's body.
unfoldable pub serve_http :
    {N : Type 0}
    → Accessors
    → (String → Result (Map Value))
    → ValidateFn N
    → String
    → TerraformResponse
serve_http accessors decode validate body = elim (decode body) [
  | err e ↦ http_error 400 ("invalid request body, error: " <> e)
  | ok spec ↦ elim (validate (new_entity_from_spec accessors spec) "terraform") [
    | err e ↦ http_error 500 ("failed to validate resource, error: " <> e)
    | ok summary ↦
        if not (is_empty summary.violations)
        then encoded false (map blank_status summary.violations)
        else encoded true []
  ]
]
