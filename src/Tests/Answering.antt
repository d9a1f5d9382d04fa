-- ===== src/Tests/Answering.antt =====
-- Requests to the mutation webhook, to the terraform handler and to the elastic server.
use policy_agent.Prelude.{
  false, err, ℕ, zero, suc, ◌≤◌, length, String, true, [], ◌∷◌, some, Result, ok, Map, ◌≡◌, ◌↔◌,
}
use policy_agent.Value.{Value, text}
use policy_agent.Domain.{MutationResult}
use policy_agent.Handlers.{ValidateFn, Request, patch, handle_mutation, serve_http}
use policy_agent.Handlers.Answers.{
  passes, IsUnviolated, serve_http-passes_iff, IsPatched, handle_mutation-patch_iff,
}
use policy_agent.Elastic.{Reply, no_reply, status, write_batch, retries}
use policy_agent.Elastic.Retries.{AcceptsOne, write_batch-accepted_iff}
use policy_agent.Tests.{yaml, json, accessors, deny, violation_by}

abbrev mutated_document : MutationResult yaml.Node
mutated_document = record { raw = "{}"; node = (("spec" ∷ [], text "1000") ∷ [], []) }

-- A validator that finds a violation and has mutated the object.
abbrev mutating : ValidateFn yaml.Node
mutating entity operation = ok (record {
  violations = violation_by deny ∷ [];
  compliances = [];
  mutation = some mutated_document;
})

abbrev read_object : String → Result (Map Value)
read_object raw = ok (("kind", text "Pod") ∷ [])

abbrev update_web : Request
update_web = record { namespace = "shop"; name = "web"; raw = "{}"; operation = "UPDATE" }

serve_http-passes_iff_example :
    (passes (serve_http accessors read_object mutating "{}") ≡ true)
    ↔ IsUnviolated accessors mutating (read_object "{}")
serve_http-passes_iff_example = serve_http-passes_iff accessors read_object mutating "{}"

handle_mutation-patch_iff_example :
    (handle_mutation accessors read_object yaml json mutating update_web ≡ patch "{}" "mutated")
    ↔ IsPatched accessors read_object yaml json mutating update_web "{}" "mutated"
handle_mutation-patch_iff_example =
    handle_mutation-patch_iff accessors read_object yaml json mutating update_web "{}" "mutated"

-- The server accepts the third request.
abbrev bulk : ℕ → Reply
bulk zero = no_reply
bulk (suc zero) = status 503
bulk (suc (suc n)) = status 200

write_batch-accepted_iff_example :
    (length (write_batch (ok "body") bulk).0 ≤ retries)
    × (((write_batch (ok "body") bulk).1 ≡ true) ↔ AcceptsOne retries 0 bulk)
    × (write_batch (err "no body") bulk ≡ ([], false))
write_batch-accepted_iff_example = write_batch-accepted_iff (ok "body") "body" "no body" bulk
