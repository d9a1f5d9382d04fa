-- ===== src/Tests/Blocking.antt =====
-- A request to the admission webhook with the validator behind it.
use policy_agent.Prelude.{
  ℕ, String, true, false, List, [], ◌∷◌, none, Result, ok, err, Run, returns, panics, Map, ◌≡◌,
  refl, ◌↔◌, inl, inr, Any, arith, lookup, insert, delete, contains, exists_where, split_text,
}
use policy_agent.Value.{Value, object, no_fields}
use policy_agent.Domain.{
  Policy, PolicyValidationSummary, new_entity_from_spec, get_parameters_map, collect_parameters,
}
use policy_agent.Matching.{match_entity, is_excluded, label_selects}
use policy_agent.Opa.{
  parse, eval, eval_gate_keeper_compliant, read_results, read_values, read_value,
}
use policy_agent.Validation.{
  check_policy, evaluate, parse_details, parse_occurrence, outcome_of, new_violation, new_result,
  resolve_parameters, enumerate_from, validate, conclude, apply_mutations,
}
use policy_agent.Validation.Workers.{Outcome, crashed, run_in_order, deliver}
use policy_agent.Validation.Reports.{IsFailed}
use policy_agent.Handlers.{ValidateFn, Request, handle_admission}
use policy_agent.Handlers.Laws.{lets_pass}
use policy_agent.Handlers.Blocking.{IsAnswer, IsBlocking, handle_admission-IsBlocking_iff}
use policy_agent.Tests.{yaml, env, accessors, deny, calm, validator_of}

blocking : Unit {0}
unfolding check_policy evaluate outcome_of parse_details parse_occurrence new_violation new_result
    resolve_parameters get_parameters_map collect_parameters match_entity is_excluded label_selects
    parse eval eval_gate_keeper_compliant read_results read_values read_value lookup insert delete
    contains exists_where split_text new_entity_from_spec enumerate_from
blocking = tt

abbrev policies : List Policy
policies = deny ∷ calm ∷ []

abbrev answer_of :
    {N W : Type 0}
    → Run (Result (PolicyValidationSummary N × W))
    → Result (PolicyValidationSummary N)
answer_of (returns (ok (s, writes))) = ok s
answer_of (returns (err e)) = err e
answer_of panics = err "no answer"

abbrev ask : ValidateFn yaml.Node
ask entity operation = answer_of (validate yaml env (validator_of false policies) entity operation)

abbrev spec : Map Value
spec = ("metadata", object no_fields) ∷ []

abbrev unmarshal : String → Result (Map Value)
unmarshal raw = ok spec

abbrev request : Request
request = record { namespace = "shop"; name = "web"; raw = "{}"; operation = "CREATE" }

abbrev outcome_for : ℕ × Policy → Outcome
outcome_for =
    check_policy env (validator_of false policies) (new_entity_from_spec accessors spec) "CREATE"
      none

answered :
    IsAnswer
      (validate yaml env
        (validator_of false policies)
        (new_entity_from_spec accessors spec)
        "CREATE")
      (ask (new_entity_from_spec accessors spec) "CREATE")
unfolding blocking validate conclude apply_mutations run_in_order deliver
answered = refl

none_crash : ¬ Any (λ j. outcome_for j ≡ crashed) (enumerate_from 0 policies)
unfolding blocking
none_crash h = elim h [ inl e ↦ ground arith | inr k ↦ elim k [ inl e ↦ ground arith | inr z ↦ z ] ]

none_fail : ¬ Any (λ j. IsFailed (outcome_for j)) (enumerate_from 0 policies)
unfolding blocking
none_fail h = elim h [ inl e ↦ e | inr k ↦ elim k [ inl e ↦ e | inr z ↦ z ] ]

handle_admission-IsBlocking_iff_example :
    (lets_pass (handle_admission accessors unmarshal ask request) ≡ true)
    ↔ (¬ Any (λ j. IsBlocking (outcome_for j)) (enumerate_from 0 policies))
handle_admission-IsBlocking_iff_example =
    handle_admission-IsBlocking_iff yaml env (validator_of false policies) accessors unmarshal ask
      request spec policies none refl refl refl refl answered refl none_crash none_fail
