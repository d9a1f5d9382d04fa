-- ===== src/Tests/Validating.antt =====
-- Runs of the validator on small policies.
use mathlib.Core.List.{Perm}
use policy_agent.Prelude.{
  ℕ, ◌≤◌, ◌*◌, String, true, false, List, [], ◌∷◌, none, some, ok, err, returns, panics, ◌≡◌, refl,
  ◌↔◌, ◌⊎◌, inl, inr, Any, All, arith, lookup, contains, exists_where, split_text,
}
use policy_agent.Value.{Value, text, array, item, no_items}
use policy_agent.Domain.{
  Policy, PolicyParameters, PolicyConfig, PolicyValidationSummary, status_violating,
  status_compliant, get_parameters_map, collect_parameters,
}
use policy_agent.Matching.{match_entity, is_excluded, write_to_sinks}
use policy_agent.Matching.Laws.{InScope}
use policy_agent.Opa.{
  parse, eval, eval_gate_keeper_compliant, read_results, read_values, read_value, OpaPolicy,
  OpaInput, valid, invalid,
}
use policy_agent.Opa.Laws.{IsQuiet, Reports, Breaks, eval_iff}
use policy_agent.Validation.{
  check_policy, evaluate, parse_details, parse_occurrence, outcome_of, new_violation, new_result,
  resolve_parameters, enumerate_from, validate, failure_text,
}
use policy_agent.Validation.Workers.{
  Outcome, skipped, crashed, run_in_order, run_in_order-reaches, empty, start, finished, Pool,
  Reach, here, next, Step, spawn,
}
use policy_agent.Validation.Schedules.{
  violation_of, compliance_of, error_of, gather, Collected, Reach-Collected,
}
use policy_agent.Validation.Bounds.{Within, Reach-start-ends, steps}
use policy_agent.Validation.Parameters.{AreResolved, resolve_parameters_lem}
use policy_agent.Validation.Laws.{IsReport, IsExempt, check_policy-skipped_iff}
use policy_agent.Validation.Reports.{validate-ok, validate-err, validate-panics_iff, IsFailed}
use policy_agent.Tests.{yaml, env, deny, calm, broken, odd, pod, validator_of, finding}

unfoldable pub checking : Unit {0}
unfolding check_policy contains split_text get_parameters_map collect_parameters parse_details
    parse_occurrence lookup exists_where evaluate outcome_of match_entity is_excluded parse eval
    eval_gate_keeper_compliant read_results read_values read_value new_violation new_result
    resolve_parameters
checking = tt

-- The work of the goroutines for the policies of a run.
abbrev work_on : List Policy → ℕ × Policy → Outcome
work_on policies = check_policy env (validator_of false policies) pod "CREATE" none

abbrev quiet_run : List Policy
quiet_run = deny ∷ calm ∷ []

abbrev failing_run : List Policy
failing_run = deny ∷ broken ∷ []

abbrev odd_run : List Policy
odd_run = odd ∷ []

odd_crash : work_on odd_run (0, odd) ≡ crashed
unfolding checking
odd_crash = refl

quiet_calm : ¬ Any (λ j. work_on quiet_run j ≡ crashed) (enumerate_from 0 quiet_run)
unfolding checking enumerate_from
quiet_calm h = elim h [ inl e ↦ ground arith | inr k ↦ elim k [ inl e ↦ ground arith | inr z ↦ z ] ]

quiet_clean : ¬ Any (λ j. IsFailed (work_on quiet_run j)) (enumerate_from 0 quiet_run)
unfolding checking enumerate_from
quiet_clean h = elim h [ inl e ↦ e | inr k ↦ elim k [ inl e ↦ e | inr z ↦ z ] ]

failing_calm : ¬ Any (λ j. work_on failing_run j ≡ crashed) (enumerate_from 0 failing_run)
unfolding checking enumerate_from
failing_calm h = elim h [
  | inl e ↦ ground arith
  | inr k ↦ elim k [ inl e ↦ ground arith | inr z ↦ z ]
]

failing_fails : Any (λ j. IsFailed (work_on failing_run j)) (enumerate_from 0 failing_run)
unfolding checking enumerate_from
failing_fails = inr (inl tt)

validate-ok_example :
    (s : PolicyValidationSummary yaml.Node) × (validate yaml env
        (validator_of false quiet_run)
        pod
        "CREATE"
      ≡ returns (ok (s, write_to_sinks ("elastic" ∷ []) s true)))
    × (s.mutation ≡ none)
    × Perm s.violations
        (gather (λ j. violation_of (work_on quiet_run j)) (enumerate_from 0 quiet_run))
    × Perm s.compliances
        (gather (λ j. compliance_of (work_on quiet_run j)) (enumerate_from 0 quiet_run))
    × All (IsReport env (validator_of false quiet_run) pod "CREATE" status_violating) s.violations
    × All (IsReport env (validator_of false quiet_run) pod "CREATE" status_compliant) s.compliances
validate-ok_example =
    validate-ok yaml env (validator_of false quiet_run) pod "CREATE" quiet_run none refl refl refl
      quiet_calm quiet_clean

validate-err_example :
    (es : List String) × (validate yaml env (validator_of false failing_run) pod "CREATE"
      ≡ returns (err (failure_text env pod es)))
    × Perm es (gather (λ j. error_of (work_on failing_run j)) (enumerate_from 0 failing_run))
validate-err_example =
    validate-err yaml env (validator_of false failing_run) pod "CREATE" failing_run none refl refl
      failing_calm failing_fails

validate-panics_iff_example :
    (validate yaml env (validator_of false odd_run) pod "CREATE" ≡ panics)
    ↔ Any (λ j. work_on odd_run j ≡ crashed) (enumerate_from 0 odd_run)
validate-panics_iff_example =
    validate-panics_iff yaml env (validator_of false odd_run) pod "CREATE" odd_run none refl refl

Reach-Collected_example :
    Collected
      (work_on quiet_run)
      (enumerate_from 0 quiet_run)
      (run_in_order (work_on quiet_run) empty (enumerate_from 0 quiet_run))
Reach-Collected_example =
    Reach-Collected (work_on quiet_run) (enumerate_from 0 quiet_run)
      (run_in_order (work_on quiet_run) empty (enumerate_from 0 quiet_run))
      (run_in_order-reaches (work_on quiet_run) empty (enumerate_from 0 quiet_run) here)

-- The first of two goroutines has been started.
abbrev one_started : Pool (ℕ × Policy)
one_started = record { waiting = (1, calm) ∷ []; running = (0, deny) ∷ []; channels = empty }

one_started-Reach : Reach (work_on quiet_run) (start ((0, deny) ∷ (1, calm) ∷ [])) one_started
one_started-Reach = next here (spawn (0, deny) ((1, calm) ∷ []) refl (omega arith) refl)

Reach-start-ends_example :
    (steps one_started-Reach ≤ 2 * 2)
    × Within 2 one_started
    × ((one_started ≡ finished empty)
        ⊎ ((u : Pool (ℕ × Policy)) × Step (work_on quiet_run) one_started u))
Reach-start-ends_example = Reach-start-ends ((0, deny) ∷ (1, calm) ∷ []) one_started-Reach

check_policy-skipped_iff_example :
    (check_policy env (validator_of false quiet_run) pod "CREATE" none (0, deny) ≡ skipped)
    ↔ ((¬ InScope pod deny) ⊎ IsExempt pod deny)
check_policy-skipped_iff_example =
    check_policy-skipped_iff env (validator_of false quiet_run) pod "CREATE" none 0 deny

abbrev replicas : PolicyParameters
replicas = record {
  name = "replicas";
  type = "integer";
  value = text "1";
  required = true;
  config_ref = "";
}

abbrev scaled : Policy
scaled = record deny { parameters = replicas ∷ [] }

abbrev scaling : PolicyConfig
scaling = record {
  config =
      (
        "deny",
        record { parameters = ("replicas", record { value = text "3"; config_ref = "c" }) ∷ [] },
      )
      ∷ [];
}

resolve_parameters_lem_example :
    (qs : List PolicyParameters) × AreResolved (some scaling) "deny" (replicas ∷ []) qs
    × (resolve_parameters (some scaling) scaled ≡ (
      record scaled { parameters = qs },
      get_parameters_map (record scaled { parameters = qs }),
    ))
resolve_parameters_lem_example = resolve_parameters_lem (some scaling) scaled

abbrev code : OpaPolicy
code = record {
  module_ = record { rules = "violation" ∷ []; package_text = "package deny" };
  pkg = "deny";
}

abbrev review : OpaInput
review = record {
  review = record { name = "web"; kind = "Pod"; version = "v1"; group = ""; raw = "{}" };
  parameters = [];
}

abbrev reported : List (List Value)
reported = (array (item finding no_items) ∷ []) ∷ []

eval_iff_example :
    ((eval env.rego code review "violation" ≡ returns valid) ↔ All IsQuiet (read_results reported))
    × ((d : Value)
        → (eval env.rego code review "violation" ≡ returns (invalid d))
          ↔ Reports d (read_results reported))
    × ((eval env.rego code review "violation" ≡ panics) ↔ Breaks (read_results reported))
eval_iff_example = eval_iff env.rego code review "violation" reported refl
