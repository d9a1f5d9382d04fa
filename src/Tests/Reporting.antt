-- ===== src/Tests/Reporting.antt =====
-- A run from an evaluation to the event of its violation.
use mathlib.Core.List.{Mem, Mem-prop, mem-cons, mem-cons_self, not-mem-nil}
use mathlib.Core.Logic.Or
use policy_agent.Prelude.{
  ℕ, String, false, true, List, [], ◌∷◌, none, ok, returns, ◌≡◌, refl, subst, ap, arith, lookup,
}
use policy_agent.Domain.{Policy, PolicyValidation, PolicyValidationSummary}
use policy_agent.Domain.Event.{Event, new_k8s_event, event_of, annotations_of}
use policy_agent.Matching.{write_to_sinks}
use policy_agent.PolicyConfigs.{get_flux_object}
use policy_agent.Validation.{
  check_policy, new_violation, validate, conclude, apply_mutations, enumerate_from,
}
use policy_agent.Validation.Workers.{run_in_order, deliver}
use policy_agent.Sinks.Buffer.{Buffer, empty, write, start, take_result, Reach, here, more}
use policy_agent.Sinks.KubernetesEvents.{event_to_send, event_worker, write_event}
use policy_agent.Sinks.Reporting.{Reports, validate-event_to_send}
use policy_agent.Tests.{yaml, env, deny, pod, validator_of, finding}
use policy_agent.Tests.Validating.{checking}
use policy_agent.Tests.Sending.{event_sink}

-- The violation that the policy finds.
abbrev violation : PolicyValidation
violation = new_violation env (validator_of false (deny ∷ [])) pod "CREATE" 0 deny finding

abbrev summary : PolicyValidationSummary yaml.Node
summary = record { violations = violation ∷ []; compliances = []; mutation = none }

abbrev event : Event
event = record (event_of violation 48879 (annotations_of violation "[]" "{}" "[{}]" "null")) {
  reporting_controller = "policy-agent";
  reporting_instance = "node";
  source = "policy-agent";
}

answered :
    validate yaml env (validator_of false (deny ∷ [])) pod "CREATE"
    ≡ returns (ok (summary, ("elastic", violation ∷ []) ∷ []))
unfolding checking validate conclude apply_mutations enumerate_from write_to_sinks run_in_order
    deliver
answered = refl

abbrev waiting : Buffer Event
waiting = record empty { queue = violation ∷ []; accepted = violation ∷ []; started = true }

abbrev sent : Buffer Event
sent = record waiting { queue = []; sent = event ∷ [] }

makes : event_to_send event_sink violation ≡ ok event
unfolding event_to_send new_k8s_event get_flux_object lookup event_of new_violation annotations_of
makes = refl

filling : Reach (event_worker event_sink) empty waiting
filling = more (write violation (omega arith) refl) (more (start refl refl) here)

abbrev taking : Reach (event_worker event_sink) waiting sent
unfolding event_worker write_event event_to_send new_k8s_event get_flux_object lookup new_violation
    event_of annotations_of
taking = more (take_result violation [] refl refl refl refl) here

accepted :
    (batch : List PolicyValidation) (r : PolicyValidation)
    → Mem {A = String × List PolicyValidation} ("elastic", batch) (("elastic", violation ∷ []) ∷ [])
    → Mem r batch
    → Mem r waiting.accepted
accepted batch r among m =
    Or.elim Mem-prop (mem-cons.0 among)
      (λ e.
        subst (λ (l : List PolicyValidation). Mem r l)
          (ap (λ (w : String × List PolicyValidation). w.1) e) m)
      (λ k. absurd (not-mem-nil k))

listed : Mem {A = ℕ × Policy} (0, deny) (enumerate_from 0 (deny ∷ []))
unfolding enumerate_from
listed = mem-cons_self

found :
    Reports true violation
      (check_policy env (validator_of false (deny ∷ [])) pod "CREATE" none (0, deny))
unfolding checking
found = refl

validate-event_to_send_example : Mem event (event ∷ [])
unfolding taking
validate-event_to_send_example =
    validate-event_to_send yaml env (validator_of false (deny ∷ [])) pod "CREATE" (deny ∷ []) none
      "elastic" event_sink summary (("elastic", violation ∷ []) ∷ []) (0, deny) violation event
      waiting sent refl refl refl answered mem-cons_self filling accepted taking refl refl
      (omega arith) listed found makes refl
