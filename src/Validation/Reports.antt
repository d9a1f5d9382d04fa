-- ===== src/Validation/Reports.antt =====
-- What `Validate` answers without mutation, whatever the schedule of its goroutines
-- (pkg/policy-core/validation/opa_validation.go).
use mathlib.Core.List.{Perm}
use mathlib.Core.List.Perm
use policy_agent.Prelude.{
  ℕ, String, false, List, [], ◌∷◌, ◌++◌, Option, none, ok, err, returns, panics, ◌≡◌, refl, ◌↔◌,
  ◌⊎◌, inl, inr, ◌≢◌, arith, Any, All,
}
use policy_agent.Domain.{
  Policy, PolicyConfig, Entity, PolicyValidationSummary, status_violating, status_compliant,
}
use policy_agent.Domain.Mutation.{Yaml}
use policy_agent.Matching.{write_to_sinks}
use policy_agent.Validation.{
  Env, OpaValidator, check_policy, enumerate_from, validate, validate-conclude, conclude,
  apply_mutations, failure_text,
}
use policy_agent.Validation.Workers.{
  Outcome, skipped, violating, compliant, failed, crashed, Channels,
}
use policy_agent.Validation.Schedules.{
  violation_of, compliance_of, error_of, crash_of, gather, Collected, Reach-Collected, Reach-All,
  deliver-violations, deliver-compliances,
}
use policy_agent.Validation.Laws.{IsReport, IsReported, check_policy-IsReported}

left_nil : {B : Type 0} (xs ys : List B) → xs ++ ys ≡ [] → xs ≡ []
left_nil [] ys e = refl
left_nil (x ∷ xs) ys e = cc

-- A list of results is empty exactly when no job adds to it.
module _ {Job B : Type 0} (pick : Job → List B) (P : Job → Type 0)
    (each : (j : Job) → ((pick j ≡ []) × (¬ P j)) ⊎ ((pick j ≢ []) × P j)) where
  gather_split :
      (js : List Job) → ((gather pick js ≡ []) × (¬ Any P js)) ⊎ ((gather pick js ≢ []) × Any P js)
  unfolding gather
  gather_split [] = inl (refl, λ a. a)
  gather_split (j ∷ js) = elim (each j) [
    | inr (some_ne, p) ↦ inr (λ e. some_ne (left_nil (pick j) (gather pick js) e), inl p)
    | inl (nothing, not_p) ↦ elim (gather_split js) [
      | inl (e, n) ↦ inl (rw (nothing, e), λ a. elim a [ inl p ↦ not_p p | inr q ↦ n q ])
      | inr (ne, a) ↦ inr (rw nothing ne, inr a)
    ]
  ]

abbrev pub IsFailed : Outcome → Type 0
IsFailed (failed e) = Unit
IsFailed _ = ⊥

error_split :
    (o : Outcome) → ((error_of o ≡ []) × (¬ IsFailed o)) ⊎ ((error_of o ≢ []) × IsFailed o)
error_split (failed e) = inr (λ q. cc, tt)
error_split skipped = inl (refl, λ a. a)
error_split (violating r) = inl (refl, λ a. a)
error_split (compliant r) = inl (refl, λ a. a)
error_split crashed = inl (refl, λ a. a)

crash_split :
    (o : Outcome) → ((crash_of o ≡ []) × (¬ (o ≡ crashed))) ⊎ ((crash_of o ≢ []) × (o ≡ crashed))
crash_split crashed = inr (λ q. cc, refl)
crash_split skipped = inl (refl, λ e. cc)
crash_split (violating r) = inl (refl, λ e. cc)
crash_split (compliant r) = inl (refl, λ e. cc)
crash_split (failed r) = inl (refl, λ e. cc)

-- The branches of `conclude`.
module _ {Sink : Type 0} (yaml : Yaml) (env : Env) (v : OpaValidator Sink) (entity : Entity)
    (c : Channels) where
  conclude_crash : c.crashes ≢ [] → conclude yaml env v entity c ≡ panics
  unfolding conclude
  conclude_crash h = ground arith

  conclude-ne-panics : c.crashes ≡ [] → conclude yaml env v entity c ≢ panics
  unfolding conclude
  conclude-ne-panics h = ground arith

  conclude_errors :
      c.crashes ≡ []
      → c.errors ≢ []
      → conclude yaml env v entity c ≡ returns (err (failure_text env entity c.errors))
  unfolding conclude
  conclude_errors h k = ground arith

  abbrev summary_of : PolicyValidationSummary yaml.Node
  summary_of = record { violations = c.violations; compliances = c.compliances; mutation = none }

  conclude_summary :
      v.mutates ≡ false
      → c.crashes ≡ []
      → c.errors ≡ []
      → conclude yaml env v entity c
        ≡ returns (ok (summary_of, write_to_sinks v.results_sinks summary_of v.write_compliance))
  unfolding conclude apply_mutations
  conclude_summary m h k = rw (h, k, m, conclude) refl

violation_of-IsReport :
    {Sink : Type 0} (env : Env) (v : OpaValidator Sink) (entity : Entity) (trigger : String)
    (o : Outcome)
    → IsReported env v entity trigger o
    → All (IsReport env v entity trigger status_violating) (violation_of o)
violation_of-IsReport env v entity trigger (violating r) h = (h, tt)
violation_of-IsReport env v entity trigger _ h = tt

compliance_of-IsReport :
    {Sink : Type 0} (env : Env) (v : OpaValidator Sink) (entity : Entity) (trigger : String)
    (o : Outcome)
    → IsReported env v entity trigger o
    → All (IsReport env v entity trigger status_compliant) (compliance_of o)
compliance_of-IsReport env v entity trigger (compliant r) h = (h, tt)
compliance_of-IsReport env v entity trigger _ h = tt

module _ {Sink : Type 0} (yaml : Yaml) (env : Env) (v : OpaValidator Sink) (entity : Entity)
    (trigger : String) (policies : List Policy) (config : Option PolicyConfig)
    (listed : v.policies_source.get_all ≡ ok policies)
    (configured : v.policies_source.get_policy_config entity ≡ ok config) where
  -- The goroutines' work.
  abbrev work : ℕ × Policy → Outcome
  work = check_policy env v entity trigger config

  abbrev jobs : List (ℕ × Policy)
  jobs = enumerate_from 0 policies

  abbrev channels : Channels
  channels = env.scheduler.run work jobs

  answer : validate yaml env v entity trigger ≡ conclude yaml env v entity channels
  answer = validate-conclude yaml env v entity trigger policies config listed configured

  collected : Collected work jobs channels
  collected = Reach-Collected work jobs channels (env.scheduler.runs_to_end work jobs)

  crashes_or :
      ((channels.crashes ≡ []) × (¬ Any (λ j. work j ≡ crashed) jobs))
      ⊎ ((channels.crashes ≢ []) × Any (λ j. work j ≡ crashed) jobs)
  crashes_or = elim (gather_split _ (λ j. work j ≡ crashed) (λ j. crash_split (work j)) jobs) [
    | inl (e, n) ↦ inl (Perm.eq-nil (rw e at (collected.crashes)), n)
    | inr (ne, a) ↦ inr (λ e. ne (Perm.eq-nil (Perm.symm (rw e at (collected.crashes)))), a)
  ]

  errors_or :
      ((channels.errors ≡ []) × (¬ Any (λ j. IsFailed (work j)) jobs))
      ⊎ ((channels.errors ≢ []) × Any (λ j. IsFailed (work j)) jobs)
  errors_or = elim (gather_split _ (λ j. IsFailed (work j)) (λ j. error_split (work j)) jobs) [
    | inl (e, n) ↦ inl (Perm.eq-nil (rw e at (collected.errors)), n)
    | inr (ne, a) ↦ inr (λ e. ne (Perm.eq-nil (Perm.symm (rw e at (collected.errors)))), a)
  ]

  -- The process dies of a panic exactly when the evaluation of one of the policies panics.
  pub validate-panics_iff :
      (validate yaml env v entity trigger ≡ panics) ↔ Any (λ j. work j ≡ crashed) jobs
  validate-panics_iff = elim crashes_or [
    | inr (ne, a) ↦ (λ _. a, λ _. rw answer (conclude_crash yaml env v entity channels ne))
    | inl (e, n) ↦ (
      λ p. absurd (conclude-ne-panics yaml env v entity channels e (rw answer at p)),
      λ a. absurd (n a),
    )
  ]

  -- If no policy panics and one fails to parse or to evaluate, nothing is reported: the answer is an
  -- error that holds every policy's error, in some order.
  pub validate-err :
      ¬ Any (λ j. work j ≡ crashed) jobs
      → Any (λ j. IsFailed (work j)) jobs
      → (es : List String) × (validate yaml env v entity trigger
          ≡ returns (err (failure_text env entity es)))
        × Perm es (gather (λ j. error_of (work j)) jobs)
  validate-err calm fails = elim crashes_or [
    | inr (_, a) ↦ absurd (calm a)
    | inl (quiet, _) ↦ elim errors_or [
      | inl (_, n) ↦ absurd (n fails)
      | inr (ne, _) ↦ (
        channels.errors,
        rw answer (conclude_errors yaml env v entity channels quiet ne),
        collected.errors,
      )
    ]
  ]

  -- If no policy panics or fails and the validator does not mutate, `Validate` answers with a summary
  -- without a mutation. It holds exactly the violations and the compliances that the policies find,
  -- each in some order; each of them is about this entity, and enforced as its policy is; and each
  -- sink was sent what `writeToSinks` sends for that summary.
  pub validate-ok :
      v.mutates ≡ false
      → ¬ Any (λ j. work j ≡ crashed) jobs
      → ¬ Any (λ j. IsFailed (work j)) jobs
      → (s : PolicyValidationSummary yaml.Node) × (validate yaml env v entity trigger
          ≡ returns (ok (s, write_to_sinks v.results_sinks s v.write_compliance)))
        × (s.mutation ≡ none)
        × Perm s.violations (gather (λ j. violation_of (work j)) jobs)
        × Perm s.compliances (gather (λ j. compliance_of (work j)) jobs)
        × All (IsReport env v entity trigger status_violating) s.violations
        × All (IsReport env v entity trigger status_compliant) s.compliances
  validate-ok unmutating calm clean = elim crashes_or [
    | inr (_, a) ↦ absurd (calm a)
    | inl (quiet, _) ↦ elim errors_or [
      | inr (_, a) ↦ absurd (clean a)
      | inl (none_failed, _) ↦ (
        summary_of yaml env v entity channels,
        rw answer (conclude_summary yaml env v entity channels unmutating quiet none_failed),
        refl,
        collected.violations,
        collected.compliances,
        Reach-All work (λ d. d.violations) violation_of deliver-violations _
            (λ j.
              violation_of-IsReport env v entity trigger (work j)
                (check_policy-IsReported env v entity trigger config j))
            (env.scheduler.runs_to_end work jobs) tt,
        Reach-All work (λ d. d.compliances) compliance_of deliver-compliances _
            (λ j.
              compliance_of-IsReport env v entity trigger (work j)
                (check_policy-IsReported env v entity trigger config j))
            (env.scheduler.runs_to_end work jobs) tt,
      )
    ]
  ]
