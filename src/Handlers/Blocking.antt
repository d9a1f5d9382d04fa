-- ===== src/Handlers/Blocking.antt =====
-- The admission webhook with the validator behind it (internal/admission/admission.go and
-- pkg/policy-core/validation/opa_validation.go).
use mathlib.Core.HLevel.{⊥_prop}
use mathlib.Core.List.{Perm, Mem, mem-cons, mem-cons_self, not-mem-nil}
use mathlib.Core.List.Perm
use mathlib.Core.Logic.Or
use policy_agent.Prelude.{
  ℕ, String, true, false, List, [], ◌∷◌, ◌++◌, Option, Result, ok, err, Run, returns, panics, Map,
  ◌≡◌, sym, subst, ◌∙◌, ◌↔◌, ◌⊎◌, inl, inr, Any,
}
use policy_agent.Value.{Value}
use policy_agent.Domain.{
  Policy, PolicyConfig, Accessors, new_entity_from_spec, PolicyValidation, PolicyValidationSummary,
  Entity,
}
use policy_agent.Domain.Mutation.{Yaml}
use policy_agent.Validation.{Env, OpaValidator, check_policy, enumerate_from, validate}
use policy_agent.Validation.Workers.{Outcome, skipped, violating, compliant, failed, crashed}
use policy_agent.Validation.Schedules.{violation_of, gather}
use policy_agent.Validation.Laws.{IsReported, check_policy-IsReported}
use policy_agent.Validation.Reports.{IsFailed, validate-ok}
use policy_agent.Handlers.{ValidateFn, Request, is_system, handle_admission}
use policy_agent.Handlers.Laws.{lets_pass, IsClear, IsCleared, handle_admission_iff}

module _ {A : Type 0} (P : A → Type 0) where
  Any-Mem : (xs : List A) → Any P xs → (a : A) × Mem a xs × P a
  Any-Mem [] h = absurd h
  Any-Mem (x ∷ xs) (inl p) = (x, mem-cons_self, p)
  Any-Mem (x ∷ xs) (inr h) = let (a, m, p) = Any-Mem xs h in (a, mem-cons.1 (Or.inr m), p)

  not_Any-Mem : (xs : List A) → ¬ Any P xs → (a : A) → Mem a xs → ¬ P a
  not_Any-Mem [] n a m p = not-mem-nil m
  not_Any-Mem (x ∷ xs) n a m p =
      Or.elim ⊥_prop (mem-cons.0 m) (λ e. n (inl (subst P e p)))
        (λ k. not_Any-Mem xs (λ h. n (inr h)) a k p)

  not_Any-Perm : {xs ys : List A} → Perm xs ys → ¬ Any P xs → ¬ Any P ys
  not_Any-Perm {xs} {ys} q n h =
      let (a, m, p) = Any-Mem ys h in not_Any-Mem xs n a ((Perm.mem_iff q).1 m) p

  Any-append : (xs ys : List A) → Any P (xs ++ ys) ↔ (Any P xs ⊎ Any P ys)
  Any-append [] ys = (λ h. inr h, λ h. elim h [ inl a ↦ absurd a | inr b ↦ b ])
  Any-append (x ∷ xs) ys =
      let (to, from) = Any-append xs ys in
      (
        λ h. elim h [
          | inl a ↦ inl (inl a)
          | inr b ↦ elim (to b) [ inl c ↦ inl (inr c) | inr d ↦ inr d ]
        ],
        λ h. elim h [
          | inl a ↦ elim a [ inl c ↦ inl c | inr d ↦ inr (from (inl d)) ]
          | inr b ↦ inr (from (inr b))
        ],
      )

  Any-gather :
      {Job : Type 0} (pick : Job → List A) (jobs : List Job)
      → Any P (gather pick jobs) ↔ Any (λ j. Any P (pick j)) jobs
  unfolding gather
  Any-gather pick [] = (λ h. h, λ h. h)
  Any-gather pick (j ∷ js) =
      let (to, from) = Any-gather pick js in
      let (split, join) = Any-append (pick j) (gather pick js) in
      (
        λ h. elim (split h) [ inl a ↦ inl a | inr b ↦ inr (to b) ],
        λ h. join (elim h [ inl a ↦ inl a | inr b ↦ inr (from b) ]),
      )

-- The outcome of a policy that blocks a request: the policy is violated, and it is enforced.
abbrev pub IsBlocking : Outcome → Type 0
IsBlocking (violating r) = r.policy.enforce ≡ true
IsBlocking _ = ⊥

-- What a caller of `Validate` gets: nothing where the process has died.
abbrev pub IsAnswer :
    {N W : Type 0}
    → Run (Result (PolicyValidationSummary N × W))
    → Result (PolicyValidationSummary N)
    → Type 0
IsAnswer (returns (ok (s, writes))) r = r ≡ ok s
IsAnswer (returns (err e)) r = r ≡ err e
IsAnswer panics r = ⊥

violation_of-IsBlocking :
    {Sink : Type 0} (env : Env) (v : OpaValidator Sink) (entity : Entity) (trigger : String)
    (o : Outcome)
    → IsReported env v entity trigger o
    → Any (λ r. r.enforced ≡ true) (violation_of o) ↔ IsBlocking o
violation_of-IsBlocking env v entity trigger (violating r) h =
    (λ a. elim a [ inl e ↦ sym h.enforced_is ∙ e | inr z ↦ absurd z ], λ e. inl (h.enforced_is ∙ e))
violation_of-IsBlocking env v entity trigger skipped h = (λ a. a, λ a. a)
violation_of-IsBlocking env v entity trigger (compliant r) h = (λ a. a, λ a. a)
violation_of-IsBlocking env v entity trigger (failed e) h = (λ a. a, λ a. a)
violation_of-IsBlocking env v entity trigger crashed h = (λ a. a, λ a. a)

Any-map :
    {A : Type 0} {P Q : A → Type 0} (f : (a : A) → P a → Q a) (xs : List A) → Any P xs → Any Q xs
Any-map f [] h = absurd h
Any-map f (x ∷ xs) (inl h) = inl (f x h)
Any-map f (x ∷ xs) (inr h) = inr (Any-map f xs h)

module _ {Sink : Type 0} (yaml : Yaml) (env : Env) (v : OpaValidator Sink) (accessors : Accessors)
    (unmarshal : String → Result (Map Value)) (ask : ValidateFn yaml.Node) (req : Request)
    (spec : Map Value) (policies : List Policy) (config : Option PolicyConfig) where
  -- The entity of the request, and what the policies find for it.
  abbrev entity : Entity
  entity = new_entity_from_spec accessors spec

  abbrev work : ℕ × Policy → Outcome
  work = check_policy env v entity req.operation config

  abbrev jobs : List (ℕ × Policy)
  jobs = enumerate_from 0 policies

  passes_iff :
      is_system req.namespace ≡ false
      → unmarshal req.raw ≡ ok spec
      → (lets_pass (handle_admission accessors unmarshal ask req) ≡ true)
        ↔ IsClear (ask entity req.operation)
  passes_iff outside readable =
      let (to, from) = handle_admission_iff accessors unmarshal ask req in
      (
        λ h. elim (to h) [
          | inl s ↦ absurd (cc)
          | inr c ↦ subst (IsCleared accessors ask req.operation) readable c
        ],
        λ c. from (inr (subst (IsCleared accessors ask req.operation) (sym readable) c)),
      )

  work_iff :
      (j : ℕ × Policy) → Any (λ r. r.enforced ≡ true) (violation_of (work j)) ↔ IsBlocking (work j)
  work_iff j =
      violation_of-IsBlocking env v entity req.operation (work j)
        (check_policy-IsReported env v entity req.operation config j)

  unblocked_iff :
      (rs : List PolicyValidation)
      → Perm rs (gather (λ j. violation_of (work j)) jobs)
      → (¬ Any (λ r. r.enforced ≡ true) rs) ↔ (¬ Any (λ j. IsBlocking (work j)) jobs)
  unblocked_iff rs same =
      let (to, from) = Any-gather (λ r. r.enforced ≡ true) (λ j. violation_of (work j)) jobs in
      (
        λ n b.
            not_Any-Perm (λ r. r.enforced ≡ true) same n
              (from (Any-map (λ j. (work_iff j).1) jobs b)),
        λ n.
            not_Any-Perm (λ r. r.enforced ≡ true) (Perm.symm same)
              (λ g. n (Any-map (λ j. (work_iff j).0) jobs (to g))),
      )

  -- For a request outside the system namespaces whose object can be read, with a validator that does
  -- not mutate and no policy that panics or fails, the webhook lets the request pass exactly if the
  -- object violates no policy that is enforced.
  pub handle_admission-IsBlocking_iff :
      is_system req.namespace ≡ false
      → unmarshal req.raw ≡ ok spec
      → v.policies_source.get_all ≡ ok policies
      → v.policies_source.get_policy_config entity ≡ ok config
      → IsAnswer (validate yaml env v entity req.operation) (ask entity req.operation)
      → v.mutates ≡ false
      → ¬ Any (λ j. work j ≡ crashed) jobs
      → ¬ Any (λ j. IsFailed (work j)) jobs
      → (lets_pass (handle_admission accessors unmarshal ask req) ≡ true)
        ↔ (¬ Any (λ j. IsBlocking (work j)) jobs)
  handle_admission-IsBlocking_iff outside readable listed configured answers unmutating calm clean =
      let (s, e, _, same, _, _, _) =
        validate-ok yaml env v entity req.operation policies config listed configured unmutating
          calm clean in
      let told : ask entity req.operation ≡ ok s =
        subst (λ a. IsAnswer a (ask entity req.operation)) e answers in
      let (to, from) = passes_iff outside readable in
      let (kept, back) = unblocked_iff s.violations same in
      (λ h. kept (subst IsClear told (to h)), λ n. from (subst IsClear (sym told) (back n)))
