-- ===== src/Sinks/Reporting.antt =====
-- From an evaluation to the outside: what `Validate` (pkg/policy-core/validation) writes to a sink, and
-- what the sink's worker (internal/sink) makes of it.
use mathlib.Core.List.{
  Mem, Mem-prop, mem-cons, mem-cons_self, not-mem-nil, mem-append, mem-map_of_mem, Perm,
}
use mathlib.Core.List.Perm
use mathlib.Core.Logic.Or
use policy_agent.Prelude.{
  ℕ, String, Bool, true, false, not, ◌&&◌, List, [], ◌∷◌, Option, ok, returns, is_empty,
  if◌then◌else◌, ◌≡◌, refl, sym, subst, length, ◌≤◌, Any, arith, map,
}
use policy_agent.Domain.{Policy, PolicyConfig, Entity, PolicyValidation, PolicyValidationSummary}
use policy_agent.Domain.Event.{Event}
use policy_agent.Domain.Mutation.{Yaml}
use policy_agent.Matching.{write_to_sinks, writes_of}
use policy_agent.Validation.{Env, OpaValidator, check_policy, enumerate_from, validate}
use policy_agent.Validation.Workers.{Outcome, skipped, violating, compliant, failed, crashed}
use policy_agent.Validation.Schedules.{violation_of, compliance_of, gather}
use policy_agent.Validation.Reports.{IsFailed, validate-panics_iff, validate-err, validate-ok}
use policy_agent.Sinks.Buffer.{Worker, Buffer, empty, Reach, handled, emitted}
use policy_agent.Sinks.Buffer.Delivery.{Reach-Delivers}
use policy_agent.Sinks.KubernetesEvents.{K8sEventSink, event_to_send, write_event, event_worker}

-- What a loop appends for an element of its list is among what it appends.
gather-Mem :
    {J B : Type 0} (pick : J → List B) (j : J) (b : B) (js : List J)
    → Mem j js
    → Mem b (pick j)
    → Mem b (gather pick js)
unfolding gather
gather-Mem pick j b [] m n = absurd (not-mem-nil m)
gather-Mem pick j b (x ∷ xs) m n =
    Or.elim Mem-prop (mem-cons.0 m) (λ e. mem-append.1 (Or.inl (subst (λ y. Mem b (pick y)) e n)))
      (λ k. mem-append.1 (Or.inr (gather-Mem pick j b xs k n)))

emitted-Mem :
    {Out : Type 0} (w : Worker Out) (r : PolicyValidation) (o : Out) (rs : List PolicyValidation)
    → Mem r rs
    → Mem o (w.emit false r)
    → Mem o (emitted w rs)
emitted-Mem w r o [] m n = absurd (not-mem-nil m)
emitted-Mem w r o (x ∷ xs) m n =
    Or.elim Mem-prop (mem-cons.0 m)
      (λ e. mem-append.1 (Or.inl (subst (λ y. Mem o (w.emit false y)) e n)))
      (λ k. mem-append.1 (Or.inr (emitted-Mem w r o xs k n)))

write_to_sinks-Mem :
    {N Sink : Type 0} (sink : Sink) (sinks : List Sink) (s : PolicyValidationSummary N) (b : Bool)
    (batch : List PolicyValidation)
    → Mem sink sinks
    → Mem batch (writes_of s b)
    → Mem (sink, batch) (write_to_sinks sinks s b)
unfolding write_to_sinks
write_to_sinks-Mem sink [] s b batch m n = absurd (not-mem-nil m)
write_to_sinks-Mem {Sink = Sink} sink (x ∷ xs) s b batch m n =
    Or.elim Mem-prop (mem-cons.0 m)
      (λ e. mem-append.1 (
        Or.inl (
          subst
            (λ y.
              Mem {A = Sink × List PolicyValidation} (sink, batch)
                (map (λ z. (y, z)) (writes_of s b)))
            e (mem-map_of_mem (λ z. (sink, z)) n))))
      (λ k. mem-append.1 (Or.inr (write_to_sinks-Mem sink xs s b batch k n)))

-- An outcome reports a result: a violation always, a compliance where compliances are written.
abbrev pub Reports : Bool → PolicyValidation → Outcome → Type 0
Reports b r (violating v) = r ≡ v
Reports b r (compliant c) = (b ≡ true) × (r ≡ c)
Reports b r _ = ⊥

-- A list that holds something is written.
full_batch :
    (r : PolicyValidation) (b : Bool) (xs : List PolicyValidation)
    → b ≡ true
    → Mem r xs
    → (Mem xs (if not (is_empty xs) then xs ∷ [] else []))
      × (Mem xs (if b && not (is_empty xs) then xs ∷ [] else []))
full_batch r b [] e m = absurd (not-mem-nil m)
full_batch r b (x ∷ xs) e m = rw e (mem-cons_self, mem-cons_self)

-- Where a result is reported it is in a batch of the summary that holds it.
reported_batch :
    {N J : Type 0} (s : PolicyValidationSummary N) (b : Bool) (work : J → Outcome) (js : List J)
    (j : J) (r : PolicyValidation)
    → Perm s.violations (gather (λ k. violation_of (work k)) js)
    → Perm s.compliances (gather (λ k. compliance_of (work k)) js)
    → Mem j js
    → Reports b r (work j)
    → (batch : List PolicyValidation) × Mem r batch × Mem batch (writes_of s b)
reported_batch s b work js j r vs cs m h = by_outcome (work j) refl
  where
    by_outcome :
        (o : Outcome)
        → work j ≡ o
        → (batch : List PolicyValidation) × Mem r batch × Mem batch (writes_of s b)
    by_outcome (violating v) e =
        let same : r ≡ v = subst (Reports b r) e h in
        let found : Mem r s.violations =
          (Perm.mem_iff vs).1
            (gather-Mem (λ k. violation_of (work k)) j r js m (rw (e, same) mem-cons_self)) in
        (s.violations, found, mem-append.1 (Or.inl (full_batch r true s.violations refl found).0))
    by_outcome (compliant c) e =
        let same : (b ≡ true) × (r ≡ c) = subst (Reports b r) e h in
        let found : Mem r s.compliances =
          (Perm.mem_iff cs).1
            (gather-Mem (λ k. compliance_of (work k)) j r js m (rw (e, same.1) mem-cons_self)) in
        (s.compliances, found, mem-append.1 (Or.inr (full_batch r b s.compliances same.0 found).1))
    by_outcome skipped e = absurd (subst (Reports b r) e h)
    by_outcome (failed x) e = absurd (subst (Reports b r) e h)
    by_outcome crashed e = absurd (subst (Reports b r) e h)

write_event-Mem :
    (k : K8sEventSink) (r : PolicyValidation) (e : Event)
    → event_to_send k r ≡ ok e
    → k.create false e ≡ true
    → Mem e ((event_worker k).emit false r)
unfolding write_event event_worker
write_event-Mem k r e made taken =
    let only : write_event k false r ≡ e ∷ [] = ground arith in
    subst (λ l. Mem e l) (sym only) mem-cons_self

module _ {Sink : Type 0} (yaml : Yaml) (env : Env) (v : OpaValidator Sink) (entity : Entity)
    (trigger : String) (policies : List Policy) (config : Option PolicyConfig) (sink : Sink)
    (k : K8sEventSink) where
  abbrev work : ℕ × Policy → Outcome
  work = check_policy env v entity trigger config

  abbrev jobs : List (ℕ × Policy)
  jobs = enumerate_from 0 policies

  abbrev Writes : Type 0
  Writes = List (Sink × List PolicyValidation)

  -- The sink has accepted every result of the writes to it.
  abbrev AreAccepted : Writes → Buffer Event → Type 0
  AreAccepted writes b =
      (batch : List PolicyValidation) (r : PolicyValidation)
      → Mem {A = Sink × List PolicyValidation} (sink, batch) writes
      → Mem r batch
      → Mem r b.accepted

  -- If `Validate` answers with a summary, it is `validate-ok`'s.
  summary_is :
      (s : PolicyValidationSummary yaml.Node) (writes : Writes)
      → v.policies_source.get_all ≡ ok policies
      → v.policies_source.get_policy_config entity ≡ ok config
      → v.mutates ≡ false
      → validate yaml env v entity trigger ≡ returns (ok (s, writes))
      → (writes ≡ write_to_sinks v.results_sinks s v.write_compliance)
        × Perm s.violations (gather (λ j. violation_of (work j)) jobs)
        × Perm s.compliances (gather (λ j. compliance_of (work j)) jobs)
  summary_is s writes listed configured unmutating answered =
      let calm : ¬ Any (λ j. work j ≡ crashed) jobs = λ a.
        let dies =
          (validate-panics_iff yaml env v entity trigger policies config listed configured).1 a in
        cc in
      let clean : ¬ Any (λ j. IsFailed (work j)) jobs = λ f.
        let (es, fails, _) =
          validate-err yaml env v entity trigger policies config listed configured calm f in
        cc in
      let (s', answer, _, vs, cs, _, _) =
        validate-ok yaml env v entity trigger policies config listed configured unmutating calm
          clean in
      let same : s' ≡ s = cc in
      let wrote : writes ≡ write_to_sinks v.results_sinks s' v.write_compliance = cc in
      subst
        (λ (z : PolicyValidationSummary yaml.Node).
          (writes ≡ write_to_sinks v.results_sinks z v.write_compliance)
          × Perm z.violations (gather (λ j. violation_of (work j)) jobs)
          × Perm z.compliances (gather (λ j. compliance_of (work j)) jobs))
        same (wrote, vs, cs)

  -- When a validator that does not mutate answers with a summary, and a Kubernetes event sink that has
  -- been started and not been stopped has accepted what the validator writes to it, the cluster gets
  -- the event of every violation that the policies find, and of every compliance where those are
  -- written, as soon as the sink's worker has taken as many results as waited in the channel then. The
  -- condition on a result is that its event can be made and that the API server takes it.
  pub validate-event_to_send :
      (s : PolicyValidationSummary yaml.Node) (writes : Writes) (j : ℕ × Policy)
      (r : PolicyValidation) (e : Event) (b t : Buffer Event)
      → v.policies_source.get_all ≡ ok policies
      → v.policies_source.get_policy_config entity ≡ ok config
      → v.mutates ≡ false
      → validate yaml env v entity trigger ≡ returns (ok (s, writes))
      → Mem sink v.results_sinks
      → Reach (event_worker k) empty b
      → AreAccepted writes b
      → (run : Reach (event_worker k) b t) → t.started ≡ true
      → t.stopped ≡ false
      → length b.queue ≤ handled run
      → Mem j jobs
      → Reports v.write_compliance r (work j)
      → event_to_send k r ≡ ok e
      → k.create false e ≡ true
      → Mem e t.sent
  validate-event_to_send s writes j r e b t listed configured unmutating answered given before
        accepted run begun going enough among reports made taken =
      let (wrote, vs, cs) = summary_is s writes listed configured unmutating answered in
      let (batch, held, written) =
        reported_batch s v.write_compliance work jobs j r vs cs among reports in
      let (sent, _) = Reach-Delivers (event_worker k) b t before run begun going enough in
      let put =
        subst (λ (l : Writes). Mem {A = Sink × List PolicyValidation} (sink, batch) l) (sym wrote)
          (write_to_sinks-Mem sink v.results_sinks s v.write_compliance batch given written) in
      let emits =
        emitted-Mem (event_worker k) r e b.accepted (accepted batch r put held)
          (write_event-Mem k r e made taken) in
      subst (λ l. Mem e l) (sym sent.1) (mem-append.1 (Or.inl emits))
