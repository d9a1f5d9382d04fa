-- ===== src/Agent/Wiring.antt =====
-- What runs once the agent serves (main.go).
use policy_agent.Prelude.{
  ltb, String, true, false, ◌&&◌, List, [], ◌∷◌, Result-cases, Result, ok, err, map_err,
  Option-cases, Bool-cases, Run, returns, panics, ltb, ◌≡◌, refl, sym, subst, ◌⊎◌, inl, inr, arith,
  Member,
}
use policy_agent.Entities.{EntitySource, get_entities_sources}
use policy_agent.Kube.{get_agent_permissions, get_api_resources}
use policy_agent.Agent.{Config, Progress, Halted, done, failed, exits}
use policy_agent.Agent.Configuration.{
  Viper, get_agent_configuration, split_path, missing_field, required_fields, defaults, log_levels,
}
use policy_agent.Agent.Interval.{audit_interval-fits, start_controller-begins}
use policy_agent.Agent.Startup.{Runnable, audit_controller, Platform}
use policy_agent.Agent.Modes.{
  Agent, audit_interval, assemble, start_audit, prepare, set_up_controller, start_agent,
  nothing_started,
}
use policy_agent.Agent.Process.{serves, stop_all, exit_with, main}
use policy_agent.Agent.Stages.{
  Lands, continue-Lands, attempt-Lands, last-Lands, self-Lands, landed, weaken-Lands, go-Lands,
  exits-Lands, land, AreIn,
}
use policy_agent.Agent.Sinks.{init_sinks-Adds}
use policy_agent.Agent.Wired.{OnlyIf, IsAudited, IsWired, All-IsIn, check_config-ok, validator_if}

Run-cases : {A : Type 0} (r : Run A) → (r ≡ panics) ⊎ ((a : A) × (r ≡ returns a))
Run-cases panics = inl refl
Run-cases (returns a) = inr (a, refl)

exit_with-serves :
    (x : Platform) (Q : Agent → Progress Runnable → Type 0) (s : Progress Runnable × Halted Agent)
    (a : Agent) (all : List Runnable)
    → Lands Q s
    → exit_with x s ≡ serves a all
    → (p : Progress Runnable) × Q a p × (all ≡ p.registered)
unfolding exit_with
exit_with-serves x Q (p, done b) a all h e =
    let same : b ≡ a = ground arith in (p, subst (λ y. Q y p) same (landed Q b p h), ground arith)
exit_with-serves x Q (p, exits m) a all h e = absurd (ground arith)
exit_with-serves x Q (p, failed m) a all h e = elim (Run-cases (stop_all x p.deferred)) [
  | inl f ↦ absurd (ground arith)
  | inr (u, f) ↦ absurd (ground arith)
]

-- Reading the configuration starts nothing.
get_agent_configuration-done :
    (viper : Viper) (path : String) (p q : Progress Runnable) (c : Config)
    → get_agent_configuration viper path p ≡ (q, done c)
    → q ≡ p
unfolding get_agent_configuration
get_agent_configuration-done viper path p q c h =
    elim (Result-cases (viper.read_in_config (split_path path).0 (split_path path).1)) [
      | inr (e, f) ↦ absurd (ground arith)
      | inl (u, f) ↦ elim (Option-cases (missing_field (viper.is_set defaults) required_fields)) [
        | inr (k, g) ↦ absurd (ground arith)
        | inl g ↦ elim (Result-cases (viper.unmarshal defaults)) [
          | inr (e, i) ↦ absurd (ground arith)
          | inl (d, i) ↦ ground arith
        ]
      ]
    ]

map_err-ok :
    {A : Type 0} (f : String → String) (r : Result A) (a : A) → map_err f r ≡ ok a → r ≡ ok a
map_err-ok f (ok b) a h = h
map_err-ok f (err e) a h = absurd (ground arith)

module _ (x : Platform) where
  start_audit-Lands :
      (c : Config) (sources : List EntitySource) (sinks : List Runnable) (p : Progress Runnable)
      → AreIn sinks p.registered
      → get_entities_sources
          (get_agent_permissions x.permissions)
          (get_api_resources x.api_resources)
        ≡ ok sources
      → Lands
          (λ a q.
            AreIn p.registered q.registered × OnlyIf c.audit.enabled (IsAudited x c q.registered) a)
          (start_audit x c sources sinks p)
  unfolding start_audit audit_interval
  start_audit-Lands c sources sinks p known found = elim (Bool-cases c.audit.enabled) [
    | inr e ↦ rw e (land _ _ _ (λ r i. i, tt))
    | inl e ↦ elim (Bool-cases (ltb c.audit.interval 1)) [
      | inl f ↦ rw (e, f) (exits-Lands _ _ p)
      | inr f ↦
          rw (e, f)
            (go-Lands _ _ _ _ (
              land _ _ _ (
                λ r i. inr i,
                record {
                  validator_runs = record {
                    source_is = refl;
                    type_is = refl;
                    mutates_is = refl;
                    account_is = refl;
                    cluster_is = refl;
                    sinks_run =
                        All-IsIn sinks
                          (audit_controller (audit_interval c.audit.interval) ∷ p.registered)
                          (λ r i. inr (known r i));
                  };
                  sources_are = found;
                  hours_bound = ground arith;
                  interval_is = refl;
                  hours_fit = audit_interval-fits c.audit.interval;
                  controller_runs = inl refl;
                  pending_is = refl;
                  begins = start_controller-begins (audit_interval c.audit.interval);
                },
              )))
    ]
  ]

  -- The sources are those that the cluster's answers give.
  prepare-Lands :
      (c : Config) (p : Progress Runnable)
      → Lands
          (λ s q.
            get_entities_sources
              (get_agent_permissions x.permissions)
              (get_api_resources x.api_resources)
            ≡ ok s)
          (prepare x c p)
  unfolding prepare
  prepare-Lands c p = attempt-Lands _ _ _ p (λ a1 h1. attempt-Lands _ _ _ p (λ a2 h2.
      attempt-Lands _ _ _ p (λ a3 h3. attempt-Lands _ _ _ p (λ a4 h4.
        attempt-Lands _ _ _ p (λ a5 h5. attempt-Lands _ _ _ p (λ a6 h6.
          attempt-Lands _ _ _ p (λ a7 h7. last-Lands _ _ p (λ s h. map_err-ok _ _ s h))))))))

  set_up_controller-Lands : (p : Progress Runnable) → Lands (λ u q. q ≡ p) (set_up_controller x p)
  unfolding set_up_controller
  set_up_controller-Lands p = elim (Result-cases x.setup_controller) [
    | inl (u, e) ↦ rw e (land _ _ _ refl)
    | inr (m, e) ↦ rw e (exits-Lands _ _ p)
  ]

  start_agent-Lands :
      (c : Config) (p : Progress Runnable)
      → ((c.admission.enabled ≡ true) ⊎ (c.audit.enabled ≡ true))
      → Member c.log_level log_levels
      → Lands (λ a q. IsWired x c a q.registered) (start_agent x c p)
  unfolding start_agent
  start_agent-Lands c p mode level = continue-Lands _ _ _ _ (prepare-Lands c p) (λ sources p1 found.
      continue-Lands _ _ _ _ (init_sinks-Adds x c.audit.enabled c.audit.sinks p1)
        (λ xs p2 (kept2, added2).
          continue-Lands _ _ _ _ (init_sinks-Adds x c.admission.enabled c.admission.sinks p2)
            (λ ys p3 (kept3, added3).
              continue-Lands _ _ _ _
                (init_sinks-Adds x c.tf_admission.enabled c.tf_admission.sinks p3)
                (λ zs p4 (kept4, added4).
                  continue-Lands _ _ _ _
                    (start_audit-Lands c sources xs p4 (λ r i. kept4 r (kept3 r (added2 r i)))
                      found)
                    (λ a p5 (kept5, audited).
                      continue-Lands _ _ _ _ (set_up_controller-Lands p5) (λ u p6 same. land _ _ _ (
                        subst (λ q. IsWired x c (assemble x c a ys zs) q.registered) (sym same)
                          (record {
                            some_mode = mode;
                            level_known = level;
                            audit = audited;
                            admission =
                                validator_if x c c.admission.enabled "kubernetes" "Admission" false
                                  ys _ (λ r i. kept5 r (kept4 r (added3 r i)));
                            mutation =
                                validator_if x c (c.admission.enabled && c.admission.mutate)
                                  "kubernetes" "Admission" true [] _ (λ r i. absurd i);
                            terraform =
                                validator_if x c c.tf_admission.enabled "terraform" "TFAdmission"
                                  false zs _ (λ r i. kept5 r (added4 r i));
                          }))))))))

  -- An agent that serves has read a configuration, in which admission or audit is enabled and whose
  -- log level is known; it has exactly the validators that the configuration enables, each of its
  -- type and for the policies of its provider, only the mutation validator mutating, with the account
  -- and the cluster of the configuration; every sink that a validator writes to is run by the
  -- manager; and the audit, if enabled, is run too, over the sources that the cluster's answers give,
  -- with an initial audit waiting for it. Its interval is a number of hours, at least one, in
  -- nanoseconds: exactly the configured one up to 2562047 hours, and beyond them what an int64 keeps
  -- of it. With a positive interval the loop begins with the initial audit, otherwise its ticker
  -- panics.
  pub main-IsWired :
      (viper : Viper) (file_path : String) (a : Agent) (all : List Runnable)
      → main x viper file_path ≡ serves a all
      → (c : Config) × (get_agent_configuration viper file_path nothing_started
          ≡ (nothing_started, done c))
        × IsWired x c a all
  unfolding main
  main-IsWired viper file_path a all h =
      let Told : Config → Type 0 =
        λ c. get_agent_configuration viper file_path nothing_started ≡ (nothing_started, done c) in
      let (p, (c, read, wired), same) =
        exit_with-serves x (λ b q. (c : Config) × Told c × IsWired x c b q.registered) _ a all
          (continue-Lands _ _ _ _ (self-Lands _) (λ c p read. attempt-Lands _ _ _ p (λ u good.
            let (mode, level) = check_config-ok c good in
            let still = get_agent_configuration-done viper file_path nothing_started p c read in
            weaken-Lands _ _ _
              (λ b q w. (
                c,
                subst (λ r. get_agent_configuration viper file_path nothing_started ≡ (r, done c))
                    still read,
                w,
              ))
              (start_agent-Lands c p mode level))))
          h in
      (c, read, rw same wired)
