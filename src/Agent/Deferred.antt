-- ===== src/Agent/Deferred.antt =====
-- The deferred calls of a start that goes on or fails (main.go).
use policy_agent.Prelude.{
  String, Bool, true, false, not, ◌&&◌, List, Option, none, some, Result, ok, err, Result-cases,
  Bool-cases, is_empty, ◌==◌, ◌≡◌, refl, inl, inr, ltb,
}
use policy_agent.Entities.{EntitySource}
use policy_agent.Sinks.FileSystem.{new_file_system_sink}
use policy_agent.Agent.{
  FileSystemSinkConfig, FluxNotificationSinkConfig, K8sEventsSinkConfig, ElasticSinkConfig,
  SinksConfig, Config, Progress, Halted, done, failed, exits, Setup, continue_with, attempt,
}
use policy_agent.Agent.Startup.{
  log_path, Runnable, Platform, init_file_system_sink, init_k8s_event_sink,
  init_flux_notification_sink, init_elastic_search_sink,
}
use policy_agent.Agent.Modes.{
  with_file_system, with_k8s_events, with_flux_notification, with_elastic, init_sinks, start_audit,
  prepare, set_up_controller, start_agent, nothing_started,
}

-- However a stage ends, the `Stop` of some sink is deferred.
pub Held : {A : Type 0} → Progress Runnable × Halted A → Type 0
Held (p, a) = is_empty p.deferred ≡ false

pub held :
    {A : Type 0} (p : Progress Runnable) (a : Halted A) → is_empty p.deferred ≡ false → Held (p, a)
unfolding Held
held p a h = h

pub still_held :
    {A : Type 0} (p : Progress Runnable) (a : Halted A) → Held (p, a) → is_empty p.deferred ≡ false
unfolding Held
still_held p a h = h

pub continue-Held :
    {A B : Type 0} (f : A → Setup Runnable B) (s : Progress Runnable × Halted A)
    → Held s
    → ((a : A) (p : Progress Runnable) → is_empty p.deferred ≡ false → Held (f a p))
    → Held (continue_with f s)
unfolding Held continue_with
continue-Held f (p, done a) h go = go a p h
continue-Held f (p, failed e) h go = h
continue-Held f (p, exits e) h go = h

pub go-Held :
    {A B : Type 0} (f : A → Setup Runnable B) (p : Progress Runnable) (a : A)
    → Held (f a p)
    → Held (continue_with f (p, done a))
unfolding Held continue_with
go-Held f p a h = h

pub attempt-Held :
    {A B : Type 0} (r : Result A) (f : A → Setup Runnable B) (p : Progress Runnable)
    → is_empty p.deferred ≡ false
    → ((a : A) → Held (f a p))
    → Held (continue_with f (attempt r p))
unfolding Held continue_with attempt
attempt-Held (ok a) f p h go = go a
attempt-Held (err e) f p h go = h

module _ (x : Platform) where
  with_file_system-Held :
      (c : Option FileSystemSinkConfig) (p : Progress Runnable)
      → is_empty p.deferred ≡ false
      → Held (with_file_system x c p)
  unfolding with_file_system init_file_system_sink
  with_file_system-Held none p h = held _ _ h
  with_file_system-Held (some c) p h =
      continue-Held _ _ (attempt-Held _ _ p h (λ a. go-Held _ _ _ (held _ _ h)))
        (λ s q g. go-Held _ _ _ (held _ _ refl))

  pub with_k8s_events-Held :
      (c : Option K8sEventsSinkConfig) (p : Progress Runnable)
      → is_empty p.deferred ≡ false
      → Held (with_k8s_events x c p)
  unfolding with_k8s_events init_k8s_event_sink
  with_k8s_events-Held none p h = held _ _ h
  with_k8s_events-Held (some c) p h = elim (Bool-cases (not c.enabled)) [
    | inl e ↦ rw e (held _ _ h)
    | inr e ↦ rw e (
        continue-Held _ _
          (attempt-Held _ _ p h (λ a. attempt-Held _ _ p h (λ b. go-Held _ _ _ (held _ _ h))))
          (λ s q g. go-Held _ _ _ (held _ _ refl)))
  ]

  pub with_flux_notification-Held :
      (c : Option FluxNotificationSinkConfig) (p : Progress Runnable)
      → is_empty p.deferred ≡ false
      → Held (with_flux_notification x c p)
  unfolding with_flux_notification init_flux_notification_sink
  with_flux_notification-Held none p h = held _ _ h
  with_flux_notification-Held (some c) p h =
      continue-Held _ _ (attempt-Held _ _ p h (λ a. go-Held _ _ _ (held _ _ h)))
        (λ s q g. go-Held _ _ _ (held _ _ refl))

  init_elastic_search_sink-Held :
      (c : ElasticSinkConfig) (p : Progress Runnable)
      → is_empty p.deferred ≡ false
      → Held (init_elastic_search_sink x c p)
  unfolding init_elastic_search_sink attempt
  init_elastic_search_sink-Held c p h =
      elim (Bool-cases (not (c.insertion_mode == "insert") && not (c.insertion_mode == "upsert"))) [
        | inl e ↦ rw e (held _ _ h)
        | inr e ↦ rw e (attempt-Held _ _ p h (λ a. go-Held _ _ _ (held _ _ h)))
      ]

  pub with_elastic-Held :
      (c : Option ElasticSinkConfig) (p : Progress Runnable)
      → is_empty p.deferred ≡ false
      → Held (with_elastic x c p)
  unfolding with_elastic
  with_elastic-Held none p h = held _ _ h
  with_elastic-Held (some c) p h =
      continue-Held _ _ (init_elastic_search_sink-Held c p h) (λ s q g. held _ _ g)

  -- What follows the file sink of a mode.
  pub init_sinks-Held :
      (b : Bool) (c : SinksConfig) (p : Progress Runnable)
      → is_empty p.deferred ≡ false
      → Held (init_sinks x b c p)
  unfolding init_sinks
  init_sinks-Held false c p h = held _ _ h
  init_sinks-Held true c p h =
      continue-Held _ _ (with_file_system-Held c.filesystem_sink p h) (λ xs p1 h1.
        continue-Held _ _ (with_k8s_events-Held c.k8s_events_sink p1 h1) (λ ys p2 h2.
          continue-Held _ _ (with_flux_notification-Held c.flux_notification_sink p2 h2)
            (λ zs p3 h3.
              continue-Held _ _ (with_elastic-Held c.elastic_sink p3 h3)
                (λ ws p4 h4. held _ _ h4))))

  start_audit-Held :
      (c : Config) (sources : List EntitySource) (sinks : List Runnable) (p : Progress Runnable)
      → is_empty p.deferred ≡ false
      → Held (start_audit x c sources sinks p)
  unfolding start_audit
  start_audit-Held c sources sinks p h = elim (Bool-cases c.audit.enabled) [
    | inr e ↦ rw e (held _ _ h)
    | inl e ↦ elim (Bool-cases (ltb c.audit.interval 1)) [
      | inl f ↦ rw (e, f) (held _ _ h)
      | inr f ↦ rw (e, f) (go-Held _ _ _ (held _ _ h))
    ]
  ]

  set_up_controller-Held :
      (p : Progress Runnable) → is_empty p.deferred ≡ false → Held (set_up_controller x p)
  unfolding set_up_controller
  set_up_controller-Held p h = elim (Result-cases x.setup_controller) [
    | inl (u, e) ↦ rw e (held _ _ h)
    | inr (m, e) ↦ rw e (held _ _ h)
  ]

  opened_file-Held :
      (f : FileSystemSinkConfig) (file : String) (p : Progress Runnable)
      → x.open_file (log_path f.file_name) ≡ ok file
      → Held (with_file_system x (some f) p)
  unfolding with_file_system init_file_system_sink new_file_system_sink Held continue_with attempt
  opened_file-Held f file p opened = rw opened refl

  -- A file that can be opened has its sink's `Stop` deferred, and whatever follows keeps it so.
  opened-Held :
      (b : Bool) (f : FileSystemSinkConfig) (c : SinksConfig) (file : String)
      (p : Progress Runnable)
      → b ≡ true
      → c.filesystem_sink ≡ some f
      → x.open_file (log_path f.file_name) ≡ ok file
      → Held (init_sinks x b c p)
  unfolding init_sinks
  opened-Held b f c file p enabled chosen opened =
      rw (enabled, chosen)
        (continue-Held _ _ (opened_file-Held f file p opened) (λ xs p1 h1.
          continue-Held _ _ (with_k8s_events-Held c.k8s_events_sink p1 h1) (λ ys p2 h2.
            continue-Held _ _ (with_flux_notification-Held c.flux_notification_sink p2 h2)
              (λ zs p3 h3.
                continue-Held _ _ (with_elastic-Held c.elastic_sink p3 h3)
                  (λ ws p4 h4. held _ _ h4)))))

  pub start_agent-Held :
      (c : Config) (sources : List EntitySource) (f : FileSystemSinkConfig) (line : String)
      → prepare x c nothing_started ≡ (nothing_started, done sources)
      → c.audit.enabled ≡ true
      → c.audit.sinks.filesystem_sink ≡ some f
      → x.open_file (log_path f.file_name) ≡ ok line
      → Held (start_agent x c nothing_started)
  unfolding start_agent
  start_agent-Held c sources f line prepared enabled chosen opened = rw prepared (
      go-Held _ _ _ (
        continue-Held _ _ (opened-Held c.audit.enabled f c.audit.sinks line _ enabled chosen opened)
          (λ xs p1 h1.
            continue-Held _ _ (init_sinks-Held c.admission.enabled c.admission.sinks p1 h1)
              (λ ys p2 h2.
                continue-Held _ _
                  (init_sinks-Held c.tf_admission.enabled c.tf_admission.sinks p2 h2)
                  (λ zs p3 h3. continue-Held _ _ (start_audit-Held c sources xs p3 h3) (λ a p4 h4.
                    continue-Held _ _ (set_up_controller-Held p4 h4) (λ u p5 h5. held _ _ h5)))))))
