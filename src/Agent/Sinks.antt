-- ===== src/Agent/Sinks.antt =====
-- The sinks that a mode starts are given to the manager (main.go).
use policy_agent.Prelude.{
  String, Bool, true, false, not, ◌&&◌, ◌++◌, Option, none, some, Bool-cases, ◌==◌, refl, inl, inr,
}
use policy_agent.Agent.{
  FileSystemSinkConfig, FluxNotificationSinkConfig, K8sEventsSinkConfig, ElasticSinkConfig,
  SinksConfig, Progress,
}
use policy_agent.Agent.Startup.{
  Runnable, Platform, init_file_system_sink, init_k8s_event_sink, init_flux_notification_sink,
  init_elastic_search_sink,
}
use policy_agent.Agent.Modes.{
  with_file_system, with_k8s_events, with_flux_notification, with_elastic, init_sinks,
}
use policy_agent.Agent.Stages.{
  Lands, continue-Lands, attempt-Lands, failed-Lands, go-Lands, land, Adds, AddsOne, AddsOne-Adds,
  nothing-Adds, Adds-append,
}

module _ (x : Platform) where
  pub init_file_system_sink-Lands :
      (name : String) (p : Progress Runnable) → Lands (AddsOne p) (init_file_system_sink x name p)
  unfolding init_file_system_sink
  init_file_system_sink-Lands name p =
      attempt-Lands _ _ _ p (λ a h. go-Lands _ _ _ _ (land _ _ _ refl))

  pub init_k8s_event_sink-Lands :
      (p : Progress Runnable) → Lands (AddsOne p) (init_k8s_event_sink x p)
  unfolding init_k8s_event_sink
  init_k8s_event_sink-Lands p =
      attempt-Lands _ _ _ p
        (λ a h. attempt-Lands _ _ _ p (λ b g. go-Lands _ _ _ _ (land _ _ _ refl)))

  pub init_flux_notification_sink-Lands :
      (address : String) (p : Progress Runnable)
      → Lands (AddsOne p) (init_flux_notification_sink x address p)
  unfolding init_flux_notification_sink
  init_flux_notification_sink-Lands address p =
      attempt-Lands _ _ _ p (λ a h. go-Lands _ _ _ _ (land _ _ _ refl))

  pub init_elastic_search_sink-Lands :
      (c : ElasticSinkConfig) (p : Progress Runnable)
      → Lands (AddsOne p) (init_elastic_search_sink x c p)
  unfolding init_elastic_search_sink
  init_elastic_search_sink-Lands c p =
      elim (Bool-cases (not (c.insertion_mode == "insert") && not (c.insertion_mode == "upsert"))) [
        | inl e ↦ rw e (failed-Lands _ _ p)
        | inr e ↦ rw e (attempt-Lands _ _ _ p (λ a h. go-Lands _ _ _ _ (land _ _ _ refl)))
      ]

  pub with_file_system-Adds :
      (c : Option FileSystemSinkConfig) (p : Progress Runnable)
      → Lands (Adds p) (with_file_system x c p)
  unfolding with_file_system
  with_file_system-Adds none p = land _ _ _ (nothing-Adds p)
  with_file_system-Adds (some c) p =
      continue-Lands _ _ _ _ (init_file_system_sink-Lands c.file_name p)
        (λ s q h. go-Lands _ _ _ _ (land _ _ _ (AddsOne-Adds p q s h)))

  pub with_k8s_events-Adds :
      (c : Option K8sEventsSinkConfig) (p : Progress Runnable)
      → Lands (Adds p) (with_k8s_events x c p)
  unfolding with_k8s_events
  with_k8s_events-Adds none p = land _ _ _ (nothing-Adds p)
  with_k8s_events-Adds (some c) p = elim (Bool-cases (not c.enabled)) [
    | inl e ↦ rw e (land _ _ _ (nothing-Adds p))
    | inr e ↦ rw e (
        continue-Lands _ _ _ _ (init_k8s_event_sink-Lands p)
          (λ s q h. go-Lands _ _ _ _ (land _ _ _ (AddsOne-Adds p q s h))))
  ]

  pub with_flux_notification-Adds :
      (c : Option FluxNotificationSinkConfig) (p : Progress Runnable)
      → Lands (Adds p) (with_flux_notification x c p)
  unfolding with_flux_notification
  with_flux_notification-Adds none p = land _ _ _ (nothing-Adds p)
  with_flux_notification-Adds (some c) p =
      continue-Lands _ _ _ _ (init_flux_notification_sink-Lands c.address p)
        (λ s q h. go-Lands _ _ _ _ (land _ _ _ (AddsOne-Adds p q s h)))

  pub with_elastic-Adds :
      (c : Option ElasticSinkConfig) (p : Progress Runnable) → Lands (Adds p) (with_elastic x c p)
  unfolding with_elastic
  with_elastic-Adds none p = land _ _ _ (nothing-Adds p)
  with_elastic-Adds (some c) p =
      continue-Lands _ _ _ _ (init_elastic_search_sink-Lands c p)
        (λ s q h. land _ _ _ (AddsOne-Adds p q s h))

  pub init_sinks-Adds :
      (b : Bool) (c : SinksConfig) (p : Progress Runnable) → Lands (Adds p) (init_sinks x b c p)
  unfolding init_sinks
  init_sinks-Adds false c p = land _ _ _ (nothing-Adds p)
  init_sinks-Adds true c p =
      continue-Lands _ _ _ _ (with_file_system-Adds c.filesystem_sink p) (λ xs q f.
        continue-Lands _ _ _ _ (with_k8s_events-Adds c.k8s_events_sink q) (λ ys r g.
          continue-Lands _ _ _ _ (with_flux_notification-Adds c.flux_notification_sink r) (λ zs s h.
            continue-Lands _ _ _ _ (with_elastic-Adds c.elastic_sink s) (λ ws t i. land _ _ _ (
              Adds-append p s t (xs ++ ys ++ zs) ws
                (Adds-append p r s (xs ++ ys) zs (Adds-append p q r xs ys f g) h) i)))))
