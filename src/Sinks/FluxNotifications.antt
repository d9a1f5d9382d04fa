-- ===== src/Sinks/FluxNotifications.antt =====
-- internal/sink/flux-notification/flux_notification.go: results as notifications about the Flux
-- application that an entity belongs to.
use policy_agent.Prelude.{ℕ, String, true, List, [], ◌∷◌, none, some, ok, err, Map}
use policy_agent.Domain.{PolicyValidation}
use policy_agent.Domain.Event.{Event, Codec, new_k8s_event}
use policy_agent.PolicyConfigs.{FluxObject, get_flux_object}
use policy_agent.Sinks.Buffer.{Worker}

-- The arguments of the recorder's `AnnotatedEventf`; the message is passed as its format.
pub record Notification : Type 0 where
  pub object : FluxObject
  pub annotations : Map String
  pub type : String
  pub reason : String
  pub format : String

-- What the sink calls: JSON, and the clock, read once for each result.
pub record FluxNotificationSink : Type 0 where
  pub codec : Codec
  pub now : PolicyValidation → ℕ
  pub flux_kinds : Map String

notification_of : FluxObject → Event → Notification
notification_of o event = record {
  object = o;
  annotations = event.annotations;
  type = event.type;
  reason = event.reason;
  format = event.message;
}

-- `write`: a result for an entity outside every application is discarded.
unfoldable pub write_notification : FluxNotificationSink → PolicyValidation → List Notification
unfolding notification_of
write_notification f r = elim (get_flux_object f.flux_kinds r.entity.labels) [
  | none ↦ []
  | some o ↦ elim (new_k8s_event f.codec (f.now r) r) [
    | err e ↦ []
    | ok event ↦ notification_of o event ∷ []
  ]
]

-- `writeWorker`; the recorder is not told of the context.
unfoldable pub notification_worker : FluxNotificationSink → Worker Notification
notification_worker f = record { watches = true; emit = λ cancelled. write_notification f }
