-- ===== src/Sinks/KubernetesEvents.antt =====
-- internal/sink/k8s-event/k8s_event.go: results as Kubernetes events.
use policy_agent.Prelude.{
  ℕ, String, Bool, true, List, [], ◌∷◌, Option, none, some, Result, ok, err, Map, ◌≡◌, refl,
  if◌then◌else◌, Lacks, All, ◌≢◌, ◌⊎◌, inl, inr, split_char-join_iff, sym, arith, Result-cases,
  Option-cases,
}
use policy_agent.Domain.{
  ObjectReference, policy_object_ref, entity_object_ref, PolicyValidation, status_violating,
  status_compliant,
}
use policy_agent.Domain.Event.{Event, Codec, new_k8s_event, new_policy_validation, event_of}
use policy_agent.Domain.Event.RoundTrip.{
  IsFaithful, restored, entity_at, new_policy_validation-event_of, new_k8s_event-ok,
}
use policy_agent.PolicyConfigs.{FluxObject, get_flux_object}
use policy_agent.Sinks.Buffer.{Worker}

-- `K8sEventSink` with what it calls: the client, which is told whether the context has ended and
-- says whether the event has been created; JSON; the clock, read once for each result.
pub record K8sEventSink : Type 0 where
  pub reporting_controller : String
  pub reporting_instance : String
  pub create : Bool → Event → Bool
  pub codec : Codec
  pub now : PolicyValidation → ℕ
  pub flux_kinds : Map String

-- `NewK8sEventSink`; `hostname` is the operating system's.
unfoldable pub new_k8s_event_sink :
    Result String
    → (Bool → Event → Bool)
    → Codec
    → (PolicyValidation → ℕ)
    → Map String
    → String
    → Result K8sEventSink
new_k8s_event_sink (err e) create codec now flux_kinds controller = err e
new_k8s_event_sink (ok host) create codec now flux_kinds controller = ok (record {
  reporting_controller = controller;
  reporting_instance = host;
  create = create;
  codec = codec;
  now = now;
  flux_kinds = flux_kinds;
})

-- The reference to the Flux object, which has neither a UID nor a version; the policy's id is the
-- field path.
abbrev pub flux_reference : FluxObject → String → ObjectReference
flux_reference o policy_id = record {
  api_version = o.api_version;
  kind = o.kind;
  uid = "";
  name = o.name;
  namespace = o.namespace;
  resource_version = "";
  field_path = policy_id;
}

abbrev pub involve : Option FluxObject → String → Event → Event
involve none policy_id event = event
involve (some o) policy_id event = record event {
  involved_object = flux_reference o policy_id;
  namespace = o.namespace;
}

-- The event that `write` sends.
unfoldable pub event_to_send : K8sEventSink → PolicyValidation → Result Event
event_to_send k r = elim (new_k8s_event k.codec (k.now r) r) [
  | err e ↦ err e
  | ok event ↦
      ok (record (involve (get_flux_object k.flux_kinds r.entity.labels) r.policy.id event) {
        reporting_controller = k.reporting_controller;
        reporting_instance = k.reporting_instance;
        source = k.reporting_controller;
      })
]

-- `write`: the events that the cluster has after it, which are none where an error is logged.
unfoldable pub write_event : K8sEventSink → Bool → PolicyValidation → List Event
unfolding event_to_send
write_event k cancelled r = elim (event_to_send k r) [
  | err e ↦ []
  | ok event ↦ if k.create cancelled event then event ∷ [] else []
]

-- `writeWorker`.
unfoldable pub event_worker : K8sEventSink → Worker Event
event_worker k = record { watches = true; emit = write_event k }

-- The object that the event for a result is about: the Flux application of the entity, if it has
-- one, and otherwise the entity.
abbrev pub subject : Option FluxObject → PolicyValidation → ObjectReference
subject none r = entity_object_ref r.entity
subject (some o) r = flux_reference o r.policy.id

abbrev pub subject_of : K8sEventSink → PolicyValidation → ObjectReference
subject_of k r = subject (get_flux_object k.flux_kinds r.entity.labels) r

event_to_send-ok :
    (k : K8sEventSink) (r : PolicyValidation) (e : Event)
    → event_to_send k r ≡ ok e
    → (made : Event) × (new_k8s_event k.codec (k.now r) r ≡ ok made)
      × (record (involve (get_flux_object k.flux_kinds r.entity.labels) r.policy.id made) {
        reporting_controller = k.reporting_controller;
        reporting_instance = k.reporting_instance;
        source = k.reporting_controller;
      }
          ≡ e)
unfolding event_to_send
event_to_send-ok k r e h = elim (Result-cases (new_k8s_event k.codec (k.now r) r)) [
  | inr (x, bad) ↦ absurd (ground arith)
  | inl (made, good) ↦ (made, good, ground arith)
]

-- A result whose status is one of the two, and which has tags, none with a comma, is read back from
-- the event that the sink sends for it, if JSON gives back what it writes: as `restored` says, but
-- with the Flux application in place of the entity where the entity belongs to one. The reference to the policy comes back as a pointer,
-- so the restored policy has no object reference for another event.
pub new_policy_validation-event_to_send :
    (k : K8sEventSink) (r : PolicyValidation) (e : Event)
    → IsFaithful k.codec r
    → (r.status ≡ status_violating) ⊎ (r.status ≡ status_compliant)
    → r.policy.tags ≢ []
    → All (λ t. Lacks b',' t) r.policy.tags
    → event_to_send k r ≡ ok e
    → (e.involved_object ≡ subject_of k r)
      × (new_policy_validation k.codec e
          ≡ ok (record (restored (k.now r) r) {
            entity = entity_at (subject_of k r) r.entity.manifest;
          }))
      × (policy_object_ref (restored (k.now r) r).policy ≡ none)
unfolding event_of policy_object_ref
new_policy_validation-event_to_send k r e faithful known some_tag no_comma h =
    let (made, good, same) = event_to_send-ok k r e h in
    let (s, m, o, p, hs, hm, ho, hp, f) = new_k8s_event-ok k.codec (k.now r) r made good in
    let kept = (split_char-join_iff r.policy.tags).1 (some_tag, no_comma) in
    let read = λ (ref : ObjectReference) (namespace : String).
      new_policy_validation-event_of k.codec r (k.now r) s m o p kept known ref namespace
        k.reporting_controller k.reporting_instance k.reporting_controller (faithful.standards s hs)
        (faithful.manifest m hm) (faithful.occurrences o ho) (faithful.parameters p hp) in
    rw (sym same, sym f)
      (elim (Option-cases (get_flux_object k.flux_kinds r.entity.labels)) [
        | inl a ↦ rw a (refl, read _ _, refl)
        | inr (o, a) ↦ rw a (refl, read _ _, refl)
      ])
