-- ===== src/Tests/Sending.antt =====
-- Runs of the sinks, and of the conversion of results to events.
use policy_agent.Prelude.{
  ◌≤◌, String, Bool, true, err, if◌then◌else◌, List, [], ◌∷◌, ◌++◌, none, Result, ok, ◌≡◌, refl,
  inl, arith, length, ◌+◌, lookup,
}
use policy_agent.Domain.{PolicyValidation, policy_object_ref}
use policy_agent.Domain.Event.{
  Event, Codec, new_k8s_event, event_of, annotations_of, new_policy_validation,
}
use policy_agent.Domain.Event.RoundTrip.{IsFaithful, restored, entity_at}
use policy_agent.PolicyConfigs.{flux_controller_kind_map, get_flux_object}
use policy_agent.Sinks.Buffer.{
  result_chan_size, Buffer, empty, stop, write, start, take_result, halt, leave, Reach, here, more,
  emitted,
}
use policy_agent.Sinks.Buffer.Delivery.{Reach-Delivers}
use policy_agent.Sinks.Buffer.Runs.{Reach-Accounted}
use policy_agent.Sinks.Buffer.Stopping.{Reach-Loses}
use policy_agent.Sinks.FileSystem.{file_worker, write_validation_result, FileSystemSink}
use policy_agent.Sinks.KubernetesEvents.{
  K8sEventSink, event_to_send, event_worker, subject_of, new_policy_validation-event_to_send,
}
use policy_agent.Tests.{deny, pod, occurrence, violation_by}

abbrev result : PolicyValidation
result = record (violation_by deny) {
  entity = record pod {
    labels =
        ("helm.toolkit.fluxcd.io/name", "shop") ∷ ("helm.toolkit.fluxcd.io/namespace", "flux") ∷ [];
  };
}

-- JSON of the parts of that result.
abbrev pub codec : Codec
codec = record {
  marshal_standards = λ s. ok "[]";
  marshal_manifest = λ m. ok "{}";
  marshal_occurrences = λ o. ok "[{}]";
  marshal_parameters = λ p. ok "null";
  unmarshal_standards = λ t. ok [];
  unmarshal_manifest = λ t. ok [];
  unmarshal_occurrences = λ t. ok (occurrence ∷ []);
  unmarshal_parameters = λ t. ok [];
}

codec-IsFaithful : IsFaithful codec result
codec-IsFaithful = record {
  standards = λ t h. refl;
  manifest = λ t h. refl;
  occurrences = λ t h. refl;
  parameters = λ t h. refl;
}

abbrev event : Event
event = event_of result 48879 (annotations_of result "[]" "{}" "[{}]" "null")

abbrev pub event_sink : K8sEventSink
event_sink = record {
  reporting_controller = "policy-agent";
  reporting_instance = "node";
  create = λ cancelled e. true;
  codec = codec;
  now = λ r. 48879;
  flux_kinds = flux_controller_kind_map;
}

abbrev sent_event : Event
sent_event = record event {
  involved_object = subject_of event_sink result;
  namespace = "flux";
  reporting_controller = "policy-agent";
  reporting_instance = "node";
  source = "policy-agent";
}

new_policy_validation-event_to_send_example :
    (sent_event.involved_object ≡ subject_of event_sink result)
    × (new_policy_validation codec sent_event
        ≡ ok (record (restored 48879 result) {
          entity = entity_at (subject_of event_sink result) result.entity.manifest;
        }))
    × (policy_object_ref (restored 48879 result).policy ≡ none)
unfolding event_to_send new_k8s_event get_flux_object lookup event_of
new_policy_validation-event_to_send_example =
    new_policy_validation-event_to_send event_sink result sent_event codec-IsFaithful (inl refl)
      (λ e. ground arith) ((refl, (refl, (refl, (refl, tt)))), tt) refl

-- A file sink with one result in its channel, after the worker has taken it, and stopped.
abbrev encode : PolicyValidation → Result String
encode r = ok r.message

abbrev waiting : Buffer String
waiting = record empty { queue = result ∷ []; accepted = result ∷ []; started = true }

abbrev written : Buffer String
written = record waiting { queue = []; sent = "" ∷ [] }

filling : Reach (file_worker encode) empty waiting
filling = more (write result (omega arith) refl) (more (start refl refl) here)

abbrev taking : Reach (file_worker encode) waiting written
unfolding file_worker write_validation_result
taking = more (take_result result [] refl refl refl refl) here

Reach-Accounted_example :
    (taken : List PolicyValidation) × (waiting.accepted ≡ taken ++ waiting.queue)
    × (waiting.sent ≡ emitted (file_worker encode) taken)
    × (length waiting.queue ≤ result_chan_size)
Reach-Accounted_example = Reach-Accounted (file_worker encode) waiting filling refl

Reach-Delivers_example :
    ((later : List String) × (written.sent
        ≡ emitted (file_worker encode) waiting.accepted ++ later))
    × ((u : Buffer String) × Reach (file_worker encode) written u
        × (u.queue ≡ [])
        × (u.sent ≡ emitted (file_worker encode) written.accepted))
unfolding taking
Reach-Delivers_example =
    Reach-Delivers (file_worker encode) waiting written filling taking refl refl (omega arith)

-- A file sink that is stopped with a result in its channel, which is taken once the file is closed.
abbrev encode_file : Bool → PolicyValidation → Result String
encode_file closed r = if closed then err "file already closed" else ok r.message

abbrev closed_file : FileSystemSink
closed_file = record { buffer = record waiting { stopped = true }; closed = true }

abbrev drained_file : FileSystemSink
drained_file = record closed_file { buffer = record closed_file.buffer { queue = [] } }

-- An event sink that has returned with a result in its channel.
abbrev left : Buffer Event
left = record empty {
  queue = result ∷ [];
  accepted = result ∷ [];
  started = true;
  stopped = true;
  exited = true;
}

Reach-Loses_example :
    (left.sent ≡ left.sent)
    × (late : List PolicyValidation) × (left.queue ≡ left.queue ++ late)
    × (left.accepted ≡ left.accepted ++ late)
    × (length left.queue + length late ≤ result_chan_size)
unfolding stop event_worker
Reach-Loses_example =
    Reach-Loses (event_worker event_sink) left left
      (more (leave refl refl refl)
        (more (halt refl) (more (write result (omega arith) refl) (more (start refl refl) here))))
      refl here
