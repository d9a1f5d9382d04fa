-- ===== src/Domain/Event/RoundTrip.antt =====
-- What an event keeps of a result (pkg/policy-core/domain/policy_validation.go).
use policy_agent.Prelude.{
  ℕ, String, Bool, true, false, some, ok, Map, Result-cases, lookup, join_comma, split_char,
  if◌then◌else◌, ◌==◌, map, ◌≡◌, refl, ◌⊎◌, inl, inr, arith,
}
use policy_agent.Value.{Value, null}
use policy_agent.Domain.{
  ObjectReference, by_pointer, policy_object_ref, Entity, empty_entity, Occurrence,
  PolicyValidation, status_violating, status_compliant,
}
use policy_agent.Domain.Event.{
  Event, Codec, print_bool, parse_bool, annotations_of, kind_of_event, event_of, new_k8s_event,
  empty_policy, result_of, new_policy_validation,
}

-- An occurrence without the mark of `Mutate`.
abbrev pub unmarked : Occurrence → Occurrence
unmarked o = record o { mutated = false }

-- JSON gives back the four parts of a result that it writes; the mark of an occurrence is not
-- written.
pub record IsFaithful (codec : Codec) (r : PolicyValidation) : Type 0 where
  pub standards :
      (t : String)
      → codec.marshal_standards r.policy.standards ≡ ok t
      → codec.unmarshal_standards t ≡ ok r.policy.standards
  pub manifest :
      (t : String)
      → codec.marshal_manifest r.entity.manifest ≡ ok t
      → codec.unmarshal_manifest t ≡ ok r.entity.manifest
  pub occurrences :
      (t : String)
      → codec.marshal_occurrences r.occurrences ≡ ok t
      → codec.unmarshal_occurrences t ≡ ok (map unmarked r.occurrences)
  pub parameters :
      (t : String)
      → codec.marshal_parameters r.policy.parameters ≡ ok t
      → codec.unmarshal_parameters t ≡ ok r.policy.parameters

-- The result that an event made at a time stands for: of the policy it has no code, targets,
-- exclusions or flags, of the entity no labels, and its time is the event's.
abbrev pub restored : ℕ → PolicyValidation → PolicyValidation
restored now r = record r {
  created_at = now;
  metadata = null;
  enforced = r.policy.enforce;
  occurrences = map unmarked r.occurrences;
  policy = record empty_policy {
    id = r.policy.id;
    name = r.policy.name;
    category = r.policy.category;
    severity = r.policy.severity;
    description = r.policy.description;
    how_to_solve = r.policy.how_to_solve;
    reference = by_pointer (policy_object_ref r.policy);
    tags = r.policy.tags;
    standards = r.policy.standards;
    parameters = r.policy.parameters;
  };
  entity = record empty_entity {
    id = r.entity.id;
    name = r.entity.name;
    api_version = r.entity.api_version;
    kind = r.entity.kind;
    namespace = r.entity.namespace;
    resource_version = r.entity.resource_version;
    manifest = r.entity.manifest;
  };
}

parse-print : (b : Bool) → parse_bool (print_bool b) ≡ some b
unfolding parse_bool
parse-print true = refl
parse-print false = refl

status_kept :
    (status : String)
    → (status ≡ status_violating) ⊎ (status ≡ status_compliant)
    → (if (kind_of_event status).1 == "PolicyViolation" then status_violating else status_compliant)
      ≡ status
unfolding kind_of_event
status_kept status (inl e) = rw e refl
status_kept status (inr e) = rw e refl

-- What an event keeps of the object that it is about.
abbrev pub entity_at : ObjectReference → Map Value → Entity
entity_at ref manifest = record empty_entity {
  id = ref.uid;
  name = ref.name;
  api_version = ref.api_version;
  kind = ref.kind;
  namespace = ref.namespace;
  resource_version = ref.resource_version;
  manifest = manifest;
}

-- The event with the texts of its JSON parts, after a sender has filled in the rest of it.
module _ (codec : Codec) (r : PolicyValidation) (now : ℕ) (s m o p : String)
    (kept : split_char b',' (join_comma r.policy.tags) ≡ r.policy.tags)
    (known : (r.status ≡ status_violating) ⊎ (r.status ≡ status_compliant)) where
  pub new_policy_validation-event_of :
      (ref : ObjectReference) (namespace controller instance_name source : String)
      → codec.unmarshal_standards s ≡ ok r.policy.standards
      → codec.unmarshal_manifest m ≡ ok r.entity.manifest
      → codec.unmarshal_occurrences o ≡ ok (map unmarked r.occurrences)
      → codec.unmarshal_parameters p ≡ ok r.policy.parameters
      → new_policy_validation codec (record (event_of r now (annotations_of r s m o p)) {
        involved_object = ref;
        namespace = namespace;
        reporting_controller = controller;
        reporting_instance = instance_name;
        source = source;
      })
        ≡ ok (record (restored now r) { entity = entity_at ref r.entity.manifest })
  unfolding new_policy_validation result_of event_of annotations_of lookup
  new_policy_validation-event_of ref namespace controller instance_name source hs hm ho hp =
      rw (hs, hm, ho, hp, parse-print r.policy.enforce, kept, status_kept r.status known) refl

-- The four texts that a successful conversion writes.
pub new_k8s_event-ok :
    (codec : Codec) (now : ℕ) (r : PolicyValidation) (e : Event)
    → new_k8s_event codec now r ≡ ok e
    → (s m o p : String) × (codec.marshal_standards r.policy.standards ≡ ok s)
      × (codec.marshal_manifest r.entity.manifest ≡ ok m)
      × (codec.marshal_occurrences r.occurrences ≡ ok o)
      × (codec.marshal_parameters r.policy.parameters ≡ ok p)
      × (event_of r now (annotations_of r s m o p) ≡ e)
unfolding new_k8s_event
new_k8s_event-ok codec now r e h =
    elim (Result-cases (codec.marshal_standards r.policy.standards)) [
      | inr (x, bad) ↦ absurd (ground arith)
      | inl (s, hs) ↦ elim (Result-cases (codec.marshal_manifest r.entity.manifest)) [
        | inr (x, bad) ↦ absurd (ground arith)
        | inl (m, hm) ↦ elim (Result-cases (codec.marshal_occurrences r.occurrences)) [
          | inr (x, bad) ↦ absurd (ground arith)
          | inl (o, ho) ↦ elim (Result-cases (codec.marshal_parameters r.policy.parameters)) [
            | inr (x, bad) ↦ absurd (ground arith)
            | inl (p, hp) ↦ (s, m, o, p, hs, hm, ho, hp, ground arith)
          ]
        ]
      ]
    ]
