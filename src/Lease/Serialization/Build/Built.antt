-- ===== src/Lease/Serialization/Build/Built.antt =====
-- A built event: its contents verify, and building it again at its recorded time gives it again.
use edgeiq.Base.{◌≡◌, refl, ap, ◌∙◌, Result, ok, err, arith, ◌>>=◌, text_eq}
use edgeiq.Platform.{
  Bytes, DateTime, Interpreter, InterpreterLaws, nfc-namespaced_digest, namespaced_digest,
  sha256_hex, utc_time,
}
use edgeiq.Lease.Domain.{ExecutionLeaseError, ExecutionLeaseEvent, execution_lease_event}
use edgeiq.Lease.Serialization.{
  input_digest_namespace, event_digest_namespace, verify_recorded_content,
}
use edgeiq.Lease.Serialization.Build.{
  EventInput, event_arguments, construct, build_execution_lease_event,
}

module _ ⦃p : Interpreter⦄ (e : ExecutionLeaseEvent) {e' : ExecutionLeaseEvent}
    (made : execution_lease_event e ≡ ok e') where
  made_digests :
      (e'.canonical_input_digest ≡ p.nfc e.canonical_input_digest)
      × (e'.canonical_event_digest ≡ p.nfc e.canonical_event_digest)
  unfolding execution_lease_event sha256_hex
  made_digests = ground arith

  made_plain :
      (e'.event_type ≡ e.event_type)
      × (e'.generation ≡ e.generation)
      × (e'.lineage_version ≡ e.lineage_version)
  unfolding execution_lease_event
  made_plain = ground arith

  made_again : execution_lease_event (record e { recorded_at = e'.recorded_at }) ≡ ok e'
  unfolding execution_lease_event utc_time
  made_again = ground arith

module _ ⦃p : Interpreter⦄ (i : EventInput) where
  record Arguments (e : ExecutionLeaseEvent) (input content : Bytes) : Type 0 where
    pub event_type : e.event_type ≡ i.event_type
    pub generation : e.generation ≡ i.generation
    pub version_kept : e.lineage_version ≡ i.lineage_version
    pub input_digest : e.canonical_input_digest ≡ namespaced_digest input_digest_namespace input
    pub event_digest : e.canonical_event_digest ≡ namespaced_digest event_digest_namespace content

  module _ (now : DateTime) {e : ExecutionLeaseEvent} {input content : Bytes}
      (made : event_arguments i now ≡ ok (e, input, content)) where
    arguments : Arguments e input content
    unfolding event_arguments
    arguments = ground arith

    arguments_at :
        (at : DateTime) → event_arguments i at ≡ ok (record e { recorded_at = at }, input, content)
    unfolding event_arguments
    arguments_at at = ground arith

constructed :
    ⦃p : Interpreter⦄
    → (e : ExecutionLeaseEvent) (input content : Bytes)
    → (m : Result ExecutionLeaseError (ExecutionLeaseEvent × Bytes × Bytes))
    → (m >>= construct) ≡ ok (e, input, content)
    → (a : ExecutionLeaseEvent) × (m ≡ ok (a, input, content)) × (execution_lease_event a ≡ ok e)
constructed e input content (ok (a, i, c)) h = (a, ground arith, ground arith)
constructed e input content (err x) h = cc

verified_of_digests :
    ⦃p : Interpreter⦄
    → (e : ExecutionLeaseEvent) (input content : Bytes)
    → e.canonical_input_digest ≡ namespaced_digest input_digest_namespace input
    → e.canonical_event_digest ≡ namespaced_digest event_digest_namespace content
    → verify_recorded_content e input content ≡ ok tt
unfolding verify_recorded_content
verified_of_digests e input content h k = ground arith

module _ ⦃p : Interpreter⦄ (i : EventInput) (event : ExecutionLeaseEvent)
    (input content : Bytes) where
  pub record Built : Type 0 where
    pub event_type : event.event_type ≡ i.event_type
    pub generation : event.generation ≡ i.generation
    pub version_kept : event.lineage_version ≡ i.lineage_version
    pub verified : verify_recorded_content event input content ≡ ok tt
    pub again : build_execution_lease_event i event.recorded_at ≡ ok (event, input, content)

  -- An event that `build_execution_lease_event` returned has the given type, generation and version, its
  -- digests verify against both contents, and building it at its recorded time gives it again.
  pub lease_event-Built :
      InterpreterLaws p
      → (now : DateTime) → build_execution_lease_event i now ≡ ok (event, input, content)
      → Built
  unfolding build_execution_lease_event
  lease_event-Built laws now made =
      let (a, m, c) = constructed event input content _ made in
      let args = arguments i now m in
      let plain = made_plain a c in
      let digests = made_digests a c in
      record {
        event_type = plain.0 ∙ args.event_type;
        generation = plain.1 ∙ args.generation;
        version_kept = plain.2 ∙ args.version_kept;
        verified =
            verified_of_digests event input content
              (digests.0
                ∙ ap p.nfc args.input_digest
                ∙ nfc-namespaced_digest laws input_digest_namespace input)
              (digests.1
                ∙ ap p.nfc args.event_digest
                ∙ nfc-namespaced_digest laws event_digest_namespace content);
        again = rw (arguments_at i now m event.recorded_at, made_again a c) refl;
      }
