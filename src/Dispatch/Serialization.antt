-- ===== src/Dispatch/Serialization.antt =====
-- `verify_recorded_content` of app/runtime/dispatch_decision/serialization.py.
pub mod Build
use edgeiq.Base.{String, Result, ◌>>◌, guard, ◌==◌, text_eq}
use edgeiq.Platform.{Bytes, Interpreter, namespaced_digest}
use edgeiq.Dispatch.Domain.{DispatchDecision, DispatchDecisionError, digest_mismatch}

abbrev pub input_digest_namespace : String
input_digest_namespace = "edgeiq.dispatch-decision-input.v1"

abbrev pub decision_digest_namespace : String
decision_digest_namespace = "edgeiq.dispatch-decision.v1"

module _ ⦃p : Interpreter⦄ where
  unfoldable pub verify_recorded_content :
      DispatchDecision → Bytes → Bytes → Result DispatchDecisionError (Unit {0})
  verify_recorded_content decision input_content decision_content = do
    guard
        (namespaced_digest input_digest_namespace input_content == decision.canonical_input_digest)
        digest_mismatch
    guard
        (namespaced_digest decision_digest_namespace decision_content
          == decision.canonical_decision_digest)
        digest_mismatch
