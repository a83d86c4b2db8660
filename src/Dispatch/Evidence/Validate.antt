-- ===== src/Dispatch/Evidence/Validate.antt =====
-- The validators and the four sources.
use edgeiq.Base.{String, ◌&&◌, Result, ◌>>=◌, ◌>>◌, guard, ◌==◌, text_eq}
use edgeiq.Platform.{Interpreter, SourceKind}
use edgeiq.Dispatch.Domain.{DispatchDecisionError, digest_mismatch, version_unsupported}
use edgeiq.Dispatch.Evidence.Types.{
  RetainedPlanEvidence, RetainedReadinessEvidence, RetainedSelectionEvidence, RetainedLeaseEvidence,
  plan_eq, readiness_eq, selection_eq, lease_eq,
}
use edgeiq.Dispatch.Evidence.Build.{
  build_plan_evidence, build_readiness_evidence, build_selection_evidence, build_lease_evidence,
}

abbrev pub supported_plan_evidence_schema : String
supported_plan_evidence_schema = "execution-plan.v1"

abbrev pub supported_planning_rule : String
supported_planning_rule = "execution-plan.rule.v1"

abbrev pub supported_selection_evidence_schema : String
supported_selection_evidence_schema = "worker-selection.v1"

abbrev pub supported_selection_policy : String
supported_selection_policy = "worker-selection.scoring.v1"

abbrev pub supported_readiness_evidence_schema : String
supported_readiness_evidence_schema = "worker-readiness.v1"

abbrev pub supported_lease_evidence_schema : String
supported_lease_evidence_schema = "execution-lease.v1"

abbrev pub supported_lease_policy : String
supported_lease_policy = "execution-lease.policy.v1"

module _ ⦃p : Interpreter⦄ where
  unfoldable pub validate_plan : RetainedPlanEvidence → Result DispatchDecisionError (Unit {0})
  validate_plan value = do
    rebuilt ← build_plan_evidence value
    guard
        (value.schema_version == supported_plan_evidence_schema
          && value.planning_rule_version == supported_planning_rule)
        version_unsupported
    guard (value == rebuilt) digest_mismatch

  unfoldable pub validate_readiness :
      RetainedReadinessEvidence → Result DispatchDecisionError (Unit {0})
  validate_readiness value = do
    rebuilt ← build_readiness_evidence value
    guard (value.schema_version == supported_readiness_evidence_schema) version_unsupported
    guard (value == rebuilt) digest_mismatch

  unfoldable pub validate_selection :
      RetainedSelectionEvidence → Result DispatchDecisionError (Unit {0})
  validate_selection value = do
    rebuilt ← build_selection_evidence value
    guard
        (value.schema_version == supported_selection_evidence_schema
          && value.selection_policy_version == supported_selection_policy)
        version_unsupported
    guard (value == rebuilt) digest_mismatch

  unfoldable pub validate_lease : RetainedLeaseEvidence → Result DispatchDecisionError (Unit {0})
  validate_lease value = do
    rebuilt ← build_lease_evidence value
    guard
        (value.schema_version == supported_lease_evidence_schema
          && value.lease_policy_version == supported_lease_policy)
        version_unsupported
    guard (value == rebuilt) digest_mismatch

  abbrev pub plan_source : SourceKind DispatchDecisionError RetainedPlanEvidence
  plan_source = record {
    identity = λ value. value.plan_id;
    validator = validate_plan;
    organization = λ value. value.organization_id;
    workload = λ value. value.workload_context_id;
  }

  abbrev pub selection_source : SourceKind DispatchDecisionError RetainedSelectionEvidence
  selection_source = record {
    identity = λ value. value.selection_id;
    validator = validate_selection;
    organization = λ value. value.organization_id;
    workload = λ value. value.workload_context_id;
  }

  abbrev pub readiness_source : SourceKind DispatchDecisionError RetainedReadinessEvidence
  readiness_source = record {
    identity = λ value. value.readiness_id;
    validator = validate_readiness;
    organization = λ value. value.organization_id;
    workload = λ value. value.workload_context_id;
  }

  abbrev pub lease_source : SourceKind DispatchDecisionError RetainedLeaseEvidence
  lease_source = record {
    identity = λ value. value.lease_id;
    validator = validate_lease;
    organization = λ value. value.organization_id;
    workload = λ value. value.workload_context_id;
  }
