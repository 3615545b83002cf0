-- ===== src/Engine.antt =====
-- src/audit-guard/src/policy-engine.ts: the evaluation of a pull request. It drives the protocol's
-- state machine, evaluates by OPA or by the fallback rules of Engine/Rules, and applies the verifier of
-- the policy bundle. OPA's answer (`none` if it fails), the findings of the overflow checker and the
-- clock's readings are parameters, beside those of the parts, and so is what overlapping evaluations do
-- to the machine. The scan id is a parameter too: its text is made of the request's number and the
-- time. Security tips, the markdown report and the calls of the dashboard are left out.
pub mod Rules
pub mod Verdict
pub mod Lifecycle
mod Tests
use vero_audit_guard.Base.{
  ℕ, Bool, if◌then◌else◌, String, List, length, Option, [], ◌++◌, ◌∷◌, some, map, none, not,
}
use vero_audit_guard.Protocol as Machines
use vero_audit_guard.Protocol.Alert.{try_apply}
use vero_audit_guard.Bundle as Bundles
use vero_audit_guard.Bundle.Manifest.{
  PolicyBundleErrorCode, bundle_dir_not_found, empty_bundle, manifest_missing, manifest_malformed,
  signature_missing, signature_malformed, no_trusted_signers, untrusted_signer, signature_invalid,
  bundle_tampered,
}
use vero_audit_guard.Engine.Rules.{
  Severity, low, medium, high, critical, PolicyViolation, Status, compliant, non_compliant, warning,
  EvaluationResult, PrData, SignedFields, violation, verify_relayer_signature, rule_violations,
  all_warnings, high_of, result_of,
}

-- What OPA's bindings hold; a missing array is empty.
pub record OpaOutput : Type 0 where
  pub deny : Option (List PolicyViolation)
  pub warning : Option (List PolicyViolation)
  pub status : Option Status

abbrev or_empty : Option (List PolicyViolation) → List PolicyViolation
or_empty none = []
or_empty (some vs) = vs

abbrev pub or_compliant : Option Status → Status
or_compliant none = compliant
or_compliant (some s) = s

unfoldable pub parse_opa_result : OpaOutput → EvaluationResult
parse_opa_result o = record {
  status = or_compliant o.status;
  violations = or_empty o.deny;
  warnings = or_empty o.warning;
  violations_count = length (or_empty o.deny);
  warnings_count = length (or_empty o.warning);
  high_severity_violations = high_of (or_empty o.deny);
}

-- The result of an evaluation that failed, for the rule that says how.
abbrev pub blocked : String → EvaluationResult
blocked rule = record {
  status = non_compliant;
  violations = violation rule critical ∷ [];
  warnings = [];
  violations_count = 1;
  warnings_count = 0;
  high_severity_violations = violation rule critical ∷ [];
}

abbrev code_name : PolicyBundleErrorCode → String
code_name bundle_dir_not_found = "POLICY_BUNDLE_DIR_NOT_FOUND"
code_name empty_bundle = "POLICY_BUNDLE_EMPTY"
code_name manifest_missing = "POLICY_BUNDLE_MANIFEST_MISSING"
code_name manifest_malformed = "POLICY_BUNDLE_MANIFEST_MALFORMED"
code_name signature_missing = "POLICY_BUNDLE_SIGNATURE_MISSING"
code_name signature_malformed = "POLICY_BUNDLE_SIGNATURE_MALFORMED"
code_name no_trusted_signers = "POLICY_BUNDLE_NO_TRUSTED_SIGNERS"
code_name untrusted_signer = "POLICY_BUNDLE_UNTRUSTED_SIGNER"
code_name signature_invalid = "POLICY_BUNDLE_SIGNATURE_INVALID"
code_name bundle_tampered = "POLICY_BUNDLE_TAMPERED"

abbrev warning_of : PolicyBundleErrorCode → PolicyViolation
warning_of x = violation (code_name x) (if Bundles.is_critical x then critical else high)

abbrev pub degraded : Status → Status
degraded compliant = warning
degraded s = s

-- The check of the bundle, with whether it is configured and what the verifier found.
unfoldable pub apply_policy_bundle_verification :
    Bool → Bundles.PolicyBundleVerificationResult → EvaluationResult → EvaluationResult
apply_policy_bundle_verification configured v r =
    let warnings = r.warnings ++ map warning_of v.errors in
    if not configured then r else if v.verified then r else record r {
      status = degraded r.status;
      warnings = warnings;
      warnings_count = length warnings;
    }

module _ (lower : String → String) (authorized : List String)
    (verifies : String → SignedFields → String → Option Bool) (opa_available : Bool)
    (opa : Option OpaOutput) (overflow : List PolicyViolation) (configured : Bool)
    (bundle : Bundles.PolicyBundleVerificationResult) where
  -- `none` where the fallback throws.
  abbrev pub fallback_result : PrData → Option (List PolicyViolation) → Option EvaluationResult
  fallback_result p none = none
  fallback_result p (some relayer) =
      some (result_of (relayer ++ rule_violations lower overflow p) (all_warnings lower p))

  unfoldable pub evaluate_without_opa : PrData → ℕ → Option EvaluationResult
  evaluate_without_opa p now =
      fallback_result p (verify_relayer_signature authorized verifies now p)

  abbrev pub from_opa : Option OpaOutput → EvaluationResult
  from_opa none = blocked "OPA_EVALUATION_FAILED"
  from_opa (some o) = parse_opa_result o

  abbrev pub or_pipeline_error : Option EvaluationResult → EvaluationResult
  or_pipeline_error none = blocked "EVALUATION_PIPELINE_ERROR"
  or_pipeline_error (some r) = apply_policy_bundle_verification configured bundle r

  -- The result of `evaluate`.
  unfoldable pub evaluation : PrData → ℕ → EvaluationResult
  evaluation p now =
      if opa_available
      then apply_policy_bundle_verification configured bundle (from_opa opa)
      else or_pipeline_error (evaluate_without_opa p now)

-- The clock's readings for one event: its timestamp, and the machine's own.
pub record Reading : Type 0 where
  pub stamp : ℕ
  pub now : ℕ

abbrev pub applied :
    (stringify : Machines.ProtocolEvent → List ℕ) (o : Machines.Options)
    → Machines.Machine
    → Reading
    → Machines.ProtocolEvent
    → Machines.Machine
applied stringify o m r e = (try_apply stringify o r.now m e).0.machine

-- An evaluation meets the machine twice: before it awaits anything, and after all that it awaits.
-- What it does at once, other evaluations of the engine cannot come between; during its awaits they
-- can begin and finish.
pub data Step : Type 0 where
  begins : (scan_id target : String) → (started : Reading) → Step
  finishes : (scan_id : String) (finding_count : ℕ) (completed delivered restarted : Reading) → Step

-- The events, whose errors are only logged, have the clock's own times, which are dates.
module _ (stringify : Machines.ProtocolEvent → List ℕ) (o : Machines.Options) where
  unfoldable pub begin_evaluation :
      Machines.Machine → (scan_id target : String) → (started : Reading) → Machines.Machine
  begin_evaluation m scan_id target started =
      applied stringify o m started (Machines.scan_started scan_id target started.stamp)

  unfoldable pub finish_evaluation :
      Machines.Machine
      → (scan_id : String) (finding_count : ℕ) (completed delivered restarted : Reading)
      → Machines.Machine
  finish_evaluation m scan_id finding_count completed delivered restarted =
      let m2 =
        applied stringify o m completed
          (Machines.scan_completed scan_id finding_count completed.stamp) in
      let m3 =
        applied stringify o m2 delivered (Machines.report_delivered scan_id "" delivered.stamp) in
      applied stringify o m3 restarted (Machines.reset "PolicyEngine" restarted.stamp)

  unfoldable pub step : Machines.Machine → Step → Machines.Machine
  step m (begins scan_id target started) = begin_evaluation m scan_id target started
  step m (finishes scan_id n completed delivered restarted) =
      finish_evaluation m scan_id n completed delivered restarted

  unfoldable pub run : Machines.Machine → List Step → Machines.Machine
  run m [] = m
  run m (s ∷ ss) = run (step m s) ss

  -- `evaluate`: the machine after it, and the result. `meanwhile` is what other evaluations do to the
  -- machine during the awaits.
  unfoldable pub evaluate :
      (scan_id target : String) (started completed delivered restarted : Reading)
      (meanwhile : List Step)
      → Machines.Machine
      → EvaluationResult
      → Machines.Machine × EvaluationResult
  evaluate scan_id target started completed delivered restarted meanwhile m result =
      let scanning = begin_evaluation m scan_id target started in
      let resumed = run scanning meanwhile in
      (
        finish_evaluation resumed scan_id (length result.violations) completed delivered restarted,
        result,
      )

-- What `reportToDashboard` sends: every violation, and the warnings of high severity.
unfoldable pub dashboard_alerts : EvaluationResult → List PolicyViolation
dashboard_alerts r = r.violations ++ high_of r.warnings
