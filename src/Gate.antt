-- ===== src/Gate.antt =====
-- src/audit-guard/src/security-gate.ts: the build gate over the scanner's JSON reports.
-- `JSON.parse` and `toUpperCase` are parameters. A threshold that is not a finite number is `none`.
-- Reports whose entries are no objects with a text severity are left out, as are negative thresholds,
-- snippets, descriptions and the summary texts.
pub mod Verdict
mod Tests
use vero_audit_guard.Base.{
  ℕ, ◌+◌, Bool, true, false, not, ◌&&◌, ◌||◌, Option, none, some, List, [], ◌∷◌, String, ltb, ◌==◌,
  if◌then◌else◌, length, keep, str_eq, trim,
}
use vero_audit_guard.Base.Json.{code_points}

pub record ScannerFinding : Type 0 where
  pub file : String
  pub line : ℕ
  pub rule : String
  pub severity : String

-- `none` is a property that is missing, or for `findings` no array.
pub record ScannerReport : Type 0 where
  pub target : Option String
  pub findings : Option (List ScannerFinding)
  pub governance_findings : Option (List ScannerFinding)

pub data Parsed : Type 0 where
  not_json null_value : Parsed
  report : ScannerReport → Parsed

pub data GateError : Type 0 where
  invalid_json invalid_report : GateError

pub record SecurityGateResult : Type 0 where
  pub passed : Bool
  pub threshold : Option ℕ
  pub total_findings : ℕ
  pub blocking_findings : List ScannerFinding
  pub blocking_governance_findings : List ScannerFinding
  pub error : Option GateError

-- `SEVERITY_RANK`
pub rank_of : String → Option ℕ
rank_of s =
    if str_eq s "INFO"
    then some 0
    else if str_eq s "LOW"
    then some 1
    else if str_eq s "MEDIUM"
    then some 2
    else if str_eq s "HIGH"
    then some 3
    else if str_eq s "CRITICAL"
    then some 4
    else none

abbrev or_empty : Option (List ScannerFinding) → List ScannerFinding
or_empty none = []
or_empty (some xs) = xs

same : List ℕ → List ℕ → Bool
same [] [] = true
same (c ∷ cs) (d ∷ ds) = c == d && same cs ds
same _ _ = false

-- A target that names what was analysed: not blank, and not the sentinel of a skipped scan.
pub is_target : Option String → Bool
unfolding same
is_target none = false
is_target (some s) =
    let t = trim (code_points s) in not (same t []) && not (same t (code_points "N/A"))

module _ (upper : String → String) where
  pub severity_rank : String → Option ℕ
  severity_rank s = rank_of (upper s)

  pub is_blocking_severity : String → Option ℕ → Bool
  is_blocking_severity s none = true
  is_blocking_severity s (some threshold) = elim (severity_rank s) [
    | none ↦ true
    | some r ↦ ltb threshold r
  ]

  pub blocking : Option ℕ → List ScannerFinding → List ScannerFinding
  blocking threshold = keep (λ f. is_blocking_severity f.severity threshold)

  pub evaluate_security_gate : ScannerReport → Option ℕ → SecurityGateResult
  evaluate_security_gate r threshold =
      let findings = or_empty r.findings in
      let governance = or_empty r.governance_findings in
      let blocked = blocking threshold findings in
      let blocked_governance = blocking threshold governance in
      record {
        passed = not (ltb 0 (length blocked + length blocked_governance));
        threshold = threshold;
        total_findings = length findings + length governance;
        blocking_findings = blocked;
        blocking_governance_findings = blocked_governance;
        error = none;
      }

abbrev refused : Option ℕ → GateError → SecurityGateResult
refused threshold x = record {
  passed = false;
  threshold = threshold;
  total_findings = 0;
  blocking_findings = [];
  blocking_governance_findings = [];
  error = some x;
}

-- `none` is an exception: the property access on a parsed `null`.
pub evaluate_parsed : (String → String) → Parsed → Option ℕ → Option SecurityGateResult
evaluate_parsed upper not_json threshold = some (refused threshold invalid_json)
evaluate_parsed upper null_value threshold = none
evaluate_parsed upper (report r) threshold = elim r.findings [
  | none ↦ some (refused threshold invalid_report)
  | some fs ↦
      if is_target r.target
      then some (evaluate_security_gate upper r threshold)
      else some (refused threshold invalid_report)
]

pub evaluate_security_gate_from_json :
    (String → Parsed) → (String → String) → String → Option ℕ → Option SecurityGateResult
evaluate_security_gate_from_json parse upper json threshold =
    evaluate_parsed upper (parse json) threshold
