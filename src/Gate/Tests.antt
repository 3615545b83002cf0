-- ===== src/Gate/Tests.antt =====
-- Runs of the build gate, and an instance of its theorem.
use vero_audit_guard.Base.{◌≡◌, refl, ◌↔◌, true, false, none, some, [], ◌∷◌, String, trim, length}
use vero_audit_guard.Gate.Verdict.{Passes, Clean, evaluate_security_gate_from_json_iff}
use vero_audit_guard.Gate.{
  ScannerFinding, ScannerReport, Parsed, report, null_value, is_target, evaluate_security_gate,
  evaluate_security_gate_from_json, evaluate_parsed, blocking, is_blocking_severity, severity_rank,
  rank_of,
}

abbrev upper : String → String
upper s = s

abbrev finding : String → ScannerFinding
finding severity = record { file = "lib.rs"; line = 3; rule = "R"; severity = severity }

abbrev scan : ScannerReport
scan = record {
  target = some " org/repo ";
  findings = some (finding "HIGH" ∷ []);
  governance_findings = some (finding "LOW" ∷ []);
}

abbrev parse : String → Parsed
parse s = report scan

abbrev parse_null : String → Parsed
parse_null s = null_value

gate : Unit {0}
unfolding evaluate_security_gate_from_json evaluate_parsed evaluate_security_gate blocking
    is_blocking_severity severity_rank rank_of is_target trim
gate = tt

gate_tests :
    (is_target (some " N/A ") ≡ false)
    × (is_target (some "   ") ≡ false)
    × (length (evaluate_security_gate upper scan (some 2)).blocking_findings ≡ 1)
    × ((evaluate_security_gate upper scan (some 2)).passed ≡ false)
    × ((evaluate_security_gate upper scan (some 3)).passed ≡ true)
    × ((evaluate_security_gate upper scan none).passed ≡ false)
unfolding gate
gate_tests = (refl, refl, refl, refl, refl, refl)

-- The text "null" is valid JSON: the access to its findings throws.
null_test : evaluate_security_gate_from_json parse_null upper "null" (some 3) ≡ none
unfolding gate
null_test = refl

evaluate_security_gate_from_json_iff_example :
    Passes upper (evaluate_security_gate_from_json parse upper "{…}" (some 3))
    ↔ Clean upper 3 (report scan)
evaluate_security_gate_from_json_iff_example =
    evaluate_security_gate_from_json_iff upper parse "{…}" 3
