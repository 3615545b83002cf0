-- ===== src/Diff/Tests.antt =====
-- Tests of the comparison of scan reports.
use vero_audit_guard.Base.{
  ℕ, zero, suc, String, List, none, some, true, false, ◌∷◌, [], ◌≡◌, refl, ◌↔◌, length,
}
use vero_audit_guard.Base.Dict.{insert, lookup, has}
use vero_audit_guard.Diff.{
  DiffFinding, ScanReport, DiffReport, compare, create_findings_map, create_findings_key,
  sort_current, find_removed, place, is_modified,
}
use vero_audit_guard.Diff.Drift.{details, latest, compare-drift_detected_iff}

abbrev numeral : ℕ → String
numeral zero = "0"
numeral (suc n) = "1"

abbrev finding : String → String → DiffFinding
finding file snippet = record {
  file = some file;
  line = some 1;
  rule = some "R";
  severity = none;
  snippet = some snippet;
}

abbrev report : List DiffFinding → ScanReport
report fs = record { findings = fs; report_hash = none }

abbrev older : ScanReport
older = report (finding "a" "x" ∷ finding "a" "y" ∷ finding "b" "x" ∷ [])

abbrev newer : ScanReport
newer = report (finding "b" "z" ∷ finding "c" "x" ∷ finding "a" "y" ∷ [])

abbrev sizes : DiffReport → List ℕ
sizes r = length r.added ∷ length r.removed ∷ length r.modified ∷ length r.unchanged ∷ []

diff : Unit {0}
unfolding insert lookup has compare create_findings_map create_findings_key sort_current
    find_removed place is_modified
diff = tt

-- The two findings of file a share a key, so the loss of one of them is no drift.
diff_tests :
    (create_findings_key numeral (finding "a" "x") ≡ "a:1:R")
    × (sizes (compare numeral newer (some older)) ≡ 1 ∷ 0 ∷ 1 ∷ 1 ∷ [])
    × (sizes (compare numeral older (some newer)) ≡ 0 ∷ 1 ∷ 1 ∷ 1 ∷ [])
    × ((compare numeral newer none).drift_detected ≡ true)
    × ((compare numeral
          (report (finding "a" "y" ∷ []))
          (some (report (finding "a" "x" ∷ finding "a" "y" ∷ [])))).drift_detected
        ≡ false)
unfolding diff
diff_tests = (refl, refl, refl, refl, refl)

compare-drift_detected_iff_example :
    ((compare numeral newer (some older)).drift_detected ≡ false) ↔ (
      (k : String)
      → details (latest numeral k newer.findings) ≡ details (latest numeral k older.findings))
compare-drift_detected_iff_example = compare-drift_detected_iff numeral newer older
