-- ===== src/Diff.antt =====
-- src/audit-guard/src/diff-engine.ts: the comparison of a scan report with the previous one. A finding's
-- line is a whole number, whose text is a parameter, and null counts as a missing property. The
-- summary, the markdown report and the reading and writing of reports are left out.
use Prim.Native.String.{◌++◌ as joined}
pub mod Drift
mod Tests
use vero_audit_guard.Base.{
  ℕ, Bool, String, List, Option, none, some, true, false, not, ◌||◌, str_eq, if◌then◌else◌, ltb,
  length, ◌++◌, ◌∷◌, [],
}
use vero_audit_guard.Base.Dict.{Dict, lookup, has, insert}

pub record DiffFinding : Type 0 where
  pub file : Option String
  pub line : Option ℕ
  pub rule : Option String
  pub severity : Option String
  pub snippet : Option String

pub record ScanReport : Type 0 where
  pub findings : List DiffFinding
  pub report_hash : Option String

pub record DiffReport : Type 0 where
  pub added : List DiffFinding
  pub removed : List DiffFinding
  pub modified : List DiffFinding
  pub unchanged : List DiffFinding
  pub drift_detected : Bool
  pub current_hash : Option String
  pub previous_hash : Option String

abbrev or_empty : Option String → String
or_empty none = ""
or_empty (some s) = s

abbrev same_text : Option String → Option String → Bool
same_text none none = true
same_text (some s) (some t) = str_eq s t
same_text none (some t) = false
same_text (some s) none = false

unfoldable pub is_modified : (current previous : DiffFinding) → Bool
is_modified c p = not (same_text c.severity p.severity) || not (same_text c.snippet p.snippet)

-- A finding of the current report beside the previous report's finding of its key.
unfoldable pub place : Option DiffFinding → DiffFinding → DiffReport → DiffReport
place none f r = record r { added = r.added ++ f ∷ [] }
place (some p) f r =
    if is_modified f p
    then record r { modified = r.modified ++ f ∷ [] }
    else record r { unchanged = r.unchanged ++ f ∷ [] }

unfoldable pub sort_current : Dict DiffFinding → Dict DiffFinding → DiffReport → DiffReport
sort_current previous [] r = r
sort_current previous ((k, f) ∷ m) r = sort_current previous m (place (lookup k previous) f r)

unfoldable pub find_removed : Dict DiffFinding → Dict DiffFinding → List DiffFinding
find_removed current [] = []
find_removed current ((k, f) ∷ m) =
    let rest = find_removed current m in if has k current then rest else f ∷ rest

abbrev pub blank_report : (current previous : ScanReport) → DiffReport
blank_report current previous = record {
  added = [];
  removed = [];
  modified = [];
  unchanged = [];
  drift_detected = false;
  current_hash = current.report_hash;
  previous_hash = previous.report_hash;
}

module _ (number_text : ℕ → String) where
  abbrev line_text : Option ℕ → String
  line_text none = ""
  line_text (some n) = number_text n

  unfoldable pub create_findings_key : DiffFinding → String
  create_findings_key f =
      joined (or_empty f.file)
        (joined ":" (joined (line_text f.line) (joined ":" (or_empty f.rule))))

  unfoldable pub create_findings_map : Dict DiffFinding → List DiffFinding → Dict DiffFinding
  create_findings_map m [] = m
  create_findings_map m (f ∷ fs) = create_findings_map (insert (create_findings_key f) f m) fs

  unfoldable pub compare : (current : ScanReport) → (previous : Option ScanReport) → DiffReport
  compare current none = record {
    added = current.findings;
    removed = [];
    modified = [];
    unchanged = [];
    drift_detected = ltb 0 (length current.findings);
    current_hash = current.report_hash;
    previous_hash = none;
  }
  compare current (some previous) =
      let current_map = create_findings_map [] current.findings in
      let previous_map = create_findings_map [] previous.findings in
      let r = sort_current previous_map current_map (blank_report current previous) in
      let gone = find_removed current_map previous_map in
      record r {
        removed = gone;
        drift_detected = ltb 0 (length r.added) || ltb 0 (length gone) || ltb 0 (length r.modified);
      }
