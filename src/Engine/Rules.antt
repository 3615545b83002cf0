-- ===== src/Engine/Rules.antt =====
-- src/audit-guard/src/policy-engine.ts: the rules of the fallback evaluation, and the check of the
-- relayer's signature. Lower-casing, `JSON.stringify` of the signed fields and the signature check of
-- the Stellar SDK (`none` if it throws) are parameters. Messages and details are left out, and the
-- dependencies of a request are the texts of their fields.
use vero_audit_guard.Base.{
  ℕ, if◌then◌else◌, String, Bool, List, ◌-◌, Option, leb, some, length, not, str_eq, ◌∷◌, ltb, ◌++◌,
  keep, false, true, ◌+◌, [], ◌&&◌, code_units, ◌||◌, map, ◌==◌, none, includes, some_of,
}
use vero_audit_guard.Base.Dict.{Dict}
use vero_audit_guard.Base.Json.{code_points}
use vero_audit_guard.Tiering.{starts, contains}

pub data Severity : Type 0 where
  low medium high critical : Severity

pub record PolicyViolation : Type 0 where
  pub rule : String
  pub severity : Severity

pub data Status : Type 0 where
  compliant non_compliant warning : Status

pub record EvaluationResult : Type 0 where
  pub status : Status
  pub violations : List PolicyViolation
  pub warnings : List PolicyViolation
  pub violations_count : ℕ
  pub warnings_count : ℕ
  pub high_severity_violations : List PolicyViolation

-- `file_contents` is empty where the request has none; a timestamp of 0 counts as missing.
pub record PrData : Type 0 where
  pub title : String
  pub body : String
  pub labels : List String
  pub head_branch : String
  pub number : ℕ
  pub files_modified : List String
  pub file_contents : Dict String
  pub additions : ℕ
  pub deletions : ℕ
  pub dependencies : List (List String)
  pub relayer : Option String
  pub signature : Option String
  pub timestamp : Option ℕ

-- What the signature covers.
pub record SignedFields : Type 0 where
  pub title : String
  pub body : String
  pub labels : List String
  pub head_branch : String
  pub number : ℕ
  pub files_modified : List String
  pub additions : ℕ
  pub deletions : ℕ
  pub dependencies : List (List String)
  pub relayer : Option String
  pub timestamp : Option ℕ

unfoldable pub get_signature_payload : PrData → SignedFields
get_signature_payload p = record {
  title = p.title;
  body = p.body;
  labels = p.labels;
  head_branch = p.head_branch;
  number = p.number;
  files_modified = p.files_modified;
  additions = p.additions;
  deletions = p.deletions;
  dependencies = p.dependencies;
  relayer = p.relayer;
  timestamp = p.timestamp;
}

abbrev pub violation : String → Severity → PolicyViolation
violation rule severity = record { rule = rule; severity = severity }

abbrev pub when : Bool → String → Severity → List PolicyViolation
when b rule severity = if b then violation rule severity ∷ [] else []

abbrev pub text_given : Option String → Bool
text_given none = false
text_given (some s) = not (str_eq s "")

abbrev pub time_given : Option ℕ → Bool
time_given none = false
time_given (some t) = not (t == 0)

abbrev pub text_of : Option String → String
text_of none = ""
text_of (some s) = s

abbrev pub time_of : Option ℕ → ℕ
time_of none = 0
time_of (some t) = t

-- `Math.abs(a - b)`
abbrev pub distance : ℕ → ℕ → ℕ
distance a b = (a - b) + (b - a)

abbrev pub is_true : Option Bool → Bool
is_true (some true) = true
is_true _ = false

module _ (authorized : List String) (verifies : String → SignedFields → String → Option Bool)
    (now : ℕ) where
  unfoldable pub is_expired : PrData → Bool
  is_expired p = ltb 300000 (distance now (time_of p.timestamp))

  -- Steps 2 to 4.
  unfoldable pub relayer_faults : PrData → List PolicyViolation
  relayer_faults p =
      when (not (includes authorized (text_of p.relayer))) "RELAYER_UNAUTHORIZED" critical
      ++ when (is_expired p) "RELAYER_SIGNATURE_EXPIRED" critical
      ++ when
          (not (
            is_true (verifies (text_of p.relayer) (get_signature_payload p) (text_of p.signature))))
          "RELAYER_SIGNATURE_INVALID" critical

  -- `none` is the exception of `toISOString`, beyond ECMAScript's range of dates.
  unfoldable pub verify_relayer_signature : PrData → Option (List PolicyViolation)
  verify_relayer_signature p =
      if not (text_given p.relayer) || not (text_given p.signature) || not (time_given p.timestamp)
      then some (violation "RELAYER_SIGNATURE_MISSING" critical ∷ [])
      else if is_expired p && ltb 8640000000000000 (time_of p.timestamp)
      then none
      else some (relayer_faults p)

abbrev ascii_lower : ℕ → ℕ
ascii_lower c = if leb 65 c && leb c 90 then c + 32 else c

-- `/name['"(]|name$/i`, on the lower-cased code points.
unfoldable pub has_algorithm : List ℕ → List ℕ → Bool
has_algorithm name [] = false
has_algorithm name (c ∷ cs) =
    let rest = has_algorithm name cs in
    starts (name ++ b'\'' ∷ []) (c ∷ cs)
    || starts (name ++ b'"' ∷ []) (c ∷ cs)
    || starts (name ++ b'(' ∷ []) (c ∷ cs)
    || (starts name (c ∷ cs) && length (c ∷ cs) == length name)
    || rest

unfoldable pub banned_algorithms : List String
banned_algorithms = "md5" ∷ "sha1" ∷ "rc4" ∷ "des" ∷ []

unfoldable pub algorithms_in : List ℕ → List String → List PolicyViolation
algorithms_in content [] = []
algorithms_in content (name ∷ names) =
    let rest = algorithms_in content names in
    if has_algorithm (code_points name) content
    then violation "INSECURE_CRYPTO_ALGORITHM" critical ∷ rest
    else rest

unfoldable pub crypto_violations : Dict String → List PolicyViolation
crypto_violations [] = []
crypto_violations ((filename, content) ∷ files) =
    algorithms_in (map ascii_lower (code_points content)) banned_algorithms
    ++ crypto_violations files

unfoldable pub security_keywords : List String
security_keywords =
    "auth" ∷ "crypto" ∷ "signature" ∷ "key" ∷ "secret" ∷ "token" ∷ "vulnerability" ∷ []

module _ (lower : String → String) where
  -- `bodyLower.includes(word)`
  unfoldable pub mentions : PrData → String → Bool
  mentions p word = contains (code_points word) (code_points (lower p.body))

  unfoldable pub body_violations : PrData → List PolicyViolation
  body_violations p =
      if str_eq p.body ""
      then violation "PR_DESCRIPTION_MISSING" high ∷ []
      else when (mentions p "breaking" && not (includes p.labels "breaking-change"))
          "BREAKING_CHANGE_NOT_LABELED" high

  unfoldable pub body_warnings : PrData → List PolicyViolation
  body_warnings p =
      if str_eq p.body ""
      then []
      else when (not (mentions p "test")) "PR_TESTING_UNDOCUMENTED" medium
        ++ when
            (some_of (mentions p) security_keywords
              && not (includes p.labels "security")
              && not (includes p.labels "audit"))
            "SECURITY_CHANGE_NEEDS_LABEL" high
        ++ when
            (not (includes p.labels "trivial")
              && not (includes p.labels "docs")
              && not (mentions p "changelog"))
            "CHANGELOG_NOT_UPDATED" medium

  -- The violations after those of the relayer's signature, in their order.
  unfoldable pub rule_violations : (overflow : List PolicyViolation) → PrData → List PolicyViolation
  rule_violations overflow p =
      when (str_eq p.title "") "PR_TITLE_EMPTY" medium
      ++ when (ltb (length (code_units p.title)) 10) "PR_TITLE_TOO_SHORT" medium
      ++ body_violations p
      ++ crypto_violations p.file_contents
      ++ overflow

  unfoldable pub all_warnings : PrData → List PolicyViolation
  all_warnings p =
      body_warnings p
      ++ when (ltb 20 (length p.files_modified)) "TOO_MANY_FILES_MODIFIED" medium
      ++ when (ltb 1000 (p.additions + p.deletions)) "LARGE_DIFF_REQUIRES_JUSTIFICATION" medium
      ++ when (ltb 100 (length (code_units p.title))) "PR_TITLE_TOO_LONG" low

abbrev is_high : PolicyViolation → Bool
is_high v = elim v.severity [ high ↦ true | critical ↦ true | low ↦ false | medium ↦ false ]

unfoldable pub high_of : List PolicyViolation → List PolicyViolation
high_of = keep is_high

unfoldable pub status_of : List PolicyViolation → List PolicyViolation → Status
status_of violations warnings =
    if ltb 0 (length violations)
    then non_compliant
    else if ltb 0 (length warnings)
    then warning
    else compliant

abbrev pub result_of : List PolicyViolation → List PolicyViolation → EvaluationResult
result_of violations warnings = record {
  status = status_of violations warnings;
  violations = violations;
  warnings = warnings;
  violations_count = length violations;
  warnings_count = length warnings;
  high_severity_violations = high_of violations;
}
