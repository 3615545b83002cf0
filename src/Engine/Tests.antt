-- ===== src/Engine/Tests.antt =====
-- Runs of the policy engine, and instances of its theorems.
use vero_audit_guard.Base.{
  ℕ, ◌≡◌, ◌+◌, refl, inr, Bool, true, false, Option, none, some, List, [], ◌∷◌, String, arith,
}
use vero_audit_guard.Tiering.{starts, contains}
use vero_audit_guard.Protocol as Machines
use vero_audit_guard.Protocol.Alert.{try_apply}
use vero_audit_guard.Protocol.{idle, apply, dispatch, transition, commit, reject, apply_reset}
use vero_audit_guard.Bundle as Bundles
use vero_audit_guard.Base.{str_eq, if◌then◌else◌, trim}
use vero_audit_guard.Base.Dict.{insert, lookup, has}
use vero_audit_guard.Base.Sort.{sort, insert_sorted}
use vero_audit_guard.Bundle.{
  verify, conclude, judge, verify_signature, check_signature, check_bytes, first_signer,
  hex_to_buffer, hex_bytes, hex_value, load_manifest, parse_signed_manifest, parse_object,
  parse_entries, parse_entry, has_drift, emit_telemetry,
}
use vero_audit_guard.Bundle.Manifest.{
  file, no_more, followed, listing, collect_bundle_files, in_bundle, walk, walk_entry,
  canonicalize_manifest, compute_bundle_manifest, diff_manifests, hashes_from, added_to,
  modified_in, differs,
}
use vero_audit_guard.Bundle.Verdict.{Genuine}
use vero_audit_guard.Engine.Rules.{
  PrData, SignedFields, high, critical, compliant, violation, EvaluationResult,
  verify_relayer_signature, relayer_faults, is_expired, rule_violations, all_warnings,
  body_violations, body_warnings, crypto_violations, algorithms_in, has_algorithm,
  banned_algorithms, mentions, security_keywords, status_of, high_of, get_signature_payload,
}
use vero_audit_guard.Engine.{
  OpaOutput, evaluation, evaluate_without_opa, parse_opa_result, apply_policy_bundle_verification,
  Reading, evaluate, blocked, Step, begins, finishes, begin_evaluation, finish_evaluation, step,
  run,
}
use vero_audit_guard.Engine.Verdict.{Decided, evaluation-compliant}
use vero_audit_guard.Engine.Lifecycle.{Stands, evaluate-idle}

abbrev lower : String → String
lower s = s

abbrev verifies : String → SignedFields → String → Option Bool
verifies key fields signature = some true

abbrev authorized : List String
authorized = "GA" ∷ []

abbrev request : String → PrData
request content = record {
  title = "Fix the parser";
  body = "tests and changelog updated";
  labels = [];
  head_branch = "fix";
  number = 7;
  files_modified = "a.ts" ∷ [];
  file_contents = ("a.ts", content) ∷ [];
  additions = 10;
  deletions = 2;
  dependencies = [];
  relayer = some "GA";
  signature = some "ab";
  timestamp = some 1000;
}

abbrev sha256_bytes : List ℕ → String
sha256_bytes cs = "b"

abbrev sha256_text : List ℕ → String
sha256_text cs = "t"

-- A manifest of the one policy file, and a key whose every signature is good.
abbrev parse : String → Bundles.Json
parse s = Bundles.object (record {
  version = some 1;
  algorithm = some "sha256";
  files = some (record { path = some "a.rego"; sha256 = some "b"; bytes = some 1 } ∷ []);
  bundle_digest = some "t";
})

abbrev checks : String → List ℕ → List ℕ → Option Bool
checks key payload bytes = if str_eq key "" then none else some (str_eq key "GA")

abbrev verifier : Bundles.PolicyBundleVerifier
verifier = record { signature = some "ab"; trusted_signers = "GA" ∷ [] }

abbrev disk : Bundles.Disk
disk = record {
  policies_dir = listing (followed (file "a.rego" (1 ∷ [])) no_more);
  manifest = Bundles.contents "m";
}

abbrev bundle : Bundles.PolicyBundleVerificationResult
bundle = (Bundles.verify lower (".rego" ∷ []) sha256_bytes sha256_text parse checks verifier disk).0

abbrev decide : Bool → Option OpaOutput → PrData → EvaluationResult
decide available opa p =
    evaluation lower authorized verifies available opa [] (Bundles.is_configured verifier) bundle p
      1000

-- A denial without a summary: the status is the default.
abbrev denial : OpaOutput
denial = record { deny = some (violation "D" high ∷ []); warning = none; status = none }

engine : Unit {0}
unfolding evaluation evaluate_without_opa parse_opa_result apply_policy_bundle_verification
    verify_relayer_signature relayer_faults is_expired rule_violations all_warnings body_violations
    body_warnings crypto_violations algorithms_in has_algorithm banned_algorithms mentions
    security_keywords status_of high_of get_signature_payload starts contains Bundles.is_configured
    verify conclude judge verify_signature check_signature check_bytes first_signer hex_to_buffer
    hex_bytes hex_value trim load_manifest parse_signed_manifest parse_object parse_entries
    parse_entry compute_bundle_manifest collect_bundle_files in_bundle walk walk_entry sort
    insert_sorted diff_manifests hashes_from insert added_to modified_in differs has_drift
    emit_telemetry lookup has canonicalize_manifest
engine = tt

engine_tests :
    ((decide true none (request "")).violations ≡ violation "OPA_EVALUATION_FAILED" critical ∷ [])
    × ((decide false none (request "x = md5('a')")).violations
        ≡ violation "INSECURE_CRYPTO_ALGORITHM" critical ∷ [])
    × ((decide true (some denial) (request "")).status ≡ compliant)
    × (Bundles.is_configured verifier ≡ true)
    × (bundle.verified ≡ true)
unfolding engine
engine_tests = (refl, refl, refl, refl, refl)

is_compliant : (decide false none (request "")).status ≡ compliant
unfolding engine
is_compliant = refl

no_key : (payload bytes : List ℕ) → checks "" payload bytes ≡ none
no_key payload bytes = refl

evaluation-compliant_example :
    Decided lower authorized verifies false none [] (request "") 1000
    × (Bundles.is_configured verifier ≡ true
        → Genuine lower
            (".rego" ∷ [])
            sha256_bytes
            sha256_text
            parse
            checks
            verifier
            (compute_bundle_manifest sha256_bytes sha256_text lower
              (".rego" ∷ [])
              disk.policies_dir)
            (Bundles.load_manifest parse disk.manifest))
evaluation-compliant_example =
    evaluation-compliant lower authorized verifies [] lower (".rego" ∷ []) sha256_bytes sha256_text
      parse checks verifier disk false none (request "") 1000 no_key is_compliant

abbrev stringify : Machines.ProtocolEvent → List ℕ
stringify e = []

abbrev options : Machines.Options
options = record { max_history_depth = 10; max_clock_skew_ms = 100 }

abbrev at : ℕ → Reading
at t = record { stamp = t; now = t + 1 }

-- Another evaluation begins during the awaits of the first.
abbrev other_begins : List Step
other_begins = begins "pr-8" "feature" (at 2) ∷ []

-- It begins and finishes then.
abbrev other_overlaps : List Step
other_overlaps = begins "pr-8" "feature" (at 2) ∷ finishes "pr-8" 0 (at 3) (at 4) (at 5) ∷ []

abbrev after : List Step → Machines.Machine
after meanwhile =
    (evaluate stringify options "pr-7" "fix" (at 1) (at 6) (at 7) (at 8) meanwhile Machines.init
      (blocked "OPA_EVALUATION_FAILED")).0

-- In the second case the machine is reset under the first scan, and only the start of that scan and
-- the two resets are taken.
overlap_tests :
    ((after []).transition_count ≡ 4)
    × ((after other_begins).transition_count ≡ 4)
    × ((after other_overlaps).transition_count ≡ 3)
unfolding evaluate begin_evaluation finish_evaluation step run try_apply apply dispatch transition
    commit reject apply_reset Machines.init
overlap_tests = (refl, refl, refl)

evaluate-idle_example :
    Stands stringify options (after other_begins) idle none (Machines.init.transition_count + 4)
unfolding Machines.init
evaluate-idle_example =
    evaluate-idle stringify options "pr-7" "fix" (at 1) (at 6) (at 7) (at 8) other_begins
      Machines.init (blocked "OPA_EVALUATION_FAILED") refl refl
      (inr (omega arith), inr (omega arith), inr (omega arith), inr (omega arith)) tt
