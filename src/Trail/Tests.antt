-- ===== src/Trail/Tests.antt =====
-- Runs of the verification, and instances of its theorems.
use vero_audit_guard.Base.{
  ℕ, ◌≡◌, refl, ◌↔◌, true, Option, none, some, List, [], ◌∷◌, String, length, arith,
}
use vero_audit_guard.Trail.Encoding.{
  to_hex, to_base64, decode_memo_hash, from_base64, closed, is_sextet, sextet, sextet_value,
  hashes_match, from_hex, hex_value,
}
use vero_audit_guard.Trail.Roundtrip.{Bytes}
use vero_audit_guard.Trail.Cli.{
  VerifyCliArguments, parsed, parse_verify_arguments, is_no_value, parse_verify_arguments-printed,
}
use vero_audit_guard.Trail.Verdict.{Confirmed, verify_report_iff}
use vero_audit_guard.Trail.{
  VerifyReportOptions, HorizonTransactionRecord, found, verified, legacy_memo_text, memo_hash,
  returned, Outcome, verify_report, verify_with, after_lookup, check_transaction, check_memo,
  check_memo_hash, check_legacy_memo, is_legacy_memo, legacy_memo_identifier,
  normalize_transaction_hash, is_hash, resolve_horizon_timeout_ms, failed, memo_missing_or_invalid,
}

-- A digest of zeros, whatever the contents.
abbrev zeros : List ℕ
zeros =
    0 ∷ 0 ∷ 0 ∷ 0 ∷ 0 ∷ 0 ∷ 0 ∷ 0 ∷ 0 ∷ 0 ∷ 0 ∷ 0 ∷ 0 ∷ 0 ∷ 0 ∷ 0 ∷ 0 ∷ 0 ∷ 0 ∷ 0 ∷ 0 ∷ 0 ∷ 0 ∷ 0
    ∷ 0 ∷ 0 ∷ 0 ∷ 0 ∷ 0 ∷ 0 ∷ 0 ∷ 0 ∷ []

abbrev sha256 : List ℕ → List ℕ
sha256 contents = zeros

abbrev public_key : String → Option String
public_key s = some s

abbrev transaction : String → String → HorizonTransactionRecord
transaction memo_type memo = record {
  hash = "ABCDEFABCDEFABCDABCDEFABCDEFABCDABCDEFABCDEFABCDABCDEFABCDEFABCD";
  successful = true;
  source_account = "GA";
  memo_type = memo_type;
  memo = some memo;
}

abbrev options : VerifyReportOptions
options = record {
  transaction_hash = "abcdefABCDEFABCDABCDEFABCDEFABCDABCDEFABCDEFABCDABCDEFABCDEFABCD";
  expected_anchor_account = "GA";
  allow_legacy_memo_text = true;
  lookup_timeout_ms = none;
}

abbrev run : HorizonTransactionRecord → Outcome
run t = verify_report sha256 public_key none (some (1 ∷ [])) (some (1 ∷ [])) (found t) options

trail : Unit {0}
unfolding verify_report verify_with after_lookup check_transaction check_memo check_memo_hash
    check_legacy_memo is_legacy_memo legacy_memo_identifier normalize_transaction_hash is_hash
    resolve_horizon_timeout_ms hashes_match from_hex to_hex hex_value decode_memo_hash from_base64
    to_base64 closed is_sextet sextet sextet_value
trail = tt

trail_tests :
    (run (transaction "hash" "AAAAAAAAAAAAAAAAAAAAAAAAAAAAAAAAAAAAAAAAAAA=")
      ≡ returned (verified memo_hash (to_hex zeros)))
    × (run (transaction "hash" "AAAAAAAAAAAAAAAAAAAAAAAAAAAAAAAAAAAAAAAAAAB=")
        ≡ returned (failed memo_missing_or_invalid))
    × (run (transaction "text" "vero:0000000000000000000000")
        ≡ returned (verified legacy_memo_text (to_hex zeros)))
unfolding trail
trail_tests = (refl, refl, refl)

digests : (contents : List ℕ) → Bytes (sha256 contents) × (length (sha256 contents) ≡ 32)
digests contents = (ground arith, refl)

verify_report_iff_example :
    (run (transaction "text" "vero:0000000000000000000000")
      ≡ returned (verified legacy_memo_text (to_hex zeros)))
    ↔ Confirmed sha256 public_key none
        (some (1 ∷ []))
        (some (1 ∷ []))
        (found (transaction "text" "vero:0000000000000000000000"))
        options
        legacy_memo_text
        (to_hex zeros)
verify_report_iff_example =
    verify_report_iff sha256 public_key none (some (1 ∷ [])) (some (1 ∷ []))
      (found (transaction "text" "vero:0000000000000000000000")) options legacy_memo_text
      (to_hex zeros) digests

abbrev arguments : VerifyCliArguments
arguments = record {
  report_path = "scan.json";
  transaction_hash = "ab";
  anchor_account = "GA";
  allow_legacy_memo_text = true;
}

parse_verify_arguments-printed_example :
    parse_verify_arguments public_key none
      ("scan.json" ∷ "--tx" ∷ "ab" ∷ "--account" ∷ "GA" ∷ "--allow-legacy-memo-text" ∷ [])
    ≡ parsed arguments
unfolding is_no_value
parse_verify_arguments-printed_example =
    parse_verify_arguments-printed public_key arguments refl refl refl
