-- ===== src/Trail.antt =====
-- verifiable-audit-trail/src/index.ts: the verification of a report against its anchor on the ledger,
-- and the command line. SHA-256 (from contents to bytes), the normalisation of a public key (`none`
-- if it throws), the lookup of the transaction and both readings of the report are parameters, as is
-- whether a directory can be anchored. Messages are left out. The encodings are in Trail/Encoding.
pub mod Cli
pub mod Encoding
pub mod Roundtrip
pub mod Verdict
mod Tests
use vero_audit_guard.Base.{
  ℕ, if◌then◌else◌, List, String, Option, Bool, true, some, length, str_eq, take, ◌++◌, false, leb,
  [], not, ◌∷◌, none, map, ◌==◌, ◌&&◌, ltb, ◌+◌, drop, ◌||◌,
}
use vero_audit_guard.Base.Json.{code_points}
use vero_audit_guard.Trail.Encoding.{to_hex, hex_value, hashes_match, same, decode_memo_hash}

pub data VerificationProtocol : Type 0 where
  memo_hash legacy_memo_text : VerificationProtocol

pub data VerificationFailureReason : Type 0 where
  anchor_not_found transaction_failed transaction_hash_mismatch : VerificationFailureReason
  anchor_account_mismatch memo_missing_or_invalid hash_mismatch : VerificationFailureReason
  legacy_memo_disabled report_changed_during_verification : VerificationFailureReason

pub record HorizonTransactionRecord : Type 0 where
  pub hash : String
  pub successful : Bool
  pub source_account : String
  pub memo_type : String
  pub memo : Option String

-- A number that is no whole number is `none`.
pub record VerifyReportOptions : Type 0 where
  pub transaction_hash : String
  pub expected_anchor_account : String
  pub allow_legacy_memo_text : Bool
  pub lookup_timeout_ms : Option (Option ℕ)

pub data Lookup : Type 0 where
  found : HorizonTransactionRecord → Lookup
  not_found lookup_fails : Lookup

pub data VerificationResult : Type 0 where
  verified : VerificationProtocol → (local_hash : List ℕ) → VerificationResult
  failed : VerificationFailureReason → VerificationResult

pub data VerificationError : Type 0 where
  bad_transaction_hash bad_anchor_account unreadable_report : VerificationError
  bad_timeout lookup_failed : VerificationError

pub data Outcome : Type 0 where
  returned : VerificationResult → Outcome
  thrown : VerificationError → Outcome

abbrev is_some : Option ℕ → Bool
is_some none = false
is_some (some n) = true

abbrev all_hex : List ℕ → Bool
all_hex [] = true
all_hex (c ∷ cs) = is_some (hex_value c) && all_hex cs

-- `TRANSACTION_HASH_PATTERN`
pub is_hash : List ℕ → Bool
is_hash cs = (length cs == 64) && all_hex cs

abbrev lower : ℕ → ℕ
lower c = if leb 65 c && leb c 90 then c + 32 else c

pub normalize_transaction_hash : String → Option (List ℕ)
normalize_transaction_hash s =
    if is_hash (code_points s) then some (map lower (code_points s)) else none

abbrev lower_hex : List ℕ → Bool
lower_hex [] = true
lower_hex (c ∷ cs) = ((leb 48 c && leb c 57) || (leb 97 c && leb c 102)) && lower_hex cs

-- `LEGACY_MEMO_PATTERN`
pub is_legacy_memo : List ℕ → Bool
is_legacy_memo memo =
    same (take 5 memo) (code_points "vero:")
    && (length (drop 5 memo) == 22)
    && lower_hex (drop 5 memo)

pub legacy_memo_identifier : List ℕ → List ℕ
legacy_memo_identifier sha256_hex = code_points "vero:" ++ take 22 sha256_hex

abbrev or_default : Option (Option ℕ) → Option (Option ℕ) → Option ℕ
or_default (some t) env = t
or_default none (some t) = t
or_default none none = some 10000

abbrev in_range : Option ℕ → Option ℕ
in_range none = none
in_range (some t) = if ltb t 1 || ltb 120000 t then none else some t

-- The argument, or else the environment's setting, or else the default; `none` throws.
pub resolve_horizon_timeout_ms : Option (Option ℕ) → Option (Option ℕ) → Option ℕ
resolve_horizon_timeout_ms override env = in_range (or_default override env)

abbrev memo_text : Option String → List ℕ
memo_text none = []
memo_text (some s) = code_points s

-- A hash memo, decoded.
pub check_memo_hash : List ℕ → Option (List ℕ) → VerificationResult
check_memo_hash local_hash none = failed memo_missing_or_invalid
check_memo_hash local_hash (some anchored) =
    if hashes_match local_hash anchored then verified memo_hash local_hash else failed hash_mismatch

pub check_legacy_memo : Bool → List ℕ → List ℕ → VerificationResult
check_legacy_memo allowed local_hash memo =
    if not allowed
    then failed legacy_memo_disabled
    else if same memo (legacy_memo_identifier local_hash)
    then verified legacy_memo_text local_hash
    else failed hash_mismatch

pub check_memo : Bool → List ℕ → HorizonTransactionRecord → VerificationResult
check_memo allowed local_hash t =
    if str_eq t.memo_type "hash"
    then check_memo_hash local_hash (decode_memo_hash (memo_text t.memo))
    else if str_eq t.memo_type "text" && is_legacy_memo (memo_text t.memo)
    then check_legacy_memo allowed local_hash (memo_text t.memo)
    else failed memo_missing_or_invalid

abbrev same_hash : Option (List ℕ) → List ℕ → Bool
same_hash none wanted = false
same_hash (some h) wanted = same h wanted

-- The checks after the second reading.
pub check_transaction :
    Bool
    → (wanted : List ℕ) → (account : String) → (first_hash local_hash : List ℕ)
    → HorizonTransactionRecord
    → VerificationResult
check_transaction allowed wanted account first_hash local_hash t =
    if not (hashes_match first_hash local_hash)
    then failed report_changed_during_verification
    else if not t.successful
    then failed transaction_failed
    else if not (same_hash (normalize_transaction_hash t.hash) wanted)
    then failed transaction_hash_mismatch
    else if not (str_eq t.source_account account)
    then failed anchor_account_mismatch
    else check_memo allowed local_hash t

module _ (sha256 : List ℕ → List ℕ) (public_key : String → Option String)
    (env_timeout : Option (Option ℕ)) (first_reading second_reading : Option (List ℕ))
    (lookup : Lookup) where
  abbrev hash_file : List ℕ → List ℕ
  hash_file contents = to_hex (sha256 contents)

  pub after_lookup :
      VerifyReportOptions → List ℕ → String → List ℕ → Lookup → Option (List ℕ) → Outcome
  after_lookup o wanted account first not_found second = returned (failed anchor_not_found)
  after_lookup o wanted account first lookup_fails second = thrown lookup_failed
  after_lookup o wanted account first (found t) none = thrown unreadable_report
  after_lookup o wanted account first (found t) (some contents) =
      returned
        (check_transaction o.allow_legacy_memo_text wanted account first (hash_file contents) t)

  -- With the normalised arguments, the first reading, and the timeout.
  pub verify_with :
      VerifyReportOptions → Option (List ℕ) → Option String → Option (List ℕ) → Option ℕ → Outcome
  verify_with o none account first timeout = thrown bad_transaction_hash
  verify_with o (some wanted) none first timeout = thrown bad_anchor_account
  verify_with o (some wanted) (some account) none timeout = thrown unreadable_report
  verify_with o (some wanted) (some account) (some contents) none = thrown bad_timeout
  verify_with o (some wanted) (some account) (some contents) (some timeout) =
      after_lookup o wanted account (hash_file contents) lookup second_reading

  pub verify_report : VerifyReportOptions → Outcome
  verify_report o =
      verify_with o (normalize_transaction_hash o.transaction_hash)
        (public_key o.expected_anchor_account) first_reading
        (resolve_horizon_timeout_ms o.lookup_timeout_ms env_timeout)
