-- ===== src/Trail/Cli.antt =====
-- verifiable-audit-trail/src/index.ts: the command line. Whether anchoring a directory succeeds, and
-- how a verification ends, are parameters; the exit code is what the source returns.
use vero_audit_guard.Base.{
  ℕ, ◌≡◌, Bool, true, false, not, ◌&&◌, ◌||◌, Option, none, some, List, [], ◌∷◌, String,
  if◌then◌else◌, str_eq, arith, take, Bool-cases, inl, inr, ap, sym,
}
use vero_audit_guard.Base.Json.{code_points}
use vero_audit_guard.Trail.Encoding.{same}

pub record VerifyCliArguments : Type 0 where
  pub report_path : String
  pub transaction_hash : String
  pub anchor_account : String
  pub allow_legacy_memo_text : Bool

pub data ParseError : Type 0 where
  no_report repeated missing_value unknown_argument no_transaction_hash account_mismatch :
      ParseError
  bad_account no_account : ParseError

pub data Parsed : Type 0 where
  parsed : VerifyCliArguments → Parsed
  bad : ParseError → Parsed

-- What the loop has seen.
pub record Seen : Type 0 where
  pub transaction_hash : Option String
  pub anchor_account : Option String
  pub allow_legacy_memo_text : Bool

pub data Scanned : Type 0 where
  scanned : Seen → Scanned
  stopped : ParseError → Scanned

-- `!value || value.startsWith("--")`
unfoldable pub is_no_value : String → Bool
is_no_value s = str_eq s "" || same (take 2 (code_points s)) (code_points "--")

abbrev given : Option String → Bool
given none = false
given (some s) = not (str_eq s "")

-- The loop over the arguments: an option takes the next one for its value.
unfoldable pub scan : Seen → List String → Scanned
scan s [] = scanned s
scan s (a ∷ []) =
    if str_eq a "--allow-legacy-memo-text"
    then (if s.allow_legacy_memo_text
        then stopped repeated
        else scanned (record s { allow_legacy_memo_text = true }))
    else if str_eq a "--tx" || str_eq a "--account"
    then stopped missing_value
    else stopped unknown_argument
scan s (a ∷ v ∷ rest) =
    let after_flag = scan (record s { allow_legacy_memo_text = true }) (v ∷ rest) in
    let after_tx = scan (record s { transaction_hash = some v }) rest in
    let after_account = scan (record s { anchor_account = some v }) rest in
    if str_eq a "--allow-legacy-memo-text"
    then (if s.allow_legacy_memo_text then stopped repeated else after_flag)
    else if str_eq a "--tx"
    then (if is_no_value v
        then stopped missing_value
        else if given s.transaction_hash
        then stopped repeated
        else after_tx)
    else if str_eq a "--account"
    then (if is_no_value v
        then stopped missing_value
        else if given s.anchor_account
        then stopped repeated
        else after_account)
    else stopped unknown_argument

abbrev pub nothing_seen : Seen
nothing_seen = record {
  transaction_hash = none;
  anchor_account = none;
  allow_legacy_memo_text = false;
}

abbrev pub or_env : Option String → Option String → String
or_env (some s) env = s
or_env none (some s) = s
or_env none none = ""

abbrev text_or_empty : Option String → String
text_or_empty none = ""
text_or_empty (some s) = s

module _ (public_key : String → Option String) (env_account : Option String) where
  -- Both accounts, where both are given: `none` is one that is no public key.
  unfoldable pub compare_accounts : Option String → Option String → Option ParseError
  compare_accounts none b = some bad_account
  compare_accounts (some a) none = some bad_account
  compare_accounts (some a) (some b) = if str_eq a b then none else some account_mismatch

  unfoldable pub account_error : Option String → Option ParseError
  account_error cli =
      if given cli && given env_account
      then compare_accounts (public_key (text_or_empty cli))
          (public_key (text_or_empty env_account))
      else if str_eq (or_env cli env_account) ""
      then some no_account
      else none

  abbrev with_account : String → Seen → Option ParseError → Parsed
  with_account report s (some x) = bad x
  with_account report s none = parsed (record {
    report_path = report;
    transaction_hash = text_or_empty s.transaction_hash;
    anchor_account = or_env s.anchor_account env_account;
    allow_legacy_memo_text = s.allow_legacy_memo_text;
  })

  abbrev finish : String → Scanned → Parsed
  finish report (stopped x) = bad x
  finish report (scanned s) =
      if not (given s.transaction_hash)
      then bad no_transaction_hash
      else with_account report s (account_error s.anchor_account)

  unfoldable pub parse_verify_arguments : List String → Parsed
  parse_verify_arguments [] = bad no_report
  parse_verify_arguments (report ∷ args) =
      if is_no_value report then bad no_report else finish report (scan nothing_seen args)

-- How a verification ends for the command line.
pub data Ended : Type 0 where
  is_verified is_refused throws : Ended

abbrev exit_code : Ended → ℕ
exit_code is_verified = 0
exit_code is_refused = 2
exit_code throws = 1

module _ (public_key : String → Option String) (env_account : Option String)
    (anchors : String → Bool) (verify : VerifyCliArguments → Ended) where
  abbrev verify_command : Parsed → ℕ
  verify_command (bad x) = 1
  verify_command (parsed a) = exit_code (verify a)

  abbrev anchor_command : String → ℕ
  anchor_command dir = if anchors dir then 0 else 1

  unfoldable pub run_cli : List String → ℕ
  run_cli [] = anchor_command "../reports"
  run_cli (a ∷ []) =
      if str_eq a "anchor"
      then 1
      else if str_eq a "verify"
      then verify_command (parse_verify_arguments public_key env_account [])
      else anchor_command a
  run_cli (a ∷ b ∷ []) =
      if str_eq a "anchor"
      then anchor_command b
      else if str_eq a "verify"
      then verify_command (parse_verify_arguments public_key env_account (b ∷ []))
      else 1
  run_cli (a ∷ b ∷ c ∷ rest) =
      if str_eq a "anchor"
      then 1
      else if str_eq a "verify"
      then verify_command (parse_verify_arguments public_key env_account (b ∷ c ∷ rest))
      else 1

abbrev flag : Bool → List String
flag true = "--allow-legacy-memo-text" ∷ []
flag false = []

-- The command line for some arguments.
abbrev pub printed : VerifyCliArguments → List String
printed a =
    a.report_path
    ∷ "--tx"
    ∷ a.transaction_hash
    ∷ "--account"
    ∷ a.anchor_account
    ∷ flag a.allow_legacy_memo_text

value-ne-empty : (s : String) → is_no_value s ≡ false → str_eq s "" ≡ false
unfolding is_no_value
value-ne-empty s h = ground arith

same_arguments :
    (a : VerifyCliArguments) (b : Bool)
    → a.allow_legacy_memo_text ≡ b
    → record a { allow_legacy_memo_text = b } ≡ a
same_arguments a b e = λ i. record a { allow_legacy_memo_text = sym e i }

-- Without an account in the environment, the arguments that a command line spells out are what it is
-- parsed to, where the report, the hash and the account are no empty texts and start with no `--`.
pub parse_verify_arguments-printed :
    (public_key : String → Option String) (a : VerifyCliArguments)
    → is_no_value a.report_path ≡ false
    → is_no_value a.transaction_hash ≡ false
    → is_no_value a.anchor_account ≡ false
    → parse_verify_arguments public_key none (printed a) ≡ parsed a
unfolding parse_verify_arguments scan account_error
parse_verify_arguments-printed public_key a r t k =
    let nt : str_eq a.transaction_hash "" ≡ false = value-ne-empty a.transaction_hash t in
    let nk : str_eq a.anchor_account "" ≡ false = value-ne-empty a.anchor_account k in
    elim (Bool-cases a.allow_legacy_memo_text) [
      | inl b ↦ simp (b, r, t, k, nt, nk) (ap parsed (same_arguments a true b))
      | inr b ↦ simp (b, r, t, k, nt, nk) (ap parsed (same_arguments a false b))
    ]
