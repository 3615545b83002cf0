-- ===== src/Emergency.antt =====
-- src/audit-guard/src/core/emergency-exit.ts: the emergency halt, withdrawal and recovery of the
-- engine. A time is the epoch's milliseconds, also where the source stores its ISO text.
-- The Stellar SDK's signature check and SHA-256 are parameters. A halt or a recovery with a
-- notification hook waits for the hook while the lock is held: `settle` is the end of that wait.
pub mod Payload
pub mod Laws
pub mod Outcomes
mod Tests
use vero_audit_guard.Base.{
  ℕ, suc, ◌+◌, ◌-◌, ◌*◌, ◌/◌, ◌%◌, ◌^◌, Bool, true, false, not, Option, none, some, List, [], ◌∷◌,
  String, ltb, ◌==◌, if◌then◌else◌, str_eq, includes, zero,
}
use vero_audit_guard.Base.Int.{ℤ, pos, negsuc}
use Payload.{EmergencyCondition, EmergencyAuthPayload, canonical_payload}

pub data EngineStatus : Type 0 where
  active halted recovered : EngineStatus

pub record EngineState : Type 0 where
  pub status : EngineStatus
  pub triggered_at : Option ℕ
  pub reason : Option String
  pub state_version : ℤ

pub record SignedEmergencyAuth : Type 0 where
  pub payload : EmergencyAuthPayload
  pub signature : String

pub data Action : Type 0 where
  halt recovery : Action

pub record EmergencyReceipt : Type 0 where
  pub receipt_id : List ℕ
  pub action : Action
  pub status : EngineStatus
  -- `none` is the "RECOVERY" of a recovery's receipt.
  pub condition : Option EmergencyCondition
  pub caller_public_key : String
  pub reason : String
  pub triggered_at : ℕ
  pub prior_state_version : ℤ
  pub new_state_version : ℤ

pub record WithdrawalResult : Type 0 where
  pub receipt_id : List ℕ
  pub caller_public_key : String
  pub amount : ℤ
  pub remaining_balance : ℤ
  pub executed_at : ℕ

pub data Error : Type 0 where
  negative_operand overflow underflow : Error
  unknown_status negative_version : Error
  auth_expired no_addresses unknown_caller invalid_signature : Error
  reentrant already_halted invalid_state amount_not_positive : Error

pub data Result {ℓ} (A : Type ℓ) : Type ℓ where
  err : Error → Result A
  ok : A → Result A

-- The source throws on a failed guard.
abbrev pub guard : Bool → Error → Result (Unit {0})
guard passes x = if passes then ok tt else err x

infixl 5 ◌>>=◌
abbrev pub ◌>>=◌ {ℓ} : {A B : Type ℓ} → Result A → (A → Result B) → Result B
err x >>= next = err x
ok a >>= next = next a

infixl 5 ◌>>◌
abbrev pub ◌>>◌ {ℓ} : {B : Type ℓ} → Result (Unit {0}) → Result B → Result B
err x >> next = err x
ok u >> next = next

abbrev pub u64_max : ℕ
u64_max = 18446744073709551615

pub safe_add : ℤ → ℤ → Result ℤ
safe_add (pos a) (pos b) = if ltb u64_max (a + b) then err overflow else ok (pos (a + b))
safe_add _ _ = err negative_operand

pub safe_sub : ℤ → ℤ → Result ℤ
safe_sub (pos a) (pos b) = if ltb a b then err underflow else ok (pos (a - b))
safe_sub _ _ = err negative_operand

-- `Number(n)` of a `bigint`: the nearest multiple of `s`, ties to even, once 53 bits hold it.
round_at : ℕ → ℕ → ℕ
round_at s n =
    if ltb (2 * (n % s)) s
    then n / s * s
    else if ltb s (2 * (n % s))
    then (n / s + 1) * s
    else if n / s % 2 == 0
    then n / s * s
    else (n / s + 1) * s

-- Twelve spacings reach past 2 ^ 64, so the rounds suffice below it.
to_number_from : ℕ → ℕ → ℕ → ℕ
to_number_from zero s n = round_at s n
to_number_from (suc f) s n =
    let wider = to_number_from f (2 * s) n in if ltb n (2 ^ 53 * s) then round_at s n else wider

pub to_number : ℤ → ℤ
unfolding round_at to_number_from
to_number (pos n) = pos (to_number_from 12 1 n)
to_number z = z

pub record Config : Type 0 where
  pub authorized_addresses : List String
  pub auth_window_ms : ℕ
  -- A `notifyOnCall` hook is set.
  pub notifies : Bool

pub record Engine : Type 0 where
  pub state : EngineState
  pub locked : Bool

pub init : Engine
init = record {
  state = record { status = active; triggered_at = none; reason = none; state_version = pos 0 };
  locked = false;
}

pub is_halted : Engine → Bool
is_halted e = elim e.state.status [ halted ↦ true | _ ↦ false ]

parse_status : String → Option EngineStatus
parse_status s =
    if str_eq s "ACTIVE"
    then some active
    else if str_eq s "HALTED"
    then some halted
    else if str_eq s "RECOVERED"
    then some recovered
    else none

abbrev is_negative : ℤ → Bool
is_negative (pos n) = false
is_negative (negsuc n) = true

-- The status of a stored state is unchecked text.
pub set_state : Engine → String → Option ℕ → Option String → ℤ → Engine × Result (Unit {0})
set_state e status triggered_at reason version = elim (parse_status status) [
  | none ↦ (e, err unknown_status)
  | some s ↦ if is_negative version then (e, err negative_version) else (
    record e {
      state = record {
        status = s;
        triggered_at = triggered_at;
        reason = reason;
        state_version = version;
      };
    },
    ok tt,
  )
]

abbrev is_positive : ℤ → Bool
is_positive (pos (suc n)) = true
is_positive _ = false

abbrev is_empty {ℓ} : {A : Type ℓ} → List A → Bool
is_empty [] = true
is_empty _ = false

pub next_version : EngineState → Result ℤ
next_version s = do v ← safe_add s.state_version (pos 1); ok (to_number v)

-- `HALTED` refuses a halt; the other two operations ask for it.
pub check_halt : EngineState → Result (Unit {0})
check_halt s = elim s.status [ halted ↦ err already_halted | _ ↦ ok tt ]

pub check_halted : EngineState → Result (Unit {0})
check_halted s = elim s.status [ halted ↦ ok tt | _ ↦ err invalid_state ]

-- `verifies key message signature`: the SDK accepts the key and the signature (it may throw, which
-- the source treats as a refusal); `sha256` is the digest of a text's UTF-8 bytes.
module _ (verifies : String → List ℕ → String → Bool) (sha256 : List ℕ → List ℕ) (c : Config) where
  pub require_auth : SignedEmergencyAuth → ℕ → Result (Unit {0})
  require_auth auth now = do
    let p = auth.payload
    guard (not (ltb c.auth_window_ms ((now - p.timestamp) + (p.timestamp - now)))) auth_expired
    guard (not (is_empty c.authorized_addresses)) no_addresses
    guard (includes c.authorized_addresses p.caller_public_key) unknown_caller
    guard (verifies p.caller_public_key (canonical_payload p) auth.signature) invalid_signature

  pub halt_receipt : EngineState → SignedEmergencyAuth → ℕ → ℤ → EmergencyReceipt
  halt_receipt s auth now version = record {
    receipt_id = sha256 (canonical_payload auth.payload);
    action = halt;
    status = halted;
    condition = some auth.payload.condition;
    caller_public_key = auth.payload.caller_public_key;
    reason = auth.payload.reason;
    triggered_at = now;
    prior_state_version = s.state_version;
    new_state_version = version;
  }

  pub recovery_receipt : EngineState → SignedEmergencyAuth → ℕ → ℤ → EmergencyReceipt
  recovery_receipt s auth now version = record (halt_receipt s auth now version) {
    action = recovery;
    status = recovered;
    condition = none;
  }

  -- Between the guards and the assignment of `state` nothing is written.
  pub halting : EngineState → SignedEmergencyAuth → ℕ → Result EmergencyReceipt
  halting s auth now = do
    check_halt s
    require_auth auth now
    version ← next_version s
    ok (halt_receipt s auth now version)

  pub recovering : EngineState → SignedEmergencyAuth → ℕ → Result EmergencyReceipt
  recovering s auth now = do
    check_halted s
    require_auth auth now
    version ← next_version s
    ok (recovery_receipt s auth now version)

  -- The new state, and the lock, which is held on while a hook runs.
  pub conclude : Engine → Result EmergencyReceipt → Engine × Result EmergencyReceipt
  conclude e (err x) = (e, err x)
  conclude e (ok r) = (
    record {
      state = record {
        status = r.status;
        triggered_at = some r.triggered_at;
        reason = some r.reason;
        state_version = r.new_state_version;
      };
      locked = c.notifies;
    },
    ok r,
  )

  pub trigger_emergency_exit : Engine → SignedEmergencyAuth → ℕ → Engine × Result EmergencyReceipt
  trigger_emergency_exit e auth now =
      if e.locked then (e, err reentrant) else conclude e (halting e.state auth now)

  pub recover_engine : Engine → SignedEmergencyAuth → ℕ → Engine × Result EmergencyReceipt
  recover_engine e auth now =
      if e.locked then (e, err reentrant) else conclude e (recovering e.state auth now)

  pub withdrawing : EngineState → SignedEmergencyAuth → ℤ → ℤ → ℕ → Result WithdrawalResult
  withdrawing s auth amount balance now = do
    check_halted s
    guard (is_positive amount) amount_not_positive
    require_auth auth now
    remaining ← safe_sub balance amount
    ok (record {
      receipt_id = sha256 (canonical_payload auth.payload);
      caller_public_key = auth.payload.caller_public_key;
      amount = amount;
      remaining_balance = remaining;
      executed_at = now;
    })

  pub withdraw_funds : Engine → SignedEmergencyAuth → ℤ → ℤ → ℕ → Engine × Result WithdrawalResult
  withdraw_funds e auth amount balance now =
      if e.locked then (e, err reentrant) else (e, withdrawing e.state auth amount balance now)

-- The hook's promise has settled, either way.
pub settle : Engine → Engine
settle e = record e { locked = false }

pub data Call : Type 0 where
  halts recovers : SignedEmergencyAuth → (now : ℕ) → Call
  withdraws : SignedEmergencyAuth → (amount balance : ℤ) (now : ℕ) → Call
  settles : Call

module _ (verifies : String → List ℕ → String → Bool) (sha256 : List ℕ → List ℕ) (c : Config) where
  pub step : Engine → Call → Engine
  step e (halts auth now) = (trigger_emergency_exit verifies sha256 c e auth now).0
  step e (recovers auth now) = (recover_engine verifies sha256 c e auth now).0
  step e (withdraws auth amount balance now) =
      (withdraw_funds verifies sha256 c e auth amount balance now).0
  step e settles = settle e

  pub run : Engine → List Call → Engine
  run e [] = e
  run e (x ∷ xs) = run (step e x) xs
