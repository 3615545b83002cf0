-- ===== src/Emergency/Tests.antt =====
-- Runs of the emergency engine, and instances of its theorems.
use vero_audit_guard.Base.{
  ℕ, ◌+◌, ◌<◌, ◌≡◌, refl, Bool, true, false, List, [], ◌∷◌, String, arith, str_eq,
}
use vero_audit_guard.Base.Int.{pos}
use vero_audit_guard.Emergency.Payload.{
  EmergencyAuthPayload, critical_exploit, canonical_payload, canonical_payload-injective,
}
use vero_audit_guard.Emergency.Laws.{IsAuthorized}
use vero_audit_guard.Emergency.Outcomes.{halt_payload_recovers, withdraw_funds-returns, run-Refused}
use vero_audit_guard.Emergency.{
  halted, SignedEmergencyAuth, EmergencyReceipt, WithdrawalResult, ok, err, Config, Engine, init,
  require_auth, halt_receipt, recovery_receipt, next_version, trigger_emergency_exit,
  recover_engine, withdraw_funds, settle, halts, run, halting, is_halted, recovering,
  already_halted, withdrawing, auth_expired, invalid_signature, conclude, check_halt, underflow,
  check_halted, safe_add, safe_sub, to_number,
}

-- A signature is genuine if it is the key itself; a digest is the text.
abbrev verifies : String → List ℕ → String → Bool
verifies key text signature = str_eq key signature

abbrev sha256 : List ℕ → List ℕ
sha256 text = text

abbrev config : Config
config = record { authorized_addresses = "GA" ∷ []; auth_window_ms = 100; notifies = true }

abbrev payload : EmergencyAuthPayload
payload = record {
  caller_public_key = "GA";
  condition = critical_exploit;
  reason = "drain";
  timestamp = 1000;
}

abbrev auth : SignedEmergencyAuth
auth = record { payload = payload; signature = "GA" }

abbrev forged : SignedEmergencyAuth
forged = record { payload = payload; signature = "GB" }

engine : Unit {0}
unfolding trigger_emergency_exit recover_engine withdraw_funds halting recovering withdrawing
    conclude require_auth next_version check_halt check_halted safe_add safe_sub to_number init
    settle halt_receipt recovery_receipt is_halted
engine = tt

-- An engine that an authorised payload has halted, after the hook.
abbrev stopped : Engine
stopped = settle (trigger_emergency_exit verifies sha256 config init auth 1000).0

engine_tests :
    (is_halted stopped ≡ true)
    × (stopped.state.state_version ≡ pos 1)
    × ((trigger_emergency_exit verifies sha256 config stopped auth 1000).1 ≡ err already_halted)
    × ((trigger_emergency_exit verifies sha256 config init auth 2000).1 ≡ err auth_expired)
    × ((trigger_emergency_exit verifies sha256 config init forged 1000).1 ≡ err invalid_signature)
    × ((withdraw_funds verifies sha256 config stopped auth (pos 9) (pos 5) 1000).1 ≡ err underflow)
unfolding engine
engine_tests = (refl, refl, refl, refl, refl, refl)

canonical_payload-injective_example : payload ≡ payload
canonical_payload-injective_example = canonical_payload-injective payload payload refl

abbrev receipt : EmergencyReceipt
receipt = halt_receipt verifies sha256 config (init.state) auth 1000 (pos 1)

abbrev recovery_of_stopped : EmergencyReceipt
recovery_of_stopped = recovery_receipt verifies sha256 config (stopped.state) auth 1010 (pos 2)

halt_payload_recovers_example :
    (recover_engine verifies sha256 config stopped auth 1000).1
    ≡ ok (recovery_receipt verifies sha256 config stopped.state auth 1000 (pos 2))
unfolding engine
halt_payload_recovers_example =
    halt_payload_recovers verifies sha256 config init auth 1000 receipt (pos 2) refl refl

abbrev restored : Engine
restored = settle (recover_engine verifies sha256 config stopped auth 1000).0

authorized : IsAuthorized verifies sha256 config auth 1010
authorized = record { fresh = omega arith; listed = refl; genuine = refl }

abbrev approved : WithdrawalResult
approved = record {
  receipt_id = canonical_payload payload;
  caller_public_key = "GA";
  amount = pos 3;
  remaining_balance = pos 4;
  executed_at = 1000;
}

withdraw_funds-returns_example :
    ((withdraw_funds verifies sha256 config stopped auth (pos 3) (pos 7) 1000).0 ≡ stopped)
    × (stopped.locked ≡ false)
    × (stopped.state.status ≡ halted)
    × IsAuthorized verifies sha256 config auth 1000
    × ((x y : ℕ) × (0 < y) × (pos 3 ≡ pos y) × (pos 7 ≡ pos (x + y)) × (pos 4 ≡ pos x))
    × (pos 3 ≡ pos 3)
unfolding engine
withdraw_funds-returns_example =
    withdraw_funds-returns verifies sha256 config stopped auth (pos 3) (pos 7) 1000 approved refl

forgery : ¬ IsAuthorized verifies sha256 config forged 1000
forgery h = let p = h.genuine in cc

run-Refused_example : (run verifies sha256 config init (halts forged 1000 ∷ [])).state ≡ init.state
run-Refused_example = run-Refused verifies sha256 config init (halts forged 1000 ∷ []) (forgery, tt)
