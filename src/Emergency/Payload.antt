-- ===== src/Emergency/Payload.antt =====
-- src/audit-guard/src/core/emergency-exit.ts: the signed payload and its canonical JSON text.
use vero_audit_guard.Base.{
  ℕ, ◌≡◌, refl, sym, ap, ◌∙◌, List, [], ◌∷◌, ◌++◌, String, if◌then◌else◌, str_eq, decimal,
}
use vero_audit_guard.Base.Json.{quote, key, after, after_key, after_text, decimal-inj}

pub data EmergencyCondition : Type 0 where
  critical_exploit unauthorized_state consensus_failure governance_override : EmergencyCondition
  manual_admin_halt : EmergencyCondition

pub record EmergencyAuthPayload : Type 0 where
  pub caller_public_key : String
  pub condition : EmergencyCondition
  pub reason : String
  pub timestamp : ℕ

abbrev condition_name : EmergencyCondition → String
condition_name critical_exploit = "CRITICAL_EXPLOIT"
condition_name unauthorized_state = "UNAUTHORIZED_STATE"
condition_name consensus_failure = "CONSENSUS_FAILURE"
condition_name governance_override = "GOVERNANCE_OVERRIDE"
condition_name manual_admin_halt = "MANUAL_ADMIN_HALT"

-- `JSON.stringify` of the four properties in their fixed order.
unfoldable pub canonical_payload : EmergencyAuthPayload → List ℕ
canonical_payload p =
    b'{'
    ∷ key "callerPublicKey" (
        quote p.caller_public_key (
          b','
          ∷ key "condition" (
              quote (condition_name p.condition) (
                b','
                ∷ key "reason"
                    (quote p.reason (b',' ∷ key "timestamp" (decimal p.timestamp ++ b'}' ∷ [])))))))

condition_of : String → EmergencyCondition
condition_of s =
    if str_eq s "CRITICAL_EXPLOIT"
    then critical_exploit
    else if str_eq s "UNAUTHORIZED_STATE"
    then unauthorized_state
    else if str_eq s "CONSENSUS_FAILURE"
    then consensus_failure
    else if str_eq s "GOVERNANCE_OVERRIDE"
    then governance_override
    else manual_admin_halt

condition_of_name : (c : EmergencyCondition) → condition_of (condition_name c) ≡ c
unfolding condition_of
condition_of_name critical_exploit = refl
condition_of_name _ = refl

payload-eq :
    (p q : EmergencyAuthPayload)
    → p.caller_public_key ≡ q.caller_public_key
    → p.condition ≡ q.condition
    → p.reason ≡ q.reason
    → p.timestamp ≡ q.timestamp
    → p ≡ q
payload-eq p q a b c d =
    λ i. record { caller_public_key = a i; condition = b i; reason = c i; timestamp = d i }

-- Two payloads with one canonical text are the same payload: a signature over the text is a
-- signature over the caller, the condition, the reason and the time.
pub canonical_payload-injective :
    (p q : EmergencyAuthPayload) → canonical_payload p ≡ canonical_payload q → p ≡ q
unfolding canonical_payload
canonical_payload-injective p q e =
    let e1 = after_key "callerPublicKey" _ _ (after b'{' _ _ e) in
    let (caller, e2) = after_text p.caller_public_key q.caller_public_key _ _ e1 in
    let e3 = after_key "condition" _ _ e2 in
    let (named, e4) = after_text (condition_name p.condition) (condition_name q.condition) _ _ e3 in
    let e5 = after_key "reason" _ _ e4 in
    let (reason, e6) = after_text p.reason q.reason _ _ e5 in
    let condition =
      sym (condition_of_name p.condition) ∙ ap condition_of named ∙ condition_of_name q.condition in
    payload-eq p q caller condition reason
      (decimal-inj p.timestamp q.timestamp [] [] (after_key "timestamp" _ _ e6)).0
