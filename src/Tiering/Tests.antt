-- ===== src/Tiering/Tests.antt =====
-- Runs of the tiering engine, and instances of its theorems.
use vero_audit_guard.Base.{
  ℕ, ◌≤◌, ◌≡◌, refl, ◌⊎◌, inl, inr, true, false, none, some, List, [], ◌∷◌, length, arith, leb,
  is_blank, is_white,
}
use vero_audit_guard.Base.Dict.{lookup, insert}
use vero_audit_guard.Tiering.Policy.{
  classify_event-le, classify_event-lowers, evaluate_and_escalate-records,
}
use vero_audit_guard.Tiering.{
  medium, high, critical, ConfirmedEvent, DrivenAlertAction, TieringError, Options, Engine, weight,
  validate, classify_event, evaluate_and_escalate, valid_history, mentions, critical_keywords,
  time_or, alert_driven, failure_surfaced, dispatch_escalation, action_of, estimated_size,
  not_confirmed, is_malicious, contains, starts, base_tier, repeat_tier, value_tier, keyword_tier,
  combined_text, join, elevate_tier, burst_tier, high_keywords, medium_keywords, record_action,
  surface_failure, escalation_targets_of, retry_count_of,
}

abbrev lower : List ℕ → List ℕ
lower text = text

abbrev defaults : Options
defaults = record {
  burst_window = 300;
  low_to_medium = 3;
  medium_to_high = 3;
  high_to_critical = 3;
  max_payload_bytes = 65536;
  high_value = 1000000;
}

abbrev rising : Options
rising = record defaults { medium_to_high = 5; high_to_critical = 9 }

abbrev empty : Engine
empty = record { event_history = []; telemetry_stream = [] }

abbrev event : ConfirmedEvent
event = record {
  id = "e1";
  event_type = "double_spend";
  source = "chain";
  timestamp = 1000;
  confirmed = true;
  raw_severity = some critical;
  matched_signals = [];
  actor = none;
  repository = none;
  message = none;
  repeat_count = some 4;
  amount = some 2000000;
}

tiering : Unit {0}
unfolding classify_event evaluate_and_escalate validate estimated_size is_malicious contains starts
    base_tier repeat_tier value_tier keyword_tier mentions combined_text join elevate_tier
    burst_tier valid_history critical_keywords high_keywords medium_keywords record_action action_of
    surface_failure escalation_targets_of retry_count_of dispatch_escalation lookup insert is_blank
    is_white
tiering = tt

tiering_tests :
    ((classify_event lower defaults empty event).1 ≡ inr critical)
    × ((classify_event lower rising empty event).1 ≡ inr medium)
    × ((classify_event lower defaults empty (record event { confirmed = false })).1
        ≡ inl not_confirmed)
    × (length (evaluate_and_escalate lower defaults empty event 7).0.telemetry_stream ≡ 1)
    × ((dispatch_escalation empty
          (action_of lower defaults event high 7)
          (some true)
          (some false)).1
        ≡ false)
unfolding tiering
tiering_tests = (refl, refl, refl, refl, refl)

classify_event-le_example :
    (4 ≤ weight critical)
    × (mentions lower defaults critical_keywords event ≡ true → critical ≡ critical)
    × ((v : ℕ) → some 2000000 ≡ some v → 1000000 ≤ v → 3 ≤ weight critical)
unfolding tiering
classify_event-le_example =
    classify_event-le lower defaults empty event critical (omega arith, omega arith) refl

classify_event-lowers_example : (classify_event lower rising empty event).1 ≡ inr medium
unfolding tiering
classify_event-lowers_example =
    classify_event-lowers lower rising empty event 4 refl refl refl (omega arith) (omega arith)
      (omega arith) (omega arith)

evaluate_and_escalate-records_example :
    let x = evaluate_and_escalate lower defaults empty event 7 in
    ((f : TieringError) × (x.1 ≡ inl f)
      × (validate defaults event ≡ some f)
      × (x.0.event_history ≡ [])
      × (x.0.telemetry_stream ≡ failure_surfaced 1 (time_or lower defaults event 7) "e1" f ∷ []))
    ⊎ ((a : DrivenAlertAction) × (x.1 ≡ inr a)
        × (validate defaults event ≡ none)
        × (x.0.telemetry_stream ≡ alert_driven 1 a.timestamp "e1" a.calculated_tier ∷ [])
        × (a.requires_ack ≡ leb 3 (weight a.calculated_tier)))
evaluate_and_escalate-records_example = evaluate_and_escalate-records lower defaults empty event 7
