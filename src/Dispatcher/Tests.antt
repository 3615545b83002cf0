-- ===== src/Dispatcher/Tests.antt =====
-- Runs of the dispatcher, and an instance of its theorem.
use vero_audit_guard.Base.{
  ◌≡◌, refl, true, false, none, some, List, [], ◌∷◌, String, Bool, is_blank,
}
use vero_audit_guard.Dispatcher.Batch.{arrivals}
use vero_audit_guard.Dispatcher.{
  AnomalyAlertInput, no_metadata, Answer, acknowledged, throws, Config, Dispatcher, dispatch_batch,
  init, run, step, dispatch_each, dispatch, deliver, send, captured, shutdown, validate_alert,
  is_severity, batches, shuts_down,
}

abbrev parses : String → Bool
parses s = true

abbrev alert : String → AnomalyAlertInput
alert severity = record {
  kind = some "NONCE_SPIKE";
  severity = some severity;
  message = some "jump";
  detail = some "5 to 90";
  metadata = no_metadata;
  timestamp = none;
}

abbrev config : Config
config = record { has_client = true; non_blocking = false }

-- One alert arrives, one is refused, and the dashboard is down for the last.
abbrev three : List (AnomalyAlertInput × Answer)
three = (alert "HIGH", acknowledged) ∷ (alert "SEVERE", acknowledged) ∷ (alert "LOW", throws) ∷ []

dispatcher_tests :
    (arrivals parses config three ≡ 1)
    × ((run parses config init (batches three ∷ shuts_down ∷ batches three ∷ [])).failed_count ≡ 2)
unfolding init run step dispatch_batch dispatch_each dispatch deliver send captured shutdown
    validate_alert is_severity is_blank
dispatcher_tests = (refl, refl)
