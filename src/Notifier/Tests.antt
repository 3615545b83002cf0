-- ===== src/Notifier/Tests.antt =====
-- Runs of the notifier, and instances of its theorems.
use vero_audit_guard.Base.{
  ℕ, zero, suc, ◌≡◌, refl, Bool, true, Option, none, some, List, [], ◌∷◌, String, is_blank, trim,
  split, suc,
}
use vero_audit_guard.Dispatcher.{no_metadata, is_severity}
use vero_audit_guard.Notifier.Delivery.{NeverSilent, arrivals, pages, notify_signers-NeverSilent}
use vero_audit_guard.Notifier.{
  CriticalAnomalyInput, no_address, Answer, response, client_error, MultisigWebhookNotifier,
  endpoints_of, notify_signers, validate_input, checked, serialize, send, deliver_all,
  deliver_to_endpoint, failures_of, result_of, pages_for, thrown, delivery, timed_out,
}

abbrev parses : String → Bool
parses s = true

abbrev hmac : String → List ℕ → String
hmac secret body = secret

abbrev answer : ℕ → Answer
answer zero = response (some 204)
answer (suc i) = client_error (some "ECONNABORTED") none

abbrev anomaly : CriticalAnomalyInput
anomaly = record {
  kind = some "NONCE_SPIKE";
  severity = some "CRITICAL";
  message = some "jump";
  detail = some "5 to 90";
  address = no_address;
  timestamp = none;
  metadata = no_metadata;
}

abbrev notifier : MultisigWebhookNotifier
notifier = record { secret = "s"; endpoints = endpoints_of " a, ,b"; throw_on_any_failure = true }

abbrev braces : Option (List ℕ)
braces = some (b'{' ∷ b'}' ∷ [])

notifier_guard : Unit {0}
unfolding endpoints_of split trim notify_signers validate_input checked serialize send deliver_all
    deliver_to_endpoint failures_of result_of pages_for is_severity is_blank
notifier_guard = tt

notifier_tests :
    (notifier.endpoints ≡ (97 ∷ []) ∷ (98 ∷ []) ∷ [])
    × (pages (notify_signers parses hmac braces answer "now" notifier anomaly).0 ≡ 1)
    × ((notify_signers parses hmac braces answer "now" notifier anomaly).1
        ≡ thrown (delivery timed_out))
unfolding notifier_guard
notifier_tests = (refl, refl, refl)

notify_signers-NeverSilent_example :
    NeverSilent notifier
      (arrivals answer 0 notifier.endpoints)
      (notify_signers parses hmac braces answer "now" notifier anomaly)
notify_signers-NeverSilent_example =
    notify_signers-NeverSilent parses hmac braces answer "now" notifier anomaly
