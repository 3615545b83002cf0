-- ===== src/Notifier.antt =====
-- src/audit-guard/src/multisig-webhook-notifier.ts: the signed webhook notifications to the signers.
-- A call's effects are the list of its requests and of its pages to the on-call roster. The answers
-- of the endpoints, HMAC-SHA256 (from a secret and a text) and `JSON.stringify` of the metadata
-- (`none` if it throws) are parameters, as is the clock's text. Endpoints are texts as code points,
-- and the values of the timeout and of the time stamps of a result are left out. What the roster does
-- with a page, and whether that throws, has no effect on the result.
pub mod Delivery
mod Tests
use vero_audit_guard.Base.{
  ℕ, suc, List, Bool, Option, String, if◌then◌else◌, length, keep, ◌++◌, false, ◌∷◌, some, not, map,
  [], trim, none, true, str_eq, ltb, ◌&&◌, ◌||◌, split, ◌==◌, leb,
}
use vero_audit_guard.Base.Json.{code_points, quote, key, field}
use vero_audit_guard.Dispatcher.{Metadata, is_severity, no_text, bad_metadata}

-- `none` is a property of another type than text, except where it may be missing.
pub data Address : Type 0 where
  no_address : Address
  address : Option String → Address

pub record CriticalAnomalyInput : Type 0 where
  pub kind : Option String
  pub severity : Option String
  pub message : Option String
  pub detail : Option String
  pub address : Address
  pub timestamp : Option String
  pub metadata : Metadata

pub data Field : Type 0 where
  kind_field severity_field message_field detail_field timestamp_field metadata_field : Field
  address_field : Field

pub data DeliveryError : Type 0 where
  non_2xx : (status : ℕ) → DeliveryError
  timed_out network_error : DeliveryError

pub data WebhookNotificationError : Type 0 where
  bad_field : Field → WebhookNotificationError
  unserializable no_secret no_endpoints : WebhookNotificationError
  delivery : DeliveryError → WebhookNotificationError

-- How a request ends: a response, whose status may be no number; an error of the HTTP client, with
-- its code and the status of a response, if any; or another exception.
pub data Answer : Type 0 where
  response : (status : Option ℕ) → Answer
  client_error : (code : Option String) → (status : Option ℕ) → Answer
  other_error : Answer

pub record EndpointDeliveryResult : Type 0 where
  pub url : List ℕ
  pub delivered : Bool
  pub error : Option DeliveryError

pub record WebhookNotifyResult : Type 0 where
  pub success_count : ℕ
  pub failure_count : ℕ
  pub endpoints : List EndpointDeliveryResult

pub data Outcome : Type 0 where
  notified : WebhookNotifyResult → Outcome
  thrown : WebhookNotificationError → Outcome

pub data Effect : Type 0 where
  post : (url body : List ℕ) → (signature : String) → Effect
  page : (failed : List (List ℕ)) → (total : ℕ) → Effect

pub record MultisigWebhookNotifier : Type 0 where
  pub secret : String
  pub endpoints : List (List ℕ)
  pub throw_on_any_failure : Bool

abbrev is_nonempty : List ℕ → Bool
is_nonempty [] = false
is_nonempty (c ∷ cs) = true

-- The constructor's list of endpoints: split at the commas, trimmed, without the empty ones.
pub endpoints_of : String → List (List ℕ)
endpoints_of raw_urls = keep is_nonempty (map trim (split b',' (code_points raw_urls)))

pub is_configured : MultisigWebhookNotifier → Bool
is_configured n = not (str_eq n.secret "") && ltb 0 (length n.endpoints)

abbrev bad_address : Address → Bool
bad_address no_address = false
bad_address (address a) = no_text a

abbrev bad_time : (String → Bool) → Option String → Bool
bad_time parses none = false
bad_time parses (some t) = not (parses t)

-- The first field that is refused.
pub validate_input : (String → Bool) → CriticalAnomalyInput → Option Field
validate_input parses x =
    if no_text x.kind
    then some kind_field
    else if not (is_severity x.severity)
    then some severity_field
    else if no_text x.message
    then some message_field
    else if no_text x.detail
    then some detail_field
    else if bad_time parses x.timestamp
    then some timestamp_field
    else if bad_metadata x.metadata
    then some metadata_field
    else if bad_address x.address
    then some address_field
    else none

abbrev or_status : Option ℕ → ℕ
or_status none = 0
or_status (some n) = n

abbrev failed : List ℕ → DeliveryError → EndpointDeliveryResult
failed url x = record { url = url; delivered = false; error = some x }

abbrev is_timeout : Option String → Bool
is_timeout none = false
is_timeout (some c) = str_eq c "ECONNABORTED" || str_eq c "ERR_CANCELED"

pub deliver_to_endpoint : List ℕ → Answer → EndpointDeliveryResult
deliver_to_endpoint url (response s) =
    if ltb (or_status s) 200 || leb 300 (or_status s)
    then failed url (non_2xx (or_status s))
    else record { url = url; delivered = true; error = none }
deliver_to_endpoint url (client_error code (some s)) = failed url (non_2xx s)
deliver_to_endpoint url (client_error code none) =
    if is_timeout code then failed url timed_out else failed url network_error
deliver_to_endpoint url other_error = failed url network_error

-- The endpoints are numbered from `i`.
pub deliver_all : (ℕ → Answer) → ℕ → List (List ℕ) → List EndpointDeliveryResult
deliver_all answer i [] = []
deliver_all answer i (url ∷ urls) =
    deliver_to_endpoint url (answer i) ∷ deliver_all answer (suc i) urls

abbrev text_of : Option String → String
text_of none = ""
text_of (some s) = s

abbrev address_json : Address → List ℕ → List ℕ
address_json (address (some a)) rest = field "address" a rest
address_json _ rest = rest

abbrev or_now : String → Option String → String
or_now now none = now
or_now now (some t) = t

-- `JSON.stringify(payload)`, the properties in their order.
pub json_body : CriticalAnomalyInput → (metadata : List ℕ) → (now : String) → List ℕ
json_body x metadata now =
    code_points
      "{\"source\":\"vero-audit-guard\",\"event\":\"CRITICAL_ANOMALY_DETECTED\",\"anomaly\":{"
    ++ field "type" (text_of x.kind) (
        field "severity" (text_of x.severity) (
          field "message" (text_of x.message) (
            field "detail" (text_of x.detail) (
              address_json x.address (
                key "metadata" (
                  metadata
                  ++ b'}'
                    ∷ b','
                    ∷ field "detectedAt" (or_now now x.timestamp)
                        (key "notifiedAt" (quote now (b'}' ∷ [])))))))))

abbrev is_failure : EndpointDeliveryResult → Bool
is_failure r = not r.delivered

pub failures_of : List EndpointDeliveryResult → List EndpointDeliveryResult
failures_of = keep is_failure

abbrev as_result : List EndpointDeliveryResult → WebhookNotifyResult
as_result rs = record {
  success_count = length (keep (λ r. r.delivered) rs);
  failure_count = length (failures_of rs);
  endpoints = rs;
}

-- The result, unless the first failure's error is to be thrown.
pub result_of :
    MultisigWebhookNotifier → List EndpointDeliveryResult → List EndpointDeliveryResult → Outcome
result_of n rs [] = notified (as_result rs)
result_of n rs (f ∷ fs) = elim f.error [
  | none ↦ notified (as_result rs)
  | some x ↦ if n.throw_on_any_failure then thrown (delivery x) else notified (as_result rs)
]

pub pages_for : MultisigWebhookNotifier → List EndpointDeliveryResult → List Effect
pages_for n [] = []
pages_for n (f ∷ fs) = page (map (λ r. r.url) (f ∷ fs)) (length n.endpoints) ∷ []

module _ (parses : String → Bool) (hmac : String → List ℕ → String)
    (metadata_json : Option (List ℕ)) (answer : ℕ → Answer) (now : String) where
  abbrev refused : WebhookNotificationError → List Effect × Outcome
  refused x = ([], thrown x)

  -- Steps 4 to 6, with the body of the requests.
  pub send : MultisigWebhookNotifier → List ℕ → List Effect × Outcome
  send n body =
      let results = deliver_all answer 0 n.endpoints in
      let failures = failures_of results in
      (
        map (λ url. post url body (hmac n.secret body)) n.endpoints ++ pages_for n failures,
        result_of n results failures,
      )

  pub serialize :
      MultisigWebhookNotifier → CriticalAnomalyInput → Option (List ℕ) → List Effect × Outcome
  serialize n x none = refused unserializable
  serialize n x (some metadata) = send n (json_body x metadata now)

  pub checked :
      MultisigWebhookNotifier → CriticalAnomalyInput → Option Field → List Effect × Outcome
  checked n x (some f) = refused (bad_field f)
  checked n x none =
      if str_eq n.secret ""
      then refused no_secret
      else if length n.endpoints == 0
      then refused no_endpoints
      else serialize n x metadata_json

  pub notify_signers : MultisigWebhookNotifier → CriticalAnomalyInput → List Effect × Outcome
  notify_signers n x = checked n x (validate_input parses x)
