-- ===== src/Dispatcher.antt =====
-- src/audit-guard/src/anomaly-alert-dispatcher.ts: the dispatcher of anomaly alerts to the dashboard.
-- The dashboard's answer to a call is an argument, as are the clock's text and what `Date.parse`
-- takes. Logging, messages of errors and the contents of metadata are left out.
pub mod Batch
mod Tests
use vero_audit_guard.Base.{
  ℕ, suc, if◌then◌else◌, List, Bool, true, Option, String, false, some, ◌∷◌, none, is_blank, str_eq,
  not, ◌||◌, [],
}

-- `none` is a property of another type than text.
pub data Metadata : Type 0 where
  no_metadata plain_object other_metadata : Metadata

pub record AnomalyAlertInput : Type 0 where
  pub kind : Option String
  pub severity : Option String
  pub message : Option String
  pub detail : Option String
  pub metadata : Metadata
  pub timestamp : Option String

pub data Field : Type 0 where
  kind_field severity_field message_field detail_field timestamp_field metadata_field : Field

pub data DispatchError : Type 0 where
  dashboard_delivery dispatcher_shutdown : DispatchError
  alert_validation : Field → DispatchError

pub record DispatchResult : Type 0 where
  pub delivered : Bool
  pub error : Option DispatchError

pub data Outcome : Type 0 where
  returned : DispatchResult → Outcome
  thrown : DispatchError → Outcome

-- How `sendAlert` ends.
pub data Answer : Type 0 where
  acknowledged unconfirmed throws : Answer

pub record Config : Type 0 where
  pub has_client : Bool
  pub non_blocking : Bool

pub record Dispatcher : Type 0 where
  pub is_shutdown : Bool
  pub delivered_count : ℕ
  pub failed_count : ℕ

pub init : Dispatcher
init = record { is_shutdown = false; delivered_count = 0; failed_count = 0 }

unfoldable pub is_severity : Option String → Bool
is_severity none = false
is_severity (some s) = str_eq s "LOW" || str_eq s "MEDIUM" || str_eq s "HIGH" || str_eq s "CRITICAL"

abbrev pub no_text : Option String → Bool
no_text none = true
no_text (some s) = is_blank s

abbrev pub bad_metadata : Metadata → Bool
bad_metadata other_metadata = true
bad_metadata _ = false

module _ (parses : String → Bool) where
  abbrev bad_time : Option String → Bool
  bad_time none = false
  bad_time (some t) = not (parses t)

  -- The first field that is refused.
  pub validate_alert : AnomalyAlertInput → Option Field
  validate_alert x =
      if no_text x.kind
      then some kind_field
      else if not (is_severity x.severity)
      then some severity_field
      else if no_text x.message
      then some message_field
      else if no_text x.detail
      then some detail_field
      else if bad_time x.timestamp
      then some timestamp_field
      else if bad_metadata x.metadata
      then some metadata_field
      else none

abbrev failing : Dispatcher → Dispatcher
failing d = record d { failed_count = suc d.failed_count }

-- A failed delivery: returned in the result, or thrown in blocking mode.
abbrev undelivered : Config → Outcome
undelivered c =
    if c.non_blocking
    then returned (record { delivered = false; error = some dashboard_delivery })
    else thrown dashboard_delivery

pub send : Config → Dispatcher → Answer → Dispatcher × Outcome
send c d acknowledged = (
  record d { delivered_count = suc d.delivered_count },
  returned (record { delivered = true; error = none }),
)
send c d unconfirmed = (failing d, undelivered c)
send c d throws = (failing d, undelivered c)

pub deliver : Config → Dispatcher → Answer → Option Field → Dispatcher × Outcome
deliver c d a (some f) = (failing d, thrown (alert_validation f))
deliver c d a none =
    if c.has_client
    then send c d a
    else (failing d, returned (record { delivered = false; error = none }))

-- A thrown error is a result of the batch.
pub captured : Outcome → DispatchResult
captured (returned r) = r
captured (thrown x) = record { delivered = false; error = some x }

pub shutdown : Dispatcher → Dispatcher
shutdown d = record d { is_shutdown = true }

module _ (parses : String → Bool) (c : Config) where
  pub dispatch : Dispatcher → AnomalyAlertInput → Answer → Dispatcher × Outcome
  dispatch d x a =
      if d.is_shutdown
      then (d, thrown dispatcher_shutdown)
      else deliver c d a (validate_alert parses x)

  pub dispatch_each :
      Dispatcher → List (AnomalyAlertInput × Answer) → Dispatcher × List DispatchResult
  dispatch_each d [] = (d, [])
  dispatch_each d ((x, a) ∷ xs) =
      let here = dispatch d x a in
      let rest = dispatch_each (here.0) xs in (rest.0, captured (here.1) ∷ rest.1)

  -- `none` is the exception of a dispatcher that has been shut down.
  pub dispatch_batch :
      Dispatcher → List (AnomalyAlertInput × Answer) → Option (Dispatcher × List DispatchResult)
  dispatch_batch d xs = if d.is_shutdown then none else some (dispatch_each d xs)

pub data Call : Type 0 where
  dispatches : AnomalyAlertInput → Answer → Call
  batches : List (AnomalyAlertInput × Answer) → Call
  shuts_down : Call

abbrev state_or : Dispatcher → Option (Dispatcher × List DispatchResult) → Dispatcher
state_or d none = d
state_or d (some (d', rs)) = d'

module _ (parses : String → Bool) (c : Config) where
  pub step : Dispatcher → Call → Dispatcher
  step d (dispatches x a) = (dispatch parses c d x a).0
  step d (batches xs) = state_or d (dispatch_batch parses c d xs)
  step d shuts_down = shutdown d

  pub run : Dispatcher → List Call → Dispatcher
  run d [] = d
  run d (x ∷ xs) = run (step d x) xs
