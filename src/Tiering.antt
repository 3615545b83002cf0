-- ===== src/Tiering.antt =====
-- src/audit-guard/src/severity-tiering.ts: the tier of a confirmed event, its escalation, and the
-- telemetry of both. Times are whole numbers, in the caller's unit; the lower-casing of a text is a
-- parameter. `t >= timestamp - window` is written without a negative number. Texts are counted and
-- searched as UTF-16 code units.
pub mod Policy
mod Tests
use vero_audit_guard.Base.{
  ℕ, suc, ◌+◌, Bool, true, false, not, inl, inr, ◌⊎◌, ◌&&◌, ◌||◌, Option, none, some, List, [], ◌∷◌,
  ◌++◌, String, ltb, leb, ◌==◌, if◌then◌else◌, length, keep, some_of, str_eq, is_blank, code_units,
}
use vero_audit_guard.Base.Dict.{Dict, lookup, insert}

pub data SeverityTier : Type 0 where
  low medium high critical : SeverityTier

pub data EscalationTarget : Type 0 where
  telemetry_log dashboard_alert on_call_primary all_on_call_roles : EscalationTarget

pub record ConfirmedEvent : Type 0 where
  pub id : String
  pub event_type : String
  pub source : String
  pub timestamp : ℕ
  pub confirmed : Bool
  pub raw_severity : Option SeverityTier
  pub matched_signals : List String
  pub actor : Option String
  pub repository : Option String
  pub message : Option String
  pub repeat_count : Option ℕ
  pub amount : Option ℕ

pub record DrivenAlertAction : Type 0 where
  pub event_id : String
  pub calculated_tier : SeverityTier
  pub escalation_targets : List EscalationTarget
  pub requires_ack : Bool
  pub retry_count : ℕ
  pub timestamp : ℕ
  pub observational_only : Bool

pub data TieringError : Type 0 where
  not_confirmed empty_id invalid_timestamp payload_too_large malicious_pattern : TieringError
  on_call_paging_failed : TieringError

pub data TelemetryRecord : Type 0 where
  alert_driven : (id : ℕ) (timestamp : ℕ) (event : String) → SeverityTier → TelemetryRecord
  failure_surfaced : (id : ℕ) (timestamp : ℕ) (event : String) → TieringError → TelemetryRecord

pub record Options : Type 0 where
  pub burst_window : ℕ
  pub low_to_medium : ℕ
  pub medium_to_high : ℕ
  pub high_to_critical : ℕ
  pub max_payload_bytes : ℕ
  pub high_value : ℕ

pub record Engine : Type 0 where
  pub event_history : Dict (List ℕ)
  pub telemetry_stream : List TelemetryRecord

-- `TIER_WEIGHTS`
abbrev pub weight : SeverityTier → ℕ
weight low = 1
weight medium = 2
weight high = 3
weight critical = 4

pub elevate_tier : SeverityTier → SeverityTier → SeverityTier
elevate_tier current candidate =
    if ltb (weight current) (weight candidate) then candidate else current

-- `text.includes(word)`
unfoldable pub starts : List ℕ → List ℕ → Bool
starts [] text = true
starts (c ∷ cs) [] = false
starts (c ∷ cs) (d ∷ ds) = c == d && starts cs ds

unfoldable pub contains : List ℕ → List ℕ → Bool
contains word [] = starts word []
contains word (d ∷ ds) = starts word (d ∷ ds) || contains word ds

pub critical_keywords : List String
critical_keywords =
    "private_key" ∷ "token_leak" ∷ "key_compromise" ∷ "emergency_exit" ∷ "zk_proof_invalid"
    ∷ "unauthorized_state" ∷ "reentrancy" ∷ "double_spend" ∷ []

high_keywords : List String
high_keywords =
    "unauthorized" ∷ "access denied" ∷ "permission denied" ∷ "privilege_escalation"
    ∷ "relayer_state_mismatch" ∷ "admin_override" ∷ "auth_failure" ∷ []

medium_keywords : List String
medium_keywords =
    "input_sanitization" ∷ "gas_spike" ∷ "nonce_desync" ∷ "rate_limit_exceeded" ∷ "log_anomaly"
    ∷ "warning" ∷ []

abbrev units : Option String → List ℕ
units none = []
units (some s) = code_units s

is_malicious : List ℕ → Bool
is_malicious text =
    contains (0 ∷ []) text
    || contains (code_units "<script>") text
    || contains (code_units "DROP TABLE") text

pub estimated_size : ConfirmedEvent → ℕ
estimated_size e =
    length (code_units e.id)
    + length (code_units e.event_type)
    + length (code_units e.source)
    + length (units e.message)
    + length (units e.actor)
    + length (units e.repository)

-- `signals.join(" ")`
join : List String → List ℕ
join [] = []
join (s ∷ []) = code_units s
join (s ∷ t ∷ ss) = code_units s ++ 32 ∷ join (t ∷ ss)

abbrev pub or_low : Option SeverityTier → SeverityTier
or_low none = low
or_low (some t) = t

abbrev or_empty : Option (List ℕ) → List ℕ
or_empty none = []
or_empty (some ts) = ts

-- Each step raises LOW, MEDIUM and HIGH on its own threshold.
pub burst_tier : Options → ℕ → SeverityTier → SeverityTier
burst_tier o n high = if leb o.high_to_critical n then critical else high
burst_tier o n medium = if leb o.medium_to_high n then high else medium
burst_tier o n low = if leb o.low_to_medium n then medium else low
burst_tier o n critical = critical

pub repeat_tier : Options → Option ℕ → SeverityTier → SeverityTier
repeat_tier o none t = t
repeat_tier o (some n) t =
    if leb o.high_to_critical n && leb 3 (weight t)
    then critical
    else if leb o.medium_to_high n && leb 2 (weight t)
    then high
    else if leb o.low_to_medium n && leb 1 (weight t)
    then medium
    else t

pub value_tier : Options → Option ℕ → SeverityTier → SeverityTier
value_tier o none t = t
value_tier o (some v) t = if leb o.high_value v then elevate_tier t high else t

-- The checks that throw, in their order.
pub validate : Options → ConfirmedEvent → Option TieringError
validate o e =
    if not e.confirmed
    then some not_confirmed
    else if is_blank e.id
    then some empty_id
    else if leb e.timestamp 0
    then some invalid_timestamp
    else if ltb o.max_payload_bytes (estimated_size e)
    then some payload_too_large
    else if is_malicious (units e.message)
        || is_malicious (units e.actor)
        || is_malicious (units e.repository)
        || is_malicious (code_units e.event_type)
    then some malicious_pattern
    else none

pub escalation_targets_of : SeverityTier → List EscalationTarget
escalation_targets_of low = telemetry_log ∷ []
escalation_targets_of medium = telemetry_log ∷ dashboard_alert ∷ []
escalation_targets_of high = telemetry_log ∷ dashboard_alert ∷ on_call_primary ∷ []
escalation_targets_of critical = telemetry_log ∷ dashboard_alert ∷ all_on_call_roles ∷ []

pub retry_count_of : SeverityTier → ℕ
retry_count_of critical = 5
retry_count_of high = 3
retry_count_of medium = 2
retry_count_of low = 1

abbrev is_on_dashboard : EscalationTarget → Bool
is_on_dashboard dashboard_alert = true
is_on_dashboard _ = false

abbrev is_on_call : EscalationTarget → Bool
is_on_call on_call_primary = true
is_on_call all_on_call_roles = true
is_on_call _ = false

pub surface_failure : Engine → String → TieringError → ℕ → Engine
surface_failure g event x timestamp = record g {
  telemetry_stream =
      g.telemetry_stream
      ++ failure_surfaced (suc (length g.telemetry_stream)) timestamp event x ∷ [];
}

-- The dashboard, if there is one, says whether it took the alert; a roster, if there is one, pages or
-- throws, which is `false`.
pub dispatch_escalation : Engine → DrivenAlertAction → Option Bool → Option Bool → Engine × Bool
dispatch_escalation g a dashboard roster =
    let pushed : Bool = elim dashboard [
      | none ↦ true
      | some taken ↦ not (some_of is_on_dashboard a.escalation_targets) || taken
    ] in
    elim roster [
      | none ↦ (g, pushed)
      | some pages ↦
          if not (some_of is_on_call a.escalation_targets) || pages
          then (g, pushed)
          else (surface_failure g a.event_id on_call_paging_failed a.timestamp, false)
    ]

pub clear_telemetry_stream : Engine → Engine
clear_telemetry_stream g = record g { telemetry_stream = [] }

module _ (lower : List ℕ → List ℕ) (o : Options) where
  combined_text : ConfirmedEvent → List ℕ
  combined_text e =
      lower (code_units e.event_type ++ (32 ∷ join e.matched_signals ++ (32 ∷ units e.message)))

  pub mentions : List String → ConfirmedEvent → Bool
  mentions words e = some_of (λ w. contains (code_units w) (combined_text e)) words

  pub keyword_tier : ConfirmedEvent → SeverityTier → SeverityTier
  keyword_tier e t =
      if mentions critical_keywords e
      then elevate_tier t critical
      else if mentions high_keywords e
      then elevate_tier t high
      else if mentions medium_keywords e
      then elevate_tier t medium
      else t

  -- The tier before the event's own past is looked at.
  pub base_tier : ConfirmedEvent → SeverityTier
  base_tier e =
      repeat_tier o e.repeat_count (value_tier o e.amount (keyword_tier e (or_low e.raw_severity)))

  -- The history within the window, and this event.
  pub valid_history : Engine → ConfirmedEvent → List ℕ
  valid_history g e =
      keep (λ t. leb e.timestamp (t + o.burst_window))
        (or_empty (lookup e.event_type g.event_history))
      ++ e.timestamp ∷ []

  pub classify_event : Engine → ConfirmedEvent → Engine × (TieringError ⊎ SeverityTier)
  classify_event g e = elim (validate o e) [
    | some x ↦ (g, inl x)
    | none ↦ (
      record g { event_history = insert e.event_type (valid_history g e) g.event_history },
      inr (burst_tier o (length (valid_history g e)) (base_tier e)),
    )
  ]

  pub action_of : ConfirmedEvent → SeverityTier → ℕ → DrivenAlertAction
  action_of e t timestamp = record {
    event_id = e.id;
    calculated_tier = t;
    escalation_targets = escalation_targets_of t;
    requires_ack = leb 3 (weight t);
    retry_count = retry_count_of t;
    timestamp = timestamp;
    observational_only = true;
  }

  pub record_action : Engine → ConfirmedEvent → SeverityTier → ℕ → Engine
  record_action g e t timestamp = record g {
    telemetry_stream =
        g.telemetry_stream ++ alert_driven (suc (length g.telemetry_stream)) timestamp e.id t ∷ [];
  }

  abbrev pub time_or : ConfirmedEvent → ℕ → ℕ
  time_or e now = if ltb 0 e.timestamp then e.timestamp else now

  abbrev escalate :
      ConfirmedEvent
      → ℕ
      → Engine × (TieringError ⊎ SeverityTier)
      → Engine × (TieringError ⊎ DrivenAlertAction)
  escalate e time (g, inl x) = (surface_failure g e.id x time, inl x)
  escalate e time (g, inr t) = (record_action g e t time, inr (action_of e t time))

  pub evaluate_and_escalate :
      Engine → ConfirmedEvent → ℕ → Engine × (TieringError ⊎ DrivenAlertAction)
  evaluate_and_escalate g e now = escalate e (time_or e now) (classify_event g e)
