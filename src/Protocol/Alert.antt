-- ===== src/Protocol/Alert.antt =====
-- src/audit-guard/src/protocol-state-machine.ts: `tryApply`, and the alert that an observer makes of
-- an error. The texts and the time of an alert are left out.
use vero_audit_guard.Base.{
  ℕ, suc, ◌≡◌, ◌<◌, arith, refl, ◌⊎◌, inl, inr, Option, none, some, List, [], ◌∷◌, String,
}
use vero_audit_guard.Protocol.Effect.{Effect, rejected, crashed, committed, restarted, apply-Effect}
use vero_audit_guard.Protocol.{
  ProtocolState, ProtocolEvent, StateMachineError, invalid_transition, scan_id_mismatch,
  timestamp_violation, state_machine_shutdown, invariant_violation, TransitionRecord, Machine,
  Options, Outcome, returns, throws, machine_error, range_error, skew, timestamp_of, Applied, apply,
  reject, commit, apply_reset, next_record, type_of,
}

pub data Severity : Type 0 where
  medium high critical : Severity

pub record StateMachineAlertPayload : Type 0 where
  pub type : String
  pub severity : Severity
  pub seq : ℕ
  pub from_state : ProtocolState
  pub to_state : ProtocolState
  pub event_type : String

-- `error.code`
pub code_of : StateMachineError → String
code_of (invalid_transition s e) = "INVALID_TRANSITION"
code_of (scan_id_mismatch x y) = "SCAN_ID_MISMATCH"
code_of (timestamp_violation t u w) = "TIMESTAMP_VIOLATION"
code_of state_machine_shutdown = "STATE_MACHINE_SHUTDOWN"
code_of (invariant_violation d) = "INVARIANT_VIOLATION"

-- `severityMap`
pub severity_of : StateMachineError → Severity
severity_of (invalid_transition s e) = high
severity_of (scan_id_mismatch x y) = critical
severity_of (timestamp_violation t u w) = high
severity_of state_machine_shutdown = medium
severity_of (invariant_violation d) = critical

unfoldable pub build_state_machine_alert :
    StateMachineError → TransitionRecord → StateMachineAlertPayload
build_state_machine_alert err r = record {
  type = code_of err;
  severity = severity_of err;
  seq = r.seq;
  from_state = r.from_state;
  to_state = r.to_state;
  event_type = type_of r.event;
}

-- `createConsoleAlertObserver`: what it prints of what it is handed.
unfoldable pub console_alerts :
    List (TransitionRecord × Option StateMachineError) → List StateMachineAlertPayload
console_alerts [] = []
console_alerts ((r, none) ∷ xs) = console_alerts xs
console_alerts ((r, some err) ∷ xs) = build_state_machine_alert err r ∷ console_alerts xs

-- `tryApply` catches every error of the machine, and throws any other on, which is `none`.
unfoldable pub caught : Outcome → Option (Option TransitionRecord × Option StateMachineError)
caught (returns r) = some (some r, none)
caught (throws (machine_error err)) = some (none, some err)
caught (throws range_error) = none

module _ (stringify : ProtocolEvent → List ℕ) (o : Options) where
  unfoldable pub try_apply :
      ℕ
      → Machine
      → ProtocolEvent
      → Applied × Option (Option TransitionRecord × Option StateMachineError)
  try_apply now m e = let x = apply stringify o now m e in (x, caught x.outcome)

  -- What a call shows: a record, which the observers were handed, and no alert; or an error, with the
  -- machine as it was and one alert; or nothing but the exception, for a time outside the skew window
  -- and beyond the range of dates.
  abbrev pub Shown :
      ℕ
      → Machine
      → ProtocolEvent
      → Applied × Option (Option TransitionRecord × Option StateMachineError)
      → Type 0
  Shown now m e x =
      ((r : TransitionRecord) × (x.1 ≡ some (some r, none))
        × (x.0.notified ≡ (r, none) ∷ [])
        × (console_alerts (x.0.notified) ≡ [])
        × (x.0.machine.transition_count ≡ suc m.transition_count)
        × (x.0.machine.snapshot_hash ≡ r.snapshot_hash))
      ⊎ ((err : StateMachineError) × (x.1 ≡ some (none, some err))
          × (x.0.machine ≡ m)
          × (console_alerts (x.0.notified)
              ≡ record {
                type = code_of err;
                severity = severity_of err;
                seq = m.transition_count;
                from_state = m.state;
                to_state = m.state;
                event_type = type_of e;
              }
                ∷ []))
      ⊎ ((x.1 ≡ none)
          × (x.0.machine ≡ m)
          × (x.0.notified ≡ [])
          × (o.max_clock_skew_ms < skew (timestamp_of e) now)
          × ((8640000000000000 < timestamp_of e) ⊎ (8640000000000000 < now)))

  Effect-Shown :
      (now : ℕ) (m : Machine) (e : ProtocolEvent) (x : Applied)
      → Effect stringify o now m e x
      → Shown now m e (x, caught x.outcome)
  unfolding reject commit apply_reset caught console_alerts build_state_machine_alert next_record
  Effect-Shown now m e x (rejected err p) = rw p (inr (inl (err, refl, refl, refl)))
  Effect-Shown now m e x (crashed l d p) = rw p (inr (inr (refl, refl, refl, l, ground (arith, d))))
  Effect-Shown now m e x (committed to w n h k p) = rw p (inl (_, refl, refl, refl, refl, refl))
  Effect-Shown now m e x (restarted w n p) = rw p (inl (_, refl, refl, refl, refl, refl))

  -- A call gives a record and no error, and the observers are handed that record and raise no alert;
  -- or it gives an error and no record, the machine is as it was, and the observers raise exactly one
  -- alert, of that error and at the machine's state and count; or, only for an event outside the skew
  -- window whose time or whose clock's time is beyond the range of dates, the call throws, the machine
  -- is as it was, and the observers are handed nothing.
  pub try_apply-Shown :
      (now : ℕ) (m : Machine) (e : ProtocolEvent) → Shown now m e (try_apply now m e)
  unfolding try_apply
  try_apply-Shown now m e = Effect-Shown now m e _ (apply-Effect stringify o now m e)
