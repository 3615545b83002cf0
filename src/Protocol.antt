-- ===== src/Protocol.antt =====
-- src/audit-guard/src/protocol-state-machine.ts: the scanner protocol's state machine.
-- Times are whole milliseconds. An observer's exceptions are swallowed by the source, so a call of
-- the observers is a value: the record and the error that every observer is handed. Observers that
-- call the machine back are not modelled. The message of a timestamp violation prints both times as
-- dates: for one beyond ECMAScript's range of dates its constructor throws a RangeError instead.
mod Hash
pub mod Effect
pub mod Session
pub mod History
pub mod Alert
mod Tests
use Hash.{compute_snapshot_hash}
use vero_audit_guard.Base.{
  ℕ, zero, suc, ◌+◌, ◌-◌, ◌≡◌, Bool, true, false, ◌&&◌, ◌||◌, not, Option, none, some, List, [],
  ◌∷◌, ◌++◌, String, arith, ltb, leb, if◌then◌else◌, str_eq, code_units, decimal, push_capped,
}

pub data ProtocolState : Type 0 where
  idle scanning reporting done failed : ProtocolState

pub data ProtocolEvent : Type 0 where
  scan_started : (scan_id target : String) (timestamp : ℕ) → ProtocolEvent
  scan_completed : (scan_id : String) (finding_count timestamp : ℕ) → ProtocolEvent
  scan_failed : (scan_id reason : String) (timestamp : ℕ) → ProtocolEvent
  report_started : (scan_id : String) (timestamp : ℕ) → ProtocolEvent
  report_delivered : (scan_id report_hash : String) (timestamp : ℕ) → ProtocolEvent
  report_failed : (scan_id reason : String) (timestamp : ℕ) → ProtocolEvent
  reset : (requested_by : String) (timestamp : ℕ) → ProtocolEvent

abbrev pub timestamp_of : ProtocolEvent → ℕ
timestamp_of (scan_started i g t) = t
timestamp_of (scan_completed i n t) = t
timestamp_of (scan_failed i r t) = t
timestamp_of (report_started i t) = t
timestamp_of (report_delivered i h t) = t
timestamp_of (report_failed i r t) = t
timestamp_of (reset b t) = t

-- The scan id that step 3 of `apply` compares: SCAN_STARTED and RESET are exempt.
abbrev pub checked_id : ProtocolEvent → Option String
checked_id (scan_started i g t) = none
checked_id (scan_completed i n t) = some i
checked_id (scan_failed i r t) = some i
checked_id (report_started i t) = some i
checked_id (report_delivered i h t) = some i
checked_id (report_failed i r t) = some i
checked_id (reset b t) = none

-- `event.type`
abbrev pub type_of : ProtocolEvent → String
type_of (scan_started i g t) = "SCAN_STARTED"
type_of (scan_completed i n t) = "SCAN_COMPLETED"
type_of (scan_failed i r t) = "SCAN_FAILED"
type_of (report_started i t) = "REPORT_STARTED"
type_of (report_delivered i h t) = "REPORT_DELIVERED"
type_of (report_failed i r t) = "REPORT_FAILED"
type_of (reset b t) = "RESET"

abbrev pub state_name : ProtocolState → String
state_name idle = "IDLE"
state_name scanning = "SCANNING"
state_name reporting = "REPORTING"
state_name done = "DONE"
state_name failed = "FAILED"

-- `TRANSITIONS`
unfoldable pub transition : ProtocolState → ProtocolEvent → Option ProtocolState
transition idle (scan_started i g t) = some scanning
transition scanning (scan_completed i n t) = some reporting
transition scanning (scan_failed i r t) = some failed
transition reporting (report_started i t) = some reporting
transition reporting (report_delivered i h t) = some done
transition reporting (report_failed i r t) = some failed
transition _ _ = none

pub data StateMachineError : Type 0 where
  invalid_transition : (from_state : ProtocolState) (event : String) → StateMachineError
  scan_id_mismatch : (expected received : String) → StateMachineError
  timestamp_violation : (event_timestamp machine_timestamp window_ms : ℕ) → StateMachineError
  state_machine_shutdown : StateMachineError
  invariant_violation : (detail : String) → StateMachineError

-- What a call throws: an error of the machine, or the RangeError of a time that is no date.
pub data Exception : Type 0 where
  machine_error : StateMachineError → Exception
  range_error : Exception

pub record TransitionRecord : Type 0 where
  pub seq : ℕ
  pub from_state : ProtocolState
  pub to_state : ProtocolState
  pub event : ProtocolEvent
  pub timestamp : ℕ
  pub snapshot_hash : List ℕ

-- The mutable fields of `ProtocolStateMachine`.
pub record Machine : Type 0 where
  pub state : ProtocolState
  pub active_scan_id : Option String
  pub last_event_timestamp : Option ℕ
  pub transition_count : ℕ
  pub snapshot_hash : List ℕ
  pub history : List TransitionRecord
  pub is_shutdown : Bool

pub record Options : Type 0 where
  pub max_history_depth : ℕ
  pub max_clock_skew_ms : ℕ

pub data Outcome : Type 0 where
  returns : TransitionRecord → Outcome
  throws : Exception → Outcome

-- What a call of `apply` leaves: the machine, what each observer was handed, and the result.
pub record Applied : Type 0 where
  pub machine : Machine
  pub notified : List (TransitionRecord × Option StateMachineError)
  pub outcome : Outcome

unfoldable pub init : Machine
unfolding compute_snapshot_hash
init = record {
  state = idle;
  active_scan_id = none;
  last_event_timestamp = none;
  transition_count = 0;
  snapshot_hash = compute_snapshot_hash (code_units "IDLE:0");
  history = [];
  is_shutdown = false;
}

pub shutdown : Machine → Machine
shutdown m = record m { is_shutdown = true }

-- `Math.abs(event.timestamp - now)`
abbrev pub skew : ℕ → ℕ → ℕ
skew a b = (a - b) + (b - a)

-- `toISOString` takes a time at most this far from 1970.
abbrev pub is_date : ℕ → Bool
is_date t = leb t 8640000000000000

-- Step 5's bookkeeping of the scan session, on the event and the target state.
abbrev pub next_scan_id : ProtocolEvent → ProtocolState → Option String → Option String
next_scan_id (scan_started i g t) to current = some i
next_scan_id _ idle current = none
next_scan_id _ _ current = current

-- The id that the active session expects, where the event carries another one.
abbrev pub mismatch : Option String → Option String → Option StateMachineError
mismatch (some expected) (some received) =
    if str_eq received expected then none else some (scan_id_mismatch expected received)
mismatch _ _ = none

abbrev pub is_reset : ProtocolEvent → Bool
is_reset (reset b t) = true
is_reset _ = false

-- The calls that change the machine.
pub data Call : Type 0 where
  applies : (now : ℕ) → ProtocolEvent → Call
  shuts_down : Call

-- `JSON.stringify(event)` follows the order in which the caller built the event: a parameter.
module _ (stringify : ProtocolEvent → List ℕ) where
  pub hash_input : List ℕ → ProtocolState → ProtocolState → ProtocolEvent → ℕ → List ℕ
  hash_input previous from to e seq =
      previous
      ++ (b':' ∷ code_units (state_name from)
          ++ (b':' ∷ code_units (state_name to)
              ++ (b':' ∷ code_units (type_of e) ++ (b':' ∷ decimal seq ++ b':' ∷ stringify e))))

  pub next_record : Machine → ProtocolState → ProtocolEvent → TransitionRecord
  next_record m to e = record {
    seq = suc m.transition_count;
    from_state = m.state;
    to_state = to;
    event = e;
    timestamp = timestamp_of e;
    snapshot_hash =
        compute_snapshot_hash (hash_input m.snapshot_hash m.state to e (suc m.transition_count));
  }

  -- `_notifyObservers(null, event, err)`, and the exception
  unfoldable pub reject : Machine → ProtocolEvent → StateMachineError → Applied
  reject m e err = record {
    machine = m;
    notified = (partial, some err) ∷ [];
    outcome = throws (machine_error err);
  }
    where
      partial : TransitionRecord
      partial = record {
        seq = m.transition_count;
        from_state = m.state;
        to_state = m.state;
        event = e;
        timestamp = timestamp_of e;
        snapshot_hash = m.snapshot_hash;
      }

  -- The constructor of the error throws, before the observers are notified.
  abbrev pub crash : Machine → Applied
  crash m = record { machine = m; notified = []; outcome = throws range_error }

  module _ (o : Options) where
    unfoldable pub commit : Machine → ProtocolState → ProtocolEvent → Applied
    commit m to e =
        let r = next_record m to e in
        record {
          machine = record {
            state = to;
            active_scan_id = next_scan_id e to m.active_scan_id;
            last_event_timestamp = some (timestamp_of e);
            transition_count = suc m.transition_count;
            snapshot_hash = r.snapshot_hash;
            history = push_capped o.max_history_depth m.history r;
            is_shutdown = m.is_shutdown;
          };
          notified = (r, none) ∷ [];
          outcome = returns r;
        }

    unfoldable pub apply_reset : Machine → ProtocolEvent → Applied
    apply_reset m e =
        let done = commit m idle e in
        record done { machine = record (done.machine) { active_scan_id = none } }

    -- Steps 3 to 5 of `apply`.
    unfoldable pub dispatch : Machine → ProtocolEvent → Applied
    dispatch m e = elim (mismatch m.active_scan_id (checked_id e)) [
      | some err ↦ reject m e err
      | none ↦ elim (transition m.state e) [
        | none ↦ reject m e (invalid_transition m.state (type_of e))
        | some to ↦ commit m to e
      ]
    ]

    -- Step 1's `new TimestampViolationError`, and what follows it.
    abbrev pub violate : ℕ → Machine → ProtocolEvent → Applied
    violate now m e =
        if is_date (timestamp_of e) && is_date now
        then reject m e (timestamp_violation (timestamp_of e) now o.max_clock_skew_ms)
        else crash m

    unfoldable pub apply : ℕ → Machine → ProtocolEvent → Applied
    apply now m e =
        if m.is_shutdown
        then reject m e state_machine_shutdown
        else if ltb 0 o.max_clock_skew_ms && ltb o.max_clock_skew_ms (skew (timestamp_of e) now)
        then violate now m e
        else if is_reset e
        then apply_reset m e
        else dispatch m e

    pub step : Machine → Call → Machine
    step m (applies now e) = (apply now m e).machine
    step m shuts_down = shutdown m

    pub run : Machine → List Call → Machine
    run m [] = m
    run m (c ∷ cs) = run (step m c) cs
