-- ===== src/Protocol/Tests.antt =====
-- Runs of the protocol's machine, and instances of its theorems.
use vero_audit_guard.Base.{ℕ, ◌≡◌, refl, ◌⊎◌, some, List, [], ◌∷◌, length, inr, arith, none}
use vero_audit_guard.Protocol.Effect.{IsOpen}
use vero_audit_guard.Protocol.Session.{start, Moves, apply-Moves, apply_accepts}
use vero_audit_guard.Protocol.Alert.{
  try_apply, console_alerts, Shown, try_apply-Shown, caught, build_state_machine_alert,
}
use vero_audit_guard.Protocol.History.{Inv, run-init-Inv}
use vero_audit_guard.Protocol.{
  idle, scanning, done, ProtocolEvent, scan_started, scan_completed, report_started,
  report_delivered, Options, TransitionRecord, timestamp_violation, scan_id_mismatch, returns,
  throws, machine_error, Exception, Call, applies, shuts_down, init, shutdown, apply, run,
  timestamp_of, step, apply_reset, dispatch, transition, commit, reject, next_record,
  state_machine_shutdown, reset,
}

abbrev print : ProtocolEvent → List ℕ
print e = timestamp_of e ∷ []

abbrev small : Options
small = record { max_history_depth = 2; max_clock_skew_ms = 50 }

abbrev scan : List Call
scan =
    applies 10 (scan_started "s1" "org/repo" 10)
    ∷ applies 20 (scan_completed "s1" 3 20)
    ∷ applies 30 (report_started "s1" 30)
    ∷ applies 40 (report_delivered "s1" "aa" 40)
    ∷ []

machine : Unit {0}
unfolding run step apply apply_reset dispatch transition commit reject next_record shutdown init
machine = tt

run_tests :
    ((run print small init scan).state ≡ done)
    × ((run print small init scan).active_scan_id ≡ some "s1")
    × ((run print small init scan).transition_count ≡ 4)
    × (length (run print small init scan).history ≡ 2)
    × ((run print small init (shuts_down ∷ scan)).state ≡ idle)
unfolding machine
run_tests = (refl, refl, refl, refl, refl)

apply_tests :
    ((apply print small 100 init (scan_started "s1" "t" 10)).outcome
      ≡ throws (machine_error (timestamp_violation 10 100 50)))
    × ((apply print small 30
          (run print small init (applies 10 (scan_started "s1" "t" 10) ∷ []))
          (scan_completed "s2" 0 30)).outcome
        ≡ throws (machine_error (scan_id_mismatch "s1" "s2")))
unfolding machine
apply_tests = (refl, refl)

abbrev begin : ProtocolEvent
begin = scan_started "s1" "org/repo" 10

apply-Moves_example :
    (Moves print small init begin (apply print small 10 init begin).machine
      × IsOpen small 10 init begin
      × ((r : TransitionRecord) × ((apply print small 10 init begin).outcome ≡ returns r)))
    ⊎ (((apply print small 10 init begin).machine ≡ init)
        × ((err : Exception) × ((apply print small 10 init begin).outcome ≡ throws err)))
unfolding init
apply-Moves_example = apply-Moves print small 10 init begin refl

begin-IsOpen : IsOpen small 10 init begin
unfolding init
begin-IsOpen = record { running = refl; timely = inr (omega arith) }

apply_accepts_example :
    ((r : TransitionRecord) × ((apply print small 10 init begin).outcome ≡ returns r))
    × ((apply print small 10 init begin).machine.state ≡ scanning)
    × ((apply print small 10 init begin).machine.active_scan_id ≡ some "s1")
unfolding init
apply_accepts_example =
    apply_accepts print small 10 init begin scanning (some "s1") begin-IsOpen
      (start "s1" "org/repo" 10 refl)

run-init-Inv_example : Inv print small (run print small init scan)
run-init-Inv_example = run-init-Inv print small scan

try_apply_tests :
    ((try_apply print small 10 (shutdown init) begin).1 ≡ some (none, some state_machine_shutdown))
    × (length (console_alerts (try_apply print small 99 init begin).0.notified) ≡ 1)
    × ((try_apply print small 10 init (reset "ci" 8640000000000001)).1 ≡ none)
    × ((try_apply print small 10 init (reset "ci" 8640000000000001)).0.notified ≡ [])
unfolding machine try_apply caught console_alerts build_state_machine_alert
try_apply_tests = (refl, refl, refl, refl)

try_apply-Shown_example : Shown print small 10 init begin (try_apply print small 10 init begin)
try_apply-Shown_example = try_apply-Shown print small 10 init begin
