-- ===== src/Failover/Tests.antt =====
-- Runs of the failover monitor, and an instance of its theorem.
use vero_audit_guard.Base.{◌≡◌, refl, true, false, some, List, [], ◌∷◌}
use vero_audit_guard.Base.Dict.{lookup, has, insert, delete}
use vero_audit_guard.Base.Int.{pos}
use vero_audit_guard.Failover.Tracking.{Tracks, onto, run-init-Tracks}
use vero_audit_guard.Failover.{
  Options, Call, checks, fails_over, init, record_failover, record_check, build_report, run, step,
  event_of, elapsed, exceeds, noted, stats, is_degraded, get_degraded_endpoints,
}

abbrev small : Options
small = record {
  window_size = 3;
  failover_event_cap = 1;
  latency_threshold_ms = 50;
  rate_numerator = 4;
  rate_denominator = 5;
}

abbrev calls : List Call
calls =
    checks "a" true 1
    ∷ checks "a" true 2
    ∷ checks "b" true 2
    ∷ checks "a" false 10
    ∷ checks "a" false 20
    ∷ fails_over "a" "b" 30
    ∷ fails_over "a" "b" 90
    ∷ []

monitor : Unit {0}
unfolding run step record_check record_failover event_of elapsed exceeds noted build_report stats
    is_degraded get_degraded_endpoints init lookup has insert delete
monitor = tt

run_tests :
    ((build_report small (run small init calls) 99).degraded_endpoints ≡ "a" ∷ [])
    × ((run small init calls).dropped_events ≡ 1)
    × ((record_failover small (run small init calls) "a" "b" 90).1.latency_ms ≡ pos 80)
    × ((record_failover small (run small init calls) "a" "b" 90).1.slow_failover ≡ true)
    × (lookup "a" (run small init calls).first_failure_times ≡ some 10)
unfolding monitor
run_tests = (refl, refl, refl, refl, refl)

run-init-Tracks_example : Tracks small (onto [] calls) (run small init calls)
run-init-Tracks_example = run-init-Tracks small calls
