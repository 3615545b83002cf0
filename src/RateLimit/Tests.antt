-- ===== src/RateLimit/Tests.antt =====
-- Runs of the rate limit monitor, and instances of its theorems.
use vero_audit_guard.Base.{◌+◌, ◌≤◌, ◌≡◌, refl, false, List, [], ◌∷◌, leb, arith}
use vero_audit_guard.Base.Dict.{lookup, has, insert, delete}
use vero_audit_guard.RateLimit.Window.{hits}
use vero_audit_guard.RateLimit.Sound.{past, record_request_sound}
use vero_audit_guard.RateLimit.Exact.{record_request_exact}
use vero_audit_guard.RateLimit.{
  Options, Call, records, counts, record_request, get_request_count, run, step, stored, verdict,
  sweep, enforce_caps,
}

abbrev tight : Options
tight = record { threshold = 2; window_ms = 10; max_tracked_clients = 2 }

abbrev calls : List Call
calls = records "a" 1 ∷ records "b" 2 ∷ records "a" 5 ∷ counts "a" 6 ∷ []

monitor : Unit {0}
unfolding record_request get_request_count run step stored verdict sweep enforce_caps lookup has
    insert delete
monitor = tt

record_request_tests :
    ((record_request tight (run tight [] calls) "a" 8).1.allowed ≡ false)
    × ((record_request tight (run tight [] calls) "a" 8).1.request_count ≡ 3)
    × ((record_request tight (run tight [] calls) "a" 11).1.request_count ≡ 2)
    × ((get_request_count tight (run tight [] calls) "a" 14).1 ≡ 1)
unfolding monitor
record_request_tests = (refl, refl, refl, refl)

record_request_sound_example :
    ((record_request tight (run tight [] calls) "a" 8).1.request_count
      ≤ hits 10 "a" 8 (past [] calls) + 1)
    × ((record_request tight (run tight [] calls) "a" 8).1.allowed ≡ false
        → 2 ≤ hits 10 "a" 8 (past [] calls))
record_request_sound_example = record_request_sound tight calls "a" 8

record_request_exact_example :
    ((record_request tight (run tight [] calls) "a" 8).1.request_count
      ≡ hits 10 "a" 8 (past [] calls) + 1)
    × ((record_request tight (run tight [] calls) "a" 8).1.allowed
        ≡ leb (hits 10 "a" 8 (past [] calls) + 1) 2)
record_request_exact_example =
    record_request_exact tight ("a" ∷ "b" ∷ []) calls "a" 8 (omega arith)
      (refl, (refl, (refl, (tt, tt))))
      (omega arith, (omega arith, (omega arith, (omega arith, tt)))) (omega arith)
