-- ===== src/Failover.antt =====
-- anomaly-detector/src/rpc-failover-monitor.ts: health windows of the RPC endpoints, outages and
-- failover events. The clock's reading is an argument. The rate of successes is compared with its
-- threshold as a fraction, where the source divides in floating point; the report's file is output.
pub mod Instant
pub mod Tracking
mod Tests
use vero_audit_guard.Base.{
  ℕ, suc, ◌+◌, ◌-◌, ◌*◌, Bool, true, false, Option, none, some, List, [], ◌∷◌, ◌++◌, String, ltb,
  leb, if◌then◌else◌, length, keep, drop, push_capped,
}
use vero_audit_guard.Base.Dict.{Dict, lookup, has, insert, delete}
use vero_audit_guard.Base.Int.{ℤ, pos, negsuc}

pub record Options : Type 0 where
  pub window_size : ℕ
  pub failover_event_cap : ℕ
  pub latency_threshold_ms : ℕ
  -- The success rate's threshold, as a fraction.
  pub rate_numerator : ℕ
  pub rate_denominator : ℕ

pub record FailoverEvent : Type 0 where
  pub from_url : String
  pub to_url : String
  pub latency_ms : ℤ
  pub slow_failover : Bool
  pub timestamp : ℕ

pub record EndpointStats : Type 0 where
  pub url : String
  pub successes : ℕ
  pub checks_recorded : ℕ

pub record FailoverReport : Type 0 where
  pub generated_at : ℕ
  pub endpoints : List EndpointStats
  pub events : List FailoverEvent
  pub dropped_events : ℕ
  pub degraded_endpoints : List String

pub record Monitor : Type 0 where
  pub health_windows : Dict (List Bool)
  pub first_failure_times : Dict ℕ
  pub failover_events : List FailoverEvent
  pub dropped_events : ℕ

unfoldable pub init : Monitor
init = record {
  health_windows = [];
  first_failure_times = [];
  failover_events = [];
  dropped_events = 0;
}

-- A setting that is not positive falls back.
pub positive_or : ℕ → ℕ → ℕ
positive_or n fallback = if ltb 0 n then n else fallback

-- The constructor's settings.
pub configure : Options → Options
unfolding positive_or
configure o = record o {
  window_size = positive_or o.window_size 100;
  failover_event_cap = positive_or o.failover_event_cap 500;
}

abbrev pub window_of : String → Dict (List Bool) → List Bool
window_of url m = elim (lookup url m) [ none ↦ [] | some w ↦ w ]

abbrev identity : Bool → Bool
identity b = b

-- `now - first`
pub elapsed : ℕ → ℕ → ℤ
elapsed now first = if leb first now then pos (now - first) else negsuc (first - now - 1)

pub exceeds : ℤ → ℕ → Bool
exceeds (pos n) limit = ltb limit n
exceeds (negsuc n) limit = false

pub data Call : Type 0 where
  checks : String → (healthy : Bool) → (now : ℕ) → Call
  fails_over : (from_url to_url : String) → (now : ℕ) → Call

module _ (o : Options) where
  pub noted : Dict ℕ → String → Bool → ℕ → Dict ℕ
  noted m url true now = delete url m
  noted m url false now = if has url m then m else insert url now m

  pub record_check : Monitor → String → Bool → ℕ → Monitor
  record_check s url healthy now = record s {
    health_windows =
        insert url (push_capped o.window_size (window_of url s.health_windows) healthy)
          s.health_windows;
    first_failure_times = noted s.first_failure_times url healthy now;
  }

  pub event_of : Monitor → String → String → ℕ → FailoverEvent
  event_of s from_url to_url now =
      let first : ℕ = elim (lookup from_url s.first_failure_times) [ none ↦ now | some t ↦ t ] in
      record {
        from_url = from_url;
        to_url = to_url;
        latency_ms = elapsed now first;
        slow_failover = exceeds (elapsed now first) o.latency_threshold_ms;
        timestamp = now;
      }

  unfoldable pub record_failover : Monitor → String → String → ℕ → Monitor × FailoverEvent
  record_failover s from_url to_url now =
      let e = event_of s from_url to_url now in
      let events = s.failover_events ++ e ∷ [] in
      let surplus = length events - o.failover_event_cap in
      (
        record s {
          failover_events = drop surplus events;
          dropped_events = s.dropped_events + surplus;
        },
        e,
      )

  -- Fewer successes than the threshold asks of the window; an empty window has rate 1.
  is_degraded : List Bool → Bool
  is_degraded [] = ltb o.rate_denominator o.rate_numerator
  is_degraded (b ∷ bs) =
      ltb (length (keep identity (b ∷ bs)) * o.rate_denominator)
        (o.rate_numerator * length (b ∷ bs))

  pub get_degraded_endpoints : Dict (List Bool) → List String
  get_degraded_endpoints [] = []
  get_degraded_endpoints ((url, w) ∷ m) =
      let rest = get_degraded_endpoints m in if is_degraded w then url ∷ rest else rest

  stats : Dict (List Bool) → List EndpointStats
  stats [] = []
  stats ((url, w) ∷ m) =
      record { url = url; successes = length (keep identity w); checks_recorded = length w }
      ∷ stats m

  pub build_report : Monitor → ℕ → FailoverReport
  build_report s now = record {
    generated_at = now;
    endpoints = stats s.health_windows;
    events = s.failover_events;
    dropped_events = s.dropped_events;
    degraded_endpoints = get_degraded_endpoints s.health_windows;
  }

  pub step : Monitor → Call → Monitor
  step s (checks url healthy now) = record_check s url healthy now
  step s (fails_over from_url to_url now) = (record_failover s from_url to_url now).0

  pub run : Monitor → List Call → Monitor
  run s [] = s
  run s (x ∷ xs) = run (step s x) xs
