-- ===== src/Detector/Tests.antt =====
-- Runs of the detector and of the monitor's rounds, and instances of their theorems.
use vero_audit_guard.Base.{
  ℕ, zero, suc, ◌≡◌, refl, Bool, true, false, none, some, List, [], ◌∷◌, String, map,
}
use vero_audit_guard.Base.Dict.{Dict, lookup, has, insert}
use vero_audit_guard.Base.Int.{pos}
use mathlib.Core.List.{Permᴰ}
use vero_audit_guard.Ingestion as Guards
use vero_audit_guard.Failover as Monitors
use vero_audit_guard.Detector.{
  RelayerMetrics, Settings, Detector, Call, batch, other_writer, analyze_each, alerts_of, run,
  nonce_reuse,
}
use vero_audit_guard.Detector.Nonces.{persist_all, persist_all_perm, Grows, run-Grows}
use vero_audit_guard.Detector.Health.{
  NodeStatus, NodeHealthChecker, Probe, init, check_health, probed, find_other, initial_check,
  rounds, round,
}
use vero_audit_guard.Detector.Rounds.{rounds-instant}

abbrev settings : Settings
settings = record {
  authorized_addresses = [];
  nonce_spike_threshold = 50;
  failed_tx_threshold = 10;
}

abbrev no_threat : String → Bool
no_threat s = false

abbrev parses : String → Bool
parses s = true

abbrev text : ℕ → String
text n = "t"

abbrev metric : ℕ → RelayerMetrics
metric n = record { address = "GA"; nonce = n; failed_tx_count = 0; timestamp = 0 }

-- A reused nonce lowers what the next metric of the batch is compared with: after 10, the nonces 5
-- and 7 were both used, and only the first is reported.
reuse_tests :
    map
      (λ a. a.kind)
      (analyze_each settings no_threat (("GA", 10) ∷ []) (metric 5 ∷ metric 7 ∷ [])).0
    ≡ nonce_reuse ∷ []
unfolding analyze_each alerts_of lookup has insert
reuse_tests = refl

abbrev writers : List (Dict ℕ)
writers = (("GA", 4) ∷ []) ∷ (("GA", 9) ∷ ("GB", 1) ∷ []) ∷ []

abbrev writers_swapped : List (Dict ℕ)
writers_swapped = (("GA", 9) ∷ ("GB", 1) ∷ []) ∷ (("GA", 4) ∷ []) ∷ []

swapped : Permᴰ writers writers_swapped
swapped = Permᴰ.swap {a = ("GA", 4) ∷ []} {b = ("GA", 9) ∷ ("GB", 1) ∷ []} {l = []} refl refl

persist_all_perm_example :
    lookup "GA" (persist_all (("GA", 5) ∷ []) writers)
    ≡ lookup "GA" (persist_all (("GA", 5) ∷ []) writers_swapped)
persist_all_perm_example = persist_all_perm (("GA", 5) ∷ []) swapped "GA"

abbrev guard_options : Guards.Options
guard_options = record { bucket_capacity = 2; refill_rate = 1000; max_queue_depth = 1 }

abbrev detector : Detector
detector = record {
  guard = record {
    bucket = record { milli_tokens = 2000; last_refill_time = 5 };
    queue = [];
    total_accepted = 0;
    total_rate_limited = 0;
    total_dropped = 0;
    total_malformed = 0;
  };
  previous_nonces = [];
  alerts = [];
  nonce_db = ("GA", 5) ∷ [];
}

abbrev calls : List Call
calls = batch true ((metric 3, 5, 5) ∷ []) ∷ other_writer (("GA", 9) ∷ []) ∷ []

run-Grows_example :
    Grows
      (("GA", 5) ∷ [])
      (run settings guard_options no_threat parses text text detector calls).nonce_db
run-Grows_example = run-Grows settings guard_options no_threat parses text text detector calls

abbrev options : Monitors.Options
options = record {
  window_size = 5;
  failover_event_cap = 5;
  latency_threshold_ms = 10;
  rate_numerator = 1;
  rate_denominator = 2;
}

-- Node 0 answers at first, then only node 1 does.
abbrev all_up : ℕ → Probe
all_up i = some 1

abbrev second_up : ℕ → Probe
second_up zero = none
second_up (suc i) = some 1

abbrev after_round : NodeHealthChecker × Monitors.Monitor
after_round =
    rounds options (initial_check options (init ("a" ∷ "b" ∷ []) 0) (1, all_up)) ((5, all_up) ∷ [])

abbrev node_a : NodeStatus
node_a = record { url = "a"; healthy = true; last_checked = 5; response_time = some 1 }

moves : (check_health after_round.0 900 second_up).1 ≡ some ("a", "b")
unfolding rounds round initial_check check_health probed find_other init
moves = refl

rounds-instant_example :
    let e = (Monitors.record_failover options after_round.1 "a" "b" 900).1 in
    (e.latency_ms ≡ pos 0) × (e.slow_failover ≡ false)
unfolding rounds round initial_check check_health probed find_other init
rounds-instant_example =
    rounds-instant options ("a" ∷ "b" ∷ []) 0 1 all_up ((5, all_up) ∷ []) (refl, (refl, tt)) 900
      second_up node_a "a" "b" refl refl moves
