-- ===== src/RateLimit.antt =====
-- src/audit-guard/src/rate-limit-monitor.ts: the rolling-window request counter. Times are whole
-- milliseconds, and `t > now - windowMs` is written `now < t + window_ms`, which needs no negative
-- numbers. Constructor validation keeps `threshold`, `window_ms` and `max_tracked_clients` positive.
pub mod Window
pub mod Sound
pub mod Times
pub mod Exact
mod Tests
use vero_audit_guard.Base.{
  ℕ, ◌+◌, Bool, true, false, Option, none, some, List, [], ◌∷◌, ◌++◌, String, ltb, leb,
  if◌then◌else◌, length, keep, last_or,
}
use vero_audit_guard.Base.Dict.{Dict, lookup, has, insert, delete}

pub record Options : Type 0 where
  pub threshold : ℕ
  pub window_ms : ℕ
  pub max_tracked_clients : ℕ

pub record RateLimitFinding : Type 0 where
  pub client_id : String
  pub request_count : ℕ
  pub threshold : ℕ
  pub window_ms : ℕ

pub record RateLimitResult : Type 0 where
  pub allowed : Bool
  pub request_count : ℕ
  pub finding : Option RateLimitFinding

-- `new RateLimitMonitor(options)` throws on a setting that is not positive.
pub new_monitor : Options → Option (Dict (List ℕ))
new_monitor o =
    if ltb o.threshold 1
    then none
    else if leb o.window_ms 0
    then none
    else if ltb o.max_tracked_clients 1
    then none
    else some []

-- The time has left the window that ends at `now`.
abbrev pub is_active : ℕ → ℕ → ℕ → Bool
is_active window now t = ltb now (t + window)

abbrev pub active : ℕ → ℕ → List ℕ → List ℕ
active window now = keep (is_active window now)

-- No timestamp, or the last one out of the window.
abbrev pub is_stale : ℕ → ℕ → List ℕ → Bool
is_stale window now [] = true
is_stale window now (t ∷ ts) = leb (last_or t ts + window) now

-- The map's keys are in order of their last use: stop at the first that is not stale.
pub sweep : ℕ → ℕ → Dict (List ℕ) → Dict (List ℕ)
sweep window now [] = []
sweep window now ((k, ts) ∷ m) = if is_stale window now ts then sweep window now m else (k, ts) ∷ m

-- The first key goes while there are more than `cap`.
pub enforce_caps {ℓ} : {V : Type ℓ} → ℕ → Dict V → Dict V
enforce_caps cap [] = []
enforce_caps cap ((k, v) ∷ m) =
    if ltb cap (length ((k, v) ∷ m)) then enforce_caps cap m else (k, v) ∷ m

abbrev pub times : String → Dict (List ℕ) → List ℕ
times client m = elim (lookup client m) [ none ↦ [] | some ts ↦ ts ]

pub data Call : Type 0 where
  records : String → (now : ℕ) → Call
  counts : String → (now : ℕ) → Call

module _ (o : Options) where
  verdict : String → ℕ → RateLimitResult
  verdict client n =
      if leb n o.threshold
      then record { allowed = true; request_count = n; finding = none }
      else record {
        allowed = false;
        request_count = n;
        finding = some (record {
          client_id = client;
          request_count = n;
          threshold = o.threshold;
          window_ms = o.window_ms;
        });
      }

  -- The timestamps that `record` stores for the client.
  pub stored : Dict (List ℕ) → String → ℕ → List ℕ
  stored m client now = active o.window_ms now (times client (sweep o.window_ms now m)) ++ now ∷ []

  -- `record`
  pub record_request : Dict (List ℕ) → String → ℕ → Dict (List ℕ) × RateLimitResult
  record_request m client now = (
    enforce_caps o.max_tracked_clients
        (insert client (stored m client now) (delete client (sweep o.window_ms now m))),
    verdict client (length (stored m client now)),
  )

  pub get_request_count : Dict (List ℕ) → String → ℕ → Dict (List ℕ) × ℕ
  get_request_count m client now =
      let swept = sweep o.window_ms now m in
      let found = active o.window_ms now (times client swept) in
      (
        if has client swept
            then if ltb 0 (length found)
              then insert client found (delete client swept)
              else delete client swept
            else swept,
        length found,
      )

  pub step : Dict (List ℕ) → Call → Dict (List ℕ)
  step m (records client now) = (record_request m client now).0
  step m (counts client now) = (get_request_count m client now).0

  pub run : Dict (List ℕ) → List Call → Dict (List ℕ)
  run m [] = m
  run m (x ∷ xs) = run (step m x) xs
