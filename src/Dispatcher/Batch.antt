-- ===== src/Dispatcher/Batch.antt =====
-- What a batch returns, and what the counters count.
use vero_audit_guard.Base.{
  ℕ, ◌+◌, ◌≡◌, false, List, [], ◌∷◌, Bool, String, Option, ◌&&◌, true, some, none,
}
use vero_audit_guard.Dispatcher.{
  AnomalyAlertInput, Answer, Config, Dispatcher, validate_alert, Field, acknowledged,
}

-- What a delivery needs: a valid alert, a client, and the dashboard's acknowledgement.
abbrev is_acknowledged : Answer → Bool
is_acknowledged acknowledged = true
is_acknowledged _ = false

abbrev is_none : Option Field → Bool
is_none none = true
is_none (some f) = false

abbrev pub arrives : (String → Bool) → Config → AnomalyAlertInput × Answer → Bool
arrives parses c (x, a) = is_none (validate_alert parses x) && c.has_client && is_acknowledged a

abbrev pub one_if : Bool → ℕ
one_if true = 1
one_if false = 0

abbrev pub arrivals : (String → Bool) → Config → List (AnomalyAlertInput × Answer) → ℕ
arrivals parses c [] = 0
arrivals parses c (x ∷ xs) = one_if (arrives parses c x) + arrivals parses c xs

abbrev pub Counted : Dispatcher → Dispatcher → ℕ → ℕ → Type 0
Counted d d' good all =
    (d'.is_shutdown ≡ d.is_shutdown)
    × (d'.delivered_count ≡ d.delivered_count + good)
    × (d'.delivered_count + d'.failed_count ≡ d.delivered_count + d.failed_count + all)
