-- ===== src/Detector/Health.antt =====
-- anomaly-detector/src/index.ts: the health checker of the RPC nodes, and the initial check and the
-- rounds of the monitor, in which it feeds the failover monitor. Whether a node answers, and how long it
-- takes, are arguments, one probe for each node; a round reads one time, and ends before the next one
-- begins. The callbacks are the one that the monitor adds.
use vero_audit_guard.Base.{
  ℕ, suc, Option, String, List, Bool, map, get_elem?, some, false, ◌∷◌, none, true, if◌then◌else◌,
  [], not, ◌==◌, ◌&&◌,
}
use vero_audit_guard.Failover as Monitors

pub record NodeStatus : Type 0 where
  pub url : String
  pub healthy : Bool
  pub last_checked : ℕ
  pub response_time : Option ℕ

pub record NodeHealthChecker : Type 0 where
  pub nodes : List NodeStatus
  pub current_node_index : ℕ

unfoldable pub init : List String → ℕ → NodeHealthChecker
init urls now = record {
  nodes =
      map (λ url. record { url = url; healthy = true; last_checked = now; response_time = none })
        urls;
  current_node_index = 0;
}

-- How long a node took to answer, if it did.
abbrev pub Probe : Type 0
Probe = Option ℕ

abbrev answered : Probe → Bool
answered none = false
answered (some t) = true

unfoldable pub probed : ℕ → (ℕ → Probe) → ℕ → List NodeStatus → List NodeStatus
probed now probe i [] = []
probed now probe i (n ∷ ns) =
    record {
      url = n.url;
      healthy = answered (probe i);
      last_checked = now;
      response_time = probe i;
    }
    ∷ probed now probe (suc i) ns

-- `findIndex`: the first healthy node that is not the current one, with its index.
unfoldable pub find_other : ℕ → ℕ → List NodeStatus → Option (ℕ × NodeStatus)
find_other current i [] = none
find_other current i (n ∷ ns) =
    let rest = find_other current (suc i) ns in
    if not (i == current) && n.healthy then some (i, n) else rest

-- The nodes' health, and the failover from one URL to another.
abbrev pub to_other :
    NodeHealthChecker
    → NodeStatus
    → Option (ℕ × NodeStatus)
    → NodeHealthChecker × Option (String × String)
to_other c old none = (c, none)
to_other c old (some (i, n)) = (record c { current_node_index = i }, some (old.url, n.url))

abbrev pub fail_over :
    NodeHealthChecker → Option NodeStatus → NodeHealthChecker × Option (String × String)
fail_over c none = (c, none)
fail_over c (some n) =
    if n.healthy then (c, none) else to_other c n (find_other c.current_node_index 0 c.nodes)

unfoldable pub check_health :
    NodeHealthChecker → ℕ → (ℕ → Probe) → NodeHealthChecker × Option (String × String)
check_health c now probe =
    let nodes = probed now probe 0 c.nodes in
    fail_over (record c { nodes = nodes }) (get_elem? nodes c.current_node_index)

module _ (o : Monitors.Options) where
  abbrev pub reported : Monitors.Monitor → ℕ → Option (String × String) → Monitors.Monitor
  reported s now none = s
  reported s now (some (a, b)) = (Monitors.record_failover o s a b now).0

  unfoldable pub record_statuses : Monitors.Monitor → ℕ → List NodeStatus → Monitors.Monitor
  record_statuses s now [] = s
  record_statuses s now (n ∷ ns) =
      record_statuses (Monitors.record_check o s n.url n.healthy now) now ns

  -- The check before the first round: its callback, but no statuses.
  unfoldable pub initial_check :
      NodeHealthChecker → ℕ × (ℕ → Probe) → NodeHealthChecker × Monitors.Monitor
  initial_check c (now, probe) =
      let checked = check_health c now probe in (checked.0, reported Monitors.init now (checked.1))

  -- A round: the check, its callback on a failover, and then the statuses.
  unfoldable pub round :
      NodeHealthChecker × Monitors.Monitor → ℕ × (ℕ → Probe) → NodeHealthChecker × Monitors.Monitor
  round (c, s) (now, probe) =
      let checked = check_health c now probe in
      (checked.0, record_statuses (reported s now (checked.1)) now (checked.0).nodes)

  unfoldable pub rounds :
      NodeHealthChecker × Monitors.Monitor
      → List (ℕ × (ℕ → Probe))
      → NodeHealthChecker × Monitors.Monitor
  rounds x [] = x
  rounds x (r ∷ rs) = rounds (round x r) rs
