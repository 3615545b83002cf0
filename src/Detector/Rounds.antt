-- ===== src/Detector/Rounds.antt =====
-- The failovers of the monitor's rounds, and the latency that is measured for them.
use vero_audit_guard.Base.{
  ℕ, zero, suc, ◌≡◌, refl, sym, ◌∙◌, ap, true, false, Option, none, some, List, [], ◌∷◌, String,
  map, arith, includes, get_elem?, All, Bool-cases, inl, inr,
}
use vero_audit_guard.Base.Dict.{lookup}
use vero_audit_guard.Base.Int.{pos}
use vero_audit_guard.Failover as Monitors
use vero_audit_guard.Failover.Instant.{
  record_check-other, record_check-healthy, record_failover-instant,
}
use vero_audit_guard.Detector.Health.{
  NodeStatus, NodeHealthChecker, Probe, init, probed, check_health, fail_over, to_other, find_other,
  reported, record_statuses, initial_check, round, rounds,
}

abbrev pub urls : List NodeStatus → List String
urls = map (λ n. n.url)

-- Each URL once.
abbrev pub DistinctUrls : List String → Type 0
DistinctUrls [] = Unit
DistinctUrls (u ∷ us) = (includes us u ≡ false) × DistinctUrls us

-- A node that last answered has no outage on record.
abbrev Cleared : Monitors.Monitor → NodeStatus → Type 0
Cleared s n = n.healthy ≡ true → lookup n.url s.first_failure_times ≡ none

urls-probed :
    (now : ℕ) (probe : ℕ → Probe) (i : ℕ) (ns : List NodeStatus)
    → urls (probed now probe i ns) ≡ urls ns
unfolding probed
urls-probed now probe i [] = refl
urls-probed now probe i (n ∷ ns) = ap (λ us. n.url ∷ us) (urls-probed now probe (suc i) ns)

to_other-nodes :
    (c : NodeHealthChecker) (old : NodeStatus) (r : Option (ℕ × NodeStatus))
    → (to_other c old r).0.nodes ≡ c.nodes
to_other-nodes c old none = refl
to_other-nodes c old (some (i, m)) = refl

-- The nodes after a check are those before, probed.
fail_over-nodes :
    (c : NodeHealthChecker) (n : Option NodeStatus) → (fail_over c n).0.nodes ≡ c.nodes
fail_over-nodes c none = refl
fail_over-nodes c (some n) = elim (Bool-cases n.healthy) [
  | inl b ↦ simp b refl
  | inr b ↦ simp b (to_other-nodes c n (find_other c.current_node_index 0 c.nodes))
]

to_other-from :
    (c : NodeHealthChecker) (old : NodeStatus) (r : Option (ℕ × NodeStatus)) (a b : String)
    → (to_other c old r).1 ≡ some (a, b)
    → old.url ≡ a
to_other-from c old none a b h = absurd cc
to_other-from c old (some (i, m)) a b h = cc

-- A failover leaves the current node.
fail_over-from :
    (c : NodeHealthChecker) (q : Option NodeStatus) (a b : String)
    → (fail_over c q).1 ≡ some (a, b)
    → (m : NodeStatus) × (q ≡ some m) × (m.url ≡ a)
fail_over-from c none a b h = absurd cc
fail_over-from c (some n) a b h = elim (Bool-cases n.healthy) [
  | inl t ↦ absurd (let g = simp t at h in cc)
  | inr t ↦
      (n, refl, to_other-from c n (find_other c.current_node_index 0 c.nodes) a b (simp t at h))
]

get_elem?-probed :
    (now : ℕ) (probe : ℕ → Probe) (i k : ℕ) (ns : List NodeStatus) (m n : NodeStatus)
    → get_elem? (probed now probe i ns) k ≡ some m
    → get_elem? ns k ≡ some n
    → m.url ≡ n.url
unfolding probed
get_elem?-probed now probe i k [] m n p q = absurd cc
get_elem?-probed now probe i zero (x ∷ ns) m n p q = let e : x ≡ n = cc in cc
get_elem?-probed now probe i (suc k) (x ∷ ns) m n p q =
    get_elem?-probed now probe (suc i) k ns m n p q

All-get_elem? :
    (s : Monitors.Monitor) (ns : List NodeStatus) (k : ℕ) (n : NodeStatus)
    → All (Cleared s) ns
    → get_elem? ns k ≡ some n
    → Cleared s n
All-get_elem? s [] k n a q = absurd cc
All-get_elem? s (x ∷ ns) zero n a q = let e : x ≡ n = cc in rw (sym e) a.0
All-get_elem? s (x ∷ ns) (suc k) n a q = All-get_elem? s ns k n a.1 q

module _ (o : Monitors.Options) where
  record_statuses-other :
      (s : Monitors.Monitor) (now : ℕ) (ns : List NodeStatus) (u : String)
      → includes (urls ns) u ≡ false
      → lookup u (record_statuses o s now ns).first_failure_times ≡ lookup u s.first_failure_times
  unfolding record_statuses
  record_statuses-other s now [] u h = refl
  record_statuses-other s now (n ∷ ns) u h =
      record_statuses-other (Monitors.record_check o s n.url n.healthy now) now ns u (ground arith)
      ∙ record_check-other o s n.url u n.healthy now (ground arith)

  head-Cleared :
      (s : Monitors.Monitor) (now : ℕ) (n : NodeStatus) (ns : List NodeStatus)
      → includes (urls ns) n.url ≡ false
      → Cleared (record_statuses o (Monitors.record_check o s n.url n.healthy now) now ns) n
  head-Cleared s now n ns d h =
      record_statuses-other (Monitors.record_check o s n.url n.healthy now) now ns n.url d
      ∙ rw h (record_check-healthy o s n.url now)

  record_statuses-Cleared :
      (s : Monitors.Monitor) (now : ℕ) (ns : List NodeStatus)
      → DistinctUrls (urls ns)
      → All (Cleared (record_statuses o s now ns)) ns
  unfolding record_statuses
  record_statuses-Cleared s now [] d = tt
  record_statuses-Cleared s now (n ∷ ns) d = (
    head-Cleared s now n ns d.0,
    record_statuses-Cleared (Monitors.record_check o s n.url n.healthy now) now ns d.1,
  )

  -- What a monitor knows between its rounds.
  abbrev Known : List String → NodeHealthChecker × Monitors.Monitor → Type 0
  Known us (c, s) = (urls c.nodes ≡ us) × All (Cleared s) c.nodes

  round-Known :
      (us : List String) (x : NodeHealthChecker × Monitors.Monitor) (now : ℕ) (probe : ℕ → Probe)
      → DistinctUrls us
      → urls x.0.nodes ≡ us
      → Known us (round o x (now, probe))
  unfolding round check_health
  round-Known us (c, s) now probe d u =
      let checked = check_health c now probe in
      let n =
        fail_over-nodes (record c { nodes = probed now probe 0 c.nodes })
          (get_elem? (probed now probe 0 c.nodes) c.current_node_index) in
      let v : urls (checked.0).nodes ≡ us = ap urls n ∙ urls-probed now probe 0 c.nodes ∙ u in
      (v, record_statuses-Cleared (reported o s now (checked.1)) now (checked.0).nodes (rw v d))

  rounds-Known :
      (us : List String) (x : NodeHealthChecker × Monitors.Monitor) (rs : List (ℕ × (ℕ → Probe)))
      → DistinctUrls us
      → Known us x
      → Known us (rounds o x rs)
  unfolding rounds
  rounds-Known us x [] d k = k
  rounds-Known us x ((now, probe) ∷ rs) d k =
      rounds-Known us (round o x (now, probe)) rs d (round-Known us x now probe d k.0)

  urls-init : (us : List String) (start : ℕ) → urls (init us start).nodes ≡ us
  unfolding init
  urls-init [] start = refl
  urls-init (u ∷ us) start = ap (λ vs. u ∷ vs) (urls-init us start)

  reported-Cleared :
      (now : ℕ) (moved : Option (String × String)) (ns : List NodeStatus)
      → All (Cleared (reported o Monitors.init now moved)) ns
  unfolding Monitors.init Monitors.record_failover lookup
  reported-Cleared now moved [] = tt
  reported-Cleared now none (n ∷ ns) = ((λ h. refl), reported-Cleared now none ns)
  reported-Cleared now (some m) (n ∷ ns) = ((λ h. refl), reported-Cleared now (some m) ns)

  initial_check-Known :
      (us : List String) (start now : ℕ) (probe : ℕ → Probe)
      → Known us (initial_check o (init us start) (now, probe))
  unfolding initial_check check_health
  initial_check-Known us start now probe =
      let c = init us start in
      let checked = check_health c now probe in
      let n =
        fail_over-nodes (record c { nodes = probed now probe 0 c.nodes })
          (get_elem? (probed now probe 0 c.nodes) c.current_node_index) in
      (
        ap urls n ∙ urls-probed now probe 0 c.nodes ∙ urls-init us start,
        reported-Cleared now (checked.1) (checked.0).nodes,
      )

  -- Where the nodes' URLs are distinct, after the monitor's initial check and any rounds: a failover
  -- from a node that answered the last check is recorded with a latency of 0, and never as slow.
  pub rounds-instant :
      (us : List String) (start first : ℕ) (answers : ℕ → Probe) (rs : List (ℕ × (ℕ → Probe)))
      → DistinctUrls us
      → let x = rounds o (initial_check o (init us start) (first, answers)) rs in
        (now : ℕ) (probe : ℕ → Probe) (n : NodeStatus) (a b : String)
        → get_elem? x.0.nodes x.0.current_node_index ≡ some n
        → n.healthy ≡ true
        → (check_health x.0 now probe).1 ≡ some (a, b)
        → let e = (Monitors.record_failover o x.1 a b now).1 in
          (e.latency_ms ≡ pos 0) × (e.slow_failover ≡ false)
  unfolding check_health
  rounds-instant us start first answers rs d now probe n a b current healthy moved =
      let x0 = initial_check o (init us start) (first, answers) in
      let x = rounds o x0 rs in
      let (u, cleared) = rounds-Known us x0 rs d (initial_check-Known us start first answers) in
      let (m, e, f) =
        fail_over-from (record (x.0) { nodes = probed now probe 0 x.0.nodes })
          (get_elem? (probed now probe 0 x.0.nodes) x.0.current_node_index) a b moved in
      let g = get_elem?-probed now probe 0 x.0.current_node_index x.0.nodes m n e current in
      let none_open =
        All-get_elem? x.1 x.0.nodes x.0.current_node_index n cleared current healthy in
      record_failover-instant o x.1 a b now
        (ap (λ v. lookup v x.1.first_failure_times) (sym f ∙ g) ∙ none_open)
