-- ===== src/Failover/Instant.antt =====
-- What one check or failover does to the outages of the other endpoints.
use vero_audit_guard.Base.{
  ℕ, ◌≡◌, refl, false, true, none, String, arith, str_eq, Bool-cases, inl, inr, eq_iff, Bool,
}
use vero_audit_guard.Base.Dict.{lookup, has, lookup-insert, lookup-delete}
use vero_audit_guard.Base.Int.{pos}
use vero_audit_guard.Failover.{
  Options, Monitor, noted, record_check, record_failover, event_of, elapsed, exceeds,
}

module _ (o : Options) (s : Monitor) where
  pub record_check-other :
      (url u : String) (healthy : Bool) (now : ℕ)
      → str_eq url u ≡ false
      → lookup u (record_check o s url healthy now).first_failure_times
        ≡ lookup u s.first_failure_times
  unfolding record_check noted
  record_check-other url u true now h =
      let l = lookup-delete url u s.first_failure_times in ground (arith, l)
  record_check-other url u false now h = elim (Bool-cases (has url s.first_failure_times)) [
    | inl b ↦ simp b refl
    | inr b ↦ simp b (let l = lookup-insert url u s.first_failure_times now in ground (arith, l))
  ]

  pub record_check-healthy :
      (url : String) (now : ℕ)
      → lookup url (record_check o s url true now).first_failure_times ≡ none
  unfolding record_check noted
  record_check-healthy url now =
      let d = lookup-delete url url s.first_failure_times in ground (arith, eq_iff url url, d)

  -- A failover from an endpoint without an outage on record takes no time.
  pub record_failover-instant :
      (from_url to_url : String) (now : ℕ)
      → lookup from_url s.first_failure_times ≡ none
      → let e = (record_failover o s from_url to_url now).1 in
        (e.latency_ms ≡ pos 0) × (e.slow_failover ≡ false)
  unfolding record_failover event_of elapsed exceeds
  record_failover-instant from_url to_url now h = simp h (ground arith)
