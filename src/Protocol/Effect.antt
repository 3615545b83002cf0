-- ===== src/Protocol/Effect.antt =====
-- The four ways in which a call of `apply` ends, with what each rests on.
use vero_audit_guard.Base.{
  ℕ, ◌≤◌, ◌≡◌, ◌⊎◌, inl, inr, true, false, none, some, List, arith, ltb, ◌&&◌, Bool-cases,
  Option-cases, suc, ap, ◌<◌,
}
use vero_audit_guard.Protocol.{
  ProtocolState, ProtocolEvent, checked_id, timestamp_of, transition, type_of, Machine, Options,
  Applied, StateMachineError, state_machine_shutdown, timestamp_violation, invalid_transition,
  mismatch, dispatch, apply, reject, commit, apply_reset, skew, is_reset, is_date, crash,
  TransitionRecord, returns,
}

-- The machine takes events, and the event's time is within the window, if there is one.
pub record IsOpen (o : Options) (now : ℕ) (m : Machine) (e : ProtocolEvent) : Type 0 where
  pub running : m.is_shutdown ≡ false
  pub timely : (o.max_clock_skew_ms ≡ 0) ⊎ (skew (timestamp_of e) now ≤ o.max_clock_skew_ms)

module _ (stringify : ProtocolEvent → List ℕ) (o : Options) where
  pub data Effect (now : ℕ) (m : Machine) (e : ProtocolEvent) (x : Applied) : Type 0 where
    rejected : (err : StateMachineError) → x ≡ reject stringify m e err → Effect now m e x
    crashed :
        o.max_clock_skew_ms < skew (timestamp_of e) now
        → (is_date (timestamp_of e) && is_date now) ≡ false
        → x ≡ crash stringify m
        → Effect now m e x
    committed :
        (to : ProtocolState)
        → IsOpen o now m e
        → is_reset e ≡ false
        → mismatch m.active_scan_id (checked_id e) ≡ none
        → transition m.state e ≡ some to
        → x ≡ commit stringify o m to e
        → Effect now m e x
    restarted :
        IsOpen o now m e → is_reset e ≡ true → x ≡ apply_reset stringify o m e → Effect now m e x

  dispatch-Effect :
      (now : ℕ) (m : Machine) (e : ProtocolEvent)
      → IsOpen o now m e
      → is_reset e ≡ false
      → Effect now m e (dispatch stringify o m e)
  unfolding dispatch
  dispatch-Effect now m e w n = elim (Option-cases (mismatch m.active_scan_id (checked_id e))) [
    | inr (err, p) ↦ rejected err (rw (p, dispatch))
    | inl p ↦ elim (Option-cases (transition m.state e)) [
      | inl q ↦
          rejected (invalid_transition m.state (type_of e)) (rw (p, dispatch) (rw (q, dispatch)))
      | inr (to, q) ↦ committed to w n p q (rw (p, dispatch) (rw (q, dispatch)))
    ]
  ]

  pub apply-Effect :
      (now : ℕ) (m : Machine) (e : ProtocolEvent) → Effect now m e (apply stringify o now m e)
  unfolding apply
  apply-Effect now m e = elim (Bool-cases m.is_shutdown) [
    | inl shut ↦ rejected state_machine_shutdown (rw shut)
    | inr running ↦
        elim (Bool-cases
          (ltb 0 o.max_clock_skew_ms && ltb o.max_clock_skew_ms (skew (timestamp_of e) now))) [
            | inl late ↦ elim (Bool-cases (is_date (timestamp_of e) && is_date now)) [
              | inl d ↦
                  rejected (timestamp_violation (timestamp_of e) now o.max_clock_skew_ms)
                    (rw (running, late, d))
              | inr d ↦ crashed (ground (arith, late)) d (rw (running, late, d))
            ]
            | inr timely ↦
                let w : IsOpen o now m e = record { running = running; timely = ground arith } in
                elim (Bool-cases (is_reset e)) [
                  | inl r ↦ restarted w r (rw (running, timely, r))
                  | inr r ↦ simp (running, timely, r) (dispatch-Effect now m e w r)
                ]
          ]
  ]

  returned-Effect :
      (now : ℕ) (m : Machine) (e : ProtocolEvent) (x : Applied) (r : TransitionRecord)
      → Effect now m e x
      → x.outcome ≡ returns r
      → (x.machine.is_shutdown ≡ m.is_shutdown)
        × (x.machine.transition_count ≡ suc m.transition_count)
  unfolding reject commit apply_reset
  returned-Effect now m e x r (rejected err p) q = absurd (let f = ap (λ y. y.outcome) p in cc)
  returned-Effect now m e x r (crashed l d p) q = absurd (let f = ap (λ y. y.outcome) p in cc)
  returned-Effect now m e x r (committed to w n h k p) q =
      (ap (λ y. y.machine.is_shutdown) p, ap (λ y. y.machine.transition_count) p)
  returned-Effect now m e x r (restarted w n p) q =
      (ap (λ y. y.machine.is_shutdown) p, ap (λ y. y.machine.transition_count) p)

  -- A call that returns leaves the machine running as it was, and counts one transition more.
  pub apply-returned :
      (now : ℕ) (m : Machine) (e : ProtocolEvent) (r : TransitionRecord)
      → (apply stringify o now m e).outcome ≡ returns r
      → ((apply stringify o now m e).machine.is_shutdown ≡ m.is_shutdown)
        × ((apply stringify o now m e).machine.transition_count ≡ suc m.transition_count)
  apply-returned now m e r q = returned-Effect now m e _ r (apply-Effect now m e) q
