-- ===== src/Emergency/Outcomes.antt =====
-- What a call of the emergency engine leaves, and what a sequence of unauthorised calls does.
use vero_audit_guard.Base.{
  ℕ, zero, suc, ◌+◌, ◌≤◌, ◌<◌, ◌^◌, ◌≡◌, refl, sym, ap, ◌∙◌, ◌≢◌, inl, inr, Bool, false, some, List,
  [], ◌∷◌, String, arith, Bool-cases, All, All,
}
use native.Mathlib.Decide.{dec_lt}
use vero_audit_guard.Base.Int.{ℤ, pos}
use vero_audit_guard.Emergency.Laws.{
  IsAuthorized, MayHalt, MayRecover, halting-ok, halting-accepts, recovering-ok, recovering-accepts,
  safe_sub_ok, require_auth_iff, check_halted_iff, >>-eq-ok, >>=-eq-ok, ok-inj,
}
use vero_audit_guard.Emergency.{
  halted, recovered, EngineState, SignedEmergencyAuth, EmergencyReceipt, WithdrawalResult, Error,
  Result, ok, err, guard, is_positive, safe_add, safe_sub, to_number, to_number_from, round_at,
  Config, Engine, require_auth, next_version, check_halted, halt_receipt, recovery_receipt, halting,
  recovering, conclude, trigger_emergency_exit, recover_engine, withdrawing, withdraw_funds, settle,
  Call, halts, recovers, withdraws, settles, step, run,
}

-- The state that a receipt announces, and the lock while the hook runs.
abbrev pub After : Config → EmergencyReceipt → Engine → Type 0
After c r e' =
    (e'.state.status ≡ r.status)
    × (e'.state.reason ≡ some r.reason)
    × (e'.state.triggered_at ≡ some r.triggered_at)
    × (e'.state.state_version ≡ r.new_state_version)
    × (e'.locked ≡ c.notifies)

positive : (y : ℕ) (x : Error) → guard (is_positive (pos y)) x ≡ ok tt → 0 < y
positive zero x h = cc
positive (suc y) x h = omega arith

err-ne-ok : {A : Type 0} {x : Error} {a : A} → err x ≡ ok a → ⊥
err-ne-ok h = cc

module _ (verifies : String → List ℕ → String → Bool) (sha256 : List ℕ → List ℕ) (c : Config) where
  conclude-After :
      (e : Engine) (x : Result EmergencyReceipt) (r : EmergencyReceipt)
      → (conclude verifies sha256 c e x).1 ≡ ok r
      → (x ≡ ok r) × After c r (conclude verifies sha256 c e x).0
  unfolding conclude
  conclude-After e (ok y) r h =
      let p = ok-inj h in
      (
        h,
        (
          ap (λ z. z.status) p,
          ap (λ z. some z.reason) p,
          ap (λ z. some z.triggered_at) p,
          ap (λ z. z.new_state_version) p,
          refl,
        ),
      )
  conclude-After e (err x) r h = cc

  pub trigger_emergency_exit-returns :
      (e : Engine) (auth : SignedEmergencyAuth) (now : ℕ) (r : EmergencyReceipt)
      → (trigger_emergency_exit verifies sha256 c e auth now).1 ≡ ok r
      → (e.locked ≡ false)
        × ((v : ℤ) × MayHalt verifies sha256 c e.state auth now v
            × (halt_receipt verifies sha256 c e.state auth now v ≡ r))
        × After c r (trigger_emergency_exit verifies sha256 c e auth now).0
  unfolding trigger_emergency_exit
  trigger_emergency_exit-returns e auth now r h = elim (Bool-cases e.locked) [
    | inl busy ↦ absurd (err-ne-ok (simp busy at h))
    | inr free ↦
        let (p, q) =
          conclude-After e (halting verifies sha256 c e.state auth now) r (simp free at h) in
        (free, halting-ok verifies sha256 c e.state auth now r p, simp free q)
  ]

  -- The guards of a halt are enough for it.
  trigger_accepts :
      (e : Engine) (auth : SignedEmergencyAuth) (now : ℕ) (v : ℤ)
      → e.locked ≡ false
      → MayHalt verifies sha256 c e.state auth now v
      → (trigger_emergency_exit verifies sha256 c e auth now).1
        ≡ ok (halt_receipt verifies sha256 c e.state auth now v)
  unfolding trigger_emergency_exit conclude
  trigger_accepts e auth now v free h =
      simp (free, halting-accepts verifies sha256 c e.state auth now v h)

  recover_accepts :
      (e : Engine) (auth : SignedEmergencyAuth) (now : ℕ) (v : ℤ)
      → e.locked ≡ false
      → MayRecover verifies sha256 c e.state auth now v
      → (recover_engine verifies sha256 c e auth now).1
        ≡ ok (recovery_receipt verifies sha256 c e.state auth now v)
  unfolding recover_engine conclude
  recover_accepts e auth now v free h =
      simp (free, recovering-accepts verifies sha256 c e.state auth now v h)

  -- A halt's payload is good for the recovery too: whatever payload has halted the engine, the same
  -- payload with the same signature recovers it at the same time, once the hook has settled and if
  -- the version can still be raised.
  pub halt_payload_recovers :
      (e : Engine) (auth : SignedEmergencyAuth) (now : ℕ) (r : EmergencyReceipt) (v : ℤ)
      → (trigger_emergency_exit verifies sha256 c e auth now).1 ≡ ok r
      → next_version (trigger_emergency_exit verifies sha256 c e auth now).0.state ≡ ok v
      → let e' = settle (trigger_emergency_exit verifies sha256 c e auth now).0 in
        (recover_engine verifies sha256 c e' auth now).1
        ≡ ok (recovery_receipt verifies sha256 c e'.state auth now v)
  halt_payload_recovers e auth now r v h n =
      let (free, (w, may, same), after) = trigger_emergency_exit-returns e auth now r h in
      recover_accepts _ auth now v (unfold settle in refl) (
        unfold settle in
        record {
          status = after.0 ∙ ap (λ x. x.status) (sym same) ∙ (unfold halt_receipt in refl);
          authorized = may.authorized;
          version = n;
        })

  -- An unlocked, recovered engine can be halted again by any authorised payload, as long as the
  -- version can be raised.
  pub recovered_halts :
      (e : Engine) (auth : SignedEmergencyAuth) (now : ℕ) (v : ℤ)
      → e.locked ≡ false
      → e.state.status ≡ recovered
      → IsAuthorized verifies sha256 c auth now
      → next_version e.state ≡ ok v
      → (trigger_emergency_exit verifies sha256 c e auth now).1
        ≡ ok (halt_receipt verifies sha256 c e.state auth now v)
  recovered_halts e auth now v free s a n =
      trigger_accepts e auth now v free
        (record { status = λ h. ground arith; authorized = a; version = n })

  withdrawing-ok :
      (s : EngineState) (auth : SignedEmergencyAuth) (amount balance : ℤ) (now : ℕ)
      (w : WithdrawalResult)
      → withdrawing verifies sha256 c s auth amount balance now ≡ ok w
      → (s.status ≡ halted)
        × IsAuthorized verifies sha256 c auth now
        × ((x y : ℕ) × (0 < y)
            × (amount ≡ pos y)
            × (balance ≡ pos (x + y))
            × (w.remaining_balance ≡ pos x))
        × (w.amount ≡ amount)
  unfolding withdrawing
  withdrawing-ok s auth amount balance now w h =
      let (p, h1) = >>-eq-ok (check_halted s) _ h in
      let (q, h2) = >>-eq-ok (guard (is_positive amount) _) _ h1 in
      let (t, h3) = >>-eq-ok (require_auth verifies sha256 c auth now) _ h2 in
      let (left, n, h4) = >>=-eq-ok (safe_sub balance amount) _ h3 in
      let (x, y, bal, am, lft) = safe_sub_ok balance amount left n in
      (
        (check_halted_iff s).0 p,
        (require_auth_iff verifies sha256 c auth now).0 t,
        (
          x,
          y,
          positive y _ (rw am at q),
          am,
          bal,
          ap (λ r. r.remaining_balance) (sym (ok-inj h4)) ∙ lft,
        ),
        ap (λ r. r.amount) (sym (ok-inj h4)),
      )

  -- A withdrawal that is approved was asked of an unlocked, halted engine with an authorised payload,
  -- for an amount between 1 and the balance; it reports the amount and the difference of the two, and
  -- leaves the engine as it was.
  pub withdraw_funds-returns :
      (e : Engine) (auth : SignedEmergencyAuth) (amount balance : ℤ) (now : ℕ)
      (w : WithdrawalResult)
      → (withdraw_funds verifies sha256 c e auth amount balance now).1 ≡ ok w
      → ((withdraw_funds verifies sha256 c e auth amount balance now).0 ≡ e)
        × (e.locked ≡ false)
        × (e.state.status ≡ halted)
        × IsAuthorized verifies sha256 c auth now
        × ((x y : ℕ) × (0 < y)
            × (amount ≡ pos y)
            × (balance ≡ pos (x + y))
            × (w.remaining_balance ≡ pos x))
        × (w.amount ≡ amount)
  unfolding withdraw_funds
  withdraw_funds-returns e auth amount balance now w h = elim (Bool-cases e.locked) [
    | inl busy ↦ absurd (err-ne-ok (simp busy at h))
    | inr free ↦
        let (s, a, n, m) = withdrawing-ok e.state auth amount balance now w (simp free at h) in
        (simp free, free, s, a, n, m)
  ]

  -- The payload of a call, where it has one, is not authorised at the call's time.
  abbrev pub Refused : Call → Type 0
  Refused (halts auth now) = ¬ IsAuthorized verifies sha256 c auth now
  Refused (recovers auth now) = ¬ IsAuthorized verifies sha256 c auth now
  Refused (withdraws auth amount balance now) = ¬ IsAuthorized verifies sha256 c auth now
  Refused settles = Unit {0}

  conclude-err :
      (e : Engine) (x : Result EmergencyReceipt)
      → ((r : EmergencyReceipt) → x ≢ ok r)
      → (conclude verifies sha256 c e x).0 ≡ e
  unfolding conclude
  conclude-err e (ok r) h = absurd (h r refl)
  conclude-err e (err x) h = refl

  step-Refused : (e : Engine) (x : Call) → Refused x → (step verifies sha256 c e x).state ≡ e.state
  unfolding step trigger_emergency_exit recover_engine withdraw_funds settle
  step-Refused e (halts auth now) h =
      let p =
        conclude-err e (halting verifies sha256 c e.state auth now)
          (λ r k. h (halting-ok verifies sha256 c e.state auth now r k).1.authorized) in
      ground arith
  step-Refused e (recovers auth now) h =
      let p =
        conclude-err e (recovering verifies sha256 c e.state auth now)
          (λ r k. h (recovering-ok verifies sha256 c e.state auth now r k).1.authorized) in
      ground arith
  step-Refused e (withdraws auth amount balance now) h = ground arith
  step-Refused e settles h = refl

  -- No sequence of calls with payloads that are not authorised when they are used changes the state.
  pub run-Refused :
      (e : Engine) (xs : List Call) → All Refused xs → (run verifies sha256 c e xs).state ≡ e.state
  unfolding run
  run-Refused e [] h = refl
  run-Refused e (x ∷ xs) (h, hs) =
      run-Refused (step verifies sha256 c e x) xs hs ∙ step-Refused e x h

round_at_one : (n : ℕ) → round_at 1 n ≡ n
unfolding round_at
round_at_one n = ground arith

to_number_from-eq : (f n : ℕ) → n < 2 ^ 53 → to_number_from (suc f) 1 n ≡ n
unfolding to_number_from
to_number_from-eq f n h = ground (arith, round_at_one n)

to_number-eq : (n : ℕ) → n ≤ 2 ^ 53 → to_number (pos n) ≡ pos n
unfolding to_number
to_number-eq n h = elim (dec_lt n (2 ^ 53)) [
  | yes p ↦ ap pos (to_number_from-eq 11 n p)
  | no p ↦ let q : n ≡ 2 ^ 53 = omega arith in rw q
]

-- From a version below 2 ^ 53, the version that a halt or a recovery writes is one more.
pub next_version-suc :
    (s : EngineState) (n : ℕ)
    → s.state_version ≡ pos n
    → n < 2 ^ 53
    → next_version s ≡ ok (pos (suc n))
unfolding next_version safe_add
next_version-suc s n e h = rw e (ground (arith, to_number-eq (suc n)))
