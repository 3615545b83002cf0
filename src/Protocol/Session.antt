-- ===== src/Protocol/Session.antt =====
-- What an accepted event does, against an independent description of the protocol: `Move` lists the
-- legal steps of a session, a state with the id of the scan in progress.
use vero_audit_guard.Base.{
  ℕ, ◌≡◌, refl, sym, ap, ◌⊎◌, inl, inr, true, false, Option, none, some, List, String, arith,
  if◌then◌else◌, eq_iff, Bool-cases,
}
use mathlib.Core.Path.{subst}
use vero_audit_guard.Protocol.Effect.{
  IsOpen, Effect, rejected, crashed, committed, restarted, apply-Effect,
}
use vero_audit_guard.Protocol.{
  ProtocolState, idle, scanning, reporting, done, failed, ProtocolEvent, scan_started,
  scan_completed, scan_failed, report_started, report_delivered, report_failed, reset, checked_id,
  transition, Machine, Options, returns, throws, Applied, Exception, machine_error, range_error,
  TransitionRecord, mismatch, next_scan_id, dispatch, apply, reject, commit, apply_reset, is_reset,
  type_of,
}

-- From state `s`, with the id `a` of the scan in progress.
pub data Move (s : ProtocolState) (a : Option String)
    : ProtocolEvent → ProtocolState → Option String → Type 0 where
  start : (i g : String) (t : ℕ) → s ≡ idle → Move s a (scan_started i g t) scanning (some i)
  complete :
      (i : String) (n t : ℕ)
      → s ≡ scanning
      → a ≡ some i
      → Move s a (scan_completed i n t) reporting (some i)
  fail_scan :
      (i r : String) (t : ℕ)
      → s ≡ scanning
      → a ≡ some i
      → Move s a (scan_failed i r t) failed (some i)
  begin_report :
      (i : String) (t : ℕ)
      → s ≡ reporting
      → a ≡ some i
      → Move s a (report_started i t) reporting (some i)
  deliver :
      (i h : String) (t : ℕ)
      → s ≡ reporting
      → a ≡ some i
      → Move s a (report_delivered i h t) done (some i)
  fail_report :
      (i r : String) (t : ℕ)
      → s ≡ reporting
      → a ≡ some i
      → Move s a (report_failed i r t) failed (some i)
  restart : (b : String) (t : ℕ) → Move s a (reset b t) idle none

-- A session has an id exactly while the machine is out of IDLE.
abbrev pub HasId : ProtocolState → Option String → Type 0
HasId idle a = a ≡ none
HasId _ a = (i : String) × (a ≡ some i)

pub Move-HasId :
    {s to : ProtocolState} {a b : Option String} {e : ProtocolEvent} → Move s a e to b → HasId to b
Move-HasId (start i g t _) = (i, refl)
Move-HasId (complete i n t _ _) = (i, refl)
Move-HasId (fail_scan i r t _ _) = (i, refl)
Move-HasId (begin_report i t _ _) = (i, refl)
Move-HasId (deliver i h t _ _) = (i, refl)
Move-HasId (fail_report i r t _ _) = (i, refl)
Move-HasId (restart b t) = refl

mismatch-eq-none :
    (a : Option String) (i : String)
    → ((j : String) × (a ≡ some j))
    → mismatch a (some i) ≡ none
    → a ≡ some i
mismatch-eq-none none i (j, e) h = cc
mismatch-eq-none (some x) i v h = ground (arith, eq_iff i x)

abbrev Legal : ProtocolState → Option String → ProtocolEvent → Option ProtocolState → Type 0
Legal s a e none = Unit
Legal s a e (some to) = Move s a e to (next_scan_id e to a)

-- An entry of the transition table, taken with the session's own id, is a legal step.
transition-Legal :
    (s : ProtocolState) (a : Option String) (e : ProtocolEvent)
    → HasId s a
    → mismatch a (checked_id e) ≡ none
    → Legal s a e (transition s e)
unfolding transition
transition-Legal idle a (scan_started i g t) v h = start i g t refl
transition-Legal scanning a (scan_completed i n t) v h =
    let p = mismatch-eq-none a i v h in rw p (complete i n t refl refl)
transition-Legal scanning a (scan_failed i r t) v h =
    let p = mismatch-eq-none a i v h in rw p (fail_scan i r t refl refl)
transition-Legal reporting a (report_started i t) v h =
    let p = mismatch-eq-none a i v h in rw p (begin_report i t refl refl)
transition-Legal reporting a (report_delivered i r t) v h =
    let p = mismatch-eq-none a i v h in rw p (deliver i r t refl refl)
transition-Legal reporting a (report_failed i r t) v h =
    let p = mismatch-eq-none a i v h in rw p (fail_report i r t refl refl)
transition-Legal _ a _ v h = tt

mismatch_self : (a : Option String) (i : String) → a ≡ some i → mismatch a (some i) ≡ none
mismatch_self none i h = refl
mismatch_self (some x) i h = ground (arith, eq_iff i x)

-- Conversely a legal step, other than a reset, is in the table and passes the id check.
Move-transition :
    {s to : ProtocolState} {a b : Option String} {e : ProtocolEvent}
    → Move s a e to b
    → is_reset e ≡ false
    → (mismatch a (checked_id e) ≡ none) × (transition s e ≡ some to) × (next_scan_id e to a ≡ b)
unfolding transition
Move-transition {a} (start i g t p) h = (ground arith, rw p, refl)
Move-transition {a} (complete i n t p q) h = (mismatch_self a i q, rw p, q)
Move-transition {a} (fail_scan i r t p q) h = (mismatch_self a i q, rw p, q)
Move-transition {a} (begin_report i t p q) h = (mismatch_self a i q, rw p, q)
Move-transition {a} (deliver i r t p q) h = (mismatch_self a i q, rw p, q)
Move-transition {a} (fail_report i r t p q) h = (mismatch_self a i q, rw p, q)
Move-transition (restart b t) h = cc

Move-idle :
    {s to : ProtocolState} {a b : Option String} {e : ProtocolEvent}
    → Move s a e to b
    → is_reset e ≡ true
    → (to ≡ idle) × (b ≡ none)
Move-idle (restart b t) h = (refl, refl)
Move-idle (start i g t p) h = cc
Move-idle _ h = (cc, cc)

-- A scan starts out of IDLE only.
pub Move-start :
    {s to : ProtocolState} {a b : Option String} {e : ProtocolEvent}
    → Move s a e to b
    → type_of e ≡ "SCAN_STARTED"
    → s ≡ idle
Move-start (start i g t p) h = p
Move-start _ h = cc

abbrev pub IsSession : Machine → Type 0
IsSession m = HasId m.state m.active_scan_id

pub commit-Move :
    (m : Machine) (to : ProtocolState) (e : ProtocolEvent)
    → IsSession m
    → mismatch m.active_scan_id (checked_id e) ≡ none
    → transition m.state e ≡ some to
    → Move m.state m.active_scan_id e to (next_scan_id e to m.active_scan_id)
commit-Move m to e v p q =
    subst (Legal m.state m.active_scan_id e) q (transition-Legal m.state m.active_scan_id e v p)

restart_of :
    (s : ProtocolState) (a : Option String) (e : ProtocolEvent)
    → is_reset e ≡ true
    → Move s a e idle none
restart_of s a (scan_started i g t) h = cc
restart_of s a (reset b t) h = restart b t
restart_of s a _ h = cc

module _ (stringify : ProtocolEvent → List ℕ) (o : Options) where
  -- The session before and after a call: a legal step, or nothing changed.
  abbrev pub Moves : Machine → ProtocolEvent → Machine → Type 0
  Moves m e m' = Move m.state m.active_scan_id e m'.state m'.active_scan_id

  Effect-Moves :
      (now : ℕ) (m : Machine) (e : ProtocolEvent) (x : Applied)
      → IsSession m
      → Effect stringify o now m e x
      → (Moves m e x.machine
          × IsOpen o now m e
          × ((r : TransitionRecord) × (x.outcome ≡ returns r)))
        ⊎ ((x.machine ≡ m) × ((err : Exception) × (x.outcome ≡ throws err)))
  unfolding reject commit apply_reset
  Effect-Moves now m e x v (rejected err p) =
      inr (ap (λ y. y.machine) p, (machine_error err, ap (λ y. y.outcome) p))
  Effect-Moves now m e x v (crashed l d p) =
      inr (ap (λ y. y.machine) p, (range_error, ap (λ y. y.outcome) p))
  Effect-Moves now m e x v (committed to w n h k p) =
      inl (rw p (commit-Move m to e v h k), w, (_, ap (λ y. y.outcome) p))
  Effect-Moves now m e x v (restarted w n p) =
      inl (rw p (restart_of m.state m.active_scan_id e n), w, (_, ap (λ y. y.outcome) p))

  -- Out of a well-formed session, a call of `apply` that returns has made a legal step of the session
  -- while the machine was running and the event's time within the skew window; a call that throws
  -- has left the machine as it was.
  pub apply-Moves :
      (now : ℕ) (m : Machine) (e : ProtocolEvent)
      → IsSession m
      → ((Moves m e (apply stringify o now m e).machine
            × IsOpen o now m e
            × ((r : TransitionRecord) × ((apply stringify o now m e).outcome ≡ returns r)))
          ⊎ (((apply stringify o now m e).machine ≡ m)
              × ((err : Exception) × ((apply stringify o now m e).outcome ≡ throws err))))
  apply-Moves now m e v = Effect-Moves now m e _ v (apply-Effect stringify o now m e)

  apply-eq :
      (now : ℕ) (m : Machine) (e : ProtocolEvent)
      → IsOpen o now m e
      → apply stringify o now m e
        ≡ (if is_reset e then apply_reset stringify o m e else dispatch stringify o m e)
  unfolding apply
  apply-eq now m e w = ground arith

  dispatch-eq :
      (m : Machine) (e : ProtocolEvent) (to : ProtocolState)
      → mismatch m.active_scan_id (checked_id e) ≡ none
      → transition m.state e ≡ some to
      → dispatch stringify o m e ≡ commit stringify o m to e
  unfolding dispatch
  dispatch-eq m e to p q = rw (p, dispatch) (rw (q, dispatch))

  -- The machine refuses no legal step: while it runs, and for an event within the skew window, every
  -- legal step of the session is taken, and ends in the state and with the scan id of that step.
  pub apply_accepts :
      (now : ℕ) (m : Machine) (e : ProtocolEvent) (to : ProtocolState) (b : Option String)
      → IsOpen o now m e
      → Move m.state m.active_scan_id e to b
      → ((r : TransitionRecord) × ((apply stringify o now m e).outcome ≡ returns r))
        × ((apply stringify o now m e).machine.state ≡ to)
        × ((apply stringify o now m e).machine.active_scan_id ≡ b)
  apply_accepts now m e to b w v = elim (Bool-cases (is_reset e)) [
    | inl r ↦
        let (p, q) = Move-idle v r in
        rw (apply-eq now m e w, r) (unfold apply_reset commit in ((_, refl), sym p, sym q))
    | inr r ↦
        let (k, h, q) = Move-transition v r in
        rw (apply-eq now m e w, r, dispatch-eq m e to k h) (unfold commit in ((_, refl), refl, q))
  ]
