-- ===== src/Protocol/History.antt =====
-- The invariant of `ProtocolStateMachine` over any sequence of calls: the session, and the bounded,
-- hash-chained history of transitions.
use vero_audit_guard.Base.{
  ℕ, suc, ◌≤◌, ◌≡◌, refl, sym, ap, ◌⊎◌, inl, inr, true, some, List, [], ◌∷◌, ◌++◌, arith, All,
  All-append, All-drop, length, drop, push_capped, length-push_capped, ltb, Bool-cases,
}
use vero_audit_guard.Protocol.Hash.{compute_snapshot_hash}
use vero_audit_guard.Protocol.Effect.{Effect, rejected, crashed, committed, restarted, apply-Effect}
use vero_audit_guard.Protocol.Session.{IsSession, Move-HasId, commit-Move}
use vero_audit_guard.Protocol.{
  scan_started, ProtocolState, idle, ProtocolEvent, transition, Machine, Options, Applied,
  TransitionRecord, is_reset, hash_input, next_record, reset, Call, applies, shuts_down, step, run,
  init, shutdown, apply, reject, commit, apply_reset,
}

module _ (stringify : ProtocolEvent → List ℕ) where
  -- `x` is the record of the transition right after `r`.
  pub record Follows (r x : TransitionRecord) : Type 0 where
    pub seq : x.seq ≡ suc r.seq
    pub state : x.from_state ≡ r.to_state
    pub hash :
        x.snapshot_hash
        ≡ compute_snapshot_hash
            (hash_input stringify r.snapshot_hash x.from_state x.to_state x.event x.seq)

  -- `r` is the record of the last transition of `m`.
  pub record Tip (m : Machine) (r : TransitionRecord) : Type 0 where
    pub seq : r.seq ≡ m.transition_count
    pub state : r.to_state ≡ m.state
    pub hash : r.snapshot_hash ≡ m.snapshot_hash

  abbrev pub TiedFrom : Machine → TransitionRecord → List TransitionRecord → Type 0
  TiedFrom m r [] = Tip m r
  TiedFrom m r (x ∷ xs) = Follows r x × TiedFrom m x xs

  -- Each record follows the one before it, and the last one is the machine's.
  abbrev pub Tied : Machine → List TransitionRecord → Type 0
  Tied m [] = Unit
  Tied m (r ∷ rs) = TiedFrom m r rs

  -- A record's step is in the transition table, or is a reset.
  abbrev pub IsListed : TransitionRecord → Type 0
  IsListed r =
      ((is_reset r.event ≡ true) × (r.to_state ≡ idle))
      ⊎ (transition r.from_state r.event ≡ some r.to_state)

  -- `x` records a transition out of `m`.
  abbrev Leaves : Machine → TransitionRecord → Type 0
  Leaves m x = (r : TransitionRecord) → Tip m r → Follows r x

  TiedFrom-concat :
      (m m' : Machine) (r x : TransitionRecord) (rs : List TransitionRecord)
      → Leaves m x
      → Tip m' x
      → TiedFrom m r rs
      → TiedFrom m' r (rs ++ x ∷ [])
  TiedFrom-concat m m' r x [] f t h = (f r h, t)
  TiedFrom-concat m m' r x (y ∷ ys) f t h = (h.0, TiedFrom-concat m m' y x ys f t h.1)

  Tied-concat :
      (m m' : Machine) (x : TransitionRecord) (rs : List TransitionRecord)
      → Leaves m x
      → Tip m' x
      → Tied m rs
      → Tied m' (rs ++ x ∷ [])
  Tied-concat m m' x [] f t h = t
  Tied-concat m m' x (r ∷ rs) f t h = TiedFrom-concat m m' r x rs f t h

  Tied-drop : (m : Machine) (rs : List TransitionRecord) → Tied m rs → Tied m (drop 1 rs)
  Tied-drop m [] h = tt
  Tied-drop m (r ∷ []) h = tt
  Tied-drop m (r ∷ x ∷ xs) h = h.1

  TiedFrom-shutdown :
      (m : Machine) (r : TransitionRecord) (rs : List TransitionRecord)
      → TiedFrom m r rs
      → TiedFrom (shutdown m) r rs
  unfolding shutdown
  TiedFrom-shutdown m r [] h = record { seq = h.seq; state = h.state; hash = h.hash }
  TiedFrom-shutdown m r (x ∷ xs) h = (h.0, TiedFrom-shutdown m x xs h.1)

  Tied-shutdown : (m : Machine) (rs : List TransitionRecord) → Tied m rs → Tied (shutdown m) rs
  Tied-shutdown m [] h = tt
  Tied-shutdown m (r ∷ rs) h = TiedFrom-shutdown m r rs h

  Tied-push_capped :
      (cap : ℕ) (m m' : Machine) (x : TransitionRecord) (rs : List TransitionRecord)
      → Leaves m x
      → Tip m' x
      → Tied m rs
      → Tied m' (push_capped cap rs x)
  Tied-push_capped cap m m' x rs f t h = elim (Bool-cases (ltb cap (length (rs ++ x ∷ [])))) [
    | inl e ↦ rw e (Tied-drop m' (rs ++ x ∷ []) (Tied-concat m m' x rs f t h))
    | inr e ↦ rw e (Tied-concat m m' x rs f t h)
  ]

  All-push_capped :
      (cap : ℕ) (x : TransitionRecord) (rs : List TransitionRecord)
      → All IsListed rs
      → IsListed x
      → All IsListed (push_capped cap rs x)
  All-push_capped cap x rs h p =
      let q = All-append IsListed rs (x ∷ []) h (p, tt) in
      elim (Bool-cases (ltb cap (length (rs ++ x ∷ [])))) [
        | inl e ↦ rw e (All-drop IsListed 1 (rs ++ x ∷ []) q)
        | inr e ↦ rw e q
      ]

  pub record Inv (o : Options) (m : Machine) : Type 0 where
    pub session : IsSession m
    pub bounded : length m.history ≤ o.max_history_depth
    pub tied : Tied m m.history
    pub listed : All IsListed m.history

  next_record-Leaves :
      (m : Machine) (to : ProtocolState) (e : ProtocolEvent)
      → Leaves m (next_record stringify m to e)
  unfolding next_record
  next_record-Leaves m to e r t = record {
    seq = ap suc (sym t.seq);
    state = sym t.state;
    hash = rw t.hash;
  }

  module _ (o : Options) where
    commit-Inv :
        (m : Machine) (to : ProtocolState) (e : ProtocolEvent)
        → Inv o m
        → IsSession (commit stringify o m to e).machine
        → IsListed (next_record stringify m to e)
        → Inv o (commit stringify o m to e).machine
    unfolding commit
    commit-Inv m to e v s l =
        let r = next_record stringify m to e in
        record {
          session = s;
          bounded = length-push_capped o.max_history_depth m.history r v.bounded;
          tied =
              Tied-push_capped o.max_history_depth m _ r m.history (next_record-Leaves m to e)
                (unfold next_record in record { seq = refl; state = refl; hash = refl }) v.tied;
          listed = All-push_capped o.max_history_depth r m.history v.listed l;
        }

    -- A reset's last assignment, of the scan id, changes nothing any more.
    apply_reset-eq :
        (m : Machine) (e : ProtocolEvent)
        → is_reset e ≡ true
        → apply_reset stringify o m e ≡ commit stringify o m idle e
    unfolding apply_reset commit
    apply_reset-eq m (scan_started i g t) h = cc
    apply_reset-eq m (reset b t) h = refl
    apply_reset-eq m _ h = cc

    reset-IsSession :
        (m : Machine) (e : ProtocolEvent)
        → is_reset e ≡ true
        → IsSession (commit stringify o m idle e).machine
    unfolding commit
    reset-IsSession m (scan_started i g t) h = cc
    reset-IsSession m (reset b t) h = refl
    reset-IsSession m _ h = refl

    Effect-Inv :
        (now : ℕ) (m : Machine) (e : ProtocolEvent) (x : Applied)
        → Inv o m
        → Effect stringify o now m e x
        → Inv o x.machine
    Effect-Inv now m e x v (rejected err p) = rw p (unfold reject in v)
    Effect-Inv now m e x v (crashed l d p) = rw p v
    Effect-Inv now m e x v (committed to w n h k p) = rw p (
        commit-Inv m to e v (unfold commit in Move-HasId (commit-Move m to e v.session h k))
          (unfold next_record in inr k))
    Effect-Inv now m e x v (restarted w n p) =
        rw (p, apply_reset-eq m e n)
          (commit-Inv m idle e v (reset-IsSession m e n) (unfold next_record in inl (n, refl)))

    pub apply-Inv :
        (now : ℕ) (m : Machine) (e : ProtocolEvent)
        → Inv o m
        → Inv o (apply stringify o now m e).machine
    apply-Inv now m e v = Effect-Inv now m e _ v (apply-Effect stringify o now m e)

  init-Inv : (o : Options) → Inv o init
  unfolding init
  init-Inv o = record { session = refl; bounded = omega arith; tied = tt; listed = tt }

  shutdown-Inv : (o : Options) (m : Machine) → Inv o m → Inv o (shutdown m)
  unfolding shutdown
  shutdown-Inv o m v = record {
    session = v.session;
    bounded = v.bounded;
    tied = Tied-shutdown m m.history v.tied;
    listed = v.listed;
  }

  run-Inv : (o : Options) (m : Machine) (cs : List Call) → Inv o m → Inv o (run stringify o m cs)
  unfolding run step
  run-Inv o m [] v = v
  run-Inv o m (applies now e ∷ cs) v =
      run-Inv o (apply stringify o now m e).machine cs (apply-Inv o now m e v)
  run-Inv o m (shuts_down ∷ cs) v = run-Inv o (shutdown m) cs (shutdown-Inv o m v)

  -- After any sequence of calls of a new machine: it has a scan id exactly out of IDLE; the history
  -- is within its cap; each record follows the one before it (its number, its state, and its hash
  -- over the hash before), and the last record is that of the machine's state, hash and count; and
  -- each record's step is a reset or stands in the transition table.
  pub run-init-Inv : (o : Options) (cs : List Call) → Inv o (run stringify o init cs)
  run-init-Inv o cs = run-Inv o init cs (init-Inv o)

  apply-shut :
      (o : Options) (now : ℕ) (m : Machine) (e : ProtocolEvent)
      → m.is_shutdown ≡ true
      → (apply stringify o now m e).machine ≡ m
  unfolding apply reject
  apply-shut o now m e h = simp h

  shutdown_idem : (m : Machine) → shutdown (shutdown m) ≡ shutdown m
  unfolding shutdown
  shutdown_idem m = refl

  -- Once shut down, the machine stays as it is, whatever is called.
  pub run-shutdown :
      (o : Options) (m : Machine) (cs : List Call) → run stringify o (shutdown m) cs ≡ shutdown m
  unfolding run step
  run-shutdown o m [] = refl
  run-shutdown o m (applies now e ∷ cs) =
      rw (apply-shut o now (shutdown m) e (unfold shutdown in refl)) (run-shutdown o m cs)
  run-shutdown o m (shuts_down ∷ cs) = rw (shutdown_idem m) (run-shutdown o m cs)
