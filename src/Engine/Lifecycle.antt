-- ===== src/Engine/Lifecycle.antt =====
-- The state machine over an evaluation.
use vero_audit_guard.Base.{
  ℕ, suc, ◌+◌, ◌≤◌, ◌≡◌, refl, ◌∙◌, ◌⊎◌, inl, inr, sym, ap, [], ◌∷◌, false, Option, none, some,
  List, String, arith, length,
}
use mathlib.Core.Path.{subst}
use vero_audit_guard.Protocol as Machines
use vero_audit_guard.Protocol.{
  idle, scanning, reporting, done, scan_started, scan_completed, report_delivered, reset,
}
use vero_audit_guard.Protocol.Alert.{try_apply}
use vero_audit_guard.Protocol.Effect.{IsOpen, apply-returned}
use vero_audit_guard.Protocol.Session.{
  Move, start, complete, deliver, restart, apply_accepts, apply-Moves, IsSession, Move-start,
}
use vero_audit_guard.Engine.Rules.{EvaluationResult}
use vero_audit_guard.Engine.{
  Reading, Step, begins, finishes, begin_evaluation, finish_evaluation, step, run, evaluate,
  applied,
}

module _ (stringify : Machines.ProtocolEvent → List ℕ) (o : Machines.Options) where
  -- The time of an event is within the machine's window of its clock, if there is one.
  abbrev pub Timely : Reading → Type 0
  Timely r = (o.max_clock_skew_ms ≡ 0) ⊎ (Machines.skew r.stamp r.now ≤ o.max_clock_skew_ms)

  -- A running machine after some transitions.
  abbrev pub Stands : Machines.Machine → Machines.ProtocolState → Option String → ℕ → Type 0
  Stands m s a n =
      (m.is_shutdown ≡ false) × (m.state ≡ s) × (m.active_scan_id ≡ a) × (m.transition_count ≡ n)

  applied-Stands :
      (m : Machines.Machine) (r : Reading) (e : Machines.ProtocolEvent)
      (to : Machines.ProtocolState) (b : Option String) (n : ℕ)
      → m.is_shutdown ≡ false
      → m.transition_count ≡ n
      → Machines.timestamp_of e ≡ r.stamp
      → Timely r
      → Move m.state m.active_scan_id e to b
      → Stands (applied stringify o m r e) to b (suc n)
  unfolding try_apply
  applied-Stands m r e to b n running count stamp timely move =
      let open_now : IsOpen o r.now m e = record { running = running; timely = rw stamp timely } in
      let ((rec, q), s, a) = apply_accepts stringify o r.now m e to b open_now move in
      let (k, c) = apply-returned stringify o r.now m e rec q in
      (k ∙ running, s, a, omega (arith, c, count))

  -- No step of another evaluation is a finish.
  abbrev pub NoneFinishes : List Step → Type 0
  NoneFinishes [] = Unit
  NoneFinishes (begins i g r ∷ ss) = NoneFinishes ss
  NoneFinishes (finishes i n r s t ∷ ss) = ⊥

  -- A running scan is not disturbed by an event that would start another.
  begin_evaluation-busy :
      (m : Machines.Machine) (scan_id i g : String) (r : Reading)
      → m.state ≡ scanning
      → m.active_scan_id ≡ some scan_id
      → begin_evaluation stringify o m i g r ≡ m
  unfolding begin_evaluation try_apply
  begin_evaluation-busy m scan_id i g r state id =
      let e = scan_started i g r.stamp in
      let session : IsSession m = rw state (scan_id, id) in
      elim (apply-Moves stringify o r.now m e session) [
        | inl (move, w, o1) ↦
            absurd (let at_idle = Move-start move refl in let q = sym state ∙ at_idle in cc)
        | inr (same, err) ↦ same
      ]

  run-busy :
      (m : Machines.Machine) (scan_id : String) (ss : List Step)
      → m.state ≡ scanning
      → m.active_scan_id ≡ some scan_id
      → NoneFinishes ss
      → run stringify o m ss ≡ m
  unfolding run step
  run-busy m scan_id [] state id h = refl
  run-busy m scan_id (begins i g r ∷ ss) state id h =
      ap (λ x. run stringify o x ss) (begin_evaluation-busy m scan_id i g r state id)
      ∙ run-busy m scan_id ss state id h
  run-busy m scan_id (finishes i n r s t ∷ ss) state id h = absurd h

  begin_evaluation-Stands :
      (scan_id target : String) (started : Reading) (m : Machines.Machine)
      → m.is_shutdown ≡ false
      → m.state ≡ idle
      → Timely started
      → Stands
          (begin_evaluation stringify o m scan_id target started)
          scanning
          (some scan_id)
          (suc m.transition_count)
  unfolding begin_evaluation
  begin_evaluation-Stands scan_id target started m running state t =
      applied-Stands m started (scan_started scan_id target started.stamp) scanning (some scan_id)
        m.transition_count running refl refl t (start scan_id target started.stamp state)

  finish_evaluation-Stands :
      (scan_id : String) (n k : ℕ) (completed delivered restarted : Reading) (m : Machines.Machine)
      → Stands m scanning (some scan_id) k
      → Timely completed × Timely delivered × Timely restarted
      → Stands
          (finish_evaluation stringify o m scan_id n completed delivered restarted)
          idle
          none
          (k + 3)
  unfolding finish_evaluation
  finish_evaluation-Stands scan_id n k completed delivered restarted m (r1, s1, a1, c1)
        (t2, t3, t4) =
      let e2 = scan_completed scan_id n completed.stamp in
      let e3 = report_delivered scan_id "" delivered.stamp in
      let e4 = reset "PolicyEngine" restarted.stamp in
      let m2 = applied stringify o m completed e2 in
      let (r2, s2, a2, c2) =
        applied-Stands m completed e2 reporting (some scan_id) k r1 c1 refl t2
          (complete scan_id n completed.stamp s1 a1) in
      let m3 = applied stringify o m2 delivered e3 in
      let (r3, s3, a3, c3) =
        applied-Stands m2 delivered e3 done (some scan_id) (suc k) r2 c2 refl t3
          (deliver scan_id "" delivered.stamp s2 a2) in
      let (r4, s4, a4, c4) =
        applied-Stands m3 restarted e4 idle none (suc (suc k)) r3 c3 refl t4
          (restart "PolicyEngine" restarted.stamp) in
      (r4, s4, a4, omega (arith, c4))

  -- An evaluation that begins on an idle, running machine, whose clock readings are timely, and during
  -- whose awaits other evaluations may begin but none finishes: it takes all of its four transitions,
  -- whatever the result, no event of the others is taken, and the machine is left idle.
  pub evaluate-idle :
      (scan_id target : String) (started completed delivered restarted : Reading)
      (meanwhile : List Step) (m : Machines.Machine) (result : EvaluationResult)
      → m.is_shutdown ≡ false
      → m.state ≡ idle
      → Timely started × Timely completed × Timely delivered × Timely restarted
      → NoneFinishes meanwhile
      → Stands
          (evaluate stringify o scan_id target started completed delivered restarted meanwhile m
            result).0
          idle
          none
          (m.transition_count + 4)
  unfolding evaluate
  evaluate-idle scan_id target started completed delivered restarted meanwhile m result running
        state (t1, t2, t3, t4) none_finishes =
      let begun = begin_evaluation stringify o m scan_id target started in
      let n = length result.violations in
      let (r, s, a, c) = begin_evaluation-Stands scan_id target started m running state t1 in
      let resumed = run-busy begun scan_id meanwhile s a none_finishes in
      let (r', s', a', c') =
        finish_evaluation-Stands scan_id n (suc m.transition_count) completed delivered restarted
          begun (r, s, a, c) (t2, t3, t4) in
      subst
        (λ x.
          Stands (finish_evaluation stringify o x scan_id n completed delivered restarted) idle none
            (m.transition_count + 4))
        (sym resumed) (r', s', a', omega (arith, c'))
