-- ===== src/Gate/Verdict.antt =====
-- When the build passes.
use vero_audit_guard.Base.{
  ℕ, ◌≤◌, ◌≡◌, refl, ◌↔◌, inl, inr, true, false, Option, none, some, List, [], ◌∷◌, String, arith,
  length, All, Bool-cases, Option-cases,
}
use vero_audit_guard.Gate.{
  ScannerFinding, ScannerReport, Parsed, not_json, null_value, report, SecurityGateResult,
  severity_rank, is_blocking_severity, blocking, evaluate_security_gate,
  evaluate_security_gate_from_json, is_target, or_empty, evaluate_parsed,
}

some-inj : {A : Type 0} {a b : A} → ◌≡◌ {A = Option A} (some a) (some b) → a ≡ b
some-inj h = cc

module _ (upper : String → String) where
  -- A known severity, within the threshold.
  abbrev pub Tolerated : ℕ → ScannerFinding → Type 0
  Tolerated threshold f = (r : ℕ) × (severity_rank upper f.severity ≡ some r) × (r ≤ threshold)

  blocks_iff :
      (threshold : ℕ) (f : ScannerFinding)
      → (is_blocking_severity upper f.severity (some threshold) ≡ false) ↔ Tolerated threshold f
  unfolding is_blocking_severity
  blocks_iff threshold f = elim (Option-cases (severity_rank upper f.severity)) [
    | inl p ↦ (λ h. cc, λ (r, q, l). cc)
    | inr (r, p) ↦ (λ h. (r, p, ground arith), λ (s, q, l). ground arith)
  ]

  length-blocking_iff :
      (threshold : ℕ) (fs : List ScannerFinding)
      → (length (blocking upper (some threshold) fs) ≡ 0) ↔ All (Tolerated threshold) fs
  unfolding blocking
  length-blocking_iff threshold [] = (λ h. tt, λ h. refl)
  length-blocking_iff threshold (f ∷ fs) =
      let (to, from) = blocks_iff threshold f in
      let (tos, froms) = length-blocking_iff threshold fs in
      elim (Bool-cases (is_blocking_severity upper f.severity (some threshold))) [
        | inl b ↦ rw (b, blocking) (λ h. absurd (omega (arith, h)), λ h. let q = from h.0 in cc)
        | inr b ↦ rw (b, blocking) (λ h. (to b, tos h), λ h. froms h.1)
      ]

  -- The parsed report names its target, has a findings array, and every finding of either kind is
  -- tolerated.
  abbrev pub Clean : ℕ → Parsed → Type 0
  Clean threshold (report r) =
      (is_target r.target ≡ true)
      × ((fs : List ScannerFinding) × (r.findings ≡ some fs) × All (Tolerated threshold) fs)
      × All (Tolerated threshold) (or_empty r.governance_findings)
  Clean threshold _ = ⊥

  abbrev pub Passes : Option SecurityGateResult → Type 0
  Passes none = ⊥
  Passes (some y) = y.passed ≡ true

  gate_iff :
      (threshold : ℕ) (r : ScannerReport)
      → ((evaluate_security_gate upper r (some threshold)).passed ≡ true) ↔ (
          All (Tolerated threshold) (or_empty r.findings)
          × All (Tolerated threshold) (or_empty r.governance_findings))
  unfolding evaluate_security_gate
  gate_iff threshold r =
      let (to, from) = length-blocking_iff threshold (or_empty r.findings) in
      let (tos, froms) = length-blocking_iff threshold (or_empty r.governance_findings) in
      (
        λ h. (to (ground arith), tos (ground arith)),
        λ (a, b). let x = from a in let y = froms b in ground arith,
      )

  evaluate_parsed_iff :
      (threshold : ℕ) (p : Parsed)
      → Passes (evaluate_parsed upper p (some threshold)) ↔ Clean threshold p
  unfolding evaluate_parsed
  evaluate_parsed_iff threshold not_json = (λ h. cc, λ h. absurd h)
  evaluate_parsed_iff threshold null_value = (λ h. h, λ h. h)
  evaluate_parsed_iff threshold (report r) = elim (Option-cases r.findings) [
    | inl p ↦ rw (p, evaluate_parsed) (λ h. cc, λ (t, (fs, q, a), b). cc)
    | inr (fs, p) ↦
        let (to, from) = gate_iff threshold r in
        elim (Bool-cases (is_target r.target)) [
          | inl t ↦
              simp (p, t)
                (
                  λ h. let (a, b) = to h in (refl, (fs, refl, simp p at a), b),
                  λ (u, (gs, q, a), b). from (rw p (rw (some-inj q) a), b),
                )
          | inr t ↦ simp (p, t) (λ h. cc, λ (u, k, b). cc)
        ]
  ]

  -- The build passes, at a finite threshold, exactly if the report parses to one that names its
  -- target, has a findings array, and holds only findings of a known severity within the threshold,
  -- the governance findings included.
  pub evaluate_security_gate_from_json_iff :
      (parse : String → Parsed) (json : String) (threshold : ℕ)
      → Passes (evaluate_security_gate_from_json parse upper json (some threshold))
        ↔ Clean threshold (parse json)
  unfolding evaluate_security_gate_from_json
  evaluate_security_gate_from_json_iff parse json threshold =
      evaluate_parsed_iff threshold (parse json)
