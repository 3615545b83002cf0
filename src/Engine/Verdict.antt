-- ===== src/Engine/Verdict.antt =====
-- What a compliant verdict rests on.
use vero_audit_guard.Base.{
  ℕ, ◌≤◌, ◌≡◌, ◌⊎◌, refl, Bool, true, false, not, ◌&&◌, ◌||◌, Option, none, some, List, [], ◌∷◌,
  ◌++◌, String, arith, ltb, length, includes, Bool-cases, inl, inr, sym, ◌∙◌, ap,
}
use vero_audit_guard.Bundle as Bundles
use vero_audit_guard.Bundle.Manifest.{compute_bundle_manifest}
use vero_audit_guard.Bundle.Verdict.{Genuine, verify_iff}
use vero_audit_guard.Engine.Rules.{
  PolicyViolation, Status, compliant, non_compliant, warning, EvaluationResult, PrData,
  SignedFields, critical, verify_relayer_signature, is_expired, get_signature_payload,
  rule_violations, all_warnings, status_of, result_of, text_of, time_of, distance, is_true, when,
  text_given, time_given, relayer_faults,
}
use vero_audit_guard.Engine.{
  OpaOutput, or_compliant, parse_opa_result, blocked, apply_policy_bundle_verification, degraded,
  evaluate_without_opa, evaluation, fallback_result, or_pipeline_error,
}

status_of-compliant :
    (vs ws : List PolicyViolation) → status_of vs ws ≡ compliant → (vs ≡ []) × (ws ≡ [])
unfolding status_of
status_of-compliant [] [] h = (refl, refl)
status_of-compliant [] (w ∷ ws) h =
    let p : ltb 0 (length (w ∷ ws)) ≡ true = ground arith in absurd (let g = simp p at h in cc)
status_of-compliant (v ∷ vs) ws h =
    let p : ltb 0 (length (v ∷ vs)) ≡ true = ground arith in absurd (let g = simp p at h in cc)

degraded-compliant : (s : Status) → degraded s ≡ compliant → ⊥
degraded-compliant compliant h = cc
degraded-compliant warning h = cc
degraded-compliant non_compliant h = cc

-- The check of the bundle never makes a result compliant.
apply-compliant :
    (configured : Bool) (v : Bundles.PolicyBundleVerificationResult) (r : EvaluationResult)
    → (apply_policy_bundle_verification configured v r).status ≡ compliant
    → (r.status ≡ compliant) × (configured ≡ true → v.verified ≡ true)
unfolding apply_policy_bundle_verification
apply-compliant false v r h = (h, λ c. absurd cc)
apply-compliant true v r h = elim (Bool-cases v.verified) [
  | inl b ↦ (simp b at h, λ c. b)
  | inr b ↦ absurd (degraded-compliant r.status (simp b at h))
]

nothing : (b : Bool) (rule : String) → when b rule critical ≡ [] → b ≡ false
nothing true rule h = absurd cc
nothing false rule h = refl

append-nil_left : (xs ys : List PolicyViolation) → xs ++ ys ≡ [] → (xs ≡ []) × (ys ≡ [])
append-nil_left [] ys h = (refl, h)
append-nil_left (x ∷ xs) ys h = absurd cc

is_true-some : (o : Option Bool) → is_true o ≡ true → o ≡ some true
is_true-some (some true) h = refl
is_true-some (some false) h = absurd cc
is_true-some none h = absurd cc

module _ (authorized : List String) (verifies : String → SignedFields → String → Option Bool)
    (now : ℕ) where
  -- An authorised relayer signed the request's fields at most five minutes away from now.
  abbrev pub Relayed : PrData → Type 0
  Relayed p =
      (includes authorized (text_of p.relayer) ≡ true)
      × (distance now (time_of p.timestamp) ≤ 300000)
      × (verifies (text_of p.relayer) (get_signature_payload p) (text_of p.signature) ≡ some true)

  relayer_faults-Relayed : (p : PrData) → relayer_faults authorized verifies now p ≡ [] → Relayed p
  unfolding relayer_faults is_expired
  relayer_faults-Relayed p h =
      let key = text_of p.relayer in
      let valid = is_true (verifies key (get_signature_payload p) (text_of p.signature)) in
      let expired = ltb 300000 (distance now (time_of p.timestamp)) in
      let (r, c) =
        append-nil_left
          (when (not (includes authorized key)) "RELAYER_UNAUTHORIZED" critical
            ++ when expired "RELAYER_SIGNATURE_EXPIRED" critical)
          (when (not valid) "RELAYER_SIGNATURE_INVALID" critical) h in
      let (a, b) =
        append-nil_left (when (not (includes authorized key)) "RELAYER_UNAUTHORIZED" critical)
          (when expired "RELAYER_SIGNATURE_EXPIRED" critical) r in
      let x = nothing (not (includes authorized key)) "RELAYER_UNAUTHORIZED" a in
      let y = nothing expired "RELAYER_SIGNATURE_EXPIRED" b in
      let z = nothing (not valid) "RELAYER_SIGNATURE_INVALID" c in
      (
        ground (arith, x),
        ground (arith, y),
        is_true-some (verifies key (get_signature_payload p) (text_of p.signature))
            (ground (arith, z)),
      )

  verify_relayer_signature-Relayed :
      (p : PrData) → verify_relayer_signature authorized verifies now p ≡ some [] → Relayed p
  unfolding verify_relayer_signature
  verify_relayer_signature-Relayed p h =
      elim (Bool-cases (
        not (text_given p.relayer)
        || not (text_given p.signature)
        || not (time_given p.timestamp))) [
          | inl a ↦ absurd (let g = simp a at h in cc)
          | inr a ↦
              elim (Bool-cases (
                is_expired authorized verifies now p
                && ltb 8640000000000000 (time_of p.timestamp))) [
                  | inl b ↦ absurd (let g = simp (a, b) at h in cc)
                  | inr b ↦ relayer_faults-Relayed p (let g = simp (a, b) at h in cc)
                ]
        ]

or_compliant_lem :
    (s : Option Status) → or_compliant s ≡ compliant → (s ≡ some compliant) ⊎ (s ≡ none)
or_compliant_lem none h = inr refl
or_compliant_lem (some s) h = inl (ap some h)

-- A verdict by the fallback: a relayed request without violations or warnings. One by OPA: OPA
-- answered, with that status or without any; its denials are not looked at.
abbrev pub Decided :
    (lower : String → String) (authorized : List String)
    (verifies : String → SignedFields → String → Option Bool) (opa_available : Bool)
    (opa : Option OpaOutput) (overflow : List PolicyViolation) (p : PrData) (now : ℕ)
    → Type 0
Decided lower authorized verifies true opa overflow p now =
    (o : OpaOutput) × (opa ≡ some o) × ((o.status ≡ some compliant) ⊎ (o.status ≡ none))
Decided lower authorized verifies false opa overflow p now =
    Relayed authorized verifies now p
    × (rule_violations lower overflow p ≡ [])
    × (all_warnings lower p ≡ [])

module _ (lower : String → String) (authorized : List String)
    (verifies : String → SignedFields → String → Option Bool)
    (overflow : List PolicyViolation) where
  fallback-Decided :
      (p : PrData) (now : ℕ) (opa : Option OpaOutput) (configured : Bool)
      (v : Bundles.PolicyBundleVerificationResult) (relayer : Option (List PolicyViolation))
      → relayer ≡ verify_relayer_signature authorized verifies now p
      → (or_pipeline_error lower authorized verifies false opa overflow configured v (
          fallback_result lower authorized verifies false opa overflow configured v p
            relayer)).status
        ≡ compliant
      → Decided lower authorized verifies false opa overflow p now
        × (configured ≡ true → v.verified ≡ true)
  fallback-Decided p now opa configured v none e h = absurd cc
  fallback-Decided p now opa configured v (some relayer) e h =
      let (s, b) =
        apply-compliant configured v
          (result_of (relayer ++ rule_violations lower overflow p) (all_warnings lower p)) h in
      let (vs, ws) =
        status_of-compliant (relayer ++ rule_violations lower overflow p) (all_warnings lower p)
          s in
      let (k, l) = append-nil_left relayer (rule_violations lower overflow p) vs in
      ((verify_relayer_signature-Relayed authorized verifies now p (sym e ∙ ap some k), l, ws), b)

  evaluation-Decided :
      (opa_available : Bool) (opa : Option OpaOutput) (configured : Bool)
      (v : Bundles.PolicyBundleVerificationResult) (p : PrData) (now : ℕ)
      → (evaluation lower authorized verifies opa_available opa overflow configured v p now).status
        ≡ compliant
      → Decided lower authorized verifies opa_available opa overflow p now
        × (configured ≡ true → v.verified ≡ true)
  unfolding evaluation evaluate_without_opa parse_opa_result
  evaluation-Decided false opa configured v p now h =
      fallback-Decided p now opa configured v (verify_relayer_signature authorized verifies now p)
        refl h
  evaluation-Decided true none configured v p now h =
      absurd (let (s, b) = apply-compliant configured v (blocked "OPA_EVALUATION_FAILED") h in cc)
  evaluation-Decided true (some o) configured v p now h =
      let (s, b) = apply-compliant configured v (parse_opa_result o) h in
      ((o, refl, or_compliant_lem o.status s), b)

  -- Where the empty text is no public key: a request is found compliant only if OPA is available and
  -- answered with that status or with no status, whatever it denies, or if OPA is not available and the
  -- fallback found neither violation nor warning and an authorised relayer's recent signature over the
  -- signed fields; and, where signing of the bundle is configured, only under a genuine policy bundle.
  pub evaluation-compliant :
      (name_lower : String → String) (extensions : List String)
      (sha256_bytes sha256_text : List ℕ → String) (parse : String → Bundles.Json)
      (checks : String → List ℕ → List ℕ → Option Bool) (v : Bundles.PolicyBundleVerifier)
      (disk : Bundles.Disk) (opa_available : Bool) (opa : Option OpaOutput) (p : PrData) (now : ℕ)
      → ((payload bytes : List ℕ) → checks "" payload bytes ≡ none)
      → (evaluation lower authorized verifies opa_available opa overflow
          (Bundles.is_configured v)
          (Bundles.verify name_lower extensions sha256_bytes sha256_text parse checks v disk).0
          p
          now).status
        ≡ compliant
      → Decided lower authorized verifies opa_available opa overflow p now
        × (Bundles.is_configured v ≡ true
            → Genuine name_lower extensions sha256_bytes sha256_text parse checks v
                (compute_bundle_manifest sha256_bytes sha256_text name_lower extensions
                  disk.policies_dir)
                (Bundles.load_manifest parse disk.manifest))
  evaluation-compliant name_lower extensions sha256_bytes sha256_text parse checks v disk
        opa_available opa p now no_key h =
      let r = Bundles.verify name_lower extensions sha256_bytes sha256_text parse checks v disk in
      let (d, b) = evaluation-Decided opa_available opa (Bundles.is_configured v) (r.0) p now h in
      (
        d,
        λ c.
            (verify_iff name_lower extensions sha256_bytes sha256_text parse checks v disk no_key).0
              (b c),
      )
