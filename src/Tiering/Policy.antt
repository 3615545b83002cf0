-- ===== src/Tiering/Policy.antt =====
-- What the tier of an event depends on, and what an evaluation leaves.
use native.Mathlib.Nat.{le_trans}
use vero_audit_guard.Base.Dict.{insert}
use vero_audit_guard.Base.{
  ℕ, suc, ◌≤◌, ◌<◌, ◌≡◌, refl, sym, ap, ◌∙◌, ◌⊎◌, inl, inr, true, Option, none, some, List, [], ◌∷◌,
  ◌++◌, arith, leb, length, Option-cases,
}
use vero_audit_guard.Tiering.{
  SeverityTier, low, medium, high, critical, ConfirmedEvent, DrivenAlertAction, TieringError,
  Options, Engine, weight, elevate_tier, burst_tier, repeat_tier, value_tier, validate,
  keyword_tier, base_tier, valid_history, classify_event, action_of, record_action, surface_failure,
  evaluate_and_escalate, mentions, critical_keywords, or_low, time_or, alert_driven,
  failure_surfaced,
}

elevate_tier-le : (t u : SeverityTier) → weight t ≤ weight (elevate_tier t u)
unfolding elevate_tier
elevate_tier-le t u = ground arith

elevate_tier-reach : (t u : SeverityTier) → weight u ≤ weight (elevate_tier t u)
unfolding elevate_tier
elevate_tier-reach t u = ground arith

value_tier-le :
    (o : Options) (v : Option ℕ) (t : SeverityTier) → weight t ≤ weight (value_tier o v t)
unfolding value_tier
value_tier-le o none t = omega arith
value_tier-le o (some v) t = ground (arith, elevate_tier-le t high)

burst_tier-le : (o : Options) (n : ℕ) (t : SeverityTier) → weight t ≤ weight (burst_tier o n t)
unfolding burst_tier
burst_tier-le o n low = ground arith
burst_tier-le o n medium = ground arith
burst_tier-le o n high = ground arith
burst_tier-le o n critical = omega arith

-- The thresholds on the way up do not rise: what is enough for a lower tier's step is enough for a
-- higher one's, as it is with the defaults.
abbrev pub IsFalling : Options → Type 0
IsFalling o = (o.high_to_critical ≤ o.medium_to_high) × (o.medium_to_high ≤ o.low_to_medium)

repeat_tier-le :
    (o : Options) (n : Option ℕ) (t : SeverityTier)
    → IsFalling o
    → weight t ≤ weight (repeat_tier o n t)
unfolding repeat_tier
repeat_tier-le o none t h = omega arith
repeat_tier-le o (some n) low h = ground arith
repeat_tier-le o (some n) medium h = ground arith
repeat_tier-le o (some n) high h = ground arith
repeat_tier-le o (some n) critical h = ground arith

weight-critical : (t : SeverityTier) → 4 ≤ weight t → t ≡ critical
weight-critical low h = absurd (omega arith)
weight-critical medium h = absurd (omega arith)
weight-critical high h = absurd (omega arith)
weight-critical critical h = refl

inr-inj : {A B : Type 0} {a b : B} → ◌≡◌ {A = A ⊎ B} (inr a) (inr b) → a ≡ b
inr-inj h = cc

inl-ne-inr : {A B : Type 0} {a : A} {b : B} → ◌≡◌ {A = A ⊎ B} (inl a) (inr b) → ⊥
inl-ne-inr h = cc

module _ (lower : List ℕ → List ℕ) (o : Options) where
  keyword_tier-le :
      (e : ConfirmedEvent) (t : SeverityTier) → weight t ≤ weight (keyword_tier lower o e t)
  unfolding keyword_tier
  keyword_tier-le e t =
      ground (arith, elevate_tier-le t critical, elevate_tier-le t high, elevate_tier-le t medium)

  keyword_tier-critical :
      (e : ConfirmedEvent) (t : SeverityTier)
      → mentions lower o critical_keywords e ≡ true
      → 4 ≤ weight (keyword_tier lower o e t)
  unfolding keyword_tier
  keyword_tier-critical e t h = ground (arith, elevate_tier-reach t critical)

  value_tier-reach :
      (x : Option ℕ) (v : ℕ) (t : SeverityTier)
      → x ≡ some v
      → o.high_value ≤ v
      → 3 ≤ weight (value_tier o x t)
  unfolding value_tier
  value_tier-reach none v t p h = cc
  value_tier-reach (some w) v t p h = ground (arith, elevate_tier-reach t high)

  -- What a classification gives: an error of the checks and nothing changed, or the tier, with the
  -- event in the history of its type.
  abbrev Classified : Engine → ConfirmedEvent → Engine × (TieringError ⊎ SeverityTier) → Type 0
  Classified g e x =
      ((f : TieringError) × (validate o e ≡ some f) × (x ≡ (g, inl f)))
      ⊎ ((validate o e ≡ none)
          × (x ≡ (
            record g {
              event_history = insert e.event_type (valid_history lower o g e) g.event_history;
            },
            inr (burst_tier o (length (valid_history lower o g e)) (base_tier lower o e)),
          )))

  classify_event-Classified :
      (g : Engine) (e : ConfirmedEvent) → Classified g e (classify_event lower o g e)
  unfolding classify_event
  classify_event-Classified g e = elim (Option-cases (validate o e)) [
    | inl p ↦ inr (p, rw (p, classify_event) refl)
    | inr (f, p) ↦ inl (f, p, rw (p, classify_event) refl)
  ]

  base_tier-le :
      (e : ConfirmedEvent)
      → IsFalling o
      → weight (or_low e.raw_severity) ≤ weight (base_tier lower o e)
  unfolding base_tier
  base_tier-le e h =
      let t = or_low e.raw_severity in
      let k = keyword_tier lower o e t in
      omega (
        arith,
        keyword_tier-le e t,
        value_tier-le o e.amount k,
        repeat_tier-le o e.repeat_count (value_tier o e.amount k) h,
      )

  base_tier-critical :
      (e : ConfirmedEvent)
      → IsFalling o
      → mentions lower o critical_keywords e ≡ true
      → 4 ≤ weight (base_tier lower o e)
  unfolding base_tier
  base_tier-critical e h m =
      let t = or_low e.raw_severity in
      let k = keyword_tier lower o e t in
      omega (
        arith,
        keyword_tier-critical e t m,
        value_tier-le o e.amount k,
        repeat_tier-le o e.repeat_count (value_tier o e.amount k) h,
      )

  base_tier-high_value :
      (e : ConfirmedEvent) (v : ℕ)
      → IsFalling o
      → e.amount ≡ some v
      → o.high_value ≤ v
      → 3 ≤ weight (base_tier lower o e)
  unfolding base_tier
  base_tier-high_value e v h p q =
      let k = keyword_tier lower o e (or_low e.raw_severity) in
      omega (
        arith,
        value_tier-reach e.amount v k p q,
        repeat_tier-le o e.repeat_count (value_tier o e.amount k) h,
      )

  classified_tier :
      (g : Engine) (e : ConfirmedEvent) (t : SeverityTier)
      → (classify_event lower o g e).1 ≡ inr t
      → burst_tier o (length (valid_history lower o g e)) (base_tier lower o e) ≡ t
  classified_tier g e t h = elim (classify_event-Classified g e) [
    | inl (f, p, q) ↦ absurd (inl-ne-inr (sym (ap (λ x. x.1) q) ∙ h))
    | inr (p, q) ↦ inr-inj (sym (ap (λ x. x.1) q) ∙ h)
  ]

  -- With thresholds that do not rise, a classified event is at least as severe as its reporter said;
  -- one that mentions a critical signal is CRITICAL; and one of a high value is at least HIGH.
  pub classify_event-le :
      (g : Engine) (e : ConfirmedEvent) (t : SeverityTier)
      → IsFalling o
      → (classify_event lower o g e).1 ≡ inr t
      → (weight (or_low e.raw_severity) ≤ weight t)
        × (mentions lower o critical_keywords e ≡ true → t ≡ critical)
        × ((v : ℕ) → e.amount ≡ some v → o.high_value ≤ v → 3 ≤ weight t)
  classify_event-le g e t h c =
      let n = length (valid_history lower o g e) in
      let b : weight (base_tier lower o e) ≤ weight t =
        rw (← classified_tier g e t c) (burst_tier-le o n (base_tier lower o e)) in
      (
        le_trans (base_tier-le e h) b,
        λ m. weight-critical t (le_trans (base_tier-critical e h m) b),
        λ v p q. le_trans (base_tier-high_value e v h p q) b,
      )

  repeat_tier-lowers :
      (n : ℕ) (t : SeverityTier)
      → t ≡ critical
      → o.low_to_medium ≤ n
      → n < o.medium_to_high
      → n < o.high_to_critical
      → repeat_tier o (some n) t ≡ medium
  unfolding repeat_tier
  repeat_tier-lowers n t c l m h = rw c (ground arith)

  base_tier-lowers :
      (e : ConfirmedEvent) (n : ℕ)
      → e.raw_severity ≡ some critical
      → e.repeat_count ≡ some n
      → o.low_to_medium ≤ n
      → n < o.medium_to_high
      → n < o.high_to_critical
      → base_tier lower o e ≡ medium
  unfolding base_tier
  base_tier-lowers e n c r l m h =
      let t = or_low e.raw_severity in
      let k = keyword_tier lower o e t in
      let top : 4 ≤ weight t = rw c (omega arith) in
      let at = value_tier-le o e.amount k in
      ap (λ x. repeat_tier o x (value_tier o e.amount k)) r
      ∙ repeat_tier-lowers n (value_tier o e.amount k)
          (weight-critical (value_tier o e.amount k)
            (le_trans top (le_trans (keyword_tier-le e t) at)))
          l m h

  burst_tier-medium : (n : ℕ) → n < o.medium_to_high → burst_tier o n medium ≡ medium
  unfolding burst_tier
  burst_tier-medium n h = ground arith

  -- Where the thresholds rise, an event that passes the checks, reported as CRITICAL, and whose
  -- repeat count has reached only the lowest threshold, comes out as MEDIUM, if its type has had
  -- fewer events in the window than the step from MEDIUM takes.
  pub classify_event-lowers :
      (g : Engine) (e : ConfirmedEvent) (n : ℕ)
      → validate o e ≡ none
      → e.raw_severity ≡ some critical
      → e.repeat_count ≡ some n
      → o.low_to_medium ≤ n
      → n < o.medium_to_high
      → n < o.high_to_critical
      → length (valid_history lower o g e) < o.medium_to_high
      → (classify_event lower o g e).1 ≡ inr medium
  unfolding classify_event
  classify_event-lowers g e n v c r l m h b =
      rw (v, classify_event)
        (ap inr (
          ap (burst_tier o (length (valid_history lower o g e))) (base_tier-lowers e n c r l m h)
          ∙ burst_tier-medium (length (valid_history lower o g e)) b))

  -- Every evaluation leaves one record in the telemetry: a failure, with the error that it also
  -- throws and an unchanged history; or the alert, with the tier of the action that it returns, which
  -- asks for an acknowledgement exactly from HIGH on.
  pub evaluate_and_escalate-records :
      (g : Engine) (e : ConfirmedEvent) (now : ℕ)
      → let x = evaluate_and_escalate lower o g e now in
        let next = suc (length g.telemetry_stream) in
        ((f : TieringError) × (x.1 ≡ inl f)
          × (validate o e ≡ some f)
          × (x.0.event_history ≡ g.event_history)
          × (x.0.telemetry_stream
              ≡ g.telemetry_stream ++ failure_surfaced next (time_or lower o e now) e.id f ∷ []))
        ⊎ ((a : DrivenAlertAction) × (x.1 ≡ inr a)
            × (validate o e ≡ none)
            × (x.0.telemetry_stream
                ≡ g.telemetry_stream ++ alert_driven next a.timestamp e.id a.calculated_tier ∷ [])
            × (a.requires_ack ≡ leb 3 (weight a.calculated_tier)))
  unfolding evaluate_and_escalate record_action surface_failure action_of
  evaluate_and_escalate-records g e now = elim (classify_event-Classified g e) [
    | inl (f, p, q) ↦ rw q (inl (f, refl, p, refl, refl))
    | inr (p, q) ↦
        let t = burst_tier o (length (valid_history lower o g e)) (base_tier lower o e) in
        rw q (inr (action_of lower o e t (time_or lower o e now), refl, p, refl, refl))
  ]
