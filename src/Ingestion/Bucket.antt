-- ===== src/Ingestion/Bucket.antt =====
-- The token bucket: how many events can be admitted in a time.
use native.Mathlib.Nat.{le_trans, add-mul, mul-le-mul_right}
use vero_audit_guard.Base.{
  ℕ, ◌+◌, ◌-◌, ◌*◌, ◌≤◌, ◌≡◌, refl, sym, ap, ◌∙◌, inl, inr, some, List, [], ◌∷◌, String, arith, leb,
  Bool-cases, Bool, ◌⊎◌, Option, none,
}
use vero_audit_guard.Ingestion.{
  Options, Raw, Guard, Validated, valid, invalid, min, validate_event, refilled, refill,
  try_consume, full_bucket, new_guard, enqueue, push_event, make_room, admit, ingest, drain, Call,
  ingests, drains, step, run, ValidationError, TelemetryEvent,
}

pub Validated-cases :
    {P : Type 0} (v : Validated P)
    → ((x : ValidationError) × (v ≡ invalid x)) ⊎ ((e : TelemetryEvent P) × (v ≡ valid e))
Validated-cases (invalid x) = inl (x, refl)
Validated-cases (valid e) = inr (e, refl)

-- The readings of the clock do not run back, and end at `clock`.
abbrev pub Rises : {P : Type 0} → ℕ → List (Call P) → Type 0
Rises t [] = Unit
Rises t (ingests raw now later ∷ xs) = (t ≤ now) × Rises now xs
Rises t (drains n ∷ xs) = Rises t xs

abbrev pub clock : {P : Type 0} → ℕ → List (Call P) → ℕ
clock t [] = t
clock t (ingests raw now later ∷ xs) = clock now xs
clock t (drains n ∷ xs) = clock t xs

none-ne-some : {A : Type 0} {a : A} → ◌≡◌ {A = Option A} none (some a) → ⊥
none-ne-some h = cc

some-inj : {A : Type 0} {a b : A} → ◌≡◌ {A = Option A} (some a) (some b) → a ≡ b
some-inj h = cc

-- What the bucket gains from one reading of the clock to the next.
elapsed_mul : (now last r : ℕ) → last ≤ now → (now - last) * r + last * r ≡ now * r
elapsed_mul now last r h = sym (add-mul (now - last) last r) ∙ ap (λ x. x * r) (omega arith)

module _ {P : Type 0} (parses : String → Bool) (o : Options) where
  -- The tokens in the bucket and those spent come out of the first filling and of what the time
  -- since `t₀` brings; `t` is the last reading of the clock.
  record Paid (t₀ t : ℕ) (g : Guard P) : Type 0 where
    full : g.bucket.milli_tokens ≤ o.bucket_capacity * 1000
    begun : t₀ ≤ g.bucket.last_refill_time
    read : g.bucket.last_refill_time ≤ t
    paid :
        1000 * g.total_accepted + g.bucket.milli_tokens + t₀ * o.refill_rate
        ≤ o.bucket_capacity * 1000 + g.bucket.last_refill_time * o.refill_rate

  Paid-later : (t₀ t t' : ℕ) (g : Guard P) → t ≤ t' → Paid t₀ t g → Paid t₀ t' g
  Paid-later t₀ t t' g h v = record {
    full = v.full;
    begun = v.begun;
    read = le_trans v.read h;
    paid = v.paid;
  }

  admit-Paid :
      (t₀ t : ℕ) (g : Guard P) (e : TelemetryEvent P) (now later : ℕ)
      → t ≤ now
      → Paid t₀ t g
      → Paid t₀ now (admit parses o g e now later).0
  unfolding admit try_consume refill refilled min enqueue push_event make_room
  admit-Paid t₀ t g e now later h v =
      let k = elapsed_mul now g.bucket.last_refill_time o.refill_rate (le_trans v.read h) in
      record {
        full = ground (arith, v.full);
        begun = ground (arith, v.begun, v.read);
        read = ground arith;
        paid = ground (arith, v.paid, k);
      }

  ingest-Paid :
      (t₀ t : ℕ) (g : Guard P) (raw : Raw P) (now later : ℕ)
      → t ≤ now
      → Paid t₀ t g
      → Paid t₀ now (ingest parses o g raw now later).0
  unfolding ingest
  ingest-Paid t₀ t g raw now later h v = elim (Validated-cases (validate_event parses raw)) [
    | inl (x, p) ↦
        rw (p, ingest)
          (record { full = v.full; begun = v.begun; read = le_trans v.read h; paid = v.paid })
    | inr (e, p) ↦ rw (p, ingest) (admit-Paid t₀ t g e now later h v)
  ]

  run-Paid :
      (t₀ t : ℕ) (g : Guard P) (xs : List (Call P))
      → Rises t xs
      → Paid t₀ t g
      → Paid t₀ (clock t xs) (run parses o g xs)
  unfolding run step drain
  run-Paid t₀ t g [] r v = v
  run-Paid t₀ t g (ingests raw now later ∷ xs) r v =
      run-Paid t₀ now (ingest parses o g raw now later).0 xs r.1
        (ingest-Paid t₀ t g raw now later r.0 v)
  run-Paid t₀ t g (drains n ∷ xs) r v =
      run-Paid t₀ t (drain parses o g n).0 xs r
        (record { full = v.full; begun = v.begun; read = v.read; paid = v.paid })

  new_guard-Paid : (t₀ : ℕ) (g : Guard P) → new_guard o t₀ ≡ some g → Paid t₀ t₀ g
  unfolding new_guard full_bucket
  new_guard-Paid t₀ g h = elim (Bool-cases (leb o.bucket_capacity 0)) [
    | inl c ↦ absurd (none-ne-some (simp c at h))
    | inr c ↦ elim (Bool-cases (leb o.refill_rate 0)) [
      | inl r ↦ absurd (none-ne-some (simp (c, r) at h))
      | inr r ↦
          let p = some-inj (simp (c, r) at h) in
          rw (← p) (record {
            full = omega arith;
            begun = omega arith;
            read = omega arith;
            paid = omega arith;
          })
    ]
  ]

  -- On a clock that does not run back, a guard made at `t₀` has by any later time admitted at most
  -- its capacity, plus what its rate brings in the time since.
  pub run-rate :
      (t₀ : ℕ) (g : Guard P) (xs : List (Call P))
      → new_guard o t₀ ≡ some g
      → Rises t₀ xs
      → 1000 * (run parses o g xs).total_accepted
        ≤ 1000 * o.bucket_capacity + (clock t₀ xs - t₀) * o.refill_rate
  run-rate t₀ g xs h r =
      let v = run-Paid t₀ t₀ g xs r (new_guard-Paid t₀ g h) in
      let last = (run parses o g xs).bucket.last_refill_time in
      let k = elapsed_mul (clock t₀ xs) t₀ o.refill_rate (le_trans v.begun v.read) in
      let m = mul-le-mul_right o.refill_rate v.read in omega (arith, v.paid, k, m)
