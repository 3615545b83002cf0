-- ===== src/Processor/Schedule.antt =====
-- The pool after any run of its steps.
use vero_audit_guard.Base.{
  ℕ, zero, suc, ◌+◌, ◌≤◌, ◌<◌, ◌≡◌, refl, sym, ◌∙◌, ap, ◌⊎◌, inl, inr, Bool, true, false, ◌||◌,
  some, List, [], ◌∷◌, ◌++◌, arith, ltb, ◌==◌, length, length-append, Bool-cases, ◌↔◌,
}
use vero_audit_guard.Processor.Pool.{
  Pool, written, first_indices, fewer, start, resume, ends, Reach, begins, goes_on,
}

abbrev among : ℕ → List ℕ → Bool
among i [] = false
among i (j ∷ js) = i == j || among i js

among-append : (i : ℕ) (xs ys : List ℕ) → among i (xs ++ ys) ≡ (among i xs || among i ys)
among-append i [] ys = refl
among-append i (x ∷ xs) ys = ground (arith, among-append i xs ys)

length-first_indices : (i k : ℕ) → length (first_indices i k) ≡ k
length-first_indices i zero = refl
length-first_indices i (suc k) = omega (arith, length-first_indices (suc i) k)

among-first_indices : (i k j : ℕ) → i ≤ j → j < i + k → among j (first_indices i k) ≡ true
among-first_indices i zero j h l = absurd (omega (arith, h, l))
among-first_indices i (suc k) j h l = ground (arith, among-first_indices (suc i) k j)

fewer-zero : (max n : ℕ) → 1 ≤ max → fewer max n ≡ 0 → n ≡ 0
fewer-zero max n m h = ground arith

empty : (xs : List ℕ) → length xs ≡ 0 → xs ≡ []
empty [] h = refl
empty (x ∷ xs) h = absurd (omega (arith, h))

module _ {ℓ} {R : Type ℓ} (task : ℕ → R) (n max : ℕ) where
  record Inv (k : ℕ) (p : Pool R) : Type ℓ where
    bounded : p.next_index ≤ n
    taken : k + length p.active ≡ p.next_index
    few : length p.active ≤ fewer max n
    busy : (p.next_index ≡ n) ⊎ (length p.active ≡ fewer max n)
    known : (i : ℕ) → i < p.next_index → (among i p.active ≡ true) ⊎ (p.results i ≡ some (task i))

  Inv-start : Inv 0 (start task n max)
  unfolding start
  Inv-start =
      let l = length-first_indices 0 (fewer max n) in
      record {
        bounded = ground arith;
        taken = omega (arith, l);
        few = omega (arith, l);
        busy = inr l;
        known = λ i h. inl (among-first_indices 0 (fewer max n) i (omega arith) (omega (arith, h)));
      }

  known-written :
      (p : Pool R) (before : List ℕ) (i : ℕ) (behind : List ℕ) (j : ℕ)
      → p.active ≡ before ++ i ∷ behind
      → (among j p.active ≡ true) ⊎ (p.results j ≡ some (task j))
      → (among j (before ++ behind) ≡ true) ⊎ (written i (task i) p.results j ≡ some (task j))
  known-written p before i behind j e h = elim (Bool-cases (j == i)) [
    | inl b ↦
        let same : j ≡ i = ground (arith, b) in inr (rw b (ap (λ x. some (task x)) (sym same)))
    | inr b ↦ elim h [
      | inl m ↦
          let f = ap (among j) e in
          inl (
            ground
              (arith, m, f, b, among-append j before (i ∷ behind), among-append j before behind))
      | inr r ↦ inr (rw b r)
    ]
  ]

  Inv-resume :
      (k : ℕ) (p : Pool R) (before : List ℕ) (i : ℕ) (behind : List ℕ)
      → p.active ≡ before ++ i ∷ behind
      → Inv k p
      → Inv (suc k) (resume task n max p before i behind)
  unfolding resume
  Inv-resume k p before i behind e h = elim (Bool-cases (ltb p.next_index n)) [
    | inl b ↦ simp b record {
      bounded = ground (arith, b);
      taken = omega (arith, same_length, taken);
      few = omega (arith, same_length, few);
      busy = inr (busy_now (ground (arith, b)));
      known = λ j l. known_next j l;
    }
    | inr b ↦ simp b record {
      bounded = bounded;
      taken = omega (arith, shorter, taken);
      few = omega (arith, shorter, few);
      busy = inl (ground (arith, b, bounded));
      known = λ j l. known-written p before i behind j e (known j l);
    }
  ]
    where
      open h use {bounded, taken, few, busy, known}

      lengths : length p.active ≡ length before + suc (length behind)
      lengths = ap length e ∙ length-append before (i ∷ behind)

      same_length : length (before ++ p.next_index ∷ behind) ≡ length p.active
      same_length = omega (arith, lengths, length-append before (p.next_index ∷ behind))

      shorter : suc (length (before ++ behind)) ≡ length p.active
      shorter = omega (arith, lengths, length-append before behind)

      busy_now : p.next_index < n → length (before ++ p.next_index ∷ behind) ≡ fewer max n
      busy_now l = elim busy [ inl q ↦ absurd (omega (arith, l, q)) | inr q ↦ same_length ∙ q ]

      known_next :
          (j : ℕ)
          → j < suc p.next_index
          → (among j (before ++ p.next_index ∷ behind) ≡ true)
            ⊎ (written i (task i) p.results j ≡ some (task j))
      known_next j l =
          let m = among-append j before (p.next_index ∷ behind) in
          let m' = among-append j before behind in
          elim (Bool-cases (j == p.next_index)) [
            | inl b ↦ inl (ground (arith, m, b))
            | inr b ↦ elim (known-written p before i behind j e (known j (ground (arith, b, l)))) [
              | inl a ↦ inl (ground (arith, m, m', a, b))
              | inr r ↦ inr r
            ]
          ]

  Reach-Inv : {k : ℕ} {p : Pool R} → Reach task n max k p → Inv k p
  Reach-Inv begins = Inv-start
  Reach-Inv (goes_on {k} {p} r (ends before i behind e)) =
      Inv-resume k p before i behind e (Reach-Inv r)

  -- Where at least one worker is allowed, in whatever order the tasks end: no more are awaited at a
  -- time than allowed; each end brings the pool one step on, so that it is through exactly after as
  -- many steps as there are tasks; and then every index holds the result of its own task.
  pub run_complete :
      {k : ℕ} {p : Pool R}
      → 1 ≤ max
      → Reach task n max k p
      → (length p.active ≤ max)
        × (k ≤ n)
        × ((p.active ≡ []) ↔ (k ≡ n))
        × (p.active ≡ [] → (i : ℕ) → i < n → p.results i ≡ some (task i))
  run_complete {k} {p} m r =
      (ground (arith, few, m), omega (arith, taken, bounded), (through, no_more), all_known)
    where
      open Reach-Inv r use {bounded, taken, few, busy, known}

      through : p.active ≡ [] → k ≡ n
      through e =
          let l : length p.active ≡ 0 = ap length e in
          elim busy [
            | inl q ↦ omega (arith, l, q, taken)
            | inr q ↦ let z = fewer-zero max n m (sym q ∙ l) in omega (arith, l, z, taken, bounded)
          ]

      no_more : k ≡ n → p.active ≡ []
      no_more e = empty p.active (omega (arith, e, taken, bounded))

      all_known : p.active ≡ [] → (i : ℕ) → i < n → p.results i ≡ some (task i)
      all_known e i l =
          let c = through e in
          let z : length p.active ≡ 0 = ap length e in
          elim (known i (omega (arith, l, c, taken, z))) [
            | inl a ↦ absurd (let b = ap (among i) e in cc)
            | inr q ↦ q
          ]
