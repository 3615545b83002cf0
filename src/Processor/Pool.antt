-- ===== src/Processor/Pool.antt =====
-- src/audit-guard/src/batch-contract-call-processor.ts: `processWithConcurrency`. A step is a worker
-- whose task has ended: it writes the result and takes the next index, if there is one. Which of the
-- awaited tasks ends next is open, so a run is any sequence of steps. The array of results is a
-- function of the index.
use vero_audit_guard.Base.{
  ℕ, zero, suc, ◌≡◌, Option, none, some, List, [], ◌∷◌, ◌++◌, ltb, ◌==◌, if◌then◌else◌,
}

pub record Pool {ℓ} (R : Type ℓ) : Type ℓ where
  pub next_index : ℕ
  pub active : List ℕ
  pub results : ℕ → Option R

abbrev pub written {ℓ} : {R : Type ℓ} → ℕ → R → (ℕ → Option R) → ℕ → Option R
written i r f j = if j == i then some r else f j

-- The indices that the first workers take.
abbrev pub first_indices : ℕ → ℕ → List ℕ
first_indices i zero = []
first_indices i (suc k) = i ∷ first_indices (suc i) k

abbrev pub fewer : ℕ → ℕ → ℕ
fewer a b = if ltb a b then a else b

module _ {ℓ} {R : Type ℓ} (task : ℕ → R) (n max : ℕ) where
  -- All workers have taken their first index.
  unfoldable pub start : Pool R
  start = record {
    next_index = fewer max n;
    active = first_indices 0 (fewer max n);
    results = λ i. none;
  }

  -- The worker of `i` goes on, the others being those before and behind it.
  unfoldable pub resume : Pool R → List ℕ → ℕ → List ℕ → Pool R
  resume p before i behind =
      let results = written i (task i) p.results in
      if ltb p.next_index n
      then record {
        next_index = suc p.next_index;
        active = before ++ p.next_index ∷ behind;
        results = results;
      }
      else record p { active = before ++ behind; results = results }

  pub data Step (p : Pool R) : Pool R → Type ℓ where
    ends :
        (before : List ℕ) (i : ℕ) (behind : List ℕ)
        → p.active ≡ before ++ i ∷ behind
        → Step p (resume p before i behind)

  -- A run of so many steps.
  pub data Reach : ℕ → Pool R → Type ℓ where
    begins : Reach 0 start
    goes_on : {k : ℕ} {p q : Pool R} → Reach k p → Step p q → Reach (suc k) q
