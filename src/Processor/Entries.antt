-- ===== src/Processor/Entries.antt =====
-- The entries of a batch, out of any run of the pool.
use vero_audit_guard.Base.{
  ℕ, zero, suc, ◌+◌, ◌≤◌, ◌<◌, ◌≡◌, refl, ◌∙◌, ap, not, Option, none, some, List, [], ◌∷◌, String,
  map, arith, length, keep, false,
}
use mathlib.Core.Path.{ap₂}
use vero_audit_guard.Processor.{
  RawEntry, GasProfileResult, EntryError, BatchEntryResult, failure, is_repeated,
  validate_descriptor, task_of, queued, pool_tasks, slot, entry_slots, batch_result,
  invalid_descriptor,
}
use vero_audit_guard.Processor.Pool.{Pool, Reach}
use vero_audit_guard.Processor.Schedule.{run_complete}

-- The tasks of a list by their index.
abbrev pub nth : List BatchEntryResult → ℕ → BatchEntryResult
nth [] i = failure 0 false invalid_descriptor
nth (t ∷ ts) zero = t
nth (t ∷ ts) (suc i) = nth ts i

counts_add :
    (es : List BatchEntryResult)
    → length (keep (λ e. e.ok) es) + length (keep (λ e. not e.ok) es) ≡ length es
counts_add [] = refl
counts_add (e ∷ es) = ground (arith, counts_add es)

module _ (simulate : String → Option ℕ → ℕ → Option GasProfileResult) (max_payload_bytes : ℕ)
    (batch : List RawEntry) where
  -- What one entry comes to, by itself.
  abbrev pub outcome_of : ℕ → RawEntry → Option EntryError → BatchEntryResult
  outcome_of i e (some x) = failure i (is_repeated batch e) x
  outcome_of i e none = task_of simulate max_payload_bytes batch i e

  abbrev pub outcomes : ℕ → List RawEntry → List BatchEntryResult
  outcomes i [] = []
  outcomes i (e ∷ es) =
      outcome_of i e (validate_descriptor max_payload_bytes e) ∷ outcomes (suc i) es

  length-outcomes : (i : ℕ) (es : List RawEntry) → length (outcomes i es) ≡ length es
  length-outcomes i [] = refl
  length-outcomes i (e ∷ es) = omega (arith, length-outcomes (suc i) es)

  shifted :
      (results : ℕ → Option BatchEntryResult) (j m : ℕ) → results (suc j + m) ≡ results (j + suc m)
  shifted results j m = let e : suc j + m ≡ j + suc m = omega arith in ap results e

  slot-outcome_of :
      (results : ℕ → Option BatchEntryResult) (i j : ℕ) (e : RawEntry) (es : List RawEntry)
      (tasks : List BatchEntryResult) (x : Option EntryError)
      → ((m : ℕ)
          → m
            < length (
                queued simulate max_payload_bytes batch x
                  (task_of simulate max_payload_bytes batch i e)
                  tasks)
          → results (j + m)
            ≡ some (
                nth
                  (queued simulate max_payload_bytes batch x
                    (task_of simulate max_payload_bytes batch i e)
                    tasks)
                  m))
      → ((k : ℕ)
          → ((m : ℕ) → m < length tasks → results (k + m) ≡ some (nth tasks m))
          → entry_slots simulate max_payload_bytes batch results (suc i) es k
            ≡ map some (outcomes (suc i) es))
      → slot simulate max_payload_bytes batch results
          (entry_slots simulate max_payload_bytes batch results (suc i) es)
          i
          j
          e
          x
        ≡ map some (outcome_of i e x ∷ outcomes (suc i) es)
  slot-outcome_of results i j e es tasks (some x) h rest =
      ap (λ xs. some (failure i (is_repeated batch e) x) ∷ xs) (rest j h)
  slot-outcome_of results i j e es tasks none h rest =
      let first : j ≡ j + 0 = omega arith in
      ap₂ (λ y ys. y ∷ ys) (ap results first ∙ h 0 (omega arith))
        (rest (suc j) (λ m l. shifted results j m ∙ h (suc m) (omega (arith, l))))

  entry_slots-outcomes :
      (results : ℕ → Option BatchEntryResult) (i : ℕ) (es : List RawEntry) (j : ℕ)
      → ((m : ℕ)
          → m < length (pool_tasks simulate max_payload_bytes batch i es)
          → results (j + m) ≡ some (nth (pool_tasks simulate max_payload_bytes batch i es) m))
      → entry_slots simulate max_payload_bytes batch results i es j ≡ map some (outcomes i es)
  unfolding entry_slots pool_tasks
  entry_slots-outcomes results i [] j h = refl
  entry_slots-outcomes results i (e ∷ es) j h =
      slot-outcome_of results i j e es (pool_tasks simulate max_payload_bytes batch (suc i) es)
        (validate_descriptor max_payload_bytes e) h (entry_slots-outcomes results (suc i) es)

  -- In whatever order its tasks end: a pool that is through has given every slot of the batch what
  -- that entry comes to by itself, in the batch's order, and the successes and the failures of the
  -- result add up to the entries.
  pub entry_slots_complete :
      (max k : ℕ) (p : Pool BatchEntryResult)
      → let tasks = pool_tasks simulate max_payload_bytes batch 0 batch in
        1 ≤ max
        → Reach (nth tasks) (length tasks) max k p
        → p.active ≡ []
        → let entries = outcomes 0 batch in
          let r = batch_result entries in
          (entry_slots simulate max_payload_bytes batch p.results 0 batch 0 ≡ map some entries)
          × (r.success_count + r.failure_count ≡ r.total_processed)
          × (r.total_processed ≡ length batch)
  unfolding batch_result
  entry_slots_complete max k p m r e =
      let tasks = pool_tasks simulate max_payload_bytes batch 0 batch in
      let (few, le, through, all_known) = run_complete (nth tasks) (length tasks) max m r in
      (
        entry_slots-outcomes p.results 0 batch 0
            (λ i l. let z : 0 + i ≡ i = omega arith in ap p.results z ∙ all_known e i l),
        counts_add (outcomes 0 batch),
        length-outcomes 0 batch,
      )
