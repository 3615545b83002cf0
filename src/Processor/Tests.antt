-- ===== src/Processor/Tests.antt =====
-- Runs of the batch processor and its pool, and instances of their theorems.
use vero_audit_guard.Base.{
  ℕ, ◌+◌, ◌≤◌, ◌<◌, ◌≡◌, ◌↔◌, refl, true, false, Option, none, some, List, [], ◌∷◌, String, map,
  arith, length,
}
use vero_audit_guard.Processor.Pool.{Pool, Reach, begins, goes_on, ends, start, resume}
use vero_audit_guard.Processor.Schedule.{run_complete}
use vero_audit_guard.Processor.Entries.{nth, outcomes, entry_slots_complete}
use vero_audit_guard.Processor.{
  ContractCallDescriptor, RawEntry, no_object, object, GasProfileResult, BatchEntryResult,
  fingerprint, occurrences, is_repeated, validate_descriptor, process_entry, pool_tasks,
  entry_slots, batch_result,
}

abbrev simulate : String → Option ℕ → ℕ → Option GasProfileResult
simulate method size signatures = some (record { ok = true; is_critical = false; error = none })

abbrev call : ContractCallDescriptor
call = record {
  address = some "C";
  method = some "pay";
  payload = some "00";
  payload_size_bytes = some 1;
  signatures_count = none;
}

-- Two equal calls, with something between them that is none.
abbrev calls : List RawEntry
calls = object call ∷ no_object ∷ object call ∷ []

abbrev tasks : List BatchEntryResult
tasks = pool_tasks simulate 10 calls 0 calls

processor : Unit {0}
unfolding pool_tasks entry_slots process_entry validate_descriptor is_repeated occurrences
    fingerprint start resume batch_result
processor = tt

processor_tests :
    (map (λ e. e.is_duplicate) (outcomes simulate 10 calls 0 calls) ≡ true ∷ false ∷ true ∷ [])
    × ((batch_result (outcomes simulate 10 calls 0 calls)).success_count ≡ 2)
    × (length tasks ≡ 2)
unfolding processor
processor_tests = (refl, refl, refl)

-- The second task ends first.
abbrev after_one : Pool BatchEntryResult
after_one = resume (nth tasks) 2 2 (start (nth tasks) 2 2) (0 ∷ []) 1 []

abbrev after_two : Pool BatchEntryResult
after_two = resume (nth tasks) 2 2 after_one [] 0 []

schedule : Reach (nth tasks) (length tasks) 2 2 after_two
unfolding processor
schedule = goes_on (goes_on begins (ends (0 ∷ []) 1 [] refl)) (ends [] 0 [] refl)

through : after_two.active ≡ []
unfolding processor
through = refl

run_complete_example :
    (length after_two.active ≤ 2)
    × (2 ≤ length tasks)
    × ((after_two.active ≡ []) ↔ (◌≡◌ {A = ℕ} 2 (length tasks)))
    × (after_two.active ≡ []
        → (i : ℕ) → i < length tasks
        → after_two.results i ≡ some (nth tasks i))
run_complete_example = run_complete (nth tasks) (length tasks) 2 (omega arith) schedule

entry_slots_complete_example :
    let entries = outcomes simulate 10 calls 0 calls in
    let r = batch_result entries in
    (entry_slots simulate 10 calls after_two.results 0 calls 0 ≡ map some entries)
    × (r.success_count + r.failure_count ≡ r.total_processed)
    × (r.total_processed ≡ length calls)
entry_slots_complete_example =
    entry_slots_complete simulate 10 calls 2 2 after_two (omega arith) schedule through
