-- ===== src/Processor.antt =====
-- src/audit-guard/src/batch-contract-call-processor.ts: batches of simulated contract calls. The pool
-- of workers is in Processor/Pool; the gas profiler is a parameter (`none` if it throws), whose
-- `simulate` gives a result for a method, a payload size and a number of signatures. In a fingerprint,
-- null counts as a missing property. The integrity hash and the texts of errors are left out.
pub mod Pool
pub mod Schedule
pub mod Entries
mod Tests
use vero_audit_guard.Base.{
  ℕ, suc, Bool, String, List, Option, false, if◌then◌else◌, none, [], some, true, ltb, ◌∷◌, length,
  not, str_eq, ◌||◌, ◌&&◌, keep,
}
use Prim.Native.String.{◌++◌ as joined}

pub record ContractCallDescriptor : Type 0 where
  pub address : Option String
  pub method : Option String
  pub payload : Option String
  pub payload_size_bytes : Option ℕ
  pub signatures_count : Option ℕ

pub data RawEntry : Type 0 where
  no_object : RawEntry
  object : ContractCallDescriptor → RawEntry

pub record GasProfileResult : Type 0 where
  pub ok : Bool
  pub is_critical : Bool
  pub error : Option String

pub data EntryError : Type 0 where
  invalid_descriptor payload_too_large gas_limit_exceeded profiler_error : EntryError
  gas_error : String → EntryError

-- `is_duplicate` is the warning DUPLICATE_DETECTED.
pub record BatchEntryResult : Type 0 where
  pub ok : Bool
  pub index : ℕ
  pub address : Option String
  pub method : Option String
  pub gas_result : Option GasProfileResult
  pub is_duplicate : Bool
  pub error : Option EntryError

pub record BatchResult : Type 0 where
  pub ok : Bool
  pub entries : List BatchEntryResult
  pub total_processed : ℕ
  pub success_count : ℕ
  pub failure_count : ℕ

abbrev shown : Option String → String
shown none = "undefined"
shown (some s) = s

unfoldable pub fingerprint : ContractCallDescriptor → String
fingerprint d =
    joined (shown d.address) (joined "::" (joined (shown d.method) (joined "::" (shown d.payload))))

-- How many objects of a batch have a fingerprint: the length of its list of indices.
unfoldable pub occurrences : String → List RawEntry → ℕ
occurrences fp [] = 0
occurrences fp (no_object ∷ es) = occurrences fp es
occurrences fp (object d ∷ es) =
    let rest = occurrences fp es in if str_eq (fingerprint d) fp then suc rest else rest

unfoldable pub is_repeated : List RawEntry → RawEntry → Bool
is_repeated batch no_object = false
is_repeated batch (object d) = ltb 1 (occurrences (fingerprint d) batch)

abbrev lacks : Option String → Bool
lacks none = true
lacks (some s) = false

abbrev exceeds : ℕ → Option ℕ → Bool
exceeds limit none = false
exceeds limit (some n) = ltb limit n

unfoldable pub validate_descriptor : (max_payload_bytes : ℕ) → RawEntry → Option EntryError
validate_descriptor limit no_object = some invalid_descriptor
validate_descriptor limit (object d) =
    if lacks d.address || lacks d.method || lacks d.payload
    then some invalid_descriptor
    else if exceeds limit d.payload_size_bytes
    then some payload_too_large
    else none

abbrev or_one : Option ℕ → ℕ
or_one none = 1
or_one (some n) = n

abbrev own_error : Option String → Option EntryError
own_error none = none
own_error (some s) = some (gas_error s)

-- Of an entry that failed before or in the profiler.
abbrev failure : ℕ → Bool → EntryError → BatchEntryResult
failure i repeated x = record {
  ok = false;
  index = i;
  address = none;
  method = none;
  gas_result = none;
  is_duplicate = repeated;
  error = some x;
}

abbrev profiled : ContractCallDescriptor → ℕ → Bool → Option GasProfileResult → BatchEntryResult
profiled d i repeated none = failure i repeated profiler_error
profiled d i repeated (some g) = record {
  ok = not g.is_critical && g.ok;
  index = i;
  address = d.address;
  method = d.method;
  gas_result = some g;
  is_duplicate = repeated;
  error = if g.is_critical then some gas_limit_exceeded else own_error g.error;
}

module _ (simulate : String → Option ℕ → ℕ → Option GasProfileResult) (max_payload_bytes : ℕ)
    (batch : List RawEntry) where
  unfoldable pub process_entry : ContractCallDescriptor → ℕ → Bool → BatchEntryResult
  process_entry d i repeated =
      profiled d i repeated
        (simulate (shown d.method) d.payload_size_bytes (or_one d.signatures_count))

  abbrev pub task_of : ℕ → RawEntry → BatchEntryResult
  task_of i no_object = failure i false invalid_descriptor
  task_of i (object d) = process_entry d i (is_repeated batch (object d))

  abbrev pub queued :
      Option EntryError → BatchEntryResult → List BatchEntryResult → List BatchEntryResult
  queued (some x) t rest = rest
  queued none t rest = t ∷ rest

  -- The tasks of the pool, in order: the valid entries, numbered from `i` in the batch.
  unfoldable pub pool_tasks : ℕ → List RawEntry → List BatchEntryResult
  pool_tasks i [] = []
  pool_tasks i (e ∷ es) =
      queued (validate_descriptor max_payload_bytes e) (task_of i e) (pool_tasks (suc i) es)

  -- `entrySlots`, filled from the pool's results from the `j`th on; a result that is missing is `none`.
  abbrev pub slot :
      (ℕ → Option BatchEntryResult)
      → (ℕ → List (Option BatchEntryResult))
      → ℕ
      → ℕ
      → RawEntry
      → Option EntryError
      → List (Option BatchEntryResult)
  slot results rest i j e (some x) = some (failure i (is_repeated batch e) x) ∷ rest j
  slot results rest i j e none = results j ∷ rest (suc j)

  unfoldable pub entry_slots :
      (ℕ → Option BatchEntryResult) → ℕ → List RawEntry → ℕ → List (Option BatchEntryResult)
  entry_slots results i [] j = []
  entry_slots results i (e ∷ es) j =
      slot results (entry_slots results (suc i) es) i j e (validate_descriptor max_payload_bytes e)

abbrev at_least_one : Option ℕ → ℕ → ℕ
at_least_one none default = default
at_least_one (some n) default = if ltb n 1 then 1 else n

-- The constructor's limits.
unfoldable pub max_concurrency_of : Option ℕ → ℕ
max_concurrency_of n = at_least_one n 5

unfoldable pub max_payload_bytes_of : Option ℕ → ℕ
max_payload_bytes_of n = at_least_one n 65536

-- The result for some entries; a batch that is no array has none.
unfoldable pub batch_result : List BatchEntryResult → BatchResult
batch_result entries = record {
  ok = true;
  entries = entries;
  total_processed = length entries;
  success_count = length (keep (λ e. e.ok) entries);
  failure_count = length (keep (λ e. not e.ok) entries);
}

unfoldable pub invalid_input : BatchResult
invalid_input = record {
  ok = false;
  entries = [];
  total_processed = 0;
  success_count = 0;
  failure_count = 0;
}
