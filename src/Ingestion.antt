-- ===== src/Ingestion.antt =====
-- src/audit-guard/src/telemetry-ingestion-guard.ts: the token bucket and the bounded queue in front
-- of the telemetry. Tokens are counted in thousandths, so that `refillRatePerSecond / 1000` tokens
-- per millisecond is the whole number `refill_rate`; the source's floating point rounds there.
-- The clock is read once for the refill (`now`) and once for the report (`later`); logging is left
-- out. Whether the engine's `Date.parse` takes a text is a parameter.
pub mod Bucket
pub mod Fifo
mod Tests
use vero_audit_guard.Base.{
  ℕ, suc, ◌+◌, ◌-◌, ◌*◌, ◌/◌, Bool, true, false, not, Option, none, some, List, [], ◌∷◌, ◌++◌,
  String, ltb, leb, if◌then◌else◌, length, take, drop, is_blank,
}

pub record Options : Type 0 where
  pub bucket_capacity : ℕ
  pub refill_rate : ℕ
  pub max_queue_depth : ℕ

-- What a caller may hand in. A property of another type than text counts as missing.
pub data Raw (P : Type 0) : Type 0 where
  missing_event : Raw P
  not_an_object : Raw P
  object : (id timestamp : Option String) (payload : Option P) → Raw P

pub record TelemetryEvent (P : Type 0) : Type 0 where
  pub id : String
  pub timestamp : String
  pub payload : P

pub data ValidationError : Type 0 where
  null_event no_plain_object bad_id bad_timestamp no_payload : ValidationError

pub data Validated (P : Type 0) : Type 0 where
  valid : TelemetryEvent P → Validated P
  invalid : ValidationError → Validated P

pub data IngestionOutcome : Type 0 where
  accepted rate_limited queue_full_drop malformed : IngestionOutcome

pub record IngestionResult : Type 0 where
  pub outcome : IngestionOutcome
  pub queue_depth : ℕ
  pub tokens_remaining : ℕ
  pub validation_error : Option ValidationError
  pub dropped_event_id : Option String

pub record TokenBucket : Type 0 where
  pub milli_tokens : ℕ
  pub last_refill_time : ℕ

pub record Guard (P : Type 0) : Type 0 where
  pub bucket : TokenBucket
  pub queue : List (TelemetryEvent P)
  pub total_accepted : ℕ
  pub total_rate_limited : ℕ
  pub total_dropped : ℕ
  pub total_malformed : ℕ

pub min : ℕ → ℕ → ℕ
min a b = if leb a b then a else b

module _ {P : Type 0} (parses : String → Bool) where
  pub validate_event : Raw P → Validated P
  validate_event missing_event = invalid null_event
  validate_event not_an_object = invalid no_plain_object
  validate_event (object none t p) = invalid bad_id
  validate_event (object (some i) none p) =
      if is_blank i then invalid bad_id else invalid bad_timestamp
  validate_event (object (some i) (some t) p) =
      if is_blank i
      then invalid bad_id
      else if not (parses t)
      then invalid bad_timestamp
      else elim p [
        | none ↦ invalid no_payload
        | some x ↦ valid (record { id = i; timestamp = t; payload = x })
      ]

module _ (o : Options) where
  -- `min(capacity, tokens + elapsed * rate)`
  pub refilled : TokenBucket → ℕ → ℕ
  refilled b now =
      min (o.bucket_capacity * 1000) (b.milli_tokens + (now - b.last_refill_time) * o.refill_rate)

  pub refill : TokenBucket → ℕ → TokenBucket
  refill b now = record { milli_tokens = refilled b now; last_refill_time = now }

  pub try_consume : TokenBucket → ℕ → TokenBucket × Bool
  try_consume b now =
      let full = refill b now in
      if leb 1000 full.milli_tokens
      then (record full { milli_tokens = full.milli_tokens - 1000 }, true)
      else (full, false)

  -- `Math.floor(this.bucket.available)`
  pub available : TokenBucket → ℕ → ℕ
  available b now = refilled b now / 1000

  pub full_bucket : ℕ → TokenBucket
  full_bucket now = record { milli_tokens = o.bucket_capacity * 1000; last_refill_time = now }

  -- The constructor of `TokenBucket` throws on a capacity or a rate that is not positive.
  pub new_guard : {P : Type 0} → ℕ → Option (Guard P)
  new_guard now =
      if leb o.bucket_capacity 0
      then none
      else if leb o.refill_rate 0
      then none
      else some (record {
        bucket = full_bucket now;
        queue = [];
        total_accepted = 0;
        total_rate_limited = 0;
        total_dropped = 0;
        total_malformed = 0;
      })

abbrev first_id : {P : Type 0} → List (TelemetryEvent P) → Option String
first_id [] = none
first_id (e ∷ es) = some e.id

abbrev outcome_of : Option String → IngestionOutcome
outcome_of none = accepted
outcome_of (some i) = queue_full_drop

module _ {P : Type 0} (parses : String → Bool) (o : Options) where
  -- Step 3, the room: `shift` on an empty queue, where `max_queue_depth` is 0, drops nothing.
  pub make_room : Guard P → Guard P × Option String
  make_room g =
      if leb o.max_queue_depth (length g.queue)
      then (
        record g { queue = drop 1 g.queue; total_dropped = suc g.total_dropped },
        first_id g.queue,
      )
      else (g, none)

  pub push_event : Guard P → Option String → TelemetryEvent P → ℕ → Guard P × IngestionResult
  push_event g dropped_id e later =
      let queue = g.queue ++ e ∷ [] in
      (
        record g { queue = queue; total_accepted = suc g.total_accepted },
        record {
          outcome = outcome_of dropped_id;
          queue_depth = length queue;
          tokens_remaining = available o g.bucket later;
          validation_error = none;
          dropped_event_id = dropped_id;
        },
      )

  pub enqueue : Guard P → TelemetryEvent P → ℕ → Guard P × IngestionResult
  enqueue g e later = let room = make_room g in push_event (room.0) (room.1) e later

  pub admit : Guard P → TelemetryEvent P → ℕ → ℕ → Guard P × IngestionResult
  admit g e now later =
      let consumed = try_consume o g.bucket now in
      let g' = record g { bucket = consumed.0 } in
      if consumed.1 then enqueue g' e later else (
        record g' { total_rate_limited = suc g.total_rate_limited },
        record {
          outcome = rate_limited;
          queue_depth = length g.queue;
          tokens_remaining = 0;
          validation_error = none;
          dropped_event_id = none;
        },
      )

  pub ingest : Guard P → Raw P → ℕ → ℕ → Guard P × IngestionResult
  ingest g raw now later = elim (validate_event parses raw) [
    | invalid x ↦ (
      record g { total_malformed = suc g.total_malformed },
      record {
        outcome = malformed;
        queue_depth = length g.queue;
        tokens_remaining = available o g.bucket later;
        validation_error = some x;
        dropped_event_id = none;
      },
    )
    | valid e ↦ admit g e now later
  ]

  -- Each event with its two clock readings.
  pub ingest_batch : Guard P → List (Raw P × ℕ × ℕ) → Guard P × List IngestionResult
  ingest_batch g [] = (g, [])
  ingest_batch g ((raw, now, later) ∷ xs) =
      let x = ingest g raw now later in let rest = ingest_batch (x.0) xs in (rest.0, x.1 ∷ rest.1)

  pub drain : Guard P → ℕ → Guard P × List (TelemetryEvent P)
  drain g count = (record g { queue = drop count g.queue }, take count g.queue)

  pub reset : Guard P → ℕ → Guard P
  reset g now = record {
    bucket = full_bucket o now;
    queue = [];
    total_accepted = 0;
    total_rate_limited = 0;
    total_dropped = 0;
    total_malformed = 0;
  }

pub data Call (P : Type 0) : Type 0 where
  ingests : Raw P → (now later : ℕ) → Call P
  drains : ℕ → Call P

module _ {P : Type 0} (parses : String → Bool) (o : Options) where
  pub step : Guard P → Call P → Guard P
  step g (ingests raw now later) = (ingest parses o g raw now later).0
  step g (drains n) = (drain parses o g n).0

  pub run : Guard P → List (Call P) → Guard P
  run g [] = g
  run g (x ∷ xs) = run (step g x) xs
