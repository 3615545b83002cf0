-- ===== src/Ingestion/Tests.antt =====
-- Runs of the ingestion guard, and instances of its theorems.
use vero_audit_guard.Base.{
  ℕ, ◌+◌, ◌-◌, ◌*◌, ◌≤◌, ◌≡◌, refl, Bool, true, none, some, List, [], ◌∷◌, ◌++◌, String, arith,
  length, is_blank,
}
use vero_audit_guard.Ingestion.Bucket.{clock, run-rate}
use vero_audit_guard.Ingestion.Fifo.{arrivals, departures, run-fifo}
use vero_audit_guard.Ingestion.{
  Options, Raw, object, Guard, full_bucket, new_guard, validate_event, ingest, drain, Call, ingests,
  drains, run, try_consume, admit, enqueue, make_room, push_event, refill, refilled, min, available,
  step,
}

abbrev parses : String → Bool
parses s = true

-- Two tokens, one more each millisecond, and a queue of one.
abbrev tiny : Options
tiny = record { bucket_capacity = 2; refill_rate = 1000; max_queue_depth = 1 }

abbrev fresh : Guard ℕ
fresh = record {
  bucket = record { milli_tokens = 2000; last_refill_time = 5 };
  queue = [];
  total_accepted = 0;
  total_rate_limited = 0;
  total_dropped = 0;
  total_malformed = 0;
}

abbrev event : String → Raw ℕ
event i = object (some i) (some "2026-01-01") (some 7)

abbrev burst : List (Call ℕ)
burst =
    ingests (event "a") 5 5
    ∷ ingests (event "b") 5 5
    ∷ ingests (event "c") 5 5
    ∷ ingests (object none none none) 5 5
    ∷ drains 9
    ∷ ingests (event "d") 6 6
    ∷ []

guard : Unit {0}
unfolding new_guard full_bucket run step ingest drain admit enqueue make_room push_event try_consume
    refill refilled min available validate_event is_blank
guard = tt

run_tests :
    ((run parses tiny fresh burst).total_accepted ≡ 3)
    × ((run parses tiny fresh burst).total_rate_limited ≡ 1)
    × ((run parses tiny fresh burst).total_dropped ≡ 1)
    × ((run parses tiny fresh burst).total_malformed ≡ 1)
    × (length (run parses tiny fresh burst).queue ≡ 1)
    × (new_guard tiny 5 ≡ some fresh)
unfolding guard
run_tests = (refl, refl, refl, refl, refl, refl)

run-rate_example :
    1000 * (run parses tiny fresh burst).total_accepted ≤ 1000 * 2 + (clock 5 burst - 5) * 1000
unfolding guard
run-rate_example =
    run-rate parses tiny 5 fresh burst refl
      (omega arith, (omega arith, (omega arith, (omega arith, (omega arith, tt)))))

run-fifo_example :
    departures parses tiny fresh burst ++ (run parses tiny fresh burst).queue
    ≡ fresh.queue ++ arrivals parses tiny fresh burst
run-fifo_example = run-fifo parses tiny fresh burst
