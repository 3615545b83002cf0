-- ===== src/Ingestion/Fifo.antt =====
-- The queue: what enters it, in which order it leaves, and what the counters say of both.
use vero_audit_guard.Base.{
  ℕ, suc, ◌+◌, ◌≤◌, ◌≡◌, refl, sym, ap, ◌∙◌, inl, inr, Bool, Option, none, some, List, [], ◌∷◌,
  ◌++◌, String, arith, leb, Bool-cases, length, length-append, length-drop, take, drop,
  take-append-drop, ◌<◌, ◌⊎◌,
}
use mathlib.Core.List.{append_assoc, append-nil}
use vero_audit_guard.Ingestion.Bucket.{Validated-cases}
use vero_audit_guard.Ingestion.{
  Options, Raw, TelemetryEvent, Guard, Validated, valid, validate_event, try_consume, enqueue,
  first_id, make_room, outcome_of, push_event, admit, ingest, drain, Call, ingests, drains, step,
  run, IngestionOutcome, accepted, queue_full_drop, IngestionResult,
}

module _ {P : Type 0} where
  -- What an outcome says: the event entered the queue; the oldest one left it for that.
  abbrev entered : IngestionOutcome → Validated P → List (TelemetryEvent P)
  entered accepted (valid e) = e ∷ []
  entered queue_full_drop (valid e) = e ∷ []
  entered _ _ = []

  abbrev evicted : IngestionOutcome → List (TelemetryEvent P) → List (TelemetryEvent P)
  evicted queue_full_drop q = take 1 q
  evicted _ q = []

module _ {P : Type 0} (parses : String → Bool) (o : Options) where
  -- The events that the calls' outcomes report as entered, and those that left: dropped as the oldest
  -- or handed out by `drain`, both in their order.
  abbrev pub arrivals : Guard P → List (Call P) → List (TelemetryEvent P)
  arrivals g [] = []
  arrivals g (ingests raw now later ∷ xs) =
      entered (ingest parses o g raw now later).1.outcome (validate_event parses raw)
      ++ arrivals (ingest parses o g raw now later).0 xs
  arrivals g (drains n ∷ xs) = arrivals (drain parses o g n).0 xs

  abbrev pub departures : Guard P → List (Call P) → List (TelemetryEvent P)
  departures g [] = []
  departures g (ingests raw now later ∷ xs) =
      evicted (ingest parses o g raw now later).1.outcome g.queue
      ++ departures (ingest parses o g raw now later).0 xs
  departures g (drains n ∷ xs) = (drain parses o g n).1 ++ departures (drain parses o g n).0 xs

  oldest :
      (q : List (TelemetryEvent P))
      → ((q ≡ []) × (first_id q ≡ none))
        ⊎ ((i : String) × (first_id q ≡ some i) × (length (take 1 q) ≡ 1))
  oldest [] = inl (refl, refl)
  oldest (x ∷ xs) = inr (x.id, refl, refl)

  -- One ingestion: what it evicts and keeps is what was there and what enters.
  abbrev Turn : Guard P → Validated P → Guard P × IngestionResult → Type 0
  Turn g v x =
      (evicted (x.1.outcome) g.queue ++ x.0.queue ≡ g.queue ++ entered (x.1.outcome) v)
      × (x.0.total_accepted ≡ g.total_accepted + length (entered (x.1.outcome) v))
      × (0 < o.max_queue_depth
          → x.0.total_dropped ≡ g.total_dropped + length (evicted (x.1.outcome) g.queue))
      × (x.1.queue_depth ≡ length (x.0.queue))

  -- What is left of the queue once there is room, with the identity of what was dropped.
  abbrev Room : Guard P → Guard P × Option String → Type 0
  Room g (g', d) =
      (evicted (outcome_of d) g.queue ++ g'.queue ≡ g.queue)
      × (g'.total_accepted ≡ g.total_accepted)
      × (0 < o.max_queue_depth
          → g'.total_dropped ≡ g.total_dropped + length (evicted (outcome_of d) g.queue))

  drop_oldest-Room :
      (g : Guard P)
      → (0 < o.max_queue_depth → 0 < length g.queue)
      → Room g (
        record g { queue = drop 1 g.queue; total_dropped = suc g.total_dropped },
        first_id g.queue,
      )
  drop_oldest-Room g h = elim (oldest g.queue) [
    | inl (p, q) ↦ rw q (rw p refl, refl, λ k. absurd (ground (arith, h k)))
    | inr (i, q, t) ↦ rw q (take-append-drop 1 g.queue, refl, λ k. omega (arith, t))
  ]

  make_room-Room : (g : Guard P) → Room g (make_room parses o g)
  unfolding make_room
  make_room-Room g = elim (Bool-cases (leb o.max_queue_depth (length g.queue))) [
    | inr room ↦ rw room (refl, refl, λ h. omega arith)
    | inl full ↦ rw full (drop_oldest-Room g (λ h. ground arith))
  ]

  push_event-Turn :
      (g g' : Guard P) (d : Option String) (e : TelemetryEvent P) (later : ℕ)
      → Room g (g', d)
      → Turn g (valid e) (push_event parses o g' d e later)
  unfolding push_event
  push_event-Turn g g' none e later (p, q, r) =
      (ap (λ es. es ++ e ∷ []) p, omega (arith, q), r, refl)
  push_event-Turn g g' (some i) e later (p, q, r) = (
    sym (append_assoc (take 1 g.queue) g'.queue (e ∷ [])) ∙ ap (λ es. es ++ e ∷ []) p,
    omega (arith, q),
    r,
    refl,
  )

  enqueue-Turn :
      (g : Guard P) (e : TelemetryEvent P) (later : ℕ)
      → Turn g (valid e) (enqueue parses o g e later)
  unfolding enqueue
  enqueue-Turn g e later =
      let room = make_room parses o g in
      push_event-Turn g (room.0) (room.1) e later (make_room-Room g)

  admit-Turn :
      (g : Guard P) (e : TelemetryEvent P) (now later : ℕ)
      → Turn g (valid e) (admit parses o g e now later)
  unfolding admit
  admit-Turn g e now later = elim (Bool-cases (try_consume o g.bucket now).1) [
    | inl p ↦ simp p (enqueue-Turn _ e later)
    | inr p ↦ simp p (sym (append-nil g.queue), omega arith, λ h. omega arith, refl)
  ]

  ingest-Turn :
      (g : Guard P) (raw : Raw P) (now later : ℕ)
      → Turn g (validate_event parses raw) (ingest parses o g raw now later)
  unfolding ingest
  ingest-Turn g raw now later = elim (Validated-cases (validate_event parses raw)) [
    | inl (x, p) ↦ rw (p, ingest) (sym (append-nil g.queue), omega arith, λ h. omega arith, refl)
    | inr (e, p) ↦ rw (p, ingest) (admit-Turn g e now later)
  ]

  -- Over any calls: the events that left, in the order they left, and then the queue are the first
  -- queue and then the events that entered, in their order. Nothing is lost, duplicated or reordered.
  pub run-fifo :
      (g : Guard P) (xs : List (Call P))
      → departures g xs ++ (run parses o g xs).queue ≡ g.queue ++ arrivals g xs
  unfolding run step
  run-fifo g [] = sym (append-nil g.queue)
  run-fifo g (ingests raw now later ∷ xs) =
      let x = ingest parses o g raw now later in
      let out = evicted (x.1.outcome) g.queue in
      let come = entered (x.1.outcome) (validate_event parses raw) in
      append_assoc out (departures (x.0) xs) (run parses o (x.0) xs).queue
      ∙ ap (λ es. out ++ es) (run-fifo (x.0) xs)
      ∙ sym (append_assoc out (x.0.queue) (arrivals (x.0) xs))
      ∙ ap (λ es. es ++ arrivals (x.0) xs) (ingest-Turn g raw now later).0
      ∙ append_assoc g.queue come (arrivals (x.0) xs)
  run-fifo g (drains n ∷ xs) =
      let x = drain parses o g n in
      append_assoc (x.1) (departures (x.0) xs) (run parses o (x.0) xs).queue
      ∙ ap (λ es. x.1 ++ es) (run-fifo (x.0) xs)
      ∙ sym (append_assoc (x.1) (x.0.queue) (arrivals (x.0) xs))
      ∙ ap (λ es. es ++ arrivals (x.0) xs) (unfold drain in take-append-drop n g.queue)

  -- The counter of accepted events counts the events that entered.
  pub run-total_accepted :
      (g : Guard P) (xs : List (Call P))
      → (run parses o g xs).total_accepted ≡ g.total_accepted + length (arrivals g xs)
  unfolding run step
  run-total_accepted g [] = omega arith
  run-total_accepted g (ingests raw now later ∷ xs) =
      let x = ingest parses o g raw now later in
      omega (
        arith,
        run-total_accepted (x.0) xs,
        (ingest-Turn g raw now later).1,
        length-append (entered (x.1.outcome) (validate_event parses raw)) (arrivals (x.0) xs),
      )
  run-total_accepted g (drains n ∷ xs) =
      run-total_accepted (drain parses o g n).0 xs ∙ (unfold drain in refl)

  abbrev pub IsBounded : Guard P → Type 0
  IsBounded g = (length g.queue ≤ o.max_queue_depth) ⊎ (length g.queue ≤ 1)

  ingest-IsBounded :
      (g : Guard P) (raw : Raw P) (now later : ℕ)
      → IsBounded g
      → IsBounded (ingest parses o g raw now later).0
  unfolding ingest admit enqueue make_room push_event
  ingest-IsBounded g raw now later h = elim (Validated-cases (validate_event parses raw)) [
    | inl (x, p) ↦ rw (p, ingest) h
    | inr (e, p) ↦
        rw (p, ingest)
          (ground (
            arith,
            length-append g.queue (e ∷ []),
            length-append (drop 1 g.queue) (e ∷ []),
            length-drop 1 g.queue,
          ))
  ]

  -- A queue that is within its depth, or holds one event at most, is so after any calls: one event
  -- stays even where the depth is set to 0.
  pub run-IsBounded :
      (g : Guard P) (xs : List (Call P)) → IsBounded g → IsBounded (run parses o g xs)
  unfolding run step
  run-IsBounded g [] h = h
  run-IsBounded g (ingests raw now later ∷ xs) h =
      run-IsBounded (ingest parses o g raw now later).0 xs (ingest-IsBounded g raw now later h)
  run-IsBounded g (drains n ∷ xs) h =
      run-IsBounded (drain parses o g n).0 xs
        (unfold drain in ground (arith, length-drop n g.queue))
