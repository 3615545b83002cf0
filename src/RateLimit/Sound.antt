-- ===== src/RateLimit/Sound.antt =====
-- The monitor against the count over the history, for every order of times and calls.
use native.Mathlib.Nat.{le_trans}
use vero_audit_guard.Base.{
  ℕ, ◌+◌, ◌≤◌, ◌≡◌, inl, inr, false, some, List, [], ◌∷◌, String, arith, length, length-append,
  str_eq, eq_iff, All, Bool-cases, Option-cases,
}
use vero_audit_guard.Base.Dict.{Dict, lookup, insert, delete}
use vero_audit_guard.RateLimit.{
  Options, active, sweep, enforce_caps, times, verdict, stored, record_request, get_request_count,
  Call, records, counts, step, run,
}
use vero_audit_guard.RateLimit.Window.{History, hits, count, count-append, count-active-le}

-- Facts about every entry survive what the monitor does to its map.
module _ (P : String × List ℕ → Type 0) where
  pub All-sweep : (window now : ℕ) (m : Dict (List ℕ)) → All P m → All P (sweep window now m)
  unfolding sweep
  All-sweep window now [] h = h
  All-sweep window now ((k, ts) ∷ m) h = ground (arith, All-sweep window now m h.1)

  pub All-delete : (c : String) (m : Dict (List ℕ)) → All P m → All P (delete c m)
  unfolding delete
  All-delete c [] h = h
  All-delete c ((k, ts) ∷ m) h = ground (arith, All-delete c m h.1)

  pub All-insert :
      (c : String) (ts : List ℕ) (m : Dict (List ℕ)) → All P m → P (c, ts) → All P (insert c ts m)
  unfolding insert
  All-insert c ts [] h p = (p, tt)
  All-insert c ts ((k, us) ∷ m) h p = elim (Bool-cases (str_eq k c)) [
    | inl e ↦ rw e (rw ((eq_iff k c).0 e) p, h.1)
    | inr e ↦ rw e (h.0, All-insert c ts m h.1 p)
  ]

  pub All-enforce_caps : (cap : ℕ) (m : Dict (List ℕ)) → All P m → All P (enforce_caps cap m)
  unfolding enforce_caps
  All-enforce_caps cap [] h = h
  All-enforce_caps cap ((k, ts) ∷ m) h = ground (arith, All-enforce_caps cap m h.1)

  pub All-lookup :
      (c : String) (ts : List ℕ) (m : Dict (List ℕ)) → All P m → lookup c m ≡ some ts → P (c, ts)
  unfolding lookup
  All-lookup c ts [] h e = cc
  All-lookup c ts ((k, us) ∷ m) h e = elim (Bool-cases (str_eq k c)) [
    | inl q ↦ let p : us ≡ ts = ground arith in rw (← (eq_iff k c).0 q, ← p) h.0
    | inr q ↦ All-lookup c ts m h.1 (ground arith)
  ]

-- The history that a call adds to.
abbrev pub extend : History → Call → History
extend h (records client now) = (client, now) ∷ h
extend h (counts client now) = h

abbrev pub past : History → List Call → History
past h [] = h
past h (x ∷ xs) = past (extend h x) xs

module _ (o : Options) where
  -- An entry counts at most what the history has, at every time.
  abbrev Fits : History → String × List ℕ → Type 0
  Fits h (c, ts) = (now : ℕ) → count o.window_ms now ts ≤ hits o.window_ms c now h

  times-Fits :
      (h : History) (c : String) (m : Dict (List ℕ)) (now : ℕ)
      → All (Fits h) m
      → count o.window_ms now (times c m) ≤ hits o.window_ms c now h
  times-Fits h c m now a = elim (Option-cases (lookup c m)) [
    | inl e ↦ rw (e, times) (omega arith)
    | inr (ts, e) ↦ rw (e, times) (All-lookup (Fits h) c ts m a e now)
  ]

  stored-Fits :
      (h : History) (m : Dict (List ℕ)) (c : String) (now : ℕ)
      → All (Fits h) m
      → Fits ((c, now) ∷ h) (c, stored o m c now)
  unfolding stored
  stored-Fits h m c now a later =
      let swept = sweep o.window_ms now m in
      ground (
        arith,
        eq_iff c c,
        count-append o.window_ms later (active o.window_ms now (times c swept)) (now ∷ []),
        count-active-le o.window_ms later now (times c swept),
        times-Fits h c swept later (All-sweep (Fits h) o.window_ms now m a),
      )

  All-Fits-cons :
      (h : History) (c : String) (now : ℕ) (m : Dict (List ℕ))
      → All (Fits h) m
      → All (Fits ((c, now) ∷ h)) m
  All-Fits-cons h c now [] a = tt
  All-Fits-cons h c now ((k, ts) ∷ m) a =
      (λ later. omega (arith, a.0 later), All-Fits-cons h c now m a.1)

  record_request-Fits :
      (h : History) (m : Dict (List ℕ)) (c : String) (now : ℕ)
      → All (Fits h) m
      → All (Fits ((c, now) ∷ h)) (record_request o m c now).0
  unfolding record_request
  record_request-Fits h m c now a = All-enforce_caps _ o.max_tracked_clients _ (
      All-insert _ c _ _
        (All-delete _ c _ (All-sweep _ o.window_ms now m (All-Fits-cons h c now m a)))
        (stored-Fits h m c now a))

  get_request_count-Fits :
      (h : History) (m : Dict (List ℕ)) (c : String) (now : ℕ)
      → All (Fits h) m
      → All (Fits h) (get_request_count o m c now).0
  unfolding get_request_count
  get_request_count-Fits h m c now a =
      let swept = sweep o.window_ms now m in
      let s = All-sweep (Fits h) o.window_ms now m a in
      let d = All-delete (Fits h) c swept s in
      let i =
        All-insert (Fits h) c (active o.window_ms now (times c swept)) (delete c swept) d (λ later.
          le_trans (count-active-le o.window_ms later now (times c swept))
            (times-Fits h c swept later s)) in
      ground arith

  run-Fits :
      (h : History) (m : Dict (List ℕ)) (xs : List Call)
      → All (Fits h) m
      → All (Fits (past h xs)) (run o m xs)
  unfolding run step
  run-Fits h m [] a = a
  run-Fits h m (records c now ∷ xs) a =
      run-Fits ((c, now) ∷ h) (record_request o m c now).0 xs (record_request-Fits h m c now a)
  run-Fits h m (counts c now ∷ xs) a =
      run-Fits h (get_request_count o m c now).0 xs (get_request_count-Fits h m c now a)

  length-stored-le :
      (h : History) (m : Dict (List ℕ)) (c : String) (now : ℕ)
      → All (Fits h) m
      → length (stored o m c now) ≤ hits o.window_ms c now h + 1
  unfolding stored
  length-stored-le h m c now a =
      let swept = sweep o.window_ms now m in
      omega (
        arith,
        length-append (active o.window_ms now (times c swept)) (now ∷ []),
        times-Fits h c swept now (All-sweep (Fits h) o.window_ms now m a),
      )

  -- After any calls of a new monitor, in any order of times, the count that a request is answered
  -- with is at most one more than the client's earlier requests within the window; so a request is
  -- refused only if those have reached the threshold.
  pub record_request_sound :
      (xs : List Call) (client : String) (now : ℕ)
      → let result = (record_request o (run o [] xs) client now).1 in
        let earlier = hits o.window_ms client now (past [] xs) in
        (result.request_count ≤ earlier + 1) × (result.allowed ≡ false → o.threshold ≤ earlier)
  unfolding record_request verdict
  record_request_sound xs client now =
      let bound = length-stored-le (past [] xs) (run o [] xs) client now (run-Fits [] [] xs tt) in
      (ground arith, λ h. ground arith)
