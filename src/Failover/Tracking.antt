-- ===== src/Failover/Tracking.antt =====
-- The monitor against the history of its calls: windows, outages, failover events and counters.
use vero_audit_guard.Base.{
  ℕ, zero, suc, ◌+◌, ◌-◌, ◌≤◌, ◌≡◌, refl, sym, ap, ◌∙◌, inl, inr, Bool, true, false, Option, none,
  some, List, [], ◌∷◌, ◌++◌, String, arith, if◌then◌else◌, leb, ltb, length, length-append,
  length-drop, drop, push_capped, str_eq, eq_iff, Bool-cases, Option-cases,
}
use vero_audit_guard.Base.Dict.{
  Dict, lookup, has, insert, lookup-insert, lookup-delete, has-eq-false,
}
use vero_audit_guard.Failover.{
  Options, Monitor, FailoverEvent, elapsed, exceeds, window_of, Call, checks, fails_over, init,
  noted, record_check, event_of, record_failover, step, run,
}

-- The last `n` elements.
abbrev pub recent {ℓ} : {A : Type ℓ} → ℕ → List A → List A
recent n xs = drop (length xs - n) xs

drop-nil : {A : Type 0} (n : ℕ) → ◌≡◌ {A = List A} (drop n []) []
drop-nil zero = refl
drop-nil (suc n) = refl

drop-append :
    {A : Type 0} (n : ℕ) (xs ys : List A) → n ≤ length xs → drop n (xs ++ ys) ≡ drop n xs ++ ys
drop-append zero xs ys h = refl
drop-append (suc n) [] ys h = absurd (omega arith)
drop-append (suc n) (x ∷ xs) ys h = drop-append n xs ys (omega arith)

drop-one-drop : {A : Type 0} (n : ℕ) (xs : List A) → drop 1 (drop n xs) ≡ drop (suc n) xs
drop-one-drop zero xs = refl
drop-one-drop (suc n) [] = refl
drop-one-drop (suc n) (x ∷ xs) = drop-one-drop n xs

-- What an append pushes out of the most recent elements.
recent-push :
    {A : Type 0} (n : ℕ) (xs : List A) (x : A)
    → recent n (recent n xs ++ x ∷ []) ≡ recent n (xs ++ x ∷ [])
recent-push n xs x = elim (Bool-cases (leb n (length xs))) [
  | inl h ↦
      let k = length xs - n in
      let one : length (recent n xs ++ x ∷ []) - n ≡ 1 =
        ground (arith, length-append (recent n xs) (x ∷ []), length-drop k xs) in
      let next : suc k ≡ length (xs ++ x ∷ []) - n = ground (arith, length-append xs (x ∷ [])) in
      ap (λ j. drop j (recent n xs ++ x ∷ [])) one
      ∙ ap (drop 1) (sym (drop-append k xs (x ∷ []) (omega arith)))
      ∙ drop-one-drop k (xs ++ x ∷ [])
      ∙ ap (λ j. drop j (xs ++ x ∷ [])) next
  | inr h ↦
      let none_out : length xs - n ≡ 0 = ground arith in
      ap (λ j. recent n (drop j xs ++ x ∷ [])) none_out
]

length-recent-le : {A : Type 0} (n : ℕ) (xs : List A) → length (recent n xs) ≤ n
length-recent-le n xs = omega (arith, length-drop (length xs - n) xs)

push_capped-recent :
    {A : Type 0} (n : ℕ) (xs : List A) (x : A)
    → push_capped n (recent n xs) x ≡ recent n (xs ++ x ∷ [])
push_capped-recent n xs x =
    let ys = recent n xs in
    let l = length-append ys (x ∷ []) in
    let m = length-recent-le n xs in
    elim (Bool-cases (ltb n (length (ys ++ x ∷ [])))) [
      | inl h ↦
          let out : 1 ≡ length (ys ++ x ∷ []) - n = ground (arith, l, m) in
          rw h (ap (λ j. drop j (ys ++ x ∷ [])) out ∙ recent-push n xs x)
      | inr h ↦
          let out : 0 ≡ length (ys ++ x ∷ []) - n = ground (arith, l, m) in
          rw h (ap (λ j. drop j (ys ++ x ∷ [])) out ∙ recent-push n xs x)
    ]

-- The calls so far, the last one first: an endpoint's checks and all failover events, oldest first,
-- and the time of the first failed check since the endpoint was last healthy.
abbrev pub checks_of : String → List Call → List Bool
checks_of url [] = []
checks_of url (checks u healthy now ∷ past) =
    if str_eq u url then checks_of url past ++ healthy ∷ [] else checks_of url past
checks_of url (fails_over a b now ∷ past) = checks_of url past

abbrev pub first_of : Option ℕ → ℕ → Option ℕ
first_of none now = some now
first_of (some t) now = some t

abbrev pub or_now : Option ℕ → ℕ → ℕ
or_now none now = now
or_now (some t) now = t

abbrev pub outage_of : String → List Call → Option ℕ
outage_of url [] = none
outage_of url (checks u healthy now ∷ past) =
    let before = outage_of url past in
    if str_eq u url then if healthy then none else first_of before now else before
outage_of url (fails_over a b now ∷ past) = outage_of url past

abbrev pub failovers : List Call → ℕ
failovers [] = 0
failovers (checks u healthy now ∷ past) = failovers past
failovers (fails_over a b now ∷ past) = suc (failovers past)

-- The event of a failover, from the outage that it ends: it took the time since the first failed
-- check, none if there is no outage.
abbrev pub event_after : Options → Option ℕ → (from_url to_url : String) → (now : ℕ) → FailoverEvent
event_after o outage a b now =
    let latency = elapsed now (or_now outage now) in
    record {
      from_url = a;
      to_url = b;
      latency_ms = latency;
      slow_failover = exceeds latency o.latency_threshold_ms;
      timestamp = now;
    }

abbrev pub events_of : Options → List Call → List FailoverEvent
events_of o [] = []
events_of o (checks u healthy now ∷ past) = events_of o past
events_of o (fails_over a b now ∷ past) =
    events_of o past ++ event_after o (outage_of a past) a b now ∷ []

abbrev pub onto : List Call → List Call → List Call
onto past [] = past
onto past (x ∷ xs) = onto (x ∷ past) xs

module _ (o : Options) where
  pub record Tracks (past : List Call) (s : Monitor) : Type 0 where
    pub windows :
        (url : String) → window_of url s.health_windows ≡ recent o.window_size (checks_of url past)
    pub outages : (url : String) → lookup url s.first_failure_times ≡ outage_of url past
    pub kept : s.failover_events ≡ recent o.failover_event_cap (events_of o past)
    pub counted : length s.failover_events + s.dropped_events ≡ failovers past
    pub bounded : length s.failover_events ≤ o.failover_event_cap

  window_of-insert :
      (u url : String) (w : List Bool) (m : Dict (List Bool))
      → window_of url (insert u w m) ≡ (if str_eq u url then w else window_of url m)
  window_of-insert u url w m = rw (lookup-insert u url m w, window_of) (ground arith)

  has-lookup : (url : String) (m : Dict ℕ) → has url m ≡ true → (t : ℕ) × (lookup url m ≡ some t)
  unfolding has lookup
  has-lookup url [] h = cc
  has-lookup url ((k, v) ∷ m) h = elim (Bool-cases (str_eq k url)) [
    | inl e ↦ (v, rw e refl)
    | inr e ↦ let (t, p) = has-lookup url m (simp e at h) in (t, rw e p)
  ]

  noted-lookup :
      (m : Dict ℕ) (u url : String) (healthy : Bool) (now : ℕ)
      → lookup url (noted o m u healthy now) ≡ (
          if str_eq u url
          then if healthy then none else first_of (lookup url m) now
          else lookup url m)
  unfolding noted
  noted-lookup m u url true now = lookup-delete u url m ∙ ground arith
  noted-lookup m u url false now = elim (Bool-cases (has u m)) [
    | inl h ↦
        let (t, p) = has-lookup u m h in
        elim (Bool-cases (str_eq u url)) [
          | inl e ↦
              let q : lookup url m ≡ some t = ap (λ k. lookup k m) (sym ((eq_iff u url).0 e)) ∙ p in
              rw (h, e) (q ∙ sym (ap (λ x. first_of x now) q))
          | inr e ↦ rw (h, e) refl
        ]
    | inr h ↦ elim (Bool-cases (str_eq u url)) [
      | inl e ↦
          let q : lookup url m ≡ none =
            ap (λ k. lookup k m) (sym ((eq_iff u url).0 e)) ∙ has-eq-false u m h in
          rw (h, e) (lookup-insert u url m now ∙ rw e (sym (ap (λ x. first_of x now) q)))
      | inr e ↦ rw (h, e) (lookup-insert u url m now ∙ rw e refl)
    ]
  ]

  check-window :
      (past : List Call) (m : Dict (List Bool)) (u url : String) (healthy : Bool) (now : ℕ)
      → ((k : String) → window_of k m ≡ recent o.window_size (checks_of k past))
      → window_of url (insert u (push_capped o.window_size (window_of u m) healthy) m)
        ≡ recent o.window_size (checks_of url (checks u healthy now ∷ past))
  check-window past m u url healthy now h =
      let w = push_capped o.window_size (window_of u m) healthy in
      let pushed : w ≡ recent o.window_size (checks_of u past ++ healthy ∷ []) =
        ap (λ x. push_capped o.window_size x healthy) (h u)
        ∙ push_capped-recent o.window_size (checks_of u past) healthy in
      window_of-insert u url w m ∙ elim (Bool-cases (str_eq u url)) [
        | inl e ↦ rw e (
            pushed
            ∙ ap (λ k. recent o.window_size (checks_of k past ++ healthy ∷ []))
                ((eq_iff u url).0 e))
        | inr e ↦ rw e (h url)
      ]

  record_check-Tracks :
      (past : List Call) (s : Monitor) (u : String) (healthy : Bool) (now : ℕ)
      → Tracks past s
      → Tracks (checks u healthy now ∷ past) (record_check o s u healthy now)
  unfolding record_check
  record_check-Tracks past s u healthy now v = record {
    windows = λ url. check-window past s.health_windows u url healthy now v.windows;
    outages = λ url.
        noted-lookup s.first_failure_times u url healthy now
        ∙ ap (λ x. if str_eq u url then if healthy then none else first_of x now else x)
            (v.outages url);
    kept = v.kept;
    counted = v.counted;
    bounded = v.bounded;
  }

  event_of-after :
      (s : Monitor) (a b : String) (now : ℕ)
      → event_of o s a b now ≡ event_after o (lookup a s.first_failure_times) a b now
  unfolding event_of
  event_of-after s a b now = elim (Option-cases (lookup a s.first_failure_times)) [
    | inl h ↦ rw h refl
    | inr (t, h) ↦ rw h refl
  ]

  record_failover-Tracks :
      (past : List Call) (s : Monitor) (a b : String) (now : ℕ)
      → Tracks past s
      → Tracks (fails_over a b now ∷ past) (record_failover o s a b now).0
  unfolding record_failover
  record_failover-Tracks past s a b now v =
      let events = s.failover_events ++ event_of o s a b now ∷ [] in
      let l = length-append s.failover_events (event_of o s a b now ∷ []) in
      let d = length-drop (length events - o.failover_event_cap) events in
      record {
        windows = v.windows;
        outages = v.outages;
        kept =
            ap (λ es. recent o.failover_event_cap (es ++ event_of o s a b now ∷ [])) v.kept
            ∙ recent-push o.failover_event_cap (events_of o past) (event_of o s a b now)
            ∙ ap (λ e. recent o.failover_event_cap (events_of o past ++ e ∷ []))
                (event_of-after s a b now ∙ ap (λ x. event_after o x a b now) (v.outages a));
        counted = omega (arith, l, d, v.counted);
        bounded = omega (arith, l, d);
      }

  run-Tracks :
      (past : List Call) (s : Monitor) (xs : List Call)
      → Tracks past s
      → Tracks (onto past xs) (run o s xs)
  unfolding run step
  run-Tracks past s [] v = v
  run-Tracks past s (checks u healthy now ∷ xs) v =
      run-Tracks (checks u healthy now ∷ past) (record_check o s u healthy now) xs
        (record_check-Tracks past s u healthy now v)
  run-Tracks past s (fails_over a b now ∷ xs) v =
      run-Tracks (fails_over a b now ∷ past) (record_failover o s a b now).0 xs
        (record_failover-Tracks past s a b now v)

  init-Tracks : Tracks [] init
  unfolding init lookup
  init-Tracks = record {
    windows = λ url. sym (drop-nil (0 - o.window_size));
    outages = λ url. refl;
    kept = sym (drop-nil (0 - o.failover_event_cap));
    counted = omega arith;
    bounded = omega arith;
  }

  -- After any calls of a new monitor: each endpoint's window is its most recent checks, as many as the
  -- window holds; its outage began with the first failed check since it was last healthy, and none is
  -- noted while it is healthy; the events kept are the most recent failovers, as many as the cap allows,
  -- each with the time since its outage began as its latency; and every other failover is counted as
  -- dropped.
  pub run-init-Tracks : (xs : List Call) → Tracks (onto [] xs) (run o init xs)
  run-init-Tracks xs = run-Tracks [] init xs init-Tracks
