-- ===== src/RateLimit/Exact.antt =====
-- The monitor against the count over the history, on a clock that does not run back and with no more
-- clients than the map may hold.
use native.Mathlib.Nat.{le_trans}
use vero_audit_guard.Base.{
  ℕ, ◌+◌, ◌≤◌, ◌≡◌, refl, ap, ◌∙◌, inl, inr, true, List, [], ◌∷◌, String, arith, length,
  length-append, length-keep-le, keep, str_eq, eq_iff, ltb, leb, All, All-keep, All-append,
  Bool-cases, Option-cases, includes,
}
use vero_audit_guard.Base.Dict.{Dict, lookup, has, insert, delete}
use vero_audit_guard.Base.Keys.{Distinct, Distinct-insert, Distinct-delete, length-Distinct-le}
use vero_audit_guard.RateLimit.{
  Options, active, is_active, sweep, times, verdict, stored, record_request, get_request_count,
  Call, records, counts, step, run,
}
use vero_audit_guard.RateLimit.Window.{
  History, hits, count, count-append, count-active, Sorted-keep, Sorted-concat,
}
use vero_audit_guard.RateLimit.Sound.{All-sweep, All-delete, All-insert, All-lookup, past}
use vero_audit_guard.RateLimit.Times.{
  Distinct-sweep, enforce_caps-le, times-put_hit, times-put_miss, times-gone, times-kept, has-All,
  Good, count-sweep,
}

-- What a call says of the clock, and of the client that it stores.
abbrev pub time_of : Call → ℕ
time_of (records client now) = now
time_of (counts client now) = now

abbrev pub IsKnown : List String → Call → Type 0
IsKnown cs (records client now) = includes cs client ≡ true
IsKnown cs (counts client now) = Unit {0}

-- The clock does not run back.
abbrev pub Rises : ℕ → List Call → Type 0
Rises t [] = Unit
Rises t (x ∷ xs) = (t ≤ time_of x) × Rises (time_of x) xs

abbrev pub clock : ℕ → List Call → ℕ
clock t [] = t
clock t (x ∷ xs) = clock (time_of x) xs

module _ (o : Options) (cs : List String) where
  -- The map after a history that ends at `t`.
  record Exact (h : History) (t : ℕ) (m : Dict (List ℕ)) : Type 0 where
    distinct : Distinct m
    good : All (Good o.window_ms t) m
    known : All (λ e. includes cs e.0 ≡ true) m
    counted :
        (c : String) (now : ℕ)
        → t ≤ now
        → count o.window_ms now (times c m) ≡ hits o.window_ms c now h

  All-Good-le :
      (s t : ℕ) (m : Dict (List ℕ))
      → s ≤ t
      → All (Good o.window_ms s) m
      → All (Good o.window_ms t) m
  All-Good-le s t [] l g = tt
  All-Good-le s t ((k, ts) ∷ m) l g = ((g.0.0, All-le ts g.0.1), All-Good-le s t m l g.1)
    where
      All-le : (xs : List ℕ) → All (λ x. x ≤ s) xs → All (λ x. x ≤ t) xs
      All-le [] h = tt
      All-le (x ∷ xs) h = (omega arith, All-le xs h.1)

  times-Good :
      (t : ℕ) (c : String) (m : Dict (List ℕ))
      → All (Good o.window_ms t) m
      → Good o.window_ms t (c, times c m)
  times-Good t c m g = elim (Option-cases (lookup c m)) [
    | inl e ↦ rw (e, times) (tt, tt)
    | inr (ts, e) ↦ rw (e, times) (All-lookup (Good o.window_ms t) c ts m g e)
  ]

  sweep-Exact :
      (h : History) (t now : ℕ) (m : Dict (List ℕ))
      → t ≤ now
      → Exact h t m
      → Exact h now (sweep o.window_ms now m)
  sweep-Exact h t now m l v = record {
    distinct = Distinct-sweep o.window_ms now m v.distinct;
    good = All-sweep _ o.window_ms now m (All-Good-le t now m l v.good);
    known = All-sweep _ o.window_ms now m v.known;
    counted = λ c later k.
        count-sweep o.window_ms now later c m t v.distinct v.good k
        ∙ v.counted c later (omega arith);
  }

  stored-Good :
      (h : History) (t now : ℕ) (m : Dict (List ℕ)) (c : String)
      → t ≤ now
      → Exact h t m
      → Good o.window_ms now (c, stored o m c now)
  unfolding stored
  stored-Good h t now m c l v =
      let w = sweep-Exact h t now m l v in
      let g = times-Good now c (sweep o.window_ms now m) w.good in
      let p = is_active o.window_ms now in
      let ts = times c (sweep o.window_ms now m) in
      let a = All-keep (λ x. x ≤ now) p ts g.1 in
      (
        Sorted-concat o.window_ms (keep p ts) now (Sorted-keep o.window_ms p ts g.0) a,
        All-append (λ x. x ≤ now) (keep p ts) (now ∷ []) a (omega arith, tt),
      )

  count-stored :
      (h : History) (t now later : ℕ) (m : Dict (List ℕ)) (c : String)
      → t ≤ now
      → now ≤ later
      → Exact h t m
      → count o.window_ms later (stored o m c now) ≡ hits o.window_ms c later ((c, now) ∷ h)
  unfolding stored
  count-stored h t now later m c l k v =
      let w = sweep-Exact h t now m l v in
      let ts = times c (sweep o.window_ms now m) in
      ground (
        arith,
        eq_iff c c,
        count-append o.window_ms later (active o.window_ms now ts) (now ∷ []),
        count-active o.window_ms later now ts,
        w.counted c later,
      )

  record_request-Exact :
      (h : History) (t : ℕ) (m : Dict (List ℕ)) (c : String) (now : ℕ)
      → length cs ≤ o.max_tracked_clients
      → includes cs c ≡ true
      → t ≤ now
      → Exact h t m
      → Exact ((c, now) ∷ h) now (record_request o m c now).0
  unfolding record_request
  record_request-Exact h t m c now few kn l v =
      rw
        (enforce_caps-le o.max_tracked_clients put
          (le_trans (length-Distinct-le put cs dist keys) few))
        (record { distinct = dist; good = goods; known = keys; counted = cnt })
    where
      swept : Dict (List ℕ)
      swept = sweep o.window_ms now m

      w : Exact h now swept
      w = sweep-Exact h t now m l v

      put : Dict (List ℕ)
      put = insert c (stored o m c now) (delete c swept)

      dist : Distinct put
      dist =
          Distinct-insert c (stored o m c now) (delete c swept) (Distinct-delete c swept w.distinct)

      keys : All (λ e. includes cs e.0 ≡ true) put
      keys = All-insert _ c (stored o m c now) (delete c swept) (All-delete _ c swept w.known) kn

      goods : All (Good o.window_ms now) put
      goods =
          All-insert _ c (stored o m c now) (delete c swept) (All-delete _ c swept w.good)
            (stored-Good h t now m c l v)

      cnt :
          (d : String) (later : ℕ)
          → now ≤ later
          → count o.window_ms later (times d put) ≡ hits o.window_ms d later ((c, now) ∷ h)
      cnt d later k = elim (Bool-cases (str_eq c d)) [
        | inl e ↦
            times-put_hit c d (stored o m c now) swept (count o.window_ms later) e
            ∙ count-stored h t now later m c l k v
            ∙ ap (λ x. hits o.window_ms x later ((c, now) ∷ h)) ((eq_iff c d).0 e)
        | inr e ↦
            times-put_miss c d (stored o m c now) swept (count o.window_ms later) e
            ∙ w.counted d later k
            ∙ rw e (omega arith)
      ]

  -- After a read the stored entry is the filtered one, or nothing where nothing is left.
  get_request_count-Exact :
      (h : History) (t : ℕ) (m : Dict (List ℕ)) (c : String) (now : ℕ)
      → t ≤ now
      → Exact h t m
      → Exact h now (get_request_count o m c now).0
  unfolding get_request_count
  get_request_count-Exact h t m c now l v = elim (Bool-cases (has c swept)) [
    | inr e ↦ rw e w
    | inl e ↦ rw e (elim (Bool-cases (ltb 0 (length found))) [
      | inl n ↦ rw n (record {
        distinct = Distinct-insert c found (delete c swept) (Distinct-delete c swept w.distinct);
        good = All-insert _ c found (delete c swept) (All-delete _ c swept w.good) found-Good;
        known =
            All-insert _ c found (delete c swept) (All-delete _ c swept w.known)
              (has-All cs c swept w.known e);
        counted = λ d later k. elim (Bool-cases (str_eq c d)) [
          | inl q ↦
              times-put_hit c d found swept (count o.window_ms later) q
              ∙ count-active o.window_ms later now (times c swept) k
              ∙ w.counted c later k
              ∙ ap (λ x. hits o.window_ms x later h) ((eq_iff c d).0 q)
          | inr q ↦ times-put_miss c d found swept (count o.window_ms later) q ∙ w.counted d later k
        ];
      })
      | inr n ↦ rw n (record {
        distinct = Distinct-delete c swept w.distinct;
        good = All-delete _ c swept w.good;
        known = All-delete _ c swept w.known;
        counted = λ d later k. elim (Bool-cases (str_eq c d)) [
          | inl q ↦
              times-gone c d swept (count o.window_ms later) q
              ∙ unread later k (ground arith)
              ∙ ap (λ x. hits o.window_ms x later h) ((eq_iff c d).0 q)
          | inr q ↦ times-kept c d swept (count o.window_ms later) q ∙ w.counted d later k
        ];
      })
    ])
  ]
    where
      swept : Dict (List ℕ)
      swept = sweep o.window_ms now m

      w : Exact h now swept
      w = sweep-Exact h t now m l v

      found : List ℕ
      found = active o.window_ms now (times c swept)

      found-Good : Good o.window_ms now (c, found)
      found-Good =
          let g = times-Good now c swept w.good in
          (
            Sorted-keep o.window_ms _ (times c swept) g.0,
            All-keep (λ x. x ≤ now) _ (times c swept) g.1,
          )

      -- A client with nothing left in the window now has nothing left later.
      unread : (later : ℕ) → now ≤ later → length found ≤ 0 → 0 ≡ hits o.window_ms c later h
      unread later k n = omega (
        arith,
        length-keep-le (is_active o.window_ms later) found,
        count-active o.window_ms later now (times c swept) k,
        w.counted c later k,
      )

  run-Exact :
      (h : History) (t : ℕ) (m : Dict (List ℕ)) (xs : List Call)
      → length cs ≤ o.max_tracked_clients
      → All (IsKnown cs) xs
      → Rises t xs
      → Exact h t m
      → Exact (past h xs) (clock t xs) (run o m xs)
  unfolding run step
  run-Exact h t m [] few kn r v = v
  run-Exact h t m (records c now ∷ xs) few kn r v =
      run-Exact ((c, now) ∷ h) now (record_request o m c now).0 xs few kn.1 r.1
        (record_request-Exact h t m c now few kn.0 r.0 v)
  run-Exact h t m (counts c now ∷ xs) few kn r v =
      run-Exact h now (get_request_count o m c now).0 xs few kn.1 r.1
        (get_request_count-Exact h t m c now r.0 v)

  init-Exact : Exact [] 0 []
  unfolding lookup
  init-Exact = record { distinct = tt; good = tt; known = tt; counted = λ c now k. refl }

  -- On a clock that does not run back, and while the clients are at most as many as the map may hold:
  -- after any records and reads of a new monitor, a request is answered with exactly one more than
  -- the client's earlier requests within the window, and is refused exactly if that exceeds the
  -- threshold.
  pub record_request_exact :
      (xs : List Call) (client : String) (now : ℕ)
      → length cs ≤ o.max_tracked_clients
      → All (IsKnown cs) xs
      → Rises 0 xs
      → clock 0 xs ≤ now
      → let result = (record_request o (run o [] xs) client now).1 in
        let earlier = hits o.window_ms client now (past [] xs) in
        (result.request_count ≡ earlier + 1) × (result.allowed ≡ leb (earlier + 1) o.threshold)
  unfolding record_request verdict stored
  record_request_exact xs client now few kn r l =
      let v = sweep-Exact _ _ now _ l (run-Exact [] 0 [] xs few kn r init-Exact) in
      let n =
        length-append (active o.window_ms now (times client (sweep o.window_ms now (run o [] xs))))
          (now ∷ []) in
      let k = v.counted client now (omega arith) in ground arith
