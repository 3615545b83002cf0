-- ===== src/RateLimit/Window.antt =====
-- Counting within a rolling window: the independent description of the monitor, a count over the
-- whole history of requests, and facts about filtered and sorted timestamps.
use vero_audit_guard.Base.{
  ℕ, ◌+◌, ◌≤◌, ◌≡◌, refl, Bool, true, ◌&&◌, List, [], ◌∷◌, ◌++◌, String, arith, if◌then◌else◌,
  length, keep, last_or, str_eq, All, All-keep, All-append,
}
use vero_audit_guard.RateLimit.{is_active, active, is_stale}

-- The requests recorded so far, in any order: the client and the time of each.
abbrev pub History : Type 0
History = List (String × ℕ)

-- How many of them are of this client and within the window that ends at `now`.
abbrev pub hits : ℕ → String → ℕ → History → ℕ
hits window client now [] = 0
hits window client now ((c, t) ∷ h) =
    (if str_eq c client && is_active window now t then 1 else 0) + hits window client now h

abbrev pub count : ℕ → ℕ → List ℕ → ℕ
count window now ts = length (active window now ts)

module _ (window : ℕ) where
  pub count-append :
      (now : ℕ) (xs ys : List ℕ)
      → count window now (xs ++ ys) ≡ count window now xs + count window now ys
  count-append now [] ys = omega arith
  count-append now (x ∷ xs) ys = ground (arith, count-append now xs ys)

  -- What was filtered at one time counts no more at another.
  pub count-active-le :
      (now before : ℕ) (xs : List ℕ)
      → count window now (active window before xs) ≤ count window now xs
  count-active-le now before [] = omega arith
  count-active-le now before (x ∷ xs) = ground (arith, count-active-le now before xs)

  -- Nothing that counts later has been filtered out earlier.
  pub count-active :
      (now before : ℕ) (xs : List ℕ)
      → before ≤ now
      → count window now (active window before xs) ≡ count window now xs
  count-active now before [] h = refl
  count-active now before (x ∷ xs) h = ground (arith, count-active now before xs)

  abbrev pub Sorted : List ℕ → Type 0
  Sorted [] = Unit
  Sorted (x ∷ xs) = All (λ y. x ≤ y) xs × Sorted xs

  pub Sorted-keep : (p : ℕ → Bool) (xs : List ℕ) → Sorted xs → Sorted (keep p xs)
  Sorted-keep p [] h = h
  Sorted-keep p (x ∷ xs) h = ground (arith, Sorted-keep p xs h.1, All-keep (λ y. x ≤ y) p xs h.0)

  pub Sorted-concat :
      (xs : List ℕ) (now : ℕ) → Sorted xs → All (λ y. y ≤ now) xs → Sorted (xs ++ now ∷ [])
  Sorted-concat [] now h k = (tt, tt)
  Sorted-concat (x ∷ xs) now h k =
      (All-append (λ y. x ≤ y) xs (now ∷ []) h.0 (k.0, tt), Sorted-concat xs now h.1 k.1)

  -- The last of a sorted list is its greatest.
  pub le-last_or : (x : ℕ) (xs : List ℕ) → Sorted (x ∷ xs) → All (λ y. y ≤ last_or x xs) (x ∷ xs)
  le-last_or x [] h = (omega arith, tt)
  le-last_or x (y ∷ ys) h = let k = le-last_or y ys h.1 in (omega arith, k)

  count_old :
      (bound now : ℕ) (xs : List ℕ)
      → All (λ y. y ≤ bound) xs
      → bound + window ≤ now
      → count window now xs ≡ 0
  count_old bound now [] h k = refl
  count_old bound now (x ∷ xs) h k = ground (arith, count_old bound now xs h.1 k)

  -- A stale client counts nothing from then on.
  pub count-is_stale :
      (before now : ℕ) (xs : List ℕ)
      → Sorted xs
      → before ≤ now
      → is_stale window before xs ≡ true
      → count window now xs ≡ 0
  count-is_stale before now [] h l k = refl
  count-is_stale before now (x ∷ xs) h l k =
      count_old (last_or x xs) now (x ∷ xs) (le-last_or x xs h) (ground arith)
