-- ===== src/RateLimit/Times.antt =====
-- The timestamps that the monitor's map holds for a client, after a sweep, an insertion, an eviction.
use vero_audit_guard.Base.{
  ℕ, ◌≤◌, ◌≡◌, refl, sym, ap, ◌∙◌, inl, inr, true, false, List, [], ◌∷◌, String, arith,
  if◌then◌else◌, length, str_eq, eq_iff, All, Bool-cases, includes,
}
use vero_audit_guard.Base.Dict.{
  Dict, lookup, has, insert, delete, lookup-insert, lookup-delete, has-eq-false,
}
use vero_audit_guard.Base.Keys.{Distinct}
use vero_audit_guard.RateLimit.{is_stale, sweep, enforce_caps, times}
use vero_audit_guard.RateLimit.Window.{count, Sorted, count-is_stale}

pub Distinct-sweep :
    (window now : ℕ) (m : Dict (List ℕ)) → Distinct m → Distinct (sweep window now m)
unfolding sweep
Distinct-sweep window now [] d = tt
Distinct-sweep window now ((k, ts) ∷ m) d = ground (arith, Distinct-sweep window now m d.1)

pub enforce_caps-le : (cap : ℕ) (m : Dict (List ℕ)) → length m ≤ cap → enforce_caps cap m ≡ m
unfolding enforce_caps
enforce_caps-le cap [] h = refl
enforce_caps-le cap ((k, ts) ∷ m) h = ground arith

pub times-insert :
    (c d : String) (ts : List ℕ) (m : Dict (List ℕ))
    → times d (insert c ts (delete c m)) ≡ (if str_eq c d then ts else times d m)
times-insert c d ts m =
    rw (times, lookup-insert c d (delete c m) ts, lookup-delete c d m) (ground arith)

pub times-put_hit :
    (c d : String) (ts : List ℕ) (m : Dict (List ℕ)) (f : List ℕ → ℕ)
    → str_eq c d ≡ true
    → f (times d (insert c ts (delete c m))) ≡ f ts
times-put_hit c d ts m f e = ap f (times-insert c d ts m ∙ ap (λ b. if b then ts else times d m) e)

pub times-put_miss :
    (c d : String) (ts : List ℕ) (m : Dict (List ℕ)) (f : List ℕ → ℕ)
    → str_eq c d ≡ false
    → f (times d (insert c ts (delete c m))) ≡ f (times d m)
times-put_miss c d ts m f e = ap f (times-insert c d ts m ∙ ap (λ b. if b then ts else times d m) e)

pub times-delete :
    (c d : String) (m : Dict (List ℕ))
    → times d (delete c m) ≡ (if str_eq c d then [] else times d m)
times-delete c d m = rw (times, lookup-delete c d m) (ground arith)

pub times-gone :
    (c d : String) (m : Dict (List ℕ)) (f : List ℕ → ℕ)
    → str_eq c d ≡ true
    → f (times d (delete c m)) ≡ f []
times-gone c d m f e = ap f (times-delete c d m ∙ ap (λ b. if b then [] else times d m) e)

pub times-kept :
    (c d : String) (m : Dict (List ℕ)) (f : List ℕ → ℕ)
    → str_eq c d ≡ false
    → f (times d (delete c m)) ≡ f (times d m)
times-kept c d m f e = ap f (times-delete c d m ∙ ap (λ b. if b then [] else times d m) e)

pub has-All :
    (cs : List String) (c : String) (m : Dict (List ℕ))
    → All (λ e. includes cs e.0 ≡ true) m
    → has c m ≡ true
    → includes cs c ≡ true
unfolding has
has-All cs c [] h e = cc
has-All cs c ((k, ts) ∷ m) h e = elim (Bool-cases (str_eq k c)) [
  | inl q ↦ rw (← (eq_iff k c).0 q) h.0
  | inr q ↦ has-All cs c m h.1 (ground arith)
]

pub times-has : (c : String) (m : Dict (List ℕ)) → has c m ≡ false → times c m ≡ []
times-has c m h = rw (times, has-eq-false c m h)

pub times-hit :
    (c k : String) (ts : List ℕ) (m : Dict (List ℕ))
    → str_eq k c ≡ true
    → times c ((k, ts) ∷ m) ≡ ts
unfolding lookup
times-hit c k ts m h = ground arith

pub times-miss :
    (c k : String) (ts : List ℕ) (m : Dict (List ℕ))
    → str_eq k c ≡ false
    → times c ((k, ts) ∷ m) ≡ times c m
unfolding lookup
times-miss c k ts m h = ground arith

-- An entry's times are sorted, and none is later than `t`.
abbrev pub Good : ℕ → ℕ → String × List ℕ → Type 0
Good window t (k, ts) = Sorted window ts × All (λ x. x ≤ t) ts

pub count-sweep :
    (window before now : ℕ) (c : String) (m : Dict (List ℕ)) (t : ℕ)
    → Distinct m
    → All (Good window t) m
    → before ≤ now
    → count window now (times c (sweep window before m)) ≡ count window now (times c m)
unfolding sweep lookup
count-sweep window before now c [] t d g l = refl
count-sweep window before now c ((k, ts) ∷ m) t d g l =
    elim (Bool-cases (is_stale window before ts)) [
      | inr e ↦ rw e
      | inl e ↦
          let old = count-is_stale window before now ts g.0.0 l e in
          let rest = count-sweep window before now c m t d.1 g.1 l in
          rw e (elim (Bool-cases (str_eq k c)) [
            | inr n ↦ rest ∙ ap (count window now) (sym (times-miss c k ts m n))
            | inl n ↦
                rest
                ∙ ap (count window now) (times-has c m (rw (← (eq_iff k c).0 n) d.0))
                ∙ sym old
                ∙ ap (count window now) (sym (times-hit c k ts m n))
          ])
    ]
