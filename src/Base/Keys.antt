-- ===== src/Base/Keys.antt =====
-- Maps whose keys are distinct, as those of an ECMAScript `Map` are, and how many keys there can be.
use vero_audit_guard.Base.Lists.{length, keep, All}
use vero_audit_guard.Base.Text.{str_eq, includes}
use vero_audit_guard.Base.Dict.{Dict, has, insert, delete}
use Prim.Native.Nat.{◌≤◌, ◌<◌}
use Prim.Native.String.{String}
use mathlib.Core.Path.{◌≡◌, refl}
use mathlib.Core.Bool.{true, false, not}
use mathlib.Core.List.{List, [], ◌∷◌}
use native.Mathlib.Omega.{arith}
use text.Mathlib.TextEquality.{eq_iff}

-- Each key once.
abbrev pub Distinct {ℓ} : {V : Type ℓ} → Dict V → Type 0
Distinct [] = Unit
Distinct ((k, v) ∷ m) = (has k m ≡ false) × Distinct m

module _ {ℓ} {V : Type ℓ} where
  pub has-delete : (c k : String) (m : Dict V) → has k m ≡ false → has k (delete c m) ≡ false
  unfolding has delete
  has-delete c k [] h = refl
  has-delete c k ((j, ts) ∷ m) h = ground (arith, has-delete c k m)

  pub has-delete_self : (c : String) (m : Dict V) → has c (delete c m) ≡ false
  unfolding has delete
  has-delete_self c [] = refl
  has-delete_self c ((j, ts) ∷ m) = ground (arith, has-delete_self c m)

  pub has-insert :
      (c k : String) (ts : V) (m : Dict V)
      → has k m ≡ false
      → str_eq c k ≡ false
      → has k (insert c ts m) ≡ false
  unfolding has insert
  has-insert c k ts [] h n = ground arith
  has-insert c k ts ((j, us) ∷ m) h n = ground (arith, has-insert c k ts m)

  pub Distinct-delete : (c : String) (m : Dict V) → Distinct m → Distinct (delete c m)
  unfolding delete
  Distinct-delete c [] d = tt
  Distinct-delete c ((k, ts) ∷ m) d = ground (arith, Distinct-delete c m d.1, has-delete c k m d.0)

  pub Distinct-insert : (c : String) (ts : V) (m : Dict V) → Distinct m → Distinct (insert c ts m)
  unfolding insert has
  Distinct-insert c ts [] d = (refl, tt)
  Distinct-insert c ts ((k, us) ∷ m) d =
      ground (arith, eq_iff k c, eq_iff c k, Distinct-insert c ts m d.1, has-insert c k ts m d.0)

-- A list of clients without one of them.
abbrev without : String → List String → List String
without c = keep (λ d. not (str_eq d c))

includes-without :
    (c d : String) (cs : List String)
    → includes cs d ≡ true
    → str_eq d c ≡ false
    → includes (without c cs) d ≡ true
includes-without c d [] h n = cc
includes-without c d (x ∷ xs) h n =
    ground (arith, eq_iff x c, eq_iff x d, eq_iff d c, includes-without c d xs)

length-without-le : (c : String) (cs : List String) → length (without c cs) ≤ length cs
length-without-le c [] = omega arith
length-without-le c (x ∷ xs) = ground (arith, length-without-le c xs)

length-without :
    (c : String) (cs : List String) → includes cs c ≡ true → length (without c cs) < length cs
length-without c [] h = cc
length-without c (x ∷ xs) h =
    ground (arith, eq_iff x c, length-without c xs, length-without-le c xs)

module _ {ℓ} {V : Type ℓ} where
  All-without :
      (k : String) (m : Dict V) (cs : List String)
      → has k m ≡ false
      → All (λ e. includes cs e.0 ≡ true) m
      → All (λ e. includes (without k cs) e.0 ≡ true) m
  unfolding has
  All-without k [] cs h b = tt
  All-without k ((j, us) ∷ m) cs h b =
      (includes-without k j cs b.0 (ground arith), All-without k m cs (ground arith) b.1)

  -- Distinct keys out of a list of clients are no more than the clients.
  pub length-Distinct-le :
      (m : Dict V) (cs : List String)
      → Distinct m
      → All (λ e. includes cs e.0 ≡ true) m
      → length m ≤ length cs
  length-Distinct-le [] cs d a = omega arith
  length-Distinct-le ((k, ts) ∷ m) cs d a =
      let n = length-without k cs a.0 in
      let r = length-Distinct-le m (without k cs) d.1 (All-without k m cs d.0 a.1) in omega arith
