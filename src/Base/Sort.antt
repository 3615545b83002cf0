-- ===== src/Base/Sort.antt =====
-- `Array.prototype.sort`, which is stable, and the order of texts by their UTF-16 code units.
use Prim.Native.Nat.{ℕ, suc}
use Prim.Native.String.{String}
use mathlib.Core.Path.{◌≡◌, refl}
use mathlib.Core.Logic.{inl, inr}
use mathlib.Core.Bool.{Bool, true, false}
use mathlib.Core.List.{List, [], ◌∷◌, Perm}
use mathlib.Core.List.Perm
use native.Mathlib.Omega.{arith}
use vero_audit_guard.Base.Tests.{if◌then◌else◌, ltb, Bool-cases}
use vero_audit_guard.Base.Lists.{length}
use vero_audit_guard.Base.Text.{code_units}

abbrev pub units_ltb : List ℕ → List ℕ → Bool
units_ltb [] [] = false
units_ltb [] (d ∷ ds) = true
units_ltb (c ∷ cs) [] = false
units_ltb (c ∷ cs) (d ∷ ds) =
    let rest = units_ltb cs ds in if ltb c d then true else if ltb d c then false else rest

-- `s < t` on texts
abbrev pub text_ltb : String → String → Bool
text_ltb s t = units_ltb (code_units s) (code_units t)

module _ {ℓ} {A : Type ℓ} (before : A → A → Bool) where
  -- An element goes behind those that it does not come before.
  unfoldable pub insert_sorted : A → List A → List A
  insert_sorted x [] = x ∷ []
  insert_sorted x (y ∷ ys) = if before y x then y ∷ insert_sorted x ys else x ∷ y ∷ ys

  unfoldable pub sort : List A → List A
  sort [] = []
  sort (x ∷ xs) = insert_sorted x (sort xs)

  insert_sorted-perm : (x : A) (xs : List A) → Perm (insert_sorted x xs) (x ∷ xs)
  unfolding insert_sorted
  insert_sorted-perm x [] = Perm.refl (x ∷ [])
  insert_sorted-perm x (y ∷ ys) = elim (Bool-cases (before y x)) [
    | inl b ↦ rw b (Perm.trans (Perm.cons y (insert_sorted-perm x ys)) (Perm.swap x y ys))
    | inr b ↦ rw b (Perm.refl (x ∷ y ∷ ys))
  ]

  pub sort-perm : (xs : List A) → Perm (sort xs) xs
  unfolding sort
  sort-perm [] = Perm.refl []
  sort-perm (x ∷ xs) = Perm.trans (insert_sorted-perm x (sort xs)) (Perm.cons x (sort-perm xs))

  length-insert_sorted : (x : A) (xs : List A) → length (insert_sorted x xs) ≡ suc (length xs)
  unfolding insert_sorted
  length-insert_sorted x [] = refl
  length-insert_sorted x (y ∷ ys) = ground (arith, length-insert_sorted x ys)

  pub length-sort : (xs : List A) → length (sort xs) ≡ length xs
  unfolding sort
  length-sort [] = refl
  length-sort (x ∷ xs) = omega (arith, length-insert_sorted x (sort xs), length-sort xs)
